-- ===== src/Prelude/Words.antt =====
-- `std::size_t` and the fixed-width integers: the wrap-around is written out.
use Prim.Native.Nat.{ℕ, ◌+◌, ◌-◌, ◌*◌, ◌%◌, ◌/◌, ◌^◌}

-- `std::size_t` has 64 bits on the platforms that the build names.
abbrev pub size_mod : ℕ
size_mod = 2 ^ 64

abbrev pub add_size : ℕ → ℕ → ℕ
add_size a b = (a + b) % size_mod

abbrev pub sub_size : ℕ → ℕ → ℕ
sub_size a b = (a + size_mod - b) % size_mod

abbrev pub mul_size : ℕ → ℕ → ℕ
mul_size a b = (a * b) % size_mod

-- `(value >> shift) & 0xff` as an octet.
abbrev pub octet : ℕ → ℕ → ℕ
octet value shift = value / 2 ^ shift % 256
