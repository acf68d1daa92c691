-- ===== src/Protocol/Http2/Hpack/CoderBits.antt =====
-- The bits of the numbers that `HuffmanEncoder` shifts.
use iocp_http_runtime.Prelude.{
  ℕ, zero, suc, ◌+◌, ◌-◌, ◌*◌, ◌/◌, ◌%◌, ◌^◌, ◌≤◌, ◌<◌, ◌≡◌, refl, sym, ap, ap₂, ◌∙◌, subst, List,
  [], ◌∷◌, ◌++◌, append-nil, append_assoc, false, ◌==◌, leb, bit_or, bit_or-shifted, arith, inl,
  inr, Bool-cases,
}
use native.Mathlib.Nat.{pow-suc}
use iocp_http_runtime.Protocol.Http2.Hpack.Coder.{shift_right, low_bits, push_code, emit}

low_bits-snoc : (n v : ℕ) → low_bits (suc n) v ≡ low_bits n (v / 2) ++ (v % 2) ∷ []
unfolding low_bits shift_right
low_bits-snoc zero v = refl
low_bits-snoc (suc n) v = ap (λ xs. (shift_right n (v / 2) % 2) ∷ xs) (low_bits-snoc n v)

double : (h n : ℕ) → h * 2 ^ suc n ≡ 2 * (h * 2 ^ n)
double h n = omega (arith, ap (λ k. h * k) (pow-suc 2 n))

low_bits-append :
    (m n h c : ℕ) → c < 2 ^ n → low_bits (m + n) (h * 2 ^ n + c) ≡ low_bits m h ++ low_bits n c
unfolding low_bits
low_bits-append m zero h c l =
    ap₂ low_bits {x = m + 0} {y = m} (omega arith) (omega arith) ∙ sym (append-nil (low_bits m h))
low_bits-append m (suc n) h c l =
    let d = double h n in
    let below : c / 2 < 2 ^ n = omega (arith, pow-suc 2 n) in
    let half : (h * 2 ^ suc n + c) / 2 ≡ h * 2 ^ n + c / 2 = omega (arith, d) in
    let bit : (h * 2 ^ suc n + c) % 2 ≡ c % 2 = omega (arith, d) in
    ap (λ k. low_bits k (h * 2 ^ suc n + c)) {x = m + suc n} {y = suc (m + n)} (omega arith)
    ∙ low_bits-snoc (m + n) (h * 2 ^ suc n + c)
    ∙ ap₂ (λ a b. low_bits (m + n) a ++ b ∷ []) half bit
    ∙ ap (λ xs. xs ++ (c % 2) ∷ []) (low_bits-append m n h (c / 2) below)
    ∙ append_assoc (low_bits m h) (low_bits n (c / 2)) ((c % 2) ∷ [])
    ∙ ap (λ xs. low_bits m h ++ xs) (sym (low_bits-snoc n c))

-- The bits above do not count.
pub low_bits-high : (n h v : ℕ) → low_bits n (h * 2 ^ n + v) ≡ low_bits n v
unfolding low_bits
low_bits-high zero h v = refl
low_bits-high (suc n) h v =
    let d = double h n in
    let half : (h * 2 ^ suc n + v) / 2 ≡ h * 2 ^ n + v / 2 = omega (arith, d) in
    let bit : (h * 2 ^ suc n + v) % 2 ≡ v % 2 = omega (arith, d) in
    low_bits-snoc n (h * 2 ^ suc n + v)
    ∙ ap₂ (λ a b. low_bits n a ++ b ∷ []) half bit
    ∙ ap (λ xs. xs ++ (v % 2) ∷ []) (low_bits-high n h (v / 2))
    ∙ sym (low_bits-snoc n v)

shift_right-parts : (n h c : ℕ) → c < 2 ^ n → shift_right n (h * 2 ^ n + c) ≡ h
unfolding shift_right
shift_right-parts zero h c l = omega arith
shift_right-parts (suc n) h c l =
    ap (shift_right n) {x = (h * 2 ^ suc n + c) / 2} {y = h * 2 ^ n + c / 2}
      (omega (arith, double h n))
    ∙ shift_right-parts n h (c / 2) (omega (arith, pow-suc 2 n))

-- A number at a bit.
parts : (n v : ℕ) → (h : ℕ) × (c : ℕ) × (v ≡ h * 2 ^ n + c) × (c < 2 ^ n)
parts zero v = (v, 0, omega arith, omega arith)
parts (suc n) v =
    let (h, c, e, l) = parts n (v / 2) in
    (h, 2 * c + v % 2, omega (arith, e, double h n), omega (arith, l, pow-suc 2 n))

pow-add : (m n : ℕ) → 2 ^ (m + n) ≡ 2 ^ m * 2 ^ n
pow-add zero n = ap (λ k. 2 ^ k) {x = 0 + n} {y = n} (omega arith) ∙ omega arith
pow-add (suc m) n =
    ap (λ k. 2 ^ k) {x = suc m + n} {y = suc (m + n)} (omega arith)
    ∙ pow-suc 2 (m + n)
    ∙ omega (arith, pow-add m n, ap (λ k. k * 2 ^ n) (pow-suc 2 m))

pub some-not_zero : (n : ℕ) → 0 < n → (n == 0) ≡ false
some-not_zero n h = ground arith

pub pow-positive : (n : ℕ) → 0 < 2 ^ n
pow-positive zero = omega arith
pow-positive (suc n) = omega (arith, pow-suc 2 n, pow-positive n)

-- A code behind the bits that are pending; the bits that the shift drops are not among them.
pub low_bits-push_code :
    (pending bits room current code : ℕ)
    → (pending + bits) + room ≡ 64
    → code < 2 ^ bits
    → low_bits (pending + bits) (push_code current bits code)
      ≡ low_bits pending current ++ low_bits bits code
low_bits-push_code pending bits room current code e l =
    let (h, c, whole, small) = parts (pending + room) current in
    let top : (h * 2 ^ (pending + room)) * 2 ^ bits ≡ h * 2 ^ 64 =
      mul_assoc h (2 ^ (pending + room)) (2 ^ bits)
      ∙ ap (λ n. h * n)
          (sym (pow-add (pending + room) bits)
            ∙ ap (λ n. 2 ^ n) {x = (pending + room) + bits} {y = 64} (omega (arith, e))) in
    let split : current * 2 ^ bits ≡ h * 2 ^ 64 + c * 2 ^ bits =
      ap (λ n. n * 2 ^ bits) whole
      ∙ add_mul (h * 2 ^ (pending + room)) c (2 ^ bits)
      ∙ ap (λ n. n + c * 2 ^ bits) top in
    let fits : c * 2 ^ bits < 2 ^ 64 =
      subst (λ n. c * 2 ^ bits < n)
        (sym (pow-add (pending + room) bits)
          ∙ ap (λ n. 2 ^ n) {x = (pending + room) + bits} {y = 64} (omega (arith, e)))
        (scaled c (2 ^ (pending + room)) bits small) in
    let kept : (current * 2 ^ bits) % 2 ^ 64 ≡ c * 2 ^ bits = omega (arith, split, fits) in
    let above : h * 2 ^ (pending + room) ≡ (h * 2 ^ room) * 2 ^ pending =
      ap (λ n. h * n)
        (ap (λ n. 2 ^ n) {x = pending + room} {y = room + pending} (omega arith)
          ∙ pow-add room pending)
      ∙ sym (mul_assoc h (2 ^ room) (2 ^ pending)) in
    ap (low_bits (pending + bits)) (ap (λ n. bit_or n code) kept ∙ bit_or-shifted bits c code l)
    ∙ low_bits-append pending bits c code l
    ∙ ap (λ xs. xs ++ low_bits bits code)
        (sym (low_bits-high pending (h * 2 ^ room) c)
          ∙ ap (low_bits pending) (ap (λ n. n + c) (sym above) ∙ sym whole))
  where
    mul_assoc : (x y z : ℕ) → (x * y) * z ≡ x * (y * z)
    mul_assoc x y z = grind arith

    add_mul : (x y z : ℕ) → (x + y) * z ≡ x * z + y * z
    add_mul x y z = grind arith

    scaled : (x y n : ℕ) → x < y → x * 2 ^ n < y * 2 ^ n
    scaled x y zero l = omega arith
    scaled x y (suc n) l = omega (arith, double x n, double y n, scaled x y n l)

-- The octets that are full, then the bits that are left.
abbrev pub octet_bits : List ℕ → List ℕ
octet_bits [] = []
octet_bits (octet ∷ octets) = low_bits 8 octet ++ octet_bits octets

pub octet_bits-append : (xs ys : List ℕ) → octet_bits (xs ++ ys) ≡ octet_bits xs ++ octet_bits ys
octet_bits-append [] ys = refl
octet_bits-append (x ∷ xs) ys =
    ap (λ zs. low_bits 8 x ++ zs) (octet_bits-append xs ys)
    ∙ sym (append_assoc (low_bits 8 x) (octet_bits xs) (octet_bits ys))

full_octet :
    (left current : ℕ)
    → low_bits (8 + left) current
      ≡ low_bits 8 (shift_right left current % 256) ++ low_bits left current
full_octet left current =
    let (h, c, whole, small) = parts left current in
    let shifted : shift_right left current ≡ h =
      ap (shift_right left) whole ∙ shift_right-parts left h c small in
    let octet : low_bits 8 h ≡ low_bits 8 (shift_right left current % 256) =
      ap (low_bits 8) {x = h} {y = (h / 256) * 2 ^ 8 + h % 256} (omega arith)
      ∙ low_bits-high 8 (h / 256) (h % 256)
      ∙ ap (λ n. low_bits 8 (n % 256)) (sym shifted) in
    ap (low_bits (8 + left)) whole
    ∙ low_bits-append 8 left h c small
    ∙ ap₂ (λ xs ys. xs ++ ys) octet (sym (low_bits-high left h c) ∙ ap (low_bits left) (sym whole))

pub emit_lem :
    (fuel current filled : ℕ)
    → filled ≤ fuel
    → (octet_bits (emit fuel current filled).0 ++ low_bits (emit fuel current filled).1 current
        ≡ low_bits filled current)
      × ((emit fuel current filled).1 < 8)
unfolding emit
emit_lem zero current filled h = (refl, omega arith)
emit_lem (suc fuel) current filled h = elim (Bool-cases (leb 8 filled)) [
  | inl full ↦
      let (read, few) = emit_lem fuel current (filled - 8) (omega arith) in
      let more : 8 + (filled - 8) ≡ filled = ground (arith, full) in
      rw full (
        append_assoc (low_bits 8 (shift_right (filled - 8) current % 256))
              (octet_bits (emit fuel current (filled - 8)).0)
              (low_bits (emit fuel current (filled - 8)).1 current)
            ∙ ap (λ xs. low_bits 8 (shift_right (filled - 8) current % 256) ++ xs) read
            ∙ sym (full_octet (filled - 8) current)
            ∙ ap (λ n. low_bits n current) more,
        few,
      )
  | inr few ↦ rw few (refl, ground (arith, few))
]
