-- ===== src/Buffer/View.antt =====
-- src/buffer/byte_view.h. A read-only view is the list of the bytes that it shows: it is valid
-- until the next mutation of its storage only, and no modelled code keeps it longer. A mutable
-- view is a range of positions of a storage.
use iocp_http_runtime.Prelude.{
  ℕ, ◌+◌, ◌-◌, ◌^◌, List, if◌then◌else◌, ltb, ◌==◌, length, take, drop, get_elem?, none, some,
  Result, ok, throws, out_of_range, undefined, Option,
}

abbrev pub ByteView : Type 0
ByteView = List ℕ

pub record MutableByteView : Type 0 where
  pub offset : ℕ
  pub size : ℕ

-- `static_cast<std::size_t>(-1)`: the rest of the view.
abbrev pub npos : ℕ
npos = 2 ^ 64 - 1

abbrev pub or_undefined : Option ℕ → Result ℕ
or_undefined none = throws undefined
or_undefined (some b) = ok b

-- `operator[]`, which checks nothing.
abbrev pub index : ByteView → ℕ → Result ℕ
index v i = or_undefined (get_elem? v i)

unfoldable pub sub_view : ByteView → ℕ → ℕ → Result ByteView
sub_view v offset count =
    if ltb (length v) offset
    then throws out_of_range
    else let remaining = length v - offset in
      let result_size = if count == npos then remaining else count in
      if ltb remaining result_size
      then throws out_of_range
      else ok (take result_size (drop offset v))

unfoldable pub mutable_sub_view : MutableByteView → ℕ → ℕ → Result MutableByteView
mutable_sub_view v offset count =
    if ltb v.size offset
    then throws out_of_range
    else let remaining = v.size - offset in
      let result_size = if count == npos then remaining else count in
      if ltb remaining result_size
      then throws out_of_range
      else ok (record { offset = v.offset + offset; size = result_size })
