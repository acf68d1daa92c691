-- ===== src/Buffer/Ring/Write.antt =====
-- What `CopyFrom` does to the storage of a RingReceiveBuffer: the written bytes stand behind the
-- readable ones, which do not move.
use iocp_http_runtime.Prelude.{
  ℕ, ◌+◌, ◌-◌, ◌≤◌, ◌<◌, ◌≡◌, ◌∙◌, List, ◌++◌, arith, if◌then◌else◌, ltb, length, take, drop,
  write_at, get_elem?, length-take, length-drop, length-write_at, get_elem?-take, get_elem?-drop,
  get_elem?-append, get_elem?-write_at, get_elem?-injective, get_elem?-none,
}
use iocp_http_runtime.Buffer.Ring.{RingReceiveBuffer, write_offset}
use iocp_http_runtime.Buffer.Ring.Valid.{
  IsValid, contents, length-contents, get_elem?-contents, write_offset-around, around,
}

-- The storage after `bytes` were written from `offset` to its end, and on from its start.
abbrev pub lay : List ℕ → ℕ → List ℕ → List ℕ
lay storage offset bytes =
    let room = length storage - offset in
    write_at (write_at storage offset (take room bytes)) 0 (drop room bytes)

module _ (storage : List ℕ) (offset : ℕ) (bytes : List ℕ) (inside : offset < length storage)
    (fits : length bytes ≤ length storage) where
  abbrev room : ℕ
  room = length storage - offset

  abbrev half : List ℕ
  half = write_at storage offset (take room bytes)

  length-half : length half ≡ length storage
  length-half =
      length-write_at storage offset (take room bytes) (omega (arith, length-take room bytes))

  pub length-lay : length (lay storage offset bytes) ≡ length storage
  length-lay =
      length-write_at half 0 (drop room bytes) (omega (arith, length-half, length-drop room bytes))
      ∙ length-half

  -- The byte at each position: a written one, counted round the end, or the old one.
  pub get_elem?-lay :
      (j : ℕ)
      → j < length storage
      → let k = (if ltb j offset then j + length storage - offset else j - offset) in
        get_elem? (lay storage offset bytes) j
        ≡ (if ltb k (length bytes) then get_elem? bytes k else get_elem? storage j)
  get_elem?-lay j h = ground (
    arith,
    get_elem?-write_at half 0 (drop room bytes) j,
    get_elem?-write_at storage offset (take room bytes) j,
    length-half,
    length-take room bytes,
    length-drop room bytes,
    get_elem?-drop room bytes j,
    get_elem?-take room bytes (j - offset),
  )

module _ {r : RingReceiveBuffer} (v : IsValid r) (bs : List ℕ)
    (fits : r.readable_bytes + length bs ≤ length r.storage) where
  abbrev pub extended : RingReceiveBuffer
  extended = record r {
    storage = lay r.storage (write_offset r) bs;
    readable_bytes = r.readable_bytes + length bs;
  }

  inside : write_offset r < length r.storage
  inside = ground (arith, write_offset-around v)

  pub extended-IsValid : IsValid extended
  extended-IsValid = omega (arith, length-lay r.storage (write_offset r) bs inside)

  -- Read back, the buffer holds what it held, and then the new bytes.
  pub contents-extended : contents extended ≡ contents r ++ bs
  contents-extended = get_elem?-injective (contents extended) (contents r ++ bs) λ i.
      let j = around (length r.storage) (r.read_offset + i) in
      ground (
        arith,
        get_elem?-contents {r = extended} i extended-IsValid,
        get_elem?-append (contents r) bs i,
        get_elem?-contents i v,
        length-contents v,
        write_offset-around v,
        length-lay r.storage (write_offset r) bs inside,
        get_elem?-lay r.storage (write_offset r) bs inside (omega arith) j,
        get_elem?-none bs (i - r.readable_bytes),
      )
