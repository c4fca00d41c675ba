-- ===== src/Mem/Bytes.antt =====
-- Bytes in memory: what `ptr::copy`, `fill` and the writes through a slice do to it.
use towboot_rust.Prelude.{
  ℕ, ◌+◌, ◌-◌, ◌&&◌, leb, ltb, if◌then◌else◌, List, length, take, drop, Option, none, some,
  get_elem?, Bool,
}

abbrev pub Memory : Type 0
Memory = ℕ → ℕ

-- Whether an address lies in the `n` bytes from `a`.
abbrev pub within : ℕ → ℕ → ℕ → Bool
within a n j = leb a j && ltb j (a + n)

-- `core::ptr::copy(src, dest, n)`: the ranges may overlap.
abbrev pub copy : ℕ → ℕ → ℕ → Memory → Memory
copy src dest n m j = if within dest n j then m (src + (j - dest)) else m j

-- `slice.fill(v)`.
abbrev pub fill : ℕ → ℕ → ℕ → Memory → Memory
fill a n v m j = if within a n j then v else m j

abbrev byte_or : ℕ → Option ℕ → ℕ
byte_or d none = d
byte_or d (some b) = b

-- The bytes of a list, written from `a` on.
abbrev pub write : ℕ → List ℕ → Memory → Memory
write a bytes m j =
    if within a (length bytes) j then byte_or (m j) (get_elem? bytes (j - a)) else m j

-- `&data[start..end]` of a slice, where the range lies in it.
unfoldable pub slice? : List ℕ → ℕ → ℕ → Option (List ℕ)
slice? bytes start end =
    if leb start end && leb end (length bytes)
    then some (take (end - start) (drop start bytes))
    else none
