-- ===== src/Mem/Map/Join.antt =====
-- src/mem.rs: the map that `prepare_information` is to build, as a function on lists, and what
-- joining keeps of a map.
use towboot_rust.Prelude.{
  ℕ, ◌+◌, ◌≡◌, refl, Bool, true, false, List, [], ◌∷◌, ◌==◌, ◌&&◌, leb, ltb, if◌then◌else◌, arith,
  length, Bool-cases, inl, inr, ◌≤◌,
}
use towboot_rust.Multiboot.{MemoryType, MemoryEntry, same_type}

-- `next` is of the type of `current` and begins where that ends.
unfoldable pub joinable : MemoryEntry → MemoryEntry → Bool
joinable current next =
    same_type next.memory_type current.memory_type
    && next.base_address == current.base_address + current.length

abbrev pub join : MemoryEntry → MemoryEntry → MemoryEntry
join current next = record current { length = current.length + next.length }

unfoldable pub join_from : MemoryEntry → List MemoryEntry → List MemoryEntry
join_from current [] = current ∷ []
join_from current (next ∷ es) =
    let more = join_from (join current next) es in
    let new = current ∷ join_from next es in if joinable current next then more else new

abbrev pub joined : List MemoryEntry → List MemoryEntry
joined [] = []
joined (e ∷ es) = join_from e es

-- How many entries of a type hold an address.
abbrev holds : ℕ → MemoryType → MemoryEntry → ℕ
holds a ty e =
    if leb e.base_address a && ltb a (e.base_address + e.length) && same_type e.memory_type ty
    then 1
    else 0

pub cover : ℕ → MemoryType → List MemoryEntry → ℕ
cover a ty [] = 0
cover a ty (e ∷ es) = holds a ty e + cover a ty es

-- No entry can be joined with the one behind it.
abbrev pub IsJoined : List MemoryEntry → Type 0
IsJoined [] = Unit
IsJoined (e ∷ []) = Unit
IsJoined (e ∷ f ∷ es) = (joinable e f ≡ false) × IsJoined (f ∷ es)

same_type-eq : (a b : MemoryType) → same_type a b ≡ true → a ≡ b
same_type-eq a b h = ground arith

holds-join :
    (a : ℕ) (ty : MemoryType) (c n : MemoryEntry)
    → joinable c n ≡ true
    → holds a ty (join c n) ≡ holds a ty c + holds a ty n
unfolding joinable
holds-join a ty c n h = ground (arith, same_type-eq n.memory_type c.memory_type)

cover-join_from :
    (a : ℕ) (ty : MemoryType) (c : MemoryEntry) (es : List MemoryEntry)
    → cover a ty (join_from c es) ≡ holds a ty c + cover a ty es
unfolding cover join_from
cover-join_from a ty c [] = refl
cover-join_from a ty c (n ∷ es) = elim (Bool-cases (joinable c n)) [
  | inl h ↦ rw h (omega (arith, cover-join_from a ty (join c n) es, holds-join a ty c n h))
  | inr h ↦ rw h (omega (arith, cover-join_from a ty n es))
]

-- Joining keeps, for every address and type, the number of entries of the type that hold it.
pub cover-joined :
    (a : ℕ) (ty : MemoryType) (es : List MemoryEntry) → cover a ty (joined es) ≡ cover a ty es
unfolding cover
cover-joined a ty [] = refl
cover-joined a ty (e ∷ es) = cover-join_from a ty e es

-- The first entry of the result begins where the first one did, and has its type.
record IsHead (c : MemoryEntry) (es : List MemoryEntry) : Type 0 where
  head : MemoryEntry
  tail : List MemoryEntry
  whole : es ≡ head ∷ tail
  same_base : head.base_address ≡ c.base_address
  same_kind : head.memory_type ≡ c.memory_type

join_from-IsHead : (c : MemoryEntry) (es : List MemoryEntry) → IsHead c (join_from c es)
unfolding join_from
join_from-IsHead c [] = record {
  head = c;
  tail = [];
  whole = refl;
  same_base = refl;
  same_kind = refl;
}
join_from-IsHead c (n ∷ es) = elim (Bool-cases (joinable c n)) [
  | inl h ↦
      let i = join_from-IsHead (join c n) es in
      rw h (record {
        head = i.head;
        tail = i.tail;
        whole = i.whole;
        same_base = i.same_base;
        same_kind = i.same_kind;
      })
  | inr h ↦
      rw h (record {
        head = c;
        tail = join_from n es;
        whole = refl;
        same_base = refl;
        same_kind = refl;
      })
]

IsJoined-cons :
    (c n : MemoryEntry) (es : List MemoryEntry)
    → joinable c n ≡ false
    → IsHead n es
    → IsJoined es
    → IsJoined (c ∷ es)
unfolding joinable
IsJoined-cons c n es h i j = rw i.whole (rw (i.same_base, i.same_kind) h, rw i.whole at j)

join_from-IsJoined : (c : MemoryEntry) (es : List MemoryEntry) → IsJoined (join_from c es)
unfolding join_from
join_from-IsJoined c [] = tt
join_from-IsJoined c (n ∷ es) = elim (Bool-cases (joinable c n)) [
  | inl h ↦ rw h (join_from-IsJoined (join c n) es)
  | inr h ↦
      rw h (IsJoined-cons c n (join_from n es) h (join_from-IsHead n es) (join_from-IsJoined n es))
]

-- Joining is complete: in the result no two neighbours can be joined.
pub joined-IsJoined : (es : List MemoryEntry) → IsJoined (joined es)
joined-IsJoined [] = tt
joined-IsJoined (e ∷ es) = join_from-IsJoined e es

pub length-join_from :
    (c : MemoryEntry) (es : List MemoryEntry)
    → (1 ≤ length (join_from c es)) × (length (join_from c es) ≤ length es + 1)
unfolding join_from
length-join_from c [] = omega arith
length-join_from c (n ∷ es) = elim (Bool-cases (joinable c n)) [
  | inl h ↦ rw h (omega (arith, length-join_from (join c n) es))
  | inr h ↦ rw h (omega (arith, length-join_from n es))
]
