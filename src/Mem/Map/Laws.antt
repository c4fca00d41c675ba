-- ===== src/Mem/Map/Laws.antt =====
-- src/mem.rs: what `prepare_information` passes to the kernel.
use native.Mathlib.Nat.{zero-add}
use towboot_rust.Prelude.{
  ℕ, zero, suc, ◌-◌, ◌/◌, ◌^◌, ◌≡◌, refl, Bool, List, [], ◌∷◌, ◌++◌, map, arith, length, ◌≤◌, ◌<◌,
  All, take, some, none, drop, ok, Target, panic, Outcome, ap, sym, ◌∙◌, find?, unwrap, narrow,
  narrow_of_lt, ◌>>=◌, Bool-cases, inl, inr, String,
}
use towboot_rust.Firmware.{MemoryDescriptor}
use towboot_rust.Multiboot.{MemoryEntry, MemoryType}
use towboot_rust.Mem.Map.{
  add_entry, add_entries, MemoryInformation, prepare_information, starts_at_1mb,
}
use towboot_rust.Mem.Map.Join.{joined, cover, cover-joined, IsJoined, joined-IsJoined}
use towboot_rust.Mem.Map.Loop.{
  entry_of, FitsWord, Fits-entry_of, to_entry-entry_of, add_entries-join_from,
}

module _ {ℓ} {A : Type ℓ} where
  take-length : (xs ys : List A) → take (length xs) (xs ++ ys) ≡ xs
  take-length [] ys = refl
  take-length (x ∷ xs) ys = ap (◌∷◌ x) (take-length xs ys)

  find?-append_some :
      (p : A → Bool) (xs ys : List A) {x : A} → find? p xs ≡ some x → find? p (xs ++ ys) ≡ some x
  find?-append_some p [] ys h = cc
  find?-append_some p (a ∷ xs) ys h = elim (Bool-cases (p a)) [
    | inl e ↦ rw e (rw e at h)
    | inr e ↦ rw e (find?-append_some p xs ys (rw e at h))
  ]

  find?-append_none :
      (p : A → Bool) (xs ys : List A)
      → find? p xs ≡ none
      → find? p ys ≡ none
      → find? p (xs ++ ys) ≡ none
  find?-append_none p [] ys h k = k
  find?-append_none p (a ∷ xs) ys h k = elim (Bool-cases (p a)) [
    | inl e ↦ absurd (ground (arith, e, h))
    | inr e ↦ rw e (find?-append_none p xs ys (rw e at h) k)
  ]

  find?-drop : (p : A → Bool) (n : ℕ) (xs : List A) → find? p xs ≡ none → find? p (drop n xs) ≡ none
  find?-drop p zero xs h = h
  find?-drop p (suc n) [] h = refl
  find?-drop p (suc n) (a ∷ xs) h = elim (Bool-cases (p a)) [
    | inl e ↦ absurd (ground (arith, e, h))
    | inr e ↦ find?-drop p n xs (rw e at h)
  ]

-- The end of `prepare_information`, on the buffer that the loop leaves.
finish : ℕ → List MemoryEntry → Outcome ⊥ MemoryInformation
finish count buf = do
  e ← unwrap (find? starts_at_1mb buf) "called `Option::unwrap()` on a `None` value"
  upper ← narrow 32 (e.length / 1024)
  ok (record { lower = 640; upper = upper; count = count; regions = take count buf })

module _ (t : Target) (d : MemoryDescriptor) (ds : List MemoryDescriptor) where
  abbrev built : List MemoryEntry
  built = joined (map entry_of (d ∷ ds))

  prepare_information-finish :
      (b : MemoryEntry) (buf : List MemoryEntry)
      → All FitsWord (d ∷ ds)
      → length ds ≤ length buf
      → prepare_information t (d ∷ ds) (b ∷ buf)
        ≡ finish (length built) (built ++ drop (length built - 1) buf)
  unfolding prepare_information add_entries add_entry finish
  prepare_information-finish b buf (fd, fds) room =
      let (last, e) =
        add_entries-join_from t [] (entry_of d) buf ds (Fits-entry_of d fd) fds room in
      rw (to_entry-entry_of t d fd, e)
        (ap (λ k. finish k (built ++ drop (length built - 1) buf)) (zero-add (length built)))

  finish-built :
      (rest : List MemoryEntry) (i : MemoryInformation)
      → finish (length built) (built ++ rest) ≡ ok i
      → i.regions ≡ built
  unfolding finish
  finish-built rest i h = ground (arith, take-length built rest)

-- When `prepare_information` succeeds, the regions that the kernel is told of are the firmware's:
-- for each address and each type of memory, the regions that hold the address are as many as the
-- firmware's descriptors that do, by their translated types, and no two neighbours among the
-- regions can be joined. The buffer has an entry for each descriptor, and no descriptor reaches
-- past 2 ^ 64.
pub prepare_information-cover :
    (t : Target) (d : MemoryDescriptor) (ds : List MemoryDescriptor) (b : MemoryEntry)
    (buf : List MemoryEntry) (i : MemoryInformation)
    → All FitsWord (d ∷ ds)
    → length ds ≤ length buf
    → prepare_information t (d ∷ ds) (b ∷ buf) ≡ ok i
    → ((a : ℕ) (ty : MemoryType) → cover a ty i.regions ≡ cover a ty (map entry_of (d ∷ ds)))
      × IsJoined i.regions
prepare_information-cover t d ds b buf i fits room h =
    rw
      (finish-built t d ds (drop (length (built t d ds) - 1) buf) i
        (sym (prepare_information-finish t d ds b buf fits room) ∙ h))
      (λ a ty. cover-joined a ty (map entry_of (d ∷ ds)), joined-IsJoined (map entry_of (d ∷ ds)))

-- If the joined map has an entry that starts at 1 MB, and the first such is of less than 4 TB,
-- `prepare_information` succeeds: it passes the joined map and that entry's length in kilobytes.
-- The buffer has an entry for each descriptor, and no descriptor reaches past 2 ^ 64.
pub prepare_information-ok :
    (t : Target) (d : MemoryDescriptor) (ds : List MemoryDescriptor) (b : MemoryEntry)
    (buf : List MemoryEntry) (e : MemoryEntry)
    → All FitsWord (d ∷ ds)
    → length ds ≤ length buf
    → find? starts_at_1mb (joined (map entry_of (d ∷ ds))) ≡ some e
    → e.length / 1024 < 2 ^ 32
    → prepare_information t (d ∷ ds) (b ∷ buf)
      ≡ ok (record {
        lower = 640;
        upper = e.length / 1024;
        count = length (joined (map entry_of (d ∷ ds)));
        regions = joined (map entry_of (d ∷ ds));
      })
unfolding finish
prepare_information-ok t d ds b buf e fits room found small =
    prepare_information-finish t d ds b buf fits room
    ∙ rw
        (
          find?-append_some starts_at_1mb (built t d ds) (drop (length (built t d ds) - 1) buf)
              found,
          narrow_of_lt {E = ⊥} 32 (e.length / 1024) small,
          take-length (built t d ds) (drop (length (built t d ds) - 1) buf),
        )
        refl

-- If no entry of the joined map starts at 1 MB, as when one region runs through it, and none
-- behind the first of the fresh buffer does, `prepare_information` panics. The buffer has an
-- entry for each descriptor, and no descriptor reaches past 2 ^ 64.
pub prepare_information-no_upper :
    (t : Target) (d : MemoryDescriptor) (ds : List MemoryDescriptor) (b : MemoryEntry)
    (buf : List MemoryEntry)
    → All FitsWord (d ∷ ds)
    → length ds ≤ length buf
    → find? starts_at_1mb (joined (map entry_of (d ∷ ds))) ≡ none
    → find? starts_at_1mb buf ≡ none
    → (m : String) × (prepare_information t (d ∷ ds) (b ∷ buf) ≡ panic m)
unfolding finish
prepare_information-no_upper t d ds b buf fits room missing fresh = (
  "called `Option::unwrap()` on a `None` value",
  prepare_information-finish t d ds b buf fits room
      ∙ rw
          (find?-append_none starts_at_1mb (built t d ds) (drop (length (built t d ds) - 1) buf)
            missing (find?-drop starts_at_1mb (length (built t d ds) - 1) buf fresh))
          refl,
)
