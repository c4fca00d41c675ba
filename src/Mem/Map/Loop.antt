-- ===== src/Mem/Map/Loop.antt =====
-- src/mem.rs: the loop of `prepare_information` writes the joined map into the front of the buffer
-- and leaves the rest of it alone.

use mathlib.Core.List.{append_assoc}
use towboot_rust.Prelude.{
  ℕ, zero, suc, ◌+◌, ◌-◌, ◌*◌, ◌^◌, ◌≡◌, refl, true, false, List, [], ◌∷◌, ◌++◌, map, arith, length,
  Bool-cases, inl, inr, ◌≤◌, ◌<◌, All, set, get_elem?, some, drop, ok, Target, wrap_of_lt, ap, sym,
  ◌∙◌, length-append,
}
use towboot_rust.Firmware.{MemoryDescriptor}
use towboot_rust.Multiboot.{MemoryEntry}
use towboot_rust.Mem.Map.{
  page_size, kernel_type, to_entry, is_adjacent, joined_entry, Cursor, add_entry, add_entries,
}
use towboot_rust.Mem.Map.Join.{joinable, join, join_from, length-join_from}

-- The entry of a descriptor, where its length does not overflow.
unfoldable pub entry_of : MemoryDescriptor → MemoryEntry
entry_of d = record {
  base_address = d.phys_start;
  length = d.page_count * page_size;
  memory_type = kernel_type d.ty;
}

-- A region that ends below 2 ^ 64.
abbrev pub Fits : MemoryEntry → Type 0
Fits e = e.base_address + e.length < 2 ^ 64

abbrev pub FitsWord : MemoryDescriptor → Type 0
FitsWord d = d.phys_start + d.page_count * page_size < 2 ^ 64

suc-add-one : (n : ℕ) → suc n + 1 ≡ suc (n + 1)
suc-add-one n = omega arith

suc-sub-one : (n : ℕ) → suc n - 1 ≡ n
suc-sub-one n = omega arith

module _ {ℓ} {A : Type ℓ} where
  get_elem?-middle :
      (pre : List A) (c : A) (suf : List A) → get_elem? (pre ++ c ∷ suf) (length pre) ≡ some c
  get_elem?-middle [] c suf = refl
  get_elem?-middle (x ∷ pre) c suf = get_elem?-middle pre c suf

  set-middle :
      (pre : List A) (c v : A) (suf : List A) → set (pre ++ c ∷ suf) (length pre) v ≡ pre ++ v ∷ suf
  set-middle [] c v suf = refl
  set-middle (x ∷ pre) c v suf = ap (◌∷◌ x) (set-middle pre c v suf)

module _ {ℓ} {A : Type ℓ} where
  get_elem?-next :
      (pre : List A) (c s : A) (suf : List A)
      → get_elem? (pre ++ c ∷ s ∷ suf) (length pre + 1) ≡ some s
  get_elem?-next [] c s suf = refl
  get_elem?-next (x ∷ pre) c s suf =
      ap (get_elem? (x ∷ pre ++ c ∷ s ∷ suf)) (suc-add-one (length pre))
      ∙ get_elem?-next pre c s suf

  set-next :
      (pre : List A) (c s v : A) (suf : List A)
      → set (pre ++ c ∷ s ∷ suf) (length pre + 1) v ≡ pre ++ c ∷ v ∷ suf
  set-next [] c s v suf = refl
  set-next (x ∷ pre) c s v suf =
      ap (λ i. set (x ∷ pre ++ c ∷ s ∷ suf) i v) (suc-add-one (length pre))
      ∙ ap (◌∷◌ x) (set-next pre c s v suf)

-- The loop's variables when `pre` is finished and `c` is the current entry.
abbrev pub at : List MemoryEntry → MemoryEntry → List MemoryEntry → Cursor
at pre c suf = record { count = length pre + 1; current = length pre; buf = pre ++ c ∷ suf }

pub to_entry-entry_of :
    (t : Target) (d : MemoryDescriptor) → FitsWord d → to_entry t d ≡ ok (entry_of d)
unfolding to_entry entry_of
to_entry-entry_of t d h = rw (wrap_of_lt {E = ⊥} t 64 (d.page_count * page_size) (omega arith))

pub Fits-entry_of : (d : MemoryDescriptor) → FitsWord d → Fits (entry_of d)
unfolding entry_of
Fits-entry_of d h = h

Fits-join : (c n : MemoryEntry) → joinable c n ≡ true → Fits n → Fits (join c n)
unfolding joinable
Fits-join c n j h = ground arith

add_entry-join :
    (t : Target) (pre : List MemoryEntry) (c n : MemoryEntry) (suf : List MemoryEntry)
    → joinable c n ≡ true
    → Fits c
    → Fits n
    → add_entry t (at pre c suf) n ≡ ok (at pre (join c n) suf)
unfolding add_entry is_adjacent joined_entry joinable
add_entry-join t pre c n suf j fc fn = ground (
  arith,
  get_elem?-middle pre c suf,
  set-middle pre c (join c n) suf,
  wrap_of_lt {E = ⊥} t 64 (c.base_address + c.length),
  wrap_of_lt {E = ⊥} t 64 (c.length + n.length),
)

add_entry-new :
    (t : Target) (pre : List MemoryEntry) (c n s : MemoryEntry) (suf : List MemoryEntry)
    → joinable c n ≡ false
    → Fits c
    → add_entry t (at pre c (s ∷ suf)) n ≡ ok (at (pre ++ c ∷ []) n suf)
unfolding add_entry is_adjacent joinable
add_entry-new t pre c n s suf j fc = ground (
  arith,
  get_elem?-middle pre c (s ∷ suf),
  get_elem?-next pre c s suf,
  set-next pre c s n suf,
  wrap_of_lt {E = ⊥} t 64 (c.base_address + c.length),
  length-append {0} pre (c ∷ []),
  append_assoc pre (c ∷ []) (n ∷ suf),
)

drop-pred {ℓ} :
    {A : Type ℓ} (k : ℕ) (x : A) (xs : List A) → 1 ≤ k → drop (suc k - 1) (x ∷ xs) ≡ drop (k - 1) xs
drop-pred zero x xs h = absurd (omega arith)
drop-pred (suc k) x xs h =
    ap (λ i. drop i (x ∷ xs)) (suc-sub-one (suc k)) ∙ ap (λ i. drop i xs) (sym (suc-sub-one k))

finish_new :
    (pre : List MemoryEntry) (c : MemoryEntry) (last : ℕ) (es : List MemoryEntry) (s : MemoryEntry)
    (suf : List MemoryEntry)
    → 1 ≤ length es
    → ◌≡◌ {A = Cursor}
        (record {
          count = length (pre ++ c ∷ []) + length es;
          current = last;
          buf = (pre ++ c ∷ []) ++ (es ++ drop (length es - 1) suf);
        })
        (record {
          count = length pre + length (c ∷ es);
          current = last;
          buf = pre ++ (c ∷ (es ++ drop (length (c ∷ es) - 1) (s ∷ suf)));
        })
finish_new pre c last es s suf h = ground (
  arith,
  length-append {0} pre (c ∷ []),
  append_assoc pre (c ∷ []) (es ++ drop (length es - 1) suf),
  drop-pred (length es) s suf h,
)

-- The loop from a point in its course: it ends with the joined entries behind `pre`.
pub add_entries-join_from :
    (t : Target) (pre : List MemoryEntry) (c : MemoryEntry) (suf : List MemoryEntry)
    (ds : List MemoryDescriptor)
    → Fits c
    → All FitsWord ds
    → length ds ≤ length suf
    → let es = join_from c (map entry_of ds) in
      (last : ℕ) × (add_entries t (at pre c suf) ds
        ≡ ok (record {
          count = length pre + length es;
          current = last;
          buf = pre ++ (es ++ drop (length es - 1) suf);
        }))
unfolding add_entries join_from
add_entries-join_from t pre c suf [] fc fds room = (length pre, refl)
add_entries-join_from t pre c [] (d ∷ ds) fc (fd, fds) room = absurd (omega arith)
add_entries-join_from t pre c (s ∷ suf) (d ∷ ds) fc (fd, fds) room =
    rw (to_entry-entry_of t d fd) (elim (Bool-cases (joinable c (entry_of d))) [
      | inl j ↦
          rw (j, add_entry-join t pre c (entry_of d) (s ∷ suf) j fc (Fits-entry_of d fd))
            (add_entries-join_from t pre (join c (entry_of d)) (s ∷ suf) ds
              (Fits-join c (entry_of d) j (Fits-entry_of d fd)) fds (omega arith))
      | inr j ↦
          let (last, e) =
            add_entries-join_from t (pre ++ c ∷ []) (entry_of d) suf ds (Fits-entry_of d fd) fds
              (omega arith) in
          (
            last,
            rw (j, add_entry-new t pre c (entry_of d) s suf j fc)
                (e
                  ∙ ap ok (
                      finish_new pre c last (join_from (entry_of d) (map entry_of ds)) s suf
                        (length-join_from (entry_of d) (map entry_of ds)).0)),
          )
    ])
