-- ===== src/Elf/Loader/Entry.antt =====
-- src/boot/elf.rs: which segment decides on the physical entry point.
use mathlib.Core.Option.{get_or}
use mathlib.Core.Path.{ap₂, subst}
use towboot_rust.Prelude.{
  ℕ, ◌+◌, ◌-◌, ◌^◌, ◌<◌, ◌≡◌, sym, ◌∙◌, Bool, ◌&&◌, Option, none, some, List, [], ◌∷◌, leb, ◌==◌,
  if◌then◌else◌, ok, narrow, Target, wrap_of_lt, subtract_of_le, Result, done, failed, String,
  arith, Bool-cases, inl, inr, All, ==_iff,
}
use towboot_rust.Firmware.{World, PageServices}
use towboot_rust.Firmware.Exec.{>>=-eq-ok, outcome-eq}
use towboot_rust.Elf.Loader.{
  ProgramHeader, OurElfLoader, load_segment, next_segment, load_elf, pt_load, find_entry,
  entry_point, new,
}
use towboot_rust.Elf.Loader.Segment.{load_segment-IsLoaded}

-- The addresses of a segment, with the entry point in it, fit 64 bits.
abbrev pub Fits : ℕ → ProgramHeader → Type 0
Fits entry h = (h.p_vaddr + h.p_memsz < 2 ^ 64) × (h.p_paddr + entry < 2 ^ 64)

-- A segment to be loaded that has the entry point between its first byte and its end, the end
-- included.
unfoldable pub decides : ℕ → ProgramHeader → Bool
decides entry h = h.p_type == pt_load && leb h.p_vaddr entry && leb entry (h.p_vaddr + h.p_memsz)

-- The last segment that decides, of those after which `found` is known.
unfoldable pub translate : ℕ → List ProgramHeader → Option ℕ → Option ℕ
translate entry [] found = found
translate entry (h ∷ hs) found =
    translate entry hs (if decides entry h then some (h.p_paddr + entry - h.p_vaddr) else found)

find_entry-lem :
    (t : Target) (h : ProgramHeader) (l : OurElfLoader) (o : Option ℕ)
    → Fits l.virtual_entry_point h
    → h.p_type ≡ pt_load
    → find_entry t h l ≡ ok o
    → o ≡ (
        if decides l.virtual_entry_point h
        then some (h.p_paddr + l.virtual_entry_point - h.p_vaddr)
        else l.physical_entry_point)
unfolding find_entry decides narrow
find_entry-lem t h l o fits loadable e = ground (
  arith,
  wrap_of_lt {E = ⊥} t 64 (h.p_vaddr + h.p_memsz) fits.0,
  wrap_of_lt {E = ⊥} t 64 (h.p_paddr + l.virtual_entry_point) fits.1,
  subtract_of_le {E = ⊥} t 64 (h.p_paddr + l.virtual_entry_point) h.p_vaddr,
)

module _ (t : Target) {S : Type 0} (f : PageServices S) where
  segment-entry :
      (h : ProgramHeader) (bytes : List ℕ) (l l' : OurElfLoader) (w w' : World S)
      → Fits l.virtual_entry_point h
      → load_segment t f h bytes l w ≡ (ok (done tt, l'), w')
      → (l'.virtual_entry_point ≡ l.virtual_entry_point)
        × (l'.physical_entry_point ≡ (
            if decides l.virtual_entry_point h
            then some (h.p_paddr + l.virtual_entry_point - h.p_vaddr)
            else l.physical_entry_point))
  unfolding load_segment decides
  segment-entry h bytes l l' w w' fits e = elim (Bool-cases (h.p_type == pt_load)) [
    | inl y ↦
        let loadable : h.p_type ≡ pt_load = (==_iff h.p_type pt_load).0 y in
        let i = load_segment-IsLoaded t f h bytes l l' w w' loadable e in
        (i.same_entry, find_entry-lem t h l l'.physical_entry_point fits loadable i.entry)
    | inr n ↦ let o = outcome-eq (rw n at e) in (ground (arith, o), ground (arith, o, n))
  ]

  abbrev Translated : List ProgramHeader → OurElfLoader → OurElfLoader → Type 0
  Translated hs l l' =
      (l'.virtual_entry_point ≡ l.virtual_entry_point)
      × (l'.physical_entry_point ≡ translate l.virtual_entry_point hs l.physical_entry_point)

  behind :
      (h : ProgramHeader) (hs : List ProgramHeader) (l l' : OurElfLoader) (w w1 w' : World S)
      (bytes : List ℕ) (r : Result String (Unit {0}) × OurElfLoader)
      → Fits l.virtual_entry_point h
      → All (Fits l.virtual_entry_point) hs
      → load_segment t f h bytes l w ≡ (ok r, w1)
      → next_segment t f (load_elf t f hs bytes) r w1 ≡ (ok (done tt, l'), w')
      → ((mid : OurElfLoader)
          → All (Fits mid.virtual_entry_point) hs
          → load_elf t f hs bytes mid w1 ≡ (ok (done tt, l'), w')
          → Translated hs mid l')
      → Translated (h ∷ hs) l l'
  unfolding translate
  behind h hs l l' w w1 w' bytes (failed m, mid) fit fits e1 e2 ih =
      let o = outcome-eq e2 in absurd (ground (arith, o))
  behind h hs l l' w w1 w' bytes (done _, mid) fit fits e1 e2 ih =
      let (same, moved) = segment-entry h bytes l mid w w1 fit e1 in
      let (same', moved') = ih mid (subst (λ v. All (Fits v) hs) (sym same) fits) e2 in
      (same' ∙ same, moved' ∙ ap₂ (λ v o. translate v hs o) same moved)

  -- When `load_elf` succeeds, the virtual entry point is kept, and the physical one is that of
  -- the last segment whose range, its end included, has the virtual one, or as before where
  -- there is none. The segments' addresses fit 64 bits.
  pub load_elf-translate :
      (hs : List ProgramHeader) (bytes : List ℕ) (l l' : OurElfLoader) (w w' : World S)
      → All (Fits l.virtual_entry_point) hs
      → load_elf t f hs bytes l w ≡ (ok (done tt, l'), w')
      → (l'.virtual_entry_point ≡ l.virtual_entry_point)
        × (l'.physical_entry_point ≡ translate l.virtual_entry_point hs l.physical_entry_point)
  unfolding load_elf translate
  load_elf-translate [] bytes l l' w w' fits e =
      let o = outcome-eq e in (ground (arith, o), ground (arith, o))
  load_elf-translate (h ∷ hs) bytes l l' w w' (fit, fits) e =
      let (r, w1, e1, e2) =
        >>=-eq-ok (load_segment t f h bytes l) (next_segment t f (load_elf t f hs bytes)) w e in
      behind h hs l l' w w1 w' bytes r fit fits e1 e2
        (λ mid. load_elf-translate hs bytes mid l' w1 w')

  -- After a new loader has loaded all segments, `entry_point` gives the physical address of the
  -- entry point by the last segment whose range, its end included, has it, or the entry point
  -- itself if no segment has it. It fits a `usize`, and the segments' addresses fit 64 bits.
  pub entry_point-load_elf :
      (hs : List ProgramHeader) (bytes : List ℕ) (entry : ℕ) (l' : OurElfLoader) (w w' : World S)
      → All (Fits entry) hs
      → load_elf t f hs bytes (new entry) w ≡ (ok (done tt, l'), w')
      → entry < 2 ^ t.usize_bits
      → entry_point t l' ≡ ok (get_or (translate entry hs none) entry)
  unfolding new entry_point narrow
  entry_point-load_elf hs bytes entry l' w w' fits e small =
      let (same, moved) = load_elf-translate hs bytes (new entry) l' w w' fits e in
      ground (arith, same, moved)
