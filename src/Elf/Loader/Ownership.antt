-- ===== src/Elf/Loader/Ownership.antt =====
-- src/boot/elf.rs: the pages of the segments, through the methods of the loader.
use towboot_rust.Prelude.{
  ℕ, ◌+◌, ◌≡◌, refl, Option, none, some, List, [], ◌∷◌, Outcome, Result, done, failed, String,
  arith, narrow, Target, Bool-cases, inl, inr, ◌==◌, unwrap, leb, length, assert,
}
use towboot_rust.Prelude.OrderedMap.{OrderedMap, values, insert, replaced, lookup}
use towboot_rust.Firmware.{Status, PageServices}
use towboot_rust.Firmware.Exec.{pure, lift, attempt}
use towboot_rust.Firmware.Laws.{Ledger, IsLawful}
use towboot_rust.Mem.Allocation.{Allocation, new_at}
use towboot_rust.Mem.Bytes.{slice?}
use towboot_rust.Mem.Allocation.Ledger.{
  block, owned, nothing, both, Balanced, Balanced-pure, Balanced-lift, Balanced-bind, Balanced-conv,
  Balanced-frame, Balanced-attempt, Balanced-silent, Balanced-aside, settled_outs,
}
use towboot_rust.Mem.Allocation.Balance.{Balanced-free, Balanced-new_at}
use towboot_rust.Elf.Loader.{
  ProgramHeader, OurElfLoader, into_allocations, Method, free_replaced, clear, allocated, allocate,
  copy_region, load, load_range, load_segment, next_segment, load_elf, pt_load, find_entry,
}

abbrev owned_option : Option Allocation → Ledger
owned_option none = nothing
owned_option (some a) = block a

-- Inserting trades the value that is replaced for the new one.
owned-insert :
    (k : ℕ) (a : Allocation) (m : OrderedMap Allocation) (p n : ℕ)
    → owned (values (insert k a m)) p n + owned_option (replaced k m) p n
      ≡ owned (values m) p n + block a p n
unfolding insert replaced
owned-insert k a [] p n = omega arith
owned-insert k a ((j, b) ∷ m) p n = ground (arith, owned-insert k a m p n)

-- A loader owns the allocations of its segments.
abbrev pub held_by : OurElfLoader → Ledger
held_by loader = owned (into_allocations loader)

abbrev pub left : Result String (Unit {0}) × OurElfLoader → Ledger
left (_, loader) = held_by loader

module _ (t : Target) {S : Type 0} (f : PageServices S) (held : S → Ledger)
    (law : IsLawful f held) where
  pure_step : {A : Type 0} (x : Ledger) (o : Outcome ⊥ A) → Balanced held x (λ _. x) (lift o)
  pure_step x o = Balanced-aside held x (lift o) (Balanced-lift held o)

  Balanced-free_replaced :
      (o : Option Allocation) → Balanced held (owned_option o) (λ _. nothing) (free_replaced t f o)
  Balanced-free_replaced none = Balanced-pure held tt (λ _. nothing)
  Balanced-free_replaced (some a) = Balanced-free f held law a

  Balanced-trade :
      (k : ℕ) (a : Allocation) (m : OrderedMap Allocation)
      → Balanced held
          (both (block a) (owned (values m)))
          (λ _. owned (values (insert k a m)))
          (free_replaced t f (replaced k m))
  Balanced-trade k a m =
      Balanced-conv held (both (owned_option (replaced k m)) (owned (values (insert k a m))))
        (both (block a) (owned (values m))) (λ _. both nothing (owned (values (insert k a m))))
        (λ _. owned (values (insert k a m))) (free_replaced t f (replaced k m))
        (λ p n. omega (arith, owned-insert k a m p n)) (λ _ p n. omega arith)
        (Balanced-frame held (owned (values (insert k a m))) (λ _. nothing)
          (free_replaced t f (replaced k m)) (Balanced-free_replaced (replaced k m)))

  Balanced-allocated :
      (header : ProgramHeader) (loader : OurElfLoader) (r : Result Status Allocation)
      → Balanced held
          (both (settled_outs block r) (held_by loader))
          left
          (allocated t f header loader r)
  Balanced-allocated header loader (failed e) =
      Balanced-conv held (held_by loader) (both nothing (held_by loader)) left left
        (pure (failed "failed to allocate memory for the kernel", loader)) (λ p n. omega arith)
        (λ _ p n. refl)
        (Balanced-pure held (failed "failed to allocate memory for the kernel", loader) left)
  Balanced-allocated header loader (done a) =
      let owns = both (block a) (held_by loader) in
      let traded = owned (values (insert header.p_vaddr a loader.allocations)) in
      Balanced-bind held (λ _. owns) (clear t f a) _
        (Balanced-aside held owns (clear t f a) (Balanced-silent held _ _))
        (λ _.
          Balanced-bind held (λ _. traded)
            (free_replaced t f (replaced header.p_vaddr loader.allocations)) _
            (Balanced-trade header.p_vaddr a loader.allocations)
            (λ _.
              Balanced-bind held (λ _. traded) (lift (find_entry t header loader)) _
                (pure_step traded (find_entry t header loader))
                (λ entry.
                  Balanced-pure held
                    (
                      done tt,
                      record loader {
                        allocations = insert header.p_vaddr a loader.allocations;
                        physical_entry_point = entry;
                      },
                    )
                    left)))

  Balanced-allocate :
      (header : ProgramHeader) (loader : OurElfLoader)
      → Balanced held (held_by loader) left (allocate t f header loader)
  unfolding allocate
  Balanced-allocate header loader =
      let mine = held_by loader in
      Balanced-bind held (λ _. mine) (lift (narrow t.usize_bits header.p_paddr)) _
        (pure_step mine (narrow t.usize_bits header.p_paddr))
        (λ address.
          Balanced-bind held (λ _. mine) (lift (narrow t.usize_bits header.p_memsz)) _
            (pure_step mine (narrow t.usize_bits header.p_memsz))
            (λ size.
              Balanced-bind held (λ r. both (settled_outs block r) mine)
                (attempt (new_at f address size)) (allocated t f header loader)
                (Balanced-conv held (both nothing mine) mine _ _ (attempt (new_at f address size))
                  (λ p n. omega arith) (λ _ p n. refl)
                  (Balanced-frame held mine (settled_outs block) (attempt (new_at f address size)) (
                    Balanced-attempt held ⊥ block (new_at f address size)
                      (Balanced-new_at f held law address size))))
                (Balanced-allocated header loader)))

  Balanced-load :
      (base : ℕ) (region : List ℕ) (loader : OurElfLoader)
      → Balanced held (held_by loader) left (load t f base region loader)
  unfolding load
  Balanced-load base region loader =
      let mine = held_by loader in
      let found = unwrap (lookup base loader.allocations) "we didn't allocate the base" in
      let fits = λ (a : Allocation).
        assert (leb (length region) a.len) "it doesn't fit into the memory allocated for it" in
      Balanced-bind held (λ _. mine) (lift found) _ (pure_step mine found)
        (λ a.
          Balanced-bind held (λ _. mine) (lift (fits a)) _ (pure_step mine (fits a))
            (λ _.
              Balanced-bind held (λ _. mine) (copy_region t f a region) _
                (Balanced-aside held mine (copy_region t f a region) (Balanced-silent held _ _))
                (λ _. Balanced-pure held (done tt, loader) left)))

  Balanced-load_range :
      (header : ProgramHeader) (bytes : List ℕ) (r : Result String (Unit {0}) × OurElfLoader)
      → Balanced held (left r) left (load_range t f header bytes r)
  Balanced-load_range header bytes (failed m, loader) = Balanced-pure held (failed m, loader) left
  Balanced-load_range header bytes (done _, loader) =
      let mine = held_by loader in
      let region = unwrap (slice? bytes header.file_start header.file_end) "range out of bounds" in
      Balanced-bind held (λ _. mine) (lift region) _ (pure_step mine region)
        (λ region. Balanced-load header.p_vaddr region loader)

  Balanced-load_segment :
      (header : ProgramHeader) (bytes : List ℕ) (loader : OurElfLoader)
      → Balanced held (held_by loader) left (load_segment t f header bytes loader)
  unfolding load_segment
  Balanced-load_segment header bytes loader = elim (Bool-cases (header.p_type == pt_load)) [
    | inl y ↦ rw y (
        Balanced-bind held left (allocate t f header loader) (load_range t f header bytes)
          (Balanced-allocate header loader) (Balanced-load_range header bytes))
    | inr n ↦ rw n (Balanced-pure held (done tt, loader) left)
  ]

  Balanced-next_segment :
      (rest : OurElfLoader → Method t f)
      → ((loader : OurElfLoader) → Balanced held (held_by loader) left (rest loader))
      → (r : Result String (Unit {0}) × OurElfLoader)
      → Balanced held (left r) left (next_segment t f rest r)
  Balanced-next_segment rest b (failed m, loader) = Balanced-pure held (failed m, loader) left
  Balanced-next_segment rest b (done _, loader) = b loader

  -- With lawful memory services, `load_elf` turns the blocks of the allocations that the loader
  -- had into the blocks of those that it has afterwards, also where it stops at an error, and
  -- every other block stays as it was: no page is lost, and none is freed that the loader still
  -- has. A panic is excepted.
  pub Balanced-load_elf :
      (headers : List ProgramHeader) (bytes : List ℕ) (loader : OurElfLoader)
      → Balanced held (held_by loader) left (load_elf t f headers bytes loader)
  unfolding load_elf
  Balanced-load_elf [] bytes loader = Balanced-pure held (done tt, loader) left
  Balanced-load_elf (header ∷ headers) bytes loader =
      Balanced-bind held left (load_segment t f header bytes loader)
        (next_segment t f (load_elf t f headers bytes)) (Balanced-load_segment header bytes loader)
        (Balanced-next_segment (load_elf t f headers bytes) (Balanced-load_elf headers bytes))
