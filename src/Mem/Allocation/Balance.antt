-- ===== src/Mem/Allocation/Balance.antt =====
-- src/mem.rs: what the operations on allocations own and give back.
use mathlib.Core.Path.{subst}
use towboot_rust.Prelude
use towboot_rust.Prelude.{
  ℕ, ◌+◌, ◌-◌, ◌*◌, ◌^◌, ◌<◌, ◌≤◌, ◌≡◌, refl, List, [], ◌∷◌, ◌++◌, Outcome, ok, err, panic, arith,
  Result, done, failed, expect, some, none, if◌then◌else◌, sym, ap, ◌∙◌,
}
use towboot_rust.Firmware.{
  Status, load_error, PageServices, World, max_address, address, loader_data, AllocateType,
  MemoryType,
}
use towboot_rust.Firmware.Exec.{Exec, pure, raise, call, ◌>>=◌}
use towboot_rust.Firmware.Laws.{Ledger, single, IsLawful}
use towboot_rust.Config.{Quirk}
use towboot_rust.Mem.Allocation.{
  Allocation, free, free_all, dropping, drop_on_err, calculate_page_count, new_under_4gb, new_at,
  dump_memory_map, under_4gb_result, at_result,
}
use towboot_rust.Mem.Allocation.Size.{top}
use towboot_rust.Mem.Allocation.Ledger.{
  block, owned, nothing, both, Holds, Settled, Balanced, Balanced-pure, Balanced-raise,
  Balanced-lift, Balanced-bind,
}

module _ {S : Type 0} (f : PageServices S) (held : S → Ledger) (law : IsLawful f held) where
  single_self : (p n : ℕ) → single p n p n ≡ 1
  single_self p n = ground arith

  is_held :
      (a : Allocation) (base : Ledger) (w : World S)
      → Holds held w.firmware (both base (block a))
      → 0 < held w.firmware a.ptr a.pages
  is_held a base w h = omega (arith, h a.ptr a.pages, single_self a.ptr a.pages)

  -- Freeing a block that is held does not fail, and only it is gone.
  pub free_lem :
      {E : Type 0} (a : Allocation) (base : Ledger) (w : World S)
      → Holds held w.firmware (both base (block a))
      → ((free f {E = E} a w).0 ≡ ok tt) × Holds held (free f {E = E} a w).1.firmware base
  unfolding free
  free_lem a base w h =
      let (e, g) = law.freed a.ptr a.pages w.firmware (is_held a base w h) in
      (rw e, λ p n. omega (arith, g p n, h p n))

  pub Balanced-free :
      {E : Type 0} (a : Allocation) → Balanced held {E = E} (block a) (λ _. nothing) (free f a)
  Balanced-free {E} a = record {
    at = λ base w h.
        let (e, g) = free_lem {E = E} a base w h in
        subst
          (λ (o : Outcome E (Unit {0})). Settled held base (λ _. nothing) o (free f {E = E} a w).1)
          (sym e) (λ p n. omega (arith, g p n));
  }

  -- Allocations that are held can all be freed.
  pub free_all_lem :
      {E : Type 0} (xs : List Allocation) (base : Ledger) (w : World S)
      → Holds held w.firmware (both base (owned xs))
      → ((free_all f {E = E} xs w).0 ≡ ok tt) × Holds held (free_all f {E = E} xs w).1.firmware base
  unfolding free_all
  free_all_lem [] base w h = (refl, λ p n. omega (arith, h p n))
  free_all_lem {E} (a ∷ rest) base w h =
      let (e, g) = free_lem {E = E} a (both base (owned rest)) w (λ p n. omega (arith, h p n)) in
      rw e (free_all_lem {E = E} rest base (free f {E = E} a w).1 g)

  pub Balanced-free_all :
      {E : Type 0} (xs : List Allocation)
      → Balanced held {E = E} (owned xs) (λ _. nothing) (free_all f xs)
  Balanced-free_all {E} xs = record {
    at = λ base w h.
        let (e, g) = free_all_lem {E = E} xs base w h in
        subst
          (λ (o : Outcome E (Unit {0})).
            Settled held base (λ _. nothing) o (free_all f {E = E} xs w).1)
          (sym e) (λ p n. omega (arith, g p n));
  }

  Settled-drop :
      {E A : Type 0} (xs : List Allocation) (outs : A → Ledger) (base : Ledger) (o : Outcome E A)
      (w : World S)
      → Settled held (both base (owned xs)) outs o w
      → Settled held base
          (λ x. both (outs x) (owned xs))
          (drop_on_err f xs o w).0
          (drop_on_err f xs o w).1
  Settled-drop xs outs base (ok x) w h = λ p n. omega (arith, h p n)
  Settled-drop {E} xs outs base (err x) w h =
      let (e, g) = free_all_lem {E = E} xs base w h in rw e g
  Settled-drop xs outs base (panic m) w h = tt

  -- An early return out of a scope gives back what the scope owns.
  pub Balanced-dropping :
      {E A : Type 0} (xs : List Allocation) {ins : Ledger} (outs : A → Ledger) (m : Exec S E A)
      → Balanced held ins outs m
      → Balanced held (both ins (owned xs)) (λ x. both (outs x) (owned xs)) (dropping f xs m)
  unfolding dropping
  Balanced-dropping xs outs m t = record {
    at = λ base w h.
        Settled-drop xs outs base (m w).0 (m w).1
          (t.at (both base (owned xs)) w (λ p n. omega (arith, h p n)));
  }

  pub Balanced-dump_memory_map :
      {E : Type 0} → Balanced held {E = E} nothing (λ _. nothing) (dump_memory_map f)
  unfolding dump_memory_map
  Balanced-dump_memory_map {E} = record {
    at = λ base w h.
        (Balanced-lift held {E = E} (
            Prelude.◌>>=◌ (expect (f.memory_map w.firmware) "failed to get memory map")
              (λ _. ok tt))).at
          base w h;
  }

  -- The firmware's answer to an allocation.
  abbrev granted : ℕ → Result Status ℕ → Ledger
  granted pages (done ptr) = single ptr pages
  granted pages (failed e) = nothing

  Balanced-allocate :
      {E : Type 0} (ty : AllocateType) (kind : MemoryType) (pages : ℕ)
      → Balanced held {E = E} nothing (granted pages) (call (f.allocate_pages ty kind pages))
  Balanced-allocate ty kind pages = record {
    at = λ base w h. go base w h (f.allocate_pages ty kind pages w.firmware).0 refl;
  }
    where
      go :
          (base : Ledger) (w : World S)
          → Holds held w.firmware (both base nothing)
          → (r : Result Status ℕ) → (f.allocate_pages ty kind pages w.firmware).0 ≡ r
          → Holds held (f.allocate_pages ty kind pages w.firmware).1 (both base (granted pages r))
      go base w h (done ptr) e p n =
          omega (arith, law.allocated ty kind pages w.firmware ptr e p n, h p n)
      go base w h (failed x) e p n =
          omega (arith, law.not_allocated ty kind pages w.firmware x e p n, h p n)

  Balanced-under_4gb_result :
      (size pages : ℕ) (r : Result Status ℕ)
      → Balanced held (granted pages r) block (under_4gb_result f size pages r)
  Balanced-under_4gb_result size pages (done ptr) =
      Balanced-pure held (record { ptr = ptr; len = size; pages = pages; should_be_at = none })
        block
  Balanced-under_4gb_result size pages (failed x) =
      Balanced-bind held (λ _. nothing) (dump_memory_map f) (λ _. raise load_error)
        Balanced-dump_memory_map (λ _. Balanced-raise held load_error block)

  -- A new allocation owns the pages that it was given; without one nothing is left allocated.
  pub Balanced-new_under_4gb :
      (size : ℕ) (quirks : List Quirk) → Balanced held nothing block (new_under_4gb f size quirks)
  unfolding new_under_4gb
  Balanced-new_under_4gb size quirks =
      Balanced-bind held (granted (calculate_page_count size))
        (call (f.allocate_pages (max_address (top quirks)) loader_data (calculate_page_count size)))
        (under_4gb_result f size (calculate_page_count size))
        (Balanced-allocate (max_address (top quirks)) loader_data (calculate_page_count size))
        (Balanced-under_4gb_result size (calculate_page_count size))

  Balanced-at_result :
      (a size pages : ℕ) (r : Result Status ℕ)
      → Balanced held (granted pages r) block (at_result f a size pages r)
  Balanced-at_result a size pages (done ptr) =
      Balanced-pure held (record { ptr = ptr; len = size; pages = pages; should_be_at = none })
        block
  Balanced-at_result a size pages (failed x) =
      Balanced-bind held (λ _. nothing) (dump_memory_map f)
        (λ _.
          new_under_4gb f size [] >>= λ (b : Allocation). pure (record b { should_be_at = some a }))
        Balanced-dump_memory_map
        (λ _.
          Balanced-bind held block (new_under_4gb f size [])
            (λ (b : Allocation). pure (record b { should_be_at = some a }))
            (Balanced-new_under_4gb size [])
            (λ b. Balanced-pure held (record b { should_be_at = some a }) block))

  -- With lawful memory services, `new_at` adds exactly the block of its result to what is
  -- allocated, also where it has to try a second time; an error adds none. A panic is excepted.
  pub Balanced-new_at : (a size : ℕ) → Balanced held nothing block (new_at f a size)
  unfolding new_at
  Balanced-new_at a size =
      Balanced-bind held (granted (calculate_page_count size))
        (call (f.allocate_pages (address a) loader_data (calculate_page_count size)))
        (at_result f a size (calculate_page_count size))
        (Balanced-allocate (address a) loader_data (calculate_page_count size))
        (Balanced-at_result a size (calculate_page_count size))
