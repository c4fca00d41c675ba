-- ===== src/Mem/Allocation/Memory.antt =====
-- src/mem.rs: allocating and freeing pages write nothing to memory.
use towboot_rust.Prelude.{
  ℕ, ◌≡◌, refl, ◌∙◌, List, [], Result, done, failed, Outcome, ok, err, panic, arith,
}
use towboot_rust.Firmware.{Status, PageServices, World}
use towboot_rust.Firmware.Exec.{Exec, continue, raise, outcome-eq}
use towboot_rust.Config.{Quirk}
use towboot_rust.Mem.Allocation.{
  Allocation, free, free_all, drop_on_err, dropping, dump_memory_map, under_4gb_result, at_result,
  new_under_4gb, new_at, calculate_page_count,
}

-- A call after which memory is as it was.
abbrev pub Keeps : {S A E : Type 0} → Exec S E A → Type 0
Keeps {S} m = (w : World S) → (m w).1.memory ≡ w.memory

continue-Keeps :
    {S A B E : Type 0} (o : Outcome E A) (f : A → Exec S E B) (v : World S)
    → ((a : A) → Keeps (f a))
    → (continue o f v).1.memory ≡ v.memory
continue-Keeps (ok a) f v k = k a v
continue-Keeps (err e) f v k = refl
continue-Keeps (panic m) f v k = refl

module _ {S : Type 0} (f : PageServices S) where
  pub free-Keeps : (E : Type 0) (a : Allocation) → Keeps (free f {E = E} a)
  unfolding free
  free-Keeps E a w = refl

  dump-Keeps : (E : Type 0) → Keeps (dump_memory_map f {E = E})
  unfolding dump_memory_map
  dump-Keeps E w = refl

  under_4gb_result-Keeps :
      (size pages : ℕ) (r : Result Status ℕ) → Keeps (under_4gb_result f size pages r)
  under_4gb_result-Keeps size pages (done p) w = refl
  under_4gb_result-Keeps size pages (failed e) w =
      continue-Keeps _ _ (dump_memory_map f w).1 (λ _ v. refl) ∙ dump-Keeps Status w

  pub new_under_4gb-Keeps : (size : ℕ) (quirks : List Quirk) → Keeps (new_under_4gb f size quirks)
  unfolding new_under_4gb
  new_under_4gb-Keeps size quirks w = under_4gb_result-Keeps size (calculate_page_count size) _ _

  at_result-Keeps : (a size pages : ℕ) (r : Result Status ℕ) → Keeps (at_result f a size pages r)
  at_result-Keeps a size pages (done p) w = refl
  at_result-Keeps a size pages (failed e) w =
      continue-Keeps _ _ (dump_memory_map f w).1 (λ _ v.
        continue-Keeps (new_under_4gb f size [] v).0 _ (new_under_4gb f size [] v).1 (λ _ u. refl)
        ∙ new_under_4gb-Keeps size [] v)
      ∙ dump-Keeps Status w

  pub new_at-Keeps : (a size : ℕ) → Keeps (new_at f a size)
  unfolding new_at
  new_at-Keeps a size w = at_result-Keeps a size (calculate_page_count size) _ _

-- A scope that does not return an error keeps what it owns.
module _ {S : Type 0} (f : PageServices S) {E A : Type 0} where
  drop_on_err-eq-ok :
      (owned : List Allocation) (o : Outcome E A) (v : World S) {x : A} {w' : World S}
      → drop_on_err f owned o v ≡ (ok x, w')
      → ◌≡◌ {A = Outcome E A × World S} (o, v) (ok x, w')
  drop_on_err-eq-ok owned (ok y) v h = h
  drop_on_err-eq-ok owned (err e) v h = absurd (raised (free_all f {E = E} owned v).0 h)
    where
      raised :
          (o : Outcome E (Unit {0})) {x : A} {w' : World S}
          → continue o (λ _. raise {A = A} e) (free_all f {E = E} owned v).1 ≡ (ok x, w')
          → ⊥
      raised (ok _) k = let p = outcome-eq k in ground (arith, p)
      raised (err _) k = let p = outcome-eq k in ground (arith, p)
      raised (panic _) k = let p = outcome-eq k in ground (arith, p)
  drop_on_err-eq-ok owned (panic m) v h = let p = outcome-eq h in absurd (ground (arith, p))

  pub dropping-eq-ok :
      (owned : List Allocation) (m : Exec S E A) (w : World S) {x : A} {w' : World S}
      → dropping f owned m w ≡ (ok x, w')
      → m w ≡ (ok x, w')
  unfolding dropping
  dropping-eq-ok owned m w h = drop_on_err-eq-ok owned (m w).0 (m w).1 h
