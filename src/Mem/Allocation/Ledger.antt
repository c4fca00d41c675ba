-- ===== src/Mem/Allocation/Ledger.antt =====
-- src/mem.rs: who owns which pages. A call is balanced if it turns the blocks that it is given into
-- the blocks of its result, and leaves none behind when it returns an error. Whatever else is
-- allocated, `base`, stays so.

use towboot_rust.Prelude.{
  ℕ, ◌+◌, ◌≡◌, refl, List, [], ◌∷◌, ◌++◌, Outcome, ok, err, panic, arith, Result, done, failed,
}
use towboot_rust.Firmware.{World}
use towboot_rust.Firmware.Exec.{
  Exec, pure, raise, lift, call, continue, attempt, settle, rename, with_err, ◌>>=◌,
}
use towboot_rust.Firmware.Laws.{Ledger, single}
use towboot_rust.Mem.Allocation.{Allocation}

-- The blocks of a list of allocations.
abbrev pub block : Allocation → Ledger
block a = single a.ptr a.pages

abbrev pub owned : List Allocation → Ledger
owned [] p n = 0
owned (a ∷ rest) p n = block a p n + owned rest p n

abbrev pub nothing : Ledger
nothing p n = 0

abbrev pub both : Ledger → Ledger → Ledger
both k l p n = k p n + l p n

pub owned-append :
    (xs ys : List Allocation) (p n : ℕ) → owned (xs ++ ys) p n ≡ owned xs p n + owned ys p n
owned-append [] ys p n = omega arith
owned-append (x ∷ xs) ys p n = omega (arith, owned-append xs ys p n)

module _ {S : Type 0} (held : S → Ledger) where
  -- In this state exactly the blocks of the ledger are allocated.
  abbrev pub Holds : S → Ledger → Type 0
  Holds s l = (p n : ℕ) → held s p n ≡ l p n

  abbrev pub Settled : {E A : Type 0} → Ledger → (A → Ledger) → Outcome E A → World S → Type 0
  Settled base outs (ok a) w = Holds w.firmware (both base (outs a))
  Settled base outs (err e) w = Holds w.firmware base
  Settled base outs (panic m) w = Unit

  pub record Balanced {E A : Type 0} (ins : Ledger) (outs : A → Ledger) (m : Exec S E A)
      : Type 0 where
    pub at :
        (base : Ledger) (w : World S)
        → Holds w.firmware (both base ins)
        → Settled base outs (m w).0 (m w).1

module _ {S : Type 0} (held : S → Ledger) {E A : Type 0} where
  pub Balanced-pure : (x : A) (outs : A → Ledger) → Balanced held {E = E} (outs x) outs (pure x)
  Balanced-pure x outs = record { at = λ base w h. h }

  pub Balanced-raise : (e : E) (outs : A → Ledger) → Balanced held {A = A} nothing outs (raise e)
  Balanced-raise e outs = record { at = λ base w h p n. omega (arith, h p n) }

  -- A call that does not touch the machine and gives nothing to own.
  pub Balanced-lift : (o : Outcome E A) → Balanced held nothing (λ _. nothing) (lift o)
  Balanced-lift (ok x) = record { at = λ base w h. h }
  Balanced-lift (err e) = record { at = λ base w h p n. omega (arith, h p n) }
  Balanced-lift (panic m) = record { at = λ base w h. tt }

  Settled-look :
      (base : Ledger) (o : Outcome E A) (w : World S)
      → Holds held w.firmware (both base nothing)
      → Settled held base (λ _. nothing) o w
  Settled-look base (ok x) w h = h
  Settled-look base (err e) w h = λ p n. omega (arith, h p n)
  Settled-look base (panic m) w h = tt

  -- A call that only looks at the machine.
  pub Balanced-look :
      (g : World S → Outcome E A) → Balanced held nothing (λ _. nothing) (λ w. (g w, w))
  Balanced-look g = record { at = λ base w h. Settled-look base (g w) w h }

  -- A call of the firmware that leaves its pages.
  pub Balanced-call :
      (g : S → A × S)
      → ((s : S) (p n : ℕ) → held (g s).1 p n ≡ held s p n)
      → Balanced held {E = E} nothing (λ _. nothing) (call g)
  Balanced-call g same = record { at = λ base w h p n. omega (arith, h p n, same w.firmware p n) }

  pub Settled-conv :
      (base base' : Ledger) (outs outs' : A → Ledger) (o : Outcome E A) (w : World S)
      → ((p n : ℕ) → base p n ≡ base' p n)
      → ((x : A) (p n : ℕ) → outs x p n ≡ outs' x p n)
      → Settled held base outs o w
      → Settled held base' outs' o w
  Settled-conv base base' outs outs' (ok x) w b c h = λ p n. omega (arith, h p n, b p n, c x p n)
  Settled-conv base base' outs outs' (err e) w b c h = λ p n. omega (arith, h p n, b p n)
  Settled-conv base base' outs outs' (panic m) w b c h = tt

  -- The ledgers only matter at each block.
  pub Balanced-conv :
      (ins ins' : Ledger) (outs outs' : A → Ledger) (m : Exec S E A)
      → ((p n : ℕ) → ins p n ≡ ins' p n)
      → ((x : A) (p n : ℕ) → outs x p n ≡ outs' x p n)
      → Balanced held ins outs m
      → Balanced held ins' outs' m
  Balanced-conv ins ins' outs outs' m b c t = record {
    at = λ base w h.
        Settled-conv base base outs outs' (m w).0 (m w).1 (λ p n. refl) c
          (t.at base w (λ p n. omega (arith, h p n, b p n)));
  }

module _ {S : Type 0} (held : S → Ledger) {E A B : Type 0} where
  Settled-continue :
      (base : Ledger) (mid : A → Ledger) (outs : B → Ledger) (f : A → Exec S E B)
      → ((x : A) → Balanced held (mid x) outs (f x))
      → (o : Outcome E A) (w : World S) → Settled held base mid o w
      → Settled held base outs (continue o f w).0 (continue o f w).1
  Settled-continue base mid outs f t (ok x) w h = (t x).at base w h
  Settled-continue base mid outs f t (err e) w h = h
  Settled-continue base mid outs f t (panic m) w h = tt

  -- What the first call leaves, the second takes.
  pub Balanced-bind :
      {ins : Ledger} (mid : A → Ledger) {outs : B → Ledger} (m : Exec S E A) (f : A → Exec S E B)
      → Balanced held ins mid m
      → ((x : A) → Balanced held (mid x) outs (f x))
      → Balanced held ins outs (m >>= f)
  Balanced-bind mid {outs} m f t u = record {
    at = λ base w h. Settled-continue base mid outs f u (m w).0 (m w).1 (t.at base w h);
  }

-- A call that cannot return an error leaves what it is not given to others.
module _ {S : Type 0} (held : S → Ledger) {A : Type 0} where
  Settled-frame :
      (base x : Ledger) (outs : A → Ledger) (o : Outcome ⊥ A) (w : World S)
      → Settled held (both base x) outs o w
      → Settled held base (λ a. both (outs a) x) o w
  Settled-frame base x outs (ok a) w h = λ p n. omega (arith, h p n)
  Settled-frame base x outs (err e) w h = absurd e
  Settled-frame base x outs (panic m) w h = tt

  pub Balanced-frame :
      (x : Ledger) {ins : Ledger} (outs : A → Ledger) (m : Exec S ⊥ A)
      → Balanced held ins outs m
      → Balanced held (both ins x) (λ a. both (outs a) x) m
  Balanced-frame x outs m t = record {
    at = λ base w h.
        Settled-frame base x outs (m w).0 (m w).1
          (t.at (both base x) w (λ p n. omega (arith, h p n)));
  }

-- What a call gives that may have failed.
abbrev pub settled_outs : {F A : Type 0} → (A → Ledger) → Result F A → Ledger
settled_outs outs (done a) = outs a
settled_outs outs (failed e) = nothing

module _ {S : Type 0} (held : S → Ledger) (E : Type 0) {F A : Type 0} where
  Settled-settle :
      (base : Ledger) (outs : A → Ledger) (o : Outcome F A) (w : World S)
      → Settled held base outs o w
      → Settled held base (settled_outs outs) (settle {E = E} o) w
  Settled-settle base outs (ok a) w h = h
  Settled-settle base outs (err e) w h = λ p n. omega (arith, h p n)
  Settled-settle base outs (panic m) w h = tt

  pub Balanced-attempt :
      {ins : Ledger} (outs : A → Ledger) (m : Exec S F A)
      → Balanced held ins outs m
      → Balanced held {E = E} ins (settled_outs outs) (attempt m)
  Balanced-attempt outs m t = record {
    at = λ base w h. Settled-settle base outs (m w).0 (m w).1 (t.at base w h);
  }

module _ {S : Type 0} (held : S → Ledger) {A : Type 0} where
  Settled-silent :
      (base : Ledger) (o : Outcome ⊥ A) (w : World S)
      → Holds held w.firmware (both base nothing)
      → Settled held base (λ _. nothing) o w
  Settled-silent base (ok a) w h = h
  Settled-silent base (err e) w h = absurd e
  Settled-silent base (panic m) w h = tt

  -- A call that only writes to memory.
  pub Balanced-silent :
      (o : World S → Outcome ⊥ A) (g : World S → ℕ → ℕ)
      → Balanced held nothing (λ _. nothing) (λ w. (o w, record w { memory = g w }))
  Balanced-silent o g = record {
    at = λ base w h. Settled-silent base (o w) (record w { memory = g w }) h;
  }

  -- A step that has nothing to do with what is owned.
  pub Balanced-aside :
      (x : Ledger) (m : Exec S ⊥ A)
      → Balanced held nothing (λ _. nothing) m
      → Balanced held x (λ _. x) m
  Balanced-aside x m b =
      Balanced-conv held (both nothing x) x (λ _. both nothing x) (λ _. x) m (λ p n. omega arith)
        (λ _ p n. omega arith) (Balanced-frame held x (λ _. nothing) m b)

  Settled-rename :
      (E : Type 0) (base : Ledger) (outs : A → Ledger) (o : Outcome ⊥ A) (w : World S)
      → Settled held base outs o w
      → Settled held base outs (rename {E = E} absurd o) w
  Settled-rename E base outs (ok a) w h = h
  Settled-rename E base outs (err e) w h = absurd e
  Settled-rename E base outs (panic m) w h = tt

  -- A call that has no errors, in code that has.
  pub Balanced-with_err :
      {E : Type 0} {ins : Ledger} (outs : A → Ledger) (m : Exec S ⊥ A)
      → Balanced held ins outs m
      → Balanced held {E = E} ins outs (with_err absurd m)
  Balanced-with_err {E} outs m b = record {
    at = λ base w h. Settled-rename E base outs (m w).0 (m w).1 (b.at base w h);
  }
