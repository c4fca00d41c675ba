-- ===== src/Firmware/Exec.antt =====
-- Code that changes the machine, may return an error and may panic. What was done before an error
-- stays done, so the machine comes back beside the error too.
use towboot_rust.Prelude.{◌≡◌, refl, ap, Outcome, ok, err, panic, Result, done, failed}
use towboot_rust.Firmware.{World}

abbrev pub Exec {ℓ κ} : Type 0 → Type ℓ → Type κ → Type (ℓ ⊔ κ)
Exec S E A = World S → Outcome E A × World S

module _ {ℓ κ} {S : Type 0} {E : Type ℓ} {A : Type κ} where
  abbrev pub pure : A → Exec S E A
  pure a w = (ok a, w)

  abbrev pub raise : E → Exec S E A
  raise e w = (err e, w)

  -- A call that leaves the machine alone.
  abbrev pub lift : Outcome E A → Exec S E A
  lift o w = (o, w)

module _ {ℓ κ μ} {S : Type 0} {E : Type ℓ} {A : Type κ} {B : Type μ} where
  abbrev pub continue : Outcome E A → (A → Exec S E B) → Exec S E B
  continue (ok a) f w = f a w
  continue (err e) f w = (err e, w)
  continue (panic m) f w = (panic m, w)

  infixl 5 ◌>>=◌
  abbrev pub ◌>>=◌ : Exec S E A → (A → Exec S E B) → Exec S E B
  ◌>>=◌ m f w = continue (m w).0 f (m w).1

infixl 5 ◌>>◌
abbrev pub ◌>>◌ {ℓ μ} :
    {S : Type 0} {E : Type ℓ} {B : Type μ} → Exec S E (Unit {0}) → Exec S E B → Exec S E B
m >> n = m >>= λ _. n

-- A call of the firmware.
abbrev pub call {ℓ κ} : {S : Type 0} {E : Type ℓ} {A : Type κ} → (S → A × S) → Exec S E A
call f w = let r = f w.firmware in (ok r.0, record w { firmware = r.1 })

-- `Result::map_err`.
abbrev pub rename {ℓ κ μ} :
    {E : Type ℓ} {F : Type μ} {A : Type κ} → (F → E) → Outcome F A → Outcome E A
rename f (ok a) = ok a
rename f (err e) = err (f e)
rename f (panic m) = panic m

abbrev pub with_err {ℓ κ μ} :
    {S : Type 0} {E : Type ℓ} {F : Type μ} {A : Type κ} → (F → E) → Exec S F A → Exec S E A
with_err f m w = (rename f (m w).0, (m w).1)

-- A computation that may panic but has no errors, in code that has.
abbrev pub never {κ} : {S E : Type 0} {A : Type κ} → Outcome ⊥ A → Exec S E A
never o = with_err absurd (lift o)

-- A call whose `Result` is looked at by the caller.
abbrev pub settle {ℓ κ μ} :
    {E : Type ℓ} {F : Type μ} {A : Type κ} → Outcome F A → Outcome E (Result F A)
settle (ok a) = ok (done a)
settle (err e) = ok (failed e)
settle (panic m) = panic m

abbrev pub attempt {ℓ κ μ} :
    {S : Type 0} {E : Type ℓ} {F : Type μ} {A : Type κ} → Exec S F A → Exec S E (Result F A)
attempt m w = (settle (m w).0, (m w).1)

module _ {ℓ κ μ} {S : Type 0} {E : Type ℓ} {A : Type κ} {B : Type μ} where
  -- Inversion of a call behind an outcome that was reached without touching the machine.
  pub continue-eq-ok :
      (o : Outcome E A) (f : A → Exec S E B) (v : World S) {b : B} {w' : World S}
      → continue o f v ≡ (ok b, w')
      → (a : A) × (o ≡ ok a) × (f a v ≡ (ok b, w'))
  continue-eq-ok (ok a) f v h = (a, refl, h)
  continue-eq-ok (err e) f v h = cc (ap (λ (r : Outcome E B × World S). r.0) h)
  continue-eq-ok (panic m) f v h = cc (ap (λ (r : Outcome E B × World S). r.0) h)

  -- Inversion of two calls in sequence that return.
  pub >>=-eq-ok :
      (m : Exec S E A) (f : A → Exec S E B) (w : World S) {b : B} {w' : World S}
      → (m >>= f) w ≡ (ok b, w')
      → (a : A) × (v : World S) × (m w ≡ (ok a, v)) × (f a v ≡ (ok b, w'))
  >>=-eq-ok m f w h =
      let (a, e, r) = continue-eq-ok (m w).0 f (m w).1 h in (a, (m w).1, λ i. (e i, (m w).1), r)

-- The parts of an equation between what two calls give back.
module _ {ℓ κ} {S : Type 0} {E : Type ℓ} {A : Type κ} {x y : Outcome E A × World S} where
  pub outcome-eq : x ≡ y → x.0 ≡ y.0
  outcome-eq h i = (h i).0

  pub world-eq : x ≡ y → x.1 ≡ y.1
  world-eq h i = (h i).1

  pub memory-eq : x ≡ y → x.1.memory ≡ y.1.memory
  memory-eq h i = (h i).1.memory

module _ {E F A : Type 0} where
  settle-eq-done : (o : Outcome F A) (a : A) → settle {E = E} o ≡ ok (done a) → o ≡ ok a
  settle-eq-done (ok b) a h = cc
  settle-eq-done (err e) a h = cc
  settle-eq-done (panic m) a h = cc

  settle-eq-failed : (o : Outcome F A) (e : F) → settle {E = E} o ≡ ok (failed e) → o ≡ err e
  settle-eq-failed (ok b) e h = cc
  settle-eq-failed (err x) e h = cc
  settle-eq-failed (panic m) e h = cc

module _ {S E F A : Type 0} where
  -- Inversion of a call whose result was looked at.
  pub attempt-eq-done :
      (m : Exec S F A) (w : World S) {a : A} {v : World S}
      → attempt {E = E} m w ≡ (ok (done a), v)
      → m w ≡ (ok a, v)
  attempt-eq-done m w {a} h i = (settle-eq-done (m w).0 a (outcome-eq h) i, (world-eq h) i)

  pub attempt-eq-failed :
      (m : Exec S F A) (w : World S) {e : F} {v : World S}
      → attempt {E = E} m w ≡ (ok (failed e), v)
      → m w ≡ (err e, v)
  attempt-eq-failed m w {e} h i = (settle-eq-failed (m w).0 e (outcome-eq h) i, (world-eq h) i)

pub rename-eq-ok :
    {E F A : Type 0} (f : F → E) (o : Outcome F A) {a : A} → rename f o ≡ ok a → o ≡ ok a
rename-eq-ok f (ok b) h = cc
rename-eq-ok f (err e) h = cc
rename-eq-ok f (panic m) h = cc
