-- ===== src/Firmware/Yields.antt =====
-- What holds of the results of code that runs over the firmware, whenever it returns one.
use towboot_rust.Prelude.{◌≡◌, refl, Outcome, ok, err, panic, Result, done, failed, ok-eq}
use towboot_rust.Firmware.{World}
use towboot_rust.Firmware.Exec.{
  Exec, pure, lift, attempt, continue, settle, ◌>>=◌, >>=-eq-ok, outcome-eq, world-eq,
}
use mathlib.Core.Path.{subst}

-- Every result that the code returns has the property.
abbrev pub Yields : {S E A : Type 0} → (A → Type 0) → Exec S E A → Type 0
Yields {S = S} {A = A} P m = (a : A) (w w' : World S) → m w ≡ (ok a, w') → P a

module _ {S E A : Type 0} where
  pub Yields-pure : (P : A → Type 0) (a : A) → P a → Yields {S = S} {E = E} P (pure a)
  Yields-pure P a p b w w' h = subst P (ok-eq (outcome-eq h)) p

  pub Yields-lift :
      (P : A → Type 0) (o : Outcome E A) → ((a : A) → o ≡ ok a → P a) → Yields {S = S} P (lift o)
  Yields-lift P o p b w w' h = p b (outcome-eq h)

module _ {S E A B : Type 0} (Q : B → Type 0) where
  pub Yields-bind :
      (m : Exec S E A) (f : A → Exec S E B) → ((a : A) → Yields Q (f a)) → Yields Q (m >>= f)
  Yields-bind m f k b w w' h = let (a, v, _, r) = >>=-eq-ok m f w h in k a b v w' r

  pub Yields-then :
      (P : A → Type 0) (m : Exec S E A) (f : A → Exec S E B)
      → Yields P m
      → ((a : A) → P a → Yields Q (f a))
      → Yields Q (m >>= f)
  Yields-then P m f p k b w w' h = let (a, v, e, r) = >>=-eq-ok m f w h in k a (p a w v e) b v w' r

-- A call whose errors are made into results.
module _ {S E F A B : Type 0} (Q : B → Type 0) where
  settle_cases :
      (o : Outcome F A) (f : Result F A → B) (v : World S)
      → ((a : A) → o ≡ ok a → Q (f (done a)))
      → ((e : F) → Q (f (failed e)))
      → (b : B) (w' : World S) → continue (settle {E = E} o) (λ r. pure (f r)) v ≡ (ok b, w')
      → Q b
  settle_cases (ok a) f v p k b w' h = subst Q (ok-eq (outcome-eq h)) (p a refl)
  settle_cases (err e) f v p k b w' h = subst Q (ok-eq (outcome-eq h)) (k e)
  settle_cases (panic m) f v p k b w' h = cc (outcome-eq h)

  pub Yields-attempted :
      (m : Exec S F A) (f : Result F A → B)
      → Yields (λ a. Q (f (done a))) m
      → ((e : F) → Q (f (failed e)))
      → Yields {E = E} Q (attempt m >>= λ r. pure (f r))
  Yields-attempted m f p k b w w' h =
      settle_cases (m w).0 f (m w).1 (λ a y. p a w (m w).1 (λ i. (y i, (m w).1))) k b w' h

-- The same of the result together with the machine that is left.
abbrev pub Leads : {S E A : Type 0} → (A → World S → Type 0) → Exec S E A → Type 0
Leads {S = S} {A = A} P m = (a : A) (w w' : World S) → m w ≡ (ok a, w') → P a w'

module _ {S E A : Type 0} (P : A → World S → Type 0) where
  pub pure-eq-ok : (a b : A) (w w' : World S) → pure {E = E} a w ≡ (ok b, w') → P a w → P b w'
  pure-eq-ok a b w w' h p = subst (λ x. P x w') (ok-eq (outcome-eq h)) (subst (P a) (world-eq h) p)

module _ {S E A B : Type 0} (Q : B → World S → Type 0) where
  pub Leads-bind :
      (m : Exec S E A) (f : A → Exec S E B) → ((a : A) → Leads Q (f a)) → Leads Q (m >>= f)
  Leads-bind m f k b w w' h = let (a, v, _, r) = >>=-eq-ok m f w h in k a b v w' r
