-- ===== src/Prelude/Results.antt =====
-- What a Rust function that returns a `Result` and may panic gives back.
use mathlib.Core.Path.{◌≡◌, refl, ap}
use mathlib.Core.Bool.{Bool, true, false}
use mathlib.Core.Option.{Option, none, some}
use Prim.Native.String.{String}
use native.Mathlib.Omega.{arith}

-- Rust's `Result<A, E>`: what the firmware's own functions return.
pub data Result {ℓ κ} (E : Type ℓ) (A : Type κ) : Type (ℓ ⊔ κ) where
  done : A → Result E A
  failed : E → Result E A

-- The outcome of a call: `Ok`, `Err`, or a panic, which ends the program.
pub data Outcome {ℓ κ} (E : Type ℓ) (A : Type κ) : Type (ℓ ⊔ κ) where
  ok : A → Outcome E A
  err : E → Outcome E A
  panic : String → Outcome E A

infixl 5 ◌>>=◌
abbrev pub ◌>>=◌ {ℓ κ μ} :
    {E : Type ℓ} {A : Type κ} {B : Type μ} → Outcome E A → (A → Outcome E B) → Outcome E B
panic m >>= next = panic m
err e >>= next = err e
ok x >>= next = next x

infixl 5 ◌>>◌
abbrev pub ◌>>◌ {ℓ μ} : {E : Type ℓ} {B : Type μ} → Outcome E (Unit {0}) → Outcome E B → Outcome E B
first >> second = first >>= λ _. second

-- The same, for files whose `do` blocks change the machine.
infixl 5 ◌>>?◌
abbrev pub ◌>>?◌ {ℓ κ μ} :
    {E : Type ℓ} {A : Type κ} {B : Type μ} → Outcome E A → (A → Outcome E B) → Outcome E B
m >>? f = m >>= f

-- `assert!(b)`.
abbrev pub assert {ℓ} : {E : Type ℓ} → Bool → String → Outcome E (Unit {0})
assert true m = ok tt
assert false m = panic m

-- `o.unwrap()` and `o.expect(m)` of an `Option`.
abbrev pub unwrap {ℓ κ} : {E : Type ℓ} {A : Type κ} → Option A → String → Outcome E A
unwrap none m = panic m
unwrap (some a) m = ok a

-- `o.ok_or(e)`.
abbrev pub ok_or {ℓ κ} : {E : Type ℓ} {A : Type κ} → Option A → E → Outcome E A
ok_or none e = err e
ok_or (some a) e = ok a

-- `r.expect(m)` of a `Result`.
abbrev pub expect {ℓ κ μ} :
    {E : Type ℓ} {F : Type μ} {A : Type κ} → Result F A → String → Outcome E A
expect (done a) m = ok a
expect (failed e) m = panic m

-- `r.map_err(f)?`.
abbrev pub map_err {ℓ κ μ} :
    {E : Type ℓ} {F : Type μ} {A : Type κ} → Result F A → (F → E) → Outcome E A
map_err (done a) f = ok a
map_err (failed e) f = err (f e)

-- What is known of two outcomes in sequence that come to a value.
pub >>=-eq-ok {ℓ κ μ} :
    {E : Type ℓ} {A : Type κ} {B : Type μ} (first : Outcome E A) (next : A → Outcome E B) {y : B}
    → (first >>= next) ≡ ok y
    → (x : A) × (first ≡ ok x) × (next x ≡ ok y)
>>=-eq-ok (panic m) next h = cc
>>=-eq-ok (err e) next h = cc
>>=-eq-ok (ok x) next h = (x, refl, h)

pub unwrap-eq-ok {ℓ κ} :
    {E : Type ℓ} {A : Type κ} (o : Option A) (m : String) (a : A)
    → unwrap {E = E} o m ≡ ok a
    → o ≡ some a
unwrap-eq-ok none m a h = cc
unwrap-eq-ok (some b) m a h = ground (arith, h)

pub ok-eq {ℓ κ} : {E : Type ℓ} {A : Type κ} {a b : A} → ◌≡◌ {A = Outcome E A} (ok a) (ok b) → a ≡ b
ok-eq {E} {A} {a} {b} h = ap value h
  where
    value : Outcome E A → A
    value (ok x) = x
    value (err e) = a
    value (panic m) = a
