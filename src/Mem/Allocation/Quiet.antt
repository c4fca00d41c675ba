-- ===== src/Mem/Allocation/Quiet.antt =====
-- src/mem.rs: calls that take no pages and leave none behind.
use towboot_rust.Prelude.{ℕ, ◌≡◌, refl, String, Result, done, failed, expect}
use towboot_rust.Firmware.Exec.{Exec, pure, call, attempt, ◌>>=◌}
use towboot_rust.Firmware.Laws.{Ledger}
use towboot_rust.Firmware.Console.{Console, print_line}
use towboot_rust.Mem.Allocation.Ledger.{
  nothing, Balanced, Balanced-pure, Balanced-lift, Balanced-bind, Balanced-call, Balanced-attempt,
  Balanced-conv, settled_outs,
}

abbrev pub Quiet : {S E A : Type 0} → (S → Ledger) → Exec S E A → Type 0
Quiet held m = Balanced held nothing (λ _. nothing) m

-- A call of the firmware that does not touch its pages.
abbrev pub Leaves : {S A : Type 0} → (S → Ledger) → (S → A × S) → Type 0
Leaves {S = S} held f = (s : S) (p n : ℕ) → held (f s).1 p n ≡ held s p n

module _ {S : Type 0} (held : S → Ledger) {E : Type 0} where
  pub Quiet-pure : {A : Type 0} (a : A) → Quiet {E = E} held (pure a)
  Quiet-pure a = Balanced-pure held a (λ _. nothing)

  pub Quiet-bind :
      {A B : Type 0} (m : Exec S E A) (f : A → Exec S E B)
      → Quiet held m
      → ((a : A) → Quiet held (f a))
      → Quiet held (m >>= f)
  Quiet-bind m f q r = Balanced-bind held (λ _. nothing) m f q r

  pub Quiet-print_line :
      (c : Console S) (text : String)
      → ((s : String) → Leaves held (c.print s))
      → Quiet {E = E} held (print_line c text)
  unfolding print_line
  Quiet-print_line c text leaves =
      Quiet-bind (call (c.print text)) _ (Balanced-call held (c.print text) (leaves text))
        (λ r. Balanced-lift held (expect r "called `Result::unwrap()` on an `Err` value"))

  pub Quiet-attempt :
      {F A : Type 0} (m : Exec S F A) → Quiet held m → Quiet {E = E} held (attempt m)
  Quiet-attempt m q =
      Balanced-conv held nothing nothing (settled_outs (λ _. nothing)) (λ _. nothing) (attempt m)
        (λ p n. refl) silent (Balanced-attempt held E (λ _. nothing) m q)
    where
      silent :
          {F A : Type 0} (r : Result F A) (p n : ℕ) → settled_outs (λ (a : A). nothing) r p n ≡ 0
      silent (done a) p n = refl
      silent (failed e) p n = refl
