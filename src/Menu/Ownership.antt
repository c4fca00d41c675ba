-- ===== src/Menu/Ownership.antt =====
-- src/menu.rs: the menu takes no pages.

use towboot_rust.Prelude.{
  ℕ, zero, suc, ◌+◌, ◌*◌, Option, none, some, List, [], ◌∷◌, length, String, Result, done, failed,
  Target, map_err,
}
use towboot_rust.Firmware.{Status}
use towboot_rust.Firmware.Exec.{Exec, pure, lift, call, attempt, ◌>>=◌, ◌>>◌}
use towboot_rust.Firmware.Laws.{Ledger}
use towboot_rust.Firmware.Console.{Console, print_line}
use towboot_rust.Config.{Entry, Config}
use towboot_rust.Menu.{
  Event, TimerServices, Wait, expired, waiting, escaped, wait_escape, Typed, typing, entered,
  stopped, type_key, Selection, unanswered, selected, typed, select_entry, retried, until_selected,
  settled, list_entries, menu, waiting_text, after_wait, display_for, display_menu, default_of,
  or_default, choose_within, choose,
}
use towboot_rust.Mem.Allocation.Ledger.{Balanced-lift, Balanced-call}
use towboot_rust.Mem.Allocation.Quiet.{
  Quiet, Leaves, Quiet-pure, Quiet-bind, Quiet-print_line, Quiet-attempt,
}

-- Using the timer does not touch the firmware's pages.
pub record KeepsTime {S : Type 0} (clock : TimerServices S) (held : S → Ledger) : Type 0 where
  pub create_event : Leaves held clock.create_event
  pub set_timer : (n : Option ℕ) → Leaves held (clock.set_timer n)

module _ (t : Target) {S : Type 0} (c : Console S) (clock : TimerServices S)
    (show : Status → String) (held : S → Ledger)
    (prints : (s : String) → Leaves held (c.print s)) where
  says :
      {E A : Type 0} (text : String) (m : Exec S E A)
      → Quiet held m
      → Quiet held (print_line c text >> m)
  says text m q =
      Quiet-bind held (print_line c text) _ (Quiet-print_line held c text prints) (λ _. q)

  Quiet-typed :
      (entries : List (String × Entry)) (value : String) (events : List Event)
      (again : String → Exec S Status Selection) (y : Typed)
      → ((v : String) → Quiet held (again v))
      → Quiet held (typed t c clock show entries value events again y)
  Quiet-typed entries value events again (typing v) k = k v
  Quiet-typed entries value events again entered k = says "\n" _ (Quiet-pure held _)
  Quiet-typed entries value events again (stopped e) k = Quiet-pure held _

  Quiet-select_entry :
      (entries : List (String × Entry)) (value : String) (events : List Event)
      → Quiet held (select_entry t c clock show entries value events)
  unfolding select_entry
  Quiet-select_entry entries value [] = says _ _ (Quiet-pure held _)
  Quiet-select_entry entries value (event ∷ events) = says _ _ (
      Quiet-typed entries value events (λ v. select_entry t c clock show entries v events)
        (type_key value event) (λ v. Quiet-select_entry entries v events))

  Quiet-retried :
      (again : List Event → Exec S Status (Option (Option Entry))) (y : Selection)
      → ((es : List Event) → Quiet held (again es))
      → Quiet held (retried t c clock show again y)
  Quiet-retried again unanswered k = Quiet-pure held _
  Quiet-retried again (selected (done e) es) k = Quiet-pure held _
  Quiet-retried again (selected (failed e) es) k = says _ _ (k es)

  Quiet-until_selected :
      (fuel : ℕ) (entries : List (String × Entry)) (events : List Event)
      → Quiet held (until_selected t c clock show fuel entries events)
  unfolding until_selected
  Quiet-until_selected zero entries events = Quiet-pure held _
  Quiet-until_selected (suc fuel) entries events =
      Quiet-bind held (select_entry t c clock show entries "" events) _
        (Quiet-select_entry entries "" events)
        (λ y.
          Quiet-retried (until_selected t c clock show fuel entries) y
            (Quiet-until_selected fuel entries))

  Quiet-list_entries :
      (decimal : ℕ → String) (i : ℕ) (entries : List (String × Entry))
      → Quiet held (list_entries t c clock show decimal i entries)
  unfolding list_entries
  Quiet-list_entries decimal i [] = Quiet-pure held _
  Quiet-list_entries decimal i ((k, e) ∷ entries) =
      says _ _ (Quiet-list_entries decimal (i + 1) entries)

  Quiet-menu :
      (decimal : ℕ → String) (entries : List (String × Entry)) (events : List Event)
      → Quiet held (menu t c clock show decimal entries events)
  Quiet-menu decimal entries events = says _ _ (
      Quiet-bind held (list_entries t c clock show decimal 0 entries) _
        (Quiet-list_entries decimal 0 entries)
        (λ _.
          Quiet-bind held (until_selected t c clock show (suc (length events)) entries events) _
            (Quiet-until_selected (suc (length events)) entries events)
            (λ o. Quiet-pure held (settled o))))

  module _ (keeps : KeepsTime clock held) where
    -- A call of the timer, and the test of its result.
    timed :
        {A : Type 0} (f : S → Result Status (Unit {0}) × S) (m : Exec S Status A)
        → Leaves held f
        → Quiet held m
        → Quiet held (call f >>= λ r. lift (map_err r (λ (e : Status). e)) >> m)
    timed f m l q = Quiet-bind held (call f) _ (Balanced-call held f l) (λ r.
        Quiet-bind held (lift (map_err r (λ (e : Status). e))) _
          (Balanced-lift held (map_err r (λ (e : Status). e))) (λ _. q))

    Quiet-after_wait :
        (decimal : ℕ → String) (entries : List (String × Entry)) (d : Entry) (y : Wait)
        → Quiet held (after_wait t c clock show decimal entries d y)
    Quiet-after_wait decimal entries d expired = Quiet-pure held _
    Quiet-after_wait decimal entries d waiting = Quiet-pure held _
    Quiet-after_wait decimal entries d (escaped events) =
        timed (clock.set_timer none) _ (keeps.set_timer none) (Quiet-menu decimal entries events)

    Quiet-display_for :
        (decimal : ℕ → String) (config : Config) (d : Entry) (o : Option ℕ) (events : List Event)
        → Quiet held (display_for t c clock show decimal config d o events)
    Quiet-display_for decimal config d none events = Quiet-menu decimal config.entries events
    Quiet-display_for decimal config d (some n) events =
        says (waiting_text t c clock show decimal config d n) _ (
          timed clock.create_event _ keeps.create_event (
            timed (clock.set_timer (some (n * 10000000))) _ (keeps.set_timer (some (n * 10000000)))
              (Quiet-bind held (lift (wait_escape events)) _
                (Balanced-lift held (wait_escape events))
                (Quiet-after_wait decimal config.entries d))))

    displayed :
        (decimal : ℕ → String) (config : Config) (d : Entry) (events : List Event)
        → Quiet {E = ⊥} held (
            attempt (display_menu t c clock show decimal config d events) >>= λ r.
            pure (or_default t c clock show d r))
    unfolding display_menu
    displayed decimal config d events =
        Quiet-bind held (attempt (display_menu t c clock show decimal config d events)) _
          (Quiet-attempt held (display_menu t c clock show decimal config d events)
            (Quiet-display_for decimal config d config.timeout events))
          (λ r. Quiet-pure held (or_default t c clock show d r))

    Quiet-choose_within :
        (decimal : ℕ → String) (config : Config) (d : Entry) (o : Option ℕ) (events : List Event)
        → Quiet held (choose_within t c clock show decimal config d o events)
    Quiet-choose_within decimal config d none events = displayed decimal config d events
    Quiet-choose_within decimal config d (some zero) events = Quiet-pure held _
    Quiet-choose_within decimal config d (some (suc n)) events = displayed decimal config d events

    pub Quiet-choose :
        (decimal : ℕ → String) (config : Config) (events : List Event)
        → Quiet held (choose t c clock show decimal config events)
    unfolding choose
    Quiet-choose decimal config events =
        Quiet-bind held (lift (default_of t c clock show config)) _
          (Balanced-lift held (default_of t c clock show config))
          (λ d. Quiet-choose_within decimal config d config.timeout events)
