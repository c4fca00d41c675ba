-- ===== src/Menu/Laws.antt =====
-- src/menu.rs: which entries can be chosen.
use Prim.Native.String.{◌++◌ as ◌<>◌}
use towboot_rust.Prelude.{
  ℕ, zero, suc, length, done, failed, ◌*◌, ◌≡◌, refl, ◌⊎◌, inl, inr, Option, none, some, List, [],
  ◌∷◌, String, ok, Target, arith, Bool-cases, map_err, ok-eq, unwrap-eq-ok, ap, ◌∙◌,
}
use text.Mathlib.Text.{◌==◌ as str_eq}
use towboot_rust.Firmware.{Status, World}
use towboot_rust.Firmware.Exec.{Exec, pure, lift, call, attempt, ◌>>=◌}
use towboot_rust.Firmware.Yields.{
  Yields, Yields-pure, Yields-lift, Yields-bind, Yields-then, Yields-attempted,
}
use towboot_rust.Firmware.Console.{Console, print_line}
use towboot_rust.Config.{Entry, Config}
use towboot_rust.Menu.{
  Event, TimerServices, get, nth, parse_usize, chosen, Wait, expired, waiting, escaped, wait_escape,
  Typed, typing, entered, stopped, type_key, Selection, unanswered, selected, or_invalid, look_up,
  typed, select_entry, retried, until_selected, settled, list_entries, menu, after_wait,
  display_for, display_menu, or_first, default_of, or_default, choose_within, choose,
}

-- An entry of the configuration.
abbrev pub Listed : Entry → List (String × Entry) → Type 0
Listed e [] = ⊥
Listed e ((k, x) ∷ entries) = (x ≡ e) ⊎ Listed e entries

get-Listed :
    (name : String) (entries : List (String × Entry)) (e : Entry)
    → get name entries ≡ some e
    → Listed e entries
unfolding get
get-Listed name [] e h = cc
get-Listed name ((k, x) ∷ entries) e h = elim (Bool-cases (str_eq k name)) [
  | inl y ↦ inl (ground (arith, rw y at h))
  | inr n ↦ inr (get-Listed name entries e (rw n at h))
]

nth-Listed :
    (i : ℕ) (entries : List (String × Entry)) (e : Entry)
    → nth i entries ≡ some e
    → Listed e entries
unfolding nth
nth-Listed i [] e h = cc
nth-Listed zero ((k, x) ∷ entries) e h = inl (ground (arith, h))
nth-Listed (suc i) ((k, x) ∷ entries) e h = inr (nth-Listed i entries e h)

chosen-Listed :
    (entries : List (String × Entry)) (value : String) (o : Option ℕ) (e : Entry)
    → chosen entries value o ≡ some e
    → Listed e entries
chosen-Listed entries value (some i) e h = nth-Listed i entries e h
chosen-Listed entries value none e h = get-Listed value entries e h

-- A choice that can only be one of the entries, or none yet.
abbrev pub IsListed : List (String × Entry) → Option Entry → Type 0
IsListed entries none = Unit
IsListed entries (some e) = Listed e entries

abbrev IsSettled : List (String × Entry) → Option (Option Entry) → Type 0
IsSettled entries none = Unit
IsSettled entries (some o) = IsListed entries o

abbrev IsSelected : List (String × Entry) → Selection → Type 0
IsSelected entries unanswered = Unit
IsSelected entries (selected (done e) events) = Listed e entries
IsSelected entries (selected (failed e) events) = Unit

or_invalid-IsSelected :
    (entries : List (String × Entry)) (events : List Event) (o : Option Entry)
    → IsListed entries o
    → IsSelected entries (selected (or_invalid o) events)
or_invalid-IsSelected entries events none l = tt
or_invalid-IsSelected entries events (some e) l = l

chosen-IsListed :
    (entries : List (String × Entry)) (value : String) (i : Option ℕ) (o : Option Entry)
    → chosen entries value i ≡ o
    → IsListed entries o
chosen-IsListed entries value i none h = tt
chosen-IsListed entries value i (some e) h = chosen-Listed entries value i e h

settled-IsListed :
    (entries : List (String × Entry)) (o : Option (Option Entry))
    → IsSettled entries o
    → IsListed entries (settled o)
settled-IsListed entries none l = tt
settled-IsListed entries (some o) l = l

module _ (t : Target) {S : Type 0} (c : Console S) (clock : TimerServices S)
    (show : Status → String) where
  module _ (entries : List (String × Entry)) where
    typed-IsSelected :
        (value : String) (events : List Event) (again : String → Exec S Status Selection)
        (y : Typed)
        → ((v : String) → Yields (IsSelected entries) (again v))
        → Yields (IsSelected entries) (typed t c clock show entries value events again y)
    unfolding look_up
    typed-IsSelected value events again (typing v) k = k v
    typed-IsSelected value events again entered k =
        let o = chosen entries value (parse_usize t value) in
        Yields-bind (IsSelected entries) (print_line c "\n") _ (λ _.
          Yields-pure (IsSelected entries) (selected (or_invalid o) events) (
            or_invalid-IsSelected entries events o
              (chosen-IsListed entries value (parse_usize t value) o refl)))
    typed-IsSelected value events again (stopped e) k =
        Yields-pure (IsSelected entries) (selected (failed e) events) tt

    select_entry-IsSelected :
        (value : String) (events : List Event)
        → Yields (IsSelected entries) (select_entry t c clock show entries value events)
    unfolding select_entry
    select_entry-IsSelected value [] =
        Yields-bind (IsSelected entries)
          (print_line c ("\rplease select an entry to boot: " <> value <> " ")) _
          (λ _. Yields-pure (IsSelected entries) unanswered tt)
    select_entry-IsSelected value (event ∷ events) =
        Yields-bind (IsSelected entries)
          (print_line c ("\rplease select an entry to boot: " <> value <> " ")) _
          (λ _.
            typed-IsSelected value events (λ v. select_entry t c clock show entries v events)
              (type_key value event) (λ v. select_entry-IsSelected v events))

    retried-IsSettled :
        (again : List Event → Exec S Status (Option (Option Entry))) (y : Selection)
        → ((es : List Event) → Yields (IsSettled entries) (again es))
        → IsSelected entries y
        → Yields (IsSettled entries) (retried t c clock show again y)
    retried-IsSettled again unanswered k l = Yields-pure (IsSettled entries) (some none) tt
    retried-IsSettled again (selected (done e) es) k l =
        Yields-pure (IsSettled entries) (some (some e)) l
    retried-IsSettled again (selected (failed e) es) k l =
        Yields-bind (IsSettled entries) (print_line c ("invalid choice: " <> show e <> "\n")) _
          (λ _. k es)

    until_selected-IsSettled :
        (fuel : ℕ) (events : List Event)
        → Yields (IsSettled entries) (until_selected t c clock show fuel entries events)
    unfolding until_selected
    until_selected-IsSettled zero events = Yields-pure (IsSettled entries) none tt
    until_selected-IsSettled (suc fuel) events =
        Yields-then (IsSettled entries) (IsSelected entries)
          (select_entry t c clock show entries "" events) _ (select_entry-IsSelected "" events)
          (λ y.
            retried-IsSettled (until_selected t c clock show fuel entries) y
              (λ es. until_selected-IsSettled fuel es))

    menu-IsListed :
        (decimal : ℕ → String) (events : List Event)
        → Yields (IsListed entries) (menu t c clock show decimal entries events)
    menu-IsListed decimal events =
        Yields-bind (IsListed entries) (print_line c "available entries:\n") _ (λ _.
          Yields-bind (IsListed entries) (list_entries t c clock show decimal 0 entries) _ (λ _.
            Yields-then (IsListed entries) (IsSettled entries)
              (until_selected t c clock show (suc (length events)) entries events) _
              (until_selected-IsSettled (suc (length events)) events)
              (λ o l. Yields-pure (IsListed entries) (settled o) (settled-IsListed entries o l))))

    after_wait-IsListed :
        (decimal : ℕ → String) (d : Entry) (y : Wait)
        → Listed d entries
        → Yields (IsListed entries) (after_wait t c clock show decimal entries d y)
    after_wait-IsListed decimal d expired l = Yields-pure (IsListed entries) (some d) l
    after_wait-IsListed decimal d waiting l = Yields-pure (IsListed entries) none tt
    after_wait-IsListed decimal d (escaped events) l =
        Yields-bind (IsListed entries) (call (clock.set_timer none)) _ (λ r.
          Yields-bind (IsListed entries) (lift (map_err r (λ (e : Status). e))) _
            (λ _. menu-IsListed decimal events))

  display_for-IsListed :
      (decimal : ℕ → String) (config : Config) (d : Entry) (o : Option ℕ) (events : List Event)
      → Listed d config.entries
      → Yields (IsListed config.entries) (display_for t c clock show decimal config d o events)
  display_for-IsListed decimal config d none events l = menu-IsListed config.entries decimal events
  display_for-IsListed decimal config d (some n) events l =
      let es = config.entries in
      Yields-bind (IsListed es) (print_line c _) _ (λ _.
        Yields-bind (IsListed es) (call clock.create_event) _ (λ r.
          Yields-bind (IsListed es) (lift (map_err r (λ (e : Status). e))) _ (λ _.
            Yields-bind (IsListed es) (call (clock.set_timer (some (n * 10000000)))) _ (λ q.
              Yields-bind (IsListed es) (lift (map_err q (λ (e : Status). e))) _ (λ _.
                Yields-bind (IsListed es) (lift (wait_escape events)) _
                  (λ y. after_wait-IsListed es decimal d y l))))))

  or_first-Listed :
      (config : Config) (d : Entry) (o : Option Entry)
      → get config.default config.entries ≡ o
      → or_first t c clock show config o ≡ ok d
      → Listed d config.entries
  or_first-Listed config d (some e) y h =
      get-Listed config.default config.entries d (y ∙ ap some (ok-eq h))
  or_first-Listed config d none y h =
      nth-Listed 0 config.entries d (unwrap-eq-ok (nth 0 config.entries) "no entries" d h)

  default_of-Listed :
      (config : Config) (d : Entry)
      → default_of t c clock show config ≡ ok d
      → Listed d config.entries
  unfolding default_of
  default_of-Listed config d h = or_first-Listed config d (get config.default config.entries) refl h

  displayed :
      (decimal : ℕ → String) (config : Config) (d : Entry) (events : List Event)
      → Listed d config.entries
      → Yields {E = ⊥} (IsListed config.entries) (
          attempt (display_menu t c clock show decimal config d events) >>= λ r.
          pure (or_default t c clock show d r))
  unfolding display_menu
  displayed decimal config d events l =
      Yields-attempted (IsListed config.entries)
        (display_menu t c clock show decimal config d events) (or_default t c clock show d)
        (display_for-IsListed decimal config d config.timeout events l) (λ e. l)

  choose_within-IsListed :
      (decimal : ℕ → String) (config : Config) (d : Entry) (o : Option ℕ) (events : List Event)
      → Listed d config.entries
      → Yields (IsListed config.entries) (choose_within t c clock show decimal config d o events)
  choose_within-IsListed decimal config d (some zero) events l =
      Yields-pure (IsListed config.entries) (some d) l
  choose_within-IsListed decimal config d (some (suc n)) events l =
      displayed decimal config d events l
  choose_within-IsListed decimal config d none events l = displayed decimal config d events l

  -- Whatever the user and the timer do, and whatever of the display fails, an entry that
  -- `choose` returns is one of the configuration.
  pub choose-Listed :
      (decimal : ℕ → String) (config : Config) (events : List Event) (e : Entry) (w w' : World S)
      → choose t c clock show decimal config events w ≡ (ok (some e), w')
      → Listed e config.entries
  unfolding choose
  choose-Listed decimal config events e w w' =
      Yields-then (IsListed config.entries) (λ d. Listed d config.entries)
        (lift (default_of t c clock show config)) _
        (Yields-lift (λ d. Listed d config.entries) (default_of t c clock show config)
          (default_of-Listed config))
        (λ d. choose_within-IsListed decimal config d config.timeout events) (some e) w w'
