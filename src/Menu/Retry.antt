-- ===== src/Menu/Retry.antt =====
-- src/menu.rs: the loop of `display_menu` that selects until it succeeds comes to an end.
use Prim.Native.String.{◌++◌ as ◌<>◌}
use towboot_rust.Prelude.{
  ℕ, zero, suc, ◌<◌, ◌≢◌, Option, none, some, List, [], ◌∷◌, length, String, Target, arith, done,
  failed,
}
use towboot_rust.Firmware.{Status}
use towboot_rust.Firmware.Exec.{Exec}
use towboot_rust.Firmware.Yields.{Yields, Yields-pure, Yields-bind, Yields-then}
use towboot_rust.Firmware.Console.{Console, print_line}
use towboot_rust.Config.{Entry}
use towboot_rust.Menu.{
  Event, TimerServices, Typed, typing, entered, stopped, type_key, Selection, unanswered, selected,
  look_up, typed, select_entry, retried, until_selected,
}

-- A selection that has come to an end has used one of the events up.
abbrev Consumes : List Event → Selection → Type 0
Consumes events unanswered = Unit
Consumes events (selected r rest) = length rest < length events

Consumes-more :
    (event : Event) (events : List Event) (y : Selection)
    → Consumes events y
    → Consumes (event ∷ events) y
Consumes-more event events unanswered h = tt
Consumes-more event events (selected r rest) h = omega arith

module _ (t : Target) {S : Type 0} (c : Console S) (clock : TimerServices S)
    (show : Status → String) (entries : List (String × Entry)) where
  typed-Consumes :
      (event : Event) (events : List Event) (value : String)
      (again : String → Exec S Status Selection) (y : Typed)
      → ((v : String) → Yields (Consumes events) (again v))
      → Yields (Consumes (event ∷ events)) (typed t c clock show entries value events again y)
  typed-Consumes event events value again (typing v) k =
      λ a w w' h. Consumes-more event events a (k v a w w' h)
  typed-Consumes event events value again entered k =
      Yields-bind (Consumes (event ∷ events)) (print_line c "\n") _ (λ _.
        Yields-pure (Consumes (event ∷ events)) (selected (look_up t entries value) events)
          (omega arith))
  typed-Consumes event events value again (stopped e) k =
      Yields-pure (Consumes (event ∷ events)) (selected (failed e) events) (omega arith)

  select_entry-Consumes :
      (events : List Event) (value : String)
      → Yields (Consumes events) (select_entry t c clock show entries value events)
  unfolding select_entry
  select_entry-Consumes [] value =
      Yields-bind (Consumes [])
        (print_line c ("\rplease select an entry to boot: " <> value <> " ")) _
        (λ _. Yields-pure (Consumes []) unanswered tt)
  select_entry-Consumes (event ∷ events) value =
      Yields-bind (Consumes (event ∷ events))
        (print_line c ("\rplease select an entry to boot: " <> value <> " ")) _
        (λ _.
          typed-Consumes event events value (λ v. select_entry t c clock show entries v events)
            (type_key value event) (select_entry-Consumes events))

  retried-finishes :
      (events : List Event) (again : List Event → Exec S Status (Option (Option Entry)))
      (y : Selection)
      → Consumes events y
      → ((es : List Event) → length es < length events → Yields (λ o. o ≢ none) (again es))
      → Yields (λ o. o ≢ none) (retried t c clock show again y)
  retried-finishes events again unanswered l k = Yields-pure (λ o. o ≢ none) (some none) cc
  retried-finishes events again (selected (done e) es) l k =
      Yields-pure (λ o. o ≢ none) (some (some e)) cc
  retried-finishes events again (selected (failed e) es) l k =
      Yields-bind (λ o. o ≢ none) (print_line c ("invalid choice: " <> show e <> "\n")) _
        (λ _. k es l)

  -- With more fuel than there are events, the loop that selects an entry never ends for want of
  -- fuel: it has an entry, or it waits for more events, or it panics.
  pub until_selected-finishes :
      (fuel : ℕ) (events : List Event)
      → length events < fuel
      → Yields (λ o. o ≢ none) (until_selected t c clock show fuel entries events)
  unfolding until_selected
  until_selected-finishes zero events h = absurd (omega arith)
  until_selected-finishes (suc fuel) events h =
      Yields-then (λ o. o ≢ none) (Consumes events) (select_entry t c clock show entries "" events)
        _ (select_entry-Consumes events "")
        (λ y l.
          retried-finishes events (until_selected t c clock show fuel entries) y l
            (λ es shorter. until_selected-finishes fuel es (omega arith)))
