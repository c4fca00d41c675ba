-- ===== src/Menu/Typing.antt =====
-- src/menu.rs: what is typed is what is booted.

use Prim.Native.String.{◌++◌ as ◌<>◌}
use text.Mathlib.TextLemmas.{append-nil, nil-append}
use towboot_rust.Prelude.{
  ℕ, zero, suc, ◌+◌, ◌*◌, ◌<◌, ◌≡◌, ◌≢◌, refl, ap, ◌∙◌, sym, Option, none, some, List, [], ◌∷◌,
  length, String, Target, arith, done, failed, All, ok,
}
use towboot_rust.Firmware.{Status, World}
use towboot_rust.Firmware.Exec.{Exec, ◌>>=◌}
use towboot_rust.Firmware.Console.{Console, print_line}
use towboot_rust.Config.{Entry, Config}
use towboot_rust.Menu.{
  Event, TimerServices, type_key, selected, or_first, or_invalid, chosen, parse_usize, look_up,
  select_entry, until_selected, push, list_entries, menu, waiting_text, display_for, display_menu,
  default_of, choose_within, choose, get, nth, wait_escape,
}
use towboot_rust.Menu.Lines.{
  IsText, opening, enter, presses, typed_lines, length-typed_lines, type_key-text, push-append,
}

-- Output succeeds.
abbrev pub Prints : {S : Type 0} → Console S → Type 0
Prints {S = S} c = (text : String) (s : S) → (c.print text s).0 ≡ done tt

-- The timer can be created, set and cancelled.
pub record Ticks {S : Type 0} (clock : TimerServices S) : Type 0 where
  pub create_event : (s : S) → (clock.create_event s).0 ≡ done tt
  pub set_timer : (n : Option ℕ) (s : S) → (clock.set_timer n s).0 ≡ done tt

first_entry :
    (t : Target) (entries : List (String × Entry)) (value : String) (i : Option ℕ) (e : Entry)
    → or_invalid (chosen entries value i) ≡ done e
    → (d : Entry) × (nth 0 entries ≡ some d)
unfolding nth get
first_entry t [] value none e h = cc
first_entry t [] value (some i) e h = cc
first_entry t ((k, x) ∷ entries) value i e h = (x, refl)

module _ {S : Type 0} (c : Console S) (prints : Prints c) where
  -- The machine after a line of output.
  abbrev pub printed : String → World S → World S
  printed text w = record w { firmware = (c.print text w.firmware).1 }

  -- After a line of output, with nothing lost.
  pub print_line-continues :
      {E A : Type 0} (text : String) (f : Unit {0} → Exec S E A) (w : World S)
      → (print_line c text >>= f) w ≡ f tt (printed text w)
  unfolding print_line
  print_line-continues text f w = rw (prints text w.firmware) refl

  module _ (t : Target) (clock : TimerServices S) (show : Status → String)
      (entries : List (String × Entry)) where
    -- Typing a text and enter looks the text up.
    select_entry-presses :
        (s value : String) (rest : List Event) (w : World S)
        → IsText s
        → (w' : World S) × (select_entry t c clock show entries value (presses s (enter ∷ rest)) w
            ≡ (ok (selected (look_up t entries (value <> s)) rest), w'))
    unfolding select_entry type_key
    select_entry-presses String.[] value rest w x =
        let w' = printed "\n" (printed ("\rplease select an entry to boot: " <> value <> " ") w) in
        (
          w',
          print_line-continues _ _ w
              ∙ (print_line-continues "\n" _ _
                  ∙ ap (λ v. (ok (selected (look_up t entries v) rest), w'))
                      (sym (append-nil value))),
        )
    select_entry-presses (String.◌∷◌ k s) value rest w (n, m, x) =
        let (w', h) =
          select_entry-presses s (push value k) rest
            (printed ("\rplease select an entry to boot: " <> value <> " ") w) x in
        (
          w',
          print_line-continues _ _ w
              ∙ rw (type_key-text value k n m) (rw (← push-append value k s) h),
        )

    -- A line that names nothing.
    abbrev pub IsWrong : String → Type 0
    IsWrong l = IsText l × ((x : Status) × (look_up t entries l ≡ failed x))

    until_selected-typed_lines :
        (ls : List String) (fuel : ℕ) (name : String) (e : Entry) (rest : List Event) (w : World S)
        → length ls < fuel
        → All IsWrong ls
        → IsText name
        → look_up t entries name ≡ done e
        → (w' : World S) × (until_selected t c clock show fuel entries
              (typed_lines ls (presses name (enter ∷ rest)))
              w
            ≡ (ok (some (some e)), w'))
    unfolding until_selected
    until_selected-typed_lines ls zero name e rest w h a x y = absurd (omega arith)
    until_selected-typed_lines [] (suc fuel) name e rest w h a x y =
        let (w', p) = select_entry-presses name "" rest w x in (w', rw (p, nil-append name, y) refl)
    until_selected-typed_lines (l ∷ ls) (suc fuel) name e rest w h ((x', (s, y')), a) x y =
        let (w1, p) =
          select_entry-presses l "" (typed_lines ls (presses name (enter ∷ rest))) w x' in
        let (w2, q) =
          until_selected-typed_lines ls fuel name e rest
            (printed ("invalid choice: " <> show s <> "\n") w1) (omega arith) a x y in
        (w2, rw (p, nil-append l, y') (print_line-continues _ _ w1 ∙ q))

    list_entries-prints :
        (decimal : ℕ → String) (i : ℕ) (xs : List (String × Entry)) (w : World S)
        → (w' : World S) × (list_entries t c clock show decimal i xs w ≡ (ok tt, w'))
    unfolding list_entries
    list_entries-prints decimal i [] w = (w, refl)
    list_entries-prints decimal i ((k, e) ∷ xs) w =
        let (w', h) = list_entries-prints decimal (i + 1) xs (printed _ w) in
        (w', print_line-continues _ _ w ∙ h)

    menu-typed :
        (decimal : ℕ → String) (ls : List String) (name : String) (e : Entry) (rest : List Event)
        (w : World S)
        → All IsWrong ls
        → IsText name
        → look_up t entries name ≡ done e
        → (w' : World S) × (menu t c clock show decimal entries
              (typed_lines ls (presses name (enter ∷ rest)))
              w
            ≡ (ok (some e), w'))
    menu-typed decimal ls name e rest w a x y =
        let evs = typed_lines ls (presses name (enter ∷ rest)) in
        let (w1, p) = list_entries-prints decimal 0 entries (printed "available entries:\n" w) in
        let (w2, q) =
          until_selected-typed_lines ls (suc (length evs)) name e rest w1
            (omega (arith, length-typed_lines ls (presses name (enter ∷ rest)))) a x y in
        (w2, print_line-continues _ _ w ∙ rw (p, q) refl)

  module _ (t : Target) (clock : TimerServices S) (ticks : Ticks clock) (show : Status → String)
      (config : Config) where
    display_for-typed :
        (decimal : ℕ → String) (d : Entry) (o : Option ℕ) (ls : List String) (name : String)
        (e : Entry) (rest : List Event) (w : World S)
        → All (IsWrong t clock show config.entries) ls
        → IsText name
        → look_up t config.entries name ≡ done e
        → (w' : World S) × (display_for t c clock show decimal config d o
              (opening o (typed_lines ls (presses name (enter ∷ rest))))
              w
            ≡ (ok (some e), w'))
    unfolding wait_escape
    display_for-typed decimal d none ls name e rest w a x y =
        menu-typed t clock show config.entries decimal ls name e rest w a x y
    display_for-typed decimal d (some n) ls name e rest w a x y =
        let w1 = printed (waiting_text t c clock show decimal config d n) w in
        let w2 = record w1 { firmware = (clock.create_event w1.firmware).1 } in
        let w3 = record w2 { firmware = (clock.set_timer (some (n * 10000000)) w2.firmware).1 } in
        let w4 = record w3 { firmware = (clock.set_timer none w3.firmware).1 } in
        let (w', h) = menu-typed t clock show config.entries decimal ls name e rest w4 a x y in
        (
          w',
          print_line-continues _ _ w
              ∙ rw
                  (
                    ticks.create_event w1.firmware,
                    ticks.set_timer (some (n * 10000000)) w2.firmware,
                    ticks.set_timer none w3.firmware,
                  )
                  h,
        )

    or_first-ok :
        (o : Option Entry) (d : Entry)
        → nth 0 config.entries ≡ some d
        → (x : Entry) × (or_first t c clock show config o ≡ ok x)
    or_first-ok none d h = (d, rw h refl)
    or_first-ok (some x) d h = (x, refl)

    choose_within-typed :
        (decimal : ℕ → String) (d : Entry) (o : Option ℕ) (events : List Event) (e : Entry)
        (w w' : World S)
        → o ≢ some 0
        → display_for t c clock show decimal config d config.timeout events w ≡ (ok (some e), w')
        → (choose_within t c clock show decimal config d o events w).0 ≡ ok (some e)
    unfolding display_menu
    choose_within-typed decimal d none events e w w' n h = rw h refl
    choose_within-typed decimal d (some zero) events e w w' n h = absurd (n refl)
    choose_within-typed decimal d (some (suc k)) events e w w' n h = rw h refl

    -- With a console and a timer that work and a timeout other than 0, who presses escape
    -- where there is a timeout, types any lines that name nothing, each with enter, and then
    -- what names an entry by its number or its key, boots that entry. The texts have neither
    -- enter nor backspace in them.
    pub choose-typed :
        (decimal : ℕ → String) (ls : List String) (name : String) (e : Entry) (rest : List Event)
        (w : World S)
        → config.timeout ≢ some 0
        → All (IsWrong t clock show config.entries) ls
        → IsText name
        → look_up t config.entries name ≡ done e
        → (choose t c clock show decimal config
            (opening config.timeout (typed_lines ls (presses name (enter ∷ rest))))
            w).0
          ≡ ok (some e)
    unfolding choose default_of look_up
    choose-typed decimal ls name e rest w n a x y =
        let (first, z) = first_entry t config.entries name (parse_usize t name) e y in
        let (d, h) = or_first-ok (get config.default config.entries) first z in
        let (w', p) = display_for-typed decimal d config.timeout ls name e rest w a x y in
        rw h (
          choose_within-typed decimal d config.timeout
            (opening config.timeout (typed_lines ls (presses name (enter ∷ rest)))) e w w' n p)
