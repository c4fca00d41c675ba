-- ===== src/Tests/Menu.antt =====
-- A run of src/menu.rs: escape, a typing mistake, the number 1 and enter.
use text.Mathlib.TextEquality.{eq_iff}
use towboot_rust.Prelude.{inl, ◌≡◌, ◌≢◌, refl, arith, some, none, List, [], ◌∷◌, All, ok, done}
use towboot_rust.Firmware.{World, invalid_parameter}
use towboot_rust.Firmware.Yields.{Yields}
use towboot_rust.Firmware.Console.{Console, print_line}
use towboot_rust.Config.{Entry, Config}
use towboot_rust.Menu.{
  timer, invalid_event, escape, printable, Event, key, TimerServices, until_selected, choose,
}
use towboot_rust.Menu.Retry.{until_selected-finishes}
use towboot_rust.Menu.Typing.{Prints, Ticks, IsWrong, choose-typed}
use towboot_rust.Menu.Lines.{opening, typed_lines, presses, enter, IsText}
use towboot_rust.Menu.Waiting.{choose-default}
use towboot_rust.Tests.Pages.{target}

abbrev console : Console (Unit {0})
console = record { print = λ text s. (done tt, s) }

abbrev clock : TimerServices (Unit {0})
clock = record { create_event = λ s. (done tt, s); set_timer = λ n s. (done tt, s) }

abbrev quiet : World (Unit {0})
quiet = record { firmware = tt; memory = λ _. 0 }

abbrev plain : Entry
plain = record { argv = none; image = "kernel"; name = none; quirks = []; modules = [] }

abbrev debug : Entry
debug = record plain { argv = some "-v" }

abbrev two_entries : Config
two_entries = record {
  default = "plain";
  timeout = some 5;
  log_level = none;
  entries = ("debug", debug) ∷ ("plain", plain) ∷ [];
}

abbrev keys : List Event
keys =
    key (done (some escape))
    ∷ key (done (some (printable "7")))
    ∷ key (done (some (printable "\u{8}")))
    ∷ key (done (some (printable "1")))
    ∷ key (done (some (printable "\r")))
    ∷ []

choose_run :
    choose target console clock (λ e. "") (λ n. "") two_entries keys quiet
    ≡ (ok (some plain), quiet)
unfolding choose print_line towboot_rust.Menu.default_of towboot_rust.Menu.get
    towboot_rust.Menu.display_menu towboot_rust.Menu.wait_escape towboot_rust.Menu.list_entries
    towboot_rust.Menu.select_entry towboot_rust.Menu.type_key towboot_rust.Menu.parse_usize
    towboot_rust.Menu.push towboot_rust.Menu.pop towboot_rust.Menu.digits towboot_rust.Menu.nth
    towboot_rust.Menu.until_selected towboot_rust.Menu.look_up
choose_run = refl

console-Prints : Prints console
console-Prints = λ text s. refl

clock-Ticks : Ticks clock
clock-Ticks = record { create_event = λ s. refl; set_timer = λ n s. refl }

wrong : All (IsWrong console console-Prints target clock (λ e. "") two_entries.entries) ("7" ∷ [])
unfolding towboot_rust.Menu.look_up towboot_rust.Menu.parse_usize towboot_rust.Menu.digits
    towboot_rust.Menu.nth
wrong = ((((λ e. omega arith), (λ e. omega arith), tt), (invalid_parameter, refl)), tt)

plain-IsText : IsText "plain"
plain-IsText = (
  (λ e. omega arith),
  (λ e. omega arith),
  (
    (λ e. omega arith),
    (λ e. omega arith),
    (
      (λ e. omega arith),
      (λ e. omega arith),
      ((λ e. omega arith), (λ e. omega arith), ((λ e. omega arith), (λ e. omega arith), tt)),
    ),
  ),
)

-- The number 7 is no entry; then the name of one is typed.
choose-typed_example :
    (choose target console clock
      (λ e. "")
      (λ n. "")
      two_entries
      (opening (some 5) (typed_lines ("7" ∷ []) (presses "plain" (enter ∷ []))))
      quiet).0
    ≡ ok (some plain)
unfolding towboot_rust.Menu.look_up towboot_rust.Menu.parse_usize towboot_rust.Menu.digits
    towboot_rust.Menu.nth towboot_rust.Menu.get
choose-typed_example =
    choose-typed console console-Prints target clock clock-Ticks (λ e. "") two_entries (λ n. "")
      ("7" ∷ []) "plain" plain [] quiet (λ e. cc) wrong plain-IsText refl

until_selected-finishes_example :
    Yields
      (λ o. o ≢ none)
      (until_selected target console clock (λ e. "") 6 two_entries.entries keys)
until_selected-finishes_example =
    until_selected-finishes target console clock (λ e. "") two_entries.entries 6 keys (omega arith)

-- A spurious event and a key, and then the timer.
choose-default_example :
    (choose target console clock
      (λ e. "")
      (λ n. "")
      two_entries
      (invalid_event ∷ key (done (some (printable "1"))) ∷ timer ∷ [])
      quiet).0
    ≡ ok (some plain)
choose-default_example =
    choose-default console console-Prints target clock (λ e. "") (λ n. "") two_entries 5 plain
      (invalid_event ∷ key (done (some (printable "1"))) ∷ []) [] quiet refl
      (inl (("debug", debug) ∷ [], [], refl, (λ e. cc ((eq_iff "debug" "plain").1 e), tt)))
      (tt, (tt, tt))
