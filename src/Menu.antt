-- ===== src/Menu.antt =====
-- src/menu.rs: the choice of an entry. What the user and the timer do is a list of events, which the
-- loops take one after the other; where it ends, the program still waits.
pub mod Laws
pub mod Retry
pub mod Lines
pub mod Typing
pub mod Waiting
pub mod Ownership
use Prim.Native.Char.{Char, code}
use Prim.Native.String.{◌++◌ as ◌<>◌}
use text.Mathlib.Text.{◌==◌ as str_eq}
use towboot_rust.Prelude.{
  ℕ, zero, suc, ◌+◌, ◌-◌, ◌*◌, ◌^◌, Bool, true, false, ◌&&◌, Option, none, some, List, [], ◌∷◌,
  length, ltb, leb, ◌==◌, if◌then◌else◌, String, Outcome, ok, err, Result, done, failed, unwrap,
  map_err, Target,
}
use towboot_rust.Firmware.{Status, invalid_parameter}
use towboot_rust.Firmware.Exec.{Exec, pure, raise, lift, call, attempt, ◌>>=◌, ◌>>◌}
use towboot_rust.Firmware.Console.{Console, print_line}
use towboot_rust.Config.{Entry, Config}

pub data Key : Type 0 where
  escape other_key : Key
  printable : Char → Key

-- What `wait_for_event` gives, for a key with what `read_key` gives.
pub data Event : Type 0 where
  key : Result Status (Option Key) → Event
  timer invalid_event : Event
  no_event : Status → Event

-- The timer: created, and set to a time or cancelled.
pub record TimerServices (S : Type 0) : Type 0 where
  pub create_event : S → Result Status (Unit {0}) × S
  pub set_timer : Option ℕ → S → Result Status (Unit {0}) × S

-- The names and entries of the configuration: `get`, `values().nth`.
unfoldable pub get : String → List (String × Entry) → Option Entry
get name [] = none
get name ((k, e) ∷ entries) = let rest = get name entries in if str_eq k name then some e else rest

unfoldable pub nth : ℕ → List (String × Entry) → Option Entry
nth i [] = none
nth zero ((k, e) ∷ entries) = some e
nth (suc i) ((k, e) ∷ entries) = nth i entries

-- `str::parse::<usize>`: decimal digits, at least one, behind an optional plus sign.
abbrev digit : Char → Option ℕ
digit c = if leb 48 (code c) && leb (code c) 57 then some (code c - 48) else none

unfoldable pub digits : ℕ → String → Option ℕ
digits n String.[] = some n
digits n (String.◌∷◌ c s) = elim (digit c) [ none ↦ none | some d ↦ digits (n * 10 + d) s ]

abbrev unsigned : String → Option ℕ
unsigned String.[] = none
unsigned (String.◌∷◌ c s) = digits 0 (String.◌∷◌ c s)

abbrev without_plus : String → String
without_plus String.[] = String.[]
without_plus (String.◌∷◌ c s) = if code c == b'+' then s else String.◌∷◌ c s

abbrev if_fits : Target → Option ℕ → Option ℕ
if_fits t none = none
if_fits t (some n) = if ltb n (2 ^ t.usize_bits) then some n else none

unfoldable pub parse_usize : Target → String → Option ℕ
parse_usize t value = if_fits t (unsigned (without_plus value))

-- `value.pop()` and `value.push(chr)`.
unfoldable pub pop : String → String
pop String.[] = String.[]
pop (String.◌∷◌ c String.[]) = String.[]
pop (String.◌∷◌ c (String.◌∷◌ d s)) = String.◌∷◌ c (pop (String.◌∷◌ d s))

unfoldable pub push : String → Char → String
push value c = value <> String.◌∷◌ c String.[]

abbrev pub chosen : List (String × Entry) → String → Option ℕ → Option Entry
chosen entries value (some index) = nth index entries
chosen entries value none = get value entries

-- How the wait for the timeout ends.
pub data Wait : Type 0 where
  expired waiting : Wait
  escaped : List Event → Wait

-- The loop that waits for the escape key or the timer.
unfoldable pub wait_escape : List Event → Outcome Status Wait
wait_escape [] = ok waiting
wait_escape (key (failed e) ∷ events) = err e
wait_escape (key (done (some escape)) ∷ events) = ok (escaped events)
wait_escape (key (done _) ∷ events) = wait_escape events
wait_escape (timer ∷ events) = ok expired
wait_escape (invalid_event ∷ events) = wait_escape events
wait_escape (no_event e ∷ events) = err e

-- What one key does to the text that is being typed.
pub data Typed : Type 0 where
  typing : String → Typed
  entered : Typed
  stopped : Status → Typed

abbrev type_char : String → Char → Typed
type_char value c =
    if code c == 13
    then entered
    else if code c == 8
    then typing (pop value)
    else typing (push value c)

unfoldable pub type_key : String → Event → Typed
type_key value (key (failed e)) = stopped e
type_key value (key (done (some (printable c)))) = type_char value c
type_key value (key (done _)) = typing value
type_key value timer = typing value
type_key value invalid_event = typing value
type_key value (no_event e) = stopped e

-- What `select_entry` comes to: it waits for more keys, or it returns, with the events that are left.
pub data Selection : Type 0 where
  unanswered : Selection
  selected : Result Status Entry → List Event → Selection

-- `ok_or(INVALID_PARAMETER)`.
abbrev pub or_invalid : Option Entry → Result Status Entry
or_invalid none = failed invalid_parameter
or_invalid (some e) = done e

-- Support lookup by both index and key.
unfoldable pub look_up : Target → List (String × Entry) → String → Result Status Entry
look_up t entries value = or_invalid (chosen entries value (parse_usize t value))

-- The answer so far.
abbrev pub settled : Option (Option Entry) → Option Entry
settled none = none
settled (some answer) = answer

module _ (t : Target) {S : Type 0} (c : Console S) (clock : TimerServices S)
    (show : Status → String) where
  abbrev pub Choice : Type 0
  Choice = Exec S Status (Option Entry)

  abbrev pub typed :
      List (String × Entry)
      → String
      → List Event
      → (String → Exec S Status Selection)
      → Typed
      → Exec S Status Selection
  typed entries value events again (typing v) = again v
  typed entries value events again entered = do
    print_line c "\n"
    pure (selected (look_up t entries value) events)
  typed entries value events again (stopped e) = pure (selected (failed e) events)

  -- Try to select an entry, with what has been typed.
  unfoldable pub select_entry :
      List (String × Entry) → String → List Event → Exec S Status Selection
  select_entry entries value [] = do
    print_line c ("\rplease select an entry to boot: " <> value <> " ")
    pure unanswered
  select_entry entries value (event ∷ events) = do
    print_line c ("\rplease select an entry to boot: " <> value <> " ")
    typed entries value events (λ v. select_entry entries v events) (type_key value event)

  abbrev pub retried :
      (List Event → Exec S Status (Option (Option Entry)))
      → Selection
      → Exec S Status (Option (Option Entry))
  retried again unanswered = pure (some none)
  retried again (selected (done e) events) = pure (some (some e))
  retried again (selected (failed e) events) = do
    print_line c ("invalid choice: " <> show e <> "\n")
    again events

  -- The loop that selects until it succeeds. `none`: no fuel is left.
  unfoldable pub until_selected :
      ℕ → List (String × Entry) → List Event → Exec S Status (Option (Option Entry))
  until_selected zero entries events = pure none
  until_selected (suc fuel) entries events = do
    answer ← select_entry entries "" events
    retried (until_selected fuel entries) answer

  abbrev title : Entry → String
  title e = elim e.name [ some n ↦ n | none ↦ e.image ]

  unfoldable pub list_entries : (ℕ → String) → ℕ → List (String × Entry) → Exec S Status (Unit {0})
  list_entries decimal index [] = pure tt
  list_entries decimal index ((k, e) ∷ entries) = do
    print_line c (decimal index <> ". [" <> k <> "] " <> title e <> "\n")
    list_entries decimal (index + 1) entries

  abbrev pub menu : (ℕ → String) → List (String × Entry) → List Event → Choice
  menu decimal entries events = do
    print_line c "available entries:\n"
    list_entries decimal 0 entries
    answer ← until_selected (suc (length events)) entries events
    pure (settled answer)

  abbrev pub after_wait : (ℕ → String) → List (String × Entry) → Entry → Wait → Choice
  after_wait decimal entries default_entry expired = pure (some default_entry)
  after_wait decimal entries default_entry waiting = pure none
  after_wait decimal entries default_entry (escaped events) = do
    r ← call (clock.set_timer none)
    lift (map_err r (λ e. e))
    menu decimal entries events

  abbrev name_or : String → Option String → String
  name_or d (some n) = n
  name_or d none = d

  abbrev pub waiting_text : (ℕ → String) → Config → Entry → ℕ → String
  waiting_text decimal config default_entry timeout =
      "towboot: booting "
      <> config.default
      <> " ("
      <> name_or config.default default_entry.name
      <> ") in "
      <> decimal timeout
      <> " seconds... (press ESC to change)\n"

  abbrev pub display_for : (ℕ → String) → Config → Entry → Option ℕ → List Event → Choice
  display_for decimal config default_entry none events = menu decimal config.entries events
  display_for decimal config default_entry (some timeout) events = do
    print_line c (waiting_text decimal config default_entry timeout)
    created ← call clock.create_event
    lift (map_err created (λ e. e))
    set ← call (clock.set_timer (some (timeout * 10000000)))
    lift (map_err set (λ e. e))
    wait ← lift (wait_escape events)
    after_wait decimal config.entries default_entry wait

  -- Display the menu. This can fail.
  unfoldable pub display_menu : (ℕ → String) → Config → Entry → List Event → Choice
  display_menu decimal config default_entry events =
      display_for decimal config default_entry config.timeout events

  abbrev pub or_first : Config → Option Entry → Outcome ⊥ Entry
  or_first config (some e) = ok e
  or_first config none = unwrap (nth 0 config.entries) "no entries"

  -- The entry that is booted where nobody chooses.
  unfoldable pub default_of : Config → Outcome ⊥ Entry
  default_of config = or_first config (get config.default config.entries)

  abbrev pub or_default : Entry → Result Status (Option Entry) → Option Entry
  or_default default_entry (done e) = e
  or_default default_entry (failed e) = some default_entry

  abbrev pub choose_within :
      (ℕ → String) → Config → Entry → Option ℕ → List Event → Exec S ⊥ (Option Entry)
  choose_within decimal config default_entry (some zero) events = pure (some default_entry)
  choose_within decimal config default_entry timeout events = do
    r ← attempt (display_menu decimal config default_entry events)
    pure (or_default default_entry r)

  -- Choose an entry to boot. `none`: the events are used up, and the menu still waits.
  unfoldable pub choose : (ℕ → String) → Config → List Event → Exec S ⊥ (Option Entry)
  choose decimal config events = do
    default_entry ← lift (default_of config)
    choose_within decimal config default_entry config.timeout events
