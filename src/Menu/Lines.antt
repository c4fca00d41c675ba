-- ===== src/Menu/Lines.antt =====
-- src/menu.rs: lines that are typed.
use Prim.Native.Char.{Char, code}
use Prim.Native.String.{◌++◌ as ◌<>◌}
use text.Mathlib.TextLemmas.{append_assoc, cons-append, nil-append}
use towboot_rust.Prelude.{
  ℕ, ◌≤◌, ◌≡◌, ◌≢◌, ap, ◌∙◌, Option, none, some, List, [], ◌∷◌, length, String, arith, done,
}
use towboot_rust.Menu.{Event, key, escape, printable, typing, type_key, push}

-- A character that is typed as itself: neither enter nor backspace.
abbrev pub IsText : String → Type 0
IsText String.[] = Unit
IsText (String.◌∷◌ c s) = (code c ≢ 13) × (code c ≢ 8) × IsText s

-- With a timeout, escape comes first.
abbrev pub opening : Option ℕ → List Event → List Event
opening none events = events
opening (some n) events = key (done (some escape)) ∷ events

abbrev pub enter : Event
enter = key (done (some (printable "\r")))

-- The keys of a text, before others.
abbrev pub presses : String → List Event → List Event
presses String.[] rest = rest
presses (String.◌∷◌ c s) rest = key (done (some (printable c))) ∷ presses s rest

-- Lines that are typed, each with enter.
abbrev pub typed_lines : List String → List Event → List Event
typed_lines [] rest = rest
typed_lines (l ∷ ls) rest = presses l (enter ∷ typed_lines ls rest)

length-presses : (s : String) (rest : List Event) → length rest ≤ length (presses s rest)
length-presses String.[] rest = omega arith
length-presses (String.◌∷◌ c s) rest = omega (arith, length-presses s rest)

pub length-typed_lines :
    (ls : List String) (rest : List Event) → length ls ≤ length (typed_lines ls rest)
length-typed_lines [] rest = omega arith
length-typed_lines (l ∷ ls) rest =
    omega (arith, length-typed_lines ls rest, length-presses l (enter ∷ typed_lines ls rest))

pub type_key-text :
    (value : String) (c : Char)
    → code c ≢ 13
    → code c ≢ 8
    → type_key value (key (done (some (printable c)))) ≡ typing (push value c)
unfolding type_key
type_key-text value c n m = ground arith

pub push-append :
    (value : String) (c : Char) (s : String) → push value c <> s ≡ value <> String.◌∷◌ c s
unfolding push
push-append value c s =
    append_assoc value (String.◌∷◌ c String.[]) s
    ∙ ap (λ x. value <> x) (cons-append c String.[] s ∙ ap (String.◌∷◌ c) (nil-append s))
