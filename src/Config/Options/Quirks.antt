-- ===== src/Config/Options/Quirks.antt =====
-- src/config.rs: the quirks of the command line, as a set.
use text.Mathlib.Text.{◌==◌ as str_eq}
use text.Mathlib.TextEquality.{eq_iff}
use towboot_rust.Prelude.{
  ◌≡◌, refl, sym, ap, ◌∙◌, inl, inr, Bool, true, false, ◌||◌, Bool-cases, Option, none, some, List,
  [], ◌∷◌, String,
}
use towboot_rust.Config.{
  Quirk, force_elf, keep_resolution, modules_below_200mb, same_quirk, contains,
}
use towboot_rust.Config.Options.{parse_quirk, insert_quirk}
use towboot_rust.Config.Options.Laws.{insert_named, insert_all}

-- The name of a quirk on the command line.
abbrev pub name_of : Quirk → String
name_of force_elf = "ForceElf"
name_of keep_resolution = "KeepResolution"
name_of modules_below_200mb = "ModulesBelow200Mb"

-- Whether one of the texts is the name of the quirk.
abbrev pub is_named : Quirk → List String → Bool
is_named q [] = false
is_named q (v ∷ vs) = str_eq v (name_of q) || is_named q vs

abbrev is_quirk : Quirk → Option Quirk → Bool
is_quirk q none = false
is_quirk q (some p) = same_quirk p q

or_swap : (a b c d : Bool) → d ≡ (b || c) → (a || d) ≡ (b || (a || c))
or_swap true true c d h = refl
or_swap true false c d h = refl
or_swap false b c d h = h

or_twice : (a c : Bool) → (a || c) ≡ (a || (a || c))
or_twice true c = refl
or_twice false c = refl

contains-insert_quirk :
    (q r : Quirk) (ps : List Quirk)
    → contains (insert_quirk q ps) r ≡ (same_quirk q r || contains ps r)
unfolding insert_quirk
contains-insert_quirk q r [] = refl
contains-insert_quirk force_elf r (force_elf ∷ ps) =
    or_twice (same_quirk force_elf r) (contains ps r)
contains-insert_quirk force_elf r (keep_resolution ∷ ps) = refl
contains-insert_quirk force_elf r (modules_below_200mb ∷ ps) = refl
contains-insert_quirk keep_resolution r (force_elf ∷ ps) =
    or_swap (same_quirk force_elf r) (same_quirk keep_resolution r) (contains ps r) _
      (contains-insert_quirk keep_resolution r ps)
contains-insert_quirk keep_resolution r (keep_resolution ∷ ps) =
    or_twice (same_quirk keep_resolution r) (contains ps r)
contains-insert_quirk keep_resolution r (modules_below_200mb ∷ ps) = refl
contains-insert_quirk modules_below_200mb r (force_elf ∷ ps) =
    or_swap (same_quirk force_elf r) (same_quirk modules_below_200mb r) (contains ps r) _
      (contains-insert_quirk modules_below_200mb r ps)
contains-insert_quirk modules_below_200mb r (keep_resolution ∷ ps) =
    or_swap (same_quirk keep_resolution r) (same_quirk modules_below_200mb r) (contains ps r) _
      (contains-insert_quirk modules_below_200mb r ps)
contains-insert_quirk modules_below_200mb r (modules_below_200mb ∷ ps) =
    or_twice (same_quirk modules_below_200mb r) (contains ps r)

at_name : (v n m : String) → str_eq v n ≡ true → str_eq v m ≡ str_eq n m
at_name v n m h = ap (λ x. str_eq x m) ((eq_iff v n).0 h)

is_quirk-parse_quirk : (q : Quirk) (v : String) → is_quirk q (parse_quirk v) ≡ str_eq v (name_of q)
unfolding parse_quirk
is_quirk-parse_quirk q v = elim (Bool-cases (str_eq v "ForceElf")) [
  | inl y ↦ rw y (first q ∙ sym (at_name v "ForceElf" (name_of q) y))
  | inr n ↦ rw n (elim (Bool-cases (str_eq v "KeepResolution")) [
    | inl y ↦ rw y (second q ∙ sym (at_name v "KeepResolution" (name_of q) y))
    | inr m ↦ rw m (elim (Bool-cases (str_eq v "ModulesBelow200Mb")) [
      | inl y ↦ rw y (third q ∙ sym (at_name v "ModulesBelow200Mb" (name_of q) y))
      | inr k ↦ rw k (sym (nothing q n m k))
    ])
  ])
]
  where
    first : (q : Quirk) → same_quirk force_elf q ≡ str_eq "ForceElf" (name_of q)
    first force_elf = refl
    first keep_resolution = refl
    first modules_below_200mb = refl

    second : (q : Quirk) → same_quirk keep_resolution q ≡ str_eq "KeepResolution" (name_of q)
    second force_elf = refl
    second keep_resolution = refl
    second modules_below_200mb = refl

    third : (q : Quirk) → same_quirk modules_below_200mb q ≡ str_eq "ModulesBelow200Mb" (name_of q)
    third force_elf = refl
    third keep_resolution = refl
    third modules_below_200mb = refl

    nothing :
        (q : Quirk)
        → str_eq v "ForceElf" ≡ false
        → str_eq v "KeepResolution" ≡ false
        → str_eq v "ModulesBelow200Mb" ≡ false
        → str_eq v (name_of q) ≡ false
    nothing force_elf n m k = n
    nothing keep_resolution n m k = m
    nothing modules_below_200mb n m k = k

contains-insert_named :
    (m : Option Quirk) (r : Quirk) (qs : List Quirk)
    → contains (insert_named m qs) r ≡ (is_quirk r m || contains qs r)
contains-insert_named none r qs = refl
contains-insert_named (some q) r qs = contains-insert_quirk q r qs

or_move : (a b c x d : Bool) → x ≡ (a || b) → a ≡ d → (x || c) ≡ (b || (d || c))
or_move true true c x d h e = rw h refl
or_move true false c x d h e = rw (h, ← e) refl
or_move false true c x d h e = rw h refl
or_move false false c x d h e = rw (h, ← e) refl

-- A quirk is in the set if it was there, or if one of the texts is its name.
pub contains-insert_all :
    (r : Quirk) (vs : List String) (qs : List Quirk)
    → contains (insert_all vs qs) r ≡ (contains qs r || is_named r vs)
contains-insert_all r [] qs = or_false (contains qs r)
  where
    or_false : (b : Bool) → b ≡ (b || false)
    or_false true = refl
    or_false false = refl
contains-insert_all r (v ∷ vs) qs =
    contains-insert_all r vs (insert_named (parse_quirk v) qs)
    ∙ or_move (is_quirk r (parse_quirk v)) (contains qs r) (is_named r vs) _ (str_eq v (name_of r))
        (contains-insert_named (parse_quirk v) r qs) (is_quirk-parse_quirk r v)
