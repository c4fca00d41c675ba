-- ===== src/Config/Options/Laws.antt =====
-- src/config.rs: what `parse_load_options` makes of the whole command line.

use towboot_rust.Prelude.{
  ◌≡◌, refl, sym, ap, ◌∙◌, Option, none, some, List, [], ◌∷◌, ◌++◌, map, String, ok, err, Result,
  done, failed, Outcome,
}
use towboot_rust.Firmware.{Status, invalid_parameter, World}
use towboot_rust.Firmware.Exec.{Exec, pure, lift, ◌>>=◌}
use towboot_rust.Firmware.Console.{Console}
use towboot_rust.Config.{Quirk}
use towboot_rust.Config.Options.{
  LoadOptionKey, config, kernel, log_level, module_option, quirk, help, version, BuiltInfo, Options,
  no_options, parse_quirk, insert_quirk, with_quirk, go_on, apply_option, scan_options,
  parse_load_options, source_of,
}

abbrev pub Item : Type 0
Item = LoadOptionKey × String

-- The values of one key, in the order of the command line.
abbrev pub kernels : List Item → List String
kernels [] = []
kernels ((kernel, v) ∷ r) = v ∷ kernels r
kernels (_ ∷ r) = kernels r

abbrev pub configs : List Item → List String
configs [] = []
configs ((config, v) ∷ r) = v ∷ configs r
configs (_ ∷ r) = configs r

abbrev pub log_levels : List Item → List String
log_levels [] = []
log_levels ((log_level, v) ∷ r) = v ∷ log_levels r
log_levels (_ ∷ r) = log_levels r

abbrev pub module_values : List Item → List String
module_values [] = []
module_values ((module_option, v) ∷ r) = v ∷ module_values r
module_values (_ ∷ r) = module_values r

abbrev pub quirk_values : List Item → List String
quirk_values [] = []
quirk_values ((quirk, v) ∷ r) = v ∷ quirk_values r
quirk_values (_ ∷ r) = quirk_values r

-- The last of some values, or what there was before.
abbrev pub last_or : Option String → List String → Option String
last_or o [] = o
last_or o (v ∷ r) = last_or (some v) r

abbrev pub insert_named : Option Quirk → List Quirk → List Quirk
insert_named none qs = qs
insert_named (some q) qs = insert_quirk q qs

abbrev pub insert_all : List String → List Quirk → List Quirk
insert_all [] qs = qs
insert_all (v ∷ r) qs = insert_all r (insert_named (parse_quirk v) qs)

-- What options that only set something add up to.
abbrev pub collected : Options → List Item → Options
collected o items = record {
  config_file = last_or o.config_file (configs items);
  kernel = last_or o.kernel (kernels items);
  log_level = last_or o.log_level (log_levels items);
  modules = o.modules ++ module_values items;
  quirks = insert_all (quirk_values items) o.quirks;
}

abbrev IsSome {ℓ} : {A : Type ℓ} → Option A → Type 0
IsSome none = ⊥
IsSome (some a) = Unit

-- An option that only sets something.
abbrev pub IsPlain : List Item → Type 0
IsPlain [] = Unit
IsPlain ((help, v) ∷ r) = ⊥
IsPlain ((version, v) ∷ r) = ⊥
IsPlain ((quirk, v) ∷ r) = IsSome (parse_quirk v) × IsPlain r
IsPlain ((config, v) ∷ r) = IsPlain r
IsPlain ((kernel, v) ∷ r) = IsPlain r
IsPlain ((log_level, v) ∷ r) = IsPlain r
IsPlain ((module_option, v) ∷ r) = IsPlain r

-- An item that ends the scan with an error: one that `miniarg` refuses, or an unknown quirk.
abbrev pub IsBad : {E : Type 0} → Result E Item → Type 0
IsBad (failed e) = Unit
IsBad (done (quirk, v)) = parse_quirk v ≡ none
IsBad (done _) = ⊥

append_none : {A : Type 0} (xs : List A) → xs ++ [] ≡ xs
append_none [] = refl
append_none (x ∷ xs) = ap (λ r. x ∷ r) (append_none xs)

append_one : {A : Type 0} (xs : List A) (x : A) (ys : List A) → (xs ++ x ∷ []) ++ ys ≡ xs ++ x ∷ ys
append_one [] x ys = refl
append_one (z ∷ xs) x ys = ap (λ r. z ∷ r) (append_one xs x ys)

module _ {S : Type 0} (c : Console S) (help_text : String) (built : BuiltInfo) where
  scan : {E : Type 0} → List (Result E Item) → Options → Exec S Status (Option Options)
  scan = scan_options c help_text built

  quirk_step :
      (m : Option Quirk) (o : Options) (w : World S)
      (rest : Options → Exec S Status (Option Options))
      (target : List Quirk → Outcome Status (Option Options) × World S)
      → IsSome m
      → ((qs : List Quirk) → rest (record o { quirks = qs }) w ≡ target qs)
      → (lift (with_quirk m o) >>= (λ o'. pure (some o')) >>= go_on c help_text built rest) w
        ≡ target (insert_named m o.quirks)
  quirk_step none o w rest target p h = absurd p
  quirk_step (some q) o w rest target p h = h (insert_quirk q o.quirks)

  -- Options that only set something are passed over, and leave what they add up to.
  scan_options-plain :
      {E : Type 0} (items : List Item) (rest : List (Result E Item)) (o : Options) (w : World S)
      → IsPlain items
      → scan (map done items ++ rest) o w ≡ scan rest (collected o items) w
  unfolding scan scan_options apply_option
  scan_options-plain [] rest o w p = rw (append_none o.modules) refl
  scan_options-plain ((config, v) ∷ r) rest o w p =
      scan_options-plain r rest (record o { config_file = some v }) w p
  scan_options-plain ((kernel, v) ∷ r) rest o w p =
      scan_options-plain r rest (record o { kernel = some v }) w p
  scan_options-plain ((log_level, v) ∷ r) rest o w p =
      scan_options-plain r rest (record o { log_level = some v }) w p
  scan_options-plain ((module_option, v) ∷ r) rest o w p =
      scan_options-plain r rest (record o { modules = o.modules ++ v ∷ [] }) w p
      ∙ ap (λ ms. scan rest (record (collected o r) { modules = ms }) w)
          (append_one o.modules v (module_values r))
  scan_options-plain ((quirk, v) ∷ r) rest o w p =
      quirk_step (parse_quirk v) o w (scan (map done r ++ rest))
        (λ qs. scan rest (collected (record o { quirks = qs }) r) w) p.0
        (λ qs. scan_options-plain r rest (record o { quirks = qs }) w p.1)
  scan_options-plain ((help, v) ∷ r) rest o w p = absurd p
  scan_options-plain ((version, v) ∷ r) rest o w p = absurd p

  scan_whole :
      (E : Type 0) (items : List Item) (o : Options) (w : World S)
      → IsPlain items
      → scan_options c help_text built {E = E} (map done items) o w
        ≡ (ok (some (collected o items)), w)
  unfolding scan scan_options
  scan_whole E items o w p =
      ap (λ (xs : List (Result E Item)). scan xs o w) (sym (append_none (map done items)))
      ∙ scan_options-plain items [] o w p

  scan_bad :
      {E : Type 0} (bad : Result E Item) (rest : List (Result E Item)) (o : Options) (w : World S)
      → IsBad bad
      → scan_options c help_text built (bad ∷ rest) o w ≡ (err invalid_parameter, w)
  unfolding scan_options apply_option
  scan_bad (failed e) rest o w b = refl
  scan_bad (done (quirk, v)) rest o w b = rw b refl
  scan_bad (done (config, v)) rest o w b = absurd b
  scan_bad (done (kernel, v)) rest o w b = absurd b
  scan_bad (done (log_level, v)) rest o w b = absurd b
  scan_bad (done (module_option, v)) rest o w b = absurd b
  scan_bad (done (help, v)) rest o w b = absurd b
  scan_bad (done (version, v)) rest o w b = absurd b

  -- On options that only set something, with known quirks, `parse_load_options` returns and
  -- touches nothing. With a kernel among them, it gives the configuration of the last one, with
  -- every module in order and the quirks of all; with none, the last configuration file, or the
  -- default one.
  pub parse_load_options-plain :
      (E : Type 0) (items : List Item) (w : World S)
      → IsPlain items
      → parse_load_options c help_text built {E = E} (map done items) w
        ≡ (ok (some (source_of (collected no_options items))), w)
  unfolding parse_load_options
  parse_load_options-plain E items w p = rw (scan_whole E items no_options w p) refl

  -- If behind options that only set something comes one that the parser of the command line
  -- refuses, or an unknown quirk, `parse_load_options` returns INVALID_PARAMETER and touches
  -- nothing, whatever comes after.
  pub parse_load_options-bad :
      {E : Type 0} (items : List Item) (bad : Result E Item) (rest : List (Result E Item))
      (w : World S)
      → IsPlain items
      → IsBad bad
      → parse_load_options c help_text built (map done items ++ bad ∷ rest) w
        ≡ (err invalid_parameter, w)
  unfolding parse_load_options scan scan_options
  parse_load_options-bad items bad rest w p b =
      rw
        (scan_options-plain items (bad ∷ rest) no_options w p
          ∙ scan_bad bad rest (collected no_options items) w b)
        refl
