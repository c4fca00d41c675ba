-- ===== src/Config.antt =====
-- src/config.rs: the configuration and where it comes from. The types are here.
pub mod Options
pub mod Get
use towboot_rust.Prelude.{String, Option, List, [], ◌∷◌, Bool, true, false, ◌||◌, ℕ}

-- Runtime options to override information in kernel images.
pub data Quirk : Type 0 where
  force_elf keep_resolution modules_below_200mb : Quirk

-- `==` of quirks, which the source derives.
abbrev pub same_quirk : Quirk → Quirk → Bool
same_quirk force_elf force_elf = true
same_quirk keep_resolution keep_resolution = true
same_quirk modules_below_200mb modules_below_200mb = true
same_quirk _ _ = false

-- The order of quirks, which the source derives.
abbrev pub rank : Quirk → ℕ
rank force_elf = 0
rank keep_resolution = 1
rank modules_below_200mb = 2

-- `BTreeSet<Quirk>`: the list of its elements in their order; `contains`.
abbrev pub contains : List Quirk → Quirk → Bool
contains [] q = false
contains (p ∷ ps) q = same_quirk p q || contains ps q

pub record Module : Type 0 where
  pub argv : Option String
  pub image : String

pub record Entry : Type 0 where
  pub argv : Option String
  pub image : String
  pub name : Option String
  pub quirks : List Quirk
  pub modules : List Module

-- `entries` is a `BTreeMap`: the list of its pairs in the order of their keys.
pub record Config : Type 0 where
  pub default : String
  pub timeout : Option ℕ
  pub log_level : Option String
  pub entries : List (String × Entry)
