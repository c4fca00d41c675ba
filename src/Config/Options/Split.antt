-- ===== src/Config/Options/Split.antt =====
-- src/config.rs: `split_once(' ')`, which parts an image from its arguments.
use Prim.Native.Char.{Char, code}
use Prim.Native.String.{◌++◌ as ◌<>◌}
use Prim.Native.String.append
use mathlib.Core.Path.{subst}
use text.Mathlib.TextEquality.{Char-path}
use towboot_rust.Prelude.{
  ◌≡◌, ◌≢◌, ◌⊎◌, refl, sym, ap, ◌∙◌, true, false, Option, none, some, String, arith, ◌==◌,
  Bool-cases, inl, inr, ==_iff,
}
use towboot_rust.Config.Options.{split_once, image_and_argv, or_whole, cons_first}

-- No character of the text is a space.
abbrev pub NoSpace : String → Type 0
NoSpace String.[] = Unit
NoSpace (String.◌∷◌ c s) = (code c ≢ b' ') × NoSpace s

space : (c : Char) → (code c == b' ') ≡ true → (s : String) → String.◌∷◌ c s ≡ " " <> s
space c h s =
    ap (λ (d : Char). String.◌∷◌ d s) (Char-path c " " ((==_iff (code c) b' ').0 h))
    ∙ sym (append.cons " " String.[] s ∙ ap (String.◌∷◌ " ") (append.nil s))

not_space : (c : Char) → (code c == b' ') ≡ false → code c ≢ b' '
not_space c h e = ground arith

parts :
    {a b a' b' : String}
    → ◌≡◌ {A = Option (String × String)} (some (a', b')) (some (a, b))
    → (a' ≡ a) × (b' ≡ b)
parts {a} {b} {a'} {b'} e = (ap first e, ap second e)
  where
    first : Option (String × String) → String
    first none = a
    first (some p) = p.0

    second : Option (String × String) → String
    second none = b
    second (some p) = p.1

-- What a split comes to.
IsSplit : String → String → String → Type 0
IsSplit s a b = (s ≡ a <> (" " <> b)) × NoSpace a

at_space :
    (c : Char) (s a b : String)
    → (code c == b' ') ≡ true
    → ◌≡◌ {A = Option (String × String)} (some ("", s)) (some (a, b))
    → IsSplit (String.◌∷◌ c s) a b
unfolding IsSplit
at_space c s a b y e =
    let (p, q) = parts e in
    (
      space c y s
          ∙ sym (append.nil (" " <> s))
          ∙ ap (λ (x : String). x <> (" " <> s)) p
          ∙ ap (λ (x : String). a <> (" " <> x)) q,
      subst NoSpace p tt,
    )

behind :
    (c : Char) (s : String) (o : Option (String × String)) (a b : String)
    → code c ≢ b' '
    → ((a b : String) → o ≡ some (a, b) → IsSplit s a b)
    → cons_first c o ≡ some (a, b)
    → IsSplit (String.◌∷◌ c s) a b
unfolding IsSplit
behind c s none a b ne ih e = absurd (ground (arith, e))
behind c s (some (a', b')) a b ne ih e =
    let (p, q) = parts e in
    let (r, n) = ih a' b' refl in
    (
      ap (λ (x : String). String.◌∷◌ c x) r
          ∙ sym (append.cons c a' (" " <> b'))
          ∙ ap (λ (x : String). x <> (" " <> b')) p
          ∙ ap (λ (x : String). a <> (" " <> x)) q,
      subst NoSpace p (ne, n),
    )

-- A text is split at its first space.
pub split_once-some :
    (s a b : String) → split_once s ≡ some (a, b) → (s ≡ a <> (" " <> b)) × NoSpace a
unfolding split_once IsSplit
split_once-some String.[] a b h = absurd (ground (arith, h))
split_once-some (String.◌∷◌ c s) a b h = elim (Bool-cases (code c == b' ')) [
  | inl y ↦ at_space c s a b y (rw y at h)
  | inr n ↦ behind c s (split_once s) a b (not_space c n) (split_once-some s) (rw n at h)
]

cons_first-none : (c : Char) (o : Option (String × String)) → cons_first c o ≡ none → o ≡ none
cons_first-none c none h = refl
cons_first-none c (some (a, b)) h = absurd (ground (arith, h))

-- A text that is not split has no space.
pub split_once-none : (s : String) → split_once s ≡ none → NoSpace s
unfolding split_once
split_once-none String.[] h = tt
split_once-none (String.◌∷◌ c s) h = elim (Bool-cases (code c == b' ')) [
  | inl y ↦ absurd (ground (arith, rw y at h))
  | inr n ↦ (not_space c n, split_once-none s (cons_first-none c (split_once s) (rw n at h)))
]

whole_or_split :
    (s : String) (o : Option (String × String))
    → split_once s ≡ o
    → NoSpace (or_whole s o).0
      × ((s ≡ (or_whole s o).0 <> (" " <> (or_whole s o).1))
          ⊎ ((s ≡ (or_whole s o).0) × ((or_whole s o).1 ≡ "")))
whole_or_split s none e = (split_once-none s e, inr (refl, refl))
whole_or_split s (some (a, b)) e = let (p, q) = split_once-some s a b e in (q, inl p)

-- The image has no space. Either the text is the image, a space and the arguments, or it is the
-- image and there are no arguments.
pub image_and_argv_lem :
    (s : String)
    → NoSpace (image_and_argv s).0
      × ((s ≡ (image_and_argv s).0 <> (" " <> (image_and_argv s).1))
          ⊎ ((s ≡ (image_and_argv s).0) × ((image_and_argv s).1 ≡ "")))
unfolding image_and_argv
image_and_argv_lem s = whole_or_split s (split_once s) refl
