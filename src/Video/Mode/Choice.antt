-- ===== src/Video/Mode/Choice.antt =====
-- src/boot/video.rs: which mode `setup_video` sets.
use mathlib.Core.Path.{subst}
use towboot_rust.Prelude.{
  false, ◌≢◌, ◌∙◌, ap, All, [], ◌∷◌, ◌++◌, Bool, Bool-cases, ok-eq, ℕ, ◌≡◌, refl, sym, ◌⊎◌, inl,
  inr, true, Option, none, some, List, ok, done, arith, map_err, Outcome,
}
use towboot_rust.Firmware.{device_error, World}
use towboot_rust.Firmware.Exec.{continue-eq-ok, outcome-eq}
use towboot_rust.Config.{Quirk, keep_resolution, contains}
use towboot_rust.Video.Mode.{
  VideoModeType, text_mode, wanted_if, PreferredMode, linear_graphics, has_resolution, Mode,
  GraphicsServices, wanted_resolution, find_mode, set_found, setup_video,
}

firmware-eq : {S E A : Type 0} {x y : Outcome E A × World S} → x ≡ y → x.1.firmware ≡ y.1.firmware
firmware-eq h i = (h i).1.firmware

-- The mode has the resolution.
abbrev pub Has : ℕ × ℕ → Mode → Type 0
Has (w, h) m = (m.info.width ≡ w) × (m.info.height ≡ h)

-- The first of the modes with the resolution.
pub record IsFirst (r : ℕ × ℕ) (modes : List Mode) (m : Mode) : Type 0 where
  pub before : List Mode
  pub after : List Mode
  pub split : modes ≡ before ++ m ∷ after
  pub has : Has r m
  pub others : All (λ x. ¬ Has r x) before

-- The resolution that is to be set, if any: that of the header, if it asks for graphics, and the
-- quirk KeepResolution is not given.
abbrev pub IsWanted : Option PreferredMode → List Quirk → Option (ℕ × ℕ) → Type 0
IsWanted none quirks wanted = wanted ≡ none
IsWanted (some mode) quirks none =
    (contains quirks keep_resolution ≡ true) ⊎ (mode.mode_type ≢ some linear_graphics)
IsWanted (some mode) quirks (some (w, h)) =
    (contains quirks keep_resolution ≡ false)
    × (mode.mode_type ≡ some linear_graphics)
    × (w ≡ mode.width)
    × (h ≡ mode.height)

mode-IsWanted :
    (mode : PreferredMode) (quirks : List Quirk) (wanted : Option (ℕ × ℕ))
    → wanted_resolution (some mode) quirks ≡ ok wanted
    → IsWanted (some mode) quirks wanted
unfolding wanted_resolution
mode-IsWanted mode quirks wanted e =
    go (contains quirks keep_resolution) refl mode.mode_type refl mode.depth wanted e
  where
    go :
        (b : Bool)
        → contains quirks keep_resolution ≡ b
        → (ty : Option VideoModeType) → mode.mode_type ≡ ty
        → (depth : Option ℕ) (wanted : Option (ℕ × ℕ))
        → wanted_if (some (record mode { mode_type = ty; depth = depth })) b ≡ ok wanted
        → IsWanted (some mode) quirks wanted
    go true y ty z d none e = inl y
    go true y ty z d (some r) e = cc e
    go false y (some linear_graphics) z none wanted e = cc e
    go false y (some linear_graphics) z (some n) none e = cc e
    go false y (some linear_graphics) z (some n) (some (a, b)) e =
        (y, z, ground (arith, e), ground (arith, e))
    go false y (some text_mode) z d none e = inr (λ k. cc (sym z ∙ k))
    go false y (some text_mode) z d (some r) e = cc e
    go false y none z d none e = inr (λ k. cc (sym z ∙ k))
    go false y none z d (some r) e = cc e

wanted_resolution-IsWanted :
    (preferred : Option PreferredMode) (quirks : List Quirk) (wanted : Option (ℕ × ℕ))
    → wanted_resolution preferred quirks ≡ ok wanted
    → IsWanted preferred quirks wanted
unfolding wanted_resolution
wanted_resolution-IsWanted none quirks wanted e = sym (ok-eq e)
wanted_resolution-IsWanted (some mode) quirks wanted e = mode-IsWanted mode quirks wanted e

find-cases :
    (w h : ℕ) (modes : List Mode) (o : Option Mode)
    → find_mode (some (w, h)) modes ≡ o
    → ((o ≡ none) × All (λ x. ¬ Has (w, h) x) modes)
      ⊎ ((m : Mode) × (o ≡ some m) × IsFirst (w, h) modes m)
find-cases w h [] o e = inl (sym e, tt)
find-cases w h (x ∷ modes) o e = elim (Bool-cases (has_resolution w h x)) [
  | inl y ↦ inr (
    x,
    sym e ∙ rw y refl,
    record {
      before = [];
      after = modes;
      split = refl;
      has = (ground (arith, y), ground (arith, y));
      others = tt;
    },
  )
  | inr n ↦
      let not : ¬ Has (w, h) x = λ k. ground (arith, n, k) in
      elim (find-cases w h modes o (rw n at e)) [
        | inl (same, none_has) ↦ inl (same, (not, none_has))
        | inr (m, same, i) ↦ inr (
          m,
          same,
          record {
            before = x ∷ i.before;
            after = i.after;
            split = ap (λ r. x ∷ r) i.split;
            has = i.has;
            others = (not, i.others);
          },
        )
      ]
]

module _ {S : Type 0} (g : GraphicsServices S) where
  -- Without a resolution no mode is set; with one, the first mode that has it, or none if none has.
  abbrev pub IsChosen : Option (ℕ × ℕ) → List Mode → S → S → Type 0
  IsChosen none modes s s' = s' ≡ s
  IsChosen (some r) modes s s' =
      (All (λ m. ¬ Has r m) modes × (s' ≡ s))
      ⊎ ((m : Mode) × IsFirst r modes m × (g.set_mode m s ≡ (done tt, s')))

  -- What a call that returns has done: it found the protocol, and it set no mode, or the one mode.
  pub record IsSetUp (wanted : Option (ℕ × ℕ)) (s s' : S) : Type 0 where
    pub located : (g.locate s).0 ≡ done tt
    pub chosen : IsChosen wanted (g.modes (g.locate s).1) (g.locate s).1 s'

  set_found-cases :
      (o : Option Mode) (w w' : World S)
      → set_found g o w ≡ (ok tt, w')
      → ((o ≡ none) × (w'.firmware ≡ w.firmware))
        ⊎ ((m : Mode) × (o ≡ some m) × (g.set_mode m w.firmware ≡ (done tt, w'.firmware)))
  set_found-cases none w w' h = inl (refl, sym (firmware-eq h))
  set_found-cases (some m) w w' h =
      let answer : (g.set_mode m w.firmware).0 ≡ done tt =
        let o = outcome-eq h in ground (arith, o) in
      let left = firmware-eq h in inr (m, refl, λ i. (answer i, left i))

  set_found-IsChosen :
      (wanted : Option (ℕ × ℕ)) (modes : List Mode) (w w' : World S)
      → set_found g (find_mode wanted modes) w ≡ (ok tt, w')
      → IsChosen wanted modes w.firmware w'.firmware
  set_found-IsChosen none modes w w' h = sym (firmware-eq h)
  set_found-IsChosen (some (a, b)) modes w w' h =
      elim (find-cases a b modes (find_mode (some (a, b)) modes) refl) [
        | inl (e, none_has) ↦ inl (
          none_has,
          elim (set_found-cases (find_mode (some (a, b)) modes) w w' h) [
            | inl (_, same) ↦ same
            | inr (m, found, _) ↦ absurd (cc (sym e ∙ found))
          ],
        )
        | inr (m, e, i) ↦ inr (
          m,
          i,
          elim (set_found-cases (find_mode (some (a, b)) modes) w w' h) [
            | inl (missing, _) ↦ absurd (cc (sym e ∙ missing))
            | inr (m', found, set) ↦
                subst (λ x. g.set_mode x w.firmware ≡ (done tt, w'.firmware))
                  (ground (arith, found, e)) set
          ],
        )
      ]

  -- When `setup_video` returns without an error, it has found the graphics output, and of the
  -- modes there it has set the first with the width and the height that the header names; it
  -- has set none if the header asks for no graphics, the quirk KeepResolution is given or no
  -- mode has this resolution.
  pub setup_video-IsSetUp :
      (preferred : Option PreferredMode) (quirks : List Quirk) (w w' : World S)
      → setup_video g preferred quirks w ≡ (ok tt, w')
      → (wanted : Option (ℕ × ℕ)) × IsWanted preferred quirks wanted
        × IsSetUp wanted w.firmware w'.firmware
  unfolding setup_video
  setup_video-IsSetUp preferred quirks w w' h =
      let (wanted, e1, h1) = continue-eq-ok (wanted_resolution preferred quirks) _ w h in
      let s1 = (g.locate w.firmware).1 in
      let (_, e2, h2) =
        continue-eq-ok (map_err (g.locate w.firmware).0 (λ _. device_error)) _
          (record w { firmware = s1 }) h1 in
      (
        wanted,
        wanted_resolution-IsWanted preferred quirks wanted e1,
        record {
          located = ground (arith, e2);
          chosen = set_found-IsChosen wanted (g.modes s1) (record w { firmware = s1 }) w' h2;
        },
      )

  -- With the quirk KeepResolution, a `setup_video` that returns without an error does no more
  -- than find the graphics output.
  pub setup_video-keep :
      (preferred : Option PreferredMode) (quirks : List Quirk) (w w' : World S)
      → contains quirks keep_resolution ≡ true
      → setup_video g preferred quirks w ≡ (ok tt, w')
      → w'.firmware ≡ (g.locate w.firmware).1
  setup_video-keep preferred quirks w w' k h =
      let (wanted, e, i) = setup_video-IsSetUp preferred quirks w w' h in
      no_mode preferred wanted e i
    where
      no_mode :
          (preferred : Option PreferredMode) (wanted : Option (ℕ × ℕ))
          → IsWanted preferred quirks wanted
          → IsSetUp wanted w.firmware w'.firmware
          → w'.firmware ≡ (g.locate w.firmware).1
      no_mode preferred none e i = i.chosen
      no_mode none (some r) e i = absurd (cc e)
      no_mode (some mode) (some (a, b)) e i = absurd (ground (arith, e.0, k))
