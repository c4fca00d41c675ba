-- ===== src/Menu/Waiting.antt =====
-- src/menu.rs: the entry that is booted where nobody presses escape.
use mathlib.Core.Path.{subst}
use text.Mathlib.Text.{◌==◌ as str_eq}
use text.Mathlib.TextEquality.{eq_iff}
use text.Mathlib.TextPositions.{eq_refl}
use towboot_rust.Prelude.{
  ℕ, zero, suc, ◌*◌, ◌≡◌, ◌≢◌, refl, sym, ◌⊎◌, inl, inr, false, Bool-cases, Option, none, some,
  List, [], ◌∷◌, ◌++◌, All, String, Target, Outcome, ok, err, Result, done, failed, map_err,
}
use towboot_rust.Firmware.{Status, World}
use towboot_rust.Firmware.Exec.{Exec, lift, attempt, pure, ◌>>=◌}
use towboot_rust.Firmware.Console.{Console}
use towboot_rust.Config.{Entry, Config}
use towboot_rust.Menu.{
  Event, key, timer, invalid_event, no_event, escape, TimerServices, Wait, expired, wait_escape,
  get, nth, default_of, or_default, waiting_text, display_for, display_menu, after_wait,
  choose_within, choose,
}
use towboot_rust.Menu.Typing.{Prints, print_line-continues, printed}

-- The keys of the entries before this one are others.
abbrev pub IsFirstNamed : String → List (String × Entry) → Entry → Type 0
IsFirstNamed name entries d =
    (before : List (String × Entry)) × (after : List (String × Entry)) × (entries
      ≡ before ++ (name, d) ∷ after)
    × All (λ (x : String × Entry). x.0 ≢ name) before

-- The entry with the key that the configuration names, or the first one if no entry has this key.
abbrev pub IsDefault : Config → Entry → Type 0
IsDefault config d =
    IsFirstNamed config.default config.entries d
    ⊎ (All (λ (x : String × Entry). x.0 ≢ config.default) config.entries
        × ((k : String) × (rest : List (String × Entry)) × (config.entries ≡ (k, d) ∷ rest)))

other : (k name : String) → k ≢ name → str_eq k name ≡ false
other k name n = elim (Bool-cases (str_eq k name)) [
  | inl y ↦ absurd (n ((eq_iff k name).0 y))
  | inr e ↦ e
]

get-first :
    (name : String) (d : Entry) (before after : List (String × Entry))
    → All (λ (x : String × Entry). x.0 ≢ name) before
    → get name (before ++ (name, d) ∷ after) ≡ some d
unfolding get
get-first name d [] after a = rw (eq_refl name) refl
get-first name d ((k, e) ∷ before) after (n, a) =
    rw (other k name n) (get-first name d before after a)

get-none :
    (name : String) (entries : List (String × Entry))
    → All (λ (x : String × Entry). x.0 ≢ name) entries
    → get name entries ≡ none
unfolding get
get-none name [] a = refl
get-none name ((k, e) ∷ entries) (n, a) = rw (other k name n) (get-none name entries a)

-- Anything but escape and the timer.
abbrev pub IsOther : Event → Type 0
IsOther (key (done (some escape))) = ⊥
IsOther timer = ⊥
IsOther _ = Unit

wait_escape-others :
    (events rest : List Event)
    → All IsOther events
    → (wait_escape (events ++ timer ∷ rest) ≡ ok expired)
      ⊎ ((e : Status) × (wait_escape (events ++ timer ∷ rest) ≡ err e))
unfolding wait_escape
wait_escape-others [] rest a = inl refl
wait_escape-others (key (failed e) ∷ events) rest (o, a) = inr (e, refl)
wait_escape-others (key (done none) ∷ events) rest (o, a) = wait_escape-others events rest a
wait_escape-others (key (done (some escape)) ∷ events) rest (o, a) = absurd o
wait_escape-others (key (done (some _)) ∷ events) rest (o, a) = wait_escape-others events rest a
wait_escape-others (timer ∷ events) rest (o, a) = absurd o
wait_escape-others (invalid_event ∷ events) rest (o, a) = wait_escape-others events rest a
wait_escape-others (no_event e ∷ events) rest (o, a) = inr (e, refl)

-- The default entry, or an error, after which it is booted all the same.
abbrev OrFails : Entry → Outcome Status (Option Entry) → Type 0
OrFails d o = (o ≡ ok (some d)) ⊎ ((e : Status) × (o ≡ err e))

lift-OrFails :
    {S : Type 0} (d : Entry) (r : Result Status (Unit {0})) (m : Exec S Status (Option Entry))
    (w : World S)
    → OrFails d (m w).0
    → OrFails d ((lift (map_err r (λ e. e)) >>= λ _. m) w).0
lift-OrFails d (done u) m w h = h
lift-OrFails d (failed e) m w h = inr (e, refl)

module _ {S : Type 0} (c : Console S) (prints : Prints c) (t : Target) (clock : TimerServices S)
    (show : Status → String) (decimal : ℕ → String) (config : Config) where
  waits :
      (d : Entry) (o : Outcome Status Wait) (w : World S)
      → (o ≡ ok expired) ⊎ ((e : Status) × (o ≡ err e))
      → OrFails d ((lift o >>= after_wait t c clock show decimal config.entries d) w).0
  waits d o w (inl e) = rw e (inl refl)
  waits d o w (inr (x, e)) = rw e (inr (x, refl))

  display_for-others :
      (d : Entry) (n : ℕ) (events rest : List Event) (w : World S)
      → All IsOther events
      → OrFails d
          (display_for t c clock show decimal config d (some n) (events ++ timer ∷ rest) w).0
  display_for-others d n events rest w a =
      let w1 = printed c prints (waiting_text t c clock show decimal config d n) w in
      let w2 = record w1 { firmware = (clock.create_event w1.firmware).1 } in
      let w3 = record w2 { firmware = (clock.set_timer (some (n * 10000000)) w2.firmware).1 } in
      subst (λ (x : Outcome Status (Option Entry) × World S). OrFails d x.0)
        (sym (print_line-continues c prints _ _ w))
        (lift-OrFails d (clock.create_event w1.firmware).0 _ w2 (
          lift-OrFails d (clock.set_timer (some (n * 10000000)) w2.firmware).0 _ w3
            (waits d (wait_escape (events ++ timer ∷ rest)) w3 (wait_escape-others events rest a))))

  attempted :
      (d : Entry) (m : Exec S Status (Option Entry)) (w : World S)
      → OrFails d (m w).0
      → (◌>>=◌ {E = ⊥} (attempt m) (λ r. pure (or_default t c clock show d r)) w).0 ≡ ok (some d)
  attempted d m w (inl e) = rw e refl
  attempted d m w (inr (x, e)) = rw e refl

  choose_within-others :
      (d : Entry) (n : ℕ) (events rest : List Event) (w : World S)
      → config.timeout ≡ some n
      → All IsOther events
      → (choose_within t c clock show decimal config d (some n) (events ++ timer ∷ rest) w).0
        ≡ ok (some d)
  unfolding display_menu
  choose_within-others d zero events rest w h a = refl
  choose_within-others d (suc n) events rest w h a =
      attempted d (display_menu t c clock show decimal config d (events ++ timer ∷ rest)) w (
        subst
          (λ o.
            OrFails d (display_for t c clock show decimal config d o (events ++ timer ∷ rest) w).0)
          (sym h) (display_for-others d (suc n) events rest w a))

  default_of-IsDefault : (d : Entry) → IsDefault config d → default_of t c clock show config ≡ ok d
  unfolding default_of nth
  default_of-IsDefault d (inl (before, after, e, a)) =
      rw (e, get-first config.default d before after a) refl
  default_of-IsDefault d (inr (a, (k, rest, e))) =
      rw (get-none config.default config.entries a, e) refl

  -- With a console that prints and a timeout, if the timer goes off and nobody presses escape
  -- before it does, `choose` returns the default entry, whatever other keys are pressed and
  -- whatever of the timer and the reading of keys fails: the entry with the key that the
  -- configuration names, or the first one if no entry has this key.
  pub choose-default :
      (n : ℕ) (d : Entry) (events rest : List Event) (w : World S)
      → config.timeout ≡ some n
      → IsDefault config d
      → All IsOther events
      → (choose t c clock show decimal config (events ++ timer ∷ rest) w).0 ≡ ok (some d)
  unfolding choose
  choose-default n d events rest w h i a = rw (default_of-IsDefault d i) (
      subst
        (λ o.
          (choose_within t c clock show decimal config d o (events ++ timer ∷ rest) w).0
          ≡ ok (some d))
        (sym h) (choose_within-others d n events rest w h a))
