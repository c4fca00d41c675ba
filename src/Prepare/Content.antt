-- ===== src/Prepare/Content.antt =====
-- src/boot/mod.rs: the modules in memory.
use mathlib.Core.Path.{subst}
use towboot_rust.Prelude.{◌≡◌, Option, none, some, List, [], ◌∷◌, ok, Target, map_err, ok-eq, arith}
use towboot_rust.Firmware.{device_error, World}
use towboot_rust.Firmware.Exec as Exec
use towboot_rust.Firmware.Exec.{Exec, lift, call, with_err, outcome-eq, world-eq, continue-eq-ok}
use towboot_rust.Firmware.Laws.{Ledger, IsLawful}
use towboot_rust.Config.{Quirk, Module}
use towboot_rust.Mem.Allocation.{Allocation, dropping}
use towboot_rust.Mem.Allocation.Memory.{dropping-eq-ok}
use towboot_rust.Mem.Allocation.Content.{
  KeepsApart, Carries, Carries-refl, Carries-trans, Carries-HasBytes, Carrier, Carrier-look,
  Carrier-lift, Carrier-call, Carrier-bind,
}
use towboot_rust.File.{File, open_file, try_into_allocation}
use towboot_rust.File.Laws.{LeavesPages}
use towboot_rust.File.Content.{IsRead, Carrier-open_file, try_into_allocation-IsRead}
use towboot_rust.Video.Mode.{
  PreferredMode, Mode, GraphicsServices, wanted_resolution, find_mode, set_found, setup_video,
}
use towboot_rust.Prepare.{Services, load_modules}
use towboot_rust.Prepare.Ownership.{ShowsOnly}

module _ {S : Type 0} (g : GraphicsServices S) (held : S → Ledger) (shows : ShowsOnly g held) where
  Carrier-set_found : (o : Option Mode) → Carrier held (set_found g o)
  Carrier-set_found none = Carrier-lift held (ok tt)
  Carrier-set_found (some m) =
      Carrier-bind held (call (g.set_mode m)) _
        (Carrier-call held (g.set_mode m) (shows.set_mode m))
        (λ r. Carrier-lift held (map_err r (λ _. device_error)))

  pub Carrier-setup_video :
      (preferred : Option PreferredMode) (quirks : List Quirk)
      → Carrier held (setup_video g preferred quirks)
  unfolding setup_video
  Carrier-setup_video preferred quirks =
      Carrier-bind held (lift (wanted_resolution preferred quirks)) _
        (Carrier-lift held (wanted_resolution preferred quirks))
        (λ wanted.
          Carrier-bind held (call g.locate) _ (Carrier-call held g.locate shows.locate) (λ located.
            Carrier-bind held (lift (map_err located (λ _. device_error))) _
              (Carrier-lift held (map_err located (λ _. device_error)))
              (λ _.
                Carrier-bind held (λ w. (ok (g.modes w.firmware), w)) _
                  (Carrier-look held (λ w. ok (g.modes w.firmware)))
                  (λ modes. Carrier-set_found (find_mode wanted modes)))))

module _ (t : Target) {S H : Type 0} (v : Services S H) (held : S → Ledger)
    (law : IsLawful v.pages held) (apart : KeepsApart v.pages held)
    (leaves : LeavesPages v.files held) (shows : ShowsOnly v.graphics held) where
  -- The file that a module names was opened, and is in the allocation.
  pub record IsLoadedFrom (m : Module) (a : Allocation) (w : World S) : Type 0 where
    pub file : File H
    pub before : World S
    pub after : World S
    pub opened : open_file v.files t m.image before ≡ (ok file, after)
    pub read : IsRead v.files t held leaves v.pages law apart file a w

  abbrev pub AreLoaded : List Allocation → List Module → World S → Type 0
  AreLoaded [] [] w = Unit
  AreLoaded (a ∷ as_) (m ∷ ms) w = IsLoadedFrom m a w × AreLoaded as_ ms w
  AreLoaded _ _ w = ⊥

  IsRead-carried :
      (self : File H) (a : Allocation) (w w' : World S)
      → Carries held w w'
      → IsRead v.files t held leaves v.pages law apart self a w
      → IsRead v.files t held leaves v.pages law apart self a w'
  IsRead-carried self a w w' c r = record {
    room = r.room;
    state = r.state;
    bytes = r.bytes;
    given = r.given;
    whole = r.whole;
    len = r.len;
    fits = r.fits;
    allocated = omega (arith, r.allocated, c.grows a.ptr a.pages);
    has = Carries-HasBytes held w w' a r.bytes c r.allocated r.fits r.has;
  }

  pub AreLoaded-carried :
      (as_ : List Allocation) (ms : List Module) (w w' : World S)
      → Carries held w w'
      → AreLoaded as_ ms w
      → AreLoaded as_ ms w'
  AreLoaded-carried [] [] w w' c l = tt
  AreLoaded-carried [] (m ∷ ms) w w' c l = absurd l
  AreLoaded-carried (a ∷ as_) [] w w' c l = absurd l
  AreLoaded-carried (a ∷ as_) (m ∷ ms) w w' c (l, ls) = (
    record {
      file = l.file;
      before = l.before;
      after = l.after;
      opened = l.opened;
      read = IsRead-carried l.file a w w' c l.read;
    },
    AreLoaded-carried as_ ms w w' c ls,
  )

  pub load_modules-AreLoaded :
      (quirks : List Quirk) (ms : List Module) (as_ : List Allocation) (w w' : World S)
      → load_modules t v quirks ms w ≡ (ok as_, w')
      → AreLoaded as_ ms w' × Carries held w w'
  unfolding load_modules
  load_modules-AreLoaded quirks [] as_ w w' h = (
    subst (λ xs. AreLoaded xs [] w') (ok-eq (outcome-eq h)) tt,
    subst (Carries held w) (world-eq h) (Carries-refl held w),
  )
  load_modules-AreLoaded quirks (m ∷ ms) as_ w w' h =
      let (file, w1, e1, h1) = Exec.>>=-eq-ok (open_file v.files t m.image) _ w h in
      let (a, w2, e2, h2) =
        Exec.>>=-eq-ok (try_into_allocation v.files v.pages t file quirks) _ w1 h1 in
      let (rest, w3, e3, h3) =
        Exec.>>=-eq-ok (dropping v.pages (a ∷ []) (load_modules t v quirks ms)) _ w2 h2 in
      let (read, c2) =
        try_into_allocation-IsRead v.files t held leaves v.pages law apart file quirks a w1 w2 e2 in
      let (others, c3) =
        load_modules-AreLoaded quirks ms rest w2 w3
          (dropping-eq-ok v.pages (a ∷ []) (load_modules t v quirks ms) w2 e3) in
      let c1 = Carrier-open_file v.files t held leaves m.image file w w1 e1 in
      let here : AreLoaded (a ∷ rest) (m ∷ ms) w3 = (
        record {
          file = file;
          before = w;
          after = w1;
          opened = e1;
          read = IsRead-carried file a w2 w3 c3 read;
        },
        others,
      ) in
      (
        subst (λ xs. AreLoaded xs (m ∷ ms) w') (ok-eq (outcome-eq h3))
            (subst (AreLoaded (a ∷ rest) (m ∷ ms)) (world-eq h3) here),
        subst (Carries held w) (world-eq h3) (Carries-trans held (Carries-trans held c1 c2) c3),
      )
