-- ===== src/Prepare/Ownership.antt =====
-- src/boot/mod.rs: the pages of the kernel and of the modules, through `PreparedEntry::new`.
use towboot_rust.Prelude.{
  ℕ, ◌≡◌, refl, List, [], ◌∷◌, ◌++◌, Option, none, some, Outcome, ok, map_err, ok_or, Target, arith,
}
use towboot_rust.Firmware.{Status, load_error, device_error, World}
use towboot_rust.Firmware.Exec.{Exec, pure, lift, call, with_err}
use towboot_rust.Firmware.Laws.{Ledger, IsLawful}
use towboot_rust.Config.{Quirk, Module, Entry}
use towboot_rust.Mem.Allocation.{Allocation, dropping}
use towboot_rust.Mem.Allocation.Ledger.{
  block, owned, owned-append, nothing, both, Balanced, Balanced-pure, Balanced-lift, Balanced-bind,
  Balanced-conv, Balanced-call, Balanced-look, Balanced-aside, Balanced-with_err,
}
use towboot_rust.Mem.Allocation.Balance.{Balanced-dropping}
use towboot_rust.File.{open_file, try_into_allocation, try_into_vec}
use towboot_rust.File.Laws.{
  LeavesPages, Balanced-open_file, Balanced-try_into_vec, Balanced-try_into_allocation,
}
use towboot_rust.Kernel.{LoadedKernel, new}
use towboot_rust.Kernel.Ownership.{kernel_owns, Balanced-new}
use towboot_rust.Video.Mode.{
  PreferredMode, Mode, GraphicsServices, wanted_resolution, find_mode, set_found, setup_video,
}
use towboot_rust.Prepare.{
  Header, PreparedEntry, Services, symbols_struct, load_modules, prepare_multiboot_information,
  with_kernel, prepare,
}

-- Setting a video mode does not touch the firmware's pages.
pub record ShowsOnly {S : Type 0} (g : GraphicsServices S) (held : S → Ledger) : Type 0 where
  pub locate : (s : S) (p n : ℕ) → held (g.locate s).1 p n ≡ held s p n
  pub set_mode : (m : Mode) (s : S) (p n : ℕ) → held (g.set_mode m s).1 p n ≡ held s p n

module _ {S : Type 0} (g : GraphicsServices S) (held : S → Ledger) (shows : ShowsOnly g held) where
  Balanced-set_found : (o : Option Mode) → Balanced held nothing (λ _. nothing) (set_found g o)
  Balanced-set_found none = Balanced-pure held tt (λ _. nothing)
  Balanced-set_found (some m) =
      Balanced-bind held (λ _. nothing) (call (g.set_mode m)) _
        (Balanced-call held (g.set_mode m) (shows.set_mode m))
        (λ r. Balanced-lift held (map_err r (λ _. device_error)))

  Balanced-setup_video :
      (preferred : Option PreferredMode) (quirks : List Quirk)
      → Balanced held nothing (λ _. nothing) (setup_video g preferred quirks)
  unfolding setup_video
  Balanced-setup_video preferred quirks =
      Balanced-bind held (λ _. nothing) (lift (wanted_resolution preferred quirks)) _
        (Balanced-lift held (wanted_resolution preferred quirks))
        (λ wanted.
          Balanced-bind held (λ _. nothing) (call g.locate) _
            (Balanced-call held g.locate shows.locate)
            (λ located.
              Balanced-bind held (λ _. nothing) (lift (map_err located (λ _. device_error))) _
                (Balanced-lift held (map_err located (λ _. device_error)))
                (λ _.
                  Balanced-bind held (λ _. nothing) (λ w. (ok (g.modes w.firmware), w)) _
                    (Balanced-look held (λ w. ok (g.modes w.firmware)))
                    (λ modes. Balanced-set_found (find_mode wanted modes)))))

-- What a prepared entry owns.
abbrev pub entry_owns : PreparedEntry → Ledger
entry_owns p = both (owned p.modules_vec) (kernel_owns p.loaded_kernel)

module _ (t : Target) {S H : Type 0} (v : Services S H) (held : S → Ledger)
    (law : IsLawful v.pages held) (leaves : LeavesPages v.files held)
    (shows : ShowsOnly v.graphics held) where
  -- A scope that owns allocations, and a call in it that takes nothing.
  within_scope :
      {A : Type 0} (xs : List Allocation) (outs : A → Ledger) (m : Exec S Status A)
      → Balanced held nothing outs m
      → Balanced held (owned xs) (λ a. both (outs a) (owned xs)) (dropping v.pages xs m)
  within_scope xs outs m b =
      Balanced-conv held (both nothing (owned xs)) (owned xs) (λ a. both (outs a) (owned xs))
        (λ a. both (outs a) (owned xs)) (dropping v.pages xs m) (λ p n. omega arith) (λ _ p n. refl)
        (Balanced-dropping v.pages held law xs outs m b)

  pub Balanced-load_modules :
      (quirks : List Quirk) (ms : List Module)
      → Balanced held nothing owned (load_modules t v quirks ms)
  unfolding load_modules
  Balanced-load_modules quirks [] = Balanced-pure held [] owned
  Balanced-load_modules quirks (m ∷ ms) =
      Balanced-bind held (λ _. nothing) (open_file v.files t m.image) _
        (Balanced-open_file v.files held leaves t m.image)
        (λ file.
          Balanced-bind held block (try_into_allocation v.files v.pages t file quirks) _
            (Balanced-try_into_allocation v.files v.pages held law leaves t file quirks)
            (λ a.
              Balanced-bind held (λ rest. both (owned rest) (block a))
                (dropping v.pages (a ∷ []) (load_modules t v quirks ms)) _
                (Balanced-conv held (owned (a ∷ [])) (block a)
                  (λ rest. both (owned rest) (owned (a ∷ []))) (λ rest. both (owned rest) (block a))
                  _ (λ p n. omega arith) (λ rest p n. omega arith)
                  (within_scope (a ∷ []) owned (load_modules t v quirks ms)
                    (Balanced-load_modules quirks ms)))
                (λ rest.
                  Balanced-conv held (owned (a ∷ rest)) (both (owned rest) (block a)) owned owned
                    (pure (a ∷ rest)) (λ p n. omega arith) (λ _ p n. refl)
                    (Balanced-pure held (a ∷ rest) owned))))

  -- A call that only looks, in a scope that does not end with it.
  looking :
      {A : Type 0} (x : Ledger) (g : World S → Outcome ⊥ A)
      → Balanced held {E = Status} x (λ _. x) (with_err absurd (λ w. (g w, w)))
  looking x g =
      Balanced-with_err held (λ _. x) (λ w. (g w, w))
        (Balanced-aside held x (λ w. (g w, w)) (Balanced-look held g))

  Balanced-with_kernel :
      (entry : Entry) (header : Header) (kernel : LoadedKernel)
      → Balanced held (kernel_owns kernel) entry_owns (with_kernel t v entry header kernel)
  unfolding with_kernel prepare_multiboot_information
  Balanced-with_kernel entry header kernel =
      let told = λ (ms : List Allocation).
        prepare_multiboot_information t v entry ms (symbols_struct kernel.symbols) in
      let mine = λ (ms : List Allocation). both (owned ms) (kernel_owns kernel) in
      Balanced-bind held mine
        (dropping v.pages kernel.allocations (load_modules t v entry.quirks entry.modules)) _
        (within_scope kernel.allocations owned (load_modules t v entry.quirks entry.modules)
          (Balanced-load_modules entry.quirks entry.modules))
        (λ ms.
          Balanced-bind held (λ _. mine ms)
            (dropping v.pages (ms ++ kernel.allocations)
              (setup_video v.graphics header.preferred_video_mode entry.quirks))
            _
            (Balanced-conv held (owned (ms ++ kernel.allocations)) (mine ms)
              (λ _. both nothing (owned (ms ++ kernel.allocations))) (λ _. mine ms) _
              (owned-append ms kernel.allocations)
              (λ _ p n. omega (arith, owned-append ms kernel.allocations p n))
              (within_scope (ms ++ kernel.allocations) (λ _. nothing) _
                (Balanced-setup_video v.graphics held shows header.preferred_video_mode
                  entry.quirks)))
            (λ _.
              Balanced-bind held (λ _. mine ms) (with_err absurd (told ms)) _
                (looking (mine ms) (λ w. (told ms w).0))
                (λ info.
                  Balanced-pure held
                    (record {
                      entry = entry;
                      loaded_kernel = kernel;
                      multiboot_information = info;
                      modules_vec = ms;
                    })
                    entry_owns)))

  -- With lawful memory services that the volume and the graphics output leave alone, preparing
  -- an entry adds exactly the blocks of the loaded kernel and of the loaded modules to what is
  -- allocated. If any step fails, whether it is a file, the header, the kernel, one of the
  -- modules or the video mode, it adds none. A panic is excepted.
  pub Balanced-prepare : (entry : Entry) → Balanced held nothing entry_owns (prepare t v entry)
  unfolding prepare
  Balanced-prepare entry =
      Balanced-bind held (λ _. nothing) (open_file v.files t entry.image) _
        (Balanced-open_file v.files held leaves t entry.image)
        (λ file.
          Balanced-bind held (λ _. nothing) (try_into_vec v.files file) _
            (Balanced-try_into_vec v.files held leaves file)
            (λ kernel_vec.
              Balanced-bind held (λ _. nothing)
                (lift (ok_or (v.parse_header kernel_vec) load_error)) _
                (Balanced-lift held (ok_or (v.parse_header kernel_vec) load_error))
                (λ header.
                  Balanced-bind held kernel_owns
                    (new v.formats t v.pages kernel_vec header.addresses header.header_start
                      entry.quirks)
                    _
                    (Balanced-new v.formats t v.pages held law kernel_vec header.addresses
                      header.header_start entry.quirks)
                    (Balanced-with_kernel entry header))))
