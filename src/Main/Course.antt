-- ===== src/Main/Course.antt =====
-- src/main.rs: the ways that `efi_main` can end.
use towboot_rust.Prelude.{
  ◌≡◌, refl, ap, ◌∙◌, Option, none, some, List, String, ok, err, Result, done, failed, Target,
}
use towboot_rust.Firmware.{Status, success, invalid_parameter, World}
use towboot_rust.Firmware.Exec.{◌>>=◌, attempt, >>=-eq-ok, attempt-eq-done, attempt-eq-failed}
use towboot_rust.Firmware.Yields.{Leads, pure-eq-ok, Leads-bind}
use towboot_rust.Config.{Entry, Config}
use towboot_rust.Config.Get as Get
use towboot_rust.Menu.{Event, choose}
use towboot_rust.Menu.Laws.{Listed, choose-Listed}
use towboot_rust.Prepare.{PreparedEntry, prepare, Jump, boot}
use towboot_rust.Prepare.Boot.{IsReady, boot-IsReady}
use towboot_rust.Main.{
  Ending, returned, jumped, waiting, Platform, load_options_of, opened, set_log_level, parsed,
  started, load, with_config, configured, efi_main,
}

module _ (t : Target) {S H Level E : Type 0} (p : Platform S H Level E) where
  -- The configuration comes from the load options, at some state of the machine.
  pub record Configured (config : Config) : Type 0 where
    pub options : Option String
    pub before : World S
    pub after : World S
    pub got : Get.get p.config t (parsed t p options) before ≡ (ok (some config), after)

  -- How an ending comes about.
  pub data IsCourse : Ending → World S → Type 0 where
    unconfigured :
        (options : Option String) (e : Status) (v v' w : World S)
        → Get.get p.config t (parsed t p options) v ≡ (err e, v')
        → IsCourse (returned invalid_parameter) w
    informed :
        (options : Option String) (v v' w : World S)
        → Get.get p.config t (parsed t p options) v ≡ (ok none, v')
        → IsCourse (returned success) w
    asking : (config : Config) (w : World S) → Configured config → IsCourse waiting w
    unprepared :
        (config : Config) (entry : Entry) (e : Status) (v v' : World S)
        → Configured config
        → Listed entry config.entries
        → prepare t p.services entry v ≡ (err e, v')
        → IsCourse (returned e) v'
    booted :
        (config : Config) (entry : Entry) (prepared : PreparedEntry) (jump : Jump)
        (v v' v'' : World S)
        → Configured config
        → Listed entry config.entries
        → prepare t p.services entry v ≡ (ok prepared, v')
        → IsReady t p.last_call v' v'' prepared jump
        → IsCourse (jumped prepared jump) v''

  started-IsCourse :
      (config : Config) (entry : Entry) (r : Result Status PreparedEntry) (v v' : World S)
      → Configured config
      → Listed entry config.entries
      → attempt {E = ⊥} (prepare t p.services entry) v ≡ (ok r, v')
      → (a : Ending) (w' : World S) → started t p r v' ≡ (ok a, w')
      → IsCourse a w'
  started-IsCourse config entry (failed e) v v' c l h a w' k =
      pure-eq-ok IsCourse (returned e) a v' w' k
        (unprepared config entry e v v' c l (attempt-eq-failed (prepare t p.services entry) v h))
  started-IsCourse config entry (done prepared) v v' c l h a w' k =
      let (jump, v2, b, r) = >>=-eq-ok (boot t p.last_call prepared) _ v' k in
      pure-eq-ok IsCourse (jumped prepared jump) a v2 w' r (
        booted config entry prepared jump v v' v2 c l
          (attempt-eq-done (prepare t p.services entry) v h)
          (boot-IsReady t p.last_call prepared jump v' v2 b))

  load-IsCourse :
      (config : Config) (o : Option Entry)
      → Configured config
      → ((entry : Entry) → o ≡ some entry → Listed entry config.entries)
      → Leads IsCourse (load t p o)
  load-IsCourse config none c l a w w' h = pure-eq-ok IsCourse waiting a w w' h (asking config w c)
  load-IsCourse config (some entry) c l a w w' h =
      let (r, v, e, k) = >>=-eq-ok (attempt {E = ⊥} (prepare t p.services entry)) _ w h in
      started-IsCourse config entry r w v c (l entry refl) e a w' k

  with_config-IsCourse :
      (events : List Event) (config : Config)
      → Configured config
      → Leads IsCourse (with_config t p events config)
  with_config-IsCourse events config c =
      Leads-bind IsCourse (set_log_level t p config.log_level) _ (λ _ a w w' h.
        let chooses = choose t p.config.console p.clock p.show p.decimal config events in
        let (o, v, e, k) = >>=-eq-ok chooses _ w h in
        load-IsCourse config o c
          (λ entry y.
            choose-Listed t p.config.console p.clock p.show p.decimal config events entry w v
              (e ∙ ap (λ x. (ok x, v)) y))
          a v w' k)

  configured-IsCourse :
      (events : List Event) (options : Option String) (r : Result Status (Option Config))
      (v v' : World S)
      → attempt {E = ⊥} (Get.get p.config t (parsed t p options)) v ≡ (ok r, v')
      → (a : Ending) (w' : World S) → configured t p events r v' ≡ (ok a, w')
      → IsCourse a w'
  configured-IsCourse events options (failed e) v v' h a w' k =
      pure-eq-ok IsCourse (returned invalid_parameter) a v' w' k (
        unconfigured options e v v' v'
          (attempt-eq-failed (Get.get p.config t (parsed t p options)) v h))
  configured-IsCourse events options (done none) v v' h a w' k =
      pure-eq-ok IsCourse (returned success) a v' w' k
        (informed options v v' v' (attempt-eq-done (Get.get p.config t (parsed t p options)) v h))
  configured-IsCourse events options (done (some config)) v v' h a w' k =
      with_config-IsCourse events config
        (record {
          options = options;
          before = v;
          after = v';
          got = attempt-eq-done (Get.get p.config t (parsed t p options)) v h;
        })
        a v' w' k

  obtained-IsCourse :
      (events : List Event) (options : Option String)
      → Leads IsCourse (attempt (Get.get p.config t (parsed t p options)) >>= configured t p events)
  obtained-IsCourse events options a w w' h =
      let (r, v, e, k) =
        >>=-eq-ok (attempt {E = ⊥} (Get.get p.config t (parsed t p options)))
          (configured t p events) w h in
      configured-IsCourse events options r w v e a w' k

  -- However `efi_main` ends without a panic: it returns INVALID_PARAMETER for a configuration
  -- that could not be got, SUCCESS where a text was asked for, or the error with which the
  -- preparation of an entry of the configuration failed; or it jumps to a kernel that was
  -- prepared for an entry of the configuration and is ready as `boot` leaves it; or it still
  -- waits in the menu, with a configuration.
  pub efi_main-IsCourse :
      (events : List Event) (ending : Ending) (w w' : World S)
      → efi_main t p events w ≡ (ok ending, w')
      → IsCourse ending w'
  unfolding efi_main
  efi_main-IsCourse events =
      Leads-bind IsCourse (opened t p "Failed to initialize utilities" p.main.init) _ (λ _.
        Leads-bind IsCourse
          (opened t p "Failed to open loaded image protocol" p.main.open_loaded_image) _
          (λ _.
            Leads-bind IsCourse (λ w. (ok (load_options_of (p.main.load_options w.firmware)), w)) _
              (λ options.
                Leads-bind IsCourse (opened t p "Failed to open filesystem" p.main.open_file_system)
                  _
                  (λ _.
                    Leads-bind IsCourse
                      (opened t p "Failed to open root directory" p.main.open_volume) _
                      (λ _. obtained-IsCourse events options)))))
