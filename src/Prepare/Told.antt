-- ===== src/Prepare/Told.antt =====
-- src/boot/mod.rs: what the kernel is told of its command line and its modules.
use mathlib.Core.Path.{subst}
use towboot_rust.Prelude.{
  ℕ, suc, ◌+◌, ◌≡◌, refl, sym, ap, ◌∙◌, List, [], ◌∷◌, ◌++◌, length, ok, Target, narrow, >>=-eq-ok,
  ok-eq, ok_or, ◌-◌, arith,
}
use towboot_rust.Firmware.{World, load_error}
use towboot_rust.Firmware.Exec as Exec
use towboot_rust.Firmware.Exec.{
  Exec, lift, with_err, outcome-eq, continue-eq-ok, rename-eq-ok, pure,
}
use towboot_rust.Config.{Quirk, Module, Entry}
use towboot_rust.Mem.Allocation.{Allocation, dropping}
use towboot_rust.Mem.Allocation.Memory.{dropping-eq-ok}
use towboot_rust.File.{open_file, try_into_allocation, try_into_vec}
use towboot_rust.Kernel.{LoadedKernel, new}
use towboot_rust.Video.Mode.{prepare_framebuffer, setup_video}
use towboot_rust.Prepare.{
  Header, MbModule, Information, PreparedEntry, Services, symbols_struct, module_list, load_modules,
  prepare_multiboot_information, with_kernel, prepare,
}

-- The modules as the kernel is told of them: in order, each with its first address, the one behind
-- its last, and its arguments.
abbrev pub AreDescribed : List Allocation → List Module → List MbModule → Type 0
AreDescribed [] [] [] = Unit
AreDescribed (a ∷ as_) (m ∷ ms) (b ∷ bs) =
    (b.start ≡ a.ptr) × (b.end ≡ a.ptr + a.len) × (b.string ≡ m.argv) × AreDescribed as_ ms bs
AreDescribed _ _ _ = ⊥

narrow-eq : (width n m : ℕ) → narrow {E = ⊥} width n ≡ ok m → m ≡ n
unfolding narrow
narrow-eq width n m h = ground (arith, h)

module_list-AreDescribed :
    (t : Target) (as_ : List Allocation) (ms : List Module) (bs : List MbModule)
    → length as_ ≡ length ms
    → module_list t as_ ms ≡ ok bs
    → AreDescribed as_ ms bs
unfolding module_list
module_list-AreDescribed t [] [] bs l h = subst (AreDescribed [] []) (ok-eq h) tt
module_list-AreDescribed t [] (m ∷ ms) bs l h = absurd (omega arith)
module_list-AreDescribed t (a ∷ as_) [] bs l h = absurd (omega arith)
module_list-AreDescribed t (a ∷ as_) (m ∷ ms) bs l h =
    let (len, e, h1) = >>=-eq-ok (narrow (t.usize_bits - 1) a.len) _ h in
    let (more, e2, h2) = >>=-eq-ok (module_list t as_ ms) _ h1 in
    subst (AreDescribed (a ∷ as_) (m ∷ ms)) (ok-eq h2) (
      refl,
      ap (λ n. a.ptr + n) (narrow-eq (t.usize_bits - 1) a.len len e),
      refl,
      module_list-AreDescribed t as_ ms more (omega arith) e2,
    )

module _ (t : Target) {S H : Type 0} (v : Services S H) where
  load_modules-length :
      (quirks : List Quirk) (ms : List Module) (w w' : World S) (as_ : List Allocation)
      → load_modules t v quirks ms w ≡ (ok as_, w')
      → length as_ ≡ length ms
  unfolding load_modules
  load_modules-length quirks [] w w' as_ h = ap length (sym (ok-eq (outcome-eq h)))
  load_modules-length quirks (m ∷ ms) w w' as_ h =
      let (file, w1, e1, h1) = Exec.>>=-eq-ok (open_file v.files t m.image) _ w h in
      let (a, w2, e2, h2) =
        Exec.>>=-eq-ok (try_into_allocation v.files v.pages t file quirks) _ w1 h1 in
      let (rest, w3, e3, h3) =
        Exec.>>=-eq-ok (dropping v.pages (a ∷ []) (load_modules t v quirks ms)) _ w2 h2 in
      ap length (sym (ok-eq (outcome-eq h3)))
      ∙ ap suc (
          load_modules-length quirks ms w2 w3 rest
            (dropping-eq-ok v.pages (a ∷ []) (load_modules t v quirks ms) w2 e3))

  -- What a prepared entry tells the kernel.
  pub record IsTold (entry : Entry) (prepared : PreparedEntry) : Type 0 where
    pub booted : prepared.entry ≡ entry
    pub command_line : prepared.multiboot_information.command_line ≡ entry.argv
    pub modules :
        AreDescribed prepared.modules_vec entry.modules prepared.multiboot_information.modules
    pub symbols :
        prepared.multiboot_information.symbols ≡ symbols_struct prepared.loaded_kernel.symbols
    pub boot_loader_name : prepared.multiboot_information.boot_loader_name ≡ v.loader_name

  informed :
      (entry : Entry) (kernel : LoadedKernel) (ms : List Allocation) (info : Information)
      (w : World S)
      → length ms ≡ length entry.modules
      → (prepare_multiboot_information t v entry ms (symbols_struct kernel.symbols) w).0 ≡ ok info
      → IsTold entry (record {
        entry = entry;
        loaded_kernel = kernel;
        multiboot_information = info;
        modules_vec = ms;
      })
  unfolding prepare_multiboot_information
  informed entry kernel ms info w l h =
      let (mods, e1, h1) = >>=-eq-ok (module_list t ms entry.modules) _ h in
      let (table, e2, h2) =
        >>=-eq-ok
          (prepare_framebuffer t (v.graphics.frame_buffer w.firmware)
            (v.graphics.current_mode_info w.firmware))
          _ h1 in
      let final = ok-eq h2 in
      record {
        booted = refl;
        command_line = sym (ap (λ (x : Information). x.command_line) final);
        modules =
            subst (λ (x : Information). AreDescribed ms entry.modules x.modules) final
              (module_list-AreDescribed t ms entry.modules mods l e1);
        symbols = sym (ap (λ (x : Information). x.symbols) final);
        boot_loader_name = sym (ap (λ (x : Information). x.boot_loader_name) final);
      }

  with_kernel-IsTold :
      (entry : Entry) (header : Header) (kernel : LoadedKernel) (w w' : World S)
      (prepared : PreparedEntry)
      → with_kernel t v entry header kernel w ≡ (ok prepared, w')
      → IsTold entry prepared
  unfolding with_kernel
  with_kernel-IsTold entry header kernel w w' prepared h =
      let loading = load_modules t v entry.quirks entry.modules in
      let (ms, w1, e1, h1) = Exec.>>=-eq-ok (dropping v.pages kernel.allocations loading) _ w h in
      let (_, w2, e2, h2) =
        Exec.>>=-eq-ok
          (dropping v.pages (ms ++ kernel.allocations)
            (setup_video v.graphics header.preferred_video_mode entry.quirks))
          _ w1 h1 in
      let telling = prepare_multiboot_information t v entry ms (symbols_struct kernel.symbols) in
      let (info, w3, e3, h3) = Exec.>>=-eq-ok (with_err absurd telling) _ w2 h2 in
      subst (IsTold entry) (ok-eq (outcome-eq h3)) (
        informed entry kernel ms info w2
          (load_modules-length entry.quirks entry.modules w w1 ms
            (dropping-eq-ok v.pages kernel.allocations loading w e1))
          (rename-eq-ok absurd (telling w2).0 (outcome-eq e3)))

  -- A prepared entry tells the kernel of the entry's arguments, of every module in order, each
  -- with the address of its first byte, the one behind its last byte and its arguments, of the
  -- kernel's symbols, and of the boot loader's name.
  pub prepare-IsTold :
      (entry : Entry) (w w' : World S) (prepared : PreparedEntry)
      → prepare t v entry w ≡ (ok prepared, w')
      → IsTold entry prepared
  unfolding prepare
  prepare-IsTold entry w w' prepared h =
      let (file, w1, e1, h1) = Exec.>>=-eq-ok (open_file v.files t entry.image) _ w h in
      let (kernel_vec, w2, e2, h2) = Exec.>>=-eq-ok (try_into_vec v.files file) _ w1 h1 in
      let (header, e3, h3) =
        continue-eq-ok (ok_or (v.parse_header kernel_vec) load_error) _ w2 h2 in
      let (kernel, w4, e4, h4) =
        Exec.>>=-eq-ok
          (new v.formats t v.pages kernel_vec header.addresses header.header_start entry.quirks) _
          w2 h3 in
      with_kernel-IsTold entry header kernel w4 w' prepared h4
