-- ===== src/Prepare/Filled.antt =====
-- src/boot/mod.rs: what is in memory when an entry is prepared.
use mathlib.Core.Path.{subst}
use towboot_rust.Prelude.{
  ℕ, ◌*◌, ◌≤◌, ◌≡◌, ap, ◌∙◌, true, some, List, [], ◌∷◌, ◌++◌, All, ok, ok_or, Target, ok-eq, arith,
}
use towboot_rust.Firmware.{load_error, World}
use towboot_rust.Firmware.Exec as Exec
use towboot_rust.Firmware.Exec.{Exec, lift, call, with_err, outcome-eq, world-eq, continue-eq-ok}
use towboot_rust.Firmware.Laws.{Ledger, IsLawful}
use towboot_rust.Config.{Entry}
use towboot_rust.Mem.Bytes.{within}
use towboot_rust.Mem.Allocation.{Allocation, dropping}
use towboot_rust.Mem.Allocation.Ledger.{owned}
use towboot_rust.Mem.Allocation.Memory.{dropping-eq-ok}
use towboot_rust.Mem.Allocation.Content.{
  KeepsApart, Carries, Carries-refl, Carries-trans, Balanced-eq-ok, owned_single,
}
use towboot_rust.File.{File, open_file, try_into_vec}
use towboot_rust.File.Laws.{LeavesPages}
use towboot_rust.Kernel.{LoadedKernel, new}
use towboot_rust.Kernel.Ownership.{kernel_owns, Balanced-new}
use towboot_rust.Video.Mode.{setup_video}
use towboot_rust.Prepare.{
  Header, PreparedEntry, Services, symbols_struct, load_modules, prepare_multiboot_information,
  with_kernel, prepare,
}
use towboot_rust.Prepare.Ownership.{ShowsOnly}
use towboot_rust.Prepare.Content.{
  Carrier-setup_video, AreLoaded, AreLoaded-carried, load_modules-AreLoaded,
}

module _ (t : Target) {S H : Type 0} (v : Services S H) (held : S → Ledger)
    (law : IsLawful v.pages held) (apart : KeepsApart v.pages held)
    (leaves : LeavesPages v.files held) (shows : ShowsOnly v.graphics held) where
  -- The pages of the allocations hold what they held.
  abbrev pub AreKept : List Allocation → World S → World S → Type 0
  AreKept as_ w w' =
      All
        (λ (a : Allocation).
          (j : ℕ) → within a.ptr (a.pages * 4096) j ≡ true → w'.memory j ≡ w.memory j)
        as_

  Carries-AreKept :
      (as_ : List Allocation) (w w' : World S)
      → ((p n : ℕ) → owned as_ p n ≤ held w.firmware p n)
      → Carries held w w'
      → AreKept as_ w w'
  Carries-AreKept [] w w' h c = tt
  Carries-AreKept (a ∷ rest) w w' h c = (
    λ j l. c.intact a.ptr a.pages j (omega (arith, h a.ptr a.pages, owned_single a.ptr a.pages)) l,
    Carries-AreKept rest w w' (λ p n. omega (arith, h p n)) c,
  )

  with_kernel-AreLoaded :
      (entry : Entry) (header : Header) (kernel : LoadedKernel) (prepared : PreparedEntry)
      (w w' : World S)
      → with_kernel t v entry header kernel w ≡ (ok prepared, w')
      → AreLoaded t v held law apart leaves shows prepared.modules_vec entry.modules w'
        × (kernel ≡ prepared.loaded_kernel)
        × Carries held w w'
  unfolding with_kernel prepare_multiboot_information
  with_kernel-AreLoaded entry header kernel prepared w w' h =
      let loading = load_modules t v entry.quirks entry.modules in
      let showing = setup_video v.graphics header.preferred_video_mode entry.quirks in
      let (ms, w1, e1, h1) = Exec.>>=-eq-ok (dropping v.pages kernel.allocations loading) _ w h in
      let owns = ms ++ kernel.allocations in
      let (u, w2, e2, h2) = Exec.>>=-eq-ok (dropping v.pages owns showing) _ w1 h1 in
      let telling = prepare_multiboot_information t v entry ms (symbols_struct kernel.symbols) in
      let (info, w3, e3, h3) = Exec.>>=-eq-ok (with_err absurd telling) _ w2 h2 in
      let (read, c1) =
        load_modules-AreLoaded t v held law apart leaves shows entry.quirks entry.modules ms w w1
          (dropping-eq-ok v.pages kernel.allocations loading w e1) in
      let c2 =
        Carrier-setup_video v.graphics held shows header.preferred_video_mode entry.quirks u w1 w2
          (dropping-eq-ok v.pages owns showing w1 e2) in
      let c3 = subst (Carries held w2) (world-eq e3 ∙ world-eq h3) (Carries-refl held w2) in
      let final = ok-eq (outcome-eq h3) in
      let later = Carries-trans held c2 c3 in
      (
        subst
            (λ (p : PreparedEntry).
              AreLoaded t v held law apart leaves shows p.modules_vec entry.modules w')
            final
            (AreLoaded-carried t v held law apart leaves shows ms entry.modules w1 w' later read),
        ap (λ (p : PreparedEntry). p.loaded_kernel) final,
        Carries-trans held c1 later,
      )

  -- What is in memory for a prepared entry.
  pub record IsFilled (entry : Entry) (prepared : PreparedEntry) (w w' : World S) : Type 0 where
    pub file : File H
    pub kernel_vec : List ℕ
    pub header : Header
    pub found : World S
    pub opened : open_file v.files t entry.image w ≡ (ok file, found)
    pub read : (try_into_vec v.files file found).0 ≡ ok kernel_vec
    pub before : World S
    pub loaded : World S
    pub parsed : v.parse_header kernel_vec ≡ some header
    pub kernel :
        new v.formats t v.pages kernel_vec header.addresses header.header_start entry.quirks before
        ≡ (ok prepared.loaded_kernel, loaded)
    pub kernel_kept : AreKept prepared.loaded_kernel.allocations loaded w'
    pub modules : AreLoaded t v held law apart leaves shows prepared.modules_vec entry.modules w'

  -- With lawful memory services that give no page out twice, and that the volume and the
  -- graphics output leave alone, when an entry is prepared: every module was opened by its
  -- name, a read gave as many bytes as the file has, and these are in memory at the module's
  -- allocation, which has their length and pages that hold them; and the pages of the kernel
  -- hold what they held when the kernel had been loaded.
  pub prepare-IsFilled :
      (entry : Entry) (prepared : PreparedEntry) (w w' : World S)
      → prepare t v entry w ≡ (ok prepared, w')
      → IsFilled entry prepared w w'
  unfolding prepare
  prepare-IsFilled entry prepared w w' h =
      let (file, w1, e1, h1) = Exec.>>=-eq-ok (open_file v.files t entry.image) _ w h in
      let (kernel_vec, w2, e2, h2) = Exec.>>=-eq-ok (try_into_vec v.files file) _ w1 h1 in
      let (header, e3, h3) =
        continue-eq-ok (ok_or (v.parse_header kernel_vec) load_error) _ w2 h2 in
      let loading =
        new v.formats t v.pages kernel_vec header.addresses header.header_start entry.quirks in
      let (kernel, w4, e4, h4) = Exec.>>=-eq-ok loading _ w2 h3 in
      let (read, same, c) = with_kernel-AreLoaded entry header kernel prepared w4 w' h4 in
      let now =
        Balanced-eq-ok held kernel_owns loading kernel w2 w4
          (Balanced-new v.formats t v.pages held law kernel_vec header.addresses header.header_start
            entry.quirks)
          e4 in
      record {
        file = file;
        kernel_vec = kernel_vec;
        found = w1;
        opened = e1;
        read = outcome-eq e2;
        header = header;
        before = w2;
        loaded = w4;
        parsed = ground (arith, e3);
        kernel = e4 ∙ ap (λ k. (ok k, w4)) same;
        kernel_kept =
            subst (λ (k : LoadedKernel). AreKept k.allocations w4 w') same
              (Carries-AreKept kernel.allocations w4 w' (λ p n. omega (arith, now p n)) c);
        modules = read;
      }
