-- ===== src/Kernel/Choice.antt =====
-- src/boot/mod.rs: `LoadedKernel::new`, by what it says of its addresses.
use mathlib.Core.Path.{subst}
use towboot_rust.Prelude.{
  ℕ, ◌≡◌, sym, ap, ◌∙◌, Bool, true, false, Option, none, some, List, take, drop, ok, narrow, Target,
  subtract, String, Result, done, failed, map_err, ok-eq,
}
use towboot_rust.Firmware.{Status, load_error, PageServices, World}
use towboot_rust.Firmware.Exec as Exec
use towboot_rust.Firmware.Exec.{rename, never, with_err, raise, continue-eq-ok, outcome-eq}
use towboot_rust.Config.{Quirk, contains, force_elf}
use towboot_rust.Mem.Allocation.{new_at, free_all}
use towboot_rust.Elf.Loader as Loader
use towboot_rust.Elf.Loader.{OurElfLoader, into_allocations, load_elf, entry_point}
use towboot_rust.Elf.Symbols.{Binary, symbols}
use towboot_rust.Kernel.{
  MultibootAddresses, Addresses, multiboot, elf, LoadedKernel, KernelFormats, kernel_length,
  copy_kernel, new_multiboot, finish_elf, new_elf, new_by, new,
}

multiboot-injective : (x a : MultibootAddresses) → multiboot x ≡ multiboot a → x ≡ a
multiboot-injective x a h = ap by_header h
  where
    by_header : Addresses → MultibootAddresses
    by_header (multiboot b) = b
    by_header (elf e) = x

module _ (k : KernelFormats) (t : Target) {S : Type 0} (f : PageServices S) where
  new_multiboot-addresses :
      (kernel_vec : List ℕ) (addresses : MultibootAddresses) (header_start : ℕ)
      (kernel : LoadedKernel) (w w' : World S)
      → new_multiboot k t f kernel_vec addresses header_start w ≡ (ok kernel, w')
      → kernel.addresses ≡ multiboot addresses
  unfolding new_multiboot
  new_multiboot-addresses kernel_vec addresses header_start kernel w w' h =
      let (load_offset, e0, h0) =
        continue-eq-ok (rename absurd (k.compute_load_offset addresses header_start)) _ w h in
      let (bytes, e1, h1) = continue-eq-ok (rename absurd (kernel_length k t f addresses)) _ w h0 in
      let (address, e2, h2) =
        continue-eq-ok (rename absurd (narrow t.usize_bits addresses.load_address)) _ w h1 in
      let (place, w3, e3, h3) = Exec.>>=-eq-ok (new_at f address bytes) _ w h2 in
      let (loaded, e4, h4) =
        continue-eq-ok
          (rename absurd (subtract t 32 addresses.load_end_address addresses.load_address)) _ w3
          h3 in
      let region = take loaded (drop load_offset kernel_vec) in
      let (_, w5, e5, h5) =
        Exec.>>=-eq-ok (with_err absurd (copy_kernel k t f place region)) _ w3 h4 in
      sym (ap (λ (l : LoadedKernel). l.addresses) (ok-eq (outcome-eq h5)))

  finish_elf-addresses :
      (kernel_vec : List ℕ) (binary : Binary) (r : Result String (Unit {0}) × OurElfLoader)
      (kernel : LoadedKernel) (w w' : World S)
      → finish_elf k t f kernel_vec binary r w ≡ (ok kernel, w')
      → (e : ℕ) × (kernel.addresses ≡ elf e)
  finish_elf-addresses kernel_vec binary (failed m, loader) kernel w w' h =
      let (_, w1, e1, h1) =
        Exec.>>=-eq-ok (free_all f {E = Status} (into_allocations loader)) _ w h in
      cc (outcome-eq h1)
  finish_elf-addresses kernel_vec binary (done u, loader) kernel w w' h =
      let (found, e1, h1) =
        continue-eq-ok (rename absurd (symbols k.symbol_services t binary kernel_vec)) _ w h in
      let (entry, e2, h2) = continue-eq-ok (rename absurd (entry_point t loader)) _ w h1 in
      (entry, sym (ap (λ (l : LoadedKernel). l.addresses) (ok-eq (outcome-eq h2))))

  new_elf-addresses :
      (kernel_vec : List ℕ) (kernel : LoadedKernel) (w w' : World S)
      → new_elf k t f kernel_vec w ≡ (ok kernel, w')
      → (e : ℕ) × (kernel.addresses ≡ elf e)
  unfolding new_elf
  new_elf-addresses kernel_vec kernel w w' h =
      let (binary, e1, h1) =
        continue-eq-ok (map_err (k.parse_elf kernel_vec) (λ _. load_error)) _ w h in
      let (r, w2, e2, h2) =
        Exec.>>=-eq-ok
          (with_err absurd
            (load_elf t f binary.program_headers kernel_vec (Loader.new binary.entry)))
          _ w h1 in
      finish_elf-addresses kernel_vec binary r kernel w2 w' h2

  new_by-header :
      (kernel_vec : List ℕ) (o : Option MultibootAddresses) (header_start : ℕ) (b : Bool)
      (a : MultibootAddresses) (kernel : LoadedKernel) (w w' : World S)
      → new_by k t f kernel_vec header_start o b w ≡ (ok kernel, w')
      → kernel.addresses ≡ multiboot a
      → (o ≡ some a) × (new_multiboot k t f kernel_vec a header_start w ≡ (ok kernel, w'))
  new_by-header kernel_vec (some x) header_start false a kernel w w' h e =
      let same =
        multiboot-injective x a
          (sym (new_multiboot-addresses kernel_vec x header_start kernel w w' h) ∙ e) in
      (
        ap some same,
        subst (λ y. new_multiboot k t f kernel_vec y header_start w ≡ (ok kernel, w')) same h,
      )
  new_by-header kernel_vec (some x) header_start true a kernel w w' h e =
      let (n, e') = new_elf-addresses kernel_vec kernel w w' h in cc (sym e' ∙ e)
  new_by-header kernel_vec none header_start b a kernel w w' h e =
      let (n, e') = new_elf-addresses kernel_vec kernel w w' h in cc (sym e' ∙ e)

  -- A kernel that says it was loaded by certain addresses was loaded by those of its header.
  pub new-by_header :
      (kernel_vec : List ℕ) (o : Option MultibootAddresses) (header_start : ℕ) (quirks : List Quirk)
      (a : MultibootAddresses) (kernel : LoadedKernel) (w w' : World S)
      → new k t f kernel_vec o header_start quirks w ≡ (ok kernel, w')
      → kernel.addresses ≡ multiboot a
      → (o ≡ some a) × (new_multiboot k t f kernel_vec a header_start w ≡ (ok kernel, w'))
  unfolding new
  new-by_header kernel_vec o header_start quirks a kernel w w' h e =
      new_by-header kernel_vec o header_start (contains quirks force_elf) a kernel w w' h e
