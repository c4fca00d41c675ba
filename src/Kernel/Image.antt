-- ===== src/Kernel/Image.antt =====
-- src/boot/mod.rs: what `LoadedKernel::new_multiboot` puts where.
use mathlib.Core.Path.{ap₂}
use towboot_rust.Prelude.{
  ℕ, ◌-◌, ◌*◌, ◌≤◌, ◌<◌, ◌≡◌, ◌≢◌, sym, ap, ◌∙◌, true, List, [], ◌∷◌, take, drop, ◌==◌,
  if◌then◌else◌, ok, err, panic, narrow, narrow-eq-ok, Target, subtract, subtract_of_le, ok-eq,
  arith, Outcome,
}
use towboot_rust.Firmware.{Status, PageServices, World}
use towboot_rust.Firmware.Exec as Exec
use towboot_rust.Firmware.Exec.{never, rename, with_err, continue-eq-ok, outcome-eq, memory-eq}
use towboot_rust.Mem.Map.{page_size}
use towboot_rust.Mem.Allocation.{Allocation, new_at}
use towboot_rust.Mem.Allocation.Memory.{new_at-Keeps}
use towboot_rust.Mem.Bytes.{fill, write}
use towboot_rust.Kernel.{
  MultibootAddresses, LoadedKernel, multiboot, KernelFormats, kernel_length, copy_kernel,
  new_multiboot,
}

never-eq-ok :
    {A : Type 0} (o : Outcome ⊥ A) {a : A}
    → ◌≡◌ {A = Outcome Status A} (rename absurd o) (ok a)
    → o ≡ ok a
never-eq-ok (ok b) h = ap ok (ok-eq h)
never-eq-ok (err e) h = absurd e
never-eq-ok (panic m) h = cc

module _ (k : KernelFormats) (t : Target) {S : Type 0} (f : PageServices S) where
  -- The addresses of the header are in order.
  pub record IsInOrder (a : MultibootAddresses) : Type 0 where
    pub text : a.load_address ≤ a.load_end_address
    pub bss : 0 < a.bss_end_address → a.load_end_address ≤ a.bss_end_address

  abbrev pub memory_end : MultibootAddresses → ℕ
  memory_end a = if a.bss_end_address == 0 then a.load_end_address else a.bss_end_address

  -- The one allocation of a kernel that was loaded by the addresses of its header.
  pub record IsPlaced (addresses : MultibootAddresses) (region : List ℕ) (kernel : LoadedKernel)
      (w w' : World S) : Type 0 where
    pub place : Allocation
    pub only : kernel.allocations ≡ place ∷ []
    pub by_header : kernel.addresses ≡ multiboot addresses
    pub granted :
        (new_at f addresses.load_address (memory_end addresses - addresses.load_address) w).0
        ≡ ok place
    pub copied :
        w'.memory
        ≡ write place.ptr
            (take (place.pages * page_size) region)
            (fill place.ptr (place.pages * page_size) 0 w.memory)

  kernel_length-eq-ok :
      (a : MultibootAddresses) (n : ℕ)
      → IsInOrder a
      → kernel_length k t f a ≡ ok n
      → n ≡ memory_end a - a.load_address
  unfolding kernel_length narrow
  kernel_length-eq-ok a n i h = ground (
    arith,
    i.text,
    i.bss,
    subtract_of_le {E = ⊥} t 32 a.load_end_address a.load_address,
    subtract_of_le {E = ⊥} t 32 a.bss_end_address a.load_address,
  )

  loaded_eq :
      (a : MultibootAddresses) (n : ℕ)
      → IsInOrder a
      → subtract {E = ⊥} t 32 a.load_end_address a.load_address ≡ ok n
      → n ≡ a.load_end_address - a.load_address
  loaded_eq a n i h =
      ground (arith, i.text, subtract_of_le {E = ⊥} t 32 a.load_end_address a.load_address)

  -- If the addresses of the header are in order, a kernel that is loaded by them has one
  -- allocation, which `new_at` granted for its load address and its size with the BSS; there
  -- are the bytes of the file from the load offset on, as many as the header says and fit, and
  -- zeros behind them up to the end of the pages. Nothing else is written.
  pub new_multiboot-IsPlaced :
      (kernel_vec : List ℕ) (addresses : MultibootAddresses) (header_start : ℕ)
      (kernel : LoadedKernel) (w w' : World S)
      → IsInOrder addresses
      → new_multiboot k t f kernel_vec addresses header_start w ≡ (ok kernel, w')
      → (load_offset : ℕ) × (k.compute_load_offset addresses header_start ≡ ok load_offset)
        × IsPlaced addresses
            (take
              (addresses.load_end_address - addresses.load_address)
              (drop load_offset kernel_vec))
            kernel
            w
            w'
  unfolding new_multiboot
  new_multiboot-IsPlaced kernel_vec addresses header_start kernel w w' i h =
      let (load_offset, e0, h0) =
        continue-eq-ok (rename absurd (k.compute_load_offset addresses header_start)) _ w h in
      let (bytes, e1, h1) = continue-eq-ok (rename absurd (kernel_length k t f addresses)) _ w h0 in
      let (address, e2, h2) =
        continue-eq-ok (rename absurd (narrow t.usize_bits addresses.load_address)) _ w h1 in
      let (place, w3, e3, h3) = Exec.>>=-eq-ok (new_at f address bytes) _ w h2 in
      let (loaded, e4, h4) =
        continue-eq-ok
          (rename absurd (subtract t 32 addresses.load_end_address addresses.load_address)) _ w3
          h3 in
      let region = take loaded (drop load_offset kernel_vec) in
      let (_, w5, e5, h5) =
        Exec.>>=-eq-ok (with_err absurd (copy_kernel k t f place region)) _ w3 h4 in
      let final = ok-eq (outcome-eq h5) in
      let size = kernel_length-eq-ok addresses bytes i (never-eq-ok _ e1) in
      let start = (narrow-eq-ok t.usize_bits addresses.load_address address (never-eq-ok _ e2)).0 in
      let n = loaded_eq addresses loaded i (never-eq-ok _ e4) in
      (
        load_offset,
        never-eq-ok _ e0,
        record {
          place = place;
          only = sym (ap (λ (l : LoadedKernel). l.allocations) final);
          by_header = sym (ap (λ (l : LoadedKernel). l.addresses) final);
          granted = ap₂ (λ a b. (new_at f a b w).0) (sym start) (sym size) ∙ outcome-eq e3;
          copied =
              sym (memory-eq h5)
              ∙ sym (memory-eq e5)
              ∙ ap₂
                  (λ m c.
                    write place.ptr
                      (take (place.pages * page_size) (take c (drop load_offset kernel_vec)))
                      (fill place.ptr (place.pages * page_size) 0 m))
                  (sym (memory-eq e3) ∙ new_at-Keeps f address bytes w) n;
        },
      )

  -- With overflow checks, a kernel whose header has the load end address 0, and not the load
  -- address 0, is never loaded by its header.
  pub new_multiboot-whole_file :
      (kernel_vec : List ℕ) (addresses : MultibootAddresses) (header_start : ℕ)
      (kernel : LoadedKernel) (w w' : World S)
      → t.overflow_checks ≡ true
      → addresses.load_end_address ≡ 0
      → 0 < addresses.load_address
      → new_multiboot k t f kernel_vec addresses header_start w ≢ (ok kernel, w')
  unfolding new_multiboot subtract
  new_multiboot-whole_file kernel_vec addresses header_start kernel w w' checks whole pos h =
      let (load_offset, e0, h0) =
        continue-eq-ok (rename absurd (k.compute_load_offset addresses header_start)) _ w h in
      let (bytes, e1, h1) = continue-eq-ok (rename absurd (kernel_length k t f addresses)) _ w h0 in
      let (address, e2, h2) =
        continue-eq-ok (rename absurd (narrow t.usize_bits addresses.load_address)) _ w h1 in
      let (place, w3, e3, h3) = Exec.>>=-eq-ok (new_at f address bytes) _ w h2 in
      let (loaded, e4, h4) =
        continue-eq-ok
          (rename absurd (subtract t 32 addresses.load_end_address addresses.load_address)) _ w3
          h3 in
      let e5 = never-eq-ok (subtract t 32 addresses.load_end_address addresses.load_address) e4 in
      ground (arith, e5, checks, whole, pos)
