-- ===== src/Kernel/Ownership.antt =====
-- src/boot/mod.rs: the pages of `LoadedKernel`, through its constructors.
use towboot_rust.Prelude.{
  ℕ, refl, List, [], ◌∷◌, drop, take, Bool, true, false, Option, none, some, Outcome, Result, done,
  failed, String, map_err, narrow, Target, subtract, arith,
}
use towboot_rust.Firmware.{Status, load_error, PageServices}
use towboot_rust.Firmware.Exec.{pure, lift, never, with_err}
use towboot_rust.Firmware.Laws.{Ledger, IsLawful}
use towboot_rust.Config.{Quirk, force_elf, contains}
use towboot_rust.Mem.Allocation.{Allocation, new_at, free_all}
use towboot_rust.Mem.Allocation.Ledger.{
  block, owned, nothing, Balanced, Balanced-pure, Balanced-raise, Balanced-lift, Balanced-bind,
  Balanced-conv, Balanced-aside, Balanced-with_err, Balanced-silent,
}
use towboot_rust.Mem.Allocation.Balance.{Balanced-new_at, Balanced-free_all}
use towboot_rust.Elf.Loader as Loader
use towboot_rust.Elf.Loader.{OurElfLoader, into_allocations, load_elf, entry_point}
use towboot_rust.Elf.Loader.Ownership.{held_by, left, Balanced-load_elf}
use towboot_rust.Elf.Symbols.{Binary, symbols}
use towboot_rust.Kernel.{
  MultibootAddresses, LoadedKernel, multiboot, elf, KernelFormats, kernel_length, copy_kernel,
  new_multiboot, finish_elf, new_elf, new_by, new,
}

-- A kernel owns the pages of its allocations.
abbrev pub kernel_owns : LoadedKernel → Ledger
kernel_owns kernel = owned kernel.allocations

module _ (k : KernelFormats) (t : Target) {S : Type 0} (f : PageServices S) (held : S → Ledger)
    (law : IsLawful f held) where
  Balanced-never :
      {A : Type 0} (x : Ledger) (o : Outcome ⊥ A) → Balanced held {E = Status} x (λ _. x) (never o)
  Balanced-never x o =
      Balanced-with_err held (λ _. x) (lift o)
        (Balanced-aside held x (lift o) (Balanced-lift held o))

  Balanced-copy_kernel :
      (a : Allocation) (region : List ℕ)
      → Balanced held (block a) (λ _. block a) (copy_kernel k t f a region)
  Balanced-copy_kernel a region =
      Balanced-aside held (block a) (copy_kernel k t f a region) (Balanced-silent held _ _)

  Balanced-new_multiboot :
      (kernel_vec : List ℕ) (addresses : MultibootAddresses) (header_start : ℕ)
      → Balanced held nothing kernel_owns (new_multiboot k t f kernel_vec addresses header_start)
  unfolding new_multiboot
  Balanced-new_multiboot kernel_vec addresses header_start =
      let size = kernel_length k t f addresses in
      let start = narrow t.usize_bits addresses.load_address in
      let load = subtract t 32 addresses.load_end_address addresses.load_address in
      let offset = k.compute_load_offset addresses header_start in
      let finished : Allocation → LoadedKernel =
        λ a. record { allocations = a ∷ []; addresses = multiboot addresses; symbols = none } in
      Balanced-bind held (λ _. nothing) (never offset) _ (Balanced-never nothing offset)
        (λ skipped.
          let region = λ (n : ℕ). take n (drop skipped kernel_vec) in
          Balanced-bind held (λ _. nothing) (never size) _ (Balanced-never nothing size)
            (λ bytes.
              Balanced-bind held (λ _. nothing) (never start) _ (Balanced-never nothing start)
                (λ address.
                  Balanced-bind held block (new_at f address bytes) _
                    (Balanced-new_at f held law address bytes)
                    (λ a.
                      Balanced-bind held (λ _. block a) (never load) _
                        (Balanced-never (block a) load)
                        (λ n.
                          Balanced-bind held (λ _. block a)
                            (with_err absurd (copy_kernel k t f a (region n))) _
                            (Balanced-with_err held (λ _. block a) (copy_kernel k t f a (region n))
                              (Balanced-copy_kernel a (region n)))
                            (λ _.
                              Balanced-conv held (kernel_owns (finished a)) (block a) kernel_owns
                                kernel_owns (pure (finished a)) (λ p n. omega arith) (λ _ p n. refl)
                                (Balanced-pure held (finished a) kernel_owns)))))))

  Balanced-finish_elf :
      (kernel_vec : List ℕ) (binary : Binary) (r : Result String (Unit {0}) × OurElfLoader)
      → Balanced held (left r) kernel_owns (finish_elf k t f kernel_vec binary r)
  Balanced-finish_elf kernel_vec binary (failed m, loader) =
      Balanced-bind held (λ _. nothing) (free_all f (into_allocations loader)) _
        (Balanced-free_all f held law (into_allocations loader))
        (λ _. Balanced-raise held load_error kernel_owns)
  Balanced-finish_elf kernel_vec binary (done _, loader) =
      let mine = held_by loader in
      let found = symbols k.symbol_services t binary kernel_vec in
      Balanced-bind held (λ _. mine) (never found) _ (Balanced-never mine found)
        (λ table.
          Balanced-bind held (λ _. mine) (never (entry_point t loader)) _
            (Balanced-never mine (entry_point t loader))
            (λ entry.
              Balanced-pure held
                (record {
                  allocations = into_allocations loader;
                  addresses = elf entry;
                  symbols = some table;
                })
                kernel_owns))

  Balanced-new_elf :
      (kernel_vec : List ℕ) → Balanced held nothing kernel_owns (new_elf k t f kernel_vec)
  unfolding new_elf Loader.new
  Balanced-new_elf kernel_vec =
      let parsed = map_err (k.parse_elf kernel_vec) (λ _. load_error) in
      let loading =
        λ (b : Binary). load_elf t f b.program_headers kernel_vec (Loader.new b.entry) in
      Balanced-bind held (λ _. nothing) (lift parsed) _ (Balanced-lift held parsed)
        (λ binary.
          Balanced-bind held left (with_err absurd (loading binary)) _
            (Balanced-with_err held left (loading binary) (
              Balanced-load_elf t f held law binary.program_headers kernel_vec
                (Loader.new binary.entry)))
            (Balanced-finish_elf kernel_vec binary))

  Balanced-new_by :
      (kernel_vec : List ℕ) (header_start : ℕ) (o : Option MultibootAddresses) (b : Bool)
      → Balanced held nothing kernel_owns (new_by k t f kernel_vec header_start o b)
  Balanced-new_by kernel_vec header_start (some a) false =
      Balanced-new_multiboot kernel_vec a header_start
  Balanced-new_by kernel_vec header_start (some a) true = Balanced-new_elf kernel_vec
  Balanced-new_by kernel_vec header_start none b = Balanced-new_elf kernel_vec

  -- With lawful memory services, loading a kernel, by its header or as ELF, adds exactly the
  -- blocks of the kernel's allocations to what is allocated; a kernel that cannot be loaded
  -- adds none. A panic is excepted.
  pub Balanced-new :
      (kernel_vec : List ℕ) (addresses : Option MultibootAddresses) (header_start : ℕ)
      (quirks : List Quirk)
      → Balanced held nothing kernel_owns (new k t f kernel_vec addresses header_start quirks)
  unfolding new
  Balanced-new kernel_vec addresses header_start quirks =
      Balanced-new_by kernel_vec header_start addresses (contains quirks force_elf)
