-- ===== src/Tests/Apart.antt =====
-- Memory services that give no page out twice, and a run of src/boot/mod.rs with them.
use mathlib.Core.Path.{subst}
use towboot_rust.Prelude.{
  ℕ, ◌+◌, ◌-◌, ◌*◌, ◌≤◌, ◌<◌, ◌≡◌, refl, Bool, true, false, ◌&&◌, ◌||◌, ◌==◌, ltb, leb,
  if◌then◌else◌, List, [], ◌∷◌, none, some, ok, Result, done, failed, arith,
}
use towboot_rust.Firmware.{Status, not_found, PageServices, AllocateType, max_address, address}
use towboot_rust.Firmware.Laws.{IsLawful}
use towboot_rust.Mem.Bytes.{within}
use towboot_rust.Mem.Allocation.Content.{KeepsApart}
use towboot_rust.Kernel.Image.{IsInOrder}
use towboot_rust.Prepare.{PreparedEntry, Services, Jump, prepare, boot}
use towboot_rust.Prepare.Image.{IsImage, boot-IsImage}
use towboot_rust.Prepare.Modules.{AreAvoided, AreGiven, boot-AreGiven}
use towboot_rust.Tests.File.{volume-LeavesPages}
use towboot_rust.Tests.Boot.{
  memory_information, card-ShowsOnly, services, information, addresses, formats, last_call, jump,
}
use towboot_rust.Tests.Main.{from_options}
use towboot_rust.Tests.Pages.{
  target, machine, Blocks, held, pages, record_block, pages-IsLawful, held-record_block,
  held-no_block,
}

-- The lowest address that is in use.
abbrev lowest : ℕ → Blocks → ℕ
lowest top [] = top
lowest top ((q, m) ∷ s) = let rest = lowest top s in if leb q rest then q else rest

abbrev candidate : AllocateType → ℕ → Blocks → ℕ
candidate (max_address top) n s = lowest (top + 1) s - n * 4096
candidate (address a) n s = a

abbrev suits : AllocateType → ℕ → ℕ → Bool
suits (max_address top) p n = leb (p + n * 4096) (top + 1)
suits (address a) p n = p == a && ltb a 2097152

abbrev is_apart : ℕ → ℕ → Blocks → Bool
is_apart p n [] = true
is_apart p n ((q, m) ∷ s) = (leb (p + n * 4096) q || leb (q + m * 4096) p) && is_apart p n s

abbrev grant_if : Bool → Bool → ℕ → Result Status ℕ
grant_if true true p = done p
grant_if _ _ p = failed not_found

abbrev grant : AllocateType → ℕ → Blocks → Result Status ℕ
grant ty n s = let p = candidate ty n s in grant_if (suits ty p n) (is_apart p n s) p

abbrev pub careful : PageServices Blocks
careful = record pages {
  allocate_pages = λ ty kind n s. (grant ty n s, record_block (grant ty n s) n s);
}

granted : (b c : Bool) (p x : ℕ) → grant_if b c p ≡ done x → (b ≡ true) × (c ≡ true) × (p ≡ x)
granted true true p x h = (refl, refl, ground (arith, h))
granted true false p x h = cc
granted false c p x h = cc

granted_below :
    (top n : ℕ) (s : Blocks) (x : ℕ) → grant (max_address top) n s ≡ done x → x + n * 4096 ≤ top + 1
granted_below top n s x h =
    let p = candidate (max_address top) n s in
    let (e, _, same) = granted (suits (max_address top) p n) (is_apart p n s) p x h in
    ground (arith, e, same)

pub careful-IsLawful : IsLawful careful held
careful-IsLawful = record {
  allocated = λ ty kind n s ptr e. held-record_block (grant ty n s) n s ptr e;
  not_allocated = λ ty kind n s x e. held-no_block (grant ty n s) n s x e;
  freed = pages-IsLawful.freed;
  below = λ top kind n s ptr e. granted_below top n s ptr e;
  at_address = λ a kind n s ptr e.
      let (_, _, same) = granted (suits (address a) a n) (is_apart a n s) a ptr e in
      ground (arith, same);
}

apart-fresh :
    (p n : ℕ) (s : Blocks) (q m j : ℕ)
    → is_apart p n s ≡ true
    → 0 < held s q m
    → within q (m * 4096) j ≡ true
    → within p (n * 4096) j ≡ false
apart-fresh p n [] q m j a h l = absurd (ground arith)
apart-fresh p n ((r, k) ∷ s) q m j a h l = ground (arith, a, h, l, apart-fresh p n s q m j)

pub careful-KeepsApart : KeepsApart careful held
careful-KeepsApart = record {
  fresh = λ ty kind n s ptr e.
      let p = candidate ty n s in
      let (_, a, same) = granted (suits ty p n) (is_apart p n s) p ptr e in
      λ q m j h l. apart-fresh ptr n s q m j (subst (λ x. is_apart x n s ≡ true) same a) h l;
}

abbrev careful_services : Services Blocks (Unit {0})
careful_services = record services { pages = careful }

-- As with the other services, but for the address of the module.
abbrev filled : PreparedEntry
filled = record from_options {
  multiboot_information = record information {
    modules = record { start = 4294959104; end = 4294959107; string = some "" } ∷ [];
  };
  modules_vec = record { ptr = 4294959104; len = 3; pages = 1; should_be_at = none } ∷ [];
}

filled_run : (prepare target careful_services filled.entry machine).0 ≡ ok filled
unfolding prepare towboot_rust.File.open_file towboot_rust.Prelude.narrow
    towboot_rust.File.try_into_vec towboot_rust.Kernel.new towboot_rust.Kernel.new_multiboot
    towboot_rust.Kernel.kernel_length towboot_rust.Prelude.subtract
    towboot_rust.Mem.Allocation.new_at towboot_rust.Mem.Allocation.dump_memory_map
    towboot_rust.Mem.Allocation.new_under_4gb towboot_rust.Mem.Allocation.calculate_page_count
    towboot_rust.Prelude.wrap towboot_rust.Prepare.with_kernel towboot_rust.Prepare.load_modules
    towboot_rust.File.try_into_allocation towboot_rust.Prepare.prepare_multiboot_information
    towboot_rust.Prepare.module_list towboot_rust.Video.Mode.setup_video
    towboot_rust.Video.Mode.prepare_framebuffer towboot_rust.Mem.Allocation.dropping
    towboot_rust.Video.Mode.wanted_resolution towboot_rust.Video.Mode.colors_of
    towboot_rust.Video.Mode.table_of
filled_run = refl

in_order : IsInOrder formats target careful addresses
in_order = record { text = omega arith; bss = λ h. omega arith }

abbrev filled_jump : Jump
filled_jump = record jump { information = some (filled.multiboot_information, memory_information) }

jump_run :
    (boot target last_call filled (prepare target careful_services filled.entry machine).1).0
    ≡ ok filled_jump
unfolding boot towboot_rust.Prelude.wrap towboot_rust.Mem.Map.prepare_information
    towboot_rust.Mem.Map.add_entries towboot_rust.Mem.Map.to_entry towboot_rust.Mem.Map.add_entry
    towboot_rust.Mem.Map.is_adjacent towboot_rust.Mem.Map.kernel_type towboot_rust.Prelude.narrow
    towboot_rust.Prepare.move_all towboot_rust.Mem.Move.move_to_where_it_should_be
    towboot_rust.Mem.Move.next_around towboot_rust.Mem.Move.is_around
jump_run = refl

boot-IsImage_example :
    IsImage target careful_services filled.entry addresses machine
      (boot target last_call filled (prepare target careful_services filled.entry machine).1).1
boot-IsImage_example =
    boot-IsImage target careful_services held careful-IsLawful careful-KeepsApart volume-LeavesPages
      card-ShowsOnly last_call filled.entry filled filled_jump addresses machine
      (prepare target careful_services filled.entry machine).1
      (boot target last_call filled (prepare target careful_services filled.entry machine).1).1
      (λ i. (filled_run i, (prepare target careful_services filled.entry machine).1))
      (λ i. (
        jump_run i,
        (boot target last_call filled (prepare target careful_services filled.entry machine).1).1,
      ))
      refl in_order

avoided : AreAvoided filled.loaded_kernel.allocations filled.modules_vec
avoided = (λ j l. (λ dst e. ground (arith, l, e), tt), tt)

boot-AreGiven_example :
    AreGiven target careful_services filled.modules_vec filled.entry.modules
      (boot target last_call filled
        (prepare target careful_services filled.entry machine).1).1.memory
boot-AreGiven_example =
    boot-AreGiven target careful_services held careful-IsLawful careful-KeepsApart
      volume-LeavesPages card-ShowsOnly last_call filled.entry filled filled_jump machine
      (prepare target careful_services filled.entry machine).1
      (boot target last_call filled (prepare target careful_services filled.entry machine).1).1
      (λ i. (filled_run i, (prepare target careful_services filled.entry machine).1))
      (λ i. (
        jump_run i,
        (boot target last_call filled (prepare target careful_services filled.entry machine).1).1,
      ))
      avoided
