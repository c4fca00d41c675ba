-- ===== src/Prepare/Image.antt =====
-- src/boot/mod.rs: the kernel in memory at the jump, from the volume on.
use mathlib.Core.Path.{subst}
use towboot_rust.Prelude.{
  ℕ, zero, suc, ◌+◌, ◌-◌, ◌*◌, ◌≤◌, ◌<◌, ◌≡◌, refl, sym, ap, ◌∙◌, ◌⊎◌, inl, inr, false, none, some,
  List, [], ◌∷◌, length, take, drop, get_elem?, ok, Target, arith,
}
use towboot_rust.Firmware.{PageServices, World}
use towboot_rust.Firmware.Laws.{Ledger, IsLawful}
use towboot_rust.Config.{Entry}
use towboot_rust.Mem.Bytes.{Memory, within, write, fill}
use towboot_rust.Mem.Allocation.{Allocation, new_at}
use towboot_rust.Mem.Allocation.Size.{new_at-cases}
use towboot_rust.Mem.Allocation.Content.{KeepsApart, within_inside}
use towboot_rust.File.{File, open_file, try_into_vec}
use towboot_rust.File.Laws.{LeavesPages}
use towboot_rust.Kernel.{MultibootAddresses, multiboot}
use towboot_rust.Kernel.Choice.{new-by_header}
use towboot_rust.Kernel.Image.{IsInOrder, memory_end, new_multiboot-IsPlaced}
use towboot_rust.Prepare.{Header, PreparedEntry, Services, LastCall, Jump, prepare, boot}
use towboot_rust.Prepare.Ownership.{ShowsOnly}
use towboot_rust.Prepare.Filled.{AreKept, prepare-IsFilled}
use towboot_rust.Prepare.Boot.{moved_one, moved_memory, boot-IsReady}

-- A byte of a list, with zeros behind its end.
abbrev pub byte_at : List ℕ → ℕ → ℕ
byte_at [] i = 0
byte_at (x ∷ xs) zero = x
byte_at (x ∷ xs) (suc i) = byte_at xs i

-- Memory from the address on, as many bytes as are asked for, is the list and zeros behind it.
abbrev pub HasImage : Memory → ℕ → ℕ → List ℕ → Type 0
HasImage m ptr n image = (i : ℕ) → i < n → m (ptr + i) ≡ byte_at image i

byte_at-take : (n : ℕ) (xs : List ℕ) (i : ℕ) → i < n → byte_at (take n xs) i ≡ byte_at xs i
byte_at-take zero xs i h = absurd (omega arith)
byte_at-take (suc n) [] i h = refl
byte_at-take (suc n) (x ∷ xs) zero h = refl
byte_at-take (suc n) (x ∷ xs) (suc i) h = byte_at-take n xs i (omega arith)

elem-cases :
    (xs : List ℕ) (i : ℕ)
    → ((i < length xs) × (get_elem? xs i ≡ some (byte_at xs i)))
      ⊎ ((length xs ≤ i) × (byte_at xs i ≡ 0))
elem-cases [] i = inr (omega arith, refl)
elem-cases (x ∷ xs) zero = inl (omega arith, refl)
elem-cases (x ∷ xs) (suc i) = elim (elem-cases xs i) [
  | inl (l, e) ↦ inl (omega (arith, l), e)
  | inr (l, e) ↦ inr (omega (arith, l), e)
]

within_outside : (ptr n i : ℕ) → n ≤ i → within ptr n (ptr + i) ≡ false
within_outside ptr n i h = ground (arith, h)

-- The bytes of a list, written over zeros.
written_at :
    (ptr n i : ℕ) (xs : List ℕ) (m : Memory)
    → i < n
    → write ptr xs (fill ptr n 0 m) (ptr + i) ≡ byte_at xs i
written_at ptr n i xs m h =
    let index : ptr + i - ptr ≡ i = omega arith in
    elim (elem-cases xs i) [
      | inl (l, e) ↦ rw (within_inside ptr (length xs) i l, index, e) refl
      | inr (l, e) ↦ rw (within_outside ptr (length xs) i l, within_inside ptr n i h, e) refl
    ]

moved-HasImage :
    (a : Allocation) (address n : ℕ) (m : Memory) (image : List ℕ)
    → n ≤ a.len
    → ((a.ptr ≡ address) × (a.should_be_at ≡ none)) ⊎ (a.should_be_at ≡ some address)
    → HasImage m a.ptr n image
    → HasImage (moved_one a a.should_be_at m) address n image
moved-HasImage a address n m image fits (inl (at, e)) h i l = rw (e, ← at) (h i l)
moved-HasImage a address n m image fits (inr e) h i l =
    let index : a.ptr + (address + i - address) ≡ a.ptr + i = omega arith in
    rw (e, within_inside address a.len i (omega arith), index) (h i l)

-- The kernel file and its header, and what is in memory at the jump.
pub record IsImage (t : Target) {S H : Type 0} (v : Services S H) (entry : Entry)
    (a : MultibootAddresses) (w w' : World S) : Type 0 where
  pub found : World S
  pub file : File H
  pub kernel_vec : List ℕ
  pub header : Header
  pub opened : open_file v.files t entry.image w ≡ (ok file, found)
  pub read : (try_into_vec v.files file found).0 ≡ ok kernel_vec
  pub parsed : v.parse_header kernel_vec ≡ some header
  pub by_header : header.addresses ≡ some a
  pub load_offset : ℕ
  pub skipped : v.formats.compute_load_offset a header.header_start ≡ ok load_offset
  pub image :
      HasImage w'.memory a.load_address
        (memory_end v.formats t v.pages a - a.load_address)
        (take (a.load_end_address - a.load_address) (drop load_offset kernel_vec))

-- Where `new_at` put the allocation, for a move.
granted_at :
    {S : Type 0} (v : PageServices S) (held : S → Ledger) (law : IsLawful v held) (address n : ℕ)
    (w : World S) (a : Allocation)
    → (new_at v address n w).0 ≡ ok a
    → (n ≤ a.len)
      × (n ≤ a.pages * 4096)
      × (((a.ptr ≡ address) × (a.should_be_at ≡ none)) ⊎ (a.should_be_at ≡ some address))
granted_at v held law address n w a h = elim (new_at-cases v held law address n w a h) [
  | inl (at, l, room, e) ↦ (omega (arith, l), room, inl (at, e))
  | inr (below, e) ↦ (omega (arith, below.same_len), below.room, inr e)
]

module _ (t : Target) {S H : Type 0} (v : Services S H) (held : S → Ledger)
    (law : IsLawful v.pages held) (apart : KeepsApart v.pages held)
    (leaves : LeavesPages v.files held) (shows : ShowsOnly v.graphics held) where
  -- With lawful memory services that give no page out twice, and that the volume and the
  -- graphics output leave alone: when an entry is prepared and `boot` comes to the jump, and
  -- the kernel was loaded by its addresses, which are in order, then the kernel's file was
  -- opened by its name, a read of it gave a vector, in which a header with these addresses was
  -- found, and from the load address on, up to the end of the BSS, memory holds the part of the
  -- vector that the header names, and zeros behind it. This holds also where the firmware could
  -- not give the load address and the kernel was moved.
  pub boot-IsImage :
      (c : LastCall S) (entry : Entry) (prepared : PreparedEntry) (jump : Jump)
      (a : MultibootAddresses) (w w' w'' : World S)
      → prepare t v entry w ≡ (ok prepared, w')
      → boot t c prepared w' ≡ (ok jump, w'')
      → prepared.loaded_kernel.addresses ≡ multiboot a
      → IsInOrder v.formats t v.pages a
      → IsImage t v entry a w w''
  boot-IsImage c entry prepared jump a w w' w'' h jumped e order =
      let i = prepare-IsFilled t v held law apart leaves shows entry prepared w w' h in
      let (by_header, made) =
        new-by_header v.formats t v.pages i.kernel_vec i.header.addresses i.header.header_start
          entry.quirks a prepared.loaded_kernel i.before i.loaded i.kernel e in
      let (load_offset, skipped, placed) =
        new_multiboot-IsPlaced v.formats t v.pages i.kernel_vec a i.header.header_start
          prepared.loaded_kernel i.before i.loaded order made in
      let place = placed.place in
      let size = memory_end v.formats t v.pages a - a.load_address in
      let region = take (a.load_end_address - a.load_address) (drop load_offset i.kernel_vec) in
      let (fits, room, at) =
        granted_at v.pages held law a.load_address size i.before place placed.granted in
      let (kept, _) =
        subst (λ as_. AreKept t v held law apart leaves shows as_ i.loaded w') placed.only
          i.kernel_kept in
      let there : HasImage w'.memory place.ptr size region = λ j l.
        kept (place.ptr + j)
          (within_inside place.ptr (place.pages * 4096) j (omega (arith, l, room)))
        ∙ ap (λ (m : Memory). m (place.ptr + j)) placed.copied
        ∙ written_at place.ptr (place.pages * 4096) j (take (place.pages * 4096) region)
            i.before.memory (omega (arith, l, room))
        ∙ byte_at-take (place.pages * 4096) region j (omega (arith, l, room)) in
      let moved =
        (boot-IsReady t c prepared jump w' w'' jumped).memory
        ∙ ap (λ as_. moved_memory as_ w'.memory) placed.only in
      record {
        found = i.found;
        file = i.file;
        kernel_vec = i.kernel_vec;
        header = i.header;
        opened = i.opened;
        read = i.read;
        parsed = i.parsed;
        by_header = by_header;
        load_offset = load_offset;
        skipped = skipped;
        image =
            subst (λ (m : Memory). HasImage m a.load_address size region) (sym moved)
              (moved-HasImage place a.load_address size w'.memory region fits at there);
      }
