-- ===== src/Prepare/Modules.antt =====
-- src/boot/mod.rs: the modules in memory at the jump. The code does not look whether a displaced
-- kernel is moved over a module, since the pages of both are available to the kernel.
use towboot_rust.Prelude.{
  ℕ, ◌+◌, ◌≡◌, ◌∙◌, refl, ap, true, false, Option, none, some, List, [], ◌∷◌, All, length, ok, done,
  Target, arith,
}
use towboot_rust.Firmware.{World}
use towboot_rust.Firmware.Laws.{Ledger, IsLawful}
use towboot_rust.Config.{Entry, Module}
use towboot_rust.Mem.Bytes.{Memory, within}
use towboot_rust.Mem.Allocation.{Allocation}
use towboot_rust.Mem.Allocation.Content.{KeepsApart, HasBytes, within_inside, get_elem?-lt}
use towboot_rust.File.{File, open_file}
use towboot_rust.File.Laws.{LeavesPages}
use towboot_rust.Prepare.{PreparedEntry, Services, LastCall, Jump, prepare, boot}
use towboot_rust.Prepare.Ownership.{ShowsOnly}
use towboot_rust.Prepare.Content.{AreLoaded}
use towboot_rust.Prepare.Filled.{prepare-IsFilled}
use towboot_rust.Prepare.Overlap.{Avoids}
use towboot_rust.Prepare.Boot.{moved_one, moved_memory, boot-IsReady}

moved_one-keeps :
    (k : Allocation) (o : Option ℕ) (m : Memory) (j : ℕ)
    → ((dst : ℕ) → o ≡ some dst → within dst k.len j ≡ false)
    → moved_one k o m j ≡ m j
moved_one-keeps k none m j h = refl
moved_one-keeps k (some dst) m j h = rw (h dst refl) refl

moved_memory-keeps :
    (kernel : List Allocation) (m : Memory) (j : ℕ)
    → Avoids kernel j
    → moved_memory kernel m j ≡ m j
moved_memory-keeps [] m j h = refl
moved_memory-keeps (k ∷ rest) m j (h, hs) =
    moved_memory-keeps rest (moved_one k k.should_be_at m) j hs
    ∙ moved_one-keeps k k.should_be_at m j h

-- No allocation of the kernel is to be moved over a module.
abbrev pub AreAvoided : List Allocation → List Allocation → Type 0
AreAvoided kernel modules =
    All (λ (a : Allocation). (j : ℕ) → within a.ptr a.len j ≡ true → Avoids kernel j) modules

module _ (t : Target) {S H : Type 0} (v : Services S H) where
  -- A module that was opened by its name and read, and is in memory at the allocation.
  pub record IsGiven (m : Module) (a : Allocation) (memory : Memory) : Type 0 where
    pub file : File H
    pub before : World S
    pub after : World S
    pub opened : open_file v.files t m.image before ≡ (ok file, after)
    pub room : ℕ
    pub state : S
    pub bytes : List ℕ
    pub given : (v.files.read file.file room state).0 ≡ done bytes
    pub whole : length bytes ≡ file.size
    pub len : a.len ≡ file.size
    pub has : HasBytes memory a.ptr bytes

  abbrev pub AreGiven : List Allocation → List Module → Memory → Type 0
  AreGiven [] [] memory = Unit
  AreGiven (a ∷ as_) (m ∷ ms) memory = IsGiven m a memory × AreGiven as_ ms memory
  AreGiven _ _ memory = ⊥

  module _ (held : S → Ledger) (law : IsLawful v.pages held) (apart : KeepsApart v.pages held)
      (leaves : LeavesPages v.files held) (shows : ShowsOnly v.graphics held) where
    AreLoaded-AreGiven :
        (as_ : List Allocation) (ms : List Module) (w : World S) (memory : Memory)
        → All
            (λ (a : Allocation). (j : ℕ) → within a.ptr a.len j ≡ true → memory j ≡ w.memory j)
            as_
        → AreLoaded t v held law apart leaves shows as_ ms w
        → AreGiven as_ ms memory
    AreLoaded-AreGiven [] [] w memory same l = tt
    AreLoaded-AreGiven [] (m ∷ ms) w memory same l = absurd l
    AreLoaded-AreGiven (a ∷ as_) [] w memory same l = absurd l
    AreLoaded-AreGiven (a ∷ as_) (m ∷ ms) w memory (same, sames) (l, ls) = (
      record {
        file = l.file;
        before = l.before;
        after = l.after;
        opened = l.opened;
        room = l.read.room;
        state = l.read.state;
        bytes = l.read.bytes;
        given = l.read.given;
        whole = l.read.whole;
        len = l.read.len;
        has = λ i b e.
            let inside = get_elem?-lt l.read.bytes i b e in
            same (a.ptr + i)
              (within_inside a.ptr a.len i (omega (arith, inside, l.read.len, l.read.whole)))
            ∙ l.read.has i b e;
      },
      AreLoaded-AreGiven as_ ms w memory sames ls,
    )

    -- With lawful memory services that give no page out twice, and that the volume and the
    -- graphics output leave alone: when an entry is prepared and `boot` comes to the jump,
    -- and no displaced allocation of the kernel is to be moved over a module, then every
    -- module of the entry, in order, was opened by its name, a read of it gave as many bytes
    -- as the file has, and these are in memory at the module's allocation, which has their
    -- length.
    pub boot-AreGiven :
        (c : LastCall S) (entry : Entry) (prepared : PreparedEntry) (jump : Jump)
        (w w' w'' : World S)
        → prepare t v entry w ≡ (ok prepared, w')
        → boot t c prepared w' ≡ (ok jump, w'')
        → AreAvoided prepared.loaded_kernel.allocations prepared.modules_vec
        → AreGiven prepared.modules_vec entry.modules w''.memory
    boot-AreGiven c entry prepared jump w w' w'' h jumped avoided =
        AreLoaded-AreGiven prepared.modules_vec entry.modules w' w''.memory
          (kept prepared.modules_vec avoided)
          (prepare-IsFilled t v held law apart leaves shows entry prepared w w' h).modules
      where
        kept :
            (as_ : List Allocation)
            → AreAvoided prepared.loaded_kernel.allocations as_
            → All
                (λ (a : Allocation).
                  (j : ℕ) → within a.ptr a.len j ≡ true → w''.memory j ≡ w'.memory j)
                as_
        kept [] avoids = tt
        kept (a ∷ as_) (avoids, rest) = (
          λ j l.
              ap (λ (m : Memory). m j) (boot-IsReady t c prepared jump w' w'' jumped).memory
              ∙ moved_memory-keeps prepared.loaded_kernel.allocations w'.memory j (avoids j l),
          kept as_ rest,
        )
