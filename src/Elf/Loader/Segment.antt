-- ===== src/Elf/Loader/Segment.antt =====
-- src/boot/elf.rs: what a segment that is loaded leaves in memory and in the loader.
use mathlib.Core.Path.{ap₂}
use towboot_rust.Prelude.{
  ℕ, ◌*◌, ◌≤◌, ◌≡◌, refl, sym, ap, ◌∙◌, true, Option, none, some, List, leb, ◌==◌, Outcome, ok, err,
  panic, narrow, narrow-eq-ok, Target, assert, Result, done, failed, String, length, unwrap,
  unwrap-eq-ok, arith, ==_iff,
}
use towboot_rust.Prelude.OrderedMap.{lookup, insert, replaced, lookup-insert}
use towboot_rust.Firmware.{Status, World, PageServices}
use towboot_rust.Firmware.Exec.{
  lift, attempt, settle, >>=-eq-ok, continue-eq-ok, memory-eq, outcome-eq,
}
use towboot_rust.Mem.Map.{page_size}
use towboot_rust.Mem.Allocation.{Allocation, new_at}
use towboot_rust.Mem.Allocation.Memory.{free-Keeps, new_at-Keeps}
use towboot_rust.Mem.Bytes.{fill, write, slice?}
use towboot_rust.Elf.Loader.{
  ProgramHeader, OurElfLoader, free_replaced, clear, allocated, allocate, copy_region, load,
  load_range, load_segment, pt_load, find_entry,
}

module _ (t : Target) {S : Type 0} (f : PageServices S) where
  -- What `allocate` does when it succeeds.
  pub record IsAllocated (header : ProgramHeader) (l l' : OurElfLoader) (w w' : World S)
      : Type 0 where
    pub segment : Allocation
    pub recorded : l'.allocations ≡ insert header.p_vaddr segment l.allocations
    pub same_entry : l'.virtual_entry_point ≡ l.virtual_entry_point
    pub entry : find_entry t header l ≡ ok l'.physical_entry_point
    pub granted : (new_at f header.p_paddr header.p_memsz w).0 ≡ ok segment
    pub cleared : w'.memory ≡ fill segment.ptr (segment.pages * page_size) 0 w.memory

  free_replaced-Keeps :
      (o : Option Allocation) (w : World S) → (free_replaced t f o w).1.memory ≡ w.memory
  free_replaced-Keeps none w = refl
  free_replaced-Keeps (some a) w = free-Keeps f ⊥ a w

  settle-eq-done :
      (o : Outcome Status Allocation) (a : Allocation) → settle {E = ⊥} o ≡ ok (done a) → o ≡ ok a
  settle-eq-done (ok b) a h = ground arith
  settle-eq-done (err e) a h = ground arith
  settle-eq-done (panic m) a h = ground arith

  allocated-lem :
      (header : ProgramHeader) (l l' : OurElfLoader) (r : Result Status Allocation) (w w' : World S)
      → allocated t f header l r w ≡ (ok (done tt, l'), w')
      → (a : Allocation) × (r ≡ done a)
        × (l'.allocations ≡ insert header.p_vaddr a l.allocations)
        × (l'.virtual_entry_point ≡ l.virtual_entry_point)
        × (find_entry t header l ≡ ok l'.physical_entry_point)
        × (w'.memory ≡ fill a.ptr (a.pages * page_size) 0 w.memory)
  allocated-lem header l l' (failed e) w w' h =
      cc (ap (λ (r : Outcome ⊥ (Result String (Unit {0}) × OurElfLoader) × World S). r.0) h)
  allocated-lem header l l' (done a) w w' h =
      let (_, w1, e1, h1) = >>=-eq-ok (clear t f a) _ w h in
      let (_, w2, e2, h2) =
        >>=-eq-ok (free_replaced t f (replaced header.p_vaddr l.allocations)) _ w1 h1 in
      let (entry, w3, e3, h3) = >>=-eq-ok (lift (find_entry t header l)) _ w2 h2 in
      let m1 = memory-eq e1 in
      let m2 = memory-eq e2 in
      let m3 = memory-eq e3 in
      let m4 = memory-eq h3 in
      let found = outcome-eq e3 in
      let final = outcome-eq h3 in
      (
        a,
        refl,
        ground (arith, final),
        ground (arith, final),
        found ∙ ground (arith, final),
        sym m4
            ∙ sym m3
            ∙ sym m2
            ∙ free_replaced-Keeps (replaced header.p_vaddr l.allocations) w1
            ∙ sym m1,
      )

  pub allocate-IsAllocated :
      (header : ProgramHeader) (l l' : OurElfLoader) (w w' : World S)
      → allocate t f header l w ≡ (ok (done tt, l'), w')
      → IsAllocated header l l' w w'
  unfolding allocate
  allocate-IsAllocated header l l' w w' h =
      let (addr, e1, h1) = continue-eq-ok (narrow t.usize_bits header.p_paddr) _ w h in
      let (size, e2, h2) = continue-eq-ok (narrow t.usize_bits header.p_memsz) _ w h1 in
      let (r, w3, e3, h3) = >>=-eq-ok (attempt (new_at f addr size)) _ w h2 in
      let (a, done_a, recorded, same, entry, cleared) = allocated-lem header l l' r w3 w' h3 in
      let addr_eq = (narrow-eq-ok t.usize_bits header.p_paddr addr e1).0 in
      let size_eq = (narrow-eq-ok t.usize_bits header.p_memsz size e2).0 in
      record {
        segment = a;
        recorded = recorded;
        same_entry = same;
        entry = entry;
        granted =
            ap₂ (λ n m. (new_at f n m w).0) (sym addr_eq) (sym size_eq)
            ∙ settle-eq-done (new_at f addr size w).0 a (outcome-eq e3 ∙ ap ok done_a);
        cleared =
            cleared
            ∙ ap (fill a.ptr (a.pages * page_size) 0)
                (sym (memory-eq e3) ∙ new_at-Keeps f addr size w);
      }

  -- What `load_segment` does with a segment to be loaded, when it succeeds: the part of the file that
  -- the header names is written over the cleared pages of a new allocation, which has room for it
  -- and is recorded under the segment's virtual address.
  pub record IsLoaded (header : ProgramHeader) (bytes : List ℕ) (l l' : OurElfLoader)
      (w w' : World S) : Type 0 where
    pub segment : Allocation
    pub region : List ℕ
    pub recorded : l'.allocations ≡ insert header.p_vaddr segment l.allocations
    pub same_entry : l'.virtual_entry_point ≡ l.virtual_entry_point
    pub entry : find_entry t header l ≡ ok l'.physical_entry_point
    pub granted : (new_at f header.p_paddr header.p_memsz w).0 ≡ ok segment
    pub sliced : slice? bytes header.file_start header.file_end ≡ some region
    pub room : length region ≤ segment.len
    pub written :
        w'.memory
        ≡ write segment.ptr region (fill segment.ptr (segment.pages * page_size) 0 w.memory)

  load_range-lem :
      (header : ProgramHeader) (bytes : List ℕ) (a : Allocation) (l l' : OurElfLoader)
      (w w' : World S)
      → lookup header.p_vaddr l.allocations ≡ some a
      → load_range t f header bytes (done tt, l) w ≡ (ok (done tt, l'), w')
      → (region : List ℕ) × (l' ≡ l)
        × (slice? bytes header.file_start header.file_end ≡ some region)
        × (length region ≤ a.len)
        × (w'.memory ≡ write a.ptr region w.memory)
  unfolding load
  load_range-lem header bytes a l l' w w' found h =
      let (region, e1, h1) =
        continue-eq-ok
          (unwrap (slice? bytes header.file_start header.file_end) "range out of bounds") _ w h in
      let (b, e2, h2) =
        continue-eq-ok (unwrap (lookup header.p_vaddr l.allocations) "we didn't allocate the base")
          _ w h1 in
      let (_, e3, h3) =
        continue-eq-ok
          (assert (leb (length region) b.len) "it doesn't fit into the memory allocated for it") _ w
          h2 in
      let (_, w4, e4, h4) = >>=-eq-ok (copy_region t f b region) _ w h3 in
      let same : b ≡ a = ground (
        arith,
        found,
        unwrap-eq-ok (lookup header.p_vaddr l.allocations) "we didn't allocate the base" b e2,
      ) in
      let final = outcome-eq h4 in
      (
        region,
        ground (arith, final),
        unwrap-eq-ok (slice? bytes header.file_start header.file_end) "range out of bounds" region
            e1,
        ground (arith, e3, same),
        sym (memory-eq h4)
            ∙ sym (memory-eq e4)
            ∙ ap (λ (c : Allocation). write c.ptr region w.memory) same,
      )

  loaded :
      (header : ProgramHeader) (bytes : List ℕ) (l l' : OurElfLoader) (w w1 w' : World S)
      (r : Result String (Unit {0}) × OurElfLoader)
      → allocate t f header l w ≡ (ok r, w1)
      → load_range t f header bytes r w1 ≡ (ok (done tt, l'), w')
      → IsLoaded header bytes l l' w w'
  loaded header bytes l l' w w1 w' (failed m, mid) e h = let e' = outcome-eq h in ground (arith, e')
  loaded header bytes l l' w w1 w' (done _, mid) e h =
      let a = allocate-IsAllocated header l mid w w1 e in
      let found : lookup header.p_vaddr mid.allocations ≡ some a.segment =
        ap (lookup header.p_vaddr) a.recorded
        ∙ ground (arith, lookup-insert header.p_vaddr header.p_vaddr a.segment l.allocations) in
      let (region, same, sliced, room, written) =
        load_range-lem header bytes a.segment mid l' w1 w' found h in
      record {
        segment = a.segment;
        region = region;
        recorded = ap (λ (k : OurElfLoader). k.allocations) same ∙ a.recorded;
        same_entry = ap (λ (k : OurElfLoader). k.virtual_entry_point) same ∙ a.same_entry;
        entry = a.entry ∙ ap (λ (k : OurElfLoader). ok k.physical_entry_point) (sym same);
        granted = a.granted;
        sliced = sliced;
        room = room;
        written = written ∙ ap (write a.segment.ptr region) a.cleared;
      }

  -- When `load_segment` succeeds on a segment of type PT_LOAD, the part of the file that the
  -- header names, which fits the segment, is written over the cleared pages of the allocation
  -- that `new_at` granted; that is recorded under the virtual address; the virtual entry point
  -- is kept and the physical one is what `find_entry` gives.
  pub load_segment-IsLoaded :
      (header : ProgramHeader) (bytes : List ℕ) (l l' : OurElfLoader) (w w' : World S)
      → header.p_type ≡ pt_load
      → load_segment t f header bytes l w ≡ (ok (done tt, l'), w')
      → IsLoaded header bytes l l' w w'
  unfolding load_segment
  load_segment-IsLoaded header bytes l l' w w' loadable h =
      let test : (header.p_type == pt_load) ≡ true = (==_iff header.p_type pt_load).1 loadable in
      let (r, w1, e1, h1) =
        >>=-eq-ok (allocate t f header l) (load_range t f header bytes) w (rw test at h) in
      loaded header bytes l l' w w1 w' r e1 h1
