-- ===== src/File/Laws.antt =====
-- src/file.rs: what reading a file gives and what it leaves behind.
use mathlib.Core.Path.{ap₂}
use towboot_rust.Prelude.{
  expect, Outcome, ℕ, ◌*◌, ◌≡◌, sym, ◌∙◌, true, false, List, [], ◌∷◌, length, ◌==◌, String,
  if◌then◌else◌, ok, err, done, failed, map_err, narrow, Target, wrap, arith, ◌⊎◌,
}
use towboot_rust.Firmware.{
  Status, end_of_file, protocol_error, World, PageServices, not_found, unsupported,
}
use towboot_rust.Firmware.Exec.{Exec, lift, call, >>=-eq-ok, continue-eq-ok, memory-eq, outcome-eq}
use towboot_rust.Firmware.Laws.{Ledger, IsLawful}
use towboot_rust.Config.{Quirk}
use towboot_rust.Mem.Map.{page_size}
use towboot_rust.Mem.Bytes.{write}
use towboot_rust.Mem.Allocation.{Allocation, new_under_4gb, dropping}
use towboot_rust.Mem.Allocation.Memory.{dropping-eq-ok, new_under_4gb-Keeps}
use towboot_rust.Mem.Allocation.Ledger.{
  block, owned, nothing, both, Balanced, Balanced-pure, Balanced-lift, Balanced-bind, Balanced-conv,
  Balanced-look, Balanced-call,
}
use towboot_rust.Mem.Allocation.Balance.{Balanced-new_under_4gb, Balanced-dropping}
use towboot_rust.File.{
  FileServices, File, FileType, try_into_vec, directory, as_regular, needed, size_of, open_file,
  into_memory, read_into, try_into_allocation,
}

-- Reading a file does not touch the firmware's pages.
pub record LeavesPages {S H : Type 0} (v : FileServices S H) (held : S → Ledger) : Type 0 where
  pub open_path : (name : String) (s : S) (p n : ℕ) → held (v.open_path name s).1 p n ≡ held s p n
  pub read : (h : H) (room : ℕ) (s : S) (p n : ℕ) → held (v.read h room s).1 p n ≡ held s p n

module _ {S H : Type 0} (v : FileServices S H) (f : PageServices S) (held : S → Ledger)
    (law : IsLawful f held) (leaves : LeavesPages v held) where
  Balanced-into_memory :
      (ptr : ℕ) (bytes : List ℕ) → Balanced held nothing (λ _. nothing) (into_memory v ptr bytes)
  Balanced-into_memory ptr bytes = record { at = λ base w h. h }

  Balanced-read_into :
      (t : Target) (self : File H) (a : Allocation)
      → Balanced held nothing (λ _. nothing) (read_into v t self a)
  Balanced-read_into t self a =
      Balanced-bind held (λ _. nothing) (lift (wrap t t.usize_bits (a.pages * page_size))) _
        (Balanced-lift held (wrap t t.usize_bits (a.pages * page_size)))
        (λ room.
          Balanced-bind held (λ _. nothing) (call (v.read self.file room)) _
            (Balanced-call held (v.read self.file room) (leaves.read self.file room))
            (λ r.
              Balanced-bind held (λ _. nothing) (lift (map_err r (λ (e : Status). e))) _
                (Balanced-lift held (map_err r (λ e. e)))
                (λ bytes.
                  Balanced-bind held (λ _. nothing) (into_memory v a.ptr bytes) _
                    (Balanced-into_memory a.ptr bytes)
                    (λ _.
                      Balanced-lift held
                        (if length bytes == self.size then ok tt else err end_of_file)))))

  -- With lawful memory services that the file protocol leaves alone, `try_into_allocation` adds
  -- exactly the block of its result to what is allocated; if the firmware has no pages, cannot
  -- read or reads too little, it adds none. A panic is excepted.
  pub Balanced-try_into_allocation :
      (t : Target) (self : File H) (quirks : List Quirk)
      → Balanced held nothing block (try_into_allocation v f t self quirks)
  unfolding try_into_allocation
  Balanced-try_into_allocation t self quirks =
      Balanced-bind held block (new_under_4gb f self.size quirks) _
        (Balanced-new_under_4gb f held law self.size quirks)
        (λ a.
          Balanced-bind held (λ _. block a) (dropping f (a ∷ []) (read_into v t self a)) _
            (Balanced-conv held (both nothing (owned (a ∷ []))) (block a)
              (λ _. both nothing (owned (a ∷ []))) (λ _. block a)
              (dropping f (a ∷ []) (read_into v t self a)) (λ p n. omega arith)
              (λ _ p n. omega arith)
              (Balanced-dropping f held law (a ∷ []) (λ _. nothing) (read_into v t self a)
                (Balanced-read_into t self a)))
            (λ _. Balanced-pure held a block))

module _ {S H : Type 0} (v : FileServices S H) (held : S → Ledger)
    (leaves : LeavesPages v held) where
  pub Balanced-open_file :
      (t : Target) (name : String) → Balanced held nothing (λ _. nothing) (open_file v t name)
  unfolding open_file
  Balanced-open_file t name =
      let valid = if v.is_valid_name name then ok tt else err protocol_error in
      Balanced-bind held (λ _. nothing) (lift valid) _ (Balanced-lift held valid)
        (λ _.
          Balanced-bind held (λ _. nothing) (call (v.open_path name)) _
            (Balanced-call held (v.open_path name) (leaves.open_path name))
            (λ opened.
              Balanced-bind held (λ _. nothing) (lift (map_err opened (λ _. not_found))) _
                (Balanced-lift held (map_err opened (λ _. not_found)))
                (λ handle.
                  Balanced-bind held (λ _. nothing) (look (kind_of handle)) _
                    (Balanced-look held (kind_of handle))
                    (λ kind.
                      Balanced-bind held (λ _. nothing) (lift (as_regular v kind)) _
                        (Balanced-lift held (as_regular v kind))
                        (λ file.
                          Balanced-bind held (λ _. nothing) (look (info_size_of file)) _
                            (Balanced-look held (info_size_of file))
                            (λ info_size.
                              Balanced-bind held (λ _. nothing) (look (bytes_of file info_size)) _
                                (Balanced-look held (bytes_of file info_size))
                                (λ bytes.
                                  Balanced-bind held (λ _. nothing)
                                    (lift (narrow t.usize_bits bytes)) _
                                    (Balanced-lift held (narrow t.usize_bits bytes))
                                    (λ size.
                                      Balanced-pure held
                                        (record { name = name; file = file; size = size })
                                        (λ _. nothing)))))))))
    where
      look : {A : Type 0} → (World S → Outcome Status A) → Exec S Status A
      look g w = (g w, w)

      kind_of : H → World S → Outcome Status (FileType H)
      kind_of handle w = expect (v.into_type handle w.firmware) "Failed to open file"

      info_size_of : H → World S → Outcome Status ℕ
      info_size_of file w = needed v (v.get_info file 0 w.firmware)

      bytes_of : H → ℕ → World S → Outcome Status ℕ
      bytes_of file info_size w = size_of v (v.get_info file info_size w.firmware)

  pub Balanced-try_into_vec :
      (self : File H) → Balanced held nothing (λ _. nothing) (try_into_vec v self)
  unfolding try_into_vec
  Balanced-try_into_vec self =
      Balanced-bind held (λ _. nothing) (call (v.read self.file self.size)) _
        (Balanced-call held (v.read self.file self.size) (leaves.read self.file self.size))
        (λ r.
          Balanced-bind held (λ _. nothing) (lift (map_err r (λ (e : Status). e))) _
            (Balanced-lift held (map_err r (λ e. e)))
            (λ bytes.
              Balanced-lift held (if length bytes == self.size then ok bytes else err end_of_file)))

module _ {S H : Type 0} (v : FileServices S H) where
  -- An error of `open_file` is PROTOCOL_ERROR for a name that is not valid, NOT_FOUND for one
  -- that the volume does not open, or UNSUPPORTED for a directory.
  pub open_file-errors :
      (t : Target) (name : String) (w : World S) (e : Status)
      → (open_file v t name w).0 ≡ err e
      → ((e ≡ protocol_error) × (v.is_valid_name name ≡ false))
        ⊎ ((e ≡ not_found)
            × (v.is_valid_name name ≡ true)
            × ((x : Status) × ((v.open_path name w.firmware).0 ≡ failed x)))
        ⊎ ((e ≡ unsupported)
            × (v.is_valid_name name ≡ true)
            × ((h : H) × ((v.open_path name w.firmware).0 ≡ done h)
                × (v.into_type h (v.open_path name w.firmware).1 ≡ done directory)))
  unfolding open_file narrow
  open_file-errors t name w e h = ground arith

  read_into-ok :
      (t : Target) (self : File H) (a : Allocation) (w w' : World S)
      → read_into v t self a w ≡ (ok tt, w')
      → (room : ℕ) × (bytes : List ℕ) × ((v.read self.file room w.firmware).0 ≡ done bytes)
        × (length bytes ≡ self.size)
        × (w'.memory ≡ write a.ptr bytes w.memory)
  read_into-ok t self a w w' h =
      let (room, e1, h1) = continue-eq-ok (wrap t t.usize_bits (a.pages * page_size)) _ w h in
      let r = (v.read self.file room w.firmware).0 in
      let (bytes, e2, h2) =
        continue-eq-ok (map_err r (λ (e : Status). e)) _
          (record w { firmware = (v.read self.file room w.firmware).1 }) h1 in
      let o = outcome-eq h2 in
      (room, bytes, ground (arith, e2), ground (arith, o), sym (memory-eq h2))

  -- When `try_into_allocation` succeeds, a read of the file gave as many bytes as the file has,
  -- they are in memory from the allocation's address on, and nothing else is written.
  pub try_into_allocation-ok :
      (f : PageServices S) (t : Target) (self : File H) (quirks : List Quirk) (a : Allocation)
      (w w' : World S)
      → try_into_allocation v f t self quirks w ≡ (ok a, w')
      → (room : ℕ) × (s : S) × (bytes : List ℕ) × ((v.read self.file room s).0 ≡ done bytes)
        × (length bytes ≡ self.size)
        × (w'.memory ≡ write a.ptr bytes w.memory)
  unfolding try_into_allocation
  try_into_allocation-ok f t self quirks a w w' h =
      let (b, w1, e1, h1) = >>=-eq-ok (new_under_4gb f self.size quirks) _ w h in
      let (_, w2, e2, h2) = >>=-eq-ok (dropping f (b ∷ []) (read_into v t self b)) _ w1 h1 in
      let (room, bytes, read, size, written) =
        read_into-ok t self b w1 w2 (dropping-eq-ok f (b ∷ []) (read_into v t self b) w1 e2) in
      let same : b ≡ a = let o = outcome-eq h2 in ground (arith, o) in
      (
        room,
        w1.firmware,
        bytes,
        read,
        size,
        sym (memory-eq h2)
            ∙ written
            ∙ ap₂ (λ (c : Allocation) m. write c.ptr bytes m) same
                (sym (memory-eq e1) ∙ new_under_4gb-Keeps f self.size quirks w),
      )
