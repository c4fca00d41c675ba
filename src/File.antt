-- ===== src/File.antt =====
-- src/file.rs: files on the volume. The file protocol of the firmware is a parameter over the type
-- `H` of its handles. That a dropped handle is closed is left to it.
pub mod Laws
pub mod Content
use towboot_rust.Prelude.{
  ℕ, ◌*◌, Bool, true, false, Option, none, some, List, [], ◌∷◌, length, ◌==◌, if◌then◌else◌, String,
  Outcome, ok, err, panic, Result, done, failed, expect, unwrap, assert, map_err, narrow, Target,
  wrap, ◌>>?◌,
}
use towboot_rust.Firmware.{
  Status, success, not_found, unsupported, protocol_error, end_of_file, buffer_too_small, World,
  PageServices,
}
use towboot_rust.Firmware.Exec.{Exec, pure, raise, lift, call, ◌>>=◌, ◌>>◌}
use towboot_rust.Config.{Quirk}
use towboot_rust.Mem.Map.{page_size}
use towboot_rust.Mem.Bytes.{write}
use towboot_rust.Mem.Allocation.{Allocation, new_under_4gb, dropping, free}

pub data FileType (H : Type 0) : Type 0 where
  regular : H → FileType H
  directory : FileType H

-- The answer to `get_info`: the size of the file, or an error, with the buffer size that is needed.
pub data Info : Type 0 where
  file_size : ℕ → Info
  no_info : Status → Option ℕ → Info

-- `CStr16::from_str_with_buf` accepts a name of at most 1023 characters that UCS-2 has; `open` and
-- the others are the methods of the handles. `read` gives the bytes that it wrote into the buffer.
pub record FileServices (S H : Type 0) : Type 0 where
  pub is_valid_name : String → Bool
  pub open_path : String → S → Result Status H × S
  pub into_type : H → S → Result Status (FileType H)
  pub get_info : H → ℕ → S → Info
  pub read : H → ℕ → S → Result Status (List ℕ) × S

pub record File (H : Type 0) : Type 0 where
  pub name : String
  pub file : H
  pub size : ℕ

module _ {S H : Type 0} (v : FileServices S H) where
  abbrev pub as_regular : FileType H → Outcome Status H
  as_regular (regular h) = ok h
  as_regular directory = err unsupported

  -- The first `get_info` must fail for want of a buffer; it gives the size of the buffer.
  abbrev pub needed : Info → Outcome Status ℕ
  needed (no_info buffer_too_small (some n)) = ok n
  needed (no_info buffer_too_small none) = panic "failed to get size of file metadata"
  needed _ = panic "assertion failed: info_result.status() == Status::BUFFER_TOO_SMALL"

  abbrev pub size_of : Info → Outcome Status ℕ
  size_of (file_size n) = ok n
  size_of (no_info e _) = panic "Failed to get metadata of file"

  -- Opens a file.
  unfoldable pub open_file : Target → String → Exec S Status (File H)
  open_file t name = do
    lift (if v.is_valid_name name then ok tt else err protocol_error)
    opened ← call (v.open_path name)
    handle ← lift (map_err opened (λ _. not_found))
    kind ← λ w. (expect (v.into_type handle w.firmware) "Failed to open file", w)
    file ← lift (as_regular kind)
    info_size ← λ w. (needed (v.get_info file 0 w.firmware), w)
    bytes ← λ w. (size_of (v.get_info file info_size w.firmware), w)
    size ← lift (narrow t.usize_bits bytes)
    pure (record { name = name; file = file; size = size })

  abbrev pub into_memory : ℕ → List ℕ → Exec S Status (Unit {0})
  into_memory ptr bytes w = (ok tt, record w { memory = write ptr bytes w.memory })

  -- `file.read(buffer)?` and the test of what was read, into the pages of an allocation.
  abbrev pub read_into : Target → File H → Allocation → Exec S Status (Unit {0})
  read_into t self allocation = do
    room ← lift (wrap t t.usize_bits (allocation.pages * page_size))
    r ← call (v.read self.file room)
    bytes ← lift (map_err r (λ e. e))
    into_memory allocation.ptr bytes
    lift (if length bytes == self.size then ok tt else err end_of_file)

  -- Read a whole file into memory and return the resulting allocation.
  unfoldable pub try_into_allocation :
      PageServices S → Target → File H → List Quirk → Exec S Status Allocation
  try_into_allocation f t self quirks = do
    allocation ← new_under_4gb f self.size quirks
    dropping f (allocation ∷ []) (read_into t self allocation)
    pure allocation

  -- `TryFrom<File> for Vec<u8>`: the bytes of the whole file.
  unfoldable pub try_into_vec : File H → Exec S Status (List ℕ)
  try_into_vec self = do
    r ← call (v.read self.file self.size)
    bytes ← lift (map_err r (λ e. e))
    lift (if length bytes == self.size then ok bytes else err end_of_file)
