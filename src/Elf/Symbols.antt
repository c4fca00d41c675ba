-- ===== src/Elf/Symbols.antt =====
-- src/boot/elf.rs: `symbols`, which copies the sections that are not loaded and the section headers
-- for the kernel. `goblin`'s headers and their encoding are parameters, and so is how a `Vec` grows.
pub mod Sections
pub mod Room
pub mod Table
pub mod Layout
use towboot_rust.Prelude.{
  ℕ, ◌+◌, ◌*◌, Bool, Option, none, some, List, [], ◌∷◌, ◌++◌, length, take, drop, replicate, leb,
  ◌==◌, if◌then◌else◌, Outcome, ok, unwrap, assert, narrow, Target, wrap, ◌>>=◌, ◌>>◌,
}
use towboot_rust.Mem.Bytes.{slice?}
use towboot_rust.Elf.Loader.{ProgramHeader}

-- `goblin::elf::SectionHeader`, by what the source reads; `rest` is what it only passes on.
pub record SectionHeader : Type 0 where
  pub sh_addr : ℕ
  pub sh_size : ℕ
  pub file_range : Option (ℕ × ℕ)
  pub rest : List ℕ

pub record Binary : Type 0 where
  pub entry : ℕ
  pub program_headers : List ProgramHeader
  pub section_headers : List SectionHeader
  pub e_shnum : ℕ
  pub e_shentsize : ℕ
  pub e_shstrndx : ℕ
  pub is_64 : Bool
  pub little_endian : Bool

-- The capacity after `reserve` on an empty vector, and its address then; the capacity and the address
-- after growing from a capacity to a length; the bytes of a header.
pub record SymbolServices : Type 0 where
  pub reserve : ℕ → ℕ
  pub grow : ℕ → ℕ → ℕ × ℕ
  pub ptr : ℕ
  pub encode : Bool → Bool → SectionHeader → List ℕ

-- `ElfSymbols::from_addr`.
pub record ElfSymbols : Type 0 where
  pub num : ℕ
  pub size : ℕ
  pub addr : ℕ
  pub shndx : ℕ

-- A vector, its capacity and its address.
pub record Buffer : Type 0 where
  pub bytes : List ℕ
  pub capacity : ℕ
  pub ptr : ℕ

module _ (v : SymbolServices) (t : Target) where
  unfoldable pub extend : Buffer → List ℕ → Buffer
  extend b more =
      let bytes = b.bytes ++ more in
      record {
        bytes = bytes;
        capacity =
            if leb (length bytes) b.capacity
            then b.capacity
            else (v.grow b.capacity (length bytes)).0;
        ptr = if leb (length bytes) b.capacity then b.ptr else (v.grow b.capacity (length bytes)).1;
      }

  -- The sum of the sizes of the sections that are not loaded.
  unfoldable pub unloaded_size : List SectionHeader → Outcome ⊥ ℕ
  unloaded_size [] = ok 0
  unloaded_size (s ∷ ss) = do
    rest ← unloaded_size ss
    if s.sh_addr == 0 then wrap t 64 (s.sh_size + rest) else ok rest

  abbrev pub copy_section :
      SectionHeader → Option (ℕ × ℕ) → List ℕ → Buffer → Outcome ⊥ (SectionHeader × Buffer)
  copy_section s none file_data b = ok (s, b)
  copy_section s (some (start, end)) file_data b = do
    bytes ← unwrap (slice? file_data start end) "range out of bounds"
    addr ← wrap t t.usize_bits (length b.bytes + v.ptr)
    ok (record s { sh_addr = addr }, extend b bytes)

  unfoldable pub copy_sections :
      List SectionHeader → List ℕ → Buffer → Outcome ⊥ (List SectionHeader × Buffer)
  copy_sections [] file_data b = ok ([], b)
  copy_sections (s ∷ ss) file_data b = do
    r ← copy_section s (if s.sh_addr == 0 then s.file_range else none) file_data b
    rest ← copy_sections ss file_data r.1
    ok (r.0 ∷ rest.0, rest.1)

  -- The headers, each into its part of the vector.
  unfoldable pub put_headers : Binary → List SectionHeader → ℕ → List ℕ → Outcome ⊥ (List ℕ)
  put_headers binary [] begin bytes = ok bytes
  put_headers binary (s ∷ ss) begin bytes = do
    let header = v.encode binary.is_64 binary.little_endian s
    assert (leb (begin + binary.e_shentsize) (length bytes)) "range end index out of range"
    assert (leb (length header) binary.e_shentsize) "called `Result::unwrap()` on an `Err` value"
    put_headers binary ss (begin + binary.e_shentsize)
        (take begin bytes ++ header ++ drop (begin + length header) bytes)

  -- Bring the binary's symbols in a format for Multiboot.
  unfoldable pub symbols : Binary → List ℕ → Outcome ⊥ (ElfSymbols × Buffer)
  symbols binary file_data = do
    table ← wrap t 32 (binary.e_shentsize * binary.e_shnum)
    sizes ← unloaded_size binary.section_headers
    total ← wrap t 64 (table + sizes)
    reserved ← narrow t.usize_bits total
    copied ←
        copy_sections binary.section_headers file_data
          (record { bytes = []; capacity = v.reserve reserved; ptr = v.ptr })
    let shdr_begin = length copied.1.bytes
    assert (leb (shdr_begin + table) copied.1.capacity)
        "memory.capacity() >= shdr_begin + (size * num)"
    let resized = extend copied.1 (replicate table 0)
    bytes ← put_headers binary copied.0 shdr_begin resized.bytes
    addr ← wrap t t.usize_bits (v.ptr + shdr_begin)
    ok (
      record {
        num = binary.e_shnum;
        size = binary.e_shentsize;
        addr = addr;
        shndx = binary.e_shstrndx;
      },
      record resized { bytes = bytes },
    )
