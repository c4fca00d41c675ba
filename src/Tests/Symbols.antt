-- ===== src/Tests/Symbols.antt =====
-- A run of `symbols` of src/boot/elf.rs: one section is loaded, the other has to be copied.
use towboot_rust.Prelude.{arith, ℕ, ◌+◌, ◌≡◌, refl, some, true, List, [], ◌∷◌, ok}
use towboot_rust.Elf.Symbols.Room.{AreRanged}
use towboot_rust.Elf.Symbols.{Buffer, SectionHeader, Binary, SymbolServices, ElfSymbols, symbols}
use towboot_rust.Elf.Symbols.Layout.{IsLaidOut, symbols-IsLaidOut}
use towboot_rust.Tests.Pages.{target}

-- A header is encoded by its address alone.
abbrev services : SymbolServices
services = record {
  reserve = λ n. n;
  grow = λ c n. (n, 131072);
  ptr = 65536;
  encode = λ is_64 little s. s.sh_addr ∷ [];
}

abbrev text : SectionHeader
text = record { sh_addr = 1048576; sh_size = 2; file_range = some (0, 2); rest = [] }

abbrev names : SectionHeader
names = record { sh_addr = 0; sh_size = 3; file_range = some (2, 5); rest = [] }

abbrev binary : Binary
binary = record {
  entry = 1048576;
  program_headers = [];
  section_headers = text ∷ names ∷ [];
  e_shnum = 2;
  e_shentsize = 2;
  e_shstrndx = 1;
  is_64 = true;
  little_endian = true;
}

abbrev file_data : List ℕ
file_data = 1 ∷ 2 ∷ 97 ∷ 98 ∷ 0 ∷ []

abbrev info : ElfSymbols
info = record { num = 2; size = 2; addr = 65539; shndx = 1 }

abbrev memory : Buffer
memory = record { bytes = 97 ∷ 98 ∷ 0 ∷ 1048576 ∷ 0 ∷ 65536 ∷ 0 ∷ []; capacity = 7; ptr = 65536 }

symbols_run : symbols services target binary file_data ≡ ok (info, memory)
unfolding symbols towboot_rust.Prelude.wrap towboot_rust.Elf.Symbols.unloaded_size
    towboot_rust.Prelude.narrow towboot_rust.Elf.Symbols.copy_sections towboot_rust.Mem.Bytes.slice?
    towboot_rust.Elf.Symbols.extend towboot_rust.Elf.Symbols.put_headers
symbols_run = refl

ranged : AreRanged binary.section_headers
ranged = ((λ a b e. ground (arith, e)), ((λ a b e. ground (arith, e)), tt))

symbols-IsLaidOut_example : IsLaidOut services target file_data binary info memory
symbols-IsLaidOut_example =
    symbols-IsLaidOut services target file_data binary info memory (λ n. omega arith) ranged
      (omega arith) symbols_run
