-- ===== src/Elf/Symbols/Layout.antt =====
-- src/boot/elf.rs: what `symbols` puts where in the memory for the kernel.
use mathlib.Core.Path.{subst}
use towboot_rust.Prelude.{
  zero, suc, ◌<◌, ◌^◌, wrap_of_lt, narrow-eq-ok, ℕ, ◌+◌, ◌*◌, ◌≤◌, ◌≡◌, refl, sym, ap, ◌∙◌, List,
  [], ◌++◌, length, take, drop, take-append_self, drop-append, leb, ok, assert, narrow, Target,
  wrap, >>=-eq-ok, ok-eq, arith, replicate,
}
use towboot_rust.Elf.Symbols.Table.{IsTable, put_headers-IsTable}
use towboot_rust.Elf.Symbols.Sections.{AreTold, AreTold-append, copy_sections-AreTold}
use towboot_rust.Elf.Symbols.Room.{
  unloaded_total, AreRanged, wrap_le, unloaded_size-eq, copy_sections-Stays, extend-Stays,
}
use towboot_rust.Elf.Symbols.{
  extend, SectionHeader, Binary, SymbolServices, ElfSymbols, Buffer, unloaded_size, copy_sections,
  put_headers, symbols,
}

length-replicate : (n x : ℕ) → length (replicate n x) ≡ n
length-replicate zero x = refl
length-replicate (suc n) x = ap (λ k. suc k) (length-replicate n x)

module _ (v : SymbolServices) (t : Target) (file_data : List ℕ) where
  -- The sections and the table are not too large for the sizes to be added up.
  abbrev pub IsSummable : Binary → Type 0
  IsSummable binary =
      binary.e_shentsize * binary.e_shnum + unloaded_total binary.section_headers < 2 ^ 64

  -- What the kernel is given: the sections where it is told that they are, behind them the table
  -- of their headers, and its address.
  pub record IsLaidOut (binary : Binary) (info : ElfSymbols) (memory : Buffer) : Type 0 where
    pub described : List SectionHeader
    pub begin : ℕ
    pub copied : AreTold memory.ptr t file_data memory.bytes binary.section_headers described
    pub table : IsTable v t binary described (drop begin memory.bytes)
    pub table_address : wrap {E = ⊥} t t.usize_bits (memory.ptr + begin) ≡ ok info.addr
    pub num : info.num ≡ binary.e_shnum
    pub size : info.size ≡ binary.e_shentsize
    pub shndx : info.shndx ≡ binary.e_shstrndx

  stays :
      (binary : Binary) (size sizes total reserved : ℕ) (copied : List SectionHeader × Buffer)
      → ((n : ℕ) → n ≤ v.reserve n)
      → AreRanged binary.section_headers
      → IsSummable binary
      → wrap {E = ⊥} t 32 (binary.e_shentsize * binary.e_shnum) ≡ ok size
      → unloaded_size v t binary.section_headers ≡ ok sizes
      → wrap {E = ⊥} t 64 (size + sizes) ≡ ok total
      → narrow {E = ⊥} t.usize_bits total ≡ ok reserved
      → copy_sections v t binary.section_headers file_data
          (record { bytes = []; capacity = v.reserve reserved; ptr = v.ptr })
        ≡ ok copied
      → (extend v t copied.1 (replicate size 0)).ptr ≡ v.ptr
  stays binary size sizes total reserved copied law ranged fits e1 e2 e3 e4 e5 =
      let small = wrap_le t (binary.e_shentsize * binary.e_shnum) size e1 in
      let sum = unloaded_size-eq t v binary.section_headers (omega arith) in
      let same : sizes ≡ unloaded_total binary.section_headers = ok-eq (sym e2 ∙ sum) in
      let whole : total ≡ size + sizes =
        ok-eq
          (sym e3 ∙ wrap_of_lt {E = ⊥} t 64 (size + sizes) (omega (arith, small, same, fits))) in
      let narrowed = (narrow-eq-ok t.usize_bits total reserved e4).0 in
      let enough = law reserved in
      let first =
        copy_sections-Stays t v file_data binary.section_headers
          (record { bytes = []; capacity = v.reserve reserved; ptr = v.ptr }) copied e5 ranged
          (omega (arith, enough, narrowed, whole, same)) in
      let zeros = length-replicate size 0 in
      let second =
        extend-Stays t v file_data copied.1 (replicate size 0) size
          (omega (arith, first.grows, first.capacity, enough, narrowed, whole, same, zeros))
          (omega (arith, zeros)) in
      second.ptr ∙ first.ptr

  -- A run of `symbols`, by its parts.
  laid_out :
      (binary : Binary) (info : ElfSymbols) (memory : Buffer) (described : List SectionHeader)
      (copied more region bytes : List ℕ) (addr capacity ptr : ℕ)
      → AreTold v.ptr t file_data copied binary.section_headers described
      → bytes ≡ take (length copied) (copied ++ more) ++ region
      → IsTable v t binary described region
      → wrap {E = ⊥} t t.usize_bits (v.ptr + length copied) ≡ ok addr
      → ptr ≡ v.ptr
      → ◌≡◌ {A = ElfSymbols × Buffer}
          (
            record {
              num = binary.e_shnum;
              size = binary.e_shentsize;
              addr = addr;
              shndx = binary.e_shstrndx;
            },
            record { bytes = bytes; capacity = capacity; ptr = ptr },
          )
          (info, memory)
      → IsLaidOut binary info memory
  laid_out binary info memory described copied more region bytes addr capacity ptr told p table e
        there final =
      let whole : memory.bytes ≡ copied ++ region =
        sym (ap (λ (x : ElfSymbols × Buffer). x.1.bytes) final)
        ∙ p
        ∙ ap (λ z. z ++ region) (take-append_self copied (more)) in
      let base : v.ptr ≡ memory.ptr = sym there ∙ ap (λ (x : ElfSymbols × Buffer). x.1.ptr) final in
      record {
        described = described;
        begin = length copied;
        copied =
            subst (λ b. AreTold b t file_data memory.bytes binary.section_headers described) base
              (subst (λ z. AreTold v.ptr t file_data z binary.section_headers described) (sym whole)
                (AreTold-append v.ptr t file_data copied region binary.section_headers described
                  told));
        table =
            subst (IsTable v t binary described)
              (sym (ap (λ z. drop (length copied) z) whole ∙ drop-append copied region)) table;
        table_address =
            subst (λ b. wrap {E = ⊥} t t.usize_bits (b + length copied) ≡ ok info.addr) base
              (e ∙ ap (λ (x : ElfSymbols × Buffer). ok x.0.addr) final);
        num = sym (ap (λ (x : ElfSymbols × Buffer). x.0.num) final);
        size = sym (ap (λ (x : ElfSymbols × Buffer). x.0.size) final);
        shndx = sym (ap (λ (x : ElfSymbols × Buffer). x.0.shndx) final);
      }

  -- If a reservation gives at least the capacity asked for, no section has more bytes in the
  -- file than its size, and the sizes of the table and of the sections that are not loaded stay
  -- below 2 ^ 64 together: when `symbols` returns, every section that is not loaded and has
  -- bytes in the file is described with an address, which is that of a copy of these bytes
  -- where the vector is then; all other sections are described unchanged. Behind the sections
  -- stands the table of the described headers, each encoded in a row of its own, and the kernel
  -- is told of its address where the vector is then, and of the number and size of its rows.
  pub symbols-IsLaidOut :
      (binary : Binary) (info : ElfSymbols) (memory : Buffer)
      → ((n : ℕ) → n ≤ v.reserve n)
      → AreRanged binary.section_headers
      → IsSummable binary
      → symbols v t binary file_data ≡ ok (info, memory)
      → IsLaidOut binary info memory
  unfolding symbols extend
  symbols-IsLaidOut binary info memory law ranged fits h =
      let (size, e1, h1) = >>=-eq-ok (wrap t 32 (binary.e_shentsize * binary.e_shnum)) _ h in
      let (sizes, e2, h2) = >>=-eq-ok (unloaded_size v t binary.section_headers) _ h1 in
      let (total, e3, h3) = >>=-eq-ok (wrap t 64 (size + sizes)) _ h2 in
      let (reserved, e4, h4) = >>=-eq-ok (narrow t.usize_bits total) _ h3 in
      let empty : Buffer = record { bytes = []; capacity = v.reserve reserved; ptr = v.ptr } in
      let (copied, e5, h5) =
        >>=-eq-ok (copy_sections v t binary.section_headers file_data empty) _ h4 in
      let (_, e6, h6) =
        >>=-eq-ok
          (assert (leb (length copied.1.bytes + size) copied.1.capacity)
            "memory.capacity() >= shdr_begin + (size * num)")
          _ h5 in
      let (bytes, e7, h7) =
        >>=-eq-ok
          (put_headers v t binary copied.0 (length copied.1.bytes)
            (copied.1.bytes ++ replicate size 0))
          _ h6 in
      let (addr, e8, h8) = >>=-eq-ok (wrap t t.usize_bits (v.ptr + length copied.1.bytes)) _ h7 in
      let (more, q, told) =
        copy_sections-AreTold v t file_data binary.section_headers empty copied e5 in
      let (region, p, table) =
        put_headers-IsTable v t binary copied.0 (length copied.1.bytes)
          (copied.1.bytes ++ replicate size 0) bytes e7 in
      let resized = extend v t copied.1 (replicate size 0) in
      laid_out binary info memory copied.0 copied.1.bytes (replicate size 0) region bytes addr
        resized.capacity resized.ptr told p table e8
        (stays binary size sizes total reserved copied law ranged fits e1 e2 e3 e4 e5) (ok-eq h8)
