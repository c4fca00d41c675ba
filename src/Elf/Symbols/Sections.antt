-- ===== src/Elf/Symbols/Sections.antt =====
-- src/boot/elf.rs: the sections that `symbols` copies for the kernel.
use mathlib.Core.Path.{subst}
use mathlib.Core.List.{append_assoc, append-nil}
use towboot_rust.Prelude.{
  ℕ, ◌+◌, ◌≡◌, refl, sym, ap, ◌∙◌, Option, none, some, List, [], ◌∷◌, ◌++◌, length, ◌==◌,
  if◌then◌else◌, ok, unwrap, Target, wrap, >>=-eq-ok, unwrap-eq-ok, ok-eq,
}
use towboot_rust.Mem.Bytes.{slice?}
use towboot_rust.Elf.Symbols.{
  SectionHeader, SymbolServices, Buffer, extend, copy_section, copy_sections,
}

-- The bytes stand in the memory at the index.
abbrev pub StandsAt : List ℕ → ℕ → List ℕ → Type 0
StandsAt memory at bytes =
    (before : List ℕ) × (after : List ℕ) × (memory ≡ before ++ (bytes ++ after))
    × (length before ≡ at)

-- What of a section has to be copied.
abbrev pub unloaded : SectionHeader → Option (ℕ × ℕ)
unloaded s = if s.sh_addr == 0 then s.file_range else none

module _ (base : ℕ) (t : Target) (file_data : List ℕ) where
  -- A section as the kernel is told of it: unchanged if there is nothing to copy, and else at the
  -- address where its bytes of the file are.
  abbrev pub IsToldAs : List ℕ → SectionHeader → SectionHeader → Option (ℕ × ℕ) → Type 0
  IsToldAs memory s s' none = s' ≡ s
  IsToldAs memory s s' (some (start, end)) =
      (bytes : List ℕ) × (at : ℕ) × (addr : ℕ) × (slice? file_data start end ≡ some bytes)
      × StandsAt memory at bytes
      × (wrap {E = ⊥} t t.usize_bits (at + base) ≡ ok addr)
      × (s' ≡ record s { sh_addr = addr })

  abbrev pub AreTold : List ℕ → List SectionHeader → List SectionHeader → Type 0
  AreTold memory [] [] = Unit
  AreTold memory [] (s' ∷ ss') = ⊥
  AreTold memory (s ∷ ss) [] = ⊥
  AreTold memory (s ∷ ss) (s' ∷ ss') = IsToldAs memory s s' (unloaded s) × AreTold memory ss ss'

  IsToldAs-append :
      (memory tail : List ℕ) (s s' : SectionHeader) (o : Option (ℕ × ℕ))
      → IsToldAs memory s s' o
      → IsToldAs (memory ++ tail) s s' o
  IsToldAs-append memory tail s s' none h = h
  IsToldAs-append memory tail s s' (some (start, end))
        (bytes, at, addr, e, (before, after, m, l), w, r) =
      (
        bytes,
        at,
        addr,
        e,
        (
          before,
          after ++ tail,
          ap (λ x. x ++ tail) m
              ∙ append_assoc before (bytes ++ after) tail
              ∙ ap (λ x. before ++ x) (append_assoc bytes after tail),
          l,
        ),
        w,
        r,
      )

  pub AreTold-append :
      (memory tail : List ℕ) (ss ss' : List SectionHeader)
      → AreTold memory ss ss'
      → AreTold (memory ++ tail) ss ss'
  AreTold-append memory tail [] [] h = tt
  AreTold-append memory tail [] (s' ∷ ss') h = absurd h
  AreTold-append memory tail (s ∷ ss) [] h = absurd h
  AreTold-append memory tail (s ∷ ss) (s' ∷ ss') (h, k) =
      (IsToldAs-append memory tail s s' (unloaded s) h, AreTold-append memory tail ss ss' k)

module _ (v : SymbolServices) (t : Target) (file_data : List ℕ) where
  -- What a copy adds to the memory, and what becomes of the section.
  abbrev Copies : SectionHeader → Option (ℕ × ℕ) → Buffer → SectionHeader × Buffer → Type 0
  Copies s o b r =
      (more : List ℕ) × (r.1.bytes ≡ b.bytes ++ more) × IsToldAs v.ptr t file_data r.1.bytes s r.0 o

  copy_section-Copies :
      (s : SectionHeader) (o : Option (ℕ × ℕ)) (b : Buffer) (r : SectionHeader × Buffer)
      → copy_section v t s o file_data b ≡ ok r
      → Copies s o b r
  unfolding extend
  copy_section-Copies s none b r h =
      subst (Copies s none b) (ok-eq h) ([], sym (append-nil b.bytes), refl)
  copy_section-Copies s (some (start, end)) b r h =
      let (bytes, e, h1) =
        >>=-eq-ok (unwrap (slice? file_data start end) "range out of bounds") _ h in
      let (addr, w, h2) = >>=-eq-ok (wrap t t.usize_bits (length b.bytes + v.ptr)) _ h1 in
      subst (Copies s (some (start, end)) b) (ok-eq h2) (
        bytes,
        refl,
        (
          bytes,
          length b.bytes,
          addr,
          unwrap-eq-ok (slice? file_data start end) "range out of bounds" bytes e,
          (b.bytes, [], ap (λ x. b.bytes ++ x) (sym (append-nil bytes)), refl),
          w,
          refl,
        ),
      )

  pub copy_sections-AreTold :
      (ss : List SectionHeader) (b : Buffer) (r : List SectionHeader × Buffer)
      → copy_sections v t ss file_data b ≡ ok r
      → (more : List ℕ) × (r.1.bytes ≡ b.bytes ++ more) × AreTold v.ptr t file_data r.1.bytes ss r.0
  unfolding copy_sections
  copy_sections-AreTold [] b r h =
      subst
        (λ (x : List SectionHeader × Buffer).
          (more : List ℕ) × (x.1.bytes ≡ b.bytes ++ more)
          × AreTold v.ptr t file_data x.1.bytes [] x.0)
        (ok-eq h) ([], sym (append-nil b.bytes), tt)
  copy_sections-AreTold (s ∷ ss) b r h =
      let (head, e1, h1) = >>=-eq-ok (copy_section v t s (unloaded s) file_data b) _ h in
      let (rest, e2, h2) = >>=-eq-ok (copy_sections v t ss file_data head.1) _ h1 in
      let (more, p, told) = copy_section-Copies s (unloaded s) b head e1 in
      let (later, q, others) = copy_sections-AreTold ss head.1 rest e2 in
      subst
        (λ (x : List SectionHeader × Buffer).
          (more : List ℕ) × (x.1.bytes ≡ b.bytes ++ more)
          × AreTold v.ptr t file_data x.1.bytes (s ∷ ss) x.0)
        (ok-eq h2)
        (
          more ++ later,
          q ∙ ap (λ x. x ++ later) p ∙ append_assoc b.bytes more later,
          (
            subst (λ x. IsToldAs v.ptr t file_data x s head.0 (unloaded s)) (sym q)
                (IsToldAs-append v.ptr t file_data head.1.bytes later s head.0 (unloaded s) told),
            others,
          ),
        )
