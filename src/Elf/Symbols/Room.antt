-- ===== src/Elf/Symbols/Room.antt =====
-- src/boot/elf.rs: the memory that `symbols` reserves is enough, so that the vector stays where it is.
use mathlib.Core.Path.{subst}
use towboot_rust.Prelude.{
  Bool-cases, inl, inr, ℕ, zero, suc, ◌+◌, ◌-◌, ◌%◌, ◌^◌, ◌≤◌, ◌<◌, ◌≡◌, refl, ◌∙◌, Option, none,
  some, List, [], ◌∷◌, length, take, drop, All, ◌==◌, if◌then◌else◌, length-append, ok, unwrap,
  unwrap-eq-ok, Target, wrap, wrap_of_lt, >>=-eq-ok, ok-eq, arith,
}
use towboot_rust.Mem.Bytes.{slice?}
use towboot_rust.Elf.Symbols.Sections.{unloaded}
use towboot_rust.Elf.Symbols.{
  SectionHeader, SymbolServices, Buffer, extend, unloaded_size, copy_section, copy_sections,
}

-- The sizes of the sections that are not loaded, together.
abbrev pub unloaded_total : List SectionHeader → ℕ
unloaded_total [] = 0
unloaded_total (s ∷ ss) = (if s.sh_addr == 0 then s.sh_size else 0) + unloaded_total ss

-- The bytes of a section in the file are not more than its size.
abbrev pub AreRanged : List SectionHeader → Type 0
AreRanged = All (λ (s : SectionHeader).
    (start end : ℕ) → s.file_range ≡ some (start, end) → end ≤ start + s.sh_size)

length-take_le : (n : ℕ) (xs : List ℕ) → length (take n xs) ≤ n
length-take_le zero xs = omega arith
length-take_le (suc n) [] = omega arith
length-take_le (suc n) (x ∷ xs) = omega (arith, length-take_le n xs)

length-slice? :
    (xs : List ℕ) (start end : ℕ) (bytes : List ℕ)
    → slice? xs start end ≡ some bytes
    → start + length bytes ≤ end
unfolding slice?
length-slice? xs start end bytes h =
    let short = length-take_le (end - start) (drop start xs) in ground (arith, h, short)

module _ (t : Target) where
  pub wrap_le : (n m : ℕ) → wrap {E = ⊥} t 32 n ≡ ok m → m ≤ n
  unfolding wrap
  wrap_le n m h = let small : n % 2 ^ 32 ≤ n = omega arith in ground (arith, h, small)

  pub unloaded_size-eq :
      (v : SymbolServices) (ss : List SectionHeader)
      → unloaded_total ss < 2 ^ 64
      → unloaded_size v t ss ≡ ok (unloaded_total ss)
  unfolding unloaded_size
  unloaded_size-eq v [] h = refl
  unloaded_size-eq v (s ∷ ss) h =
      let rest = unloaded_size-eq v ss (omega arith) in
      let sum = wrap_of_lt {E = ⊥} t 64 (s.sh_size + unloaded_total ss) in
      rw rest (ground (arith, h, sum))

  module _ (v : SymbolServices) (file_data : List ℕ) where
    -- The vector was not moved and has grown by at most `n`.
    pub record Stays (b b' : Buffer) (n : ℕ) : Type 0 where
      pub ptr : b'.ptr ≡ b.ptr
      pub capacity : b'.capacity ≡ b.capacity
      pub grows : length b'.bytes ≤ length b.bytes + n

    pub extend-Stays :
        (b : Buffer) (more : List ℕ) (n : ℕ)
        → length b.bytes + length more ≤ b.capacity
        → length more ≤ n
        → Stays b (extend v t b more) n
    unfolding extend
    extend-Stays b more n h l =
        let sum = length-append b.bytes more in
        record {
          ptr = ground (arith, h, sum);
          capacity = ground (arith, h, sum);
          grows = omega (arith, sum, l);
        }

    copy_section-Stays :
        (s : SectionHeader) (o : Option (ℕ × ℕ)) (b : Buffer) (r : SectionHeader × Buffer) (n : ℕ)
        → copy_section v t s o file_data b ≡ ok r
        → ((start end : ℕ) → o ≡ some (start, end) → end ≤ start + n)
        → length b.bytes + n ≤ b.capacity
        → Stays b r.1 n
    copy_section-Stays s none b r n h k l =
        subst (λ (x : SectionHeader × Buffer). Stays b x.1 n) (ok-eq h)
          (record { ptr = refl; capacity = refl; grows = omega arith })
    copy_section-Stays s (some (start, end)) b r n h k l =
        let (bytes, e, h1) =
          >>=-eq-ok (unwrap (slice? file_data start end) "range out of bounds") _ h in
        let (addr, w, h2) = >>=-eq-ok (wrap t t.usize_bits (length b.bytes + v.ptr)) _ h1 in
        let short =
          length-slice? file_data start end bytes
            (unwrap-eq-ok (slice? file_data start end) "range out of bounds" bytes e) in
        let fits = k start end refl in
        subst (λ (x : SectionHeader × Buffer). Stays b x.1 n) (ok-eq h2)
          (extend-Stays b bytes n (omega (arith, short, fits, l)) (omega (arith, short, fits)))

    unloaded-fits :
        (s : SectionHeader)
        → ((start end : ℕ) → s.file_range ≡ some (start, end) → end ≤ start + s.sh_size)
        → (start end : ℕ) → unloaded s ≡ some (start, end)
        → end ≤ start + (if s.sh_addr == 0 then s.sh_size else 0)
    unloaded-fits s h start end e = elim (Bool-cases (s.sh_addr == 0)) [
      | inl y ↦ rw y (h start end (rw y at e))
      | inr n ↦ absurd (cc (rw n at e))
    ]

    pub copy_sections-Stays :
        (ss : List SectionHeader) (b : Buffer) (r : List SectionHeader × Buffer)
        → copy_sections v t ss file_data b ≡ ok r
        → AreRanged ss
        → length b.bytes + unloaded_total ss ≤ b.capacity
        → Stays b r.1 (unloaded_total ss)
    unfolding copy_sections
    copy_sections-Stays [] b r h k l =
        subst (λ (x : List SectionHeader × Buffer). Stays b x.1 0) (ok-eq h)
          (record { ptr = refl; capacity = refl; grows = omega arith })
    copy_sections-Stays (s ∷ ss) b r h (k, ks) l =
        let n = if s.sh_addr == 0 then s.sh_size else 0 in
        let (head, e1, h1) = >>=-eq-ok (copy_section v t s (unloaded s) file_data b) _ h in
        let (rest, e2, h2) = >>=-eq-ok (copy_sections v t ss file_data head.1) _ h1 in
        let one =
          copy_section-Stays s (unloaded s) b head n e1 (unloaded-fits s k) (omega (arith, l)) in
        let others =
          copy_sections-Stays ss head.1 rest e2 ks (omega (arith, one.capacity, one.grows, l)) in
        subst (λ (x : List SectionHeader × Buffer). Stays b x.1 (n + unloaded_total ss)) (ok-eq h2)
          (record {
            ptr = others.ptr ∙ one.ptr;
            capacity = others.capacity ∙ one.capacity;
            grows = omega (arith, one.grows, others.grows);
          })
