-- ===== src/Elf/Symbols/Table.antt =====
-- src/boot/elf.rs: the table of section headers that `symbols` writes.

use mathlib.Core.List.{append_assoc}
use towboot_rust.Prelude.{
  ℕ, ◌+◌, ◌-◌, ◌≤◌, ◌≡◌, refl, sym, ap, ◌∙◌, List, [], ◌∷◌, ◌++◌, length, take, drop,
  take-append_drop, take-append, length-drop_add, length-take_of_le, leb, ok, assert, Target,
  >>=-eq-ok, ok-eq, arith,
}
use towboot_rust.Elf.Symbols.{SectionHeader, Binary, SymbolServices, put_headers}

take_row :
    (before header behind : List ℕ) (n : ℕ)
    → length header ≤ n
    → take (length before + n) (before ++ (header ++ behind))
      ≡ before ++ (header ++ take (n - length header) behind)
take_row before header behind n h =
    take-append before (header ++ behind) n
    ∙ ap (λ x. before ++ x)
        (ap (λ k. take k (header ++ behind)) (omega arith)
          ∙ take-append header behind (n - length header))

module _ (v : SymbolServices) (t : Target) where
  -- The table of the headers, each as it is encoded, in a row of `e_shentsize` bytes.
  abbrev pub IsTable : Binary → List SectionHeader → List ℕ → Type 0
  IsTable binary [] memory = Unit
  IsTable binary (s ∷ ss) memory =
      (pad : List ℕ) × (rest : List ℕ) × (memory
        ≡ v.encode binary.is_64 binary.little_endian s ++ (pad ++ rest))
      × (length (v.encode binary.is_64 binary.little_endian s) + length pad ≡ binary.e_shentsize)
      × IsTable binary ss rest

  pub put_headers-IsTable :
      (binary : Binary) (ss : List SectionHeader) (begin : ℕ) (bytes out : List ℕ)
      → put_headers v t binary ss begin bytes ≡ ok out
      → (region : List ℕ) × (out ≡ take begin bytes ++ region) × IsTable binary ss region
  unfolding put_headers
  put_headers-IsTable binary [] begin bytes out h =
      (drop begin bytes, sym (ok-eq h) ∙ sym (take-append_drop begin bytes), tt)
  put_headers-IsTable binary (s ∷ ss) begin bytes out h =
      let header = v.encode binary.is_64 binary.little_endian s in
      let (_, e1, h1) =
        >>=-eq-ok
          (assert (leb (begin + binary.e_shentsize) (length bytes)) "range end index out of range")
          _ h in
      let (_, e2, h2) =
        >>=-eq-ok
          (assert (leb (length header) binary.e_shentsize)
            "called `Result::unwrap()` on an `Err` value")
          _ h1 in
      let (region, p, table) =
        put_headers-IsTable binary ss (begin + binary.e_shentsize)
          (take begin bytes ++ header ++ drop (begin + length header) bytes) out h2 in
      let fits : begin + binary.e_shentsize ≤ length bytes = ground (arith, e1) in
      let short : length header ≤ binary.e_shentsize = ground (arith, e2) in
      let before = take begin bytes in
      let behind = drop (begin + length header) bytes in
      let pad = take (binary.e_shentsize - length header) behind in
      let at = length-take_of_le begin bytes (omega arith) in
      let left = length-drop_add (begin + length header) bytes (omega arith) in
      (
        header ++ (pad ++ region),
        p
            ∙ ap (λ z. take (begin + binary.e_shentsize) z ++ region)
                (append_assoc before header behind)
            ∙ ap (λ k. take (k + binary.e_shentsize) (before ++ (header ++ behind)) ++ region)
                (sym at)
            ∙ ap (λ z. z ++ region) (take_row before header behind binary.e_shentsize short)
            ∙ append_assoc before (header ++ pad) region
            ∙ ap (λ z. before ++ z) (append_assoc header pad region),
        (
          pad,
          region,
          refl,
          omega
              (arith, length-take_of_le (binary.e_shentsize - length header) behind (omega arith)),
          table,
        ),
      )
