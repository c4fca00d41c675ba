-- ===== src/Mem/Move/Laws.antt =====
-- src/mem.rs: when an allocation can be moved to where it should be, and what that does.
use towboot_rust.Prelude.{
  ℕ, ◌+◌, ◌^◌, ◌<◌, ◌≡◌, ◌≢◌, refl, ◌&&◌, none, some, List, [], ◌∷◌, leb, ok, if◌then◌else◌, All,
  Target, wrap_of_lt, narrow_of_lt, arith, Bool-cases, inl, inr, ◌⊎◌, ◌∙◌, ap,
}
use towboot_rust.Firmware.{World}
use towboot_rust.Multiboot.{MemoryEntry, MemoryType, available}
use towboot_rust.Mem.Allocation.{Allocation}
use towboot_rust.Mem.Bytes.{copy}
use towboot_rust.Mem.Move.{copy_to, move_into, is_around, next_around, move_to_where_it_should_be}
use towboot_rust.Mem.Map.Loop.{Fits}

-- The entries that hold all of the `len` bytes from `a`.
unfoldable pub around : ℕ → ℕ → List MemoryEntry → List MemoryEntry
around a len [] = []
around a len (e ∷ es) =
    let rest = around a len es in
    if leb e.base_address a && leb (a + len) (e.base_address + e.length) then e ∷ rest else rest

module _ (t : Target) (a len : ℕ) (fits : a + len < 2 ^ 64) where
  is_around_lem :
      (e : MemoryEntry)
      → Fits e
      → is_around t a len e ≡ ok (leb e.base_address a && leb (a + len) (e.base_address + e.length))
  unfolding is_around
  is_around_lem e h = ground (
    arith,
    wrap_of_lt {E = ⊥} t 64 (e.base_address + e.length) h,
    wrap_of_lt {E = ⊥} t 64 (a + len) fits,
  )

  -- The search finds the first of the entries around the range, and goes on behind it.
  next_around-cases :
      (es : List MemoryEntry)
      → All Fits es
      → ((next_around t a len es ≡ ok none) × (around a len es ≡ []))
        ⊎ ((e : MemoryEntry) × (rest : List MemoryEntry) × (next_around t a len es
              ≡ ok (some (e, rest)))
            × (around a len es ≡ e ∷ around a len rest)
            × All Fits rest)
  unfolding next_around around
  next_around-cases [] h = inl (refl, refl)
  next_around-cases (e ∷ es) (h, hs) =
      elim (Bool-cases (leb e.base_address a && leb (a + len) (e.base_address + e.length))) [
        | inl y ↦ inr (e, es, rw (is_around_lem e h, y) refl, rw y refl, hs)
        | inr n ↦ rw (is_around_lem e h, n) (next_around-cases es hs)
      ]

  next_around-none :
      (es : List MemoryEntry)
      → All Fits es
      → around a len es ≡ []
      → next_around t a len es ≡ ok none
  next_around-none es h none_left = elim (next_around-cases es h) [
    | inl (e1, _) ↦ e1
    | inr (e, rest, e1, e2, _) ↦ absurd (ground (arith, e2, none_left))
  ]

copy_to-needs :
    (t : Target) {S : Type 0} (a : Allocation) (dst : ℕ) (ty : MemoryType) (w : World S)
    → (copy_to t a dst ty w).0 ≡ ok tt
    → ty ≡ available
copy_to-needs t a dst available w h = refl
copy_to-needs t a dst _ w h = cc

move_into-needs :
    (t : Target) {S : Type 0} (a : Allocation) (dst : ℕ) (f : MemoryEntry) (rest : List MemoryEntry)
    (w : World S) (b : Allocation)
    → (move_into t a dst (some (f, rest)) w).0 ≡ ok b
    → (f.memory_type ≡ available)
      × ((g : MemoryEntry) (more : List MemoryEntry)
          → next_around t dst a.len rest ≢ ok (some (g, more)))
move_into-needs t a dst f rest w b h = (ground arith, λ g more e. ground arith)

module _ (t : Target) {S : Type 0} (a : Allocation) (dst : ℕ) (memory_map : List MemoryEntry)
    (fits : dst + a.len < 2 ^ 64) (regions_fit : All Fits memory_map)
    (displaced : a.should_be_at ≡ some dst) where
  -- A displaced allocation is moved if its destination ends below 2 ^ 64 and lies in exactly
  -- one region of the map, that region is available, and both addresses fit a `usize`; no
  -- region of the map reaches past 2 ^ 64. Then its bytes are at the destination, all other
  -- bytes are as before, and it is no longer displaced.
  pub move-ok :
      (e : MemoryEntry) (w : World S)
      → dst < 2 ^ t.usize_bits
      → a.ptr < 2 ^ t.usize_bits
      → around dst a.len memory_map ≡ e ∷ []
      → e.memory_type ≡ available
      → move_to_where_it_should_be t a memory_map w ≡ (
        ok (record a { ptr = dst; should_be_at = none }),
        record w { memory = copy a.ptr dst a.len w.memory },
      )
  unfolding move_to_where_it_should_be
  move-ok e w hd hp one free =
      rw displaced (elim (next_around-cases t dst a.len fits memory_map regions_fit) [
        | inl (e1, e2) ↦ absurd (ground (arith, e2, one))
        | inr (f, rest, e1, e2, rf) ↦
            let same : f ≡ e = cc in
            let behind : around dst a.len rest ≡ [] = cc in
            let kind : f.memory_type ≡ available =
              ap (λ (g : MemoryEntry). g.memory_type) same ∙ free in
            rw
              (
                e1,
                kind,
                narrow_of_lt {E = ⊥} t.usize_bits dst hd,
                narrow_of_lt {E = ⊥} t.usize_bits a.ptr hp,
                next_around-none t dst a.len fits rest rf behind,
              )
              refl
      ])

  -- A displaced allocation is moved in no other case: if its destination ends below 2 ^ 64, no
  -- region of the map reaches past 2 ^ 64 and the call returns, then exactly one region of the
  -- map holds the destination, and it is available.
  pub move-needs :
      (b : Allocation) (w : World S)
      → (move_to_where_it_should_be t a memory_map w).0 ≡ ok b
      → (e : MemoryEntry) × (around dst a.len memory_map ≡ e ∷ []) × (e.memory_type ≡ available)
  unfolding move_to_where_it_should_be
  move-needs b w h = elim (next_around-cases t dst a.len fits memory_map regions_fit) [
    | inl (e1, e2) ↦ absurd (ground (arith, e1, h, displaced))
    | inr (f, rest, e1, e2, rf) ↦ elim (next_around-cases t dst a.len fits rest rf) [
      | inl (e3, e4) ↦ (f, cc, (move_into-needs t a dst f rest w b (rw (displaced, e1) at h)).0)
      | inr (g, more, e3, e4, _) ↦
          absurd ((move_into-needs t a dst f rest w b (rw (displaced, e1) at h)).1 g more e3)
    ]
  ]
