-- ===== src/Mem/Allocation/Content.antt =====
-- src/mem.rs: what is in the pages that are allocated, while others are allocated and written to.
use mathlib.Core.Path.{subst}
use towboot_rust.Prelude.{
  ℕ, zero, suc, ◌+◌, ◌-◌, ◌*◌, ◌≤◌, ◌<◌, ◌≡◌, refl, ◌∙◌, true, false, some, List, [], ◌∷◌, length,
  get_elem?, Outcome, ok, done, arith,
}
use towboot_rust.Firmware.{MemoryType, AllocateType, max_address, loader_data, PageServices, World}
use towboot_rust.Firmware.Exec.{Exec, lift, call, ◌>>=◌, >>=-eq-ok, world-eq}
use towboot_rust.Firmware.Laws.{Ledger, single}
use towboot_rust.Mem.Bytes.{Memory, within, write}
use towboot_rust.Mem.Allocation.{Allocation, dropping, new_under_4gb, calculate_page_count}
use towboot_rust.Mem.Allocation.Memory.{dropping-eq-ok}
use towboot_rust.Config.{Quirk}
use towboot_rust.Mem.Allocation.Size.{top, under_4gb_result-ok}
use towboot_rust.Mem.Allocation.Ledger.{Balanced, Settled, nothing}
use towboot_rust.Mem.Allocation.Quiet.{Leaves}

-- The firmware's memory services give no page out twice, as documented.
pub record KeepsApart {S : Type 0} (f : PageServices S) (held : S → Ledger) : Type 0 where
  pub fresh :
      (ty : AllocateType) (kind : MemoryType) (pages : ℕ) (s : S) (ptr : ℕ)
      → (f.allocate_pages ty kind pages s).0 ≡ done ptr
      → (q n j : ℕ) → 0 < held s q n
      → within q (n * 4096) j ≡ true
      → within ptr (pages * 4096) j ≡ false

-- The bytes of the list are in memory from the address on.
abbrev pub HasBytes : Memory → ℕ → List ℕ → Type 0
HasBytes memory ptr bytes = (i b : ℕ) → get_elem? bytes i ≡ some b → memory (ptr + i) ≡ b

pub get_elem?-lt : (xs : List ℕ) (i b : ℕ) → get_elem? xs i ≡ some b → i < length xs
get_elem?-lt [] i b h = cc
get_elem?-lt (x ∷ xs) zero b h = omega arith
get_elem?-lt (x ∷ xs) (suc i) b h = omega (arith, get_elem?-lt xs i b h)

pub within_inside : (ptr n i : ℕ) → i < n → within ptr n (ptr + i) ≡ true
within_inside ptr n i h = ground arith

pub write-HasBytes :
    (ptr : ℕ) (bytes : List ℕ) (m : Memory) → HasBytes (write ptr bytes m) ptr bytes
write-HasBytes ptr bytes m i b h =
    let inside = within_inside ptr (length bytes) i (get_elem?-lt bytes i b h) in
    let index : ptr + i - ptr ≡ i = omega arith in rw (inside, index, h) refl

module _ {S : Type 0} (held : S → Ledger) where
  -- Between the two machines nothing was freed, and no allocated page was written to.
  pub record Carries (w w' : World S) : Type 0 where
    pub grows : (p n : ℕ) → held w.firmware p n ≤ held w'.firmware p n
    pub intact :
        (q n j : ℕ)
        → 0 < held w.firmware q n
        → within q (n * 4096) j ≡ true
        → w'.memory j ≡ w.memory j

  pub Carries-refl : (w : World S) → Carries w w
  Carries-refl w = record { grows = λ p n. omega arith; intact = λ q n j h l. refl }

  pub Carries-trans : {w v u : World S} → Carries w v → Carries v u → Carries w u
  Carries-trans {w} {v} {u} c d = record {
    grows = λ p n. omega (arith, c.grows p n, d.grows p n);
    intact = λ q n j h l. d.intact q n j (omega (arith, c.grows q n)) l ∙ c.intact q n j h l;
  }

  pub Carries-HasBytes :
      (w w' : World S) (a : Allocation) (bytes : List ℕ)
      → Carries w w'
      → 0 < held w.firmware a.ptr a.pages
      → length bytes ≤ a.pages * 4096
      → HasBytes w.memory a.ptr bytes
      → HasBytes w'.memory a.ptr bytes
  Carries-HasBytes w w' a bytes c h fits has i b e =
      c.intact a.ptr a.pages (a.ptr + i) h
        (within_inside a.ptr (a.pages * 4096) i (omega (arith, get_elem?-lt bytes i b e)))
      ∙ has i b e

pub within-smaller : (p n m j : ℕ) → n ≤ m → within p m j ≡ false → within p n j ≡ false
within-smaller p n m j h k = ground (arith, h, k)

-- A call that carries what is allocated.
abbrev pub Carrier : {S E A : Type 0} → (S → Ledger) → Exec S E A → Type 0
Carrier {S = S} {A = A} held m = (a : A) (w w' : World S) → m w ≡ (ok a, w') → Carries held w w'

module _ {S : Type 0} (held : S → Ledger) {E : Type 0} where
  -- A call that does not change the machine.
  pub Carrier-look : {A : Type 0} (g : World S → Outcome E A) → Carrier held (λ w. (g w, w))
  Carrier-look g a w w' h = subst (Carries held w) (world-eq h) (Carries-refl held w)

  pub Carrier-lift : {A : Type 0} (o : Outcome E A) → Carrier {S = S} held (lift o)
  Carrier-lift o = Carrier-look (λ _. o)

  -- A call of the firmware that leaves its pages.
  pub Carrier-call : {A : Type 0} (f : S → A × S) → Leaves held f → Carrier {E = E} held (call f)
  Carrier-call f l a w w' h =
      subst (Carries held w) (world-eq h)
        (record { grows = λ p n. omega (arith, l w.firmware p n); intact = λ q n j k m. refl })

  pub Carrier-bind :
      {A B : Type 0} (m : Exec S E A) (f : A → Exec S E B)
      → Carrier held m
      → ((a : A) → Carrier held (f a))
      → Carrier held (m >>= f)
  Carrier-bind m f c d b w w' h =
      let (a, v, e, r) = >>=-eq-ok m f w h in Carries-trans held (c a w v e) (d a b v w' r)

  pub Carrier-dropping :
      {A : Type 0} (f : PageServices S) (owned : List Allocation) (m : Exec S E A)
      → Carrier held m
      → Carrier held (dropping f owned m)
  Carrier-dropping f owned m c a w w' h = c a w w' (dropping-eq-ok f owned m w h)

module _ {S : Type 0} (held : S → Ledger) {E A : Type 0} where
  -- What is allocated after a balanced call that takes nothing.
  pub Balanced-eq-ok :
      (outs : A → Ledger) (m : Exec S E A) (a : A) (w w' : World S)
      → Balanced held nothing outs m
      → m w ≡ (ok a, w')
      → (p n : ℕ) → held w'.firmware p n ≡ held w.firmware p n + outs a p n
  Balanced-eq-ok outs m a w w' b h =
      subst (λ (x : Outcome E A × World S). Settled held (held w.firmware) outs x.0 x.1) h
        (b.at (held w.firmware) w (λ p n. omega arith))

-- What one owns is allocated.
pub owned_single : (p n : ℕ) → single p n p n ≡ 1
owned_single p n = ground arith

module _ {S : Type 0} (f : PageServices S) (held : S → Ledger) (apart : KeepsApart f held) where
  pub new_under_4gb-apart :
      (size : ℕ) (quirks : List Quirk) (w : World S) (a : Allocation)
      → (new_under_4gb f size quirks w).0 ≡ ok a
      → (q n j : ℕ) → 0 < held w.firmware q n
      → within q (n * 4096) j ≡ true
      → within a.ptr (a.pages * 4096) j ≡ false
  unfolding new_under_4gb
  new_under_4gb-apart size quirks w a h q n j k l =
      let count = calculate_page_count size in
      let r = f.allocate_pages (max_address (top quirks)) loader_data count w.firmware in
      let (e, _, ep, _) = under_4gb_result-ok f size count r.0 (record w { firmware = r.1 }) a h in
      rw ep (apart.fresh (max_address (top quirks)) loader_data count w.firmware a.ptr e q n j k l)
