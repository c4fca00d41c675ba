-- ===== src/Tests/Pages.antt =====
-- Memory services that the tests run on: the blocks that are allocated are a list. Addresses from
-- 2 MB on are taken by others.
use towboot_rust.Prelude.{
  ℕ, ◌+◌, ◌-◌, ◌*◌, ◌<◌, ◌≡◌, refl, true, ◌&&◌, ◌==◌, leb, if◌then◌else◌, List, [], ◌∷◌, Result,
  done, failed, Target, arith,
}
use towboot_rust.Firmware.{
  Status, not_found, invalid_parameter, PageServices, AllocateType, max_address, address, World,
}
use towboot_rust.Firmware.Laws.{Ledger, single, IsLawful}

abbrev pub Blocks : Type 0
Blocks = List (ℕ × ℕ)

abbrev pub held : Blocks → Ledger
held [] p n = 0
held ((q, m) ∷ s) p n = held s p n + single q m p n

abbrev pub remove : ℕ → ℕ → Blocks → Blocks
remove p n [] = []
remove p n ((q, m) ∷ s) = let rest = remove p n s in if q == p && m == n then s else (q, m) ∷ rest

abbrev pub has : ℕ → ℕ → Blocks → Result Status (Unit {0})
has p n [] = failed invalid_parameter
has p n ((q, m) ∷ s) = let rest = has p n s in if q == p && m == n then done tt else rest

abbrev pub grant : AllocateType → ℕ → Result Status ℕ
grant (max_address top) pages =
    if leb (pages * 4096) (top + 1) then done (top + 1 - pages * 4096) else failed not_found
grant (address a) pages = if leb 2097152 a then failed not_found else done a

abbrev pub record_block : Result Status ℕ → ℕ → Blocks → Blocks
record_block (done p) n s = (p, n) ∷ s
record_block (failed e) n s = s

abbrev pub pages : PageServices Blocks
pages = record {
  allocate_pages = λ ty kind n s. (grant ty n, record_block (grant ty n) n s);
  free_pages = λ p n s. (has p n s, remove p n s);
  memory_map = λ s. done [];
}

abbrev pub target : Target
target = record { usize_bits = 64; overflow_checks = true }

-- A machine without allocations and with cleared memory.
abbrev pub machine : World Blocks
machine = record { firmware = []; memory = λ _. 0 }

pub held-record_block :
    (r : Result Status ℕ) (n : ℕ) (s : Blocks) (p : ℕ)
    → r ≡ done p
    → (q m : ℕ) → held (record_block r n s) q m ≡ held s q m + single p n q m
held-record_block (done x) n s p e q m = ground (arith, e)
held-record_block (failed x) n s p e q m = ground (arith, e)

pub held-no_block :
    (r : Result Status ℕ) (n : ℕ) (s : Blocks) (x : Status)
    → r ≡ failed x
    → (q m : ℕ) → held (record_block r n s) q m ≡ held s q m
held-no_block (done x) n s p e q m = ground (arith, e)
held-no_block (failed x) n s p e q m = refl

has-held : (p n : ℕ) (s : Blocks) → 0 < held s p n → has p n s ≡ done tt
has-held p n [] h = absurd (ground arith)
has-held p n ((q, m) ∷ s) h = ground (arith, has-held p n s)

held-remove :
    (p n q m : ℕ) (s : Blocks)
    → 0 < held s p n
    → held (remove p n s) q m + single p n q m ≡ held s q m
held-remove p n q m [] h = absurd (ground arith)
held-remove p n q m ((a, b) ∷ s) h = ground (arith, held-remove p n q m s)

pub pages-IsLawful : IsLawful pages held
pages-IsLawful = record {
  allocated = λ ty kind n s ptr e. held-record_block (grant ty n) n s ptr e;
  not_allocated = λ ty kind n s x e. held-no_block (grant ty n) n s x e;
  freed = λ p n s h. (has-held p n s h, λ q m. held-remove p n q m s h);
  below = λ top kind n s ptr e. ground (arith, e);
  at_address = λ a kind n s ptr e. ground (arith, e);
}
