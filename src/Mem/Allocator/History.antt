-- ===== src/Mem/Allocator/History.antt =====
-- src/mem.rs: `MultibootAllocator` against the record of what it does to Rust's allocator.
use mathlib.Core.Path.{subst}
use mathlib.Core.Option.{some-injective}
use towboot_rust.Prelude.{
  ℕ, ◌-◌, ◌^◌, ◌≡◌, refl, Bool, true, false, ◌&&◌, Option, none, some, List, [], ◌∷◌, Outcome, ok,
  err, panic, ltb, Option-cases, inl, inr, ◌==◌, if◌then◌else◌, arith,
}
use towboot_rust.Prelude.OrderedMap.{lookup, lookup-insert, lookup-erase}
use towboot_rust.Mem.Allocator.{
  Heap, MultibootAllocator, State, new, paddr_to_slice, allocate, deallocate,
}
use towboot_rust.Mem.Allocator.Laws.{IsValid, new-IsValid, allocate-IsValid, deallocate-IsValid}

-- What Rust's allocator was asked for: an address and a size that it gave or took back.
pub data Event : Type 0 where
  given taken : ℕ → ℕ → Event

-- Rust's allocator, with the record of what happened, the latest first.
unfoldable pub recorded : {S : Type 0} → Heap S → Heap (S × List Event)
recorded h = record {
  alloc = λ n (s, log). let (p, s') = h.alloc n s in (p, (s', given p n ∷ log));
  dealloc = λ p n (s, log). (h.dealloc p n s, taken p n ∷ log);
  max_layout = h.max_layout;
}

-- The size of the block at an address, if it was given and not taken back since.
unfoldable pub live : ℕ → List Event → Option ℕ
live q [] = none
live q (given p n ∷ log) = let rest = live q log in if q == p then some n else rest
live q (taken p n ∷ log) = let rest = live q log in if q == p then none else rest

-- Only blocks that are live are taken back, with the size that they were given with.
abbrev pub IsLegal : List Event → Type 0
IsLegal [] = Unit
IsLegal (given p n ∷ log) = IsLegal log
IsLegal (taken p n ∷ log) = (live p log ≡ some n) × IsLegal log

-- The addresses that are passed on: not null, and below the last byte of the first 4 GB.
abbrev pub is_usable : ℕ → Bool
is_usable p = ltb 0 p && ltb p (2 ^ 32 - 1)

pub data Request : Type 0 where
  allocating freeing : ℕ → Request

pub record IsSound (a : MultibootAllocator) (log : List Event) : Type 0 where
  pub valid : IsValid a
  pub legal : IsLegal log
  pub agrees : (q : ℕ) → lookup q a.allocations ≡ (if is_usable q then live q log else none)

module _ {S : Type 0} (h : Heap S) where
  abbrev pub served : {A : Type 0} → Outcome ⊥ A × State h → Option (State h)
  served (ok a, st) = some st
  served (err e, st) = absurd e
  served (panic m, st) = none

  abbrev pub serve : Request → State h → Option (State h)
  serve (allocating n) st = served (allocate h n st)
  serve (freeing p) st = served (deallocate h p st)

  abbrev pub next : (State h → Option (State h)) → Option (State h) → Option (State h)
  next rest none = none
  next rest (some st) = rest st

  -- Requests in order. A panic ends the program.
  unfoldable pub serve_all : List Request → State h → Option (State h)
  serve_all [] st = some st
  serve_all (r ∷ rs) st = next (serve_all rs) (serve r st)

new-IsSound : IsSound new []
unfolding new lookup live
new-IsSound = record { valid = new-IsValid; legal = tt; agrees = λ q. ground arith }

-- The slice of a block, by its size.
abbrev pub slice_of : ℕ → Option ℕ → Option (ℕ × ℕ)
slice_of q none = none
slice_of q (some n) = some (q, n)

slices :
    (found : Option ℕ) (q : ℕ) (usable : Bool) (o : Option ℕ)
    → found ≡ (if usable then o else none)
    → elim found [ none ↦ none | some size ↦ some (q, size) ]
      ≡ (if usable then slice_of q o else none)
slices none q true none e = refl
slices none q true (some n) e = cc
slices none q false o e = refl
slices (some m) q true none e = cc
slices (some m) q true (some n) e = ground (arith, e)
slices (some m) q false o e = cc

served-eq :
    {S : Type 0} (h : Heap S) {A : Type 0} (o : Outcome ⊥ A × State h) (st : State h)
    → served h o ≡ some st
    → o.1 ≡ st
served-eq h (ok a, x) st e = ground (arith, e)
served-eq h (err a, x) st e = absurd a
served-eq h (panic m, x) st e = cc

module _ {S : Type 0} (h : Heap S) where
  allocate-IsSound :
      (n : ℕ) (a : MultibootAllocator) (s : S) (log : List Event)
      → IsSound a log
      → let st = (allocate (recorded h) n (a, (s, log))).1 in IsSound st.0 st.1.1
  allocate-IsSound n a s log i = record {
    valid = allocate-IsValid (recorded h) n a (s, log) i.valid;
    legal = unfold allocate recorded live in ground (arith, i.legal);
    agrees = λ q.
        unfold allocate recorded live in
        ground (arith, i.agrees q, lookup-insert q (h.alloc n s).0 n a.allocations);
  }

  deallocate-IsSound :
      (p : ℕ) (a : MultibootAllocator) (s : S) (log : List Event)
      → IsSound a log
      → let st = (deallocate (recorded h) p (a, (s, log))).1 in IsSound st.0 st.1.1
  deallocate-IsSound p a s log i = record {
    valid = deallocate-IsValid (recorded h) p a (s, log) i.valid;
    legal = unfold deallocate recorded live in ground (arith, i.legal, i.agrees p);
    agrees = λ q.
        unfold deallocate recorded live in
        ground (arith, i.agrees q, i.agrees p, lookup-erase q p a.allocations i.valid.ordered);
  }

  serve-IsSound :
      (r : Request) (a : MultibootAllocator) (s : S) (log : List Event) (st : State (recorded h))
      → IsSound a log
      → serve (recorded h) r (a, (s, log)) ≡ some st
      → IsSound st.0 st.1.1
  serve-IsSound (allocating n) a s log st i e =
      subst (λ (x : State (recorded h)). IsSound x.0 x.1.1)
        (served-eq (recorded h) (allocate (recorded h) n (a, (s, log))) st e)
        (allocate-IsSound n a s log i)
  serve-IsSound (freeing p) a s log st i e =
      subst (λ (x : State (recorded h)). IsSound x.0 x.1.1)
        (served-eq (recorded h) (deallocate (recorded h) p (a, (s, log))) st e)
        (deallocate-IsSound p a s log i)

  serve_all-IsSound :
      (rs : List Request) (a : MultibootAllocator) (s : S) (log : List Event)
      (st : State (recorded h))
      → IsSound a log
      → serve_all (recorded h) rs (a, (s, log)) ≡ some st
      → IsSound st.0 st.1.1
  unfolding serve_all
  serve_all-IsSound [] a s log st i e =
      subst (λ (x : State (recorded h)). IsSound x.0 x.1.1) (some-injective _ st e) i
  serve_all-IsSound (r ∷ rs) a s log st i e =
      elim (Option-cases (serve (recorded h) r (a, (s, log)))) [
        | inl y ↦ cc (rw y at e)
        | inr (mid, y) ↦
            serve_all-IsSound rs mid.0 mid.1.0 mid.1.1 st (serve-IsSound r a s log mid i y)
              (rw y at e)
      ]

  -- After any requests to a new allocator that do not end in a panic: of Rust's allocator only
  -- blocks were taken back that it had given and that had not been taken back since, with the
  -- size that they were given with; and an address finds its slice exactly if it is not null
  -- and below the last byte of the first 4 GB, and a block was given there and not taken back
  -- since.
  pub serve_all-eq-live :
      (rs : List Request) (s : S) (st : State (recorded h))
      → serve_all (recorded h) rs (new, (s, [])) ≡ some st
      → IsLegal st.1.1
        × ((q k : ℕ)
            → paddr_to_slice st.0 q k ≡ (if is_usable q then slice_of q (live q st.1.1) else none))
  unfolding paddr_to_slice
  serve_all-eq-live rs s st e =
      let sound = serve_all-IsSound rs new s [] st new-IsSound e in
      (
        sound.legal,
        λ q k. slices (lookup q st.0.allocations) q (is_usable q) (live q st.1.1) (sound.agrees q),
      )
