-- ===== src/File/Content.antt =====
-- src/file.rs: a file that is read into an allocation touches nothing else that is allocated.
use mathlib.Core.Path.{subst}
use towboot_rust.Prelude.{
  ℕ, ◌*◌, ◌≤◌, ◌<◌, ◌≡◌, refl, sym, ap, ◌∙◌, List, [], ◌∷◌, length, ok, done, expect, err, map_err,
  narrow, if◌then◌else◌, String, Target, arith,
}
use towboot_rust.Firmware.{protocol_error, not_found, PageServices, World}
use towboot_rust.Firmware.Exec.{lift, call, >>=-eq-ok, outcome-eq}
use towboot_rust.Firmware.Laws.{Ledger, IsLawful}
use towboot_rust.Config.{Quirk}
use towboot_rust.Mem.Allocation.{Allocation, new_under_4gb, dropping}
use towboot_rust.Mem.Allocation.Size.{new_under_4gb-IsBelow}
use towboot_rust.Mem.Allocation.Ledger.{block}
use towboot_rust.Mem.Allocation.Content.{
  KeepsApart, HasBytes, write-HasBytes, Carries, Carrier, Carrier-look, Carrier-lift, Carrier-call,
  Carrier-bind, within-smaller, Balanced-eq-ok, owned_single, new_under_4gb-apart,
}
use towboot_rust.File.{
  FileServices, File, as_regular, needed, size_of, open_file, read_into, try_into_allocation,
}
use towboot_rust.File.Laws.{LeavesPages, Balanced-try_into_allocation, try_into_allocation-ok}

module _ {S H : Type 0} (v : FileServices S H) (t : Target) (held : S → Ledger)
    (leaves : LeavesPages v held) where
  pub Carrier-open_file : (name : String) → Carrier held (open_file v t name)
  unfolding open_file
  Carrier-open_file name =
      Carrier-bind held (lift (if v.is_valid_name name then ok tt else err protocol_error)) _
        (Carrier-lift held _)
        (λ _.
          Carrier-bind held (call (v.open_path name)) _
            (Carrier-call held (v.open_path name) (leaves.open_path name))
            (λ opened.
              Carrier-bind held (lift (map_err opened (λ _. not_found))) _ (Carrier-lift held _)
                (λ handle.
                  Carrier-bind held
                    (λ w. (expect (v.into_type handle w.firmware) "Failed to open file", w)) _
                    (Carrier-look held
                      (λ w. expect (v.into_type handle w.firmware) "Failed to open file"))
                    (λ kind.
                      Carrier-bind held (lift (as_regular v kind)) _ (Carrier-lift held _) (λ file.
                        Carrier-bind held (λ w. (needed v (v.get_info file 0 w.firmware), w)) _
                          (Carrier-look held (λ w. needed v (v.get_info file 0 w.firmware)))
                          (λ n.
                            Carrier-bind held (λ w. (size_of v (v.get_info file n w.firmware), w)) _
                              (Carrier-look held (λ w. size_of v (v.get_info file n w.firmware)))
                              (λ bytes.
                                Carrier-bind held (lift (narrow t.usize_bits bytes)) _
                                  (Carrier-lift held _)
                                  (λ size.
                                    Carrier-lift held (
                                      ok (record { name = name; file = file; size = size }))))))))))

  module _ (f : PageServices S) (law : IsLawful f held) (apart : KeepsApart f held) where
    -- A file in memory: its bytes as a read gave them, in pages that are allocated and hold them.
    pub record IsRead (self : File H) (a : Allocation) (w : World S) : Type 0 where
      pub room : ℕ
      pub state : S
      pub bytes : List ℕ
      pub given : (v.read self.file room state).0 ≡ done bytes
      pub whole : length bytes ≡ self.size
      pub len : a.len ≡ self.size
      pub fits : length bytes ≤ a.pages * 4096
      pub allocated : 0 < held w.firmware a.ptr a.pages
      pub has : HasBytes w.memory a.ptr bytes

    allocated_first :
        (self : File H) (quirks : List Quirk) (a : Allocation) (w w' : World S)
        → try_into_allocation v f t self quirks w ≡ (ok a, w')
        → (new_under_4gb f self.size quirks w).0 ≡ ok a
    unfolding try_into_allocation
    allocated_first self quirks a w w' h =
        let (b, w1, e1, h1) = >>=-eq-ok (new_under_4gb f self.size quirks) _ w h in
        let (_, w2, e2, h2) = >>=-eq-ok (dropping f (b ∷ []) (read_into v t self b)) _ w1 h1 in
        outcome-eq e1 ∙ outcome-eq h2

    pub try_into_allocation-IsRead :
        (self : File H) (quirks : List Quirk) (a : Allocation) (w w' : World S)
        → try_into_allocation v f t self quirks w ≡ (ok a, w')
        → IsRead self a w' × Carries held w w'
    try_into_allocation-IsRead self quirks a w w' h =
        let (room, s, bytes, given, whole, written) =
          try_into_allocation-ok v f t self quirks a w w' h in
        let now =
          Balanced-eq-ok held block (try_into_allocation v f t self quirks) a w w'
            (Balanced-try_into_allocation v f held law leaves t self quirks) h in
        let new = allocated_first self quirks a w w' h in
        let below = (new_under_4gb-IsBelow f held law self.size quirks w a new).0 in
        (
          record {
            room = room;
            state = s;
            bytes = bytes;
            given = given;
            whole = whole;
            len = below.same_len;
            fits = omega (arith, whole, below.room);
            allocated = omega (arith, now a.ptr a.pages, owned_single a.ptr a.pages);
            has =
                subst (λ m. HasBytes m a.ptr bytes) (sym written)
                  (write-HasBytes a.ptr bytes w.memory);
          },
          record {
            grows = λ p n. omega (arith, now p n);
            intact = λ q n j k l.
                let out =
                  within-smaller a.ptr (length bytes) (a.pages * 4096) j
                    (omega (arith, whole, below.room))
                    (new_under_4gb-apart f held apart self.size quirks w a new q n j k l) in
                ap (λ m. m j) written ∙ rw out refl;
          },
        )
