-- ===== src/Machine/Handover.antt =====
-- src/boot/mod.rs, the assembly: the machine state that a Multiboot kernel is entered in.
use Prim.Native.Nat.{bit_and, bit_or}
use towboot_rust.Prelude.{
  ℕ, zero, suc, ◌+◌, ◌*◌, ◌/◌, ◌%◌, ◌^◌, ◌<◌, ◌≡◌, refl, ◌∙◌, ◌≢◌, true, false, none, some, arith,
}
use towboot_rust.Prelude.Bits.{bit, bit-bit_or, bit-zero, bit-lt_two}
use towboot_rust.Prelude.Bits.Masks.{
  all_but, bit-clear_same, bit-clear_other, bit-mod_pow, bit-add_high,
}
use towboot_rust.Prepare.{Jump}
use towboot_rust.Machine.{
  Cpu, read, write, step, run, jump_code, enter, pe, pg, pae, pcide, lme, lma,
}

-- The machine state that the Multiboot specification asks for, as far as it depends on the code,
-- and that nothing else of the control registers changes.
pub record IsHandedOver (signature_eax information_address : ℕ) (jump : Jump) (before after : Cpu)
    : Type 0 where
  pub signature : after.eax ≡ signature_eax
  pub information : after.ebx ≡ information_address % 2 ^ 32
  pub jumped : after.eip ≡ some (jump.entry_address % 2 ^ 32)
  pub no_interrupts : after.interrupts ≡ false
  pub is_protected : bit after.cr0 pe ≡ 1
  pub no_paging : bit after.cr0 pg ≡ 0
  pub no_pae : bit after.cr4 pae ≡ 0
  pub no_long_mode : (bit after.efer lme ≡ 0) × (bit after.efer lma ≡ 0)
  pub cr0_kept : (k : ℕ) → k < 32 → k ≢ pe → k ≢ pg → bit after.cr0 k ≡ bit before.cr0 k
  pub cr4_kept : (k : ℕ) → k < 32 → k ≢ pae → bit after.cr4 k ≡ bit before.cr4 k
  pub efer_kept : (k : ℕ) → k < 32 → k ≢ lme → k ≢ lma → bit after.efer k ≡ bit before.efer k

-- The values that the control registers are given.
abbrev new_cr0 : Cpu → ℕ
new_cr0 s = bit_or (bit_and s.cr0 (all_but 32 31)) 1

abbrev new_cr4 : Cpu → ℕ
new_cr4 s = bit_and s.cr4 (all_but 32 5)

abbrev left_efer : Cpu → ℕ
left_efer s = bit_and s.efer (all_but 64 10)

abbrev new_efer : ℕ → ℕ
new_efer e = bit_and (e % 2 ^ 32) (all_but 32 8) + e / 2 ^ 32 * 2 ^ 32

bit-new_cr0_pg : (s : Cpu) → bit (new_cr0 s) 31 ≡ 0
unfolding bit
bit-new_cr0_pg s = omega (
  arith,
  bit-bit_or (bit_and s.cr0 (all_but 32 31)) 1 31,
  bit-clear_same 32 s.cr0 31 (omega arith),
)

bit-new_efer : (e k : ℕ) → k < 32 → k ≢ 8 → bit (new_efer e) k ≡ bit e k
bit-new_efer e k h n =
    bit-add_high 32 (bit_and (e % 2 ^ 32) (all_but 32 8)) (e / 2 ^ 32) k h
    ∙ bit-clear_other 32 (e % 2 ^ 32) 8 k (omega arith) h n
    ∙ bit-mod_pow 32 e k h

one-high : (k : ℕ) → k ≢ 0 → bit 1 k ≡ 0
unfolding bit
one-high zero n = absurd (n refl)
one-high (suc k) n = bit-zero k

bit-new_cr0 : (s : Cpu) (k : ℕ) → k < 32 → k ≢ 0 → k ≢ 31 → bit (new_cr0 s) k ≡ bit s.cr0 k
bit-new_cr0 s k h n m = omega (
  arith,
  bit-bit_or (bit_and s.cr0 (all_but 32 31)) 1 k,
  one-high k n,
  bit-clear_other 32 s.cr0 31 k (omega arith) h m,
)

bit-new_efer_lme : (e : ℕ) → bit (new_efer e) 8 ≡ 0
bit-new_efer_lme e =
    bit-add_high 32 (bit_and (e % 2 ^ 32) (all_but 32 8)) (e / 2 ^ 32) 8 (omega arith)
    ∙ bit-clear_same 32 (e % 2 ^ 32) 8 (omega arith)

bit-new_efer_lma : (s : Cpu) → bit (new_efer (left_efer s)) 10 ≡ 0
bit-new_efer_lma s =
    bit-new_efer (left_efer s) 10 (omega arith) (omega arith)
    ∙ bit-clear_same 64 s.efer 10 (omega arith)

module _ (signature_eax information_address : ℕ) (jump : Jump) (s : Cpu) where
  handed_over : Cpu
  handed_over = record s {
    eax = signature_eax;
    ebx = information_address % 2 ^ 32;
    ecx = 0xC0000080;
    edx = left_efer s / 2 ^ 32;
    edi = jump.entry_address % 2 ^ 32;
    cr0 = new_cr0 s;
    cr4 = new_cr4 s;
    efer = new_efer (left_efer s);
    interrupts = false;
    eip = some (jump.entry_address % 2 ^ 32);
  }

  enter-eq :
      s.long_code ≡ false
      → s.has_efer ≡ true
      → bit s.cr4 pcide ≡ 0
      → s.eip ≡ none
      → enter signature_eax information_address jump s ≡ some handed_over
  unfolding enter run jump_code read write step handed_over
  enter-eq h e p r =
      rw
        (
          r,
          bit-new_cr0_pg s,
          h,
          p,
          bit-clear_same 64 s.efer 10 (omega arith),
          e,
          bit-new_cr0_pg s,
          bit-new_efer_lma s,
          bit-clear_same 64 s.efer 10 (omega arith),
        )
        refl

  handed_over-IsHandedOver : IsHandedOver signature_eax information_address jump s handed_over
  unfolding handed_over bit
  handed_over-IsHandedOver = record {
    signature = refl;
    information = refl;
    jumped = refl;
    no_interrupts = refl;
    is_protected = omega (
      arith,
      bit-bit_or (bit_and s.cr0 (all_but 32 31)) 1 0,
      bit-lt_two (bit_and s.cr0 (all_but 32 31)) 0,
    );
    no_paging = bit-new_cr0_pg s;
    no_pae = bit-clear_same 32 s.cr4 5 (omega arith);
    no_long_mode = (bit-new_efer_lme (left_efer s), bit-new_efer_lma s);
    cr0_kept = λ k h n m. bit-new_cr0 s k h n m;
    cr4_kept = λ k h n. bit-clear_other 32 s.cr4 5 k (omega arith) h n;
    efer_kept = λ k h n m.
        bit-new_efer (left_efer s) k h n
        ∙ bit-clear_other 64 s.efer 10 k (omega arith) (omega arith) m;
  }

  -- In a code segment that is not of 64 bits, on a processor with an EFER and without
  -- process-context identifiers, the assembly runs to its jump without an exception. Then EAX
  -- has the signature, EBX the address of the information structure and EIP the kernel's entry
  -- address, interrupts are off, protected mode is on, and paging, PAE and long mode are off;
  -- the other bits below 32 of CR0, CR4 and EFER are as before.
  pub enter-IsHandedOver :
      s.long_code ≡ false
      → s.has_efer ≡ true
      → bit s.cr4 pcide ≡ 0
      → s.eip ≡ none
      → (after : Cpu) × (enter signature_eax information_address jump s ≡ some after)
        × IsHandedOver signature_eax information_address jump s after
  enter-IsHandedOver h e p r = (handed_over, enter-eq h e p r, handed_over-IsHandedOver)

  -- In a 64-bit code segment the assembly raises an exception.
  pub enter-long_code :
      s.long_code ≡ true → s.eip ≡ none → enter signature_eax information_address jump s ≡ none
  unfolding enter run jump_code read write step
  enter-long_code h r = rw (r, bit-new_cr0_pg s, h) refl
