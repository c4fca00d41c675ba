-- ===== src/Machine.antt =====
-- src/boot/mod.rs, the assembly at the end of `PreparedEntry::boot`: the instructions it consists of,
-- as an i686 or x86_64 processor executes them.
pub mod Handover
use Prim.Native.Nat.{bit_and, bit_or}
use towboot_rust.Prelude.{
  ℕ, ◌+◌, ◌*◌, ◌/◌, ◌%◌, ◌^◌, Bool, true, false, not, ◌&&◌, ◌||◌, Option, none, some, List, [], ◌∷◌,
  ◌==◌, if◌then◌else◌,
}
use towboot_rust.Prelude.Bits.{bit}
use towboot_rust.Prelude.Bits.Masks.{all_but}
use towboot_rust.Prepare.{Jump}

pub data Register : Type 0 where
  eax ebx ecx edx edi cr0 cr4 : Register

pub data Operand : Type 0 where
  register : Register → Operand
  immediate : ℕ → Operand

pub data Instruction : Type 0 where
  cli rdmsr wrmsr : Instruction
  mov : Register → Operand → Instruction
  and_bits or_bits : Register → ℕ → Instruction
  jmp : Register → Instruction

-- The processor: its registers, whether it takes interrupts, whether the code segment is a 64-bit
-- one, whether it has an EFER, and where it has jumped.
pub record Cpu : Type 0 where
  pub eax : ℕ
  pub ebx : ℕ
  pub ecx : ℕ
  pub edx : ℕ
  pub edi : ℕ
  pub cr0 : ℕ
  pub cr4 : ℕ
  pub efer : ℕ
  pub interrupts : Bool
  pub long_code : Bool
  pub has_efer : Bool
  pub eip : Option ℕ

-- PE and PG of CR0, PAE and PCIDE of CR4, LME and LMA of EFER.
abbrev pub pe : ℕ
pe = 0

abbrev pub pg : ℕ
pg = 31

abbrev pub pae : ℕ
pae = 5

abbrev pub pcide : ℕ
pcide = 17

abbrev pub lme : ℕ
lme = 8

abbrev pub lma : ℕ
lma = 10

abbrev pub efer_msr : ℕ
efer_msr = 0xC0000080

abbrev pub is_set : ℕ → ℕ → Bool
is_set x k = bit x k == 1

unfoldable pub read : Register → Cpu → ℕ
read eax s = s.eax
read ebx s = s.ebx
read ecx s = s.ecx
read edx s = s.edx
read edi s = s.edi
read cr0 s = s.cr0
read cr4 s = s.cr4

abbrev pub value : Operand → Cpu → ℕ
value (register r) s = read r s
value (immediate n) s = n

-- A write of CR0. Paging cannot be on outside of protected mode; it cannot be turned off in 64-bit
-- code or with process-context identifiers, and when it is, long mode is left. That it is turned
-- on is not covered.
abbrev pub write_cr0 : ℕ → Cpu → Option Cpu
write_cr0 v s =
    if is_set v pg
    then if is_set v pe && is_set s.cr0 pg then some (record s { cr0 = v }) else none
    else if s.long_code || is_set s.cr4 pcide
    then none
    else some (record s { cr0 = v; efer = bit_and s.efer (all_but 64 lma) })

-- A write of CR4. PAE cannot be turned off in long mode.
abbrev pub write_cr4 : ℕ → Cpu → Option Cpu
write_cr4 v s =
    if is_set s.efer lma && not (is_set v pae) then none else some (record s { cr4 = v })

unfoldable pub write : Register → ℕ → Cpu → Option Cpu
write eax v s = some (record s { eax = v })
write ebx v s = some (record s { ebx = v })
write ecx v s = some (record s { ecx = v })
write edx v s = some (record s { edx = v })
write edi v s = some (record s { edi = v })
write cr0 v s = write_cr0 v s
write cr4 v s = write_cr4 v s

abbrev pub names_efer : Cpu → Bool
names_efer s = s.has_efer && s.ecx == efer_msr

-- A write of EFER. LME cannot be changed while paging is on, and LMA not at all.
abbrev pub write_efer : ℕ → Cpu → Option Cpu
write_efer v s =
    if is_set s.cr0 pg && not (bit v lme == bit s.efer lme) || not (bit v lma == bit s.efer lma)
    then none
    else some (record s { efer = v })

-- One instruction. `none`: the processor raises an exception.
unfoldable pub step : Instruction → Cpu → Option Cpu
step cli s = some (record s { interrupts = false })
step rdmsr s =
    if names_efer s then some (record s { eax = s.efer % 2 ^ 32; edx = s.efer / 2 ^ 32 }) else none
step wrmsr s = if names_efer s then write_efer (s.eax + s.edx * 2 ^ 32) s else none
step (mov r o) s = write r (value o s) s
step (and_bits r n) s = write r (bit_and (read r s) n) s
step (or_bits r n) s = write r (bit_or (read r s) n) s
step (jmp r) s = some (record s { eip = some (read r s) })

-- After an instruction: the jump ends the code.
abbrev pub proceed : (Cpu → Option Cpu) → Option Cpu → Option Cpu
proceed rest none = none
proceed rest (some s) = elim s.eip [ some address ↦ some s | none ↦ rest s ]

-- The instructions in order. They must not end without a jump.
unfoldable pub run : List Instruction → Cpu → Option Cpu
run [] s = none
run (i ∷ code) s = proceed (run code) (step i s)

-- The block of `asm!`, with `SIGNATURE_EAX` of the `multiboot` crate.
unfoldable pub jump_code : ℕ → List Instruction
jump_code signature_eax =
    cli
    ∷ mov ebx (register eax)
    ∷ mov ecx (register cr0)
    ∷ and_bits ecx (all_but 32 31)
    ∷ or_bits ecx 1
    ∷ mov cr0 (register ecx)
    ∷ mov ecx (register cr4)
    ∷ and_bits ecx (all_but 32 5)
    ∷ mov cr4 (register ecx)
    ∷ mov ecx (immediate 0xC0000080)
    ∷ rdmsr
    ∷ and_bits eax (all_but 32 8)
    ∷ wrmsr
    ∷ mov eax (immediate signature_eax)
    ∷ jmp edi
    ∷ []

-- The operands `in("eax")` and `in("edi")`: the address of the information structure and that of
-- the kernel's entry, in registers of 32 bits.
abbrev pub operands : ℕ → Jump → Cpu → Cpu
operands information_address jump s = record s {
  eax = information_address % 2 ^ 32;
  edi = jump.entry_address % 2 ^ 32;
}

-- From what `boot` leaves to the first instruction of the kernel.
unfoldable pub enter : ℕ → ℕ → Jump → Cpu → Option Cpu
enter signature_eax information_address jump s =
    run (jump_code signature_eax) (operands information_address jump s)
