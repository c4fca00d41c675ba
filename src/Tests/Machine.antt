-- ===== src/Tests/Machine.antt =====
-- Runs of the assembly of src/boot/mod.rs: in compatibility mode, and in 64-bit code.
use towboot_rust.Prelude.{◌+◌, ◌^◌, ◌%◌, ◌≡◌, refl, true, false, none, some}
use towboot_rust.Machine.{Cpu, enter}
use towboot_rust.Machine.Handover.{IsHandedOver, enter-IsHandedOver, enter-long_code}
use towboot_rust.Tests.Boot.{jump}

-- With paging, PAE and long mode, in a 32-bit code segment.
abbrev compatible : Cpu
compatible = record {
  eax = 1;
  ebx = 2;
  ecx = 3;
  edx = 4;
  edi = 5;
  cr0 = 2 ^ 31 + 51;
  cr4 = 32;
  efer = 1280;
  interrupts = true;
  long_code = false;
  has_efer = true;
  eip = none;
}

abbrev long : Cpu
long = record compatible { long_code = true }

enter-IsHandedOver_example :
    (after : Cpu) × (enter 0x2BADB002 65536 jump compatible ≡ some after)
    × IsHandedOver 0x2BADB002 65536 jump compatible after
unfolding towboot_rust.Prelude.Bits.bit
enter-IsHandedOver_example = enter-IsHandedOver 0x2BADB002 65536 jump compatible refl refl refl refl

enter_run :
    enter 0x2BADB002 65536 jump compatible
    ≡ some (record {
      eax = 0x2BADB002;
      ebx = 65536;
      ecx = 0xC0000080;
      edx = 0;
      edi = 2097152;
      cr0 = 51;
      cr4 = 0;
      efer = 0;
      interrupts = false;
      long_code = false;
      has_efer = true;
      eip = some 2097152;
    })
unfolding enter towboot_rust.Machine.run towboot_rust.Machine.jump_code towboot_rust.Machine.step
    towboot_rust.Machine.write towboot_rust.Prelude.Bits.bit towboot_rust.Machine.read
enter_run = refl

enter-long_code_example : enter 0x2BADB002 65536 jump long ≡ none
enter-long_code_example = enter-long_code 0x2BADB002 65536 jump long refl refl
