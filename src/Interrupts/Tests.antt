-- ===== src/Interrupts/Tests.antt =====
-- The table of kernel/interrupt.c at given stubs.
use v.Common.{if◌then◌else◌, ltb, ℕ, ◌+◌, ◌*◌, ◌≤◌, ◌<◌, ◌≡◌, arith}
use v.Interrupts.{Descriptors, setup_idt}
use v.Interrupts.Table.{LeadsTo, setup_idt_lem}

-- Stubs of 16 bytes from 1 MB on.
abbrev stub : ℕ → ℕ
stub v = 0x100000 + (if ltb v 48 then v * 16 else 0)

abbrev empty : Descriptors
empty = record {
  idt = λ _. record {
    offset_low = 0;
    selector = 0;
    ist = 0;
    type_attr = 0;
    offset_mid = 0;
    offset_high = 0;
    reserved = 0;
  };
  limit = 0;
  base = 0;
}

setup_idt_lem_example :
    ((v : ℕ) → v < 32 → LeadsTo (stub v) ((setup_idt stub stub 4096 empty).idt v))
    × ((v : ℕ) → 32 ≤ v → v < 48 → LeadsTo (stub v) ((setup_idt stub stub 4096 empty).idt v))
    × ((v : ℕ) → 48 ≤ v → v < 256 → ((setup_idt stub stub 4096 empty).idt v).type_attr ≡ 0)
    × ((setup_idt stub stub 4096 empty).limit + 1 ≡ 256 * 16)
setup_idt_lem_example = setup_idt_lem stub stub 4096 empty (λ v. ground arith) (λ v. ground arith)
