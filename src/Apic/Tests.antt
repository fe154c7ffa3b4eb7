-- ===== src/Apic/Tests.antt =====
-- Redirections of kernel/apic.c on a simple I/O APIC.
use v.Common.{ℕ, ◌+◌, ◌/◌, ◌%◌, ◌^◌, ◌≤◌, ◌<◌, ◌≡◌, ◌==◌, if◌then◌else◌, refl, update, arith}
use v.Apic.{Mmio, ioapic_base, apic_init}
use v.Apic.Redirect.{IsIoapic, apic_init_redirects}

-- The selected register, and all registers.
record Chip : Type 0 where
  selected : ℕ
  file : ℕ → ℕ

-- An I/O APIC at its address, and nothing behind the other addresses.
abbrev chip : Mmio
chip = record {
  Device = Chip;
  read32 = λ a d. (if a == (ioapic_base + 0x10) then d.file d.selected else 0, d);
  write32 = λ a x d.
      if a == ioapic_base
      then record d { selected = x }
      else if a == (ioapic_base + 0x10)
      then record d { file = update d.file d.selected x }
      else d;
}

chip-IsIoapic : IsIoapic chip (λ d. d.file)
chip-IsIoapic = record {
  reads = λ d r. refl;
  reads_keep = λ d r j. refl;
  writes = λ d r x j. refl;
  others_read = λ d a j n m. refl;
  others_write = λ d a x j n m. ground (arith, n, m);
}

-- Every entry is masked.
abbrev masked : Chip
masked = record { selected = 0; file = λ j. 0x10000 }

apic_init_redirects_example :
    let d' = (apic_init chip 0xFEE00900 0 masked).1 in
    (d'.file 16 % 256 ≡ 32)
    × (d'.file 16 / 2 ^ 16 ≡ 1)
    × (d'.file 18 % 256 ≡ 33)
    × (d'.file 18 / 2 ^ 16 ≡ 1)
    × ((j : ℕ) → j < 16 → d'.file j ≡ masked.file j)
    × ((j : ℕ) → 20 ≤ j → d'.file j ≡ masked.file j)
apic_init_redirects_example =
    apic_init_redirects chip (λ d. d.file) chip-IsIoapic 0xFEE00900 0 masked
