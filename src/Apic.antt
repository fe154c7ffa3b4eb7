-- ===== src/Apic.antt =====
-- kernel/apic.c and the APIC timer of kernel/timer.c. The registers are in memory: what a read of an
-- address gives and what a write does there is the hardware's, a parameter.
pub mod Redirect
mod Tests
use Prim.Native.Nat.{bit_or}
use v.Common.{ℕ, ◌+◌, ◌-◌, ◌*◌, ◌/◌, ◌%◌, ◌^◌, u32}

-- Reads and writes of 32-bit registers in memory.
pub record Mmio : Type 1 where
  pub Device : Type 0
  pub read32 : ℕ → Device → ℕ × Device
  pub write32 : ℕ → ℕ → Device → Device

-- IOAPIC_REDTBL_BASE
abbrev pub redtbl_base : ℕ
redtbl_base = 0x10

-- The address that `ioapic_init` sets.
abbrev pub ioapic_base : ℕ
ioapic_base = 0xFEC00000

-- `low` with vector and flags, as `ioapic_set_irq_redirect` makes it: the digits 0 to 7 give way to the
-- vector, and the digits 8 to 11 and 15 to the flags.
pub redirect_low : ℕ → ℕ → ℕ → ℕ
redirect_low low vector flags =
    let l1 = bit_or (low - low % 2 ^ 8) vector in
    let l2 = l1 - l1 / 2 ^ 8 % 2 ^ 4 * 2 ^ 8 - l1 / 2 ^ 15 % 2 * 2 ^ 15 in bit_or l2 flags

-- `high` without the digits 24 to 31.
pub redirect_high : ℕ → ℕ
redirect_high high = high % 2 ^ 24

module _ (mmio : Mmio) where
  open mmio use {Device, read32, write32}

  pub apic_read : (lapic_base : ℕ) → ℕ → Device → ℕ × Device
  apic_read lapic_base reg d = read32 (lapic_base + reg) d

  pub apic_write : (lapic_base : ℕ) → ℕ → ℕ → Device → Device
  apic_write lapic_base reg value d = write32 (lapic_base + reg) value d

  -- The register's number goes to the index register, and its value stands in the data register.
  pub ioapic_read : ℕ → Device → ℕ × Device
  ioapic_read reg d = read32 (ioapic_base + 0x10) (write32 ioapic_base reg d)

  pub ioapic_write : ℕ → ℕ → Device → Device
  ioapic_write reg value d = write32 (ioapic_base + 0x10) value (write32 ioapic_base reg d)

  pub apic_eoi : (lapic_base : ℕ) → Device → Device
  apic_eoi lapic_base d = apic_write lapic_base 0xB0 0 d

  -- The base address out of the two halves of the MSR, and the device after the call.
  pub lapic_init : (msr_low msr_high : ℕ) → Device → ℕ × Device
  lapic_init msr_low msr_high d =
      let base = msr_high % 2 ^ 4 * 2 ^ 32 + (msr_low - msr_low % 2 ^ 12) in
      let (spurious, d1) = apic_read base 0xF0 d in
      let d2 = apic_write base 0xF0 (bit_or (bit_or spurious 0x100) 0xFF) d1 in
      (base, apic_write base 0x80 0 d2)

  pub ioapic_set_irq_redirect : (irq vector flags : ℕ) → Device → Device
  ioapic_set_irq_redirect irq vector flags d =
      let reg = redtbl_base + irq * 2 in
      let (low, d1) = ioapic_read reg d in
      let (high, d2) = ioapic_read (reg + 1) d1 in
      let d3 = ioapic_write reg (redirect_low low vector flags) d2 in
      ioapic_write (reg + 1) (redirect_high high) d3

  -- Between the two, `ioapic_init` sets its base address.
  pub apic_init : (msr_low msr_high : ℕ) → Device → ℕ × Device
  apic_init msr_low msr_high d =
      let (base, d1) = lapic_init msr_low msr_high d in
      (base, ioapic_set_irq_redirect 1 33 0 (ioapic_set_irq_redirect 0 32 0 d1))

  -- Of kernel/timer.c.
  pub apic_timer_init : (lapic_base : ℕ) → Device → Device
  apic_timer_init lapic_base d =
      apic_write lapic_base 0x320 (bit_or 32 0x20000)
        (apic_write lapic_base 0x3E0 0x03 (apic_write lapic_base 0x380 1000000 d))
