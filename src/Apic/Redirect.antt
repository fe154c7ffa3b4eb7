-- ===== src/Apic/Redirect.antt =====
-- What kernel/apic.c leaves in the redirection entries of an I/O APIC.
use Prim.Native.Nat.{bit_or}
use v.Common.{
  ℕ, ◌+◌, ◌-◌, ◌*◌, ◌/◌, ◌%◌, ◌^◌, ◌≤◌, ◌<◌, ◌≡◌, ◌≢◌, ap, ◌∙◌, ◌==◌, if◌then◌else◌, arith,
  bit_or-zero, bit_or-shifted,
}
use v.Apic.{
  Mmio, ioapic_base, redirect_low, redirect_high, apic_read, apic_write, ioapic_read, ioapic_write,
  lapic_init, ioapic_set_irq_redirect, apic_init, redtbl_base,
}

-- An I/O APIC, whose register `r` holds `registers d r`: a number written to the index register selects
-- the register that the data register then gives and takes, and nothing else in memory changes one.
pub record IsIoapic (mmio : Mmio) (registers : mmio.Device → ℕ → ℕ) : Type 0 where
  pub reads :
      (d : mmio.Device) (r : ℕ)
      → (mmio.read32 (ioapic_base + 0x10) (mmio.write32 ioapic_base r d)).0 ≡ registers d r
  pub reads_keep :
      (d : mmio.Device) (r j : ℕ)
      → registers (mmio.read32 (ioapic_base + 0x10) (mmio.write32 ioapic_base r d)).1 j
        ≡ registers d j
  pub writes :
      (d : mmio.Device) (r x j : ℕ)
      → registers (mmio.write32 (ioapic_base + 0x10) x (mmio.write32 ioapic_base r d)) j
        ≡ (if r == j then x else registers d j)
  pub others_read :
      (d : mmio.Device) (a j : ℕ)
      → a % 4096 ≢ 0
      → a % 4096 ≢ 0x10
      → registers (mmio.read32 a d).1 j ≡ registers d j
  pub others_write :
      (d : mmio.Device) (a x j : ℕ)
      → a % 4096 ≢ 0
      → a % 4096 ≢ 0x10
      → registers (mmio.write32 a x d) j ≡ registers d j

bit_or-byte : (a b : ℕ) → b < 256 → bit_or (a * 256) b ≡ a * 256 + b
bit_or-byte a b h =
    let e : a * 256 ≡ 2 * (2 * (2 * (2 * (2 * (2 * (2 * (2 * a))))))) = omega arith in
    ap (λ x. bit_or x b) e ∙ bit_or-shifted 8 a b (omega (arith, h)) ∙ omega arith

-- A redirection with no flags: the vector, and every digit from the 16th on as before.
redirect_low_lem :
    (low vector : ℕ)
    → vector < 256
    → (redirect_low low vector 0 % 256 ≡ vector)
      × (redirect_low low vector 0 / 2 ^ 16 ≡ low / 2 ^ 16)
unfolding redirect_low
redirect_low_lem low vector h =
    let split : low - low % 256 ≡ low / 256 * 256 = omega arith in
    let first : bit_or (low - low % 256) vector ≡ low / 256 * 256 + vector =
      ap (λ x. bit_or x vector) split ∙ bit_or-byte (low / 256) vector h in
    let x = low / 256 * 256 + vector in
    let cleared = x - x / 2 ^ 8 % 2 ^ 4 * 2 ^ 8 - x / 2 ^ 15 % 2 * 2 ^ 15 in
    rw (first, bit_or-zero cleared) (omega (arith, h), omega (arith, h))

module _ (mmio : Mmio) (registers : mmio.Device → ℕ → ℕ) (hardware : IsIoapic mmio registers) where
  open mmio use {Device, read32, write32}

  ioapic_read_gives : (d : Device) (r : ℕ) → (ioapic_read mmio r d).0 ≡ registers d r
  unfolding ioapic_read
  ioapic_read_gives d r = hardware.reads d r

  ioapic_read_keeps : (d : Device) (r j : ℕ) → registers (ioapic_read mmio r d).1 j ≡ registers d j
  unfolding ioapic_read
  ioapic_read_keeps d r j = hardware.reads_keep d r j

  ioapic_write_lem :
      (d : Device) (r x j : ℕ)
      → registers (ioapic_write mmio r x d) j ≡ (if r == j then x else registers d j)
  unfolding ioapic_write
  ioapic_write_lem d r x j = hardware.writes d r x j

  -- The redirection entry of `irq` is the registers 16 + 2 irq and 17 + 2 irq.
  redirect_lem :
      (irq vector : ℕ) (d : Device) (j : ℕ)
      → registers (ioapic_set_irq_redirect mmio irq vector 0 d) j ≡ (
          if (redtbl_base + irq * 2) == j
          then redirect_low (registers d j) vector 0
          else if (redtbl_base + irq * 2 + 1) == j
          then redirect_high (registers d j)
          else registers d j)
  unfolding ioapic_set_irq_redirect
  redirect_lem irq vector d j =
      let reg = redtbl_base + irq * 2 in
      let low = (ioapic_read mmio reg d).0 in
      let d1 = (ioapic_read mmio reg d).1 in
      let high = (ioapic_read mmio (reg + 1) d1).0 in
      let d2 = (ioapic_read mmio (reg + 1) d1).1 in
      let d3 = ioapic_write mmio reg (redirect_low low vector 0) d2 in
      ground (
        arith,
        ioapic_write_lem d3 (reg + 1) (redirect_high high) j,
        ioapic_write_lem d2 reg (redirect_low low vector 0) j,
        ioapic_read_keeps d1 (reg + 1) j,
        ioapic_read_keeps d reg j,
        ioapic_read_keeps d reg (reg + 1),
        ioapic_read_gives d reg,
        ioapic_read_gives d1 (reg + 1),
      )

  lapic_init_keeps :
      (msr_low msr_high : ℕ) (d : Device) (j : ℕ)
      → registers (lapic_init mmio msr_low msr_high d).1 j ≡ registers d j
  unfolding lapic_init apic_read apic_write
  lapic_init_keeps msr_low msr_high d j =
      let base = msr_high % 2 ^ 4 * 2 ^ 32 + (msr_low - msr_low % 2 ^ 12) in
      let (spurious, d1) = read32 (base + 0xF0) d in
      let value = bit_or (bit_or spurious 0x100) 0xFF in
      hardware.others_write (write32 (base + 0xF0) value d1) (base + 0x80) 0 j
        (λ e. omega (arith, e)) (λ e. omega (arith, e))
      ∙ hardware.others_write d1 (base + 0xF0) value j (λ e. omega (arith, e))
          (λ e. omega (arith, e))
      ∙ hardware.others_read d (base + 0xF0) j (λ e. omega (arith, e)) (λ e. omega (arith, e))

  -- On an I/O APIC, apic_init gives the redirection entry of IRQ 0 the vector 32 and that of IRQ 1 the
  -- vector 33, leaves the digits of both from the 16th on as they were, the mask (digit 16) among them,
  -- and changes no register but the four of these two entries.
  pub apic_init_redirects :
      (msr_low msr_high : ℕ) (d : Device)
      → let d' = (apic_init mmio msr_low msr_high d).1 in
        (registers d' 16 % 256 ≡ 32)
        × (registers d' 16 / 2 ^ 16 ≡ registers d 16 / 2 ^ 16)
        × (registers d' 18 % 256 ≡ 33)
        × (registers d' 18 / 2 ^ 16 ≡ registers d 18 / 2 ^ 16)
        × ((j : ℕ) → j < 16 → registers d' j ≡ registers d j)
        × ((j : ℕ) → 20 ≤ j → registers d' j ≡ registers d j)
  unfolding apic_init
  apic_init_redirects msr_low msr_high d =
      let d1 = (lapic_init mmio msr_low msr_high d).1 in
      let d2 = ioapic_set_irq_redirect mmio 0 32 0 d1 in
      let first : registers (ioapic_set_irq_redirect mmio 1 33 0 d2) 16
          ≡ redirect_low (registers d 16) 32 0 =
        redirect_lem 1 33 d2 16
        ∙ redirect_lem 0 32 d1 16
        ∙ ap (λ x. redirect_low x 32 0) (lapic_init_keeps msr_low msr_high d 16) in
      let second : registers (ioapic_set_irq_redirect mmio 1 33 0 d2) 18
          ≡ redirect_low (registers d 18) 33 0 =
        redirect_lem 1 33 d2 18
        ∙ ap (λ x. redirect_low x 33 0)
            (redirect_lem 0 32 d1 18 ∙ lapic_init_keeps msr_low msr_high d 18) in
      let (v0, m0) = redirect_low_lem (registers d 16) 32 (omega arith) in
      let (v1, m1) = redirect_low_lem (registers d 18) 33 (omega arith) in
      (
        ap (λ x. x % 256) first ∙ v0,
        ap (λ x. x / 2 ^ 16) first ∙ m0,
        ap (λ x. x % 256) second ∙ v1,
        ap (λ x. x / 2 ^ 16) second ∙ m1,
        λ j l. ground (
          arith,
          l,
          redirect_lem 1 33 d2 j,
          redirect_lem 0 32 d1 j,
          lapic_init_keeps msr_low msr_high d j,
        ),
        λ j l. ground (
          arith,
          l,
          redirect_lem 1 33 d2 j,
          redirect_lem 0 32 d1 j,
          lapic_init_keeps msr_low msr_high d j,
        ),
      )
