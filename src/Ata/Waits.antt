-- ===== src/Ata/Waits.antt =====
-- The waits of kernel/drivers/ata.c end at a drive that is as prompt as the standard says.
use mathlib.Core.Option
use v.Common.{
  ℕ, zero, suc, ◌/◌, ◌%◌, ◌^◌, ◌<◌, ◌≤◌, ◌≡◌, ◌∙◌, inl, inr, Option, none, some, Bool, true, false,
  arith, if◌then◌else◌, Bool-cases, ℕ_discrete,
}
use v.Ata.{
  Ports, reg_data, reg_count, reg_lba0, reg_lba1, reg_lba2, reg_device, reg_status, is_busy,
  is_drive_ready, wants_data, has_error, ata_wait_busy, ata_wait_ready, wait_data, select_drive,
  send_command, await_data,
}

-- A drive that is busy for `delay` reads of its status. A settled drive is ready, shows the same status
-- again and, once it has a command, either an error or that it wants data. It is busy again for at most
-- `limit` reads after a write of a register or of a word.
pub record IsPrompt (ports : Ports) (delay : ports.Device → ℕ) (asked : ports.Device → Bool)
    (limit : ℕ) : Type 0 where
  pub counts : (d : ports.Device) → 0 < delay d → delay (ports.inb reg_status d).1 < delay d
  pub settles :
      (d : ports.Device)
      → delay d ≡ 0
      → (is_busy (ports.inb reg_status d).0 ≡ false)
        × (is_drive_ready (ports.inb reg_status d).0 ≡ true)
        × (delay (ports.inb reg_status d).1 ≡ 0)
  pub busy : (d : ports.Device) → 0 < delay d → is_busy (ports.inb reg_status d).0 ≡ true
  pub remembers : (d : ports.Device) → asked (ports.inb reg_status d).1 ≡ asked d
  pub answers :
      (d : ports.Device)
      → delay d ≡ 0
      → asked d ≡ true
      → has_error (ports.inb reg_status d).0 ≡ false
      → wants_data (ports.inb reg_status (ports.inb reg_status d).1).0 ≡ true
  pub obeys : (port v : ℕ) (d : ports.Device) → delay (ports.outb port v d) ≤ limit
  pub asks : (command : ℕ) (d : ports.Device) → asked (ports.outb reg_status command d) ≡ true
  pub gives : (d : ports.Device) → delay (ports.inw reg_data d).1 ≤ limit
  pub takes : (w : ℕ) (d : ports.Device) → delay (ports.outw reg_data w d) ≤ limit

module _ (ports : Ports) (delay : ports.Device → ℕ) (asked : ports.Device → Bool) (limit : ℕ)
    (prompt : IsPrompt ports delay asked limit) where
  open ports use {Device, inb, outb, inw, outw}

  -- A settled drive, with a command as before.
  abbrev pub Settled : Device → Option Device → Type 0
  Settled d none = ⊥
  Settled d (some d1) = (delay d1 ≡ 0) × (asked d1 ≡ asked d)

  kept : (d d1 : Device) (r : Option Device) → asked d1 ≡ asked d → Settled d1 r → Settled d r
  kept d d1 none e a = a
  kept d d1 (some d2) e (z, k) = (z, k ∙ e)

  wait_busy-Settled :
      (fuel : ℕ) (d : Device) → delay d < fuel → Settled d (ata_wait_busy ports fuel d)
  unfolding ata_wait_busy
  wait_busy-Settled zero d h = absurd (omega arith)
  wait_busy-Settled (suc n) d h =
      let d1 = (inb reg_status d).1 in
      elim (ℕ_discrete (delay d) 0) [
        | yes z ↦
            let (calm, drdy, still) = prompt.settles d z in rw calm (still, prompt.remembers d)
        | no p ↦
            let fewer = prompt.counts d (omega (arith, p)) in
            rw (prompt.busy d (omega (arith, p))) (
              kept d d1 (ata_wait_busy ports n d1) (prompt.remembers d)
                (wait_busy-Settled n d1 (omega arith)))
      ]

  pub wait_ready-Settled :
      (fuel : ℕ) (d : Device) → delay d < fuel → Settled d (ata_wait_ready ports fuel d)
  unfolding ata_wait_ready
  wait_ready-Settled zero d h = absurd (omega arith)
  wait_ready-Settled (suc n) d h =
      let d1 = (inb reg_status d).1 in
      elim (ℕ_discrete (delay d) 0) [
        | yes z ↦
            let (calm, drdy, still) = prompt.settles d z in
            let (calm1, drdy1, still1) = prompt.settles d1 still in
            rw (calm, drdy1) (still1, prompt.remembers d1 ∙ prompt.remembers d)
        | no p ↦
            let fewer = prompt.counts d (omega (arith, p)) in
            rw (prompt.busy d (omega (arith, p))) (
              kept d d1 (ata_wait_ready ports n d1) (prompt.remembers d)
                (wait_ready-Settled n d1 (omega arith)))
      ]

  -- The drive's answer to a command.
  abbrev pub Answered : Option (Bool × Device) → Type 0
  Answered none = ⊥
  Answered (some (ok, d)) = delay d ≡ 0

  bind_then :
      {A : Type 0} (P : Option A → Type 0) (d : Device) (r : Option Device) (k : Device → Option A)
      → Settled d r
      → ((d1 : Device) → delay d1 ≡ 0 → asked d1 ≡ asked d → P (k d1))
      → P (Option.bind r k)
  unfolding Option.bind
  bind_then P d none k a f = absurd a
  bind_then P d (some d1) k (z, e) f = f d1 z e

  wait_data-Settled :
      (fuel : ℕ) (d : Device)
      → 0 < fuel
      → delay d ≡ 0
      → asked d ≡ true
      → has_error (inb reg_status d).0 ≡ false
      → Settled d (wait_data ports fuel (inb reg_status d).1)
  unfolding wait_data
  wait_data-Settled zero d h z a e = absurd (omega arith)
  wait_data-Settled (suc n) d h z a e =
      let d1 = (inb reg_status d).1 in
      let (calm, drdy, still) = prompt.settles d z in
      let (calm1, drdy1, still1) = prompt.settles d1 still in
      rw (prompt.answers d z a e) (still1, prompt.remembers d1 ∙ prompt.remembers d)

  mapped : (d : Device) (r : Option Device) → Settled d r → Answered (Option.map (λ x. (true, x)) r)
  mapped d none a = a
  mapped d (some x) a = a.0

  await_data-Answered :
      (fuel : ℕ) (d : Device) → delay d < fuel → asked d ≡ true → Answered (await_data ports fuel d)
  unfolding await_data
  await_data-Answered fuel d h a =
      bind_then Answered d (ata_wait_ready ports fuel d)
        (λ d1.
          let (status, d2) = inb reg_status d1 in
          let waited = Option.map (λ d3. (true, d3)) (wait_data ports fuel d2) in
          if has_error status then some (false, d2) else waited)
        (wait_ready-Settled fuel d h)
        (λ d1 z e. elim (Bool-cases (has_error (inb reg_status d1).0)) [
          | inl bad ↦ rw bad (prompt.settles d1 z).2
          | inr good ↦ rw good (
              mapped d1 (wait_data ports fuel (inb reg_status d1).1)
                (wait_data-Settled fuel d1 (omega arith) z (e ∙ a) good))
        ])

  abbrev Idle : Option Device → Type 0
  Idle none = ⊥
  Idle (some d) = delay d ≡ 0

  Settled-Idle : (d : Device) (r : Option Device) → Settled d r → Idle r
  Settled-Idle d none a = a
  Settled-Idle d (some x) a = a.0

  idle_then :
      {A : Type 0} (P : Option A → Type 0) (r : Option Device) (k : Device → Option A)
      → Idle r
      → ((d : Device) → P (k d))
      → P (Option.bind r k)
  unfolding Option.bind
  idle_then P none k a f = absurd a
  idle_then P (some d) k a f = f d

  select_drive-Idle :
      (fuel byte : ℕ) (d : Device)
      → limit < fuel
      → delay d ≤ limit
      → Idle (select_drive ports fuel byte d)
  unfolding select_drive
  select_drive-Idle fuel byte d h s =
      bind_then Idle d (ata_wait_busy ports fuel d)
        (λ d1. ata_wait_ready ports fuel (outb reg_device byte d1))
        (wait_busy-Settled fuel d (omega arith))
        (λ d1 z e.
          let d2 = outb reg_device byte d1 in
          Settled-Idle d2 (ata_wait_ready ports fuel d2)
            (wait_ready-Settled fuel d2 (omega (arith, prompt.obeys reg_device byte d1, h))))

  -- The command after the drive is chosen.
  pub commanded :
      {A : Type 0} (P : Option A → Type 0) (fuel byte count lba command : ℕ) (d : Device)
      (k : Option (Bool × Device) → Option A)
      → limit < fuel
      → delay d ≤ limit
      → ((r : Option (Bool × Device)) → Answered r → P (k r))
      → P (
          Option.bind
            (select_drive ports fuel byte d)
            (λ d1. k (await_data ports fuel (send_command ports count lba command d1))))
  unfolding send_command
  commanded P fuel byte count lba command d k h s f =
      idle_then P (select_drive ports fuel byte d)
        (λ d1. k (await_data ports fuel (send_command ports count lba command d1)))
        (select_drive-Idle fuel byte d h s)
        (λ d1.
          let e = outb reg_lba0 (lba % 2 ^ 8) (outb reg_count count d1) in
          let e1 = outb reg_lba2 (lba / 2 ^ 16 % 2 ^ 8) (outb reg_lba1 (lba / 2 ^ 8 % 2 ^ 8) e) in
          f (await_data ports fuel (send_command ports count lba command d1)) (
            await_data-Answered fuel (send_command ports count lba command d1)
              (omega (arith, prompt.obeys reg_status command e1, h)) (prompt.asks command e1)))
