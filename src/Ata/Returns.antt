-- ===== src/Ata/Returns.antt =====
-- `ata_read_sector` and `ata_write_sector` of kernel/drivers/ata.c return at a prompt drive.
use mathlib.Core.Option
use v.Common.{
  ℕ, zero, suc, ◌+◌, ◌*◌, ◌<◌, ◌≤◌, ◌≡◌, refl, ◌∙◌, Option, none, some, Bool, true, false, arith,
}
use v.Ata.{
  Ports, reg_data, ata_wait_ready, read_words, write_words, take_words, give_words, data_word,
  put_word, ata_read_sector, ata_write_sector, device_byte,
}
use v.Ata.Waits.{IsPrompt, Settled, Answered, wait_ready-Settled, commanded}

module _ (ports : Ports) (delay : ports.Device → ℕ) (asked : ports.Device → Bool) (limit : ℕ)
    (prompt : IsPrompt ports delay asked limit) where
  open ports use {Device, inw, outw}

  read_words_keeps :
      (n i : ℕ) (t : ℕ → ℕ) (d : Device) (j : ℕ)
      → i * 2 + n * 2 ≤ j
      → (read_words ports n i t d).0 j ≡ t j
  unfolding read_words put_word
  read_words_keeps zero i t d j h = refl
  read_words_keeps (suc n) i t d j h =
      let (w, d1) = inw reg_data d in
      read_words_keeps n (i + 1) (put_word w i t) d1 j (omega (arith, h)) ∙ ground (arith, h)

  delay-read_words :
      (n i : ℕ) (t : ℕ → ℕ) (d : Device)
      → delay d ≤ limit
      → delay (read_words ports n i t d).1 ≤ limit
  unfolding read_words
  delay-read_words zero i t d h = h
  delay-read_words (suc n) i t d h =
      let (w, d1) = inw reg_data d in
      delay-read_words n (i + 1) (put_word w i t) d1 (prompt.gives d)

  delay-write_words :
      (n i : ℕ) (t : ℕ → ℕ) (d : Device)
      → delay d ≤ limit
      → delay (write_words ports n i t d) ≤ limit
  unfolding write_words
  delay-write_words zero i t d h = h
  delay-write_words (suc n) i t d h =
      delay-write_words n (i + 1) t (outw reg_data (data_word t i) d)
        (prompt.takes (data_word t i) d)

  -- What a read leaves: a drive that answers as promptly as before, and a buffer that changed at most in
  -- the first 512 bytes, and only on success.
  abbrev pub Read : (ℕ → ℕ) → Option (Bool × (ℕ → ℕ) × Device) → Type 0
  Read t none = ⊥
  Read t (some (ok, b, d)) =
      (delay d ≤ limit) × (ok ≡ false → b ≡ t) × ((j : ℕ) → 512 ≤ j → b j ≡ t j)

  abbrev pub Written : Option (Bool × Device) → Type 0
  Written none = ⊥
  Written (some (ok, d)) = delay d ≤ limit

  take_words-Read :
      (t : ℕ → ℕ) (r : Option (Bool × Device))
      → Answered ports delay asked limit prompt r
      → Read t (Option.map (take_words ports t) r)
  unfolding take_words
  take_words-Read t none a = a
  take_words-Read t (some (false, d)) a = (omega arith, λ e. refl, λ j h. refl)
  take_words-Read t (some (true, d)) a = (
    delay-read_words 256 0 t d (omega arith),
    λ e. cc,
    λ j h. read_words_keeps 256 0 t d j (omega arith),
  )

  finished :
      (d : Device) (r : Option Device)
      → Settled ports delay asked limit prompt d r
      → Written (Option.map (λ x. (true, x)) r)
  finished d none a = a
  finished d (some x) a = omega (arith, a.0)

  give_words-Written :
      (fuel : ℕ) (t : ℕ → ℕ) (r : Option (Bool × Device))
      → limit < fuel
      → Answered ports delay asked limit prompt r
      → Written (Option.bind r (give_words ports fuel t))
  unfolding Option.bind give_words
  give_words-Written fuel t none h a = a
  give_words-Written fuel t (some (false, d)) h a = omega arith
  give_words-Written fuel t (some (true, d)) h a =
      let d1 = write_words ports 256 0 t d in
      finished d1 (ata_wait_ready ports fuel d1) (
        wait_ready-Settled ports delay asked limit prompt fuel d1
          (omega (arith, delay-write_words 256 0 t d (omega arith))))

  -- At a drive that is busy for at most `limit` reads of its status after each write or transfer, then
  -- ready, and that answers a command with an error or with data, every wait on more fuel than that is
  -- over: ata_read_sector and ata_write_sector return, with the drive as prompt as before, and a read
  -- changes nothing of the buffer on an error and nothing behind its first 512 bytes on success.
  pub ata_sector_returns :
      (fuel drive lba : ℕ) (buffer : ℕ → ℕ) (d : Device)
      → limit < fuel
      → delay d ≤ limit
      → Read buffer (ata_read_sector ports fuel drive lba buffer d)
        × Written (ata_write_sector ports fuel drive lba buffer d)
  unfolding ata_read_sector ata_write_sector
  ata_sector_returns fuel drive lba buffer d h s = (
    commanded ports delay asked limit prompt (Read buffer) fuel (device_byte drive lba) 1 lba 0x20 d
        (Option.map (take_words ports buffer)) h s (take_words-Read buffer),
    commanded ports delay asked limit prompt Written fuel (device_byte drive lba) 1 lba 0x30 d
        (λ r. Option.bind r (give_words ports fuel buffer)) h s
        (λ r a. give_words-Written fuel buffer r h a),
  )
