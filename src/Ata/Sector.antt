-- ===== src/Ata/Sector.antt =====
-- The commands and the data of kernel/drivers/ata.c.
use mathlib.Core.List.{append_assoc, append-nil}
use mathlib.Core.Option
use v.Common.{
  ℕ, zero, suc, ◌+◌, ◌*◌, ◌/◌, ◌%◌, ◌^◌, ◌<◌, ◌≤◌, ◌≡◌, refl, sym, ap, ap₂, ◌∙◌, fun_ext, List, [],
  ◌∷◌, ◌++◌, ltb, leb, ◌&&◌, if◌then◌else◌, arith, bit_or-bytes, ℕ_discrete,
}
use v.Ata.{
  Ports, reg_data, data_word, put_word, device_byte, send_command, read_words, write_words,
  ata_read_sector, ata_write_sector, take_words, give_words, await_data, select_drive,
}

device_byte_alias : (drive lba : ℕ) → device_byte drive (lba + 2 ^ 28) ≡ device_byte drive lba
unfolding device_byte
device_byte_alias drive lba =
    let e : (lba + 2 ^ 28) / 2 ^ 24 % 16 ≡ lba / 2 ^ 24 % 16 = omega arith in rw e refl

module _ (ports : Ports) where
  open ports use {Device}

  send_command_alias :
      (count lba command : ℕ) (d : Device)
      → send_command ports count (lba + 2 ^ 28) command d ≡ send_command ports count lba command d
  unfolding send_command
  send_command_alias count lba command d =
      let e0 : (lba + 2 ^ 28) % 2 ^ 8 ≡ lba % 2 ^ 8 = omega arith in
      let e1 : (lba + 2 ^ 28) / 2 ^ 8 % 2 ^ 8 ≡ lba / 2 ^ 8 % 2 ^ 8 = omega arith in
      let e2 : (lba + 2 ^ 28) / 2 ^ 16 % 2 ^ 8 ≡ lba / 2 ^ 16 % 2 ^ 8 = omega arith in
      rw (send_command, e0, e1, e2) refl

  -- Whatever the drive answers, a read and a write of the sector 2^28 behind another do exactly what a
  -- read and a write of that other sector do.
  pub ata_sector_aliases :
      (fuel drive lba : ℕ) (buffer : ℕ → ℕ) (d : Device)
      → (ata_read_sector ports fuel drive (lba + 2 ^ 28) buffer d
          ≡ ata_read_sector ports fuel drive lba buffer d)
        × (ata_write_sector ports fuel drive (lba + 2 ^ 28) buffer d
            ≡ ata_write_sector ports fuel drive lba buffer d)
  unfolding ata_read_sector ata_write_sector
  ata_sector_aliases fuel drive lba buffer d =
      let b = device_byte_alias drive lba in
      let c : (command : ℕ)
          → (λ (x : Device). send_command ports 1 (lba + 2 ^ 28) command x)
            ≡ (λ (x : Device). send_command ports 1 lba command x) =
        λ command. fun_ext (λ x. send_command_alias 1 lba command x) in
      (
        ap₂
            (λ byte (send : Device → Device).
              Option.bind (select_drive ports fuel byte d)
                (λ d1. Option.map (take_words ports buffer) (await_data ports fuel (send d1))))
            b (c 0x20),
        ap₂
            (λ byte (send : Device → Device).
              Option.bind (select_drive ports fuel byte d) (λ d1.
                Option.bind (await_data ports fuel (send d1)) (give_words ports fuel buffer)))
            b (c 0x30),
      )

-- A drive's data register passes its words on in their order.
pub record IsFifo (ports : Ports) (queue : ports.Device → List ℕ) : Type 0 where
  pub given :
      (w : ℕ) (d : ports.Device)
      → w < 2 ^ 16
      → queue (ports.outw reg_data w d) ≡ queue d ++ (w ∷ [])
  pub taken :
      (d : ports.Device) (w : ℕ) (ws : List ℕ)
      → queue d ≡ w ∷ ws
      → ((ports.inw reg_data d).0 ≡ w) × (queue (ports.inw reg_data d).1 ≡ ws)

-- The words of a buffer of bytes.
words : (n i : ℕ) → (ℕ → ℕ) → List ℕ
words zero i b = []
words (suc n) i b = data_word b i ∷ words n (i + 1) b

word_at_bytes :
    (b : ℕ → ℕ) (i : ℕ) → ((j : ℕ) → b j < 256) → data_word b i ≡ b (i * 2) + b (i * 2 + 1) * 256
unfolding data_word
word_at_bytes b i small = bit_or-bytes (b (i * 2 + 1)) (b (i * 2)) (small (i * 2))

-- The two bytes of a word of `b` go to their places.
put_word-data_word :
    (b t : ℕ → ℕ) (i j : ℕ)
    → ((j : ℕ) → b j < 256)
    → put_word (data_word b i) i t j ≡ (if leb (i * 2) j && ltb j (i * 2 + 2) then b j else t j)
unfolding put_word
put_word-data_word b t i j small =
    let lo = small (i * 2) in
    let hi = small (i * 2 + 1) in
    let e = word_at_bytes b i small in
    let low : data_word b i % 2 ^ 8 ≡ b (i * 2) = omega arith in
    let high : data_word b i / 2 ^ 8 % 2 ^ 8 ≡ b (i * 2 + 1) = omega arith in
    rw (low, high)
      (elim (ℕ_discrete (i * 2) j) [
        | yes q ↦ ground (arith, ap b q)
        | no q ↦ elim (ℕ_discrete (i * 2 + 1) j) [
          | yes r ↦ ground (arith, ap b r)
          | no r ↦ ground arith
        ]
      ])

module _ (ports : Ports) (queue : ports.Device → List ℕ) (fifo : IsFifo ports queue) where
  open ports use {Device}

  queue-write_words :
      (n i : ℕ) (b : ℕ → ℕ) (d : Device)
      → ((j : ℕ) → b j < 256)
      → queue (write_words ports n i b d) ≡ queue d ++ words n i b
  unfolding write_words words
  queue-write_words zero i b d small = sym (append-nil (queue d))
  queue-write_words (suc n) i b d small =
      queue-write_words n (i + 1) b (ports.outw reg_data (data_word b i) d) small
      ∙ ap (λ q. q ++ words n (i + 1) b)
          (fifo.given (data_word b i) d
            (omega (arith, word_at_bytes b i small, small (i * 2), small (i * 2 + 1))))
      ∙ append_assoc (queue d) (data_word b i ∷ []) (words n (i + 1) b)

  read_words-words :
      (n i : ℕ) (b t : ℕ → ℕ) (d : Device) (j : ℕ)
      → ((j : ℕ) → b j < 256)
      → queue d ≡ words n i b
      → (read_words ports n i t d).0 j
        ≡ (if leb (i * 2) j && ltb j (i * 2 + n * 2) then b j else t j)
  unfolding read_words words
  read_words-words zero i b t d j small q = ground arith
  read_words-words (suc n) i b t d j small q =
      let (w, rest) = fifo.taken d (data_word b i) (words n (i + 1) b) q in
      read_words-words n (i + 1) b (put_word (ports.inw reg_data d).0 i t) (ports.inw reg_data d).1
        j small rest
      ∙ ground (arith, ap (λ x. put_word x i t j) w ∙ put_word-data_word b t i j small)

  -- Where the data register passes words on in their order and holds none, the words that
  -- ata_write_sector sends from a buffer of bytes, taken by the loop of ata_read_sector, give the
  -- first 512 bytes of that buffer, and leave the rest of the target as it was.
  pub read_words-write_words :
      (b t : ℕ → ℕ) (d : Device) (j : ℕ)
      → ((j : ℕ) → b j < 256)
      → queue d ≡ []
      → let r = (read_words ports 256 0 t (write_words ports 256 0 b d)).0 in
        (j < 512 → r j ≡ b j) × (512 ≤ j → r j ≡ t j)
  read_words-write_words b t d j small empty =
      let q : queue (write_words ports 256 0 b d) ≡ words 256 0 b =
        queue-write_words 256 0 b d small ∙ ap (λ x. x ++ words 256 0 b) empty in
      let e = read_words-words 256 0 b t (write_words ports 256 0 b d) j small q in
      (λ h. ground (arith, e, h), λ h. ground (arith, e, h))
