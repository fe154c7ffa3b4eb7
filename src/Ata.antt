-- ===== src/Ata.antt =====
-- kernel/drivers/ata.c, over the ports. What a port gives and does is the hardware's, a parameter. A loop
-- that waits has fuel: `none` stands for a wait that is not over.
pub mod Sector
pub mod Waits
pub mod Returns
mod Tests
use Prim.Native.Nat.{bit_or}
use v.Common.{
  ℕ, zero, suc, ◌+◌, ◌-◌, ◌*◌, ◌/◌, ◌%◌, ◌^◌, Bool, true, false, ◌&&◌, Option, none, some, ◌==◌,
  if◌then◌else◌, update,
}
use mathlib.Core.Option

-- inb, outb, inw and outw.
pub record Ports : Type 1 where
  pub Device : Type 0
  pub inb : ℕ → Device → ℕ × Device
  pub outb : ℕ → ℕ → Device → Device
  pub inw : ℕ → Device → ℕ × Device
  pub outw : ℕ → ℕ → Device → Device

-- ATA_REG_DATA, ATA_REG_SECCOUNT0, ATA_REG_LBA0, ATA_REG_LBA1, ATA_REG_LBA2, ATA_REG_HDDEVSEL,
-- ATA_REG_COMMAND and ATA_REG_STATUS
abbrev pub reg_data : ℕ
reg_data = 0x1F0

abbrev pub reg_count : ℕ
reg_count = 0x1F2

abbrev pub reg_lba0 : ℕ
reg_lba0 = 0x1F3

abbrev pub reg_lba1 : ℕ
reg_lba1 = 0x1F4

abbrev pub reg_lba2 : ℕ
reg_lba2 = 0x1F5

abbrev pub reg_device : ℕ
reg_device = 0x1F6

abbrev pub reg_status : ℕ
reg_status = 0x1F7

-- ATA_SR_BSY, ATA_SR_DRDY, ATA_SR_DRQ and ATA_SR_ERR in a status.
abbrev pub is_busy : ℕ → Bool
is_busy s = (s / 2 ^ 7 % 2) == 1

abbrev pub is_drive_ready : ℕ → Bool
is_drive_ready s = (s / 2 ^ 6 % 2) == 1

abbrev pub wants_data : ℕ → Bool
wants_data s = (s / 2 ^ 3 % 2) == 1

abbrev pub has_error : ℕ → Bool
has_error s = (s % 2) == 1

-- What `ata_init` records.
pub record Drives : Type 0 where
  pub ata_primary_master_exists : Bool
  pub ata_primary_slave_exists : Bool

-- The byte for the device register.
pub device_byte : (drive lba : ℕ) → ℕ
device_byte drive lba = bit_or drive (lba / 2 ^ 24 % 16)

-- The word `i` of a buffer of bytes.
pub data_word : (ℕ → ℕ) → ℕ → ℕ
data_word buffer i = bit_or (buffer (i * 2)) (buffer (i * 2 + 1) * 2 ^ 8)

-- The bytes of a word go to their places.
pub put_word : ℕ → ℕ → (ℕ → ℕ) → ℕ → ℕ
put_word w i buffer = update (update buffer (i * 2) (w % 2 ^ 8)) (i * 2 + 1) (w / 2 ^ 8 % 2 ^ 8)

module _ (ports : Ports) where
  open ports use {Device, inb, outb, inw, outw}

  pub ata_wait_busy : (fuel : ℕ) → Device → Option Device
  ata_wait_busy zero d = none
  ata_wait_busy (suc n) d =
      let (s, d1) = inb reg_status d in
      let rest = ata_wait_busy n d1 in if is_busy s then rest else some d1

  -- The status is read a second time only where the first is not busy.
  pub ata_wait_ready : (fuel : ℕ) → Device → Option Device
  ata_wait_ready zero d = none
  ata_wait_ready (suc n) d =
      let (s, d1) = inb reg_status d in
      let (s', d2) = inb reg_status d1 in
      let again1 = ata_wait_ready n d1 in
      let again2 = ata_wait_ready n d2 in
      if is_busy s then again1 else (if is_drive_ready s' then some d2 else again2)

  -- The loop that waits for ATA_SR_DRQ.
  pub wait_data : (fuel : ℕ) → Device → Option Device
  wait_data zero d = none
  wait_data (suc n) d =
      let (s, d1) = inb reg_status d in
      let rest = wait_data n d1 in if wants_data s then some d1 else rest

  -- From the first wait up to the wait behind the choice of the drive.
  pub select_drive : (fuel byte : ℕ) → Device → Option Device
  select_drive fuel byte d =
      Option.bind (ata_wait_busy fuel d) (λ d1. ata_wait_ready fuel (outb reg_device byte d1))

  -- The number of sectors, the three low bytes of the sector's number, and the command.
  pub send_command : (count lba command : ℕ) → Device → Device
  send_command count lba command d =
      let d1 = outb reg_lba0 (lba % 2 ^ 8) (outb reg_count count d) in
      let d2 = outb reg_lba2 (lba / 2 ^ 16 % 2 ^ 8) (outb reg_lba1 (lba / 2 ^ 8 % 2 ^ 8) d1) in
      outb reg_status command d2

  -- The loops over the words of a sector: `n` from word `i` on.
  pub read_words : (n i : ℕ) → (ℕ → ℕ) → Device → (ℕ → ℕ) × Device
  read_words zero i buffer d = (buffer, d)
  read_words (suc n) i buffer d =
      let (w, d1) = inw reg_data d in read_words n (i + 1) (put_word w i buffer) d1

  pub write_words : (n i : ℕ) → (ℕ → ℕ) → Device → Device
  write_words zero i buffer d = d
  write_words (suc n) i buffer d =
      write_words n (i + 1) buffer (outw reg_data (data_word buffer i) d)

  pub skip_words : ℕ → Device → Device
  skip_words zero d = d
  skip_words (suc n) d = skip_words n (inw reg_data d).1

  -- From the command to the data: false on an error.
  pub await_data : (fuel : ℕ) → Device → Option (Bool × Device)
  await_data fuel d = Option.bind (ata_wait_ready fuel d) (λ d1.
      let (status, d2) = inb reg_status d1 in
      let waited = Option.map (λ d3. (true, d3)) (wait_data fuel d2) in
      if has_error status then some (false, d2) else waited)

  -- The words are taken where the drive has them.
  pub take_words : (ℕ → ℕ) → Bool × Device → Bool × (ℕ → ℕ) × Device
  take_words buffer (false, d) = (false, buffer, d)
  take_words buffer (true, d) = let (b, d1) = read_words 256 0 buffer d in (true, b, d1)

  -- Whether it succeeded, the buffer and the device.
  pub ata_read_sector : (fuel drive lba : ℕ) → (ℕ → ℕ) → Device → Option (Bool × (ℕ → ℕ) × Device)
  ata_read_sector fuel drive lba buffer d =
      Option.bind (select_drive fuel (device_byte drive lba) d)
        (λ d1. Option.map (take_words buffer) (await_data fuel (send_command 1 lba 0x20 d1)))

  pub give_words : (fuel : ℕ) → (ℕ → ℕ) → Bool × Device → Option (Bool × Device)
  give_words fuel buffer (false, d) = some (false, d)
  give_words fuel buffer (true, d) =
      Option.map (λ d1. (true, d1)) (ata_wait_ready fuel (write_words 256 0 buffer d))

  pub ata_write_sector : (fuel drive lba : ℕ) → (ℕ → ℕ) → Device → Option (Bool × Device)
  ata_write_sector fuel drive lba buffer d =
      Option.bind (select_drive fuel (device_byte drive lba) d)
        (λ d1. Option.bind (await_data fuel (send_command 1 lba 0x30 d1)) (give_words fuel buffer))

  pub drop_words : Bool × Device → Bool × Device
  drop_words (false, d) = (false, d)
  drop_words (true, d) = (true, skip_words 256 d)

  pub ata_identify : (fuel drive : ℕ) → Device → Option (Bool × Device)
  ata_identify fuel drive d = Option.bind (select_drive fuel drive d) (λ d1.
      let (status, d2) = inb reg_status (send_command 0 0 0xEC d1) in
      let waited = Option.map drop_words (await_data fuel d2) in
      if status == 0 then some (false, d2) else waited)

  -- A drive that is not found keeps its flag.
  pub ata_init : (fuel : ℕ) → Drives → Device → Option (Drives × Device)
  ata_init fuel s d = Option.bind (ata_identify fuel 0xE0 d) (λ (master, d1).
      Option.map
        (λ (slave, d2). (
          record {
            ata_primary_master_exists = if master then true else s.ata_primary_master_exists;
            ata_primary_slave_exists = if slave then true else s.ata_primary_slave_exists;
          },
          d2,
        ))
        (ata_identify fuel 0xF0 d1))
