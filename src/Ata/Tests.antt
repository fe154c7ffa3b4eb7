-- ===== src/Ata/Tests.antt =====
-- Transfers at a drive that is always ready, and the theorems at it.
use v.Common.{
  ℕ, ◌-◌, ◌==◌, if◌then◌else◌, ◌+◌, ◌%◌, ◌^◌, ◌≡◌, refl, ap, Bool, true, false, List, [], ◌∷◌, ◌++◌,
  some, arith,
}
use mathlib.Core.Option
use v.Ata.{
  Ports, write_words, data_word, ata_read_sector, ata_write_sector, ata_init, ata_identify,
  select_drive, ata_wait_busy, ata_wait_ready, await_data, wait_data, send_command, drop_words,
  skip_words,
}
use v.Ata.Waits.{IsPrompt}
use v.Ata.Returns.{Read, Written, ata_sector_returns}
use v.Ata.Sector.{IsFifo, ata_sector_aliases}

-- The device is its status and the words in its data register.
abbrev head_or : ℕ → List ℕ → ℕ
head_or w [] = w
head_or w (x ∷ xs) = x

abbrev tail_of : List ℕ → List ℕ
tail_of [] = []
tail_of (x ∷ xs) = xs

abbrev buffered : Ports
buffered = record {
  Device = ℕ × List ℕ;
  inb = λ port d. (d.0, d);
  outb = λ port v d. d;
  inw = λ port d. (head_or 0 d.1, (d.0, tail_of d.1));
  outw = λ port w d. (d.0, d.1 ++ (w ∷ []));
}

abbrev queue : ℕ × List ℕ → List ℕ
queue d = d.1

buffered-IsFifo : IsFifo buffered queue
buffered-IsFifo = record {
  given = λ w d h. refl;
  taken = λ d w ws e. (ap (head_or 0) e, ap tail_of e);
}

abbrev bytes : ℕ → ℕ
bytes j = j % 256

-- Four bytes on the way to the drive and back.
four_bytes : (write_words buffered 2 0 bytes (72, [])).1 ≡ 256 ∷ 770 ∷ []
unfolding write_words data_word
four_bytes = refl

-- A drive that is ready and has data is found; one that has an error is not.
finds :
    ata_init buffered 1
      (record { ata_primary_master_exists = false; ata_primary_slave_exists = false })
      (72, [])
    ≡ some (record { ata_primary_master_exists = true; ata_primary_slave_exists = true }, (72, []))
unfolding Option.bind ata_init ata_identify select_drive ata_wait_busy ata_wait_ready await_data
    wait_data send_command drop_words skip_words
finds = refl

ata_sector_aliases_example :
    (ata_read_sector buffered 1 0xE0 (5 + 2 ^ 28) bytes (72, [])
      ≡ ata_read_sector buffered 1 0xE0 5 bytes (72, []))
    × (ata_write_sector buffered 1 0xE0 (5 + 2 ^ 28) bytes (72, [])
        ≡ ata_write_sector buffered 1 0xE0 5 bytes (72, []))
ata_sector_aliases_example = ata_sector_aliases buffered 1 0xE0 5 bytes (72, [])

-- A drive that is busy for two reads of its status after a write of a register, and one after a word.
abbrev slow : Ports
slow = record {
  Device = ℕ × Bool;
  inb = λ port d. (if d.0 == 0 then 72 else 128, (d.0 - 1, d.1));
  outb = λ port v d. (2, true);
  inw = λ port d. (7, (0, d.1));
  outw = λ port w d. (1, d.1);
}

abbrev delay : ℕ × Bool → ℕ
delay d = d.0

abbrev asked : ℕ × Bool → Bool
asked d = d.1

slow-IsPrompt : IsPrompt slow delay asked 2
slow-IsPrompt = record {
  counts = λ d h. omega (arith, h);
  settles = λ d h. (ground (arith, h), ground (arith, h), omega (arith, h));
  busy = λ d h. ground (arith, h);
  remembers = λ d. refl;
  answers = λ d h a e. ground (arith, h);
  obeys = λ port v d. omega arith;
  asks = λ command d. refl;
  gives = λ d. omega arith;
  takes = λ w d. omega arith;
}

ata_sector_returns_example :
    Read slow delay asked 2 slow-IsPrompt bytes (ata_read_sector slow 3 0xE0 5 bytes (0, false))
    × Written slow delay asked 2 slow-IsPrompt (ata_write_sector slow 3 0xE0 5 bytes (0, false))
ata_sector_returns_example =
    ata_sector_returns slow delay asked 2 slow-IsPrompt 3 0xE0 5 bytes (0, false) (omega arith)
      (omega arith)
