-- ===== src/Fat/Tests.antt =====
-- Runs of kernel/fs/fat.c on small volumes.
use v.Common.{
  ◌||◌, ℕ, ◌+◌, ◌-◌, ◌/◌, ◌%◌, ◌≤◌, ◌<◌, ◌≡◌, refl, subst, true, arith, [], ◌∷◌, Option, none, some,
  ◌==◌, if◌then◌else◌, List, ltb, leb, ◌&&◌, not, get_or,
}
use v.Fat.{BootSector, FatType, FatFilesystem, File, cluster_to_sector, read_fat_entry, entry_of}
use v.Fat.Volume.{
  layout, sectors_before, total_sectors, fat_size_of, root_dir_sectors, cluster_count_of,
}
use v.Pages.{endless}
use v.Heap.{Heap, heap_start}
use v.Heap.Alloc.{IsValid}
use v.Fat.Volume.{boot_of, fat_mount}
use v.Fat.Volume.Release.{Mounts, Tells, fat_unmount-fat_mount}
use v.Fat.Volume.Bounds.{cluster_to_sector_in_volume}
use v.Fat.Directory.Search.{directory, first_match, IsDirectory, last}
use v.Fat.Directory.Lookup.{fat_open-first_match}
use v.Fat.Directory.{
  DirectoryEntry, root_of, open_entry, fat_name, scan, fat_open, before_dot, behind_dot, padded,
  upper, entry_at, same,
}
use v.Fat.Directory.Stuck.{fat_open_stuck, Lacks}
use v.Fat.Cluster.{Reads, read_cluster_lem}
use v.Fat.Access.{fat_read}
use v.Fat.Access.Read.{IsReadable, IsPlaced, Returns}
use v.Fat.Access.Loop.{fat_read_lem}

abbrev small_boot : BootSector
small_boot = record {
  bytes_per_sector = 512;
  sectors_per_cluster = 1;
  reserved_sectors = 1;
  num_fats = 2;
  root_entries = 16;
  total_sectors_16 = 100;
  fat_size_16 = 4;
  total_sectors_32 = 0;
  fat_size_32 = 0;
  boot_root_cluster = 0;
}

-- A volume on which cluster `c` is followed by cluster `c + 1`.
abbrev volume : FatFilesystem
volume = record {
  boot = small_boot;
  fat_start = 1;
  fat_size = 4;
  root_start = 9;
  root_cluster = 0;
  data_start = 10;
  cluster_count = 90;
  cluster_size = 512;
  fat_type = FatType.fat16;
  fat = 4096;
  fat_bytes = λ o. if (o % 2) == 0 then o / 2 + 1 else 0;
}

abbrev text : File
text = record {
  path = b'A' ∷ [];
  flags = 1;
  position = 500;
  size = 700;
  attributes = 0;
  first_cluster = 2;
  current_cluster = 2;
  cluster_offset = 0;
}

-- Sector `s` holds the byte `s` throughout.
abbrev disk : ℕ → ℕ → ℕ
disk s o = s

abbrev read_disk : ℕ → Option (ℕ → ℕ)
read_disk s = some (disk s)

disk-Reads : Reads read_disk disk
disk-Reads s h = refl

name_run :
    fat_name (b'm' ∷ b'.' ∷ b'c' ∷ [])
    ≡ b'M' ∷ 32 ∷ 32 ∷ 32 ∷ 32 ∷ 32 ∷ 32 ∷ 32 ∷ b'C' ∷ 32 ∷ 32 ∷ []
unfolding fat_name before_dot behind_dot padded upper
name_run = refl

volume-IsReadable : IsReadable volume
volume-IsReadable = record { size_of_cluster = refl; nonempty = omega arith; fits = omega arith }

text-IsPlaced : IsPlaced volume text
unfolding read_fat_entry entry_of
text-IsPlaced = record {
  position_in = omega arith;
  size_in = omega arith;
  long = λ k h. omega arith;
  at_cluster = λ h. refl;
}

fat_read_lem_example :
    Returns read_disk disk disk-Reads volume volume-IsReadable
      (fat_read read_disk volume text (λ _. 0) 300 (λ _. 0))
      text
      (λ _. 0)
      0
      200
fat_read_lem_example =
    fat_read_lem read_disk disk disk-Reads volume volume-IsReadable text (λ _. 0) (λ _. 0) 300
      text-IsPlaced (omega arith)

cluster_to_sector_in_volume_example :
    (sectors_before small_boot ≤ cluster_to_sector (layout small_boot volume) 5 + 0)
    × (cluster_to_sector (layout small_boot volume) 5 + 0 < total_sectors small_boot)
unfolding layout fat_size_of root_dir_sectors total_sectors cluster_count_of sectors_before
cluster_to_sector_in_volume_example =
    cluster_to_sector_in_volume small_boot volume 5 0 (omega arith) (omega arith) (omega arith)
      (omega arith) (omega arith)

abbrev volume12 : FatFilesystem
volume12 = record volume { fat_type = FatType.fat12 }

abbrev ones : ℕ → Option (ℕ → ℕ)
ones s = some (λ o. 1)

ones-Lacks : Lacks ones volume12 (fat_name (b'A' ∷ []))
unfolding scan entry_at same fat_name before_dot behind_dot padded upper
ones-Lacks buffer =
    (_, read_cluster_lem ones (λ s o. 1) volume12 0 buffer (λ s h. refl) (omega arith), refl)

volume12-IsReadable : IsReadable volume12
volume12-IsReadable = record { size_of_cluster = refl; nonempty = omega arith; fits = omega arith }

fat_open_stuck_example : fat_open ones 1000 volume12 text (b'A' ∷ []) 1 (λ _. 0) ≡ none
fat_open_stuck_example =
    fat_open_stuck ones volume12 text (b'A' ∷ []) 1 (λ _. 0) volume12-IsReadable refl (omega arith)
      ones-Lacks 1000

-- A FAT32 volume whose root directory is cluster 2, with a deleted entry and then A.TXT of 100 bytes in
-- cluster 3.
abbrev volume32 : FatFilesystem
volume32 = record volume {
  root_cluster = 2;
  fat_type = FatType.fat32;
  fat_bytes = λ o. if leb 8 o then 255 else 0;
}

abbrev name_bytes : List ℕ
name_bytes = b'A' ∷ 32 ∷ 32 ∷ 32 ∷ 32 ∷ 32 ∷ 32 ∷ 32 ∷ b'T' ∷ b'X' ∷ b'T' ∷ []

-- Sector 10 is that directory.
abbrev disk32 : ℕ → ℕ → ℕ
disk32 s o =
    if not (s == 10)
    then s
    else if o == 0
    then 0xE5
    else if leb 32 o && ltb o 43
    then get_or name_bytes (o - 32) 0
    else if o == 58
    then 3
    else if o == 60
    then 100
    else 0

abbrev read32 : ℕ → Option (ℕ → ℕ)
read32 s = some (disk32 s)

disk32-Reads : Reads read32 disk32
disk32-Reads s h = refl

volume32-IsReadable : IsReadable volume32
volume32-IsReadable = record { size_of_cluster = refl; nonempty = omega arith; fits = omega arith }

root-IsDirectory : IsDirectory volume32 1 (root_of volume32.fat_type volume32)
unfolding root_of read_fat_entry entry_of
root-IsDirectory = last (omega arith) (omega arith)

abbrev path32 : List ℕ
path32 = b'a' ∷ b'.' ∷ b't' ∷ b'x' ∷ b't' ∷ []

abbrev entry32 : DirectoryEntry
entry32 = record { name = name_bytes; attr = 0; fst_clus_hi = 0; fst_clus_lo = 3; file_size = 100 }

abbrev closed : File
closed = record text { position = 0 }

fat_open-first_match_example :
    fat_open read32 2 volume32 closed path32 1 (λ _. 0)
    ≡ some (
        open_entry closed path32 1 (
          first_match
            (fat_name path32)
            (directory disk32 volume32 1 (root_of volume32.fat_type volume32))))
fat_open-first_match_example =
    fat_open-first_match read32 disk32 disk32-Reads volume32 volume32-IsReadable (omega arith) 2 1
      closed path32 1 (λ _. 0) root-IsDirectory (omega arith)

-- A disk whose boot sector tells sectors of 512 bytes, one of them per cluster, and one for the table.
abbrev boot_byte : ℕ → ℕ
boot_byte o = if o == 12 then 2 else if o == 13 || (o == 22) then 1 else 0

abbrev boot_disk : ℕ → Option (ℕ → ℕ)
boot_disk s = some boot_byte

abbrev free_heap : Heap
free_heap = record {
  blocks = record { addr = heap_start; size = 1000; free = true } ∷ [];
  heap_end = heap_start + 1024;
}

free_heap-IsValid : IsValid free_heap
free_heap-IsValid = record { chain = omega arith; bound = omega arith; settled = (refl, tt) }

boot_disk-Tells :
    (bytes : ℕ → ℕ) → boot_disk 0 ≡ some bytes → Tells boot_disk endless (boot_of bytes)
unfolding boot_of fat_size_of
boot_disk-Tells bytes e =
    let same : boot_byte ≡ bytes = cc e in
    subst (λ (f : ℕ → ℕ). Tells boot_disk endless (boot_of f)) same
      (omega arith, omega arith, omega arith)

fat_unmount-fat_mount_example :
    Mounts boot_disk endless free_heap (fat_mount boot_disk endless volume free_heap 4096)
fat_unmount-fat_mount_example =
    fat_unmount-fat_mount boot_disk endless volume free_heap 4096 boot_disk-Tells free_heap-IsValid
      (omega arith)
