-- ===== src/Fat/Volume.antt =====
-- `fat_mount` and `fat_unmount` of kernel/fs/fat.c, over the heap of `kmalloc` and `kfree`.
pub mod Bounds
pub mod Release
use v.Common.{
  ℕ, zero, suc, leb, memcpy, ◌+◌, ◌-◌, ◌*◌, ◌/◌, ◌^◌, Option, none, some, Bool, true, false, ◌||◌,
  ◌==◌, ltb, if◌then◌else◌, u32,
}
use mathlib.Core.Option
use v.Pages.{PageSource}
use v.Heap.{Heap, kmalloc, kfree}
use v.Fat.{BootSector, FatType, FatFilesystem, word_at, double_at}

-- The bytes of the boot sector as a packed `struct fat_boot_sector`.
unfoldable pub boot_of : (ℕ → ℕ) → BootSector
boot_of bytes = record {
  bytes_per_sector = word_at bytes 11;
  sectors_per_cluster = bytes 13;
  reserved_sectors = word_at bytes 14;
  num_fats = bytes 16;
  root_entries = word_at bytes 17;
  total_sectors_16 = word_at bytes 19;
  fat_size_16 = word_at bytes 22;
  total_sectors_32 = double_at bytes 32;
  fat_size_32 = double_at bytes 36;
  boot_root_cluster = double_at bytes 44;
}

unfoldable pub root_dir_sectors : BootSector → ℕ
root_dir_sectors b = (b.root_entries * 32 + (b.bytes_per_sector - 1)) / b.bytes_per_sector

unfoldable pub fat_size_of : BootSector → ℕ
fat_size_of b = if b.fat_size_16 == 0 then b.fat_size_32 else b.fat_size_16

unfoldable pub total_sectors : BootSector → ℕ
total_sectors b = if b.total_sectors_16 == 0 then b.total_sectors_32 else b.total_sectors_16

-- The sectors before the data area, as `data_sectors` counts them.
unfoldable pub sectors_before : BootSector → ℕ
sectors_before b = u32 (b.reserved_sectors + b.num_fats * fat_size_of b + root_dir_sectors b)

unfoldable pub cluster_count_of : BootSector → ℕ
cluster_count_of b = u32 (total_sectors b + 2 ^ 32 - sectors_before b) / b.sectors_per_cluster

pub fat_type_of : ℕ → FatType
fat_type_of clusters =
    if ltb clusters 4085
    then FatType.fat12
    else (if ltb clusters 65525 then FatType.fat16 else FatType.fat32)

-- The assignments of `fat_mount` to the volume.
unfoldable pub layout : BootSector → FatFilesystem → FatFilesystem
layout b fs =
    let root = u32 (b.reserved_sectors + b.num_fats * fat_size_of b) in
    record fs {
      boot = b;
      fat_start = b.reserved_sectors;
      fat_size = fat_size_of b;
      root_start = root;
      root_cluster =
          if ltb (cluster_count_of b) 65525 then fs.root_cluster else b.boot_root_cluster;
      data_start = u32 (root + root_dir_sectors b);
      cluster_count = cluster_count_of b;
      cluster_size = b.sectors_per_cluster * b.bytes_per_sector;
      fat_type = fat_type_of (cluster_count_of b);
    }

module _ (read_sector : ℕ → Option (ℕ → ℕ)) (pages : PageSource) where
  open pages use {Memory}

  -- After the reads of the table's sectors: on a failure the memory goes back, and `fat` stays.
  pub finish_mount :
      Option (ℕ → ℕ) → FatFilesystem → Heap → Memory → Option (Bool × FatFilesystem × Heap × Memory)
  finish_mount (some bytes) fs h m = some (true, record fs { fat_bytes = bytes }, h, m)
  finish_mount none fs h m = Option.map (λ h1. (false, fs, h1, m)) (kfree h fs.fat)

  -- The loop that reads the table's sectors into a block of `room` bytes: sector `start + i` goes to offset
  -- `i * step`. The inner `none` is a read that fails; the outer one a sector that goes over the end of the
  -- block, where the header of the next block is.
  pub read_table : (n i start step room : ℕ) → (ℕ → ℕ) → Option (Option (ℕ → ℕ))
  read_table zero i start step room buffer = some (some buffer)
  read_table (suc n) i start step room buffer = elim (read_sector (u32 (start + i))) [
    | none ↦ some none
    | some bytes ↦
        let rest =
          read_table n (i + 1) start step room (memcpy buffer (u32 (i * step)) bytes 0 512) in
        if leb (u32 (i * step) + 512) room then rest else none
  ]

  -- After `kmalloc` of the table's bytes; `none` where the reads go over the end of the block.
  pub load_table :
      Option ℕ → FatFilesystem → Heap → Memory → Option (Bool × FatFilesystem × Heap × Memory)
  load_table none fs h m = some (false, record fs { fat = 0 }, h, m)
  load_table (some ptr) fs h m =
      let step = fs.boot.bytes_per_sector in
      Option.bind
        (read_table fs.fat_size 0 fs.fat_start step (u32 (fs.fat_size * step)) fs.fat_bytes)
        (λ r. finish_mount r (record fs { fat = ptr }) h m)

  -- After the read of sector 0; `none` where a division by zero faults, too.
  pub mount_boot :
      BootSector → FatFilesystem → Heap → Memory → Option (Bool × FatFilesystem × Heap × Memory)
  mount_boot b fs h m =
      let fs1 = layout b fs in
      let (ptr, h1, m1) = kmalloc pages h m (u32 (fs1.fat_size * b.bytes_per_sector)) in
      if (b.bytes_per_sector == 0) || (b.sectors_per_cluster == 0)
      then none
      else load_table ptr fs1 h1 m1

  pub mount_sector :
      Option (ℕ → ℕ) → FatFilesystem → Heap → Memory → Option (Bool × FatFilesystem × Heap × Memory)
  mount_sector none fs h m = some (false, fs, h, m)
  mount_sector (some bytes) fs h m = mount_boot (boot_of bytes) fs h m

  -- Whether the volume is mounted, with the states after the call; `none` for a fault.
  pub fat_mount : FatFilesystem → Heap → Memory → Option (Bool × FatFilesystem × Heap × Memory)
  fat_mount fs h m = mount_sector (read_sector 0) fs h m

-- It always returns 1; `none` for the fault of a `kfree`.
pub fat_unmount : FatFilesystem → Heap → Option (FatFilesystem × Heap)
fat_unmount fs h =
    if fs.fat == 0
    then some (fs, h)
    else Option.map (λ h1. (record fs { fat = 0 }, h1)) (kfree h fs.fat)
