-- ===== src/Fat.antt =====
-- kernel/fs/fat.c and fat.h: the volume, its clusters and its allocation table. The disk is what
-- `ata_read_sector` answers: the 512 bytes of a sector, or nothing where the read fails. Byte arrays
-- are functions of the index.
pub mod Volume
pub mod Directory
pub mod Access
pub mod Cluster
mod Tests
use v.Common.{
  ℕ, zero, suc, ◌+◌, ◌-◌, ◌*◌, ◌/◌, ◌%◌, ◌^◌, Option, none, some, List, ◌==◌, ltb, if◌then◌else◌,
  u16, u32, memcpy,
}
use mathlib.Core.Option

-- FAT_TYPE_FAT12, FAT_TYPE_FAT16 and FAT_TYPE_FAT32
pub data FatType : Type 0 where
  fat12 : FatType
  fat16 : FatType
  fat32 : FatType

-- The fields of `struct fat_boot_sector` that the code reads.
pub record BootSector : Type 0 where
  pub bytes_per_sector : ℕ
  pub sectors_per_cluster : ℕ
  pub reserved_sectors : ℕ
  pub num_fats : ℕ
  pub root_entries : ℕ
  pub total_sectors_16 : ℕ
  pub fat_size_16 : ℕ
  pub total_sectors_32 : ℕ
  pub fat_size_32 : ℕ
  pub boot_root_cluster : ℕ

-- `struct fat_filesystem`: `fat` is the address of the table in memory, 0 for a null pointer, and
-- `fat_bytes` what the memory there holds.
pub record FatFilesystem : Type 0 where
  pub boot : BootSector
  pub fat_start : ℕ
  pub fat_size : ℕ
  pub root_start : ℕ
  pub root_cluster : ℕ
  pub data_start : ℕ
  pub cluster_count : ℕ
  pub cluster_size : ℕ
  pub fat_type : FatType
  pub fat : ℕ
  pub fat_bytes : ℕ → ℕ

-- A `struct fat_file` with the `struct vfs_file` that it stands for.
pub record File : Type 0 where
  pub path : List ℕ
  pub flags : ℕ
  pub position : ℕ
  pub size : ℕ
  pub attributes : ℕ
  pub first_cluster : ℕ
  pub current_cluster : ℕ
  pub cluster_offset : ℕ

-- Little-endian words at an offset.
abbrev pub word_at : (ℕ → ℕ) → ℕ → ℕ
word_at bytes o = u16 (bytes o + 2 ^ 8 * bytes (o + 1))

abbrev pub double_at : (ℕ → ℕ) → ℕ → ℕ
double_at bytes o = u32 (word_at bytes o + 2 ^ 16 * word_at bytes (o + 2))

pub cluster_to_sector : FatFilesystem → ℕ → ℕ
cluster_to_sector fs cluster =
    if ltb cluster 2 then 0 else u32 (fs.data_start + (cluster - 2) * fs.boot.sectors_per_cluster)

-- By the type of the volume; the entries of FAT12 are not read.
pub entry_of : FatType → (ℕ → ℕ) → ℕ → ℕ
entry_of fat32 bytes cluster = double_at bytes (4 * cluster) % 2 ^ 28
entry_of fat16 bytes cluster = word_at bytes (2 * cluster)
entry_of fat12 bytes cluster = 0

pub read_fat_entry : FatFilesystem → ℕ → ℕ
read_fat_entry fs cluster = entry_of fs.fat_type fs.fat_bytes cluster

-- The mark from which an entry ends a chain of clusters.
abbrev pub end_of_chain : ℕ
end_of_chain = 0x0FFFFFF8

module _ (read_sector : ℕ → Option (ℕ → ℕ)) where
  -- `n` rounds of the loops that read sectors: sector `start + i` goes to offset `i * step` of the
  -- buffer; `none` at the first read that fails.
  pub read_sectors : (n i start step : ℕ) → (ℕ → ℕ) → Option (ℕ → ℕ)
  read_sectors zero i start step buffer = some buffer
  read_sectors (suc n) i start step buffer =
      Option.bind (read_sector (u32 (start + i)))
        (λ bytes. read_sectors n (i + 1) start step (memcpy buffer (u32 (i * step)) bytes 0 512))

  pub read_cluster : FatFilesystem → ℕ → (ℕ → ℕ) → Option (ℕ → ℕ)
  read_cluster fs cluster buffer =
      read_sectors fs.boot.sectors_per_cluster 0 (cluster_to_sector fs cluster) 512 buffer
