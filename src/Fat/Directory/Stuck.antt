-- ===== src/Fat/Directory/Stuck.antt =====
-- `fat_open` of kernel/fs/fat.c on a FAT12 volume.
use v.Common.{
  ap, ℕ, zero, suc, ◌+◌, ◌/◌, ◌^◌, ◌<◌, ◌≡◌, refl, Option, none, some, List, arith, u32, ltb, true,
}
use v.Fat.{FatType, FatFilesystem, File, read_fat_entry, entry_of, read_cluster}
use v.Fat.Access.Read.{IsReadable}
use v.Fat.Directory.{
  fat_name, scan, Scan, visit, follow, walk, Walk, lookup_loop, lookup_file_in_dir, root_of,
  fat_open,
}

-- A disk on which cluster 0 can be read, whatever `cluster_buffer` holds before, and where its entries
-- neither end the directory nor have the name.
abbrev pub Lacks : (ℕ → Option (ℕ → ℕ)) → FatFilesystem → List ℕ → Type 0
Lacks read_sector fs name =
    (buffer : ℕ → ℕ)
    → (after : ℕ → ℕ) × (read_cluster read_sector fs 0 buffer ≡ some after)
      × (scan (fs.cluster_size / 32) 0 after name ≡ Scan.absent)

module _ (read_sector : ℕ → Option (ℕ → ℕ)) (fs : FatFilesystem) (name : List ℕ)
    (twelve : fs.fat_type ≡ FatType.fat12) (small : fs.cluster_count + 2 < 2 ^ 32)
    (lacks : Lacks read_sector fs name) where
  walk_zero : (buffer : ℕ → ℕ) → walk read_sector fs name 0 buffer ≡ Walk.onward 0 (lacks buffer).0
  unfolding walk visit follow read_fat_entry entry_of
  walk_zero buffer =
      let guard : ltb 0 (u32 (fs.cluster_count + 2)) ≡ true = ground (arith, small) in
      rw (guard, (lacks buffer).1, (lacks buffer).2, twelve) refl

  pub lookup_loop_stuck :
      (fuel : ℕ) (buffer : ℕ → ℕ) → lookup_loop read_sector fuel fs name 0 buffer ≡ none
  unfolding lookup_loop
  lookup_loop_stuck zero buffer = refl
  lookup_loop_stuck (suc fuel) buffer =
      rw (lookup_loop, walk_zero buffer) (lookup_loop_stuck fuel (lacks buffer).0)

-- On a FAT12 volume with sectors of 512 bytes, clusters of at most 4096 bytes and fewer than 2^32 - 2 of
-- them, where cluster 0 can be read and its entries neither end a directory nor have the name, fat_open
-- returns for no number of rounds of its loop: it reads cluster 0 for ever.
pub fat_open_stuck :
    (read_sector : ℕ → Option (ℕ → ℕ)) (fs : FatFilesystem) (f : File) (path : List ℕ) (flags : ℕ)
    (stack : ℕ → ℕ)
    → IsReadable fs
    → fs.fat_type ≡ FatType.fat12
    → fs.cluster_count + 2 < 2 ^ 32
    → Lacks read_sector fs (fat_name path)
    → (fuel : ℕ) → fat_open read_sector fuel fs f path flags stack ≡ none
unfolding fat_open lookup_file_in_dir root_of
fat_open_stuck read_sector fs f path flags stack fits twelve small lacks fuel =
    let zeroth : root_of fs.fat_type fs ≡ 0 = ap (λ t. root_of t fs) twelve in
    rw (zeroth, lookup_loop_stuck read_sector fs (fat_name path) twelve small lacks fuel stack) refl
