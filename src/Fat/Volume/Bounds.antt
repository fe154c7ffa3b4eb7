-- ===== src/Fat/Volume/Bounds.antt =====
-- Where the sectors of the clusters lie that `fat_mount` of kernel/fs/fat.c counts.
use v.Common.{ℕ, ◌+◌, ◌-◌, ◌*◌, ◌/◌, ◌^◌, ◌≤◌, ◌<◌, ◌≡◌, ap, suc, arith, u32}
use v.Fat.{BootSector, FatFilesystem, cluster_to_sector}
use v.Fat.Volume.{
  root_dir_sectors, fat_size_of, total_sectors, sectors_before, cluster_count_of, layout,
}
use native.Mathlib.Nat

-- The reserved sectors, the tables and the root directory fit into the volume.
abbrev pub Fits : BootSector → Type 0
Fits b = b.reserved_sectors + b.num_fats * fat_size_of b + root_dir_sectors b ≤ total_sectors b

-- On a boot sector whose areas fit into a volume of less than 2^32 sectors, each sector of each cluster
-- from 2 up to the cluster count plus 1, as fat_mount lays the volume out, lies inside the volume and
-- behind those areas.
pub cluster_to_sector_in_volume :
    (b : BootSector) (fs : FatFilesystem) (cluster i : ℕ)
    → Fits b
    → total_sectors b < 2 ^ 32
    → 2 ≤ cluster
    → cluster < (layout b fs).cluster_count + 2
    → i < b.sectors_per_cluster
    → (sectors_before b ≤ cluster_to_sector (layout b fs) cluster + i)
      × (cluster_to_sector (layout b fs) cluster + i < total_sectors b)
unfolding layout cluster_to_sector sectors_before cluster_count_of
cluster_to_sector_in_volume b fs cluster i h t two c l =
    let areas = b.reserved_sectors + b.num_fats * fat_size_of b + root_dir_sectors b in
    let left : u32 (total_sectors b + 2 ^ 32 - u32 areas) ≡ total_sectors b - areas =
      omega (arith, h, t) in
    let count : suc (cluster - 2) ≤ (total_sectors b - areas) / b.sectors_per_cluster =
      omega (arith, c, ap (λ y. y / b.sectors_per_cluster) left) in
    let room : suc (cluster - 2) * b.sectors_per_cluster ≤ total_sectors b - areas =
      (Nat.le-div_iff_mul-le {k = b.sectors_per_cluster} (omega (arith, l))).0 count in
    (ground (arith, room, h, t), ground (arith, room, h, t))
