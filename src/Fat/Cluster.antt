-- ===== src/Fat/Cluster.antt =====
-- What the loops over sectors of kernel/fs/fat.c leave in their buffers.
use v.Common.{
  ℕ, zero, suc, ◌+◌, ◌*◌, ◌/◌, ◌%◌, ◌^◌, ◌<◌, ◌≡◌, ap, fun_ext, ◌∙◌, Option, some, arith, ltb,
  if◌then◌else◌, u32, memcpy, within,
}
use mathlib.Core.Option
use v.Fat.{FatFilesystem, cluster_to_sector, read_sectors, read_cluster}

-- A disk that answers every read: sector `s` holds the bytes `disk s`.
abbrev pub Reads : (ℕ → Option (ℕ → ℕ)) → (ℕ → ℕ → ℕ) → Type 0
Reads read_sector disk = (s : ℕ) → s < 2 ^ 32 → read_sector s ≡ some (disk s)

-- The buffer with `n` sectors from `start + i` on at offset `i * 512`.
abbrev pub loaded : (n i start : ℕ) → (ℕ → ℕ → ℕ) → (ℕ → ℕ) → ℕ → ℕ
loaded n i start disk buffer j =
    if within (i * 512) (n * 512) j then disk (u32 (start + j / 512)) (j % 512) else buffer j

-- The bytes of a cluster on the disk.
abbrev pub cluster_byte : (ℕ → ℕ → ℕ) → FatFilesystem → ℕ → ℕ → ℕ
cluster_byte disk fs cluster o = disk (u32 (cluster_to_sector fs cluster + o / 512)) (o % 512)

module _ (read_sector : ℕ → Option (ℕ → ℕ)) (disk : ℕ → ℕ → ℕ) where
  loaded_step :
      (n i start : ℕ) (buffer : ℕ → ℕ) (j : ℕ)
      → (i + suc n) * 512 < 2 ^ 32
      → loaded n (i + 1) start disk (memcpy buffer (u32 (i * 512)) (disk (u32 (start + i))) 0 512) j
        ≡ loaded (suc n) i start disk buffer j
  loaded_step n i start buffer j h = ground (arith)

  pub read_sectors_lem :
      (n i start : ℕ) (buffer : ℕ → ℕ)
      → Reads read_sector disk
      → (i + n) * 512 < 2 ^ 32
      → read_sectors read_sector n i start 512 buffer ≡ some (loaded n i start disk buffer)
  unfolding read_sectors Option.bind
  read_sectors_lem zero i start buffer r h = ap some (fun_ext (λ j. ground arith))
  read_sectors_lem (suc n) i start buffer r h = rw (
    r (u32 (start + i)) (omega arith),
    read_sectors_lem n (i + 1) start (memcpy buffer (u32 (i * 512)) (disk (u32 (start + i))) 0 512)
        r (omega arith),
    fun_ext (λ j. loaded_step n i start buffer j h),
  )

  -- From a disk that answers every read, and with less than 256 sectors per cluster (the field has
  -- one byte), `read_cluster` succeeds and changes exactly the bytes of its sectors.
  pub read_cluster_lem :
      (fs : FatFilesystem) (cluster : ℕ) (buffer : ℕ → ℕ)
      → Reads read_sector disk
      → fs.boot.sectors_per_cluster < 256
      → read_cluster read_sector fs cluster buffer
        ≡ some (λ j.
          if ltb j (fs.boot.sectors_per_cluster * 512)
          then cluster_byte disk fs cluster j
          else buffer j)
  unfolding read_cluster
  read_cluster_lem fs cluster buffer r h =
      read_sectors_lem fs.boot.sectors_per_cluster 0 (cluster_to_sector fs cluster) buffer r
        (omega arith)
      ∙ ap some (fun_ext (λ j. ground arith))
