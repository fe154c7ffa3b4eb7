-- ===== src/Fat/Volume/Release.antt =====
-- The table of `fat_mount` (kernel/fs/fat.c) in the heap, and `fat_unmount`.
use v.Common.{
  ℕ, zero, suc, ◌+◌, ◌≤◌, leb, memcpy, ◌*◌, ◌^◌, ◌<◌, ◌≡◌, ◌≢◌, refl, Option, none, some, Bool,
  true, false, ◌||◌, ◌==◌, u32, arith,
}
use mathlib.Core.Option
use native.Mathlib.Nat.{mod-eq_of_lt}
use v.Pages.{PageSource}
use v.Heap.{Heap, kmalloc, kfree}
use v.Heap.Alloc.{IsValid}
use v.Heap.Loan.{Same, Roomy, Holds, Freed, Holds-kfree, Lent, kmalloc-Lent}
use v.Fat.{BootSector, FatFilesystem}
use v.Fat.Volume.{
  boot_of, layout, finish_mount, fat_size_of, read_table, load_table, mount_boot, mount_sector,
  fat_mount, fat_unmount,
}

-- What `fat_unmount` comes to: no table, and the live blocks of the heap `h`.
abbrev pub Released : Heap → Option (FatFilesystem × Heap) → Type 0
Released h none = ⊥
Released h (some (fs, h')) = (fs.fat ≡ 0) × Same h h'

module _ (read_sector : ℕ → Option (ℕ → ℕ)) (pages : PageSource) where
  open pages use {Memory}

  -- What `fat_mount` comes to: a volume that `fat_unmount` releases, or a failure that leaves the live
  -- blocks as they were.
  abbrev pub Mounts : Heap → Option (Bool × FatFilesystem × Heap × Memory) → Type 0
  Mounts h none = ⊥
  Mounts h (some (true, fs, h', m)) = (fs.fat ≢ 0) × Released h (fat_unmount fs h')
  Mounts h (some (false, fs, h', m)) = Same h h'

  unmounted :
      (h : Heap) (fs : FatFilesystem) (r : Option Heap)
      → Freed h r
      → Released h (Option.map (λ h1. (record fs { fat = 0 }, h1)) r)
  unmounted h fs none a = a
  unmounted h fs (some h1) a = (refl, a)

  refused :
      (h : Heap) (fs : FatFilesystem) (m : Memory) (r : Option Heap)
      → Freed h r
      → Mounts h (Option.map (λ h1. (false, fs, h1, m)) r)
  refused h fs m none a = a
  refused h fs m (some h1) a = a

  -- The table is in the block of its pointer.
  finish_mount-Mounts :
      (h h1 : Heap) (fs : FatFilesystem) (m : Memory) (r : Option (ℕ → ℕ))
      → Holds h fs.fat h1
      → Mounts h (finish_mount read_sector pages r fs h1 m)
  unfolding finish_mount fat_unmount
  finish_mount-Mounts h h1 fs m (some bytes) a =
      let there : (fs.fat == 0) ≡ false = ground (arith, a.1) in
      (
        λ e. omega (arith, e, a.1),
        rw there (
            unmounted h (record fs { fat_bytes = bytes }) (kfree h1 fs.fat)
              (Holds-kfree h fs.fat h1 a)),
      )
  finish_mount-Mounts h h1 fs m none a =
      refused h fs m (kfree h1 fs.fat) (Holds-kfree h fs.fat h1 a)

  -- Sectors that are at least 512 bytes apart do not go over the end of a block for all of them.
  read_table_fits :
      (n i start step room : ℕ) (buffer : ℕ → ℕ)
      → 512 ≤ step
      → i * step + n * step ≤ room
      → room < 2 ^ 32
      → (r : Option (ℕ → ℕ)) × (read_table read_sector pages n i start step room buffer ≡ some r)
  unfolding read_table
  read_table_fits zero i start step room buffer wide fits small = (some buffer, refl)
  read_table_fits (suc n) i start step room buffer wide fits small =
      one_more (read_sector (u32 (start + i))) refl (λ bytes.
        read_table_fits n (i + 1) start step room (memcpy buffer (u32 (i * step)) bytes 0 512) wide
          (omega (arith, fits)) small)
    where
      one_more :
          (o : Option (ℕ → ℕ))
          → read_sector (u32 (start + i)) ≡ o
          → ((bytes : ℕ → ℕ)
              → (r : Option (ℕ → ℕ)) × (read_table read_sector pages n
                    (i + 1)
                    start
                    step
                    room
                    (memcpy buffer (u32 (i * step)) bytes 0 512)
                  ≡ some r))
          → (r : Option (ℕ → ℕ)) × (read_table read_sector pages (suc n) i start step room buffer
              ≡ some r)
      one_more none e rest = (none, rw (read_table, e) refl)
      one_more (some bytes) e rest =
          let now : leb (u32 (i * step) + 512) room ≡ true = ground (arith, fits, wide, small) in
          ((rest bytes).0, rw (read_table, e, now) ((rest bytes).1))

  load_table-Mounts :
      (h : Heap) (fs : FatFilesystem) (r : Option ℕ × Heap × Memory)
      → 512 ≤ fs.boot.bytes_per_sector
      → fs.fat_size * fs.boot.bytes_per_sector < 2 ^ 32
      → Lent h r
      → Mounts h (load_table read_sector pages r.0 fs r.1 r.2)
  unfolding load_table Option.bind
  load_table-Mounts h fs (none, h1, m) wide small a = a
  load_table-Mounts h fs (some ptr, h1, m) wide small a =
      let step = fs.boot.bytes_per_sector in
      let room : u32 (fs.fat_size * step) ≡ fs.fat_size * step = mod-eq_of_lt small in
      let (r, e) =
        read_table_fits fs.fat_size 0 fs.fat_start step (fs.fat_size * step) fs.fat_bytes wide
          (omega arith) small in
      rw (room, e) (finish_mount-Mounts h h1 (record fs { fat = ptr }) m r a)

  -- A boot sector whose sectors are at least 512 bytes apart, with clusters of some sectors, and with a table
  -- of fewer than 2^32 bytes.
  abbrev pub Tells : BootSector → Type 0
  Tells b =
      (512 ≤ b.bytes_per_sector)
      × (0 < b.sectors_per_cluster)
      × (fat_size_of b * b.bytes_per_sector < 2 ^ 32)

  mount_boot-Mounts :
      (b : BootSector) (fs : FatFilesystem) (h : Heap) (m : Memory)
      → Tells b
      → IsValid h
      → Roomy h (2 ^ 32)
      → Mounts h (mount_boot read_sector pages b fs h m)
  unfolding mount_boot layout
  mount_boot-Mounts b fs h m d v room =
      let fs1 = layout b fs in
      let size = u32 (fs1.fat_size * b.bytes_per_sector) in
      let fine : ((b.bytes_per_sector == 0) || (b.sectors_per_cluster == 0)) ≡ false =
        ground (arith, d) in
      rw fine (
        load_table-Mounts h fs1 (kmalloc pages h m size) d.0 d.2
          (kmalloc-Lent pages h m size v (omega (arith, room))))

  mount_sector-Mounts :
      (r : Option (ℕ → ℕ)) (fs : FatFilesystem) (h : Heap) (m : Memory)
      → ((bytes : ℕ → ℕ) → r ≡ some bytes → Tells (boot_of bytes))
      → IsValid h
      → Roomy h (2 ^ 32)
      → Mounts h (mount_sector read_sector pages r fs h m)
  unfolding mount_sector
  mount_sector-Mounts none fs h m d v room = (v, λ y. refl)
  mount_sector-Mounts (some bytes) fs h m d v room =
      mount_boot-Mounts (boot_of bytes) fs h m (d bytes refl) v room

  -- On a valid heap with room for 2^32 bytes in the address space, and where sector 0, if it can be read,
  -- tells sectors of at least 512 bytes, not 0 of them per cluster, and a table of fewer than 2^32 bytes:
  -- fat_mount returns, and no sector that it reads goes over the end of the table's block. Where it succeeds,
  -- the volume has a table and fat_unmount behind it returns with no table and the heap's live blocks as
  -- they were before the mount; where it fails, the live blocks are as they were before it.
  pub fat_unmount-fat_mount :
      (fs : FatFilesystem) (h : Heap) (m : Memory)
      → ((bytes : ℕ → ℕ) → read_sector 0 ≡ some bytes → Tells (boot_of bytes))
      → IsValid h
      → Roomy h (2 ^ 32)
      → Mounts h (fat_mount read_sector pages fs h m)
  unfolding fat_mount
  fat_unmount-fat_mount fs h m d v room = mount_sector-Mounts (read_sector 0) fs h m d v room
