-- ===== src/Fat/Access.antt =====
-- `fat_read`, `fat_seek` and the calls beside them in kernel/fs/fat.c.
pub mod Read
pub mod Wanted
pub mod Loop
pub mod Seek
use v.Common.{
  ℕ, zero, suc, ◌+◌, ◌-◌, ◌%◌, ◌^◌, List, Option, none, some, Bool, true, false, ◌&&◌, ◌==◌, ltb,
  leb, if◌then◌else◌, u32, memcpy,
}
use v.Fat.{FatFilesystem, File, read_fat_entry, end_of_chain, read_cluster}

-- What a round of `fat_read`'s loop comes to: the loop ends with the file, the user's buffer and
-- `total_bytes_read`; or it goes on with these and `cluster_buffer`; or a division by zero faults.
pub data Round : Type 0 where
  stop : File → (ℕ → ℕ) → ℕ → Round
  again : File → (ℕ → ℕ) → (ℕ → ℕ) → ℕ → Round
  fault : Round

-- `bytes_to_read`
pub bytes_wanted : File → ℕ → ℕ → ℕ
bytes_wanted f size total =
    let remaining = f.size - f.position in
    if ltb remaining (size - total) then remaining else size - total

-- The end of a round: at the end of a cluster the file goes on to the next one of its chain.
pub next_round : FatFilesystem → File → (ℕ → ℕ) → (ℕ → ℕ) → ℕ → Bool → Round
next_round fs f buffer out total false = again f buffer out total
next_round fs f buffer out total true =
    let next = read_fat_entry fs f.current_cluster in
    if leb end_of_chain next
    then stop f out total
    else again (record f { current_cluster = next }) buffer out total

-- The round on what `read_cluster` left in `cluster_buffer`.
pub copy_round : FatFilesystem → File → (size : ℕ) → (ℕ → ℕ) → ℕ → Option (ℕ → ℕ) → Round
copy_round fs f size out total none = stop f out total
copy_round fs f size out total (some buffer) =
    let offset = f.position % fs.cluster_size in
    let wanted = bytes_wanted f size total in
    let room = fs.cluster_size - offset in
    let n = if ltb wanted room then wanted else room in
    let f1 = record f { position = u32 (f.position + n) } in
    if fs.cluster_size == 0
    then fault
    else next_round fs f1 buffer (memcpy out total buffer offset n) (u32 (total + n))
        (leb fs.cluster_size (u32 (offset + n)))

module _ (read_sector : ℕ → Option (ℕ → ℕ)) where
  pub read_round : FatFilesystem → File → (ℕ → ℕ) → (size : ℕ) → (ℕ → ℕ) → ℕ → Round
  read_round fs f buffer size out total =
      if ltb total size && ltb f.position f.size
      then copy_round fs f size out total (read_cluster read_sector fs f.current_cluster buffer)
      else stop f out total

  -- `none` for a fault, or where the fuel does not do.
  pub read_loop :
      (fuel : ℕ)
      → FatFilesystem
      → File
      → (ℕ → ℕ)
      → (size : ℕ) → (ℕ → ℕ)
      → ℕ
      → Option (File × (ℕ → ℕ) × ℕ)
  read_loop zero fs f buffer size out total = none
  read_loop (suc fuel) fs f buffer size out total = elim (read_round fs f buffer size out total) [
    | stop f1 out1 total1 ↦ some (f1, out1, total1)
    | again f1 buffer1 out1 total1 ↦ read_loop fuel fs f1 buffer1 size out1 total1
    | fault ↦ none
  ]

  -- The file, the user's buffer and `*bytes_read`. `cluster_buffer` starts with what the stack holds.
  -- A round reads a byte or ends the loop, so the fuel is one round more than the bytes asked for.
  pub fat_read : FatFilesystem → File → (ℕ → ℕ) → (size : ℕ) → (ℕ → ℕ) → Option (File × (ℕ → ℕ) × ℕ)
  fat_read fs f stack size out = read_loop (suc size) fs f stack size out 0

-- The position that `whence` and `offset` ask for; `none` for an unknown `whence`. A negative offset
-- is its 32-bit pattern, as the C code adds it to an unsigned position.
pub seek_target : ℕ → File → ℕ → Option ℕ
seek_target zero f offset = some (u32 offset)
seek_target (suc zero) f offset = some (u32 (f.position + offset))
seek_target (suc (suc zero)) f offset = some (u32 (f.size + offset))
seek_target (suc (suc (suc n))) f offset = none

-- The bounds of `fat_seek` on the target. An unsigned `new_pos` is never below 0.
pub clamp : File → Option ℕ → Bool × File
clamp f none = (false, f)
clamp f (some new_pos) =
    let capped = if ltb f.size new_pos then f.size else new_pos in
    (true, record f { position = if ltb capped 0 then 0 else capped })

pub fat_seek : File → ℕ → ℕ → Bool × File
fat_seek f offset whence = clamp f (seek_target whence f offset)

pub fat_tell : File → ℕ
fat_tell f = f.position

-- Writing is not implemented: 0, with no byte written.
pub fat_write : File → ℕ → Bool × ℕ
fat_write f size = (false, 0)

-- Nothing to do for FAT: 1.
pub fat_close : File → Bool × File
fat_close f = (true, f)

-- VFS_MODE_READ
abbrev pub vfs_mode_read : ℕ
vfs_mode_read = 1

-- 1, the directory's structure, and what `private_data` then is: the cluster number itself.
pub fat_opendir : FatFilesystem → File → List ℕ → Bool × File × ℕ
fat_opendir fs f path =
    (true, record f { path = path; flags = vfs_mode_read; position = 0 }, fs.root_cluster)

-- struct vfs_dirent; `filesystem` is an address.
pub record VfsDirent : Type 0 where
  pub name : List ℕ
  pub size : ℕ
  pub attributes : ℕ
  pub creation_time : ℕ
  pub creation_date : ℕ
  pub access_time : ℕ
  pub access_date : ℕ
  pub modification_time : ℕ
  pub modification_date : ℕ
  pub filesystem : ℕ

-- Reading a directory is not implemented: no entry.
pub fat_readdir : File → ℕ → Option VfsDirent
fat_readdir f index = none

-- The attributes of a path are not implemented: 0, with `entry` as it was.
pub fat_stat : List ℕ → VfsDirent → Bool × VfsDirent
fat_stat path entry = (false, entry)
