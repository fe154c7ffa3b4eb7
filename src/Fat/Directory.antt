-- ===== src/Fat/Directory.antt =====
-- `lookup_file_in_dir` and `fat_open` of kernel/fs/fat.c.
pub mod Search
pub mod Lookup
pub mod Stuck
use v.Common.{
  ℕ, zero, suc, ◌+◌, ◌-◌, ◌*◌, ◌/◌, ◌^◌, Option, none, some, Bool, true, false, ◌&&◌, List, [], ◌∷◌,
  ◌++◌, map, ◌==◌, ltb, leb, if◌then◌else◌, u32, take, get_or,
}
use mathlib.Core.Option
use v.Fat.{
  FatType, FatFilesystem, File, word_at, double_at, read_fat_entry, end_of_chain, read_cluster,
}

-- The fields of `struct fat_dirent` that the code uses.
pub record DirectoryEntry : Type 0 where
  pub name : List ℕ
  pub attr : ℕ
  pub fst_clus_hi : ℕ
  pub fst_clus_lo : ℕ
  pub file_size : ℕ

-- The `n` bytes from offset `o` on.
abbrev pub bytes_from : ℕ → ℕ → (ℕ → ℕ) → List ℕ
bytes_from zero o bytes = []
bytes_from (suc n) o bytes = bytes o ∷ bytes_from n (o + 1) bytes

-- `((struct fat_dirent*)buffer)[i]`
unfoldable pub entry_at : (ℕ → ℕ) → ℕ → DirectoryEntry
entry_at buffer i =
    let o = i * 32 in
    record {
      name = bytes_from 11 o buffer;
      attr = buffer (o + 11);
      fst_clus_hi = word_at buffer (o + 20);
      fst_clus_lo = word_at buffer (o + 26);
      file_size = double_at buffer (o + 28);
    }

-- What stands before the first dot, and behind it.
unfoldable pub before_dot : List ℕ → List ℕ
before_dot [] = []
before_dot (c ∷ cs) = if c == b'.' then [] else c ∷ before_dot cs

unfoldable pub behind_dot : List ℕ → List ℕ
behind_dot [] = []
behind_dot (c ∷ cs) = if c == b'.' then cs else behind_dot cs

-- The first `n` characters, filled up with blanks.
unfoldable pub padded : ℕ → List ℕ → List ℕ
padded zero cs = []
padded (suc n) [] = b' ' ∷ padded n []
padded (suc n) (c ∷ cs) = c ∷ padded n cs

unfoldable pub upper : ℕ → ℕ
upper c = if leb b'a' c && leb c b'z' then c - 32 else c

-- The 11 characters of the 8.3 name.
unfoldable pub fat_name : List ℕ → List ℕ
fat_name filename = map upper (padded 8 (before_dot filename) ++ padded 3 (behind_dot filename))

-- `memcmp` of as many bytes as the lists have is 0.
unfoldable pub same : List ℕ → List ℕ → Bool
same [] [] = true
same [] (y ∷ ys) = false
same (x ∷ xs) [] = false
same (x ∷ xs) (y ∷ ys) = if x == y then same xs ys else false

-- What the loop over the entries of one cluster comes to.
pub data Scan : Type 0 where
  ended : Scan
  found : DirectoryEntry → Scan
  absent : Scan

-- `n` rounds from entry `i` on.
unfoldable pub scan : (n i : ℕ) → (ℕ → ℕ) → List ℕ → Scan
scan zero i buffer name = absent
scan (suc n) i buffer name =
    let e = entry_at buffer i in
    let rest = scan n (i + 1) buffer name in
    let first = get_or e.name 0 0 in
    if first == 0x00
    then ended
    else if first == 0xE5
    then rest
    else if same e.name name
    then found e
    else rest

-- One round of the loop over the clusters: an answer, or the next cluster with the buffer.
pub data Walk : Type 0 where
  answer : Option DirectoryEntry → Walk
  onward : ℕ → (ℕ → ℕ) → Walk

pub follow : FatFilesystem → ℕ → (ℕ → ℕ) → Scan → Walk
follow fs cluster buffer ended = answer none
follow fs cluster buffer (found e) = answer (some e)
follow fs cluster buffer absent =
    let next = read_fat_entry fs cluster in
    if leb end_of_chain next then answer none else onward next buffer

pub visit : FatFilesystem → ℕ → List ℕ → Option (ℕ → ℕ) → Walk
visit fs cluster name none = answer none
visit fs cluster name (some buffer) =
    follow fs cluster buffer (scan (fs.cluster_size / 32) 0 buffer name)

-- `fat_open` on the entry that the lookup gives: with or without VFS_MODE_CREATE, a file that does not
-- exist is a failure.
pub open_entry : File → List ℕ → ℕ → Option DirectoryEntry → Bool × File
open_entry f path flags none = (false, f)
open_entry f path flags (some e) =
    let cluster = u32 (e.fst_clus_hi * 2 ^ 16 + e.fst_clus_lo) in
    (
      true,
      record f {
        path = path;
        flags = flags;
        size = e.file_size;
        attributes = e.attr;
        first_cluster = cluster;
        current_cluster = cluster;
        cluster_offset = 0;
      },
    )

-- The cluster in which `fat_open` starts to look.
unfoldable pub root_of : FatType → FatFilesystem → ℕ
root_of FatType.fat32 fs = fs.root_cluster
root_of FatType.fat16 fs = 0
root_of FatType.fat12 fs = 0

module _ (read_sector : ℕ → Option (ℕ → ℕ)) where
  pub walk : FatFilesystem → List ℕ → ℕ → (ℕ → ℕ) → Walk
  walk fs name cluster buffer =
      if ltb cluster (u32 (fs.cluster_count + 2))
      then visit fs cluster name (read_cluster read_sector fs cluster buffer)
      else answer none

  -- The loop over the clusters, for at most `fuel` rounds: `none` where they do not do. The code's
  -- `cluster_buffer` has 4096 bytes, so this is the code's loop for clusters of at most so many.
  pub lookup_loop :
      (fuel : ℕ) → FatFilesystem → List ℕ → ℕ → (ℕ → ℕ) → Option (Option DirectoryEntry)
  lookup_loop zero fs name cluster buffer = none
  lookup_loop (suc n) fs name cluster buffer = elim (walk fs name cluster buffer) [
    | answer r ↦ some r
    | onward next buffer1 ↦ lookup_loop n fs name next buffer1
  ]

  -- `cluster_buffer` starts with what the stack holds.
  pub lookup_file_in_dir :
      (fuel : ℕ) → FatFilesystem → ℕ → List ℕ → (ℕ → ℕ) → Option (Option DirectoryEntry)
  lookup_file_in_dir fuel fs dir_cluster filename stack =
      lookup_loop fuel fs (fat_name filename) dir_cluster stack

  pub fat_open : (fuel : ℕ) → FatFilesystem → File → List ℕ → ℕ → (ℕ → ℕ) → Option (Bool × File)
  fat_open fuel fs f path flags stack =
      Option.map (open_entry f path flags)
        (lookup_file_in_dir fuel fs (root_of fs.fat_type fs) path stack)
