-- ===== src/Fat/Directory/Search.antt =====
-- The entries of a directory (kernel/fs/fat.c), a search through them, and `scan` against that search.
use v.Common.{
  ℕ, zero, suc, ◌+◌, ◌*◌, ◌/◌, ◌^◌, ◌≤◌, ◌<◌, ◌≡◌, refl, ap₂, subst, Option, none, some, List, [],
  ◌∷◌, ◌++◌, ◌==◌, if◌then◌else◌, u16, u32, arith, get_or,
}
use v.Fat.{FatFilesystem, read_fat_entry, word_at, double_at}
use v.Fat.Cluster.{cluster_byte}
use v.Fat.Directory.{DirectoryEntry, bytes_from, entry_at, same, Scan, ended, found, absent, scan}

-- The `n` entries from entry `i` on.
unfoldable pub entries : (n i : ℕ) → (ℕ → ℕ) → List DirectoryEntry
entries zero i bytes = []
entries (suc n) i bytes = entry_at bytes i ∷ entries n (i + 1) bytes

-- The entries of a directory whose chain has `m` clusters from `cluster` on.
unfoldable pub directory : (ℕ → ℕ → ℕ) → FatFilesystem → (m cluster : ℕ) → List DirectoryEntry
directory disk fs zero cluster = []
directory disk fs (suc m) cluster =
    entries (fs.cluster_size / 32) 0 (cluster_byte disk fs cluster)
    ++ directory disk fs m (read_fat_entry fs cluster)

-- The first entry with the name that is not deleted and stands before the end of the directory.
unfoldable pub first_match : List ℕ → List DirectoryEntry → Option DirectoryEntry
first_match name [] = none
first_match name (e ∷ es) =
    let first = get_or e.name 0 0 in
    let rest = first_match name es in
    if first == 0
    then none
    else if first == 0xE5
    then rest
    else if same e.name name
    then some e
    else rest

-- The chain of a directory: `m` clusters of the volume, and then an entry that is none.
pub data IsDirectory (fs : FatFilesystem) : (m cluster : ℕ) → Type 0 where
  last :
      {cluster : ℕ}
      → cluster < fs.cluster_count + 2
      → fs.cluster_count + 2 ≤ read_fat_entry fs cluster
      → IsDirectory fs 1 cluster
  further :
      {m cluster : ℕ}
      → cluster < fs.cluster_count + 2
      → IsDirectory fs (suc m) (read_fat_entry fs cluster)
      → IsDirectory fs (suc (suc m)) cluster

-- Where the search stands after some entries.
abbrev pub searched : Scan → Option DirectoryEntry → Option DirectoryEntry
searched ended rest = none
searched (found e) rest = some e
searched absent rest = rest

pub first_match-scan :
    (n i : ℕ) (bytes : ℕ → ℕ) (name : List ℕ) (es : List DirectoryEntry)
    → first_match name (entries n i bytes ++ es)
      ≡ searched (scan n i bytes name) (first_match name es)
unfolding first_match entries scan
first_match-scan zero i bytes name es = refl
first_match-scan (suc n) i bytes name es = ground (arith, first_match-scan n (i + 1) bytes name es)

-- Two buffers agree from offset `o` on for `n` bytes.
abbrev pub Agrees : ℕ → ℕ → (ℕ → ℕ) → (ℕ → ℕ) → Type 0
Agrees o n a b = (j : ℕ) → o ≤ j → j < o + n → a j ≡ b j

bytes_from_same : (n o : ℕ) (a b : ℕ → ℕ) → Agrees o n a b → bytes_from n o a ≡ bytes_from n o b
bytes_from_same zero o a b h = refl
bytes_from_same (suc n) o a b h =
    ap₂ (λ x xs. x ∷ xs) (h o (omega arith) (omega arith))
      (bytes_from_same n (o + 1) a b (λ j l u. h j (omega (arith, l)) (omega (arith, u))))

-- An entry is made of the 32 bytes from its offset on.
entry_at_same : (a b : ℕ → ℕ) (i : ℕ) → Agrees (i * 32) 32 a b → entry_at a i ≡ entry_at b i
unfolding entry_at
entry_at_same a b i h =
    let o = i * 32 in
    let at : (k : ℕ) → o ≤ k → k < o + 32 → a k ≡ b k = h in
    let named = bytes_from_same 11 o a b (λ j l u. h j l (omega (arith, u))) in
    let attr = h (o + 11) (omega arith) (omega arith) in
    let word : (k : ℕ) → k < 31 → word_at a (o + k) ≡ word_at b (o + k) = λ k l.
      ap₂ (λ x y. u16 (x + 2 ^ 8 * y)) (h (o + k) (omega (arith, l)) (omega (arith, l)))
        (h (o + k + 1) (omega (arith, l)) (omega (arith, l))) in
    let size : double_at a (o + 28) ≡ double_at b (o + 28) =
      ap₂ (λ x y. u32 (x + 2 ^ 16 * y)) (word 28 (omega arith))
        (subst (λ k. word_at a k ≡ word_at b k) (omega arith) (word 30 (omega arith))) in
    let hi = word 20 (omega arith) in
    let lo = word 26 (omega arith) in
    λ t. record {
      name = named t;
      attr = attr t;
      fst_clus_hi = hi t;
      fst_clus_lo = lo t;
      file_size = size t;
    }

pub scan_same :
    (n i : ℕ) (a b : ℕ → ℕ) (name : List ℕ)
    → Agrees (i * 32) (n * 32) a b
    → scan n i a name ≡ scan n i b name
unfolding scan
scan_same zero i a b name h = refl
scan_same (suc n) i a b name h =
    let here = entry_at_same a b i (λ j l u. h j l (omega (arith, u))) in
    let later = scan_same n (i + 1) a b name (λ j l u. h j (omega (arith, l)) (omega (arith, u))) in
    ap₂
      (λ e r.
        let first = get_or e.name 0 0 in
        if first == 0x00
        then ended
        else if first == 0xE5
        then r
        else if same e.name name
        then found e
        else r)
      here later
