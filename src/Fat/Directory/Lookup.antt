-- ===== src/Fat/Directory/Lookup.antt =====
-- `lookup_file_in_dir` and `fat_open` of kernel/fs/fat.c against a search through the entries of the
-- directory's chain of clusters, and `fat_read` of the file that is open then.
use v.Common.{
  ℕ, zero, suc, ◌+◌, ◌*◌, ◌/◌, ◌^◌, ◌≤◌, ◌<◌, ◌≡◌, refl, sym, ap, ◌∙◌, inl, inr, Option, none, some,
  Bool, true, false, List, [], ◌++◌, ltb, leb, if◌then◌else◌, u32, arith, Bool-cases, min,
}
use v.Fat.{FatFilesystem, read_fat_entry, end_of_chain}
use v.Fat.Cluster.{Reads, cluster_byte, read_cluster_lem}
use v.Fat.Access.Read.{IsReadable}
use v.Fat.Directory.{
  DirectoryEntry, Scan, ended, found, absent, scan, Walk, answer, onward, follow, visit, walk,
  lookup_loop,
}
use mathlib.Core.Option
use native.Mathlib.Nat
use v.Fat.{File}
use v.Fat.Access.{fat_read}
use v.Fat.Access.Read.{Returns}
use v.Fat.Directory.{fat_name, lookup_file_in_dir, open_entry, root_of, fat_open}
use v.Fat.Directory.Search.{
  entries, directory, first_match, IsDirectory, last, further, searched, first_match-scan,
  scan_same,
}

module _ (read_sector : ℕ → Option (ℕ → ℕ)) (disk : ℕ → ℕ → ℕ) (reads : Reads read_sector disk)
    (fs : FatFilesystem) (ok : IsReadable fs) (few : fs.cluster_count + 2 ≤ end_of_chain) where
  -- `cluster_buffer` after the read of a cluster.
  abbrev after : ℕ → (ℕ → ℕ) → ℕ → ℕ
  after cluster buffer j =
      if ltb j (fs.boot.sectors_per_cluster * 512) then cluster_byte disk fs cluster j else buffer j

  -- The loop behind a round.
  abbrev resume : (fuel : ℕ) → List ℕ → Walk → Option (Option DirectoryEntry)
  resume fuel name w = elim w [
    | answer r ↦ some r
    | onward next buffer ↦ lookup_loop read_sector fuel fs name next buffer
  ]

  walk_lem :
      (cluster : ℕ) (name : List ℕ) (buffer : ℕ → ℕ)
      → cluster < fs.cluster_count + 2
      → walk read_sector fs name cluster buffer
        ≡ follow fs cluster
            (after cluster buffer)
            (scan (fs.cluster_size / 32) 0 (cluster_byte disk fs cluster) name)
  unfolding walk visit
  walk_lem cluster name buffer inside =
      let guard : ltb cluster (u32 (fs.cluster_count + 2)) ≡ true = ground (arith, inside, few) in
      rw (guard, read_cluster_lem read_sector disk fs cluster buffer reads (omega (arith, ok.fits)))
        (ap (follow fs cluster (after cluster buffer)) (
          scan_same (fs.cluster_size / 32) 0 (after cluster buffer) (cluster_byte disk fs cluster)
            name (λ j l u. ground (arith, ok.size_of_cluster, u))))

  -- What the scan of a cluster says, and where it says nothing what comes behind.
  resume-follow :
      (fuel cluster : ℕ) (name : List ℕ) (buffer : ℕ → ℕ) (s : Scan) (r : Option DirectoryEntry)
      → resume fuel name (follow fs cluster buffer absent) ≡ some r
      → resume fuel name (follow fs cluster buffer s) ≡ some (searched s r)
  unfolding follow
  resume-follow fuel cluster name buffer ended r h = refl
  resume-follow fuel cluster name buffer (found e) r h = refl
  resume-follow fuel cluster name buffer absent r h = h

  one_round :
      (fuel cluster : ℕ) (name : List ℕ) (buffer : ℕ → ℕ) (es : List DirectoryEntry)
      → cluster < fs.cluster_count + 2
      → resume fuel name (follow fs cluster (after cluster buffer) absent)
        ≡ some (first_match name es)
      → lookup_loop read_sector (suc fuel) fs name cluster buffer
        ≡ some (
            first_match name
              (entries (fs.cluster_size / 32) 0 (cluster_byte disk fs cluster) ++ es))
  unfolding lookup_loop
  one_round fuel cluster name buffer es inside h =
      let bytes = cluster_byte disk fs cluster in
      ap (resume fuel name) (walk_lem cluster name buffer inside)
      ∙ resume-follow fuel cluster name (after cluster buffer)
          (scan (fs.cluster_size / 32) 0 bytes name) (first_match name es) h
      ∙ ap some (sym (first_match-scan (fs.cluster_size / 32) 0 bytes name es))

  -- The entry behind the last cluster ends the loop in this round or in the next.
  stops :
      (fuel cluster : ℕ) (name : List ℕ) (buffer : ℕ → ℕ)
      → 0 < fuel
      → fs.cluster_count + 2 ≤ read_fat_entry fs cluster
      → resume fuel name (follow fs cluster buffer absent) ≡ some none
  unfolding follow lookup_loop walk
  stops zero cluster name buffer h out = absurd (omega (arith, h))
  stops (suc fuel) cluster name buffer h out =
      let next = read_fat_entry fs cluster in
      let guard : ltb next (u32 (fs.cluster_count + 2)) ≡ false = ground (arith, out, few) in
      let out_of : walk read_sector fs name next buffer ≡ answer none = rw (walk, guard) refl in
      elim (Bool-cases (leb end_of_chain next)) [
        | inl e ↦ rw e refl
        | inr e ↦ rw e (ap (resume fuel name) out_of)
      ]

  inside_of : (m cluster : ℕ) → IsDirectory fs m cluster → cluster < fs.cluster_count + 2
  inside_of m cluster (last inside out) = inside
  inside_of m cluster (further inside d) = inside

  -- The loop gives the first match among all entries of the chain.
  pub lookup_loop-first_match :
      (fuel m cluster : ℕ) (name : List ℕ) (buffer : ℕ → ℕ)
      → IsDirectory fs m cluster
      → m < fuel
      → lookup_loop read_sector fuel fs name cluster buffer
        ≡ some (first_match name (directory disk fs m cluster))
  unfolding directory follow first_match
  lookup_loop-first_match zero m cluster name buffer d h = absurd (omega (arith, h))
  lookup_loop-first_match (suc fuel) m cluster name buffer (last inside out) h =
      one_round fuel cluster name buffer [] inside
        (stops fuel cluster name (after cluster buffer) (omega (arith, h)) out)
  lookup_loop-first_match (suc fuel) m cluster name buffer (further {m = k} inside d) h =
      let next = read_fat_entry fs cluster in
      let guard : leb end_of_chain next ≡ false = ground (arith, inside_of (suc k) next d, few) in
      one_round fuel cluster name buffer (directory disk fs (suc k) next) inside (
        rw guard (
          lookup_loop-first_match fuel (suc k) next name (after cluster buffer) d
            (omega (arith, h))))

  -- From a disk that answers every read, on a volume with sectors of 512 bytes, clusters of at most 4096
  -- bytes and fewer than 2^28 - 9 of them, where the directory that it starts with is a chain of `m`
  -- clusters: fat_open returns on more than `m` rounds, with the entry that a search through all entries of
  -- the chain, in their order, gives for the 8.3 name of the path.
  pub fat_open-first_match :
      (fuel m : ℕ) (f : File) (path : List ℕ) (flags : ℕ) (stack : ℕ → ℕ)
      → IsDirectory fs m (root_of fs.fat_type fs)
      → m < fuel
      → fat_open read_sector fuel fs f path flags stack
        ≡ some (
            open_entry f path flags
              (first_match (fat_name path) (directory disk fs m (root_of fs.fat_type fs))))
  unfolding fat_open lookup_file_in_dir
  fat_open-first_match fuel m f path flags stack d h =
      ap (Option.map (open_entry f path flags))
        (lookup_loop-first_match fuel m (root_of fs.fat_type fs) (fat_name path) stack d h)

  -- Whatever is found is in a file that starts at its entry's cluster.
  abbrev pub cluster_of : DirectoryEntry → ℕ
  cluster_of e = u32 (e.fst_clus_hi * 2 ^ 16 + e.fst_clus_lo)

  -- The call succeeded, and the read of the file that it left delivers its first bytes.
  abbrev pub Delivers : (stack out : ℕ → ℕ) → (size length : ℕ) → Option (Bool × File) → Type 0
  Delivers stack out size length none = ⊥
  Delivers stack out size length (some (opened, f)) =
      (opened ≡ true)
      × Returns read_sector disk reads fs ok (fat_read read_sector fs f stack size out) f out 0
          (min size length)
