-- ===== src/Fat/Access/Read.antt =====
-- `fat_read` of kernel/fs/fat.c against the contents of the file: the bytes of its chain of clusters.
use v.Common.{
  ◌==◌, ℕ, zero, suc, ◌+◌, ◌-◌, ◌*◌, ◌/◌, ◌%◌, ◌^◌, ◌≤◌, ◌<◌, ◌≡◌, refl, sym, ap, fun_ext, ◌∙◌,
  Option, none, some, arith, leb, ltb, ◌&&◌, if◌then◌else◌, u32, memcpy, true, false,
}
use v.Fat.{FatFilesystem, File, read_fat_entry, end_of_chain}
use v.Fat.Access.{bytes_wanted, next_round, copy_round, read_round}
use v.Fat.Cluster.{Reads, cluster_byte, read_cluster_lem}
use native.Mathlib.Nat

-- The `k`-th cluster of the chain from `cluster` on.
abbrev pub chain : FatFilesystem → ℕ → ℕ → ℕ
chain fs cluster zero = cluster
chain fs cluster (suc k) = read_fat_entry fs (chain fs cluster k)

-- Byte `p` of the file that starts at `cluster`.
abbrev pub file_byte : (ℕ → ℕ → ℕ) → FatFilesystem → ℕ → ℕ → ℕ
file_byte disk fs cluster p =
    cluster_byte disk fs (chain fs cluster (p / fs.cluster_size)) (p % fs.cluster_size)

-- A volume with sectors of 512 bytes and clusters that fit into `cluster_buffer`.
pub record IsReadable (fs : FatFilesystem) : Type 0 where
  pub size_of_cluster : fs.cluster_size ≡ fs.boot.sectors_per_cluster * 512
  pub nonempty : 0 < fs.boot.sectors_per_cluster
  pub fits : fs.boot.sectors_per_cluster ≤ 8

-- The file is open on a chain that is long enough, at the cluster of its position.
pub record IsPlaced (fs : FatFilesystem) (f : File) : Type 0 where
  pub position_in : f.position ≤ f.size
  pub size_in : f.size < 2 ^ 32
  pub long :
      (k : ℕ) → suc k * fs.cluster_size < f.size → chain fs f.first_cluster (suc k) < end_of_chain
  pub at_cluster :
      f.position < f.size
      → f.current_cluster ≡ chain fs f.first_cluster (f.position / fs.cluster_size)

-- A step inside a cluster.
inside : (p i k : ℕ) → p % k + i < k → ((p + i) / k ≡ p / k) × ((p + i) % k ≡ p % k + i)
inside p i k h =
    let split : p + i ≡ (p / k) * k + (p % k + i) = omega (arith, Nat.div-add-mod p k) in
    let small : (p % k + i) / k ≡ 0 = Nat.div-eq_of_lt h in
    let d : ((p / k) * k + (p % k + i)) / k ≡ p / k + (p % k + i) / k =
      Nat.mul-add-div_right {m = k} (omega arith) (p / k) (p % k + i) in
    (
      ap (λ t. t / k) split ∙ d ∙ omega (arith, small),
      ap (λ t. t % k) split ∙ Nat.mul-add-mod_self_right (p / k) k (p % k + i) ∙ Nat.mod-eq_of_lt h,
    )

memcpy_add :
    (out g : ℕ → ℕ) (t p n k j : ℕ)
    → memcpy (memcpy out t g p n) (t + n) g (p + n) k j ≡ memcpy out t g p (n + k) j
memcpy_add out g t p n k j = ground arith

memcpy_same :
    (out src g : ℕ → ℕ) (t from p n : ℕ)
    → ((i : ℕ) → i < n → src (from + i) ≡ g (p + i))
    → memcpy out t src from n ≡ memcpy out t g p n
memcpy_same out src g t from p n h = fun_ext (λ j. grind (arith, h))

-- `f1` and `out1` come of `f` and `out` by a read of `n` bytes to offset `total`.
pub record Delivered (disk : ℕ → ℕ → ℕ) (fs : FatFilesystem) (f : File) (out : ℕ → ℕ) (total n : ℕ)
    (f1 : File) (out1 : ℕ → ℕ) (total1 : ℕ) : Type 0 where
  pub placed : IsPlaced fs f1
  pub moved : f1.position ≡ f.position + n
  pub counted : total1 ≡ total + n
  pub same_size : f1.size ≡ f.size
  pub same_start : f1.first_cluster ≡ f.first_cluster
  pub bytes : out1 ≡ memcpy out total (file_byte disk fs f.first_cluster) f.position n

module _ (read_sector : ℕ → Option (ℕ → ℕ)) (disk : ℕ → ℕ → ℕ) (reads : Reads read_sector disk)
    (fs : FatFilesystem) (ok : IsReadable fs) where
  -- `cluster_buffer` after the read of a round.
  abbrev pub filled : ℕ → (ℕ → ℕ) → ℕ → ℕ
  filled cluster buffer j =
      if ltb j (fs.boot.sectors_per_cluster * 512) then cluster_byte disk fs cluster j else buffer j

  -- The bytes that a round takes from the cluster.
  abbrev pub taken : File → ℕ → ℕ → ℕ
  taken f size total =
      let wanted = bytes_wanted f size total in
      let room = fs.cluster_size - f.position % fs.cluster_size in
      if ltb wanted room then wanted else room

  piece :
      (f : File) (buffer : ℕ → ℕ) (i : ℕ)
      → f.current_cluster ≡ chain fs f.first_cluster (f.position / fs.cluster_size)
      → f.position % fs.cluster_size + i < fs.cluster_size
      → filled f.current_cluster buffer (f.position % fs.cluster_size + i)
        ≡ file_byte disk fs f.first_cluster (f.position + i)
  piece f buffer i c h =
      let o = f.position % fs.cluster_size + i in
      let step = inside f.position i fs.cluster_size h in
      let start : filled f.current_cluster buffer o ≡ cluster_byte disk fs f.current_cluster o =
        ground (arith, ok.size_of_cluster) in
      start
      ∙ ap (λ t. cluster_byte disk fs t o) (c ∙ ap (chain fs f.first_cluster) (sym step.0))
      ∙ ap (cluster_byte disk fs (chain fs f.first_cluster ((f.position + i) / fs.cluster_size)))
          (sym step.1)

  copied :
      (f : File) (out buffer : ℕ → ℕ) (total n : ℕ)
      → f.current_cluster ≡ chain fs f.first_cluster (f.position / fs.cluster_size)
      → f.position % fs.cluster_size + n ≤ fs.cluster_size
      → memcpy out total (filled f.current_cluster buffer) (f.position % fs.cluster_size) n
        ≡ memcpy out total (file_byte disk fs f.first_cluster) f.position n
  copied f out buffer total n c h =
      memcpy_same out (filled f.current_cluster buffer) (file_byte disk fs f.first_cluster) total
        (f.position % fs.cluster_size) f.position n (λ i l. piece f buffer i c (omega arith))

  cluster_size_lem : (0 < fs.cluster_size) × (fs.cluster_size ≤ 4096)
  cluster_size_lem =
      (omega (arith, ok.size_of_cluster, ok.nonempty), omega (arith, ok.size_of_cluster, ok.fits))

  pub taken_bounds :
      (f : File) (size total : ℕ)
      → total < size
      → f.position < f.size
      → (0 < taken f size total)
        × (taken f size total ≤ bytes_wanted f size total)
        × (bytes_wanted f size total ≤ size - total)
        × (bytes_wanted f size total ≤ f.size - f.position)
        × (f.position % fs.cluster_size + taken f size total ≤ fs.cluster_size)
        × (f.position % fs.cluster_size < fs.cluster_size)
  unfolding bytes_wanted
  taken_bounds f size total t l =
      let m : f.position % fs.cluster_size < fs.cluster_size =
        Nat.mod-lt f.position cluster_size_lem.0 in
      (ground arith, ground arith, ground arith, ground arith, ground arith, m)

  pub round :
      (f : File) (buffer out : ℕ → ℕ) (size total : ℕ)
      → IsPlaced fs f
      → total < size
      → size < 2 ^ 32
      → f.position < f.size
      → read_round read_sector fs f buffer size out total
        ≡ next_round fs
            (record f { position = f.position + taken f size total })
            (filled f.current_cluster buffer)
            (memcpy out total (file_byte disk fs f.first_cluster) f.position (taken f size total))
            (total + taken f size total)
            (leb fs.cluster_size (f.position % fs.cluster_size + taken f size total))
  unfolding read_round copy_round
  round f buffer out size total p t s l =
      let b = taken_bounds f size total t l in
      let n = taken f size total in
      let guard : (ltb total size && ltb f.position f.size) ≡ true = ground arith in
      let divisor : (fs.cluster_size == 0) ≡ false = ground (arith, cluster_size_lem.0) in
      let at : u32 (f.position + n) ≡ f.position + n = omega (arith, b, p.size_in) in
      let sum : u32 (total + n) ≡ total + n = omega (arith, b) in
      let end : u32 (f.position % fs.cluster_size + n) ≡ f.position % fs.cluster_size + n =
        omega (arith, b, cluster_size_lem) in
      rw
        (
          guard,
          read_cluster_lem read_sector disk fs f.current_cluster buffer reads
              (omega (arith, ok.fits)),
          divisor,
          at,
          sum,
          end,
          copied f out buffer total n (p.at_cluster l) (omega (arith, b)),
        )
        refl

  -- What `fat_read` comes to: it returns, and delivers `n` bytes.
  abbrev pub Returns : Option (File × (ℕ → ℕ) × ℕ) → File → (ℕ → ℕ) → (total n : ℕ) → Type 0
  Returns none f out total n = ⊥
  Returns (some (f1, out1, total1)) f out total n = Delivered disk fs f out total n f1 out1 total1

  -- A read of `n` bytes and then one of `k` more.
  pub Returns-twice :
      (r : Option (File × (ℕ → ℕ) × ℕ)) (f f1 : File) (out : ℕ → ℕ) (total n k : ℕ)
      → f1.position ≡ f.position + n
      → f1.size ≡ f.size
      → f1.first_cluster ≡ f.first_cluster
      → Returns r f1
          (memcpy out total (file_byte disk fs f.first_cluster) f.position n)
          (total + n)
          k
      → Returns r f out total (n + k)
  Returns-twice none f f1 out total n k p z c d = d
  Returns-twice (some (f2, out2, total2)) f f1 out total n k p z c d = record {
    placed = d.placed;
    moved = omega (arith, p, d.moved);
    counted = omega (arith, d.counted);
    same_size = d.same_size ∙ z;
    same_start = d.same_start ∙ c;
    bytes =
        d.bytes
        ∙ rw (p, c)
            (fun_ext
              (λ j. memcpy_add out (file_byte disk fs f.first_cluster) total f.position n k j));
  }

  -- After a round that stays in its cluster.
  pub stays-IsPlaced :
      (f : File) (n : ℕ)
      → IsPlaced fs f
      → f.position + n ≤ f.size
      → 0 < n
      → f.position % fs.cluster_size + n < fs.cluster_size
      → f.position < f.size
      → IsPlaced fs (record f { position = f.position + n })
  stays-IsPlaced f n p h z m l = record {
    position_in = h;
    size_in = p.size_in;
    long = p.long;
    at_cluster = λ _.
        p.at_cluster l
        ∙ ap (chain fs f.first_cluster) (sym (inside f.position n fs.cluster_size m).0);
  }

  -- The start of the next cluster.
  pub behind :
      (f : File) (n : ℕ)
      → f.position % fs.cluster_size + n ≡ fs.cluster_size
      → f.position + n ≡ suc (f.position / fs.cluster_size) * fs.cluster_size
  behind f n e = omega (arith, Nat.div-add-mod f.position fs.cluster_size)

  pub moves-IsPlaced :
      (f : File) (n : ℕ)
      → IsPlaced fs f
      → f.position + n ≤ f.size
      → f.position % fs.cluster_size + n ≡ fs.cluster_size
      → f.position < f.size
      → IsPlaced fs (record f {
        position = f.position + n;
        current_cluster = read_fat_entry fs f.current_cluster;
      })
  moves-IsPlaced f n p h e l = record {
    position_in = h;
    size_in = p.size_in;
    long = p.long;
    at_cluster = λ _.
        ap (read_fat_entry fs) (p.at_cluster l)
        ∙ ap (chain fs f.first_cluster) (
            sym (
              ap (λ t. t / fs.cluster_size) (behind f n e)
              ∙ Nat.mul-div_cancel (suc (f.position / fs.cluster_size)) (cluster_size_lem.0)));
  }
