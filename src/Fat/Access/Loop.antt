-- ===== src/Fat/Access/Loop.antt =====
-- The loop of `fat_read` in kernel/fs/fat.c: one round, and all of them.
use v.Common.{
  min, leb→le, leb→lt, ltb→lt, ltb→le, ℕ, zero, suc, ◌+◌, ◌-◌, ◌/◌, ◌%◌, ◌^◌, ◌≤◌, ◌<◌, ◌≡◌, refl,
  ap, fun_ext, Option, none, some, arith, leb, ltb, ◌&&◌, memcpy, true, false, Bool-cases, inl, inr,
  subst,
}
use v.Fat.{FatFilesystem, File, read_fat_entry, end_of_chain}
use v.Fat.Access.{Round, bytes_wanted, next_round, read_round, read_loop, fat_read}
use v.Fat.Cluster.{Reads}
use v.Fat.Access.Read.{
  file_byte, IsReadable, IsPlaced, Delivered, filled, taken, taken_bounds, round, Returns,
  Returns-twice, stays-IsPlaced, behind, moves-IsPlaced,
}
use v.Fat.Access.Wanted.{wanted_after, wanted_moved, wanted_all, wanted_min}

module _ (read_sector : ℕ → Option (ℕ → ℕ)) (disk : ℕ → ℕ → ℕ) (reads : Reads read_sector disk)
    (fs : FatFilesystem) (ok : IsReadable fs) where
  abbrev Ret : Option (File × (ℕ → ℕ) × ℕ) → File → (ℕ → ℕ) → (total n : ℕ) → Type 0
  Ret = Returns read_sector disk reads fs ok

  -- The loop behind a round.
  abbrev resume : ℕ → ℕ → Round → Option (File × (ℕ → ℕ) × ℕ)
  resume fuel size r = elim r [
    | Round.stop f1 out1 total1 ↦ some (f1, out1, total1)
    | Round.again f1 buffer1 out1 total1 ↦ read_loop read_sector fuel fs f1 buffer1 size out1 total1
    | Round.fault ↦ none
  ]

  -- The loop with this fuel does what it should.
  abbrev Loops : ℕ → Type 0
  Loops fuel =
      (f : File) (buffer out : ℕ → ℕ) (size total : ℕ)
      → IsPlaced fs f
      → size < 2 ^ 32
      → bytes_wanted f size total < fuel
      → Ret (read_loop read_sector fuel fs f buffer size out total) f out total
          (bytes_wanted f size total)

  -- The user's buffer after a round.
  abbrev sent : File → (ℕ → ℕ) → ℕ → ℕ → ℕ → ℕ
  sent f out total n = memcpy out total (file_byte disk fs f.first_cluster) f.position n

  runs_on :
      (fuel : ℕ) (f f1 : File) (buffer out : ℕ → ℕ) (size total n : ℕ)
      → Loops fuel
      → IsPlaced fs f1
      → size < 2 ^ 32
      → bytes_wanted f size total < suc fuel
      → 0 < n
      → f1.position ≡ f.position + n
      → f1.size ≡ f.size
      → f1.first_cluster ≡ f.first_cluster
      → n + bytes_wanted f1 size (total + n) ≡ bytes_wanted f size total
      → Ret
          (read_loop read_sector fuel fs f1 buffer size (sent f out total n) (total + n))
          f
          out
          total
          (bytes_wanted f size total)
  runs_on fuel f f1 buffer out size total n ih p s w z q y c e =
      subst
        (λ k.
          Ret (read_loop read_sector fuel fs f1 buffer size (sent f out total n) (total + n)) f out
            total k)
        e
        (Returns-twice read_sector disk reads fs ok
          (read_loop read_sector fuel fs f1 buffer size (sent f out total n) (total + n)) f f1 out
          total n (bytes_wanted f1 size (total + n)) q y c
          (ih f1 buffer (sent f out total n) size (total + n) p s (omega (arith, e))))

  stay :
      (fuel : ℕ) (f : File) (buffer out : ℕ → ℕ) (size total n : ℕ)
      → Loops fuel
      → IsPlaced fs f
      → size < 2 ^ 32
      → bytes_wanted f size total < suc fuel
      → f.position < f.size
      → 0 < n
      → n ≤ bytes_wanted f size total
      → f.position + n ≤ f.size
      → f.position % fs.cluster_size + n < fs.cluster_size
      → Ret
          (read_loop read_sector fuel fs
            (record f { position = f.position + n })
            buffer
            size
            (sent f out total n)
            (total + n))
          f
          out
          total
          (bytes_wanted f size total)
  stay fuel f buffer out size total n ih p s w l z b h m =
      runs_on fuel f (record f { position = f.position + n }) buffer out size total n ih
        (stays-IsPlaced read_sector disk reads fs ok f n p h z m l) s w z refl refl refl
        (wanted_after f size total n b)

  -- The file has no more bytes behind the last cluster of its chain.
  chain_ends :
      (f : File) (n : ℕ)
      → IsPlaced fs f
      → f.position < f.size
      → f.position % fs.cluster_size + n ≡ fs.cluster_size
      → end_of_chain ≤ read_fat_entry fs f.current_cluster
      → f.size ≤ f.position + n
  chain_ends f n p l e c = elim (Bool-cases (ltb (f.position + n) f.size)) [
    | inl h ↦ absurd (
        omega (
          arith,
          c,
          ap (read_fat_entry fs) (p.at_cluster l),
          p.long (f.position / fs.cluster_size) (
              omega (
                arith,
                behind read_sector disk reads fs ok f n e,
                ltb→lt (f.position + n) f.size h,
              )),
        ))
    | inr h ↦ ltb→le (f.position + n) f.size h
  ]

  -- A loop that stops at the end of the file.
  stopped :
      (f : File) (out : ℕ → ℕ) (total n : ℕ)
      → IsPlaced fs f
      → f.position + n ≤ f.size
      → f.size ≤ f.position + n
      → Delivered disk fs f out total n
          (record f { position = f.position + n })
          (sent f out total n)
          (total + n)
  stopped f out total n p h e = record {
    placed = record {
      position_in = h;
      size_in = p.size_in;
      long = p.long;
      at_cluster = λ l. absurd (omega (arith, l));
    };
    moved = refl;
    counted = refl;
    same_size = refl;
    same_start = refl;
    bytes = refl;
  }

  at_end :
      (fuel : ℕ) (f : File) (buffer out : ℕ → ℕ) (size total n : ℕ)
      → Loops fuel
      → IsPlaced fs f
      → size < 2 ^ 32
      → bytes_wanted f size total < suc fuel
      → f.position < f.size
      → 0 < n
      → n ≤ bytes_wanted f size total
      → f.position + n ≤ f.size
      → f.position % fs.cluster_size + n ≡ fs.cluster_size
      → Ret
          (resume fuel size (
            next_round fs
              (record f { position = f.position + n })
              buffer
              (sent f out total n)
              (total + n)
              true))
          f
          out
          total
          (bytes_wanted f size total)
  unfolding next_round
  at_end fuel f buffer out size total n ih p s w l z b h e =
      elim (Bool-cases (leb end_of_chain (read_fat_entry fs f.current_cluster))) [
        | inl c ↦ rw c (
            subst
              (λ k.
                Delivered disk fs f out total k (record f { position = f.position + n })
                  (sent f out total n) (total + n))
              (wanted_all f size total n b (
                chain_ends f n p l e (leb→le end_of_chain (read_fat_entry fs f.current_cluster) c)))
              (stopped f out total n p h (
                chain_ends f n p l e
                  (leb→le end_of_chain (read_fat_entry fs f.current_cluster) c))))
        | inr c ↦ rw c (
            runs_on fuel f
              (record f {
                position = f.position + n;
                current_cluster = read_fat_entry fs f.current_cluster;
              })
              buffer out size total n ih (moves-IsPlaced read_sector disk reads fs ok f n p h e l) s
              w z refl refl refl
              (wanted_moved f size total n (read_fat_entry fs f.current_cluster) b))
      ]

  loop_step :
      (fuel : ℕ) (f : File) (buffer out : ℕ → ℕ) (size total : ℕ)
      → Loops fuel
      → IsPlaced fs f
      → size < 2 ^ 32
      → bytes_wanted f size total < suc fuel
      → total < size
      → f.position < f.size
      → Ret
          (resume fuel size (read_round read_sector fs f buffer size out total))
          f
          out
          total
          (bytes_wanted f size total)
  unfolding next_round
  loop_step fuel f buffer out size total ih p s w t l =
      let b = taken_bounds read_sector disk reads fs ok f size total t l in
      let n = taken read_sector disk reads fs ok f size total in
      let full = filled read_sector disk reads fs ok f.current_cluster buffer in
      rw (round read_sector disk reads fs ok f buffer out size total p t s l)
        (elim (Bool-cases (leb fs.cluster_size (f.position % fs.cluster_size + n))) [
          | inl h ↦ rw h (
              at_end fuel f full out size total n ih p s w l b.0 b.1 (omega (arith, b))
                (omega (arith, b, leb→le fs.cluster_size (f.position % fs.cluster_size + n) h)))
          | inr h ↦ rw h (
              stay fuel f full out size total n ih p s w l b.0 b.1 (omega (arith, b))
                (leb→lt fs.cluster_size (f.position % fs.cluster_size + n) h))
        ])

  -- Where nothing is wanted.
  idle :
      (f : File) (out : ℕ → ℕ) (size total : ℕ)
      → IsPlaced fs f
      → (ltb total size && ltb f.position f.size) ≡ false
      → Delivered disk fs f out total (bytes_wanted f size total) f out total
  unfolding bytes_wanted
  idle f out size total p h = record {
    placed = p;
    moved = ground (arith, p.position_in);
    counted = ground (arith, p.position_in);
    same_size = refl;
    same_start = refl;
    bytes = fun_ext (λ j. ground (arith, p.position_in));
  }

  pub read_loop_lem : (fuel : ℕ) → Loops fuel
  unfolding read_loop read_round
  read_loop_lem zero f buffer out size total p s w = absurd (omega (arith, w))
  read_loop_lem (suc fuel) f buffer out size total p s w =
      elim (Bool-cases (ltb total size && ltb f.position f.size)) [
        | inl h ↦
            loop_step fuel f buffer out size total (read_loop_lem fuel) p s w (ground arith)
              (ground arith)
        | inr h ↦ rw (read_loop, h) (idle f out size total p h)
      ]

-- From a disk that answers every read, on a volume with sectors of 512 bytes and clusters of at most
-- 4096 bytes, and for a file that is at the cluster of its position and whose chain is long enough,
-- fat_read of fewer than 2^32 bytes returns: it copies min(size, what is left of the file) bytes of the
-- file from its position on to the start of the user's buffer and changes no other byte, reports that
-- number, moves the position by it, and leaves the file at the cluster of its new position.
pub fat_read_lem :
    (read_sector : ℕ → Option (ℕ → ℕ)) (disk : ℕ → ℕ → ℕ) (reads : Reads read_sector disk)
    (fs : FatFilesystem) (ok : IsReadable fs) (f : File) (stack out : ℕ → ℕ) (size : ℕ)
    → IsPlaced fs f
    → size < 2 ^ 32
    → Returns read_sector disk reads fs ok
        (fat_read read_sector fs f stack size out)
        f
        out
        0
        (min size (f.size - f.position))
unfolding fat_read
fat_read_lem read_sector disk reads fs ok f stack out size p s =
    subst
      (λ k.
        Returns read_sector disk reads fs ok (fat_read read_sector fs f stack size out) f out 0 k)
      (wanted_min f size)
      (read_loop_lem read_sector disk reads fs ok (suc size) f stack out size 0 p s
        (omega (arith, wanted_min f size)))
