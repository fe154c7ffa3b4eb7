-- ===== src/Heap/Free.antt =====
-- `kfree` of kernel/memory.c: what it does to the live blocks, and after a `kmalloc`.
use v.Common.{
  ℕ, ◌+◌, ◌-◌, ◌^◌, ◌≤◌, ◌<◌, ◌≡◌, refl, ap, ◌∙◌, inl, inr, List, [], ◌∷◌, Option, none, some,
  arith, Bool, true, false, ◌==◌, if◌then◌else◌, ◌&&◌, subst,
}
use v.Pages.{PageSource}
use v.Heap.{
  Block, Heap, carve, place, header_size, heap_start, ensure_blocks, ensure_heap, take_ready,
  take_best, take_block, kmalloc, kfree, block_of, release, coalesce_prev, merge_next, align4,
  find_best,
}
use v.Heap.Chain.{Chain, release-Chain, coalesce_prev-Chain}
use v.Heap.Find.{Has, fits, Found, find_best_best}
use v.Heap.Live.{live, release-live, coalesce_prev-live, live_above, Has-ge, Has-le}
use v.Heap.Settled.{Settled, release-Settled, coalesce_prev_absent, coalesce_prev_skip}
use v.Heap.Alloc.{IsValid}

block_of_lem : (ptr : ℕ) → header_size ≤ ptr → ptr < 2 ^ 64 → block_of ptr ≡ ptr - header_size
unfolding block_of
block_of_lem ptr h k = omega arith

-- `kfree` at a block of a valid heap, by the address of its header.
abbrev Freed : Heap → ℕ → Heap → Type 0
Freed h x h' =
    IsValid h' × ((y : ℕ) → live h'.blocks y ≡ (if x == y then none else live h.blocks y))

free_blocks :
    (h : Heap) (x n : ℕ)
    → IsValid h
    → live h.blocks x ≡ some n
    → (bs : List Block) × (release x h.blocks ≡ some bs)
      × Freed h x (record h { blocks = coalesce_prev x bs })
free_blocks h x n v q =
    let (bs, r, gone) = release-live x n h.blocks heap_start h.heap_end v.chain q in
    let chain = release-Chain x h.blocks heap_start h.heap_end v.bound v.chain r in
    (
      bs,
      r,
      (
        record {
          chain = coalesce_prev-Chain x bs heap_start h.heap_end v.bound chain;
          bound = v.bound;
          settled = release-Settled x h.blocks heap_start h.heap_end v.chain v.settled r;
        },
        λ y.
            coalesce_prev-live x bs heap_start h.heap_end y chain (ground (arith, gone x)) ∙ gone y,
      ),
    )

-- `kfree` on a valid heap at the pointer of a live block succeeds: that block is no longer live, no
-- other changes, and the heap stays valid, so that no two free neighbours are left.
pub kfree_frees :
    (h : Heap) (ptr n : ℕ)
    → IsValid h
    → header_size ≤ ptr
    → live h.blocks (ptr - header_size) ≡ some n
    → (h' : Heap) × (kfree h ptr ≡ some h')
      × IsValid h'
      × ((y : ℕ) → live h'.blocks y ≡ (if (ptr - header_size) == y then none else live h.blocks y))
unfolding kfree
kfree_frees h ptr n v le q =
    let x = ptr - header_size in
    let (bs, r, freed) = free_blocks h x n v q in
    let inside = live_above h.blocks heap_start h.heap_end x n v.chain q in
    let at : block_of ptr ≡ x = block_of_lem ptr le (omega arith) in
    (record h { blocks = coalesce_prev x bs }, rw (at, r) (ground arith), freed.0, freed.1)

-- Freeing the block that was just taken gives the chain back.
carve-release :
    (size : ℕ) (b : Block) (bs : List Block)
    → size ≤ b.size
    → b.size < 2 ^ 64
    → size + 40 < 2 ^ 64
    → b.free ≡ true
    → Settled (b ∷ bs)
    → release b.addr (carve size b bs) ≡ some (b ∷ bs)
unfolding release carve merge_next
carve-release size b [] le small room f s = ground arith
carve-release size b (c ∷ bs) le small room f s = ground arith

place_here : (size : ℕ) (c : Block) (cs : List Block) → place size c.addr (c ∷ cs) ≡ carve size c cs
unfolding place
place_here size c cs = ground arith

place-release :
    (size : ℕ) (b : Block) (bs : List Block) (a e : ℕ)
    → size ≤ b.size
    → b.size < 2 ^ 64
    → size + 40 < 2 ^ 64
    → b.free ≡ true
    → Chain a bs e
    → Settled bs
    → Has b bs
    → release b.addr (place size b.addr bs) ≡ some bs
unfolding place release
place-release size b [] a e le small room f h s i = absurd i
place-release size b (c ∷ cs) a e le small room f h s (inl p) =
    subst (λ z. release z.addr (place size z.addr (c ∷ cs)) ≡ some (c ∷ cs)) p
      (rw (place_here size c cs) (
        carve-release size c cs (omega (arith, ap (λ (z : Block). z.size) p))
          (omega (arith, ap (λ (z : Block). z.size) p)) room (ap (λ (z : Block). z.free) p ∙ f) s))
place-release size b (c ∷ cs) a e le small room f h s (inr i) = ground (
  arith,
  Has-ge b cs (a + header_size + c.size) e h.1 i,
  place-release size b cs (a + header_size + c.size) e le small room f h.1 s.1 i,
)

coalesce_prev_keep :
    (x : ℕ) (c d : Block) (ds : List Block)
    → (d.addr == x) ≡ true
    → c.free ≡ false
    → coalesce_prev x (c ∷ d ∷ ds) ≡ c ∷ d ∷ ds
unfolding coalesce_prev
coalesce_prev_keep x c d ds p f = rw (p, f)

and_false : (x y : Bool) → y ≡ true → (x && y) ≡ false → x ≡ false
and_false x y p q = ground arith

apart :
    (b d : Block) (k n : ℕ) → k + header_size + n ≤ b.addr → d.addr ≡ k → (d.addr == b.addr) ≡ false
apart b d k n h p = ground arith

-- The block before a free block is not free, so `kfree` leaves it alone.
coalesce_prev-Settled :
    (b : Block) (bs : List Block) (a e : ℕ)
    → b.free ≡ true
    → Chain a bs e
    → Settled bs
    → Has b bs
    → coalesce_prev b.addr bs ≡ bs
unfolding coalesce_prev
coalesce_prev-Settled b [] a e f h s i = refl
coalesce_prev-Settled b (c ∷ cs) a e f h s (inl p) =
    coalesce_prev_absent b.addr c cs (a + header_size + c.size) e h.1
      (omega (arith, ap (λ (z : Block). z.addr) p))
coalesce_prev-Settled b (c ∷ []) a e f h s (inr i) = refl
coalesce_prev-Settled b (c ∷ d ∷ ds) a e f h s (inr (inl p)) =
    coalesce_prev_keep b.addr c d ds (ground (arith, ap (λ (z : Block). z.addr) p))
      (and_false c.free d.free (ap (λ (z : Block). z.free) p ∙ f) s.0)
coalesce_prev-Settled b (c ∷ d ∷ ds) a e f h s (inr (inr i)) =
    coalesce_prev_skip b.addr c d ds (
      apart b d (a + header_size + c.size) d.size
        (Has-ge b ds (a + header_size + c.size + header_size + d.size) e h.1.1 i) h.1.0)
    ∙ ap (λ r. c ∷ r)
        (coalesce_prev-Settled b (d ∷ ds) (a + header_size + c.size) e f h.1 s.1 (inr i))

module _ (pages : PageSource) (h : Heap) (m : pages.Memory) (size : ℕ) (b : Block) where
  ensure_found :
      (bs : List Block)
      → find_best (align4 size) bs none ≡ some b
      → ensure_blocks pages bs h m ≡ (some h, m)
  unfolding find_best ensure_blocks
  ensure_found [] found = cc
  ensure_found (c ∷ cs) found = refl

  kmalloc_found :
      find_best (align4 size) h.blocks none ≡ some b
      → kmalloc pages h m size ≡ (
        some (b.addr + header_size),
        record h { blocks = place (align4 size) b.addr h.blocks },
        m,
      )
  unfolding kmalloc ensure_heap take_ready take_block take_best
  kmalloc_found found =
      ap (λ (r : Option Heap × pages.Memory). take_ready pages r.0 h r.1 (align4 size))
        (ensure_found h.blocks found)
      ∙ ap (λ (r : Option Block). take_best pages r h m (align4 size)) found

  kfree_taken :
      IsValid h
      → align4 size + 40 < 2 ^ 64
      → Has b h.blocks
      → fits (align4 size) b ≡ true
      → kfree (record h { blocks = place (align4 size) b.addr h.blocks }) (b.addr + header_size)
        ≡ some h
  unfolding kfree
  kfree_taken v room i f =
      let in_heap = Has-le b h.blocks heap_start h.heap_end v.chain i in
      let at : block_of (b.addr + header_size) ≡ b.addr =
        block_of_lem (b.addr + header_size) (omega arith) (omega arith) ∙ omega arith in
      rw
        (
          at,
          place-release (align4 size) b h.blocks heap_start h.heap_end (ground arith) (omega arith)
              room (ground arith) v.chain v.settled i,
          coalesce_prev-Settled b h.blocks heap_start h.heap_end (ground arith) v.chain v.settled i,
        )
        (ground arith)

  -- `kfree` right after a `kmalloc` that found a block in a valid heap gives back the very heap:
  -- whether the block was used whole or split, the chain is as before.
  pub kfree-kmalloc :
      IsValid h
      → align4 size + 40 < 2 ^ 64
      → find_best (align4 size) h.blocks none ≡ some b
      → ((kmalloc pages h m size).0 ≡ some (b.addr + header_size))
        × (kfree (kmalloc pages h m size).1 (b.addr + header_size) ≡ some h)
  kfree-kmalloc v room found =
      let best =
        subst (Found (align4 size) h.blocks none) found (find_best_best (align4 size) h.blocks) in
      rw (kmalloc_found found) (refl, kfree_taken v room best.0 best.1)
