-- ===== src/Heap/Growth.antt =====
-- How far `kmalloc` of kernel/memory.c moves the end of the heap.
use v.Common.{
  ℕ, ◌+◌, ◌^◌, ◌≤◌, ◌<◌, ◌≡◌, refl, subst, Option, none, some, List, ◌==◌, arith, Bool-cases, inl,
  inr,
}
use mathlib.Core.Option
use v.Pages.{PageSource, map_run}
use v.Heap.{
  Block, Heap, heap_size, heap_flags, pages_needed, ensure_blocks, ensure_heap, take_best,
  take_block, take_ready, find_best, align4, kmalloc, kfree, coalesce_prev, block_of, release,
}
use v.Heap.Alloc.{IsValid, Ready, ensure_blocks-Ready, pages_needed_lem, align4_lem}

module _ (pages : PageSource) where
  open pages use {Memory}

  take_best_end :
      (r : Option Block) (h : Heap) (m : Memory) (size : ℕ)
      → size + h.heap_end + 8192 < 2 ^ 64
      → (take_best pages r h m size).1.heap_end ≤ h.heap_end + size + 8192
  unfolding take_best
  take_best_end (some b) h m size room = omega arith
  take_best_end none h m size room =
      elim (Bool-cases (map_run pages (pages_needed size) h.heap_end heap_flags m).0) [
        | inl done ↦ rw done (omega (arith, pages_needed_lem size (omega arith)))
        | inr failed ↦ rw failed (omega arith)
      ]

  take_ready_end :
      (r : Option Heap) (h : Heap) (m : Memory) (size : ℕ)
      → size + h.heap_end + heap_size + 8195 < 2 ^ 64
      → Ready pages h (r, m)
      → (take_ready pages r h m (align4 size)).1.heap_end ≤ h.heap_end + heap_size + size + 8195
  unfolding take_ready take_block
  take_ready_end none h m size room a = omega arith
  take_ready_end (some h1) h m size room (v, longer, same) =
      let (low, high) = align4_lem pages size (omega (arith, room)) in
      omega (
        arith,
        longer,
        high,
        take_best_end (find_best (align4 size) h1.blocks none) h1 m (align4 size)
            (omega (arith, room, longer, high)),
      )

  -- At most by the first 4 MB and the pages for the request.
  pub kmalloc_end :
      (h : Heap) (m : Memory) (size : ℕ)
      → IsValid h
      → size + h.heap_end + heap_size + 8195 < 2 ^ 64
      → (kmalloc pages h m size).1.heap_end ≤ h.heap_end + heap_size + size + 8195
  unfolding kmalloc ensure_heap
  kmalloc_end h m size v room =
      let (r, m1) = ensure_blocks pages h.blocks h m in
      take_ready_end r h m1 size room (ensure_blocks-Ready pages h.blocks h m refl v)

-- A heap, if there is one, that ends where another does.
abbrev Level : Heap → Option Heap → Type 0
Level h none = Unit
Level h (some h') = h'.heap_end ≡ h.heap_end

mapped-Level :
    (h : Heap) (f : List Block → List Block) (r : Option (List Block))
    → Level h (Option.map (λ bs. record h { blocks = f bs }) r)
mapped-Level h f none = tt
mapped-Level h f (some bs) = refl

kfree-Level : (h : Heap) (ptr : ℕ) → Level h (kfree h ptr)
unfolding kfree
kfree-Level h ptr = elim (Bool-cases (ptr == 0)) [
  | inl z ↦ rw z refl
  | inr z ↦ rw z (mapped-Level h (coalesce_prev (block_of ptr)) (release (block_of ptr) h.blocks))
]

-- `kfree` does not move the end.
pub kfree_end : (h h' : Heap) (ptr : ℕ) → kfree h ptr ≡ some h' → h'.heap_end ≡ h.heap_end
kfree_end h h' ptr e = subst (Level h) e (kfree-Level h ptr)
