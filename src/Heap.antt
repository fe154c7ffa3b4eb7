-- ===== src/Heap.antt =====
-- kernel/memory.c: the kernel heap of `kmalloc` and `kfree`. A `struct heap_block` is a `Block` with
-- its address, and the chain of `next` pointers from `heap_first_block` is the list of blocks: the
-- empty list is a null `heap_first_block`. A pointer that is no block of the chain is a fault.
pub mod Chain
pub mod Find
pub mod Live
pub mod Settled
pub mod Alloc
pub mod Free
pub mod Growth
pub mod Loan
pub mod Overlap
pub mod Backed
mod Tests
use v.Common.{
  ℕ, zero, suc, ◌+◌, ◌-◌, ◌*◌, ◌/◌, ◌%◌, ◌^◌, Bool, true, false, ◌&&◌, List, [], ◌∷◌, ◌++◌, Option,
  none, some, ◌==◌, ltb, leb, if◌then◌else◌, u64,
}
use mathlib.Core.Option
use v.Pages.{PageSource, map_run}

-- sizeof(struct heap_block): a size, a pointer and an int, padded to 24 bytes.
abbrev pub header_size : ℕ
header_size = 24

abbrev pub page_size : ℕ
page_size = 4096

-- `vmm.heap_start`, as `init_vmm` sets it.
abbrev pub heap_start : ℕ
heap_start = 0xFFFF800000000000

-- The first mapping of the heap: 4 MB, that is 1024 pages.
abbrev pub heap_size : ℕ
heap_size = 4 * 1024 * 1024

-- PAGE_PRESENT | PAGE_WRITABLE
abbrev pub heap_flags : ℕ
heap_flags = 3

pub record Block : Type 0 where
  pub addr : ℕ
  pub size : ℕ
  pub free : Bool

-- The heap's part of the state: `heap_first_block` with its chain, and `vmm.heap_end`.
pub record Heap : Type 0 where
  pub blocks : List Block
  pub heap_end : ℕ

-- (size + 3) & ~3, in 64 bits.
unfoldable pub align4 : ℕ → ℕ
align4 size = let s = u64 (size + 3) in s - s % 4

-- One round of the search of `kmalloc`: `best_fit` after the block `b`.
unfoldable pub better : ℕ → Block → Option Block → Option Block
better size b none = if b.free && leb size b.size then some b else none
better size b (some c) =
    if b.free && leb size b.size then (if ltb b.size c.size then some b else some c) else some c

-- The search from `current` on, with the block found so far.
unfoldable pub find_best : ℕ → List Block → Option Block → Option Block
find_best size [] best = best
find_best size (b ∷ bs) best = find_best size bs (better size b best)

-- The end of `kmalloc` on the block that it takes: used whole, or split in two.
unfoldable pub carve : ℕ → Block → List Block → List Block
carve size b rest =
    if leb b.size (u64 (size + header_size + 16))
    then record b { free = false } ∷ rest
    else record b { size = size; free = false }
      ∷ record {
        addr = b.addr + header_size + size;
        size = u64 (b.size + 2 ^ 64 - size - header_size);
        free = true;
      }
      ∷ rest

-- The write through `best_fit`, the block at `a`.
unfoldable pub place : ℕ → ℕ → List Block → List Block
place size a [] = []
place size a (b ∷ bs) = if b.addr == a then carve size b bs else b ∷ place size a bs

-- The block that the first call makes of the whole heap.
abbrev pub first_block : Block
first_block = record { addr = heap_start; size = heap_size - header_size; free = true }

-- Pages for a header and `size` bytes, in 64 bits.
pub pages_needed : ℕ → ℕ
pages_needed size = u64 (u64 (header_size + size) + page_size - 1) / page_size

-- The block that an extension by `n` pages makes at the end of the heap.
pub new_block : ℕ → ℕ → Block
new_block a n = record { addr = a; size = u64 (n * page_size + 2 ^ 64 - header_size); free = true }

module _ (pages : PageSource) where
  open pages use {Memory}

  -- The first part of `kmalloc`, by `heap_first_block`: `none` where a page of the first 4 MB cannot
  -- be mapped.
  unfoldable pub ensure_blocks : List Block → Heap → Memory → Option Heap × Memory
  ensure_blocks (b ∷ bs) h m = (some h, m)
  ensure_blocks [] h m =
      let (done, m1) = map_run pages (heap_size / page_size) heap_start heap_flags m in
      (
        (if done
            then some (record { blocks = first_block ∷ []; heap_end = heap_start + heap_size })
            else none),
        m1,
      )

  unfoldable pub ensure_heap : Heap → Memory → Option Heap × Memory
  ensure_heap h m = ensure_blocks h.blocks h m

  -- After the search: take the block found, or map new pages behind the heap and take the block
  -- made of them.
  unfoldable pub take_best : Option Block → Heap → Memory → ℕ → Option ℕ × Heap × Memory
  take_best (some b) h m size =
      (some (b.addr + header_size), record h { blocks = place size b.addr h.blocks }, m)
  take_best none h m size =
      let n = pages_needed size in
      let (done, m1) = map_run pages n h.heap_end heap_flags m in
      if done
      then (
        some (h.heap_end + header_size),
        record {
          blocks = place size h.heap_end (h.blocks ++ (new_block h.heap_end n ∷ []));
          heap_end = u64 (h.heap_end + n * page_size);
        },
        m1,
      )
      else (none, h, m1)

  unfoldable pub take_block : Heap → Memory → ℕ → Option ℕ × Heap × Memory
  take_block h m size = take_best (find_best size h.blocks none) h m size

  -- The second part, on the heap that the first one leaves.
  unfoldable pub take_ready : Option Heap → Heap → Memory → ℕ → Option ℕ × Heap × Memory
  take_ready none h m size = (none, h, m)
  take_ready (some h1) h m size = take_block h1 m size

  -- The pointer (`none` for null), the heap and the pages after the call.
  unfoldable pub kmalloc : Heap → Memory → ℕ → Option ℕ × Heap × Memory
  kmalloc h m size = let (ready, m1) = ensure_heap h m in take_ready ready h m1 (align4 size)

-- `block->free = 1`, and the merge with the next block.
unfoldable pub merge_next : Block → List Block → List Block
merge_next b [] = record b { free = true } ∷ []
merge_next b (c ∷ bs) =
    if c.free
    then record b { size = u64 (b.size + (header_size + c.size)); free = true } ∷ bs
    else record b { free = true } ∷ c ∷ bs

-- The first half of `kfree` at the block at `a`; `none` where the chain has no such block.
unfoldable pub release : ℕ → List Block → Option (List Block)
release a [] = none
release a (b ∷ bs) =
    if b.addr == a then some (merge_next b bs) else Option.map (λ r. b ∷ r) (release a bs)

-- The second half: `current` runs to the block whose `next` is `a`, and takes it over if it is free.
unfoldable pub coalesce_prev : ℕ → List Block → List Block
coalesce_prev a [] = []
coalesce_prev a (c ∷ []) = c ∷ []
coalesce_prev a (c ∷ b ∷ bs) =
    if b.addr == a
    then (if c.free
        then record c { size = u64 (c.size + (header_size + b.size)) } ∷ bs
        else c ∷ b ∷ bs)
    else c ∷ coalesce_prev a (b ∷ bs)

-- The block of the pointer `ptr`.
unfoldable pub block_of : ℕ → ℕ
block_of ptr = u64 (ptr + 2 ^ 64 - header_size)

-- `none` for a pointer that is not null and not that of a block.
unfoldable pub kfree : Heap → ℕ → Option Heap
kfree h ptr =
    if ptr == 0
    then some h
    else Option.map (λ r. record h { blocks = coalesce_prev (block_of ptr) r })
        (release (block_of ptr) h.blocks)
