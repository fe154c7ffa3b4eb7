-- ===== src/Heap/Tests.antt =====
-- Runs of the heap at concrete inputs, and the theorems at them.
use v.Common.{
  ℕ, ◌+◌, ◌-◌, ◌≤◌, ◌≡◌, refl, ◌⊎◌, List, [], ◌∷◌, none, some, arith, true, false, ◌==◌,
  if◌then◌else◌,
}
use v.Paging.{Paging, page_tables}
use v.Heap.Backed.{IsBacked, Gives, kmalloc-Gives}
use v.Pages.{endless}
use v.Heap.{
  Block, Heap, header_size, heap_start, kmalloc, kfree, find_best, align4, ensure_heap,
  ensure_blocks, take_ready, take_block, take_best, place, carve, release, merge_next,
  coalesce_prev, block_of, better,
}
use v.Heap.Live.{live}
use v.Heap.Overlap.{kmalloc_apart}
use v.Heap.Alloc.{IsValid, Outcome, kmalloc-Outcome}
use v.Heap.Free.{kfree_frees, kfree-kmalloc}

-- 128 used bytes between two free blocks.
abbrev three_blocks : List Block
three_blocks =
    record { addr = heap_start; size = 256; free = true }
    ∷ record { addr = heap_start + 280; size = 128; free = false }
    ∷ record { addr = heap_start + 432; size = 512; free = true }
    ∷ []

abbrev sample : Heap
sample = record { blocks = three_blocks; heap_end = heap_start + 968 }

sample-IsValid : IsValid sample
sample-IsValid = record {
  chain = omega arith;
  bound = omega arith;
  settled = (refl, (refl, (refl, tt)));
}

-- 100 bytes split the first block, which fits better than the last.
splits :
    (kmalloc endless sample 0 100).1.blocks
    ≡ record { addr = heap_start; size = 100; free = false }
      ∷ record { addr = heap_start + 124; size = 132; free = true }
      ∷ record { addr = heap_start + 280; size = 128; free = false }
      ∷ record { addr = heap_start + 432; size = 512; free = true }
      ∷ []
unfolding kmalloc ensure_heap ensure_blocks take_ready take_block take_best find_best better place
    carve align4
splits = refl

-- Freeing the middle block merges all three.
merges :
    kfree sample (heap_start + 304)
    ≡ some (record {
      blocks = record { addr = heap_start; size = 944; free = true } ∷ [];
      heap_end = heap_start + 968;
    })
unfolding kfree release merge_next coalesce_prev block_of
merges = refl

kmalloc-Outcome_example : Outcome endless sample 100 (kmalloc endless sample 0 100)
kmalloc-Outcome_example = kmalloc-Outcome endless sample 0 100 sample-IsValid (omega arith)

kmalloc_apart_example :
    (heap_start + 24 + 100 ≤ heap_start + 280)
    ⊎ (heap_start + 280 + header_size + 128 + header_size ≤ heap_start + 24)
unfolding kmalloc ensure_heap ensure_blocks take_ready take_block take_best find_best better align4
kmalloc_apart_example =
    kmalloc_apart endless sample 0 100 (heap_start + 24) (heap_start + 280) 128 sample-IsValid
      (omega arith) refl refl

kfree_frees_example :
    (h' : Heap) × (kfree sample (heap_start + 304) ≡ some h')
    × IsValid h'
    × ((y : ℕ)
        → live h'.blocks y
          ≡ (if (heap_start + 304 - header_size) == y then none else live three_blocks y))
kfree_frees_example = kfree_frees sample (heap_start + 304) 128 sample-IsValid (omega arith) refl

kfree-kmalloc_example :
    ((kmalloc endless sample 0 100).0 ≡ some (heap_start + header_size))
    × (kfree (kmalloc endless sample 0 100).1 (heap_start + header_size) ≡ some sample)
unfolding align4 find_best better
kfree-kmalloc_example =
    kfree-kmalloc endless sample 0 100 (record { addr = heap_start; size = 256; free = true })
      sample-IsValid (omega arith) refl

-- No page is mapped, and the heap is empty.
abbrev bare : Paging
bare = record { words = λ a. 0; pml4 = 4096; next_free_page = 0x200000; bootstrap_memory_used = 0 }

bare-IsBacked : IsBacked 0x10000 (record { blocks = []; heap_end = heap_start }) bare
bare-IsBacked = record {
  tables = record {
    level = λ t. if t == 4096 then 4 else 0;
    parent = λ t. 0;
    place = λ t. 0;
    tree = record {
      root = refl;
      aligned = λ t l. ground arith;
      child = λ t i k l b p. cc;
      pool_page = refl;
      used_page = refl;
      used_in = omega arith;
      fresh = λ t lo hi. ground arith;
    };
  };
  whole = omega arith;
  from_start = omega arith;
  in_space = omega arith;
  mapped = λ a lo hi. absurd (omega (arith, lo, hi));
}

kmalloc-Gives_example :
    Gives 0x10000 1000
      (kmalloc (page_tables 0x10000) (record { blocks = []; heap_end = heap_start }) bare 1000)
kmalloc-Gives_example =
    kmalloc-Gives 0x10000 (record { blocks = []; heap_end = heap_start }) bare 1000
      (record { chain = refl; bound = omega arith; settled = tt }) bare-IsBacked (omega arith)
