-- ===== src/Elf/Tests.antt =====
-- Loads at a concrete file, and the theorem at it.
use v.Common.{
  ℕ, ◌+◌, ◌-◌, ◌^◌, ◌≡◌, refl, Bool, true, false, List, [], ◌∷◌, Option, none, some, get_or,
}
use v.Pages.{endless}
use v.Heap.{
  Block, Heap, heap_start, kmalloc, ensure_heap, ensure_blocks, take_ready, take_block, take_best,
  place, carve, find_best, better, align4, kfree, release, merge_next, coalesce_prev, block_of,
}
use v.Elf.{
  Vfs, State, Prepared, Progress, going, stopped, fault, prepare, seek_headers, read_headers,
  allocate, read_into, overlay, program_header, file_header, is_executable, little_endian, elf_load,
  run, clean_up, load_segments, load_segment, place_segment, seek_segment, meets_heap, read_segment,
  fill_segment, after_free, clear_rest, map_pages, num_pages, start_page, page_flags, free, close,
  go_on,
}
use v.Elf.Segments.{IsUser}

-- An executable with one segment: two bytes of code at 4 GB, and two bytes behind them.
abbrev program : List ℕ
program =
    127 ∷ 69 ∷ 76 ∷ 70 ∷ 2 ∷ 1 ∷ 1 ∷ 0 ∷ 0 ∷ 0 ∷ 0 ∷ 0 ∷ 0 ∷ 0 ∷ 0 ∷ 0 ∷ 2 ∷ 0 ∷ 62 ∷ 0 ∷ 1 ∷ 0 ∷ 0
    ∷ 0 ∷ 0 ∷ 0 ∷ 0 ∷ 0 ∷ 1 ∷ 0 ∷ 0 ∷ 0 ∷ 64 ∷ 0 ∷ 0 ∷ 0 ∷ 0 ∷ 0 ∷ 0 ∷ 0 ∷ 0 ∷ 0 ∷ 0 ∷ 0 ∷ 0 ∷ 0 ∷ 0
    ∷ 0 ∷ 0 ∷ 0 ∷ 0 ∷ 0 ∷ 64 ∷ 0 ∷ 56 ∷ 0 ∷ 1 ∷ 0 ∷ 0 ∷ 0 ∷ 0 ∷ 0 ∷ 0 ∷ 0 ∷ 1 ∷ 0 ∷ 0 ∷ 0 ∷ 6 ∷ 0
    ∷ 0 ∷ 0 ∷ 120 ∷ 0 ∷ 0 ∷ 0 ∷ 0 ∷ 0 ∷ 0 ∷ 0 ∷ 0 ∷ 0 ∷ 0 ∷ 0 ∷ 1 ∷ 0 ∷ 0 ∷ 0 ∷ 0 ∷ 0 ∷ 0 ∷ 0 ∷ 0
    ∷ 0 ∷ 0 ∷ 0 ∷ 2 ∷ 0 ∷ 0 ∷ 0 ∷ 0 ∷ 0 ∷ 0 ∷ 0 ∷ 4 ∷ 0 ∷ 0 ∷ 0 ∷ 0 ∷ 0 ∷ 0 ∷ 0 ∷ 0 ∷ 0 ∷ 0 ∷ 0 ∷ 0
    ∷ 0 ∷ 0 ∷ 0 ∷ 144 ∷ 195 ∷ []

-- A file system with this file alone. The device is the position, and whether the file is open.
abbrev one_file : Vfs
one_file = record {
  Device = ℕ × Bool;
  vfs_open = λ name mode d. (true, (0, true));
  vfs_read = λ size buffer d. (true, size, (λ j. get_or program (d.0 + j) 0), (d.0 + size, d.1));
  vfs_seek = λ offset d. (true, (offset, d.1));
  vfs_close = λ d. (0, false);
}

abbrev free_heap : Heap
free_heap = record {
  blocks = record { addr = heap_start; size = 1000; free = true } ∷ [];
  heap_end = heap_start + 1024;
}

abbrev start : State one_file endless
start = record {
  heap = free_heap;
  memory = 4096;
  bytes = λ x. 7;
  device = (0, false);
  entry_point = 0;
}

-- Whether a load succeeded, with the blocks it leaves, the entry point and the first five bytes at 4 GB.
abbrev seen : Option (Bool × State one_file endless) → Option (Bool × List Block × ℕ × List ℕ)
seen none = none
seen (some (b, s)) =
    let at : ℕ → ℕ = λ j. s.bytes (2 ^ 32 + j) in
    some (b, s.heap.blocks, s.entry_point, at 0 ∷ at 1 ∷ at 2 ∷ at 3 ∷ at 4 ∷ [])

loads :
    seen (elf_load one_file endless (λ x. 0) [] start)
    ≡ some (true, free_heap.blocks, 2 ^ 32, 144 ∷ 195 ∷ 0 ∷ 0 ∷ 7 ∷ [])
unfolding elf_load prepare seek_headers read_headers allocate read_into overlay program_header
    file_header is_executable little_endian run clean_up load_segments load_segment place_segment
    seek_segment meets_heap read_segment fill_segment after_free clear_rest map_pages num_pages
    start_page page_flags free close go_on kmalloc ensure_heap ensure_blocks take_ready take_block
    take_best place carve find_best better align4 kfree release merge_next coalesce_prev block_of
loads = refl

-- The state before the loop over the segments, with its table.
abbrev before_segments : Prepared (State one_file endless)
before_segments = prepare one_file endless (λ x. 0) (record start { device = (0, true) })

-- The header of the segment, read again behind its data.
abbrev StillUser : ℕ → Progress (State one_file endless) → Type 0
StillUser ptr (going t) = IsUser (program_header 0 ptr t.bytes)
StillUser ptr (stopped t) = Unit
StillUser ptr fault = Unit

-- A byte of the heap, and the last below it.
meets :
    (meets_heap heap_start 1 free_heap ≡ true) × (meets_heap (heap_start - 1) 1 free_heap ≡ false)
unfolding meets_heap
meets = (refl, refl)
