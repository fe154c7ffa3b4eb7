-- ===== src/Heap/Backed.antt =====
-- The heap of kernel/memory.c over its page tables: which of its addresses are mapped.
use v.Common.{
  ℕ, ◌+◌, ◌-◌, ◌*◌, ◌/◌, ◌%◌, ◌^◌, ◌≤◌, ◌<◌, ◌≡◌, refl, sym, ap, ◌∙◌, Bool, true, Option, none,
  some, List, [], ◌∷◌, ◌++◌, ltb, arith, inl, inr, Bool-cases, subst, u64, ltb→lt, ltb→le,
}
use v.Pages.{PageSource, map_run}
use v.Paging.{Paging, present, page_tables}
use v.Paging.Tree
use v.Paging.Entry.{page_number, entry-same}
use v.Paging.Run.{Ran, map_run-Ran}
use v.Heap.{
  Block, Heap, header_size, heap_start, heap_size, heap_flags, first_block, place, new_block,
  pages_needed, ensure_blocks, ensure_heap, take_ready, take_best, take_block, kmalloc, align4,
  find_best,
}
use v.Heap.Chain.{Chain}
use v.Heap.Live.{live, live_above}
use v.Heap.Alloc.{pages_needed_lem, IsValid, Outcome, kmalloc-Outcome}

-- Every address of the heap is in a present page.
pub record IsBacked (pool : ℕ) (h : Heap) (s : Paging) : Type 0 where
  pub tables : Tree.IsValid pool s
  pub whole : h.heap_end % 4096 ≡ 0
  pub from_start : heap_start ≤ h.heap_end
  pub in_space : h.heap_end < 2 ^ 64
  pub mapped : (a : ℕ) → heap_start ≤ a → a < h.heap_end → present (Tree.entry s a) ≡ true

-- The addresses of a run that succeeded.
inside_run :
    (pool : ℕ) (s s1 : Paging) (n addr a : ℕ)
    → Ran pool heap_flags s n addr true s1
    → addr % 4096 ≡ 0
    → addr ≤ a
    → a < addr + n * 4096
    → present (Tree.entry s1 a) ≡ true
inside_run pool s s1 n addr a r z lo hi =
    let i = (a - addr) / 4096 in
    let same : page_number (addr + i * 4096) ≡ page_number a = omega (arith, z, lo) in
    ap present (sym (entry-same s1 (addr + i * 4096) a same))
    ∙ r.mapped refl i (omega (arith, lo, hi))

-- The addresses of the heap before the run.
before_run :
    (pool : ℕ) (s s1 : Paging) (n addr a : ℕ) (done : Bool)
    → Ran pool heap_flags s n addr done s1
    → addr % 4096 ≡ 0
    → heap_start ≤ a
    → a < addr
    → addr + n * 4096 < 2 ^ 64
    → Tree.entry s1 a ≡ Tree.entry s a
before_run pool s s1 n addr a done r z lo hi t =
    r.outside a (λ i l e. omega (arith, z, lo, hi, t, l, e))

-- The heap after a run behind it, whatever its blocks are now.
longer :
    (pool : ℕ) (h : Heap) (s s1 : Paging) (n : ℕ) (blocks : List Block)
    → IsBacked pool h s
    → h.heap_end + n * 4096 < 2 ^ 64
    → Ran pool heap_flags s n h.heap_end true s1
    → IsBacked pool (record { blocks = blocks; heap_end = u64 (h.heap_end + n * 4096) }) s1
longer pool h s s1 n blocks b t r =
    let end : u64 (h.heap_end + n * 4096) ≡ h.heap_end + n * 4096 = omega (arith, t) in
    record {
      tables = r.valid;
      whole = omega (arith, end, b.whole);
      from_start = omega (arith, end, b.from_start);
      in_space = omega (arith, end, t);
      mapped = λ a lo hi. elim (Bool-cases (ltb a h.heap_end)) [
        | inl l ↦
            ap present
              (before_run pool s s1 n h.heap_end a true r b.whole lo (ltb→lt a h.heap_end l) t)
            ∙ b.mapped a lo (ltb→lt a h.heap_end l)
        | inr l ↦
            inside_run pool s s1 n h.heap_end a r b.whole (ltb→le a h.heap_end l)
              (omega (arith, end, hi))
      ];
    }

-- The heap as it was after a run behind it, as far as that got.
as_before :
    (pool : ℕ) (h : Heap) (s s1 : Paging) (n : ℕ) (done : Bool) (blocks : List Block)
    → IsBacked pool h s
    → h.heap_end + n * 4096 < 2 ^ 64
    → Ran pool heap_flags s n h.heap_end done s1
    → IsBacked pool (record { blocks = blocks; heap_end = h.heap_end }) s1
as_before pool h s s1 n done blocks b t r = record {
  tables = r.valid;
  whole = b.whole;
  from_start = b.from_start;
  in_space = b.in_space;
  mapped = λ a lo hi.
      ap present (before_run pool s s1 n h.heap_end a done r b.whole lo hi t) ∙ b.mapped a lo hi;
}

align4_bound : (size : ℕ) → size + 3 < 2 ^ 64 → align4 size ≤ size + 3
unfolding align4
align4_bound size h = omega arith

module _ (pool : ℕ) where
  -- What a part of `kmalloc` leaves.
  abbrev Left : Option ℕ × Heap × Paging → Type 0
  Left (p, h, s) = IsBacked pool h s

  abbrev pages : PageSource
  pages = page_tables pool

  take_best-IsBacked :
      (best : Option Block) (h : Heap) (s : Paging) (size : ℕ)
      → IsBacked pool h s
      → size + h.heap_end + 8195 < 2 ^ 64
      → Left (take_best pages best h s size)
  unfolding take_best
  take_best-IsBacked (some b) h s size k t = record {
    tables = k.tables;
    whole = k.whole;
    from_start = k.from_start;
    in_space = k.in_space;
    mapped = k.mapped;
  }
  take_best-IsBacked none h s size k t =
      let n = pages_needed size in
      let fact = pages_needed_lem size (omega (arith, t)) in
      let fits : h.heap_end + n * 4096 < 2 ^ 64 = omega (arith, fact, t) in
      let r =
        map_run-Ran pool heap_flags (omega arith) n h.heap_end s k.tables k.whole fits
          (omega (arith, fits)) in
      let s1 = (map_run pages n h.heap_end heap_flags s).1 in
      elim (Bool-cases (map_run pages n h.heap_end heap_flags s).0) [
        | inl d ↦
            rw (take_best, d)
              (longer pool h s s1 n
                (place size h.heap_end (h.blocks ++ (new_block h.heap_end n ∷ []))) k fits
                (subst (λ x. Ran pool heap_flags s n h.heap_end x s1) d r))
        | inr d ↦
            rw (take_best, d)
              (as_before pool h s s1 n (map_run pages n h.heap_end heap_flags s).0 h.blocks k fits
                r)
      ]

  -- What the first part of `kmalloc` leaves.
  abbrev Prepared : Heap → Option Heap × Paging → Type 0
  Prepared h (none, s) = IsBacked pool h s
  Prepared h (some h1, s) = IsBacked pool h1 s × (h1.heap_end ≤ h.heap_end + heap_size)

  empty_heap :
      (s : Paging)
      → Tree.IsValid pool s
      → IsBacked pool (record { blocks = []; heap_end = heap_start }) s
  empty_heap s ok = record {
    tables = ok;
    whole = omega arith;
    from_start = omega arith;
    in_space = omega arith;
    mapped = λ a lo hi. absurd (omega (arith, lo, hi));
  }

  first_run :
      (h : Heap) (s : Paging)
      → Tree.IsValid pool s
      → h.heap_end ≡ heap_start
      → Prepared h (ensure_blocks pages [] h s)
  unfolding ensure_blocks
  first_run h s ok e =
      let r =
        map_run-Ran pool heap_flags (omega arith) 1024 heap_start s ok (omega arith) (omega arith)
          (omega arith) in
      let s1 = (map_run pages 1024 heap_start heap_flags s).1 in
      let start : Heap = record { blocks = []; heap_end = heap_start } in
      elim (Bool-cases (map_run pages 1024 heap_start heap_flags s).0) [
        | inl d ↦
            rw (ensure_blocks, d)
              (
                longer pool start s s1 1024 (first_block ∷ []) (empty_heap s ok) (omega arith)
                    (subst (λ x. Ran pool heap_flags s 1024 heap_start x s1) d r),
                omega (arith, e),
              )
        | inr d ↦
            rw (ensure_blocks, d)
              (subst (λ x. IsBacked pool (record { blocks = h.blocks; heap_end = x }) s1) (sym e)
                (as_before pool start s s1 1024 (map_run pages 1024 heap_start heap_flags s).0
                  h.blocks (empty_heap s ok) (omega arith) r))
      ]

  ensure_blocks-Prepared :
      (bs : List Block) (h : Heap) (s : Paging)
      → Chain heap_start bs h.heap_end
      → IsBacked pool h s
      → Prepared h (ensure_blocks pages bs h s)
  unfolding ensure_blocks
  ensure_blocks-Prepared [] h s c k = first_run h s k.tables (sym c)
  ensure_blocks-Prepared (b ∷ bs) h s c k = (k, omega arith)

  take_ready-IsBacked :
      (r : Option Heap) (h : Heap) (s : Paging) (size : ℕ)
      → Prepared h (r, s)
      → size + h.heap_end + heap_size + 8195 < 2 ^ 64
      → Left (take_ready pages r h s size)
  unfolding take_ready take_block
  take_ready-IsBacked none h s size k t = k
  take_ready-IsBacked (some h1) h s size (k, le) t =
      take_best-IsBacked (find_best size h1.blocks none) h1 s size k (omega (arith, le, t))

  kmalloc-Left :
      (h : Heap) (s : Paging) (size : ℕ)
      → Chain heap_start h.blocks h.heap_end
      → IsBacked pool h s
      → size + h.heap_end + heap_size + 8198 < 2 ^ 64
      → Left (kmalloc pages h s size)
  unfolding kmalloc ensure_heap
  kmalloc-Left h s size c k t =
      let (ready, s1) = ensure_blocks pages h.blocks h s in
      take_ready-IsBacked ready h s1 (align4 size) (ensure_blocks-Prepared h.blocks h s c k)
        (omega (arith, t, align4_bound size (omega (arith, t))))

  -- What `kmalloc` gives: the heap stays backed, and so is each byte behind its pointer.
  abbrev pub Gives : ℕ → Option ℕ × Heap × Paging → Type 0
  Gives size (none, h, s) = IsBacked pool h s
  Gives size (some ptr, h, s) =
      IsBacked pool h s × ((j : ℕ) → j < size → present (Tree.entry s (ptr + j)) ≡ true)

  given :
      (h : Heap) (size : ℕ) (r : Option ℕ × Heap × Paging)
      → Left r
      → Outcome pages h size r
      → Gives size r
  given h size (none, h', s') k o = k
  given h size (some ptr, h', s') k g =
      let block : live h'.blocks (ptr - header_size) ≡ some g.bytes =
        ground (arith, g.now (ptr - header_size)) in
      let (lo, hi) =
        live_above h'.blocks heap_start h'.heap_end (ptr - header_size) g.bytes g.valid.chain
          block in
      (
        k,
        λ j l.
            k.mapped (ptr + j) (omega (arith, lo, g.above))
              (omega (arith, hi, g.above, g.enough, l)),
      )

  -- On a valid heap whose addresses are all in present pages of valid page tables, and with room in the
  -- address space, kmalloc over map_page and alloc_physical_page keeps it so, and every byte asked for
  -- at a pointer that it returns is in a present page.
  pub kmalloc-Gives :
      (h : Heap) (s : Paging) (size : ℕ)
      → IsValid h
      → IsBacked pool h s
      → size + h.heap_end + heap_size + 8198 < 2 ^ 64
      → Gives size (kmalloc pages h s size)
  kmalloc-Gives h s size v k t =
      given h size (kmalloc pages h s size) (kmalloc-Left h s size v.chain k t)
        (kmalloc-Outcome pages h s size v (omega (arith, t)))
