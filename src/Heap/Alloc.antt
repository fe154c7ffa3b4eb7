-- ===== src/Heap/Alloc.antt =====
-- `kmalloc` and `kfree` of kernel/memory.c as a map from addresses to live allocations.
use v.Common.{
  ℕ, ◌+◌, ◌-◌, ◌*◌, ◌^◌, ◌≤◌, ◌<◌, ◌≡◌, refl, sym, ap, ◌∙◌, inl, inr, subst, List, [], ◌∷◌, ◌++◌,
  Option, none, some, arith, true, false, ◌==◌, if◌then◌else◌, Bool-cases, u64,
}
use v.Pages.{PageSource, map_run}
use v.Heap.{
  Block, Heap, place, header_size, page_size, heap_start, heap_size, first_block, new_block,
  pages_needed, ensure_blocks, ensure_heap, take_ready, take_best, take_block, kmalloc, align4,
  find_best, heap_flags,
}
use v.Heap.Chain.{Chain, place-Chain, append-Chain}
use v.Heap.Find.{Has, fits, Found, find_best_best}
use v.Heap.Live.{live, granted, place-live, append-live, Has-live, live_end, Has-append}
use v.Heap.Settled.{Settled, place-Settled, place-append, append-carve-Settled}

-- The blocks lie end to end from `heap_start` to `heap_end`, inside 64 bits, with no two free
-- neighbours.
pub record IsValid (h : Heap) : Type 0 where
  pub chain : Chain heap_start h.blocks h.heap_end
  pub bound : h.heap_end < 2 ^ 64
  pub settled : Settled h.blocks

-- What an allocation of `size` bytes at `ptr` makes of the heap `h`.
pub record Grant (h h' : Heap) (size ptr : ℕ) : Type 0 where
  pub valid : IsValid h'
  pub bytes : ℕ
  pub enough : size ≤ bytes
  pub above : header_size ≤ ptr
  pub fresh : live h.blocks (ptr - header_size) ≡ none
  pub now :
      (y : ℕ)
      → live h'.blocks y ≡ (if (ptr - header_size) == y then some bytes else live h.blocks y)

-- A block that the search finds.
take_found :
    (h : Heap) (size : ℕ) (b : Block)
    → IsValid h
    → size + h.heap_end + 8192 < 2 ^ 64
    → Has b h.blocks
    → fits size b ≡ true
    → Grant h (record h { blocks = place size b.addr h.blocks }) size (b.addr + header_size)
take_found h size b v room i f = record {
  valid = record {
    chain = place-Chain size b.addr h.blocks heap_start h.heap_end v.bound (omega arith) v.chain;
    bound = v.bound;
    settled =
        place-Settled size b h.blocks heap_start h.heap_end (ground arith) v.chain i v.settled;
  };
  bytes = granted size b;
  enough = ground arith;
  above = omega arith;
  fresh = ground (arith, Has-live b h.blocks heap_start h.heap_end v.chain i);
  now = λ y. ground (
    arith,
    place-live size b h.blocks heap_start h.heap_end y (omega arith) (ground arith) v.chain i,
  );
}

-- The heap after an extension by `n` pages.
abbrev extended : Heap → ℕ → ℕ → Heap
extended h size n = record {
  blocks = place size h.heap_end (h.blocks ++ (new_block h.heap_end n ∷ []));
  heap_end = u64 (h.heap_end + n * page_size);
}

pub pages_needed_lem :
    (size : ℕ)
    → size + 8192 < 2 ^ 64
    → (size + 24 ≤ pages_needed size * 4096) × (pages_needed size * 4096 < size + 24 + 4096)
unfolding pages_needed
pages_needed_lem size h = omega arith

take_extended :
    (h : Heap) (size : ℕ)
    → IsValid h
    → size + h.heap_end + 8192 < 2 ^ 64
    → Grant h (extended h size (pages_needed size)) size (h.heap_end + header_size)
unfolding new_block
take_extended h size v room =
    let n = pages_needed size in
    let fact = pages_needed_lem size (omega arith) in
    let grown =
      append-Chain heap_start h.blocks h.heap_end n (h.heap_end + n * 4096) v.chain (omega arith) in
    let fits = Has-append h.blocks (new_block h.heap_end n) in
    record {
      valid = record {
        chain =
            subst
              (λ e.
                Chain heap_start (place size h.heap_end (h.blocks ++ (new_block h.heap_end n ∷ [])))
                  e)
              (omega arith)
              (place-Chain size h.heap_end (h.blocks ++ (new_block h.heap_end n ∷ [])) heap_start
                (h.heap_end + n * 4096) (omega arith) (omega arith) grown);
        bound = omega arith;
        settled =
            rw (place-append size (new_block h.heap_end n) h.blocks heap_start v.chain)
              (append-carve-Settled size (new_block h.heap_end n) h.blocks v.settled);
      };
      bytes = granted size (new_block h.heap_end n);
      enough = ground arith;
      above = omega arith;
      fresh = ground (arith, live_end h.blocks heap_start h.heap_end v.chain);
      now = λ y. ground (
        arith,
        place-live size (new_block h.heap_end n) (h.blocks ++ (new_block h.heap_end n ∷ []))
            heap_start (h.heap_end + n * 4096) y (omega arith) refl grown fits,
        append-live h.blocks heap_start h.heap_end n y v.chain,
      );
    }

first-IsValid : IsValid (record { blocks = first_block ∷ []; heap_end = heap_start + heap_size })
first-IsValid = record { chain = (refl, refl); bound = omega arith; settled = (refl, tt) }

module _ (pages : PageSource) where
  open pages use {Memory}

  -- Some page could not be had or mapped.
  abbrev pub FailedRun : Type 0
  FailedRun = (n a : ℕ) × (m : Memory) × ((map_run pages n a heap_flags m).0 ≡ false)

  -- What `take_block` leaves: a grant at the pointer that it returns, or the heap as it was, where
  -- no block fits and the new pages cannot be mapped.
  abbrev Taken : Heap → Memory → ℕ → Option ℕ × Heap × Memory → Type 0
  Taken h m size (some ptr, h', m') = Grant h h' size ptr
  Taken h m size (none, h', m') =
      (h' ≡ h) × ((map_run pages (pages_needed size) h.heap_end heap_flags m).0 ≡ false)

  take_best-Taken :
      (r : Option Block) (h : Heap) (m : Memory) (size : ℕ)
      → IsValid h
      → size + h.heap_end + 8192 < 2 ^ 64
      → Found size h.blocks none r
      → Taken h m size (take_best pages r h m size)
  unfolding take_best
  take_best-Taken (some b) h m size v room f = take_found h size b v room f.0 f.1
  take_best-Taken none h m size v room f =
      elim (Bool-cases (map_run pages (pages_needed size) h.heap_end heap_flags m).0) [
        | inl done ↦ rw done (take_extended h size v room)
        | inr failed ↦ rw failed (refl, failed)
      ]

  take_block-Taken :
      (h : Heap) (m : Memory) (size : ℕ)
      → IsValid h
      → size + h.heap_end + 8192 < 2 ^ 64
      → Taken h m size (take_block pages h m size)
  unfolding take_block
  take_block-Taken h m size v room =
      take_best-Taken (find_best size h.blocks none) h m size v room (find_best_best size h.blocks)

  -- The first part of `kmalloc` leaves a valid heap with the same live blocks, at most 4 MB longer,
  -- or fails at a page of the first 4 MB.
  abbrev pub Ready : Heap → Option Heap × Memory → Type 0
  Ready h (none, m1) = FailedRun
  Ready h (some h1, m1) =
      IsValid h1
      × (h1.heap_end ≤ h.heap_end + heap_size)
      × ((y : ℕ) → live h1.blocks y ≡ live h.blocks y)

  pub ensure_blocks-Ready :
      (bs : List Block) (h : Heap) (m : Memory)
      → h.blocks ≡ bs
      → IsValid h
      → Ready h (ensure_blocks pages bs h m)
  unfolding ensure_blocks
  ensure_blocks-Ready (b ∷ bs) h m e v = (v, omega arith, λ y. refl)
  ensure_blocks-Ready [] h m e v =
      elim (Bool-cases (map_run pages 1024 heap_start heap_flags m).0) [
        | inl done ↦ rw done (
          first-IsValid,
          omega (arith, subst (λ bs. Chain heap_start bs h.heap_end) e v.chain),
          λ y. rw e (ground arith),
        )
        | inr failed ↦ rw failed (1024, heap_start, m, failed)
      ]

  -- What `kmalloc` leaves: a grant at the pointer that it returns, or a valid heap with the same
  -- live blocks, where a page could not be mapped.
  abbrev pub Outcome : Heap → ℕ → Option ℕ × Heap × Memory → Type 0
  Outcome h size (some ptr, h', m') = Grant h h' size ptr
  Outcome h size (none, h', m') =
      IsValid h' × ((y : ℕ) → live h'.blocks y ≡ live h.blocks y) × FailedRun

  -- A grant on a heap with the same live blocks.
  Grant-from :
      (h h1 h' : Heap) (size size' ptr : ℕ)
      → ((y : ℕ) → live h1.blocks y ≡ live h.blocks y)
      → size' ≤ size
      → Grant h1 h' size ptr
      → Grant h h' size' ptr
  Grant-from h h1 h' size size' ptr same le g = record {
    valid = g.valid;
    bytes = g.bytes;
    enough = omega arith;
    above = g.above;
    fresh = sym (same (ptr - header_size)) ∙ g.fresh;
    now = λ y. ground (arith, g.now y, same y);
  }

  pub align4_lem : (size : ℕ) → size + 3 < 2 ^ 64 → (size ≤ align4 size) × (align4 size ≤ size + 3)
  unfolding align4
  align4_lem size h = omega arith

  Taken-Outcome :
      (h h1 : Heap) (m : Memory) (size : ℕ) (r : Option ℕ × Heap × Memory)
      → IsValid h1
      → ((y : ℕ) → live h1.blocks y ≡ live h.blocks y)
      → size + 3 < 2 ^ 64
      → Taken h1 m (align4 size) r
      → Outcome h size r
  Taken-Outcome h h1 m size (some p, h', m') v same le g =
      Grant-from h h1 h' (align4 size) size p same (align4_lem size le).0 g
  Taken-Outcome h h1 m size (none, h', m') v same le (e, failed) = (
    subst IsValid (sym e) v,
    λ y. ap (λ (x : Heap). live x.blocks y) e ∙ same y,
    (pages_needed (align4 size), h1.heap_end, m, failed),
  )

  take_ready-Outcome :
      (r : Option Heap) (h : Heap) (m : Memory) (size : ℕ)
      → IsValid h
      → size + h.heap_end + heap_size + 8195 < 2 ^ 64
      → Ready h (r, m)
      → Outcome h size (take_ready pages r h m (align4 size))
  unfolding take_ready
  take_ready-Outcome none h m size v room failed = (v, λ y. refl, failed)
  take_ready-Outcome (some h1) h m size v room (v1, longer, same) =
      Taken-Outcome h h1 m size (take_block pages h1 m (align4 size)) v1 same (omega arith)
        (take_block-Taken h1 m (align4 size) v1 (omega (arith, (align4_lem size (omega arith)).1)))

  -- `kmalloc` on a valid heap, where the address space has room for the request: either it returns
  -- a pointer behind the header of a block of at least `size` bytes that was not live before, and
  -- that block is the only change among the live ones; or it returns null, no live block changes,
  -- and some page could not be had or mapped. The heap stays valid in both cases.
  pub kmalloc-Outcome :
      (h : Heap) (m : Memory) (size : ℕ)
      → IsValid h
      → size + h.heap_end + heap_size + 8195 < 2 ^ 64
      → Outcome h size (kmalloc pages h m size)
  unfolding kmalloc ensure_heap
  kmalloc-Outcome h m size v room =
      let (ready, m1) = ensure_blocks pages h.blocks h m in
      take_ready-Outcome ready h m1 size v room (ensure_blocks-Ready h.blocks h m refl v)

align4_wraps : (size : ℕ) → 2 ^ 64 ≤ size + 3 → size < 2 ^ 64 → align4 size ≡ align4 0
unfolding align4
align4_wraps size low high = omega arith

-- A request within 3 bytes of 2^64 wraps to a request for no bytes: it gets what `kmalloc(0)` gets.
pub kmalloc_wraps :
    (pages : PageSource) (h : Heap) (m : pages.Memory) (size : ℕ)
    → 2 ^ 64 ≤ size + 3
    → size < 2 ^ 64
    → kmalloc pages h m size ≡ kmalloc pages h m 0
unfolding kmalloc
kmalloc_wraps pages h m size low high =
    ap (λ (s : ℕ). let (ready, m1) = ensure_heap pages h m in take_ready pages ready h m1 s)
      (align4_wraps size low high)
