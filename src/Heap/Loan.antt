-- ===== src/Heap/Loan.antt =====
-- What a caller of `kmalloc` and `kfree` (kernel/memory.c) sees of a block that it takes and gives back.
use v.Common.{
  ℕ, ◌+◌, ◌-◌, ◌^◌, ◌≤◌, ◌<◌, ◌≡◌, sym, subst, Option, none, some, ◌==◌, if◌then◌else◌, arith,
}
use v.Pages.{PageSource}
use v.Heap.{Heap, header_size, heap_size, kmalloc, kfree}
use v.Heap.Live.{live}
use v.Heap.Alloc.{IsValid, Outcome, kmalloc-Outcome}
use v.Heap.Free.{kfree_frees}

-- A valid heap with the same live blocks as another.
abbrev pub Same : Heap → Heap → Type 0
Same h h' = IsValid h' × ((y : ℕ) → live h'.blocks y ≡ live h.blocks y)

-- The address space has room for a request.
abbrev pub Roomy : Heap → ℕ → Type 0
Roomy h size = size + h.heap_end + heap_size + 8195 < 2 ^ 64

-- A valid heap whose only other live block is the one of a pointer.
abbrev pub Holds : Heap → ℕ → Heap → Type 0
Holds h ptr h' =
    IsValid h'
    × (header_size ≤ ptr)
    × (live h.blocks (ptr - header_size) ≡ none)
    × ((n : ℕ) × ((y : ℕ)
          → live h'.blocks y ≡ (if (ptr - header_size) == y then some n else live h.blocks y)))

-- What `kfree` of that pointer gives.
abbrev pub Freed : Heap → Option Heap → Type 0
Freed h none = ⊥
Freed h (some h') = Same h h'

pub Holds-kfree : (h : Heap) (ptr : ℕ) (h' : Heap) → Holds h ptr h' → Freed h (kfree h' ptr)
Holds-kfree h ptr h' (v, le, fresh, (n, now)) =
    let (r, e, w, gone) = kfree_frees h' ptr n v le (ground (arith, now (ptr - header_size))) in
    subst (Freed h) (sym e) (w, λ y. ground (arith, gone y, now y, fresh))

-- What `kmalloc` leaves: the block of the pointer, or the heap as it was.
abbrev pub Lent : {M : Type 0} → Heap → Option ℕ × Heap × M → Type 0
Lent h (none, h', m) = Same h h'
Lent h (some ptr, h', m) = Holds h ptr h'

Outcome-Lent :
    (pages : PageSource) (h : Heap) (size : ℕ) (r : Option ℕ × Heap × pages.Memory)
    → Outcome pages h size r
    → Lent h r
Outcome-Lent pages h size (none, h', m) (v, same, failed) = (v, same)
Outcome-Lent pages h size (some ptr, h', m) g = (g.valid, g.above, g.fresh, (g.bytes, g.now))

pub kmalloc-Lent :
    (pages : PageSource) (h : Heap) (m : pages.Memory) (size : ℕ)
    → IsValid h
    → Roomy h size
    → Lent h (kmalloc pages h m size)
kmalloc-Lent pages h m size v room =
    Outcome-Lent pages h size (kmalloc pages h m size) (kmalloc-Outcome pages h m size v room)
