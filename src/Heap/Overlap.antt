-- ===== src/Heap/Overlap.antt =====
-- The bytes that `kmalloc` of kernel/memory.c returns, against those in use.
use v.Common.{
  ℕ, ◌+◌, ◌-◌, ◌^◌, ◌≤◌, ◌<◌, ◌≡◌, ◌∙◌, ◌⊎◌, inl, inr, subst, Option, none, some, ltb, arith,
  Bool-cases,
}
use v.Pages.{PageSource}
use v.Heap.{Heap, kmalloc, header_size, heap_start, heap_size}
use v.Heap.Live.{live, live_disjoint}
use v.Heap.Alloc.{IsValid, Grant, Outcome, kmalloc-Outcome}

-- The bytes of a grant and those of a block that was live before.
Grant-apart :
    (h h' : Heap) (size ptr y k : ℕ)
    → Grant h h' size ptr
    → live h.blocks y ≡ some k
    → (ptr + size ≤ y) ⊎ (y + header_size + k + header_size ≤ ptr)
Grant-apart h h' size ptr y k g old =
    let x = ptr - header_size in
    let mine : live h'.blocks x ≡ some g.bytes = g.now x ∙ ground arith in
    let other : live h'.blocks y ≡ some k = g.now y ∙ ground (arith, g.fresh) in
    elim (Bool-cases (ltb x y)) [
      | inl below ↦ inl (
          ground (
            arith,
            g.enough,
            g.above,
            (live_disjoint h'.blocks heap_start h'.heap_end x y g.bytes k g.valid.chain mine other
                (ground arith)).0,
          ))
      | inr above ↦ inr (
          ground (
            arith,
            g.above,
            g.fresh,
            live_disjoint h'.blocks heap_start h'.heap_end y x k g.bytes g.valid.chain other mine,
          ))
    ]

-- Where `kmalloc` returns a pointer on a valid heap, the bytes from the pointer on that were asked
-- for share none with a block that was live before: they end below its header, or their own header
-- starts behind its end.
pub kmalloc_apart :
    (pages : PageSource) (h : Heap) (m : pages.Memory) (size ptr y k : ℕ)
    → IsValid h
    → size + h.heap_end + heap_size + 8195 < 2 ^ 64
    → (kmalloc pages h m size).0 ≡ some ptr
    → live h.blocks y ≡ some k
    → (ptr + size ≤ y) ⊎ (y + header_size + k + header_size ≤ ptr)
kmalloc_apart pages h m size ptr y k v room e old =
    go (kmalloc pages h m size) e (kmalloc-Outcome pages h m size v room)
  where
    go :
        (r : Option ℕ × Heap × pages.Memory)
        → r.0 ≡ some ptr
        → Outcome pages h size r
        → (ptr + size ≤ y) ⊎ (y + header_size + k + header_size ≤ ptr)
    go (none, h', m') e o = cc
    go (some p, h', m') e g =
        Grant-apart h h' size ptr y k (subst (Grant h h' size) (ground arith) g) old
