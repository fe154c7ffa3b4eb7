-- ===== src/Start/Memory.antt =====
-- The memory test and the example allocation of the start (kernel/memory.c, kernel/kernel_loader.c) over
-- `kmalloc` and `kfree`.
use v.Common.{
  ℕ, zero, suc, ◌+◌, ◌%◌, ◌^◌, ◌≤◌, ◌<◌, ◌≡◌, refl, ◌∙◌, Bool, true, false, Option, none, some, u8,
  update, update_same, update_other, arith,
}
use mathlib.Core.Option
use v.Pages.{PageSource}
use v.Heap.{Heap, heap_size, kmalloc, kfree}
use v.Heap.Alloc.{IsValid}
use v.Heap.Growth.{kmalloc_end, kfree_end}
use v.Heap.Loan.{Same, Roomy, Holds, Freed, Holds-kfree, Lent, kmalloc-Lent}
use v.Start.{
  Store, write_bytes, check_bytes, give_back, taken, return_block, test_block,
  test_memory_management,
}

-- The bytes before the loop's first are not written.
write_bytes_before : (n i ptr : ℕ) (b : ℕ → ℕ) (x : ℕ) → x < ptr + i → write_bytes n i ptr b x ≡ b x
unfolding write_bytes
write_bytes_before zero i ptr b x h = refl
write_bytes_before (suc n) i ptr b x h =
    write_bytes_before n (i + 1) ptr (update b (ptr + i) (u8 (i % 256))) x (omega (arith, h))
    ∙ update_other b (ptr + i) (u8 (i % 256)) x (λ e. omega (arith, e, h))

-- What was written is read.
pub check_bytes-write_bytes :
    (n i ptr : ℕ) (b : ℕ → ℕ) → check_bytes n i ptr (write_bytes n i ptr b) ≡ true
unfolding check_bytes write_bytes
check_bytes-write_bytes zero i ptr b = refl
check_bytes-write_bytes (suc n) i ptr b =
    let b1 = update b (ptr + i) (u8 (i % 256)) in
    let here =
      write_bytes_before n (i + 1) ptr b1 (ptr + i) (omega arith)
      ∙ update_same b (ptr + i) (u8 (i % 256)) in
    ground (arith, here, check_bytes-write_bytes n (i + 1) ptr b1)

module _ (pages : PageSource) where
  open pages use {Memory}

  -- The live blocks of `h`, and the end of the heap no further than `e`.
  abbrev pub Restored : Heap → ℕ → Option (Store Memory) → Type 0
  Restored h e none = ⊥
  Restored h e (some s) = Same h s.heap × (s.heap.heap_end ≤ e)

  Freed-Restored :
      (h : Heap) (ptr : ℕ) (s : Store Memory) (r : Option Heap)
      → kfree s.heap ptr ≡ r
      → Freed h r
      → Restored h s.heap.heap_end (Option.map (λ x. record s { heap = x }) r)
  Freed-Restored h ptr s none e a = a
  Freed-Restored h ptr s (some x) e a = (a, omega (arith, kfree_end s.heap x ptr e))

  give_back-Restored :
      (h : Heap) (ptr : ℕ) (s : Store Memory)
      → Holds h ptr s.heap
      → Restored h s.heap.heap_end (give_back pages ptr s)
  unfolding give_back
  give_back-Restored h ptr s a =
      Freed-Restored h ptr s (kfree s.heap ptr) refl (Holds-kfree h ptr s.heap a)

  return_block-Restored :
      (h : Heap) (bytes : ℕ → ℕ) (r : Option ℕ × Heap × Memory)
      → Lent h r
      → Restored h r.1.heap_end (return_block pages bytes r)
  unfolding return_block
  return_block-Restored h bytes (none, h1, m) a = (a, omega arith)
  return_block-Restored h bytes (some ptr, h1, m) a =
      give_back-Restored h ptr (taken pages bytes (some ptr, h1, m)) a

  -- A step of the kernel that takes a block of `size` bytes and gives it back.
  pub borrow-Restored :
      (s : Store Memory) (size : ℕ)
      → IsValid s.heap
      → Roomy s.heap size
      → Restored s.heap
          (s.heap.heap_end + heap_size + size + 8195)
          (return_block pages s.bytes (kmalloc pages s.heap s.memory size))
  borrow-Restored s size v room =
      further (return_block pages s.bytes r)
        (return_block-Restored s.heap s.bytes r (kmalloc-Lent pages s.heap s.memory size v room))
    where
      r : Option ℕ × Heap × Memory
      r = kmalloc pages s.heap s.memory size

      further :
          (t : Option (Store Memory))
          → Restored s.heap r.1.heap_end t
          → Restored s.heap (s.heap.heap_end + heap_size + size + 8195) t
      further none a = a
      further (some t) (same, le) =
          (same, omega (arith, le, kmalloc_end pages s.heap s.memory size v room))

  -- Whether there is a block.
  abbrev pub had : Option ℕ → Bool
  had none = false
  had (some ptr) = true

  -- The result of the first test, the live blocks of `h`, and the end of the heap no further than `e`.
  abbrev pub Tested : Heap → ℕ → Bool → Option (Bool × Store Memory) → Type 0
  Tested h e result none = ⊥
  Tested h e result (some (passed, s)) = (passed ≡ result) × Same h s.heap × (s.heap.heap_end ≤ e)

  with_result :
      (h : Heap) (e : ℕ) (passed result : Bool) (r : Option (Store Memory))
      → passed ≡ result
      → Restored h e r
      → Tested h e result (Option.map (λ s. (passed, s)) r)
  with_result h e passed result none p a = a
  with_result h e passed result (some s) p (same, le) = (p, same, le)

  test_block-Tested :
      (h : Heap) (bytes : ℕ → ℕ) (r : Option ℕ × Heap × Memory)
      → Lent h r
      → Tested h r.1.heap_end (had r.0) (test_block pages bytes r)
  unfolding test_block
  test_block-Tested h bytes (none, h1, m) a = (refl, a, omega arith)
  test_block-Tested h bytes (some ptr, h1, m) a =
      let bytes1 = write_bytes 128 0 ptr bytes in
      let s = taken pages bytes1 (some ptr, h1, m) in
      with_result h h1.heap_end (check_bytes 128 0 ptr bytes1) true (give_back pages ptr s)
        (check_bytes-write_bytes 128 0 ptr bytes) (give_back-Restored h ptr s a)

  -- The second test behind the first.
  then_borrow :
      (h : Heap) (e : ℕ) (result : Bool) (r : Option (Bool × Store Memory))
      → e + 256 + heap_size + 8195 < 2 ^ 64
      → Tested h e result r
      → Tested h (e + heap_size + 256 + 8195) result (
          Option.bind r (λ (passed, s1).
            Option.map
              (λ s2. (passed, s2))
              (return_block pages s1.bytes (kmalloc pages s1.heap s1.memory 256))))
  unfolding Option.bind
  then_borrow h e result none room a = a
  then_borrow h e result (some (passed, s)) room (p, (v, same), le) =
      let next = return_block pages s.bytes (kmalloc pages s.heap s.memory 256) in
      with_result h (e + heap_size + 256 + 8195) passed result next p
        (joined next (borrow-Restored s 256 v (omega (arith, room, le))))
    where
      joined :
          (t : Option (Store Memory))
          → Restored s.heap (s.heap.heap_end + heap_size + 256 + 8195) t
          → Restored h (e + heap_size + 256 + 8195) t
      joined none a = a
      joined (some t) ((w, again), up) = ((w, λ y. again y ∙ same y), omega (arith, up, le))

  weaker :
      (h : Heap) (e e1 : ℕ) (result : Bool) (r : Option (Bool × Store Memory))
      → e ≤ e1
      → Tested h e result r
      → Tested h e1 result r
  weaker h e e1 result none le a = a
  weaker h e e1 result (some (passed, s)) le (p, same, l) = (p, same, omega (arith, l, le))

  -- On a valid heap with room for 10 MB in the address space: test_memory_management returns and frees no
  -- pointer that is no block; its read and write test passes exactly where kmalloc gives a block; the heap
  -- is valid with exactly the blocks live that were live before, and at most 10 MB longer.
  pub test_memory_management_lem :
      (s : Store Memory)
      → IsValid s.heap
      → s.heap.heap_end + 10485760 < 2 ^ 64
      → Tested s.heap
          (s.heap.heap_end + 10485760)
          (had (kmalloc pages s.heap s.memory 128).0)
          (test_memory_management pages s)
  unfolding test_memory_management
  test_memory_management_lem s v room =
      let r = kmalloc pages s.heap s.memory 128 in
      let longer = kmalloc_end pages s.heap s.memory 128 v (omega (arith, room)) in
      let lent = kmalloc-Lent pages s.heap s.memory 128 v (omega (arith, room)) in
      weaker s.heap (r.1.heap_end + heap_size + 256 + 8195) (s.heap.heap_end + 10485760) (had r.0)
        (test_memory_management pages s) (omega (arith, longer))
        (then_borrow s.heap r.1.heap_end (had r.0) (test_block pages s.bytes r)
          (omega (arith, longer, room)) (test_block-Tested s.heap s.bytes r lent))
