-- ===== src/Elf/Segments.antt =====
-- The loop over the segments of `elf_load` (kernel/elf.c) gives back every buffer that it takes.
use v.Common.{
  ℕ, zero, suc, ◌+◌, ◌-◌, ◌*◌, ◌≤◌, ◌≡◌, refl, sym, ◌∙◌, subst, inl, inr, Bool, true, false, Option,
  none, some, ◌==◌, ltb, if◌then◌else◌, u32, u64, arith, Bool-cases,
}
use mathlib.Core.Option
use v.Pages.{PageSource}
use v.Heap.{Heap, heap_start, kmalloc, kfree}
use v.Heap.Live.{live}
use v.Heap.Alloc.{IsValid, Outcome, kmalloc-Outcome}
use v.Heap.Loan.{Same, Roomy, Holds, Freed, Holds-kfree}
use v.Elf.{
  Vfs, ProgramHeader, Progress, going, stopped, fault, go_on, State, allocate, free, read_into,
  map_pages, after_free, fill_segment, read_segment, clear_rest, seek_segment, load_segment,
  load_segments, program_header, overlay, pt_load, num_pages, start_page, page_flags, meets_heap,
  place_segment,
}

-- A segment of user space: from 4 GB on, where the code itself begins it, and below the heap.
abbrev pub IsUser : ProgramHeader → Type 0
IsUser p =
    (0x100000000 ≤ p.p_vaddr)
    × (p.p_vaddr + p.p_filesz ≤ heap_start)
    × (p.p_vaddr + p.p_memsz ≤ heap_start)

-- What lies below the heap does not meet it.
below : (a size : ℕ) (h : Heap) → a + size ≤ heap_start → meets_heap a size h ≡ false
unfolding meets_heap
below a size h le = ground (arith, le)

-- The pages of such a segment end below the heap, too.
pages_below : (p : ProgramHeader) → IsUser p → start_page p + num_pages p * 4096 ≤ heap_start
unfolding start_page num_pages
pages_below p u = omega (arith, u.1, u.2)

module _ (vfs : Vfs) (pages : PageSource) where
  open vfs use {Device}
  open pages use {Memory}

  -- A step that leaves the heap's live blocks as they were.
  abbrev pub Keeps : Heap → Progress (State vfs pages) → Type 0
  Keeps h (going s) = Same h s.heap
  Keeps h (stopped s) = Same h s.heap
  Keeps h fault = ⊥

  go_on-Keeps :
      (h : Heap) (r : Progress (State vfs pages)) (k : State vfs pages → Progress (State vfs pages))
      → Keeps h r
      → ((s : State vfs pages) → r ≡ going s → Same h s.heap → Keeps h (k s))
      → Keeps h (go_on r k)
  unfolding go_on
  go_on-Keeps h (going s) k a f = f s refl a
  go_on-Keeps h (stopped s) k a f = a
  go_on-Keeps h fault k a f = a

  either-Keeps :
      (h : Heap) (b : Bool) (r r' : Progress (State vfs pages))
      → Keeps h r
      → Keeps h r'
      → Keeps h (if b then r else r')
  either-Keeps h true r r' a c = a
  either-Keeps h false r r' a c = c

  -- The buffer or the table is back in the heap.
  Holds-free :
      (h : Heap) (ptr : ℕ) (s : State vfs pages) (k : State vfs pages → Progress (State vfs pages))
      → ((t : State vfs pages) → Same h t.heap → Keeps h (k t))
      → Holds h ptr s.heap
      → Keeps h (after_free vfs pages k (free vfs pages ptr s))
  unfolding after_free free
  Holds-free h ptr s k f a = freed_then (kfree s.heap ptr) (Holds-kfree h ptr s.heap a)
    where
      freed_then :
          (r : Option Heap)
          → Freed h r
          → Keeps h (after_free vfs pages k (Option.map (λ x. record s { heap = x }) r))
      freed_then none a = a
      freed_then (some x) a = f (record s { heap = x }) a

  -- What an allocation leaves.
  abbrev pub Allocated : Heap → Option ℕ × State vfs pages → Type 0
  Allocated h (none, s) = Same h s.heap
  Allocated h (some ptr, s) = Holds h ptr s.heap

  pub allocate-Allocated :
      (size : ℕ) (s : State vfs pages)
      → IsValid s.heap
      → Roomy s.heap size
      → Allocated s.heap (allocate vfs pages size s)
  unfolding allocate
  allocate-Allocated size s v room =
      granted (kmalloc pages s.heap s.memory size)
        (kmalloc-Outcome pages s.heap s.memory size v room)
    where
      granted :
          (r : Option ℕ × Heap × Memory)
          → Outcome pages s.heap size r
          → Allocated s.heap (r.0, record s { heap = r.1; memory = r.2 })
      granted (none, h, m) (v, same, failed) = (v, same)
      granted (some ptr, h, m) g = (g.valid, g.above, g.fresh, (g.bytes, g.now))

  -- A step that does not touch the heap.
  abbrev Untouched : Heap → Progress (State vfs pages) → Type 0
  Untouched h (going s) = s.heap ≡ h
  Untouched h (stopped s) = s.heap ≡ h
  Untouched h fault = ⊥

  either-Untouched :
      (h : Heap) (b : Bool) (r r' : Progress (State vfs pages))
      → Untouched h r
      → Untouched h r'
      → Untouched h (if b then r else r')
  either-Untouched h true r r' a c = a
  either-Untouched h false r r' a c = c

  map_pages-Untouched :
      (n addr : ℕ) (p : ProgramHeader) (s : State vfs pages)
      → addr + n * 4096 ≤ heap_start
      → Untouched s.heap (map_pages vfs pages n addr p s)
  unfolding map_pages
  map_pages-Untouched zero addr p s le = refl
  map_pages-Untouched (suc n) addr p s le =
      let (page, m1) = pages.alloc_physical_page s.memory in
      let (done, m2) = pages.map_page m1 addr page (page_flags p addr) in
      let s2 = record s { memory = m2 } in
      let rest = map_pages vfs pages n (u64 (addr + 4096)) p s2 in
      rw (below addr 4096 s.heap (omega (arith, le))) (
        either-Untouched s.heap (page == 0) (stopped (record s { memory = m1 }))
          (if done then rest else stopped s2) refl
          (either-Untouched s.heap done rest (stopped s2)
            (map_pages-Untouched n (u64 (addr + 4096)) p s2 (omega (arith, le))) refl))

  -- The data of a segment, once there is a buffer.
  fill_segment-Keeps :
      (h : Heap) (p : ProgramHeader) (r : Option ℕ × State vfs pages)
      → IsUser p
      → Allocated h r
      → Keeps h (fill_segment vfs pages p r)
  unfolding fill_segment read_into
  fill_segment-Keeps h p (none, s) u a = a
  fill_segment-Keeps h p (some buffer, s) u a =
      let (done, s1) = read_into vfs pages buffer p.p_filesz s in
      let content : ℕ → ℕ = λ j. s1.bytes (buffer + j) in
      let s2 = record s1 { bytes = overlay p.p_vaddr p.p_filesz content s1.bytes } in
      rw (below p.p_vaddr p.p_filesz s1.heap u.1) (
        either-Keeps h done (after_free vfs pages going (free vfs pages buffer s2))
          (after_free vfs pages stopped (free vfs pages buffer s1))
          (Holds-free h buffer s2 going (λ t k. k) a) (Holds-free h buffer s1 stopped (λ t k. k) a))

  read_segment-Keeps :
      (p : ProgramHeader) (s : State vfs pages)
      → IsValid s.heap
      → Roomy s.heap p.p_filesz
      → IsUser p
      → Keeps s.heap (read_segment vfs pages p s)
  unfolding read_segment
  read_segment-Keeps p s v room u =
      either-Keeps s.heap (ltb 0 p.p_filesz)
        (fill_segment vfs pages p (allocate vfs pages p.p_filesz s)) (going s)
        (fill_segment-Keeps s.heap p (allocate vfs pages p.p_filesz s) u
          (allocate-Allocated p.p_filesz s v room))
        (v, λ y. refl)

  clear_rest-Keeps :
      (h : Heap) (p : ProgramHeader) (s : State vfs pages)
      → IsUser p
      → Same h s.heap
      → Keeps h (clear_rest vfs pages p s)
  unfolding clear_rest
  clear_rest-Keeps h p s u same =
      let bss_start = u64 (p.p_vaddr + p.p_filesz) in
      let bss_size = p.p_memsz - p.p_filesz in
      elim (Bool-cases (ltb p.p_filesz p.p_memsz)) [
        | inl more ↦
            let end : bss_start + bss_size ≤ heap_start = ground (arith, more, u.1, u.2) in
            rw (clear_rest, more, below bss_start bss_size s.heap end) same
        | inr no_more ↦ rw (clear_rest, no_more) same
      ]

  seek_segment-Keeps :
      (p : ProgramHeader) (s : State vfs pages)
      → IsValid s.heap
      → Roomy s.heap p.p_filesz
      → IsUser p
      → Keeps s.heap (seek_segment vfs pages p s)
  unfolding seek_segment
  seek_segment-Keeps p s v room u =
      let (found, d) = vfs.vfs_seek (u32 p.p_offset) s.device in
      let s1 = record s { device = d } in
      either-Keeps s.heap found (read_segment vfs pages p s1) (stopped s1)
        (read_segment-Keeps p s1 v room u) (v, λ y. refl)

  -- After the pages of a segment.
  mapped-Keeps :
      (h : Heap) (r : Progress (State vfs pages)) (k : State vfs pages → Progress (State vfs pages))
      → IsValid h
      → Untouched h r
      → ((t : State vfs pages) → t.heap ≡ h → Keeps h (k t))
      → Keeps h (go_on r k)
  unfolding go_on
  mapped-Keeps h (going t) k v e f = f t e
  mapped-Keeps h (stopped t) k v e f = subst (Same h) (sym e) (v, λ y. refl)
  mapped-Keeps h fault k v e f = e

  place_segment-Keeps :
      (p : ProgramHeader) (s : State vfs pages)
      → IsValid s.heap
      → Roomy s.heap p.p_filesz
      → IsUser p
      → Keeps s.heap (place_segment vfs pages p s)
  unfolding place_segment
  place_segment-Keeps p s v room u =
      mapped-Keeps s.heap (map_pages vfs pages (num_pages p) (start_page p) p s)
        (seek_segment vfs pages p) v
        (map_pages-Untouched (num_pages p) (start_page p) p s (pages_below p u))
        (λ t e.
          subst (λ h. Keeps h (seek_segment vfs pages p t)) e
            (seek_segment-Keeps p t (subst IsValid (sym e) v)
              (subst (λ h. Roomy h p.p_filesz) (sym e) room) u))

  -- A segment that is loaded has room for its buffer, and it is one of user space, also by the header
  -- that is read again behind its data.
  abbrev pub FitsOne : (i ptr : ℕ) → State vfs pages → Type 0
  FitsOne i ptr s =
      let p = program_header i ptr s.bytes in
      p.p_type ≡ pt_load
      → Roomy s.heap p.p_filesz
        × IsUser p
        × ((t : State vfs pages)
            → place_segment vfs pages p s ≡ going t
            → IsUser (program_header i ptr t.bytes))

  load_segment-Keeps :
      (i ptr : ℕ) (s : State vfs pages)
      → IsValid s.heap
      → FitsOne i ptr s
      → Keeps s.heap (load_segment vfs pages i ptr s)
  unfolding load_segment
  load_segment-Keeps i ptr s v fits =
      let p = program_header i ptr s.bytes in
      elim (Bool-cases (p.p_type == pt_load)) [
        | inl q ↦
            let (room, user, again) = fits (ground (arith, q)) in
            rw q (
              go_on-Keeps s.heap (place_segment vfs pages p s)
                (λ t. clear_rest vfs pages (program_header i ptr t.bytes) t)
                (place_segment-Keeps p s v room user)
                (λ t e same.
                  clear_rest-Keeps s.heap (program_header i ptr t.bytes) t (again t e) same))
        | inr q ↦ rw q (v, λ y. refl)
      ]

  -- That of each segment, when its turn comes.
  unfoldable pub Fits : (n i ptr : ℕ) → State vfs pages → Type 0
  Fits zero i ptr s = Unit
  Fits (suc n) i ptr s =
      FitsOne i ptr s
      × ((t : State vfs pages) → load_segment vfs pages i ptr s ≡ going t → Fits n (i + 1) ptr t)

  Keeps-from :
      (h h1 : Heap) (r : Progress (State vfs pages))
      → ((y : ℕ) → live h1.blocks y ≡ live h.blocks y)
      → Keeps h1 r
      → Keeps h r
  Keeps-from h h1 (going s) same (v, k) = (v, λ y. k y ∙ same y)
  Keeps-from h h1 (stopped s) same (v, k) = (v, λ y. k y ∙ same y)
  Keeps-from h h1 fault same k = k

  pub load_segments-Keeps :
      (n i ptr : ℕ) (s : State vfs pages)
      → IsValid s.heap
      → Fits n i ptr s
      → Keeps s.heap (load_segments vfs pages n i ptr s)
  unfolding load_segments Fits
  load_segments-Keeps zero i ptr s v f = (v, λ y. refl)
  load_segments-Keeps (suc n) i ptr s v (room, next) =
      go_on-Keeps s.heap (load_segment vfs pages i ptr s)
        (λ t. load_segments vfs pages n (i + 1) ptr t) (load_segment-Keeps i ptr s v room)
        (λ t e (w, same).
          Keeps-from s.heap t.heap (load_segments vfs pages n (i + 1) ptr t) same
            (load_segments-Keeps n (i + 1) ptr t w (next t e)))
