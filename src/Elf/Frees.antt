-- ===== src/Elf/Frees.antt =====
-- What `elf_load` (kernel/elf.c) leaves of the heap and the file.
use v.Common.{◌≡◌, Bool, Option, none, some}
use mathlib.Core.Option
use v.Pages.{PageSource}
use v.Heap.{Heap}
use v.Elf.{Vfs, Prepared, ready, unread, over, State}
use v.Heap.Loan.{Same, Holds}
use v.Elf.Segments.{Fits}

module _ (vfs : Vfs) (pages : PageSource) where
  open vfs use {Device}
  open pages use {Memory}

  -- A load that ends with the heap as it was and the file closed.
  abbrev pub Ends : Heap → Option (Bool × State vfs pages) → Type 0
  Ends h none = ⊥
  Ends h (some (b, s)) = Same h s.heap × ((d : Device) × (s.device ≡ vfs.vfs_close d))

  -- What stands before the loop over the segments.
  abbrev Stands : Heap → Prepared (State vfs pages) → Type 0
  Stands h (ready n ptr s) = Holds h ptr s.heap
  Stands h (unread ptr s) = Holds h ptr s.heap
  Stands h (over s) = Same h s.heap

  -- The segments have room and are those of user space, where it comes to them.
  abbrev pub FitsPrepared : Prepared (State vfs pages) → Type 0
  FitsPrepared (ready n ptr s) = Fits vfs pages n 0 ptr s
  FitsPrepared (unread ptr s) = Unit
  FitsPrepared (over s) = Unit
