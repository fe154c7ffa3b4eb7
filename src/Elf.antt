-- ===== src/Elf.antt =====
-- kernel/elf.c and elf.h: loading an executable. The vfs_* calls are declared in kernel/fs/vfs.h but
-- defined nowhere in the repository: they are a parameter. Memory is a function from addresses to bytes;
-- the headers of heap blocks are the list of `Heap` and not in it, so a segment that would go over the heap
-- is a fault. Messages are left out.
pub mod Segments
pub mod Frees
mod Tests
use v.Common.{
  ℕ, zero, suc, ◌+◌, ◌-◌, ◌*◌, ◌/◌, ◌%◌, ◌^◌, Bool, true, false, ◌&&◌, ◌||◌, List, Option, none,
  some, ◌==◌, ltb, leb, if◌then◌else◌, u32, u64,
}
use mathlib.Core.Option
use v.Pages.{PageSource}
use v.Heap.{Heap, heap_start, kmalloc, kfree}

-- What elf.c uses of the file system. `vfs_open` takes the name and the mode. `vfs_read` takes a size and
-- what the buffer holds, and gives the result, `bytes_read` and what the buffer holds then; `vfs_seek`
-- takes the 32 bits of an offset from the start.
pub record Vfs : Type 1 where
  pub Device : Type 0
  pub vfs_open : List ℕ → ℕ → Device → Bool × Device
  pub vfs_read : ℕ → (ℕ → ℕ) → Device → Bool × ℕ × (ℕ → ℕ) × Device
  pub vfs_seek : ℕ → Device → Bool × Device
  pub vfs_close : Device → Device

-- The fields of Elf64_Ehdr that the code reads behind `e_ident` and `e_type`.
pub record FileHeader : Type 0 where
  pub e_entry : ℕ
  pub e_phoff : ℕ
  pub e_phentsize : ℕ
  pub e_phnum : ℕ

-- The fields of Elf64_Phdr that the code reads.
pub record ProgramHeader : Type 0 where
  pub p_type : ℕ
  pub p_flags : ℕ
  pub p_offset : ℕ
  pub p_vaddr : ℕ
  pub p_filesz : ℕ
  pub p_memsz : ℕ

-- `n` bytes at `a`, the lowest first.
pub little_endian : (n a : ℕ) → (ℕ → ℕ) → ℕ
little_endian zero a bytes = 0
little_endian (suc n) a bytes = bytes a + 256 * little_endian n (a + 1) bytes

-- sizeof(Elf64_Ehdr) and sizeof(Elf64_Phdr)
abbrev pub ehdr_size : ℕ
ehdr_size = 64

abbrev pub phdr_size : ℕ
phdr_size = 56

-- The magic numbers, ELFCLASS64 and ET_EXEC.
pub is_executable : (ℕ → ℕ) → Bool
is_executable b =
    b 0 == 0x7f && b 1 == 69 && b 2 == 76 && b 3 == 70 && b 4 == 2 && little_endian 2 16 b == 2

pub file_header : (ℕ → ℕ) → FileHeader
file_header b = record {
  e_entry = little_endian 8 24 b;
  e_phoff = little_endian 8 32 b;
  e_phentsize = little_endian 2 54 b;
  e_phnum = little_endian 2 56 b;
}

-- `phdrs[i]`, for the table at `a`.
pub program_header : (i a : ℕ) → (ℕ → ℕ) → ProgramHeader
program_header i a b =
    let p = a + i * phdr_size in
    record {
      p_type = little_endian 4 p b;
      p_flags = little_endian 4 (p + 4) b;
      p_offset = little_endian 8 (p + 8) b;
      p_vaddr = little_endian 8 (p + 16) b;
      p_filesz = little_endian 8 (p + 32) b;
      p_memsz = little_endian 8 (p + 40) b;
    }

-- PT_LOAD
abbrev pub pt_load : ℕ
pt_load = 1

-- The bytes where `size` bytes at `a` are those of `buffer`.
pub overlay : (a size : ℕ) → (ℕ → ℕ) → (ℕ → ℕ) → ℕ → ℕ
overlay a size buffer bytes x = if leb a x && ltb x (a + size) then buffer (x - a) else bytes x

-- `start_page` and `num_pages`
pub start_page : ProgramHeader → ℕ
start_page p = p.p_vaddr - p.p_vaddr % 4096

pub num_pages : ProgramHeader → ℕ
num_pages p =
    let e = u64 (p.p_vaddr + p.p_memsz + 4096 - 1) in
    u64 (e - e % 4096 + 2 ^ 64 - start_page p) / 4096

-- The flags of a page: present, writable for PF_W, the user's from 4 GB on.
pub page_flags : ProgramHeader → ℕ → ℕ
page_flags p virt_addr =
    1 + (if (p.p_flags / 2 % 2) == 1 then 2 else 0) + (if leb 0x100000000 virt_addr then 4 else 0)

-- Whether some of the `size` bytes at `a` are among those of the heap; behind the last address the bytes go
-- on at 0.
pub meets_heap : (a size : ℕ) → Heap → Bool
meets_heap a size h =
    ltb 0 size
    && ((ltb a h.heap_end && ltb heap_start (a + size)) || ltb (heap_start + 2 ^ 64) (a + size))

-- The kernel's state for a load: `entry_point` is that of the process.
pub record Loader (Memory Device : Type 0) : Type 0 where
  pub heap : Heap
  pub memory : Memory
  pub bytes : ℕ → ℕ
  pub device : Device
  pub entry_point : ℕ

-- A step of the load: it goes on; it has failed, before the clean-up that all failures share; or it freed
-- a pointer that is no block, or put a segment over the heap and the headers of its blocks.
pub data Progress (A : Type 0) : Type 0 where
  going : A → Progress A
  stopped : A → Progress A
  fault : Progress A

pub go_on : {A : Type 0} → Progress A → (A → Progress A) → Progress A
go_on (going s) k = k s
go_on (stopped s) k = stopped s
go_on fault k = fault

-- Where the load stands before the loop over the segments: the table of `e_phnum` program headers is at
-- a pointer, was read or not, or the load is over.
pub data Prepared (A : Type 0) : Type 0 where
  ready : (e_phnum ptr : ℕ) → A → Prepared A
  unread : (ptr : ℕ) → A → Prepared A
  over : A → Prepared A

module _ (vfs : Vfs) (pages : PageSource) where
  open vfs use {Device, vfs_open, vfs_read, vfs_seek, vfs_close}
  open pages use {Memory, alloc_physical_page, map_page}

  abbrev pub State : Type 0
  State = Loader Memory Device

  pub allocate : ℕ → State → Option ℕ × State
  allocate size s =
      let (ptr, h, m) = kmalloc pages s.heap s.memory size in
      (ptr, record s { heap = h; memory = m })

  pub free : ℕ → State → Option State
  free ptr s = Option.map (λ h. record s { heap = h }) (kfree s.heap ptr)

  pub close : State → State
  close s = record s { device = vfs_close s.device }

  -- vfs_read into a buffer of the heap: the result, and the state.
  pub read_into : (ptr size : ℕ) → State → Bool × State
  read_into ptr size s =
      let (done, n, buffer, d) = vfs_read (u32 size) (λ j. s.bytes (ptr + j)) s.device in
      (done && n == size, record s { bytes = overlay ptr (u32 size) buffer s.bytes; device = d })

  -- The loop that maps the pages of a segment, `n` from `addr` on.
  pub map_pages : (n addr : ℕ) → ProgramHeader → State → Progress State
  map_pages zero addr p s = going s
  map_pages (suc n) addr p s =
      let (page, m1) = alloc_physical_page s.memory in
      let (done, m2) = map_page m1 addr page (page_flags p addr) in
      let rest = map_pages n (u64 (addr + 4096)) p (record s { memory = m2 }) in
      if page == 0
      then stopped (record s { memory = m1 })
      else if done
      then (if meets_heap addr 4096 s.heap then fault else rest)
      else stopped (record s { memory = m2 })

  pub after_free : (State → Progress State) → Option State → Progress State
  after_free k none = fault
  after_free k (some s) = k s

  -- The buffer's data goes to the segment's address, and the buffer back to the heap.
  pub fill_segment : ProgramHeader → Option ℕ × State → Progress State
  fill_segment p (none, s) = stopped s
  fill_segment p (some buffer, s) =
      let (done, s1) = read_into buffer p.p_filesz s in
      let content : ℕ → ℕ = λ j. s1.bytes (buffer + j) in
      let copied =
        after_free going
          (free buffer (record s1 { bytes = overlay p.p_vaddr p.p_filesz content s1.bytes })) in
      if done
      then (if meets_heap p.p_vaddr p.p_filesz s1.heap then fault else copied)
      else after_free stopped (free buffer s1)

  pub read_segment : ProgramHeader → State → Progress State
  read_segment p s = if ltb 0 p.p_filesz then fill_segment p (allocate p.p_filesz s) else going s

  -- The memory of the segment behind its data.
  pub clear_rest : ProgramHeader → State → Progress State
  clear_rest p s =
      let bss_start = u64 (p.p_vaddr + p.p_filesz) in
      let bss_size = p.p_memsz - p.p_filesz in
      if ltb p.p_filesz p.p_memsz
      then (if meets_heap bss_start bss_size s.heap
          then fault
          else going (record s { bytes = overlay bss_start bss_size (λ j. 0) s.bytes }))
      else going s

  pub seek_segment : ProgramHeader → State → Progress State
  seek_segment p s =
      let (found, d) = vfs_seek (u32 p.p_offset) s.device in
      let s1 = record s { device = d } in if found then read_segment p s1 else stopped s1

  -- The pages of a segment, and its data.
  pub place_segment : ProgramHeader → State → Progress State
  place_segment p s = go_on (map_pages (num_pages p) (start_page p) p s) (seek_segment p)

  -- One round of the loop over the program headers. The header is read again for the memory behind the
  -- data, since the data may have gone over it.
  pub load_segment : (i ptr : ℕ) → State → Progress State
  load_segment i ptr s =
      let p = program_header i ptr s.bytes in
      if p.p_type == pt_load
      then go_on (place_segment p s) (λ s1. clear_rest (program_header i ptr s1.bytes) s1)
      else going s

  -- `n` rounds from the header `i` on.
  pub load_segments : (n i ptr : ℕ) → State → Progress State
  load_segments zero i ptr s = going s
  load_segments (suc n) i ptr s =
      go_on (load_segment i ptr s) (λ s1. load_segments n (i + 1) ptr s1)

  pub read_headers : FileHeader → ℕ → Option ℕ × State → Prepared State
  read_headers e ph_size (none, s) = over s
  read_headers e ph_size (some ptr, s) =
      let (done, s1) = read_into ptr ph_size s in
      if done then ready e.e_phnum ptr s1 else unread ptr s1

  pub seek_headers : FileHeader → State → Prepared State
  seek_headers e s =
      let (found, d) = vfs_seek (u32 e.e_phoff) s.device in
      let s1 = record s { device = d } in
      let ph_size = u32 (e.e_phnum * e.e_phentsize) in
      if found then read_headers e ph_size (allocate ph_size s1) else over s1

  -- From the file header on, which is in `stack` once it is read.
  pub prepare : (stack : ℕ → ℕ) → State → Prepared State
  prepare stack s =
      let (done, n, b, d) = vfs_read ehdr_size stack s.device in
      let s1 = record s { device = d } in
      if done && n == ehdr_size && is_executable b
      then (let e = file_header b in
          let s2 = record s1 { entry_point = e.e_entry } in
          if e.e_phnum == 0 then over s2 else seek_headers e s2)
      else over s1

  -- The clean-up behind the loop, and that of a failure: the table goes back to the heap, the file is
  -- closed.
  pub clean_up : (ptr : ℕ) → Progress State → Option (Bool × State)
  clean_up ptr (going s) = Option.map (λ s1. (true, close s1)) (free ptr s)
  clean_up ptr (stopped s) = Option.map (λ s1. (false, close s1)) (free ptr s)
  clean_up ptr fault = none

  pub run : Prepared State → Option (Bool × State)
  run (ready n ptr s) = clean_up ptr (load_segments n 0 ptr s)
  run (unread ptr s) = clean_up ptr (stopped s)
  run (over s) = some (false, close s)

  -- `none` for a fault; true for the C code's 1. `stack` is what the memory
  -- of `ehdr` holds before.
  pub elf_load : (stack : ℕ → ℕ) → List ℕ → State → Option (Bool × State)
  elf_load stack filename s =
      let (opened, d) = vfs_open filename 1 s.device in
      let s1 = record s { device = d } in
      if opened then run (prepare stack s1) else some (false, s1)
