-- ===== src/Lib.antt =====
-- KavizOS kernel: a verification library for the C code under kernel/.
--
-- The kernel boots into kernel_main (kernel/kernel_loader.c), which sets up the console, the memory
-- manager, the interrupt table, the scheduler, the timer and the keyboard, adds two tasks and then
-- echoes typed characters for ever. Interrupts reach the keyboard ring and the timer, the timer calls
-- the scheduler, and the heap, the tasks and the processes take physical pages and map them.
--
-- What models what (paths from the repository's root):
--   Common       shared names, Boolean tests, lists, C words, arrays as functions.
--   Pages        what the other parts use of alloc_physical_page and map_page (kernel/memory.c): an
--                interface with any state, and the loops that map a run of pages.
--   Keyboard     kernel/drivers/keyboard.c and the main loop of kernel/kernel_loader.c. Ring: the ring
--                against a queue.
--   Heap         kmalloc and kfree of kernel/memory.c. Chain: the blocks lie end to end. Find: the best
--                fit. Live: the used blocks by address. Settled: no two free neighbours. Alloc, Free,
--                Overlap: the two calls. Loan, Growth: what their callers rely on.
--   Console      kernel/drivers/console.c and vga.h. Scroll: the loops. Cursor: console_putchar.
--   Scheduler    kernel/scheduler.c and timer_callback of kernel/timer.c. Rounds, Choice: the search for the
--                next task. Tasks, Stacks: the table, the stacks, scheduler_sleep. Fair: how long a task waits.
--   Timer        sleep and pit_init of kernel/timer.c. Sleep: how long it waits.
--   Process      kernel/process.c. Slots: the search for a free slot and the count. Create: creation
--                and exit.
--   Fat          kernel/fs/fat.c and fat.h over a disk that answers or refuses each read. Volume: mount and
--                unmount. Directory: the lookup and fat_open. Access: fat_read, fat_seek and the other
--                calls. Cluster: the cluster buffer. The proofs of each part are the modules below it;
--                Directory/Search is the search that the lookup is compared with.
--   Syscall      kernel/syscall.c over the console and the process table. Keeps: what the calls do to
--                both.
--   Paging       the page tables and physical pages of kernel/memory.c: map_page, unmap_page,
--                set_page_flags, alloc_physical_page, bootstrap_alloc. It implements Pages. Tree: the entry
--                of an address. Entry: words and flags. Add, Descend, Map, Change, Run, Each: one level, the
--                levels, the calls, the loops of Pages. Heap/Backed joins it to kmalloc.
--   Pmm          the memory map of kernel/memory.c: init_pmm and print_memory_map. Regions: the loop
--                against a filter.
--   Interrupts   the gates and the PIC writes of kernel/interrupt.c. Table: what setup_idt leaves.
--   Handlers     isr_handler and apic_isr_handler of kernel/interrupt.c with timer_callback of
--                kernel/timer.c. Replies: how they end.
--   Apic         kernel/apic.c and apic_timer_init of kernel/timer.c, over registers in memory that are a
--                parameter. Redirect: the redirection entries.
--   UserMode     kernel/user_mode.c over the page tables. Stack: the pages of the user's stack.
--   Elf          kernel/elf.c over the heap, the page tables and a parameter for the vfs_* calls. Segments:
--                the loop over the segments. Frees: the whole load.
--   Ata          kernel/drivers/ata.c over ports that are a parameter. Sector: commands and words.
--                Waits, Returns: how they end at a prompt drive.
--   Start        the start of kernel_main (kernel/kernel_loader.c) up to its second task, with memory_init
--                and test_memory_management of kernel/memory.c, idt_init of kernel/interrupt.c and
--                timer_init of kernel/timer.c. Memory: the memory test. Ready: what the start leaves.
--                Messages: those of kernel_main.
--   Run          the kernel behind its start: the tasks and the main loop of kernel/kernel_loader.c, the
--                interrupts, the system calls and the creation of tasks and processes, as steps on one
--                state. Sound: what each step keeps. Begin: every state from the start on. Tables: the page
--                tables (by Paging/Each, Scheduler/Stacks and Process/Stacks).
--
-- A C function that changes static variables takes them as a record and returns the new record with
-- its result. Numbers are natural numbers with the wrap of their C type written out. Arrays and the
-- VGA buffer are functions of the index, so that an access out of range would show. The chain of heap
-- blocks is a list in the order of the next pointers; a pointer that is no block of the chain is a
-- fault. Messages that a function prints on its way are left out, except in syscall.c,
-- print_memory_map, isr_handler and those of kernel_main itself. Memory that page tables stand in is a
-- function from the address of a word to the word; the address of bootstrap_memory_pool is a
-- parameter.
--
-- Memory that the code shares is apart in the model: the headers of heap blocks are not among the
-- bytes of memory, and a buffer is a function of its own. Where a call could write over the heap, the
-- model says so: a segment of elf_load that meets the heap and a sector of fat_mount behind the end of
-- the table's block are faults. The 4096 bytes of cluster_buffer in fat.c are kept by a bound on the
-- clusters in the theorems.
--
-- Fuel: scheduler_schedule searches on task_count rounds, since a round visits another task, and
-- fat_read on one round more than the bytes asked for, since a round reads a byte or is the last. The
-- directory lookup of fat_open and the waits of ata.c take their fuel from
-- the caller. The other loops are structural.
--
-- Not modelled: the assembly (boot loader, context switch, interrupt stubs, user mode entry), the
-- processor's registers and the TLB; the self tests of kernel/test.c, which only call the other parts
-- and print; interrupts during the start, and a task switch in the middle of a call. From the first
-- scheduler_add_task on, stacks are mapped over the addresses of the heap: what that does to the
-- headers of its blocks is not modelled, so Run has no heap. syscall_register and the vfs_* functions
-- are declared in the headers but defined nowhere in the repository.
pub mod Common
pub mod Pages
pub mod Paging
pub mod Keyboard
pub mod Handlers
pub mod Apic
pub mod Elf
pub mod Heap
pub mod Console
pub mod Fat
pub mod Interrupts
pub mod Scheduler
pub mod Syscall
pub mod Pmm
pub mod Process
pub mod Ata
pub mod UserMode
pub mod Timer
pub mod Start
pub mod Run
