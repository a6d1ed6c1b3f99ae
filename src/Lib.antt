-- ===== src/Lib.antt =====
-- The kernel of the Femtiki operating system, software/Femtiki/source, as a functional model.
--
-- The kernel keeps threads (TCBs), messages, mailboxes and request blocks in arrays, links their
-- elements by handles (1 for the first element, 0 for none), and guards the lists by semaphores. A
-- thread is on one list at a time: a circular ready queue for each of 32 priorities, the timeout
-- list, or the thread queue of a mailbox with, if it set a limit, the timeout list too. A message is
-- on the free list or in the queue of a mailbox. SendMsg hands a message to the first thread that
-- waits at the mailbox, which it makes ready, or queues it; WaitMsg takes a message, or queues the
-- running thread and reschedules. Request and Respond send request blocks through mailboxes. The
-- reschedule interrupt selects the next thread.
--
-- The memory manager maps pages of 8 kB by page directories of 512 entries (one for the system, one
-- in the control block of each app, the ACB) and page tables; a bit map (PAM) tells which pages of
-- DRAM are in use, and share counts (PMT) how often a page is mapped. Memory for an app is taken at
-- its break. The start of an app or of a thread uses the kernel's lists and the memory manager. The
-- keyboard thread turns scan codes into messages for the mailbox of the app that has the keyboard.
-- Text goes to the console of the system's app, or to that of the core.
--
-- The model:
-- - Kernel: limits and numbers (Config, from inc/config.h and inc/const.h), the structures (Types,
--   from inc/types.h), the global variables (State, from inc/glo.h), outcomes of code (Run) and code
--   on one part of the state (Parts). An array is a function of handles.
-- - Tcb, with Tcb.Ready and Tcb.Timeout: kernel/tcb.c.
-- - Semaphore: kernel/semaphore.c, over LockSemaphoreNB and UnlockSemaphoreNB of the BIOS, which are
--   not part of the repository's C code. A lock with a limited number of retries may fail: the
--   outcomes are a list in the state (`answers`), and an exhausted list means success. So a loop that
--   retries has fuel for one round more than there are outcomes.
-- - Msg: kernel/msg.c. Pool (AllocMsg, FreeMsg), Queue (MBXQueueMsg, MBXDequeueMsg), Threads
--   (MBXQueueThread, MBXDequeueThread), Mailbox (AllocMbx, FreeMbx, EmptyMbx, the strategy), Send
--   (SendMsg, PostMsg), Wait (WaitMsg, CheckMsg, PeekMsg), Service (request blocks and named
--   services), Request (Request, Respond). Locks follows the semaphores that the calls hold, and
--   Empty the loop that gives back the messages of a mailbox.
-- - Sched: kernel/Femtiki_kern.c, the scheduler and calls on threads, with AllocTCB and fnFreeTCB.
-- - Timer: kernel/Femtiki_kern.c, the interval timers that apps allocate, and their registers.
-- - Thread: kernel/Femtiki_kern.c, the end of a thread and the alarm interrupt.
-- - Memory: memmgnt3.c. State (its variables), Map (MarkPage, UnmarkPage, FindFreePage), Table
--   (GetPageTableEntryAddress, LinearToPhysical), Run (FindRun, AddUserPageTable,
--   AddSystemPageTable, FMTK_AllocPages, FMTK_AllocSystemPages), Alias (AddAliasRun, FMTK_AliasMem,
--   FMTK_DeAliasMem), Break (mem_alloc, mem_free, sbrk), Boot (the initialisation).
-- - Machine: the kernel and the memory manager together. Start (FMTK_StartThread) and Setup
--   (FMTK_Initialize) of kernel/Femtiki_kern.c, App (app.c).
-- - Keybd: drivers/KeybdTranslateThread.c, with Translate (KeybdTranslate) and Focus
--   (rotate_io_focus).
-- - Console: Text (kernel/console.c) and Dbg (kernel/dbg_console.c), with Scroll and Bounds for
--   both.
-- - Prelude and Links: lists of handles, and linked lists in tables. Examples: small states.
--
-- Code on the state is a function from a state to a Run: `ok` with the result and the new state,
-- `panic` where the kernel calls panic, `fault` where it goes through a null pointer or leaves an
-- array, `spin` where the fuel of a loop is used up. Loops over the threads of a list have fuel
-- NR_TCB + 1, more than a list of distinct threads can be long; the loops that shorten a message
-- queue have one round more than its count. Of the loops of the memory manager, FindFreePage has a
-- turn for each word of PAM and mem_free one for each page, as in the source; the loops that retry
-- with a new page table have 2048 turns, more than a directory has entries. The walk along the threads
-- of an app has fuel NR_TCB + 2, that along mailboxes NR_MBX + 2, the rotation of the focus one turn
-- for each bit. A pointer that is null, or an index outside an array, is a fault, but for the words
-- before a page directory that AddAliasRun reads, which are an argument. What a variable or register
-- holds before it is set is an argument, too. A handle is a 16-bit pattern and `long` a 32-bit one.
-- A message in the caller's memory is an argument, or part of the result.
--
-- Not modelled: the effect of FMTK_DeAliasMem within FMTK_Respond (the calls are recorded there; the
-- function itself is in Memory.Alias), what the kernel prints, LEDs, interrupt masks (code that runs
-- masked is one step), the contents of memory that is copied or cleared apart from page tables and
-- the text screens, the registers of the MMU, the test of the memory, the alarm list, the print of
-- numbers (putnum.c), and the assembly and hardware of the repository.
mod Prelude
pub mod Links
pub mod Kernel
pub mod Tcb
pub mod Semaphore
pub mod Msg
pub mod Sched
pub mod Timer
pub mod Thread
pub mod Memory
pub mod Machine
pub mod Keybd
pub mod Examples
pub mod Console
