-- ===== src/Machine/Start.antt =====
-- software/Femtiki/source/kernel/Femtiki_kern.c: FMTK_StartThread.
pub mod Ready
use rf.Prelude.{
  ℕ, zero, suc, ◌+◌, ◌-◌, ◌*◌, ◌/◌, ◌%◌, ◌^◌, Bool, true, false, ◌||◌, ◌&&◌, Option, none, some,
  ◌∷◌, [], ◌==◌, ltb, leb, if◌then◌else◌, update,
}
use rf.Kernel.Config.{ℤ, pos, neg, nr_acb, out_of_range, nr_tcb, e_ok, e_busy, e_no_more_tcbs}
use rf.Kernel.Run.{ok, fault, M, ◌>>=◌, ◌>>◌}
use rf.Kernel.Types.{Tcb, Acb, ts_none}
use rf.Kernel.State.{Tasks, Kernel, at}
use rf.Kernel.Parts.{on_tasks}
use rf.Semaphore.{lock_tcb_list, unlock_tcb_list}
use rf.Tcb.Ready.{tcb_insert_into_ready_queue}
use rf.Msg.Pool.{u32}
use rf.Thread.{put_acb}
use rf.Memory.Break.{mem_alloc}
use rf.Machine.{Machine, on_kernel, on_memory}

-- The arguments of FMTK_StartThread, and the address of the function FMTK_ExceptionHandler.
pub record Startup : Type 0 where
  pub start_addr : ℕ
  pub stack : ℕ
  pub parm : ℕ
  pub priority : ℕ
  pub affinity : ℕ
  pub handler : ℕ

-- A TCB off the free list.
unfoldable pub new_thread : (hApp : ℕ) → Startup → Tcb → Tcb
new_thread hApp a t = record t {
  next = 0;
  prev = 0;
  affinity = a.affinity;
  priority = a.priority % 256;
  app = hApp;
}

-- The first free TCB, or none.
unfoldable pub take_tcb : (hApp : ℕ) → Startup → M Tasks (Option ℕ)
take_tcb hApp a s =
    let ht = s.free_tcb in
    if out_of_range nr_tcb ht
    then ok none s
    else ok (some ht) (at ht (new_thread hApp a) (record s { free_tcb = (s.tcb ht).next }))

-- The thread becomes the first one of its app.
unfoldable pub join_app : (hApp ht : ℕ) → M Kernel (Unit {0})
join_app hApp ht k = if out_of_range nr_acb hApp then fault else elim (k.apps.acb hApp) [
  | none ↦ fault
  | some j ↦ ok tt (
      put_acb hApp (record j { thread = ht })
        (record k { tasks = at ht (λ t. record t { acbnext = j.thread }) k.tasks }))
]

-- The registers, with `sp` in register 14. The cases of the switch have no break: for the threads 1 to 4
-- the last value stays.
abbrev pub registers : (ht parm sp : ℕ) → (ℕ → ℕ) → ℕ → ℕ
registers ht parm sp r n =
    if n == 1
    then parm
    else if n == 14
    then sp
    else if (n == 16) && (ltb 0 ht && ltb ht 5)
    then 0x4_6ffc
    else if ltb n 17
    then 0
    else r n

-- The thread's context, for a stack of 2 ^ `size` bytes at `stack`. `callback` is cleared.
unfoldable pub with_context : (ht tick stack size : ℕ) → Startup → Tcb → Tcb
with_context ht tick stack size a t = record t {
  regs = registers ht a.parm (u32 (stack + 2 ^ size + (2 ^ 32 - 32))) t.regs;
  pc = a.start_addr;
  sr = 0x2200_2200;
  fmt = 0;
  start_tick = tick;
  end_tick = tick;
  ticks = 0;
  exception = 0;
  exception_handler = a.handler;
  callback = [];
  stack = stack;
  stack_size = size;
  status = ts_none;
}

unfoldable pub set_context : (ht stack size : ℕ) → Startup → M Kernel (Unit {0})
set_context ht stack size a k =
    ok tt (record k { tasks = at ht (with_context ht k.tick stack size a) k.tasks })

-- The stack that the caller gives, its size in the low 5 bits, or one of 8180 bytes.
unfoldable pub give_stack : (hApp ht : ℕ) → Startup → M Machine (Unit {0})
give_stack hApp ht a =
    if a.stack == 0
    then (do p ← on_memory (mem_alloc hApp 8180 6); on_kernel (set_context ht p 13 a))
    else on_kernel (set_context ht (u32 (a.stack + 31) / 32 * 32) (a.stack % 32) a)

-- The part of FMTK_StartThread for a TCB that was taken.
unfoldable pub start_taken : (hApp ht : ℕ) → Startup → M Machine ℤ
start_taken hApp ht a = do
  stat ← on_kernel (lock_tcb_list 0)
  (if stat
      then (do
        on_kernel (join_app hApp ht)
        on_kernel unlock_tcb_list
        give_stack hApp ht a
        on_kernel (on_tasks (tcb_insert_into_ready_queue ht))
        ok (pos ht))
      else ok (neg e_busy))

unfoldable pub start_found : (hApp : ℕ) → Startup → Option ℕ → M Machine ℤ
start_found hApp a none = do on_kernel unlock_tcb_list; ok (neg e_no_more_tcbs)
start_found hApp a (some ht) = do on_kernel unlock_tcb_list; start_taken hApp ht a

-- FMTK_StartThread
unfoldable pub start_thread : Startup → M Machine ℤ
start_thread a s =
    let hApp = s.kernel.running_appid in
    (do
      stat ← on_kernel (lock_tcb_list 0)
      (if stat
          then on_kernel (on_tasks (take_tcb hApp a)) >>= start_found hApp a
          else ok (neg e_busy)))
      s
