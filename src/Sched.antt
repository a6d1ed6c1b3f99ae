-- ===== src/Sched.antt =====
-- software/Femtiki/source/kernel/Femtiki_kern.c: the scheduler, and the calls on threads that use
-- only the lists of tcb.c. Code that runs with the interrupts masked is one step.
pub mod Select
pub mod Turn
pub mod Whole
pub mod Rotation
pub mod Priority
use rf.Prelude.{
  ℕ, zero, suc, ◌+◌, ◌-◌, ◌%◌, ◌^◌, Bool, true, false, ◌&&◌, ◌||◌, not, Option, none, some, ◌==◌,
  ltb, leb, if◌then◌else◌, update,
}
use rf.Kernel.Config.{ℤ, pos, nr_tcb, out_of_range, e_ok, e_arg, e_busy}
use rf.Kernel.Run.{Run, ok, panic, fault, M, ◌>>=◌, ◌>>◌}
use rf.Kernel.Types.{Tcb, Status, ts_none}
use rf.Kernel.State.{Tasks, Kernel, at}
use rf.Kernel.Parts.{on_tasks}
use rf.Semaphore.{lock_tcb_list, unlock_tcb_list}
use rf.Tcb.{tcb_handle_to_pointer, i_alloc_tcb, i_free_tcb}
use rf.Tcb.Ready.{tcb_insert_into_ready_queue, tcb_remove_from_ready_queue}
use rf.Tcb.Timeout.{tcb_insert_into_timeout_list}
use rf.Msg.Pool.{u32}
use rf.Msg.Send.{reschedule}

-- AllocTCB and fnFreeTCB of tcb.c: the free list under its lock. fnFreeTCB goes on if LockTCBList
-- returns more than 0, which a lock that was taken is assumed to do.
unfoldable pub alloc_tcb : M Kernel ℕ
alloc_tcb = do stat ← lock_tcb_list 0; h ← on_tasks i_alloc_tcb; unlock_tcb_list; ok h

unfoldable pub fn_free_tcb : ℕ → M Kernel ℕ
fn_free_tcb h = do
  stat ← lock_tcb_list 100000
  (if stat then (do on_tasks (i_free_tcb h); unlock_tcb_list; ok e_ok) else ok e_busy)

-- The core `cpu` may run the thread: it is bound to that core, or to none (63).
abbrev pub may_run : (cpu : ℕ) → Tcb → Bool
may_run cpu t = t.affinity == cpu || t.affinity == 63

-- The loop of SelectThreadToRunHelper from the thread `h1` on, `fuel` rounds at most. `h` is the
-- head of the queue `nn`; the queue then starts after the thread that is selected.
unfoldable pub select_loop : (fuel cpu nn h h1 : ℕ) → Tasks → Option ℕ × Tasks
select_loop zero cpu nn h h1 s = (none, s)
select_loop (suc fuel) cpu nn h h1 s =
    let next = (s.tcb h1).next in
    if may_run cpu (s.tcb h1)
    then (some h1, record s { ready_q = update s.ready_q nn next })
    else elim (tcb_handle_to_pointer next) [
      | none ↦ (none, s)
      | some p ↦ elim (p == h) [ true ↦ (none, s) | false ↦ select_loop fuel cpu nn h p s ]
    ]

-- SelectThreadToRunHelper; `none` for the -1 it returns.
unfoldable pub select_helper : (cpu nn : ℕ) → Tasks → Option ℕ × Tasks
select_helper cpu nn s =
    let h = s.ready_q nn in
    if out_of_range nr_tcb h then (none, s) else select_loop nr_tcb cpu nn h h s

-- The first thread found in `n` queues, of the numbers that `level` gives for n - 1 down to 0.
unfoldable pub select_from : (n cpu : ℕ) (level : ℕ → ℕ) → Tasks → Option ℕ × Tasks
select_from zero cpu level s = (none, s)
select_from (suc n) cpu level s =
    let (h, t) = select_helper cpu (level n) s in
    elim h [ some h ↦ (some h, t) | none ↦ select_from n cpu level t ]

-- The order in which SelectThreadToRun searches the queues: from 31 down, and at each 32nd call from
-- 0 up.
abbrev pub search_order : (calls : ℕ) → ℕ → ℕ
search_order calls n = if calls % 32 == 0 then 31 - n else n

-- The running thread if no queue has a thread.
abbrev pub chosen : (running : ℕ) → Option ℕ → ℕ
chosen running none = running
chosen running (some h) = h

-- SelectThreadToRun
unfoldable pub select_thread_to_run : M Kernel ℕ
select_thread_to_run k =
    let calls = u32 (k.invert + 1) in
    let (h, t) = select_from 32 k.cpu (search_order calls) k.tasks in
    ok (chosen k.running_tcb h) (record k { invert = calls; tasks = t })

abbrev pub set_running : Bool → Status → Status
set_running on b = record b { running = on; preempt = not on }

-- The ticks of the thread that was running, up to the tick `now`.
unfoldable pub account : (now : ℕ) → Tcb → Tcb
account now t = record t {
  end_tick = now;
  ticks = u32 (
      t.ticks
      + (if ltb now t.start_tick
          then u32 (now + (0xffff_ffff - t.start_tick))
          else now - t.start_tick));
  status = set_running false t.status;
}

-- The thread goes on at its exception handler if an exception was flagged.
unfoldable pub catch_exception : Tcb → Tcb
catch_exception t =
    if t.exception == 0
    then t
    else record t { regs = update (update t.regs 1 t.exception) 2 45; pc = t.exception_handler }

-- SwapContext and SetTr: the thread `t` becomes the running one, its app with it.
unfoldable pub switch_to : ℕ → Kernel → Kernel
switch_to t k = record k {
  tasks = at t (λ r. record r { start_tick = k.tick }) k.tasks;
  running_tcb = t;
  running_appid = (k.tasks.tcb t).app;
}

abbrev pub fmtk_magic : ℕ
fmtk_magic = 0x4b54_4d46

-- FMTK_RescheduleISR
unfoldable pub reschedule_isr : M Kernel (Unit {0})
reschedule_isr k =
    if not (k.inited == fmtk_magic) then ok tt k else elim (tcb_handle_to_pointer k.running_tcb) [
      | none ↦ panic
      | some ot ↦
          (do
            ht ← select_thread_to_run
            λ c. elim (tcb_handle_to_pointer ht) [
              | none ↦ ok tt c
              | some t ↦
                  let d = record c {
                    tasks =
                        at t
                          (λ r. catch_exception (record r { status = set_running true r.status }))
                          c.tasks;
                  } in
                  ok tt (if ot == t then d else switch_to t d)
            ])
            (record k { tasks = at ot (account k.tick) k.tasks })
    ]

-- FMTK_TimerTickISR: it returns right after its first lines, what follows them is never reached.
unfoldable pub timer_tick_isr : M Kernel (Unit {0})
timer_tick_isr k = ok tt (record k { tick = u32 (k.tick + 1); irq_flag = 1 })

-- FMTK_Sleep
unfoldable pub sleep : (timeout : ℕ) → M Kernel ℤ
sleep timeout k =
    let ht = k.running_tcb in
    (do
      on_tasks (tcb_remove_from_ready_queue ht)
      on_tasks (tcb_insert_into_timeout_list ht timeout)
      reschedule
      ok (pos e_ok))
      k

-- SetThreadPriority for a thread handle. E_Arg is not negated.
unfoldable pub set_priority : (ht priority : ℕ) → M Tasks ℕ
set_priority ht priority s =
    if ltb 31 priority then ok e_arg s else elim (tcb_handle_to_pointer ht) [
      | none ↦ fault
      | some t ↦
          if (s.tcb t).status.running || (s.tcb t).status.ready
          then (do
            tcb_remove_from_ready_queue ht
            λ c. tcb_insert_into_ready_queue ht (at t (λ r. record r { priority = priority }) c)
            ok e_ok)
              s
          else ok e_ok (at t (λ r. record r { priority = priority }) s)
    ]

-- FMTK_SetThreadPriority. The thread is a `long`, of which the calls keep 16 bits.
unfoldable pub set_thread_priority : (thread priority : ℕ) → M Tasks ℕ
set_thread_priority thread priority s = set_priority (thread % 2 ^ 16) priority s

-- SetupFirstThread
unfoldable pub setup_first_thread : Tasks → Tasks
setup_first_thread s =
    at 1
      (λ t. record t {
        acbnext = 0;
        next = 0;
        prev = 0;
        status = record ts_none { running = true; ready = true };
        priority = 15;
        affinity = 2;
        app = 1;
        timeout = 0;
        mailboxes = λ n. if ltb n 4 then 0 else t.mailboxes n;
        exception = 0;
      })
      s

-- One entry of the table as SetupTCBs leaves it; `h` is its handle, the index `nn` is `h - 1`.
unfoldable pub fresh_tcb : (h : ℕ) → Tcb → Tcb
fresh_tcb h t = record t {
  acbnext = 0;
  next = if h == nr_tcb then 0 else h + 1;
  prev = h - 1;
  status = ts_none;
  priority = if ltb h 3 then 30 else 15;
  affinity = if ltb h 3 then 2 else 63;
  app = 0;
  timeout = 0;
  mailboxes = λ n. if ltb n 4 then 0 else t.mailboxes n;
  exception = 0;
}

-- SetupTCBs, its loops by what they leave in the tables. Only the queues of the priorities below 8
-- are cleared, and the table only by the core 2.
unfoldable pub setup_tcbs : (cpu : ℕ) → Tasks → Tasks
setup_tcbs cpu s =
    let s = record s { ready_q = λ n. if ltb n 8 then 0 else s.ready_q n; timeout_list = 0 } in
    if cpu == 2
    then record s {
      free_tcb = 2;
      tcb = λ h. if ltb 1 h && leb h nr_tcb then fresh_tcb h (s.tcb h) else s.tcb h;
    }
    else s
