-- ===== src/Thread.antt =====
-- software/Femtiki/source/kernel/Femtiki_kern.c: application control blocks, the end of a thread, and the
-- alarm interrupt. A pointer that is null or outside its array faults.
use rf.Prelude.{
  ℕ, zero, suc, ◌+◌, ◌*◌, ◌/◌, ◌%◌, ◌^◌, false, Option, none, some, ◌==◌, ltb, leb, if◌then◌else◌,
  update,
}
use rf.Kernel.Config.{ℤ, pos, nr_acb, nr_tcb, nr_mbx, le_zero, out_of_range, e_ok}
use rf.Kernel.Run.{ok, fault, spin, M, ◌>>=◌, ◌>>◌}
use rf.Kernel.Types.{Acb, Message}
use rf.Kernel.State.{Tasks, Kernel, at}
use rf.Kernel.Parts.{on_tasks}
use rf.Tcb.{i_free_tcb}
use rf.Tcb.Ready.{tcb_remove_from_ready_queue}
use rf.Tcb.Timeout.{tcb_remove_from_timeout_list}
use rf.Msg.Mailbox.{free_mbx, with_mbx}
use rf.Msg.Send.{post_msg, reschedule}

-- ACBHandleToPointer and GetACBPtr: the entry of ACBPtrs for a handle.
unfoldable pub acb_handle_to_pointer : (h : ℕ) → M Kernel (Option Acb)
acb_handle_to_pointer h k = if out_of_range nr_acb h then fault else ok (k.apps.acb h) k

-- SafeGetACBPtr, by the index of the array.
unfoldable pub safe_get_acb_ptr : (n : ℕ) → Kernel → Option Acb
safe_get_acb_ptr n k = if leb nr_acb n then none else k.apps.acb (n + 1)

-- The ACB of the handle `h` is `a`.
abbrev pub put_acb : (h : ℕ) → Acb → Kernel → Kernel
put_acb h a k = record k { apps = record k.apps { acb = update k.apps.acb h (some a) } }

-- FreeACB
abbrev pub free_acb : (h : ℕ) → Kernel → Kernel
free_acb h k = record k { apps = record k.apps { listed = update k.apps.listed h false } }

-- `tcbs[i]` is the TCB of the handle `i + 1`.
abbrev pub element : (i : ℕ) → ℕ
element i = i + 1

-- `i - 1` for a `short`
abbrev pub before : ℕ → ℕ
before i = (i + 0xffff) % 2 ^ 16

-- The mailboxes of a thread from number `nn` on, among `n`.
unfoldable pub free_mailboxes : (n nn t : ℕ) → M Kernel (Unit {0})
free_mailboxes zero nn t k = ok tt k
free_mailboxes (suc n) nn t k =
    let rest = free_mailboxes n (nn + 1) t in
    let h = (k.tasks.tcb t).mailboxes nn in
    (if ltb h nr_mbx
        then (free_mbx h >> λ c. rest (record c {
          tasks = at t (λ r. record r { mailboxes = update r.mailboxes nn 0 }) c.tasks;
        }))
        else rest)
      k

-- The walk along the threads of an app, from the index `ht` on, until the next thread is the one with the
-- handle `threadno`, which is taken out. The result is the last value of `ht`.
unfoldable pub thread_walk : (fuel ht threadno : ℕ) → M Tasks ℕ
thread_walk zero ht threadno s = spin
thread_walk (suc fuel) ht threadno s =
    let next = before (s.tcb (element ht)).acbnext in
    let rest = thread_walk fuel next threadno in
    if le_zero ht
    then ok ht s
    else if leb nr_tcb ht
    then fault
    else if next == before threadno
    then ok next (at (element ht) (λ t. record t { acbnext = (s.tcb (element next)).acbnext }) s)
    else rest s

-- The thread leaves the list of its app. The result is `ht`.
unfoldable pub leave_app : (hApp threadno : ℕ) → Acb → M Kernel ℕ
leave_app hApp threadno j k =
    if j.thread == threadno
    then (if leb nr_tcb j.thread
        then fault
        else ok j.thread
            (put_acb hApp (record j { thread = (k.tasks.tcb (element j.thread)).acbnext }) k))
    else on_tasks (thread_walk 258 j.thread threadno) k

-- `tcbs[ht].acbnext = 0`
unfoldable pub clear_acbnext : (ht : ℕ) → M Tasks (Unit {0})
clear_acbnext ht s =
    if leb nr_tcb ht then fault else ok tt (at (element ht) (λ t. record t { acbnext = 0 }) s)

-- An app without threads is finished.
unfoldable pub finish_app : (hApp : ℕ) → M Kernel (Unit {0})
finish_app hApp k = elim (k.apps.acb hApp) [
  | none ↦ fault
  | some j ↦
      if j.thread == 0
      then ok tt (free_acb hApp (put_acb hApp (record j { magic = 0 }) k))
      else ok tt k
]

unfoldable pub kill_in_app : (hApp threadno : ℕ) → Option Acb → M Kernel ℤ
kill_in_app hApp threadno none k = fault
kill_in_app hApp threadno (some j) k =
    (do
      ht ← leave_app hApp threadno j
      on_tasks (clear_acbnext ht)
      finish_app hApp
      on_tasks (i_free_tcb ht)
      ok (pos e_ok))
      k

-- FMTK_KillThread. It gives the index of the thread, `threadno - 1`, to functions that take a handle.
unfoldable pub kill_thread : (threadno : ℕ) → M Kernel ℤ
kill_thread threadno k =
    let i = before threadno in
    (do
      on_tasks (tcb_remove_from_ready_queue i)
      on_tasks (tcb_remove_from_timeout_list i)
      λ c.
          (if leb nr_tcb i
            then fault
            else (do
              free_mailboxes 4 0 (element i)
              λ d.
                  (do
                    let hApp = (d.tasks.tcb (element i)).app
                    a ← acb_handle_to_pointer hApp
                    kill_in_app hApp threadno a)
                    d)
                c))
      k

-- The loop of FMTK_ExitThread, `n` rounds of it.
unfoldable pub reschedule_loop : (n : ℕ) → M Kernel ℤ
reschedule_loop zero k = spin
reschedule_loop (suc n) k = let rest = reschedule_loop n in (reschedule >> rest) k

-- FMTK_ExitThread: after the thread was killed it never returns.
unfoldable pub exit_thread : (n : ℕ) → M Kernel ℤ
exit_thread n k = (kill_thread k.running_tcb >> reschedule_loop n) k

-- The mailboxes that an alarm is posted to, from `h` on along the links.
unfoldable pub post_alarm : (fuel h : ℕ) → Message → M Kernel (Unit {0})
post_alarm zero h msg k = spin
post_alarm (suc fuel) h msg k =
    let rest = post_alarm fuel in
    if out_of_range nr_mbx h
    then ok tt k
    else with_mbx h
        (λ m. λ c.
          (if (c.mbx m).owner == c.running_appid
              then (post_msg h msg >> λ d. rest (d.mbx m).link msg d)
              else rest (c.mbx m).link msg)
            c)
        k

-- The loop over the timers of a group, with `n` left from number `nn` on. `jj` are the timers that timed
-- out, `ctrl` what the control registers hold.
unfoldable pub alarm_loop : (n nn jj ndx : ℕ) → (ctrl : ℕ → ℕ) → Message → M Kernel (Unit {0})
alarm_loop zero nn jj ndx ctrl msg k = ok tt k
alarm_loop (suc n) nn jj ndx ctrl msg k =
    let rest = alarm_loop n (nn + 1) (jj / 2) ndx ctrl msg in
    if jj == 0
    then ok tt k
    else if jj % 2 == 1
    then (post_alarm 1026 (ctrl (ndx * 32 + nn) / 2 ^ 16 % 2 ^ 16) msg >> rest) k
    else rest k

-- FMTK_AlarmISR. The other fields of the message are those of `msg`, which the source leaves unset.
unfoldable pub alarm_isr : (ndx jj : ℕ) → (ctrl : ℕ → ℕ) → Message → M Kernel (Unit {0})
alarm_isr ndx jj ctrl msg =
    alarm_loop 33 0 jj ndx ctrl (record msg { d1 = 0x113; d2 = 0xfff_ffff; d3 = 0xfff_ffff })
