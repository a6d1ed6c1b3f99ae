-- ===== src/Machine/Start/Ready.antt =====
-- A thread that was started: its place in the ready queues, in its app and off the free list.
use mathlib.Core.Path.{subst}
use rf.Prelude.{
  ℕ, ◌+◌, ◌*◌, ◌/◌, ◌%◌, ◌≤◌, ◌<◌, ◌≡◌, ◌∙◌, refl, ap, false, some, List, [], ◌∷◌, ◌++◌, arith,
  ◌==◌, update, ◌∈◌, ◌∉◌, last_or, eq_self, not-mem-ne,
}
use rf.Kernel.Config.{ℤ, pos, nr_tcb, nr_acb, out_of_range, e_ok}
use rf.Kernel.Run.{Run, ok, panic, fault, spin, M, chain, and_then, Returns}
use rf.Kernel.Types.{Acb}
use rf.Kernel.State.{Tasks, at}
use rf.Kernel.Parts.{on_tasks}
use rf.Links.{Ring, Seg-frame}
use rf.Semaphore.{lock_semaphore_nb, unlock_semaphore_nb, lock_tcb_list, unlock_tcb_list, tcb_sema}
use rf.Msg.Pool.{u32}
use rf.Tcb.Ready.{tcb_insert_into_ready_queue, set_ready}
use rf.Tcb.Ready.Shape.{nexts, prevs, priorities, IsQueue, IsReady, out_of_range_lem}
use rf.Tcb.Ready.Insert.{insert-IsReady}
use rf.Thread.{put_acb}
use rf.Machine.{Machine, on_kernel}
use rf.Machine.Start.{
  Startup, new_thread, take_tcb, join_app, with_context, set_context, give_stack, start_taken,
  start_found, start_thread,
}

-- A change that spares the nodes of a queue, their priorities and its head leaves the queue.
IsQueue-same :
    (s t : Tasks) (pri : ℕ) (xs : List ℕ)
    → t.ready_q pri ≡ s.ready_q pri
    → ((a : ℕ) → a ∈ xs → t.tcb a ≡ s.tcb a)
    → IsQueue s pri xs
    → IsQueue t pri xs
IsQueue-same s t pri xs same_head same q = record {
  head = same_head ∙ q.head;
  ring = frame xs same q.ring;
  distinct = q.distinct;
  handles = q.handles;
  level = λ a i. ap (λ r. r.priority) (same a i) ∙ q.level a i;
}
  where
    frame :
        (ys : List ℕ)
        → ((a : ℕ) → a ∈ ys → t.tcb a ≡ s.tcb a)
        → Ring (nexts s) (prevs s) ys
        → Ring (nexts t) (prevs t) ys
    frame [] f r = tt
    frame (y ∷ ys) f r =
        Seg-frame (nexts s) (prevs s) (nexts t) (prevs t) (last_or y ys) (y ∷ ys) y
          (λ a i. (ap (λ x. x.next) (f a i), ap (λ x. x.prev) (f a i))) r

-- The stack of the thread, where the caller gives one.
abbrev pub stack_base : Startup → ℕ
stack_base a = u32 (a.stack + 31) / 32 * 32

-- The threads before the new one is put into its ready queue.
unfoldable pub with_thread : (h hApp tick : ℕ) → (j : Acb) → Startup → Tasks → Tasks
with_thread h hApp tick j a s = at h (with_context h tick (stack_base a) (a.stack % 32) a) (
    at h (λ t. record t { acbnext = j.thread })
      (at h (new_thread hApp a) (record s { free_tcb = (s.tcb h).next })))

module _ (h hApp tick : ℕ) (j : Acb) (a : Startup) (s : Tasks) where
  with_thread_other : (b : ℕ) → (h == b) ≡ false → (with_thread h hApp tick j a s).tcb b ≡ s.tcb b
  unfolding with_thread
  with_thread_other b ne = rw ne refl

  with_thread_self :
      (nexts (with_thread h hApp tick j a s) h ≡ 0)
      × (prevs (with_thread h hApp tick j a s) h ≡ 0)
      × (priorities (with_thread h hApp tick j a s) h ≡ a.priority % 256)
  unfolding with_thread new_thread with_context
  with_thread_self = ground (arith, eq_self h)

  with_thread-IsReady :
      (q : ℕ → List ℕ)
      → ((pri : ℕ) → pri ≤ 31 → h ∉ q pri)
      → IsReady s q
      → IsReady (with_thread h hApp tick j a s) q
  unfolding with_thread
  with_thread-IsReady q out r pri le =
      IsQueue-same s (with_thread h hApp tick j a s) pri (q pri) refl
        (λ b i. with_thread_other b (not-mem-ne h b (q pri) (out pri le) i)) (r pri le)

-- The machine before the new thread is put into its ready queue.
abbrev before_insert : (h hApp : ℕ) → (j : Acb) → Startup → Machine → Machine
before_insert h hApp j a s = record s {
  kernel =
      put_acb hApp (record j { thread = h })
        (record s.kernel { tasks = with_thread h hApp s.kernel.tick j a s.kernel.tasks });
}

module _ (a : Startup) (s : Machine) (j : Acb) where
  start_eq :
      out_of_range nr_tcb s.kernel.tasks.free_tcb ≡ false
      → out_of_range nr_acb s.kernel.running_appid ≡ false
      → s.kernel.apps.acb s.kernel.running_appid ≡ some j
      → (a.stack == 0) ≡ false
      → start_thread a s
        ≡ and_then
            (on_kernel
              (on_tasks (tcb_insert_into_ready_queue s.kernel.tasks.free_tcb))
              (before_insert s.kernel.tasks.free_tcb s.kernel.running_appid j a s))
            (λ _. ok (pos s.kernel.tasks.free_tcb))
  unfolding start_thread on_kernel on_tasks take_tcb start_found start_taken join_app give_stack
      set_context lock_tcb_list unlock_tcb_list lock_semaphore_nb unlock_semaphore_nb with_thread
  start_eq t p e z = rw (t, p, e, z, eq_self (tcb_sema + s.kernel.semaphores)) refl

-- A step on the threads of the machine, and a result.
on_tasks-Returns :
    (P : ℕ → Tasks → Type 0) (Q : ℤ → Machine → Type 0) (z : ℤ) (f : M Tasks ℕ) (m : Machine)
    → Returns P (f m.kernel.tasks)
    → ((x : ℕ) (t : Tasks) → P x t → Q z (record m { kernel = record m.kernel { tasks = t } }))
    → Returns Q (and_then (on_kernel (on_tasks f) m) (λ _. ok z))
unfolding on_kernel on_tasks
on_tasks-Returns P Q z f m = go (f m.kernel.tasks)
  where
    go :
        (r : Run Tasks ℕ)
        → Returns P r
        → ((x : ℕ) (t : Tasks) → P x t → Q z (record m { kernel = record m.kernel { tasks = t } }))
        → Returns Q (
            and_then
              (chain
                (chain r (λ a t. ok a (record m.kernel { tasks = t })))
                (λ a k. ok a (record m { kernel = k })))
              (λ _. ok z))
    go (ok x t) p f = f x t p
    go panic p f = absurd p
    go fault p f = absurd p
    go spin p f = absurd p

-- What a thread that was started is to the machine: `h` is its handle, `j` the ACB of its app before.
abbrev pub Started : (h : ℕ) → (j : Acb) → Startup → (ℕ → List ℕ) → Machine → ℤ → Machine → Type 0
Started h j a q s r c =
    (r ≡ pos h)
    × IsReady c.kernel.tasks (update q a.priority (q a.priority ++ h ∷ []))
    × (c.kernel.apps.acb s.kernel.running_appid ≡ some (record j { thread = h }))
    × (c.kernel.held ≡ s.kernel.held)
    × (c.memory ≡ s.memory)

-- StartThread with a stack of the caller's, a priority of at most 31 and a free TCB that is in no ready queue,
-- where the running app has an ACB and the ready queues are well formed: it returns the handle of that TCB,
-- which is then the last thread of the queue of its priority and the first one of the app. The other
-- queues keep their threads; the semaphores are held as before; the memory manager is as before.
pub start_thread-IsReady :
    (a : Startup) (s : Machine) (j : Acb) (q : ℕ → List ℕ)
    → 0 < s.kernel.tasks.free_tcb
    → s.kernel.tasks.free_tcb ≤ nr_tcb
    → a.priority ≤ 31
    → ((pri : ℕ) → pri ≤ 31 → s.kernel.tasks.free_tcb ∉ q pri)
    → IsReady s.kernel.tasks q
    → out_of_range nr_acb s.kernel.running_appid ≡ false
    → s.kernel.apps.acb s.kernel.running_appid ≡ some j
    → (a.stack == 0) ≡ false
    → Returns (Started s.kernel.tasks.free_tcb j a q s) (start_thread a s)
start_thread-IsReady a s j q hv hn le out r p e z =
    let h = s.kernel.tasks.free_tcb in
    let m = before_insert h s.kernel.running_appid j a s in
    let w = with_thread_self h s.kernel.running_appid s.kernel.tick j a s.kernel.tasks in
    let same : a.priority % 256 ≡ a.priority = omega arith in
    let level : priorities m.kernel.tasks h ≡ a.priority = w.2 ∙ same in
    rw (start_eq a s j (out_of_range_lem h hv hn) p e z) (
      on_tasks-Returns
        (λ x t.
          (x ≡ e_ok)
          × IsReady t
              (update q (priorities m.kernel.tasks h) (q (priorities m.kernel.tasks h) ++ h ∷ []))
          × ((t.tcb h).status ≡ set_ready (m.kernel.tasks.tcb h).status))
        (Started h j a q s) (pos h) (tcb_insert_into_ready_queue h) m
        (insert-IsReady h m.kernel.tasks q hv hn (omega (arith, level, le)) w.0 w.1
          (with_thread-IsReady h s.kernel.running_appid s.kernel.tick j a s.kernel.tasks q out r))
        (λ x t y. (
          refl,
          subst (λ n. IsReady t (update q n (q n ++ h ∷ []))) level y.1,
          rw (eq_self s.kernel.running_appid) refl,
          refl,
          refl,
        )))
