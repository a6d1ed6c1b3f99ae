-- ===== src/Examples/Lists.antt =====
-- The theorems on the ready queues and on the timeout list, at small states.
use rf.Prelude.{ℕ, none, some, true, ◌≤◌, ◌≡◌, refl, false, List, [], ◌∷◌, arith, ◌==◌, update}
use rf.Kernel.Config.{e_ok}
use rf.Kernel.Run.{Returns}
use rf.Kernel.Types.{ts_none}
use rf.Kernel.State.{Tasks}
use rf.Tcb.Ready.{set_ready, tcb_insert_into_ready_queue, tcb_remove_from_ready_queue}
use rf.Tcb.Ready.Shape.{IsQueue, IsReady, IsReady-update}
use rf.Tcb.Ready.Insert.{insert-IsReady}
use rf.Tcb.Ready.Remove.Whole.{Removed, remove-IsReady}
use rf.Tcb.Timeout.{
  tcb_insert_into_timeout_list, tcb_remove_from_timeout_list, tcb_pop_timeout_list,
}
use rf.Tcb.Timeout.Shape.{IsTimeouts, timeouts}
use rf.Tcb.Timeout.Deadlines.{deadlines}
use rf.Tcb.Timeout.Insert.Whole.{insert-deadlines}
use rf.Tcb.Timeout.Remove.{remove-deadlines}
use rf.Tcb.Timeout.Pop.{pop-deadlines}
use rf.Sched.{select_thread_to_run, select_helper, set_thread_priority}
use rf.Sched.Select.{at_head}
use rf.Sched.Rotation.{select-turns, select-none}
use rf.Sched.Whole.{select-scheduler}
use rf.Sched.Priority.{set_priority-IsReady}
use rf.Examples.{two_ready, two_asleep, small_kernel}

abbrev pub two_queues : ℕ → List ℕ
two_queues = update (λ _. []) 15 (1 ∷ 2 ∷ [])

two_first : IsQueue two_ready 15 (1 ∷ 2 ∷ [])
two_first = record {
  head = refl;
  ring = (refl, refl, (refl, refl, tt));
  distinct = (refl, (refl, tt));
  handles = (omega arith, omega arith, (omega arith, omega arith, tt));
  level = λ a i. ground arith;
}

two_others : (pri : ℕ) → pri ≤ 31 → (15 == pri) ≡ false → IsQueue two_ready pri []
two_others pri le ne = record {
  head = ground arith;
  ring = tt;
  distinct = tt;
  handles = tt;
  level = λ a i. cc;
}

pub two_ready_lem : IsReady two_ready two_queues
two_ready_lem = IsReady-update two_ready (λ _. []) 15 (1 ∷ 2 ∷ []) two_first two_others

two_asleep_lem : IsTimeouts two_asleep (1 ∷ 2 ∷ [])
two_asleep_lem = record {
  head = refl;
  chain = (refl, refl, (refl, refl, tt));
  distinct = (refl, (refl, tt));
  handles = (omega arith, omega arith, (omega arith, omega arith, tt));
}

insert-IsReady_example :
    Returns
      (λ r t.
        (r ≡ e_ok)
        × IsReady t (update two_queues 15 (1 ∷ 2 ∷ 3 ∷ []))
        × ((t.tcb 3).status ≡ set_ready ts_none))
      (tcb_insert_into_ready_queue 3 two_ready)
insert-IsReady_example =
    insert-IsReady 3 two_ready two_queues (omega arith) (omega arith) (omega arith) refl refl
      two_ready_lem

remove-IsReady_example :
    Returns (Removed two_queues 1 15 (2 ∷ [])) (tcb_remove_from_ready_queue 1 two_ready)
remove-IsReady_example =
    remove-IsReady 1 two_ready two_queues (omega arith) two_ready_lem [] (2 ∷ []) refl

insert-deadlines_example :
    Returns
      (λ r t.
        (r ≡ e_ok)
        × ((ys : List ℕ) × IsTimeouts t ys
            × (deadlines (timeouts t) 0 ys ≡ (1, 5) ∷ (3, 7) ∷ (2, 8) ∷ [])))
      (tcb_insert_into_timeout_list 3 7 two_asleep)
insert-deadlines_example =
    insert-deadlines 3 7 two_asleep (1 ∷ 2 ∷ []) (omega arith) (omega arith) refl refl
      two_asleep_lem refl

remove-deadlines_example :
    Returns
      (λ r t.
        (r ≡ e_ok)
        × IsTimeouts t (2 ∷ [])
        × (deadlines (timeouts t) 0 (2 ∷ []) ≡ (2, 8) ∷ [])
        × (((t.tcb 1).next ≡ 0) × ((t.tcb 1).prev ≡ 0) × ((t.tcb 1).status ≡ ts_none)))
      (tcb_remove_from_timeout_list 1 two_asleep)
remove-deadlines_example = remove-deadlines 1 two_asleep [] (2 ∷ []) two_asleep_lem

pop-deadlines_example :
    Returns
      (λ r t.
        (r ≡ 1)
        × IsTimeouts t (2 ∷ [])
        × (deadlines (timeouts t) 5 (2 ∷ []) ≡ (2, 8) ∷ [])
        × (((t.tcb 1).next ≡ 0) × ((t.tcb 1).prev ≡ 0) × ((t.tcb 1).status ≡ ts_none)))
      (tcb_pop_timeout_list two_asleep)
pop-deadlines_example = pop-deadlines 1 two_asleep (2 ∷ []) two_asleep_lem

select-scheduler_example :
    Returns
      (λ r c.
        (r ≡ 1)
        × IsReady c.tasks (update two_queues 15 (2 ∷ 1 ∷ []))
        × (c ≡ record small_kernel {
          invert = 1;
          tasks = record two_ready { ready_q = c.tasks.ready_q };
        }))
      (select_thread_to_run small_kernel)
select-scheduler_example = select-scheduler small_kernel two_queues two_ready_lem

select-turns_example :
    (select_helper 2 15 two_ready ≡ (some 1, at_head 15 2 two_ready))
    × IsQueue (at_head 15 2 two_ready) 15 (2 ∷ 1 ∷ [])
select-turns_example = select-turns 2 15 1 two_ready [] (2 ∷ []) two_first (λ a i. cc) refl

-- The threads 1 and 2, bound to the core 3.
abbrev bound : Tasks
bound = record two_ready { tcb = λ h. record (two_ready.tcb h) { affinity = 3 } }

bound_first : IsQueue bound 15 (1 ∷ 2 ∷ [])
bound_first = record {
  head = refl;
  ring = (refl, refl, (refl, refl, tt));
  distinct = (refl, (refl, tt));
  handles = (omega arith, omega arith, (omega arith, omega arith, tt));
  level = λ a i. ground arith;
}

select-none_example : select_helper 2 15 bound ≡ (none, bound)
select-none_example = select-none 2 15 bound (1 ∷ 2 ∷ []) bound_first (λ a i. refl)

-- The thread 1 as it runs.
abbrev running_first : Tasks
running_first = record two_ready {
  tcb =
      update two_ready.tcb 1
        (record (two_ready.tcb 1) { status = record ts_none { running = true; ready = true } });
}

running_first_lem : IsReady running_first two_queues
running_first_lem =
    IsReady-update running_first (λ _. []) 15 (1 ∷ 2 ∷ [])
      (record {
        head = refl;
        ring = (refl, refl, (refl, refl, tt));
        distinct = (refl, (refl, tt));
        handles = (omega arith, omega arith, (omega arith, omega arith, tt));
        level = λ a i. ground arith;
      })
      (λ pri le ne. record {
        head = ground arith;
        ring = tt;
        distinct = tt;
        handles = tt;
        level = λ a i. cc;
      })

set_priority-IsReady_example :
    Returns
      (λ r t. (r ≡ e_ok) × IsReady t (update (update two_queues 15 (2 ∷ [])) 20 (1 ∷ [])))
      (set_thread_priority 1 20 running_first)
set_priority-IsReady_example =
    set_priority-IsReady 1 20 running_first two_queues [] (2 ∷ []) (omega arith) (omega arith) refl
      running_first_lem refl
