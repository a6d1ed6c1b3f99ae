-- ===== src/Tcb/Timeout.antt =====
-- The timeout list: each thread stores the ticks that it waits longer than the thread before it.
-- A timeout is an `int` that is not negative; no difference or sum below exceeds the largest
-- timeout that was asked for.
pub mod Deadlines
pub mod Shape
pub mod Insert
pub mod Remove
pub mod Pop
use rf.Prelude.{
  ℕ, zero, suc, ◌+◌, ◌-◌, Bool, true, false, ◌||◌, not, Option, none, some, ◌==◌, ltb,
  if◌then◌else◌,
}
use rf.Kernel.Config.{nr_tcb, le_zero, out_of_range, e_ok}
use rf.Kernel.Run.{Run, ok, panic, fault, spin, M, ◌>>=◌}
use rf.Kernel.Types.{Tcb, Status, ts_none}
use rf.Kernel.State.{Tasks, at}
use rf.Tcb.{tcb_handle_to_pointer, tcb_pointer_to_handle}

-- `while (to > p->timeout)`: the rest of `to`, and the threads between which `ht` goes.
unfoldable pub timeout_walk :
    (fuel ht to : ℕ) (q : Option ℕ) (p : ℕ) → M Tasks (ℕ × Option ℕ × Option ℕ)
timeout_walk zero ht to q p s = spin
timeout_walk (suc fuel) ht to q p s =
    if ltb (s.tcb p).timeout to
    then (if (s.tcb p).next == ht then panic else elim (tcb_handle_to_pointer (s.tcb p).next) [
      | none ↦ ok (to - (s.tcb p).timeout, some p, none) s
      | some p' ↦ timeout_walk fuel ht (to - (s.tcb p).timeout) (some p) p' s
    ])
    else ok (to, q, some p) s

-- The links before `p` and after `q`.
unfoldable pub linked : (ht to : ℕ) (q p : Option ℕ) → Tasks → Tasks
linked ht to q p s =
    let s =
      at ht
        (λ t. record t {
          next = tcb_pointer_to_handle p;
          prev = tcb_pointer_to_handle q;
          timeout = to;
        })
        s in
    let s : Tasks = elim p [
      | none ↦ s
      | some p ↦ at p (λ t. record t { timeout = t.timeout - to; prev = ht }) s
    ] in
    elim q [ none ↦ record s { timeout_list = ht } | some q ↦ at q (λ t. record t { next = ht }) s ]

unfoldable pub timeout_link : (ht to : ℕ) (q p : Option ℕ) → M Tasks ℕ
timeout_link ht to q p s = ok e_ok (linked ht to q p s)

abbrev pub set_timeout : Status → Status
set_timeout b = record b { timeout = true }

unfoldable pub timeout_insert : (t to : ℕ) → M Tasks ℕ
timeout_insert t to s =
    if not ((s.tcb t).next == 0) || not ((s.tcb t).prev == 0)
    then panic
    else if le_zero s.timeout_list
    then ok e_ok (record (at t (λ r. record r { timeout = to }) s) { timeout_list = t })
    else elim (tcb_handle_to_pointer s.timeout_list) [
      | none ↦ timeout_link t to none none s
      | some p ↦
          (do (rest, q, p') ← timeout_walk (nr_tcb + 1) t to none p; timeout_link t rest q p') s
    ]

-- TCBInsertIntoTimeoutList
unfoldable pub tcb_insert_into_timeout_list : (ht to : ℕ) → M Tasks ℕ
tcb_insert_into_timeout_list ht to s =
    if s.timeout_list == ht then panic else elim (tcb_handle_to_pointer ht) [
      | none ↦ ok e_ok s
      | some t ↦ timeout_insert t to (at t (λ r. record r { status = set_timeout r.status }) s)
    ]

unfoldable pub timeout_unlink : (t : ℕ) → Tasks → Tasks
timeout_unlink t s =
    let s : Tasks = elim (tcb_handle_to_pointer (s.tcb t).next) [
      | none ↦ s
      | some nxt ↦
          at nxt (λ r. record r { prev = (s.tcb t).prev; timeout = r.timeout + (s.tcb t).timeout })
            s
    ] in
    elim (tcb_handle_to_pointer (s.tcb t).prev) [
      | none ↦ s
      | some prv ↦ at prv (λ r. record r { next = (s.tcb t).next }) s
    ]

-- The thread `t` is unlinked, the head of the list is moved if it was the head, and `t` is cleared.
unfoldable pub timeout_removed : (t : ℕ) → Tasks → Tasks
timeout_removed t s =
    let s = timeout_unlink t s in
    let s = record s {
      timeout_list = if t == s.timeout_list then (s.tcb t).next else s.timeout_list;
    } in
    at t (λ r. record r { status = ts_none; next = 0; prev = 0 }) s

-- TCBRemoveFromTimeoutList
unfoldable pub tcb_remove_from_timeout_list : (ht : ℕ) → M Tasks ℕ
tcb_remove_from_timeout_list ht s = elim (tcb_handle_to_pointer ht) [
  | none ↦ ok e_ok s
  | some t ↦ ok e_ok (timeout_removed t s)
]

-- TCBPopTimeoutList
unfoldable pub tcb_pop_timeout_list : M Tasks ℕ
tcb_pop_timeout_list s =
    let h = s.timeout_list in
    if out_of_range nr_tcb h then ok h s else elim (tcb_handle_to_pointer h) [
      | none ↦ fault
      | some p ↦
          let s = record s { timeout_list = (s.tcb p).next } in
          let s = at p (λ r. record r { status = ts_none; next = 0; prev = 0 }) s in
          if out_of_range nr_tcb s.timeout_list
          then ok h s
          else elim (tcb_handle_to_pointer s.timeout_list) [
            | none ↦ fault
            | some p ↦ ok h (at p (λ r. record r { prev = 0 }) s)
          ]
    ]
