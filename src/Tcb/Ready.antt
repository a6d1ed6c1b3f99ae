-- ===== src/Tcb/Ready.antt =====
-- The ready queues: one circular list for each priority.
pub mod Shape
pub mod Tail
pub mod Insert
pub mod Remove
use rf.Prelude.{
  ℕ, Bool, true, false, ◌||◌, not, Option, none, some, ◌==◌, ltb, if◌then◌else◌, update,
}
use rf.Kernel.Config.{le_zero, e_ok, e_bad_priority}
use rf.Kernel.Run.{Run, ok, panic, fault, M}
use rf.Kernel.Types.{Tcb, Status, ts_none}
use rf.Kernel.State.{Tasks, at}
use rf.Tcb.{tcb_handle_to_pointer}

abbrev pub set_ready : Status → Status
set_ready b = record b { ready = true }

-- `ht` is linked in behind the last thread of the queue that `hq` heads.
unfoldable pub link_at_tail : (ht hq : ℕ) → M Tasks ℕ
link_at_tail ht hq s = elim (tcb_handle_to_pointer hq) [
  | none ↦ fault
  | some q ↦
      let s = at ht (λ t. record t { next = hq; prev = (s.tcb q).prev }) s in
      let last = (s.tcb q).prev in
      if le_zero last then panic else elim (tcb_handle_to_pointer last) [
        | none ↦ fault
        | some l ↦
            ok e_ok (at q (λ t. record t { prev = ht }) (at l (λ t. record t { next = ht }) s))
      ]
]

-- The part of the insertion that follows the check of the priority.
unfoldable pub enqueue : (ht : ℕ) → M Tasks ℕ
enqueue ht s =
    let pri = (s.tcb ht).priority in
    let s = record s { ultra = if ltb 28 pri then update s.ultra pri true else s.ultra } in
    let s = at ht (λ t. record t { status = set_ready t.status }) s in
    let hq = s.ready_q pri in
    if le_zero hq
    then ok e_ok (record (at ht (λ t. record t { next = ht; prev = ht }) s) {
      ready_q = update s.ready_q pri ht;
    })
    else if ht == hq
    then panic
    else (if not ((s.tcb ht).next == 0) || not ((s.tcb ht).prev == 0)
        then panic
        else link_at_tail ht hq s)

-- TCBInsertIntoReadyQueue. A null pointer is followed if `ht` is no handle.
unfoldable pub tcb_insert_into_ready_queue : (ht : ℕ) → M Tasks ℕ
tcb_insert_into_ready_queue ht s = elim (tcb_handle_to_pointer ht) [
  | none ↦ fault
  | some p ↦ if ltb 31 (s.tcb p).priority then ok e_bad_priority s else enqueue p s
]

-- The handle of the first thread of the queue when `ht` leaves it.
unfoldable pub next_head : (ht : ℕ) → Tasks → ℕ
next_head ht s =
    let hq = s.ready_q (s.tcb ht).priority in
    if ht == hq then if (s.tcb ht).next == ht then 0 else (s.tcb hq).next else hq

-- The neighbours of `ht` are joined, where they are threads.
unfoldable pub unlink : (ht : ℕ) → Tasks → Tasks
unlink ht s =
    let s : Tasks = elim (tcb_handle_to_pointer (s.tcb ht).next) [
      | none ↦ s
      | some p ↦ at p (λ t. record t { prev = (s.tcb ht).prev }) s
    ] in
    elim (tcb_handle_to_pointer (s.tcb ht).prev) [
      | none ↦ s
      | some q ↦ at q (λ t. record t { next = (s.tcb ht).next }) s
    ]

unfoldable pub clear_links : Tcb → Tcb
clear_links t = record t { status = ts_none; next = 0; prev = 0 }

-- TCBRemoveFromReadyQueue. The tests `ht==hq` and `p->next==hq` are those of `next_head`.
unfoldable pub tcb_remove_from_ready_queue : (ht : ℕ) → M Tasks ℕ
tcb_remove_from_ready_queue ht s = elim (tcb_handle_to_pointer ht) [
  | none ↦ ok e_ok s
  | some p ↦
      let pri = (s.tcb p).priority in
      if ltb 31 pri
      then ok e_bad_priority s
      else (let s' = record s { ready_q = update s.ready_q pri (next_head p s) } in
          let s'' = if (s.tcb p).next == p then s' else unlink p s' in
          ok e_ok (at p clear_links s''))
]
