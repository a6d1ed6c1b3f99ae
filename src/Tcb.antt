-- ===== src/Tcb.antt =====
-- software/Femtiki/source/kernel/tcb.c: the functions on the task control blocks. They run with the
-- list that they work on locked, so each is one step on the state `Tasks`.
pub mod Ready
pub mod Timeout
use rf.Prelude.{
  ℕ, zero, suc, ◌+◌, ◌-◌, Bool, true, false, ◌&&◌, ◌||◌, not, Option, none, some, List, [], ◌∷◌,
  ◌==◌, ltb, if◌then◌else◌, update,
}
use rf.Kernel.Config.{nr_tcb, le_zero, out_of_range, e_ok, e_bad_priority}
use rf.Kernel.Run.{Run, ok, panic, fault, spin, M, ◌>>=◌}
use rf.Kernel.Types.{Tcb, Status, ts_none}
use rf.Kernel.State.{Tasks, at}

-- A pointer to the TCB of handle `h` is `some h`, the null pointer is `none`.
unfoldable pub tcb_handle_to_pointer : ℕ → Option ℕ
tcb_handle_to_pointer handle = if out_of_range nr_tcb handle then none else some handle

unfoldable pub tcb_pointer_to_handle : Option ℕ → ℕ
tcb_pointer_to_handle none = 0
tcb_pointer_to_handle (some h) = h

-- The handle of the new TCB, 0 if there is none.
unfoldable pub i_alloc_tcb : M Tasks ℕ
i_alloc_tcb s = if le_zero s.free_tcb then ok 0 s else elim (tcb_handle_to_pointer s.free_tcb) [
  | none ↦ fault
  | some p ↦ ok s.free_tcb (record s { free_tcb = (s.tcb p).next })
]

unfoldable pub i_free_tcb : ℕ → M Tasks (Unit {0})
i_free_tcb h s = elim (tcb_handle_to_pointer h) [
  | none ↦ ok tt s
  | some p ↦
      let s = at p (λ t. record t { next = s.free_tcb }) s in ok tt (record s { free_tcb = h })
]

-- The union of two sets of status bits, and the bits of the first that are not in the second.
abbrev pub set_bits : Status → Status → Status
set_bits a b = record {
  timeout = a.timeout || b.timeout;
  waitmsg = a.waitmsg || b.waitmsg;
  preempt = a.preempt || b.preempt;
  running = a.running || b.running;
  ready = a.ready || b.ready;
}

abbrev pub clear_bits : Status → Status → Status
clear_bits a b = record {
  timeout = a.timeout && not b.timeout;
  waitmsg = a.waitmsg && not b.waitmsg;
  preempt = a.preempt && not b.preempt;
  running = a.running && not b.running;
  ready = a.ready && not b.ready;
}

unfoldable pub tcb_set_status_bit : ℕ → Status → M Tasks (Unit {0})
tcb_set_status_bit h bits s =
    if out_of_range nr_tcb h then ok tt s else elim (tcb_handle_to_pointer h) [
      | none ↦ ok tt s
      | some p ↦ ok tt (at p (λ t. record t { status = set_bits t.status bits }) s)
    ]

unfoldable pub tcb_clear_status_bit : ℕ → Status → M Tasks (Unit {0})
tcb_clear_status_bit h bits s =
    if out_of_range nr_tcb h then ok tt s else elim (tcb_handle_to_pointer h) [
      | none ↦ ok tt s
      | some p ↦ ok tt (at p (λ t. record t { status = clear_bits t.status bits }) s)
    ]

-- Pops the function of the first callback; `none` where the C code returns an unset variable.
unfoldable pub tcb_pop_callback_list : ℕ → M Tasks (Option ℕ)
tcb_pop_callback_list t s = elim ((s.tcb t).callback) [
  | [] ↦ ok none s
  | func ∷ next ↦ ok (some func) (at t (λ r. record r { callback = next }) s)
]
