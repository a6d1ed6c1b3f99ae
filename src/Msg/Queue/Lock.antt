-- ===== src/Msg/Queue/Lock.antt =====
-- No operation on the queues of a mailbox touches its lock.
use rf.Prelude.{
  ℕ, zero, suc, ◌+◌, ◌≡◌, Option, none, some, ◌==◌, ltb, if◌then◌else◌, Bool-cases, inl, inr,
}
use rf.Kernel.Config.{
  pos, e_ok, e_que_full, nr_msg, nr_tcb, le_zero, out_of_range, mqs_newest, mqs_oldest,
}
use rf.Kernel.Run.{Ends, Ends-then, Ends-chain, Ends-any, Ends-if, Ends-follow, ok}
use rf.Kernel.State.{Box, Desk}
use rf.Tcb.{tcb_handle_to_pointer}
use rf.Msg.Queue.{
  count_missed, drop_newest, find_last, drop_oldest, keep_oldest, append_msg, count_in, is_repeat,
  queue_counted, mbx_queue_msg, mbx_dequeue_msg,
}
use rf.Msg.Threads.{leave_timeout, unlink_thread, taken, take_thread, mbx_dequeue_thread}

abbrev pub BoxLock : {A : Type 0} → ℕ → A → Box → Type 0
BoxLock l a b = b.mbx.lock ≡ l

drop_newest-lock : (l fuel : ℕ) (b : Box) → b.mbx.lock ≡ l → Ends (BoxLock l) (drop_newest fuel b)
unfolding drop_newest count_missed
drop_newest-lock l zero b e = tt
drop_newest-lock l (suc fuel) b e = elim (Bool-cases (ltb b.mbx.mq_size b.mbx.mq_count)) [
  | inl t ↦ elim (Bool-cases (out_of_range nr_msg b.mbx.mq_head)) [
    | inl o ↦ rw t (rw o tt)
    | inr o ↦ rw t (rw o (drop_newest-lock l fuel _ e))
  ]
  | inr t ↦ rw t e
]

find_last-lock :
    (l fuel msg tmpmsg : ℕ) (b : Box)
    → b.mbx.lock ≡ l
    → Ends (BoxLock l) (find_last fuel msg tmpmsg b)
unfolding find_last
find_last-lock l zero msg tmpmsg b e = tt
find_last-lock l (suc fuel) msg tmpmsg b e = elim (Bool-cases (tmpmsg == b.mbx.mq_tail)) [
  | inl t ↦ rw t e
  | inr t ↦ elim (Bool-cases (out_of_range nr_msg tmpmsg)) [
    | inl o ↦ rw t (rw o tt)
    | inr o ↦ rw t (rw o (find_last-lock l fuel tmpmsg (b.pool.message tmpmsg).link b e))
  ]
]

drop_oldest-lock :
    (l fuel msg : ℕ) (b : Box) → b.mbx.lock ≡ l → Ends (BoxLock l) (drop_oldest fuel msg b)
unfolding drop_oldest count_missed
drop_oldest-lock l zero msg b e = tt
drop_oldest-lock l (suc fuel) msg b e = elim (Bool-cases (ltb b.mbx.mq_size b.mbx.mq_count)) [
  | inl t ↦ rw t (
      Ends-then (BoxLock l) (BoxLock l) (find_last (nr_msg + 1) msg b.mbx.mq_head b) _
        (find_last-lock l (nr_msg + 1) msg b.mbx.mq_head b e)
        (λ r c f. drop_oldest-lock l fuel r.0 _ f))
  | inr t ↦ rw t e
]

keep_oldest-lock : (l m : ℕ) (b : Box) → b.mbx.lock ≡ l → Ends (BoxLock l) (keep_oldest m b)
unfolding keep_oldest count_missed
keep_oldest-lock l m b e = elim (Bool-cases (ltb b.mbx.mq_size b.mbx.mq_count)) [
  | inl t ↦ rw t (
      Ends-then (BoxLock l) (BoxLock l) _ _ (drop_oldest-lock l (suc b.mbx.mq_count) m _ e)
        (λ r c f. f))
  | inr t ↦ rw t e
]

append_msg-lock : (l rr m : ℕ) (b : Box) → b.mbx.lock ≡ l → Ends (BoxLock l) (append_msg rr m b)
unfolding append_msg
append_msg-lock l rr m b e = Ends-if (BoxLock l) (le_zero b.mbx.mq_tail) _ _ e (
    Ends-if (BoxLock l) (out_of_range nr_msg b.mbx.mq_tail) _ _ tt
      (Ends-if (BoxLock l) (is_repeat (b.pool.message m) (b.pool.message b.mbx.mq_tail)) _ _ e e))

queue_counted-lock : (l m : ℕ) (b : Box) → b.mbx.lock ≡ l → Ends (BoxLock l) (queue_counted m b)
unfolding queue_counted
queue_counted-lock l m b e =
    Ends-if (BoxLock l) (b.mbx.mq_strategy == mqs_newest) _ _
      (Ends-then (BoxLock l) (BoxLock l) (drop_newest (suc b.mbx.mq_count) b) _
        (drop_newest-lock l (suc b.mbx.mq_count) b e) (λ r c f. append_msg-lock l _ m c f))
      (Ends-if (BoxLock l) (b.mbx.mq_strategy == mqs_oldest) _ _
        (Ends-then (BoxLock l) (BoxLock l) (keep_oldest m b) _ (keep_oldest-lock l m b e)
          (λ r c f. kept r c f))
        (append_msg-lock l e_ok m b e))
  where
    kept :
        (r : ℕ) (c : Box)
        → c.mbx.lock ≡ l
        → Ends (BoxLock l) ((if r == e_que_full then ok r else append_msg r m) c)
    kept r c f = elim (Bool-cases (r == e_que_full)) [
      | inl t ↦ rw t f
      | inr t ↦ rw t (append_msg-lock l r m c f)
    ]

pub mbx_queue_msg-lock :
    (l : ℕ) (msg : Option ℕ) (b : Box) → b.mbx.lock ≡ l → Ends (BoxLock l) (mbx_queue_msg msg b)
unfolding mbx_queue_msg count_in
mbx_queue_msg-lock l none b e = tt
mbx_queue_msg-lock l (some m) b e = queue_counted-lock l m _ e

pub mbx_dequeue_msg-lock : (l : ℕ) (b : Box) → b.mbx.lock ≡ l → Ends (BoxLock l) (mbx_dequeue_msg b)
unfolding mbx_dequeue_msg
mbx_dequeue_msg-lock l b e = Ends-if (BoxLock l) (b.mbx.mq_count == 0) _ _ e (
    Ends-if (BoxLock l) (le_zero b.mbx.mq_head) _ _ e
      (Ends-if (BoxLock l) (out_of_range nr_msg b.mbx.mq_head) _ _ tt e))

abbrev pub DeskLock : {A : Type 0} → ℕ → A → Desk → Type 0
DeskLock l a d = d.mbx.lock ≡ l

take_thread-lock : (l t : ℕ) (d : Desk) → d.mbx.lock ≡ l → Ends (DeskLock l) (take_thread t d)
unfolding take_thread taken
take_thread-lock l t d e =
    Ends-chain (λ _ _. Unit {0}) (DeskLock l)
      (leave_timeout t (unlink_thread (d.tasks.tcb t).mbq_next d.tasks))
      (λ _ s. ok (some t, pos e_ok) (taken t d s))
      (Ends-any (leave_timeout t (unlink_thread (d.tasks.tcb t).mbq_next d.tasks))) (λ r s f. e)

pub mbx_dequeue_thread-lock :
    (l : ℕ) (d : Desk) → d.mbx.lock ≡ l → Ends (DeskLock l) (mbx_dequeue_thread d)
unfolding mbx_dequeue_thread
mbx_dequeue_thread-lock l d e = Ends-if (DeskLock l) (out_of_range nr_tcb d.mbx.tq_head) _ _ e (
    Ends-follow (DeskLock l) (tcb_handle_to_pointer d.mbx.tq_head) (λ t. take_thread t d)
      (λ t. take_thread-lock l t d e))
