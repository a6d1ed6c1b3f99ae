-- ===== src/Msg/Queue/Dequeue.antt =====
-- MBXDequeueMsg takes the oldest message.
use rf.Prelude.{
  ℕ, ◌-◌, ◌≤◌, ◌<◌, ◌≡◌, refl, ◌∙◌, false, none, some, List, [], ◌∷◌, arith, ◌==◌, if◌then◌else◌,
  head_or, not-mem-ne, true, Bool-cases, inl, inr,
}
use rf.Kernel.Config.{nr_msg, le_zero}
use rf.Kernel.Run.{Returns, ok}
use rf.Kernel.State.{Box, at_msg}
use rf.Msg.Queue.{mbx_dequeue_msg}
use rf.Msg.Queue.Shape.{links, IsQueued, Line-frame}

-- The mailbox after its first message `x`, which `next` follows, has left it.
unfoldable pub dequeued : (x next : ℕ) → Box → Box
dequeued x next b = record {
  pool = at_msg x (λ m. record m { link = x }) b.pool;
  mbx = record b.mbx {
    mq_count = b.mbx.mq_count - 1;
    mq_head = next;
    mq_tail = if le_zero next then 0 else b.mbx.mq_tail;
  };
}

module _ (x next : ℕ) (b : Box) where
  pub dequeued_link : (a : ℕ) → (x == a) ≡ false → links (dequeued x next b) a ≡ links b a
  unfolding dequeued
  dequeued_link a ne = ground arith

  pub dequeued_data :
      (a : ℕ)
      → ((dequeued x next b).pool.message a).d1 ≡ (b.pool.message a).d1
        × ((dequeued x next b).pool.message a).d2 ≡ (b.pool.message a).d2
        × ((dequeued x next b).pool.message a).d3 ≡ (b.pool.message a).d3
  unfolding dequeued
  dequeued_data a = ground arith

  dequeued_tail_null : next ≡ 0 → (dequeued x next b).mbx.mq_tail ≡ 0
  unfolding dequeued
  dequeued_tail_null e = ground arith

  dequeued_tail : 0 < next → next ≤ nr_msg → (dequeued x next b).mbx.mq_tail ≡ b.mbx.mq_tail
  unfolding dequeued
  dequeued_tail v n = ground arith

  dequeued_head : (dequeued x next b).mbx.mq_head ≡ next
  unfolding dequeued
  dequeued_head = refl

  dequeued_count : (dequeued x next b).mbx.mq_count ≡ b.mbx.mq_count - 1
  unfolding dequeued
  dequeued_count = refl

  pub dequeue-dequeued :
      b.mbx.mq_head ≡ x
      → 0 < x
      → x ≤ nr_msg
      → links b x ≡ next
      → 0 < b.mbx.mq_count
      → mbx_dequeue_msg b ≡ ok (some x) (dequeued x next b)
  unfolding mbx_dequeue_msg dequeued
  dequeue-dequeued e v n l c = ground arith

pub dequeued-IsQueued :
    (x : ℕ) (xs : List ℕ) (b : Box)
    → IsQueued b (x ∷ xs)
    → IsQueued (dequeued x (head_or 0 xs) b) xs
dequeued-IsQueued x [] b q = record {
  head = dequeued_head x 0 b;
  tail = dequeued_tail_null x 0 b refl;
  line = tt;
  distinct = tt;
  handles = tt;
  counted = omega arith;
}
dequeued-IsQueued x (y ∷ ys) b q = record {
  head = dequeued_head x y b;
  tail = dequeued_tail x y b q.handles.2.0 q.handles.2.1 ∙ q.tail;
  line =
      Line-frame (links b) (links (dequeued x y b)) (y ∷ ys) 0
        (λ a i. dequeued_link x y b a (not-mem-ne x a (y ∷ ys) q.distinct.0 i)) q.line.1;
  distinct = q.distinct.1;
  handles = q.handles.2;
  counted = omega (arith, dequeued_count x y b, q.counted);
}

-- Taking a message from a well-formed queue `x ∷ xs` returns the oldest message `x`; the queue that is
-- left is `xs`, well formed, and no message changes its payload.
pub dequeue-oldest :
    (x : ℕ) (xs : List ℕ) (b : Box)
    → IsQueued b (x ∷ xs)
    → Returns
        (λ r c.
          (r ≡ some x)
          × IsQueued c xs
          × ((a : ℕ)
              → ((c.pool.message a).d1 ≡ (b.pool.message a).d1)
                × ((c.pool.message a).d2 ≡ (b.pool.message a).d2)
                × ((c.pool.message a).d3 ≡ (b.pool.message a).d3)))
        (mbx_dequeue_msg b)
dequeue-oldest x xs b q =
    rw
      (dequeue-dequeued x (head_or 0 xs) b q.head q.handles.0 q.handles.1 q.line.0
        (omega (arith, q.counted)))
      (refl, dequeued-IsQueued x xs b q, dequeued_data x (head_or 0 xs) b)

-- The mailbox with one message less on its count.
unfoldable pub uncounted : Box → Box
uncounted b = record b { mbx = record b.mbx { mq_count = b.mbx.mq_count - 1 } }

pub empty-zero : (b : Box) → (b.mbx.mq_count == 0) ≡ true → mbx_dequeue_msg b ≡ ok none b
unfolding mbx_dequeue_msg
empty-zero b e = rw e

pub empty-null :
    (b : Box)
    → (b.mbx.mq_count == 0) ≡ false
    → b.mbx.mq_head ≡ 0
    → mbx_dequeue_msg b ≡ ok none (uncounted b)
unfolding mbx_dequeue_msg uncounted
empty-null b e n = ground arith

pub uncounted-IsQueued : (b : Box) → IsQueued b [] → IsQueued (uncounted b) []
unfolding uncounted
uncounted-IsQueued b q = record {
  head = q.head;
  tail = q.tail;
  line = tt;
  distinct = tt;
  handles = tt;
  counted = omega arith;
}

pub uncounted_pool : (b : Box) → (uncounted b).pool ≡ b.pool
unfolding uncounted
uncounted_pool b = refl

-- An empty queue gives no message, whatever its count, and stays empty.
pub dequeue-empty :
    (b : Box)
    → IsQueued b []
    → Returns (λ r c. (r ≡ none) × IsQueued c [] × (c.pool ≡ b.pool)) (mbx_dequeue_msg b)
dequeue-empty b q = elim (Bool-cases (b.mbx.mq_count == 0)) [
  | inl e ↦ rw (empty-zero b e) (refl, q, refl)
  | inr e ↦ rw (empty-null b e q.head) (refl, uncounted-IsQueued b q, uncounted_pool b)
]
