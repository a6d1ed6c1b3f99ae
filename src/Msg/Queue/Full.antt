-- ===== src/Msg/Queue/Full.antt =====
-- MBXQueueMsg on a full queue that keeps its oldest messages (MQS_OLDEST).
use rf.Prelude.{
  ℕ, suc, ◌+◌, ◌-◌, ◌^◌, ◌≤◌, ◌<◌, ◌≡◌, refl, ap, ◌∙◌, true, false, some, List, arith, ◌==◌, ltb,
  if◌then◌else◌, ◌∉◌, not-mem-ne, lt→ltb, le→not_ltb,
}
use rf.Kernel.Config.{nr_msg, e_que_full, mqs_oldest, mqs_newest, max_uint}
use rf.Kernel.Run.{Returns, ok}
use rf.Kernel.State.{Box}
use rf.Msg.Pool.{u32, free_msg}
use rf.Msg.Queue.{mbx_queue_msg, queue_counted, count_missed, keep_oldest, drop_oldest}
use rf.Msg.Queue.Shape.{links, IsQueued, Line-frame}
use rf.Msg.Queue.Append.{counted_in, count_in-counted}

-- The mailbox after the new message `m` was given back and counted as missed.
unfoldable pub rejected : (m : ℕ) → Box → Box
rejected m b = record {
  pool = free_msg (some m) b.pool;
  mbx = record b.mbx {
    mq_missed = if ltb b.mbx.mq_missed max_uint then b.mbx.mq_missed + 1 else b.mbx.mq_missed;
  };
}

module _ (m : ℕ) (b : Box) where
  missed-rejected :
      b.mbx.mq_count < 2 ^ 32
      → record { pool = free_msg (some m) b.pool; mbx = count_missed (counted_in b).mbx }
        ≡ rejected m b
  unfolding count_missed counted_in rejected
  missed-rejected small =
      ap
        (λ n. record {
          pool = free_msg (some m) b.pool;
          mbx = record b.mbx {
            mq_missed =
                if ltb b.mbx.mq_missed max_uint then b.mbx.mq_missed + 1 else b.mbx.mq_missed;
            mq_count = n;
          };
        })
        wrapped
    where
      wrapped : u32 (b.mbx.mq_count + 1 + 2 ^ 32 - 1) ≡ b.mbx.mq_count
      wrapped = omega arith

  drop_oldest-full :
      (fuel : ℕ)
      → b.mbx.mq_count ≤ b.mbx.mq_size
      → drop_oldest (suc fuel) m (rejected m b) ≡ ok tt (rejected m b)
  unfolding drop_oldest rejected
  drop_oldest-full fuel le = rw (le→not_ltb b.mbx.mq_size b.mbx.mq_count le)

  keep_oldest-full :
      b.mbx.mq_count < 2 ^ 32
      → b.mbx.mq_count ≤ b.mbx.mq_size
      → b.mbx.mq_size < b.mbx.mq_count + 1
      → keep_oldest m (counted_in b) ≡ ok e_que_full (rejected m b)
  unfolding keep_oldest counted_in
  keep_oldest-full small le full =
      rw (lt→ltb b.mbx.mq_size (b.mbx.mq_count + 1) full)
        (rw (missed-rejected small) (rw (drop_oldest-full (b.mbx.mq_count + 1) le)))

  is_oldest :
      b.mbx.mq_strategy ≡ mqs_oldest
      → (((counted_in b).mbx.mq_strategy == mqs_newest) ≡ false)
        × (((counted_in b).mbx.mq_strategy == mqs_oldest) ≡ true)
  unfolding counted_in
  is_oldest s = (ap (λ n. n == mqs_newest) s, ap (λ n. n == mqs_oldest) s)

  queue_counted-full :
      b.mbx.mq_strategy ≡ mqs_oldest
      → b.mbx.mq_count < 2 ^ 32
      → b.mbx.mq_count ≤ b.mbx.mq_size
      → b.mbx.mq_size < b.mbx.mq_count + 1
      → queue_counted m (counted_in b) ≡ ok e_que_full (rejected m b)
  unfolding queue_counted
  queue_counted-full s small le full =
      rw (is_oldest s).0 (rw (is_oldest s).1 (rw (keep_oldest-full small le full)))

  queue-rejected :
      b.mbx.mq_strategy ≡ mqs_oldest
      → b.mbx.mq_count + 1 < 2 ^ 32
      → b.mbx.mq_count ≤ b.mbx.mq_size
      → b.mbx.mq_size < b.mbx.mq_count + 1
      → mbx_queue_msg (some m) b ≡ ok e_que_full (rejected m b)
  unfolding mbx_queue_msg
  queue-rejected s small le full =
      ap (queue_counted m) (count_in-counted m b small) ∙ queue_counted-full s (omega arith) le full

  rejected_link : (a : ℕ) → (m == a) ≡ false → links (rejected m b) a ≡ links b a
  unfolding rejected free_msg
  rejected_link a ne = ground arith

  rejected_mbx :
      ((rejected m b).mbx.mq_head ≡ b.mbx.mq_head)
      × ((rejected m b).mbx.mq_tail ≡ b.mbx.mq_tail)
      × ((rejected m b).mbx.mq_count ≡ b.mbx.mq_count)
  unfolding rejected
  rejected_mbx = (refl, refl, refl)

  rejected_missed : b.mbx.mq_missed < max_uint → (rejected m b).mbx.mq_missed ≡ b.mbx.mq_missed + 1
  unfolding rejected
  rejected_missed lt = rw (lt→ltb b.mbx.mq_missed max_uint lt)

  rejected_pool :
      0 < m
      → m ≤ nr_msg
      → ((rejected m b).pool.free_msg ≡ m) × (links (rejected m b) m ≡ b.pool.free_msg)
  unfolding rejected free_msg
  rejected_pool v n = ground arith

  rejected-IsQueued : (xs : List ℕ) → IsQueued b xs → m ∉ xs → IsQueued (rejected m b) xs
  rejected-IsQueued xs q out = record {
    head = rejected_mbx.0 ∙ q.head;
    tail = rejected_mbx.1 ∙ q.tail;
    line =
        Line-frame (links b) (links (rejected m b)) xs 0
          (λ a i. rejected_link a (not-mem-ne m a xs out i)) q.line;
    distinct = q.distinct;
    handles = q.handles;
    counted = omega (arith, q.counted, rejected_mbx.2);
  }

-- A message for a full queue of the strategy MQS_OLDEST is refused with E_QueFull: the queue stays as
-- it is, the message is first on the free list, and the count of missed messages goes up by one.
pub queue-refuses :
    (m : ℕ) (b : Box) (xs : List ℕ)
    → 0 < m
    → m ≤ nr_msg
    → IsQueued b xs
    → m ∉ xs
    → b.mbx.mq_strategy ≡ mqs_oldest
    → b.mbx.mq_count + 1 < 2 ^ 32
    → b.mbx.mq_count ≡ b.mbx.mq_size
    → b.mbx.mq_missed < max_uint
    → Returns
        (λ r c.
          (r ≡ e_que_full)
          × IsQueued c xs
          × ((c.pool.free_msg ≡ m) × (links c m ≡ b.pool.free_msg))
          × (c.mbx.mq_missed ≡ b.mbx.mq_missed + 1))
        (mbx_queue_msg (some m) b)
queue-refuses m b xs v n q out s small full lt =
    rw (queue-rejected m b s small (omega arith) (omega arith))
      (refl, rejected-IsQueued m b xs q out, rejected_pool m b v n, rejected_missed m b lt)
