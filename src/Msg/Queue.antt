-- ===== src/Msg/Queue.antt =====
-- The message queue of a mailbox: MBXQueueMsg and MBXDequeueMsg.
pub mod Shape
pub mod Dequeue
pub mod Append
pub mod Full
pub mod Room
pub mod Lock
use rf.Prelude.{
  ℕ, zero, suc, ◌+◌, ◌-◌, ◌%◌, ◌^◌, Bool, true, false, ◌&&◌, Option, none, some, ◌==◌, ltb,
  if◌then◌else◌,
}
use rf.Kernel.Config.{
  nr_msg, le_zero, out_of_range, e_ok, e_que_full, mqs_oldest, mqs_newest, max_uint,
}
use rf.Kernel.Run.{Run, ok, fault, spin, M, ◌>>=◌, ◌>>◌}
use rf.Kernel.Types.{Message, Mbx}
use rf.Kernel.State.{Pool, Box, at_msg}
use rf.Msg.Pool.{u32, free_msg}

-- `if (mbx->mq_missed < MAX_UINT) mbx->mq_missed++`, and one message less on the count.
unfoldable pub count_missed : Mbx → Mbx
count_missed m = record m {
  mq_missed = if ltb m.mq_missed max_uint then m.mq_missed + 1 else m.mq_missed;
  mq_count = u32 (m.mq_count + 2 ^ 32 - 1);
}

-- The loop of MQS_NEWEST, `fuel` rounds at most.
unfoldable pub drop_newest : (fuel : ℕ) → M Box (Unit {0})
drop_newest zero b = spin
drop_newest (suc fuel) b =
    let htmp = (b.pool.message b.mbx.mq_head).link in
    let rest = drop_newest fuel (record {
      pool = free_msg (some htmp) b.pool;
      mbx = record (count_missed b.mbx) { mq_head = htmp };
    }) in
    if ltb b.mbx.mq_size b.mbx.mq_count
    then if out_of_range nr_msg b.mbx.mq_head then fault else rest
    else ok tt b

-- The inner loop of MQS_OLDEST: from `tmpmsg` to the last message; the one before it, and it.
unfoldable pub find_last : (fuel msg tmpmsg : ℕ) → M Box (ℕ × ℕ)
find_last zero msg tmpmsg b = spin
find_last (suc fuel) msg tmpmsg b =
    if tmpmsg == b.mbx.mq_tail then ok (msg, tmpmsg) b else (elim (out_of_range nr_msg tmpmsg) [
      | true ↦ fault
      | false ↦ find_last fuel tmpmsg (b.pool.message tmpmsg).link b
    ])

-- The outer loop of MQS_OLDEST.
unfoldable pub drop_oldest : (fuel msg : ℕ) → M Box (Unit {0})
drop_oldest zero msg b = spin
drop_oldest (suc fuel) msg b =
    if ltb b.mbx.mq_size b.mbx.mq_count
    then (do
      (before, last) ← find_last (nr_msg + 1) msg b.mbx.mq_head
      λ c. drop_oldest fuel before (record {
        pool = free_msg (some last) c.pool;
        mbx = record (count_missed c.mbx) { mq_tail = before };
      }))
        b
    else ok tt b

-- MQS_OLDEST: the new message is given back if the queue is full; E_QueFull if any message is lost.
unfoldable pub keep_oldest : (msg : ℕ) → M Box ℕ
keep_oldest msg b =
    if ltb b.mbx.mq_size b.mbx.mq_count
    then (do drop_oldest (suc b.mbx.mq_count) msg; λ c. ok e_que_full c)
        (record { pool = free_msg (some msg) b.pool; mbx = count_missed b.mbx })
    else ok e_ok b

-- `msg` repeats the message `last`, whose repeat count has room.
unfoldable pub is_repeat : Message → Message → Bool
is_repeat msg last =
    msg.d1 % 0x1_0000 == last.d1 % 0x1_0000
    && (msg.d2 == last.d2 && (msg.d3 == last.d3 && ltb last.d1 0xffff_0000))

-- The message goes to the end of the queue, or counts as a repetition of the last one.
unfoldable pub append_msg : (rr msg : ℕ) → M Box ℕ
append_msg rr msg b =
    let tail = b.mbx.mq_tail in
    if le_zero tail
    then ok rr (record b {
      pool = at_msg msg (λ m. record m { link = 0 }) b.pool;
      mbx = record b.mbx { mq_head = msg; mq_tail = msg };
    })
    else if out_of_range nr_msg tail
    then fault
    else if is_repeat (b.pool.message msg) (b.pool.message tail)
    then ok rr (record b {
      pool = free_msg (some msg) (at_msg tail (λ m. record m { d1 = m.d1 + 0x1_0000 }) b.pool);
    })
    else ok rr (record b {
      pool =
          at_msg msg (λ m. record m { link = 0 })
            (at_msg tail (λ m. record m { link = msg }) b.pool);
      mbx = record b.mbx { mq_tail = msg };
    })

-- `mbx->mq_count++`
unfoldable pub count_in : Box → Box
count_in b = record b { mbx = record b.mbx { mq_count = u32 (b.mbx.mq_count + 1) } }

-- MBXQueueMsg after the count, for a message that is not null.
unfoldable pub queue_counted : (m : ℕ) → M Box ℕ
queue_counted m b =
    if b.mbx.mq_strategy == mqs_newest
    then (do
      drop_newest (suc b.mbx.mq_count)
      append_msg (if ltb b.mbx.mq_size b.mbx.mq_count then e_que_full else e_ok) m)
        b
    else if b.mbx.mq_strategy == mqs_oldest
    then (do rr ← keep_oldest m; if rr == e_que_full then ok rr else append_msg rr m) b
    else append_msg e_ok m b

-- MBXQueueMsg. The message pointer is followed, so a null one is a fault.
unfoldable pub mbx_queue_msg : (msg : Option ℕ) → M Box ℕ
mbx_queue_msg msg b = elim msg [ none ↦ fault | some m ↦ queue_counted m (count_in b) ]

-- MBXDequeueMsg: the first message, its link set to itself.
unfoldable pub mbx_dequeue_msg : M Box (Option ℕ)
mbx_dequeue_msg b =
    if b.mbx.mq_count == 0
    then ok none b
    else (let count = b.mbx.mq_count - 1 in
        let hm = b.mbx.mq_head in
        if le_zero hm
        then ok none (record b { mbx = record b.mbx { mq_count = count } })
        else (if out_of_range nr_msg hm
            then fault
            else (let next = (b.pool.message hm).link in
                ok (some hm) (record {
                  pool = at_msg hm (λ m. record m { link = hm }) b.pool;
                  mbx = record b.mbx {
                    mq_count = count;
                    mq_head = next;
                    mq_tail = if le_zero next then 0 else b.mbx.mq_tail;
                  };
                }))))
