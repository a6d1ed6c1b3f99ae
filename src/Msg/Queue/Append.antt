-- ===== src/Msg/Queue/Append.antt =====
-- MBXQueueMsg on a queue with room: the message goes to the end, or counts as a repetition.
use rf.Prelude.{
  ℕ, suc, ◌+◌, ◌^◌, ◌≤◌, ◌<◌, ◌≡◌, ap, ◌∙◌, true, false, some, arith, ◌==◌, Bool-cases, inl, inr,
  le→not_ltb,
}
use rf.Kernel.Config.{nr_msg, e_ok, mqs_oldest, mqs_newest}
use rf.Kernel.Run.{ok}
use rf.Kernel.State.{Box, at_msg}
use rf.Msg.Pool.{u32, free_msg}
use rf.Msg.Queue.{
  mbx_queue_msg, count_in, queue_counted, append_msg, is_repeat, drop_newest, keep_oldest,
}

-- The mailbox with one message more on its count, where that does not wrap.
unfoldable pub counted_in : Box → Box
counted_in b = record b { mbx = record b.mbx { mq_count = b.mbx.mq_count + 1 } }

-- The queue has room for one message more, or no limit.
abbrev pub HasRoom : Box → Type 0
HasRoom b = b.mbx.mq_count + 1 ≤ b.mbx.mq_size

-- `m` alone in the queue, and `m` behind the last message.
unfoldable pub alone : (m : ℕ) → Box → Box
alone m b = record b {
  pool = at_msg m (λ x. record x { link = 0 }) b.pool;
  mbx = record b.mbx { mq_count = b.mbx.mq_count + 1; mq_head = m; mq_tail = m };
}

unfoldable pub appended : (m last : ℕ) → Box → Box
appended m last b = record b {
  pool = at_msg m (λ x. record x { link = 0 }) (at_msg last (λ x. record x { link = m }) b.pool);
  mbx = record b.mbx { mq_count = b.mbx.mq_count + 1; mq_tail = m };
}

-- `m` counts as a repetition of the last message, and is given back.
unfoldable pub repeated : (m last : ℕ) → Box → Box
repeated m last b = record b {
  pool = free_msg (some m) (at_msg last (λ x. record x { d1 = x.d1 + 0x1_0000 }) b.pool);
  mbx = record b.mbx { mq_count = b.mbx.mq_count + 1 };
}

pub u32-small : (n : ℕ) → n < 2 ^ 32 → u32 n ≡ n
u32-small n h = omega arith

module _ (m : ℕ) (c : Box) (room : c.mbx.mq_count ≤ c.mbx.mq_size) where
  room-drop_newest : (fuel : ℕ) → drop_newest (suc fuel) c ≡ ok tt c
  unfolding drop_newest
  room-drop_newest fuel = rw (le→not_ltb c.mbx.mq_size c.mbx.mq_count room)

  room-keep_oldest : keep_oldest m c ≡ ok e_ok c
  unfolding keep_oldest
  room-keep_oldest = rw (le→not_ltb c.mbx.mq_size c.mbx.mq_count room)

  room-queue_counted : queue_counted m c ≡ append_msg e_ok m c
  unfolding queue_counted
  room-queue_counted = elim (Bool-cases (c.mbx.mq_strategy == mqs_newest)) [
    | inl e ↦
        rw e
          (rw (room-drop_newest c.mbx.mq_count) (rw (le→not_ltb c.mbx.mq_size c.mbx.mq_count room)))
    | inr n ↦ elim (Bool-cases (c.mbx.mq_strategy == mqs_oldest)) [
      | inl e ↦ rw n (rw e (rw room-keep_oldest))
      | inr o ↦ rw n (rw o)
    ]
  ]

module _ (m : ℕ) (b : Box) where
  pub count_in-counted : b.mbx.mq_count + 1 < 2 ^ 32 → count_in b ≡ counted_in b
  unfolding count_in counted_in
  count_in-counted small =
      ap (λ n. record b { mbx = record b.mbx { mq_count = n } })
        (u32-small (b.mbx.mq_count + 1) small)

  pub room-appends :
      b.mbx.mq_count + 1 < 2 ^ 32
      → HasRoom b
      → mbx_queue_msg (some m) b ≡ append_msg e_ok m (counted_in b)
  unfolding mbx_queue_msg counted_in
  room-appends small room =
      ap (queue_counted m) (count_in-counted small)
      ∙ room-queue_counted m (counted_in b) (counted_room room)
    where
      counted_room : HasRoom b → (counted_in b).mbx.mq_count ≤ (counted_in b).mbx.mq_size
      counted_room r = r

  pub append-alone : b.mbx.mq_tail ≡ 0 → append_msg e_ok m (counted_in b) ≡ ok e_ok (alone m b)
  unfolding append_msg counted_in alone
  append-alone e = ground arith

  pub append-appended :
      (last : ℕ)
      → b.mbx.mq_tail ≡ last
      → 0 < last
      → last ≤ nr_msg
      → is_repeat (b.pool.message m) (b.pool.message last) ≡ false
      → append_msg e_ok m (counted_in b) ≡ ok e_ok (appended m last b)
  unfolding append_msg counted_in appended
  append-appended last e v n r = ground arith

  pub append-repeated :
      (last : ℕ)
      → b.mbx.mq_tail ≡ last
      → 0 < last
      → last ≤ nr_msg
      → is_repeat (b.pool.message m) (b.pool.message last) ≡ true
      → append_msg e_ok m (counted_in b) ≡ ok e_ok (repeated m last b)
  unfolding append_msg counted_in repeated
  append-repeated last e v n r = ground arith
