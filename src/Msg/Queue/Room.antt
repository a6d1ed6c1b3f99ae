-- ===== src/Msg/Queue/Room.antt =====
-- What MBXQueueMsg does to the list of messages of a mailbox that has room.
use rf.Prelude.{
  ℕ, ◌+◌, ◌^◌, ◌≤◌, ◌<◌, ◌≡◌, refl, sym, ◌∙◌, true, false, some, List, [], ◌∷◌, ◌++◌, arith, ◌==◌,
  Bool, last_or, length-append, ◌∉◌, not-mem-ne, last_or-mem, last_or-append, Handles-append,
  Handles-mem, IsDistinct-append, not-mem-one, ne_comm,
}
use rf.Kernel.Config.{nr_msg, e_ok}
use rf.Kernel.Run.{Returns}
use rf.Kernel.State.{Box}
use rf.Msg.Pool.{free_msg}
use rf.Msg.Queue.{mbx_queue_msg, is_repeat}
use rf.Msg.Queue.Shape.{links, IsQueued, Line-frame, Line-snoc}
use rf.Msg.Queue.Append.{
  HasRoom, alone, appended, repeated, room-appends, append-alone, append-appended, append-repeated,
}

-- The message `m` repeats the last one of the queue.
abbrev pub repeats : (m : ℕ) → Box → List ℕ → Bool
repeats m b [] = false
repeats m b (x ∷ xs) = is_repeat (b.pool.message m) (b.pool.message (last_or x xs))

abbrev pub SameData : Box → Box → Type 0
SameData b c =
    (a : ℕ)
    → ((c.pool.message a).d1 ≡ (b.pool.message a).d1)
      × ((c.pool.message a).d2 ≡ (b.pool.message a).d2)
      × ((c.pool.message a).d3 ≡ (b.pool.message a).d3)

module _ (m : ℕ) (b : Box) where
  alone_data : SameData b (alone m b)
  unfolding alone
  alone_data a = ground arith

  alone-IsQueued : 0 < m → m ≤ nr_msg → IsQueued (alone m b) (m ∷ [])
  unfolding alone
  alone-IsQueued v n = record {
    head = refl;
    tail = refl;
    line = (ground arith, tt);
    distinct = (refl, tt);
    handles = (v, n, tt);
    counted = omega arith;
  }

  appended_data : (last : ℕ) → SameData b (appended m last b)
  unfolding appended
  appended_data last a = ground arith

  appended_link : (last : ℕ) → (m == last) ≡ false → links (appended m last b) last ≡ m
  unfolding appended
  appended_link last ne = ground arith

  appended_self : (last : ℕ) → links (appended m last b) m ≡ 0
  unfolding appended
  appended_self last = ground arith

  appended_other :
      (last a : ℕ)
      → (m == a) ≡ false
      → (last == a) ≡ false
      → links (appended m last b) a ≡ links b a
  unfolding appended
  appended_other last a e f = ground arith

  appended_mbx :
      (last : ℕ)
      → ((appended m last b).mbx.mq_head ≡ b.mbx.mq_head)
        × ((appended m last b).mbx.mq_tail ≡ m)
        × ((appended m last b).mbx.mq_count ≡ b.mbx.mq_count + 1)
  unfolding appended
  appended_mbx last = (refl, refl, refl)

  repeated_link : (last a : ℕ) → (m == a) ≡ false → links (repeated m last b) a ≡ links b a
  unfolding repeated free_msg
  repeated_link last a ne = ground arith

  repeated_mbx :
      (last : ℕ)
      → ((repeated m last b).mbx.mq_head ≡ b.mbx.mq_head)
        × ((repeated m last b).mbx.mq_tail ≡ b.mbx.mq_tail)
        × ((repeated m last b).mbx.mq_count ≡ b.mbx.mq_count + 1)
  unfolding repeated
  repeated_mbx last = (refl, refl, refl)

  repeated_pool :
      (last : ℕ)
      → 0 < m
      → m ≤ nr_msg
      → (m == last) ≡ false
      → ((repeated m last b).pool.free_msg ≡ m)
        × (links (repeated m last b) m ≡ b.pool.free_msg)
        × (((repeated m last b).pool.message last).d1 ≡ (b.pool.message last).d1 + 0x1_0000)
  unfolding repeated free_msg
  repeated_pool last v n ne = ground arith

  module _ (x : ℕ) (xs : List ℕ) (v : 0 < m) (n : m ≤ nr_msg) (q : IsQueued b (x ∷ xs))
      (out : m ∉ x ∷ xs) where
    last : ℕ
    last = last_or x xs

    last-ne : (m == last_or x xs) ≡ false
    last-ne = not-mem-ne m (last_or x xs) (x ∷ xs) out (last_or-mem x xs)

    appended-IsQueued : IsQueued (appended m (last_or x xs) b) (x ∷ xs ++ m ∷ [])
    appended-IsQueued = record {
      head = (appended_mbx (last_or x xs)).0 ∙ q.head;
      tail = (appended_mbx (last_or x xs)).1 ∙ sym (last_or-append x m xs []);
      line =
          Line-snoc (links b) (links (appended m (last_or x xs) b)) x xs m 0 0 q.distinct
            (appended_link (last_or x xs) last-ne) (appended_self (last_or x xs))
            (λ a i ne.
              appended_other (last_or x xs) a (not-mem-ne m a (x ∷ xs) out i)
                (ne_comm a (last_or x xs) ne))
            q.line;
      distinct =
          IsDistinct-append (x ∷ xs) (m ∷ []) q.distinct (refl, tt)
            (λ a i. not-mem-one a m (ne_comm m a (not-mem-ne m a (x ∷ xs) out i)));
      handles = Handles-append nr_msg (x ∷ xs) (m ∷ []) q.handles (v, n, tt);
      counted =
          omega
            (arith, length-append (x ∷ xs) (m ∷ []), q.counted, (appended_mbx (last_or x xs)).2);
    }

    repeated-IsQueued : IsQueued (repeated m (last_or x xs) b) (x ∷ xs)
    repeated-IsQueued = record {
      head = (repeated_mbx (last_or x xs)).0 ∙ q.head;
      tail = (repeated_mbx (last_or x xs)).1 ∙ q.tail;
      line =
          Line-frame (links b) (links (repeated m (last_or x xs) b)) (x ∷ xs) 0
            (λ a i. repeated_link (last_or x xs) a (not-mem-ne m a (x ∷ xs) out i)) q.line;
      distinct = q.distinct;
      handles = q.handles;
      counted = omega (arith, q.counted, (repeated_mbx (last_or x xs)).2);
    }

-- A message that does not repeat the last one, put in a well-formed queue with room, becomes the last
-- message of the queue. The call returns E_Ok, and no message changes its payload.
pub queue-appends :
    (m : ℕ) (b : Box) (xs : List ℕ)
    → 0 < m
    → m ≤ nr_msg
    → IsQueued b xs
    → m ∉ xs
    → b.mbx.mq_count + 1 < 2 ^ 32
    → HasRoom b
    → repeats m b xs ≡ false
    → Returns
        (λ r c. (r ≡ e_ok) × IsQueued c (xs ++ m ∷ []) × SameData b c)
        (mbx_queue_msg (some m) b)
queue-appends m b [] v n q out small room fresh =
    rw (room-appends m b small room)
      (rw (append-alone m b q.tail) (refl, alone-IsQueued m b v n, alone_data m b))
queue-appends m b (x ∷ xs) v n q out small room fresh =
    let l = Handles-mem nr_msg (x ∷ xs) (last_or x xs) q.handles (last_or-mem x xs) in
    rw (room-appends m b small room) (
      rw (append-appended m b (last_or x xs) q.tail l.0 l.1 fresh)
        (refl, appended-IsQueued m b x xs v n q out, appended_data m b (last_or x xs)))

-- A message that repeats the last one of a well-formed queue with room is not kept: the repeat count
-- of the last message goes up by one, the queue stays, and the message is first on the free list.
pub queue-repeats :
    (m : ℕ) (b : Box) (x : ℕ) (xs : List ℕ)
    → 0 < m
    → m ≤ nr_msg
    → IsQueued b (x ∷ xs)
    → m ∉ x ∷ xs
    → b.mbx.mq_count + 1 < 2 ^ 32
    → HasRoom b
    → repeats m b (x ∷ xs) ≡ true
    → Returns
        (λ r c.
          let last = last_or x xs in
          (r ≡ e_ok)
          × IsQueued c (x ∷ xs)
          × ((c.pool.free_msg ≡ m)
              × (links c m ≡ b.pool.free_msg)
              × ((c.pool.message last).d1 ≡ (b.pool.message last).d1 + 0x1_0000)))
        (mbx_queue_msg (some m) b)
queue-repeats m b x xs v n q out small room again =
    let l = Handles-mem nr_msg (x ∷ xs) (last_or x xs) q.handles (last_or-mem x xs) in
    rw (room-appends m b small room) (
      rw (append-repeated m b (last_or x xs) q.tail l.0 l.1 again) (
        refl,
        repeated-IsQueued m b x xs v n q out,
        repeated_pool m b (last_or x xs) v n (last-ne m b x xs v n q out),
      ))
