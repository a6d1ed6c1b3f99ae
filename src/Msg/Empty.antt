-- ===== src/Msg/Empty.antt =====
-- The loop that gives back every message of a mailbox, in FMTK_EmptyMbx and FMTK_FreeMbx.
pub mod Call
use mathlib.Core.Path.{subst}
use rf.Prelude.{
  ℕ, zero, suc, ◌+◌, ◌≤◌, ◌<◌, ◌≡◌, refl, sym, ap, ◌∙◌, true, false, none, some, List, [], ◌∷◌,
  ◌++◌, arith, ◌==◌, if◌then◌else◌, update, head_or, length, ◌∈◌, ◌∉◌, IsDistinct, IsDistinct-right,
  IsDistinct-insert, IsDistinct-left, not-mem-ne, not-mem-left, not-mem-right, eq_self, Bool-cases,
  inl, inr,
}
use rf.Kernel.Config.{nr_msg}
use rf.Kernel.Run.{Returns, ok}
use rf.Kernel.State.{Kernel, Pool, Box}
use rf.Kernel.Parts.{on_box}
use rf.Msg.Pool.{free_msg}
use rf.Msg.Queue.{mbx_dequeue_msg}
use rf.Msg.Queue.Shape.{links, Line, Line-frame, IsQueued}
use rf.Msg.Queue.Dequeue.{
  dequeued, dequeued_link, dequeued-IsQueued, dequeue-dequeued, uncounted, empty-zero, empty-null,
  uncounted-IsQueued, uncounted_pool,
}
use rf.Msg.Mailbox.{free_queued}

-- The mailbox `m` with the message pool.
abbrev pub box : ℕ → Kernel → Box
box m k = record { pool = k.pool; mbx = k.mbx m }

-- `fs` are the free messages, in order.
pub record IsFree (b : Box) (fs : List ℕ) : Type 0 where
  pub head : b.pool.free_msg ≡ head_or 0 fs
  pub line : Line (links b) fs 0

-- The elements of the first list in front of the second, the last one first.
abbrev pub reverse_onto : List ℕ → List ℕ → List ℕ
reverse_onto [] fs = fs
reverse_onto (x ∷ xs) fs = reverse_onto xs (x ∷ fs)

-- The mailbox after its first message `x`, which `next` follows, was taken and given back.
unfoldable pub drained : (x next : ℕ) → Box → Box
drained x next b =
    let d = dequeued x next b in record { pool = free_msg (some x) d.pool; mbx = d.mbx }

module _ (x next : ℕ) (b : Box) where
  drained_link :
      (a : ℕ) → (x == a) ≡ false → links (drained x next b) a ≡ links (dequeued x next b) a
  unfolding drained free_msg
  drained_link a ne = ground arith

  drained_free :
      0 < x
      → x ≤ nr_msg
      → ((drained x next b).pool.free_msg ≡ x) × (links (drained x next b) x ≡ b.pool.free_msg)
  unfolding drained free_msg dequeued
  drained_free v n = ground arith

  drained_mbx : (drained x next b).mbx ≡ (dequeued x next b).mbx
  unfolding drained
  drained_mbx = refl

drained-IsQueued :
    (x : ℕ) (xs : List ℕ) (b : Box) → IsQueued b (x ∷ xs) → IsQueued (drained x (head_or 0 xs) b) xs
unfolding drained
drained-IsQueued x xs b q =
    let n : ℕ = head_or 0 xs in
    let r = dequeued-IsQueued x xs b q in
    record {
      head = r.head;
      tail = r.tail;
      line =
          Line-frame (links (dequeued x n b)) (links (drained x n b)) xs 0
            (λ a i. drained_link x n b a (not-mem-ne x a xs q.distinct.0 i)) r.line;
      distinct = r.distinct;
      handles = r.handles;
      counted = r.counted;
    }

drained-IsFree :
    (x next : ℕ) (fs : List ℕ) (b : Box)
    → 0 < x
    → x ≤ nr_msg
    → x ∉ fs
    → IsFree b fs
    → IsFree (drained x next b) (x ∷ fs)
drained-IsFree x next fs b v n out f = record {
  head = (drained_free x next b v n).0;
  line = (
    (drained_free x next b v n).1 ∙ f.head,
    Line-frame (links b) (links (drained x next b)) fs 0
        (λ a i.
          drained_link x next b a (not-mem-ne x a fs out i)
          ∙ dequeued_link x next b a (not-mem-ne x a fs out i))
        f.line,
  );
}

-- The kernel after one round of the loop.
after_round : (m x next : ℕ) → Kernel → Kernel
after_round m x next k =
    let d = dequeued x next (box m k) in
    record k { pool = free_msg (some x) d.pool; mbx = update k.mbx m d.mbx }

box-after_round :
    (m x next : ℕ) (k : Kernel) → box m (after_round m x next k) ≡ drained x next (box m k)
unfolding after_round drained
box-after_round m x next k =
    let d = dequeued x next (box m k) in
    ap (λ t. record { pool = free_msg (some x) d.pool; mbx = if t then d.mbx else k.mbx m })
      (eq_self m)

-- What the loop leaves: an empty queue, and its messages at the front of the free list.
abbrev pub Emptied : (m : ℕ) (fs : List ℕ) → Unit {0} → Kernel → Type 0
Emptied m fs r c = IsQueued (box m c) [] × IsFree (box m c) fs

round :
    (fuel m x next : ℕ) (k : Kernel)
    → mbx_dequeue_msg (box m k) ≡ ok (some x) (dequeued x next (box m k))
    → free_queued (suc fuel) m k ≡ free_queued fuel m (after_round m x next k)
unfolding free_queued on_box after_round
round fuel m x next k e = rw e

-- The kernel with the mailbox `m` and the pool as in `b`.
abbrev pub with_box : ℕ → Box → Kernel → Kernel
with_box m b k = record k { pool = b.pool; mbx = update k.mbx m b.mbx }

box-with_box : (m : ℕ) (b : Box) (k : Kernel) → box m (with_box m b k) ≡ b
box-with_box m b k =
    ap (λ t. record { pool = b.pool; mbx = if t then b.mbx else k.mbx m }) (eq_self m)

stop :
    (fuel m : ℕ) (k : Kernel) (b : Box)
    → mbx_dequeue_msg (box m k) ≡ ok none b
    → free_queued (suc fuel) m k ≡ ok tt (with_box m b k)
unfolding free_queued on_box
stop fuel m k b e = rw e

stopped-Emptied :
    (m : ℕ) (k : Kernel) (b : Box) (fs : List ℕ)
    → IsQueued b []
    → IsFree b fs
    → Emptied m fs tt (with_box m b k)
stopped-Emptied m k b fs q f = (
  subst (λ d. IsQueued d []) (sym (box-with_box m b k)) q,
  subst (λ d. IsFree d fs) (sym (box-with_box m b k)) f,
)

empty-stops :
    (fuel m : ℕ) (k : Kernel) (fs : List ℕ)
    → IsQueued (box m k) []
    → IsFree (box m k) fs
    → Returns (Emptied m fs) (free_queued (suc fuel) m k)
unfolding uncounted
empty-stops fuel m k fs q f = elim (Bool-cases ((k.mbx m).mq_count == 0)) [
  | inl e ↦
      rw (stop fuel m k (box m k) (empty-zero (box m k) e)) (stopped-Emptied m k (box m k) fs q f)
  | inr e ↦ rw (stop fuel m k (uncounted (box m k)) (empty-null (box m k) e q.head)) (
      stopped-Emptied m k (uncounted (box m k)) fs (uncounted-IsQueued (box m k) q)
        (uncounted-IsFree (box m k) fs f))
]
  where
    uncounted-IsFree : (b : Box) (gs : List ℕ) → IsFree b gs → IsFree (uncounted b) gs
    uncounted-IsFree b gs g = record { head = g.head; line = g.line }

-- With one round more than there are messages, the loop ends: the queue of the mailbox is empty then,
-- and its messages are at the front of the free list, the last one first.
pub free_queued-empties :
    (fuel m : ℕ) (k : Kernel) (xs fs : List ℕ)
    → IsQueued (box m k) xs
    → IsFree (box m k) fs
    → IsDistinct (xs ++ fs)
    → length xs < fuel
    → Returns (Emptied m (reverse_onto xs fs)) (free_queued fuel m k)
free_queued-empties zero m k xs fs q f d lt = absurd (omega arith)
free_queued-empties (suc fuel) m k [] fs q f d lt = empty-stops fuel m k fs q f
free_queued-empties (suc fuel) m k (x ∷ xs) fs q f d lt =
    let b = box m k in
    let n : ℕ = head_or 0 xs in
    let same = box-after_round m x n k in
    rw
      (round fuel m x n k
        (dequeue-dequeued x n b q.head q.handles.0 q.handles.1 q.line.0 (omega (arith, q.counted))))
      (free_queued-empties fuel m (after_round m x n k) xs (x ∷ fs)
        (subst (λ c. IsQueued c xs) (sym same) (drained-IsQueued x xs b q))
        (subst (λ c. IsFree c (x ∷ fs)) (sym same)
          (drained-IsFree x n fs b q.handles.0 q.handles.1 (not-mem-right x xs fs d.0) f))
        (IsDistinct-insert x xs fs d.1 d.0) (omega arith))
