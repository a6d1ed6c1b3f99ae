-- ===== src/Tcb/Ready/Remove/Queue.antt =====
-- The queue of the removed thread, and the other queues, after TCBRemoveFromReadyQueue.
use rf.Prelude.{
  ℕ, ◌≡◌, ◌∙◌, false, List, [], ◌∷◌, ◌++◌, ◌==◌, head_or, last_or, ◌∈◌, IsDistinct-remove,
  Handles-append, Handles-left, Handles-right, not-mem-ne, not-mem-middle, mem-remove, ne_comm,
  last_or-mem, head_or-mem, mem-head, mem-tail, mem-left,
}
use rf.Kernel.Config.{nr_tcb}
use rf.Kernel.State.{Tasks}
use rf.Links.Ring.{Ring-remove_inner, Ring-remove_first}
use rf.Tcb.Ready.Shape.{nexts, prevs, priorities, IsQueue, IsQueue-frame, levels-ne}
use rf.Tcb.Ready.Remove.{
  unlinked, unlinked_next, unlinked_next_other, unlinked_prev, unlinked_prev_other,
  unlinked_priority, unlinked_head, unlinked_ready, emptied, emptied_head, emptied_ready,
  emptied_other, emptied_priority,
}

module _ (h pri : ℕ) (s : Tasks) where
  -- A thread that is not the first leaves between its neighbours.
  pub inner-IsQueue :
      (x : ℕ) (xs ys : List ℕ)
      → IsQueue s pri (x ∷ xs ++ h ∷ ys)
      → IsQueue (unlinked h (head_or x ys) (last_or x xs) pri x s) pri (x ∷ xs ++ ys)
  inner-IsQueue x xs ys q = record {
    head = unlinked_head h n p pri x s;
    ring =
        Ring-remove_inner (nexts s) (prevs s) (nexts t) (prevs t) h x xs ys q.distinct
          (unlinked_prev h n p pri x s (stays n (head_or-mem x xs ys)))
          (unlinked_next h n p pri x s (stays p (mem-left p (x ∷ xs) ys (last_or-mem x xs))))
          (λ a i. unlinked_prev_other h n p pri x s a (stays a i))
          (λ a i. unlinked_next_other h n p pri x s a (stays a i)) q.ring;
    distinct = IsDistinct-remove h (x ∷ xs) ys q.distinct;
    handles =
        Handles-append nr_tcb (x ∷ xs) ys (Handles-left nr_tcb (x ∷ xs) (h ∷ ys) q.handles)
          (Handles-right nr_tcb (x ∷ xs) (h ∷ ys) q.handles).2;
    level = λ a i. unlinked_priority h n p pri x s a ∙ q.level a (mem-remove a h (x ∷ xs) ys i);
  }
    where
      n : ℕ
      n = head_or x ys

      p : ℕ
      p = last_or x xs

      t : Tasks
      t = unlinked h n p pri x s

      stays : (a : ℕ) → a ∈ x ∷ xs ++ ys → (h == a) ≡ false
      stays a i = not-mem-ne h a (x ∷ xs ++ ys) (not-mem-middle h (x ∷ xs) ys q.distinct) i

  -- The first thread leaves, and the second becomes the first.
  pub first-IsQueue :
      (y : ℕ) (ys : List ℕ)
      → IsQueue s pri (h ∷ y ∷ ys)
      → IsQueue (unlinked h y (last_or y ys) pri y s) pri (y ∷ ys)
  first-IsQueue y ys q = record {
    head = unlinked_head h y p pri y s;
    ring =
        Ring-remove_first (nexts s) (prevs s) (nexts t) (prevs t) h y ys q.distinct
          (unlinked_prev h y p pri y s (stays y (mem-head y ys)))
          (unlinked_next h y p pri y s (stays p (last_or-mem y ys)))
          (λ a i. unlinked_prev_other h y p pri y s a (stays a i))
          (λ a i. unlinked_next_other h y p pri y s a (stays a i)) q.ring;
    distinct = q.distinct.1;
    handles = q.handles.2;
    level = λ a i. unlinked_priority h y p pri y s a ∙ q.level a (mem-tail a h (y ∷ ys) i);
  }
    where
      p : ℕ
      p = last_or y ys

      t : Tasks
      t = unlinked h y p pri y s

      stays : (a : ℕ) → a ∈ y ∷ ys → (h == a) ≡ false
      stays a i = not-mem-ne h a (y ∷ ys) q.distinct.0 i

  -- A queue of another priority is left alone.
  pub unlinked-others :
      (n p head : ℕ)
      → priorities s h ≡ pri
      → priorities s n ≡ pri
      → priorities s p ≡ pri
      → (k : ℕ) (zs : List ℕ) → (pri == k) ≡ false
      → IsQueue s k zs
      → IsQueue (unlinked h n p pri head s) k zs
  unlinked-others n p head eh en ep k zs ne r =
      IsQueue-frame s (unlinked h n p pri head s) k zs (unlinked_ready h n p pri head s k ne)
        (λ a i.
          let apart =
            λ (b : ℕ) (e : priorities s b ≡ pri). levels-ne s b a pri k e (r.level a i) ne in
          (
            unlinked_next_other h n p pri head s a (apart h eh) (ne_comm p a (apart p ep)),
            unlinked_prev_other h n p pri head s a (apart h eh) (ne_comm n a (apart n en)),
          ))
        (unlinked_priority h n p pri head s) r

  pub emptied-IsQueue : IsQueue (emptied h pri s) pri []
  emptied-IsQueue = record {
    head = emptied_head h pri s;
    ring = tt;
    distinct = tt;
    handles = tt;
    level = λ a i. cc;
  }

  pub emptied-others :
      priorities s h ≡ pri
      → (k : ℕ) (zs : List ℕ) → (pri == k) ≡ false
      → IsQueue s k zs
      → IsQueue (emptied h pri s) k zs
  emptied-others eh k zs ne r =
      IsQueue-frame s (emptied h pri s) k zs (emptied_ready h pri s k ne)
        (λ a i. emptied_other h pri s a (levels-ne s h a pri k eh (r.level a i) ne))
        (emptied_priority h pri s) r
