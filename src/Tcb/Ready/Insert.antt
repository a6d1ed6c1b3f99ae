-- ===== src/Tcb/Ready/Insert.antt =====
-- TCBInsertIntoReadyQueue appends the thread to the queue of its priority.
use rf.Prelude.{
  ℕ, ◌≤◌, ◌<◌, ◌≡◌, refl, ◌∙◌, false, List, [], ◌∷◌, ◌++◌, arith, ◌==◌, update, last_or, ◌∈◌, ◌∉◌,
  IsDistinct-append, Handles-mem, Handles-append, not-mem-ne, not-mem-one, ne_comm, last_or-mem,
  mem-head, mem-tail, Bool-cases, inl, inr,
}
use rf.Kernel.Config.{nr_tcb, e_ok}
use rf.Kernel.Run.{ok, Returns}
use rf.Kernel.State.{Tasks}
use rf.Links.Ring.{Ring-snoc}
use rf.Tcb.Ready.{set_ready, link_at_tail, enqueue, tcb_insert_into_ready_queue}
use rf.Tcb.Ready.Shape.{
  nexts, prevs, priorities, IsQueue, IsReady, valid_handle, IsQueue-frame, unlinked-not-mem,
  ring_last, levels-ne, IsReady-update,
}
use rf.Tcb.Ready.Tail.{
  appended, appended_next_self, appended_next_last, appended_next_other, appended_prev_self,
  appended_prev_first, appended_prev_other, appended_priority, appended_ready, alone, alone_other,
  alone_priority, alone_ready,
}

module _ (h : ℕ) (s : Tasks) (hv : 0 < h) (hn : h ≤ nr_tcb) (level : priorities s h ≤ 31)
    (free : nexts s h ≡ 0) (free' : prevs s h ≡ 0) where
  enqueue-alone : s.ready_q (priorities s h) ≡ 0 → enqueue h s ≡ ok e_ok (alone h s)
  unfolding enqueue alone
  enqueue-alone hx = ground arith

  insert-enqueue : tcb_insert_into_ready_queue h s ≡ enqueue h s
  unfolding tcb_insert_into_ready_queue
  insert-enqueue = rw (valid_handle h hv hn, tcb_insert_into_ready_queue) (ground arith)

  enqueue_tail :
      (x last : ℕ)
      → s.ready_q (priorities s h) ≡ x
      → prevs s x ≡ last
      → 0 < x
      → x ≤ nr_tcb
      → 0 < last
      → last ≤ nr_tcb
      → (h == x) ≡ false
      → enqueue h s ≡ ok e_ok (appended h x last s)
  unfolding enqueue link_at_tail appended
  enqueue_tail x last hx hl a b c d e = ground (arith, valid_handle x, valid_handle last)

  alone-IsQueue : IsQueue (alone h s) (priorities s h) (h ∷ [])
  unfolding alone
  alone-IsQueue = record {
    head = ground arith;
    ring = ground arith;
    distinct = (refl, tt);
    handles = (hv, hn, tt);
    level = λ a i. ground arith;
  }

  level-snoc :
      (xs : List ℕ)
      → ((a : ℕ) → a ∈ xs → priorities s a ≡ priorities s h)
      → (a : ℕ) → a ∈ xs ++ h ∷ []
      → priorities s a ≡ priorities s h
  level-snoc [] all a i = ground arith
  level-snoc (x ∷ xs) all a i = elim (Bool-cases (a == x)) [
    | inl e ↦ all a (ground arith)
    | inr n ↦ level-snoc xs (λ b j. all b (mem-tail b x xs j)) a (ground arith)
  ]

  appended-IsQueue :
      (x : ℕ) (xs : List ℕ)
      → IsQueue s (priorities s h) (x ∷ xs)
      → h ∉ x ∷ xs
      → IsQueue (appended h x (last_or x xs) s) (priorities s h) (x ∷ xs ++ h ∷ [])
  appended-IsQueue x xs q out = record {
    head = appended_ready h x last s (priorities s h) ∙ q.head;
    ring =
        Ring-snoc (nexts s) (prevs s) (nexts t) (prevs t) h x xs q.distinct
          (appended_next_self h x last s last_ne)
          (appended_prev_self h x last s (other x (mem-head x xs))) (appended_next_last h x last s)
          (appended_prev_first h x last s) (λ a i n. appended_prev_other h x last s a (other a i) n)
          (λ a i n. appended_next_other h x last s a (other a i) n) q.ring;
    distinct =
        IsDistinct-append (x ∷ xs) (h ∷ []) q.distinct (refl, tt)
          (λ a i. not-mem-one a h (ne_comm h a (other a i)));
    handles = Handles-append nr_tcb (x ∷ xs) (h ∷ []) q.handles (hv, hn, tt);
    level = λ a i. appended_priority h x last s a ∙ level-snoc (x ∷ xs) q.level a i;
  }
    where
      last : ℕ
      last = last_or x xs

      t : Tasks
      t = appended h x last s

      other : (a : ℕ) → a ∈ x ∷ xs → (h == a) ≡ false
      other a i = not-mem-ne h a (x ∷ xs) out i

      last_ne : (h == last) ≡ false
      last_ne = other last (last_or-mem x xs)

  -- The state after the insertion.
  abbrev inserted : List ℕ → Tasks
  inserted [] = alone h s
  inserted (x ∷ xs) = appended h x (last_or x xs) s

  insert-inserted :
      (xs : List ℕ)
      → IsQueue s (priorities s h) xs
      → h ∉ xs
      → tcb_insert_into_ready_queue h s ≡ ok e_ok (inserted xs)
  insert-inserted [] q out = insert-enqueue ∙ enqueue-alone q.head
  insert-inserted (x ∷ xs) q out =
      let v = Handles-mem nr_tcb (x ∷ xs) (last_or x xs) q.handles (last_or-mem x xs) in
      insert-enqueue
      ∙ enqueue_tail x (last_or x xs) q.head (ring_last s (priorities s h) x xs q) q.handles.0
          q.handles.1 v.0 v.1 (not-mem-ne h x (x ∷ xs) out (mem-head x xs))

  inserted-IsQueue :
      (xs : List ℕ)
      → IsQueue s (priorities s h) xs
      → h ∉ xs
      → IsQueue (inserted xs) (priorities s h) (xs ++ h ∷ [])
  inserted-IsQueue [] q out = alone-IsQueue
  inserted-IsQueue (x ∷ xs) q out = appended-IsQueue x xs q out

  -- The queues of the other priorities keep their threads.
  inserted-others :
      (xs : List ℕ)
      → IsQueue s (priorities s h) xs
      → (pri : ℕ) (ys : List ℕ) → (priorities s h == pri) ≡ false
      → IsQueue s pri ys
      → IsQueue (inserted xs) pri ys
  inserted-others [] q pri ys ne r =
      IsQueue-frame s (alone h s) pri ys (alone_ready h s pri ne)
        (λ a i. alone_other h s a (levels-ne s h a (priorities s h) pri refl (r.level a i) ne))
        (alone_priority h s) r
  inserted-others (x ∷ xs) q pri ys ne r =
      let last : ℕ = last_or x xs in
      let out = λ (b : ℕ) (i : b ∈ x ∷ xs) (a : ℕ) (j : a ∈ ys).
        levels-ne s b a (priorities s h) pri (q.level b i) (r.level a j) ne in
      IsQueue-frame s (appended h x last s) pri ys (appended_ready h x last s pri)
        (λ a i. (
          appended_next_other h x last s a
              (levels-ne s h a (priorities s h) pri refl (r.level a i) ne)
              (ne_comm last a (out last (last_or-mem x xs) a i)),
          appended_prev_other h x last s a
              (levels-ne s h a (priorities s h) pri refl (r.level a i) ne)
              (ne_comm x a (out x (mem-head x xs) a i)),
        ))
        (appended_priority h x last s) r

  inserted_status : (xs : List ℕ) → ((inserted xs).tcb h).status ≡ set_ready (s.tcb h).status
  unfolding alone appended
  inserted_status [] = ground arith
  inserted_status (x ∷ xs) = ground arith

-- Inserting a thread that is on no list, of a priority of at most 31, into well-formed ready queues
-- succeeds: it becomes the last thread of the queue of its priority, the queues of the other
-- priorities keep their threads, and its status gains TS_READY and nothing else.
pub insert-IsReady :
    (h : ℕ) (s : Tasks) (q : ℕ → List ℕ)
    → 0 < h
    → h ≤ nr_tcb
    → priorities s h ≤ 31
    → nexts s h ≡ 0
    → prevs s h ≡ 0
    → IsReady s q
    → Returns
        (λ r t.
          (r ≡ e_ok)
          × IsReady t (update q (priorities s h) (q (priorities s h) ++ h ∷ []))
          × ((t.tcb h).status ≡ set_ready (s.tcb h).status))
        (tcb_insert_into_ready_queue h s)
insert-IsReady h s q hv hn level free free' ready =
    let p : ℕ = priorities s h in
    let mine = ready p level in
    let out = unlinked-not-mem s p (q p) mine h free in
    rw (insert-inserted h s hv hn level free free' (q p) mine out) (
      refl,
      IsReady-update (inserted h s hv hn level free free' (q p)) q p (q p ++ h ∷ [])
          (inserted-IsQueue h s hv hn level free free' (q p) mine out)
          (λ pri le n.
            inserted-others h s hv hn level free free' (q p) mine pri (q pri) n (ready pri le)),
      inserted_status h s hv hn level free free' (q p),
    )
