-- ===== src/Tcb/Ready/Remove/Whole.antt =====
-- TCBRemoveFromReadyQueue over all the ready queues.
use rf.Prelude.{
  ℕ, ◌≤◌, ◌≡◌, refl, List, [], ◌∷◌, ◌++◌, update, head_or, last_or, ◌∈◌, Handles-mem, not-mem-ne,
  not-mem-middle, mem-middle, mem-remove, ne_comm, last_or-mem, head_or-mem, mem-head, mem-tail,
  mem-left,
}
use rf.Kernel.Config.{nr_tcb, e_ok}
use rf.Kernel.Run.{Returns}
use rf.Kernel.Types.{ts_none}
use rf.Kernel.State.{Tasks}
use rf.Links.{Seg-right}
use rf.Tcb.Ready.{tcb_remove_from_ready_queue}
use rf.Tcb.Ready.Shape.{nexts, prevs, priorities, IsQueue, IsReady, IsReady-update}
use rf.Tcb.Ready.Remove.{
  unlinked, unlinked_self, remove-unlinked, emptied, emptied_self, remove-emptied, next_head_first,
  next_head_inner,
}
use rf.Tcb.Ready.Remove.Queue.{
  inner-IsQueue, first-IsQueue, unlinked-others, emptied-IsQueue, emptied-others,
}

-- What the removal of `h` leaves: the other threads of its queue in their order, the other queues as
-- they were, and `h` on no list and with an empty status.
abbrev pub Removed : (ℕ → List ℕ) → (h pri : ℕ) (zs : List ℕ) → ℕ → Tasks → Type 0
Removed q h pri zs r t =
    (r ≡ e_ok)
    × IsReady t (update q pri zs)
    × (((t.tcb h).next ≡ 0) × ((t.tcb h).prev ≡ 0) × ((t.tcb h).status ≡ ts_none))

module _ (h : ℕ) (s : Tasks) (q : ℕ → List ℕ) (level : priorities s h ≤ 31)
    (ready : IsReady s q) where
  abbrev pri : ℕ
  pri = priorities s h

  remove_only :
      IsQueue s pri (h ∷ []) → Returns (Removed q h pri []) (tcb_remove_from_ready_queue h s)
  remove_only me =
      rw (remove-emptied h pri s me.handles.0 me.handles.1 refl level me.ring.1 me.head) (
        refl,
        IsReady-update (emptied h pri s) q pri [] (emptied-IsQueue h pri s)
            (λ k le n. emptied-others h pri s refl k (q k) n (ready k le)),
        emptied_self h pri s,
      )

  remove_first :
      (y : ℕ) (ys : List ℕ)
      → IsQueue s pri (h ∷ y ∷ ys)
      → Returns (Removed q h pri (y ∷ ys)) (tcb_remove_from_ready_queue h s)
  remove_first y ys me =
      let p : ℕ = last_or y ys in
      let v = Handles-mem nr_tcb (y ∷ ys) p me.handles.2 (last_or-mem y ys) in
      let ne = ne_comm h y (not-mem-ne h y (y ∷ ys) me.distinct.0 (mem-head y ys)) in
      rw
        (remove-unlinked h y p pri y s me.handles.0 me.handles.1 me.handles.2.0 me.handles.2.1 v.0
          v.1 refl level me.ring.1 me.ring.0 ne (next_head_first h s y me.head me.ring.1 ne))
        (
          refl,
          IsReady-update (unlinked h y p pri y s) q pri (y ∷ ys) (first-IsQueue h pri s y ys me)
              (λ k le n.
                unlinked-others h pri s y p y refl
                  (me.level y (mem-tail y h (y ∷ ys) (mem-head y ys)))
                  (me.level p (mem-tail p h (y ∷ ys) (last_or-mem y ys))) k (q k) n (ready k le)),
          unlinked_self h y p pri y s,
        )

  remove_inner :
      (x : ℕ) (xs ys : List ℕ)
      → IsQueue s pri (x ∷ xs ++ h ∷ ys)
      → Returns (Removed q h pri (x ∷ xs ++ ys)) (tcb_remove_from_ready_queue h s)
  remove_inner x xs ys me =
      let n : ℕ = head_or x ys in
      let p : ℕ = last_or x xs in
      let all = λ (a : ℕ) (i : a ∈ x ∷ xs ++ ys).
        Handles-mem nr_tcb (x ∷ xs ++ h ∷ ys) a me.handles (mem-remove a h (x ∷ xs) ys i) in
      let stays = λ (a : ℕ) (i : a ∈ x ∷ xs ++ ys).
        not-mem-ne h a (x ∷ xs ++ ys) (not-mem-middle h (x ∷ xs) ys me.distinct) i in
      let hv = Handles-mem nr_tcb (x ∷ xs ++ h ∷ ys) h me.handles (mem-middle h (x ∷ xs) ys) in
      let ip : p ∈ x ∷ xs ++ ys = mem-left p (x ∷ xs) ys (last_or-mem x xs) in
      let i_n : n ∈ x ∷ xs ++ ys = head_or-mem x xs ys in
      let here =
        Seg-right (nexts s) (prevs s) (last_or x (xs ++ h ∷ ys)) (x ∷ xs) (h ∷ ys) x me.ring in
      rw
        (remove-unlinked h n p pri x s hv.0 hv.1 (all n i_n).0 (all n i_n).1 (all p ip).0
          (all p ip).1 refl level here.1 here.0 (ne_comm h n (stays n i_n))
          (next_head_inner h s x me.head (stays x (mem-head x (xs ++ ys)))))
        (
          refl,
          IsReady-update (unlinked h n p pri x s) q pri (x ∷ xs ++ ys)
              (inner-IsQueue h pri s x xs ys me)
              (λ k le m.
                unlinked-others h pri s n p x refl (me.level n (mem-remove n h (x ∷ xs) ys i_n))
                  (me.level p (mem-remove p h (x ∷ xs) ys ip)) k (q k) m (ready k le)),
          unlinked_self h n p pri x s,
        )

  -- Removing a queued thread `h` from well-formed ready queues succeeds: the other threads of its
  -- queue keep their order, the other queues are as they were, and `h` is left with null links and an
  -- empty status.
  pub remove-IsReady :
      (xs ys : List ℕ)
      → q (priorities s h) ≡ xs ++ h ∷ ys
      → Returns (Removed q h (priorities s h) (xs ++ ys)) (tcb_remove_from_ready_queue h s)
  remove-IsReady [] [] e = remove_only (rw e at (ready pri level))
  remove-IsReady [] (y ∷ ys) e = remove_first y ys (rw e at (ready pri level))
  remove-IsReady (x ∷ xs) ys e = remove_inner x xs ys (rw e at (ready pri level))
