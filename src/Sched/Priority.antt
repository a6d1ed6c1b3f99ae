-- ===== src/Sched/Priority.antt =====
-- FMTK_SetThreadPriority on the ready queues.
use rf.Prelude.{
  ◌%◌, ◌^◌, ap, ℕ, ◌≤◌, ◌<◌, ◌≡◌, refl, ◌∙◌, true, false, ◌||◌, List, [], ◌∷◌, ◌++◌, arith, ◌==◌,
  ◌∉◌, update, not-mem-ne, Handles-mem, mem-middle, le→not_ltb, last_or,
}
use rf.Kernel.Config.{nr_tcb, e_ok}
use rf.Kernel.Run.{Returns, Returns-then, ok, ◌>>◌}
use rf.Kernel.State.{Tasks, at}
use rf.Links.{Ring, Seg-frame}
use rf.Tcb.Ready.{tcb_insert_into_ready_queue, tcb_remove_from_ready_queue}
use rf.Tcb.Ready.Shape.{nexts, prevs, priorities, IsReady, unlinked-not-mem, valid_handle}
use rf.Tcb.Ready.Insert.{insert-IsReady}
use rf.Tcb.Ready.Remove.Whole.{Removed, remove-IsReady}
use rf.Sched.{set_priority, set_thread_priority}

-- The thread `h` with the priority `p`.
unfoldable pub with_priority : (h p : ℕ) → Tasks → Tasks
with_priority h p s = at h (λ r. record r { priority = p }) s

module _ (h p : ℕ) (s : Tasks) where
  with_priority_self : priorities (with_priority h p s) h ≡ p
  unfolding with_priority
  with_priority_self = ground arith

  with_priority_other :
      (a : ℕ) → (h == a) ≡ false → priorities (with_priority h p s) a ≡ priorities s a
  unfolding with_priority
  with_priority_other a ne = ground arith

  with_priority_links :
      (a : ℕ)
      → (nexts (with_priority h p s) a ≡ nexts s a) × (prevs (with_priority h p s) a ≡ prevs s a)
  unfolding with_priority
  with_priority_links a = ground arith

  with_priority_ready : (pri : ℕ) → (with_priority h p s).ready_q pri ≡ s.ready_q pri
  unfolding with_priority
  with_priority_ready pri = refl

  -- A thread that is on no list may change its priority.
  with_priority-IsReady :
      (q : ℕ → List ℕ) → nexts s h ≡ 0 → IsReady s q → IsReady (with_priority h p s) q
  with_priority-IsReady q free ready pri le =
      let mine = ready pri le in
      let out : h ∉ q pri = unlinked-not-mem s pri (q pri) mine h free in
      record {
        head = with_priority_ready pri ∙ mine.head;
        ring = frame (q pri) mine.ring;
        distinct = mine.distinct;
        handles = mine.handles;
        level = λ a i. with_priority_other a (not-mem-ne h a (q pri) out i) ∙ mine.level a i;
      }
    where
      frame :
          (xs : List ℕ)
          → Ring (nexts s) (prevs s) xs
          → Ring (nexts (with_priority h p s)) (prevs (with_priority h p s)) xs
      frame [] r = tt
      frame (x ∷ xs) r =
          Seg-frame (nexts s) (prevs s) (nexts (with_priority h p s)) (prevs (with_priority h p s))
            (last_or x xs) (x ∷ xs) x (λ a i. with_priority_links a) r

  set_queued :
      0 < h
      → h ≤ nr_tcb
      → p ≤ 31
      → ((s.tcb h).status.running || (s.tcb h).status.ready) ≡ true
      → set_priority h p s
        ≡ (tcb_remove_from_ready_queue h
              >> ((λ c. tcb_insert_into_ready_queue h (with_priority h p c)) >> ok e_ok))
            s
  unfolding set_priority with_priority
  set_queued hv hn le on = rw (le→not_ltb 31 p le) (rw (valid_handle h hv hn) (rw on))

  set_handle : 0 < h → h ≤ nr_tcb → set_thread_priority h p s ≡ set_priority h p s
  unfolding set_thread_priority
  set_handle hv hn = let small : h % 2 ^ 16 ≡ h = omega arith in ap (λ n. set_priority n p s) small

-- Giving a queued thread that is ready or running another priority takes it out of the queue of its
-- old priority, where the others keep their order, and puts it at the end of the queue of the new
-- one; the ready queues stay well formed.
pub set_priority-IsReady :
    (h p : ℕ) (s : Tasks) (q : ℕ → List ℕ) (xs ys : List ℕ)
    → p ≤ 31
    → priorities s h ≤ 31
    → ((s.tcb h).status.running || (s.tcb h).status.ready) ≡ true
    → IsReady s q
    → q (priorities s h) ≡ xs ++ h ∷ ys
    → Returns
        (λ r t.
          let rest = update q (priorities s h) (xs ++ ys) in
          (r ≡ e_ok) × IsReady t (update rest p (rest p ++ h ∷ [])))
        (set_thread_priority h p s)
set_priority-IsReady h p s q xs ys le level on ready e =
    let pri : ℕ = priorities s h in
    let rest : ℕ → List ℕ = update q pri (xs ++ ys) in
    let handle =
      Handles-mem nr_tcb (q pri) h (ready pri level).handles (rw e (mem-middle h xs ys)) in
    rw (set_handle h p s handle.0 handle.1 ∙ set_queued h p s handle.0 handle.1 le on) (
      Returns-then (Removed q h pri (xs ++ ys))
        (λ r t. (r ≡ e_ok) × IsReady t (update rest p (rest p ++ h ∷ [])))
        (tcb_remove_from_ready_queue h s) _ (remove-IsReady h s q level ready xs ys e)
        (λ a c r. requeue h p c rest handle.0 handle.1 le r.1 r.2.0 r.2.1))
  where
    requeue :
        (h p : ℕ) (c : Tasks) (rest : ℕ → List ℕ)
        → 0 < h
        → h ≤ nr_tcb
        → p ≤ 31
        → IsReady c rest
        → nexts c h ≡ 0
        → prevs c h ≡ 0
        → Returns
            (λ r t. (r ≡ e_ok) × IsReady t (update rest p (rest p ++ h ∷ [])))
            (((λ c. tcb_insert_into_ready_queue h (with_priority h p c)) >> ok e_ok) c)
    requeue h p c rest hv hn le r free free' =
        let d = with_priority h p c in
        let self : priorities d h ≡ p = with_priority_self h p c in
        Returns-then _ _ (tcb_insert_into_ready_queue h d) _
          (insert-IsReady h d rest hv hn (rw self le) ((with_priority_links h p c h).0 ∙ free)
            ((with_priority_links h p c h).1 ∙ free') (with_priority-IsReady h p c rest free r))
          (λ a t x. (refl, rw (self) at x.1))
