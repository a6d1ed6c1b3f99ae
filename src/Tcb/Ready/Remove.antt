-- ===== src/Tcb/Ready/Remove.antt =====
-- TCBRemoveFromReadyQueue: the states that it leads to, and their tables.
pub mod Queue
pub mod Whole
use rf.Prelude.{ℕ, ◌≤◌, ◌<◌, ◌≡◌, refl, false, arith, ◌==◌, update}
use rf.Kernel.Config.{nr_tcb, e_ok}
use rf.Kernel.Run.{ok}
use rf.Kernel.Types.{ts_none}
use rf.Kernel.State.{Tasks, at}
use rf.Tcb.Ready.{next_head, unlink, clear_links, tcb_remove_from_ready_queue}
use rf.Tcb.Ready.Shape.{nexts, prevs, priorities, valid_handle}

-- The state after `h` of priority `pri`, between `p` and `n`, has left, and `head` heads the queue.
unfoldable pub unlinked : (h n p pri head : ℕ) → Tasks → Tasks
unlinked h n p pri head s = at h clear_links (
    at p (λ t. record t { next = n })
      (at n (λ t. record t { prev = p }) (record s { ready_q = update s.ready_q pri head })))

-- The state after `h`, the only thread of its queue, has left.
unfoldable pub emptied : (h pri : ℕ) → Tasks → Tasks
emptied h pri s = at h clear_links (record s { ready_q = update s.ready_q pri 0 })

module _ (h n p pri head : ℕ) (s : Tasks) where
  pub unlinked_next : (h == p) ≡ false → nexts (unlinked h n p pri head s) p ≡ n
  unfolding unlinked clear_links
  unlinked_next e = ground arith

  pub unlinked_next_other :
      (a : ℕ)
      → (h == a) ≡ false
      → (a == p) ≡ false
      → nexts (unlinked h n p pri head s) a ≡ nexts s a
  unfolding unlinked clear_links
  unlinked_next_other a e f = ground arith

  pub unlinked_prev : (h == n) ≡ false → prevs (unlinked h n p pri head s) n ≡ p
  unfolding unlinked clear_links
  unlinked_prev e = ground arith

  pub unlinked_prev_other :
      (a : ℕ)
      → (h == a) ≡ false
      → (a == n) ≡ false
      → prevs (unlinked h n p pri head s) a ≡ prevs s a
  unfolding unlinked clear_links
  unlinked_prev_other a e f = ground arith

  pub unlinked_priority : (a : ℕ) → priorities (unlinked h n p pri head s) a ≡ priorities s a
  unfolding unlinked clear_links
  unlinked_priority a = ground arith

  pub unlinked_head : (unlinked h n p pri head s).ready_q pri ≡ head
  unfolding unlinked
  unlinked_head = ground arith

  pub unlinked_ready :
      (a : ℕ) → (pri == a) ≡ false → (unlinked h n p pri head s).ready_q a ≡ s.ready_q a
  unfolding unlinked
  unlinked_ready a e = ground arith

  -- The thread itself is left on no list and with no status.
  pub unlinked_self :
      (((unlinked h n p pri head s).tcb h).next ≡ 0)
      × (((unlinked h n p pri head s).tcb h).prev ≡ 0)
      × (((unlinked h n p pri head s).tcb h).status ≡ ts_none)
  unfolding unlinked clear_links
  unlinked_self = ground arith

  pub remove-unlinked :
      0 < h
      → h ≤ nr_tcb
      → 0 < n
      → n ≤ nr_tcb
      → 0 < p
      → p ≤ nr_tcb
      → priorities s h ≡ pri
      → pri ≤ 31
      → nexts s h ≡ n
      → prevs s h ≡ p
      → (n == h) ≡ false
      → next_head h s ≡ head
      → tcb_remove_from_ready_queue h s ≡ ok e_ok (unlinked h n p pri head s)
  unfolding tcb_remove_from_ready_queue unlink unlinked
  remove-unlinked a b c d e f lv le hn hp ne hd =
      ground (arith, valid_handle h, valid_handle n, valid_handle p)

module _ (h pri : ℕ) (s : Tasks) where
  pub remove-emptied :
      0 < h
      → h ≤ nr_tcb
      → priorities s h ≡ pri
      → pri ≤ 31
      → nexts s h ≡ h
      → s.ready_q pri ≡ h
      → tcb_remove_from_ready_queue h s ≡ ok e_ok (emptied h pri s)
  unfolding tcb_remove_from_ready_queue next_head emptied
  remove-emptied a b lv le hn hd = ground (arith, valid_handle h)

  pub emptied_head : (emptied h pri s).ready_q pri ≡ 0
  unfolding emptied
  emptied_head = ground arith

  pub emptied_ready : (a : ℕ) → (pri == a) ≡ false → (emptied h pri s).ready_q a ≡ s.ready_q a
  unfolding emptied
  emptied_ready a e = ground arith

  pub emptied_other :
      (a : ℕ)
      → (h == a) ≡ false
      → (nexts (emptied h pri s) a ≡ nexts s a) × (prevs (emptied h pri s) a ≡ prevs s a)
  unfolding emptied clear_links
  emptied_other a e = ground arith

  pub emptied_priority : (a : ℕ) → priorities (emptied h pri s) a ≡ priorities s a
  unfolding emptied clear_links
  emptied_priority a = ground arith

  pub emptied_self :
      (((emptied h pri s).tcb h).next ≡ 0)
      × (((emptied h pri s).tcb h).prev ≡ 0)
      × (((emptied h pri s).tcb h).status ≡ ts_none)
  unfolding emptied clear_links
  emptied_self = ground arith

-- The head that is left: the second thread if the first leaves, else the same one.
module _ (h : ℕ) (s : Tasks) where
  pub next_head_first :
      (n : ℕ)
      → s.ready_q (priorities s h) ≡ h
      → nexts s h ≡ n
      → (n == h) ≡ false
      → next_head h s ≡ n
  unfolding next_head
  next_head_first n hd hn ne = ground arith

  pub next_head_inner :
      (x : ℕ) → s.ready_q (priorities s h) ≡ x → (h == x) ≡ false → next_head h s ≡ x
  unfolding next_head
  next_head_inner x hd ne = ground arith
