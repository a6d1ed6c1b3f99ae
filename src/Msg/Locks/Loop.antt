-- ===== src/Msg/Locks/Loop.antt =====
-- The loop of FMTK_SendMsg that takes both locks comes to an end.
use rf.Prelude.{
  ℕ, zero, suc, ◌+◌, ◌<◌, ◌≡◌, refl, ap, ◌∙◌, Bool, true, false, Option, none, some, List, [], ◌∷◌,
  arith, length, if◌then◌else◌,
}
use rf.Kernel.Config.{ℤ, neg, nr_acb, nr_msg, out_of_range, e_no_more_msg_blks}
use rf.Kernel.Run.{M, ok, Returns, Returns-then, Returns-branch, ◌>>◌}
use rf.Kernel.State.{Kernel}
use rf.Semaphore.{
  release, lock_semaphore_nb, unlock_semaphore_nb, lock_mbx, unlock_mbx, lock_msg_list,
  unlock_msg_list, msg_sema,
}
use rf.Msg.Send.{leave, lock_to_send}
use rf.Msg.Locks.{Holds, release-head}
use rf.Msg.Locks.Send.{Locked}

-- `n` outcomes of locks are still to come.
abbrev Coming : ℕ → Kernel → Type 0
Coming n k = length k.answers ≡ n

module _ (sem m lk : ℕ) (ls : List ℕ) where
  abbrev Open : ℕ → Kernel → Type 0
  Open n k = Holds sem m lk ls tt k × Coming n k

  abbrev Half : ℕ → Kernel → Type 0
  Half n k = Holds sem m lk (lk ∷ ls) tt k × Coming n k

  take_mbx_lock : (n : ℕ) (k : Kernel) → Open n k → Returns (λ _. Half n) (lock_mbx m 0 k)
  unfolding lock_mbx lock_semaphore_nb
  take_mbx_lock n k h = ((rw h.0.2 (ap (λ l. lk ∷ l) h.0.0), h.0.1, h.0.2), h.1)

  drop_mbx_lock : (n : ℕ) (k : Kernel) → Half n k → Returns (λ _. Open n) (unlock_mbx m k)
  unfolding unlock_mbx unlock_semaphore_nb
  drop_mbx_lock n k h = ((rw h.0.2 (rw h.0.0 (release-head lk ls)), h.0.1, h.0.2), h.1)

  -- The list is locked, or there is one outcome less to come.
  abbrev Tried : ℕ → Bool → Kernel → Type 0
  Tried n true k = Holds sem m lk ((msg_sema + sem) ∷ lk ∷ ls) tt k
  Tried n false k = Holds sem m lk (lk ∷ ls) tt k × (length k.answers < n)

  try_msg_lock : (n : ℕ) (k : Kernel) → Half n k → Returns (Tried n) (lock_msg_list 30 k)
  unfolding lock_msg_list lock_semaphore_nb
  try_msg_lock n k h = go k.answers h.1
    where
      taken_now : k.held ≡ lk ∷ ls → (msg_sema + k.semaphores) ∷ k.held ≡ (msg_sema + sem) ∷ lk ∷ ls
      taken_now e = rw h.0.1 (ap (λ l. (msg_sema + sem) ∷ l) e)

      go :
          (coming : List Bool)
          → length coming ≡ n
          → Returns (Tried n) (elim coming [
            | [] ↦ ok true (record k { held = (msg_sema + k.semaphores) ∷ k.held })
            | true ∷ r ↦
                ok true (record k { answers = r; held = (msg_sema + k.semaphores) ∷ k.held })
            | false ∷ r ↦ ok false (record k { answers = r })
          ])
      go [] e = (taken_now h.0.0, h.0.1, h.0.2)
      go (true ∷ r) e = (taken_now h.0.0, h.0.1, h.0.2)
      go (false ∷ r) e = ((h.0.0, h.0.1, h.0.2), omega arith)

  released :
      (k : Kernel)
      → Holds sem m lk ((msg_sema + sem) ∷ lk ∷ ls) tt k
      → release (k.mbx m).lock (release (msg_sema + k.semaphores) k.held) ≡ ls
  released k h =
      ap (λ a. release a (release (msg_sema + k.semaphores) k.held)) h.2
      ∙ (ap (λ a. release lk (release (msg_sema + a) k.held)) h.1
          ∙ (ap (λ l. release lk (release (msg_sema + sem) l)) h.0
              ∙ (ap (release lk) (release-head (msg_sema + sem) (lk ∷ ls)) ∙ release-head lk ls)))

  give_back :
      {A : Type 0} (Q : A → Kernel → Type 0) (r : A) (k : Kernel)
      → Holds sem m lk ((msg_sema + sem) ∷ lk ∷ ls) tt k
      → ((c : Kernel) → Holds sem m lk ls tt c → Q r c)
      → Returns Q (leave m r k)
  unfolding leave unlock_msg_list unlock_mbx unlock_semaphore_nb
  give_back Q r k h done = done _ (released k h, h.1, h.2)

  -- One round of the loop, where `again` is what follows a round without success.
  round_ends :
      (n : ℕ) (again : M Kernel (Option ℤ))
      → ((j : ℕ) (d : Kernel) → j < n → Open j d → Returns (Locked sem m lk ls) (again d))
      → (st2 : Bool) (d : Kernel) → Tried n st2 d
      → Returns (Locked sem m lk ls) (
          (if st2
              then (if out_of_range nr_msg d.pool.free_msg
                  then leave m (some (neg e_no_more_msg_blks))
                  else ok none)
              else (unlock_mbx m >> again))
            d)
  round_ends n again more true d h =
      Returns-branch (Locked sem m lk ls) (out_of_range nr_msg d.pool.free_msg)
        (leave m (some (neg e_no_more_msg_blks))) (ok none) d
        (give_back (Locked sem m lk ls) (some (neg e_no_more_msg_blks)) d h (λ c f. f)) h
  round_ends n again more false d h =
      Returns-then (λ _. Open (length d.answers)) (Locked sem m lk ls) (unlock_mbx m d) _
        (drop_mbx_lock (length d.answers) d (h.0, refl)) (λ _ e f. more (length d.answers) e h.1 f)

  lock_to_send-Locked_all :
      (fuel n : ℕ) (k : Kernel)
      → Open n k
      → n < fuel
      → Returns (Locked sem m lk ls) (lock_to_send fuel m k)
  unfolding lock_to_send
  lock_to_send-Locked_all zero n k h lt = absurd (omega arith)
  lock_to_send-Locked_all (suc fuel) n k h lt =
      Returns-then (λ _. Half n) (Locked sem m lk ls) (lock_mbx m 0 k) _ (take_mbx_lock n k h)
        (λ _ c e.
          Returns-branch (Locked sem m lk ls) (out_of_range nr_acb (c.mbx m).owner) _ _ c
            (Returns-then (λ _. Open n) (Locked sem m lk ls) (unlock_mbx m c) _
              (drop_mbx_lock n c e) (λ _ d f. f.0))
            (Returns-then (Tried n) (Locked sem m lk ls) (lock_msg_list 30 c) _ (try_msg_lock n c e)
              (round_ends n (λ d. lock_to_send fuel m d)
                (λ j d le o. lock_to_send-Locked_all fuel j d o (omega arith)))))

-- The loop of SendMsg that takes the locks of a mailbox and of the message list ends within one round
-- more than there are outcomes to come, whatever these are: it holds both locks then, or it stops
-- with an error and holds neither.
pub lock_to_send-ends :
    (m : ℕ) (k : Kernel)
    → Returns
        (Locked k.semaphores m (k.mbx m).lock k.held)
        (lock_to_send (suc (length k.answers)) m k)
lock_to_send-ends m k =
    lock_to_send-Locked_all k.semaphores m (k.mbx m).lock k.held (suc (length k.answers))
      (length k.answers) k ((refl, refl, refl), refl) (omega arith)
