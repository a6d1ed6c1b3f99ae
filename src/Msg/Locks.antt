-- ===== src/Msg/Locks.antt =====
-- The locks that the calls on mailboxes hold: what each step does to them.
pub mod Send
pub mod Post
pub mod Loop
use mathlib.Core.Path.{subst}
use rf.Prelude.{
  ℕ, ◌+◌, ◌≡◌, refl, sym, ap, ◌∙◌, Bool, true, false, List, [], ◌∷◌, ◌==◌, if◌then◌else◌, eq_self,
  update, Bool-cases, inl, inr,
}
use rf.Kernel.Run.{Run, M, ok, Ends, Ends-chain, Ends-any, Ends-then}
use rf.Kernel.State.{Kernel, Tasks, Pool, Box, Desk}
use rf.Kernel.Parts.{on_tasks, on_pool, on_box, on_desk}
use rf.Semaphore.{
  release, lock_semaphore_nb, unlock_semaphore_nb, lock_mbx, unlock_mbx, lock_msg_list,
  unlock_msg_list, msg_sema,
}
use rf.Msg.Queue.Lock.{BoxLock, DeskLock}
use rf.Msg.Send.{leave}

-- `ls` are the semaphores held. The numbers by which the steps name the semaphores stay: `sem` is
-- the address of the semaphores, `lk` the lock of the mailbox `m`.
abbrev pub Holds : (sem m lk : ℕ) → List ℕ → {A : Type 0} → A → Kernel → Type 0
Holds sem m lk ls a k = (k.held ≡ ls) × (k.semaphores ≡ sem) × ((k.mbx m).lock ≡ lk)

-- A lock was taken if the call said so.
abbrev pub taking : ℕ → List ℕ → Bool → List ℕ
taking a ls true = a ∷ ls
taking a ls false = ls

pub release-head : (a : ℕ) (ls : List ℕ) → release a (a ∷ ls) ≡ ls
release-head a ls = rw (eq_self a)

module _ (sem m lk : ℕ) (ls : List ℕ) where
  module _ {A : Type 0} (k : Kernel) (h : Holds sem m lk ls tt k) where
    pub on_tasks-Holds : (f : M Tasks A) → Ends (Holds sem m lk ls) (on_tasks f k)
    unfolding on_tasks
    on_tasks-Holds f =
        Ends-chain (λ _ _. Unit {0}) (Holds sem m lk ls) (f k.tasks)
          (λ a s. ok a (record k { tasks = s })) (Ends-any (f k.tasks)) (λ a s u. h)

    pub on_pool-Holds : (f : M Pool A) → Ends (Holds sem m lk ls) (on_pool f k)
    unfolding on_pool
    on_pool-Holds f =
        Ends-chain (λ _ _. Unit {0}) (Holds sem m lk ls) (f k.pool)
          (λ a s. ok a (record k { pool = s })) (Ends-any (f k.pool)) (λ a s u. h)

    pub on_box-Holds :
        (f : M Box A)
        → ((b : Box) → b.mbx.lock ≡ lk → Ends (BoxLock lk) (f b))
        → Ends (Holds sem m lk ls) (on_box m f k)
    unfolding on_box
    on_box-Holds f keeps =
        Ends-chain (BoxLock lk) (Holds sem m lk ls) (f (record { pool = k.pool; mbx = k.mbx m }))
          (λ a b. ok a (record k { pool = b.pool; mbx = update k.mbx m b.mbx }))
          (keeps (record { pool = k.pool; mbx = k.mbx m }) h.2)
          (λ a b e. (h.0, h.1, ap (λ t. (if t then b.mbx else k.mbx m).lock) (eq_self m) ∙ e))

    pub on_desk-Holds :
        (f : M Desk A)
        → ((d : Desk) → d.mbx.lock ≡ lk → Ends (DeskLock lk) (f d))
        → Ends (Holds sem m lk ls) (on_desk m f k)
    unfolding on_desk
    on_desk-Holds f keeps =
        Ends-chain (DeskLock lk) (Holds sem m lk ls) (f (record { tasks = k.tasks; mbx = k.mbx m }))
          (λ a d. ok a (record k { tasks = d.tasks; mbx = update k.mbx m d.mbx }))
          (keeps (record { tasks = k.tasks; mbx = k.mbx m }) h.2)
          (λ a d e. (h.0, h.1, ap (λ t. (if t then d.mbx else k.mbx m).lock) (eq_self m) ∙ e))

  lock-Holds :
      (sema retries : ℕ) (k : Kernel)
      → Holds sem m lk ls tt k
      → Ends (λ r. Holds sem m lk (taking sema ls r) r) (lock_semaphore_nb sema retries k)
  unfolding lock_semaphore_nb
  lock-Holds sema retries k h = elim (Bool-cases (retries == 0)) [
    | inl e ↦ rw e (ap (λ l. sema ∷ l) h.0, h.1, h.2)
    | inr e ↦ rw e (go k.answers)
  ]
    where
      go :
          (coming : List Bool)
          → Ends
              (λ r. Holds sem m lk (taking sema ls r) r)
              (elim coming [
                | [] ↦ ok true (record k { held = sema ∷ k.held })
                | true ∷ r ↦ ok true (record k { answers = r; held = sema ∷ k.held })
                | false ∷ r ↦ ok false (record k { answers = r })
              ])
      go [] = (ap (λ l. sema ∷ l) h.0, h.1, h.2)
      go (true ∷ r) = (ap (λ l. sema ∷ l) h.0, h.1, h.2)
      go (false ∷ r) = h

  pub lock_msg_list-Holds :
      (retries : ℕ) (k : Kernel)
      → Holds sem m lk ls tt k
      → Ends (λ r. Holds sem m lk (taking (msg_sema + sem) ls r) r) (lock_msg_list retries k)
  unfolding lock_msg_list
  lock_msg_list-Holds retries k h =
      subst
        (λ a.
          Ends (λ r. Holds sem m lk (taking (msg_sema + sem) ls r) r)
            (lock_semaphore_nb (msg_sema + a) retries k))
        (sym h.1) (lock-Holds (msg_sema + sem) retries k h)

  pub lock_mbx-Holds :
      (retries : ℕ) (k : Kernel)
      → Holds sem m lk ls tt k
      → Ends (λ r. Holds sem m lk (taking lk ls r) r) (lock_mbx m retries k)
  unfolding lock_mbx
  lock_mbx-Holds retries k h =
      subst (λ a. Ends (λ r. Holds sem m lk (taking lk ls r) r) (lock_semaphore_nb a retries k))
        (sym h.2) (lock-Holds lk retries k h)

  -- With 0 retries the lock is taken.
  pub lock_mbx-waits :
      (k : Kernel) → Holds sem m lk ls tt k → Ends (Holds sem m lk (lk ∷ ls)) (lock_mbx m 0 k)
  unfolding lock_mbx lock_semaphore_nb
  lock_mbx-waits k h = (rw h.2 (ap (λ l. lk ∷ l) h.0), h.1, h.2)

  pub unlock_msg_list-Holds :
      (k : Kernel)
      → Holds sem m lk ((msg_sema + sem) ∷ ls) tt k
      → Ends (Holds sem m lk ls) (unlock_msg_list k)
  unfolding unlock_msg_list unlock_semaphore_nb
  unlock_msg_list-Holds k h = (rw h.1 (rw h.0 (release-head (msg_sema + sem) ls)), h.1, h.2)

  pub unlock_mbx-Holds :
      (k : Kernel) → Holds sem m lk (lk ∷ ls) tt k → Ends (Holds sem m lk ls) (unlock_mbx m k)
  unfolding unlock_mbx unlock_semaphore_nb
  unlock_mbx-Holds k h = (rw h.2 (rw h.0 (release-head lk ls)), h.1, h.2)

-- Both locks are given back.
pub leave-Ends :
    {A : Type 0} (sem m lk : ℕ) (ls : List ℕ) (Q : A → Kernel → Type 0) (r : A) (k : Kernel)
    → Holds sem m lk ((msg_sema + sem) ∷ lk ∷ ls) tt k
    → ((c : Kernel) → Holds sem m lk ls tt c → Q r c)
    → Ends Q (leave m r k)
unfolding leave
leave-Ends sem m lk ls Q r k h done =
    Ends-then (Holds sem m lk (lk ∷ ls)) Q (unlock_msg_list k) _
      (unlock_msg_list-Holds sem m lk (lk ∷ ls) k h)
      (λ _ c e.
        Ends-then (Holds sem m lk ls) Q (unlock_mbx m c) _ (unlock_mbx-Holds sem m lk ls c e)
          (λ _ d f. done d f))
