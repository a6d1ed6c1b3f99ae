-- ===== src/Msg/Empty/Call.antt =====
-- FMTK_EmptyMbx on a mailbox with a well-formed queue.
use rf.Prelude.{
  ℕ, zero, suc, ◌+◌, ◌%◌, ◌^◌, ◌≤◌, ◌<◌, ◌≡◌, refl, sym, ap, ◌∙◌, ◌==◌, update, Option, none, Bool,
  true, false, some, List, [], ◌∷◌, ◌++◌, arith, IsDistinct, ◌⊎◌, inl, inr,
}
use rf.Kernel.Config.{ℤ, pos, neg, nr_mbx, out_of_range, e_ok, e_busy}
use rf.Kernel.Run.{
  Run, Returns, Returns-then, Returns-Ends, Ends, and_then, chain, ok, panic, fault, spin, M, ◌>>=◌,
}
use rf.Kernel.Types.{Mbx}
use rf.Kernel.State.{Kernel, Pool, Box}
use rf.Kernel.Parts.{on_box}
use rf.Msg.Pool.{free_msg}
use rf.Msg.Queue.{mbx_dequeue_msg}
use rf.Msg.Locks.{release-head}
use rf.Semaphore.{
  release, lock_msg_list, unlock_msg_list, lock_semaphore_nb, unlock_semaphore_nb, msg_sema,
}
use rf.Msg.Queue.Shape.{IsQueued}
use rf.Msg.Mailbox.{mbx_handle_to_pointer, with_mbx, free_queued, empty_locked, empty_mbx}
use rf.Msg.Empty.{box, IsFree, reverse_onto, Emptied, free_queued-empties}

-- Only the pool and the mailbox `m` differ.
abbrev pub OnlyBox : (m : ℕ) → Kernel → Kernel → Type 0
OnlyBox m k c =
    (c ≡ record k { pool = c.pool; mbx = c.mbx }) × ((a : ℕ) → (m == a) ≡ false → c.mbx a ≡ k.mbx a)

-- The loop changes nothing else. `p` and `f` are what it has of them.
loop-OnlyBox :
    (m : ℕ) (k : Kernel) (fuel : ℕ) (p : Pool) (f : ℕ → Mbx)
    → ((a : ℕ) → (m == a) ≡ false → f a ≡ k.mbx a)
    → Ends (λ _ c. OnlyBox m k c) (free_queued fuel m (record k { pool = p; mbx = f }))
unfolding free_queued on_box
loop-OnlyBox m k zero p f h = tt
loop-OnlyBox m k (suc fuel) p f h =
    go (λ p f h. loop-OnlyBox m k fuel p f h) (mbx_dequeue_msg (record { pool = p; mbx = f m }))
  where
    others : (x : Mbx) (a : ℕ) → (m == a) ≡ false → update f m x a ≡ k.mbx a
    others x a e = rw e (h a e)

    go :
        ((p : Pool) (f : ℕ → Mbx)
          → ((a : ℕ) → (m == a) ≡ false → f a ≡ k.mbx a)
          → Ends (λ _ c. OnlyBox m k c) (free_queued fuel m (record k { pool = p; mbx = f })))
        → (r : Run Box (Option ℕ))
        → Ends
            (λ _ c. OnlyBox m k c)
            (and_then
              (chain r (λ a b. ok a (record k { pool = b.pool; mbx = update f m b.mbx })))
              (λ msg c. elim msg [
                | none ↦ ok tt c
                | some h ↦ free_queued fuel m (record c { pool = free_msg (some h) c.pool })
              ]))
    go ih (ok none b) = (refl, others b.mbx)
    go ih (ok (some x) b) = ih (free_msg (some x) b.pool) (update f m b.mbx) (others b.mbx)
    go ih panic = tt
    go ih fault = tt
    go ih spin = tt

-- The mailbox is emptied, and of the rest of the kernel only outcomes of locks are used up; or the message
-- list cannot be locked, and only such outcomes are used up.
abbrev pub EmptiedOrBusy : (m : ℕ) (xs fs : List ℕ) → Kernel → ℤ → Kernel → Type 0
EmptiedOrBusy m xs fs k r c =
    ((r ≡ pos e_ok)
      × Emptied m (reverse_onto xs fs) tt c
      × (c ≡ record k { pool = c.pool; mbx = c.mbx; answers = c.answers })
      × ((a : ℕ) → (m == a) ≡ false → c.mbx a ≡ k.mbx a))
    ⊎ ((r ≡ neg e_busy) × (c ≡ record k { answers = c.answers }))

module _ (m : ℕ) (xs fs : List ℕ) (d : IsDistinct (xs ++ fs)) (k : Kernel) where
  -- The kernel with the message list locked.
  abbrev with_lock : List Bool → Kernel
  with_lock a = record k { answers = a; held = (msg_sema + k.semaphores) ∷ k.held }

  unlocked :
      (a : List Bool) (c : Kernel)
      → c ≡ record (with_lock a) { pool = c.pool; mbx = c.mbx }
      → record c { held = release (msg_sema + c.semaphores) c.held }
        ≡ record k { pool = c.pool; mbx = c.mbx; answers = c.answers }
  unlocked a c e =
      let unlock : Kernel → Kernel =
        λ t. record t { held = release (msg_sema + t.semaphores) t.held } in
      let holding : List ℕ → Kernel =
        λ h. record k { pool = c.pool; mbx = c.mbx; answers = a; held = h } in
      let coming : List Bool → Kernel = λ b. record k { pool = c.pool; mbx = c.mbx; answers = b } in
      let answers : Kernel → List Bool = λ t. t.answers in
      ap unlock e
      ∙ (ap holding (release-head (msg_sema + k.semaphores) k.held)
          ∙ ap coming (sym (ap answers e)))

  locked-empties :
      (a : List Bool)
      → IsQueued (box m k) xs
      → IsFree (box m k) fs
      → Returns (EmptiedOrBusy m xs fs k) (empty_locked m true (with_lock a))
  unfolding empty_locked unlock_msg_list unlock_semaphore_nb
  locked-empties a q f =
      let n = suc (k.mbx m).mq_count in
      let run = free_queued n m (with_lock a) in
      Returns-then (λ r c. Emptied m (reverse_onto xs fs) r c × OnlyBox m (with_lock a) c)
        (EmptiedOrBusy m xs fs k) run _
        (Returns-Ends (Emptied m (reverse_onto xs fs)) (λ _ c. OnlyBox m (with_lock a) c) run
          (free_queued-empties n m (with_lock a) xs fs q f d (omega (arith, q.counted)))
          (loop-OnlyBox m (with_lock a) n k.pool k.mbx (λ b e. refl)))
        (λ r c e. inl (refl, e.0, unlocked a c e.1.0, e.1.1))

  opened-empties :
      IsQueued (box m k) xs
      → IsFree (box m k) fs
      → Returns (EmptiedOrBusy m xs fs k) ((lock_msg_list 30 >>= empty_locked m) k)
  unfolding lock_msg_list lock_semaphore_nb empty_locked
  opened-empties q f = go k.answers
    where
      go :
          (coming : List Bool)
          → Returns (EmptiedOrBusy m xs fs k) (
              and_then
                (elim coming [
                  | [] ↦ ok true (record k { held = (msg_sema + k.semaphores) ∷ k.held })
                  | true ∷ r ↦
                      ok true (record k { answers = r; held = (msg_sema + k.semaphores) ∷ k.held })
                  | false ∷ r ↦ ok false (record k { answers = r })
                ])
                (empty_locked m))
      go [] = locked-empties k.answers q f
      go (true ∷ r) = locked-empties r q f
      go (false ∷ r) = inr (refl, refl)

handle-valid : (h : ℕ) → 0 < h → h ≤ nr_mbx → mbx_handle_to_pointer (h % 2 ^ 16) ≡ some h
unfolding mbx_handle_to_pointer
handle-valid h v n =
    let small : h % 2 ^ 16 ≡ h = omega arith in
    let valid : out_of_range nr_mbx h ≡ false = ground arith in rw small (rw valid)

with_mbx-valid :
    {A : Type 0} (h : ℕ) (f : ℕ → M Kernel A) (k : Kernel)
    → 0 < h
    → h ≤ nr_mbx
    → with_mbx h f k ≡ f h k
unfolding with_mbx
with_mbx-valid h f k v n = rw (handle-valid h v n, with_mbx)

empty-opens :
    (h : ℕ) (k : Kernel)
    → 0 < h
    → h ≤ nr_mbx
    → empty_mbx h k ≡ (lock_msg_list 30 >>= empty_locked h) k
unfolding empty_mbx
empty-opens h k v n =
    let valid : out_of_range nr_mbx h ≡ false = ground arith in
    rw valid (with_mbx-valid h (λ m. lock_msg_list 30 >>= empty_locked m) k v n)

-- EmptyMbx on an existing mailbox with a well-formed queue returns. Either all its messages are given back,
-- the last one first on the free list, and its queue is empty; apart from the message pool and that mailbox,
-- nothing changes then but the outcomes of locks that are still to come, and the semaphores are held as
-- before. Or the message list cannot be locked, the call returns -E_Busy, and nothing changes but these
-- outcomes.
pub empty_mbx-empties :
    (h : ℕ) (k : Kernel) (xs fs : List ℕ)
    → 0 < h
    → h ≤ nr_mbx
    → IsQueued (box h k) xs
    → IsFree (box h k) fs
    → IsDistinct (xs ++ fs)
    → Returns (EmptiedOrBusy h xs fs k) (empty_mbx h k)
empty_mbx-empties h k xs fs v n q f d = rw (empty-opens h k v n) (opened-empties h xs fs d k q f)
