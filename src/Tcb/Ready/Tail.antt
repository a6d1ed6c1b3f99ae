-- ===== src/Tcb/Ready/Tail.antt =====
-- TCBInsertIntoReadyQueue: the states that it leads to, and their tables.
use rf.Prelude.{ℕ, ◌≡◌, refl, true, false, arith, ◌==◌, ltb, if◌then◌else◌, update}
use rf.Kernel.State.{Tasks, at}
use rf.Tcb.Ready.{set_ready}
use rf.Tcb.Ready.Shape.{nexts, prevs, priorities}

-- The state after the thread `h` of priority `pri` is put behind `last`, in front of `x`.
unfoldable pub appended : (h x last : ℕ) → Tasks → Tasks
appended h x last s =
    at x (λ t. record t { prev = h })
      (at last (λ t. record t { next = h })
        (at h (λ t. record t { next = x; prev = last })
          (at h (λ t. record t { status = set_ready t.status })
            (record s {
              ultra =
                  if ltb 28 (priorities s h) then update s.ultra (priorities s h) true else s.ultra;
            }))))

module _ (h x last : ℕ) (s : Tasks) where
  pub appended_next_self : (h == last) ≡ false → nexts (appended h x last s) h ≡ x
  unfolding appended
  appended_next_self e = ground arith

  pub appended_next_last : nexts (appended h x last s) last ≡ h
  unfolding appended
  appended_next_last = ground arith

  pub appended_next_other :
      (a : ℕ) → (h == a) ≡ false → (a == last) ≡ false → nexts (appended h x last s) a ≡ nexts s a
  unfolding appended
  appended_next_other a e f = ground arith

  pub appended_prev_self : (h == x) ≡ false → prevs (appended h x last s) h ≡ last
  unfolding appended
  appended_prev_self e = ground arith

  pub appended_prev_first : prevs (appended h x last s) x ≡ h
  unfolding appended
  appended_prev_first = ground arith

  pub appended_prev_other :
      (a : ℕ) → (h == a) ≡ false → (a == x) ≡ false → prevs (appended h x last s) a ≡ prevs s a
  unfolding appended
  appended_prev_other a e f = ground arith

  pub appended_priority : (a : ℕ) → priorities (appended h x last s) a ≡ priorities s a
  unfolding appended
  appended_priority a = ground arith

  pub appended_ready : (a : ℕ) → (appended h x last s).ready_q a ≡ s.ready_q a
  unfolding appended
  appended_ready a = refl

-- The state after the thread `h` has become the only one of its queue.
unfoldable pub alone : (h : ℕ) → Tasks → Tasks
alone h s =
    record (at h (λ t. record t { next = h; prev = h })
      (at h (λ t. record t { status = set_ready t.status })
        (record s {
          ultra = if ltb 28 (priorities s h) then update s.ultra (priorities s h) true else s.ultra;
        }))) { ready_q = update s.ready_q (priorities s h) h }

module _ (h : ℕ) (s : Tasks) where
  pub alone_other :
      (a : ℕ)
      → (h == a) ≡ false
      → (nexts (alone h s) a ≡ nexts s a) × (prevs (alone h s) a ≡ prevs s a)
  unfolding alone
  alone_other a e = ground arith

  pub alone_priority : (a : ℕ) → priorities (alone h s) a ≡ priorities s a
  unfolding alone
  alone_priority a = ground arith

  pub alone_ready : (a : ℕ) → (priorities s h == a) ≡ false → (alone h s).ready_q a ≡ s.ready_q a
  unfolding alone
  alone_ready a e = ground arith
