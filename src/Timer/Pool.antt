-- ===== src/Timer/Pool.antt =====
-- The allocation of interval timers.
use rf.Prelude.{
  ℕ, zero, suc, ◌+◌, ◌-◌, ◌≤◌, ◌<◌, ◌≡◌, refl, ap, Bool, true, false, ◌&&◌, not, Option, none, some,
  ◌∷◌, arith, ◌==◌, ltb, if◌then◌else◌, Bool-cases, inl, inr, ◌⊎◌, le→not_ltb,
}
use rf.Kernel.Config.{ℤ, pos, neg, nr_tmr, out_of_range, e_ok, e_no_more_timers}
use rf.Kernel.Run.{Returns, ok}
use rf.Kernel.State.{Kernel, Timers}
use rf.Semaphore.{
  lock_semaphore_nb, unlock_semaphore_nb, lock_tmr_semaphore, unlock_tmr_semaphore, tmr_sema,
}
use rf.Msg.Locks.{release-head}
use rf.Timer.{
  not_mine, find_timer, take_timer, grant_timer, alloc_timer, kill_alarm, stop_timer, drop_timer,
  release_timer, free_timer,
}

-- The timer `n` may be had by an app and is not taken; every one from `nn` up to it is.
abbrev pub IsFirst : (nn n : ℕ) → (ℕ → Bool) → Type 0
IsFirst nn n taken =
    (4 < n) × (taken n ≡ false) × ((a : ℕ) → nn ≤ a → a < n → 4 < a → taken a ≡ true)

-- Every timer from `nn` up to `m` that an app may have is taken.
abbrev pub AllTaken : (nn m : ℕ) → (ℕ → Bool) → Type 0
AllTaken nn m taken = (a : ℕ) → nn ≤ a → a < m → 4 < a → taken a ≡ true

module _ (taken : ℕ → Bool) where
  find-IsFirst :
      (fuel nn n : ℕ)
      → find_timer fuel nn taken ≡ some n
      → (nn ≤ n) × (n < nn + fuel) × IsFirst nn n taken
  unfolding find_timer
  find-IsFirst zero nn n e = cc
  find-IsFirst (suc fuel) nn n e = elim (Bool-cases (ltb 4 nn && not (taken nn))) [
    | inl t ↦
        let same : some nn ≡ some n = rw t at e in
        let eq : nn ≡ n = cc in
        (omega arith, omega arith, (ground arith, ground arith, λ a lo hi f. absurd (omega arith)))
    | inr t ↦
        let rest = find-IsFirst fuel (nn + 1) n (rw t at e) in
        (
          omega (arith, rest.0),
          omega (arith, rest.1),
          (
            rest.2.0,
            rest.2.1,
            λ a lo hi f. elim (Bool-cases (nn == a)) [
              | inl s ↦ ground arith
              | inr s ↦ rest.2.2 a (ground arith) hi f
            ],
          ),
        )
  ]

  find-AllTaken : (fuel nn : ℕ) → find_timer fuel nn taken ≡ none → AllTaken nn (nn + fuel) taken
  unfolding find_timer
  find-AllTaken zero nn e a lo hi f = absurd (omega arith)
  find-AllTaken (suc fuel) nn e a lo hi f = elim (Bool-cases (ltb 4 nn && not (taken nn))) [
    | inl t ↦ let no_timer : some nn ≡ none = rw t at e in cc
    | inr t ↦ elim (Bool-cases (nn == a)) [
      | inl s ↦ ground arith
      | inr s ↦ find-AllTaken fuel (nn + 1) (rw t at e) a (ground arith) (omega arith) f
    ]
  ]

-- The kernel after the running app was given the timer `n`.
abbrev pub granted : (n : ℕ) → Kernel → Kernel
granted n k = record k { timers = take_timer n k.running_appid k.timers }

alloc-granted :
    (k : Kernel) (n : ℕ)
    → find_timer nr_tmr 0 k.timers.taken ≡ some n
    → alloc_timer k ≡ ok (pos (n + 1)) (granted n k)
unfolding alloc_timer grant_timer lock_tmr_semaphore lock_semaphore_nb unlock_tmr_semaphore
    unlock_semaphore_nb
alloc-granted k n e = rw e (
    ap
      (λ h.
        ok (pos (n + 1)) (record k { timers = take_timer n k.running_appid k.timers; held = h }))
      (release-head (tmr_sema + k.semaphores) k.held))

alloc-refused :
    (k : Kernel)
    → find_timer nr_tmr 0 k.timers.taken ≡ none
    → alloc_timer k ≡ ok (neg e_no_more_timers) k
unfolding alloc_timer grant_timer lock_tmr_semaphore lock_semaphore_nb unlock_tmr_semaphore
    unlock_semaphore_nb
alloc-refused k e = rw e (
    ap (λ h. ok (neg e_no_more_timers) (record k { held = h }))
      (release-head (tmr_sema + k.semaphores) k.held))

-- The app `owner` is given the timer `n`: it is taken and has that owner; no other timer and no register
-- changes.
abbrev pub Given : (n owner : ℕ) → Timers → Timers → Type 0
Given n owner t u =
    ((a : ℕ) → u.taken a ≡ (if n == a then true else t.taken a))
    × ((a : ℕ) → (u.tmr a).owner ≡ (if n == a then owner else (t.tmr a).owner))
    × (u.pit ≡ t.pit)
    × (u.enabled ≡ t.enabled)

take_timer-Given : (n owner : ℕ) (t : Timers) → Given n owner t (take_timer n owner t)
unfolding take_timer
take_timer-Given n owner t = (
  λ a. refl,
  λ a. elim (Bool-cases (n == a)) [ inl e ↦ rw e refl | inr e ↦ rw e refl ],
  refl,
  refl,
)

-- The first free timer is given to the running app, or none is free and nothing changes.
abbrev pub Allocated : Kernel → ℤ → Kernel → Type 0
Allocated k r c =
    ((n : ℕ) × (r ≡ pos (n + 1))
      × (n < 64)
      × IsFirst 0 n k.timers.taken
      × Given n k.running_appid k.timers c.timers
      × (c ≡ record k { timers = c.timers }))
    ⊎ ((r ≡ neg e_no_more_timers) × AllTaken 0 64 k.timers.taken × (c ≡ k))

-- AllocTimer returns. It gives the running app the first of the 64 timers that has a number above 4 and is
-- not taken, and returns its handle: that timer is taken then and has the app as its owner, and no other
-- timer, no register of a timer and nothing else in the kernel changes, its semaphores included. If there is
-- none, it returns -E_NoMoreTimers and changes nothing.
pub alloc_timer-first : (k : Kernel) → Returns (Allocated k) (alloc_timer k)
alloc_timer-first k = go (find_timer nr_tmr 0 k.timers.taken) refl
  where
    go :
        (o : Option ℕ)
        → find_timer nr_tmr 0 k.timers.taken ≡ o
        → Returns (Allocated k) (alloc_timer k)
    go none e = rw (alloc-refused k e) (inr (refl, find-AllTaken k.timers.taken nr_tmr 0 e, refl))
    go (some n) e =
        let f = find-IsFirst k.timers.taken nr_tmr 0 n e in
        rw (alloc-granted k n e)
          (inl (n, refl, f.1, f.2, take_timer-Given n k.running_appid k.timers, refl))

-- The kernel after the timer `n` was stopped and given back.
abbrev pub dropped : (n : ℕ) → Kernel → Kernel
dropped n k = record k { timers = drop_timer n (stop_timer n k.timers) }

module _ (c : Kernel) (n : ℕ) (lo : 4 < n) (hi : n < nr_tmr) (mine : not_mine c n ≡ false) where
  in_range : out_of_range nr_tmr (n + 1) ≡ false
  in_range = ground arith

  minus : n + 1 - 1 ≡ n
  minus = omega arith

  kill-stops : kill_alarm (n + 1) c ≡ ok none (record c { timers = stop_timer n c.timers })
  unfolding kill_alarm
  kill-stops = rw in_range (rw minus (rw mine))

free-dropped :
    (c : Kernel) (n : ℕ)
    → 4 < n
    → n < nr_tmr
    → not_mine c n ≡ false
    → free_timer (n + 1) c ≡ ok (pos e_ok) (dropped n c)
unfolding free_timer release_timer lock_tmr_semaphore lock_semaphore_nb unlock_tmr_semaphore
    unlock_semaphore_nb
free-dropped c n lo hi mine =
    let d = record c { held = (tmr_sema + c.semaphores) ∷ c.held } in
    rw (in_range c n lo hi mine) (
      rw (minus c n lo hi mine) (
        rw mine (
          rw (le→not_ltb n 5 (omega arith)) (
            rw (kill-stops d n lo hi mine) (
              ap
                (λ h.
                  ok (pos e_ok)
                    (record c { timers = drop_timer n (stop_timer n c.timers); held = h }))
                (release-head (tmr_sema + c.semaphores) c.held))))))

module _ (k : Kernel) (n : ℕ) where
  granted_mine : not_mine (granted n k) n ≡ false
  unfolding take_timer
  granted_mine = ground arith

  dropped_taken :
      k.timers.taken n ≡ false
      → (a : ℕ) → (dropped n (granted n k)).timers.taken a ≡ k.timers.taken a
  unfolding take_timer drop_timer stop_timer
  dropped_taken free a = ground arith

  dropped_state :
      (((dropped n (granted n k)).timers.tmr n).owner ≡ 0)
      × ((dropped n (granted n k)).timers.enabled n ≡ false)
  unfolding take_timer drop_timer stop_timer
  dropped_state = ground arith

-- Freeing a timer that the running app was just given succeeds, with the semaphores held as before:
-- the same timers are taken as before it was given, it has no owner, and its interrupt is off.
pub free_timer-alloc :
    (k : Kernel) (n : ℕ)
    → 4 < n
    → n < nr_tmr
    → k.timers.taken n ≡ false
    → Returns
        (λ r c.
          (r ≡ pos e_ok)
          × (c.held ≡ k.held)
          × ((a : ℕ) → c.timers.taken a ≡ k.timers.taken a)
          × (((c.timers.tmr n).owner ≡ 0) × (c.timers.enabled n ≡ false)))
        (free_timer (n + 1) (granted n k))
free_timer-alloc k n lo hi free =
    rw (free-dropped (granted n k) n lo hi (granted_mine k n))
      (refl, refl, dropped_taken k n free, dropped_state k n)
