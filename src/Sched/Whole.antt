-- ===== src/Sched/Whole.antt =====
-- SelectThreadToRun against a scheduler on lists.
use mathlib.Core.Path.{subst}
use rf.Prelude.{
  ℕ, zero, suc, ◌+◌, ◌%◌, ◌≤◌, ◌<◌, ◌≡◌, refl, sym, ap, ◌∙◌, ◌^◌, [], if◌then◌else◌, Bool, ◌||◌,
  Option, none, some, List, ◌∷◌, ◌++◌, arith, ◌==◌, update, Bool-cases, inl, inr,
}
use rf.Kernel.Run.{Returns, ok}
use rf.Kernel.State.{Tasks, Kernel}
use rf.Tcb.Ready.Shape.{nexts, IsQueue, IsReady, IsQueue-frame, IsReady-update}
use rf.Msg.Pool.{u32}
use rf.Sched.{select_helper, select_from, search_order, chosen, select_thread_to_run}
use rf.Sched.Select.{at_head}
use rf.Sched.Rotation.{select-turns, select-none}
use rf.Sched.Turn.{
  first_fit, before, behind, turn, fit-split, fit-passes, before-fails, none-fails, turn_found,
}

-- The core `cpu` may run the thread `a`.
abbrev pub fits : (cpu : ℕ) → Tasks → ℕ → Bool
fits cpu s a = ((s.tcb a).affinity == cpu) || ((s.tcb a).affinity == 63)

-- The first thread that passes the test in `n` queues, which then take turns or stay.
abbrev pub pick : (f : ℕ → Bool) (n : ℕ) (level : ℕ → ℕ) → (ℕ → List ℕ) → Option ℕ × (ℕ → List ℕ)
pick f zero level q = (none, q)
pick f (suc n) level q = elim (first_fit f (q (level n))) [
  | none ↦ pick f n level q
  | some x ↦ (some x, update q (level n) (turn f (q (level n))))
]

-- The outcome and the tables of a choice agree with those on lists.
abbrev pub Picked : Tasks → Option ℕ × (ℕ → List ℕ) → Option ℕ × Tasks → Type 0
Picked s c r = (r.0 ≡ c.0) × IsReady r.1 c.1 × (r.1 ≡ record s { ready_q = r.1.ready_q })

module _ (cpu n : ℕ) (level : ℕ → ℕ) (s : Tasks) where
  from_next :
      select_helper cpu (level n) s ≡ (none, s)
      → select_from (suc n) cpu level s ≡ select_from n cpu level s
  unfolding select_from
  from_next e = rw (e, select_from) (ap (λ r. select_from n cpu level r.1) e)

  from_found :
      (x : ℕ) (t : Tasks)
      → select_helper cpu (level n) s ≡ (some x, t)
      → select_from (suc n) cpu level s ≡ (some x, t)
  unfolding select_from
  from_found x t e = rw (e, select_from) (ap (λ r. (some x, r.1)) e)

module _ (cpu : ℕ) (level : ℕ → ℕ) (s : Tasks) (q : ℕ → List ℕ) (ready : IsReady s q) where
  from_none :
      (n : ℕ)
      → level n ≤ 31
      → first_fit (fits cpu s) (q (level n)) ≡ none
      → Picked s (pick (fits cpu s) n level q) (select_from n cpu level s)
      → Picked s (pick (fits cpu s) (suc n) level q) (select_from (suc n) cpu level s)
  from_none n le e r =
      rw
        (from_next cpu n level s (
          select-none cpu (level n) s (q (level n)) (ready (level n) le)
            (none-fails (fits cpu s) (q (level n)) e)))
        (rw (e, pick) r)

  from_some :
      (n x : ℕ)
      → level n ≤ 31
      → first_fit (fits cpu s) (q (level n)) ≡ some x
      → Picked s (pick (fits cpu s) (suc n) level q) (select_from (suc n) cpu level s)
  from_some n x le e =
      let f = fits cpu s in
      let pri : ℕ = level n in
      let xs : List ℕ = q pri in
      let t : Tasks = at_head pri (nexts s x) s in
      let mine : IsQueue s pri (before f xs ++ x ∷ behind f xs) =
        subst (IsQueue s pri) (fit-split f x xs e) (ready pri le) in
      let found =
        select-turns cpu pri x s (before f xs) (behind f xs) mine (before-fails f xs)
          (fit-passes f x xs e) in
      rw (from_found cpu n level s x t found.0) (
        rw (e, pick)
          (
            refl,
            IsReady-update t q pri (turn f xs)
                (subst (IsQueue t pri) (sym (turn_found f x xs e)) found.1)
                (λ k lk ne.
                  IsQueue-frame s t k (q k) (ground arith) (λ a i. (refl, refl)) (λ a. refl)
                    (ready k lk)),
            refl,
          ))

  pub select-pick :
      (n : ℕ)
      → ((m : ℕ) → m < n → level m ≤ 31)
      → Picked s (pick (fits cpu s) n level q) (select_from n cpu level s)
  unfolding select_from
  select-pick zero le = (refl, ready, refl)
  select-pick (suc n) le =
      go (select-pick n λ m lt. le m (omega arith)) (first_fit (fits cpu s) (q (level n))) refl
    where
      go :
          Picked s (pick (fits cpu s) n level q) (select_from n cpu level s)
          → (o : Option ℕ) → first_fit (fits cpu s) (q (level n)) ≡ o
          → Picked s (pick (fits cpu s) (suc n) level q) (select_from (suc n) cpu level s)
      go r none e = from_none n (le n (omega arith)) e r
      go r (some x) e = from_some n x (le n (omega arith)) e

-- The priorities in the order of a search: from 31 down to 0, and from 0 up to 31.
abbrev pub downward : List ℕ
downward =
    31 ∷ 30 ∷ 29 ∷ 28 ∷ 27 ∷ 26 ∷ 25 ∷ 24 ∷ 23 ∷ 22 ∷ 21 ∷ 20 ∷ 19 ∷ 18 ∷ 17 ∷ 16 ∷ 15 ∷ 14 ∷ 13
    ∷ 12 ∷ 11 ∷ 10 ∷ 9 ∷ 8 ∷ 7 ∷ 6 ∷ 5 ∷ 4 ∷ 3 ∷ 2 ∷ 1 ∷ 0 ∷ []

abbrev pub upward : List ℕ
upward =
    0 ∷ 1 ∷ 2 ∷ 3 ∷ 4 ∷ 5 ∷ 6 ∷ 7 ∷ 8 ∷ 9 ∷ 10 ∷ 11 ∷ 12 ∷ 13 ∷ 14 ∷ 15 ∷ 16 ∷ 17 ∷ 18 ∷ 19 ∷ 20
    ∷ 21 ∷ 22 ∷ 23 ∷ 24 ∷ 25 ∷ 26 ∷ 27 ∷ 28 ∷ 29 ∷ 30 ∷ 31 ∷ []

-- The first thread that passes the test in the queues of these priorities, and the queues after the turn of
-- the one it is in.
abbrev pub schedule : (f : ℕ → Bool) → List ℕ → (ℕ → List ℕ) → Option ℕ × (ℕ → List ℕ)
schedule f [] q = (none, q)
schedule f (p ∷ ps) q = elim (first_fit f (q p)) [
  | none ↦ schedule f ps q
  | some x ↦ (some x, update q p (turn f (q p)))
]

-- The numbers that `level` gives for n - 1 down to 0.
abbrev levels : (n : ℕ) (level : ℕ → ℕ) → List ℕ
levels zero level = []
levels (suc n) level = level n ∷ levels n level

pick-schedule :
    (f : ℕ → Bool) (n : ℕ) (level : ℕ → ℕ) (q : ℕ → List ℕ)
    → pick f n level q ≡ schedule f (levels n level) q
pick-schedule f zero level q = refl
pick-schedule f (suc n) level q = go (pick-schedule f n level q) (first_fit f (q (level n)))
  where
    go :
        pick f n level q ≡ schedule f (levels n level) q
        → (o : Option ℕ)
        → (elim o [
          | none ↦ pick f n level q
          | some x ↦ (some x, update q (level n) (turn f (q (level n))))
        ])
          ≡ (elim o [
            | none ↦ schedule f (levels n level) q
            | some x ↦ (some x, update q (level n) (turn f (q (level n))))
          ])
    go ih none = ih
    go ih (some x) = refl

-- The running thread where none was found.
abbrev pub or_running : (running : ℕ) → Option ℕ → ℕ
or_running running none = running
or_running running (some h) = h

chosen-or_running : (running : ℕ) (o : Option ℕ) → chosen running o ≡ or_running running o
chosen-or_running running none = refl
chosen-or_running running (some h) = refl

-- The priorities in the order of the call with this number.
abbrev pub by_call : (calls : ℕ) → List ℕ
by_call calls = if calls % 32 == 0 then upward else downward

levels-by_call : (calls : ℕ) → levels 32 (search_order calls) ≡ by_call calls
levels-by_call calls = elim (Bool-cases (calls % 32 == 0)) [ inl e ↦ rw e refl | inr e ↦ rw e refl ]

search_order-le : (calls m : ℕ) → m < 32 → search_order calls m ≤ 31
search_order-le calls m lt = elim (Bool-cases (calls % 32 == 0)) [
  | inl e ↦ rw e (omega arith)
  | inr e ↦ rw e (omega arith)
]

select_thread_lem :
    (k : Kernel)
    → let calls = u32 (k.invert + 1) in
      let r = select_from 32 k.cpu (search_order calls) k.tasks in
      select_thread_to_run k
      ≡ ok (chosen k.running_tcb r.0) (record k { invert = calls; tasks = r.1 })
unfolding select_thread_to_run
select_thread_lem k = refl

-- SelectThreadToRun on well-formed ready queues does what a scheduler on lists does: it returns the first
-- thread that this core may run, in the queues of the priorities 31 down to 0 (0 up to 31 at each 32nd call),
-- or the running thread if there is none. The queue of that thread is turned, the other queues keep their
-- threads and all are well formed; the call is counted, and nothing else in the kernel changes.
pub select-scheduler :
    (k : Kernel) (q : ℕ → List ℕ)
    → IsReady k.tasks q
    → Returns
        (λ r c.
          let calls = (k.invert + 1) % 2 ^ 32 in
          let p = schedule (fits k.cpu k.tasks) (by_call calls) q in
          (r ≡ or_running k.running_tcb p.0)
          × IsReady c.tasks p.1
          × (c ≡ record k { invert = calls; tasks = record k.tasks { ready_q = c.tasks.ready_q } }))
        (select_thread_to_run k)
select-scheduler k q ready =
    let calls = u32 (k.invert + 1) in
    let order = search_order calls in
    let f = fits k.cpu k.tasks in
    let same : pick f 32 order q ≡ schedule f (by_call calls) q =
      pick-schedule f 32 order q ∙ ap (λ l. schedule f l q) (levels-by_call calls) in
    let c = schedule f (by_call calls) q in
    let r =
      subst (λ c. Picked k.tasks c (select_from 32 k.cpu order k.tasks)) same
        (select-pick k.cpu order k.tasks q ready 32 (search_order-le calls)) in
    rw (select_thread_lem k) (
      ap (chosen k.running_tcb) r.0 ∙ chosen-or_running k.running_tcb c.0,
      r.1,
      ap (λ t. record k { invert = calls; tasks = t }) r.2,
    )
