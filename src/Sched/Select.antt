-- ===== src/Sched/Select.antt =====
-- The choice of a thread among those of one priority, SelectThreadToRunHelper.
use rf.Prelude.{
  ℕ, zero, suc, ◌≤◌, ◌<◌, ◌≡◌, refl, ◌∙◌, true, false, none, some, List, [], ◌∷◌, ◌++◌, arith, ◌==◌,
  head_or, length, ◌∈◌, ◌∉◌, Handles, mem-head, mem-tail, not-mem-ne, ne_comm, not-mem-tail,
  eq_self, update,
}
use rf.Kernel.Config.{nr_tcb}
use rf.Kernel.State.{Tasks}
use rf.Links.{Seg}
use rf.Tcb.Ready.Shape.{nexts, prevs, valid_handle, out_of_range_lem}
use rf.Sched.{may_run, select_loop, select_helper}

abbrev pub tail_of : List ℕ → List ℕ
tail_of [] = []
tail_of (x ∷ xs) = xs

-- The queue `nn` starts at the thread `head`.
abbrev pub at_head : (nn head : ℕ) → Tasks → Tasks
at_head nn head s = record s { ready_q = update s.ready_q nn head }

module _ (cpu nn h : ℕ) (s : Tasks) where
  -- One round that does not end the loop.
  loop_step :
      (fuel y z : ℕ)
      → may_run cpu (s.tcb y) ≡ false
      → nexts s y ≡ z
      → 0 < z
      → z ≤ nr_tcb
      → (z == h) ≡ false
      → select_loop (suc fuel) cpu nn h y s ≡ select_loop fuel cpu nn h z s
  unfolding select_loop
  loop_step fuel y z barred e a b ne = rw barred (rw e (rw (valid_handle z a b) (rw ne)))

  loop_hit :
      (fuel x : ℕ)
      → may_run cpu (s.tcb x) ≡ true
      → select_loop (suc fuel) cpu nn h x s ≡ (some x, at_head nn (nexts s x) s)
  unfolding select_loop
  loop_hit fuel x fits = rw fits

  loop_end :
      (fuel y : ℕ)
      → may_run cpu (s.tcb y) ≡ false
      → nexts s y ≡ h
      → 0 < h
      → h ≤ nr_tcb
      → select_loop (suc fuel) cpu nn h y s ≡ (none, s)
  unfolding select_loop
  loop_end fuel y barred e a b = rw barred (rw e (rw (valid_handle h a b) (rw (eq_self h))))

  pub loop-found :
      (fuel p e x : ℕ) (pre post : List ℕ)
      → length pre < fuel
      → Seg (nexts s) (prevs s) p (pre ++ x ∷ post) e
      → Handles nr_tcb (pre ++ x ∷ post)
      → h ∉ tail_of (pre ++ x ∷ post)
      → ((a : ℕ) → a ∈ pre → may_run cpu (s.tcb a) ≡ false)
      → may_run cpu (s.tcb x) ≡ true
      → select_loop fuel cpu nn h (head_or x pre) s ≡ (some x, at_head nn (nexts s x) s)
  loop-found zero p e x pre post lt g v out barred fits = absurd (omega arith)
  loop-found (suc fuel) p e x [] post lt g v out barred fits = loop_hit fuel x fits
  loop-found (suc fuel) p e x (y ∷ []) post lt g v out barred fits =
      loop_step fuel y x (barred y (mem-head y [])) g.1 v.2.0 v.2.1
        (ne_comm h x (not-mem-ne h x (x ∷ post) out (mem-head x post)))
      ∙ loop-found fuel y e x [] post (omega arith) g.2 v.2 (not-mem-tail h x post out) (λ a i. cc)
          fits
  loop-found (suc fuel) p e x (y ∷ z ∷ pre) post lt g v out barred fits =
      loop_step fuel y z (barred y (mem-head y (z ∷ pre))) g.1 v.2.0 v.2.1
        (ne_comm h z (not-mem-ne h z (z ∷ pre ++ x ∷ post) out (mem-head z (pre ++ x ∷ post))))
      ∙ loop-found fuel y e x (z ∷ pre) post (omega arith) g.2 v.2
          (not-mem-tail h z (pre ++ x ∷ post) out) (λ a i. barred a (mem-tail a y (z ∷ pre) i)) fits

  pub loop-none :
      (fuel p y : ℕ) (ys : List ℕ)
      → Seg (nexts s) (prevs s) p (y ∷ ys) h
      → Handles nr_tcb (y ∷ ys)
      → 0 < h
      → h ≤ nr_tcb
      → h ∉ ys
      → ((a : ℕ) → a ∈ y ∷ ys → may_run cpu (s.tcb a) ≡ false)
      → select_loop fuel cpu nn h y s ≡ (none, s)
  unfolding select_loop
  loop-none zero p y ys g v a b out barred = refl
  loop-none (suc fuel) p y [] g v a b out barred =
      loop_end fuel y (barred y (mem-head y [])) g.1 a b
  loop-none (suc fuel) p y (z ∷ zs) g v a b out barred =
      loop_step fuel y z (barred y (mem-head y (z ∷ zs))) g.1 v.2.0 v.2.1
        (ne_comm h z (not-mem-ne h z (z ∷ zs) out (mem-head z zs)))
      ∙ loop-none fuel y z zs g.2 v.2 a b (not-mem-tail h z zs out)
          (λ c i. barred c (mem-tail c y (z ∷ zs) i))

pub helper_loop :
    (cpu nn h : ℕ) (s : Tasks)
    → s.ready_q nn ≡ h
    → 0 < h
    → h ≤ nr_tcb
    → select_helper cpu nn s ≡ select_loop nr_tcb cpu nn h h s
unfolding select_helper
helper_loop cpu nn h s e a b = rw e (rw (out_of_range_lem h a b))

pub helper_empty : (cpu nn : ℕ) (s : Tasks) → s.ready_q nn ≡ 0 → select_helper cpu nn s ≡ (none, s)
unfolding select_helper
helper_empty cpu nn s e = rw e
