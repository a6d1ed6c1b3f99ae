-- ===== src/Sched/Rotation.antt =====
-- The queue of one priority after SelectThreadToRunHelper: the threads take turns.
use mathlib.Core.Path.{subst}
use rf.Prelude.{
  ℕ, ◌≤◌, ◌<◌, ◌≡◌, refl, sym, ap, ◌∙◌, true, false, none, some, List, [], ◌∷◌, ◌++◌, arith,
  if◌then◌else◌, append_assoc, head_or, last_or, length, length-append, length-le-Handles, ◌∈◌, ◌∉◌,
  head_or-append, has-append, eq_self, Handles-mem, Handles, IsDistinct, mem-head,
}
use rf.Kernel.Config.{nr_tcb}
use rf.Kernel.State.{Tasks}
use rf.Links.{Seg, Ring, Seg-right}
use rf.Links.Rotate.{Ring-rotate, IsDistinct-rotate, Handles-rotate}
use rf.Tcb.Ready.Shape.{nexts, prevs, IsQueue}
use rf.Sched.{may_run, select_helper}
use rf.Sched.Select.{tail_of, at_head, loop-found, loop-none, helper_loop, helper_empty}

-- A ring that is not empty, as a segment.
ring_seg :
    (nx pv : ℕ → ℕ) (x : ℕ) (pre post : List ℕ)
    → Ring nx pv (pre ++ x ∷ post)
    → Seg nx pv (last_or 0 (pre ++ x ∷ post)) (pre ++ x ∷ post) (head_or x pre)
ring_seg nx pv x [] post r = r
ring_seg nx pv x (y ∷ pre) post r = r

head_out :
    (x : ℕ) (pre post : List ℕ)
    → IsDistinct (pre ++ x ∷ post)
    → head_or x pre ∉ tail_of (pre ++ x ∷ post)
head_out x [] post d = d.0
head_out x (y ∷ pre) post d = d.0

head_in : (x : ℕ) (pre post : List ℕ) → head_or x pre ∈ pre ++ x ∷ post
head_in x [] post = mem-head x post
head_in x (y ∷ pre) post = mem-head y (pre ++ x ∷ post)

head_of : (x : ℕ) (pre post : List ℕ) → head_or 0 (pre ++ x ∷ post) ≡ head_or x pre
head_of x [] post = refl
head_of x (y ∷ pre) post = refl

module _ (cpu pri x : ℕ) (s : Tasks) (pre post : List ℕ) (q : IsQueue s pri (pre ++ x ∷ post)) where
  seg : Seg (nexts s) (prevs s) (last_or 0 (pre ++ x ∷ post)) (pre ++ x ∷ post) (head_or x pre)
  seg = ring_seg (nexts s) (prevs s) x pre post q.ring

  head_handle : (0 < head_or x pre) × (head_or x pre ≤ nr_tcb)
  head_handle = Handles-mem nr_tcb (pre ++ x ∷ post) (head_or x pre) q.handles (head_in x pre post)

  short : length pre < nr_tcb
  short = omega (
    arith,
    length-append pre (x ∷ post),
    length-le-Handles nr_tcb (pre ++ x ∷ post) q.handles q.distinct,
  )

  next_of : nexts s x ≡ head_or 0 (post ++ (pre ++ x ∷ []))
  next_of =
      (Seg-right (nexts s) (prevs s) (last_or 0 (pre ++ x ∷ post)) pre (x ∷ post) (head_or x pre)
        seg).1
      ∙ (ap (λ e. head_or e post) (sym (head_of x pre []))
          ∙ sym (head_or-append 0 post (pre ++ x ∷ [])))

  -- The queue starts after `x`.
  turned : IsQueue (at_head pri (nexts s x) s) pri (post ++ (pre ++ x ∷ []))
  turned =
      let same : (pre ++ x ∷ []) ++ post ≡ pre ++ x ∷ post = append_assoc pre (x ∷ []) post in
      record {
        head = ap (λ b. if b then nexts s x else s.ready_q pri) (eq_self pri) ∙ next_of;
        ring =
            Ring-rotate (nexts s) (prevs s) (pre ++ x ∷ []) post
              (subst (Ring (nexts s) (prevs s)) (sym same) q.ring);
        distinct = IsDistinct-rotate (pre ++ x ∷ []) post (subst IsDistinct (sym same) q.distinct);
        handles =
            Handles-rotate nr_tcb (pre ++ x ∷ []) post
              (subst (Handles nr_tcb) (sym same) q.handles);
        level = λ a i. q.level a (member a i);
      }
    where
      member : (a : ℕ) → a ∈ post ++ (pre ++ x ∷ []) → a ∈ pre ++ x ∷ post
      member a i = ground (
        arith,
        has-append a post (pre ++ x ∷ []),
        has-append a pre (x ∷ []),
        has-append a pre (x ∷ post),
      )

  -- Of a well-formed queue the first thread `x` that the core may run is selected, and the queue then
  -- starts after it: the threads in front of `x` and `x` itself come after those behind it.
  pub select-turns :
      ((a : ℕ) → a ∈ pre → may_run cpu (s.tcb a) ≡ false)
      → may_run cpu (s.tcb x) ≡ true
      → (select_helper cpu pri s ≡ (some x, at_head pri (nexts s x) s))
        × IsQueue (at_head pri (nexts s x) s) pri (post ++ (pre ++ x ∷ []))
  select-turns barred fits = (
    helper_loop cpu pri (head_or x pre) s (q.head ∙ head_of x pre post) head_handle.0 head_handle.1
        ∙ loop-found cpu pri (head_or x pre) s nr_tcb (last_or 0 (pre ++ x ∷ post)) (head_or x pre)
            x pre post short seg q.handles (head_out x pre post q.distinct) barred fits,
    turned,
  )

-- If the core may run none of the threads of a well-formed queue, none is selected and nothing is
-- changed.
pub select-none :
    (cpu pri : ℕ) (s : Tasks) (xs : List ℕ)
    → IsQueue s pri xs
    → ((a : ℕ) → a ∈ xs → may_run cpu (s.tcb a) ≡ false)
    → select_helper cpu pri s ≡ (none, s)
select-none cpu pri s [] q barred = helper_empty cpu pri s q.head
select-none cpu pri s (x ∷ xs) q barred =
    helper_loop cpu pri x s q.head q.handles.0 q.handles.1
    ∙ loop-none cpu pri x s nr_tcb (last_or x xs) x xs q.ring q.handles q.handles.0 q.handles.1
        q.distinct.0 barred
