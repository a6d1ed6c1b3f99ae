-- ===== src/Tcb/Ready/Shape.antt =====
-- What the ready queues stand for: a list of threads for each priority, oldest first.
use mathlib.Core.Path.{subst}
use rf.Prelude.{
  ℕ, ◌≤◌, ◌<◌, ◌≡◌, ◌∙◌, ap, false, update, none, some, refl, List, [], ◌∷◌, arith, ◌==◌, head_or,
  last_or, ◌∈◌, ◌∉◌, has, IsDistinct, Handles, Bool-cases, ==-eq, inl, inr,
}
use rf.Kernel.Config.{nr_tcb, out_of_range}
use rf.Kernel.State.{Tasks}
use rf.Links.{Seg, Ring, Seg-frame}
use rf.Tcb.{tcb_handle_to_pointer}

abbrev pub nexts : Tasks → ℕ → ℕ
nexts s h = (s.tcb h).next

abbrev pub prevs : Tasks → ℕ → ℕ
prevs s h = (s.tcb h).prev

abbrev pub priorities : Tasks → ℕ → ℕ
priorities s h = (s.tcb h).priority

-- `xs` are the threads of the queue for the priority `pri`, in order.
pub record IsQueue (s : Tasks) (pri : ℕ) (xs : List ℕ) : Type 0 where
  pub head : s.ready_q pri ≡ head_or 0 xs
  pub ring : Ring (nexts s) (prevs s) xs
  pub distinct : IsDistinct xs
  pub handles : Handles nr_tcb xs
  pub level : (a : ℕ) → a ∈ xs → priorities s a ≡ pri

-- `q` gives the queue of every priority.
abbrev pub IsReady : Tasks → (ℕ → List ℕ) → Type 0
IsReady s q = (pri : ℕ) → pri ≤ 31 → IsQueue s pri (q pri)

pub out_of_range_lem : (h : ℕ) → 0 < h → h ≤ nr_tcb → out_of_range nr_tcb h ≡ false
out_of_range_lem h a b = ground arith

pub null_handle : tcb_handle_to_pointer 0 ≡ none
unfolding tcb_handle_to_pointer
null_handle = refl

pub valid_handle : (h : ℕ) → 0 < h → h ≤ nr_tcb → tcb_handle_to_pointer h ≡ some h
unfolding tcb_handle_to_pointer
valid_handle h a b = ground arith

-- A change that spares the nodes of a queue, its head and the priorities leaves the queue.
pub IsQueue-frame :
    (s t : Tasks) (pri : ℕ) (xs : List ℕ)
    → t.ready_q pri ≡ s.ready_q pri
    → ((a : ℕ) → a ∈ xs → (nexts t a ≡ nexts s a) × (prevs t a ≡ prevs s a))
    → ((a : ℕ) → priorities t a ≡ priorities s a)
    → IsQueue s pri xs
    → IsQueue t pri xs
IsQueue-frame s t pri xs same_head same_links same_level q = record {
  head = same_head ∙ q.head;
  ring = frame xs same_links q.ring;
  distinct = q.distinct;
  handles = q.handles;
  level = λ a i. same_level a ∙ q.level a i;
}
  where
    frame :
        (ys : List ℕ)
        → ((a : ℕ) → a ∈ ys → (nexts t a ≡ nexts s a) × (prevs t a ≡ prevs s a))
        → Ring (nexts s) (prevs s) ys
        → Ring (nexts t) (prevs t) ys
    frame [] same r = tt
    frame (y ∷ ys) same r =
        Seg-frame (nexts s) (prevs s) (nexts t) (prevs t) (last_or y ys) (y ∷ ys) y same r

-- Every node of a segment leads to a node or to the end.
Seg-out :
    (nx pv : ℕ → ℕ) (n p e : ℕ) (xs : List ℕ)
    → 0 < e
    → Handles n xs
    → Seg nx pv p xs e
    → (a : ℕ) → a ∈ xs
    → 0 < nx a
Seg-out nx pv n p e [] pe v s a i = cc
Seg-out nx pv n p e (x ∷ []) pe v s a i = ground arith
Seg-out nx pv n p e (x ∷ y ∷ xs) pe v s a i =
    ground (arith, Seg-out nx pv n x e (y ∷ xs) pe v.2 s.2 a)

-- The links of a queued thread are not null, so an unlinked thread is in no queue.
pub unlinked-not-mem :
    (s : Tasks) (pri : ℕ) (xs : List ℕ) → IsQueue s pri xs → (h : ℕ) → nexts s h ≡ 0 → h ∉ xs
unlinked-not-mem s pri xs q h free = elim (Bool-cases (has h xs)) [
  | inl i ↦ absurd (omega (arith, linked xs q.ring q.handles h i))
  | inr o ↦ o
]
  where
    linked :
        (ys : List ℕ)
        → Ring (nexts s) (prevs s) ys
        → Handles nr_tcb ys
        → (a : ℕ) → a ∈ ys
        → 0 < nexts s a
    linked [] r v a i = cc
    linked (y ∷ ys) r v a i =
        Seg-out (nexts s) (prevs s) nr_tcb (last_or y ys) y (y ∷ ys) v.0 v r a i

-- Threads of different priorities are different.
pub levels-ne :
    (s : Tasks) (b a p pri : ℕ)
    → priorities s b ≡ p
    → priorities s a ≡ pri
    → (p == pri) ≡ false
    → (b == a) ≡ false
levels-ne s b a p pri e f ne = elim (Bool-cases (b == a)) [
  | inl same ↦ absurd (ground (arith, ap (priorities s) (==-eq b a same)))
  | inr n ↦ n
]

-- The last node of a queue, which the link back from its first node names.
pub ring_last :
    (s : Tasks) (pri x : ℕ) (xs : List ℕ) → IsQueue s pri (x ∷ xs) → prevs s x ≡ last_or x xs
ring_last s pri x xs q = q.ring.0

-- The queues after one of them has changed.
pub IsReady-update :
    (t : Tasks) (q : ℕ → List ℕ) (p : ℕ) (zs : List ℕ)
    → IsQueue t p zs
    → ((pri : ℕ) → pri ≤ 31 → (p == pri) ≡ false → IsQueue t pri (q pri))
    → IsReady t (update q p zs)
IsReady-update t q p zs mine others pri le = elim (Bool-cases (p == pri)) [
  | inl e ↦ rw e (subst (λ k. IsQueue t k zs) (==-eq p pri e) mine)
  | inr n ↦ rw n (others pri le n)
]
