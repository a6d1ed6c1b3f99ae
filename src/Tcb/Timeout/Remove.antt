-- ===== src/Tcb/Timeout/Remove.antt =====
-- TCBRemoveFromTimeoutList takes the thread out and gives its ticks to the next one.
use mathlib.Core.Path.{subst}
use rf.Prelude.{
  ℕ, ◌+◌, ◌≤◌, ◌<◌, ◌≡◌, refl, ◌∙◌, ap, false, none, some, List, [], ◌∷◌, ◌++◌, arith, ◌==◌,
  if◌then◌else◌, head_or, last_or, ◌∈◌, ◌∉◌, IsDistinct, IsDistinct-remove, Handles, Handles-append,
  Handles-left, Handles-right, not-mem-ne, not-mem-middle, ne-head_or, ne-last_or, not-mem-left,
  not-mem-right, head_or-le, eq_self, head-ne, true, last_or-le,
}
use rf.Kernel.Config.{nr_tcb, e_ok}
use rf.Kernel.Run.{ok, Returns}
use rf.Kernel.Types.{ts_none}
use rf.Kernel.State.{Tasks}
use rf.Links.{Seg, Seg-left, Seg-right}
use rf.Links.Chain.{Chain-join}
use rf.Tcb.{tcb_handle_to_pointer}
use rf.Tcb.Ready.Shape.{nexts, prevs, valid_handle}
use rf.Tcb.Timeout.{timeout_unlink, timeout_removed, tcb_remove_from_timeout_list}
use rf.Tcb.Timeout.Deadlines.{deadlines, erase_key, deadlines-erase}
use rf.Tcb.Timeout.Shape.{timeouts, IsTimeouts, Handles-no_zero}

-- A handle or the null handle, as a pointer.
handle_or_null : (n : ℕ) → n ≤ nr_tcb → tcb_handle_to_pointer n ≡ (if n == 0 then none else some n)
unfolding tcb_handle_to_pointer
handle_or_null n h = ground arith

module _ (h n p : ℕ) (s : Tasks) (hn : nexts s h ≡ n) (hp : prevs s h ≡ p) (bn : n ≤ nr_tcb)
    (bp : p ≤ nr_tcb) (en : (h == n) ≡ false) (ep : (h == p) ≡ false) where
  removed_other :
      (a : ℕ)
      → (h == a) ≡ false
      → (0 == a) ≡ false
      → (nexts (timeout_removed h s) a ≡ (if a == p then n else nexts s a))
        × (prevs (timeout_removed h s) a ≡ (if a == n then p else prevs s a))
        × (timeouts (timeout_removed h s) a
            ≡ (if a == n then timeouts s a + timeouts s h else timeouts s a))
  unfolding timeout_removed timeout_unlink
  removed_other a e z = ground (arith, handle_or_null n, handle_or_null p)

  removed_list :
      (timeout_removed h s).timeout_list ≡ (if h == s.timeout_list then n else s.timeout_list)
  unfolding timeout_removed timeout_unlink
  removed_list = ground (arith, handle_or_null n, handle_or_null p)

removed_self :
    (h : ℕ) (s : Tasks)
    → (((timeout_removed h s).tcb h).next ≡ 0)
      × (((timeout_removed h s).tcb h).prev ≡ 0)
      × (((timeout_removed h s).tcb h).status ≡ ts_none)
unfolding timeout_removed
removed_self h s = ground arith

module _ (h : ℕ) (s : Tasks) (xs ys : List ℕ) (c : IsTimeouts s (xs ++ h ∷ ys)) where
  apart : IsDistinct (xs ++ ys)
  apart = IsDistinct-remove h xs ys c.distinct

  out : h ∉ xs ++ ys
  out = not-mem-middle h xs ys c.distinct

  left : Handles nr_tcb xs
  left = Handles-left nr_tcb xs (h ∷ ys) c.handles

  right : Handles nr_tcb (h ∷ ys)
  right = Handles-right nr_tcb xs (h ∷ ys) c.handles

  live : 0 ∉ xs ++ ys
  live = Handles-no_zero nr_tcb (xs ++ ys) (Handles-append nr_tcb xs ys left right.2)

  here : Seg (nexts s) (prevs s) (last_or 0 xs) (h ∷ ys) 0
  here = Seg-right (nexts s) (prevs s) 0 xs (h ∷ ys) 0 c.chain

  ne_next : (h == head_or 0 ys) ≡ false
  ne_next = ne-head_or h ys right.0 (not-mem-right h xs ys out)

  ne_prev : (h == last_or 0 xs) ≡ false
  ne_prev = ne-last_or h xs right.0 (not-mem-left h xs ys out)

  changed :
      (a : ℕ)
      → a ∈ xs ++ ys
      → (nexts (timeout_removed h s) a ≡ (if a == last_or 0 xs then head_or 0 ys else nexts s a))
        × (prevs (timeout_removed h s) a ≡ (if a == head_or 0 ys then last_or 0 xs else prevs s a))
        × (timeouts (timeout_removed h s) a
            ≡ (if a == head_or 0 ys then timeouts s a + timeouts s h else timeouts s a))
  changed a i =
      removed_other h (head_or 0 ys) (last_or 0 xs) s here.1 here.0 (head_or-le nr_tcb ys right.2)
        (last_or-le nr_tcb xs left) ne_next ne_prev a (not-mem-ne h a (xs ++ ys) out i)
        (not-mem-ne 0 a (xs ++ ys) live i)

  new_head : (zs : List ℕ) → xs ≡ zs → (timeout_removed h s).timeout_list ≡ head_or 0 (zs ++ ys)
  new_head [] e = removed ∙ ap (λ b. if b then head_or 0 ys else s.timeout_list) first
    where
      removed :
          (timeout_removed h s).timeout_list
          ≡ (if h == s.timeout_list then head_or 0 ys else s.timeout_list)
      removed =
          removed_list h (head_or 0 ys) (last_or 0 xs) s here.1 here.0
            (head_or-le nr_tcb ys right.2) (last_or-le nr_tcb xs left) ne_next ne_prev

      first : (h == s.timeout_list) ≡ true
      first = ap (λ l. h == l) (c.head ∙ ap (λ l. head_or 0 (l ++ h ∷ ys)) e) ∙ eq_self h
  new_head (z ∷ zs) e = removed ∙ ap (λ b. if b then head_or 0 ys else s.timeout_list) later ∙ old
    where
      removed :
          (timeout_removed h s).timeout_list
          ≡ (if h == s.timeout_list then head_or 0 ys else s.timeout_list)
      removed =
          removed_list h (head_or 0 ys) (last_or 0 xs) s here.1 here.0
            (head_or-le nr_tcb ys right.2) (last_or-le nr_tcb xs left) ne_next ne_prev

      old : s.timeout_list ≡ z
      old = c.head ∙ ap (λ l. head_or 0 (l ++ h ∷ ys)) e

      later : (h == s.timeout_list) ≡ false
      later =
          ap (λ l. h == l) old ∙ head-ne z h zs (subst (λ l. h ∉ l) e (not-mem-left h xs ys out))

  removed-IsTimeouts : IsTimeouts (timeout_removed h s) (xs ++ ys)
  removed-IsTimeouts = record {
    head = new_head xs refl;
    chain =
        Chain-join (nexts s) (prevs s) (nexts (timeout_removed h s)) (prevs (timeout_removed h s))
          xs ys (head_or 0 ys) (last_or 0 xs) apart live (λ a i. ((changed a i).0, (changed a i).1))
          h h refl refl (Seg-left (nexts s) (prevs s) 0 xs (h ∷ ys) 0 c.chain) here.2;
    distinct = apart;
    handles = Handles-append nr_tcb xs ys left right.2;
  }

  removed-deadlines :
      deadlines (timeouts (timeout_removed h s)) 0 (xs ++ ys)
      ≡ erase_key h (deadlines (timeouts s) 0 (xs ++ h ∷ ys))
  removed-deadlines =
      deadlines-erase (timeouts s) (timeouts (timeout_removed h s)) h 0 xs ys c.distinct live
        (λ a i. (changed a i).2)

remove-removed :
    (h : ℕ) (s : Tasks)
    → 0 < h
    → h ≤ nr_tcb
    → tcb_remove_from_timeout_list h s ≡ ok e_ok (timeout_removed h s)
unfolding tcb_remove_from_timeout_list
remove-removed h s a b = ground (arith, valid_handle h)

-- Removing a thread of a well-formed timeout list succeeds: the list loses `h` and its deadline, the
-- deadlines of the other threads stay, and `h` is left with null links and an empty status.
pub remove-deadlines :
    (h : ℕ) (s : Tasks) (xs ys : List ℕ)
    → IsTimeouts s (xs ++ h ∷ ys)
    → Returns
        (λ r t.
          (r ≡ e_ok)
          × IsTimeouts t (xs ++ ys)
          × (deadlines (timeouts t) 0 (xs ++ ys)
              ≡ erase_key h (deadlines (timeouts s) 0 (xs ++ h ∷ ys)))
          × (((t.tcb h).next ≡ 0) × ((t.tcb h).prev ≡ 0) × ((t.tcb h).status ≡ ts_none)))
        (tcb_remove_from_timeout_list h s)
remove-deadlines h s xs ys c =
    rw (remove-removed h s (right h s xs ys c).0 (right h s xs ys c).1)
      (refl, removed-IsTimeouts h s xs ys c, removed-deadlines h s xs ys c, removed_self h s)
