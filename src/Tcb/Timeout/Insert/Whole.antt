-- ===== src/Tcb/Timeout/Insert/Whole.antt =====
-- TCBInsertIntoTimeoutList inserts the thread with its deadline.
use mathlib.Core.Path.{subst}
use rf.Prelude.{
  ℕ, ◌+◌, ◌≤◌, ◌<◌, ◌≡◌, refl, ◌∙◌, sym, ap, fun_ext, false, Option, none, List, [], ◌∷◌, ◌++◌,
  arith, ◌==◌, head_or, ◌∉◌, length-le-Handles, ne_comm, ne-head_or,
}
use rf.Kernel.Config.{nr_tcb, e_ok}
use rf.Kernel.Run.{ok, Returns, returns}
use rf.Kernel.State.{Tasks, at}
use rf.Links.{Seg-frame}
use rf.Tcb.Ready.Shape.{nexts, prevs, valid_handle}
use rf.Tcb.Timeout.{
  linked, timeout_link, timeout_walk, timeout_insert, set_timeout, tcb_insert_into_timeout_list,
}
use rf.Tcb.Timeout.Deadlines.{deadlines, insert_by, front, back, rest}
use rf.Tcb.Timeout.Shape.{timeouts, IsTimeouts, head_ptr, last_ptr}
use rf.Tcb.Timeout.Insert.{walk_lem}
use rf.Tcb.Timeout.Insert.Result.{result-IsTimeouts, result-deadlines}

-- What the insertion of `h` leaves: `h` goes in with its deadline, and no other deadline moves.
abbrev pub Inserted : (h to : ℕ) → List (ℕ × ℕ) → ℕ → Tasks → Type 0
Inserted h to before r t =
    (r ≡ e_ok)
    × ((ys : List ℕ) × IsTimeouts t ys × (deadlines (timeouts t) 0 ys ≡ insert_by h to before))

module _ (h to : ℕ) (s : Tasks) (hv : 0 < h) (hn : h ≤ nr_tcb) (free : nexts s h ≡ 0)
    (free' : prevs s h ≡ 0) where
  insert_empty :
      s.timeout_list ≡ 0
      → timeout_insert h to s
        ≡ ok e_ok (record (at h (λ r. record r { timeout = to }) s) { timeout_list = h })
  unfolding timeout_insert
  insert_empty e = ground arith

  insert_walk :
      (x rest' : ℕ) (q p : Option ℕ)
      → s.timeout_list ≡ x
      → 0 < x
      → x ≤ nr_tcb
      → timeout_walk (nr_tcb + 1) h to none x s ≡ ok (rest', q, p) s
      → timeout_insert h to s ≡ ok e_ok (linked h rest' q p s)
  unfolding timeout_insert timeout_link
  insert_walk x rest' q p e a b w = ground (arith, valid_handle x)

  insert_first : IsTimeouts s [] → Returns (Inserted h to []) (timeout_insert h to s)
  insert_first c = returns (Inserted h to []) (insert_empty c.head) (
    refl,
    (
      h ∷ [],
      record { head = refl; chain = ground arith; distinct = (refl, tt); handles = (hv, hn, tt) },
      ap (λ n. (h, n) ∷ []) (ground arith),
    ),
  )

  insert_more :
      (x : ℕ) (xs : List ℕ)
      → IsTimeouts s (x ∷ xs)
      → h ∉ x ∷ xs
      → Returns (Inserted h to (deadlines (timeouts s) 0 (x ∷ xs))) (timeout_insert h to s)
  insert_more x xs c out =
      let small = length-le-Handles nr_tcb (x ∷ xs) c.handles c.distinct in
      let walk = walk_lem (nr_tcb + 1) h to none x xs s 0 hv out c.handles c.chain (omega arith) in
      returns (Inserted h to (deadlines (timeouts s) 0 (x ∷ xs)))
        (insert_walk x (rest (timeouts s) to (x ∷ xs))
          (last_ptr none (front (timeouts s) to (x ∷ xs)))
          (head_ptr (back (timeouts s) to (x ∷ xs))) c.head c.handles.0 c.handles.1 walk)
        (
          refl,
          (
            front (timeouts s) to (x ∷ xs) ++ h ∷ back (timeouts s) to (x ∷ xs),
            result-IsTimeouts h to s (x ∷ xs) c hv hn out free free',
            result-deadlines h to s (x ∷ xs) c hv hn out free free',
          ),
        )

  insert_any :
      (xs : List ℕ)
      → IsTimeouts s xs
      → h ∉ xs
      → Returns (Inserted h to (deadlines (timeouts s) 0 xs)) (timeout_insert h to s)
  insert_any [] c out = insert_first c
  insert_any (x ∷ xs) c out = insert_more x xs c out

-- Setting the status bit moves no link and no timeout.
abbrev flagged : (h : ℕ) → Tasks → Tasks
flagged h s = at h (λ r. record r { status = set_timeout r.status }) s

module _ (h : ℕ) (s : Tasks) (a : ℕ) where
  flagged_same :
      (nexts (flagged h s) a ≡ nexts s a)
      × (prevs (flagged h s) a ≡ prevs s a)
      × (timeouts (flagged h s) a ≡ timeouts s a)
  flagged_same = ground arith

flagged-IsTimeouts :
    (h : ℕ) (s : Tasks) (xs : List ℕ) → IsTimeouts s xs → IsTimeouts (flagged h s) xs
flagged-IsTimeouts h s xs c = record {
  head = c.head;
  chain =
      Seg-frame (nexts s) (prevs s) (nexts (flagged h s)) (prevs (flagged h s)) 0 xs 0
        (λ a i. ((flagged_same h s a).0, (flagged_same h s a).1)) c.chain;
  distinct = c.distinct;
  handles = c.handles;
}

insert-flagged :
    (h to : ℕ) (s : Tasks)
    → 0 < h
    → h ≤ nr_tcb
    → (s.timeout_list == h) ≡ false
    → tcb_insert_into_timeout_list h to s ≡ timeout_insert h to (flagged h s)
unfolding tcb_insert_into_timeout_list
insert-flagged h to s hv hn other = ground (arith, valid_handle h)

-- Inserting a thread that is on no list into a well-formed timeout list succeeds: the list of threads
-- and deadlines gains `h`, due in `to` ticks, in front of the first thread whose deadline is not
-- earlier, and the deadlines of the other threads stay.
pub insert-deadlines :
    (h to : ℕ) (s : Tasks) (xs : List ℕ)
    → 0 < h
    → h ≤ nr_tcb
    → nexts s h ≡ 0
    → prevs s h ≡ 0
    → IsTimeouts s xs
    → h ∉ xs
    → Returns
        (λ r t.
          (r ≡ e_ok)
          × ((ys : List ℕ) × IsTimeouts t ys
              × (deadlines (timeouts t) 0 ys ≡ insert_by h to (deadlines (timeouts s) 0 xs))))
        (tcb_insert_into_timeout_list h to s)
insert-deadlines h to s xs hv hn free free' c out =
    let before : List (ℕ × ℕ) = deadlines (timeouts s) 0 xs in
    let other : (s.timeout_list == h) ≡ false =
      rw c.head (ne_comm h (head_or 0 xs) (ne-head_or h xs hv out)) in
    let same : deadlines (timeouts (flagged h s)) 0 xs ≡ before =
      ap (λ tm. deadlines tm 0 xs) (fun_ext λ a. (flagged_same h s a).2) in
    subst (Returns (Inserted h to before)) (sym (insert-flagged h to s hv hn other)) (
      subst (λ b. Returns (Inserted h to b) (timeout_insert h to (flagged h s))) same
        (insert_any h to (flagged h s) hv hn ((flagged_same h s h).0 ∙ free)
          ((flagged_same h s h).1 ∙ free') xs (flagged-IsTimeouts h s xs c) out))
