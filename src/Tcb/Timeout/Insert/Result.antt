-- ===== src/Tcb/Timeout/Insert/Result.antt =====
-- TCBInsertIntoTimeoutList: the list that the links make.
use mathlib.Core.Path.{subst}
use rf.Prelude.{
  ℕ, ◌-◌, ◌≤◌, ◌<◌, ◌≡◌, refl, ◌∙◌, sym, ap, false, none, List, [], ◌∷◌, ◌++◌, arith, ◌==◌,
  if◌then◌else◌, head_or, last_or, ◌∈◌, ◌∉◌, IsDistinct, Handles, not-mem-ne, ne-head_or,
  ne-last_or, not-mem-left, not-mem-right, head_or-append, IsDistinct-insert, Handles-append,
  Handles-left, Handles-right,
}
use rf.Kernel.Config.{nr_tcb}
use rf.Kernel.State.{Tasks}
use rf.Links.Chain.{Chain-insert}
use rf.Tcb.Ready.Shape.{nexts, prevs}
use rf.Tcb.Timeout.{linked}
use rf.Tcb.Timeout.Deadlines.{
  deadlines, insert_by, front, back, rest, front-append-back, deadlines-insert,
}
use rf.Tcb.Timeout.Shape.{timeouts, IsTimeouts, Handles-no_zero, head_ptr, last_ptr}
use rf.Tcb.Timeout.Insert.Link.{
  linked_next_other, linked_prev_other, linked_timeout_other, linked_self, linked_list_first,
  linked_list_later, last_ptr_lem, handle-last_ptr, handle-head_ptr,
}

module _ (h to : ℕ) (s : Tasks) (xs : List ℕ) (c : IsTimeouts s xs) (hv : 0 < h) (hn : h ≤ nr_tcb)
    (out : h ∉ xs) (free : nexts s h ≡ 0) (free' : prevs s h ≡ 0) where
  abbrev pub tm : ℕ → ℕ
  tm = timeouts s

  abbrev pub fr : List ℕ
  fr = front tm to xs

  abbrev pub bk : List ℕ
  bk = back tm to xs

  abbrev pub result : Tasks
  result = linked h (rest tm to xs) (last_ptr none fr) (head_ptr bk) s

  pub split : fr ++ bk ≡ xs
  split = front-append-back tm to xs

  pub distinct' : IsDistinct (fr ++ bk)
  distinct' = rw split c.distinct

  pub handles' : Handles nr_tcb (fr ++ bk)
  handles' = rw split c.handles

  pub out' : h ∉ fr ++ bk
  out' = rw split out

  pub live : 0 ∉ fr ++ bk
  live = Handles-no_zero nr_tcb (fr ++ bk) handles'

  pub link-Relinked :
      (a : ℕ)
      → a ∈ fr ++ bk
      → (nexts result a ≡ (if a == last_or 0 fr then h else nexts s a))
        × (prevs result a ≡ (if a == head_or 0 bk then h else prevs s a))
  link-Relinked a i =
      let ne = not-mem-ne h a (fr ++ bk) out' i in
      let nz = not-mem-ne 0 a (fr ++ bk) live i in
      (
        linked_next_other h (rest tm to xs) s a ne nz (last_ptr none fr) (head_ptr bk)
            ∙ ap (λ l. if a == l then h else nexts s a) (handle-last_ptr fr),
        linked_prev_other h (rest tm to xs) s a ne nz (last_ptr none fr) (head_ptr bk)
            ∙ ap (λ l. if a == l then h else prevs s a) (handle-head_ptr bk),
      )

  pub self :
      (nexts result h ≡ head_or 0 bk)
      × (prevs result h ≡ last_or 0 fr)
      × (timeouts result h ≡ rest tm to xs)
  self =
      let r =
        linked_self h (rest tm to xs) s (last_ptr none fr) (head_ptr bk)
          (subst (λ l. (h == l) ≡ false) (sym (handle-last_ptr fr))
            (ne-last_or h fr hv (not-mem-left h fr bk out')))
          (subst (λ l. (h == l) ≡ false) (sym (handle-head_ptr bk))
            (ne-head_or h bk hv (not-mem-right h fr bk out'))) in
      (r.0 ∙ handle-head_ptr bk, r.1 ∙ handle-last_ptr fr, r.2)

  pub first_lem : (ys : List ℕ) → fr ≡ ys → result.timeout_list ≡ head_or h ys
  first_lem [] e =
      ap (λ l. (linked h (rest tm to xs) (last_ptr none l) (head_ptr bk) s).timeout_list) e
      ∙ linked_list_first h (rest tm to xs) s (head_ptr bk)
  first_lem (y ∷ ys) e =
      ap (λ l. (linked h (rest tm to xs) l (head_ptr bk) s).timeout_list)
        (ap (last_ptr none) e ∙ last_ptr_lem y ys)
      ∙ linked_list_later h (rest tm to xs) s (last_or y ys) (head_ptr bk)
      ∙ c.head
      ∙ ap (head_or 0) (sym split ∙ ap (λ l. l ++ bk) e)

  pub result-IsTimeouts : IsTimeouts result (fr ++ h ∷ bk)
  result-IsTimeouts = record {
    head = first_lem fr refl ∙ sym (head_or-append 0 fr (h ∷ bk));
    chain =
        Chain-insert (nexts s) (prevs s) (nexts result) (prevs result) fr bk h h distinct' live
          link-Relinked h refl refl self.0 self.1 (rw split c.chain);
    distinct = IsDistinct-insert h fr bk distinct' out';
    handles =
        Handles-append nr_tcb fr (h ∷ bk) (Handles-left nr_tcb fr bk handles')
          (hv, hn, Handles-right nr_tcb fr bk handles');
  }

  pub result-deadlines :
      deadlines (timeouts result) 0 (fr ++ h ∷ bk) ≡ insert_by h to (deadlines tm 0 xs)
  result-deadlines =
      deadlines-insert tm (timeouts result) h 0 to xs c.distinct
        (Handles-no_zero nr_tcb xs c.handles) self.2
        (λ a i.
          linked_timeout_other h (rest tm to xs) s a (not-mem-ne h a xs out i)
            (not-mem-ne 0 a xs (Handles-no_zero nr_tcb xs c.handles) i) (last_ptr none fr)
            (head_ptr bk)
          ∙ ap (λ l. if a == l then tm a - rest tm to xs else tm a) (handle-head_ptr bk))
      ∙ ap (λ n. insert_by h n (deadlines tm 0 xs)) (omega arith)
