-- ===== src/Tcb/Timeout/Pop.antt =====
-- TCBPopTimeoutList takes the first thread off.
use rf.Prelude.{
  ℕ, ◌≤◌, ◌<◌, ◌≡◌, refl, ◌∙◌, false, List, [], ◌∷◌, arith, ◌==◌, if◌then◌else◌, head_or,
  head_or-le, not-mem-ne, ne-head_or, mem-tail, ap,
}
use rf.Kernel.Config.{nr_tcb}
use rf.Kernel.Run.{ok, Returns}
use rf.Kernel.Types.{ts_none}
use rf.Kernel.State.{Tasks, at}
use rf.Links.{Seg-set_first}
use rf.Tcb.Ready.Shape.{nexts, prevs, valid_handle}
use rf.Tcb.Timeout.{tcb_pop_timeout_list}
use rf.Tcb.Timeout.Deadlines.{deadlines, drop_first, deadlines-frame}
use rf.Tcb.Timeout.Shape.{timeouts, IsTimeouts}

-- The state after `h` is taken off and `y`, if it is a thread, has become the first.
popped : (h y : ℕ) → Tasks → Tasks
popped h y s =
    let t =
      at h (λ r. record r { status = ts_none; next = 0; prev = 0 })
        (record s { timeout_list = y }) in
    if y == 0 then t else at y (λ r. record r { prev = 0 }) t

module _ (h y : ℕ) (s : Tasks) where
  pop-popped :
      s.timeout_list ≡ h
      → 0 < h
      → h ≤ nr_tcb
      → nexts s h ≡ y
      → y ≤ nr_tcb
      → tcb_pop_timeout_list s ≡ ok h (popped h y s)
  unfolding tcb_pop_timeout_list popped
  pop-popped e a b n c = ground (arith, valid_handle h, valid_handle y)

  popped_list : (popped h y s).timeout_list ≡ y
  unfolding popped
  popped_list = ground arith

  popped_next : (a : ℕ) → (h == a) ≡ false → nexts (popped h y s) a ≡ nexts s a
  unfolding popped
  popped_next a e = ground arith

  popped_prev : (a : ℕ) → (h == a) ≡ false → (y == a) ≡ false → prevs (popped h y s) a ≡ prevs s a
  unfolding popped
  popped_prev a e f = ground arith

  popped_first : 0 < y → prevs (popped h y s) y ≡ 0
  unfolding popped
  popped_first a = ground arith

  popped_timeout : (a : ℕ) → timeouts (popped h y s) a ≡ timeouts s a
  unfolding popped
  popped_timeout a = ground arith

  popped_self :
      (h == y) ≡ false
      → (((popped h y s).tcb h).next ≡ 0)
        × (((popped h y s).tcb h).prev ≡ 0)
        × (((popped h y s).tcb h).status ≡ ts_none)
  unfolding popped
  popped_self e = ground arith

popped-IsTimeouts :
    (h : ℕ) (s : Tasks) (ys : List ℕ)
    → IsTimeouts s (h ∷ ys)
    → IsTimeouts (popped h (head_or 0 ys) s) ys
popped-IsTimeouts h s [] c = record {
  head = popped_list h 0 s;
  chain = tt;
  distinct = tt;
  handles = tt;
}
popped-IsTimeouts h s (y ∷ ys) c = record {
  head = popped_list h y s;
  chain =
      Seg-set_first (nexts s) (prevs s) (nexts (popped h y s)) (prevs (popped h y s)) h 0 y ys 0
        (popped_first h y s c.handles.2.0)
        (λ a i. popped_next h y s a (not-mem-ne h a (y ∷ ys) c.distinct.0 i))
        (λ a i.
          popped_prev h y s a (not-mem-ne h a (y ∷ ys) c.distinct.0 (mem-tail a y ys i))
            (not-mem-ne y a ys c.distinct.1.0 i))
        c.chain.2;
  distinct = c.distinct.1;
  handles = c.handles.2;
}

-- Popping a well-formed timeout list that is not empty returns its first thread `h`, left with null
-- links and an empty status. The others stay in order, and their deadlines count from that of `h`.
pub pop-deadlines :
    (h : ℕ) (s : Tasks) (ys : List ℕ)
    → IsTimeouts s (h ∷ ys)
    → Returns
        (λ r t.
          (r ≡ h)
          × IsTimeouts t ys
          × (deadlines (timeouts t) (timeouts s h) ys
              ≡ drop_first (deadlines (timeouts s) 0 (h ∷ ys)))
          × (((t.tcb h).next ≡ 0) × ((t.tcb h).prev ≡ 0) × ((t.tcb h).status ≡ ts_none)))
        (tcb_pop_timeout_list s)
pop-deadlines h s ys c =
    let y : ℕ = head_or 0 ys in
    rw
      (pop-popped h y s c.head c.handles.0 c.handles.1 c.chain.1 (head_or-le nr_tcb ys c.handles.2))
      (
        refl,
        popped-IsTimeouts h s ys c,
        deadlines-frame (timeouts s) (timeouts (popped h y s)) (timeouts s h) ys
              (λ a i. popped_timeout h y s a)
            ∙ ap (λ b. deadlines (timeouts s) b ys) (omega arith),
        popped_self h y s (ne-head_or h ys c.handles.0 c.distinct.0),
      )
