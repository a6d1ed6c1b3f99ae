-- ===== src/Tcb/Timeout/Deadlines.antt =====
-- The timeout list as a list of threads with deadlines, counted in ticks from now.
use rf.Prelude.{
  ℕ, ◌+◌, ◌-◌, ◌<◌, ◌≤◌, ◌≡◌, refl, ◌∙◌, ap, false, List, [], ◌∷◌, ◌++◌, arith, ◌==◌, ltb, ltb→lt,
  lt→ltb, le→not_ltb, not_ltb→le, if◌then◌else◌, head_or, ◌∈◌, ◌∉◌, IsDistinct, IsDistinct-remove,
  Bool-cases, inl, inr, mem-head, mem-tail, mem-middle, not-mem-ne, head-ne, not-mem-tail,
  not-mem-cons, eq_self, ne_comm,
}

-- The deadlines of the threads `xs`, from the tick `b` on, where `tm` gives the stored timeouts.
abbrev pub deadlines : (tm : ℕ → ℕ) (b : ℕ) → List ℕ → List (ℕ × ℕ)
deadlines tm b [] = []
deadlines tm b (x ∷ xs) = (x, b + tm x) ∷ deadlines tm (b + tm x) xs

-- `h` with the deadline `d` goes in front of the first thread whose deadline is not earlier.
abbrev pub insert_by : (h d : ℕ) → List (ℕ × ℕ) → List (ℕ × ℕ)
insert_by h d [] = (h, d) ∷ []
insert_by h d ((x, e) ∷ r) = if ltb e d then (x, e) ∷ insert_by h d r else (h, d) ∷ (x, e) ∷ r

-- The list without the thread `h`.
abbrev pub erase_key : (h : ℕ) → List (ℕ × ℕ) → List (ℕ × ℕ)
erase_key h [] = []
erase_key h ((x, e) ∷ r) = if h == x then r else (x, e) ∷ erase_key h r

abbrev pub drop_first : List (ℕ × ℕ) → List (ℕ × ℕ)
drop_first [] = []
drop_first (_ ∷ r) = r

module _ (tm : ℕ → ℕ) where
  -- The threads that `to` ticks outlast, the others, and what is left of `to` between them.
  abbrev pub front : (to : ℕ) → List ℕ → List ℕ
  front to [] = []
  front to (x ∷ xs) = if ltb (tm x) to then x ∷ front (to - tm x) xs else []

  abbrev pub back : (to : ℕ) → List ℕ → List ℕ
  back to [] = []
  back to (x ∷ xs) = if ltb (tm x) to then back (to - tm x) xs else x ∷ xs

  abbrev pub rest : (to : ℕ) → List ℕ → ℕ
  rest to [] = to
  rest to (x ∷ xs) = if ltb (tm x) to then rest (to - tm x) xs else to

  pub front-append-back : (to : ℕ) (xs : List ℕ) → front to xs ++ back to xs ≡ xs
  front-append-back to [] = refl
  front-append-back to (x ∷ xs) = elim (Bool-cases (ltb (tm x) to)) [
    | inl e ↦ rw e (ap (λ r. x ∷ r) (front-append-back (to - tm x) xs))
    | inr e ↦ rw e
  ]

  head-back-ne : (h to : ℕ) (xs : List ℕ) → h ∉ 0 ∷ xs → (h == head_or 0 (back to xs)) ≡ false
  head-back-ne h to [] out = head-ne 0 h [] out
  head-back-ne h to (x ∷ xs) out = elim (Bool-cases (ltb (tm x) to)) [
    | inl e ↦ rw e (
        head-back-ne h (to - tm x) xs (
          not-mem-cons h 0 xs (head-ne 0 h (x ∷ xs) out)
            (not-mem-tail h x xs (not-mem-tail h 0 (x ∷ xs) out))))
    | inr e ↦ rw e (head-ne x h xs (not-mem-tail h 0 (x ∷ xs) out))
  ]

pub deadlines-frame :
    (tm tm' : ℕ → ℕ) (b : ℕ) (xs : List ℕ)
    → ((a : ℕ) → a ∈ xs → tm' a ≡ tm a)
    → deadlines tm' b xs ≡ deadlines tm b xs
deadlines-frame tm tm' b [] same = refl
deadlines-frame tm tm' b (x ∷ xs) same = rw (same x (mem-head x xs)) (
    ap (λ r. (x, b + tm x) ∷ r)
      (deadlines-frame tm tm' (b + tm x) xs (λ a i. same a (mem-tail a x xs i))))

-- The first node of `ys` is not the node `x` in front of them.
head-later :
    (x : ℕ) (xs ys : List ℕ) → x ∉ xs ++ ys → 0 ∉ x ∷ xs ++ ys → (x == head_or 0 ys) ≡ false
head-later x xs [] out live = ne_comm 0 x (head-ne x 0 (xs ++ []) live)
head-later x xs (y ∷ ys) out live = not-mem-ne x y (xs ++ y ∷ ys) out (mem-middle y xs ys)

module _ (tm tm' : ℕ → ℕ) (h : ℕ) where
  -- Putting the rest of `to` at `h` and taking it off the next thread inserts the deadline.
  pub deadlines-insert :
      (b to : ℕ) (xs : List ℕ)
      → IsDistinct xs
      → 0 ∉ xs
      → tm' h ≡ rest tm to xs
      → ((a : ℕ)
          → a ∈ xs
          → tm' a ≡ (if a == head_or 0 (back tm to xs) then tm a - rest tm to xs else tm a))
      → deadlines tm' b (front tm to xs ++ h ∷ back tm to xs)
        ≡ insert_by h (b + to) (deadlines tm b xs)
  deadlines-insert b to [] d live here others = rw here
  deadlines-insert b to (x ∷ xs) d live here others = elim (Bool-cases (ltb (tm x) to)) [
    | inl e ↦
        let below : tm x < to = ltb→lt (tm x) to e in
        let others' = rw e at others in
        let ne =
          head-back-ne tm x (to - tm x) xs
            (not-mem-cons x 0 xs (ne_comm 0 x (head-ne x 0 xs live)) d.0) in
        let same : tm' x ≡ tm x =
          others' x (mem-head x xs)
          ∙ ap (λ c. if c then tm x - rest tm (to - tm x) xs else tm x) ne in
        let sum : b + tm x + (to - tm x) ≡ b + to = omega arith in
        rw (e, lt→ltb (b + tm x) (b + to) (omega arith), same)
          (ap (λ r. (x, b + tm x) ∷ r)
            (deadlines-insert (b + tm x) (to - tm x) xs d.1 (not-mem-tail 0 x xs live)
                (rw e at here) (λ a i. others' a (mem-tail a x xs i))
              ∙ ap (λ n. insert_by h n (deadlines tm (b + tm x) xs)) sum))
    | inr e ↦
        let above : to ≤ tm x = not_ltb→le (tm x) to e in
        let others' = rw e at others in
        let here' : tm' h ≡ to = rw e at here in
        let less : tm' x ≡ tm x - to =
          others' x (mem-head x xs) ∙ ap (λ c. if c then tm x - to else tm x) (eq_self x) in
        let sum : b + to + (tm x - to) ≡ b + tm x = omega arith in
        rw (e, le→not_ltb (b + tm x) (b + to) (omega arith), here', less, sum)
          (ap (λ r. (h, b + to) ∷ (x, b + tm x) ∷ r)
            (deadlines-frame tm tm' (b + tm x) xs (λ a i.
              others' a (mem-tail a x xs i)
              ∙ ap (λ c. if c then tm a - to else tm a) (ne_comm x a (not-mem-ne x a xs d.0 i)))))
  ]

  pub deadlines-erase :
      (b : ℕ) (xs ys : List ℕ)
      → IsDistinct (xs ++ h ∷ ys)
      → 0 ∉ xs ++ ys
      → ((a : ℕ) → a ∈ xs ++ ys → tm' a ≡ (if a == head_or 0 ys then tm a + tm h else tm a))
      → deadlines tm' b (xs ++ ys) ≡ erase_key h (deadlines tm b (xs ++ h ∷ ys))
  deadlines-erase b [] [] d live others = rw (eq_self h)
  deadlines-erase b [] (y ∷ ys) d live others =
      let more : tm' y ≡ tm y + tm h =
        others y (mem-head y ys) ∙ ap (λ c. if c then tm y + tm h else tm y) (eq_self y) in
      let sum : b + (tm y + tm h) ≡ b + tm h + tm y = omega arith in
      rw (eq_self h, more, sum)
        (ap (λ r. (y, b + tm h + tm y) ∷ r)
          (deadlines-frame tm tm' (b + tm h + tm y) ys (λ a i.
            others a (mem-tail a y ys i)
            ∙ ap (λ c. if c then tm a + tm h else tm a) (ne_comm y a (not-mem-ne y a ys d.1.0 i)))))
  deadlines-erase b (x ∷ xs) ys d live others =
      let apart = IsDistinct-remove h (x ∷ xs) ys d in
      let same : tm' x ≡ tm x =
        others x (mem-head x (xs ++ ys))
        ∙ ap (λ c. if c then tm x + tm h else tm x) (head-later x xs ys apart.0 live) in
      let ne = ne_comm x h (not-mem-ne x h (xs ++ h ∷ ys) d.0 (mem-middle h xs ys)) in
      rw (same, ne)
        (ap (λ r. (x, b + tm x) ∷ r)
          (deadlines-erase (b + tm x) xs ys d.1 (not-mem-tail 0 x (xs ++ ys) live)
            (λ a i. others a (mem-tail a x (xs ++ ys) i))))
