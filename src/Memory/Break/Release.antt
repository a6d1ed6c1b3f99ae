-- ===== src/Memory/Break/Release.antt =====
-- What mem_free changes.
use rf.Prelude.{
  ℕ, zero, suc, ◌+◌, ◌-◌, ◌/◌, ◌%◌, ◌^◌, ◌<◌, ◌≤◌, ◌≡◌, refl, ap, ◌∙◌, ◌||◌, arith, ◌==◌, ==-eq,
  update, Bool-cases, inl, inr, ◌⊎◌, List, [], ◌∷◌,
}
use rf.Kernel.Run.{ok, Returns, Returns-then, Returns-branch, Returns-weaken}
use rf.Memory.State.{
  Memory, Event, waited, sent, log, mmu_locked, mmu_unlocked, pmt_locked, pmt_unlocked, unmapped,
  mem_page_size, n_pages,
}
use rf.Memory.Table.{is_sys}
use rf.Memory.Table.Lookup.{HasDirectory, translated, translated_eq}
use rf.Memory.Break.{unshare, release_page, free_loop, mem_free}
use rf.Msg.Pool.{u32}

-- How often the lock of the MMU, and that of PMT, is held.
abbrev pub mmu_held : List Event → ℕ
mmu_held [] = 0
mmu_held (waited ∷ es) = mmu_held es
mmu_held (sent ∷ es) = mmu_held es
mmu_held (mmu_locked ∷ es) = suc (mmu_held es)
mmu_held (mmu_unlocked ∷ es) = mmu_held es - 1
mmu_held (pmt_locked ∷ es) = mmu_held es
mmu_held (pmt_unlocked ∷ es) = mmu_held es

abbrev pub pmt_held : List Event → ℕ
pmt_held [] = 0
pmt_held (waited ∷ es) = pmt_held es
pmt_held (sent ∷ es) = pmt_held es
pmt_held (mmu_locked ∷ es) = pmt_held es
pmt_held (mmu_unlocked ∷ es) = pmt_held es
pmt_held (pmt_locked ∷ es) = suc (pmt_held es)
pmt_held (pmt_unlocked ∷ es) = pmt_held es - 1

-- At most entries of page tables are given up and share counts lowered. The locks are held as before.
abbrev pub Freed : Memory → Memory → Type 0
Freed m m' =
    ((x : ℕ) → (m'.ram x ≡ m.ram x) ⊎ (m'.ram x ≡ unmapped))
    × ((v : ℕ) → m'.share_count v ≤ m.share_count v)
    × (m'.sys_pd ≡ m.sys_pd)
    × (m'.app_pd ≡ m.app_pd)
    × (m'.has_acb ≡ m.has_acb)
    × (m'.pam ≡ m.pam)
    × (mmu_held m'.events ≡ mmu_held m.events)
    × (pmt_held m'.events ≡ pmt_held m.events)

Freed-refl : (m : Memory) → Freed m m
Freed-refl m = (λ x. inl refl, λ v. omega arith, refl, refl, refl, refl, refl, refl)

Freed-trans : (a b c : Memory) → Freed a b → Freed b c → Freed a c
Freed-trans a b c p q = (
  λ x. elim (q.0 x) [
    | inr u ↦ inr u
    | inl e ↦ elim (p.0 x) [ inr u ↦ inr (e ∙ u) | inl f ↦ inl (e ∙ f) ]
  ],
  λ v. omega (arith, p.1 v, q.1 v),
  q.2 ∙ p.2,
  q.3 ∙ p.3,
  q.4 ∙ p.4,
  q.5 ∙ p.5,
  q.6 ∙ p.6,
  q.7 ∙ p.7,
)

lowered :
    (v n : ℕ) (m : Memory)
    → n ≤ m.share_count v
    → (a : ℕ) → update m.share_count v n a ≤ m.share_count a
lowered v n m l a = elim (Bool-cases (v == a)) [
  | inl e ↦ let eq : v ≡ a = ==-eq v a e in rw e (omega (arith, l, ap m.share_count eq))
  | inr e ↦ rw e (omega arith)
]

given_up :
    (pe : ℕ) (m : Memory) (x : ℕ)
    → (update m.ram pe unmapped x ≡ m.ram x) ⊎ (update m.ram pe unmapped x ≡ unmapped)
given_up pe m x = elim (Bool-cases (pe == x)) [ inl e ↦ inr (rw e refl) | inr e ↦ inl (rw e refl) ]

unshare-Freed :
    (v pe : ℕ) (m : Memory) → Returns (λ _ m'. Freed m m' × (m'.events ≡ m.events)) (unshare v pe m)
unfolding unshare
unshare-Freed v pe m = elim (Bool-cases (m.share_count v == 0)) [
  | inl z ↦ rw z (Freed-refl m, refl)
  | inr z ↦ elim (Bool-cases (m.share_count v == 1)) [
    | inl o ↦
        rw (z, o)
          ((given_up pe m, lowered v 0 m (omega arith), refl, refl, refl, refl, refl, refl), refl)
    | inr o ↦
        rw (z, o)
          (
            (
              λ x. inl refl,
              lowered v (m.share_count v - 1) m (omega arith),
              refl,
              refl,
              refl,
              refl,
              refl,
              refl,
            ),
            refl,
          )
  ]
]

release_page-Freed : (v pe : ℕ) (m : Memory) → Returns (λ _ m'. Freed m m') (release_page v pe m)
unfolding release_page log
release_page-Freed v pe m = elim (Bool-cases (pe == 0)) [
  | inl z ↦ rw z (Freed-refl m)
  | inr z ↦
      let m1 = record m { events = pmt_locked ∷ m.events } in
      rw z (
        Returns-then (λ _ m'. Freed m1 m' × (m'.events ≡ m1.events)) (λ _ m'. Freed m m')
          (unshare v pe m1) _ (unshare-Freed v pe m1)
          (λ _ m' q. (
            q.0.0,
            q.0.1,
            q.0.2,
            q.0.3,
            q.0.4,
            q.0.5,
            ap mmu_held q.1,
            ap (λ es. pmt_held es - 1) q.1 ∙ omega arith,
          )))
]

free_loop-Freed :
    (n h a : ℕ) (m : Memory)
    → HasDirectory h m
    → a < 2 ^ 32
    → Returns (λ _ m'. Freed m m') (free_loop n h a m)
unfolding free_loop log
free_loop-Freed zero h a m d l = Freed-refl m
free_loop-Freed (suc n) h a m d l =
    let v = a / 2 ^ 13 % 2 ^ 17 in
    let m1 = record m { events = mmu_locked ∷ m.events } in
    let a' = u32 (a + mem_page_size) in
    let rest = free_loop n h a' in
    rw (translated_eq h a m1 d l) (
      Returns-then (λ _ m'. Freed m1 m') (λ _ m'. Freed m m')
        (release_page v (translated h a m1) m1) _ (release_page-Freed v (translated h a m1) m1)
        (λ last m' q.
          let m2 = record m' { events = mmu_unlocked ∷ m'.events } in
          let f : Freed m m2 =
            (q.0, q.1, q.2, q.3, q.4, q.5, ap (λ k. k - 1) q.6 ∙ omega arith, q.7) in
          let d' : HasDirectory h m2 = ap (λ g. is_sys h || g h) q.4 ∙ d in
          Returns-branch (λ _ c. Freed m c) last (ok a) rest m2 f
            (Returns-weaken (λ _ c. Freed m2 c) (λ _ c. Freed m c) (rest m2)
              (λ _ c g. Freed-trans m m2 c f g) (free_loop-Freed n h a' m2 d' (omega arith)))))

-- mem_free for an app that has a page directory returns, after at most one turn for each page. It changes
-- neither the page directories nor the page allocation map; each word of memory is as before, or it is an
-- unused entry; no share count is higher than before; the locks of the MMU and of PMT are held as before.
pub mem_free-Freed :
    (h vadr : ℕ) (m : Memory)
    → HasDirectory h m
    → vadr < 2 ^ 32
    → Returns (λ _ m'. Freed m m') (mem_free h vadr m)
unfolding mem_free
mem_free-Freed h vadr m d l = free_loop-Freed n_pages h vadr m d l
