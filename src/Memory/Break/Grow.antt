-- ===== src/Memory/Break/Grow.antt =====
-- What mem_alloc gives, and what it keeps.
use rf.Prelude.{
  ℕ, ◌+◌, ◌-◌, ◌/◌, ◌^◌, ◌≡◌, refl, ap, ◌∙◌, Bool, true, false, ◌||◌, ◌==◌, not, if◌then◌else◌,
  Bool-cases, inl, inr, ◌⊎◌, Option, none, some,
}
use rf.Kernel.Run.{M, ◌>>=◌, Ends, Ends-then, Ends-weaken, Ends-branch, Ends-if}
use rf.Memory.State.{Memory, signed_lt, page_of, unmapped}
use rf.Memory.Map.{find_free_page}
use rf.Memory.Table.{
  is_sys, has_entry, get_entry, put_entry, with_entry, clear_table, set_errno, fresh_table,
  new_table, table_of, put_ram, new_page, entry_at, table_index, in_table,
  get_page_table_entry_address,
}
use rf.Memory.Table.Stable.{Kept, find_free_page-Kept}
use rf.Msg.Pool.{u32}

-- The break of each app, the pages that are available, the share counts and the apps are as before.
abbrev pub SameBreaks : Memory → Memory → Type 0
SameBreaks m m' =
    (m'.brk ≡ m.brk)
    × (m'.sys_pages_available ≡ m.sys_pages_available)
    × (m'.share_count ≡ m.share_count)
    × (m'.has_acb ≡ m.has_acb)
    × (m'.running_appid ≡ m.running_appid)

same : (m : Memory) → SameBreaks m m
same m = (refl, refl, refl, refl, refl)

same_trans : (a b c : Memory) → SameBreaks a b → SameBreaks b c → SameBreaks a c
same_trans a b c p q = (q.0 ∙ p.0, q.1 ∙ p.1, q.2 ∙ p.2, q.3 ∙ p.3, q.4 ∙ p.4)

-- Code that keeps them, wherever it returns.
abbrev pub Keeps : {A : Type 0} → M Memory A → Type 0
Keeps f = (m : Memory) → Ends (λ _ m'. SameBreaks m m') (f m)

Keeps-then :
    {A B : Type 0} (f : M Memory A) (g : A → M Memory B)
    → Keeps f
    → ((a : A) → Keeps (g a))
    → Keeps (f >>= g)
Keeps-then f g p q m =
    Ends-then (λ _ m'. SameBreaks m m') (λ _ m'. SameBreaks m m') (f m) g (p m)
      (λ a m' s.
        Ends-weaken (λ _ c. SameBreaks m' c) (λ _ c. SameBreaks m c) (g a m')
          (λ _ c t. same_trans m m' c s t) (q a m'))

Keeps-if :
    {A : Type 0} (b : Bool) (f g : M Memory A) → Keeps f → Keeps g → Keeps (if b then f else g)
Keeps-if b f g p q m = Ends-branch (λ _ m'. SameBreaks m m') b f g m (p m) (q m)

find-Keeps : Keeps find_free_page
find-Keeps m =
    Ends-weaken (Kept m) (λ _ m'. SameBreaks m m') (find_free_page m)
      (λ p m' k. (
        ap (λ x. x.brk) k.0,
        ap (λ x. x.sys_pages_available) k.0,
        ap (λ x. x.share_count) k.0,
        ap (λ x. x.has_acb) k.0,
        ap (λ x. x.running_appid) k.0,
      ))
      (find_free_page-Kept m)

get-Keeps : (h i : ℕ) → Keeps (get_entry h i)
unfolding get_entry
get-Keeps h i m = Ends-if (λ _ m'. SameBreaks m m') (has_entry h i m) _ _ (same m) tt

put-Keeps : (h i v : ℕ) → Keeps (put_entry h i v)
unfolding put_entry with_entry
put-Keeps h i v m = elim (Bool-cases (has_entry h i m)) [
  | inr b ↦ rw b tt
  | inl b ↦ elim (Bool-cases (is_sys h)) [ inl s ↦ rw (b, s) (same m) | inr s ↦ rw (b, s) (same m) ]
]

fresh-Keeps : (h i pta : ℕ) → Keeps (fresh_table h i pta)
unfolding fresh_table clear_table
fresh-Keeps h i pta m =
    let c = record m { ram = λ a. if page_of a == page_of pta then unmapped else m.ram a } in
    Ends-then (λ _ m'. SameBreaks m m') (λ _ m'. SameBreaks m m') (put_entry h i (pta + 7) c) _
      (put-Keeps h i (pta + 7) c) (λ _ m' s. s)

new_table-Keeps : (h i : ℕ) → Keeps (new_table h i)
unfolding new_table set_errno
new_table-Keeps h i =
    Keeps-then find_free_page _ find-Keeps (λ pta.
      Keeps-if (pta == unmapped) _ (fresh_table h i pta) (λ m. same m) (fresh-Keeps h i pta))

table_of-Keeps : (h i pta : ℕ) → Keeps (table_of true h i pta)
unfolding table_of
table_of-Keeps h i pta = Keeps-if (pta == unmapped) (new_table h i) _ (new_table-Keeps h i) same

new_page-Keeps : (h pte : ℕ) → Keeps (new_page h pte)
unfolding new_page put_ram
new_page-Keeps h pte =
    Keeps-then find_free_page _ find-Keeps
      (λ page m. Ends-if (λ _ m'. SameBreaks m m') (page == 0) _ _ (same m) (same m))

entry_at-Keeps : (h pte : ℕ) → Keeps (entry_at true h pte)
unfolding entry_at
entry_at-Keeps h pte m =
    Ends-if (λ _ m'. SameBreaks m m') (m.ram pte == unmapped) (new_page h pte m) _
      (new_page-Keeps h pte m) (same m)

in_table-Keeps : (h a : ℕ) (o : Option ℕ) → Keeps (in_table true h a o)
unfolding in_table
in_table-Keeps h a none m = same m
in_table-Keeps h a (some t) m = entry_at-Keeps h (page_of t + table_index a) m

pub translation-Keeps : (h a : ℕ) → Keeps (get_page_table_entry_address h a true)
unfolding get_page_table_entry_address
translation-Keeps h a = Keeps-then (get_entry h (a / 2 ^ 24)) _ (get-Keeps h (a / 2 ^ 24)) (λ pta.
    Keeps-then (table_of true h (a / 2 ^ 24) pta) (in_table true h a)
      (table_of-Keeps h (a / 2 ^ 24) pta) (in_table-Keeps h a))

-- NULL, with nothing changed, for no page of `n` or for too many; or the old break, with the break and the number of
-- pages that are available moved by the size in whole pages.
abbrev pub AtBreak : (h a n : ℕ) → Memory → ℕ → Memory → Type 0
AtBreak h a n m p m' =
    ((((n == 0) || not (signed_lt n m.sys_pages_available)) ≡ true) × (p ≡ 0) × (m' ≡ m))
    ⊎ ((((n == 0) || not (signed_lt n m.sys_pages_available)) ≡ false)
        × (p ≡ m.brk h)
        × (m'.brk h ≡ u32 (m.brk h + a))
        × ((j : ℕ) → (h == j) ≡ false → m'.brk j ≡ m.brk j)
        × (m'.sys_pages_available ≡ u32 (m.sys_pages_available + (2 ^ 32 - n)))
        × (m'.share_count ≡ m.share_count))
