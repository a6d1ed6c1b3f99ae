-- ===== src/Memory/Run/Found.antt =====
-- What FindRun finds, and what the allocation of pages gives.
use rf.Prelude.{
  ℕ, zero, suc, ◌+◌, ◌^◌, ◌≤◌, ◌<◌, ◌≡◌, refl, ◌∙◌, ◌⊎◌, Bool, true, false, ◌||◌, ◌&&◌, arith, ◌==◌,
  ==-eq, ltb, ltb→lt, if◌then◌else◌, update, Bool-cases, inl, inr, ◌∷◌,
}
use rf.Kernel.Config.{ℤ, neg}
use rf.Kernel.Run.{ok, fault, M}
use rf.Memory.State.{Memory, signed_lt, unmapped, e_no_mem, log, waited, sent}
use rf.Memory.Table.{is_sys, has_entry, entry, get_entry, put_long}
use rf.Msg.Pool.{u32}
use rf.Memory.Run.{
  count_run, run_fuel, search_run, find_run, run_loop, give_run, alloc_run, alloc_pages_of, found,
  run_turns, add_user_page_table, add_system_page_table,
}

module _ (la : ℕ) (m : Memory) where
  one_turn :
      (fuel pc k : ℕ)
      → u32 (pc + 0xffff_ffff) ≡ k
      → (k == 0) ≡ false
      → count_run (suc fuel) pc la m ≡ count_run fuel k la m
  unfolding count_run
  one_turn fuel pc k e z = rw (e, z) refl

  count-returns : (k : ℕ) → suc k < 2 ^ 32 → count_run (suc k) (suc k) la m ≡ ok la m
  unfolding count_run
  count-returns zero l = refl
  count-returns (suc k) l =
      one_turn (suc k) (suc (suc k)) (suc k) (omega arith) (ground arith)
      ∙ count-returns k (omega arith)

  count_run-returns : (n : ℕ) → 0 < n → n < 2 ^ 32 → count_run (run_fuel n) n la m ≡ ok la m
  count_run-returns zero z l = absurd (omega arith)
  count_run-returns (suc n) z l =
      let e : (suc n == 0) ≡ false = ground arith in rw e (count-returns n l)

-- The index after `n` turns of the outer loop.
reach : (n ndx i : ℕ) → ℕ
reach zero ndx i = i
reach (suc n) ndx i = reach n (ndx + 1) (i + ndx)

-- The address that FindRun takes from an unused entry.
abbrev pub last_page : ℕ
last_page = 0xffff_e000

has_entry-lt : (h i : ℕ) (m : Memory) → has_entry h i m ≡ true → i < 2048
unfolding has_entry
has_entry-lt h i m b = elim (Bool-cases (is_sys h)) [
  | inl e ↦ let l : ltb i 512 ≡ true = rw e at b in omega (arith, ltb→lt i 512 l)
  | inr e ↦ let l : (m.has_acb h && ltb i 2048) ≡ true = rw e at b in ground arith
]

search_run-cases :
    (n ndx i num_pages : ℕ) (m : Memory)
    → 0 < num_pages
    → num_pages < 2 ^ 32
    → i < 2048
    → 2048 ≤ reach n ndx i
    → (search_run n ndx i num_pages m ≡ ok last_page m) ⊎ (search_run n ndx i num_pages m ≡ fault)
unfolding search_run reach get_entry
search_run-cases zero ndx i k m z l lo hi = absurd (omega arith)
search_run-cases (suc n) ndx i k m z l lo hi =
    elim (Bool-cases (has_entry m.running_appid (i + ndx) m)) [
      | inr b ↦ inr (rw b refl)
      | inl b ↦ elim (Bool-cases (entry m.running_appid (i + ndx) m == unmapped)) [
        | inl u ↦
            let eq : entry m.running_appid (i + ndx) m ≡ unmapped = ==-eq _ _ u in
            inl (rw (b, u, eq) (count_run-returns last_page m k z l))
        | inr u ↦
            rw (b, u)
              (search_run-cases n (ndx + 1) (i + ndx) k m z l
                (has_entry-lt m.running_appid (i + ndx) m b) hi)
      ]
    ]

-- FindRun for user or system pages: whatever the number of pages, from 1 on, it returns the last page of the address
-- space and changes nothing, or it goes past the end of the page directory. It never returns 0.
pub find_run-cases :
    (user : Bool) (num_pages : ℕ) (m : Memory)
    → 0 < num_pages
    → num_pages < 2 ^ 32
    → (find_run user num_pages m ≡ ok last_page m) ⊎ (find_run user num_pages m ≡ fault)
unfolding find_run reach
find_run-cases true k m z l = search_run-cases 120 8 0 k m z l (omega arith) (omega arith)
find_run-cases false k m z l = search_run-cases 128 128 0 k m z l (omega arith) (omega arith)

-- `*p = v` for a pointer that is not null.
abbrev pub stored : (p v : ℕ) → Memory → Memory
stored p v m =
    if p == m.next_pt_at then record m { next_pt = v } else record m { ram = update m.ram p v }

pub put_long-stored :
    (p v : ℕ) (m : Memory) → (p == 0) ≡ false → put_long p v m ≡ ok tt (stored p v m)
unfolding put_long
put_long-stored p v m z = elim (Bool-cases (p == m.next_pt_at)) [
  | inl e ↦ rw (z, e) refl
  | inr e ↦ rw (z, e) refl
]

-- The message of the memory exchange is taken and given back.
abbrev pub exchanged : Memory → Memory
exchanged m = record m { events = sent ∷ waited ∷ m.events }

abbrev pub after_wait : Memory → Memory
after_wait m = record m { events = waited ∷ m.events }

pub run_found :
    (find : M Memory ℕ) (add : M Memory ℤ) (re : ℤ) (m : Memory)
    → find m ≡ ok last_page m
    → run_loop run_turns find add re m ≡ ok (found last_page re) m
unfolding run_loop
run_found find add re m e = rw e refl

pub run_fault :
    (find : M Memory ℕ) (add : M Memory ℤ) (re : ℤ) (m : Memory)
    → find m ≡ fault
    → run_loop run_turns find add re m ≡ fault
unfolding run_loop
run_fault find add re m e = rw e refl

abbrev after_send : Memory → Memory
after_send m = record m { events = sent ∷ m.events }

stored-exchanged :
    (re : ℤ) (p : ℕ) (m : Memory)
    → ok re (after_send (stored p last_page (after_wait m)))
      ≡ ok re (exchanged (stored p last_page m))
stored-exchanged re p m = elim (Bool-cases (p == m.next_pt_at)) [
  | inl e ↦ rw e refl
  | inr e ↦ rw e refl
]

-- FMTK_AllocPages (`user`) and FMTK_AllocSystemPages for some number of pages and a pointer that is not
-- null. With too few pages free: -E_NoMem. Otherwise the caller is given the last page of the address
-- space, or the search goes past the end of the page directory. In each case but the last one the message
-- of the memory exchange is taken and given back.
pub alloc_pages-cases :
    (junk : ℕ) (re : ℤ) (user : Bool) (n pp : ℕ) (m : Memory)
    → 0 < n
    → n < 2 ^ 32
    → 0 < pp
    → ((signed_lt m.pages_free n ≡ true)
        × (alloc_pages_of junk re user n pp m ≡ ok (neg e_no_mem) (exchanged m)))
      ⊎ ((signed_lt m.pages_free n ≡ false)
          × (alloc_pages_of junk re user n pp m ≡ ok re (exchanged (stored pp last_page m))))
      ⊎ ((signed_lt m.pages_free n ≡ false) × (alloc_pages_of junk re user n pp m ≡ fault))
unfolding alloc_pages_of alloc_run give_run log
alloc_pages-cases junk re user n pp m l h p =
    let a : (n == 0 || pp == 0) ≡ false = ground arith in
    let z : (pp == 0) ≡ false = ground arith in
    let w = after_wait m in
    elim (Bool-cases (signed_lt m.pages_free n)) [
      | inl b ↦ inl (b, rw (a, b) refl)
      | inr b ↦ elim (find_run-cases user n w l h) [
        | inl f ↦ inr (
            inl (
              b,
              let r =
                    run_found (find_run user n)
                      (if user then add_user_page_table junk else add_system_page_table junk) re w
                      f in
                  rw (a, b, r, put_long-stored pp last_page w z) (stored-exchanged re pp m),
            ))
        | inr f ↦ inr (
            inr (
              b,
              let r =
                    run_fault (find_run user n)
                      (if user then add_user_page_table junk else add_system_page_table junk) re w
                      f in
                  rw (a, b, r) refl,
            ))
      ]
    ]
