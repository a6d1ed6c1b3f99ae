-- ===== src/Machine/Setup/Lists.antt =====
-- The free lists that FMTK_Initialize leaves.
use rf.Prelude.{
  true, false, ◌&&◌, ◌∙◌, ℕ, zero, suc, ◌+◌, ◌≤◌, ◌<◌, ◌≡◌, refl, List, [], ◌∷◌, arith, ◌==◌, ltb,
  leb, if◌then◌else◌,
}
use rf.Kernel.Config.{nr_msg, nr_mbx, nr_tcb, out_of_range}
use rf.Kernel.Run.{Returns}
use rf.Kernel.Types.{Acb}
use rf.Kernel.State.{Kernel}
use rf.Semaphore.{
  unlock_semaphore_nb, unlock_sys_semaphore, unlock_iof_semaphore, unlock_kbd_semaphore,
  unlock_msg_list, unlock_mbx_list, unlock_tcb_list, unlock_alarm_list,
}
use rf.Msg.Queue.Shape.{Line}
use rf.Msg.Service.{rqb_initialize}
use rf.Sched.{setup_tcbs, fresh_tcb}
use rf.Machine.Setup.{
  clear_running, unlock_all, setup_mailboxes, setup_messages, setup_threads, setup_timers,
  setup_apps, setup_tables,
}

-- The `n` handles from `lo` on.
unfoldable pub handles : (n lo : ℕ) → List ℕ
handles zero lo = []
handles (suc n) lo = lo ∷ handles n (lo + 1)

-- Each handle leads to the next one, and the last one to `e`.
Line-handles :
    (nx : ℕ → ℕ) (n lo last e : ℕ)
    → last + 1 ≡ lo + n
    → ((a : ℕ) → lo ≤ a → a ≤ last → nx a ≡ (if a == last then e else a + 1))
    → Line nx (handles n lo) e
unfolding handles
Line-handles nx zero lo last e c f = tt
Line-handles nx (suc zero) lo last e c f =
    let own : (lo == last) ≡ true = ground (arith, c) in
    (f lo (omega arith) (omega (arith, c)) ∙ rw own refl, tt)
Line-handles nx (suc (suc n)) lo last e c f =
    let more : (lo == last) ≡ false = ground (arith, c) in
    (
      f lo (omega arith) (omega (arith, c)) ∙ rw more refl,
      Line-handles nx (suc n) (lo + 1) last e (omega (arith, c)) (λ a l u. f a (omega arith) u),
    )

-- The lists and tables that the set-up on the core 2 leaves. The free messages are all of them in order, the
-- free threads those from 2 on; of the mailboxes only the first 128 are free. The ready queues of the
-- priorities below 8 and the timeout list are empty.
pub setup_tables-lists :
    (sys : Acb) (k : Kernel)
    → Returns
        (λ _ c.
          (c.pool.free_msg ≡ 1)
          × Line (λ h. (c.pool.message h).link) (handles nr_msg 1) 0
          × (c.free_mbx ≡ 1)
          × Line (λ h. (c.mbx h).link) (handles 128 1) 0
          × (c.tasks.free_tcb ≡ 2)
          × Line (λ h. (c.tasks.tcb h).next) (handles 255 2) 0
          × ((pri : ℕ) → pri < 8 → c.tasks.ready_q pri ≡ 0)
          × (c.tasks.timeout_list ≡ 0))
        (setup_tables sys (record k { cpu = 2 }))
unfolding setup_tables clear_running unlock_all unlock_sys_semaphore unlock_iof_semaphore
    unlock_kbd_semaphore unlock_msg_list unlock_mbx_list unlock_tcb_list unlock_alarm_list
    unlock_semaphore_nb setup_mailboxes setup_messages rqb_initialize setup_threads setup_timers
    setup_apps setup_tcbs fresh_tcb
setup_tables-lists sys k = (
  refl,
  Line-handles _ nr_msg 1 nr_msg 0 refl
      (λ a l u. let r : out_of_range nr_msg a ≡ false = ground arith in rw r refl),
  refl,
  Line-handles _ 128 1 128 0 refl
      (λ a l u. let r : out_of_range nr_mbx a ≡ false = ground arith in rw r refl),
  refl,
  Line-handles _ 255 2 nr_tcb 0 refl
      (λ a l u. let r : (ltb 1 a && leb a nr_tcb) ≡ true = ground arith in rw r refl),
  λ pri l. ground arith,
  refl,
)
