-- ===== src/Timer.antt =====
-- software/Femtiki/source/kernel/Femtiki_kern.c: the interval timers that apps allocate.
pub mod Pool
use rf.Prelude.{
  ℕ, zero, suc, ◌+◌, ◌-◌, ◌*◌, ◌/◌, ◌%◌, ◌^◌, Bool, true, false, ◌&&◌, ◌||◌, not, Option, none,
  some, ◌∷◌, ◌==◌, ltb, if◌then◌else◌, update,
}
use rf.Kernel.Config.{
  ℤ, pos, neg, nr_tmr, out_of_range, e_ok, e_arg, e_busy, e_not_owner, e_no_more_timers,
}
use rf.Kernel.Run.{ok, M, ◌>>=◌, ◌>>◌}
use rf.Kernel.Types.{Tmr, PitReg}
use rf.Kernel.State.{Timers, Kernel}
use rf.Semaphore.{lock_tmr_semaphore, unlock_tmr_semaphore}
use rf.Msg.Pool.{u32}

-- The first timer from `nn` on, among `fuel`, that an app may have and that is not taken. The timers
-- 0 to 3 have outside signals, and the timer 4 is the system's.
unfoldable pub find_timer : (fuel nn : ℕ) → (ℕ → Bool) → Option ℕ
find_timer zero nn taken = none
find_timer (suc fuel) nn taken =
    let rest = find_timer fuel (nn + 1) taken in
    if ltb 4 nn && not (taken nn) then some nn else rest

-- The timer `nn` is taken by the app `owner`.
unfoldable pub take_timer : (nn owner : ℕ) → Timers → Timers
take_timer nn owner t = record t {
  taken = update t.taken nn true;
  tmr = update t.tmr nn (record { owner = owner });
}

-- The result of the search.
unfoldable pub grant_timer : Option ℕ → M Kernel ℤ
grant_timer none k = (do unlock_tmr_semaphore; ok (neg e_no_more_timers)) k
grant_timer (some nn) k =
    (do unlock_tmr_semaphore; ok (pos (nn + 1)))
      (record k { timers = take_timer nn k.running_appid k.timers })

-- FMTK_AllocTimer
unfoldable pub alloc_timer : M Kernel ℤ
alloc_timer = do
  sr ← lock_tmr_semaphore 0
  λ k. if sr then grant_timer (find_timer nr_tmr 0 k.timers.taken) k else ok (neg e_busy) k

-- The running app may not touch the timer.
abbrev pub not_mine : Kernel → ℕ → Bool
not_mine k ht = not ((k.timers.tmr ht).owner == k.running_appid) && not (k.running_appid == 1)

-- The registers of a timer that is stopped: mailbox 0, vector 0, then the load.
unfoldable pub stopped : PitReg → PitReg
stopped r = record r {
  max_count_lo = 0xffff_ffff;
  max_count_hi = 0xffff;
  on_time_lo = 5;
  on_time_hi = 0;
  ctrl = 0x80 ∷ 0x01 ∷ r.ctrl;
}

unfoldable pub stop_timer : ℕ → Timers → Timers
stop_timer ht t = record t {
  pit = update t.pit ht (stopped (t.pit ht));
  enabled = update t.enabled ht false;
}

-- FMTK_KillAlarm. It has no return statement after the last assignment: `none`.
unfoldable pub kill_alarm : (hTmr : ℕ) → M Kernel (Option ℤ)
kill_alarm hTmr k =
    if out_of_range nr_tmr hTmr
    then ok (some (neg e_arg)) k
    else if not_mine k (hTmr - 1)
    then ok (some (neg e_not_owner)) k
    else ok none (record k { timers = stop_timer (hTmr - 1) k.timers })

-- The mailbox, the vector of the timer's group, the enable bits and the automatic reload (bit 2).
unfoldable pub alarm_ctrl : (hMbx ht opt : ℕ) → ℕ
alarm_ctrl hMbx ht opt = u32 (hMbx * 2 ^ 16 + (192 + ht / 32) * 256 + 3 + opt / 4 % 2 * 4)

-- FMTK_SetAlarm. It has no return statement after the last assignment: `none`.
unfoldable pub set_alarm : (hTmr hMbx ticklo tickhi opt : ℕ) → M Kernel (Option ℤ)
set_alarm hTmr hMbx ticklo tickhi opt k =
    let ht = hTmr - 1 in
    let t = k.timers in
    if out_of_range nr_tmr hTmr
    then ok (some (neg e_arg)) k
    else if not_mine k ht
    then ok (some (neg e_not_owner)) k
    else ok none (record k {
      timers = record t {
        pit = update t.pit ht (record {
          max_count_lo = ticklo;
          max_count_hi = tickhi;
          on_time_lo = 5;
          on_time_hi = 0;
          ctrl = 0x80 ∷ alarm_ctrl hMbx ht opt ∷ (t.pit ht).ctrl;
        });
        enabled = update t.enabled ht true;
      };
    })

-- The timer `ht` is free again.
unfoldable pub drop_timer : ℕ → Timers → Timers
drop_timer ht t = record t {
  tmr = update t.tmr ht (record { owner = 0 });
  taken = update t.taken ht false;
}

-- FreeTimer with the lock.
unfoldable pub release_timer : (ht : ℕ) → M Kernel ℤ
release_timer ht = do
  kill_alarm (ht + 1)
  λ k. (do unlock_tmr_semaphore; ok (pos e_ok)) (record k { timers = drop_timer ht k.timers })

-- FMTK_FreeTimer
unfoldable pub free_timer : (ht : ℕ) → M Kernel ℤ
free_timer hTmr k =
    let ht = hTmr - 1 in
    if out_of_range nr_tmr hTmr
    then ok (neg e_arg) k
    else if not_mine k ht
    then ok (neg e_not_owner) k
    else if ltb ht 5
    then ok (neg e_not_owner) k
    else (do sr ← lock_tmr_semaphore 0; (if sr then release_timer ht else ok (neg e_busy))) k
