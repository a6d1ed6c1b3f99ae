-- ===== src/Semaphore.antt =====
-- software/Femtiki/source/kernel/semaphore.c: the locks of the kernel's lists, each a semaphore in the
-- semaphoric memory. LockSemaphoreNB and UnlockSemaphoreNB are BIOS routines that this repository does
-- not hold. With 0 retries the call waits until it has the semaphore; with a limit it returns with
-- the semaphore or without it, as the other cores decide.
use rf.Prelude.{ℕ, ◌+◌, Bool, true, false, List, [], ◌∷◌, ◌==◌, if◌then◌else◌}
use rf.Kernel.Run.{ok, M}
use rf.Kernel.State.{Kernel}

-- The semaphore that was locked last is found first.
abbrev pub release : ℕ → List ℕ → List ℕ
release a [] = []
release a (x ∷ xs) = if a == x then xs else x ∷ release a xs

unfoldable pub lock_semaphore_nb : (sema retries : ℕ) → M Kernel Bool
lock_semaphore_nb sema retries k =
    if retries == 0 then ok true (record k { held = sema ∷ k.held }) else elim k.answers [
      | [] ↦ ok true (record k { held = sema ∷ k.held })
      | true ∷ r ↦ ok true (record k { answers = r; held = sema ∷ k.held })
      | false ∷ r ↦ ok false (record k { answers = r })
    ]

unfoldable pub unlock_semaphore_nb : (sema : ℕ) → M Kernel (Unit {0})
unlock_semaphore_nb sema k = ok tt (record k { held = release sema k.held })

-- The numbers of the semaphores, inc/const.h.
abbrev pub keybd_sema : ℕ
keybd_sema = 3

abbrev pub memory_sema : ℕ
memory_sema = 6

abbrev pub tcb_sema : ℕ
tcb_sema = 7

abbrev pub ossema : ℕ
ossema = 8

abbrev pub iofsema : ℕ
iofsema = 9

abbrev pub pmt_sema : ℕ
pmt_sema = 10

abbrev pub mbxlist_sema : ℕ
mbxlist_sema = 11

abbrev pub msg_sema : ℕ
msg_sema = 12

abbrev pub tol_sema : ℕ
tol_sema = 13

abbrev pub rdq_sema : ℕ
rdq_sema = 14

abbrev pub acb_sema : ℕ
acb_sema = 15

abbrev pub alarm_sema : ℕ
alarm_sema = 16

abbrev pub tmr_sema : ℕ
tmr_sema = 17

unfoldable pub lock_sys_semaphore : (retries : ℕ) → M Kernel Bool
unfolding lock_semaphore_nb
lock_sys_semaphore retries k = lock_semaphore_nb (ossema + k.semaphores) retries k

unfoldable pub unlock_sys_semaphore : M Kernel (Unit {0})
unfolding unlock_semaphore_nb
unlock_sys_semaphore k = unlock_semaphore_nb (ossema + k.semaphores) k

unfoldable pub lock_iof_semaphore : (retries : ℕ) → M Kernel Bool
unfolding lock_semaphore_nb
lock_iof_semaphore retries k = lock_semaphore_nb (iofsema + k.semaphores) retries k

unfoldable pub unlock_iof_semaphore : M Kernel (Unit {0})
unfolding unlock_semaphore_nb
unlock_iof_semaphore k = unlock_semaphore_nb (iofsema + k.semaphores) k

unfoldable pub lock_kbd_semaphore : (retries : ℕ) → M Kernel Bool
unfolding lock_semaphore_nb
lock_kbd_semaphore retries k = lock_semaphore_nb (keybd_sema + k.semaphores) retries k

unfoldable pub unlock_kbd_semaphore : M Kernel (Unit {0})
unfolding unlock_semaphore_nb
unlock_kbd_semaphore k = unlock_semaphore_nb (keybd_sema + k.semaphores) k

unfoldable pub lock_mmu_semaphore : (retries : ℕ) → M Kernel Bool
unfolding lock_semaphore_nb
lock_mmu_semaphore retries k = lock_semaphore_nb (memory_sema + k.semaphores) retries k

unfoldable pub unlock_mmu_semaphore : M Kernel (Unit {0})
unfolding unlock_semaphore_nb
unlock_mmu_semaphore k = unlock_semaphore_nb (memory_sema + k.semaphores) k

unfoldable pub lock_pmt_semaphore : (retries : ℕ) → M Kernel Bool
unfolding lock_semaphore_nb
lock_pmt_semaphore retries k = lock_semaphore_nb (pmt_sema + k.semaphores) retries k

unfoldable pub unlock_pmt_semaphore : M Kernel (Unit {0})
unfolding unlock_semaphore_nb
unlock_pmt_semaphore k = unlock_semaphore_nb (pmt_sema + k.semaphores) k

unfoldable pub lock_msg_list : (retries : ℕ) → M Kernel Bool
unfolding lock_semaphore_nb
lock_msg_list retries k = lock_semaphore_nb (msg_sema + k.semaphores) retries k

unfoldable pub unlock_msg_list : M Kernel (Unit {0})
unfolding unlock_semaphore_nb
unlock_msg_list k = unlock_semaphore_nb (msg_sema + k.semaphores) k

unfoldable pub lock_mbx_list : (retries : ℕ) → M Kernel Bool
unfolding lock_semaphore_nb
lock_mbx_list retries k = lock_semaphore_nb (mbxlist_sema + k.semaphores) retries k

unfoldable pub unlock_mbx_list : M Kernel (Unit {0})
unfolding unlock_semaphore_nb
unlock_mbx_list k = unlock_semaphore_nb (mbxlist_sema + k.semaphores) k

unfoldable pub lock_timeout_list : (retries : ℕ) → M Kernel Bool
unfolding lock_semaphore_nb
lock_timeout_list retries k = lock_semaphore_nb (tol_sema + k.semaphores) retries k

unfoldable pub unlock_timeout_list : M Kernel (Unit {0})
unfolding unlock_semaphore_nb
unlock_timeout_list k = unlock_semaphore_nb (tol_sema + k.semaphores) k

unfoldable pub lock_ready_queue : (retries : ℕ) → M Kernel Bool
unfolding lock_semaphore_nb
lock_ready_queue retries k = lock_semaphore_nb (rdq_sema + k.semaphores) retries k

unfoldable pub unlock_ready_queue : M Kernel (Unit {0})
unfolding unlock_semaphore_nb
unlock_ready_queue k = unlock_semaphore_nb (rdq_sema + k.semaphores) k

unfoldable pub lock_tcb_list : (retries : ℕ) → M Kernel Bool
unfolding lock_semaphore_nb
lock_tcb_list retries k = lock_semaphore_nb (tcb_sema + k.semaphores) retries k

unfoldable pub unlock_tcb_list : M Kernel (Unit {0})
unfolding unlock_semaphore_nb
unlock_tcb_list k = unlock_semaphore_nb (tcb_sema + k.semaphores) k

unfoldable pub lock_acb_semaphore : (retries : ℕ) → M Kernel Bool
unfolding lock_semaphore_nb
lock_acb_semaphore retries k = lock_semaphore_nb (acb_sema + k.semaphores) retries k

unfoldable pub unlock_acb_semaphore : M Kernel (Unit {0})
unfolding unlock_semaphore_nb
unlock_acb_semaphore k = unlock_semaphore_nb (acb_sema + k.semaphores) k

unfoldable pub lock_alarm_list : (retries : ℕ) → M Kernel Bool
unfolding lock_semaphore_nb
lock_alarm_list retries k = lock_semaphore_nb (alarm_sema + k.semaphores) retries k

unfoldable pub unlock_alarm_list : M Kernel (Unit {0})
unfolding unlock_semaphore_nb
unlock_alarm_list k = unlock_semaphore_nb (alarm_sema + k.semaphores) k

unfoldable pub lock_tmr_semaphore : (retries : ℕ) → M Kernel Bool
unfolding lock_semaphore_nb
lock_tmr_semaphore retries k = lock_semaphore_nb (tmr_sema + k.semaphores) retries k

unfoldable pub unlock_tmr_semaphore : M Kernel (Unit {0})
unfolding unlock_semaphore_nb
unlock_tmr_semaphore k = unlock_semaphore_nb (tmr_sema + k.semaphores) k

-- LockMBX passes the value of the `lock` byte of the mailbox, not its address.
unfoldable pub lock_mbx : (wh retries : ℕ) → M Kernel Bool
unfolding lock_semaphore_nb
lock_mbx wh retries k = lock_semaphore_nb (k.mbx wh).lock retries k

unfoldable pub unlock_mbx : (wh : ℕ) → M Kernel (Unit {0})
unfolding unlock_semaphore_nb
unlock_mbx wh k = unlock_semaphore_nb (k.mbx wh).lock k
