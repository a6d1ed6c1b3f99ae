-- ===== src/Kernel/State.antt =====
-- The global variables of the kernel (inc/glo.h), in the parts that its files share. The entry of a
-- table for the handle `h` is the element `h - 1` of the array.
use rf.Prelude.{ℕ, Bool, List, Option, update}
use rf.Kernel.Types.{Tcb, Message, Mbx, Rqb, Service, Tmr, PitReg, Acb}

-- tcbs, freeTCB, readyQ, hasUltraHighPriorityTasks (by its bits), TimeoutList
pub record Tasks : Type 0 where
  pub tcb : ℕ → Tcb
  pub free_tcb : ℕ
  pub ready_q : ℕ → ℕ
  pub ultra : ℕ → Bool
  pub timeout_list : ℕ

-- message, freeMSG, nMsgBlk
pub record Pool : Type 0 where
  pub message : ℕ → Message
  pub free_msg : ℕ
  pub n_msg_blk : ℕ

-- `tcbs[h-1]` is changed by `f`.
abbrev pub at : ℕ → (Tcb → Tcb) → Tasks → Tasks
at h f s = record s { tcb = update s.tcb h (f (s.tcb h)) }

abbrev pub at_msg : ℕ → (Message → Message) → Pool → Pool
at_msg h f p = record p { message = update p.message h (f (p.message h)) }

-- A mailbox with the message pool: what the message queue of one mailbox is made of.
pub record Box : Type 0 where
  pub pool : Pool
  pub mbx : Mbx

-- A mailbox with the threads: what the thread queue of one mailbox is made of.
pub record Desk : Type 0 where
  pub tasks : Tasks
  pub mbx : Mbx

-- tmrs, timer_pool (by its bits: `taken n` is the bit n % 32 of the element n / 32) and the registers
-- of the interval timers with their interrupt enables. The index is that of the array, from 0.
pub record Timers : Type 0 where
  pub tmr : ℕ → Tmr
  pub taken : ℕ → Bool
  pub pit : ℕ → PitReg
  pub enabled : ℕ → Bool

-- ACBPtrs (the entry for a handle, `none` for the null pointer), ACBList (by its bits), hKeybdIRQMbx,
-- hKeybdMbx and sysmbx.
pub record Apps : Type 0 where
  pub acb : ℕ → Option Acb
  pub listed : ℕ → Bool
  pub keybd_irq_mbx : ℕ
  pub keybd_mbx : ℕ
  pub sys_mbx : ℕ

-- The whole kernel as one core sees it. `answers` are the outcomes that the calls of
-- LockSemaphoreNB with a limited number of retries have in turn: the other cores decide them. `held`
-- are the addresses of the semaphores that are locked, the latest first, and `reschedules` counts
-- the reschedule interrupts that were raised. `service` has an entry for each index of the array.
-- `cpu` is the number of the core, `inited` the variable FMTK_Inited.
-- `de_aliased` are the calls of FMTK_DeAliasMem, the latest first: what they do to the memory maps is
-- not part of this state.
pub record Kernel : Type 0 where
  pub tasks : Tasks
  pub pool : Pool
  pub mbx : ℕ → Mbx
  pub free_mbx : ℕ
  pub n_mailbox : ℕ
  pub rqb : ℕ → Rqb
  pub free_rqb : ℕ
  pub n_request : ℕ
  pub service : ℕ → Service
  pub running_tcb : ℕ
  pub running_appid : ℕ
  pub tick : ℕ
  pub semaphores : ℕ
  pub answers : List Bool
  pub held : List ℕ
  pub reschedules : ℕ
  pub de_aliased : List (ℕ × ℕ × ℕ)
  pub cpu : ℕ
  pub invert : ℕ
  pub inited : ℕ
  pub irq_flag : ℕ
  pub timers : Timers
  pub apps : Apps
