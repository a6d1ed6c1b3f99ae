-- ===== src/Kernel/Types.antt =====
-- The structures of inc/types.h, with the fields that the modelled code reads or writes.
use rf.Prelude.{ℕ, Bool, false, List}

-- MSG
pub record Message : Type 0 where
  pub link : ℕ
  pub type : ℕ
  pub timestamp : ℕ
  pub x : ℕ
  pub y : ℕ
  pub z : ℕ
  pub d1 : ℕ
  pub d2 : ℕ
  pub d3 : ℕ

-- The status byte of a TCB, by its bits TS_TIMEOUT, TS_WAITMSG, TS_PREEMPT, TS_RUNNING, TS_READY.
pub record Status : Type 0 where
  pub timeout : Bool
  pub waitmsg : Bool
  pub preempt : Bool
  pub running : Bool
  pub ready : Bool

-- TS_NONE
abbrev pub ts_none : Status
ts_none = record {
  timeout = false;
  waitmsg = false;
  preempt = false;
  running = false;
  ready = false;
}

-- TCB
pub record Tcb : Type 0 where
  pub acbnext : ℕ
  pub next : ℕ
  pub prev : ℕ
  pub mbq_next : ℕ
  pub mbq_prev : ℕ
  pub timeout : ℕ
  pub msg : Message
  pub mailboxes : ℕ → ℕ
  pub wait_mbx : ℕ
  pub app : ℕ
  pub callback : List ℕ
  pub priority : ℕ
  pub status : Status
  pub affinity : ℕ
  pub start_tick : ℕ
  pub end_tick : ℕ
  pub ticks : ℕ
  pub exception : ℕ
  pub exception_handler : ℕ
  pub regs : ℕ → ℕ
  pub pc : ℕ
  pub sr : ℕ
  pub fmt : ℕ
  pub stack : ℕ
  pub stack_size : ℕ

-- MBX
pub record Mbx : Type 0 where
  pub link : ℕ
  pub owner : ℕ
  pub tq_head : ℕ
  pub tq_tail : ℕ
  pub mq_head : ℕ
  pub mq_tail : ℕ
  pub mq_strategy : ℕ
  pub lock : ℕ
  pub tq_count : ℕ
  pub mq_size : ℕ
  pub mq_count : ℕ
  pub mq_missed : ℕ

-- RQB
pub record Rqb : Type 0 where
  pub magic : ℕ
  pub owner : ℕ
  pub next : ℕ
  pub service_mbx : ℕ
  pub response_mbx : ℕ
  pub handle : ℕ
  pub opcode : ℕ
  pub d1 : ℕ
  pub d2 : ℕ
  pub d3 : ℕ
  pub data1 : ℕ
  pub cb_data1 : ℕ
  pub data2 : ℕ
  pub cb_data2 : ℕ
  pub data3 : ℕ
  pub cb_data3 : ℕ

-- service_t
pub record Service : Type 0 where
  pub name : List ℕ
  pub service_mbx : ℕ

-- TMR
pub record Tmr : Type 0 where
  pub owner : ℕ

-- pitreg_t, without the counts that the device keeps. `ctrl` are the values written to the control
-- register, the latest first.
pub record PitReg : Type 0 where
  pub max_count_lo : ℕ
  pub max_count_hi : ℕ
  pub on_time_lo : ℕ
  pub on_time_hi : ℕ
  pub ctrl : List ℕ

-- ACB: the application control block. Its page directory, its break and the flag is_system are part of
-- the state of the memory manager.
pub record Acb : Type 0 where
  pub magic : ℕ
  pub thread : ℕ
  pub mailbox : ℕ
