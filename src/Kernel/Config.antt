-- ===== src/Kernel/Config.antt =====
-- The limits of inc/config.h and the numbers of inc/const.h. A `long` that is returned is an
-- integer: a handle or E_Ok, or the negated number of an error.
use rf.Prelude.{ℕ, zero, suc, Bool, ◌||◌, ◌==◌, ltb, leb}

pub data ℤ : Type 0 where
  pos : ℕ → ℤ
  negsuc : ℕ → ℤ

abbrev pub neg : ℕ → ℤ
neg zero = pos zero
neg (suc n) = negsuc n

-- NR_ACB, NR_TCB, NR_MBX, NR_MSG, NR_RQB, NR_SERVICE, NR_TMR
abbrev pub nr_acb : ℕ
nr_acb = 32

abbrev pub nr_tcb : ℕ
nr_tcb = 256

abbrev pub nr_mbx : ℕ
nr_mbx = 1024

abbrev pub nr_msg : ℕ
nr_msg = 512

abbrev pub nr_rqb : ℕ
nr_rqb = 256

abbrev pub nr_service : ℕ
nr_service = 64

abbrev pub nr_tmr : ℕ
nr_tmr = 64

-- The enumeration of errors, as far as the modelled code returns them.
abbrev pub e_ok : ℕ
e_ok = 0

abbrev pub e_bad_priority : ℕ
e_bad_priority = 2

abbrev pub e_arg : ℕ
e_arg = 5

abbrev pub e_bad_mbx : ℕ
e_bad_mbx = 8

abbrev pub e_que_full : ℕ
e_que_full = 9

abbrev pub e_no_thread : ℕ
e_no_thread = 10

abbrev pub e_not_alloc : ℕ
e_not_alloc = 11

abbrev pub e_no_msg : ℕ
e_no_msg = 12

abbrev pub e_not_owner : ℕ
e_not_owner = 15

abbrev pub e_busy : ℕ
e_busy = 18

abbrev pub e_service : ℕ
e_service = 21

abbrev pub e_owner_abort : ℕ
e_owner_abort = 22

abbrev pub e_no_more_mbx : ℕ
e_no_more_mbx = 0x40

abbrev pub e_no_more_msg_blks : ℕ
e_no_more_msg_blks = 0x41

abbrev pub e_no_more_timers : ℕ
e_no_more_timers = 0x43

abbrev pub e_no_more_rbqs : ℕ
e_no_more_rbqs = 0x48

-- A handle is a `short int`, kept as its 16-bit pattern: the negative ones are those from 0x8000 on.
abbrev pub le_zero : ℕ → Bool
le_zero h = h == 0 || leb 0x8000 h

-- `h <= 0 || h > limit` for a limit below 0x8000
abbrev pub out_of_range : ℕ → ℕ → Bool
out_of_range limit h = le_zero h || ltb limit h

-- Message types, and the strategies of a message queue.
abbrev pub mt_none : ℕ
mt_none = 0

abbrev pub mt_free : ℕ
mt_free = 1

abbrev pub mt_data : ℕ
mt_data = 2

abbrev pub mt_rqb : ℕ
mt_rqb = 3

abbrev pub mt_resp : ℕ
mt_resp = 4

abbrev pub mqs_unlimited : ℕ
mqs_unlimited = 0

abbrev pub mqs_oldest : ℕ
mqs_oldest = 1

abbrev pub mqs_newest : ℕ
mqs_newest = 2

abbrev pub max_uint : ℕ
max_uint = 0xffff_ffff

abbrev pub e_no_more_tcbs : ℕ
e_no_more_tcbs = 0x45

abbrev pub e_no_more_acbs : ℕ
e_no_more_acbs = 0x44
