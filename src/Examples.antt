-- ===== src/Examples.antt =====
-- Small states of the kernel, and the theorems on them.
pub mod Lists
pub mod Queues
pub mod Memory
pub mod Machine
pub mod Keys
pub mod Text
use rf.Prelude.{◌==◌, if◌then◌else◌, false, [], ◌∷◌, none, some, update}
use rf.Kernel.Types.{Message, Tcb, Status, ts_none, Mbx}
use rf.Kernel.Config.{mqs_oldest}
use rf.Kernel.State.{Tasks, Pool, Box, Timers, Apps, Kernel}
use rf.Msg.Service.{no_rqb, no_service}

abbrev pub no_message : Message
no_message = record {
  link = 0;
  type = 0;
  timestamp = 0;
  x = 0;
  y = 0;
  z = 0;
  d1 = 0;
  d2 = 0;
  d3 = 0;
}

-- A thread of priority 15 that any core may run.
abbrev pub idle : Tcb
idle = record {
  acbnext = 0;
  next = 0;
  prev = 0;
  mbq_next = 0;
  mbq_prev = 0;
  timeout = 0;
  msg = no_message;
  mailboxes = λ _. 0;
  wait_mbx = 0;
  app = 1;
  callback = [];
  priority = 15;
  status = ts_none;
  affinity = 63;
  start_tick = 0;
  end_tick = 0;
  ticks = 0;
  exception = 0;
  exception_handler = 0;
  regs = λ _. 0;
  pc = 0;
  sr = 0;
  fmt = 0;
  stack = 0;
  stack_size = 0;
}

abbrev pub no_tasks : Tasks
no_tasks = record {
  tcb = λ _. idle;
  free_tcb = 0;
  ready_q = λ _. 0;
  ultra = λ _. false;
  timeout_list = 0;
}

-- The threads 1 and 2 are ready; 3 is free.
abbrev pub two_ready : Tasks
two_ready = record no_tasks {
  free_tcb = 3;
  tcb =
      update (update (λ _. idle) 1 (record idle { next = 2; prev = 2 })) 2
        (record idle { next = 1; prev = 1 });
  ready_q = update (λ _. 0) 15 1;
}

-- The threads 1 and 2 sleep for 5 and for 8 ticks; 3 is on no list.
abbrev pub two_asleep : Tasks
two_asleep = record no_tasks {
  tcb =
      update (update (λ _. idle) 1 (record idle { next = 2; timeout = 5 })) 2
        (record idle { prev = 1; timeout = 3 });
  timeout_list = 1;
}

-- Messages with the payload of their handle; 4, 5 and 6 are free.
abbrev pub some_pool : Pool
some_pool = record {
  message = λ h. record no_message { d1 = h; link = if h == 1 then 2 else if h == 4 then 5 else 0 };
  free_msg = 4;
  n_msg_blk = 2;
}

-- A mailbox of the app 1 that keeps its two oldest messages, 1 and 2.
abbrev pub full_mbx : Mbx
full_mbx = record {
  link = 0;
  owner = 1;
  tq_head = 0;
  tq_tail = 0;
  mq_head = 1;
  mq_tail = 2;
  mq_strategy = mqs_oldest;
  lock = 7;
  tq_count = 0;
  mq_size = 2;
  mq_count = 2;
  mq_missed = 0;
}

abbrev pub full_box : Box
full_box = record { pool = some_pool; mbx = full_mbx }

-- The same with room for more, and without messages.
abbrev pub roomy_box : Box
roomy_box = record full_box { mbx = record full_mbx { mq_size = 8 } }

abbrev pub empty_box : Box
empty_box = record full_box { mbx = record full_mbx { mq_head = 0; mq_tail = 0; mq_count = 0 } }

-- No timer is taken but that of the system, and no app owns one.
abbrev pub no_timers : Timers
no_timers = record {
  tmr = λ _. record { owner = 0 };
  taken = λ n. n == 4;
  pit =
      λ _. record { max_count_lo = 0; max_count_hi = 0; on_time_lo = 0; on_time_hi = 0; ctrl = [] };
  enabled = λ _. false;
}

-- The system's app, and no other.
abbrev pub one_app : Apps
one_app = record {
  acb = λ h. if h == 1 then some (record { magic = 0; thread = 0; mailbox = 1 }) else none;
  listed = λ _. false;
  keybd_irq_mbx = 0;
  keybd_mbx = 0;
  sys_mbx = 1;
}

-- A kernel with one mailbox; the first try to lock with a limit fails.
abbrev pub small_kernel : Kernel
small_kernel = record {
  tasks = two_ready;
  pool = some_pool;
  mbx = λ _. record full_mbx { mq_size = 8 };
  free_mbx = 2;
  n_mailbox = 1;
  rqb = λ _. no_rqb;
  free_rqb = 1;
  n_request = 1;
  service = λ _. no_service;
  running_tcb = 1;
  running_appid = 1;
  tick = 9;
  semaphores = 1000;
  answers = false ∷ [];
  held = [];
  reschedules = 0;
  de_aliased = [];
  cpu = 2;
  invert = 0;
  inited = 0;
  irq_flag = 0;
  timers = no_timers;
  apps = one_app;
}
