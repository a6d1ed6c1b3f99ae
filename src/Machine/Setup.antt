-- ===== src/Machine/Setup.antt =====
-- software/Femtiki/source/kernel/Femtiki_kern.c: FMTK_Initialize. Loops over an array are what they leave in
-- its elements. LEDs, text, vectors and interrupt masks are left out.
pub mod Lists
use rf.Prelude.{
  ℕ, zero, suc, ◌+◌, ◌-◌, ◌*◌, ◌/◌, ◌%◌, ◌^◌, Bool, true, false, Option, none, some, ◌==◌, ltb, leb,
  if◌then◌else◌, update,
}
use rf.Kernel.Config.{ℤ, pos, negsuc, nr_mbx, nr_msg, nr_acb, out_of_range, e_ok}
use rf.Kernel.Run.{ok, M, ◌>>=◌, ◌>>◌}
use rf.Kernel.Types.{Mbx, Acb}
use rf.Kernel.State.{Tasks, Pool, Kernel}
use rf.Semaphore.{
  unlock_sys_semaphore, unlock_iof_semaphore, unlock_kbd_semaphore, unlock_msg_list,
  unlock_mbx_list, unlock_tcb_list, unlock_alarm_list,
}
use rf.Msg.Mailbox.{alloc_mbx}
use rf.Msg.Service.{rqb_initialize}
use rf.Sched.{setup_tcbs, fmtk_magic}
use rf.Machine.{Machine, on_kernel}
use rf.Machine.Start.{Startup, start_thread}

-- An element of the array of mailboxes, filled with zeros.
abbrev pub zero_mbx : Mbx
zero_mbx = record {
  link = 0;
  owner = 0;
  tq_head = 0;
  tq_tail = 0;
  mq_head = 0;
  mq_tail = 0;
  mq_strategy = 0;
  lock = 0;
  tq_count = 0;
  mq_size = 0;
  mq_count = 0;
  mq_missed = 0;
}

-- Nothing is running; the flags are cleared.
unfoldable pub clear_running : M Kernel (Unit {0})
clear_running k = ok tt (record k {
  running_appid = 0;
  running_tcb = 0;
  irq_flag = 0;
  tasks = record k.tasks { ultra = λ _. false };
})

unfoldable pub unlock_all : M Kernel (Unit {0})
unlock_all = do
  unlock_sys_semaphore
  unlock_iof_semaphore
  unlock_kbd_semaphore
  unlock_msg_list
  unlock_mbx_list
  unlock_tcb_list
  unlock_alarm_list

-- The array of mailboxes. The link of the element 127 is cleared after the loop.
unfoldable pub setup_mailboxes : M Kernel (Unit {0})
setup_mailboxes k = ok tt (record k {
  mbx = λ h.
      if out_of_range nr_mbx h
      then k.mbx h
      else record zero_mbx { link = if h == 128 then 0 else h + 1 };
  free_mbx = 1;
})

-- The array of messages.
unfoldable pub setup_messages : M Kernel (Unit {0})
setup_messages k = ok tt (record k {
  pool = record k.pool {
    message = λ h.
        if out_of_range nr_msg h
        then k.pool.message h
        else record (k.pool.message h) { link = if h == nr_msg then 0 else h + 1 };
    free_msg = 1;
  };
})

-- The ready queues and the threads. SetupTCBs clears the timeout list.
unfoldable pub setup_threads : M Kernel (Unit {0})
setup_threads k = ok tt (record k { tasks = setup_tcbs k.cpu k.tasks })

-- timer_pool has 8 elements of 32 bits.
unfoldable pub setup_timers : M Kernel (Unit {0})
setup_timers k = ok tt (record k {
  timers = record k.timers { taken = λ n. if ltb n 256 then false else k.timers.taken n };
})

-- ACBPtrs: the system's ACB is the first element. `sys` is what that ACB holds. The app and the thread 1
-- run then.
unfoldable pub setup_apps : (sys : Acb) → M Kernel (Unit {0})
setup_apps sys k = ok tt (record k {
  apps = record k.apps {
    acb = λ h. if h == 1 then some sys else if leb h nr_acb then none else k.apps.acb h;
  };
  running_appid = 1;
  running_tcb = 1;
})

-- The lists and tables, up to the mailboxes that are allocated.
unfoldable pub setup_tables : (sys : Acb) → M Kernel (Unit {0})
setup_tables sys = do
  clear_running
  unlock_all
  setup_mailboxes
  setup_messages
  rqb_initialize
  setup_threads
  setup_timers
  setup_apps sys

-- A result that is kept in a `short`.
abbrev pub short_of : ℤ → ℕ
short_of (pos n) = n % 2 ^ 16
short_of (negsuc n) = 2 ^ 16 - 1 - n % 2 ^ 16

unfoldable pub set_keybd_irq_mbx : ℤ → M Kernel (Unit {0})
set_keybd_irq_mbx r k = ok tt (record k { apps = record k.apps { keybd_irq_mbx = short_of r } })

-- The mailbox of the system's ACB, which is sysmbx too; no mailbox for keys; FMTK_Inited.
unfoldable pub set_sys_mbx : (sys : Acb) → ℤ → M Kernel (Unit {0})
set_sys_mbx sys r k = ok tt (record k {
  apps = record k.apps {
    acb = update k.apps.acb 1 (some (record sys { mailbox = short_of r }));
    sys_mbx = short_of r;
    keybd_mbx = 0;
  };
  inited = fmtk_magic;
})

-- A thread of priority 15 on the core 2.
abbrev pub system_thread : (start_addr stack handler : ℕ) → Startup
system_thread start_addr stack handler = record {
  start_addr = start_addr;
  stack = stack;
  parm = 0;
  priority = 15;
  affinity = 2;
  handler = handler;
}

-- The addresses of IdleThread, IdleStack, KeybdTranslateThread, its stack, StartMon and the handler.
pub record Labels : Type 0 where
  pub idle_thread : ℕ
  pub idle_stack : ℕ
  pub keybd_thread : ℕ
  pub keybd_stack : ℕ
  pub start_mon : ℕ
  pub handler : ℕ

-- FMTK_Initialize
unfoldable pub initialize : (sys : Acb) → Labels → M Machine ℤ
initialize sys l = do
  on_kernel (setup_tables sys)
  irq ← on_kernel alloc_mbx
  on_kernel (set_keybd_irq_mbx irq)
  mbx ← on_kernel alloc_mbx
  on_kernel (set_sys_mbx sys mbx)
  start_thread (system_thread l.idle_thread (l.idle_stack / 32 * 32 + 10) l.handler)
  start_thread (system_thread l.keybd_thread (l.keybd_stack / 32 * 32 + 10) l.handler)
  start_thread (system_thread l.start_mon 0x4_700a l.handler)
  ok (pos e_ok)
