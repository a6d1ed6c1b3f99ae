-- ===== src/Examples/Machine.antt =====
-- The theorems on the start of threads and apps, at small states.
use rf.Prelude.{ℕ, ◌<◌, ◌≡◌, refl, arith}
use rf.Kernel.Config.{nr_msg}
use rf.Kernel.Run.{Returns}
use rf.Kernel.Types.{Acb}
use rf.Msg.Queue.Shape.{Line}
use rf.Machine.{Machine}
use rf.Machine.Start.{Startup, start_thread}
use rf.Machine.Start.Ready.{Started, start_thread-IsReady}
use rf.Machine.Setup.{setup_tables}
use rf.Machine.Setup.Lists.{handles, setup_tables-lists}
use rf.Machine.App.{find_free_acb}
use rf.Machine.App.Handles.{Handed, find_free_acb-first}
use rf.Examples.{small_kernel}
use rf.Examples.Lists.{two_queues, two_ready_lem}
use rf.Examples.Memory.{small_memory}

abbrev small_machine : Machine
small_machine = record { kernel = small_kernel; memory = small_memory }

abbrev own_stack : Startup
own_stack = record {
  start_addr = 0x1000;
  stack = 0x2_000a;
  parm = 5;
  priority = 15;
  affinity = 2;
  handler = 0x3000;
}

abbrev system_app : Acb
system_app = record { magic = 0; thread = 0; mailbox = 1 }

start_thread-IsReady_example :
    Returns
      (Started 3 system_app own_stack two_queues small_machine)
      (start_thread own_stack small_machine)
start_thread-IsReady_example =
    start_thread-IsReady own_stack small_machine system_app two_queues (omega arith) (omega arith)
      (omega arith) (λ pri l. ground arith) two_ready_lem refl refl refl

setup_tables-lists_example :
    Returns
      (λ _ c.
        (c.pool.free_msg ≡ 1)
        × Line (λ h. (c.pool.message h).link) (handles nr_msg 1) 0
        × (c.free_mbx ≡ 1)
        × Line (λ h. (c.mbx h).link) (handles 128 1) 0
        × (c.tasks.free_tcb ≡ 2)
        × Line (λ h. (c.tasks.tcb h).next) (handles 255 2) 0
        × ((pri : ℕ) → pri < 8 → c.tasks.ready_q pri ≡ 0)
        × (c.tasks.timeout_list ≡ 0))
      (setup_tables system_app small_kernel)
setup_tables-lists_example = setup_tables-lists system_app small_kernel

find_free_acb-first_example : Returns (Handed small_kernel) (find_free_acb small_kernel)
find_free_acb-first_example = find_free_acb-first small_kernel
