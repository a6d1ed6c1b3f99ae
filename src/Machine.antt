-- ===== src/Machine.antt =====
-- software/Femtiki/source/kernel/Femtiki_kern.c and software/Femtiki/source/app.c: the code that uses both the
-- kernel's tables and the memory manager: the start of threads and apps.
pub mod Start
pub mod Setup
pub mod App
use rf.Prelude.{ℕ}
use rf.Kernel.Run.{ok, M, chain}
use rf.Kernel.State.{Kernel}
use rf.Memory.State.{Memory}

-- The two states. An ACB is in both: its threads and its mailbox in the kernel, its page directory, break
-- and flag is_system with the memory manager.
pub record Machine : Type 0 where
  pub kernel : Kernel
  pub memory : Memory

module _ {A : Type 0} where
  unfoldable pub on_kernel : M Kernel A → M Machine A
  on_kernel f s = chain (f s.kernel) (λ a k. ok a (record s { kernel = k }))

  unfoldable pub on_memory : M Memory A → M Machine A
  on_memory f s = chain (f s.memory) (λ a m. ok a (record s { memory = m }))
