-- ===== src/Kernel/Parts.antt =====
-- Code that works on one part of the kernel's state, run on the whole.
use rf.Prelude.{ℕ, update}
use rf.Kernel.Run.{ok, M, chain}
use rf.Kernel.State.{Tasks, Pool, Box, Desk, Kernel}

module _ {A : Type 0} where
  unfoldable pub on_tasks : M Tasks A → M Kernel A
  on_tasks f k = chain (f k.tasks) (λ a s. ok a (record k { tasks = s }))

  unfoldable pub on_pool : M Pool A → M Kernel A
  on_pool f k = chain (f k.pool) (λ a p. ok a (record k { pool = p }))

  -- The message queue of the mailbox `m`.
  unfoldable pub on_box : ℕ → M Box A → M Kernel A
  on_box m f k =
      chain (f (record { pool = k.pool; mbx = k.mbx m }))
        (λ a b. ok a (record k { pool = b.pool; mbx = update k.mbx m b.mbx }))

  -- The thread queue of the mailbox `m`.
  unfoldable pub on_desk : ℕ → M Desk A → M Kernel A
  on_desk m f k =
      chain (f (record { tasks = k.tasks; mbx = k.mbx m }))
        (λ a d. ok a (record k { tasks = d.tasks; mbx = update k.mbx m d.mbx }))
