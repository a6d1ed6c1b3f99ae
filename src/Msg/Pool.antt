-- ===== src/Msg/Pool.antt =====
-- The pool of messages, and pointers to messages. A pointer to the message of handle `h` is `some h`;
-- it need not be one of the array, since MSGHandleToPointer checks nothing.
use rf.Prelude.{ℕ, ◌+◌, ◌-◌, ◌%◌, ◌^◌, Option, none, some, ◌==◌, if◌then◌else◌}
use rf.Kernel.Config.{nr_msg, out_of_range, mt_free}
use rf.Kernel.Run.{ok, fault, M}
use rf.Kernel.Types.{Message}
use rf.Kernel.State.{Pool, at_msg}

abbrev pub u32 : ℕ → ℕ
u32 n = n % 2 ^ 32

unfoldable pub msg_handle_to_pointer : ℕ → Option ℕ
msg_handle_to_pointer h = some h

-- The handle of a message; the pointers given to MSGPointerToHandle are never null.
unfoldable pub msg_pointer_to_handle : ℕ → ℕ
msg_pointer_to_handle m = m

-- Reading a message through its handle: a fault outside the array.
unfoldable pub read_msg : ℕ → M Pool Message
read_msg h p = if out_of_range nr_msg h then fault else ok (p.message h) p

-- CopyMsg: the link of the copy is cleared.
unfoldable pub copy_msg : Message → Message
copy_msg smsg = record smsg { link = 0 }

-- AllocMsg. The first message of the free list is taken without a look at its handle.
unfoldable pub alloc_msg : (tick typ d1 d2 d3 : ℕ) → M Pool (Option ℕ)
alloc_msg tick typ d1 d2 d3 p =
    if p.free_msg == 0
    then ok none p
    else (if out_of_range nr_msg p.free_msg
        then fault
        else (let h = p.free_msg in
            ok (some h)
              (record (at_msg h
                (λ m. record m {
                  type = typ;
                  timestamp = tick;
                  x = 0;
                  y = 0;
                  z = 0;
                  d1 = d1;
                  d2 = d2;
                  d3 = d3;
                })
                p) { free_msg = (p.message h).link; n_msg_blk = u32 (p.n_msg_blk + 2 ^ 32 - 1) })))

-- FreeMsg. A pointer outside the array is ignored.
unfoldable pub free_msg : Option ℕ → Pool → Pool
free_msg msg p = elim msg [
  | none ↦ p
  | some h ↦
      if out_of_range nr_msg h
      then p
      else record (at_msg h
          (λ m. record m {
            type = mt_free;
            link = p.free_msg;
            timestamp = 0;
            x = 0;
            y = 0;
            z = 0;
            d1 = 0;
            d2 = 0;
            d3 = 0;
          })
          p) { free_msg = h; n_msg_blk = u32 (p.n_msg_blk + 1) }
]
