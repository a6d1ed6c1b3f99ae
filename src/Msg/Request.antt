-- ===== src/Msg/Request.antt =====
-- FMTK_Request and FMTK_Respond.
use rf.Prelude.{
  ℕ, suc, ◌%◌, ◌^◌, ◌&&◌, not, Option, none, some, ◌∷◌, ◌==◌, if◌then◌else◌, length, update,
}
use rf.Kernel.Config.{
  ℤ, pos, neg, nr_acb, nr_mbx, nr_msg, nr_rqb, nr_service, out_of_range, e_ok, e_arg, e_bad_mbx,
  e_not_alloc, e_owner_abort, e_no_more_msg_blks, e_no_more_rbqs, mt_rqb, mt_resp,
}
use rf.Kernel.Run.{ok, fault, M, ◌>>=◌, ◌>>◌}
use rf.Kernel.Types.{Rqb}
use rf.Kernel.State.{Kernel}
use rf.Kernel.Parts.{on_pool, on_box, on_desk}
use rf.Semaphore.{lock_sys_semaphore, unlock_sys_semaphore}
use rf.Msg.Pool.{alloc_msg, copy_msg, read_msg}
use rf.Msg.Queue.{mbx_queue_msg}
use rf.Msg.Threads.{mbx_dequeue_thread}
use rf.Msg.Mailbox.{mbx_handle_to_pointer, wake, set_msg}
use rf.Msg.Send.{leave}
use rf.Msg.Wait.{null_or_above, null_or_above_long, lock_both, give_msg}
use rf.Msg.Service.{alloc_rqb, free_rqb}

-- `memcpy(req, pRequest, sizeof(RQB))`: the whole block, its magic number, owner and link too.
unfoldable pub put_rqb : ℕ → Rqb → M Kernel (Unit {0})
put_rqb h r k = if out_of_range nr_rqb h then fault else ok tt (record k { rqb = update k.rqb h r })

-- The message goes to the first thread that waits at the mailbox, or to the queue. A null message
-- is followed in both cases.
unfoldable pub dispatch : (m : ℕ) (msg : Option ℕ) → M Kernel ℤ
dispatch m msg = do
  (thread, r) ← on_desk m mbx_dequeue_thread
  elim thread [
    | none ↦ do rr ← on_box m (mbx_queue_msg msg); leave m (neg rr)
    | some t ↦ elim msg [
      | none ↦ λ k. fault
      | some h ↦ do
        x ← on_pool (read_msg h)
        set_msg t (λ _. copy_msg x)
        give_msg h
        leave m tt
        wake t
        ok (pos e_ok)
    ]
  ]

-- Request, from the mailbox of the service on.
unfoldable pub send_request : (m hRqb : ℕ) → M Kernel ℤ
send_request m hRqb = do
  λ k. lock_both (suc (length k.answers)) m k
  λ k.
      (if null_or_above nr_acb (k.mbx m).owner
          then (do free_rqb hRqb; leave m (neg e_not_alloc))
          else if null_or_above nr_msg k.pool.free_msg
          then (do free_rqb hRqb; leave m (neg e_no_more_msg_blks))
          else (do msg ← on_pool (alloc_msg k.tick mt_rqb hRqb 0 0); dispatch m msg))
        k

-- FMTK_Request. The service handle is checked against the mailboxes, so the array can be left.
unfoldable pub request : (hService : ℕ) (pRequest : Option Rqb) → M Kernel ℤ
request hService pRequest k = elim pRequest [
  | none ↦ ok (neg e_arg) k
  | some req ↦
      if null_or_above nr_mbx req.response_mbx
      then ok (neg e_arg) k
      else if null_or_above_long nr_mbx hService
      then ok (neg e_arg) k
      else if out_of_range nr_service hService
      then fault
      else (do
        hRqb ← alloc_rqb
        (if hRqb == 0 then ok (neg e_no_more_rbqs) else (do
          put_rqb hRqb req
          elim (mbx_handle_to_pointer (k.service hService).service_mbx) [
            | none ↦ λ c. fault
            | some m ↦ send_request m hRqb
          ])))
          k
]

-- One alias of a request's data is dropped, if there is one.
unfoldable pub de_alias : (owner address cb : ℕ) → M Kernel (Unit {0})
de_alias owner address cb k =
    if not (address == 0) && not (cb == 0)
    then ok tt (record k { de_aliased = (owner, address, cb) ∷ k.de_aliased })
    else ok tt k

-- The aliases are dropped under the system semaphore, if it can be had, where another app responds.
unfoldable pub drop_aliases : Rqb → M Kernel (Unit {0})
drop_aliases r k =
    if r.owner == k.running_appid
    then ok tt k
    else (do
      st ← lock_sys_semaphore 0xffff_ffff
      (if st
          then (do
            de_alias r.owner r.data1 r.cb_data1
            de_alias r.owner r.data2 r.cb_data2
            unlock_sys_semaphore)
          else ok tt))
        k

-- FMTK_Respond, for a block whose response mailbox exists.
unfoldable pub send_response : (m hRqb stat : ℕ) (r : Rqb) → M Kernel ℤ
send_response m hRqb stat r k =
    if (k.mbx m).owner == 0
    then ok (neg e_bad_mbx) k
    else if stat == e_owner_abort
    then (do free_rqb (hRqb % 2 ^ 16); ok (pos e_ok)) k
    else (do
      lock_both (suc (length k.answers)) m
      drop_aliases r
      msg ← (λ c. on_pool (alloc_msg c.tick mt_resp hRqb stat 0) c)
      dispatch m msg)
        k

unfoldable pub respond : (hRqb stat : ℕ) → M Kernel ℤ
respond hRqb stat k =
    let h = hRqb % 2 ^ 16 in
    let r = k.rqb h in
    if null_or_above_long nr_rqb hRqb
    then ok (neg e_arg) k
    else if out_of_range nr_rqb h
    then fault
    else if null_or_above nr_mbx r.response_mbx
    then ok (neg e_bad_mbx) k
    else elim (mbx_handle_to_pointer r.response_mbx) [
      | none ↦ fault
      | some m ↦ send_response m hRqb stat r k
    ]
