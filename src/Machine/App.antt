-- ===== src/Machine/App.antt =====
-- software/Femtiki/source/app.c: handles of apps and the start of an app. The contents of the memory that is
-- copied or cleared are not part of the state.
pub mod Handles
use rf.Prelude.{
  ℕ, zero, suc, ◌+◌, ◌-◌, ◌*◌, ◌/◌, ◌%◌, ◌^◌, Bool, true, false, not, Option, none, some, ◌==◌, ltb,
  leb, if◌then◌else◌, update,
}
use rf.Kernel.Config.{ℤ, pos, neg, e_no_more_acbs}
use rf.Kernel.Run.{ok, fault, M, ◌>>=◌, ◌>>◌}
use rf.Kernel.Types.{Acb}
use rf.Kernel.State.{Kernel}
use rf.Memory.State.{Memory, e_no_mem}
use rf.Memory.Break.{mem_alloc, mem_free}
use rf.Msg.Pool.{u32}
use rf.Thread.{put_acb, free_acb, acb_handle_to_pointer}
use rf.Machine.{Machine, on_kernel, on_memory}
use rf.Machine.Start.{Startup, start_thread}

-- The first handle from `nn` on, among `n`, that is not listed.
unfoldable pub find_acb : (n nn : ℕ) → (ℕ → Bool) → Option ℕ
find_acb zero nn listed = none
find_acb (suc n) nn listed =
    let rest = find_acb n (nn + 1) listed in if listed nn then rest else some nn

unfoldable pub list_acb : Option ℕ → M Kernel ℕ
list_acb none k = ok 0 k
list_acb (some nn) k =
    ok nn (record k { apps = record k.apps { listed = update k.apps.listed nn true } })

-- FindFreeACB
unfoldable pub find_free_acb : M Kernel ℕ
find_free_acb k = list_acb (find_acb 31 1 k.apps.listed) k

-- AppStartupRec
pub record AppStartupRec : Type 0 where
  pub priority : ℕ
  pub affinity : ℕ
  pub codesize : ℕ
  pub datasize : ℕ
  pub uidatasize : ℕ
  pub has_garbage_collector : Bool

-- The memory of an app: the ACB itself, pEnv, pVirtVidMem, pCode and pData; 0 for none.
pub record AppMemory : Type 0 where
  pub acb : ℕ
  pub env : ℕ
  pub vid : ℕ
  pub p_code : ℕ
  pub p_data : ℕ

abbrev pub only_acb : (acb : ℕ) → AppMemory
only_acb acb = record { acb = acb; env = 0; vid = 0; p_code = 0; p_data = 0 }

-- The ACB is entered in the array at the index `h`: it is the entry for the handle `h + 1`. It is filled
-- with zeros, its page directory too.
unfoldable pub enter_acb : (h : ℕ) → M Machine (Unit {0})
enter_acb h s = ok tt (record s {
  kernel = put_acb (h + 1) (record { magic = 0; thread = 0; mailbox = 0 }) s.kernel;
  memory = record s.memory {
    has_acb = update s.memory.has_acb (h + 1) true;
    app_pd = update s.memory.app_pd (h + 1) (λ _. 0);
    brk = update s.memory.brk (h + 1) 0;
    is_system = update s.memory.is_system (h + 1) false;
  };
})

-- `mem_free(h,p)` where there is memory.
unfoldable pub give_back : (h p : ℕ) → M Machine (Unit {0})
give_back h p s = if p == 0 then ok tt s else (on_memory (mem_free h p) >> ok tt) s

-- The memory of the app `h` and its ACB.
unfoldable pub give_all : (h : ℕ) → AppMemory → M Machine (Unit {0})
give_all h a = do
  give_back h a.p_data
  give_back h a.p_code
  give_back h a.vid
  give_back h a.env
  on_memory (mem_free 1 a.acb)
  ok tt

-- What is done after the label err1.
unfoldable pub abandon : (h err : ℕ) → AppMemory → M Machine ℤ
abandon h err a = do
  (if a.acb == 0 then ok tt else give_all h a)
  on_kernel (λ k. ok tt (free_acb h k))
  ok (neg err)

-- Memory for the app `h`, or the way out.
unfoldable pub alloc_or : (h size acr err : ℕ) → AppMemory → (ℕ → M Machine ℤ) → M Machine ℤ
alloc_or h size acr err a k = do
  p ← on_memory (mem_alloc h size acr)
  (if p == 0 then abandon h err a else k p)

-- `pACB->magic = ACB_MAGIC`, in the ACB that was entered.
unfoldable pub set_magic : (h : ℕ) → M Kernel (Unit {0})
set_magic h k = elim (k.apps.acb (h + 1)) [
  | none ↦ fault
  | some a ↦ ok tt (put_acb (h + 1) (record a { magic = 0x0042_4341 }) k)
]

-- The card memory, the result of which is not tested.
unfoldable pub alloc_cards : (h : ℕ) → AppStartupRec → M Machine (Unit {0})
alloc_cards h asr =
    if asr.has_garbage_collector
    then (on_memory (mem_alloc h (u32 (asr.uidatasize / 2 ^ 8 + asr.uidatasize / 2 ^ 16)) 6)
        >> ok tt)
    else ok tt

-- The call of FMTK_StartThread passes four arguments to a function of five: the address of the command line
-- stands for the stack, `info` for the parameter, the affinity for the priority, and what the register
-- holds, `junk`, for the affinity.
unfoldable pub start_app_thread :
    (h code command_line junk handler : ℕ) → AppStartupRec → M Machine ℤ
start_app_thread h code command_line junk handler asr = do
  start_thread (record {
    start_addr = code;
    stack = command_line;
    parm = asr.priority % 2 ^ 8 * 2 ^ 8 + h % 2 ^ 8;
    priority = asr.affinity;
    affinity = junk;
    handler = handler;
  })
  ok (pos h)

-- What FMTK_StartApp knows of the program: the size of an ACB, the offset of its command line, what is in
-- the variable `err` before it is set and in the register of the argument that is left out, and the address
-- of FMTK_ExceptionHandler.
pub record Linkage : Type 0 where
  pub acb_size : ℕ
  pub command_line : ℕ
  pub err : ℕ
  pub junk : ℕ
  pub handler : ℕ

-- The part of FMTK_StartApp after the video memory.
unfoldable pub load_app : (h : ℕ) → Linkage → AppStartupRec → AppMemory → M Machine ℤ
load_app h l asr a = do
  on_kernel (set_magic h)
  alloc_cards h asr
  alloc_or h asr.codesize 5 e_no_mem a (λ code.
      alloc_or h asr.datasize 6 e_no_mem (record a { p_code = code })
        (λ p_data. start_app_thread h code (u32 (a.acb + l.command_line)) l.junk l.handler asr))

-- The parent's ACB is looked up to copy its environment.
unfoldable pub parent_of : (hParent : ℕ) → M Kernel (Option Acb)
parent_of hParent = acb_handle_to_pointer hParent

unfoldable pub start_app_in : (h hParent : ℕ) → Linkage → AppStartupRec → (acb : ℕ) → M Machine ℤ
start_app_in h hParent l asr acb = do
  enter_acb h
  alloc_or h 16384 6 l.err (only_acb acb) (λ env. do
    on_kernel (parent_of hParent)
    alloc_or h 16384 6 e_no_mem (record (only_acb acb) { env = env })
        (λ vid. load_app h l asr (record (only_acb acb) { env = env; vid = vid })))

unfoldable pub start_app_of : (h hParent : ℕ) → Linkage → AppStartupRec → M Machine ℤ
start_app_of h hParent l asr =
    if h == 0
    then ok (neg e_no_more_acbs)
    else alloc_or 1 l.acb_size 14 e_no_more_acbs (only_acb 0) (start_app_in h hParent l asr)

-- FMTK_StartApp
unfoldable pub start_app : (hParent : ℕ) → Linkage → AppStartupRec → M Machine ℤ
start_app hParent l asr = do h ← on_kernel find_free_acb; start_app_of h hParent l asr
