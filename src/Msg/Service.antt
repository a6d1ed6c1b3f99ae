-- ===== src/Msg/Service.antt =====
-- Request blocks and named services: the first functions of msg.c. Names are lists of characters,
-- without the null that ends them in C.
use rf.Prelude.{
  ℕ, zero, suc, ◌+◌, ◌-◌, ◌^◌, Bool, true, false, ◌&&◌, not, Option, none, some, List, [], ◌∷◌,
  ◌==◌, ltb, leb, if◌then◌else◌, update,
}
use rf.Kernel.Config.{
  ℤ, pos, negsuc, neg, nr_rqb, nr_service, le_zero, out_of_range, e_ok, e_arg, e_not_alloc,
  e_service,
}
use rf.Kernel.Run.{ok, fault, M, ◌>>=◌}
use rf.Kernel.Types.{Rqb, Service}
use rf.Kernel.State.{Kernel}
use rf.Msg.Pool.{u32}
use rf.Msg.Mailbox.{alloc_mbx}

-- Blocks and services as memset leaves them.
abbrev pub no_rqb : Rqb
no_rqb = record {
  magic = 0;
  owner = 0;
  next = 0;
  service_mbx = 0;
  response_mbx = 0;
  handle = 0;
  opcode = 0;
  d1 = 0;
  d2 = 0;
  d3 = 0;
  data1 = 0;
  cb_data1 = 0;
  data2 = 0;
  cb_data2 = 0;
  data3 = 0;
  cb_data3 = 0;
}

abbrev pub no_service : Service
no_service = record { name = []; service_mbx = 0 }

-- RQB_Initialize, its loops by what they leave in the elements of the two arrays.
unfoldable pub rqb_initialize : M Kernel (Unit {0})
rqb_initialize k = ok tt (record k {
  rqb = λ h. if out_of_range nr_rqb h then k.rqb h else record no_rqb { next = h + 1 };
  service = λ n. if ltb n nr_service then no_service else k.service n;
  free_rqb = 1;
  n_request = nr_rqb;
})

abbrev pub rqb_magic : ℕ
rqb_magic = 0x52514220

-- AllocRqb: the first free block, or what FreeRQB holds if that is no block.
unfoldable pub alloc_rqb : M Kernel ℕ
alloc_rqb k =
    let h = k.free_rqb in
    if le_zero h
    then ok h k
    else if ltb nr_rqb h
    then fault
    else ok h (record k {
      free_rqb = (k.rqb h).next;
      n_request = u32 (k.n_request + 2 ^ 32 - 1);
      rqb = update k.rqb h (record (k.rqb h) { magic = rqb_magic; owner = k.running_appid });
    })

-- FreeRqb. Its test `rqb == 0 && rqb > NR_RQB` refuses nothing.
unfoldable pub free_rqb : ℕ → M Kernel ℤ
free_rqb rqb k =
    if rqb == 0 && ltb nr_rqb rqb
    then ok (neg e_arg) k
    else if out_of_range nr_rqb rqb
    then fault
    else if (k.rqb rqb).magic == rqb_magic
    then ok (pos e_ok) (record k {
      rqb = update k.rqb rqb (record (k.rqb rqb) { magic = 0; next = k.free_rqb });
      free_rqb = rqb;
      n_request = u32 (k.n_request + 1);
    })
    else ok (neg e_not_alloc) k

-- Characters and names are compared without case by stricmp.
abbrev pub to_lower : ℕ → ℕ
to_lower c = if leb 65 c && leb c 90 then c + 32 else c

unfoldable pub same_name : List ℕ → List ℕ → Bool
same_name [] [] = true
same_name [] (d ∷ ds) = false
same_name (c ∷ cs) [] = false
same_name (c ∷ cs) (d ∷ ds) = to_lower c == to_lower d && same_name cs ds

-- strncmp(a, b, n) == 0, and the characters that strncpy copies.
unfoldable pub same_prefix : (n : ℕ) → List ℕ → List ℕ → Bool
same_prefix zero cs ds = true
same_prefix (suc n) [] [] = true
same_prefix (suc n) [] (d ∷ ds) = false
same_prefix (suc n) (c ∷ cs) [] = false
same_prefix (suc n) (c ∷ cs) (d ∷ ds) = c == d && same_prefix n cs ds

unfoldable pub first_chars : (n : ℕ) → List ℕ → List ℕ
first_chars zero cs = []
first_chars (suc n) [] = []
first_chars (suc n) (c ∷ cs) = c ∷ first_chars n cs

-- The first of `fuel` services from the index `nn` on that passes the test.
unfoldable pub find_service : (fuel nn : ℕ) → (Service → Bool) → Kernel → Option ℕ
find_service zero nn test k = none
find_service (suc fuel) nn test k =
    let rest = find_service fuel (nn + 1) test k in if test (k.service nn) then some nn else rest

-- FMTK_GetServiceMbx: stricmp is 0 for equal names, so the first service of another name is found.
unfoldable pub get_service_mbx : List ℕ → M Kernel ℤ
get_service_mbx name k = elim (find_service nr_service 0 (λ s. not (same_name name s.name)) k) [
  | none ↦ ok (pos 0) k
  | some nn ↦ ok (pos (k.service nn).service_mbx) k
]

abbrev pub is_unnamed : List ℕ → Bool
is_unnamed [] = true
is_unnamed (c ∷ cs) = false

-- FMTK_RegisterService
unfoldable pub register_service : List ℕ → M Kernel ℤ
register_service name k = elim (find_service nr_service 0 (λ s. is_unnamed s.name) k) [
  | none ↦ ok (neg e_service) k
  | some nn ↦
      (do
        mbx ← alloc_mbx
        λ c. elim mbx [
          | negsuc n ↦ ok (neg e_service) c
          | pos m ↦
              if m == 0
              then ok (neg e_service) c
              else ok (pos e_ok) (record c {
                service =
                    update c.service nn (record { name = first_chars 61 name; service_mbx = m });
              })
        ])
        k
]

-- FMTK_UnregisterService
unfoldable pub unregister_service : List ℕ → M Kernel ℤ
unregister_service name k = elim (find_service nr_service 0 (λ s. same_prefix 61 s.name name) k) [
  | none ↦ ok (neg e_service) k
  | some nn ↦ ok (pos e_ok) (record k { service = update k.service nn no_service })
]
