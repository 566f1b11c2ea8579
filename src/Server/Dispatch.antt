-- ===== src/Server/Dispatch.antt =====
-- src/server_reqs.c: the table of requests and `handle_child_req`.
use netcosm.Base.{
  ℕ, ◌-◌, Bool, true, false, Option, none, some, List, [], ◌∷◌, ◌++◌, map, length, take, drop,
  get_or, ltb, ◌==◌, if◌then◌else◌,
}
use netcosm.Base.Run.{Run, ok, abort, ◌>>=◌}
use netcosm.Hash.Ops.{insert, lookup}
use netcosm.Hash.Types.{Keys, HashMap, init}
use netcosm.Server.{Child, Server, find_child, post}
use netcosm.Server.Handlers.{Handler, Finalizer, req_pass_msg}
use netcosm.Stream.{le_value}
use netcosm.Text.{Bytes}
use netcosm.Wire.{req_bcastmsg, req_alldone}

pub data Which : Type 0 where
  child_none : Which
  child_sender : Which
  child_all_but_sender : Which
  child_all : Which

-- struct child_request, without `havedata`, which nothing reads
pub record ChildRequest : Type 0 where
  pub code : ℕ
  pub which : Which
  pub handle_child : Option Handler
  pub finalize : Option Finalizer

-- uchar_hash and uchar_equal
instance abbrev pub uchar_keys : Keys ℕ
uchar_keys = record { hash = λ c. c; same = λ a b. a == b }

abbrev pub RequestMap : Type 0
RequestMap = HashMap ℕ ChildRequest

-- The loop of reqmap_init, which drops what hash_insert returns.
unfoldable pub insert_requests : List ChildRequest → RequestMap → Run RequestMap
unfolding insert
insert_requests [] m = ok m
insert_requests (r ∷ rs) m = insert r.code r m >>= λ x. insert_requests rs x.1

unfoldable pub reqmap_init : List ChildRequest → Run RequestMap
unfolding insert_requests init
reqmap_init requests = insert_requests requests (init (length requests))

-- A call of the handler, which is not NULL where it is called.
unfoldable pub call_handler : ChildRequest → Handler
call_handler r text len sender child sv = elim r.handle_child [
  | none ↦ abort
  | some f ↦ f text len sender child sv
]

unfoldable pub call_finalize : ChildRequest → Finalizer
call_finalize r text len sender sv = elim r.finalize [
  | none ↦ ok sv
  | some f ↦ f text len sender sv
]

-- The loop over the children other than the sender.
unfoldable pub each_other : ChildRequest → Bytes → ℕ → ℕ → List ℕ → Server → Run Server
unfolding call_handler
each_other r text len sender [] sv = ok sv
each_other r text len sender (pid ∷ pids) sv =
    (if pid == sender then ok sv else call_handler r text len sender pid sv) >>= λ sv.
    each_other r text len sender pids sv

abbrev pub pids : Server → List ℕ
pids sv = map (λ c. c.pid) sv.children

-- The handlers that a request calls, by its `which`.
unfoldable pub call_children : ChildRequest → Bytes → ℕ → ℕ → Server → Run Server
unfolding call_handler each_other
call_children r text len sender sv = elim r.which [
  | child_none ↦ ok sv
  | child_sender ↦ call_handler r text len sender sender sv
  | child_all_but_sender ↦ each_other r text len sender (pids sv) sv
  | child_all ↦
      call_handler r text len sender sender sv >>= λ sv. each_other r text len sender (pids sv) sv
]

-- What the request found in the table does.
unfoldable pub serve_row : Option ChildRequest → Bytes → ℕ → ℕ → Server → Run Server
unfolding call_children call_finalize
serve_row none text len sender sv = ok sv
serve_row (some r) text len sender sv =
    call_children r text len sender sv >>= λ sv. call_finalize r text len sender sv

-- What follows the lookup of the sender: the request is served, and acknowledged in any case.
unfoldable pub serve : RequestMap → Option Child → ℕ → ℕ → Bytes → ℕ → Server → Run Server
unfolding serve_row
serve requests none sender cmd text len sv = ok sv
serve requests (some c) sender cmd text len sv =
    serve_row (lookup cmd requests) text len sender sv >>= λ sv. post sender req_alldone [] sv

-- `input` is what `read` puts over the beginning of the static buffer, at most MSG_MAX bytes. The
-- result tells whether the pipe is alive.
unfoldable pub handle_child_req : RequestMap → Bytes → Server → Run (Bool × Server)
unfolding serve find_child
handle_child_req requests input sv0 =
    let sv = record sv0 { packet = input ++ drop (length input) sv0.packet } in
    let sender = le_value (take 4 sv.packet) in
    if ltb (length input) 5
    then ok (false, sv)
    else (serve requests (find_child sender sv.children) sender (get_or sv.packet 4 0)
          (drop 5 sv.packet) (length input - 5) sv
        >>= λ sv. ok (true, sv))

-- The row of REQ_BCASTMSG.
abbrev pub pass_msg_request : ChildRequest
pass_msg_request = record {
  code = req_bcastmsg;
  which = child_all;
  handle_child = some req_pass_msg;
  finalize = none;
}
