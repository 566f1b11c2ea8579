-- ===== src/Client.antt =====
-- src/client_reqs.c: what a child asks of the server and what it does with the answers. The packets
-- in the pipe are a list; a `read` takes one, and an empty one means that the server closed the pipe.
pub mod Rate
pub mod Poll
pub mod Moves
pub mod Shell
pub mod Callbacks
pub mod Reading
pub mod Session
pub mod Entrance
pub mod Shrinking
pub mod Guarding
pub mod Output
pub mod Cutting
pub mod Wrapping
use netcosm.Base.{
  ℕ, ◌+◌, Bool, true, false, not, List, [], ◌∷◌, ◌++◌, length, take, ltb, leb, ◌==◌, ◌||◌,
  if◌then◌else◌,
}
use netcosm.Base.Run.{Run, ok, assert, ◌>>=◌, ◌>>◌}
use netcosm.Stream.{le_bytes, le_value}
use netcosm.Text.{Bytes, ascii}
use netcosm.Wire.{
  msg_max, req_bcastmsg, req_kick, req_move, req_getuserdata, req_deluserdata, req_adduserdata,
  req_printnewline, req_alldone, req_rawmode,
}

-- reqdata_type with the member of returned_reqdata that it names
pub data ReqData : Type 0 where
  type_none : ReqData
  type_userdata : Bytes → ReqData
  type_boolean : Bool → ReqData

-- The globals of a child. `out_calls` are the arguments of the calls of `out`.
pub record Client : Type 0 where
  pub child_rawmode : Bool
  pub out_calls : List Bytes
  pub reqdata : ReqData
  pub request_complete : Bool

-- sizeof(struct userdata_t)
abbrev pub userdata_size : ℕ
userdata_size = 208

abbrev pub out : Bytes → Client → Client
out text c = record c { out_calls = c.out_calls ++ text ∷ [] }

-- The cases of the switch that neither leave the loop nor end the process. The buffer is zeroed, so
-- that bytes which are missing from a packet read as 0.
unfoldable pub receive : ℕ → Bytes → Client → Client
unfolding le_value
receive cmd text c =
    if cmd == req_rawmode
    then record c { child_rawmode = not c.child_rawmode }
    else if cmd == req_bcastmsg
    then out text c
    else if cmd == req_move
    then record c { reqdata = type_boolean (le_value (take 4 text) == 1) }
    else if cmd == req_getuserdata
    then if length text == userdata_size then record c { reqdata = type_userdata text } else c
    else if cmd == req_deluserdata || cmd == req_adduserdata
    then record c { reqdata = type_boolean (not (le_value (take 1 text) == 0)) }
    else if cmd == req_printnewline
    then out (ascii "\n") c
    else c

-- How poll_requests ends: it returns, or the process exits.
pub data Polled : Type 0 where
  returned : Bool → Polled
  exited : Polled

-- The loop of poll_requests: how it ends, the packets left in the pipe, and the child after it.
unfoldable pub poll_loop : Bool → List Bytes → Client → Polled × List Bytes × Client
unfolding receive
poll_loop got [] c = (returned got, [], c)
poll_loop got ([] ∷ ps) c = (exited, ps, c)
poll_loop got ((cmd ∷ text) ∷ ps) c =
    if cmd == req_alldone
    then (returned true, ps, record c { request_complete = true })
    else if cmd == req_kick
    then (exited, ps, out text c)
    else poll_loop true ps (receive cmd text c)

unfoldable pub poll_requests : List Bytes → Client → Polled × List Bytes × Client
unfolding poll_loop
poll_requests ps c = poll_loop false ps c
