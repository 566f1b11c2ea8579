-- ===== src/Server/Handlers.antt =====
-- src/server_reqs.c: handlers of requests. A handler gets the buffer from `data` on, `datalen`, and
-- the PIDs of sender and child.
use netcosm.Base.{ℕ, ◌-◌, not, some, [], ◌∷◌, ◌++◌, take, drop, leb, ◌==◌, if◌then◌else◌}
use netcosm.Base.Run.{Run, ok, ◌>>=◌}
use netcosm.Server.{Server, change_child, post}
use netcosm.Stream.{le_value}
use netcosm.Text.Noun.{decimal}
use netcosm.Text.{Bytes, ascii}
use netcosm.Wire.{req_bcastmsg, req_kick, req_alldone, req_rawmode}

abbrev pub Handler : Type 0
Handler = Bytes → ℕ → ℕ → ℕ → Server → Run Server

abbrev pub Finalizer : Type 0
Finalizer = Bytes → ℕ → ℕ → Server → Run Server

-- The string that begins at a pointer.
unfoldable pub c_string : Bytes → Bytes
c_string [] = []
c_string (c ∷ cs) = if c == 0 then [] else c ∷ c_string cs

-- `send_msg`, on the formatted text
unfoldable pub send_msg : ℕ → Bytes → Server → Run Server
unfolding post
send_msg pid text sv = post pid req_bcastmsg text sv

unfoldable pub req_pass_msg : Handler
unfolding post
req_pass_msg text len sender child sv = post child req_bcastmsg (take len text) sv >>= λ sv.
    if child == sender then ok sv else post child req_alldone [] sv

-- An `int` has four bytes.
unfoldable pub req_change_state : Handler
unfolding change_child le_value
req_change_state text len sender child sv =
    if len == 4
    then ok (record sv {
      children = change_child sender (λ c. record c { state = le_value (take 4 text) }) sv.children;
    })
    else ok sv

unfoldable pub req_change_user : Handler
unfolding change_child c_string
req_change_user text len sender child sv = ok (record sv {
  children = change_child sender (λ c. record c { user = some (c_string text) }) sv.children;
})

unfoldable pub req_kick_client : Handler
unfolding post send_msg le_value
req_kick_client text len sender child sv =
    if leb 4 len
    then if le_value (take 4 text) == child
      then (post child req_kick (take (len - 4) (drop 4 text)) sv >>= λ sv.
          send_msg sender (ascii "Success.\n") sv)
      else ok sv
    else ok sv

unfoldable pub req_kick_always : Handler
unfolding post
req_kick_always text len sender child sv = post child req_kick (take len text) sv

unfoldable pub req_send_geninfo : Finalizer
unfolding send_msg decimal
req_send_geninfo text len sender sv =
    send_msg sender (ascii "Total clients: " ++ decimal 20 sv.num_clients (ascii "\n")) sv

-- The callback of the raw mode is set, or reset where one was.
unfoldable pub child_toggle_rawmode : ℕ → Server → Run Server
unfolding post change_child
child_toggle_rawmode child sv = post child req_rawmode [] sv >>= λ sv. ok (record sv {
  children = change_child child (λ c. record c { raw_mode = not c.raw_mode }) sv.children;
})
