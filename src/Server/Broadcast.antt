-- ===== src/Server/Broadcast.antt =====
-- What a broadcast and its acknowledgements write to the pipes of the children.
use mathlib.Core.List.{append_assoc, append-nil}
use mathlib.Core.Path.{subst}
use netcosm.Base.{
  ℕ, ◌+◌, ◌-◌, ◌≤◌, ◌<◌, ◌^◌, ◌≡◌, sym, ap, ◌∙◌, inl, inr, Bool, true, false, Bool-cases, some,
  List, [], ◌∷◌, ◌++◌, length, take, drop, ltb, ◌==◌, if◌then◌else◌, arith,
}
use netcosm.Base.Run.{Run, ok, ◌>>=◌}
use netcosm.Hash.Ops.{lookup}
use netcosm.Server.Dispatch.{
  uchar_keys, RequestMap, pass_msg_request, call_handler, call_finalize, call_children, each_other,
  pids, serve, serve_row, handle_child_req,
}
use netcosm.Server.Handlers.{req_pass_msg}
use netcosm.Server.{Child, Server, find_child, post}
use netcosm.Stream.{le_value, le_bytes}
use netcosm.Stream.Laws.{le_value-le_bytes, take_prefix}
use netcosm.Text.{Bytes}
use netcosm.Wire.{req_bcastmsg, req_alldone, msg_max, send_packet}

-- A text that fits one packet is written as one.
post_short :
    (pid cmd : ℕ) (text : Bytes) (sv : Server)
    → length text < msg_max
    → post pid cmd text sv ≡ ok (record sv { sent = sv.sent ++ (pid, cmd ∷ text) ∷ [] })
unfolding post send_packet
post_short pid cmd text sv h = ground (arith, h)

-- What the loop over the others writes.
unfoldable pub to_others : ℕ → Bytes → List ℕ → List (ℕ × Bytes)
to_others sender text [] = []
to_others sender text (pid ∷ pids) =
    let rest = to_others sender text pids in
    if pid == sender then rest else (pid, req_bcastmsg ∷ text) ∷ (pid, req_alldone ∷ []) ∷ rest

abbrev pub appended : List (ℕ × Bytes) → Server → Server
appended ps sv = record sv { sent = sv.sent ++ ps }

appended_twice :
    (ps qs : List (ℕ × Bytes)) (sv : Server) → appended qs (appended ps sv) ≡ appended (ps ++ qs) sv
appended_twice ps qs sv = ap (λ s. record sv { sent = s }) (append_assoc sv.sent ps qs)

pass_to_other :
    (text : Bytes) (len sender child : ℕ) (sv : Server)
    → length (take len text) < msg_max
    → (child == sender) ≡ false
    → req_pass_msg text len sender child sv
      ≡ ok (appended ((child, req_bcastmsg ∷ take len text) ∷ (child, req_alldone ∷ []) ∷ []) sv)
unfolding req_pass_msg
pass_to_other text len sender child sv short other =
    rw (post_short child req_bcastmsg (take len text) sv short, other)
      (post_short child req_alldone [] _ (omega arith) ∙ ap ok (appended_twice _ _ sv))

pass_to_sender :
    (text : Bytes) (len sender : ℕ) (sv : Server)
    → length (take len text) < msg_max
    → req_pass_msg text len sender sender sv
      ≡ ok (appended ((sender, req_bcastmsg ∷ take len text) ∷ []) sv)
unfolding req_pass_msg
pass_to_sender text len sender sv short =
    rw (post_short sender req_bcastmsg (take len text) sv short) (ground arith)

each_other-broadcast :
    (text : Bytes) (len sender : ℕ) (ids : List ℕ) (sv : Server)
    → length (take len text) < msg_max
    → each_other pass_msg_request text len sender ids sv
      ≡ ok (appended (to_others sender (take len text) ids) sv)
unfolding each_other call_handler to_others
each_other-broadcast text len sender [] sv short =
    ap (λ s. ok (record sv { sent = s })) (sym (append-nil sv.sent))
each_other-broadcast text len sender (pid ∷ ids) sv short = elim (Bool-cases (pid == sender)) [
  | inl self ↦ rw self (each_other-broadcast text len sender ids sv short)
  | inr other ↦
      rw (other, pass_to_other text len sender pid sv short other)
        (each_other-broadcast text len sender ids _ short ∙ ap ok (appended_twice _ _ sv))
]

-- What a request as the child sends it leaves in the buffer.
abbrev pub framed : ℕ → ℕ → Bytes → Bytes
framed sender cmd text = le_bytes 4 sender ++ cmd ∷ text

serve_row-broadcast :
    (text : Bytes) (len sender : ℕ) (sv : Server)
    → length (take len text) < msg_max
    → serve_row (some pass_msg_request) text len sender sv
      ≡ ok (
          appended
            ((sender, req_bcastmsg ∷ take len text) ∷ to_others sender (take len text) (pids sv))
            sv)
unfolding serve_row call_children call_finalize call_handler
serve_row-broadcast text len sender sv short =
    rw
      (
        pass_to_sender text len sender sv short,
        each_other-broadcast text len sender (pids sv)
            (appended ((sender, req_bcastmsg ∷ take len text) ∷ []) sv) short,
      )
      (ap ok (appended_twice _ _ sv))

serve-broadcast :
    (requests : RequestMap) (text : Bytes) (len sender : ℕ) (c : Child) (sv : Server)
    → lookup req_bcastmsg requests ≡ some pass_msg_request
    → length (take len text) < msg_max
    → serve requests (some c) sender req_bcastmsg text len sv
      ≡ ok (
          appended
            ((sender, req_bcastmsg ∷ take len text) ∷ to_others sender (take len text) (pids sv)
              ++ (sender, req_alldone ∷ []) ∷ [])
            sv)
unfolding serve
serve-broadcast requests text len sender c sv row short =
    let sent : List (ℕ × Bytes) =
      (sender, req_bcastmsg ∷ take len text) ∷ to_others sender (take len text) (pids sv) in
    rw (row, serve_row-broadcast text len sender sv short)
      (post_short sender req_alldone [] (appended sent sv) (omega arith)
        ∙ ap ok (appended_twice sent _ sv))

-- The buffer of the server after the request.
abbrev pub received : Bytes → Server → Server
received input sv = record sv { packet = input ++ drop (length input) sv.packet }

take_text : (text rest : Bytes) → take (length text) (text ++ rest) ≡ text
take_text text rest = (take_prefix text rest).0

-- The same, with the four bytes of the PID written out.
broadcast_framed :
    (requests : RequestMap) (p0 p1 p2 p3 sender : ℕ) (text : Bytes) (c : Child) (sv : Server)
    → lookup req_bcastmsg requests ≡ some pass_msg_request
    → le_value (p0 ∷ p1 ∷ p2 ∷ p3 ∷ []) ≡ sender
    → length text + 5 ≤ msg_max
    → find_child sender sv.children ≡ some c
    → handle_child_req requests (p0 ∷ p1 ∷ p2 ∷ p3 ∷ req_bcastmsg ∷ text) sv
      ≡ ok (
        true,
        appended
            ((sender, req_bcastmsg ∷ text) ∷ to_others sender text (pids sv)
              ++ (sender, req_alldone ∷ []) ∷ [])
            (received (p0 ∷ p1 ∷ p2 ∷ p3 ∷ req_bcastmsg ∷ text) sv),
      )
unfolding handle_child_req
broadcast_framed requests p0 p1 p2 p3 sender text c sv row pid fits known =
    let input : Bytes = p0 ∷ p1 ∷ p2 ∷ p3 ∷ req_bcastmsg ∷ text in
    let stale : Bytes = drop (length input) sv.packet in
    let sv' : Server = received input sv in
    let whole : take (length text) (text ++ stale) ≡ text = take_text text stale in
    let fitting : length (take (length text) (text ++ stale)) < msg_max =
      rw whole (omega (arith, fits)) in
    let answer : Bytes → List (ℕ × Bytes) = λ shown.
      (sender, req_bcastmsg ∷ shown) ∷ to_others sender shown (pids sv)
      ++ (sender, req_alldone ∷ []) ∷ [] in
    let served : serve requests (some c) sender req_bcastmsg (text ++ stale) (length text) sv'
        ≡ ok (appended (answer text) sv') =
      subst
        (λ shown.
          serve requests (some c) sender req_bcastmsg (text ++ stale) (length text) sv'
          ≡ ok (appended (answer shown) sv'))
        whole (serve-broadcast requests (text ++ stale) (length text) sender c sv' row fitting) in
    let long : ltb (length input) 5 ≡ false = ground arith in
    let size : length input - 5 ≡ length text = omega arith in
    let serve_it : Run Server → Run (Bool × Server) = λ r. r >>= λ sv. ok (true, sv) in
    rw (pid, known, long, size) (ap serve_it served)

-- Where the table has the row of REQ_BCASTMSG, a broadcast request from a known child whose text
-- leaves room for PID and code is answered as follows, and changes nothing else: the sender gets the
-- text; each other child gets the text and ALLDONE; then the sender gets ALLDONE.
pub handle_child_req-broadcast :
    (requests : RequestMap) (sender : ℕ) (text : Bytes) (c : Child) (sv : Server)
    → lookup req_bcastmsg requests ≡ some pass_msg_request
    → sender < 2 ^ 32
    → length text + 5 ≤ msg_max
    → find_child sender sv.children ≡ some c
    → handle_child_req requests (framed sender req_bcastmsg text) sv
      ≡ ok (
        true,
        appended
            ((sender, req_bcastmsg ∷ text) ∷ to_others sender text (pids sv)
              ++ (sender, req_alldone ∷ []) ∷ [])
            (received (framed sender req_bcastmsg text) sv),
      )
unfolding handle_child_req le_bytes
handle_child_req-broadcast requests sender text c sv row h fits known =
    broadcast_framed requests _ _ _ _ sender text c sv row (le_value-le_bytes 4 sender h) fits known
