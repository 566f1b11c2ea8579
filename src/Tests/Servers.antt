-- ===== src/Tests/Servers.antt =====
-- Requests, their answers, and the login at concrete input.
use netcosm.Auth.{UserData, hex, auth_check, auth_hashlen, valid_login_name, max_name_len}
use netcosm.Auth.Check.{AreBytes, auth_check-same_bytes, same_bytes}
use netcosm.Auth.Laws.{valid_login_name-all_alnum, all_alnum}
use netcosm.Base.{
  ℕ, zero, suc, ◌%◌, ◌≡◌, refl, false, true, ◌&&◌, some, none, List, [], ◌∷◌, ◌++◌, length, map,
  drop, leb, replicate, arith, if◌then◌else◌,
}
use netcosm.Base.Run.{ok, Returns}
use netcosm.Client.{Client, receive, returned, poll_requests, type_none, type_boolean}
use netcosm.Client.Moves.{client_change_user, client_change_state}
use netcosm.Client.Poll.{poll_requests-send_packet, receive_all}
use netcosm.Client.Rate.{admitted, admitted-min}
use netcosm.Hash.Chain.{bucket_of}
use netcosm.Hash.Ops.{lookup}
use netcosm.Server.{Child, Server, find_child}
use netcosm.Server.Account.{
  req_change_user-client_change_user, req_change_state-client_change_state,
}
use netcosm.Server.Broadcast.{handle_child_req-broadcast, framed, appended, received, to_others}
use netcosm.Server.Dispatch.{RequestMap, handle_child_req, pass_msg_request, pids, uchar_keys}
use netcosm.Server.Handlers.{req_change_user, req_change_state}
use netcosm.Text.Cruft.{remove_cruft}
use netcosm.Text.{Bytes, ascii}
use netcosm.Wire.{send_packet, req_bcastmsg, req_alldone}
use netcosm.Wire.Packets.{send_packet-payload, payloads, AreSound}

abbrev ann : Child
ann = record { pid = 1000; state = 3; room = 0; user = some (ascii "ann"); raw_mode = false }

abbrev bob : Child
bob = record { pid = 1001; state = 1; room = 0; user = none; raw_mode = false }

abbrev two_children : Server
two_children = record {
  children = ann ∷ bob ∷ [];
  sent = [];
  packet = replicate 4097 0;
  num_clients = 2;
}

abbrev one_request : RequestMap
one_request = record {
  table = ((1, pass_msg_request) ∷ []) ∷ [];
  n_entries = 1;
  used_buckets = 1;
  free_key = false;
  free_data = false;
  dup_data = none;
}

one_request_row : lookup req_bcastmsg one_request ≡ some pass_msg_request
unfolding lookup bucket_of
one_request_row = refl

ann_known : find_child 1000 two_children.children ≡ some ann
unfolding find_child
ann_known = refl

bob_known : find_child 1001 two_children.children ≡ some bob
unfolding find_child
bob_known = refl

handle_child_req-broadcast_example :
    handle_child_req one_request (framed 1000 1 (ascii "hi")) two_children
    ≡ ok (
      true,
      appended
          ((1000, 1 ∷ ascii "hi") ∷ to_others 1000 (ascii "hi") (pids two_children)
            ++ (1000, req_alldone ∷ []) ∷ [])
          (received (framed 1000 1 (ascii "hi")) two_children),
    )
handle_child_req-broadcast_example =
    handle_child_req-broadcast one_request 1000 (ascii "hi") ann two_children one_request_row
      (omega arith) (omega arith) ann_known

others_get_two :
    to_others 1000 (ascii "hi") (pids two_children) ≡ (1001, 1 ∷ ascii "hi") ∷ (1001, 17 ∷ []) ∷ []
unfolding to_others
others_get_two = refl

send_packet-payload_example :
    Returns
      (send_packet req_bcastmsg (ascii "hi"))
      (λ ps. (payloads ps ≡ ascii "hi") × AreSound req_bcastmsg ps)
send_packet-payload_example = send_packet-payload (ascii "hi")

abbrev idle : Client
idle = record {
  child_rawmode = false;
  out_calls = [];
  reqdata = type_none;
  request_complete = false;
}

abbrev moved_answer : List Bytes
moved_answer = (16 ∷ []) ∷ (10 ∷ 1 ∷ 0 ∷ 0 ∷ 0 ∷ []) ∷ []

moves : (receive_all moved_answer idle).reqdata ≡ type_boolean true
unfolding receive_all receive
moves = refl

poll_requests-send_packet_example : Returns (send_packet req_bcastmsg (ascii "hi")) (λ ps.
    (poll_requests (ps ++ (17 ∷ []) ∷ []) idle
      ≡ (returned true, [], record idle { out_calls = map (drop 1) ps; request_complete = true }))
    × (payloads ps ≡ ascii "hi"))
poll_requests-send_packet_example = poll_requests-send_packet (ascii "hi") idle

admitted-min_example : admitted 20 5 (record { ts = 4; reqs_since_ts = 3 }) ≡ 11
admitted-min_example = admitted-min 20 5 (record { ts = 4; reqs_since_ts = 3 }) (omega arith)

req_change_user-client_change_user_example :
    Returns
      (req_change_user
        ((client_change_user (ascii "bob")).1 ++ ascii "xx")
        (length (client_change_user (ascii "bob")).1)
        1001
        1001
        two_children)
      (λ sv. find_child 1001 sv.children ≡ some (record bob { user = some (ascii "bob") }))
req_change_user-client_change_user_example =
    req_change_user-client_change_user (ascii "bob") (ascii "xx") 1001 bob two_children
      (refl, (refl, (refl, tt))) bob_known

req_change_state-client_change_state_example :
    Returns
      (req_change_state
        ((client_change_state 3).1 ++ ascii "xx")
        (length (client_change_state 3).1)
        1001
        1001
        two_children)
      (λ sv. find_child 1001 sv.children ≡ some (record bob { state = 3 }))
req_change_state-client_change_state_example =
    req_change_state-client_change_state 3 (ascii "xx") 1001 bob two_children (omega arith)
      bob_known

valid_login_name-all_alnum_example :
    valid_login_name (ascii "ann7") ≡ (leb 4 max_name_len && all_alnum (ascii "ann7"))
valid_login_name-all_alnum_example = valid_login_name-all_alnum (ascii "ann7")

-- A function that has the length of SHA-512.
abbrev some_digest : Bytes → Bytes
some_digest m = (length m % 256) ∷ replicate 63 0

zeros-AreBytes : (n : ℕ) → AreBytes (replicate n 0)
zeros-AreBytes zero = tt
zeros-AreBytes (suc n) = (omega arith, zeros-AreBytes n)

some_digest-AreBytes :
    (m : Bytes) → AreBytes (some_digest m) × (length (some_digest m) ≡ auth_hashlen)
some_digest-AreBytes m = ((omega arith, zeros-AreBytes 63), refl)

abbrev stored_user : UserData
stored_user = record {
  username = ascii "ann";
  salt = ascii "ABCDEFGHIJKLMNOP";
  passhash = hex (some_digest (ascii "ABCDEFGHIJKLMNOPpw"));
  priv = 0;
  last_login = 0;
}

auth_check-same_bytes_example : auth_check some_digest stored_user (ascii "pw\n") ≡ (
    if same_bytes 32
      (some_digest (ascii "ABCDEFGHIJKLMNOP" ++ remove_cruft (ascii "pw\n")))
      (some_digest (ascii "ABCDEFGHIJKLMNOPpw"))
    then some stored_user
    else none)
auth_check-same_bytes_example =
    auth_check-same_bytes some_digest stored_user (some_digest (ascii "ABCDEFGHIJKLMNOPpw"))
      (ascii "pw\n") some_digest-AreBytes refl
      ((some_digest-AreBytes (ascii "ABCDEFGHIJKLMNOPpw")).0) refl refl
