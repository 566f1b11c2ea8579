-- ===== src/Wire.antt =====
-- What server and child send each other: the codes of src/server_reqs.h, and `send_packet` of
-- src/server_reqs.c. A write to the pipe succeeds and is one packet.
pub mod Packets
use netcosm.Base.{
  ℕ, zero, suc, ◌+◌, ◌-◌, Bool, ◌&&◌, ◌||◌, List, [], ◌∷◌, length, take, drop, ltb, ◌==◌,
  if◌then◌else◌,
}
use netcosm.Base.Run.{Run, ok, assert, ◌>>◌}
use netcosm.Text.{Bytes}

-- PIPE_BUF of Linux
abbrev pub msg_max : ℕ
msg_max = 4096

abbrev pub req_bcastmsg : ℕ
req_bcastmsg = 1

abbrev pub req_kick : ℕ
req_kick = 6

abbrev pub req_move : ℕ
req_move = 10

abbrev pub req_getuserdata : ℕ
req_getuserdata = 13

abbrev pub req_deluserdata : ℕ
req_deluserdata = 14

abbrev pub req_adduserdata : ℕ
req_adduserdata = 15

abbrev pub req_printnewline : ℕ
req_printnewline = 16

abbrev pub req_alldone : ℕ
req_alldone = 17

abbrev pub req_rawmode : ℕ
req_rawmode = 25

-- The loop that splits a long message, whose inner calls write one packet each; as many rounds as
-- the message has bytes are enough.
unfoldable pub split_message : ℕ → Bytes → List Bytes
split_message zero text = []
split_message (suc n) [] = []
split_message (suc n) (c ∷ cs) =
    (req_bcastmsg ∷ take (msg_max - 1) (c ∷ cs)) ∷ split_message n (drop (msg_max - 1) (c ∷ cs))

-- The packets that one call writes. A NULL `data` is the empty one.
unfoldable pub send_packet : ℕ → Bytes → Run (List Bytes)
unfolding split_message
send_packet cmd text =
    assert (ltb (length text) msg_max || cmd == req_bcastmsg)
    >> (if cmd == req_bcastmsg && ltb msg_max (length text + 1)
        then ok (split_message (length text) text)
        else ok ((cmd ∷ text) ∷ []))
