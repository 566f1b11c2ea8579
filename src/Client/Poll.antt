-- ===== src/Client/Poll.antt =====
-- What poll_requests makes of the packets in the pipe.
use mathlib.Core.List.{append_assoc, append-nil}
use netcosm.Base.{◌≡◌, refl, sym, ap, ◌∙◌, Bool, true, false, List, [], ◌∷◌, ◌++◌, map, drop, ◌==◌}
use netcosm.Base.Run.{Returns}
use netcosm.Client.{Client, returned, poll_loop, poll_requests, receive, out}
use netcosm.Text.{Bytes}
use netcosm.Wire.{req_bcastmsg, req_alldone, req_kick, send_packet}
use netcosm.Wire.Packets.{AreSound, payloads, send_packet-payload}

-- The packets neither end a request nor the child.
abbrev AreQuiet : List Bytes → Type 0
AreQuiet [] = Unit
AreQuiet ([] ∷ ps) = ⊥
AreQuiet ((cmd ∷ text) ∷ ps) =
    ((cmd == req_alldone) ≡ false) × ((cmd == req_kick) ≡ false) × AreQuiet ps

-- The child after it has received each packet in turn.
unfoldable pub receive_all : List Bytes → Client → Client
receive_all [] c = c
receive_all ([] ∷ ps) c = receive_all ps c
receive_all ((cmd ∷ text) ∷ ps) c = receive_all ps (receive cmd text c)

poll_loop-receive_all :
    (got : Bool) (ps : List Bytes) (text : Bytes) (rest : List Bytes) (c : Client)
    → AreQuiet ps
    → poll_loop got (ps ++ (req_alldone ∷ text) ∷ rest) c
      ≡ (returned true, rest, record (receive_all ps c) { request_complete = true })
unfolding poll_loop receive_all
poll_loop-receive_all got [] text rest c h = refl
poll_loop-receive_all got ([] ∷ ps) text rest c h = absurd h
poll_loop-receive_all got ((cmd ∷ t) ∷ ps) text rest c (on, stay, h) =
    rw (on, stay) (poll_loop-receive_all true ps text rest (receive cmd t c) h)

-- Packets that are neither ALLDONE nor KICK, followed by ALLDONE, are received one after another;
-- then poll_requests returns with the request complete and leaves what follows in the pipe.
poll_requests-receive_all :
    (ps : List Bytes) (text : Bytes) (rest : List Bytes) (c : Client)
    → AreQuiet ps
    → poll_requests (ps ++ (req_alldone ∷ text) ∷ rest) c
      ≡ (returned true, rest, record (receive_all ps c) { request_complete = true })
unfolding poll_requests
poll_requests-receive_all ps text rest c h = poll_loop-receive_all false ps text rest c h

quiet_broadcasts : (ps : List Bytes) → AreSound req_bcastmsg ps → AreQuiet ps
quiet_broadcasts [] h = tt
quiet_broadcasts ([] ∷ ps) (e, short, h) = cc e
quiet_broadcasts ((cmd ∷ text) ∷ ps) (e, short, h) =
    let code : cmd ≡ req_bcastmsg = cc e in (rw code refl, rw code refl, quiet_broadcasts ps h)

receive_broadcasts :
    (ps : List Bytes) (c : Client)
    → AreSound req_bcastmsg ps
    → receive_all ps c ≡ record c { out_calls = c.out_calls ++ map (drop 1) ps }
unfolding receive_all receive
receive_broadcasts [] c h = ap (λ s. record c { out_calls = s }) (sym (append-nil c.out_calls))
receive_broadcasts ([] ∷ ps) c (e, short, h) = cc e
receive_broadcasts ((cmd ∷ text) ∷ ps) c (e, short, h) =
    let code : cmd ≡ req_bcastmsg = cc e in
    rw (code, receive_broadcasts ps (out text c) h)
      (ap (λ s. record c { out_calls = s }) (append_assoc c.out_calls (text ∷ []) _))

-- A text of any length that the server broadcasts to a child, followed by ALLDONE, reaches `out` in
-- pieces whose concatenation is the text, and the request is complete.
pub poll_requests-send_packet :
    (text : Bytes) (c : Client)
    → Returns (send_packet req_bcastmsg text) (λ ps.
      (poll_requests (ps ++ (req_alldone ∷ []) ∷ []) c ≡ (
        returned true,
        [],
        record c { out_calls = c.out_calls ++ map (drop 1) ps; request_complete = true },
      ))
      × (payloads ps ≡ text))
poll_requests-send_packet text c =
    let (ps, sent, (whole, sound)) = send_packet-payload text in
    (
      ps,
      sent,
      (
        poll_requests-receive_all ps [] [] c (quiet_broadcasts ps sound)
            ∙ ap (λ c. (returned true, [], record c { request_complete = true }))
                (receive_broadcasts ps c sound),
        whole,
      ),
    )
