-- ===== src/Wire/Packets.antt =====
-- What the packets of `send_packet` carry.
use mathlib.Core.Bool.{or-true}
use mathlib.Core.List.{append-nil}
use netcosm.Base.{
  ℕ, zero, suc, ◌+◌, ◌≤◌, ◌≡◌, refl, List, [], ◌∷◌, ◌++◌, length, take, drop, ltb, arith,
  take-append-drop, length-take, length-drop, inl, inr, Bool-cases,
}
use netcosm.Base.Run.{Returns}
use netcosm.Text.{Bytes}
use netcosm.Wire.{send_packet, split_message, msg_max, req_bcastmsg}

-- What the packets carry behind their codes.
unfoldable pub payloads : List Bytes → Bytes
payloads [] = []
payloads (p ∷ ps) = drop 1 p ++ payloads ps

-- Each packet begins with the code `cmd` and fits MSG_MAX.
abbrev pub AreSound : ℕ → List Bytes → Type 0
AreSound cmd [] = Unit
AreSound cmd (p ∷ ps) = (take 1 p ≡ cmd ∷ []) × (length p ≤ msg_max) × AreSound cmd ps

split_message-AreSound : (n : ℕ) (text : Bytes) → AreSound req_bcastmsg (split_message n text)
unfolding split_message
split_message-AreSound zero text = tt
split_message-AreSound (suc n) [] = tt
split_message-AreSound (suc n) (c ∷ cs) =
    (refl, omega (arith, length-take 4095 (c ∷ cs)), split_message-AreSound n (drop 4095 (c ∷ cs)))

-- As many rounds as there are bytes carry the whole text.
split_message-payload :
    (n : ℕ) (text : Bytes) → length text ≤ n → payloads (split_message n text) ≡ text
unfolding split_message payloads
split_message-payload zero [] h = refl
split_message-payload zero (c ∷ cs) h = absurd (omega (arith, h))
split_message-payload (suc n) [] h = refl
split_message-payload (suc n) (c ∷ cs) h =
    let rest =
      split_message-payload n (drop 4095 (c ∷ cs)) (omega (arith, h, length-drop 4095 (c ∷ cs))) in
    rw (rest, take-append-drop 4095 (c ∷ cs))

-- A broadcast of any length does not fail. Its packets are broadcasts of at most MSG_MAX bytes each,
-- and what they carry is the text, in its order.
pub send_packet-payload :
    (text : Bytes)
    → Returns
        (send_packet req_bcastmsg text)
        (λ ps. (payloads ps ≡ text) × AreSound req_bcastmsg ps)
unfolding send_packet payloads
send_packet-payload text = elim (Bool-cases (ltb msg_max (length text + 1))) [
  | inl long ↦ (
    split_message (length text) text,
    rw (long, or-true),
    (
      split_message-payload (length text) text (omega arith),
      split_message-AreSound (length text) text,
    ),
  )
  | inr short ↦ (
    (req_bcastmsg ∷ text) ∷ [],
    rw (short, or-true),
    (append-nil text, (refl, ground (arith, short), tt)),
  )
]
