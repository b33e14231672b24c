-- ===== src/Method/Tests.antt =====
-- Runs of src/methods/common.h and common.c, and the theorems at concrete sessions.
use fastd.Base.{length, ℕ, ◌≡◌, refl, some, none, true, false, List, [], ◌∷◌, arith, replicate}
use fastd.Buffer.{Buffer, View, get_view}
use fastd.Buffer.Payload.{IsValid, payload, view_payload}
use fastd.Method.{
  Session, common_init, increment_nonce, session_is_valid, put_common_header, take_common_header,
  is_nonce_valid, nonce_diff, reorder_check, packet_type,
}
use fastd.Method.Nonce.{sent, Distinct, sent-Distinct}
use fastd.Method.Replay.{Packets, receive, answers, accepted_nonces, decisions, fresh_receiver}
use fastd.Method.Replay.Refine.{AllFrom, peer_parity, sequences, answers_refines}
use fastd.Method.Replay.Fresh.{accepted_nonces-Distinct}
use fastd.Method.Replay.Stall.{stamped, accepted_nonces-sent}
use fastd.Method.Replay.Parity.{receive-wrong_parity}
use fastd.Method.Header.{take-put_common_header}
use fastd.Base.Int.{◌+ℤ◌, ◌-ℤ◌, ◌*ℤ◌, ◌/ℤ◌}

abbrev carry_nonce : List ℕ
carry_nonce = 0 ∷ 0 ∷ 0 ∷ 1 ∷ 255 ∷ 255 ∷ []

carried : increment_nonce carry_nonce ≡ 0 ∷ 0 ∷ 0 ∷ 2 ∷ 0 ∷ 1 ∷ []
unfolding increment_nonce
carried = refl

abbrev sender : Session
sender = record {
  flags = 1;
  valid_till = 1000;
  refresh_after = 900;
  send_nonce = carry_nonce;
  receive_nonce = 0 ∷ 0 ∷ 0 ∷ 0 ∷ 0 ∷ 4 ∷ [];
  reorder_timeout = 50;
  receive_reorder_seen = 0;
}

sender_valid : session_is_valid 10 sender ≡ true
unfolding session_is_valid
sender_valid = refl

sent-Distinct_example : Distinct (sent (10 ∷ 11 ∷ 12 ∷ []) sender)
sent-Distinct_example = sent-Distinct (10 ∷ 11 ∷ 12 ∷ []) sender (omega arith)

-- Four packets: one in order, one that skips two, a late one, and that one again.
abbrev packets : Packets
packets = (5, at 2) ∷ (6, at 8) ∷ (7, at 4) ∷ (8, at 4) ∷ []
  where
    at : ℕ → List ℕ
    at b = 0 ∷ 0 ∷ 0 ∷ 0 ∷ 0 ∷ b ∷ []

packets_answered :
    answers (common_init 0 0 1) packets ≡ some false ∷ some false ∷ some true ∷ none ∷ []
unfolding answers receive common_init is_nonce_valid nonce_diff reorder_check ◌/ℤ◌ ◌+ℤ◌ ◌-ℤ◌ ◌*ℤ◌
packets_answered = refl

packets-AllFrom : AllFrom (peer_parity 1) packets
packets-AllFrom = omega arith

answers_refines_example :
    answers (common_init 0 0 1) packets ≡ decisions fresh_receiver (sequences packets)
answers_refines_example = answers_refines 0 0 1 packets packets-AllFrom

accepted_nonces-Distinct_example : Distinct (accepted_nonces (common_init 0 0 1) packets)
accepted_nonces-Distinct_example = accepted_nonces-Distinct 0 0 1 packets packets-AllFrom

abbrev late_sender : Session
late_sender = record sender { send_nonce = 1 ∷ 0 ∷ 0 ∷ 0 ∷ 0 ∷ 0 ∷ [] }

accepted_nonces-sent_example :
    (length (sent (10 ∷ 11 ∷ []) late_sender) ≡ 2)
    × (accepted_nonces sender (stamped (12 ∷ 13 ∷ []) (sent (10 ∷ 11 ∷ []) late_sender)) ≡ [])
accepted_nonces-sent_example =
    accepted_nonces-sent (10 ∷ 11 ∷ []) (12 ∷ 13 ∷ []) late_sender sender (omega arith)
      (omega arith) (omega arith) (omega arith) (omega arith) (omega arith)

receive-wrong_parity_example :
    ((receive 5 sender (0 ∷ 0 ∷ 0 ∷ 0 ∷ 0 ∷ 9 ∷ [])).1 ≡ some false)
    × ((receive 5 sender (0 ∷ 0 ∷ 0 ∷ 0 ∷ 0 ∷ 9 ∷ [])).0.receive_nonce ≡ 0 ∷ 0 ∷ 0 ∷ 0 ∷ 0 ∷ 9 ∷ [])
receive-wrong_parity_example =
    receive-wrong_parity 5 sender (0 ∷ 0 ∷ 0 ∷ 0 ∷ 0 ∷ 9 ∷ []) 1 (omega arith) (omega arith)
      (omega arith) refl

abbrev packet : Buffer
packet = record { base = replicate 16 0; head = 8; len = 2 }

take-put_common_header_example :
    (b' : Buffer) × (v : View) × (put_common_header sender packet 7
      ≡ some (b', record sender { send_nonce = increment_nonce carry_nonce }))
    × IsValid b'
    × (take_common_header (get_view b') ≡ some (packet_type 1, 7, carry_nonce, v))
    × (view_payload v ≡ payload packet)
take-put_common_header_example =
    take-put_common_header {s = sender} 7
      (let v : IsValid packet = record { inside = omega arith; small = omega arith } in v)
      (omega arith) (omega arith)
