-- ===== src/Method/Replay/Refine.antt =====
-- The bitmap receiver of src/methods/common.c refines the receiver that remembers every packet.
use fastd.Base.{
  ℕ, ◌%◌, ◌≡◌, refl, sym, ap₂, ◌∙◌, List, [], ◌∷◌, arith, All, if◌then◌else◌, Bool-cases, inl, inr,
}
use fastd.Method.{Session, common_init, has_flag, session_initiator}
use fastd.Method.Nonce.{IsNonce, value}
use fastd.Method.Replay.{Packets, receive, answers, Receiver, decide, decisions, fresh_receiver}
use fastd.Method.Replay.Tracks.{sequence, Tracks}
use fastd.Method.Replay.Steps.{receive-Agree}

-- The packets of a peer that counts in nonces of parity `p`.
abbrev pub AllFrom : ℕ → Packets → Type 0
AllFrom p = All (λ (packet : ℕ × List ℕ). IsNonce packet.1 × (value packet.1 % 2 ≡ p))

abbrev pub sequences : Packets → List (ℕ × ℕ)
sequences [] = []
sequences ((now, n) ∷ ps) = (now, sequence n) ∷ sequences ps

answers-decisions :
    (ps : Packets) (s : Session) (r : Receiver) (p : ℕ)
    → Tracks s r
    → value s.receive_nonce % 2 ≡ p
    → AllFrom p ps
    → answers s ps ≡ decisions r (sequences ps)
unfolding answers decisions
answers-decisions [] s r p t e h = refl
answers-decisions ((now, n) ∷ ps) s r p t e h =
    let a = receive-Agree now s r n t (record { nonce = h.0.0; parity = h.0.1 ∙ sym e }) in
    ap₂ ◌∷◌ a.answer (
      answers-decisions ps (receive now s n).0 (decide now r (sequence n)).0 p a.tracks
        (a.parity ∙ e) h.1)

pub common_init-Tracks : (now splay flags : ℕ) → Tracks (common_init now splay flags) fresh_receiver
unfolding common_init
common_init-Tracks now splay flags = elim (Bool-cases (has_flag flags session_initiator)) [
  | inl e ↦ rw e (record {
    nonce = omega arith;
    newest = refl;
    deadline = refl;
    newest_seen = refl;
    above = λ k lt. ground arith;
    bitmap = λ j hj lt. absurd (omega arith);
  })
  | inr e ↦ rw e (record {
    nonce = omega arith;
    newest = refl;
    deadline = refl;
    newest_seen = refl;
    above = λ k lt. ground arith;
    bitmap = λ j hj lt. absurd (omega arith);
  })
]

pub common_init-parity :
    (now splay flags : ℕ)
    → value (common_init now splay flags).receive_nonce % 2
      ≡ (if has_flag flags session_initiator then 0 else 1)
unfolding common_init
common_init-parity now splay flags = elim (Bool-cases (has_flag flags session_initiator)) [
  | inl e ↦ rw e refl
  | inr e ↦ rw e refl
]

-- The parity of the nonces that the other side of a session sends.
abbrev pub peer_parity : ℕ → ℕ
peer_parity flags = if has_flag flags session_initiator then 0 else 1

-- A session that starts with `fastd_method_common_init` answers every sequence of packets whose nonces
-- have the parity of its peer, at any times, exactly as the receiver that remembers all packets: among
-- the packets whose sequence number has the same bit 39 as the newest accepted one, newer ones are
-- accepted, and late ones that are new, at most 64 behind and in time. All others are dropped, also
-- newer packets of the other half of the range.
pub answers_refines :
    (now splay flags : ℕ) (ps : Packets)
    → AllFrom (peer_parity flags) ps
    → answers (common_init now splay flags) ps ≡ decisions fresh_receiver (sequences ps)
answers_refines now splay flags ps h =
    answers-decisions ps (common_init now splay flags) fresh_receiver _
      (common_init-Tracks now splay flags) (common_init-parity now splay flags) h
