-- ===== src/Method/Replay/Fresh.antt =====
-- No packet is accepted twice (src/methods/common.c).
use fastd.Base.{
  ℕ, ◌%◌, ◌<◌, ◌≡◌, ◌≢◌, sym, ap, ◌∙◌, none, some, List, [], ◌∷◌, arith, All, Bool, true, false,
  Option-cases, inl, inr,
}
use fastd.Method.{Session, common_init}
use fastd.Method.Nonce.{value, Distinct, All-map}
use fastd.Method.Replay.{Packets, receive, keep, accepted_nonces, Receiver, decide, fresh_receiver}
use fastd.Method.Replay.Tracks.{sequence, Tracks}
use fastd.Method.Replay.Steps.{receive-Agree}
use fastd.Method.Replay.Refine.{AllFrom, peer_parity, common_init-Tracks, common_init-parity}

-- The receiver forgets nothing.
decide-keeps :
    (now : ℕ) (r : Receiver) (k j : ℕ) → r.seen j ≡ true → (decide now r k).0.seen j ≡ true
unfolding decide
decide-keeps now r k j h = ground arith

-- What it accepts is new, and remembered.
decide-accepts :
    (now : ℕ) (r : Receiver) (k : ℕ) (late : Bool)
    → (r.newest < k → r.seen k ≡ false)
    → (decide now r k).1 ≡ some late
    → (r.seen k ≡ false) × ((decide now r k).0.seen k ≡ true)
unfolding decide
decide-accepts now r k late above h = ground arith

module _ (now : ℕ) (s : Session) (n : List ℕ) (ps : Packets) where
  accepted-none :
      (receive now s n).1 ≡ none
      → accepted_nonces s ((now, n) ∷ ps) ≡ accepted_nonces (receive now s n).0 ps
  unfolding accepted_nonces
  accepted-none e = ap (λ o. keep o n (accepted_nonces (receive now s n).0 ps)) e

  accepted-some :
      (late : Bool)
      → (receive now s n).1 ≡ some late
      → accepted_nonces s ((now, n) ∷ ps) ≡ n ∷ accepted_nonces (receive now s n).0 ps
  unfolding accepted_nonces
  accepted-some late e = ap (λ o. keep o n (accepted_nonces (receive now s n).0 ps)) e

-- A sequence number that is remembered is never accepted again.
accepted-avoids :
    (ps : Packets) (s : Session) (r : Receiver) (p m : ℕ)
    → Tracks s r
    → value s.receive_nonce % 2 ≡ p
    → AllFrom p ps
    → r.seen m ≡ true
    → All (λ n. sequence n ≢ m) (accepted_nonces s ps)
accepted-avoids [] s r p m t e h old = unfold accepted_nonces in tt
accepted-avoids ((now, n) ∷ ps) s r p m t e h old =
    let a = receive-Agree now s r n t (record { nonce = h.0.0; parity = h.0.1 ∙ sym e }) in
    let later =
      accepted-avoids ps (receive now s n).0 (decide now r (sequence n)).0 p m a.tracks
        (a.parity ∙ e) h.1 (decide-keeps now r (sequence n) m old) in
    elim (Option-cases (receive now s n).1) [
      | inl drop ↦ rw (accepted-none now s n ps drop) later
      | inr (late, take) ↦
          let new = (decide-accepts now r (sequence n) late (t.above _) (sym a.answer ∙ take)).0 in
          rw (accepted-some now s n ps late take) ((λ same. cc (ap r.seen same)), later)
    ]

accepted-Distinct :
    (ps : Packets) (s : Session) (r : Receiver) (p : ℕ)
    → Tracks s r
    → value s.receive_nonce % 2 ≡ p
    → AllFrom p ps
    → Distinct (accepted_nonces s ps)
accepted-Distinct [] s r p t e h = unfold accepted_nonces in tt
accepted-Distinct ((now, n) ∷ ps) s r p t e h =
    let a = receive-Agree now s r n t (record { nonce = h.0.0; parity = h.0.1 ∙ sym e }) in
    let later =
      accepted-Distinct ps (receive now s n).0 (decide now r (sequence n)).0 p a.tracks
        (a.parity ∙ e) h.1 in
    elim (Option-cases (receive now s n).1) [
      | inl drop ↦ rw (accepted-none now s n ps drop) later
      | inr (late, take) ↦
          let new = (decide-accepts now r (sequence n) late (t.above _) (sym a.answer ∙ take)).1 in
          rw (accepted-some now s n ps late take) (
            All-map (accepted_nonces (receive now s n).0 ps)
                (λ y ne same. ne (ap sequence (sym same)))
                (accepted-avoids ps (receive now s n).0 (decide now r (sequence n)).0 p (sequence n)
                  a.tracks (a.parity ∙ e) h.1 new),
            later,
          )
    ]

-- Replay protection: in a session, whatever packets of the peer arrive, in any order and at any
-- times, no nonce is accepted twice.
pub accepted_nonces-Distinct :
    (now splay flags : ℕ) (ps : Packets)
    → AllFrom (peer_parity flags) ps
    → Distinct (accepted_nonces (common_init now splay flags) ps)
accepted_nonces-Distinct now splay flags ps h =
    accepted-Distinct ps (common_init now splay flags) fresh_receiver (peer_parity flags)
      (common_init-Tracks now splay flags) (common_init-parity now splay flags) h
