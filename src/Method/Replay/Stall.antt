-- ===== src/Method/Replay/Stall.antt =====
-- The nonce check of src/methods/common.c against the sender of src/methods/common.h, whose session stays
-- valid up to the nonce 0xffff00000000.
use fastd.Base.{
  ℕ, suc, ◌+◌, ◌*◌, ◌^◌, ◌≤◌, ◌<◌, ◌≡◌, refl, ap, ◌∙◌, List, [], ◌∷◌, arith, length, All, true,
  none,
}
use fastd.Method.{Session, session_is_valid}
use fastd.Method.Nonce.{IsNonce, value, value-lt, sent, advance, advance-no_wrap}
use fastd.Method.Replay.{Packets, receive, accepted_nonces}
use fastd.Method.Replay.Parity.{receive-other_half}

-- Packets with the times of their arrival, as far as they arrive.
abbrev pub stamped : List ℕ → List (List ℕ) → Packets
stamped [] ns = []
stamped (t ∷ ts) [] = []
stamped (t ∷ ts) (n ∷ ns) = (t, n) ∷ stamped ts ns

dropped-rest :
    (now : ℕ) (s : Session) (n : List ℕ) (ps : Packets)
    → receive now s n ≡ (s, none)
    → accepted_nonces s ((now, n) ∷ ps) ≡ accepted_nonces s ps
unfolding accepted_nonces
dropped-rest now s n ps e = rw e refl

-- The sender's session is valid below the nonce 2 ^ 41.
still-valid :
    (now : ℕ) (s : Session)
    → IsNonce s.send_nonce
    → value s.send_nonce < 2 ^ 41
    → now < s.valid_till
    → session_is_valid now s ≡ true
unfolding session_is_valid
still-valid now s h lt t = ground (arith, value-lt s.send_nonce h)

sent-on :
    (now : ℕ) (times : List ℕ) (s : Session)
    → session_is_valid now s ≡ true
    → sent (now ∷ times) s ≡ s.send_nonce ∷ sent times (advance s)
unfolding sent
sent-on now times s e = rw e refl

-- While the counter of a sender is between 2 ^ 40 and 2 ^ 41 and its session has not timed out, the
-- session counts as valid and a packet is sent each time; but a receiver whose newest nonce is below
-- 2 ^ 40 accepts none of these packets, as far as they arrive, in their order and at any times.
pub accepted_nonces-sent :
    (times arrivals : List ℕ) (sender s : Session)
    → IsNonce sender.send_nonce
    → IsNonce s.receive_nonce
    → value s.receive_nonce < 2 ^ 40
    → 2 ^ 40 ≤ value sender.send_nonce
    → value sender.send_nonce + 2 * length times ≤ 2 ^ 41
    → All (λ t. t < sender.valid_till) times
    → (length (sent times sender) ≡ length times)
      × (accepted_nonces s (stamped arrivals (sent times sender)) ≡ [])
accepted_nonces-sent [] arrivals sender s h k lt lo hi t = (unfold sent in refl, nothing arrivals)
  where
    nothing : (arrivals : List ℕ) → accepted_nonces s (stamped arrivals (sent [] sender)) ≡ []
    nothing [] = unfold accepted_nonces in refl
    nothing (a ∷ arrivals) = unfold sent accepted_nonces in refl
accepted_nonces-sent (now ∷ times) arrivals sender s h k lt lo hi t =
    let valid = still-valid now sender h (omega (arith, hi)) t.0 in
    let (next, step, _) = advance-no_wrap now sender h valid in
    let first = sent-on now times sender valid in
    let below = value-lt sender.send_nonce h in
    (
      ap length first
          ∙ ap suc
              (accepted_nonces-sent times [] (advance sender) s next k lt (omega (arith, step, lo))
                (omega (arith, step, hi)) t.1).0,
      ap (λ ns. accepted_nonces s (stamped arrivals ns)) first
          ∙ rest arrivals (λ later.
            (accepted_nonces-sent times later (advance sender) s next k lt (omega (arith, step, lo))
              (omega (arith, step, hi)) t.1).1),
    )
  where
    rest :
        (arrivals : List ℕ)
        → ((later : List ℕ) → accepted_nonces s (stamped later (sent times (advance sender))) ≡ [])
        → accepted_nonces s (stamped arrivals (sender.send_nonce ∷ sent times (advance sender)))
          ≡ []
    rest [] none_later = unfold accepted_nonces in refl
    rest (a ∷ arrivals) none_later =
        dropped-rest a s sender.send_nonce (stamped arrivals (sent times (advance sender)))
          (receive-other_half a s sender.send_nonce k h lt lo (omega (arith, hi)))
        ∙ none_later arrivals
