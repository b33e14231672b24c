-- ===== src/Poly1305/RoundTrip.antt =====
-- generic_poly1305.c: a packet of method_encrypt arrives.
use fastd.Base.{
  ℕ, ◌+◌, ◌≡◌, refl, ap, ◌∙◌, true, false, some, ◌==◌, ltb, List, ◌∷◌, ◌++◌, arith, length,
  length-append,
}
use fastd.Base.Int.{ℤ}
use fastd.Buffer.{Buffer, get_view}
use fastd.Buffer.Payload.{IsValid, payload, length-payload}
use fastd.Buffer.Pool.{Pool, IsPool}
use fastd.Crypto.Stream.{xor_stream, IsStream, xor_stream-twice}
use fastd.Method.{
  Session, nonce_bytes, head_bytes, packet_type, session_is_valid, is_nonce_valid, reorder_check,
  handle_common_header,
}
use fastd.Method.Header.{handle_common_header_lem}
use fastd.Method.Result.{sealed, received, keep}
use fastd.Poly1305.{
  key_bytes, tag_bytes, OneTimeAuth, PolySession, poly1305_encrypt, poly1305_decrypt,
}
use fastd.Poly1305.Seal.{
  IsAuth, CanSend, packet_stream, one_time_key, body, poly1305_encrypt-payload,
}
use fastd.Poly1305.Open.{CanReceive, open_lem}
use fastd.Poly1305.Open.Checked.{taken, restored, answer}
use fastd.Poly1305.Decrypt.{decrypt-run}

-- A buffer that holds the body of a text, behind a header with a nonce that the session accepts.
received-body :
    {a : OneTimeAuth} {p : Pool} {b : Buffer} {room flags : ℕ} {text : List ℕ} {age : ℤ} (now : ℕ)
    (s : PolySession) (nonce : List ℕ)
    → IsAuth a
    → (c : IsStream s.cipher) → CanReceive p room b
    → length nonce ≡ nonce_bytes
    → session_is_valid now s.common ≡ true
    → is_nonce_valid now s.common nonce ≡ some age
    → payload b
      ≡ packet_type s.common.flags ∷ flags ∷ (nonce ++ body a (packet_stream s c nonce) text)
    → (out : Buffer) × (p' : Pool) × (poly1305_decrypt a now room p s b
        ≡ some (
          received
              (keep (reorder_check now s.common nonce age).1 out)
              (reorder_check now s.common nonce age).0
              (reorder_check now s.common nonce age).1
              flags,
          p',
        ))
      × IsValid out
      × (payload out ≡ text)
      × IsPool p'
      × (length p'.buffers ≡ length p.buffers)
received-body {a} {p} {b} {room} {flags} {text} {age} now s nonce ia c h n current g e =
    let k = packet_stream s c nonce in
    let t = packet_type s.common.flags in
    let cipher_text = xor_stream k key_bytes text in
    let tag = a.auth cipher_text (one_time_key k) in
    let tag_length = ia.length_tag cipher_text (one_time_key k) in
    let header = t ∷ flags ∷ nonce in
    let rest = tag ++ cipher_text in
    let long : ltb b.len (head_bytes + tag_bytes) ≡ false = ground (
      arith,
      length-payload h.valid,
      ap length e,
      length-append nonce rest,
      length-append tag cipher_text,
      tag_length,
      n,
    ) in
    let same : (t == t) ≡ true = ground arith in
    let (v, f) = handle_common_header_lem now s.common t flags nonce rest h.valid n e in
    let f' : handle_common_header now s.common (get_view b) ≡ some (some (nonce, flags, age), v) =
      f ∙ rw (same, g) refl in
    let o =
      open_lem h header tag cipher_text (omega (arith, n)) tag_length e a now s nonce flags age c in
    elim (answer ia o tag_length n) [
      | taken out p' tag_ok r w q ip m ↦ (
        out,
        p',
        decrypt-run a now room p s b v (some (nonce, flags, age)) long current f' ∙ r,
        w,
        q ∙ xor_stream-twice k key_bytes text,
        ip,
        m,
      )
      | restored out p' tag_bad r w q ip m ↦ absurd (tag_bad refl)
    ]

-- A packet that method_encrypt has sent, with any flags, is decrypted to its text by a session with
-- the same cipher, key and packet type, in the buffer in which it arrives and with the receiver's own
-- pool, if the session is valid and accepts the nonce. Whether it is handed on is then decided by the reorder check
-- alone, which empties a duplicate.
pub poly1305_decrypt-poly1305_encrypt :
    {a : OneTimeAuth} {p p' q : Pool} {b packet arrived : Buffer} {room flags : ℕ} {age : ℤ}
    {sender' : Session} (now : ℕ) (s : PolySession) (sender : Session)
    → IsAuth a
    → IsStream s.cipher
    → CanSend p b
    → length sender.send_nonce ≡ nonce_bytes
    → poly1305_encrypt a p (record s { common = sender }) b flags ≡ some (sealed packet sender', p')
    → CanReceive q room arrived
    → payload arrived ≡ payload packet
    → packet_type sender.flags ≡ packet_type s.common.flags
    → session_is_valid now s.common ≡ true
    → is_nonce_valid now s.common sender.send_nonce ≡ some age
    → (out : Buffer) × (q' : Pool) × (poly1305_decrypt a now room q s arrived
        ≡ some (
          received
              (keep (reorder_check now s.common sender.send_nonce age).1 out)
              (reorder_check now s.common sender.send_nonce age).0
              (reorder_check now s.common sender.send_nonce age).1
              flags,
          q',
        ))
      × IsValid out
      × (payload out ≡ payload b)
      × IsPool q'
      × (length q'.buffers ≡ length q.buffers)
poly1305_decrypt-poly1305_encrypt {a} {p} {p'} {q} {b} {packet} {arrived} {room} {flags} {age} now s
      sender ia c h n e k same types current g =
    let (packet', p'', f, v, t, ip, m) =
      poly1305_encrypt-payload (record s { common = sender }) flags ia c h n in
    let one : packet ≡ packet' = cc in
    received-body now s sender.send_nonce ia c k n current g (
      same
      ∙ ap payload one
      ∙ t
      ∙ ap
          (λ x.
            x
            ∷ flags
            ∷ (sender.send_nonce ++ body a (packet_stream s c sender.send_nonce) (payload b)))
          types)
