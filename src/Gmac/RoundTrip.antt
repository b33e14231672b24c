-- ===== src/Gmac/RoundTrip.antt =====
-- generic_gmac.c and generic_umac.c: a packet of method_encrypt arrives.
use fastd.Base.{
  ℕ, ◌+◌, ◌≡◌, refl, sym, ap, ◌∙◌, true, false, some, ◌==◌, Option, ltb, List, ◌∷◌, ◌++◌, arith,
  length, length-append, replicate,
}
use fastd.Base.Int.{ℤ}
use fastd.Util.{block128}
use fastd.Buffer.{Buffer, View, get_view, zero_pad}
use fastd.Buffer.Payload.{IsValid, payload, length-payload}
use fastd.Buffer.Pool.{Pool, IsPool}
use fastd.Crypto.{block_xor}
use fastd.Crypto.Stream.{
  xor_stream, IsStream, xor_stream-twice, xor_stream-hidden, length-xor_stream,
}
use fastd.Crypto.Xor.{length-block_xor}
use fastd.Method.{
  Session, nonce_bytes, head_bytes, packet_type, session_is_valid, is_nonce_valid, reorder_check,
  handle_common_header,
}
use fastd.Method.Header.{behind_header, handle_common_header-behind}
use fastd.Method.Result.{sealed, received, keep}
use fastd.Gmac.{MacSession, mac_session_is_valid, mac_open, mac_encrypt, mac_decrypt}
use fastd.Gmac.Pad.{padded, zero_pad-Padded}
use fastd.Gmac.Seal.{IsMac, CanSend, packet_stream, tag_of, mask, body, mac_encrypt-payload}
use fastd.Gmac.Open.{CanReceive}
use fastd.Gmac.Answer.{taken, kept, answer}

pub decrypt-run :
    (now room : ℕ) (p : Pool) (s : MacSession) (b : Buffer) (v : View)
    (header : Option (List ℕ × ℕ × ℤ))
    → ltb b.len (head_bytes + block128) ≡ false
    → session_is_valid now s.common ≡ true
    → handle_common_header now s.common (get_view b) ≡ some (header, v)
    → mac_decrypt now room p s b ≡ mac_open now room p s b v header
unfolding mac_decrypt mac_session_is_valid
decrypt-run now room p s b v header e f g = rw (e, f, g) refl

-- A buffer that holds the body of a text, behind a header with a nonce that the session accepts.
received-body :
    {p : Pool} {b : Buffer} {room flags : ℕ} {text : List ℕ} {age : ℤ} (now : ℕ) (s : MacSession)
    (nonce : List ℕ)
    → (c : IsStream s.cipher) → (m : IsMac s.mac) → CanReceive p room b
    → length nonce ≡ nonce_bytes
    → session_is_valid now s.common ≡ true
    → is_nonce_valid now s.common nonce ≡ some age
    → payload b
      ≡ packet_type s.common.flags ∷ flags ∷ (nonce ++ body s m (packet_stream s c nonce) text)
    → (out : Buffer) × (p' : Pool) × (mac_decrypt now room p s (zero_pad b)
        ≡ some (
          received
              (keep (reorder_check now s.common nonce age).1 out)
              (reorder_check now s.common nonce age).0
              (reorder_check now s.common nonce age).1
              flags,
          p',
        ))
      × IsValid out
      × (payload out ≡ text)
      × IsPool p'
      × (length p'.buffers ≡ length p.buffers)
received-body {p} {b} {room} {flags} {text} {age} now s nonce c m h n current g e =
    let k = packet_stream s c nonce in
    let t = packet_type s.common.flags in
    let cipher_text = xor_stream k block128 text in
    let tag = tag_of s m cipher_text in
    let first = block_xor (mask k) tag in
    let tag_length = m.length_value s.mac_key 0 (padded cipher_text) (length cipher_text) in
    let mask_length = length-xor_stream k 0 (replicate block128 0) in
    let first_length : length first ≡ block128 =
      length-block_xor (mask k) tag (omega (arith, tag_length, mask_length)) ∙ mask_length in
    let header = t ∷ flags ∷ nonce in
    let rest = first ++ cipher_text in
    let pads = zero_pad-Padded h.pad in
    let long : ltb (zero_pad b).len (head_bytes + block128) ≡ false = ground (
      arith,
      length-payload h.pad.valid,
      pads.len,
      ap length e,
      length-append nonce rest,
      length-append first cipher_text,
      first_length,
      n,
    ) in
    let same : (t == t) ≡ true = ground arith in
    let f : handle_common_header now s.common (get_view (zero_pad b))
        ≡ some (some (nonce, flags, age), behind_header (zero_pad b)) =
      handle_common_header-behind now s.common t flags nonce rest pads.valid n (pads.text ∙ e)
      ∙ rw (same, g) refl in
    let hidden = xor_stream-hidden k tag block128 tag_length in
    elim (answer h header first cipher_text (omega (arith, n)) first_length e now s c m nonce flags
      age) [
        | taken out p' tag_ok r w q ip j ↦ (
          out,
          p',
          decrypt-run now room p s (zero_pad b) (behind_header (zero_pad b))
                (some (nonce, flags, age)) long current f
              ∙ r,
          w,
          q ∙ xor_stream-twice k block128 text,
          ip,
          j,
        )
        | kept p' tag_bad r ip j ↦ absurd (tag_bad (sym hidden))
      ]

-- A packet that method_encrypt has sent, with any flags, and that the protocol has padded with zeroes
-- where it arrived, is decrypted to its text by a session with the same cipher, MAC, keys and packet
-- type, if the session is valid and accepts the nonce. Whether it is handed on is then decided by the reorder check
-- alone, which empties a duplicate. All accesses to blocks are aligned and in bounds.
pub mac_decrypt-mac_encrypt :
    {p p' q : Pool} {b packet arrived : Buffer} {room flags : ℕ} {age : ℤ} {sender' : Session}
    (now : ℕ) (s : MacSession) (sender : Session)
    → IsStream s.cipher
    → IsMac s.mac
    → CanSend p b
    → length sender.send_nonce ≡ nonce_bytes
    → mac_encrypt p (record s { common = sender }) b flags ≡ some (sealed packet sender', p')
    → CanReceive q room arrived
    → payload arrived ≡ payload packet
    → packet_type sender.flags ≡ packet_type s.common.flags
    → session_is_valid now s.common ≡ true
    → is_nonce_valid now s.common sender.send_nonce ≡ some age
    → (out : Buffer) × (q' : Pool) × (mac_decrypt now room q s (zero_pad arrived)
        ≡ some (
          received
              (keep (reorder_check now s.common sender.send_nonce age).1 out)
              (reorder_check now s.common sender.send_nonce age).0
              (reorder_check now s.common sender.send_nonce age).1
              flags,
          q',
        ))
      × IsValid out
      × (payload out ≡ payload b)
      × IsPool q'
      × (length q'.buffers ≡ length q.buffers)
mac_decrypt-mac_encrypt {p} {p'} {q} {b} {packet} {arrived} {room} {flags} {age} now s sender c m h
      n e k same types current g =
    let (packet', p'', f, v, t, ip, j) =
      mac_encrypt-payload (record s { common = sender }) flags c m h n in
    let one : packet ≡ packet' = cc in
    let stream = packet_stream s c sender.send_nonce in
    received-body now s sender.send_nonce c m k n current g (
      same
      ∙ ap payload one
      ∙ t
      ∙ ap (λ x. x ∷ flags ∷ (sender.send_nonce ++ body s m stream (payload b))) types)
