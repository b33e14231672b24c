-- ===== src/Gmac/Decrypt.antt =====
-- generic_gmac.c and generic_umac.c: what method_decrypt makes of any packet.
use fastd.Base.{
  ℕ, ◌+◌, ◌≤◌, ◌≡◌, ◌⊎◌, inl, inr, refl, sym, ap, ◌∙◌, Bool-cases, Option-cases, ==_iff, true,
  false, Option, none, some, ◌>>=◌, ◌==◌, if◌then◌else◌, ltb, List, ◌∷◌, ◌++◌, arith, length,
}
use fastd.Base.Int.{ℤ}
use fastd.Util.{block128}
use fastd.Buffer.{Buffer, View, get_view, zero_pad}
use fastd.Buffer.Payload.{payload, length-payload}
use fastd.Buffer.Pool.{Pool, IsPool}
use fastd.Crypto.Stream.{xor_stream, IsStream}
use fastd.Method.{
  head_bytes, packet_type, session_is_valid, is_nonce_valid, handle_common_header, reorder_check,
}
use fastd.Method.Header.{behind_header, handle_common_header-behind}
use fastd.Method.Result.{received, refused, keep}
use fastd.Poly1305.Decrypt.{Parts, parts}
use fastd.Gmac.{MacSession, mac_session_is_valid, mac_open, mac_decrypt}
use fastd.Gmac.Pad.{zero_pad-Padded}
use fastd.Gmac.Seal.{IsMac, packet_stream, tag_of}
use fastd.Gmac.Open.{CanReceive}
use fastd.Gmac.Answer.{taken, kept, answer}
use fastd.Gmac.RoundTrip.{decrypt-run}

-- A refused packet is the packet that came in, and the number of free buffers is the same.
abbrev pub Refused : ℕ → ℕ → Pool → MacSession → Buffer → Type 0
Refused now room p s b =
    (p' : Pool) × (mac_decrypt now room p s b ≡ some (refused b, p'))
    × IsPool p'
    × (length p'.buffers ≡ length p.buffers)

-- What an accepted packet has shown: a session that is valid, a nonce that is not too old, and a first
-- block that hides the tag of its text.
abbrev pub Accepted :
    ℕ → ℕ → Pool → (s : MacSession) → IsStream s.cipher → IsMac s.mac → Buffer → Type 0
Accepted now room p s c m b =
    (packet : Buffer) × (p' : Pool) × (flags : ℕ) × (nonce : List ℕ) × (age : ℤ) × (first : List ℕ)
    × (text : List ℕ) × (mac_decrypt now room p s b
        ≡ some (
          received (keep (reorder_check now s.common nonce age).1 packet)
              (reorder_check now s.common nonce age).0 (reorder_check now s.common nonce age).1
              flags,
          p',
        ))
    × (session_is_valid now s.common ≡ true)
    × (is_nonce_valid now s.common nonce ≡ some age)
    × (payload b ≡ packet_type s.common.flags ∷ flags ∷ (nonce ++ (first ++ text)))
    × (xor_stream (packet_stream s c nonce) 0 first ≡ tag_of s m text)
    × (payload packet ≡ xor_stream (packet_stream s c nonce) block128 text)
    × IsPool p'
    × (length p'.buffers ≡ length p.buffers)

decrypt-short :
    (now room : ℕ) (p : Pool) (s : MacSession) (b : Buffer)
    → ltb b.len (head_bytes + block128) ≡ true
    → mac_decrypt now room p s b ≡ some (refused b, p)
unfolding mac_decrypt
decrypt-short now room p s b e = rw e refl

decrypt-invalid :
    (now room : ℕ) (p : Pool) (s : MacSession) (b : Buffer)
    → ltb b.len (head_bytes + block128) ≡ false
    → session_is_valid now s.common ≡ false
    → mac_decrypt now room p s b ≡ some (refused b, p)
unfolding mac_decrypt mac_session_is_valid
decrypt-invalid now room p s b e f = rw (e, f) refl

open-none :
    (now room : ℕ) (p : Pool) (s : MacSession) (b : Buffer) (v : View)
    → mac_open now room p s b v none ≡ some (refused b, p)
unfolding mac_open
open-none now room p s b v = refl

module _ {p : Pool} {b : Buffer} {room : ℕ} (now : ℕ) (s : MacSession) (c : IsStream s.cipher)
    (m : IsMac s.mac) (h : CanReceive p room b)
    (long : ltb (zero_pad b).len (head_bytes + block128) ≡ false)
    (current : session_is_valid now s.common ≡ true) where
  not_opened :
      handle_common_header now s.common (get_view (zero_pad b))
        ≡ some (none, behind_header (zero_pad b))
      → Refused now room p s (zero_pad b)
  not_opened e =
      let run = decrypt-run now room p s (zero_pad b) _ none long current e in
      (p, run ∙ open-none now room p s (zero_pad b) (behind_header (zero_pad b)), h.pool, refl)

  opened :
      (q : Parts (payload b)) (age : ℤ)
      → handle_common_header now s.common (get_view (zero_pad b))
        ≡ some (some (q.nonce, q.flags, age), behind_header (zero_pad b))
      → q.t ≡ packet_type s.common.flags
      → is_nonce_valid now s.common q.nonce ≡ some age
      → Refused now room p s (zero_pad b) ⊎ Accepted now room p s c m (zero_pad b)
  opened q age e f g =
      let header = q.t ∷ q.flags ∷ q.nonce in
      let run = decrypt-run now room p s (zero_pad b) _ _ long current e in
      let whole =
        (zero_pad-Padded h.pad).text
        ∙ q.whole
        ∙ ap (λ t. t ∷ q.flags ∷ (q.nonce ++ (q.tag ++ q.text))) f in
      elim (answer h header q.tag q.text (omega (arith, q.length_nonce)) q.length_tag q.whole now s
        c m q.nonce q.flags age) [
          | taken packet p' tag_ok r w t ip n ↦ inr (
            packet,
            p',
            q.flags,
            q.nonce,
            age,
            q.tag,
            q.text,
            run ∙ r,
            current,
            g,
            whole,
            sym tag_ok,
            t,
            ip,
            n,
          )
          | kept p' tag_bad r ip n ↦ inl (p', run ∙ r, ip, n)
        ]

  decided : Refused now room p s (zero_pad b) ⊎ Accepted now room p s c m (zero_pad b)
  decided =
      let pads = zero_pad-Padded h.pad in
      let enough : head_bytes + block128 ≤ (zero_pad b).len = ground arith in
      let q = parts (payload b) (omega (arith, enough, pads.len, length-payload h.pad.valid)) in
      let e =
        handle_common_header-behind now s.common q.t q.flags q.nonce (q.tag ++ q.text) pads.valid
          q.length_nonce (pads.text ∙ q.whole) in
      let found : Option ℤ → Option (List ℕ × ℕ × ℤ) =
        λ o. o >>= (λ age. some (q.nonce, q.flags, age)) in
      let valid = is_nonce_valid now s.common q.nonce in
      let v = behind_header (zero_pad b) in
      elim (Bool-cases (q.t == packet_type s.common.flags)) [
        | inr f ↦ inl (not_opened (e ∙ ap (λ x. some (if x then found valid else none, v)) f))
        | inl f ↦
            let e' = e ∙ ap (λ x. some (if x then found valid else none, v)) f in
            elim (Option-cases valid) [
              | inl g ↦ inl (not_opened (e' ∙ ap (λ o. some (found o, v)) g))
              | inr (age, g) ↦
                  opened q age (e' ∙ ap (λ o. some (found o, v)) g)
                    ((==_iff q.t (packet_type s.common.flags)).0 f) g
            ]
      ]

-- Whatever the packet is that the protocol has padded with zeroes, method_decrypt never ends the
-- process, accesses no block out of bounds, and loses no buffer. Either it refuses the packet and
-- leaves it as it is, or the session is valid, the nonce not too old, the first block hides the tag of
-- the text behind it, and the result is the text without its key stream, or empty if the nonce is a
-- duplicate.
pub mac_decrypt-Answered :
    {p : Pool} {b : Buffer} {room : ℕ} (now : ℕ) (s : MacSession)
    → (c : IsStream s.cipher) → (m : IsMac s.mac) → CanReceive p room b
    → Refused now room p s (zero_pad b) ⊎ Accepted now room p s c m (zero_pad b)
mac_decrypt-Answered {p} {b} {room} now s c m h =
    elim (Bool-cases (ltb (zero_pad b).len (head_bytes + block128))) [
      | inl short ↦ inl (p, decrypt-short now room p s (zero_pad b) short, h.pool, refl)
      | inr long ↦ elim (Bool-cases (session_is_valid now s.common)) [
        | inl current ↦ decided now s c m h long current
        | inr old ↦ inl (p, decrypt-invalid now room p s (zero_pad b) long old, h.pool, refl)
      ]
    ]
