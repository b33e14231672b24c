-- ===== src/Poly1305/Seal.antt =====
-- generic_poly1305.c: the packet that method_encrypt makes.
use fastd.Base.{
  ℕ, ◌+◌, ◌-◌, ◌≤◌, ◌≡◌, ◌≢◌, refl, sym, ap, ap₂, ◌∙◌, some, List, [], ◌∷◌, ◌++◌, arith, length,
  take, drop, replicate, true, ◌↔◌, length-write, take-length_append, drop-length_append,
  length-append,
}
use fastd.Buffer.{Buffer, push_zero, pull, push_from}
use fastd.Buffer.Payload.{
  IsValid, payload, pushed, push_zero_lem, push_from_lem, pushed-IsValid, payload-pushed, pulled,
  pull_lem, payload-pulled, take-take, length-payload,
}
use fastd.Buffer.Pool.{Pool, IsPool, alloc, free}
use fastd.Buffer.PoolLaws.{Fits, alloc-Served, free-IsPool}
use fastd.Crypto.{crypt_packet}
use fastd.Crypto.Stream.{xor_stream, IsStream, length-xor_stream, xor_stream-append}
use fastd.Crypto.Blocks.{IsAligned, crypt_packet_lem}
use fastd.Method.{
  Session, nonce_bytes, packet_type, increment_nonce, expand_nonce, put_common_header,
}
use fastd.Method.Header.{with_header, with_header-payload, put_common_header_lem}
use fastd.Method.Result.{sealed}
use fastd.Poly1305.{
  key_bytes, tag_bytes, common_headroom, OneTimeAuth, PolySession, poly1305_seal, poly1305_encrypt,
}

-- The documented contract of the authenticator: its tags have 16 bytes, and a tag is accepted exactly
-- if it is the tag of the message.
pub record IsAuth (a : OneTimeAuth) : Type 0 where
  pub length_tag : (m k : List ℕ) → length (a.auth m k) ≡ tag_bytes
  pub accepts : (t m k : List ℕ) → (a.verify t m k ≡ true) ↔ (t ≡ a.auth m k)

-- The key stream of a packet, by its nonce.
abbrev pub packet_stream : (s : PolySession) → IsStream s.cipher → List ℕ → ℕ → ℕ
packet_stream s c nonce = c.stream s.secret 0 (expand_nonce nonce s.cipher.iv_length)

-- The one-time key of a packet, its text, and both behind the tag.
abbrev pub one_time_key : (ℕ → ℕ) → List ℕ
one_time_key k = xor_stream k 0 (replicate key_bytes 0)

abbrev pub body : OneTimeAuth → (ℕ → ℕ) → List ℕ → List ℕ
body a k text = a.auth (xor_stream k key_bytes text) (one_time_key k) ++ xor_stream k key_bytes text

-- The input of the cipher, and what the cipher makes of it.
abbrev pub zeroes : List ℕ
zeroes = replicate key_bytes 0

abbrev pub with_zeroes : Buffer → Buffer
with_zeroes b = pushed b zeroes

pub keyed-payload :
    (k : ℕ → ℕ) (text : List ℕ)
    → xor_stream k 0 (replicate key_bytes 0 ++ text) ≡ one_time_key k ++ xor_stream k key_bytes text
keyed-payload k text = xor_stream-append k 0 (replicate key_bytes 0) text

-- Buffers of `method_encrypt`: the pool has one to give, and the packet has its headroom.
pub record CanSend (p : Pool) (b : Buffer) : Type 0 where
  pub pool : IsPool p
  pub some_free : p.buffers ≢ []
  pub aligned : IsAligned b
  pub headroom : key_bytes ≤ b.head
  pub space : length b.base ≡ p.max_buffer
  pub fits : Fits p (key_bytes + b.len) common_headroom

with_zeroes-IsAligned : {b : Buffer} → IsAligned b → key_bytes ≤ b.head → IsAligned (with_zeroes b)
with_zeroes-IsAligned {b} h r =
    let l = length-write b.base (b.head - key_bytes) zeroes in
    record {
      valid = pushed-IsValid zeroes h.valid r;
      start = omega (arith, h.start);
      space = omega (arith, h.space, l);
      room = omega (arith, h.room, l);
    }

seal-run :
    (a : OneTimeAuth) (p : Pool) (s : PolySession) (b unused out cut tagged packet : Buffer)
    (flags : ℕ) (common : Session)
    → pull out key_bytes ≡ some cut
    → push_from cut (a.auth (payload cut) (take key_bytes (drop out.head out.base))) ≡ some tagged
    → put_common_header s.common tagged flags ≡ some (packet, common)
    → poly1305_seal a p s b unused flags (some out) ≡ some (sealed packet common, free p b)
unfolding poly1305_seal
seal-run a p s b unused out cut tagged packet flags common e f g = rw (e, f, g) refl

-- The packet that the authenticator makes of the cipher's result.
seal_lem :
    {a : OneTimeAuth} {out : Buffer} (p : Pool) (s : PolySession) (b unused : Buffer) (flags : ℕ)
    (k : ℕ → ℕ) (text : List ℕ)
    → IsAuth a
    → IsValid out
    → payload out ≡ one_time_key k ++ xor_stream k key_bytes text
    → out.head ≡ common_headroom
    → length s.common.send_nonce ≡ nonce_bytes
    → (packet : Buffer) × (poly1305_seal a p s b unused flags (some out)
        ≡ some (
          sealed packet (record s.common { send_nonce = increment_nonce s.common.send_nonce }),
          free p b,
        ))
      × IsValid packet
      × (payload packet
          ≡ packet_type s.common.flags ∷ flags ∷ (s.common.send_nonce ++ body a k text))
seal_lem {a} {out} p s b unused flags k text ia v e h n = (
  with_header tagged s.common.send_nonce flags s.common.flags,
  seal-run a p s b unused out cut tagged _ flags _ (pull_lem key_bytes v enough)
      (ap (λ t. push_from cut t) same_tag ∙ push_from_lem tag w fits)
      (put_common_header_lem s.common flags (pushed-IsValid tag w fits) (omega arith) n),
  headed.0,
  headed.1
      ∙ ap (λ t. packet_type s.common.flags ∷ flags ∷ (s.common.send_nonce ++ t))
          (payload-pushed tag w fits ∙ ap (λ t. tag ++ t) cut_text),
)
  where
    key : List ℕ
    key = one_time_key k

    text' : List ℕ
    text' = xor_stream k key_bytes text

    tag : List ℕ
    tag = a.auth text' key

    length_key : length key ≡ key_bytes
    length_key = length-xor_stream k 0 (replicate key_bytes 0)

    enough : key_bytes ≤ out.len
    enough = omega (arith, length-payload v, ap length e, length-append key text', length_key)

    cut : Buffer
    cut = pulled out key_bytes

    w : IsValid cut
    w = omega (arith, v, enough)

    cut_text : payload cut ≡ text'
    cut_text =
        payload-pulled out key_bytes enough
        ∙ ap (drop key_bytes) e
        ∙ ap (λ j. drop j (key ++ text')) (sym length_key)
        ∙ drop-length_append key text'

    out_key : take key_bytes (drop out.head out.base) ≡ key
    out_key =
        sym (take-take out.len key_bytes (drop out.head out.base) enough)
        ∙ ap (take key_bytes) e
        ∙ ap (λ j. take j (key ++ text')) (sym length_key)
        ∙ take-length_append key text'

    same_tag : a.auth (payload cut) (take key_bytes (drop out.head out.base)) ≡ tag
    same_tag = ap₂ a.auth cut_text out_key

    fits : length tag ≤ cut.head
    fits = omega (arith, ia.length_tag text' key, h)

    tagged : Buffer
    tagged = pushed cut tag

    headed :
        IsValid (with_header tagged s.common.send_nonce flags s.common.flags)
        × (payload (with_header tagged s.common.send_nonce flags s.common.flags)
            ≡ packet_type s.common.flags ∷ flags ∷ (s.common.send_nonce ++ payload tagged))
    headed =
        with_header-payload s.common.send_nonce flags s.common.flags (pushed-IsValid tag w fits)
          (omega (arith, ia.length_tag text' key, h)) n

encrypt-run :
    (a : OneTimeAuth) (p p' : Pool) (s : PolySession) (b out filled : Buffer) (flags : ℕ)
    → push_zero b key_bytes ≡ some (with_zeroes b)
    → alloc p (key_bytes + b.len) common_headroom ≡ some (out, p')
    → crypt_packet s.cipher s.secret 0
        (with_zeroes b)
        out
        (expand_nonce s.common.send_nonce s.cipher.iv_length)
      ≡ some (some filled)
    → poly1305_encrypt a p s b flags ≡ poly1305_seal a p' s (with_zeroes b) out flags (some filled)
unfolding poly1305_encrypt
encrypt-run a p p' s b out filled flags e f g = rw (e, f, g) refl

-- With a stream cipher, headroom and a free buffer, method_encrypt sends a packet with the session's
-- next nonce in its header, the tag, and the text under the key stream of that nonce. Only the nonce
-- of the session changes, and the pool has as many buffers as before.
pub poly1305_encrypt-payload :
    {a : OneTimeAuth} {p : Pool} {b : Buffer} (s : PolySession) (flags : ℕ)
    → IsAuth a
    → (c : IsStream s.cipher) → CanSend p b
    → length s.common.send_nonce ≡ nonce_bytes
    → (packet : Buffer) × (p' : Pool) × (poly1305_encrypt a p s b flags
        ≡ some (
          sealed packet (record s.common { send_nonce = increment_nonce s.common.send_nonce }),
          p',
        ))
      × IsValid packet
      × (payload packet
          ≡ packet_type s.common.flags
            ∷ flags
            ∷ (s.common.send_nonce ++ body a (packet_stream s c s.common.send_nonce) (payload b)))
      × IsPool p'
      × (length p'.buffers ≡ length p.buffers)
poly1305_encrypt-payload {a} {p} {b} s flags ia c h n =
    let k = packet_stream s c s.common.send_nonce in
    let (out, p', served) =
      alloc-Served (key_bytes + b.len) common_headroom h.pool h.some_free h.fits in
    let (filled, e, v, same, head, len, space) =
      crypt_packet_lem s.secret 0 (expand_nonce s.common.send_nonce s.cipher.iv_length) c
        (with_zeroes-IsAligned h.aligned h.headroom) served h.fits refl in
    let text =
      same
      ∙ ap (xor_stream k 0) (payload-pushed zeroes h.aligned.valid h.headroom)
      ∙ keyed-payload k (payload b) in
    let (packet, f, w, q) =
      seal_lem p' s (with_zeroes b) out flags k (payload b) ia v text head n in
    let (ip, more) =
      free-IsPool (with_zeroes b) served.ordered
        (length-write b.base (b.head - key_bytes) zeroes ∙ h.space ∙ sym served.same_max) in
    (
      packet,
      free p' (with_zeroes b),
      encrypt-run a p p' s b out filled flags (push_zero_lem key_bytes h.aligned.valid h.headroom)
            served.result e
          ∙ f,
      w,
      q,
      ip,
      more ∙ sym served.count,
    )
