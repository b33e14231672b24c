-- ===== src/Poly1305/Open/Checked.antt =====
-- generic_poly1305.c: the tag decides whether method_decrypt returns the text or restores its input.
use fastd.Base.{
  ℕ, ◌≤◌, ◌≡◌, ◌≢◌, inl, inr, refl, sym, ap, ap₂, ◌∙◌, Bool-cases, true, false, true≢false, some,
  List, ◌∷◌, ◌++◌, arith, length, take, drop, length-append, take-length_append, drop-length_append,
}
use fastd.Base.Int.{ℤ}
use fastd.Buffer.{Buffer, push_from, pull}
use fastd.Buffer.Payload.{
  IsValid, payload, pushed, push_from_lem, pushed-IsValid, payload-pushed, pulled, pull_lem,
  payload-pulled, take-take, length-payload,
}
use fastd.Buffer.Pool.{Pool, IsPool, free}
use fastd.Buffer.PoolLaws.{free-IsPool}
use fastd.Crypto.Stream.{xor_stream, length-xor_stream}
use fastd.Method.{nonce_bytes, packet_type, put_common_header_raw, reorder_check}
use fastd.Method.Header.{with_header, with_header-payload, put_header-eq}
use fastd.Method.Result.{received, refused, keep}
use fastd.Poly1305.{
  key_bytes, tag_bytes, OneTimeAuth, PolySession, poly1305_restore, poly1305_verify, poly1305_open,
}
use fastd.Poly1305.Seal.{IsAuth, zeroes, one_time_key}
use fastd.Poly1305.Open.{Opened}

verify-taken :
    (a : OneTimeAuth) (now : ℕ) (p : Pool) (s : PolySession) (b out filled packet : Buffer)
    (tag nonce : List ℕ) (flags : ℕ) (age : ℤ)
    → a.verify tag (payload b) (take key_bytes (drop filled.head filled.base)) ≡ true
    → pull filled key_bytes ≡ some packet
    → let r = reorder_check now s.common nonce age in
      poly1305_verify a now p s b out tag nonce flags age (some filled)
      ≡ some (received (keep r.1 packet) r.0 r.1 flags, free p b)
unfolding poly1305_verify
verify-taken a now p s b out filled packet tag nonce flags age e f = rw (e, f) refl

verify-restored :
    (a : OneTimeAuth) (now : ℕ) (p : Pool) (s : PolySession) (b out filled tagged packet : Buffer)
    (tag nonce : List ℕ) (flags : ℕ) (age : ℤ)
    → a.verify tag (payload b) (take key_bytes (drop filled.head filled.base)) ≡ false
    → push_from b tag ≡ some tagged
    → put_common_header_raw tagged nonce flags s.common.flags ≡ some packet
    → poly1305_verify a now p s b out tag nonce flags age (some filled)
      ≡ some (refused packet, free p filled)
unfolding poly1305_verify poly1305_restore
verify-restored a now p s b out filled tagged packet tag nonce flags age e f g = rw (e, f, g) refl

-- What comes of a packet whose header is accepted.
pub data Answer (a : OneTimeAuth) (now room : ℕ) (p : Pool) (s : PolySession) (b : Buffer)
    (nonce tag : List ℕ) (flags : ℕ) (age : ℤ) (k : ℕ → ℕ) (text : List ℕ) : Type 0 where
  taken :
      (packet : Buffer) (p' : Pool)
      → tag ≡ a.auth text (one_time_key k)
      → poly1305_open a now room p s b (some (nonce, flags, age))
        ≡ some (
          received
              (keep (reorder_check now s.common nonce age).1 packet)
              (reorder_check now s.common nonce age).0
              (reorder_check now s.common nonce age).1
              flags,
          p',
        )
      → IsValid packet
      → payload packet ≡ xor_stream k key_bytes text
      → IsPool p'
      → length p'.buffers ≡ length p.buffers
      → Answer a now room p s b nonce tag flags age k text
  restored :
      (packet : Buffer) (p' : Pool)
      → tag ≢ a.auth text (one_time_key k)
      → poly1305_open a now room p s b (some (nonce, flags, age)) ≡ some (refused packet, p')
      → IsValid packet
      → payload packet ≡ packet_type s.common.flags ∷ flags ∷ (nonce ++ (tag ++ text))
      → IsPool p'
      → length p'.buffers ≡ length p.buffers
      → Answer a now room p s b nonce tag flags age k text

module _ {a : OneTimeAuth} {now room : ℕ} {p : Pool} {s : PolySession} {b : Buffer}
    {nonce tag : List ℕ} {flags : ℕ} {age : ℤ} {k : ℕ → ℕ} {text : List ℕ} (ia : IsAuth a)
    (o : Opened a now room p s b nonce tag flags age k text) where
  key_length : length (one_time_key k) ≡ key_bytes
  key_length = length-xor_stream k 0 zeroes

  enough : key_bytes ≤ o.filled.len
  enough = omega (
    arith,
    length-payload o.filled_valid,
    ap length o.filled_text,
    length-append (one_time_key k) (xor_stream k key_bytes text),
    key_length,
  )

  used_key : take key_bytes (drop o.filled.head o.filled.base) ≡ one_time_key k
  used_key =
      sym (take-take o.filled.len key_bytes (drop o.filled.head o.filled.base) enough)
      ∙ ap (take key_bytes) o.filled_text
      ∙ ap (λ j. take j (one_time_key k ++ xor_stream k key_bytes text)) (sym key_length)
      ∙ take-length_append (one_time_key k) (xor_stream k key_bytes text)

  plain : payload (pulled o.filled key_bytes) ≡ xor_stream k key_bytes text
  plain =
      payload-pulled o.filled key_bytes enough
      ∙ ap (drop key_bytes) o.filled_text
      ∙ ap (λ j. drop j (one_time_key k ++ xor_stream k key_bytes text)) (sym key_length)
      ∙ drop-length_append (one_time_key k) (xor_stream k key_bytes text)

  verified :
      a.verify tag (payload o.rest) (take key_bytes (drop o.filled.head o.filled.base))
      ≡ a.verify tag text (one_time_key k)
  verified = ap₂ (a.verify tag) o.rest_text used_key

  answer-taken :
      a.verify tag text (one_time_key k) ≡ true → Answer a now room p s b nonce tag flags age k text
  answer-taken good =
      let (ip, more) = free-IsPool o.rest o.ordered (o.rest_space ∙ sym o.same_max) in
      taken (pulled o.filled key_bytes) (free o.pool o.rest)
        ((ia.accepts tag text (one_time_key k)).0 good)
        (o.result
          ∙ verify-taken a now o.pool s o.rest o.out o.filled _ tag nonce flags age
              (verified ∙ good) (pull_lem key_bytes o.filled_valid enough))
        (omega (arith, o.filled_valid, enough)) plain ip (more ∙ sym o.count)

  answer-restored :
      length tag ≡ tag_bytes
      → length nonce ≡ nonce_bytes
      → a.verify tag text (one_time_key k) ≡ false
      → Answer a now room p s b nonce tag flags age k text
  answer-restored l n bad =
      let (ip, more) = free-IsPool o.filled o.ordered (o.filled_space ∙ sym o.same_max) in
      let fits : length tag ≤ o.rest.head = omega (arith, o.rest_head) in
      let w = pushed-IsValid tag o.rest_valid fits in
      let headed =
        with_header-payload nonce flags s.common.flags w (omega (arith, o.rest_head)) n in
      restored (with_header (pushed o.rest tag) nonce flags s.common.flags) (free o.pool o.filled)
        (λ e. true≢false (sym ((ia.accepts tag text (one_time_key k)).1 e) ∙ bad))
        (o.result
          ∙ verify-restored a now o.pool s o.rest o.out o.filled _ _ tag nonce flags age
              (verified ∙ bad) (push_from_lem tag o.rest_valid fits)
              (put_header-eq nonce flags s.common.flags w (omega (arith, o.rest_head)) n))
        headed.0
        (headed.1
          ∙ ap (λ t. packet_type s.common.flags ∷ flags ∷ (nonce ++ t))
              (payload-pushed tag o.rest_valid fits ∙ ap (λ t. tag ++ t) o.rest_text))
        ip (more ∙ sym o.count)

  pub answer :
      length tag ≡ tag_bytes
      → length nonce ≡ nonce_bytes
      → Answer a now room p s b nonce tag flags age k text
  answer l n = elim (Bool-cases (a.verify tag text (one_time_key k))) [
    | inl good ↦ answer-taken good
    | inr bad ↦ answer-restored l n bad
  ]
