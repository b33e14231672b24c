-- ===== src/Poly1305/Decrypt.antt =====
-- generic_poly1305.c: what method_decrypt makes of any packet, and of one from method_encrypt.
use fastd.Base.{
  ℕ, ◌+◌, ◌≤◌, ◌≡◌, ◌⊎◌, inl, inr, refl, sym, ap, ◌∙◌, Bool-cases, Option-cases, ==_iff, true,
  false, Option, none, some, ◌>>=◌, ◌==◌, if◌then◌else◌, ltb, List, [], ◌∷◌, ◌++◌, arith, length,
  take, drop, length-take, length-drop, take-append-drop,
}
use fastd.Base.Int.{ℤ}
use fastd.Buffer.{Buffer, View, get_view}
use fastd.Buffer.Payload.{IsValid, payload, length-payload}
use fastd.Buffer.Pool.{Pool, IsPool}
use fastd.Crypto.Stream.{xor_stream, IsStream}
use fastd.Method.{
  nonce_bytes, head_bytes, packet_type, session_is_valid, is_nonce_valid, handle_common_header,
  reorder_check,
}
use fastd.Method.Header.{handle_common_header_lem}
use fastd.Method.Result.{received, refused, keep}
use fastd.Poly1305.{
  key_bytes, tag_bytes, OneTimeAuth, PolySession, poly1305_session_is_valid, poly1305_open,
  poly1305_decrypt,
}
use fastd.Poly1305.Seal.{IsAuth, packet_stream, one_time_key}
use fastd.Poly1305.Open.{CanReceive, open_lem}
use fastd.Poly1305.Open.Checked.{taken, restored, answer}

decrypt-short :
    (a : OneTimeAuth) (now room : ℕ) (p : Pool) (s : PolySession) (b : Buffer)
    → ltb b.len (head_bytes + tag_bytes) ≡ true
    → poly1305_decrypt a now room p s b ≡ some (refused b, p)
unfolding poly1305_decrypt
decrypt-short a now room p s b e = rw e refl

decrypt-invalid :
    (a : OneTimeAuth) (now room : ℕ) (p : Pool) (s : PolySession) (b : Buffer)
    → ltb b.len (head_bytes + tag_bytes) ≡ false
    → session_is_valid now s.common ≡ false
    → poly1305_decrypt a now room p s b ≡ some (refused b, p)
unfolding poly1305_decrypt poly1305_session_is_valid
decrypt-invalid a now room p s b e f = rw (e, f) refl

pub decrypt-run :
    (a : OneTimeAuth) (now room : ℕ) (p : Pool) (s : PolySession) (b : Buffer) (v : View)
    (header : Option (List ℕ × ℕ × ℤ))
    → ltb b.len (head_bytes + tag_bytes) ≡ false
    → session_is_valid now s.common ≡ true
    → handle_common_header now s.common (get_view b) ≡ some (header, v)
    → poly1305_decrypt a now room p s b ≡ poly1305_open a now room p s b header
unfolding poly1305_decrypt poly1305_session_is_valid
decrypt-run a now room p s b v header e f g = rw (e, f, g) refl

open-none :
    (a : OneTimeAuth) (now room : ℕ) (p : Pool) (s : PolySession) (b : Buffer)
    → poly1305_open a now room p s b none ≡ some (refused b, p)
unfolding poly1305_open
open-none a now room p s b = refl

-- A payload with room for the header and the tag, in its parts.
pub record Parts (xs : List ℕ) : Type 0 where
  pub t : ℕ
  pub flags : ℕ
  pub nonce : List ℕ
  pub tag : List ℕ
  pub text : List ℕ
  pub length_nonce : length nonce ≡ nonce_bytes
  pub length_tag : length tag ≡ tag_bytes
  pub whole : xs ≡ t ∷ flags ∷ (nonce ++ (tag ++ text))

pub parts : (xs : List ℕ) → head_bytes + tag_bytes ≤ length xs → Parts xs
parts [] h = absurd (omega arith)
parts (t ∷ []) h = absurd (omega arith)
parts (t ∷ flags ∷ xs) h = record {
  t = t;
  flags = flags;
  nonce = take nonce_bytes xs;
  tag = take tag_bytes (drop nonce_bytes xs);
  text = drop tag_bytes (drop nonce_bytes xs);
  length_nonce = omega (arith, length-take nonce_bytes xs);
  length_tag =
      omega (arith, length-take tag_bytes (drop nonce_bytes xs), length-drop nonce_bytes xs);
  whole =
      ap (λ ys. t ∷ flags ∷ ys)
        (sym (take-append-drop nonce_bytes xs)
          ∙ ap (λ ys. take nonce_bytes xs ++ ys)
              (sym (take-append-drop tag_bytes (drop nonce_bytes xs))));
}

-- What a refused packet keeps: its buffer's payload, and the number of free buffers.
abbrev pub Refused : OneTimeAuth → ℕ → ℕ → Pool → PolySession → Buffer → Type 0
Refused a now room p s b =
    (b' : Buffer) × (p' : Pool) × (poly1305_decrypt a now room p s b ≡ some (refused b', p'))
    × IsValid b'
    × (payload b' ≡ payload b)
    × IsPool p'
    × (length p'.buffers ≡ length p.buffers)

-- What an accepted packet has shown: a session that is valid, a nonce that is not too old, and the tag
-- of its text.
abbrev pub Accepted :
    (a : OneTimeAuth) → ℕ → ℕ → Pool → (s : PolySession) → IsStream s.cipher → Buffer → Type 0
Accepted a now room p s c b =
    (packet : Buffer) × (p' : Pool) × (flags : ℕ) × (nonce : List ℕ) × (age : ℤ) × (text : List ℕ)
    × (poly1305_decrypt a now room p s b
        ≡ some (
          received (keep (reorder_check now s.common nonce age).1 packet)
              (reorder_check now s.common nonce age).0 (reorder_check now s.common nonce age).1
              flags,
          p',
        ))
    × (session_is_valid now s.common ≡ true)
    × (is_nonce_valid now s.common nonce ≡ some age)
    × (payload b
        ≡ packet_type s.common.flags
          ∷ flags
          ∷ (nonce ++ (a.auth text (one_time_key (packet_stream s c nonce)) ++ text)))
    × (payload packet ≡ xor_stream (packet_stream s c nonce) key_bytes text)
    × IsPool p'
    × (length p'.buffers ≡ length p.buffers)

module _ {a : OneTimeAuth} {p : Pool} {b : Buffer} {room : ℕ} (now : ℕ) (s : PolySession)
    (ia : IsAuth a) (c : IsStream s.cipher) (h : CanReceive p room b)
    (long : ltb b.len (head_bytes + tag_bytes) ≡ false)
    (current : session_is_valid now s.common ≡ true) where
  not_opened :
      (v : View)
      → handle_common_header now s.common (get_view b) ≡ some (none, v)
      → Refused a now room p s b
  not_opened v e = (
    b,
    p,
    decrypt-run a now room p s b v none long current e ∙ open-none a now room p s b,
    h.valid,
    refl,
    h.pool,
    refl,
  )

  opened :
      (q : Parts (payload b)) (v : View) (age : ℤ)
      → handle_common_header now s.common (get_view b) ≡ some (some (q.nonce, q.flags, age), v)
      → q.t ≡ packet_type s.common.flags
      → is_nonce_valid now s.common q.nonce ≡ some age
      → Refused a now room p s b ⊎ Accepted a now room p s c b
  opened q v age e f g =
      let header = q.t ∷ q.flags ∷ q.nonce in
      let o =
        open_lem h header q.tag q.text (omega (arith, q.length_nonce)) q.length_tag q.whole a now s
          q.nonce q.flags age c in
      let run = decrypt-run a now room p s b v _ long current e in
      let whole = q.whole ∙ ap (λ t. t ∷ q.flags ∷ (q.nonce ++ (q.tag ++ q.text))) f in
      elim (answer ia o q.length_tag q.length_nonce) [
        | taken packet p' tag_ok r w t ip n ↦ inr (
          packet,
          p',
          q.flags,
          q.nonce,
          age,
          q.text,
          run ∙ r,
          current,
          g,
          whole
              ∙ ap (λ t. packet_type s.common.flags ∷ q.flags ∷ (q.nonce ++ (t ++ q.text))) tag_ok,
          t,
          ip,
          n,
        )
        | restored packet p' tag_bad r w t ip n ↦ inl (packet, p', run ∙ r, w, t ∙ sym whole, ip, n)
      ]

  decided : Refused a now room p s b ⊎ Accepted a now room p s c b
  decided =
      let enough : head_bytes + tag_bytes ≤ b.len = ground arith in
      let q = parts (payload b) (omega (arith, enough, length-payload h.valid)) in
      let (v, e) =
        handle_common_header_lem now s.common q.t q.flags q.nonce (q.tag ++ q.text) h.valid
          q.length_nonce q.whole in
      let found : Option ℤ → Option (List ℕ × ℕ × ℤ) =
        λ o. o >>= (λ age. some (q.nonce, q.flags, age)) in
      let valid = is_nonce_valid now s.common q.nonce in
      elim (Bool-cases (q.t == packet_type s.common.flags)) [
        | inr f ↦ inl (not_opened v (e ∙ ap (λ x. some (if x then found valid else none, v)) f))
        | inl f ↦
            let e' = e ∙ ap (λ x. some (if x then found valid else none, v)) f in
            elim (Option-cases valid) [
              | inl g ↦ inl (not_opened v (e' ∙ ap (λ o. some (found o, v)) g))
              | inr (age, g) ↦
                  opened q v age (e' ∙ ap (λ o. some (found o, v)) g)
                    ((==_iff q.t (packet_type s.common.flags)).0 f) g
            ]
      ]

-- method_decrypt never ends the process, whatever the packet is, and loses no buffer. Either it
-- refuses the packet, and then the input buffer has its payload again, or the session is valid, the
-- nonce not too old, the tag that of the text behind it, and the packet the text without its key
-- stream, or empty if the nonce is a duplicate.
pub poly1305_decrypt-Answered :
    {a : OneTimeAuth} {p : Pool} {b : Buffer} {room : ℕ} (now : ℕ) (s : PolySession)
    → IsAuth a
    → (c : IsStream s.cipher) → CanReceive p room b
    → Refused a now room p s b ⊎ Accepted a now room p s c b
poly1305_decrypt-Answered {a} {p} {b} {room} now s ia c h =
    elim (Bool-cases (ltb b.len (head_bytes + tag_bytes))) [
      | inl short ↦ inl (b, p, decrypt-short a now room p s b short, h.valid, refl, h.pool, refl)
      | inr long ↦ elim (Bool-cases (session_is_valid now s.common)) [
        | inl current ↦ decided now s ia c h long current
        | inr old ↦
            inl (b, p, decrypt-invalid a now room p s b long old, h.valid, refl, h.pool, refl)
      ]
    ]
