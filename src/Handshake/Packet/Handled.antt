-- ===== src/Handshake/Packet/Handled.antt =====
-- src/handshake.c: what a receiver makes of the handshakes that another node has built.
use fastd.Base.{
  ℕ, ◌%◌, ◌^◌, ◌≤◌, ◌<◌, ◌≡◌, ◌≢◌, ◌↔◌, refl, ap, ap₂, ◌∙◌, true, Option, none, some, List, [], ◌∷◌,
  ◌++◌, arith, length, All, All-append, ltb, Bool-cases, inl, inr,
}
use fastd.Buffer.{Buffer}
use fastd.Buffer.Pool.{Pool, IsPool}
use fastd.Handshake.Record.{record_handshake_type, record_reply_code, record_flags, add_uint8}
use fastd.Handshake.Parse.{
  Handshake, Records, no_records, no_handshake, record_length, parse_tlvs, as_uint8,
}
use fastd.Handshake.Parse.Loop.{Tlvs, encode, IsSmall, stored}
use fastd.Handshake.Methods.{Str}
use fastd.Handshake.Methods.Strings.{NoNul}
use fastd.Handshake.Packet.{
  Config, Verdict, accept, max_handshake_size, flag_l2tp_support, new_handshake, handshake_new_init,
  handshake_new_reply, check_reply, check_records, typed, judge, value_of, flags_of, handle_parsed,
  handshake_handle,
}
use fastd.Handshake.Packet.Build.{Built, add-Built, uint8-add}
use fastd.Handshake.Packet.Records.{handshake_records}
use fastd.Handshake.Packet.Fields.{Says, handshake_records-Says, stored-append}
use fastd.Handshake.Packet.RoundTrip.{total_space, new_handshake-Made}
use fastd.Handshake.Packet.Check.{Built-parsed, IsSmall-records, taken, Compatible, records-pass}

handle_parsed-run :
    (c' : Config) (recs : Records) (tlv : List ℕ) (type flags : ℕ)
    → recs record_handshake_type ≡ some (type ∷ [])
    → recs record_flags ≡ some (flags ∷ [])
    → let h : Handshake = record { type = type; flags = flags; records = recs; tlv = some tlv } in
      handle_parsed c' true (record no_handshake { records = recs; tlv = some tlv })
      ≡ some (h, check_records c' h)
unfolding handle_parsed as_uint8
handle_parsed-run c' recs tlv type flags t f =
    let len = ap record_length t in
    let same : typed (record no_handshake { records = recs; tlv = some tlv })
        ≡ record { type = type; flags = flags; records = recs; tlv = some tlv } =
      ap₂
        (λ o q.
          let h : Handshake = record {
            type = value_of o;
            flags = flags_of q;
            records = recs;
            tlv = some tlv;
          } in
          h)
        t f in
    rw len (ap (judge c' true) same)

handshake_handle-run :
    (c' : Config) (b : Buffer) (recs : Records) (tlv : List ℕ) (type flags : ℕ)
    → parse_tlvs b ≡ record no_handshake { records = recs; tlv = some tlv }
    → recs record_handshake_type ≡ some (type ∷ [])
    → recs record_flags ≡ some (flags ∷ [])
    → let h : Handshake = record { type = type; flags = flags; records = recs; tlv = some tlv } in
      handshake_handle c' b true ≡ some (h, check_records c' h)
unfolding handshake_handle
handshake_handle-run c' b recs tlv type flags e t f =
    ap (handle_parsed c' true) e ∙ handle_parsed-run c' recs tlv type flags t f

-- What a node makes of a packet that another one has built.
taken_lem :
    {b : Buffer} {room : ℕ} (c c' : Config) (type mtu : ℕ) (rs : Tlvs)
    → Built b rs room
    → All IsSmall rs
    → Says c type mtu (stored no_records rs)
    → type < 256
    → handshake_handle c' b true ≡ some (taken type rs, check_records c' (taken type rs))
taken_lem {b} c c' type mtu rs h small says byte =
    let id : type % 256 ≡ type = omega (arith, byte) in
    let t : stored no_records rs record_handshake_type ≡ some (type ∷ []) =
      says.type_is ∙ ap (λ n. some (n ∷ [])) id in
    handshake_handle-run c' b (stored no_records rs) (encode rs) type flag_l2tp_support
      (Built-parsed rs h small) t says.flags_are

-- The first handshake of a node, built from a pool with room whenever its records fit and received
-- behind a control header, is handled by any other node as a handshake of type 1, and passes the
-- receiver's checks exactly if both nodes have the same protocol name and the same mode id. (Names
-- hold no NUL.)
pub handshake_handle-new_init :
    {p : Pool} (c c' : Config) (tail_space : ℕ)
    → NoNul c.protocol_name
    → NoNul c'.protocol_name
    → IsPool p
    → p.buffers ≢ []
    → max_handshake_size ≤ p.max_buffer
    → total_space c 0 none [] tail_space ≤ max_handshake_size
    → (b : Buffer) × (p' : Pool) × (h : Handshake) × (v : Verdict) × (handshake_new_init c p
          tail_space
        ≡ some (some (b, p')))
      × (handshake_handle c' b true ≡ some (h, v))
      × (h.type ≡ 1)
      × ((v ≡ accept) ↔ Compatible c c')
handshake_handle-new_init c c' tail_space mine theirs ip ne big small =
    let (b, p', e, made) = new_handshake-Made c 1 0 none [] tail_space ip ne big small in
    let rs = handshake_records c 1 0 none [] in
    let bytes : length (encode rs) < 2 ^ 16 = omega (arith, made.built.bounded) in
    let says = handshake_records-Says c 1 0 none [] in
    let first : check_reply (taken 1 rs) ≡ accept = unfold check_reply in refl in
    let handled =
      taken_lem c c' 1 0 rs made.built (IsSmall-records c 1 0 none [] bytes) says (omega arith) in
    (
      b,
      p',
      taken 1 rs,
      check_records c' (taken 1 rs),
      (unfold handshake_new_init in e),
      handled,
      refl,
      records-pass c c' 1 0 (taken 1 rs) says refl mine theirs first,
    )

-- The reply code behind the records of a handshake.
Says-reply :
    {c : Config} {type mtu : ℕ} (rs : Tlvs)
    → Says c type mtu (stored no_records rs)
    → Says c type mtu (stored no_records (rs ++ ((record_reply_code, 0 ∷ []) ∷ [])))
Says-reply rs s =
    let e = stored-append no_records rs ((record_reply_code, 0 ∷ []) ∷ []) in
    rw e record {
      type_is = s.type_is;
      flags_are = s.flags_are;
      mode_is = s.mode_is;
      mtu_is = s.mtu_is;
      version_is = s.version_is;
      protocol_is = s.protocol_is;
    }

check_reply-reply :
    (type : ℕ) (rs : Tlvs)
    → check_reply (taken type (rs ++ ((record_reply_code, 0 ∷ []) ∷ []))) ≡ accept
unfolding check_reply as_uint8
check_reply-reply type rs =
    let e = stored-append no_records rs ((record_reply_code, 0 ∷ []) ∷ []) in
    elim (Bool-cases (ltb 1 type)) [ inl t ↦ rw (t, e) refl | inr t ↦ rw t refl ]

new_reply-run :
    (p p' : Pool) (b d : Buffer) (c : Config) (type mtu : ℕ) (method : Option Str)
    (methods : List Str) (tail_space : ℕ)
    → new_handshake c p type mtu method methods tail_space ≡ some (some (b, p'))
    → add_uint8 b record_reply_code 0 ≡ some d
    → handshake_new_reply c p type mtu method methods tail_space ≡ some (some (d, p'))
unfolding handshake_new_reply
new_reply-run p p' b d c type mtu method methods tail_space e f = rw (e, f) refl

-- A reply, or the third packet, that a node builds from a pool with room whenever its records fit,
-- and that is received behind a control header, is handled by any other node with its type, and
-- passes the receiver's checks exactly if both nodes have the same protocol name and the same mode
-- id. (Names hold no NUL.)
pub handshake_handle-new_reply :
    {p : Pool} (c c' : Config) (type mtu : ℕ) (method : Option Str) (methods : List Str)
    (tail_space : ℕ)
    → type < 256
    → NoNul c.protocol_name
    → NoNul c'.protocol_name
    → IsPool p
    → p.buffers ≢ []
    → max_handshake_size ≤ p.max_buffer
    → total_space c mtu method methods tail_space ≤ max_handshake_size
    → (b : Buffer) × (p' : Pool) × (h : Handshake) × (v : Verdict) × (handshake_new_reply c p type
          mtu method methods tail_space
        ≡ some (some (b, p')))
      × (handshake_handle c' b true ≡ some (h, v))
      × (h.type ≡ type)
      × ((v ≡ accept) ↔ Compatible c c')
handshake_handle-new_reply {p} c c' type mtu method methods tail_space byte mine theirs ip ne big
      small =
    let (b, p', e, made) =
      new_handshake-Made c type mtu method methods tail_space ip ne big small in
    let rs = handshake_records c type mtu method methods in
    let reply : Tlvs = (record_reply_code, 0 ∷ []) ∷ [] in
    let (d, f, built) = add-Built tail_space record_reply_code (0 ∷ []) made.built in
    let bytes : length (encode rs) < 2 ^ 16 = omega (arith, made.built.bounded) in
    let all_small =
      All-append IsSmall rs reply (IsSmall-records c type mtu method methods bytes)
        ((omega arith, omega arith), tt) in
    let says = Says-reply rs (handshake_records-Says c type mtu method methods) in
    (
      d,
      p',
      taken type (rs ++ reply),
      check_records c' (taken type (rs ++ reply)),
      new_reply-run p p' b d c type mtu method methods tail_space e
          (uint8-add b record_reply_code 0 ∙ f),
      taken_lem c c' type mtu (rs ++ reply) built all_small says byte,
      refl,
      records-pass c c' type mtu (taken type (rs ++ reply)) says refl mine theirs
          (check_reply-reply type rs),
    )
