-- ===== src/Handshake/Packet/Error.antt =====
-- src/handshake.c: the reply that names the field that a node does not accept.
use fastd.Base.{
  ℕ, ◌+◌, ◌*◌, ◌%◌, ◌≤◌, ◌<◌, ◌≡◌, ◌≢◌, refl, ap, ◌∙◌, false, Option, some, ◌>>=◌, [], ◌∷◌, arith,
  ltb, All,
}
use fastd.Util.{alignto}
use fastd.Buffer.{Buffer, pull}
use fastd.Buffer.Payload.{pulled, pull_lem}
use fastd.Buffer.Pool.{Pool, IsPool, alloc}
use fastd.Buffer.PoolLaws.{Fits, alloc-Served}
use fastd.Handshake.Record.{
  record_handshake_type, record_reply_code, record_error_detail, record_flags, record_len,
  packet_size, add, add_uint8, add_uint,
}
use fastd.Handshake.Parse.{parse_tlvs}
use fastd.Handshake.Parse.Loop.{Tlvs, IsSmall}
use fastd.Handshake.Parse.Numbers.{uint_bytes, add_uint-add}
use fastd.Handshake.Packet.{control_size, flag_l2tp_support, start_packet}
use fastd.Handshake.Packet.Build.{add-Built, uint8-add}
use fastd.Handshake.Packet.RoundTrip.{start-Built}
use fastd.Handshake.Packet.Check.{Built-parsed}

-- The packet of `fastd_handshake_send_error`; `type` is that of the handshake that is answered.
unfoldable pub new_error : Pool → ℕ → ℕ → ℕ → Option (Buffer × Pool)
unfolding add_uint8 add_uint
new_error p type reply_code error_detail = do
  (b, p') ← alloc p (control_size + packet_size + 4 * record_len 1) 0
  b ← pull b control_size
  b ← add_uint8 (start_packet b) record_handshake_type (type + 1)
  b ← add_uint8 b record_flags flag_l2tp_support
  b ← add_uint8 b record_reply_code reply_code
  b ← add_uint b record_error_detail error_detail
  some (b, p')

abbrev pub error_records : ℕ → ℕ → ℕ → Tlvs
error_records type reply_code error_detail =
    (record_handshake_type, (type + 1) % 256 ∷ [])
    ∷ (record_flags, flag_l2tp_support ∷ [])
    ∷ (record_reply_code, reply_code % 256 ∷ [])
    ∷ (record_error_detail, error_detail % 256 ∷ [])
    ∷ []

IsSmall-error_records :
    (type reply_code error_detail : ℕ) → All IsSmall (error_records type reply_code error_detail)
IsSmall-error_records type reply_code error_detail = omega arith

detail-add :
    (b : Buffer) (detail : ℕ)
    → detail < 256
    → add_uint b record_error_detail detail ≡ add b record_error_detail (detail % 256 ∷ [])
detail-add b detail small =
    add_uint-add b record_error_detail detail ∙ ap (add b record_error_detail) one_byte
  where
    one_byte : uint_bytes detail ≡ detail % 256 ∷ []
    one_byte =
        let a : ltb 0xffffff detail ≡ false = ground arith in
        let b : ltb 0xffff detail ≡ false = ground arith in
        let c : ltb 0xff detail ≡ false = ground arith in rw (a, b, c) refl

error-Fits : (p : Pool) → 48 ≤ p.max_buffer → Fits p 36 0
unfolding alignto
error-Fits p big = record { no_wrap = omega arith; within = omega (arith, big) }

-- The four writes, one after the other.
new_error-run :
    (p p' : Pool) (b c d1 d2 d3 d : Buffer) (type reply_code error_detail : ℕ)
    → error_detail < 256
    → alloc p 36 0 ≡ some (b, p')
    → pull b control_size ≡ some c
    → add (start_packet c) record_handshake_type ((type + 1) % 256 ∷ []) ≡ some d1
    → add d1 record_flags (flag_l2tp_support ∷ []) ≡ some d2
    → add d2 record_reply_code (reply_code % 256 ∷ []) ≡ some d3
    → add d3 record_error_detail (error_detail % 256 ∷ []) ≡ some d
    → new_error p type reply_code error_detail ≡ some (d, p')
unfolding new_error
new_error-run p p' b c d1 d2 d3 d type reply_code error_detail small e f g1 g2 g3 g4 =
    let h1 = uint8-add (start_packet c) record_handshake_type (type + 1) ∙ g1 in
    let h2 = uint8-add d1 record_flags flag_l2tp_support ∙ g2 in
    let h3 = uint8-add d2 record_reply_code reply_code ∙ g3 in
    let h4 = detail-add d3 error_detail small ∙ g4 in rw (e, f, h1, h2, h3, h4) refl

-- The error that answers a handshake, built from a pool with room, is parsed as a handshake of the
-- next type that has the reply code and names the field, for fields below 256.
pub parse_tlvs-new_error :
    {p : Pool} (type reply_code error_detail : ℕ)
    → IsPool p
    → p.buffers ≢ []
    → 48 ≤ p.max_buffer
    → error_detail < 256
    → (b : Buffer) × (p' : Pool) × (new_error p type reply_code error_detail ≡ some (b, p'))
      × ((parse_tlvs b).records record_handshake_type ≡ some ((type + 1) % 256 ∷ []))
      × ((parse_tlvs b).records record_reply_code ≡ some (reply_code % 256 ∷ []))
      × ((parse_tlvs b).records record_error_detail ≡ some (error_detail % 256 ∷ []))
parse_tlvs-new_error {p} type reply_code error_detail ip ne big small =
    let (b, p', s) = alloc-Served 36 0 ip ne (error-Fits p big) in
    let c = pulled b control_size in
    let start =
      start-Built c 20 (omega (arith, s.head)) (omega (arith, s.space, big)) (omega arith) in
    let (d1, e1, h1) = add-Built 15 record_handshake_type ((type + 1) % 256 ∷ []) start in
    let (d2, e2, h2) = add-Built 10 record_flags (flag_l2tp_support ∷ []) h1 in
    let (d3, e3, h3) = add-Built 5 record_reply_code (reply_code % 256 ∷ []) h2 in
    let (d, e4, h4) = add-Built 0 record_error_detail (error_detail % 256 ∷ []) h3 in
    let rs = error_records type reply_code error_detail in
    let parsed = Built-parsed rs h4 (IsSmall-error_records type reply_code error_detail) in
    let recs = ap (λ h. h.records) parsed in
    (
      d,
      p',
      new_error-run p p' b c d1 d2 d3 d type reply_code error_detail small s.result
          (pull_lem control_size s.valid (omega (arith, s.len_eq))) e1 e2 e3 e4,
      rw recs refl,
      rw recs refl,
      rw recs refl,
    )
