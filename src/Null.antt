-- ===== src/Null.antt =====
-- src/methods/null/null.c and src/methods/null-l2tp/null-l2tp.c: the methods that do not encrypt.
pub mod RoundTrip
mod Tests
use fastd.Base.{
  ℕ, ◌+◌, ◌*◌, ◌%◌, ◌^◌, Bool, true, false, not, Option, none, some, ◌>>=◌, List, [], ◌∷◌, ◌==◌,
  ltb, if◌then◌else◌, get_or, take,
}
use fastd.Base.Bits.{bit_and}
use fastd.Buffer.{Buffer, push_from, pull, get_view, view_pull_to}
use fastd.Buffer.Pool.{Pool, alloc, free}
use fastd.Handshake.Methods.{Str, str_eq}
use fastd.Method.{session_initiator, has_flag, packet_type}

-- The session state of both methods.
pub record NullSession : Type 0 where
  pub flags : ℕ
  pub valid : Bool

-- "null" and "null@l2tp"
unfoldable pub create_by_name : Str → Bool
unfolding str_eq
create_by_name name = str_eq name (110 ∷ 117 ∷ 108 ∷ 108 ∷ [])

unfoldable pub l2tp_create_by_name : Str → Bool
unfolding str_eq
l2tp_create_by_name name = str_eq name (110 ∷ 117 ∷ 108 ∷ 108 ∷ 64 ∷ 108 ∷ 50 ∷ 116 ∷ 112 ∷ [])

unfoldable pub session_init : ℕ → NullSession
session_init session_flags = record { flags = session_flags; valid = true }

-- `none` is no session.
unfoldable pub null_session_is_valid : Option NullSession → Bool
null_session_is_valid none = false
null_session_is_valid (some s) = s.valid

unfoldable pub null_session_is_initiator : NullSession → Bool
null_session_is_initiator s = has_flag s.flags session_initiator

unfoldable pub null_session_superseded : NullSession → NullSession
null_session_superseded s = record s { valid = false }

-- `none` is the end of the process in all of the following.
unfoldable pub null_encrypt : NullSession → Buffer → Option Buffer
unfolding packet_type
null_encrypt s b = push_from b (packet_type s.flags ∷ [])

-- The result, with the flags.
unfoldable pub null_decrypt : Buffer → Option (Buffer × ℕ)
null_decrypt b = do b' ← pull b 1; some (b', 0)

-- `method_l2tp_header_t` and `fastd_control_packet_t`: PACKET_DATA and PACKET_CONTROL, the L2TP version
-- 3, the session id 1 and the length 12 in network order.
abbrev pub l2tp_header : List ℕ
l2tp_header = 0 ∷ 3 ∷ 0 ∷ 0 ∷ 0 ∷ 0 ∷ 0 ∷ 1 ∷ []

abbrev pub control_header : List ℕ
control_header = 0xc8 ∷ 3 ∷ 0 ∷ 12 ∷ 0 ∷ 0 ∷ 0 ∷ 0 ∷ 0 ∷ 0 ∷ 0 ∷ 0 ∷ []

unfoldable pub l2tp_encrypt : Pool → Buffer → Option (Buffer × Pool)
unfolding alloc free
l2tp_encrypt p b =
    let keepalive : Option (Buffer × Pool) = (do
      (out, p') ← alloc (free p b) 0 20
      out ← push_from out l2tp_header
      out ← push_from out control_header
      some (out, p')) in
    let sent : Option (Buffer × Pool) = (do b' ← push_from b l2tp_header; some (b', p)) in
    if b.len == 0 then keepalive else sent

-- The checks of a header, whose session id has the bytes 4 to 7: the version's mask, PACKET_L2TP_T
-- and `htobe32(1)`.
unfoldable pub l2tp_header_ok : List ℕ → Bool
l2tp_header_ok h =
    if not (bit_and (get_or h 1 0) 15 == 3)
    then false
    else if not (bit_and (get_or h 0 0) 128 == 0)
    then false
    else get_or h 4 0 * 2 ^ 24 + get_or h 5 0 * 2 ^ 16 + get_or h 6 0 * 2 ^ 8 + get_or h 7 0 == 1

-- The inner option is the result, with the flags, or NULL.
unfoldable pub l2tp_decrypt : Buffer → Option (Option (Buffer × ℕ))
unfolding l2tp_header_ok
l2tp_decrypt b =
    let checked : Option (Option (Buffer × ℕ)) = (do
      (header, v) ← view_pull_to (get_view b) 8
      b' ← pull b 8
      some (if l2tp_header_ok header then some (b', 0) else none)) in
    if ltb b.len 8 then some none else checked
