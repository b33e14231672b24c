-- ===== src/Method.antt =====
-- src/methods/common.h and common.c: the session state and the packet header that the payload
-- methods share, with the counters that protect a session against replayed packets.
pub mod Nonce
pub mod Iv
pub mod Replay
pub mod Header
pub mod Result
mod Tests
use fastd.Base.{
  ℕ, zero, suc, ◌+◌, ◌-◌, ◌*◌, ◌%◌, ◌^◌, Bool, true, false, not, ◌&&◌, ◌||◌, Option, none, some,
  ◌>>=◌, List, [], ◌∷◌, if◌then◌else◌, ltb, leb, ◌==◌, get_or, set, take, replicate, write,
}
use fastd.Base.Int.{ℤ, pos, negsuc, ◌+ℤ◌, ◌-ℤ◌, ◌*ℤ◌, ◌/ℤ◌}
use fastd.Base.Bits.{bit_and, bit_or}
use fastd.Util.{min_size_t}
use fastd.Buffer.{Buffer, View, push_from, view_pull_to}

-- COMMON_NONCEBYTES, and the times of build.h.in in milliseconds.
abbrev pub nonce_bytes : ℕ
nonce_bytes = 6

abbrev pub head_bytes : ℕ
head_bytes = 2 + nonce_bytes

abbrev pub key_valid : ℕ
key_valid = 3600000

abbrev pub key_valid_old : ℕ
key_valid_old = 60000

abbrev pub key_refresh : ℕ
key_refresh = 3300000

abbrev pub reorder_time : ℕ
reorder_time = 10000

-- FASTD_SESSION_INITIATOR and FASTD_SESSION_COMPAT of types.h, and the packet types.
abbrev pub session_initiator : ℕ
session_initiator = 1

abbrev pub session_compat : ℕ
session_compat = 2

abbrev pub packet_data : ℕ
packet_data = 0

abbrev pub packet_data_compat : ℕ
packet_data_compat = 2

-- A flag of a bit set, as a test of C reads it.
abbrev pub has_flag : ℕ → ℕ → Bool
has_flag flags flag = not (bit_and flags flag == 0)

-- `fastd_timed_out`; `now` is `ctx.now`, which is not negative.
abbrev pub timed_out : ℕ → ℕ → Bool
timed_out now timeout = leb timeout now

-- `fastd_method_common_t` without the peer, which is only printed.
pub record Session : Type 0 where
  pub flags : ℕ
  pub valid_till : ℕ
  pub refresh_after : ℕ
  pub send_nonce : List ℕ
  pub receive_nonce : List ℕ
  pub reorder_timeout : ℕ
  pub receive_reorder_seen : ℕ

-- `splay` is what `fastd_rand(0, KEY_REFRESH_SPLAY)` returns.
unfoldable pub common_init : ℕ → ℕ → ℕ → Session
common_init now splay flags =
    let zeroes = replicate nonce_bytes 0 in
    let blank : Session = record {
      flags = flags;
      valid_till = now + key_valid;
      refresh_after = now + key_refresh - splay;
      send_nonce = zeroes;
      receive_nonce = zeroes;
      reorder_timeout = 0;
      receive_reorder_seen = 0;
    } in
    if has_flag flags session_initiator
    then record blank { send_nonce = set zeroes 5 3 }
    else record blank { send_nonce = set zeroes 5 2; receive_nonce = set zeroes 5 1 }

-- The loop over both nonces that sums up their difference.
unfoldable pub nonce_diff : ℤ → List ℕ → List ℕ → ℤ
nonce_diff age (r ∷ rs) (n ∷ ns) = nonce_diff (age *ℤ pos 256 +ℤ (pos r -ℤ pos n)) rs ns
nonce_diff age _ _ = age

-- The second half of `is_nonce_valid`: `age` is signed, and negative for a new nonce.
unfoldable pub age_window : ℕ → Session → ℤ → Option ℤ
age_window now s (pos age) =
    if timed_out now s.reorder_timeout then none else if ltb 64 age then none else some (pos age)
age_window now s (negsuc n) = some (negsuc n)

-- `some age` is the result true with `*age` set. On false the callers do not read the age.
unfoldable pub is_nonce_valid : ℕ → Session → List ℕ → Option ℤ
unfolding age_window
is_nonce_valid now s nonce =
    if bit_and (get_or nonce 0 0) 1 == bit_and (get_or s.receive_nonce 0 0) 1
    then age_window now s (◌/ℤ◌ (nonce_diff (pos 0) s.receive_nonce nonce) 2)
    else none

-- `fastd_tristate_t`: `none` is undef (drop), `some true` a reordered packet.
-- `is_nonce_valid` keeps a positive age at 64 at most, so that the shift by `age - 1` is in range.
unfoldable pub reorder_check : ℕ → Session → List ℕ → ℤ → Session × Option Bool
reorder_check now s nonce (negsuc n) =
    let shift = suc n in
    let shifted = if leb 64 shift then 0 else s.receive_reorder_seen * 2 ^ shift % 2 ^ 64 in
    let seen = if leb shift 64 then bit_or shifted (2 ^ (shift - 1)) else shifted in
    (
      record s {
        receive_reorder_seen = seen;
        receive_nonce = nonce;
        reorder_timeout = now + reorder_time;
      },
      some false,
    )
reorder_check now s nonce (pos age) =
    if age == 0 || not (bit_and s.receive_reorder_seen (2 ^ (age - 1)) == 0) then (s, none) else (
      record s { receive_reorder_seen = bit_or s.receive_reorder_seen (2 ^ (age - 1)) },
      some true,
    )

unfoldable pub session_is_valid : ℕ → Session → Bool
session_is_valid now s =
    if get_or s.send_nonce 0 0 == 255 && get_or s.send_nonce 1 0 == 255
    then false
    else not (timed_out now s.valid_till)

unfoldable pub session_is_initiator : Session → Bool
session_is_initiator s = has_flag s.flags session_initiator

unfoldable pub session_want_refresh : ℕ → Session → Bool
unfolding session_is_initiator
session_want_refresh now s =
    if get_or s.send_nonce 0 0 == 255
    then true
    else if session_is_initiator s && timed_out now s.refresh_after
    then true
    else false

unfoldable pub session_superseded : ℕ → Session → Session
session_superseded now s =
    let valid_max = now + key_valid_old in
    if ltb valid_max s.valid_till then record s { valid_till = valid_max } else s

-- `for (i = n - 1; i >= 0; i--) if (++nonce[i]) break;`
unfoldable pub carry : ℕ → List ℕ → List ℕ
carry zero nonce = nonce
carry (suc i) nonce =
    let b = (get_or nonce i 0 + 1) % 256 in
    let nonce' = set nonce i b in let rest = carry i nonce' in if b == 0 then rest else nonce'

-- The carry starts if all bits of the last byte but the lowest are 0.
unfoldable pub increment_nonce : List ℕ → List ℕ
unfolding carry
increment_nonce nonce =
    let b = (get_or nonce 5 0 + 2) % 256 in
    let nonce' = set nonce 5 b in
    let rest = carry 5 nonce' in if bit_and b 254 == 0 then rest else nonce'

unfoldable pub packet_type : ℕ → ℕ
packet_type flags = if has_flag flags session_compat then packet_data_compat else packet_data

unfoldable pub put_common_header_raw : Buffer → List ℕ → ℕ → ℕ → Option Buffer
unfolding packet_type
put_common_header_raw b nonce flags session_flags = do
  b1 ← push_from b (take nonce_bytes nonce)
  b2 ← push_from b1 (flags ∷ [])
  push_from b2 (packet_type session_flags ∷ [])

unfoldable pub put_common_header : Session → Buffer → ℕ → Option (Buffer × Session)
unfolding put_common_header_raw increment_nonce
put_common_header s b flags = do
  b' ← put_common_header_raw b s.send_nonce flags s.flags
  some (b', record s { send_nonce = increment_nonce s.send_nonce })

-- The fields in the order of the header: packet type, flags, nonce.
unfoldable pub take_common_header : View → Option (ℕ × ℕ × List ℕ × View)
take_common_header v = do
  (t, v1) ← view_pull_to v 1
  (f, v2) ← view_pull_to v1 1
  (n, v3) ← view_pull_to v2 nonce_bytes
  some (get_or t 0 0, get_or f 0 0, n, v3)

-- The outer option is the end of the process; the inner one is the result false.
unfoldable pub handle_common_header : ℕ → Session → View → Option (Option (List ℕ × ℕ × ℤ) × View)
unfolding take_common_header packet_type
handle_common_header now s v = do
  (t, f, nonce, v') ← take_common_header v
  some (
    (if t == packet_type s.flags
        then is_nonce_valid now s nonce >>= (λ age. some (nonce, f, age))
        else none),
    v',
  )

unfoldable pub expand_nonce : List ℕ → ℕ → List ℕ
unfolding min_size_t
expand_nonce nonce zero = []
expand_nonce nonce (suc len) =
    set (write (replicate (suc len) 0) 0 (take (min_size_t (suc len) nonce_bytes) nonce)) len 1
