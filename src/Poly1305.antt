-- ===== src/Poly1305.antt =====
-- src/methods/generic_poly1305/generic_poly1305.c: a stream cipher with Poly1305, whose key is the
-- start of the key stream.
pub mod Name
pub mod Seal
pub mod Open
pub mod Decrypt
pub mod RoundTrip
mod Tests
use fastd.Base.{
  ℕ, ◌+◌, ◌-◌, ◌≡◌, ◌↔◌, Bool, true, false, not, Option, none, some, ◌>>=◌, List, [], ◌∷◌, ltb, leb,
  if◌then◌else◌, length, take, drop,
}
use fastd.Base.Int.{ℤ}
use fastd.Util.{ssub_size_t, alignto, block128}
use fastd.Buffer.{Buffer, push_zero, push_from, pull, pull_to, get_view}
use fastd.Buffer.Pool.{Pool, alloc, free}
use fastd.Crypto.{Cipher, crypt_packet}
use fastd.Handshake.Methods.{Str, str_eq}
use fastd.Method.{
  Session, nonce_bytes, head_bytes, common_init, session_is_valid, session_is_initiator,
  session_want_refresh, session_superseded, put_common_header, put_common_header_raw,
  handle_common_header, reorder_check, expand_nonce,
}
use fastd.Method.Result.{Sent, sealed, failed, Received, received, refused, keep}

-- crypto_onetimeauth_poly1305_KEYBYTES, crypto_onetimeauth_poly1305_BYTES and COMMON_HEADROOM.
abbrev pub key_bytes : ℕ
key_bytes = 32

abbrev pub tag_bytes : ℕ
tag_bytes = 16

abbrev pub common_headroom : ℕ
common_headroom = 16

-- crypto_onetimeauth_poly1305 and crypto_onetimeauth_poly1305_verify of libsodium, by the message and
-- the key.
pub record OneTimeAuth : Type 0 where
  pub auth : List ℕ → List ℕ → List ℕ
  pub verify : List ℕ → List ℕ → List ℕ → Bool

pub record PolySession : Type 0 where
  pub common : Session
  pub cipher : Cipher
  pub secret : List ℕ

-- "+poly1305"
abbrev pub poly1305_suffix : Str
poly1305_suffix = 43 ∷ 112 ∷ 111 ∷ 108 ∷ 121 ∷ 49 ∷ 51 ∷ 48 ∷ 53 ∷ []

-- A cipher whose IV has room for the nonce.
unfoldable pub with_nonce : Option Cipher → Option Cipher
with_nonce none = none
with_nonce (some c) = if leb c.iv_length nonce_bytes then none else some c

-- `get` is `fastd_cipher_info_get_by_name`.
unfoldable pub poly1305_create_by_name : (Str → Option Cipher) → Str → Option Cipher
unfolding with_nonce str_eq
poly1305_create_by_name get name =
    let len = length name in
    if ltb len 9
    then none
    else if not (str_eq (drop (len - 9) name) poly1305_suffix)
    then none
    else with_nonce (get (take (len - 9) name))

unfoldable pub poly1305_key_length : Cipher → ℕ
poly1305_key_length c = c.key_length

unfoldable pub poly1305_session_init : ℕ → ℕ → Cipher → List ℕ → ℕ → PolySession
unfolding common_init
poly1305_session_init now splay c secret flags = record {
  common = common_init now splay flags;
  cipher = c;
  secret = secret;
}

unfoldable pub poly1305_session_is_valid : ℕ → Option PolySession → Bool
unfolding session_is_valid
poly1305_session_is_valid now none = false
poly1305_session_is_valid now (some s) = session_is_valid now s.common

unfoldable pub poly1305_session_is_initiator : PolySession → Bool
unfolding session_is_initiator
poly1305_session_is_initiator s = session_is_initiator s.common

unfoldable pub poly1305_session_want_refresh : ℕ → PolySession → Bool
unfolding session_want_refresh
poly1305_session_want_refresh now s = session_want_refresh now s.common

unfoldable pub poly1305_session_superseded : ℕ → PolySession → PolySession
unfolding session_superseded
poly1305_session_superseded now s = record s { common = session_superseded now s.common }

-- `method_encrypt` behind the call of the cipher.
unfoldable pub poly1305_seal :
    OneTimeAuth → Pool → PolySession → Buffer → Buffer → ℕ → Option Buffer → Option (Sent × Pool)
poly1305_seal a p s b out flags none = some (failed b, free p out)
poly1305_seal a p s b out flags (some filled) = do
  let key = take key_bytes (drop filled.head filled.base)
  cut ← pull filled key_bytes
  tagged ← push_from cut (a.auth (take cut.len (drop cut.head cut.base)) key)
  (packet, common) ← put_common_header s.common tagged flags
  some (sealed packet common, free p b)

unfoldable pub poly1305_encrypt :
    OneTimeAuth → Pool → PolySession → Buffer → ℕ → Option (Sent × Pool)
unfolding poly1305_seal
poly1305_encrypt a p s b flags = do
  b' ← push_zero b key_bytes
  (out, p') ← alloc p b'.len common_headroom
  result ←
      crypt_packet s.cipher s.secret 0 b' out (expand_nonce s.common.send_nonce s.cipher.iv_length)
  poly1305_seal a p' s b' out flags result

-- The label `fail` of `method_decrypt`, which restores the input buffer.
unfoldable pub poly1305_restore :
    Pool → PolySession → Buffer → Buffer → List ℕ → List ℕ → ℕ → Option (Received × Pool)
poly1305_restore p s b out tag nonce flags = do
  tagged ← push_from b tag
  packet ← put_common_header_raw tagged nonce flags s.common.flags
  some (refused packet, free p out)

-- `method_decrypt` behind the call of the cipher.
unfoldable pub poly1305_verify :
    OneTimeAuth
    → ℕ
    → Pool
    → PolySession
    → Buffer
    → Buffer
    → List ℕ
    → List ℕ
    → ℕ
    → ℤ
    → Option Buffer
    → Option (Received × Pool)
unfolding poly1305_restore keep
poly1305_verify a now p s b out tag nonce flags age none =
    poly1305_restore p s b out tag nonce flags
poly1305_verify a now p s b out tag nonce flags age (some filled) =
    let taken : Option (Received × Pool) = (do
      packet ← pull filled key_bytes
      let (common, reordered) = reorder_check now s.common nonce age
      some (received (keep reordered packet) common reordered flags, free p b)) in
    let restored = poly1305_restore p s b filled tag nonce flags in
    if a.verify tag (take b.len (drop b.head b.base))
      (take key_bytes (drop filled.head filled.base))
    then taken
    else restored

-- `method_decrypt` behind the header; `none` is a header that is not accepted. `room` is
-- `conf.encrypt_headroom`.
unfoldable pub poly1305_open :
    OneTimeAuth
    → ℕ
    → ℕ
    → Pool
    → PolySession
    → Buffer
    → Option (List ℕ × ℕ × ℤ)
    → Option (Received × Pool)
unfolding poly1305_verify
poly1305_open a now room p s b none = some (refused b, p)
poly1305_open a now room p s b (some (nonce, flags, age)) = do
  b1 ← pull b head_bytes
  (tag, b2) ← pull_to b1 tag_bytes
  b3 ← push_zero b2 key_bytes
  (out, p') ← alloc p b3.len (ssub_size_t room key_bytes)
  result ← crypt_packet s.cipher s.secret 0 b3 out (expand_nonce nonce s.cipher.iv_length)
  b4 ← pull b3 key_bytes
  poly1305_verify a now p' s b4 out tag nonce flags age result

unfoldable pub poly1305_decrypt :
    OneTimeAuth → ℕ → ℕ → Pool → PolySession → Buffer → Option (Received × Pool)
unfolding poly1305_open poly1305_session_is_valid
poly1305_decrypt a now room p s b =
    let checked : Option (Received × Pool) = (do
      (header, v) ← handle_common_header now s.common (get_view b)
      poly1305_open a now room p s b header) in
    if ltb b.len (head_bytes + tag_bytes)
    then some (refused b, p)
    else if not (poly1305_session_is_valid now (some s))
    then some (refused b, p)
    else checked
