-- ===== src/Gmac.antt =====
-- src/methods/generic_gmac/generic_gmac.c and generic_umac/generic_umac.c: a stream cipher with a MAC
-- over the encrypted blocks. The methods differ in their names and in the key of the MAC only.
pub mod Pad
pub mod Seal
pub mod Open
pub mod Answer
pub mod RoundTrip
pub mod Decrypt
mod Tests
use fastd.Base.{
  ℕ, ◌+◌, ◌-◌, Bool, true, false, not, Option, none, some, ◌>>=◌, List, [], ◌∷◌, ◌++◌, ltb, leb,
  if◌then◌else◌, length, take, drop, replicate,
}
use fastd.Base.Int.{ℤ}
use fastd.Util.{size_sub, ssub_size_t, block_count, block128}
use fastd.Buffer.{Buffer, View, push_zero, pull, zero_pad, get_view}
use fastd.Buffer.Pool.{Pool, alloc, free}
use fastd.Crypto.{Cipher, Mac, block_xor, block_equal, get_blocks, put_blocks, crypt_packet}
use fastd.Handshake.Methods.{Str, str_eq}
use fastd.Method.{
  Session, nonce_bytes, head_bytes, common_init, session_is_valid, session_is_initiator,
  session_want_refresh, session_superseded, put_common_header, handle_common_header, reorder_check,
  expand_nonce,
}
use fastd.Method.Result.{Sent, sealed, failed, Received, received, refused, keep}
use fastd.Poly1305.{common_headroom, with_nonce}

-- The session state of both methods; `mac_key` is what the state of the MAC is made from.
pub record MacSession : Type 0 where
  pub common : Session
  pub cipher : Cipher
  pub secret : List ℕ
  pub mac : Mac
  pub mac_key : List ℕ

-- "-gcm", "ctr", "+gmac", "-ctr+gmac" and "+umac"
abbrev pub gcm_suffix : Str
gcm_suffix = 45 ∷ 103 ∷ 99 ∷ 109 ∷ []

abbrev pub ctr_name : Str
ctr_name = 99 ∷ 116 ∷ 114 ∷ []

abbrev pub gmac_suffix : Str
gmac_suffix = 43 ∷ 103 ∷ 109 ∷ 97 ∷ 99 ∷ []

abbrev pub ctr_gmac_suffix : Str
ctr_gmac_suffix = 45 ∷ 99 ∷ 116 ∷ 114 ∷ gmac_suffix

abbrev pub umac_suffix : Str
umac_suffix = 43 ∷ 117 ∷ 109 ∷ 97 ∷ 99 ∷ []

-- The test of the last characters of a name.
unfoldable pub ends_with : Str → Str → Bool
unfolding str_eq
ends_with name suffix =
    if ltb (length name) (length suffix)
    then false
    else str_eq (drop (length name - length suffix) name) suffix

-- The method that is made: its cipher and its MAC.
abbrev pub with_mac : Option Cipher → Mac → Option (Cipher × Mac)
with_mac none mac = none
with_mac (some c) mac = some (c, mac)

-- "ghash" and "uhash"
abbrev pub ghash_name : Str
ghash_name = 103 ∷ 104 ∷ 97 ∷ 115 ∷ 104 ∷ []

abbrev pub uhash_name : Str
uhash_name = 117 ∷ 104 ∷ 97 ∷ 115 ∷ 104 ∷ []

-- `get_mac` and `get` are `fastd_mac_info_get_by_name` and `fastd_cipher_info_get_by_name`.
unfoldable pub gmac_create_by_name :
    (Str → Option Mac) → (Str → Option Cipher) → Str → Option (Cipher × Mac)
unfolding ends_with with_nonce
gmac_create_by_name get_mac get name = do
  ghash ← get_mac ghash_name
  let len = length name
  (if ends_with name gcm_suffix
      then with_mac (with_nonce (get (take (len - 3) name ++ ctr_name))) ghash
      else if ends_with name gmac_suffix
      then if ends_with name ctr_gmac_suffix
        then none
        else with_mac (with_nonce (get (take (len - 5) name))) ghash
      else none)

unfoldable pub umac_create_by_name :
    (Str → Option Mac) → (Str → Option Cipher) → Str → Option (Cipher × Mac)
unfolding ends_with with_nonce
umac_create_by_name get_mac get name = do
  uhash ← get_mac uhash_name
  (if ends_with name umac_suffix
      then with_mac (with_nonce (get (take (length name - 5) name))) uhash
      else none)

unfoldable pub gmac_key_length : Cipher → ℕ
gmac_key_length c = c.key_length

unfoldable pub umac_key_length : Cipher → Mac → ℕ
umac_key_length c m = c.key_length + m.key_length

-- `none` is NULL.
unfoldable pub gmac_session_init : ℕ → ℕ → Cipher → Mac → List ℕ → ℕ → Option MacSession
unfolding common_init
gmac_session_init now splay c m secret flags = do
  h ← c.crypt secret 0 (replicate block128 0) (replicate c.iv_length 0)
  some (record {
    common = common_init now splay flags;
    cipher = c;
    secret = secret;
    mac = m;
    mac_key = h;
  })

unfoldable pub umac_session_init : ℕ → ℕ → Cipher → Mac → List ℕ → ℕ → MacSession
unfolding common_init
umac_session_init now splay c m secret flags = record {
  common = common_init now splay flags;
  cipher = c;
  secret = secret;
  mac = m;
  mac_key = drop c.key_length secret;
}

unfoldable pub mac_session_is_valid : ℕ → Option MacSession → Bool
unfolding session_is_valid
mac_session_is_valid now none = false
mac_session_is_valid now (some s) = session_is_valid now s.common

unfoldable pub mac_session_is_initiator : MacSession → Bool
unfolding session_is_initiator
mac_session_is_initiator s = session_is_initiator s.common

unfoldable pub mac_session_want_refresh : ℕ → MacSession → Bool
unfolding session_want_refresh
mac_session_want_refresh now s = session_want_refresh now s.common

unfoldable pub mac_session_superseded : ℕ → MacSession → MacSession
unfolding session_superseded
mac_session_superseded now s = record s { common = session_superseded now s.common }

-- What `digest` reads behind the first block.
unfoldable pub get_tail : Buffer → ℕ → Option (List ℕ)
unfolding get_blocks block_count
get_tail b len = do bytes ← get_blocks b (1 + block_count len block128); some (drop block128 bytes)

-- `method_encrypt` behind the call of `digest`.
unfoldable pub mac_tagged :
    Pool → MacSession → Buffer → Buffer → ℕ → Option (List ℕ) → Option (Sent × Pool)
unfolding block_xor put_blocks get_blocks
mac_tagged p s b out flags none = some (failed b, free p out)
mac_tagged p s b out flags (some tag) = do
  first ← get_blocks out 1
  out' ← put_blocks out 1 (block_xor first tag)
  (packet, common) ← put_common_header s.common out' flags
  some (sealed packet common, free p b)

-- `method_encrypt` behind the call of the cipher.
unfoldable pub mac_seal :
    Pool → MacSession → Buffer → Buffer → ℕ → Option Buffer → Option (Sent × Pool)
unfolding mac_tagged get_tail
mac_seal p s b out flags none = some (failed b, free p out)
mac_seal p s b out flags (some filled) = do
  let padded = zero_pad filled
  let len = size_sub padded.len block128
  tail ← get_tail padded len
  mac_tagged p s b padded flags (s.mac.digest s.mac_key 0 tail len)

unfoldable pub mac_encrypt : Pool → MacSession → Buffer → ℕ → Option (Sent × Pool)
unfolding mac_seal
mac_encrypt p s b flags = do
  b' ← push_zero b block128
  (out, p') ← alloc p b'.len common_headroom
  result ←
      crypt_packet s.cipher s.secret 0 b' out (expand_nonce s.common.send_nonce s.cipher.iv_length)
  mac_seal p' s b' out flags result

-- `method_decrypt` behind the call of `digest`.
unfoldable pub mac_compare :
    ℕ
    → Pool
    → MacSession
    → Buffer
    → Buffer
    → List ℕ
    → ℕ
    → ℤ
    → Option (List ℕ)
    → Option (Received × Pool)
unfolding keep block_equal get_blocks
mac_compare now p s b out nonce flags age none = some (refused b, free p out)
mac_compare now p s b out nonce flags age (some tag) =
    let taken : Option (Received × Pool) = (do
      packet ← pull out block128
      let (common, reordered) = reorder_check now s.common nonce age
      some (received (keep reordered packet) common reordered flags, free p b)) in
    do
      first ← get_blocks out 1
      (if block_equal tag first then taken else some (refused b, free p out))

-- `method_decrypt` behind the call of the cipher; `input` is `in_view`.
unfoldable pub mac_verify :
    ℕ
    → Pool
    → MacSession
    → Buffer
    → Buffer
    → Buffer
    → List ℕ
    → ℕ
    → ℤ
    → Option Buffer
    → Option (Received × Pool)
unfolding mac_compare get_tail
mac_verify now p s b input out nonce flags age none = some (refused b, free p out)
mac_verify now p s b input out nonce flags age (some filled) = do
  let len = size_sub input.len block128
  tail ← get_tail input len
  mac_compare now p s b filled nonce flags age (s.mac.digest s.mac_key 0 tail len)

-- The space that a view points into, for reading.
abbrev pub viewed : View → Buffer
viewed v = record { base = v.base; head = v.head; len = v.len }

-- `method_decrypt` behind the header. `room` is `conf.encrypt_headroom`.
unfoldable pub mac_open :
    ℕ → ℕ → Pool → MacSession → Buffer → View → Option (List ℕ × ℕ × ℤ) → Option (Received × Pool)
unfolding mac_verify
mac_open now room p s b v none = some (refused b, p)
mac_open now room p s b v (some (nonce, flags, age)) = do
  (out, p') ← alloc p v.len (ssub_size_t room block128)
  result ← crypt_packet s.cipher s.secret 0 (viewed v) out (expand_nonce nonce s.cipher.iv_length)
  mac_verify now p' s b (viewed v) out nonce flags age result

unfoldable pub mac_decrypt : ℕ → ℕ → Pool → MacSession → Buffer → Option (Received × Pool)
unfolding mac_open mac_session_is_valid
mac_decrypt now room p s b =
    let checked : Option (Received × Pool) = (do
      (header, v) ← handle_common_header now s.common (get_view b)
      mac_open now room p s b v header) in
    if ltb b.len (head_bytes + block128)
    then some (refused b, p)
    else if not (mac_session_is_valid now (some s))
    then some (refused b, p)
    else checked
