-- ===== src/Poly1305/Tests.antt =====
-- Runs of the method of generic_poly1305.c, and its theorems at concrete packets.
use fastd.Base.{
  ℕ, ◌≡◌, ◌↔◌, ◌<◌, ◌⊎◌, refl, sym, ◌∙◌, true, none, some, Option, List, [], ◌∷◌, ◌++◌, map, arith,
  length, replicate, if◌then◌else◌,
}
use fastd.Base.Int.{negsuc, ◌+ℤ◌, ◌-ℤ◌, ◌*ℤ◌, ◌/ℤ◌}
use fastd.Buffer.{Buffer}
use fastd.Buffer.Payload.{IsValid, payload}
use fastd.Buffer.Pool.{Pool, IsPool, size_max}
use fastd.Util.{alignto, block_count}
use fastd.Crypto.{Cipher}
use fastd.Crypto.Stream.{xor_stream}
use fastd.Crypto.Toy.{toy_cipher, toy_cipher-IsStream, toy_sum}
use fastd.Handshake.Methods.{Str, str_eq}
use fastd.Handshake.Methods.Strings.{str_eq_iff}
use fastd.Method.{
  Session, nonce_bytes, packet_type, increment_nonce, reorder_check, expand_nonce, session_is_valid,
  is_nonce_valid, nonce_diff,
}
use fastd.Method.Nonce.{sent, Distinct}
use fastd.Method.Result.{sealed, received, keep}
use fastd.Poly1305.{
  OneTimeAuth, PolySession, poly1305_suffix, poly1305_create_by_name, poly1305_encrypt,
  poly1305_decrypt,
}
use fastd.Poly1305.Name.{poly1305_create_by_name_iff, poly1305_ivs-Distinct}
use fastd.Poly1305.Seal.{IsAuth, CanSend, packet_stream, body, poly1305_encrypt-payload}
use fastd.Poly1305.Open.{CanReceive}
use fastd.Poly1305.Decrypt.{Refused, Accepted, poly1305_decrypt-Answered}
use fastd.Poly1305.RoundTrip.{poly1305_decrypt-poly1305_encrypt}

abbrev toy_tag : List ℕ → List ℕ → List ℕ
toy_tag m k = replicate 16 (toy_sum (toy_sum 0 k) m)

abbrev toy_auth : OneTimeAuth
toy_auth = record { auth = toy_tag; verify = λ t m k. str_eq t (toy_tag m k) }

toy_auth-IsAuth : IsAuth toy_auth
toy_auth-IsAuth = record { length_tag = λ m k. refl; accepts = λ t m k. str_eq_iff t (toy_tag m k) }

-- "toy"
abbrev toy_name : Str
toy_name = 116 ∷ 111 ∷ 121 ∷ []

abbrev get_toy : Str → Option Cipher
get_toy name = if str_eq name toy_name then some toy_cipher else none

abbrev pool : Pool
pool = record {
  max_buffer = 96;
  buffers = (record { base = replicate 96 7; head = 0; len = size_max }) ∷ [];
}

pool-IsPool : IsPool pool
pool-IsPool = record { marked = omega arith; small = omega arith }

-- A packet of three bytes with a headroom of 48.
abbrev three_bytes : Buffer
three_bytes = record { base = replicate 48 9 ++ (5 ∷ 6 ∷ 7 ∷ replicate 45 0); head = 48; len = 3 }

three_bytes-CanSend : CanSend pool three_bytes
three_bytes-CanSend = record {
  pool = pool-IsPool;
  some_free = λ e. cc;
  aligned = record {
    valid = record { inside = omega arith; small = omega arith };
    start = refl;
    space = refl;
    room = omega arith;
  };
  headroom = omega arith;
  space = refl;
  fits = record { no_wrap = omega arith; within = unfold alignto block_count in omega arith };
}

abbrev sender : Session
sender = record {
  flags = 1;
  valid_till = 1000;
  refresh_after = 900;
  send_nonce = 0 ∷ 0 ∷ 0 ∷ 0 ∷ 0 ∷ 3 ∷ [];
  receive_nonce = 0 ∷ 0 ∷ 0 ∷ 0 ∷ 0 ∷ 0 ∷ [];
  reorder_timeout = 0;
  receive_reorder_seen = 0;
}

abbrev receiver : PolySession
receiver = record {
  common = record sender {
    flags = 0;
    send_nonce = 0 ∷ 0 ∷ 0 ∷ 0 ∷ 0 ∷ 2 ∷ [];
    receive_nonce = 0 ∷ 0 ∷ 0 ∷ 0 ∷ 0 ∷ 1 ∷ [];
  };
  cipher = toy_cipher;
  secret = 77 ∷ [];
}

abbrev sending : PolySession
sending = record receiver { common = sender }

poly1305_encrypt-payload_example :
    (packet : Buffer) × (p' : Pool) × (poly1305_encrypt toy_auth pool sending three_bytes 0
      ≡ some (sealed packet (record sender { send_nonce = increment_nonce sender.send_nonce }), p'))
    × IsValid packet
    × (payload packet
        ≡ packet_type 1
          ∷ 0
          ∷ (sender.send_nonce
              ++ body toy_auth
                  (packet_stream sending toy_cipher-IsStream sender.send_nonce)
                  (payload three_bytes)))
    × IsPool p'
    × (length p'.buffers ≡ length pool.buffers)
poly1305_encrypt-payload_example =
    poly1305_encrypt-payload sending 0 toy_auth-IsAuth toy_cipher-IsStream three_bytes-CanSend refl

-- The packet that was sent, in a buffer of the receiver.
abbrev packet_bytes : List ℕ
packet_bytes =
    packet_type 1
    ∷ 0
    ∷ (sender.send_nonce
        ++ body toy_auth (packet_stream sending toy_cipher-IsStream sender.send_nonce)
            (payload three_bytes))

abbrev arrived : Buffer
arrived = record { base = replicate 24 1 ++ (packet_bytes ++ replicate 45 0); head = 24; len = 27 }

arrived-payload : payload arrived ≡ packet_bytes
unfolding packet_type xor_stream
arrived-payload = refl

arrived-CanReceive : CanReceive pool 48 arrived
unfolding xor_stream
arrived-CanReceive = record {
  pool = pool-IsPool;
  some_free = λ e. cc;
  valid = record { inside = omega arith; small = omega arith };
  start = refl;
  aligned = refl;
  space = refl;
  room_low = omega arith;
  room_high = omega arith;
  room_aligned = refl;
  fits = record { no_wrap = omega arith; within = unfold alignto block_count in omega arith };
}

receiver_valid : session_is_valid 10 receiver.common ≡ true
unfolding session_is_valid
receiver_valid = refl

nonce_accepted : is_nonce_valid 10 receiver.common sender.send_nonce ≡ some (negsuc 0)
unfolding is_nonce_valid nonce_diff ◌+ℤ◌ ◌-ℤ◌ ◌*ℤ◌ ◌/ℤ◌
nonce_accepted = refl

poly1305_decrypt-poly1305_encrypt_example :
    (out : Buffer) × (q' : Pool) × (poly1305_decrypt toy_auth 10 48 pool receiver arrived
      ≡ some (
        received
            (keep (reorder_check 10 receiver.common sender.send_nonce (negsuc 0)).1 out)
            (reorder_check 10 receiver.common sender.send_nonce (negsuc 0)).0
            (reorder_check 10 receiver.common sender.send_nonce (negsuc 0)).1
            0,
        q',
      ))
    × IsValid out
    × (payload out ≡ payload three_bytes)
    × IsPool q'
    × (length q'.buffers ≡ length pool.buffers)
poly1305_decrypt-poly1305_encrypt_example =
    poly1305_decrypt-poly1305_encrypt 10 receiver sender toy_auth-IsAuth toy_cipher-IsStream
      three_bytes-CanSend refl
      (poly1305_encrypt-payload sending 0 toy_auth-IsAuth toy_cipher-IsStream three_bytes-CanSend
        refl).2
      arrived-CanReceive
      (arrived-payload
        ∙ sym
            (poly1305_encrypt-payload sending 0 toy_auth-IsAuth toy_cipher-IsStream
              three_bytes-CanSend refl).4)
      types receiver_valid nonce_accepted
  where
    types : packet_type sender.flags ≡ packet_type receiver.common.flags
    types = unfold packet_type in refl

poly1305_decrypt-Answered_example :
    Refused toy_auth 10 48 pool receiver arrived
    ⊎ Accepted toy_auth 10 48 pool receiver toy_cipher-IsStream arrived
poly1305_decrypt-Answered_example =
    poly1305_decrypt-Answered 10 receiver toy_auth-IsAuth toy_cipher-IsStream arrived-CanReceive

abbrev full_name : Str
full_name = toy_name ++ poly1305_suffix

toy_created : poly1305_create_by_name get_toy full_name ≡ some toy_cipher
toy_created =
    (poly1305_create_by_name_iff get_toy full_name toy_cipher).1
      (toy_name, refl, found, omega arith)
  where
    found : get_toy toy_name ≡ some toy_cipher
    found = unfold str_eq in refl

poly1305_create_by_name_iff_example :
    (poly1305_create_by_name get_toy full_name ≡ some toy_cipher) ↔ (
      (prefix : Str) × (full_name ≡ prefix ++ poly1305_suffix)
      × (get_toy prefix ≡ some toy_cipher)
      × (nonce_bytes < toy_cipher.iv_length))
poly1305_create_by_name_iff_example = poly1305_create_by_name_iff get_toy full_name toy_cipher

poly1305_ivs-Distinct_example :
    Distinct (map (λ n. expand_nonce n 8) (sent (10 ∷ 11 ∷ 12 ∷ []) sender))
poly1305_ivs-Distinct_example =
    poly1305_ivs-Distinct get_toy full_name (10 ∷ 11 ∷ 12 ∷ []) sending toy_created (omega arith)
