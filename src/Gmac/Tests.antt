-- ===== src/Gmac/Tests.antt =====
-- Runs of the methods of generic_gmac.c and generic_umac.c, and their theorems at concrete packets.
use fastd.Base.{
  ℕ, ◌≡◌, ◌⊎◌, refl, sym, ◌∙◌, true, some, none, List, [], ◌∷◌, ◌++◌, arith, length, replicate,
  if◌then◌else◌,
}
use fastd.Base.Int.{negsuc, ◌+ℤ◌, ◌-ℤ◌, ◌*ℤ◌, ◌/ℤ◌}
use fastd.Buffer.{Buffer, zero_pad}
use fastd.Buffer.Payload.{IsValid, payload}
use fastd.Buffer.Pool.{Pool, IsPool, size_max}
use fastd.Util.{alignto, block_count}
use fastd.Crypto.{Mac, block_xor}
use fastd.Crypto.Stream.{xor_stream}
use fastd.Crypto.Toy.{toy_cipher, toy_cipher-IsStream, toy_sum}
use fastd.Handshake.Methods.{str_eq}
use fastd.Method.{
  Session, packet_type, increment_nonce, reorder_check, session_is_valid, is_nonce_valid,
  nonce_diff,
}
use fastd.Method.Result.{sealed, received, keep}
use fastd.Gmac.{MacSession, mac_encrypt, mac_decrypt, gmac_create_by_name, ends_with, ghash_name}
use fastd.Gmac.Seal.{IsMac, CanSend, packet_stream, body, mac_encrypt-payload}
use fastd.Gmac.Open.{CanReceive}
use fastd.Gmac.RoundTrip.{mac_decrypt-mac_encrypt}
use fastd.Gmac.Decrypt.{Refused, Accepted, mac_decrypt-Answered}
use fastd.Poly1305.{with_nonce}

abbrev toy_value : List ℕ → ℕ → List ℕ → ℕ → List ℕ
toy_value key flags blocks len = replicate 16 (toy_sum (toy_sum len key) blocks)

abbrev toy_mac : Mac
toy_mac = record {
  key_length = 2;
  digest = λ key flags blocks len. some (toy_value key flags blocks len);
}

toy_mac-IsMac : IsMac toy_mac
toy_mac-IsMac = record {
  value = toy_value;
  law = λ key flags blocks len. refl;
  length_value = λ key flags blocks len. refl;
}

abbrev pool : Pool
pool = record {
  max_buffer = 96;
  buffers = (record { base = replicate 96 7; head = 0; len = size_max }) ∷ [];
}

pool-IsPool : IsPool pool
pool-IsPool = record { marked = omega arith; small = omega arith }

-- A packet of three bytes with a headroom of 32.
abbrev three_bytes : Buffer
three_bytes = record { base = replicate 32 9 ++ (5 ∷ 6 ∷ 7 ∷ replicate 61 0); head = 32; len = 3 }

three_bytes-CanSend : CanSend pool three_bytes
three_bytes-CanSend = record {
  pool = pool-IsPool;
  some_free = λ e. cc;
  aligned = record {
    valid = record { inside = omega arith; small = omega arith };
    start = refl;
    space = refl;
    room = omega arith;
  };
  headroom = omega arith;
  space = refl;
  fits = record { no_wrap = omega arith; within = unfold alignto block_count in omega arith };
}

abbrev sender : Session
sender = record {
  flags = 1;
  valid_till = 1000;
  refresh_after = 900;
  send_nonce = 0 ∷ 0 ∷ 0 ∷ 0 ∷ 0 ∷ 3 ∷ [];
  receive_nonce = 0 ∷ 0 ∷ 0 ∷ 0 ∷ 0 ∷ 0 ∷ [];
  reorder_timeout = 0;
  receive_reorder_seen = 0;
}

abbrev receiver : MacSession
receiver = record {
  common = record sender {
    flags = 0;
    send_nonce = 0 ∷ 0 ∷ 0 ∷ 0 ∷ 0 ∷ 2 ∷ [];
    receive_nonce = 0 ∷ 0 ∷ 0 ∷ 0 ∷ 0 ∷ 1 ∷ [];
  };
  cipher = toy_cipher;
  secret = 77 ∷ [];
  mac = toy_mac;
  mac_key = 8 ∷ 9 ∷ [];
}

abbrev sending : MacSession
sending = record receiver { common = sender }

abbrev packet_bytes : List ℕ
packet_bytes =
    packet_type 1
    ∷ 0
    ∷ (sender.send_nonce
        ++ body sending toy_mac-IsMac (packet_stream sending toy_cipher-IsStream sender.send_nonce)
            (payload three_bytes))

three_bytes-sent :
    (packet : Buffer) × (p' : Pool) × (mac_encrypt pool sending three_bytes 0
      ≡ some (sealed packet (record sender { send_nonce = increment_nonce sender.send_nonce }), p'))
    × IsValid packet
    × (payload packet ≡ packet_bytes)
    × IsPool p'
    × (length p'.buffers ≡ length pool.buffers)
three_bytes-sent =
    mac_encrypt-payload sending 0 toy_cipher-IsStream toy_mac-IsMac three_bytes-CanSend refl

-- The packet that was sent, in a buffer of the receiver.
abbrev arrived : Buffer
arrived = record { base = replicate 24 1 ++ (packet_bytes ++ replicate 45 3); head = 24; len = 27 }

arrived-payload : payload arrived ≡ packet_bytes
unfolding packet_type xor_stream block_xor toy_mac-IsMac
arrived-payload = refl

arrived-CanReceive : CanReceive pool 32 arrived
unfolding packet_type xor_stream block_xor toy_mac-IsMac
arrived-CanReceive = record {
  pool = pool-IsPool;
  some_free = λ e. cc;
  pad = record {
    valid = record { inside = omega arith; small = omega arith };
    space = refl;
    room = omega arith;
  };
  start = refl;
  space = refl;
  room_low = omega arith;
  room_high = omega arith;
  room_aligned = refl;
  fits = record { no_wrap = omega arith; within = unfold alignto block_count in omega arith };
}

receiver_valid : session_is_valid 10 receiver.common ≡ true
unfolding session_is_valid
receiver_valid = refl

nonce_accepted : is_nonce_valid 10 receiver.common sender.send_nonce ≡ some (negsuc 0)
unfolding is_nonce_valid nonce_diff ◌+ℤ◌ ◌-ℤ◌ ◌*ℤ◌ ◌/ℤ◌
nonce_accepted = refl

mac_decrypt-mac_encrypt_example :
    (out : Buffer) × (q' : Pool) × (mac_decrypt 10 32 pool receiver (zero_pad arrived)
      ≡ some (
        received
            (keep (reorder_check 10 receiver.common sender.send_nonce (negsuc 0)).1 out)
            (reorder_check 10 receiver.common sender.send_nonce (negsuc 0)).0
            (reorder_check 10 receiver.common sender.send_nonce (negsuc 0)).1
            0,
        q',
      ))
    × IsValid out
    × (payload out ≡ payload three_bytes)
    × IsPool q'
    × (length q'.buffers ≡ length pool.buffers)
mac_decrypt-mac_encrypt_example =
    mac_decrypt-mac_encrypt 10 receiver sender toy_cipher-IsStream toy_mac-IsMac three_bytes-CanSend
      refl (three_bytes-sent).2 arrived-CanReceive (arrived-payload ∙ sym (three_bytes-sent).4)
      types receiver_valid nonce_accepted
  where
    types : packet_type sender.flags ≡ packet_type receiver.common.flags
    types = unfold packet_type in refl

mac_decrypt-Answered_example :
    Refused 10 32 pool receiver (zero_pad arrived)
    ⊎ Accepted 10 32 pool receiver toy_cipher-IsStream toy_mac-IsMac (zero_pad arrived)
mac_decrypt-Answered_example =
    mac_decrypt-Answered 10 receiver toy_cipher-IsStream toy_mac-IsMac arrived-CanReceive

-- "toy-gcm" is the cipher "toy-ctr" with GMAC, in a build that has GHASH.
gcm_name :
    gmac_create_by_name
      (λ n. if str_eq n ghash_name then some toy_mac else none)
      (λ n. if str_eq n (116 ∷ 111 ∷ 121 ∷ 45 ∷ 99 ∷ 116 ∷ 114 ∷ []) then some toy_cipher else none)
      (116 ∷ 111 ∷ 121 ∷ 45 ∷ 103 ∷ 99 ∷ 109 ∷ [])
    ≡ some (toy_cipher, toy_mac)
unfolding gmac_create_by_name ends_with str_eq with_nonce
gcm_name = refl

-- A build without it has no such method.
no_ghash :
    gmac_create_by_name
      (λ n. none)
      (λ n. some toy_cipher)
      (116 ∷ 111 ∷ 121 ∷ 45 ∷ 103 ∷ 99 ∷ 109 ∷ [])
    ≡ none
unfolding gmac_create_by_name
no_ghash = refl
