-- ===== src/Method/Replay/Parity.antt =====
-- What the nonce check of src/methods/common.c looks at: the lowest bit of byte 0, which is the
-- highest byte of the number, and not the bit that tells the two sides apart.
use fastd.Base.{
  ℕ, ◌+◌, ◌*◌, ◌/◌, ◌%◌, ◌^◌, ◌≤◌, ◌<◌, ◌≡◌, refl, none, some, List, arith, get_or, false, length,
}
use fastd.Base.Int.{negsuc, sub_ℕ, ◌/ℤ◌}
use fastd.Base.Bits.{bit_and, bit_and-pow}
use fastd.Method.{Session, is_nonce_valid, reorder_check}
use fastd.Method.Nonce.{IsNonce, value, value-lt}
use fastd.Method.Replay.{receive}
use fastd.Method.Replay.Age.{nonce_diff-value}
use fastd.Method.Replay.Tracks.{receive-none, receive-some}

low_bit : (n : List ℕ) → IsNonce n → bit_and (get_or n 0 0) 1 ≡ value n / 2 ^ 40 % 2
low_bit n h = omega (arith, bit_and-pow (get_or n 0 0) 0, value-lt n h)

-- A session whose newest nonce is below 2 ^ 40 drops a packet whose nonce is between 2 ^ 40 and
-- 2 ^ 41, and keeps its state.
pub receive-other_half :
    (now : ℕ) (s : Session) (n : List ℕ)
    → IsNonce s.receive_nonce
    → IsNonce n
    → value s.receive_nonce < 2 ^ 40
    → 2 ^ 40 ≤ value n
    → value n < 2 ^ 41
    → receive now s n ≡ (s, none)
receive-other_half now s n hs hn lt lo hi = receive-none now s n dropped
  where
    dropped : is_nonce_valid now s n ≡ none
    dropped = unfold is_nonce_valid in rw (low_bit n hn, low_bit s.receive_nonce hs) (ground arith)

-- A packet whose nonce is an odd number of at least 3 ahead of the newest one, and so has the parity of
-- the wrong side, is accepted as new if bit 40 of both is the same, and its nonce becomes the newest.
pub receive-wrong_parity :
    (now : ℕ) (s : Session) (n : List ℕ) (m : ℕ)
    → IsNonce s.receive_nonce
    → IsNonce n
    → value n ≡ value s.receive_nonce + 3 + 2 * m
    → value n / 2 ^ 40 % 2 ≡ value s.receive_nonce / 2 ^ 40 % 2
    → ((receive now s n).1 ≡ some false) × ((receive now s n).0.receive_nonce ≡ n)
receive-wrong_parity now s n m hs hn e half =
    rw (receive-some now s n (negsuc m) valid) (unfold reorder_check in (refl, refl))
  where
    len : IsNonce n → length s.receive_nonce ≡ length n
    len _ = omega (arith, hs.0, hn.0)

    halved : ◌/ℤ◌ (sub_ℕ (value s.receive_nonce) (value n)) 2 ≡ negsuc m
    halved = unfold ◌/ℤ◌ in ground arith

    valid : is_nonce_valid now s n ≡ some (negsuc m)
    valid =
        unfold is_nonce_valid in
        rw
          (
            low_bit n hn,
            low_bit s.receive_nonce hs,
            nonce_diff-value s.receive_nonce n (len hn),
            halved,
            half,
          )
          (ground arith)
