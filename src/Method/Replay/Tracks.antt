-- ===== src/Method/Replay/Tracks.antt =====
-- The relation between the bitmap receiver of src/methods/common.c and the receiver that remembers
-- every packet, and the steps of the first.
use fastd.Base.{
  ℕ, suc, ◌+◌, ◌-◌, ◌/◌, ◌%◌, ◌^◌, ◌<◌, ◌≡◌, refl, sym, ◌∙◌, Option, none, some, List, arith, ◌==◌,
  if◌then◌else◌, get_or, Bool, true, false,
}
use fastd.Base.Int.{ℤ, pos, negsuc, sub_ℕ}
use fastd.Base.Bits.{bit, bit_and, bit_or, bit_and-pow}
use fastd.Method.{Session, is_nonce_valid, age_window, reorder_check, reorder_time}
use fastd.Method.Nonce.{IsNonce, value, value-lt}
use fastd.Method.Replay.{receive, Receiver, same_half, mark}
use fastd.Method.Replay.Age.{age-eq-sub}
use fastd.Method.Replay.Window.{bit-moved, bit-marked, mask-bit}

-- The sequence number of a nonce, which both sides count by twos.
abbrev pub sequence : List ℕ → ℕ
sequence n = value n / 2

-- What the bitmap session knows of the receiver's memory.
pub record Tracks (s : Session) (r : Receiver) : Type 0 where
  pub nonce : IsNonce s.receive_nonce
  pub newest : r.newest ≡ sequence s.receive_nonce
  pub deadline : r.deadline ≡ s.reorder_timeout
  pub newest_seen : r.seen r.newest ≡ true
  pub above : (k : ℕ) → r.newest < k → r.seen k ≡ false
  pub bitmap :
      (j : ℕ)
      → j < 64
      → j < r.newest
      → bit s.receive_reorder_seen j ≡ (if r.seen (r.newest - suc j) then 1 else 0)

-- The test of byte 0 tells the two halves of the range apart.
pub half_test :
    (n m : List ℕ)
    → IsNonce n
    → IsNonce m
    → (bit_and (get_or n 0 0) 1 == bit_and (get_or m 0 0) 1) ≡ same_half (sequence n) (sequence m)
half_test n m hn hm = ground (
  arith,
  bit_and-pow (get_or n 0 0) 0,
  bit_and-pow (get_or m 0 0) 0,
  value-lt n hn,
  value-lt m hm,
)

-- The nonce of a packet from the peer: of the parity that the peer uses.
pub record FromPeer (s : Session) (n : List ℕ) : Type 0 where
  pub nonce : IsNonce n
  pub parity : value n % 2 ≡ value s.receive_nonce % 2

-- The age of such a packet, by sequence numbers.
pub valid-age :
    (now : ℕ) (s : Session) (n : List ℕ)
    → IsNonce s.receive_nonce
    → FromPeer s n
    → is_nonce_valid now s n ≡ (
        if same_half (sequence n) (sequence s.receive_nonce)
        then age_window now s (sub_ℕ (sequence s.receive_nonce) (sequence n))
        else none)
unfolding is_nonce_valid
valid-age now s n h p = rw (
  half_test n s.receive_nonce p.nonce h,
  age-eq-sub s.receive_nonce n (omega (arith, h.0, p.nonce.0)) (sym p.parity),
)

-- A packet that is newer than all others.
pub newer :
    (now : ℕ) (s : Session) (r : Receiver) (n : List ℕ) (d : ℕ)
    → Tracks s r
    → FromPeer s n
    → sequence n ≡ r.newest + suc d
    → Tracks (reorder_check now s n (negsuc d)).0 (record r {
      newest = sequence n;
      seen = mark r.seen (sequence n);
      deadline = now + reorder_time;
    })
unfolding reorder_check
newer now s r n d t p e = record {
  nonce = p.nonce;
  newest = refl;
  deadline = refl;
  newest_seen = ground arith;
  above = λ k lt. ground (arith, t.above k);
  bitmap = λ j hj lt.
      bit-moved s.receive_reorder_seen (suc d) j (omega arith) hj
      ∙ ground (arith, t.bitmap (j - suc d), t.newest_seen, t.above (sequence n - suc j));
}

-- A late packet that is accepted.
pub later :
    (now : ℕ) (s : Session) (r : Receiver) (k i : ℕ)
    → Tracks s r
    → i < 64
    → r.newest ≡ k + suc i
    → Tracks
        (record s { receive_reorder_seen = bit_or s.receive_reorder_seen (2 ^ i) })
        (record r { seen = mark r.seen k })
later now s r k i t hi e = record {
  nonce = t.nonce;
  newest = t.newest;
  deadline = t.deadline;
  newest_seen = ground (arith, t.newest_seen);
  above = λ j lt. ground (arith, t.above j);
  bitmap = λ j hj lt. bit-marked s.receive_reorder_seen i j ∙ ground (arith, t.bitmap j);
}

-- Both receivers give one answer, and still agree afterwards.
pub record Agree (p : ℕ) (a : Session × Option Bool) (b : Receiver × Option Bool) : Type 0 where
  pub answer : a.1 ≡ b.1
  pub tracks : Tracks a.0 b.0
  pub parity : value a.0.receive_nonce % 2 ≡ p

pub Agree-same :
    {p : ℕ} (s : Session) (r : Receiver)
    → Tracks s r
    → value s.receive_nonce % 2 ≡ p
    → Agree p (s, none) (r, none)
Agree-same s r t e = record { answer = refl; tracks = t; parity = e }

pub Agree-via :
    {p : ℕ} {a a' : Session × Option Bool} {b b' : Receiver × Option Bool}
    → a ≡ a'
    → b ≡ b'
    → Agree p a' b'
    → Agree p a b
Agree-via e f h = rw (e, f) h

pub receive-none :
    (now : ℕ) (s : Session) (n : List ℕ)
    → is_nonce_valid now s n ≡ none
    → receive now s n ≡ (s, none)
unfolding receive
receive-none now s n e = rw (e, receive)

pub receive-some :
    (now : ℕ) (s : Session) (n : List ℕ) (age : ℤ)
    → is_nonce_valid now s n ≡ some age
    → receive now s n ≡ reorder_check now s n age
unfolding receive
receive-some now s n age e = rw (e, receive)

pub reorder-drop :
    (now : ℕ) (s : Session) (n : List ℕ) (i : ℕ)
    → bit s.receive_reorder_seen i ≡ 1
    → reorder_check now s n (pos (suc i)) ≡ (s, none)
unfolding reorder_check
reorder-drop now s n i e =
    let place : suc i - 1 ≡ i = omega arith in
    rw (place, mask-bit s.receive_reorder_seen i, e) (ground arith)

pub reorder-take :
    (now : ℕ) (s : Session) (n : List ℕ) (i : ℕ)
    → bit s.receive_reorder_seen i ≡ 0
    → reorder_check now s n (pos (suc i))
      ≡ (record s { receive_reorder_seen = bit_or s.receive_reorder_seen (2 ^ i) }, some true)
unfolding reorder_check
reorder-take now s n i e =
    let place : suc i - 1 ≡ i = omega arith in
    rw (place, mask-bit s.receive_reorder_seen i, e) (ground arith)

pub reorder-zero : (now : ℕ) (s : Session) (n : List ℕ) → reorder_check now s n (pos 0) ≡ (s, none)
unfolding reorder_check
reorder-zero now s n = refl
