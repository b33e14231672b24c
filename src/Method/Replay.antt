-- ===== src/Method/Replay.antt =====
-- Replay protection: the nonce check and the reorder bitmap of src/methods/common.c against a
-- receiver that remembers every packet.
pub mod Age
pub mod Window
pub mod Tracks
pub mod Steps
pub mod Refine
pub mod Fresh
pub mod Parity
pub mod Stall
use fastd.Base.{
  ℕ, ◌+◌, ◌-◌, ◌/◌, ◌%◌, ◌^◌, ◌<◌, Bool, true, false, Option, none, some, List, [], ◌∷◌,
  if◌then◌else◌, ltb, leb, ◌==◌,
}
use fastd.Method.{Session, is_nonce_valid, reorder_check, reorder_time, timed_out}

-- What the methods do with the nonce of an authentic packet: the check of the common header, and
-- after the packet is verified the reorder check.
unfoldable pub receive : ℕ → Session → List ℕ → Session × Option Bool
receive now s nonce = elim (is_nonce_valid now s nonce) [
  | none ↦ (s, none)
  | some age ↦ reorder_check now s nonce age
]

-- The packets of a session in their order of arrival, with the time of each.
abbrev pub Packets : Type 0
Packets = List (ℕ × List ℕ)

-- The answer to each packet.
unfoldable pub answers : Session → Packets → List (Option Bool)
answers s [] = []
answers s ((now, nonce) ∷ ps) = let (s', answer) = receive now s nonce in answer ∷ answers s' ps

abbrev pub keep : Option Bool → List ℕ → List (List ℕ) → List (List ℕ)
keep none nonce rest = rest
keep (some _) nonce rest = nonce ∷ rest

-- The nonces of the packets that are accepted.
unfoldable pub accepted_nonces : Session → Packets → List (List ℕ)
accepted_nonces s [] = []
accepted_nonces s ((now, nonce) ∷ ps) =
    let (s', answer) = receive now s nonce in keep answer nonce (accepted_nonces s' ps)

-- The abstract receiver: it knows the newest sequence number, all that it accepted, and the time
-- until which older packets may come.
pub record Receiver : Type 0 where
  pub newest : ℕ
  pub seen : ℕ → Bool
  pub deadline : ℕ

-- The sequence numbers of both halves of the range that byte 0 of the nonce tells apart.
abbrev pub same_half : ℕ → ℕ → Bool
same_half k m = k / 2 ^ 39 % 2 == m / 2 ^ 39 % 2

abbrev pub mark : (ℕ → Bool) → ℕ → ℕ → Bool
mark seen k j = if j == k then true else seen j

-- Packets of the other half than the newest one are dropped. In the same half newer packets are
-- accepted, and late ones if they are new, at most 64 behind and in time.
unfoldable pub decide : ℕ → Receiver → ℕ → Receiver × Option Bool
decide now r k =
    if same_half k r.newest
    then if ltb r.newest k
      then (
        record r { newest = k; seen = mark r.seen k; deadline = now + reorder_time },
        some false,
      )
      else if timed_out now r.deadline
      then (r, none)
      else if ltb 64 (r.newest - k)
      then (r, none)
      else if r.seen k
      then (r, none)
      else (record r { seen = mark r.seen k }, some true)
    else (r, none)

unfoldable pub decisions : Receiver → List (ℕ × ℕ) → List (Option Bool)
decisions r [] = []
decisions r ((now, k) ∷ ps) = let (r', answer) = decide now r k in answer ∷ decisions r' ps

-- The receiver that fits a new session: no packet yet, and the number 0 is not to be used.
abbrev pub fresh_receiver : Receiver
fresh_receiver = record { newest = 0; seen = λ k. k == 0; deadline = 0 }
