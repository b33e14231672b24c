-- ===== src/Method/Nonce.antt =====
-- The send nonce of src/methods/common.h as a 48-bit counter.
use fastd.Base.{
  ℕ, ◌+◌, ◌*◌, ◌/◌, ◌%◌, ◌^◌, ◌<◌, ◌≡◌, ◌≢◌, refl, ap, ◌∙◌, List, [], ◌∷◌, arith, length, All,
  if◌then◌else◌, get_or, true, Bool-cases, inl, inr,
}
use fastd.Base.Bits.{bit_and, agree_below, agree_below_sound}
use fastd.Method.{Session, nonce_bytes, increment_nonce, session_is_valid}

abbrev pub IsByte : ℕ → Type 0
IsByte b = b < 256

-- A nonce of the right length, made of bytes.
abbrev pub IsNonce : List ℕ → Type 0
IsNonce n = (length n ≡ nonce_bytes) × All IsByte n

-- The number that a nonce stands for, its first byte the highest.
abbrev pub value_from : ℕ → List ℕ → ℕ
value_from acc [] = acc
value_from acc (b ∷ bs) = value_from (acc * 256 + b) bs

abbrev pub value : List ℕ → ℕ
value n = value_from 0 n

-- The mask `~1` on a byte clears its lowest bit.
mask_lem : (b : ℕ) → b < 256 → bit_and b 254 ≡ b / 2 * 2
unfolding agree_below
mask_lem = agree_below_sound _ _ 256 refl

-- What the last byte and the loop over the others make of a nonce.
increment_bytes :
    (a b c d e f : ℕ)
    → a < 256
    → b < 256
    → c < 256
    → d < 256
    → e < 256
    → f < 256
    → let n = increment_nonce (a ∷ b ∷ c ∷ d ∷ e ∷ f ∷ []) in
      IsNonce n × (value n ≡ (value (a ∷ b ∷ c ∷ d ∷ e ∷ f ∷ []) + 2) % 2 ^ 48)
unfolding increment_nonce
increment_bytes a b c d e f ha hb hc hd he hf = ground (arith, mask_lem ((f + 2) % 256))

-- The increment of a nonce is again a nonce, and adds 2 to its number, modulo 2 ^ 48.
pub value-increment_nonce :
    (n : List ℕ)
    → IsNonce n
    → IsNonce (increment_nonce n) × (value (increment_nonce n) ≡ (value n + 2) % 2 ^ 48)
value-increment_nonce (a ∷ b ∷ c ∷ d ∷ e ∷ f ∷ []) h =
    let t = h.1.1.1.1 in increment_bytes a b c d e f h.1.0 h.1.1.0 h.1.1.1.0 t.0 t.1.0 t.1.1.0
value-increment_nonce _ h = absurd (omega arith)

-- The two highest bytes of a nonce bound its number.
pub value-lt :
    (n : List ℕ)
    → IsNonce n
    → (value n < 2 ^ 48)
      × (value n / 2 ^ 40 ≡ get_or n 0 0)
      × (value n / 2 ^ 32 ≡ get_or n 0 0 * 256 + get_or n 1 0)
      × (get_or n 0 0 < 256)
      × (get_or n 1 0 < 256)
value-lt (a ∷ b ∷ c ∷ d ∷ e ∷ f ∷ []) h =
    let t = h.1.1.1.1 in omega (arith, h.1.0, h.1.1.0, h.1.1.1.0, t.0, t.1.0, t.1.1.0)
value-lt _ h = absurd (omega arith)

-- The nonce after a packet was sent in session `s`.
abbrev pub advance : Session → Session
advance s = record s { send_nonce = increment_nonce s.send_nonce }

-- As long as the session counts as valid its nonce does not wrap: the next one is exactly 2 higher.
pub advance-no_wrap :
    (now : ℕ) (s : Session)
    → IsNonce s.send_nonce
    → session_is_valid now s ≡ true
    → IsNonce (advance s).send_nonce
      × (value (advance s).send_nonce ≡ value s.send_nonce + 2)
      × (now < s.valid_till)
unfolding session_is_valid
advance-no_wrap now s h v =
    let (n, e) = value-increment_nonce s.send_nonce h in (n, e ∙ no_wrap, guard.1)
  where
    guard : (value s.send_nonce + 2 < 2 ^ 48) × (now < s.valid_till)
    guard = ground (arith, value-lt s.send_nonce h)

    no_wrap : (value s.send_nonce + 2) % 2 ^ 48 ≡ value s.send_nonce + 2
    no_wrap = omega (arith, guard)

-- The nonces of packets that are sent at the given times, until the session is no longer valid.
unfoldable pub sent : List ℕ → Session → List (List ℕ)
sent [] s = []
sent (now ∷ times) s =
    let rest = sent times (advance s) in if session_is_valid now s then s.send_nonce ∷ rest else []

abbrev pub Distinct {ℓ} : {A : Type ℓ} → List A → Type ℓ
Distinct [] = Unit
Distinct (x ∷ xs) = All (λ y. x ≢ y) xs × Distinct xs

sent-above :
    (times : List ℕ) (s : Session) (m : ℕ)
    → IsNonce s.send_nonce
    → m < value s.send_nonce
    → All (λ n. m < value n) (sent times s)
unfolding sent
sent-above [] s m h lt = tt
sent-above (now ∷ times) s m h lt = elim (Bool-cases (session_is_valid now s)) [
  | inl v ↦
      let (n, e, _) = advance-no_wrap now s h v in
      rw v (lt, sent-above times (advance s) m n (omega arith))
  | inr v ↦ rw v tt
]

pub All-map {ℓ κ} :
    {A : Type ℓ} {P Q : A → Type κ} (xs : List A) → ((a : A) → P a → Q a) → All P xs → All Q xs
All-map [] f h = tt
All-map (x ∷ xs) f h = (f x h.0, All-map xs f h.1)

-- No nonce is used twice in a session, however often and whenever packets are sent.
pub sent-Distinct : (times : List ℕ) (s : Session) → IsNonce s.send_nonce → Distinct (sent times s)
unfolding sent
sent-Distinct [] s h = tt
sent-Distinct (now ∷ times) s h = elim (Bool-cases (session_is_valid now s)) [
  | inl v ↦
      let (n, e, _) = advance-no_wrap now s h v in
      rw v (
        All-map (sent times (advance s)) (λ y lt p. omega (arith, ap value p))
            (sent-above times (advance s) (value s.send_nonce) n (omega arith)),
        sent-Distinct times (advance s) n,
      )
  | inr v ↦ rw v tt
]
