-- ===== src/Method/Iv.antt =====
-- The IVs that src/methods/common.h makes of nonces.
use fastd.Base.{
  ℕ, suc, ◌<◌, ◌≡◌, ◌≢◌, sym, ap, ◌∙◌, List, [], ◌∷◌, map, arith, length, All, take, Bool-cases,
  inl, inr,
}
use fastd.Util.{min_size_t}
use fastd.Method.{Session, nonce_bytes, session_is_valid, expand_nonce}
use fastd.Method.Nonce.{IsNonce, advance, value-increment_nonce, sent, Distinct, sent-Distinct}

-- An IV longer than the nonce starts with it.
pub take-expand_nonce :
    (n : List ℕ) (l : ℕ)
    → length n ≡ nonce_bytes
    → nonce_bytes < l
    → take nonce_bytes (expand_nonce n l) ≡ n
unfolding expand_nonce min_size_t
take-expand_nonce (a ∷ b ∷ c ∷ d ∷ e ∷ f ∷ []) (suc (suc (suc (suc (suc (suc (suc l))))))) h k =
    ground arith
take-expand_nonce n l h k = absurd (omega arith)

pub expand_nonce-injective :
    (n m : List ℕ) (l : ℕ)
    → length n ≡ nonce_bytes
    → length m ≡ nonce_bytes
    → nonce_bytes < l
    → expand_nonce n l ≡ expand_nonce m l
    → n ≡ m
expand_nonce-injective n m l h k lt e =
    sym (take-expand_nonce n l h lt) ∙ ap (take nonce_bytes) e ∙ take-expand_nonce m l k lt

sent-IsNonce : (times : List ℕ) (s : Session) → IsNonce s.send_nonce → All IsNonce (sent times s)
unfolding sent
sent-IsNonce [] s h = tt
sent-IsNonce (now ∷ times) s h = elim (Bool-cases (session_is_valid now s)) [
  | inl v ↦ rw v (h, sent-IsNonce times (advance s) (value-increment_nonce s.send_nonce h).0)
  | inr v ↦ rw v tt
]

Distinct-map {ℓ κ μ} :
    {A : Type ℓ} {B : Type κ} (P : A → Type μ) (f : A → B) (xs : List A)
    → ((x y : A) → P x → P y → f x ≡ f y → x ≡ y)
    → All P xs
    → Distinct xs
    → Distinct (map f xs)
Distinct-map P f [] inj h d = tt
Distinct-map P f (x ∷ xs) inj h d = (apart xs h.1 d.0, Distinct-map P f xs inj h.1 d.1)
  where
    apart : (ys : List _) → All P ys → All (λ y. x ≢ y) ys → All (λ z. f x ≢ z) (map f ys)
    apart [] k n = tt
    apart (y ∷ ys) k n = (λ e. n.0 (inj x y h.0 k.0 e), apart ys k.1 n.1)

-- With an IV that is longer than the nonce, no IV is used twice in a session, however often and
-- whenever packets are sent.
pub ivs-Distinct :
    (times : List ℕ) (s : Session) (l : ℕ)
    → IsNonce s.send_nonce
    → nonce_bytes < l
    → Distinct (map (λ n. expand_nonce n l) (sent times s))
ivs-Distinct times s l h lt =
    Distinct-map IsNonce (λ n. expand_nonce n l) (sent times s)
      (λ n m a b. expand_nonce-injective n m l a.0 b.0 lt) (sent-IsNonce times s h)
      (sent-Distinct times s h)
