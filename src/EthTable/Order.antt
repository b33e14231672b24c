-- ===== src/EthTable/Order.antt =====
-- The order of src/peer.c on Ethernet addresses, and tables in that order.
use Prim.Native.Nat.{Ordering, compare}
use native.Mathlib.Omega.{compare-lt, compare-eq, compare-gt}
use fastd.Base.{ℕ, ◌+◌, ◌*◌, ◌<◌, ◌≡◌, refl, List, [], ◌∷◌, ◌++◌, arith, length, All}
use fastd.Discovery.{EthAddr, EthEntry}
use fastd.Method.Nonce.{IsByte, value, value_from}
use fastd.EthTable.{memcmp}

-- An address as a number, in the order of `memcmp`.
value_from-lt :
    (m n : ℕ) (a b : List ℕ)
    → length a ≡ length b
    → All IsByte a
    → All IsByte b
    → m < n
    → value_from m a < value_from n b
value_from-lt m n [] [] l ha hb h = h
value_from-lt m n [] (y ∷ b) l ha hb h = absurd (omega arith)
value_from-lt m n (x ∷ a) [] l ha hb h = absurd (omega arith)
value_from-lt m n (x ∷ a) (y ∷ b) l ha hb h =
    value_from-lt (m * 256 + x) (n * 256 + y) a b (omega arith) ha.1 hb.1
      (omega (arith, ha.0, hb.0))

-- What a comparison tells.
abbrev pub Tells : Ordering → ℕ → List ℕ → List ℕ → Type 0
Tells Ordering.lt m a b = value_from m a < value_from m b
Tells Ordering.eq m a b = a ≡ b
Tells Ordering.gt m a b = value_from m b < value_from m a

Tells-cons :
    (m x y : ℕ) (a b : List ℕ)
    → x ≡ y
    → (o : Ordering) → Tells o (m * 256 + x) a b
    → Tells o m (x ∷ a) (y ∷ b)
Tells-cons m x y a b e Ordering.lt t = rw (← e) t
Tells-cons m x y a b e Ordering.eq t = rw (e, t) refl
Tells-cons m x y a b e Ordering.gt t = rw (← e) t

pub memcmp-Tells :
    (m : ℕ) (a b : List ℕ)
    → length a ≡ length b
    → All IsByte a
    → All IsByte b
    → Tells (memcmp a b) m a b
unfolding memcmp
memcmp-Tells m [] [] l ha hb = refl
memcmp-Tells m [] (y ∷ b) l ha hb = absurd (omega arith)
memcmp-Tells m (x ∷ a) [] l ha hb = absurd (omega arith)
memcmp-Tells m (x ∷ a) (y ∷ b) l ha hb =
    go (memcmp-Tells (m * 256 + x) a b (omega arith) ha.1 hb.1) (compare x y) refl
  where
    go :
        Tells (memcmp a b) (m * 256 + x) a b
        → (o : Ordering) → compare x y ≡ o
        → Tells
            (elim o [
              | Ordering.lt ↦ Ordering.lt
              | Ordering.eq ↦ memcmp a b
              | Ordering.gt ↦ Ordering.gt
            ])
            m
            (x ∷ a)
            (y ∷ b)
    go rest Ordering.lt e =
        value_from-lt (m * 256 + x) (m * 256 + y) a b (omega arith) ha.1 hb.1
          (omega (arith, compare-lt x y e))
    go rest Ordering.gt e =
        value_from-lt (m * 256 + y) (m * 256 + x) b a (omega arith) hb.1 ha.1
          (omega (arith, compare-gt x y e))
    go rest Ordering.eq e = Tells-cons m x y a b (compare-eq x y e) (memcmp a b) rest

-- Six bytes.
abbrev pub IsMac : EthAddr → Type 0
IsMac a = (length a ≡ 6) × All IsByte a

abbrev pub key : EthEntry → ℕ
key e = value e.addr

-- The entries are in strictly ascending order of their addresses, so that no address is there twice.
abbrev pub IsAscending : List EthEntry → Type 0
IsAscending [] = Unit
IsAscending (e ∷ t) = All (λ f. key e < key f) t × IsAscending t

pub record IsTable (t : List EthEntry) : Type 0 where
  pub macs : All (λ e. IsMac e.addr) t
  pub ascending : IsAscending t

abbrev pub Below : ℕ → List EthEntry → Type 0
Below k t = All (λ e. key e < k) t

abbrev pub Above : ℕ → List EthEntry → Type 0
Above k t = All (λ e. k < key e) t

pub All-middle {ℓ κ} :
    {A : Type ℓ} (P : A → Type κ) (xs : List A) (e : A) (ys : List A) → All P (xs ++ (e ∷ ys)) → P e
All-middle P [] e ys h = h.0
All-middle P (x ∷ xs) e ys h = All-middle P xs e ys h.1

-- An entry in the middle of a table is above what stands before it, and below what stands behind it.
pub IsAscending-middle :
    (xs : List EthEntry) (e : EthEntry) (ys : List EthEntry)
    → IsAscending (xs ++ (e ∷ ys))
    → Below (key e) xs × Above (key e) ys
IsAscending-middle [] e ys h = (tt, h.0)
IsAscending-middle (x ∷ xs) e ys h =
    let (below, above) = IsAscending-middle xs e ys h.1 in
    ((All-middle (λ f. key x < key f) xs e ys h.0, below), above)
