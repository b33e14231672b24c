-- ===== src/Crypto/Xor.antt =====
-- Exclusive or as src/crypto.h and the stream ciphers use it.
use fastd.Base.{
  ℕ, zero, suc, ◌+◌, ◌/◌, ◌≤◌, ◌≡◌, ◌↔◌, refl, sym, ap, ap₂, ◌∙◌, true, List, [], ◌∷◌, arith,
  length,
}
use Prim.Native.Nat.{bit_xor-bitwise}
use fastd.Base.Bits.{bit_or, bit_xor, bit_or_step, bit_or-zero, bit_xor_step}
use fastd.Crypto.{block_xor, differences, block_equal}

xor_comm_below : (n a b : ℕ) → a ≤ n → b ≤ n → bit_xor a b ≡ bit_xor b a
xor_comm_below zero a b h k =
    let e : a ≡ 0 = omega arith in let f : b ≡ 0 = omega arith in rw (e, f) refl
xor_comm_below (suc n) a b h k =
    let rest = xor_comm_below n (a / 2) (b / 2) (omega arith) (omega arith) in
    omega (arith, bit_xor_step a b, bit_xor_step b a, rest)

pub xor_comm : (a b : ℕ) → bit_xor a b ≡ bit_xor b a
xor_comm a b = xor_comm_below (a + b) a b (omega arith) (omega arith)

xor_twice_below : (n a b : ℕ) → a ≤ n → b ≤ n → bit_xor (bit_xor a b) b ≡ a
xor_twice_below zero a b h k =
    let e : a ≡ 0 = omega arith in let f : b ≡ 0 = omega arith in rw (e, f) refl
xor_twice_below (suc n) a b h k =
    let rest = xor_twice_below n (a / 2) (b / 2) (omega arith) (omega arith) in
    let half : bit_xor a b / 2 ≡ bit_xor (a / 2) (b / 2) = omega (arith, bit_xor_step a b) in
    let again = ap (λ t. bit_xor t (b / 2)) half ∙ rest in
    omega (arith, bit_xor_step a b, bit_xor_step (bit_xor a b) b, again)

pub xor_twice : (a b : ℕ) → bit_xor (bit_xor a b) b ≡ a
xor_twice a b = xor_twice_below (a + b) a b (omega arith) (omega arith)

-- Two differences cancel.
pub block_xor-twice : (a b : List ℕ) → length a ≡ length b → block_xor (block_xor a b) b ≡ a
unfolding block_xor
block_xor-twice [] b h = refl
block_xor-twice (x ∷ a) [] h = absurd (omega arith)
block_xor-twice (x ∷ a) (y ∷ b) h =
    ap₂ (λ s t. s ∷ t) (xor_twice x y) (block_xor-twice a b (omega arith))

pub block_xor_comm : (a b : List ℕ) → block_xor a b ≡ block_xor b a
unfolding block_xor
block_xor_comm [] [] = refl
block_xor_comm [] (y ∷ b) = refl
block_xor_comm (x ∷ a) [] = refl
block_xor_comm (x ∷ a) (y ∷ b) = ap₂ (λ s t. s ∷ t) (xor_comm x y) (block_xor_comm a b)

pub length-block_xor : (a b : List ℕ) → length a ≤ length b → length (block_xor a b) ≡ length a
unfolding block_xor
length-block_xor [] b h = refl
length-block_xor (x ∷ a) [] h = absurd (omega arith)
length-block_xor (x ∷ a) (y ∷ b) h = ap suc (length-block_xor a b (omega arith))

or_zero_below : (n a b : ℕ) → a ≤ n → b ≤ n → bit_or a b ≡ 0 → (a ≡ 0) × (b ≡ 0)
or_zero_below zero a b h k e = (omega arith, omega arith)
or_zero_below (suc n) a b h k e =
    let halves : bit_or (a / 2) (b / 2) ≡ 0 = omega (arith, e, bit_or_step a b) in
    let (f, g) = or_zero_below n (a / 2) (b / 2) (omega arith) (omega arith) halves in
    (omega (arith, e, bit_or_step a b, f), omega (arith, e, bit_or_step a b, g))

pub zero-bit_xor : (b : ℕ) → bit_xor 0 b ≡ b
zero-bit_xor b = rw bit_xor-bitwise refl

pub xor_zero : (a b : ℕ) → bit_xor a b ≡ 0 → a ≡ b
xor_zero a b e = sym (xor_twice a b) ∙ ap (λ t. bit_xor t b) e ∙ zero-bit_xor b

xor_self : (a : ℕ) → bit_xor a a ≡ 0
xor_self a = ap (λ t. bit_xor t a) (sym (zero-bit_xor a)) ∙ xor_twice 0 a

differences-same : (v : ℕ) (a : List ℕ) → differences v a a ≡ v
unfolding differences
differences-same v [] = refl
differences-same v (x ∷ a) =
    ap (λ t. differences (bit_or v t) a a) (xor_self x)
    ∙ ap (λ t. differences t a a) (bit_or-zero v)
    ∙ differences-same v a

differences-zero :
    (v : ℕ) (a b : List ℕ) → length a ≡ length b → differences v a b ≡ 0 → (v ≡ 0) × (a ≡ b)
unfolding differences
differences-zero v [] [] h e = (e, refl)
differences-zero v [] (y ∷ b) h e = absurd (omega arith)
differences-zero v (x ∷ a) [] h e = absurd (omega arith)
differences-zero v (x ∷ a) (y ∷ b) h e =
    let (f, g) = differences-zero (bit_or v (bit_xor x y)) a b (omega arith) e in
    let (k, l) = or_zero_below (v + bit_xor x y) v (bit_xor x y) (omega arith) (omega arith) f in
    (k, ap₂ (λ s t. s ∷ t) (xor_zero x y l) g)

-- The comparison without branches is equality, for blocks of the same length.
pub block_equal_iff : (a b : List ℕ) → length a ≡ length b → (block_equal a b ≡ true) ↔ (a ≡ b)
unfolding block_equal
block_equal_iff a b h =
    (λ e. (differences-zero 0 a b h (ground arith)).1, λ e. rw (← e, differences-same 0 a) refl)
