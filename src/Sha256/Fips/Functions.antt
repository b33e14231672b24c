-- ===== src/Sha256/Fips/Functions.antt =====
-- src/sha256.c: the shifts and masks of a round are the functions of the standard, digit by digit.
use fastd.Base.{
  ℕ, ◌+◌, ◌-◌, ◌*◌, ◌/◌, ◌%◌, ◌^◌, ◌≤◌, ◌<◌, ◌≡◌, ◌∙◌, arith, if◌then◌else◌, ◌==◌, min,
}
use fastd.Base.Bits.{bit_and, bit_xor, bit, bit-le, bit-and}
use fastd.Base.Words.{
  word_of, word_of-bits, bit-xor, bit_xor-lt, bit_or-lt, bit_and-lt, bit-shr, bit-complement,
  bit-rotr, word_of-same,
}
use native.Mathlib.Nat.{div-le_self}
use fastd.Sha256.{rotr, word_mod}
use fastd.Sha256.Fips.{
  rotated, shifted, big_sigma0, big_sigma1, small_sigma0, small_sigma1, ch, maj,
}

rotr-bit : (x r j : ℕ) → x < word_mod → 0 < r → r < 32 → j < 32 → bit (rotr x r) j ≡ rotated x r j
unfolding rotr
rotr-bit x r j h lo hi k = bit-rotr x r j h lo hi k

rotr-lt : (x r : ℕ) → x < word_mod → rotr x r < word_mod
unfolding rotr
rotr-lt x r h =
    bit_or-lt 32 (x / 2 ^ r) (x * 2 ^ (32 - r) % word_mod) (omega (arith, h, less)) (omega arith)
  where
    less : x / 2 ^ r ≤ x
    less = div-le_self x (2 ^ r)

-- The sum of three words without carries.
xor-word :
    (x y z : ℕ) (f g h : ℕ → ℕ)
    → x < word_mod
    → y < word_mod
    → z < word_mod
    → ((j : ℕ) → j < 32 → bit x j ≡ f j)
    → ((j : ℕ) → j < 32 → bit y j ≡ g j)
    → ((j : ℕ) → j < 32 → bit z j ≡ h j)
    → bit_xor (bit_xor x y) z ≡ word_of 32 (λ j. (f j + g j + h j) % 2)
xor-word x y z f g h a b c p q r =
    word_of-bits 32 (bit_xor (bit_xor x y) z) (λ j. (f j + g j + h j) % 2)
      (bit_xor-lt 32 (bit_xor x y) z (bit_xor-lt 32 x y a b) c)
      (λ j k. bit-xor (bit_xor x y) z j ∙ omega (arith, bit-xor x y j, p j k, q j k, r j k))

rotations :
    (x i j k : ℕ)
    → x < word_mod
    → 0 < i
    → i < 32
    → 0 < j
    → j < 32
    → 0 < k
    → k < 32
    → bit_xor (bit_xor (rotr x i) (rotr x j)) (rotr x k)
      ≡ word_of 32 (λ n. (rotated x i n + rotated x j n + rotated x k n) % 2)
rotations x i j k h il ih jl jh kl kh =
    xor-word (rotr x i) (rotr x j) (rotr x k) (rotated x i) (rotated x j) (rotated x k)
      (rotr-lt x i h) (rotr-lt x j h) (rotr-lt x k h) (λ n m. rotr-bit x i n h il ih m)
      (λ n m. rotr-bit x j n h jl jh m) (λ n m. rotr-bit x k n h kl kh m)

rotations-shift :
    (x i j s : ℕ)
    → x < word_mod
    → 0 < i
    → i < 32
    → 0 < j
    → j < 32
    → bit_xor (bit_xor (rotr x i) (rotr x j)) (x / 2 ^ s)
      ≡ word_of 32 (λ n. (rotated x i n + rotated x j n + shifted x s n) % 2)
rotations-shift x i j s h il ih jl jh =
    xor-word (rotr x i) (rotr x j) (x / 2 ^ s) (rotated x i) (rotated x j) (shifted x s)
      (rotr-lt x i h) (rotr-lt x j h) (omega (arith, h, div-le_self x (2 ^ s)))
      (λ n m. rotr-bit x i n h il ih m) (λ n m. rotr-bit x j n h jl jh m) (λ n m. bit-shr s x n)

pub sigma0_lem :
    (x : ℕ) → x < word_mod → bit_xor (bit_xor (rotr x 2) (rotr x 13)) (rotr x 22) ≡ big_sigma0 x
unfolding big_sigma0
sigma0_lem x h =
    rotations x 2 13 22 h (omega arith) (omega arith) (omega arith) (omega arith) (omega arith)
      (omega arith)

pub sigma1_lem :
    (x : ℕ) → x < word_mod → bit_xor (bit_xor (rotr x 6) (rotr x 11)) (rotr x 25) ≡ big_sigma1 x
unfolding big_sigma1
sigma1_lem x h =
    rotations x 6 11 25 h (omega arith) (omega arith) (omega arith) (omega arith) (omega arith)
      (omega arith)

pub schedule0_lem :
    (x : ℕ) → x < word_mod → bit_xor (bit_xor (rotr x 7) (rotr x 18)) (x / 2 ^ 3) ≡ small_sigma0 x
unfolding small_sigma0
schedule0_lem x h =
    rotations-shift x 7 18 3 h (omega arith) (omega arith) (omega arith) (omega arith)

pub schedule1_lem :
    (x : ℕ) → x < word_mod → bit_xor (bit_xor (rotr x 17) (rotr x 19)) (x / 2 ^ 10) ≡ small_sigma1 x
unfolding small_sigma1
schedule1_lem x h =
    rotations-shift x 17 19 10 h (omega arith) (omega arith) (omega arith) (omega arith)

pub ch_lem :
    (x y z : ℕ)
    → x < word_mod
    → y < word_mod
    → z < word_mod
    → bit_xor (bit_and x y) (bit_and (word_mod - 1 - x) z) ≡ ch x y z
unfolding ch
ch_lem x y z a b c =
    word_of-bits 32 (bit_xor (bit_and x y) (bit_and (word_mod - 1 - x) z))
      (λ j. if bit x j == 1 then bit y j else bit z j)
      (bit_xor-lt 32 (bit_and x y) (bit_and (word_mod - 1 - x) z) (bit_and-lt 32 x y a b)
        (bit_and-lt 32 (word_mod - 1 - x) z (omega arith) c))
      (λ j k.
        bit-xor (bit_and x y) (bit_and (word_mod - 1 - x) z) j
        ∙ chosen (bit x j) (bit y j) (bit z j) (bit (word_mod - 1 - x) j) (bit (bit_and x y) j)
            (bit (bit_and (word_mod - 1 - x) z) j) (bit-le x j) (bit-le y j) (bit-le z j)
            (bit-complement 32 x j a k) (bit-and x y j) (bit-and (word_mod - 1 - x) z j))
  where
    chosen :
        (p q r n s t : ℕ)
        → p ≤ 1
        → q ≤ 1
        → r ≤ 1
        → n ≡ 1 - p
        → s ≡ min p q
        → t ≡ min n r
        → (s + t) % 2 ≡ (if p == 1 then q else r)
    chosen p q r n s t a b c d e f = ground (arith, d, e, f)

pub maj_lem :
    (x y z : ℕ)
    → x < word_mod
    → y < word_mod
    → z < word_mod
    → bit_xor (bit_xor (bit_and x y) (bit_and x z)) (bit_and y z) ≡ maj x y z
unfolding maj
maj_lem x y z a b c =
    xor-word (bit_and x y) (bit_and x z) (bit_and y z) (λ j. min (bit x j) (bit y j))
      (λ j. min (bit x j) (bit z j)) (λ j. min (bit y j) (bit z j)) (bit_and-lt 32 x y a b)
      (bit_and-lt 32 x z a c) (bit_and-lt 32 y z b c) (λ j k. bit-and x y j) (λ j k. bit-and x z j)
      (λ j k. bit-and y z j)
    ∙ word_of-same 32
        (λ j. (min (bit x j) (bit y j) + min (bit x j) (bit z j) + min (bit y j) (bit z j)) % 2)
        (λ j. (bit x j + bit y j + bit z j) / 2)
        (λ j. omega (arith, bit-le x j, bit-le y j, bit-le z j))
