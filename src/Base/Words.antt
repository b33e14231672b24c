-- ===== src/Base/Words.antt =====
-- Words as numbers and as rows of binary digits.
use Prim.Native.Nat.{ℕ, zero, suc, ◌+◌, ◌-◌, ◌*◌, ◌/◌, ◌%◌, ◌^◌, ◌≤◌, ◌<◌, max}
use mathlib.Core.Path.{◌≡◌, refl, sym, ap, ap₂, ◌∙◌}
use native.Mathlib.Nat.{pow-suc, div-div-eq-div-mul}
use native.Mathlib.Omega.{arith}
use fastd.Base.Bits.{
  bit_and, bit_or, bit_xor, bit_and_step, bit_or_step, bit_xor_step, bit, zero-bit, bit-or, bit-shl,
  bit-mod,
}

-- The number with the digits `f 0`, `f 1`, ... up to `f (n - 1)`, the lowest first.
unfoldable pub word_of : ℕ → (ℕ → ℕ) → ℕ
word_of zero f = 0
word_of (suc n) f = f 0 + 2 * word_of n (λ j. f (suc j))

-- A number is known by its digits.
pub word_of-bits :
    (n x : ℕ) (f : ℕ → ℕ) → x < 2 ^ n → ((j : ℕ) → j < n → bit x j ≡ f j) → x ≡ word_of n f
unfolding word_of
word_of-bits zero x f h e = omega (arith, h)
word_of-bits (suc n) x f h e =
    let rest =
      word_of-bits n (x / 2) (λ j. f (suc j)) (omega (arith, h, pow-suc 2 n))
        (λ j k. e (suc j) (omega (arith, k))) in
    omega (arith, e 0 (omega arith), rest)

xor-half : (a b : ℕ) → bit_xor a b / 2 ≡ bit_xor (a / 2) (b / 2)
xor-half a b = omega (arith, bit_xor_step a b)

pub bit-xor : (a b k : ℕ) → bit (bit_xor a b) k ≡ (bit a k + bit b k) % 2
bit-xor a b zero = omega (arith, bit_xor_step a b)
bit-xor a b (suc k) = rw (xor-half a b) (bit-xor (a / 2) (b / 2) k)

pub bit_xor-lt : (n a b : ℕ) → a < 2 ^ n → b < 2 ^ n → bit_xor a b < 2 ^ n
bit_xor-lt zero a b h k =
    let e : a ≡ 0 = omega (arith, h) in
    let f : b ≡ 0 = omega (arith, k) in
    let g : bit_xor a b ≡ bit_xor 0 0 = ap₂ bit_xor e f in omega (arith, g)
bit_xor-lt (suc n) a b h k =
    let rest =
      bit_xor-lt n (a / 2) (b / 2) (omega (arith, h, pow-suc 2 n))
        (omega (arith, k, pow-suc 2 n)) in
    omega (arith, bit_xor_step a b, rest, pow-suc 2 n)

pub bit_or-lt : (n a b : ℕ) → a < 2 ^ n → b < 2 ^ n → bit_or a b < 2 ^ n
bit_or-lt zero a b h k =
    let e : a ≡ 0 = omega (arith, h) in
    let f : b ≡ 0 = omega (arith, k) in
    let g : bit_or a b ≡ bit_or 0 0 = ap₂ bit_or e f in omega (arith, g)
bit_or-lt (suc n) a b h k =
    let rest =
      bit_or-lt n (a / 2) (b / 2) (omega (arith, h, pow-suc 2 n)) (omega (arith, k, pow-suc 2 n)) in
    omega (arith, bit_or_step a b, rest, pow-suc 2 n)

pub bit_and-lt : (n a b : ℕ) → a < 2 ^ n → b < 2 ^ n → bit_and a b < 2 ^ n
bit_and-lt zero a b h k =
    let e : a ≡ 0 = omega (arith, h) in
    let f : b ≡ 0 = omega (arith, k) in
    let g : bit_and a b ≡ bit_and 0 0 = ap₂ bit_and e f in omega (arith, g)
bit_and-lt (suc n) a b h k =
    let rest =
      bit_and-lt n (a / 2) (b / 2) (omega (arith, h, pow-suc 2 n))
        (omega (arith, k, pow-suc 2 n)) in
    omega (arith, bit_and_step a b, rest, pow-suc 2 n)

-- Digits above a number's size are zero.
pub bit-high : (n x k : ℕ) → x < 2 ^ n → n ≤ k → bit x k ≡ 0
bit-high zero x k h l = let e : x ≡ 0 = omega (arith, h) in ap (λ y. bit y k) e ∙ zero-bit k
bit-high (suc n) x zero h l = absurd (omega (arith, l))
bit-high (suc n) x (suc k) h l =
    bit-high n (x / 2) k (omega (arith, h, pow-suc 2 n)) (omega (arith, l))

-- A shift to the right.
pub bit-shr : (s x j : ℕ) → bit (x / 2 ^ s) j ≡ bit x (j + s)
bit-shr zero x j =
    let whole : x / 1 ≡ x = omega arith in let same : j ≡ j + 0 = omega arith in ap₂ bit whole same
bit-shr (suc s) x j = ap (λ y. bit y j) split ∙ bit-shr s (x / 2) j ∙ ap (bit x) step
  where
    step : suc (j + s) ≡ j + suc s
    step = omega arith

    double : 2 ^ suc s ≡ 2 * 2 ^ s
    double = omega (arith, pow-suc 2 s)

    split : x / 2 ^ suc s ≡ x / 2 / 2 ^ s
    split = ap (λ m. x / m) double ∙ sym (div-div-eq-div-mul x 2 (2 ^ s))

-- The digits of the complement `2 ^ n - 1 - x`.
pub bit-complement : (n x j : ℕ) → x < 2 ^ n → j < n → bit (2 ^ n - 1 - x) j ≡ 1 - bit x j
bit-complement zero x j h k = absurd (omega (arith, k))
bit-complement (suc n) x zero h k = omega (arith, h, pow-suc 2 n)
bit-complement (suc n) x (suc j) h k =
    let half : (2 ^ suc n - 1 - x) / 2 ≡ 2 ^ n - 1 - x / 2 = omega (arith, h, pow-suc 2 n) in
    ap (λ y. bit y j) half
    ∙ bit-complement n (x / 2) j (omega (arith, h, pow-suc 2 n)) (omega (arith, k))

-- The digits of a rotation to the right of a word of 32 digits.
pub bit-rotr :
    (x r j : ℕ)
    → x < 2 ^ 32
    → 0 < r
    → r < 32
    → j < 32
    → bit (bit_or (x / 2 ^ r) (x * 2 ^ (32 - r) % 2 ^ 32)) j ≡ bit x ((j + r) % 32)
bit-rotr x r j h lo hi k =
    bit-or (x / 2 ^ r) (x * 2 ^ (32 - r) % 2 ^ 32) j
    ∙ ap₂ max (bit-shr r x j) (bit-mod (x * 2 ^ (32 - r)) 32 j k ∙ bit-shl x (32 - r) j)
    ∙ ground (arith, bit-high 32 x (j + r) h)

pub word_of-same : (n : ℕ) (f g : ℕ → ℕ) → ((j : ℕ) → f j ≡ g j) → word_of n f ≡ word_of n g
unfolding word_of
word_of-same zero f g e = refl
word_of-same (suc n) f g e =
    ap₂ (λ x y. x + 2 * y) (e 0) (word_of-same n (λ j. f (suc j)) (λ j. g (suc j)) (λ j. e (suc j)))
