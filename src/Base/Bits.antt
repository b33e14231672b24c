-- ===== src/Base/Bits.antt =====
-- The native bit operations, one binary digit at a time, at every width.
use Prim.Native.Nat.{
  ℕ, zero, suc, ◌+◌, ◌-◌, ◌^◌, ◌<◌, ◌*◌, ◌/◌, ◌%◌, ◌≤◌, min, max, bit_and, bit_or, digits,
  bit_or-bitwise, bit_and-bitwise, bit_xor, bit_xor-bitwise, differ,
}
use mathlib.Core.Path.{◌≡◌, refl, ap, ap₂, ◌∙◌}
use native.Mathlib.Nat.{zero-add, pow-suc, one-le-pow, div-add-mod}
use mathlib.Core.Bool.{Bool, true, ◌&&◌}
use fastd.Base.{suc_add, ◌==◌, ltb, if◌then◌else◌}
use native.Mathlib.Omega.{arith}
pub use Prim.Native.Nat.{bit_and, bit_or, bit_xor}

-- What the native operations stand for: a recursion on binary digits with fuel. One more round of
-- fuel than the number needs changes nothing.
spare_round :
    (z : ℕ → ℕ) (f : ℕ → ℕ → ℕ) (n a b : ℕ) → a ≤ n → digits z f (suc n) a b ≡ digits z f n a b
spare_round z f zero (suc a) b h = absurd (omega arith)
spare_round z f (suc n) (suc a) b h =
    ap (λ t. t * 2 + f (suc a % 2) (b % 2)) (spare_round z f n (suc a / 2) (b / 2) (omega arith))
spare_round z f zero zero b h = refl
spare_round z f (suc n) zero b h = refl

spare_rounds :
    (z : ℕ → ℕ) (f : ℕ → ℕ → ℕ) (k n a b : ℕ) → a ≤ n → digits z f (k + n) a b ≡ digits z f n a b
spare_rounds z f zero n a b h = rw zero-add
spare_rounds z f (suc k) n a b h =
    rw (suc_add k n) (spare_round z f (k + n) a b (omega arith) ∙ spare_rounds z f k n a b h)

exact_fuel : (z : ℕ → ℕ) (f : ℕ → ℕ → ℕ) (n a b : ℕ) → a ≤ n → digits z f n a b ≡ digits z f a a b
exact_fuel z f n a b h =
    let e : n ≡ n - a + a = omega arith in rw e (spare_rounds z f (n - a) a a b (omega arith))

-- The lowest digit of a result, and the rest.
pub bit_or_step : (x y : ℕ) → bit_or x y ≡ bit_or (x / 2) (y / 2) * 2 + max (x % 2) (y % 2)
bit_or_step zero y = rw (bit_or-bitwise, bit_or-bitwise) (omega arith)
bit_or_step (suc x) y =
    rw (bit_or-bitwise, bit_or-bitwise)
      (ap (λ t. t * 2 + max (suc x % 2) (y % 2))
        (exact_fuel (λ d. d) max x (suc x / 2) (y / 2) (omega arith)))

pub bit_and_step : (x y : ℕ) → bit_and x y ≡ bit_and (x / 2) (y / 2) * 2 + min (x % 2) (y % 2)
bit_and_step zero y = rw (bit_and-bitwise, bit_and-bitwise) (omega arith)
bit_and_step (suc x) y =
    rw (bit_and-bitwise, bit_and-bitwise)
      (ap (λ t. t * 2 + min (suc x % 2) (y % 2))
        (exact_fuel (λ d. 0) min x (suc x / 2) (y / 2) (omega arith)))

differ-digits : (a b : ℕ) → a < 2 → b < 2 → differ a b ≡ (a + b) % 2
differ-digits zero b h k = omega arith
differ-digits (suc zero) zero h k = refl
differ-digits (suc zero) (suc zero) h k = refl
differ-digits (suc zero) (suc (suc b)) h k = absurd (omega arith)
differ-digits (suc (suc a)) b h k = absurd (omega arith)

pub bit_xor_step : (x y : ℕ) → bit_xor x y ≡ bit_xor (x / 2) (y / 2) * 2 + (x + y) % 2
bit_xor_step zero y = rw (bit_xor-bitwise, bit_xor-bitwise) (omega arith)
bit_xor_step (suc x) y =
    let low = differ-digits (suc x % 2) (y % 2) (omega arith) (omega arith) in
    rw (bit_xor-bitwise, bit_xor-bitwise)
      (ap₂ (λ s t. s * 2 + t) (exact_fuel (λ d. d) differ x (suc x / 2) (y / 2) (omega arith))
        (low ∙ omega arith))

-- The binary digit of `x` at place `k`.
abbrev pub bit : ℕ → ℕ → ℕ
bit x zero = x % 2
bit x (suc k) = bit (x / 2) k

pub bit-le : (x k : ℕ) → bit x k ≤ 1
bit-le x zero = omega arith
bit-le x (suc k) = bit-le (x / 2) k

pub zero-bit : (k : ℕ) → bit 0 k ≡ 0
zero-bit zero = refl
zero-bit (suc k) = zero-bit k

or-half : (a b : ℕ) → bit_or a b / 2 ≡ bit_or (a / 2) (b / 2)
or-half a b = omega (arith, bit_or_step a b)

and-half : (a b : ℕ) → bit_and a b / 2 ≡ bit_and (a / 2) (b / 2)
and-half a b = omega (arith, bit_and_step a b)

pub bit-or : (a b k : ℕ) → bit (bit_or a b) k ≡ max (bit a k) (bit b k)
bit-or a b zero = omega (arith, bit_or_step a b)
bit-or a b (suc k) = rw (or-half a b) (bit-or (a / 2) (b / 2) k)

pub bit-and : (a b k : ℕ) → bit (bit_and a b) k ≡ min (bit a k) (bit b k)
bit-and a b zero = omega (arith, bit_and_step a b)
bit-and a b (suc k) = rw (and-half a b) (bit-and (a / 2) (b / 2) k)

masked_out : (n a : ℕ) → digits (λ d. 0) min n a 0 ≡ 0
masked_out zero a = refl
masked_out (suc n) zero = refl
masked_out (suc n) (suc a) =
    let rest : digits (λ d. 0) min n (suc a / 2) (0 / 2) ≡ 0 = masked_out n (suc a / 2) in
    omega (arith, rest)

pub bit_and-zero : (a : ℕ) → bit_and a 0 ≡ 0
bit_and-zero a = rw bit_and-bitwise (masked_out a a)

-- A single place, `1 << i`.
pub bit-pow : (i j : ℕ) → bit (2 ^ i) j ≡ (if i == j then 1 else 0)
bit-pow zero zero = refl
bit-pow zero (suc j) = zero-bit j ∙ ground arith
bit-pow (suc i) zero = rw (pow-suc 2 i) (ground arith)
bit-pow (suc i) (suc j) = rw (half i) (bit-pow i j ∙ ground arith)
  where
    half : (i : ℕ) → 2 ^ suc i / 2 ≡ 2 ^ i
    half i = rw (pow-suc 2 i) (omega arith)

pub bit_and-pow : (x i : ℕ) → bit_and x (2 ^ i) ≡ bit x i * 2 ^ i
bit_and-pow x zero = omega (arith, bit_and_step x 1, bit_and-zero (x / 2))
bit_and-pow x (suc i) =
    let e : 2 ^ i * 2 / 2 ≡ 2 ^ i = omega arith in
    let halved : bit_and (x / 2) (2 ^ i * 2 / 2) ≡ bit (x / 2) i * 2 ^ i =
      rw e (bit_and-pow (x / 2) i) in
    rw (pow-suc 2 i) (omega (arith, bit_and_step x (2 ^ i * 2), halved))

-- A shift to the left.
pub bit-shl : (x s j : ℕ) → bit (x * 2 ^ s) j ≡ (if ltb j s then 0 else bit x (j - s))
bit-shl x zero j = ground arith
bit-shl x (suc s) zero = rw (pow-suc 2 s) (ground arith)
bit-shl x (suc s) (suc j) = rw (half x s) (bit-shl x s j ∙ ground arith)
  where
    half : (x s : ℕ) → x * 2 ^ suc s / 2 ≡ x * 2 ^ s
    half x s = rw (pow-suc 2 s) (omega arith)

half-mod : (y p : ℕ) → 0 < p → y % (p * 2) / 2 ≡ y / 2 % p
half-mod y p h = grind (arith, div-add-mod y (p * 2))

mod-two : (y p : ℕ) → 0 < p → y % (p * 2) % 2 ≡ y % 2
mod-two y p h = grind (arith, div-add-mod y (p * 2))

pub bit-mod : (y w j : ℕ) → j < w → bit (y % 2 ^ w) j ≡ bit y j
bit-mod y zero j h = absurd (omega arith)
bit-mod y (suc w) zero h = rw (pow-suc 2 w) (mod-two y (2 ^ w) (one-le-pow w 2 (omega arith)))
bit-mod y (suc w) (suc j) h =
    rw (pow-suc 2 w, half-mod y (2 ^ w) (one-le-pow w 2 (omega arith)))
      (bit-mod (y / 2) w j (omega arith))

-- Over a small range, compare two functions by evaluation.
module _ (f g : ℕ → ℕ) where
  unfoldable pub agree_below : ℕ → Bool
  agree_below zero = true
  agree_below (suc n) = f n == g n && agree_below n

  pub agree_below_sound : (n : ℕ) → agree_below n ≡ true → (i : ℕ) → i < n → f i ≡ g i
  unfolding agree_below
  agree_below_sound zero e i h = absurd (omega arith)
  agree_below_sound (suc n) e i h = ground (arith, agree_below_sound n (ground arith) i)

unmasked : (n a : ℕ) → a ≤ n → digits (λ d. d) max n a 0 ≡ a
unmasked n zero h = zero_case n
  where
    zero_case : (n : ℕ) → digits (λ d. d) max n 0 0 ≡ 0
    zero_case zero = refl
    zero_case (suc n) = refl
unmasked zero (suc a) h = absurd (omega arith)
unmasked (suc n) (suc a) h =
    let rest : digits (λ d. d) max n (suc a / 2) (0 / 2) ≡ suc a / 2 =
      unmasked n (suc a / 2) (omega arith) in
    omega (arith, rest)

pub bit_or-zero : (a : ℕ) → bit_or a 0 ≡ a
bit_or-zero a = rw bit_or-bitwise (unmasked a a (omega arith))

-- `(a << k) | b` is a sum where `b` has `k` bits.
pub bit_or-shl : (k a b : ℕ) → b < 2 ^ k → bit_or (a * 2 ^ k) b ≡ a * 2 ^ k + b
bit_or-shl zero a b h =
    let e : b ≡ 0 = omega arith in
    let f : a * 1 ≡ a = omega arith in rw (e, f) (bit_or-zero a ∙ omega arith)
bit_or-shl (suc k) a b h =
    let split : 2 ^ suc k ≡ 2 ^ k * 2 = pow-suc 2 k in
    let half : a * (2 ^ k * 2) / 2 ≡ a * 2 ^ k = omega arith in
    let low : a * (2 ^ k * 2) % 2 ≡ 0 = omega arith in
    let rest : bit_or (a * 2 ^ k) (b / 2) ≡ a * 2 ^ k + b / 2 =
      bit_or-shl k a (b / 2) (omega arith) in
    rw (split, bit_or_step (a * (2 ^ k * 2)) b, half, low, rest) (omega arith)
