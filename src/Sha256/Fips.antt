-- ===== src/Sha256/Fips.antt =====
-- SHA256 as FIPS 180-4 defines it, from roots of primes and from the digits of words, without any
-- function of src/sha256.c.
pub mod Functions
pub mod Rounds
pub mod Text
pub mod Equal
use fastd.Base.{
  ℕ, zero, suc, ◌+◌, ◌-◌, ◌*◌, ◌/◌, ◌%◌, ◌^◌, List, [], ◌∷◌, ◌++◌, leb, ◌==◌, if◌then◌else◌, length,
  get_or, take, drop, replicate, map,
}
use fastd.Base.Bits.{bit}
use fastd.Base.Words.{word_of}

-- The digit of a word that is rotated to the right by `r` places.
abbrev pub rotated : ℕ → ℕ → ℕ → ℕ
rotated x r j = bit x ((j + r) % 32)

-- The digit of a word that is shifted to the right by `s` places.
abbrev pub shifted : ℕ → ℕ → ℕ → ℕ
shifted x s j = bit x (j + s)

-- The functions of section 4.1.2, digit by digit: the sum of three digits without a carry, a choice of
-- the second or the third digit by the first, and the majority of three digits.
unfoldable pub big_sigma0 : ℕ → ℕ
big_sigma0 x = word_of 32 (λ j. (rotated x 2 j + rotated x 13 j + rotated x 22 j) % 2)

unfoldable pub big_sigma1 : ℕ → ℕ
big_sigma1 x = word_of 32 (λ j. (rotated x 6 j + rotated x 11 j + rotated x 25 j) % 2)

unfoldable pub small_sigma0 : ℕ → ℕ
small_sigma0 x = word_of 32 (λ j. (rotated x 7 j + rotated x 18 j + shifted x 3 j) % 2)

unfoldable pub small_sigma1 : ℕ → ℕ
small_sigma1 x = word_of 32 (λ j. (rotated x 17 j + rotated x 19 j + shifted x 10 j) % 2)

unfoldable pub ch : ℕ → ℕ → ℕ → ℕ
ch x y z = word_of 32 (λ j. if bit x j == 1 then bit y j else bit z j)

unfoldable pub maj : ℕ → ℕ → ℕ → ℕ
maj x y z = word_of 32 (λ j. (bit x j + bit y j + bit z j) / 2)

-- The largest number below `acc + 2 ^ n` whose `power`-th power is at most `x`, digit by digit.
unfoldable pub root : ℕ → ℕ → ℕ → ℕ → ℕ
root power x zero acc = acc
root power x (suc n) acc =
    let next = if leb ((acc + 2 ^ n) ^ power) x then acc + 2 ^ n else acc in root power x n next

-- The first 32 digits behind the point of the root of a number.
unfoldable pub fraction : ℕ → ℕ → ℕ
unfolding root
fraction power p = root power (p * 2 ^ (32 * power)) 40 0 % 2 ^ 32

abbrev pub first_primes : List ℕ
first_primes =
    2 ∷ 3 ∷ 5 ∷ 7 ∷ 11 ∷ 13 ∷ 17 ∷ 19 ∷ 23 ∷ 29 ∷ 31 ∷ 37 ∷ 41 ∷ 43 ∷ 47 ∷ 53 ∷ 59 ∷ 61 ∷ 67 ∷ 71
    ∷ 73 ∷ 79 ∷ 83 ∷ 89 ∷ 97 ∷ 101 ∷ 103 ∷ 107 ∷ 109 ∷ 113 ∷ 127 ∷ 131 ∷ 137 ∷ 139 ∷ 149 ∷ 151 ∷ 157
    ∷ 163 ∷ 167 ∷ 173 ∷ 179 ∷ 181 ∷ 191 ∷ 193 ∷ 197 ∷ 199 ∷ 211 ∷ 223 ∷ 227 ∷ 229 ∷ 233 ∷ 239 ∷ 241
    ∷ 251 ∷ 257 ∷ 263 ∷ 269 ∷ 271 ∷ 277 ∷ 281 ∷ 283 ∷ 293 ∷ 307 ∷ 311 ∷ []

-- The constants of section 4.2.2, from cube roots, and the initial hash of section 5.3.3, from square
-- roots.
unfoldable pub constants : List ℕ
unfolding fraction
constants = map (fraction 3) first_primes

unfoldable pub start : List ℕ
unfolding fraction
start = map (fraction 2) (take 8 first_primes)

-- The message schedule: `n` more words.
unfoldable pub expand : ℕ → List ℕ → List ℕ
expand zero w = w
expand (suc n) w =
    let t = length w in
    expand n (
      w
      ++ ((small_sigma1 (get_or w (t - 2) 0)
              + get_or w (t - 7) 0
              + small_sigma0 (get_or w (t - 15) 0)
              + get_or w (t - 16) 0)
            % 2 ^ 32
          ∷ []))

-- The eight working variables, and what a step makes of them.
pub record Working : Type 0 where
  pub a : ℕ
  pub b : ℕ
  pub c : ℕ
  pub d : ℕ
  pub e : ℕ
  pub f : ℕ
  pub g : ℕ
  pub h : ℕ

unfoldable pub step : ℕ → ℕ → Working → Working
step k w v =
    let t1 = (v.h + big_sigma1 v.e + ch v.e v.f v.g + k + w) % 2 ^ 32 in
    let t2 = (big_sigma0 v.a + maj v.a v.b v.c) % 2 ^ 32 in
    record {
      a = (t1 + t2) % 2 ^ 32;
      b = v.a;
      c = v.b;
      d = v.c;
      e = (v.d + t1) % 2 ^ 32;
      f = v.e;
      g = v.f;
      h = v.g;
    }

unfoldable pub steps : List ℕ → List ℕ → Working → Working
steps [] ws v = v
steps (k ∷ ks) [] v = v
steps (k ∷ ks) (w ∷ ws) v = steps ks ws (step k w v)

unfoldable pub working : List ℕ → Working
working h = record {
  a = get_or h 0 0;
  b = get_or h 1 0;
  c = get_or h 2 0;
  d = get_or h 3 0;
  e = get_or h 4 0;
  f = get_or h 5 0;
  g = get_or h 6 0;
  h = get_or h 7 0;
}

-- The hash computation of section 6.2.2 for one block of 16 words.
unfoldable pub block_hash : List ℕ → List ℕ → List ℕ
unfolding steps working
block_hash h m =
    let v = steps constants (expand 48 m) (working h) in
    (get_or h 0 0 + v.a) % 2 ^ 32
    ∷ (get_or h 1 0 + v.b) % 2 ^ 32
    ∷ (get_or h 2 0 + v.c) % 2 ^ 32
    ∷ (get_or h 3 0 + v.d) % 2 ^ 32
    ∷ (get_or h 4 0 + v.e) % 2 ^ 32
    ∷ (get_or h 5 0 + v.f) % 2 ^ 32
    ∷ (get_or h 6 0 + v.g) % 2 ^ 32
    ∷ (get_or h 7 0 + v.h) % 2 ^ 32
    ∷ []

unfoldable pub block_hashes : ℕ → List ℕ → List ℕ → List ℕ
block_hashes zero h ws = h
block_hashes (suc n) h ws = block_hashes n (block_hash h (take 16 ws)) (drop 16 ws)

-- A number in `n` bytes, the highest first.
unfoldable pub number_bytes : ℕ → ℕ → List ℕ
number_bytes zero x = []
number_bytes (suc n) x = x / 256 ^ n % 256 ∷ number_bytes n x

-- The padding of section 5.1.1: a one bit, the least number of zeroes, and the number of bits.
unfoldable pub padded_text : List ℕ → List ℕ
unfolding number_bytes
padded_text text =
    text
    ++ (128 ∷ (replicate ((119 - length text % 64) % 64) 0 ++ number_bytes 8 (length text * 8)))

-- The words of a text, whose first byte is the highest.
unfoldable pub text_words : List ℕ → List ℕ
text_words (a ∷ b ∷ c ∷ d ∷ rest) = (a * 2 ^ 24 + b * 2 ^ 16 + c * 2 ^ 8 + d) ∷ text_words rest
text_words (a ∷ b ∷ c ∷ []) = []
text_words (a ∷ b ∷ []) = []
text_words (a ∷ []) = []
text_words [] = []

unfoldable pub digest_bytes : List ℕ → List ℕ
unfolding number_bytes
digest_bytes [] = []
digest_bytes (x ∷ h) = number_bytes 4 x ++ digest_bytes h

-- SHA256 of a text of bytes.
unfoldable pub fips_sha256 : List ℕ → List ℕ
fips_sha256 text =
    let padded = padded_text text in
    digest_bytes (block_hashes (length padded / 64) start (text_words padded))
