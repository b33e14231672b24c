-- ===== src/Sha256/Padding.antt =====
-- src/sha256.c: the padding of the standard, and that copy_words makes its words.
use fastd.Base.{
  ℕ, zero, suc, ◌+◌, ◌-◌, ◌*◌, ◌/◌, ◌%◌, ◌^◌, ◌≤◌, ◌<◌, ◌≡◌, refl, sym, ap, ◌∙◌, true, false, some,
  List, [], ◌∷◌, ◌++◌, ltb, leb, ◌==◌, if◌then◌else◌, arith, length, take, replicate, ap₂,
  length-append, take-length_append, take-all,
}
use native.Mathlib.Nat.{pow-suc}
use fastd.Base.Bits.{bit_or, bit_or_step}
use fastd.Sha256.{of_bytes, read, copy_word, to_bytes, word_mod}

-- FIPS 180-4: a one bit, as many zeroes as it takes, and the number of bits.
abbrev pub bit_count : ℕ → List ℕ
bit_count len = to_bytes (len * 8 / word_mod) ++ to_bytes (len * 8 % word_mod)

abbrev pub zero_count : ℕ → ℕ
zero_count len = (119 - len % 64) % 64

unfoldable pub padded : List ℕ → List ℕ
padded text = text ++ (128 ∷ (replicate (zero_count (length text)) 0 ++ bit_count (length text)))

-- The words of a list of bytes.
abbrev pub words : List ℕ → List ℕ
words (a ∷ b ∷ c ∷ d ∷ rest) = of_bytes (a ∷ b ∷ c ∷ d ∷ []) ∷ words rest
words (a ∷ b ∷ c ∷ []) = []
words (a ∷ b ∷ []) = []
words (a ∷ []) = []
words [] = []

or_zero : (n x : ℕ) → x ≤ n → bit_or x 0 ≡ x
or_zero n zero h = refl
or_zero zero (suc x) h = absurd (omega arith)
or_zero (suc n) (suc x) h =
    omega (arith, bit_or_step (suc x) 0, or_zero n (suc x / 2) (omega arith))

or-double : (a b : ℕ) → bit_or (a * 2) (b * 2) ≡ bit_or a b * 2
or-double a b = omega (arith, bit_or_step (a * 2) (b * 2), halves)
  where
    halves : bit_or (a * 2 / 2) (b * 2 / 2) ≡ bit_or a b
    halves = ap₂ bit_or (omega arith) (omega arith)

or-below : (j x : ℕ) → bit_or (x * 2 ^ suc j) (2 ^ j) ≡ x * 2 ^ suc j + 2 ^ j
or-below zero x = omega (arith, bit_or_step (x * 2) 1, half)
  where
    half : bit_or (x * 2 / 2) (1 / 2) ≡ x
    half = ap (λ y. bit_or y 0) (omega arith) ∙ or_zero x x (omega arith)
or-below (suc j) x =
    ap₂ bit_or left (pow-suc 2 j)
    ∙ or-double (x * 2 ^ suc j) (2 ^ j)
    ∙ omega (arith, or-below j x, left, pow-suc 2 j)
  where
    left : x * 2 ^ suc (suc j) ≡ x * 2 ^ suc j * 2
    left = rw (pow-suc 2 (suc j)) (grind arith)

-- What is left of a text: bytes, or nothing, with or without the one bit behind it.
pub data Stage : Type 0 where
  reading : List ℕ → Stage
  ended : Stage

abbrev pub bytes : Stage → ℕ → List ℕ
bytes (reading rest) n = rest ++ (128 ∷ replicate n 0)
bytes ended n = replicate n 0

abbrev pub rest_of : Stage → List ℕ
rest_of (reading rest) = rest
rest_of ended = []

abbrev pub At : ℕ → ℕ → Stage → Type 0
At len p (reading rest) = p + length rest ≡ len
At len p ended = len < p

-- The memory of a block has the next `n` bytes.
abbrev pub Memory : ℕ → List ℕ → List ℕ → Type 0
Memory n rest block = (extra : List ℕ) × (block ≡ take n rest ++ extra)

abbrev pub step : Stage → Stage
step (reading (a ∷ b ∷ c ∷ d ∷ rest)) = reading rest
step (reading (a ∷ b ∷ c ∷ [])) = ended
step (reading (a ∷ b ∷ [])) = ended
step (reading (a ∷ [])) = ended
step (reading []) = ended
step ended = ended

pub data Word (len p n : ℕ) (s : Stage) (block : List ℕ) : Type 0 where
  word :
      (a b c d n' : ℕ)
      → bytes s n ≡ a ∷ b ∷ c ∷ d ∷ bytes (step s) n'
      → copy_word block len p ≡ some (of_bytes (a ∷ b ∷ c ∷ d ∷ []))
      → At len (p + 4) (step s)
      → Word len p n s block

copy-four :
    (len p a b c d : ℕ) (rest : List ℕ)
    → leb (p + 4) len ≡ true
    → copy_word (a ∷ b ∷ c ∷ d ∷ rest) len p ≡ some (of_bytes (a ∷ b ∷ c ∷ d ∷ []))
unfolding copy_word read
copy-four len p a b c d rest e = rw e (rw enough refl)
  where
    enough : leb 4 (length (a ∷ b ∷ c ∷ d ∷ rest)) ≡ true
    enough = ground arith

copy-behind :
    (len p : ℕ) (block : List ℕ)
    → leb (p + 4) len ≡ false
    → ltb p len ≡ false
    → copy_word block len p ≡ some (if p == len then 2 ^ 31 else 0)
unfolding copy_word
copy-behind len p block e f = rw (e, f) (ground arith)

copy-part :
    (len p left : ℕ) (part extra : List ℕ)
    → leb (p + 4) len ≡ false
    → ltb p len ≡ true
    → len - p ≡ left
    → length part ≡ left
    → copy_word (part ++ extra) len p
      ≡ some (bit_or (of_bytes (part ++ replicate (4 - left) 0)) (2 ^ 31 / 2 ^ (left * 8)))
unfolding copy_word read
copy-part len p left part extra e f g h = rw (e, f, g) (rw enough (rw start refl))
  where
    enough : leb left (length (part ++ extra)) ≡ true
    enough = ground (arith, h, length-append part extra)

    start : take left (part ++ extra) ≡ part
    start = ap (λ n. take n (part ++ extra)) (sym h) ∙ take-length_append part extra

module _ (len p : ℕ) where
  abbrev pub Found : ℕ → Stage → List ℕ → Type 0
  Found n s block =
      At len p s → 4 ≤ length (bytes s n) → Memory 4 (rest_of s) block → Word len p n s block

  word-part :
      (left y : ℕ) (part block : List ℕ)
      → p + left ≡ len
      → length part ≡ left
      → left < 4
      → 0 < left
      → Memory 4 part block
      → bit_or (of_bytes (part ++ replicate (4 - left) 0)) (2 ^ 31 / 2 ^ (left * 8)) ≡ y
      → copy_word block len p ≡ some y
  word-part left y part block h l u v (extra, e) f =
      ap (λ b. copy_word b len p) (e ∙ ap (λ x. x ++ extra) (take-all 4 part (omega arith)))
      ∙ copy-part len p left part extra (ground arith) (ground arith) (omega arith) l
      ∙ ap some f

  read-four : (n a b c d : ℕ) (rest block : List ℕ) → Found n (reading (a ∷ b ∷ c ∷ d ∷ rest)) block
  read-four n a b c d rest block h k (extra, e) =
      word a b c d n refl
        (ap (λ x. copy_word x len p) e ∙ copy-four len p a b c d extra (ground (arith, h)))
        (omega (arith, h))

  read-three : (n a b c : ℕ) (block : List ℕ) → Found n (reading (a ∷ b ∷ c ∷ [])) block
  read-three n a b c block h k m =
      word a b c 128 n refl
        (word-part 3 (of_bytes (a ∷ b ∷ c ∷ 128 ∷ [])) (a ∷ b ∷ c ∷ []) block h refl (omega arith)
          (omega arith) m (below ∙ omega arith))
        (omega (arith, h))
    where
      below :
          bit_or (of_bytes (a ∷ b ∷ c ∷ 0 ∷ [])) (2 ^ 7) ≡ ((a * 256 + b) * 256 + c) * 2 ^ 8 + 2 ^ 7
      below = ap (λ x. bit_or x (2 ^ 7)) (omega arith) ∙ or-below 7 ((a * 256 + b) * 256 + c)

  read-two : (n a b : ℕ) (block : List ℕ) → Found n (reading (a ∷ b ∷ [])) block
  read-two zero a b block h k m = absurd (omega (arith, k))
  read-two (suc n) a b block h k m =
      word a b 128 0 n refl
        (word-part 2 (of_bytes (a ∷ b ∷ 128 ∷ 0 ∷ [])) (a ∷ b ∷ []) block h refl (omega arith)
          (omega arith) m (below ∙ omega arith))
        (omega (arith, h))
    where
      below : bit_or (of_bytes (a ∷ b ∷ 0 ∷ 0 ∷ [])) (2 ^ 15) ≡ (a * 256 + b) * 2 ^ 16 + 2 ^ 15
      below = ap (λ x. bit_or x (2 ^ 15)) (omega arith) ∙ or-below 15 (a * 256 + b)

  read-one : (n a : ℕ) (block : List ℕ) → Found n (reading (a ∷ [])) block
  read-one zero a block h k m = absurd (omega (arith, k))
  read-one (suc zero) a block h k m = absurd (omega (arith, k))
  read-one (suc (suc n)) a block h k m =
      word a 128 0 0 n refl
        (word-part 1 (of_bytes (a ∷ 128 ∷ 0 ∷ 0 ∷ [])) (a ∷ []) block h refl (omega arith)
          (omega arith) m (below ∙ omega arith))
        (omega (arith, h))
    where
      below : bit_or (of_bytes (a ∷ 0 ∷ 0 ∷ 0 ∷ [])) (2 ^ 23) ≡ a * 2 ^ 24 + 2 ^ 23
      below = ap (λ x. bit_or x (2 ^ 23)) (omega arith) ∙ or-below 23 a

  read-end : (n : ℕ) (block : List ℕ) → Found n (reading []) block
  read-end (suc (suc (suc n))) block h k m =
      word 128 0 0 0 n refl
        (copy-behind len p block (ground (arith, h)) (ground (arith, h))
          ∙ ap some (ground (arith, h)))
        (omega (arith, h))
  read-end zero block h k m = absurd (omega (arith, k))
  read-end (suc zero) block h k m = absurd (omega (arith, k))
  read-end (suc (suc zero)) block h k m = absurd (omega (arith, k))

  read-behind : (n : ℕ) (block : List ℕ) → Found n ended block
  read-behind (suc (suc (suc (suc n)))) block h k m =
      word 0 0 0 0 n refl
        (copy-behind len p block (ground (arith, h)) (ground (arith, h))
          ∙ ap some (ground (arith, h)))
        (omega (arith, h))
  read-behind zero block h k m = absurd (omega (arith, k))
  read-behind (suc zero) block h k m = absurd (omega (arith, k))
  read-behind (suc (suc zero)) block h k m = absurd (omega (arith, k))
  read-behind (suc (suc (suc zero))) block h k m = absurd (omega (arith, k))

  -- The next word of the text, of its one bit or of the zeroes behind it.
  pub copy_word_lem : (n : ℕ) (s : Stage) (block : List ℕ) → Found n s block
  copy_word_lem n (reading (a ∷ b ∷ c ∷ d ∷ rest)) block = read-four n a b c d rest block
  copy_word_lem n (reading (a ∷ b ∷ c ∷ [])) block = read-three n a b c block
  copy_word_lem n (reading (a ∷ b ∷ [])) block = read-two n a b block
  copy_word_lem n (reading (a ∷ [])) block = read-one n a block
  copy_word_lem n (reading []) block = read-end n block
  copy_word_lem n ended block = read-behind n block
