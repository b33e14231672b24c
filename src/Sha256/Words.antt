-- ===== src/Sha256/Words.antt =====
-- src/sha256.c: the words of a padded text are those of the text with zeroes, but for the last one.
use fastd.Base.{
  ℕ, zero, suc, ◌+◌, ◌*◌, ◌/◌, ◌%◌, ◌^◌, ◌≤◌, ◌<◌, ◌≡◌, refl, sym, ap, ap₂, ◌∙◌, List, [], ◌∷◌,
  ◌++◌, arith, length, take, replicate, length-append, length-replicate, append_assoc, suc_add,
}
use fastd.Sha256.{of_bytes, to_bytes, word_mod}
use fastd.Sha256.Padding.{words, padded, bit_count, zero_count, reading, bytes}
use fastd.Sha256.Blocks.{quads}

-- A list with another last word.
abbrev pub with_last : List ℕ → ℕ → List ℕ
with_last [] x = []
with_last (w ∷ []) x = x ∷ []
with_last (w ∷ v ∷ ws) x = w ∷ with_last (v ∷ ws) x

pub with_last-append :
    (xs : List ℕ) (v : ℕ) (ws : List ℕ) (x : ℕ)
    → with_last (xs ++ (v ∷ ws)) x ≡ xs ++ with_last (v ∷ ws) x
with_last-append [] v ws x = refl
with_last-append (y ∷ []) v ws x = refl
with_last-append (y ∷ z ∷ xs) v ws x = ap (λ l. y ∷ l) (with_last-append (z ∷ xs) v ws x)

pub take-with_last :
    (n : ℕ) (ws : List ℕ) (x : ℕ) → length ws ≡ suc n → take n ws ++ (x ∷ []) ≡ with_last ws x
take-with_last n [] x h = absurd (omega (arith, h))
take-with_last zero (w ∷ []) x h = refl
take-with_last zero (w ∷ v ∷ ws) x h = absurd (omega (arith, h))
take-with_last (suc n) (w ∷ []) x h = absurd (omega (arith, h))
take-with_last (suc n) (w ∷ v ∷ ws) x h =
    ap (λ l. w ∷ l) (take-with_last n (v ∷ ws) x (omega (arith, h)))

pub words-append :
    (n : ℕ) (xs ys : List ℕ) → length xs ≡ quads n → words (xs ++ ys) ≡ words xs ++ words ys
words-append zero [] ys h = refl
words-append zero (x ∷ xs) ys h = absurd (omega (arith, h))
words-append (suc n) (a ∷ b ∷ c ∷ d ∷ xs) ys h =
    ap (λ l. of_bytes (a ∷ b ∷ c ∷ d ∷ []) ∷ l) (words-append n xs ys (omega (arith, h)))
words-append (suc n) (a ∷ b ∷ c ∷ []) ys h = absurd (omega (arith, h))
words-append (suc n) (a ∷ b ∷ []) ys h = absurd (omega (arith, h))
words-append (suc n) (a ∷ []) ys h = absurd (omega (arith, h))
words-append (suc n) [] ys h = absurd (omega (arith, h))

pub length-words : (n : ℕ) (xs : List ℕ) → length xs ≡ quads n → length (words xs) ≡ n
length-words zero [] h = refl
length-words zero (x ∷ xs) h = absurd (omega (arith, h))
length-words (suc n) (a ∷ b ∷ c ∷ d ∷ xs) h = omega (arith, length-words n xs (omega (arith, h)))
length-words (suc n) (a ∷ b ∷ c ∷ []) h = absurd (omega (arith, h))
length-words (suc n) (a ∷ b ∷ []) h = absurd (omega (arith, h))
length-words (suc n) (a ∷ []) h = absurd (omega (arith, h))
length-words (suc n) [] h = absurd (omega (arith, h))

-- There is a word where there are four bytes.
pub words-some : (xs : List ℕ) → 4 ≤ length xs → (v : ℕ) × (ws : List ℕ) × (words xs ≡ v ∷ ws)
words-some (a ∷ b ∷ c ∷ d ∷ xs) h = (of_bytes (a ∷ b ∷ c ∷ d ∷ []), words xs, refl)
words-some (a ∷ b ∷ c ∷ []) h = absurd (omega (arith, h))
words-some (a ∷ b ∷ []) h = absurd (omega (arith, h))
words-some (a ∷ []) h = absurd (omega (arith, h))
words-some [] h = absurd (omega (arith, h))

pub quads_mul : (n : ℕ) → quads n ≡ n * 4
quads_mul zero = refl
quads_mul (suc n) = omega (arith, quads_mul n)

replicate-add : (m n a : ℕ) → replicate (m + n) a ≡ replicate m a ++ replicate n a
replicate-add zero n a = ap (λ k. replicate k a) (omega arith)
replicate-add (suc m) n a =
    ap (λ k. replicate k a) (suc_add m n) ∙ ap (λ l. a ∷ l) (replicate-add m n a)

of_bytes-to_bytes : (x : ℕ) → x < word_mod → of_bytes (to_bytes x) ≡ x
of_bytes-to_bytes x h = omega (arith, h)

words-bit_count : (len : ℕ) → len < 2 ^ 29 → words (bit_count len) ≡ 0 ∷ len * 8 % word_mod ∷ []
words-bit_count len h =
    ap₂ (λ x y. x ∷ y ∷ [])
      (of_bytes-to_bytes (len * 8 / word_mod) (omega (arith, h)) ∙ omega (arith, h))
      (of_bytes-to_bytes (len * 8 % word_mod) (omega arith))

pub words-padded :
    (text : List ℕ)
    → length text < 2 ^ 29
    → words (padded text)
      ≡ with_last
          (words (bytes (reading text) (zero_count (length text) + 8)))
          (length text * 8 % word_mod)
unfolding padded
words-padded text h =
    ap words (sym (append_assoc text (128 ∷ replicate z 0) (bit_count len)))
    ∙ words-append q start (bit_count len) enough
    ∙ ap (λ l. words start ++ l) (words-bit_count len h)
    ∙ sym (with_last-append (words start) 0 (0 ∷ []) (len * 8 % word_mod))
    ∙ ap (λ l. with_last l (len * 8 % word_mod)) (sym zeroes)
  where
    len : ℕ
    len = length text

    z : ℕ
    z = zero_count len

    start : List ℕ
    start = text ++ (128 ∷ replicate z 0)

    q : ℕ
    q = (len + 1 + z) / 4

    enough : length start ≡ quads q
    enough =
        omega (
          arith,
          length-append text (128 ∷ replicate z 0),
          length-replicate {A = ℕ} z 0,
          quads_mul q,
        )

    zeroes : words (bytes (reading text) (z + 8)) ≡ words start ++ (0 ∷ 0 ∷ [])
    zeroes =
        ap (λ l. words (text ++ (128 ∷ l))) (replicate-add z 8 0)
        ∙ ap words (sym (append_assoc text (128 ∷ replicate z 0) (replicate 8 0)))
        ∙ words-append q start (replicate 8 0) enough
