-- ===== src/Sha256/Fips/Text.antt =====
-- src/sha256.c: the bytes and words of a padded text and of a hash.
use fastd.Base.{
  ℕ, zero, suc, ◌*◌, ◌^◌, ◌<◌, ◌≡◌, refl, ap, ap₂, List, [], ◌∷◌, ◌++◌, arith, length, All,
  All-append, replicate,
}
use fastd.Sha256.{to_bytes, out_bytes}
use fastd.Sha256.Padding.{words, padded, bit_count, zero_count}
use fastd.Sha256.Fips.{number_bytes, padded_text, text_words, digest_bytes, Working}
use fastd.Sha256.Fips.Rounds.{IsWord, IsWorking, list_of}

abbrev pub IsText : List ℕ → Type 0
IsText = All (λ x. x < 256)

bit_count_lem : (len : ℕ) → len < 2 ^ 29 → bit_count len ≡ number_bytes 8 (len * 8)
unfolding number_bytes
bit_count_lem len h = ap₂ ◌∷◌ (omega (arith, h)) (
    ap₂ ◌∷◌ (omega (arith, h)) (
      ap₂ ◌∷◌ (omega (arith, h)) (
        ap₂ ◌∷◌ (omega (arith, h)) (
          ap₂ ◌∷◌ (omega (arith, h)) (
            ap₂ ◌∷◌ (omega (arith, h))
              (ap₂ ◌∷◌ (omega (arith, h)) (ap₂ ◌∷◌ (omega (arith, h)) (refl))))))))

pub padded_lem : (text : List ℕ) → length text < 2 ^ 29 → padded text ≡ padded_text text
unfolding padded padded_text
padded_lem text h =
    ap (λ c. text ++ (128 ∷ (replicate (zero_count (length text)) 0 ++ c)))
      (bit_count_lem (length text) h)

pub words_lem : (text : List ℕ) → words text ≡ text_words text
unfolding text_words
words_lem (a ∷ b ∷ c ∷ d ∷ rest) = ap₂ ◌∷◌ (omega arith) (words_lem rest)
words_lem (a ∷ b ∷ c ∷ []) = refl
words_lem (a ∷ b ∷ []) = refl
words_lem (a ∷ []) = refl
words_lem [] = refl

words-IsWord : (text : List ℕ) → IsText text → All IsWord (words text)
words-IsWord (a ∷ b ∷ c ∷ d ∷ rest) h =
    (omega (arith, h.0, h.1.0, h.1.1.0, h.1.1.1.0), words-IsWord rest h.1.1.1.1)
words-IsWord (a ∷ b ∷ c ∷ []) h = tt
words-IsWord (a ∷ b ∷ []) h = tt
words-IsWord (a ∷ []) h = tt
words-IsWord [] h = tt

replicate-IsText : (n : ℕ) → IsText (replicate n 0)
replicate-IsText zero = tt
replicate-IsText (suc n) = (omega arith, replicate-IsText n)

bit_count-IsText : (len : ℕ) → len < 2 ^ 29 → IsText (bit_count len)
bit_count-IsText len h = omega (arith, h)

pub words-padded-IsWord :
    (text : List ℕ) → IsText text → length text < 2 ^ 29 → All IsWord (words (padded text))
unfolding padded
words-padded-IsWord text t h = words-IsWord (padded text) (
    All-append (λ x. x < 256) text (128 ∷ (zeros ++ bit_count (length text))) t
      (
        omega arith,
        All-append (λ x. x < 256) zeros (bit_count (length text)) (replicate-IsText _)
            (bit_count-IsText (length text) h),
      ))
  where
    zeros : List ℕ
    zeros = replicate (zero_count (length text)) 0

to_bytes_lem : (x : ℕ) → IsWord x → to_bytes x ≡ number_bytes 4 x
unfolding number_bytes
to_bytes_lem x h =
    ap₂ ◌∷◌ (omega (arith, h))
      (ap₂ ◌∷◌ (omega (arith, h)) (ap₂ ◌∷◌ (omega (arith, h)) (ap₂ ◌∷◌ (omega (arith, h)) (refl))))

pub out_bytes_lem : (h : List ℕ) → All IsWord h → out_bytes h ≡ digest_bytes h
unfolding out_bytes digest_bytes
out_bytes_lem [] w = refl
out_bytes_lem (x ∷ h) w = ap₂ (λ p q. p ++ q) (to_bytes_lem x w.0) (out_bytes_lem h w.1)

pub list_of-IsWord : (v : Working) → IsWorking v → All IsWord (list_of v)
list_of-IsWord v w = (w.a, (w.b, (w.c, (w.d, (w.e, (w.f, (w.g, (w.h, tt))))))))
