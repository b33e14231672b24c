-- ===== src/Sha256/Standard.antt =====
-- src/sha256.c: the hash of a text in blocks, and of a text in one piece, by the blocks of the padded text.
use fastd.Base.{
  ℕ, zero, suc, ◌+◌, ◌-◌, ◌*◌, ◌/◌, ◌%◌, ◌^◌, ◌≤◌, ◌<◌, ◌≡◌, refl, sym, ap, ◌∙◌, some, List, [],
  ◌∷◌, ◌++◌, arith, length, take, drop, length-append, length-replicate, length-drop, replicate,
  take-append-drop, append_assoc, subst,
}
use fastd.Sha256.{
  block_bytes, word_mod, initial, sha256_loop, sha256_list, out_bytes, split_blocks, sha256,
}
use fastd.Sha256.Padding.{words, padded, zero_count, bit_count, reading, bytes, Memory}
use fastd.Sha256.Blocks.{Held}
use fastd.Sha256.Words.{with_last, words-padded}
use fastd.Sha256.Hash.{absorb, loop_lem}

-- The code's rounds over the blocks of the padded text, whose length is a multiple of 64. For a text of
-- bytes this is the hash of the standard (Fips.Equal).
unfoldable pub standard : List ℕ → List ℕ
standard text = out_bytes (absorb (length (padded text) / 64) initial (words (padded text)))

list-run :
    (input : List (List ℕ)) (len : ℕ) (h : List ℕ)
    → sha256_loop (len + 10) initial input len 0 ≡ some h
    → sha256_list input len ≡ some (out_bytes h)
unfolding sha256_list
list-run input len h e = rw e refl

standard_lem :
    (n : ℕ) (text ws : List ℕ)
    → length (padded text) / 64 ≡ n
    → words (padded text) ≡ ws
    → standard text ≡ out_bytes (absorb n initial ws)
unfolding standard
standard_lem n text ws e f = rw (e, f) refl

length-padded : (text : List ℕ) → length (padded text) ≡ length text + 9 + zero_count (length text)
unfolding padded
length-padded text =
    let z = zero_count (length text) in
    omega (
      arith,
      length-append text (128 ∷ (replicate z 0 ++ bit_count (length text))),
      length-append (replicate z 0) (bit_count (length text)),
      length-replicate {A = ℕ} z 0,
    )

-- For blocks of 32 bytes that hold a text of less than 2 ^ 29 bytes, the code's blocks and words are
-- those of the padded text. Nothing is read behind the end of the text.
pub sha256_list-standard :
    (input : List (List ℕ)) (text : List ℕ)
    → Held input text
    → length text < 2 ^ 29
    → sha256_list input (length text) ≡ some (standard text)
sha256_list-standard input text k h =
    list-run input len (absorb (suc n) initial ws) (
      loop_lem len n (len + 10) 0 (zero_count len + 8) initial (reading text) input (omega arith)
        (omega arith) k (omega (arith, fill)) (omega arith) (omega arith))
    ∙ ap some (
        sym
          (standard_lem (suc n) text ws (omega (arith, length-padded text)) (words-padded text h)))
  where
    len : ℕ
    len = length text

    n : ℕ
    n = (len + 8) / 64

    ws : List ℕ
    ws = with_last (words (bytes (reading text) (zero_count len + 8))) (len * 8 % word_mod)

    fill : length (bytes (reading text) (zero_count len + 8)) ≡ len + 9 + zero_count len
    fill = omega (
      arith,
      length-append text (128 ∷ replicate (zero_count len + 8) 0),
      length-replicate {A = ℕ} (zero_count len + 8) 0,
    )

Memory-split : (n : ℕ) (text extra : List ℕ) → Memory n text (text ++ extra)
Memory-split n text extra = (
  drop n text ++ extra,
  ap (λ l. l ++ extra) (sym (take-append-drop n text))
      ∙ append_assoc (take n text) (drop n text) extra,
)

drop-short :
    (n : ℕ) (text extra : List ℕ)
    → (extra' : List ℕ) × (drop n (text ++ extra) ≡ drop n text ++ extra')
drop-short zero text extra = (extra, refl)
drop-short (suc n) [] extra = (drop (suc n) extra, refl)
drop-short (suc n) (x ∷ text) extra = drop-short n text extra

pub split-Held :
    (n : ℕ) (text extra : List ℕ)
    → length text ≤ n * block_bytes
    → Held (split_blocks n (text ++ extra)) text
unfolding split_blocks
split-Held zero [] extra h = refl
split-Held zero (x ∷ text) extra h = absurd (omega (arith, h))
split-Held (suc n) text extra h =
    let (extra', e) = drop-short block_bytes text extra in
    (
      Memory-split block_bytes text extra,
      subst (λ m. Held (split_blocks n m) (drop block_bytes text)) (sym e)
          (split-Held n (drop block_bytes text) extra'
            (omega (arith, length-drop block_bytes text, h))),
    )

-- fastd_sha256 hashes the first bytes of a memory.
pub sha256-standard :
    (text extra : List ℕ)
    → length text < 2 ^ 29
    → sha256 (text ++ extra) (length text) ≡ some (standard text)
unfolding sha256
sha256-standard text extra h =
    sha256_list-standard
      (split_blocks ((length text + block_bytes - 1) / block_bytes) (text ++ extra)) text
      (split-Held ((length text + block_bytes - 1) / block_bytes) text extra (omega arith)) h
