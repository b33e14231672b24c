-- ===== src/Sha256/Fips/Equal.antt =====
-- src/sha256.c: sha256_list against the standard.
use fastd.Base.{ℕ, ◌/◌, ◌^◌, ◌<◌, ◌≡◌, sym, ap, ◌∙◌, some, List, length}
use fastd.Sha256.{sha256_list, out_bytes}
use fastd.Sha256.Padding.{padded, words}
use fastd.Sha256.Blocks.{Held}
use fastd.Sha256.Standard.{standard, sha256_list-standard}
use fastd.Sha256.Fips.{text_words, start, block_hashes, digest_bytes, fips_sha256}
use fastd.Sha256.Fips.Rounds.{list_of, absorb-start}
use fastd.Sha256.Fips.Text.{
  IsText, padded_lem, words_lem, words-padded-IsWord, out_bytes_lem, list_of-IsWord,
}

-- The code's blocks, padding and rounds together.
pub standard-fips_sha256 :
    (text : List ℕ) → IsText text → length text < 2 ^ 29 → standard text ≡ fips_sha256 text
unfolding standard fips_sha256
standard-fips_sha256 text t h =
    let n = length (padded text) / 64 in
    let ws = words (padded text) in
    let (u, w, e, f) = absorb-start n ws (words-padded-IsWord text t h) in
    ap out_bytes e
    ∙ out_bytes_lem (list_of u) (list_of-IsWord u w)
    ∙ ap digest_bytes (sym f)
    ∙ ap (λ l. digest_bytes (block_hashes n start l)) (words_lem (padded text))
    ∙ ap (λ p. digest_bytes (block_hashes (length p / 64) start (text_words p))) (padded_lem text h)

-- For blocks of 32 bytes that hold a text of bytes, sha256_list is SHA256 of FIPS 180-4: its constants
-- are the fractions of the roots of the first primes, its functions are given digit by digit, and its
-- padding is that of the standard, also for an incomplete last block, an empty text and a text that
-- leaves no room for its length. The count of bits is a single word in the code, so that the text must
-- be shorter than 2 ^ 29 bytes. Nothing is read behind the end of the text.
pub sha256_list-fips_sha256 :
    (input : List (List ℕ)) (text : List ℕ)
    → Held input text
    → IsText text
    → length text < 2 ^ 29
    → sha256_list input (length text) ≡ some (fips_sha256 text)
sha256_list-fips_sha256 input text k t h =
    sha256_list-standard input text k h ∙ ap some (standard-fips_sha256 text t h)
