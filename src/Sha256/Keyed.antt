-- ===== src/Sha256/Keyed.antt =====
-- src/sha256.c: HMAC-SHA256 against its definition.
use fastd.Base.{
  Bool, true, ◌↔◌, ℕ, zero, suc, ◌+◌, ◌-◌, ◌*◌, ◌/◌, ◌^◌, ◌<◌, ◌≡◌, refl, sym, ap, subst, ◌∙◌, some,
  List, [], ◌∷◌, ◌++◌, map, arith, length, take, drop, length-append, replicate, take-length_append,
  drop-length_append, append-nil, append_assoc,
}
use fastd.Base.Bits.{bit_xor}
use fastd.Crypto.{block_equal}
use fastd.Crypto.Xor.{block_equal_iff}
use fastd.Sha256.{
  hmacsha256_verify, block_bytes, initial, compress, rounds, schedule, add_words, out_bytes,
  sha256_list, sha256_blocks, key_pad, split_blocks, hmacsha256_list, hmacsha256, k,
}
use fastd.Sha256.Padding.{padded, words}
use fastd.Sha256.Blocks.{Held}
use fastd.Sha256.Hash.{absorb}
use fastd.Sha256.Standard.{standard, sha256_list-standard, split-Held}

-- HMAC of RFC 2104 with SHA256, for a key of 32 bytes, which is filled up to the 64 bytes of a block.
abbrev pub filled_key : List ℕ → List ℕ
filled_key key = key ++ replicate 32 0

unfoldable pub standard_hmac : List ℕ → List ℕ → List ℕ
standard_hmac key text = standard (
    map (λ x. bit_xor x 0x5c) (filled_key key)
    ++ standard (map (λ x. bit_xor x 0x36) (filled_key key) ++ text))

length-add_words : (h v : List ℕ) → length (add_words h v) ≡ length h
unfolding add_words
length-add_words [] v = refl
length-add_words (x ∷ h) [] = refl
length-add_words (x ∷ h) (y ∷ v) = omega (arith, length-add_words h v)

length-compress : (h w : List ℕ) → length (compress h w) ≡ length h
unfolding compress
length-compress h w = length-add_words h (rounds k (schedule 48 w) h)

length-absorb : (n : ℕ) (h ws : List ℕ) → length (absorb n h ws) ≡ length h
unfolding absorb
length-absorb zero h ws = refl
length-absorb (suc n) h ws =
    length-absorb n (compress h (take 16 ws)) (drop 16 ws) ∙ length-compress h (take 16 ws)

length-out_bytes : (h : List ℕ) → length (out_bytes h) ≡ length h * 4
unfolding out_bytes
length-out_bytes [] = refl
length-out_bytes (x ∷ h) = omega (arith, length-out_bytes h)

pub length-standard : (text : List ℕ) → length (standard text) ≡ 32
unfolding standard
length-standard text =
    let n = length (padded text) / 64 in
    let ws = words (padded text) in
    length-out_bytes (absorb n initial ws) ∙ ap (λ m. m * 4) (length-absorb n initial ws)

-- A block of 32 bytes in front.
Held-cons :
    (block : List ℕ) (input : List (List ℕ)) (text : List ℕ)
    → length block ≡ block_bytes
    → Held input text
    → Held (block ∷ input) (block ++ text)
Held-cons block input text e h =
    let start = ap (λ n. take n (block ++ text)) (sym e) ∙ take-length_append block text in
    let behind = ap (λ n. drop n (block ++ text)) (sym e) ∙ drop-length_append block text in
    (([], sym (ap (λ l. l ++ []) start ∙ append-nil block)), subst (Held input) (sym behind) h)

length-key_pad : (v : ℕ) (key : List ℕ) → length (key_pad v key) ≡ length key
length-key_pad v [] = refl
length-key_pad v (x ∷ key) = omega (arith, length-key_pad v key)

key_pad-append : (v : ℕ) (xs ys : List ℕ) → key_pad v (xs ++ ys) ≡ key_pad v xs ++ key_pad v ys
key_pad-append v [] ys = refl
key_pad-append v (x ∷ xs) ys = ap (λ l. bit_xor x v ∷ l) (key_pad-append v xs ys)

-- Two blocks of the key and what is hashed behind them.
keyed :
    (v : ℕ) (pad key : List ℕ) (input : List (List ℕ)) (text : List ℕ)
    → length key ≡ 32
    → key_pad v (replicate 32 0) ≡ pad
    → length pad ≡ 32
    → Held input text
    → length text + 64 < 2 ^ 29
    → sha256_list (key_pad v key ∷ pad ∷ input) (length text + 2 * block_bytes)
      ≡ some (standard (map (λ x. bit_xor x v) (filled_key key) ++ text))
keyed v pad key input text e f g h l =
    ap (sha256_list (key_pad v key ∷ pad ∷ input)) (sym size)
    ∙ sha256_list-standard (key_pad v key ∷ pad ∷ input) whole
        (Held-cons (key_pad v key) (pad ∷ input) (pad ++ text) (length-key_pad v key ∙ e)
          (Held-cons pad input text g h))
        (omega (arith, size, l))
    ∙ ap (λ t. some (standard t)) joined
  where
    whole : List ℕ
    whole = key_pad v key ++ (pad ++ text)

    size : length whole ≡ length text + 2 * block_bytes
    size = omega (
      arith,
      length-append (key_pad v key) (pad ++ text),
      length-append pad text,
      length-key_pad v key,
      e,
      g,
    )

    joined : whole ≡ key_pad v (filled_key key) ++ text
    joined =
        sym (append_assoc (key_pad v key) pad text)
        ∙ ap (λ p. (key_pad v key ++ p) ++ text) (sym f)
        ∙ ap (λ l. l ++ text) (sym (key_pad-append v key (replicate 32 0)))

hmac-run :
    (key : List ℕ) (input : List (List ℕ)) (len : ℕ) (temp out : List ℕ)
    → sha256_list (key_pad 0x36 key ∷ replicate block_bytes 0x36 ∷ input) (len + 2 * block_bytes)
      ≡ some temp
    → sha256_list (key_pad 0x5c key ∷ replicate block_bytes 0x5c ∷ temp ∷ []) 96 ≡ some out
    → hmacsha256_list key input len ≡ some out
unfolding hmacsha256_list sha256_blocks
hmac-run key input len temp out e f = rw e f

-- For a key of 32 bytes and blocks that hold a text that with 64 bytes more is shorter than 2 ^ 29
-- bytes, hmacsha256_list is HMAC-SHA256 of the key and the text.
pub hmacsha256_list-standard :
    (key : List ℕ) (input : List (List ℕ)) (text : List ℕ)
    → length key ≡ 32
    → Held input text
    → length text + 64 < 2 ^ 29
    → hmacsha256_list key input (length text) ≡ some (standard_hmac key text)
unfolding standard_hmac
hmacsha256_list-standard key input text e h l =
    hmac-run key input (length text) temp
      (standard (map (λ x. bit_xor x 0x5c) (filled_key key) ++ temp))
      (keyed 0x36 (replicate 32 0x36) key input text e refl refl h l)
      (ap (sha256_list (key_pad 0x5c key ∷ replicate block_bytes 0x5c ∷ temp ∷ []))
          (omega (arith, size))
        ∙ keyed 0x5c (replicate 32 0x5c) key (temp ∷ []) temp e refl refl single
            (omega (arith, size)))
  where
    temp : List ℕ
    temp = standard (map (λ x. bit_xor x 0x36) (filled_key key) ++ text)

    size : length temp ≡ 32
    size = length-standard (map (λ x. bit_xor x 0x36) (filled_key key) ++ text)

    single : Held (temp ∷ []) temp
    single = subst (Held (temp ∷ [])) (append-nil temp) (Held-cons temp [] [] size refl)

-- fastd_hmacsha256 of the first bytes of a memory is HMAC-SHA256 of those bytes.
pub hmacsha256-standard :
    (key text extra : List ℕ)
    → length key ≡ 32
    → length text + 64 < 2 ^ 29
    → hmacsha256 key (text ++ extra) (length text) ≡ some (standard_hmac key text)
unfolding hmacsha256
hmacsha256-standard key text extra e l =
    hmacsha256_list-standard key
      (split_blocks ((length text + block_bytes - 1) / block_bytes) (text ++ extra)) text e
      (split-Held ((length text + block_bytes - 1) / block_bytes) text extra (omega arith)) l

pub length-standard_hmac : (key text : List ℕ) → length (standard_hmac key text) ≡ 32
unfolding standard_hmac
length-standard_hmac key text = length-standard (
    map (λ x. bit_xor x 0x5c) (filled_key key)
    ++ standard (map (λ x. bit_xor x 0x36) (filled_key key) ++ text))

verify-run :
    (mac key memory out : List ℕ) (len : ℕ)
    → hmacsha256 key memory len ≡ some out
    → hmacsha256_verify mac key memory len ≡ some (block_equal out mac)
unfolding hmacsha256_verify
verify-run mac key memory out len e = rw e refl

-- For a key and a MAC of 32 bytes and the first bytes of a memory, fastd_hmacsha256_verify accepts the
-- MAC exactly if it is HMAC-SHA256 of those bytes.
pub hmacsha256_verify_iff :
    (mac key text extra : List ℕ)
    → length mac ≡ 32
    → length key ≡ 32
    → length text + 64 < 2 ^ 29
    → (hmacsha256_verify mac key (text ++ extra) (length text) ≡ some true)
      ↔ (mac ≡ standard_hmac key text)
hmacsha256_verify_iff mac key text extra m e l =
    let out = standard_hmac key text in
    let run =
      verify-run mac key (text ++ extra) out (length text)
        (hmacsha256-standard key text extra e l) in
    let (to, from) = block_equal_iff out mac (length-standard_hmac key text ∙ sym m) in
    (λ h. sym (to (some-injective (sym run ∙ h))), λ h. run ∙ ap some (from (sym h)))
  where
    some-injective : {x y : Bool} → some x ≡ some y → x ≡ y
    some-injective h = cc
