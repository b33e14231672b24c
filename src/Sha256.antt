-- ===== src/Sha256.antt =====
-- src/sha256.c: SHA256 with the padding of its last blocks, and HMAC-SHA256. Blocks are 32 bytes here
-- as in the code, which is half a block of the standard.
pub mod Padding
pub mod Blocks
pub mod Words
pub mod Hash
pub mod Standard
pub mod Keyed
pub mod Fips
mod Tests
use fastd.Base.{
  ℕ, zero, suc, ◌+◌, ◌-◌, ◌*◌, ◌/◌, ◌%◌, ◌^◌, Option, none, some, ◌>>=◌, List, [], ◌∷◌, ◌++◌, ltb,
  leb, ◌==◌, if◌then◌else◌, length, get_or, take, drop, replicate, map, Bool,
}
use fastd.Crypto.{block_equal}
use fastd.Base.Bits.{bit_and, bit_or, bit_xor}

-- FASTD_SHA256_BLOCK_BYTES
abbrev pub block_bytes : ℕ
block_bytes = 32

abbrev pub word_mod : ℕ
word_mod = 2 ^ 32

-- The word that ntohl gives for four bytes.
abbrev pub of_bytes : List ℕ → ℕ
of_bytes (a ∷ b ∷ c ∷ d ∷ rest) = ((a * 256 + b) * 256 + c) * 256 + d
of_bytes (a ∷ b ∷ c ∷ []) = 0
of_bytes (a ∷ b ∷ []) = 0
of_bytes (a ∷ []) = 0
of_bytes [] = 0

-- `n` bytes of the memory `bytes`; `none` is a read behind its end.
unfoldable pub read : ℕ → List ℕ → Option (List ℕ)
read n bytes = if leb n (length bytes) then some (take n bytes) else none

unfoldable pub rotr : ℕ → ℕ → ℕ
rotr x r = bit_or (x / 2 ^ r) (x * 2 ^ (32 - r) % word_mod)

-- The word `w[i]` for the memory from `&in[i]` on. `left` is `len - p` in the source, and may be
-- negative: `p` is the number of bytes that are behind.
unfoldable pub copy_word : List ℕ → ℕ → ℕ → Option ℕ
unfolding read
copy_word bytes len p =
    let left = len - p in
    let whole : Option ℕ = (do x ← read 4 bytes; some (of_bytes x)) in
    let last : Option ℕ = (do
      x ← read left bytes
      some (bit_or (of_bytes (x ++ replicate (4 - left) 0)) (2 ^ 31 / 2 ^ (left * 8)))) in
    if leb (p + 4) len
    then whole
    else if ltb p len
    then last
    else if p == len
    then some (2 ^ 31)
    else some 0

-- The loop of `copy_words`, with the rounds that are left.
unfoldable pub copy_loop : ℕ → List ℕ → ℕ → ℕ → Option (List ℕ × ℕ)
unfolding copy_word
copy_loop zero bytes len p = some ([], p)
copy_loop (suc n) bytes len p = do
  w ← copy_word bytes len p
  (ws, p') ← copy_loop n (drop 4 bytes) len (p + 4)
  some (w ∷ ws, p')

unfoldable pub copy_words : List ℕ → ℕ → ℕ → Option (List ℕ × ℕ)
unfolding copy_loop
copy_words block len p = copy_loop 8 block len p

-- `(left > 0) ? *(in++) : padding_block`, and the blocks behind it.
unfoldable pub next_block : List (List ℕ) → ℕ → ℕ → Option (List ℕ × List (List ℕ))
next_block input len p = if ltb p len then taken input else some (replicate block_bytes 0, input)
  where
    taken : List (List ℕ) → Option (List ℕ × List (List ℕ))
    taken [] = none
    taken (block ∷ blocks) = some (block, blocks)

-- The first 16 words of a round of the loop of `sha256_list`.
unfoldable pub next_words : List (List ℕ) → ℕ → ℕ → Option (List ℕ × List (List ℕ) × ℕ)
unfolding next_block copy_words
next_words input len p = do
  (block, input') ← next_block input len p
  (w, p') ← copy_words block len p
  (block', input'') ← next_block input' len p'
  (w', p'') ← copy_words block' len p'
  (let words = w ++ w' in
      some (
        (if ltb (len + 8) p'' then take 15 words ++ (len * 8 % word_mod ∷ []) else words),
        input'',
        p'',
      ))

abbrev pub k : List ℕ
k =
    0x428a2f98 ∷ 0x71374491 ∷ 0xb5c0fbcf ∷ 0xe9b5dba5 ∷ 0x3956c25b ∷ 0x59f111f1 ∷ 0x923f82a4
    ∷ 0xab1c5ed5 ∷ 0xd807aa98 ∷ 0x12835b01 ∷ 0x243185be ∷ 0x550c7dc3 ∷ 0x72be5d74 ∷ 0x80deb1fe
    ∷ 0x9bdc06a7 ∷ 0xc19bf174 ∷ 0xe49b69c1 ∷ 0xefbe4786 ∷ 0x0fc19dc6 ∷ 0x240ca1cc ∷ 0x2de92c6f
    ∷ 0x4a7484aa ∷ 0x5cb0a9dc ∷ 0x76f988da ∷ 0x983e5152 ∷ 0xa831c66d ∷ 0xb00327c8 ∷ 0xbf597fc7
    ∷ 0xc6e00bf3 ∷ 0xd5a79147 ∷ 0x06ca6351 ∷ 0x14292967 ∷ 0x27b70a85 ∷ 0x2e1b2138 ∷ 0x4d2c6dfc
    ∷ 0x53380d13 ∷ 0x650a7354 ∷ 0x766a0abb ∷ 0x81c2c92e ∷ 0x92722c85 ∷ 0xa2bfe8a1 ∷ 0xa81a664b
    ∷ 0xc24b8b70 ∷ 0xc76c51a3 ∷ 0xd192e819 ∷ 0xd6990624 ∷ 0xf40e3585 ∷ 0x106aa070 ∷ 0x19a4c116
    ∷ 0x1e376c08 ∷ 0x2748774c ∷ 0x34b0bcb5 ∷ 0x391c0cb3 ∷ 0x4ed8aa4a ∷ 0x5b9cca4f ∷ 0x682e6ff3
    ∷ 0x748f82ee ∷ 0x78a5636f ∷ 0x84c87814 ∷ 0x8cc70208 ∷ 0x90befffa ∷ 0xa4506ceb ∷ 0xbef9a3f7
    ∷ 0xc67178f2 ∷ []

abbrev pub initial : List ℕ
initial =
    0x6a09e667 ∷ 0xbb67ae85 ∷ 0x3c6ef372 ∷ 0xa54ff53a ∷ 0x510e527f ∷ 0x9b05688c ∷ 0x1f83d9ab
    ∷ 0x5be0cd19 ∷ []

-- The loop that appends `w[i]`.
unfoldable pub schedule : ℕ → List ℕ → List ℕ
unfolding rotr
schedule zero w = w
schedule (suc n) w =
    let i = length w in
    let x = get_or w (i - 15) 0 in
    let y = get_or w (i - 2) 0 in
    let s0 = bit_xor (bit_xor (rotr x 7) (rotr x 18)) (x / 2 ^ 3) in
    let s1 = bit_xor (bit_xor (rotr y 17) (rotr y 19)) (y / 2 ^ 10) in
    schedule n (w ++ ((get_or w (i - 16) 0 + s0 + get_or w (i - 7) 0 + s1) % word_mod ∷ []))

-- A round on the words `v` with `k[i]` and `w[i]`.
unfoldable pub mix : ℕ → ℕ → List ℕ → List ℕ
unfolding rotr
mix ki wi v =
    let e = get_or v 4 0 in
    let a = get_or v 0 0 in
    let s1 = bit_xor (bit_xor (rotr e 6) (rotr e 11)) (rotr e 25) in
    let ch = bit_xor (bit_and e (get_or v 5 0)) (bit_and (word_mod - 1 - e) (get_or v 6 0)) in
    let temp1 = (get_or v 7 0 + s1 + ch + ki + wi) % word_mod in
    let s0 = bit_xor (bit_xor (rotr a 2) (rotr a 13)) (rotr a 22) in
    let maj =
      bit_xor (bit_xor (bit_and a (get_or v 1 0)) (bit_and a (get_or v 2 0)))
        (bit_and (get_or v 1 0) (get_or v 2 0)) in
    (temp1 + s0 + maj) % word_mod
    ∷ a
    ∷ get_or v 1 0
    ∷ get_or v 2 0
    ∷ (get_or v 3 0 + temp1) % word_mod
    ∷ e
    ∷ get_or v 5 0
    ∷ get_or v 6 0
    ∷ []

unfoldable pub rounds : List ℕ → List ℕ → List ℕ → List ℕ
unfolding mix
rounds [] w v = v
rounds (ki ∷ ks) [] v = v
rounds (ki ∷ ks) (wi ∷ ws) v = rounds ks ws (mix ki wi v)

unfoldable pub add_words : List ℕ → List ℕ → List ℕ
add_words [] v = []
add_words (x ∷ h) [] = x ∷ h
add_words (x ∷ h) (y ∷ v) = (x + y) % word_mod ∷ add_words h v

-- What a round of the loop makes of the state and 16 words.
unfoldable pub compress : List ℕ → List ℕ → List ℕ
unfolding rounds add_words schedule
compress h w = add_words h (rounds k (schedule 48 w) h)

-- htonl
abbrev pub to_bytes : ℕ → List ℕ
to_bytes x = x / 2 ^ 24 ∷ x / 2 ^ 16 % 256 ∷ x / 2 ^ 8 % 256 ∷ x % 256 ∷ []

unfoldable pub out_bytes : List ℕ → List ℕ
out_bytes [] = []
out_bytes (x ∷ h) = to_bytes x ++ out_bytes h

-- The loop of `sha256_list`, on fuel.
unfoldable pub sha256_loop : ℕ → List ℕ → List (List ℕ) → ℕ → ℕ → Option (List ℕ)
sha256_loop zero h input len p = none
sha256_loop (suc n) h input len p =
    let more : Option (List ℕ) = (do
      (w, input', p') ← next_words input len p
      sha256_loop n (compress h w) input' len p') in
    if leb p (len + 8) then more else some h

unfoldable pub sha256_list : List (List ℕ) → ℕ → Option (List ℕ)
unfolding sha256_loop out_bytes
sha256_list input len = do h ← sha256_loop (len + 10) initial input len 0; some (out_bytes h)

unfoldable pub split_blocks : ℕ → List ℕ → List (List ℕ)
split_blocks zero memory = []
split_blocks (suc n) memory = memory ∷ split_blocks n (drop block_bytes memory)

-- `memory` is what `in` points to.
unfoldable pub sha256 : List ℕ → ℕ → Option (List ℕ)
unfolding sha256_list split_blocks
sha256 memory len = sha256_list (split_blocks ((len + block_bytes - 1) / block_bytes) memory) len

-- A block of a list of complete blocks for `fastd_sha256_blocks` has 32 bytes.
unfoldable pub sha256_blocks : List (List ℕ) → Option (List ℕ)
sha256_blocks input = sha256_list input (length input * block_bytes)

abbrev pub key_pad : ℕ → List ℕ → List ℕ
key_pad value key = map (λ x. bit_xor x value) key

-- `key` has the 32 bytes of the key's words.
unfoldable pub hmacsha256_list : List ℕ → List (List ℕ) → ℕ → Option (List ℕ)
hmacsha256_list key input len = do
  let ipad = key_pad 0x36 key
  let opad = key_pad 0x5c key
  let ipad2 = replicate block_bytes 0x36
  let opad2 = replicate block_bytes 0x5c
  temp ← sha256_list (ipad ∷ ipad2 ∷ input) (len + 2 * block_bytes)
  sha256_blocks (opad ∷ opad2 ∷ temp ∷ [])

unfoldable pub hmacsha256 : List ℕ → List ℕ → ℕ → Option (List ℕ)
hmacsha256 key memory len =
    hmacsha256_list key (split_blocks ((len + block_bytes - 1) / block_bytes) memory) len

unfoldable pub hmacsha256_blocks : List ℕ → List (List ℕ) → Option (List ℕ)
hmacsha256_blocks key input = hmacsha256_list key input (length input * block_bytes)

-- `secure_memequal` with the result.
unfoldable pub hmacsha256_verify : List ℕ → List ℕ → List ℕ → ℕ → Option Bool
hmacsha256_verify mac key memory len = do
  out ← hmacsha256 key memory len
  some (block_equal out mac)
