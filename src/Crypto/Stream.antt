-- ===== src/Crypto/Stream.antt =====
-- What src/crypto.h calls a stream cipher: the exclusive or with a key stream.
use fastd.Base.{
  ℕ, zero, suc, ◌+◌, ◌≡◌, refl, sym, ap, ap₂, ◌∙◌, replicate, length-replicate, some, List, [], ◌∷◌,
  ◌++◌, arith, length, take,
}
use native.Mathlib.Nat.{zero-add}
use fastd.Base.Bits.{bit_xor}
use fastd.Crypto.{Cipher, block_xor}
use fastd.Crypto.Xor.{xor_twice, zero-bit_xor, block_xor_comm, block_xor-twice, length-block_xor}

-- The bytes of a text that starts at place `i` of a key stream.
unfoldable pub xor_stream : (ℕ → ℕ) → ℕ → List ℕ → List ℕ
xor_stream k i [] = []
xor_stream k i (x ∷ xs) = bit_xor x (k i) ∷ xor_stream k (suc i) xs

-- A stream cipher never fails, and its stream depends on the key, the flags and the IV.
pub record IsStream (c : Cipher) : Type 0 where
  pub stream : List ℕ → ℕ → List ℕ → ℕ → ℕ
  pub law :
      (key : List ℕ) (flags : ℕ) (bytes iv : List ℕ)
      → c.crypt key flags bytes iv ≡ some (xor_stream (stream key flags iv) 0 bytes)

pub length-xor_stream : (k : ℕ → ℕ) (i : ℕ) (xs : List ℕ) → length (xor_stream k i xs) ≡ length xs
unfolding xor_stream
length-xor_stream k i [] = refl
length-xor_stream k i (x ∷ xs) = ap suc (length-xor_stream k (suc i) xs)

pub take-xor_stream :
    (n : ℕ) (k : ℕ → ℕ) (i : ℕ) (xs : List ℕ)
    → take n (xor_stream k i xs) ≡ xor_stream k i (take n xs)
unfolding xor_stream
take-xor_stream zero k i xs = refl
take-xor_stream (suc n) k i [] = refl
take-xor_stream (suc n) k i (x ∷ xs) =
    ap (λ t. bit_xor x (k i) ∷ t) (take-xor_stream n k (suc i) xs)

pub xor_stream-append :
    (k : ℕ → ℕ) (i : ℕ) (xs ys : List ℕ)
    → xor_stream k i (xs ++ ys) ≡ xor_stream k i xs ++ xor_stream k (length xs + i) ys
unfolding xor_stream
xor_stream-append k i [] ys = rw zero-add refl
xor_stream-append k i (x ∷ xs) ys =
    ap (λ t. bit_xor x (k i) ∷ t)
      (xor_stream-append k (suc i) xs ys
        ∙ ap (λ n. xor_stream k (suc i) xs ++ xor_stream k n ys) (shifted (length xs)))
  where
    shifted : (n : ℕ) → n + suc i ≡ suc n + i
    shifted n = omega arith

-- Decryption is encryption once more.
pub xor_stream-twice : (k : ℕ → ℕ) (i : ℕ) (xs : List ℕ) → xor_stream k i (xor_stream k i xs) ≡ xs
unfolding xor_stream
xor_stream-twice k i [] = refl
xor_stream-twice k i (x ∷ xs) =
    ap₂ (λ s t. s ∷ t) (xor_twice x (k i)) (xor_stream-twice k (suc i) xs)

-- The key stream itself is the encryption of zeroes.
xor_stream-block_xor :
    (k : ℕ → ℕ) (i : ℕ) (xs : List ℕ)
    → xor_stream k i xs ≡ block_xor xs (xor_stream k i (replicate (length xs) 0))
unfolding xor_stream block_xor
xor_stream-block_xor k i [] = refl
xor_stream-block_xor k i (x ∷ xs) =
    ap₂ (λ s t. bit_xor x s ∷ t) (sym (zero-bit_xor (k i))) (xor_stream-block_xor k (suc i) xs)

-- A block that is hidden under the key stream comes out again.
pub xor_stream-hidden :
    (k : ℕ → ℕ) (tag : List ℕ) (n : ℕ)
    → length tag ≡ n
    → xor_stream k 0 (block_xor (xor_stream k 0 (replicate n 0)) tag) ≡ tag
xor_stream-hidden k tag n l =
    let zero_byte : ℕ = 0 in
    let mask = xor_stream k 0 (replicate n 0) in
    let lm : length mask ≡ n =
      length-xor_stream k 0 (replicate n 0) ∙ length-replicate n zero_byte in
    let lx : length (block_xor mask tag) ≡ n =
      length-block_xor mask tag (omega (arith, l, lm)) ∙ lm in
    xor_stream-block_xor k 0 (block_xor mask tag)
    ∙ ap (λ j. block_xor (block_xor mask tag) (xor_stream k 0 (replicate j 0))) lx
    ∙ ap (λ t. block_xor t mask) (block_xor_comm mask tag)
    ∙ block_xor-twice tag mask (l ∙ sym lm)
