-- ===== src/Crypto.antt =====
-- src/crypto.h: ciphers and MACs as tables of functions, and 128-bit blocks.
pub mod Xor
pub mod Stream
pub mod Blocks
pub mod Toy
use fastd.Base.{
  ℕ, zero, suc, ◌+◌, ◌*◌, ◌%◌, Bool, ◌&&◌, Option, none, some, ◌>>=◌, List, [], ◌∷◌, ◌==◌, leb,
  if◌then◌else◌, length, take, drop, write,
}
use fastd.Base.Bits.{bit_or, bit_xor}
use fastd.Util.{block128, block_count}
use fastd.Buffer.{Buffer}

-- `fastd_cipher_info_t` and `fastd_cipher_t`. A cipher state is the key and the flags that `init` has
-- made it from. `crypt` gives the bytes that it writes to `out`; `none` is the result false.
pub record Cipher : Type 0 where
  pub key_length : ℕ
  pub iv_length : ℕ
  pub crypt : List ℕ → ℕ → List ℕ → List ℕ → Option (List ℕ)

-- `fastd_mac_info_t` and `fastd_mac_t`: the input of `digest` is a number of whole blocks, and the
-- length in bytes of what is digested.
pub record Mac : Type 0 where
  pub key_length : ℕ
  pub digest : List ℕ → ℕ → List ℕ → ℕ → Option (List ℕ)

-- Exclusive or, byte by byte, of the common length.
unfoldable pub block_xor : List ℕ → List ℕ → List ℕ
block_xor [] ys = []
block_xor (a ∷ xs) [] = []
block_xor (a ∷ xs) (b ∷ ys) = bit_xor a b ∷ block_xor xs ys

-- The differences of two strings, gathered in `v`.
unfoldable pub differences : ℕ → List ℕ → List ℕ → ℕ
differences v (a ∷ xs) (b ∷ ys) = differences (bit_or v (bit_xor a b)) xs ys
differences v _ _ = v

unfoldable pub block_equal : List ℕ → List ℕ → Bool
unfolding differences
block_equal a b = differences 0 a b == 0

-- The bytes of `n` blocks at the window's start. Blocks are read and written as 128-bit words: they
-- must be aligned and lie in the buffer's space, which is aligned itself. Else the access is
-- undefined, `none`.
unfoldable pub can_access : Buffer → ℕ → Bool
can_access b n = b.head % block128 == 0 && leb (b.head + n * block128) (length b.base)

unfoldable pub get_blocks : Buffer → ℕ → Option (List ℕ)
unfolding can_access
get_blocks b n = if can_access b n then some (take (n * block128) (drop b.head b.base)) else none

unfoldable pub put_blocks : Buffer → ℕ → List ℕ → Option Buffer
unfolding can_access
put_blocks b n bytes =
    if can_access b n then some (record b { base = write b.base b.head bytes }) else none

-- The bytes of `n` blocks that a cipher has made, put into `out`; `none` is a cipher that fails.
unfoldable pub store_blocks : Buffer → ℕ → Option (List ℕ) → Option (Option Buffer)
unfolding put_blocks
store_blocks out n none = some none
store_blocks out n (some bytes) = do out' ← put_blocks out n bytes; some (some out')

-- The call of `crypt` by the methods, on the blocks of the packet in `b` into the packet `out`.
unfoldable pub crypt_packet :
    Cipher → List ℕ → ℕ → Buffer → Buffer → List ℕ → Option (Option Buffer)
unfolding store_blocks get_blocks block_count
crypt_packet c key flags b out iv = do
  bytes ← get_blocks b (block_count b.len block128)
  store_blocks out (block_count b.len block128) (c.crypt key flags bytes iv)
