-- ===== src/Handshake/Parse/Numbers.antt =====
-- Numbers in handshake records (src/handshake.h writes them, src/handshake.c reads them).
use fastd.Base.{ℕ, ◌+◌, ◌*◌, ◌/◌, ◌%◌, ◌^◌, ◌<◌, ◌≡◌, List, [], ◌∷◌, arith, ltb, if◌then◌else◌}
use fastd.Base.Bits.{bit_or-shl}
use fastd.Buffer.{Buffer}
use fastd.Handshake.Record.{add, add_uint}
use fastd.Handshake.Parse.{as_uint}

-- The bytes that `add_uint` writes: as few as hold the number.
abbrev pub uint_bytes : ℕ → List ℕ
uint_bytes n =
    if ltb 0xffffff n
    then n % 256 ∷ n / 2 ^ 8 % 256 ∷ n / 2 ^ 16 % 256 ∷ n / 2 ^ 24 % 256 ∷ []
    else if ltb 0xffff n
    then n % 256 ∷ n / 2 ^ 8 % 256 ∷ n / 2 ^ 16 % 256 ∷ []
    else if ltb 0xff n
    then n % 256 ∷ n / 2 ^ 8 % 256 ∷ []
    else n % 256 ∷ []

-- `add_uint` adds a record with those bytes, and it ends the process exactly when that would.
pub add_uint-add :
    (b : Buffer) (type value : ℕ) → add_uint b type value ≡ add b type (uint_bytes value)
unfolding add_uint add
add_uint-add b type value = ground arith

-- `as_uint` reads back every 32-bit number that `add_uint` writes.
pub as_uint-uint_bytes : (n : ℕ) → n < 2 ^ 32 → as_uint (uint_bytes n) ≡ n
unfolding as_uint
as_uint-uint_bytes n h = ground (
  arith,
  bit_or-shl 8 (n / 2 ^ 8 % 256) (n % 256) (omega arith),
  bit_or-shl 16 (n / 2 ^ 16 % 256) (n / 2 ^ 8 % 256 * 2 ^ 8 + n % 256) (omega arith),
  bit_or-shl 24 (n / 2 ^ 24 % 256) (n / 2 ^ 16 % 256 * 2 ^ 16 + (n / 2 ^ 8 % 256 * 2 ^ 8 + n % 256))
      (omega arith),
)
