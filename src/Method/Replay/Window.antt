-- ===== src/Method/Replay/Window.antt =====
-- The bitmap of src/methods/common.c, one place at a time.
use native.Mathlib.Nat.{one-le-pow}
use fastd.Base.{ℕ, suc, ◌-◌, ◌*◌, ◌%◌, ◌^◌, ◌<◌, ◌≡◌, arith, ◌==◌, ltb, leb, if◌then◌else◌, not}
use fastd.Base.Bits.{
  bit, bit_and, bit_or, bit-or, bit-le, bit-pow, bit-shl, bit-mod, bit_and-pow, zero-bit,
}

-- The bitmap after the window has moved by `shift` places.
abbrev pub moved : ℕ → ℕ → ℕ
moved x shift =
    let shifted = if leb 64 shift then 0 else x * 2 ^ shift % 2 ^ 64 in
    if leb shift 64 then bit_or shifted (2 ^ (shift - 1)) else shifted

pub bit-moved :
    (x shift j : ℕ)
    → 0 < shift
    → j < 64
    → bit (moved x shift) j
      ≡ (if ltb (suc j) shift then 0 else if suc j == shift then 1 else bit x (j - shift))
bit-moved x shift j h hj = ground (
  arith,
  bit-or 0 (2 ^ (shift - 1)) j,
  bit-or (x * 2 ^ shift % 2 ^ 64) (2 ^ (shift - 1)) j,
  bit-pow (shift - 1) j,
  bit-mod (x * 2 ^ shift) 64 j hj,
  bit-shl x shift j,
  bit-le x (j - shift),
  zero-bit j,
)

-- The bitmap after a late packet of this age was accepted.
pub bit-marked : (x i j : ℕ) → bit (bit_or x (2 ^ i)) j ≡ (if i == j then 1 else bit x j)
bit-marked x i j = ground (arith, bit-or x (2 ^ i) j, bit-pow i j, bit-le x j)

-- The test of a place by a mask.
pub mask-bit : (x i : ℕ) → not (bit_and x (2 ^ i) == 0) ≡ (bit x i == 1)
mask-bit x i = ground (arith, bit_and-pow x i, bit-le x i, one-le-pow i 2 (omega arith))
