-- ===== src/Util.antt =====
-- src/util.h: sizes rounded up to blocks, in `size_t`.
use fastd.Base.{ℕ, ◌+◌, ◌-◌, ◌*◌, ◌/◌, ◌%◌, ◌^◌, ◌≤◌, ◌<◌, ◌≡◌, arith, ltb, if◌then◌else◌}

abbrev pub size_mod : ℕ
size_mod = 2 ^ 64

-- `size_t` addition, subtraction and product wrap.
abbrev pub size_add : ℕ → ℕ → ℕ
size_add a b = (a + b) % size_mod

abbrev pub size_sub : ℕ → ℕ → ℕ
size_sub a b = (a + size_mod - b) % size_mod

abbrev pub size_mul : ℕ → ℕ → ℕ
size_mul a b = a * b % size_mod

unfoldable pub block_count : ℕ → ℕ → ℕ
block_count l a = size_sub (size_add l a) 1 / a

unfoldable pub alignto : ℕ → ℕ → ℕ
unfolding block_count
alignto l a = size_mul (block_count l a) a

unfoldable pub max_size_t : ℕ → ℕ → ℕ
max_size_t a b = if ltb b a then a else b

unfoldable pub min_size_t : ℕ → ℕ → ℕ
min_size_t a b = if ltb a b then a else b

unfoldable pub ssub_size_t : ℕ → ℕ → ℕ
ssub_size_t a b = if ltb b a then size_sub a b else 0

-- The block size of the crypto code, `sizeof(fastd_block128_t)`.
abbrev pub block128 : ℕ
block128 = 16

pub alignto_block :
    (l : ℕ)
    → l + 16 ≤ size_mod
    → (l ≤ alignto l block128)
      × (alignto l block128 < l + block128)
      × (alignto l block128 % block128 ≡ 0)
unfolding alignto
alignto_block l h = omega arith
