-- ===== src/Buffer/Tests.antt =====
-- Runs of src/buffer.h and src/buffer.c, and the theorems at concrete buffers.
use fastd.Base.{
  ℕ, List, ◌+◌, ◌-◌, ◌%◌, ◌≤◌, ◌<◌, ◌≡◌, ◌≢◌, refl, some, none, [], ◌∷◌, arith, length, replicate,
}
use fastd.Util.{block128, alignto, alignto_block}
use fastd.Buffer.{Buffer, push_from, push, zero_pad}
use fastd.Buffer.Payload.{IsValid, payload}
use fastd.Buffer.Pool.{Pool, IsPool, size_max, alloc, init_buffers, cleanup_buffers, align}
use fastd.Buffer.PoolLaws.{Fits, align-payload}

-- Twenty bytes of space, of which 4, 5 and 6 are the payload.
abbrev three : Buffer
three = record { base = 1 ∷ 2 ∷ 3 ∷ 4 ∷ 5 ∷ 6 ∷ replicate 42 0; head = 3; len = 3 }

three-IsValid : IsValid three
three-IsValid = record { inside = omega arith; small = omega arith }

abbrev nine : Buffer
nine = record { base = 1 ∷ 9 ∷ 8 ∷ 4 ∷ 5 ∷ 6 ∷ replicate 42 0; head = 1; len = 5 }

pushed_two : push_from three (9 ∷ 8 ∷ []) ≡ some nine
unfolding push_from push
pushed_two = refl

too_far : push_from three (9 ∷ 8 ∷ 7 ∷ 6 ∷ []) ≡ none
unfolding push_from push
too_far = refl

abbrev full_pool : Pool
full_pool = record { max_buffer = 48; buffers = idle ∷ idle ∷ idle ∷ [] }
  where
    idle : Buffer
    idle = record { base = replicate 48 7; head = 0; len = size_max }

full_pool-IsPool : IsPool full_pool
full_pool-IsPool = record { marked = omega arith; small = omega arith }

has_buffer : full_pool.buffers ≢ []
has_buffer e = cc

three-Fits : Fits full_pool 3 16
unfolding alignto
three-Fits = record { no_wrap = omega arith; within = omega arith }

-- A run that asks for a buffer, writes to it, and gives it back.
abbrev memory : ℕ → List ℕ
memory x = replicate 48 x

abbrev first_pool : Pool
first_pool = init_buffers 48 (memory 1) (memory 2) (memory 3)

abbrev after_alloc : Pool
after_alloc = record {
  max_buffer = 48;
  buffers =
      (record { base = memory 2; head = 0; len = size_max })
      ∷ (record { base = memory 1; head = 0; len = size_max })
      ∷ [];
}

abbrev asked : Buffer
asked = record { base = memory 3; head = 16; len = 3 }

abbrev filled_in : Buffer
filled_in = record { base = memory 9; head = 8; len = 11 }

abbrev no_buffers : List Buffer
no_buffers = []

-- A pool from which a buffer is missing, or that has one too many, ends the process.
cleanup_full :
    cleanup_buffers (init_buffers 48 (replicate 48 1) (replicate 48 2) (replicate 48 3))
    ≡ some (record { max_buffer = 48; buffers = [] })
unfolding cleanup_buffers init_buffers alloc alignto
cleanup_full = refl

align-payload_example :
    (c : Buffer) × (p' : Pool) × (align full_pool three 16 ≡ some (c, p'))
    × (payload c ≡ payload three)
    × (16 ≤ c.head)
    × ((c.head - 16) % block128 ≡ 0)
    × IsValid c
    × IsPool p'
    × (length p'.buffers ≡ 3)
align-payload_example = align-payload 16 full_pool-IsPool has_buffer three-IsValid refl three-Fits

alignto_block_example : (20 ≤ alignto 20 16) × (alignto 20 16 < 20 + 16) × (alignto 20 16 % 16 ≡ 0)
alignto_block_example = alignto_block 20 (omega arith)

padded : zero_pad (record three { len = 20 }) ≡ record three { len = 20 }
unfolding zero_pad alignto
padded = refl
