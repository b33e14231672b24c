-- ===== src/Buffer/PoolRuns.antt =====
-- src/buffer.c: the pool and its callers together, from fastd_init_buffers to fastd_cleanup_buffers.
use fastd.Base.{ℕ, ◌+◌, ◌≤◌, ◌≡◌, some, List, [], ◌∷◌, ◌++◌, length, All}
use fastd.Util.{size_mod, block128}
use fastd.Buffer.{Buffer}
use fastd.Buffer.Payload.{IsValid}
use fastd.Buffer.Pool.{Pool, IsPool, alloc, free}

-- The buffers of a pool and those that callers have. A caller has a buffer from fastd_buffer_alloc, may
-- write and move its window inside of its space, and gives it back by fastd_buffer_free.
pub data Step : Pool → List Buffer → Pool → List Buffer → Type 0 where
  allocated :
      {p p' : Pool} {held : List Buffer} {b : Buffer} (len room : ℕ)
      → room + len + block128 ≤ size_mod
      → alloc p len room ≡ some (b, p')
      → Step p held p' (b ∷ held)
  written :
      {p : Pool} (xs : List Buffer) (b c : Buffer) (ys : List Buffer)
      → length c.base ≡ length b.base
      → IsValid c
      → Step p (xs ++ (b ∷ ys)) p (xs ++ (c ∷ ys))
  freed :
      {p : Pool} (xs : List Buffer) (b : Buffer) (ys : List Buffer)
      → Step p (xs ++ (b ∷ ys)) (free p b) (xs ++ ys)

pub data Run (p : Pool) : Pool → List Buffer → Type 0 where
  start : Run p p []
  more :
      {q r : Pool} {held held' : List Buffer} → Run p q held → Step q held r held' → Run p r held'

-- A buffer that a caller has: its window lies inside of its space, which has the pool's size.
abbrev pub IsHeld : ℕ → Buffer → Type 0
IsHeld max b = IsValid b × (length b.base ≡ max)

pub record IsSound (total max : ℕ) (p : Pool) (held : List Buffer) : Type 0 where
  pub pool : IsPool p
  pub size : p.max_buffer ≡ max
  pub windows : All (IsHeld max) held
  pub count : length p.buffers + length held ≡ total
