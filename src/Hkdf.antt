-- ===== src/Hkdf.antt =====
-- src/hkdf_sha256.c: the expansion of HKDF with SHA256.
pub mod Standard
use fastd.Base.{ℕ, zero, suc, ◌+◌, ◌%◌, Option, none, some, ◌>>=◌, List, [], ◌∷◌, ◌++◌, length}
use fastd.Sha256.{hmacsha256}

-- The loop with the rounds that are left: `previous` is the block before, and `last` the last byte of
-- `buf`, which counts the blocks.
unfoldable pub expand_loop : ℕ → List ℕ → List ℕ → List ℕ → ℕ → Option (List (List ℕ))
expand_loop zero prk info previous last = some []
expand_loop (suc n) prk info previous last = do
  let last' = (last + 1) % 256
  let buf = previous ++ (info ++ (last' ∷ []))
  out ← hmacsha256 prk buf (length buf)
  rest ← expand_loop n prk info out last'
  some (out ∷ rest)

-- The blocks that are written to `out`.
unfoldable pub hkdf_sha256_expand : ℕ → List ℕ → List ℕ → Option (List (List ℕ))
unfolding expand_loop
hkdf_sha256_expand zero prk info = some []
hkdf_sha256_expand (suc n) prk info = do
  let buf = info ++ (1 ∷ [])
  out ← hmacsha256 prk buf (length buf)
  rest ← expand_loop n prk info out 1
  some (out ∷ rest)
