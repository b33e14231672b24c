-- ===== src/Hkdf/Standard.antt =====
-- src/hkdf_sha256.c: the expansion against its definition.
use fastd.Base.{
  ℕ, zero, suc, ◌+◌, ◌%◌, ◌^◌, ◌≤◌, ◌<◌, ◌≡◌, refl, sym, ap, ◌∙◌, some, List, [], ◌∷◌, ◌++◌, arith,
  length, length-append, append-nil,
}
use fastd.Sha256.{hmacsha256}
use fastd.Sha256.Keyed.{standard_hmac, hmacsha256-standard, length-standard_hmac}
use fastd.Hkdf.{expand_loop, hkdf_sha256_expand}

-- T(i), T(i + 1), ... of RFC 5869, where `previous` is T(i - 1).
unfoldable pub standard_expand : ℕ → List ℕ → List ℕ → List ℕ → ℕ → List (List ℕ)
standard_expand zero prk info previous i = []
standard_expand (suc n) prk info previous i =
    let t = standard_hmac prk (previous ++ (info ++ (i ∷ []))) in
    t ∷ standard_expand n prk info t (i + 1)

hmac-whole :
    (key text : List ℕ)
    → length key ≡ 32
    → length text + 64 < 2 ^ 29
    → hmacsha256 key text (length text) ≡ some (standard_hmac key text)
hmac-whole key text e h =
    ap (λ m. hmacsha256 key m (length text)) (sym (append-nil text))
    ∙ hmacsha256-standard key text [] e h

loop-run :
    (n last : ℕ) (prk info previous out : List ℕ) (rest : List (List ℕ))
    → hmacsha256 prk
        (previous ++ (info ++ ((last + 1) % 256 ∷ [])))
        (length (previous ++ (info ++ ((last + 1) % 256 ∷ []))))
      ≡ some out
    → expand_loop n prk info out ((last + 1) % 256) ≡ some rest
    → expand_loop (suc n) prk info previous last ≡ some (out ∷ rest)
unfolding expand_loop
loop-run n last prk info previous out rest e f = rw (e, f) refl

first-run :
    (n : ℕ) (prk info out : List ℕ) (rest : List (List ℕ))
    → hmacsha256 prk (info ++ (1 ∷ [])) (length (info ++ (1 ∷ []))) ≡ some out
    → expand_loop n prk info out 1 ≡ some rest
    → hkdf_sha256_expand (suc n) prk info ≡ some (out ∷ rest)
unfolding hkdf_sha256_expand
first-run n prk info out rest e f = rw (e, f) refl

module _ (prk info : List ℕ) (key : length prk ≡ 32) (short : length info + 97 < 2 ^ 29) where
  block-fits :
      (previous : List ℕ) (i : ℕ)
      → length previous ≤ 32
      → length (previous ++ (info ++ (i ∷ []))) + 64 < 2 ^ 29
  block-fits previous i h =
      omega
        (arith, short, h, length-append previous (info ++ (i ∷ [])), length-append info (i ∷ []))

  -- The counter does not wrap in the first 255 blocks.
  loop-standard :
      (n last : ℕ) (previous : List ℕ)
      → length previous ≡ 32
      → last + n < 256
      → expand_loop n prk info previous last ≡ some (standard_expand n prk info previous (last + 1))
  unfolding expand_loop standard_expand
  loop-standard zero last previous e h = refl
  loop-standard (suc n) last previous e h =
      loop-run n last prk info previous out (standard_expand n prk info out (last + 1 + 1))
        (ap
            (λ i.
              hmacsha256 prk (previous ++ (info ++ (i ∷ [])))
                (length (previous ++ (info ++ (i ∷ [])))))
            count
          ∙ hmac-whole prk (previous ++ (info ++ ((last + 1) ∷ []))) key
              (block-fits previous (last + 1) (omega (arith, e))))
        (ap (expand_loop n prk info out) count
          ∙ loop-standard n (last + 1) out
              (length-standard_hmac prk (previous ++ (info ++ ((last + 1) ∷ []))))
              (omega (arith, h)))
    where
      out : List ℕ
      out = standard_hmac prk (previous ++ (info ++ ((last + 1) ∷ [])))

      count : (last + 1) % 256 ≡ last + 1
      count = omega (arith, h)

-- For a pseudo-random key of 32 bytes, up to 255 blocks and a text `info` shorter than 2 ^ 29 - 97 bytes,
-- the blocks that fastd_hkdf_sha256_expand writes are T(1), T(2), ... of RFC 5869.
pub hkdf_sha256_expand-standard :
    (n : ℕ) (prk info : List ℕ)
    → length prk ≡ 32
    → length info + 97 < 2 ^ 29
    → n ≤ 255
    → hkdf_sha256_expand n prk info ≡ some (standard_expand n prk info [] 1)
unfolding hkdf_sha256_expand standard_expand
hkdf_sha256_expand-standard zero prk info key short h = refl
hkdf_sha256_expand-standard (suc n) prk info key short h =
    let out = standard_hmac prk (info ++ (1 ∷ [])) in
    first-run n prk info out (standard_expand n prk info out 2)
      (hmac-whole prk (info ++ (1 ∷ [])) key (block-fits prk info key short [] 1 (omega arith)))
      (loop-standard prk info key short n 1 out (length-standard_hmac prk (info ++ (1 ∷ [])))
        (omega arith))
