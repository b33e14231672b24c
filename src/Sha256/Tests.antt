-- ===== src/Sha256/Tests.antt =====
-- Runs of the hash, of HMAC and of HKDF, and their theorems at concrete texts.
use fastd.Base.{◌++◌, true, ◌↔◌, ℕ, ◌≡◌, refl, some, true, ◌↔◌, List, [], ◌∷◌, arith, replicate}
use fastd.Sha256.{
  hmacsha256_verify, sha256, sha256_list, sha256_loop, next_words, compress, hmacsha256_list,
}
use fastd.Sha256.Fips.{fips_sha256}
use fastd.Sha256.Fips.Equal.{sha256_list-fips_sha256}
use fastd.Sha256.Keyed.{standard_hmac, hmacsha256_list-standard, hmacsha256_verify_iff}
use fastd.Hkdf.{hkdf_sha256_expand}
use fastd.Hkdf.Standard.{standard_expand, hkdf_sha256_expand-standard}

-- "abc"
abbrev abc : List ℕ
abc = 97 ∷ 98 ∷ 99 ∷ []

abbrev test_key : List ℕ
test_key = replicate 32 11

-- The example of FIPS 180-4.
abc-hash :
    sha256 abc 3
    ≡ some (
        0xba ∷ 0x78 ∷ 0x16 ∷ 0xbf ∷ 0x8f ∷ 0x01 ∷ 0xcf ∷ 0xea ∷ 0x41 ∷ 0x41 ∷ 0x40 ∷ 0xde ∷ 0x5d
        ∷ 0xae ∷ 0x22 ∷ 0x23 ∷ 0xb0 ∷ 0x03 ∷ 0x61 ∷ 0xa3 ∷ 0x96 ∷ 0x17 ∷ 0x7a ∷ 0x9c ∷ 0xb4 ∷ 0x10
        ∷ 0xff ∷ 0x61 ∷ 0xf2 ∷ 0x00 ∷ 0x15 ∷ 0xad ∷ [])
unfolding sha256 sha256_loop next_words compress
abc-hash = refl

sha256_list-fips_sha256_example : sha256_list (abc ∷ []) 3 ≡ some (fips_sha256 abc)
sha256_list-fips_sha256_example =
    sha256_list-fips_sha256 (abc ∷ []) abc (([], refl), refl) (omega arith) (omega arith)

hmacsha256_list-standard_example :
    hmacsha256_list test_key (abc ∷ []) 3 ≡ some (standard_hmac test_key abc)
hmacsha256_list-standard_example =
    hmacsha256_list-standard test_key (abc ∷ []) abc refl (([], refl), refl) (omega arith)

hkdf_sha256_expand-standard_example :
    hkdf_sha256_expand 2 test_key abc ≡ some (standard_expand 2 test_key abc [] 1)
hkdf_sha256_expand-standard_example =
    hkdf_sha256_expand-standard 2 test_key abc refl (omega arith) (omega arith)

hmacsha256_verify_iff_example :
    (hmacsha256_verify (replicate 32 7) test_key (abc ++ (5 ∷ [])) 3 ≡ some true)
    ↔ (replicate 32 7 ≡ standard_hmac test_key abc)
hmacsha256_verify_iff_example =
    hmacsha256_verify_iff (replicate 32 7) test_key abc (5 ∷ []) refl refl (omega arith)
