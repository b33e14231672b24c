-- ===== src/Method/Replay/Age.antt =====
-- The age that src/methods/common.c computes is the difference of the sequence numbers.
use fastd.Base.{ℕ, ◌+◌, ◌*◌, ◌/◌, ◌%◌, ◌≡◌, refl, List, [], ◌∷◌, arith, length}
use fastd.Base.Int.{
  ℤ, pos, pos_part, neg_part, sub_ℕ, ◌+ℤ◌, ◌-ℤ◌, ◌*ℤ◌, ◌/ℤ◌, +ℤ_parts, -ℤ_parts, *ℤ_pos_parts,
  eq_of_parts, sub_ℕ_parts,
}
use fastd.Method.{nonce_diff}
use fastd.Method.Nonce.{value, value_from}

nonce_diff_parts :
    (age : ℤ) (rs ns : List ℕ) (a b : ℕ)
    → length rs ≡ length ns
    → pos_part age + b ≡ neg_part age + a
    → pos_part (nonce_diff age rs ns) + value_from b ns
      ≡ neg_part (nonce_diff age rs ns) + value_from a rs
unfolding nonce_diff
nonce_diff_parts age [] [] a b l e = e
nonce_diff_parts age [] (n ∷ ns) a b l e = absurd (omega arith)
nonce_diff_parts age (r ∷ rs) [] a b l e = absurd (omega arith)
nonce_diff_parts age (r ∷ rs) (n ∷ ns) a b l e =
    nonce_diff_parts (age *ℤ pos 256 +ℤ (pos r -ℤ pos n)) rs ns (a * 256 + r) (b * 256 + n)
      (omega arith)
      (omega (
        arith,
        *ℤ_pos_parts age 256,
        -ℤ_parts (pos r) (pos n),
        +ℤ_parts (age *ℤ pos 256) (pos r -ℤ pos n),
      ))

pub nonce_diff-value :
    (rs ns : List ℕ)
    → length rs ≡ length ns
    → nonce_diff (pos 0) rs ns ≡ sub_ℕ (value rs) (value ns)
nonce_diff-value rs ns l =
    eq_of_parts _ _
      (omega (arith, nonce_diff_parts (pos 0) rs ns 0 0 l refl, sub_ℕ_parts (value rs) (value ns)))

-- Halved with C's rounding, for numbers of one parity.
pub sub-half : (r n : ℕ) → r % 2 ≡ n % 2 → ◌/ℤ◌ (sub_ℕ r n) 2 ≡ sub_ℕ (r / 2) (n / 2)
unfolding ◌/ℤ◌
sub-half r n h = ground arith

-- For two nonces of one parity the age is the difference of their sequence numbers.
pub age-eq-sub :
    (rs ns : List ℕ)
    → length rs ≡ length ns
    → value rs % 2 ≡ value ns % 2
    → ◌/ℤ◌ (nonce_diff (pos 0) rs ns) 2 ≡ sub_ℕ (value rs / 2) (value ns / 2)
age-eq-sub rs ns l p = rw (nonce_diff-value rs ns l) (sub-half (value rs) (value ns) p)
