-- ===== src/Vector/Grow.antt =====
-- src/vector.c: the allocation of a vector is a power of two that is large enough.
use native.Mathlib.Nat.{pow-suc, pow-le-pow_right, one-le-pow}
use native.Mathlib.Decide.{dec_lt}
use fastd.Base.{
  ℕ, zero, suc, ◌+◌, ◌*◌, ◌/◌, ◌%◌, ◌^◌, ◌≤◌, ◌<◌, ◌≡◌, ◌⊎◌, refl, sym, ap, ◌∙◌, true, false, some,
  arith, ◌==◌, ltb, Bool-cases, inl, inr,
}
use fastd.Util.{size_mod, size_mul}
use fastd.Vector.{grow, new_allocation}

-- An allocation that serves `n` elements: a power of two, and the least one from `a` on.
pub record Grown (a n alloc : ℕ) : Type 0 where
  pub exponent : ℕ
  pub power : alloc ≡ 2 ^ exponent
  pub enough : n ≤ alloc
  pub below : exponent < 64
  pub tight : (alloc ≡ a) ⊎ (alloc < 2 * n)
  pub grows : a ≤ alloc

pow_bound : (k : ℕ) → k < 63 → 2 ^ k * 2 ≤ 2 ^ 63
pow_bound k h = rw (← pow-suc 2 k) (pow-le-pow_right (omega arith) {j = 63} (omega (arith, h)))

pow_top : (k : ℕ) → 63 ≤ k → k < 64 → 2 ^ k ≡ 2 ^ 63
pow_top k h l = ap (λ i. 2 ^ i) {y = 63} (omega (arith, h, l))

grow-stop : (fuel a n : ℕ) → ltb a n ≡ false → grow fuel a n ≡ some a
unfolding grow
grow-stop zero a n e = rw e refl
grow-stop (suc fuel) a n e = rw e refl

grow-step :
    (fuel a n : ℕ)
    → ltb a n ≡ true
    → 0 < a
    → a * 2 < size_mod
    → grow (suc fuel) a n ≡ grow fuel (a * 2) n
unfolding grow
grow-step fuel a n e pos small =
    let same : a * 2 % size_mod ≡ a * 2 = omega arith in
    let no_zero : (a * 2 == 0) ≡ false = ground arith in rw (e, same, no_zero) refl

stop-Grown : (k n : ℕ) → k < 64 → n ≤ 2 ^ k → Grown (2 ^ k) n (2 ^ k)
stop-Grown k n h le = record {
  exponent = k;
  power = refl;
  enough = le;
  below = h;
  tight = inl refl;
  grows = omega arith;
}

grow-Grown :
    (fuel k n : ℕ)
    → k < 64
    → 63 ≤ k + fuel
    → n ≤ 2 ^ 63
    → (alloc : ℕ) × (grow fuel (2 ^ k) n ≡ some alloc) × Grown (2 ^ k) n alloc
grow-Grown zero k n h f b =
    let top = pow_top k (omega arith) h in
    (2 ^ k, grow-stop zero (2 ^ k) n (ground (arith, top)), stop-Grown k n h (omega (arith, top)))
grow-Grown (suc fuel) k n h f b = elim (Bool-cases (ltb (2 ^ k) n)) [
  | inr e ↦ (2 ^ k, grow-stop (suc fuel) (2 ^ k) n e, stop-Grown k n h (ground (arith, e)))
  | inl e ↦
      let less : 2 ^ k < n = ground (arith, e) in
      let not_top : k < 63 = not_top_lem k n h b less in
      let bound = pow_bound k not_top in
      let (alloc, r, g) = grow-Grown fuel (suc k) n (omega arith) (omega arith) b in
      (
        alloc,
        grow-step fuel (2 ^ k) n e (one-le-pow k 2 (omega arith)) (omega (arith, bound))
            ∙ ap (λ a. grow fuel a n) (sym (pow-suc 2 k))
            ∙ r,
        record {
          exponent = g.exponent;
          power = g.power;
          enough = g.enough;
          below = g.below;
          tight = inr (tight_step (2 ^ k) (2 ^ suc k) n alloc (pow-suc 2 k) less g.tight);
          grows = omega (arith, pow-suc 2 k, g.grows);
        },
      )
]
  where
    not_top_lem : (k n : ℕ) → k < 64 → n ≤ 2 ^ 63 → 2 ^ k < n → k < 63
    not_top_lem k n h b less = elim (dec_lt k 63) [
      | yes p ↦ p
      | no p ↦ let top = pow_top k (omega (arith, p)) h in absurd (omega (arith, top))
    ]

    tight_step :
        (a a' n alloc : ℕ) → a' ≡ a * 2 → a < n → (alloc ≡ a') ⊎ (alloc < 2 * n) → alloc < 2 * n
    tight_step a a' n alloc e less (inl p) = omega (arith, e, less, p)
    tight_step a a' n alloc e less (inr p) = p

-- The allocations that a vector can have.
abbrev pub IsAllocation : ℕ → Type 0
IsAllocation a = (a ≡ 0) ⊎ ((k : ℕ) × (k < 64) × (a ≡ 2 ^ k))

-- What `new_allocation` promises.
pub record Allocated (allocated n alloc : ℕ) : Type 0 where
  pub result : new_allocation allocated n ≡ some alloc
  pub power : IsAllocation alloc
  pub enough : n ≤ alloc
  pub grows : allocated ≤ alloc
  pub tight : (alloc ≡ 4) ⊎ ((alloc ≡ allocated) ⊎ (alloc < 3 * n))

first-Allocated : (n : ℕ) → n ≤ 2 ^ 62 → (alloc : ℕ) × Allocated 0 n alloc
unfolding new_allocation
first-Allocated n small =
    let (alloc, r, g) =
      grow-Grown 64 2 (size_mul n 3 / 2) (omega arith) (omega arith) (omega arith) in
    (
      alloc,
      record {
        result = r;
        power = inr (g.exponent, g.below, g.power);
        enough = omega (arith, g.enough);
        grows = omega arith;
        tight = elim g.tight [ inl e ↦ inl e | inr l ↦ inr (inr (omega (arith, l))) ];
      },
    )

next-Allocated : (k n : ℕ) → k < 64 → n ≤ 2 ^ 62 → (alloc : ℕ) × Allocated (2 ^ k) n alloc
unfolding new_allocation
next-Allocated k n h small =
    let (alloc, r, g) = grow-Grown 64 k n h (omega arith) (omega arith) in
    let old : (2 ^ k == 0) ≡ false = ground (arith, one-le-pow k 2 (omega arith)) in
    (
      alloc,
      record {
        result = rw old r;
        power = inr (g.exponent, g.below, g.power);
        enough = g.enough;
        grows = g.grows;
        tight = elim g.tight [ inl e ↦ inr (inl e) | inr l ↦ inr (inr (omega (arith, l))) ];
      },
    )

-- For at most 2 ^ 62 elements the allocation of a vector ends, with a power of two that is large
-- enough, not less than before, and no larger than three times the elements if it has changed.
-- (The first allocation is for 4 elements at least.)
pub new_allocation-Allocated :
    (allocated n : ℕ)
    → IsAllocation allocated
    → n ≤ 2 ^ 62
    → (alloc : ℕ) × Allocated allocated n alloc
new_allocation-Allocated allocated n (inl e) small = rw e (first-Allocated n small)
new_allocation-Allocated allocated n (inr (k, h, e)) small = rw e (next-Allocated k n h small)
