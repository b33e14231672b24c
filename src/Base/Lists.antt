-- ===== src/Base/Lists.antt =====
-- C arrays as lists with native indices, under the library's names.
use Prim.Native.Nat.{ℕ, zero, suc, ◌+◌, ◌-◌, ◌≤◌, ◌<◌, min}
use mathlib.Core.Path.{◌≡◌, refl, ap}
use mathlib.Core.Logic.{◌≢◌}
use mathlib.Core.List.{List, [], ◌∷◌, ◌++◌}
use mathlib.Core.Option.{Option, none, some}
use native.Mathlib.Nat.{zero-add}
use native.Mathlib.Omega.{arith}

module _ {ℓ} {A : Type ℓ} where
  abbrev pub length : List A → ℕ
  length [] = 0
  length (x ∷ xs) = suc (length xs)

  abbrev pub get_elem? : List A → ℕ → Option A
  get_elem? [] i = none
  get_elem? (x ∷ xs) zero = some x
  get_elem? (x ∷ xs) (suc i) = get_elem? xs i

  abbrev pub get_or : List A → ℕ → A → A
  get_or [] i d = d
  get_or (x ∷ xs) zero d = x
  get_or (x ∷ xs) (suc i) d = get_or xs i d

  -- A write out of bounds changes nothing.
  abbrev pub set : List A → ℕ → A → List A
  set [] i v = []
  set (x ∷ xs) zero v = v ∷ xs
  set (x ∷ xs) (suc i) v = x ∷ set xs i v

  abbrev pub take : ℕ → List A → List A
  take zero xs = []
  take (suc n) [] = []
  take (suc n) (x ∷ xs) = x ∷ take n xs

  abbrev pub drop : ℕ → List A → List A
  drop zero xs = xs
  drop (suc n) [] = []
  drop (suc n) (x ∷ xs) = drop n xs

  abbrev pub replicate : ℕ → A → List A
  replicate zero a = []
  replicate (suc n) a = a ∷ replicate n a

  abbrev pub All {κ} : (A → Type κ) → List A → Type κ
  All P [] = Unit {κ}
  All P (x ∷ xs) = P x × All P xs

  -- `memcpy(xs + i, ys, length ys)`; what falls outside of `xs` is not written.
  abbrev pub write : List A → ℕ → List A → List A
  write [] i ys = []
  write (x ∷ xs) (suc i) ys = x ∷ write xs i ys
  write (x ∷ xs) zero [] = x ∷ xs
  write (x ∷ xs) zero (y ∷ ys) = y ∷ write xs zero ys

pub suc_add : (m n : ℕ) → suc m + n ≡ suc (m + n)
suc_add m n = omega arith

module _ {ℓ} {A : Type ℓ} where
  pub length-append : (xs ys : List A) → length (xs ++ ys) ≡ length xs + length ys
  length-append [] ys = omega arith
  length-append (x ∷ xs) ys = omega (arith, length-append xs ys)

  pub length-set : (xs : List A) (i : ℕ) (v : A) → length (set xs i v) ≡ length xs
  length-set [] i v = refl
  length-set (x ∷ xs) zero v = refl
  length-set (x ∷ xs) (suc i) v = ap suc (length-set xs i v)

  pub get_or-set_self :
      (xs : List A) (i : ℕ) (v d : A) → i < length xs → get_or (set xs i v) i d ≡ v
  get_or-set_self [] i v d h = absurd (omega arith)
  get_or-set_self (x ∷ xs) zero v d h = refl
  get_or-set_self (x ∷ xs) (suc i) v d h = get_or-set_self xs i v d (omega arith)

  pub get_or-set_ne :
      (xs : List A) (i j : ℕ) (v d : A) → i ≢ j → get_or (set xs i v) j d ≡ get_or xs j d
  get_or-set_ne [] i j v d h = refl
  get_or-set_ne (x ∷ xs) zero zero v d h = absurd (h refl)
  get_or-set_ne (x ∷ xs) zero (suc j) v d h = refl
  get_or-set_ne (x ∷ xs) (suc i) zero v d h = refl
  get_or-set_ne (x ∷ xs) (suc i) (suc j) v d h = get_or-set_ne xs i j v d (λ e. h (ap suc e))

  pub length-take : (n : ℕ) (xs : List A) → length (take n xs) ≡ min n (length xs)
  length-take zero xs = omega arith
  length-take (suc n) [] = omega arith
  length-take (suc n) (x ∷ xs) = omega (arith, length-take n xs)

  pub length-drop : (n : ℕ) (xs : List A) → length (drop n xs) ≡ length xs - n
  length-drop zero xs = omega arith
  length-drop (suc n) [] = omega arith
  length-drop (suc n) (x ∷ xs) = omega (arith, length-drop n xs)

  pub length-replicate : (n : ℕ) (a : A) → length (replicate n a) ≡ n
  length-replicate zero a = refl
  length-replicate (suc n) a = ap suc (length-replicate n a)

  pub take-append-drop : (n : ℕ) (xs : List A) → take n xs ++ drop n xs ≡ xs
  take-append-drop zero xs = refl
  take-append-drop (suc n) [] = refl
  take-append-drop (suc n) (x ∷ xs) = ap (λ t. x ∷ t) (take-append-drop n xs)

  pub take-length_append : (xs ys : List A) → take (length xs) (xs ++ ys) ≡ xs
  take-length_append [] ys = refl
  take-length_append (x ∷ xs) ys = ap (λ t. x ∷ t) (take-length_append xs ys)

  pub drop-length_append : (xs ys : List A) → drop (length xs) (xs ++ ys) ≡ ys
  drop-length_append [] ys = refl
  drop-length_append (x ∷ xs) ys = drop-length_append xs ys

  pub take-append : (n : ℕ) (xs ys : List A) → take (length xs + n) (xs ++ ys) ≡ xs ++ take n ys
  take-append n [] ys = rw zero-add
  take-append n (x ∷ xs) ys = rw (suc_add (length xs) n) (ap (λ t. x ∷ t) (take-append n xs ys))

  pub take-append_within : (n : ℕ) (xs ys : List A) → n ≤ length xs → take n (xs ++ ys) ≡ take n xs
  take-append_within zero xs ys h = refl
  take-append_within (suc n) [] ys h = absurd (omega arith)
  take-append_within (suc n) (x ∷ xs) ys h =
      ap (λ t. x ∷ t) (take-append_within n xs ys (omega arith))

  pub take-all : (n : ℕ) (xs : List A) → length xs ≤ n → take n xs ≡ xs
  take-all zero [] h = refl
  take-all zero (x ∷ xs) h = absurd (omega arith)
  take-all (suc n) [] h = refl
  take-all (suc n) (x ∷ xs) h = ap (λ t. x ∷ t) (take-all n xs (omega arith))

  pub drop-length : (xs : List A) → drop (length xs) xs ≡ []
  drop-length [] = refl
  drop-length (x ∷ xs) = drop-length xs

  pub drop-nil : (n : ℕ) → drop {A = A} n [] ≡ []
  drop-nil zero = refl
  drop-nil (suc n) = refl

  pub drop-drop : (m n : ℕ) (xs : List A) → drop n (drop m xs) ≡ drop (m + n) xs
  drop-drop zero n xs = ground arith
  drop-drop (suc m) n [] = rw (drop-nil n, suc_add m n)
  drop-drop (suc m) n (x ∷ xs) = rw (suc_add m n) (drop-drop m n xs)

  pub length-write : (xs : List A) (i : ℕ) (ys : List A) → length (write xs i ys) ≡ length xs
  length-write [] i ys = refl
  length-write (x ∷ xs) (suc i) ys = ap suc (length-write xs i ys)
  length-write (x ∷ xs) zero [] = refl
  length-write (x ∷ xs) zero (y ∷ ys) = ap suc (length-write xs zero ys)

  -- What a write leaves from its start on.
  pub drop-write :
      (xs : List A) (i : ℕ) (ys : List A)
      → i + length ys ≤ length xs
      → drop i (write xs i ys) ≡ ys ++ drop (i + length ys) xs
  drop-write [] zero [] h = refl
  drop-write [] zero (y ∷ ys) h = absurd (omega arith)
  drop-write [] (suc i) ys h = absurd (omega arith)
  drop-write (x ∷ xs) (suc i) ys h = rw (suc_add i (length ys)) (drop-write xs i ys (omega arith))
  drop-write (x ∷ xs) zero [] h = refl
  drop-write (x ∷ xs) zero (y ∷ ys) h = ground (arith, drop-write xs zero ys)

  pub write-append :
      (xs ys : List A) (i : ℕ) (zs : List A)
      → write (xs ++ ys) (length xs + i) zs ≡ xs ++ write ys i zs
  write-append [] ys i zs = rw zero-add
  write-append (x ∷ xs) ys i zs =
      rw (suc_add (length xs) i) (ap (λ t. x ∷ t) (write-append xs ys i zs))

  pub write-replace :
      (old ys new : List A) → length old ≡ length new → write (old ++ ys) 0 new ≡ new ++ ys
  write-replace [] [] [] h = refl
  write-replace [] (y ∷ ys) [] h = refl
  write-replace [] ys (n ∷ new) h = absurd (omega arith)
  write-replace (o ∷ old) ys [] h = absurd (omega arith)
  write-replace (o ∷ old) ys (n ∷ new) h = ap (λ t. n ∷ t) (write-replace old ys new (omega arith))

  -- Two writes, the second behind the first, are one.
  pub write-write :
      (xs : List A) (i : ℕ) (ys zs : List A)
      → write (write xs i ys) (i + length ys) zs ≡ write xs i (ys ++ zs)
  write-write [] i ys zs = refl
  write-write (x ∷ xs) (suc i) ys zs =
      rw (suc_add i (length ys)) (ap (λ t. x ∷ t) (write-write xs i ys zs))
  write-write (x ∷ xs) zero [] zs = refl
  write-write (x ∷ xs) zero (y ∷ ys) zs =
      let e : 0 + length (y ∷ ys) ≡ suc (0 + length ys) = omega arith in
      rw e (ap (λ t. y ∷ t) (write-write xs zero ys zs))

  pub get_or-append :
      (xs ys : List A) (i : ℕ) (d : A) → get_or (xs ++ ys) (length xs + i) d ≡ get_or ys i d
  get_or-append [] ys i d = rw zero-add
  get_or-append (x ∷ xs) ys i d = rw (suc_add (length xs) i) (get_or-append xs ys i d)

  -- A write as a cut.
  pub write-split :
      (xs : List A) (i : ℕ) (ys : List A)
      → i + length ys ≤ length xs
      → write xs i ys ≡ take i xs ++ (ys ++ drop (i + length ys) xs)
  write-split [] zero [] h = refl
  write-split [] zero (y ∷ ys) h = absurd (omega arith)
  write-split [] (suc i) ys h = absurd (omega arith)
  write-split (x ∷ xs) (suc i) ys h =
      rw (suc_add i (length ys)) (ap (λ t. x ∷ t) (write-split xs i ys (omega arith)))
  write-split (x ∷ xs) zero [] h = refl
  write-split (x ∷ xs) zero (y ∷ ys) h =
      let e : 0 + length (y ∷ ys) ≡ suc (0 + length ys) = omega arith in
      rw e (ap (λ t. y ∷ t) (write-split xs zero ys (omega arith)))

  pub All-append {κ} : (P : A → Type κ) (xs ys : List A) → All P xs → All P ys → All P (xs ++ ys)
  All-append P [] ys h k = k
  All-append P (x ∷ xs) ys h k = (h.0, All-append P xs ys h.1 k)
