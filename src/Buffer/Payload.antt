-- ===== src/Buffer/Payload.antt =====
-- What the operations of src/buffer.h do to the bytes of the window.
use native.Mathlib.Decide.{dec_lt}
use native.Mathlib.Nat.{zero-add}
use fastd.Base.{
  ℕ, zero, suc, ◌+◌, ◌-◌, ◌≤◌, ◌<◌, ◌≡◌, refl, ap, ◌∙◌, none, some, List, [], ◌∷◌, ◌++◌, arith,
  length, take, drop, write, length-write, drop-write, take-append, drop-drop, length-take,
  length-drop, take-length_append, drop-length_append, suc_add, length-append, replicate,
  length-replicate, ◌⊎◌, inl, inr,
}
use fastd.Util.{size_mod}
use fastd.Buffer.{Buffer, View, push, push_zero, push_from, pull, pull_to}

-- The window lies in the space, and offsets into the space do not wrap.
pub record IsValid (b : Buffer) : Type 0 where
  pub inside : b.head + b.len ≤ length b.base
  pub small : length b.base < size_mod

abbrev pub payload : Buffer → List ℕ
payload b = take b.len (drop b.head b.base)

abbrev pub view_payload : View → List ℕ
view_payload v = take v.len (drop v.head v.base)

pub length-payload : {b : Buffer} → IsValid b → length (payload b) ≡ b.len
length-payload {b} v =
    omega (arith, length-take b.len (drop b.head b.base), length-drop b.head b.base)

-- The buffer that `push_from` leaves.
abbrev pub pushed : Buffer → List ℕ → Buffer
pushed b bytes = record {
  base = write b.base (b.head - length bytes) bytes;
  head = b.head - length bytes;
  len = length bytes + b.len;
}

pub push_from_lem :
    {b : Buffer} (bytes : List ℕ)
    → IsValid b
    → length bytes ≤ b.head
    → push_from b bytes ≡ some (pushed b bytes)
unfolding push_from push
push_from_lem bytes v h = ground arith

-- `push_zero` pushes zeroes.
pub push_zero_lem :
    {b : Buffer} (n : ℕ) → IsValid b → n ≤ b.head → push_zero b n ≡ some (pushed b (replicate n 0))
unfolding push_zero push
push_zero_lem n v h = let zero_byte : ℕ = 0 in rw (length-replicate n zero_byte) (ground arith)

pub pushed-IsValid :
    {b : Buffer} (bytes : List ℕ) → IsValid b → length bytes ≤ b.head → IsValid (pushed b bytes)
pushed-IsValid {b} bytes v h = omega (arith, length-write b.base (b.head - length bytes) bytes)

pub payload-pushed :
    {b : Buffer} (bytes : List ℕ)
    → IsValid b
    → length bytes ≤ b.head
    → payload (pushed b bytes) ≡ bytes ++ payload b
payload-pushed {b} bytes v h =
    ap (take (length bytes + b.len)) (
      drop-write b.base (b.head - length bytes) bytes (omega arith)
      ∙ ap (λ k. bytes ++ drop k b.base) restore)
    ∙ take-append b.len bytes (drop b.head b.base)
  where
    restore : b.head - length bytes + length bytes ≡ b.head
    restore = omega arith

-- `fastd_buffer_push_from` on every valid buffer: either the headroom is too small and the process
-- ends, or it succeeds, keeps the buffer valid, puts exactly the given bytes before the payload,
-- and takes their number from the headroom.
pub payload-push_from :
    {b : Buffer} (bytes : List ℕ)
    → IsValid b
    → (b.head < length bytes) × (push_from b bytes ≡ none)
      ⊎ ((b' : Buffer) × (push_from b bytes ≡ some b')
          × IsValid b'
          × (payload b' ≡ bytes ++ payload b)
          × (b'.head + length bytes ≡ b.head)
          × (length b'.base ≡ length b.base))
payload-push_from {b} bytes v = elim (dec_lt b.head (length bytes)) [
  | yes h ↦ inl (h, unfold push_from push in ground arith)
  | no h ↦ inr (
    pushed b bytes,
    push_from_lem bytes v (omega arith),
    pushed-IsValid bytes v (omega arith),
    payload-pushed bytes v (omega arith),
    omega arith,
    length-write b.base (b.head - length bytes) bytes,
  )
]

pub take-take {ℓ} : {A : Type ℓ} (m n : ℕ) (xs : List A) → n ≤ m → take n (take m xs) ≡ take n xs
take-take m zero xs h = refl
take-take zero (suc n) xs h = absurd (omega arith)
take-take (suc m) (suc n) [] h = refl
take-take (suc m) (suc n) (x ∷ xs) h = ap (λ t. x ∷ t) (take-take m n xs (omega arith))

pub drop-take {ℓ} :
    {A : Type ℓ} (n m : ℕ) (xs : List A) → drop n (take (n + m) xs) ≡ take m (drop n xs)
drop-take zero m xs = rw zero-add
drop-take (suc n) zero [] = rw suc_add
drop-take (suc n) (suc m) [] = rw suc_add
drop-take (suc n) m (x ∷ xs) = rw (suc_add n m) (drop-take n m xs)

-- The buffer that `pull` leaves.
abbrev pub pulled : Buffer → ℕ → Buffer
pulled b n = record b { head = b.head + n; len = b.len - n }

pub pull_lem : {b : Buffer} (n : ℕ) → IsValid b → n ≤ b.len → pull b n ≡ some (pulled b n)
unfolding pull
pull_lem n v h = ground arith

pub payload-pulled : (b : Buffer) (n : ℕ) → n ≤ b.len → payload (pulled b n) ≡ drop n (payload b)
payload-pulled b n h = rw (split, drop-take, drop-drop, minus)
  where
    split : b.len ≡ n + (b.len - n)
    split = omega arith

    minus : n + (b.len - n) - n ≡ b.len - n
    minus = omega arith

pub pull_to_lem :
    {b : Buffer} (n : ℕ)
    → IsValid b
    → n ≤ b.len
    → pull_to b n ≡ some (take n (payload b), pulled b n)
unfolding pull_to pull
pull_to_lem {b} n v h = rw (take-take b.len n (drop b.head b.base) h) (ground arith)

-- Pulling keeps the buffer valid and removes exactly the pulled bytes from the payload; with less
-- payload than asked for the process ends.
pub payload-pull_to :
    {b : Buffer} (n : ℕ)
    → IsValid b
    → (b.len < n) × (pull_to b n ≡ none)
      ⊎ ((b' : Buffer) × (pull_to b n ≡ some (take n (payload b), b'))
          × IsValid b'
          × (payload b' ≡ drop n (payload b))
          × (b'.base ≡ b.base)
          × (b'.head ≡ b.head + n))
payload-pull_to {b} n v = elim (dec_lt b.len n) [
  | yes h ↦ inl (h, unfold pull_to pull in ground arith)
  | no h ↦ inr (
    pulled b n,
    pull_to_lem n v (omega arith),
    omega arith,
    payload-pulled b n (omega arith),
    refl,
    refl,
  )
]

-- What was pushed comes back by a pull, and leaves the payload and the headroom as they were.
pub pull_to-push_from :
    {b b' : Buffer} (bytes : List ℕ)
    → IsValid b
    → push_from b bytes ≡ some b'
    → (b'' : Buffer) × (pull_to b' (length bytes) ≡ some (bytes, b''))
      × (payload b'' ≡ payload b)
      × (b''.head ≡ b.head)
pull_to-push_from {b} {b'} bytes v e = elim (payload-push_from bytes v) [
  | inl (h, n) ↦ cc
  | inr (c, ec, vc, pc, hc, lc) ↦ back c ec vc pc hc
]
  where
    back :
        (c : Buffer)
        → push_from b bytes ≡ some c
        → IsValid c
        → payload c ≡ bytes ++ payload b
        → c.head + length bytes ≡ b.head
        → (b'' : Buffer) × (pull_to b' (length bytes) ≡ some (bytes, b''))
          × (payload b'' ≡ payload b)
          × (b''.head ≡ b.head)
    back c ec vc pc hc =
        let same : c ≡ b' = cc in
        let fits : length bytes ≤ c.len =
          omega (arith, length-payload vc, ap length pc, length-append bytes (payload b)) in
        elim (payload-pull_to (length bytes) vc) [
          | inl (h, n) ↦ absurd (omega arith)
          | inr (d, ed, vd, pd, bd, hd) ↦ (
            d,
            rw (← same) (ed ∙ rw (pc, take-length_append)),
            pd ∙ rw (pc, drop-length_append),
            omega arith,
          )
        ]
