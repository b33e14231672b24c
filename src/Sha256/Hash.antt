-- ===== src/Sha256/Hash.antt =====
-- src/sha256.c: sha256_list is the hash of the padded text, for any list of blocks.
use fastd.Base.{
  ℕ, zero, suc, ◌+◌, ◌*◌, ◌%◌, ◌≤◌, ◌<◌, ◌≡◌, refl, sym, ap, ap₂, subst, ◌∙◌, true, false, Option,
  some, List, [], ◌∷◌, ◌++◌, ltb, leb, if◌then◌else◌, arith, length, take, drop, append-nil,
  length-append, append_assoc, take-length_append, drop-length_append, length-take,
}
use fastd.Sha256.{word_mod, next_block, copy_words, next_words, compress, sha256_loop}
use fastd.Sha256.Padding.{words, Stage, bytes, rest_of, At}
use fastd.Sha256.Blocks.{steps, Held, half, half_lem}
use fastd.Sha256.Words.{
  with_last, with_last-append, take-with_last, words-append, length-words, words-some,
}

-- The code's rounds over `n` blocks of 16 words, one by one.
unfoldable pub absorb : ℕ → List ℕ → List ℕ → List ℕ
absorb zero h ws = h
absorb (suc n) h ws = absorb n (compress h (take 16 ws)) (drop 16 ws)

absorb-append :
    (n : ℕ) (h w ws : List ℕ)
    → length w ≡ 16
    → absorb (suc n) h (w ++ ws) ≡ absorb n (compress h w) ws
unfolding absorb
absorb-append n h w ws e =
    ap₂ (λ x y. absorb n (compress h x) y)
      (ap (λ m. take m (w ++ ws)) (sym e) ∙ take-length_append w ws)
      (ap (λ m. drop m (w ++ ws)) (sym e) ∙ drop-length_append w ws)

absorb-none : (h ws : List ℕ) → absorb 0 h ws ≡ h
unfolding absorb
absorb-none h ws = refl

next-run :
    (len p p1 p2 : ℕ) (input input1 input2 : List (List ℕ)) (block block' w w' : List ℕ)
    → next_block input len p ≡ some (block, input1)
    → copy_words block len p ≡ some (w, p1)
    → next_block input1 len p1 ≡ some (block', input2)
    → copy_words block' len p1 ≡ some (w', p2)
    → next_words input len p
      ≡ some (
        (if ltb (len + 8) p2 then take 15 (w ++ w') ++ (len * 8 % word_mod ∷ []) else w ++ w'),
        input2,
        p2,
      )
unfolding next_words
next-run len p p1 p2 input input1 input2 block block' w w' e f g h = rw (e, f, g, h) refl

-- What a round has read.
data Round (len p fill : ℕ) (s : Stage) (input : List (List ℕ)) : Type 0 where
  round :
      (front : List ℕ) (fill' : ℕ) (input' : List (List ℕ)) (s' : Stage)
      → bytes s fill ≡ front ++ bytes s' fill'
      → length front ≡ 64
      → next_words input len p
        ≡ some (
          (if ltb (len + 8) (p + 64)
              then take 15 (words front) ++ (len * 8 % word_mod ∷ [])
              else words front),
          input',
          p + 64,
        )
      → At len (p + 64) s'
      → Held input' (rest_of s')
      → Round len p fill s input

round_lem :
    (len p fill : ℕ) (s : Stage) (input : List (List ℕ))
    → At len p s
    → Held input (rest_of s)
    → 64 ≤ length (bytes s fill)
    → Round len p fill s input
round_lem len p fill s input h k l = elim (half_lem len p fill s input h k (omega (arith, l))) [
  | half front block fill1 input1 e n f g h1 k1 ↦
      elim (half_lem len (p + 32) fill1 (steps 8 s) input1 h1 k1
        (omega (arith, l, n, ap length e, length-append front (bytes (steps 8 s) fill1)))) [
          | half front' block' fill2 input2 e' n' f' g' h2 k2 ↦
              let s2 = steps 8 (steps 8 s) in
              let places : p + 32 + 32 ≡ p + 64 = omega arith in
              let result : List ℕ → ℕ → Option (List ℕ × List (List ℕ) × ℕ) = λ w q. some (
                (if ltb (len + 8) q then take 15 w ++ (len * 8 % word_mod ∷ []) else w),
                input2,
                q,
              ) in
              round (front ++ front') fill2 input2 s2
                (e ∙ ap (λ x. front ++ x) e' ∙ sym (append_assoc front front' (bytes s2 fill2)))
                (omega (arith, n, n', length-append front front'))
                (next-run len p (p + 32) (p + 32 + 32) input input1 input2 block block'
                    (words front) (words front') f g f' g'
                  ∙ ap₂ result (sym (words-append 8 front front' n)) places)
                (subst (λ q. At len q s2) places h2) k2
        ]
]

loop-more :
    (n len p p' : ℕ) (h w : List ℕ) (input input' : List (List ℕ))
    → leb p (len + 8) ≡ true
    → next_words input len p ≡ some (w, input', p')
    → sha256_loop (suc n) h input len p ≡ sha256_loop n (compress h w) input' len p'
unfolding sha256_loop
loop-more n len p p' h w input input' e f = rw (e, f) refl

loop-stop :
    (n len p : ℕ) (h : List ℕ) (input : List (List ℕ))
    → leb p (len + 8) ≡ false
    → sha256_loop (suc n) h input len p ≡ some h
unfolding sha256_loop
loop-stop n len p h input e = rw e refl

module _ (len : ℕ) where
  abbrev count : ℕ
  count = len * 8 % word_mod

  abbrev front_words : ℕ → List ℕ → List ℕ
  front_words p front =
      if ltb (len + 8) (p + 64) then take 15 (words front) ++ (count ∷ []) else words front

  front_length : (p : ℕ) (front : List ℕ) → length front ≡ 64 → length (front_words p front) ≡ 16
  front_length p front m = ground (
    arith,
    length-words 16 front m,
    length-append (take 15 (words front)) (count ∷ []),
    length-take 15 (words front),
  )

  -- The last round: the words of the text, with the count of bits.
  last-words :
      (p : ℕ) (front rest : List ℕ)
      → length front ≡ 64
      → rest ≡ []
      → len + 8 < p + 64
      → front_words p front ≡ with_last (words (front ++ rest)) count
  last-words p front rest n e h =
      ap (λ b. if b then take 15 (words front) ++ (count ∷ []) else words front) found
      ∙ take-with_last 15 (words front) count (length-words 16 front n)
      ∙ ap (λ l. with_last (words l) count) (sym (append-nil front))
      ∙ ap (λ l. with_last (words (front ++ l)) count) (sym e)
    where
      found : ltb (len + 8) (p + 64) ≡ true
      found = ground (arith, h)

  -- Another round: its words are the first ones.
  more-words :
      (p : ℕ) (front rest : List ℕ)
      → length front ≡ 64
      → 4 ≤ length rest
      → p + 64 ≤ len + 8
      → with_last (words (front ++ rest)) count
        ≡ front_words p front ++ with_last (words rest) count
  more-words p front rest n l h =
      let (v, ws, e) = words-some rest l in
      ap (λ x. with_last x count) (words-append 16 front rest n ∙ ap (λ x. words front ++ x) e)
      ∙ with_last-append (words front) v ws count
      ∙ ap (λ x. words front ++ with_last x count) (sym e)
      ∙ ap
          (λ b.
            (if b then take 15 (words front) ++ (count ∷ []) else words front)
            ++ with_last (words rest) count)
          (sym found)
    where
      found : ltb (len + 8) (p + 64) ≡ false
      found = ground (arith, h)

  -- The rounds that are left, which end with the text and its padding.
  pub loop_lem :
      (n fuel p fill : ℕ) (h : List ℕ) (s : Stage) (input : List (List ℕ))
      → n + 1 < fuel
      → At len p s
      → Held input (rest_of s)
      → length (bytes s fill) ≡ (n + 1) * 64
      → len + 8 < p + (n + 1) * 64
      → p + n * 64 ≤ len + 8
      → sha256_loop fuel h input len p
        ≡ some (absorb (suc n) h (with_last (words (bytes s fill)) count))
  loop_lem n zero p fill h s input f a k l u v = absurd (omega (arith, f))
  loop_lem n (suc zero) p fill h s input f a k l u v = absurd (omega (arith, f))
  loop_lem zero (suc (suc fuel)) p fill h s input f a k l u v =
      elim (round_lem len p fill s input a k (omega (arith, l))) [
        | round front fill' input' s' e m g a' k' ↦
            let rest_length : length (bytes s' fill') ≡ 0 =
              omega (arith, l, m, ap length e, length-append front (bytes s' fill')) in
            let w = front_words p front in
            let e' : w ≡ with_last (words (bytes s fill)) count =
              last-words p front (bytes s' fill') m (nothing (bytes s' fill') rest_length)
                (omega (arith, u))
              ∙ ap (λ l. with_last (words l) count) (sym e) in
            loop-more (suc fuel) len p (p + 64) h w input input' (ground (arith, v)) g
            ∙ loop-stop fuel len (p + 64) (compress h w) input' (ground (arith, u))
            ∙ ap some (sym (absorb-none (compress h w) []))
            ∙ ap some (sym (absorb-append 0 h w [] (front_length p front m)))
            ∙ ap (λ l. some (absorb 1 h l)) (append-nil w ∙ e')
      ]
    where
      nothing : (xs : List ℕ) → length xs ≡ 0 → xs ≡ []
      nothing [] h = refl
      nothing (x ∷ xs) h = absurd (omega (arith, h))
  loop_lem (suc n) (suc (suc fuel)) p fill h s input f a k l u v =
      elim (round_lem len p fill s input a k (omega (arith, l))) [
        | round front fill' input' s' e m g a' k' ↦
            let left : length (bytes s' fill') ≡ (n + 1) * 64 =
              omega (arith, l, m, ap length e, length-append front (bytes s' fill')) in
            let w = front_words p front in
            loop-more (suc fuel) len p (p + 64) h w input input' (ground (arith, v)) g
            ∙ loop_lem n (suc fuel) (p + 64) fill' (compress h w) s' input' (omega (arith, f)) a' k'
                left (omega (arith, u)) (omega (arith, v))
            ∙ ap some (
                sym (
                  absorb-append (suc n) h w (with_last (words (bytes s' fill')) count)
                    (front_length p front m)))
            ∙ ap (λ l. some (absorb (suc (suc n)) h l))
                (sym
                  (more-words p front (bytes s' fill') m (omega (arith, left)) (omega (arith, v))))
            ∙ ap (λ l. some (absorb (suc (suc n)) h (with_last (words l) count))) (sym e)
      ]
