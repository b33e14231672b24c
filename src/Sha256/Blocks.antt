-- ===== src/Sha256/Blocks.antt =====
-- src/sha256.c: the blocks that the loop of sha256_list reads.
use fastd.Base.{
  ℕ, zero, suc, ◌+◌, ◌≤◌, ◌≡◌, refl, sym, ap, subst, ◌∙◌, true, false, Option, some, List, [], ◌∷◌,
  ◌++◌, ltb, arith, length, take, drop, drop-nil, replicate,
}
use fastd.Sha256.{of_bytes, copy_word, copy_loop, copy_words, next_block, block_bytes}
use fastd.Sha256.Padding.{
  words, Stage, reading, ended, bytes, rest_of, At, Memory, step, word, copy_word_lem,
}

abbrev pub quads : ℕ → ℕ
quads zero = 0
quads (suc n) = suc (suc (suc (suc (quads n))))

abbrev pub steps : ℕ → Stage → Stage
steps zero s = s
steps (suc n) s = steps n (step s)

rest-step : (s : Stage) → rest_of (step s) ≡ drop 4 (rest_of s)
rest-step (reading (a ∷ b ∷ c ∷ d ∷ rest)) = refl
rest-step (reading (a ∷ b ∷ c ∷ [])) = refl
rest-step (reading (a ∷ b ∷ [])) = refl
rest-step (reading (a ∷ [])) = refl
rest-step (reading []) = refl
rest-step ended = refl

drop-four : (n : ℕ) (xs : List ℕ) → drop n (drop 4 xs) ≡ drop (suc (suc (suc (suc n)))) xs
drop-four n (a ∷ b ∷ c ∷ d ∷ xs) = refl
drop-four n (a ∷ b ∷ c ∷ []) = drop-nil n
drop-four n (a ∷ b ∷ []) = drop-nil n
drop-four n (a ∷ []) = drop-nil n
drop-four n [] = drop-nil n

pub rest-steps : (n : ℕ) (s : Stage) → rest_of (steps n s) ≡ drop (quads n) (rest_of s)
rest-steps zero s = refl
rest-steps (suc n) s =
    rest-steps n (step s) ∙ ap (drop (quads n)) (rest-step s) ∙ drop-four (quads n) (rest_of s)

Memory-step :
    (n : ℕ) (rest block : List ℕ)
    → Memory (suc (suc (suc (suc n)))) rest block
    → 4 ≤ length rest
    → Memory n (drop 4 rest) (drop 4 block)
Memory-step n (a ∷ b ∷ c ∷ d ∷ rest) block (extra, e) h = (extra, ap (drop 4) e)
Memory-step n (a ∷ b ∷ c ∷ []) block m h = absurd (omega (arith, h))
Memory-step n (a ∷ b ∷ []) block m h = absurd (omega (arith, h))
Memory-step n (a ∷ []) block m h = absurd (omega (arith, h))
Memory-step n [] block m h = absurd (omega (arith, h))

-- Nothing is read from memory when nothing is left.
Memory-empty : (n : ℕ) (block : List ℕ) → Memory n [] block
Memory-empty zero block = (block, refl)
Memory-empty (suc n) block = (block, refl)

Memory-next :
    (n : ℕ) (s : Stage) (block : List ℕ)
    → Memory (suc (suc (suc (suc n)))) (rest_of s) block
    → Memory n (rest_of (step s)) (drop 4 block)
Memory-next n (reading (a ∷ b ∷ c ∷ d ∷ rest)) block m =
    Memory-step n (a ∷ b ∷ c ∷ d ∷ rest) block m (omega arith)
Memory-next n (reading (a ∷ b ∷ c ∷ [])) block m = Memory-empty n (drop 4 block)
Memory-next n (reading (a ∷ b ∷ [])) block m = Memory-empty n (drop 4 block)
Memory-next n (reading (a ∷ [])) block m = Memory-empty n (drop 4 block)
Memory-next n (reading []) block m = Memory-empty n (drop 4 block)
Memory-next n ended block m = Memory-empty n (drop 4 block)

Memory-four :
    (n : ℕ) (rest block : List ℕ)
    → Memory (suc (suc (suc (suc n)))) rest block
    → Memory 4 rest block
Memory-four n (a ∷ b ∷ c ∷ d ∷ rest) block (extra, e) = (take n rest ++ extra, e)
Memory-four n (a ∷ b ∷ c ∷ []) block (extra, e) = (extra, e)
Memory-four n (a ∷ b ∷ []) block (extra, e) = (extra, e)
Memory-four n (a ∷ []) block (extra, e) = (extra, e)
Memory-four n [] block (extra, e) = (extra, e)

-- What `copy_loop` has made of a stage of the text.
pub data Copied (n len p fill : ℕ) (s : Stage) (block : List ℕ) : Type 0 where
  copied :
      (front : List ℕ) (fill' : ℕ)
      → bytes s fill ≡ front ++ bytes (steps n s) fill'
      → length front ≡ quads n
      → copy_loop n block len p ≡ some (words front, p + quads n)
      → At len (p + quads n) (steps n s)
      → Copied n len p fill s block

loop-run :
    (n len p w : ℕ) (block ws : List ℕ) (p' : ℕ)
    → copy_word block len p ≡ some w
    → copy_loop n (drop 4 block) len (p + 4) ≡ some (ws, p')
    → copy_loop (suc n) block len p ≡ some (w ∷ ws, p')
unfolding copy_loop
loop-run n len p w block ws p' e f = rw (e, f) refl

loop-none : (len p : ℕ) (block : List ℕ) → copy_loop 0 block len p ≡ some ([], p + 0)
unfolding copy_loop
loop-none len p block = ap (λ q. some ([], q)) (omega arith)

pub copy_loop_lem :
    (n len p fill : ℕ) (s : Stage) (block : List ℕ)
    → At len p s
    → quads n ≤ length (bytes s fill)
    → Memory (quads n) (rest_of s) block
    → Copied n len p fill s block
copy_loop_lem zero len p fill s block h k m =
    copied [] fill refl refl (loop-none len p block) (subst (λ q. At len q s) (omega arith) h)
copy_loop_lem (suc n) len p fill s block h k m =
    elim (copy_word_lem len p fill s block h (omega (arith, k))
      (Memory-four (quads n) (rest_of s) block m)) [
        | word a b c d fill' e f g ↦
            elim (copy_loop_lem n len (p + 4) fill' (step s) (drop 4 block) g
              (omega (arith, k, ap length e)) (Memory-next (quads n) s block m)) [
                | copied front fill'' e' l f' g' ↦
                    let places : p + 4 + quads n ≡ p + quads (suc n) = omega arith in
                    copied (a ∷ b ∷ c ∷ d ∷ front) fill'' (e ∙ ap (λ x. a ∷ b ∷ c ∷ d ∷ x) e')
                      (omega (arith, l))
                      (loop-run n len p (of_bytes (a ∷ b ∷ c ∷ d ∷ [])) block (words front)
                          (p + 4 + quads n) f f'
                        ∙ ap (λ q. some (words (a ∷ b ∷ c ∷ d ∷ front), q)) places)
                      (subst (λ q. At len q (steps n (step s))) places g')
              ]
      ]

-- The blocks of `input` have the bytes of `rest`, of which each but the last has 32.
abbrev pub Held : List (List ℕ) → List ℕ → Type 0
Held [] rest = rest ≡ []
Held (block ∷ input) rest = Memory block_bytes rest block × Held input (drop block_bytes rest)

block-taken :
    (input : List (List ℕ)) (len p : ℕ) (block : List ℕ)
    → ltb p len ≡ true
    → next_block (block ∷ input) len p ≡ some (block, input)
unfolding next_block
block-taken input len p block e = rw e refl

block-padding :
    (input : List (List ℕ)) (len p : ℕ)
    → ltb p len ≡ false
    → next_block input len p ≡ some (replicate block_bytes 0, input)
unfolding next_block
block-padding input len p e = rw e refl

Held-empty : (n : ℕ) (input : List (List ℕ)) → Held input [] → Held input (drop n [])
Held-empty n input h = subst (Held input) (sym (drop-nil n)) h

next_block_lem :
    (input : List (List ℕ)) (len p : ℕ) (s : Stage)
    → At len p s
    → Held input (rest_of s)
    → (block : List ℕ) × (input' : List (List ℕ)) × (next_block input len p ≡ some (block, input'))
      × Memory block_bytes (rest_of s) block
      × Held input' (drop block_bytes (rest_of s))
next_block_lem [] len p (reading (x ∷ rest)) h k = absurd cc
next_block_lem (block ∷ input) len p (reading (x ∷ rest)) h k =
    (block, input, block-taken input len p block (ground (arith, h)), k.0, k.1)
next_block_lem input len p (reading []) h k = (
  replicate block_bytes 0,
  input,
  block-padding input len p (ground (arith, h)),
  Memory-empty block_bytes (replicate block_bytes 0),
  Held-empty block_bytes input k,
)
next_block_lem input len p ended h k = (
  replicate block_bytes 0,
  input,
  block-padding input len p (ground (arith, h)),
  Memory-empty block_bytes (replicate block_bytes 0),
  Held-empty block_bytes input k,
)

-- What half a round has made of a stage.
pub data Half (len p fill : ℕ) (s : Stage) (input : List (List ℕ)) : Type 0 where
  half :
      (front block : List ℕ) (fill' : ℕ) (input' : List (List ℕ))
      → bytes s fill ≡ front ++ bytes (steps 8 s) fill'
      → length front ≡ 32
      → next_block input len p ≡ some (block, input')
      → copy_words block len p ≡ some (words front, p + 32)
      → At len (p + 32) (steps 8 s)
      → Held input' (rest_of (steps 8 s))
      → Half len p fill s input

words-run :
    (len p : ℕ) (block : List ℕ) (r : Option (List ℕ × ℕ))
    → copy_loop 8 block len p ≡ r
    → copy_words block len p ≡ r
unfolding copy_words
words-run len p block r e = e

pub half_lem :
    (len p fill : ℕ) (s : Stage) (input : List (List ℕ))
    → At len p s
    → Held input (rest_of s)
    → 32 ≤ length (bytes s fill)
    → Half len p fill s input
half_lem len p fill s input h k l =
    let (block, input', e, m, k') = next_block_lem input len p s h k in
    elim (copy_loop_lem 8 len p fill s block h l m) [
      | copied front fill' f n g h' ↦
          half front block fill' input' f n e (words-run len p block (some (words front, p + 32)) g)
            h' (subst (Held input') (sym (rest-steps 8 s)) k')
    ]
