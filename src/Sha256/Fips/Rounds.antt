-- ===== src/Sha256/Fips/Rounds.antt =====
-- src/sha256.c: a round of the loop of sha256_list is the hash computation of the standard for a block.
use fastd.Base.{
  ℕ, zero, suc, ◌+◌, ◌-◌, ◌/◌, ◌%◌, ◌^◌, ◌<◌, ◌≡◌, refl, sym, ap, ap₂, ◌∙◌, List, [], ◌∷◌, ◌++◌,
  arith, length, get_or, All, All-append, take, drop,
}
use fastd.Base.Bits.{bit_xor}
use fastd.Sha256.{word_mod, k, initial, rotr, schedule, mix, rounds, add_words, compress}
use fastd.Sha256.Hash.{absorb}
use fastd.Sha256.Fips.{
  small_sigma0, small_sigma1, root, constants, start, expand, Working, step, steps, working,
  block_hash, block_hashes,
}
use fastd.Sha256.Fips.Functions.{
  sigma0_lem, sigma1_lem, schedule0_lem, schedule1_lem, ch_lem, maj_lem,
}

abbrev pub IsWord : ℕ → Type 0
IsWord x = x < word_mod

constants_lem : k ≡ constants
unfolding constants root
constants_lem = refl

start_lem : initial ≡ start
unfolding start root
start_lem = refl

get_or-IsWord : (w : List ℕ) (i : ℕ) → All IsWord w → IsWord (get_or w i 0)
get_or-IsWord [] i h = omega arith
get_or-IsWord (x ∷ w) zero h = h.0
get_or-IsWord (x ∷ w) (suc i) h = get_or-IsWord w i h.1

schedule_lem : (n : ℕ) (w : List ℕ) → All IsWord w → schedule n w ≡ expand n w
unfolding schedule expand
schedule_lem zero w h = refl
schedule_lem (suc n) w h =
    ap (λ x. schedule n (w ++ (x ∷ []))) same
    ∙ schedule_lem n (w ++ (new ∷ [])) (All-append IsWord w (new ∷ []) h (omega arith, tt))
  where
    at : ℕ → ℕ
    at s = get_or w (length w - s) 0

    new : ℕ
    new = (small_sigma1 (at 2) + at 7 + small_sigma0 (at 15) + at 16) % 2 ^ 32

    same :
        (at 16
            + bit_xor (bit_xor (rotr (at 15) 7) (rotr (at 15) 18)) (at 15 / 2 ^ 3)
            + at 7
            + bit_xor (bit_xor (rotr (at 2) 17) (rotr (at 2) 19)) (at 2 / 2 ^ 10))
          % word_mod
        ≡ new
    same =
        rw
          (
            schedule0_lem (at 15) (get_or-IsWord w (length w - 15) h),
            schedule1_lem (at 2) (get_or-IsWord w (length w - 2) h),
          )
          (omega arith)

abbrev pub list_of : Working → List ℕ
list_of v = v.a ∷ v.b ∷ v.c ∷ v.d ∷ v.e ∷ v.f ∷ v.g ∷ v.h ∷ []

pub record IsWorking (v : Working) : Type 0 where
  pub a : IsWord v.a
  pub b : IsWord v.b
  pub c : IsWord v.c
  pub d : IsWord v.d
  pub e : IsWord v.e
  pub f : IsWord v.f
  pub g : IsWord v.g
  pub h : IsWord v.h

step-IsWorking : (ki wi : ℕ) (v : Working) → IsWorking v → IsWorking (step ki wi v)
unfolding step
step-IsWorking ki wi v w = record {
  a = omega arith;
  b = w.a;
  c = w.b;
  d = w.c;
  e = omega arith;
  f = w.e;
  g = w.f;
  h = w.g;
}

mix_lem : (ki wi : ℕ) (v : Working) → IsWorking v → mix ki wi (list_of v) ≡ list_of (step ki wi v)
unfolding mix step
mix_lem ki wi v w =
    rw
      (
        sigma1_lem v.e w.e,
        ch_lem v.e v.f v.g w.e w.f w.g,
        sigma0_lem v.a w.a,
        maj_lem v.a v.b v.c w.a w.b w.c,
      )
      (ap₂ (λ x y. x ∷ v.a ∷ v.b ∷ v.c ∷ y ∷ v.e ∷ v.f ∷ v.g ∷ []) (omega arith) refl)

rounds_lem :
    (ks ws : List ℕ) (v : Working)
    → IsWorking v
    → rounds ks ws (list_of v) ≡ list_of (steps ks ws v)
unfolding rounds steps
rounds_lem [] ws v w = refl
rounds_lem (ki ∷ ks) [] v w = refl
rounds_lem (ki ∷ ks) (wi ∷ ws) v w =
    ap (rounds ks ws) (mix_lem ki wi v w)
    ∙ rounds_lem ks ws (step ki wi v) (step-IsWorking ki wi v w)

-- The intermediate hash value behind a block.
abbrev pub sum : Working → Working → Working
sum v u = record {
  a = (v.a + u.a) % word_mod;
  b = (v.b + u.b) % word_mod;
  c = (v.c + u.c) % word_mod;
  d = (v.d + u.d) % word_mod;
  e = (v.e + u.e) % word_mod;
  f = (v.f + u.f) % word_mod;
  g = (v.g + u.g) % word_mod;
  h = (v.h + u.h) % word_mod;
}

abbrev pub next : Working → List ℕ → Working
next v m = sum v (steps constants (expand 48 m) v)

sum-IsWorking : (v u : Working) → IsWorking (sum v u)
sum-IsWorking v u = record {
  a = omega arith;
  b = omega arith;
  c = omega arith;
  d = omega arith;
  e = omega arith;
  f = omega arith;
  g = omega arith;
  h = omega arith;
}

add_words-sum : (v u : Working) → add_words (list_of v) (list_of u) ≡ list_of (sum v u)
unfolding add_words
add_words-sum v u = refl

compress-run : (h w : List ℕ) → compress h w ≡ add_words h (rounds k (schedule 48 w) h)
unfolding compress
compress-run h w = refl

compress_lem :
    (v : Working) (m : List ℕ)
    → IsWorking v
    → All IsWord m
    → compress (list_of v) m ≡ list_of (next v m)
compress_lem v m w h =
    compress-run (list_of v) m
    ∙ ap (λ s. add_words (list_of v) (rounds k s (list_of v))) (schedule_lem 48 m h)
    ∙ ap (λ c. add_words (list_of v) (rounds c (expand 48 m) (list_of v))) constants_lem
    ∙ ap (add_words (list_of v)) (rounds_lem constants (expand 48 m) v w)
    ∙ add_words-sum v (steps constants (expand 48 m) v)

block_hash_lem : (v : Working) (m : List ℕ) → block_hash (list_of v) m ≡ list_of (next v m)
unfolding block_hash
block_hash_lem v m = refl

take-All : (n : ℕ) (w : List ℕ) → All IsWord w → All IsWord (take n w)
take-All zero w h = tt
take-All (suc n) [] h = tt
take-All (suc n) (x ∷ w) h = (h.0, take-All n w h.1)

drop-All : (n : ℕ) (w : List ℕ) → All IsWord w → All IsWord (drop n w)
drop-All zero w h = h
drop-All (suc n) [] h = tt
drop-All (suc n) (x ∷ w) h = drop-All n w h.1

-- The state behind some blocks is the same, and still made of eight words.
pub absorb_lem :
    (n : ℕ) (v : Working) (ws : List ℕ)
    → IsWorking v
    → All IsWord ws
    → (u : Working) × IsWorking u
      × (absorb n (list_of v) ws ≡ list_of u)
      × (block_hashes n (list_of v) ws ≡ list_of u)
unfolding absorb block_hashes
absorb_lem zero v ws w h = (v, w, refl, refl)
absorb_lem (suc n) v ws w h =
    let v' = next v (take 16 ws) in
    let (u, w', e, f) =
      absorb_lem n v' (drop 16 ws) (sum-IsWorking v (steps constants (expand 48 (take 16 ws)) v))
        (drop-All 16 ws h) in
    (
      u,
      w',
      ap (λ s. absorb n s (drop 16 ws)) (compress_lem v (take 16 ws) w (take-All 16 ws h)) ∙ e,
      ap (λ s. block_hashes n s (drop 16 ws)) (block_hash_lem v (take 16 ws)) ∙ f,
    )

abbrev first : Working
first = working initial

first-list_of : list_of first ≡ initial
unfolding working
first-list_of = refl

-- From the initial hash on.
pub absorb-start :
    (n : ℕ) (ws : List ℕ)
    → All IsWord ws
    → (u : Working) × IsWorking u
      × (absorb n initial ws ≡ list_of u)
      × (block_hashes n start ws ≡ list_of u)
absorb-start n ws h =
    let (u, w, e, f) = absorb_lem n first ws first-IsWorking h in
    (
      u,
      w,
      ap (λ s. absorb n s ws) (sym first-list_of) ∙ e,
      ap (λ s. block_hashes n s ws) (sym (first-list_of ∙ start_lem)) ∙ f,
    )
  where
    first-IsWorking : IsWorking first
    first-IsWorking =
        unfold working in
        record {
          a = omega arith;
          b = omega arith;
          c = omega arith;
          d = omega arith;
          e = omega arith;
          f = omega arith;
          g = omega arith;
          h = omega arith;
        }
