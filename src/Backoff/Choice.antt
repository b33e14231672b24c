-- ===== src/Backoff/Choice.antt =====
-- src/receive.c: the slice of time that a new entry is put into.
use fastd.Base.{
  ℕ, zero, suc, ◌+◌, ◌≤◌, ◌<◌, ◌≡◌, ◌≢◌, refl, sym, subst, ◌∙◌, Bool-cases, inl, inr, some, ◌==◌,
  if◌then◌else◌, arith,
}
use native.Mathlib.Decide.{dec_lt}
use fastd.Discovery.{PeerAddress}
use fastd.Method.{timed_out}
use fastd.PeerTable.{address_equal}
use fastd.Backoff.{unknown_tables, Unknown, unknown_hash_entry, unknown, search_loop}
use fastd.Backoff.Scan.{HasFamily, entry_lem, search-expired, search-other, search-live}

-- The entry of slice `i` has expired, or is still waited for, be it for this address or another one.
abbrev pub IsFree : Unknown → ℕ → ℕ → PeerAddress → ℕ → Type 0
IsFree u base now a i =
    (p : ℕ × ℕ) × (unknown_hash_entry u base i a ≡ some p) × ((u.handshakes p.0 p.1).timeout ≤ now)

abbrev pub IsBusy : Unknown → ℕ → ℕ → PeerAddress → ℕ → Type 0
IsBusy u base now a i =
    (p : ℕ × ℕ) × (unknown_hash_entry u base i a ≡ some p) × (now < (u.handshakes p.0 p.1).timeout)

-- The first free one of the `n` slices from `i` on, or `other` if all are busy.
pub data FirstFree (u : Unknown) (base now : ℕ) (a : PeerAddress) (n i other chosen : ℕ)
    : Type 0 where
  free :
      i ≤ chosen
      → chosen < i + n
      → IsFree u base now a chosen
      → ((j : ℕ) → i ≤ j → j < chosen → IsBusy u base now a j)
      → FirstFree u base now a n i other chosen
  full :
      ((j : ℕ) → i ≤ j → j < i + n → IsBusy u base now a j)
      → chosen ≡ other
      → FirstFree u base now a n i other chosen

module _ (u : Unknown) (base now : ℕ) (a : PeerAddress) where
  not-both : (i : ℕ) → IsFree u base now a i → IsBusy u base now a i → ⊥
  not-both i (p, e, h) (q, f, k) =
      let same : p ≡ q = some-injective (sym e ∙ f) in
      let h' = subst (λ r. (u.handshakes r.0 r.1).timeout ≤ now) same h in
      absurd (omega (arith, h', k))
    where
      some-injective : {x y : ℕ × ℕ} → some x ≡ some y → x ≡ y
      some-injective e = cc

  -- There is only one such slice.
  pub FirstFree-unique :
      (n i other c d : ℕ)
      → FirstFree u base now a n i other c
      → FirstFree u base now a n i other d
      → c ≡ d
  FirstFree-unique n i other c d (full busy e) (full busy' e') = e ∙ sym e'
  FirstFree-unique n i other c d (full busy e) (free lo hi f before) =
      absurd (not-both d f (busy d lo hi))
  FirstFree-unique n i other c d (free lo hi f before) (full busy e) =
      absurd (not-both c f (busy c lo hi))
  FirstFree-unique n i other c d (free lo hi f before) (free lo' hi' f' before') =
      elim (dec_lt c d) [
        | yes lt ↦ absurd (not-both c f (before' c lo lt))
        | no ge ↦ elim (dec_lt d c) [
          | yes lt ↦ absurd (not-both d f' (before d lo' lt))
          | no le ↦ omega arith
        ]
      ]

  IsBusy-below :
      (i m : ℕ)
      → IsBusy u base now a i
      → ((j : ℕ) → i + 1 ≤ j → j < m → IsBusy u base now a j)
      → (j : ℕ) → i ≤ j
      → j < m
      → IsBusy u base now a j
  IsBusy-below i m first later j h k = elim (dec_lt i j) [
    | yes lt ↦ later j (omega arith) k
    | no ge ↦ let e : i ≡ j = omega arith in subst (IsBusy u base now a) e first
  ]

  busy-first :
      (n i other c : ℕ)
      → IsBusy u base now a i
      → FirstFree u base now a n (i + 1) other c
      → FirstFree u base now a (suc n) i other c
  busy-first n i other c b (free lo hi f before) =
      free (omega (arith, lo)) (omega (arith, hi)) f (IsBusy-below i c b before)
  busy-first n i other c b (full busy e) =
      full (λ j h k. IsBusy-below i (i + 1 + n) b busy j h (omega (arith, k))) e

  -- A slice that was found keeps being the one.
  search-found :
      (n i empty e : ℕ)
      → HasFamily a
      → empty ≢ unknown_tables
      → search_loop u base now a n i empty ≡ some (unknown e)
      → e ≡ empty
  search-found zero i empty e f ne r =
      let s : search_loop u base now a 0 i empty ≡ some (unknown empty) =
        unfold search_loop in refl in
      let same : some (unknown empty) ≡ some (unknown e) = sym s ∙ r in cc
  search-found (suc n) i empty e f ne r =
      let (p, h) = entry_lem u base i a f in
      let t = u.handshakes p.0 p.1 in
      let kept : (if empty == unknown_tables then i else empty) ≡ empty = ground (arith, ne) in
      elim (Bool-cases (timed_out now t.timeout)) [
        | inl old ↦ search-found n (i + 1) empty e f ne (
            subst (λ m. search_loop u base now a n (i + 1) m ≡ some (unknown e)) kept
              (sym (search-expired u base now a n i empty p h old) ∙ r))
        | inr new ↦ elim (Bool-cases (address_equal a t.address)) [
          | inl same ↦ let w = sym (search-live u base now a n i empty p h new same) ∙ r in cc
          | inr other ↦
              search-found n (i + 1) empty e f ne
                (sym (search-other u base now a n i empty p h new other) ∙ r)
        ]
      ]

  -- A search that does not find the address finds the first free slice.
  pub search-FirstFree :
      (n i e : ℕ)
      → HasFamily a
      → i + n ≤ unknown_tables
      → search_loop u base now a n i unknown_tables ≡ some (unknown e)
      → FirstFree u base now a n i unknown_tables e
  search-FirstFree zero i e f small r =
      let s : search_loop u base now a 0 i unknown_tables ≡ some (unknown unknown_tables) =
        unfold search_loop in refl in
      let same : some (unknown unknown_tables) ≡ some (unknown e) = sym s ∙ r in
      let same' : unknown_tables ≡ e = cc in
      full (λ j h k. absurd (omega (arith, h, k))) (sym same')
  search-FirstFree (suc n) i e f small r =
      let (p, h) = entry_lem u base i a f in
      let t = u.handshakes p.0 p.1 in
      elim (Bool-cases (timed_out now t.timeout)) [
        | inl old ↦
            let found =
              search-found n (i + 1) i e f (λ g. absurd (omega (arith, g, small)))
                (sym (search-expired u base now a n i unknown_tables p h old) ∙ r) in
            subst (FirstFree u base now a (suc n) i unknown_tables) (sym found) (
              free (omega arith) (omega arith) (p, h, ground (arith, old))
                (λ j lo hi. absurd (omega (arith, lo, hi))))
        | inr new ↦ elim (Bool-cases (address_equal a t.address)) [
          | inl same ↦
              let w = sym (search-live u base now a n i unknown_tables p h new same) ∙ r in cc
          | inr other ↦
              busy-first n i unknown_tables e (p, h, ground (arith, new))
                (search-FirstFree n (i + 1) e f (omega (arith, small))
                  (sym (search-other u base now a n i unknown_tables p h new other) ∙ r))
        ]
      ]
