-- ===== src/Backoff/Scan.antt =====
-- The search of src/receive.c through the slices of time.
use fastd.Base.{
  ℕ, zero, suc, ◌+◌, ◌-◌, ◌%◌, ◌≤◌, ◌<◌, ◌≡◌, ◌⊎◌, refl, sym, subst, ◌∙◌, true, false, true≢false,
  Bool-cases, inl, inr, some, ◌==◌, if◌then◌else◌, arith,
}
use native.Mathlib.Decide.{dec_lt}
use fastd.Util.{size_mod}
use fastd.Discovery.{PeerAddress}
use fastd.Method.{timed_out}
use fastd.PeerTable.{hash_bytes, hash_final, address_hash, address_equal}
use fastd.Backoff.{
  unknown_tables, unknown_entries, le64, Unknown, unknown_hash_entry, known, unknown, search_loop,
}

-- An address that can be hashed: it has a family.
abbrev pub HasFamily : PeerAddress → Type 0
HasFamily a = (seed : ℕ) → (h : ℕ) × (address_hash seed a ≡ some h)

-- Each slice of time has an entry for the address.
pub entry_lem :
    (u : Unknown) (base i : ℕ) (a : PeerAddress)
    → HasFamily a
    → (p : ℕ × ℕ) × (unknown_hash_entry u base i a ≡ some p)
unfolding unknown_hash_entry
entry_lem u base i a f =
    let slice = (base + size_mod - i) % size_mod in
    let (h, e) = f (hash_bytes u.seed (le64 slice)) in
    ((slice % unknown_tables, hash_final h % unknown_entries), rw e refl)

-- The entry depends on the slice alone, whichever way it is counted.
pub same-entry :
    (u u' : Unknown) (base base' i j : ℕ) (a : PeerAddress)
    → u.seed ≡ u'.seed
    → i < size_mod
    → j < size_mod
    → base + j ≡ base' + i
    → unknown_hash_entry u base i a ≡ unknown_hash_entry u' base' j a
unfolding unknown_hash_entry
same-entry u u' base base' i j a s h k e =
    let slices : base + size_mod - i ≡ base' + size_mod - j = omega arith in rw (s, slices) refl

-- A handshake was sent to the address a short time ago, and slice `i` has it.
pub record Live (u : Unknown) (base now : ℕ) (a : PeerAddress) (i : ℕ) : Type 0 where
  pub place : ℕ × ℕ
  pub found : unknown_hash_entry u base i a ≡ some place
  pub waits : now < (u.handshakes place.0 place.1).timeout
  pub same : address_equal a (u.handshakes place.0 place.1).address ≡ true

module _ (u : Unknown) (base now : ℕ) (a : PeerAddress) (n i empty : ℕ) (p : ℕ × ℕ)
    (e : unknown_hash_entry u base i a ≡ some p) where
  pub search-expired :
      timed_out now (u.handshakes p.0 p.1).timeout ≡ true
      → search_loop u base now a (suc n) i empty
        ≡ search_loop u base now a n (i + 1) (if empty == unknown_tables then i else empty)
  unfolding search_loop
  search-expired t = rw (e, t) refl

  pub search-other :
      timed_out now (u.handshakes p.0 p.1).timeout ≡ false
      → address_equal a (u.handshakes p.0 p.1).address ≡ false
      → search_loop u base now a (suc n) i empty ≡ search_loop u base now a n (i + 1) empty
  unfolding search_loop
  search-other t d = rw (e, t, d) refl

  pub search-live :
      timed_out now (u.handshakes p.0 p.1).timeout ≡ false
      → address_equal a (u.handshakes p.0 p.1).address ≡ true
      → search_loop u base now a (suc n) i empty ≡ some known
  unfolding search_loop
  search-live t d = rw (e, t, d) refl

-- What the search of the `n` slices from `i` on finds out.
pub data Scanned (u : Unknown) (base now : ℕ) (a : PeerAddress) (n i empty : ℕ) : Type 0 where
  seen :
      (j : ℕ)
      → i ≤ j
      → j < i + n
      → Live u base now a j
      → search_loop u base now a n i empty ≡ some known
      → Scanned u base now a n i empty
  unseen :
      (e : ℕ)
      → search_loop u base now a n i empty ≡ some (unknown e)
      → ((j : ℕ) → i ≤ j → j < i + n → ¬ Live u base now a j)
      → (e ≡ empty) ⊎ ((empty ≡ unknown_tables) × (e < i + n))
      → Scanned u base now a n i empty

-- No live entry in the first slice and none in the later ones.
none-below :
    {u : Unknown} {base now : ℕ} {a : PeerAddress} (n i : ℕ)
    → ¬ Live u base now a i
    → ((j : ℕ) → i + 1 ≤ j → j < i + 1 + n → ¬ Live u base now a j)
    → (j : ℕ) → i ≤ j
    → j < i + suc n
    → ¬ Live u base now a j
none-below {u} {base} {now} {a} n i first later j h k live = elim (dec_lt i j) [
  | yes lt ↦ later j (omega arith) (omega arith) live
  | no ge ↦ let e : j ≡ i = omega arith in first (subst (Live u base now a) e live)
]

still-empty :
    (e empty i n : ℕ)
    → (e ≡ (if empty == unknown_tables then i else empty))
      ⊎ (((if empty == unknown_tables then i else empty) ≡ unknown_tables) × (e < i + 1 + n))
    → (e ≡ empty) ⊎ ((empty ≡ unknown_tables) × (e < i + suc n))
still-empty e empty i n w = elim (Bool-cases (empty == unknown_tables)) [
  | inl all_used ↦ inr (ground arith, ground (arith, w))
  | inr one_free ↦ inl (ground (arith, w))
]

module _ {u : Unknown} {base now : ℕ} {a : PeerAddress} (f : HasFamily a) where
  -- The entry of a slice is live, or the search goes on behind it.
  not-Live :
      (i : ℕ) (p : ℕ × ℕ)
      → unknown_hash_entry u base i a ≡ some p
      → (timed_out now (u.handshakes p.0 p.1).timeout ≡ true)
        ⊎ (address_equal a (u.handshakes p.0 p.1).address ≡ false)
      → ¬ Live u base now a i
  not-Live i p e w live =
      let same : live.place ≡ p = some-injective (sym live.found ∙ e) in
      let waits = subst (λ q. now < (u.handshakes q.0 q.1).timeout) same live.waits in
      let equal =
        subst (λ q. address_equal a (u.handshakes q.0 q.1).address ≡ true) same live.same in
      elim w [ inl t ↦ absurd (ground arith) | inr d ↦ true≢false (sym equal ∙ d) ]
    where
      some-injective : {q r : ℕ × ℕ} → some q ≡ some r → q ≡ r
      some-injective e = cc

  scan-on :
      (n i empty empty' : ℕ)
      → ¬ Live u base now a i
      → search_loop u base now a (suc n) i empty ≡ search_loop u base now a n (i + 1) empty'
      → ((e : ℕ)
          → (e ≡ empty') ⊎ ((empty' ≡ unknown_tables) × (e < i + 1 + n))
          → (e ≡ empty) ⊎ ((empty ≡ unknown_tables) × (e < i + suc n)))
      → Scanned u base now a n (i + 1) empty'
      → Scanned u base now a (suc n) i empty
  scan-on n i empty empty' first step w (seen j h k live r) =
      seen j (omega arith) (omega arith) live (step ∙ r)
  scan-on n i empty empty' first step w (unseen e r later v) =
      unseen e (step ∙ r) (none-below n i first later) (w e v)

  pub scan : (n i empty : ℕ) → Scanned u base now a n i empty
  scan zero i empty =
      unseen empty (unfold search_loop in refl) (λ j h k. absurd (omega arith)) (inl refl)
  scan (suc n) i empty =
      let (p, e) = entry_lem u base i a f in
      let t = u.handshakes p.0 p.1 in
      elim (Bool-cases (timed_out now t.timeout)) [
        | inl old ↦
            scan-on n i empty (if empty == unknown_tables then i else empty)
              (not-Live i p e (inl old)) (search-expired u base now a n i empty p e old)
              (λ e. still-empty e empty i n)
              (scan n (i + 1) (if empty == unknown_tables then i else empty))
        | inr new ↦ elim (Bool-cases (address_equal a t.address)) [
          | inl same ↦
              seen i (omega arith) (omega arith)
                (record { place = p; found = e; waits = ground (arith, new); same = same })
                (search-live u base now a n i empty p e new same)
          | inr other ↦
              scan-on n i empty empty (not-Live i p e (inr other))
                (search-other u base now a n i empty p e new other) (λ e w. omega (arith, w))
                (scan n (i + 1) empty)
        ]
      ]
