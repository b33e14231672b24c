-- ===== src/EthTable/Change/Clean.antt =====
-- The loops of src/peer.c that remove entries from the table in place.
use fastd.Base.{
  ℕ, suc, ◌+◌, ◌-◌, ◌<◌, ◌≡◌, refl, sym, ap, ap₂, subst, ◌∙◌, Bool, true, false, Bool-cases, inl,
  inr, Option, none, some, List, [], ◌∷◌, ◌++◌, ◌==◌, if◌then◌else◌, arith, length, All, take, set,
  get_or, append-nil, append_assoc, length-append, take-length_append,
}
use fastd.Discovery.{EthEntry}
use fastd.Method.{timed_out}
use fastd.EthTable.{entry, compact, eth_addr_cleanup, eth_addr_reset}
use fastd.EthTable.Order.{IsMac, key, IsAscending, IsTable, Above}
use fastd.EthTable.Change.{lookup, lookup-Above}

-- The entries that stay.
abbrev pub remaining : (EthEntry → Bool) → List EthEntry → List EthEntry
remaining gone [] = []
remaining gone (e ∷ t) = if gone e then remaining gone t else e ∷ remaining gone t

set-append {ℓ} :
    {A : Type ℓ} (xs : List A) (y : A) (ys : List A) (v : A)
    → set (xs ++ (y ∷ ys)) (length xs) v ≡ xs ++ (v ∷ ys)
set-append [] y ys v = refl
set-append (x ∷ xs) y ys v = ap (λ t. x ∷ t) (set-append xs y ys v)

get-append {ℓ} :
    {A : Type ℓ} (xs : List A) (y : A) (ys : List A) (d : A)
    → get_or (xs ++ (y ∷ ys)) (length xs) d ≡ y
get-append [] y ys d = refl
get-append (x ∷ xs) y ys d = get-append xs y ys d

-- The loop, with the entries that are kept, those that are to be overwritten, and the rest.
module _ (gone : EthEntry → Bool) where
  compact-gone :
      (n i d : ℕ) (t : List EthEntry)
      → gone (entry t i) ≡ true
      → compact gone (suc n) i d t ≡ compact gone n (i + 1) (d + 1) t
  unfolding compact
  compact-gone n i d t e = rw e refl

  compact-kept :
      (n i d : ℕ) (t : List EthEntry)
      → gone (entry t i) ≡ false
      → compact gone (suc n) i d t
        ≡ compact gone n (i + 1) d (if d == 0 then t else set t (i - d) (entry t i))
  unfolding compact
  compact-kept n i d t e = rw e refl

  moved :
      (kept passed : List EthEntry) (x : EthEntry) (rest : List EthEntry)
      → (passed' : List EthEntry) × (length passed' ≡ length passed)
        × ((if length passed == 0
              then kept ++ (passed ++ (x ∷ rest))
              else set (kept ++ (passed ++ (x ∷ rest))) (length kept) x)
            ≡ kept ++ (x ∷ (passed' ++ rest)))
  moved kept [] x rest = ([], refl, refl)
  moved kept (p ∷ passed) x rest =
      let some_passed : (suc (length passed) == 0) ≡ false = ground arith in
      (
        passed ++ (x ∷ []),
        omega (arith, length-append passed (x ∷ [])),
        rw some_passed (
            set-append kept p (passed ++ (x ∷ rest)) x
            ∙ ap (λ t. kept ++ (x ∷ t)) (sym (append_assoc passed (x ∷ []) rest))),
      )

  entry-at :
      (kept passed : List EthEntry) (x : EthEntry) (rest : List EthEntry) (i : ℕ)
      → i ≡ length kept + length passed
      → entry (kept ++ (passed ++ (x ∷ rest))) i ≡ x
  entry-at kept passed x rest i e =
      let whole = sym (append_assoc kept passed (x ∷ rest)) in
      let at_x : i ≡ length (kept ++ passed) = e ∙ sym (length-append kept passed) in
      ap₂ entry whole at_x ∙ get-append (kept ++ passed) x rest _

  compact-remaining :
      (rest kept passed t : List EthEntry) (i d : ℕ)
      → i ≡ length kept + length passed
      → d ≡ length passed
      → t ≡ kept ++ (passed ++ rest)
      → compact gone (length rest) i d t ≡ kept ++ remaining gone rest
  compact-remaining [] kept passed t i d ei ed et =
      let l : length t - d ≡ length kept =
        omega
          (arith, ap length et, length-append kept (passed ++ []), length-append passed [], ed) in
      unfold compact in
      ap₂ take l et ∙ take-length_append kept (passed ++ []) ∙ sym (append-nil kept)
  compact-remaining (x ∷ rest) kept passed t i d ei ed et =
      let here : entry t i ≡ x = ap (λ u. entry u i) et ∙ entry-at kept passed x rest i ei in
      elim (Bool-cases (gone x)) [
        | inl g ↦
            compact-gone (length rest) i d t (ap gone here ∙ g)
            ∙ compact-remaining rest kept (passed ++ (x ∷ [])) t (i + 1) (d + 1)
                (omega (arith, ei, length-append passed (x ∷ [])))
                (omega (arith, ed, length-append passed (x ∷ [])))
                (et ∙ ap (λ u. kept ++ u) (sym (append_assoc passed (x ∷ []) rest)))
            ∙ rw g refl
        | inr g ↦
            let (passed', l, m) = moved kept passed x rest in
            let back : i - d ≡ length kept = omega (arith, ei, ed) in
            compact-kept (length rest) i d t (ap gone here ∙ g)
            ∙ compact-remaining rest (kept ++ (x ∷ [])) passed' _ (i + 1) d
                (omega (arith, ei, l, length-append kept (x ∷ []))) (omega (arith, ed, l))
                (rw (back, here, ed, et) (m ∙ sym (append_assoc kept (x ∷ []) (passed' ++ rest))))
            ∙ append_assoc kept (x ∷ []) (remaining gone rest)
            ∙ rw g refl
      ]

  -- The loop over a whole table, in place, leaves the entries that stay, in their order.
  pub compact-whole : (t : List EthEntry) → compact gone (length t) 0 0 t ≡ remaining gone t
  compact-whole t = compact-remaining t [] [] t 0 0 refl refl refl

  All-remaining {κ} :
      (P : EthEntry → Type κ) (t : List EthEntry) → All P t → All P (remaining gone t)
  All-remaining P [] h = tt
  All-remaining P (e ∷ t) h = elim (Bool-cases (gone e)) [
    | inl g ↦ rw g (All-remaining P t h.1)
    | inr g ↦ rw g (h.0, All-remaining P t h.1)
  ]

  IsAscending-remaining : (t : List EthEntry) → IsAscending t → IsAscending (remaining gone t)
  IsAscending-remaining [] h = tt
  IsAscending-remaining (e ∷ t) h = elim (Bool-cases (gone e)) [
    | inl g ↦ rw g (IsAscending-remaining t h.1)
    | inr g ↦ rw g (All-remaining (λ f. key e < key f) t h.0, IsAscending-remaining t h.1)
  ]

  -- The entry of an address, if it stays.
  abbrev pub unless_gone : Option EthEntry → Option EthEntry
  unless_gone none = none
  unless_gone (some e) = if gone e then none else some e

  lookup-remaining :
      (k : ℕ) (t : List EthEntry)
      → IsAscending t
      → lookup k (remaining gone t) ≡ unless_gone (lookup k t)
  lookup-remaining k [] h = refl
  lookup-remaining k (e ∷ t) h =
      let rest = lookup-remaining k t h.1 in
      elim (Bool-cases (gone e)) [
        | inl g ↦ rw g (rest ∙ absent g (key e == k) refl)
        | inr g ↦ rw g (present g rest (key e == k))
      ]
    where
      absent :
          gone e ≡ true
          → (c : Bool) → (key e == k) ≡ c
          → unless_gone (lookup k t) ≡ unless_gone (if c then some e else lookup k t)
      absent g true f =
          let same : key e ≡ k = ground arith in
          ap unless_gone (lookup-Above k t (subst (λ n. Above n t) same h.0)) ∙ rw g refl
      absent g false f = refl

      present :
          gone e ≡ false
          → lookup k (remaining gone t) ≡ unless_gone (lookup k t)
          → (c : Bool)
          → (if c then some e else lookup k (remaining gone t))
            ≡ unless_gone (if c then some e else lookup k t)
      present g rest true = rw g refl
      present g rest false = rest

cleaned :
    {t : List EthEntry} (gone : EthEntry → Bool) (k : ℕ)
    → IsTable t
    → IsTable (compact gone (length t) 0 0 t)
      × (lookup k (compact gone (length t) 0 0 t) ≡ unless_gone gone (lookup k t))
cleaned {t} gone k h = rw (compact-whole gone t) (
  record {
    macs = All-remaining gone (λ e. IsMac e.addr) t h.macs;
    ascending = IsAscending-remaining gone t h.ascending;
  },
  lookup-remaining gone k t h.ascending,
)

-- fastd_peer_eth_addr_cleanup keeps the table in strict order, and forgets exactly the entries that
-- have timed out.
pub eth_addr_cleanup-lookup :
    {t : List EthEntry} (now k : ℕ)
    → IsTable t
    → IsTable (eth_addr_cleanup now t)
      × (lookup k (eth_addr_cleanup now t)
          ≡ unless_gone (λ e. timed_out now e.timeout) (lookup k t))
unfolding eth_addr_cleanup
eth_addr_cleanup-lookup {t} now k h = cleaned (λ e. timed_out now e.timeout) k h

-- The reset of a peer keeps the table in strict order, and forgets exactly the entries of that peer.
pub eth_addr_reset-lookup :
    {t : List EthEntry} (peer k : ℕ)
    → IsTable t
    → IsTable (eth_addr_reset peer t)
      × (lookup k (eth_addr_reset peer t) ≡ unless_gone (λ e. e.peer == peer) (lookup k t))
unfolding eth_addr_reset
eth_addr_reset-lookup {t} peer k h = cleaned (λ e. e.peer == peer) k h
