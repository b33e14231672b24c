-- ===== src/PeerTable/Lookup.antt =====
-- src/peer_hashtable.c: a lookup finds the peer with an address, if the table has one.
use fastd.Base.{
  ℕ, ◌%◌, ◌<◌, ◌≡◌, ◌≢◌, ◌⊎◌, inl, inr, refl, sym, ap, ◌∙◌, true, false, Option, none, some, ◌>>=◌,
  List, [], ◌∷◌, ◌==◌, Bool-cases, arith, length, get_or, All,
}
use fastd.Discovery.{PeerAddress, unspec, in4, in6}
use fastd.PeerTable.{
  Table, address_hash, hash_final, address_equal, address_bucket, has_family, find_peer,
  hashtable_lookup,
}
use fastd.PeerTable.Equal.{address_hash-address_equal}

pub same-or_other : (b c : ℕ) → (b ≡ c) ⊎ (b ≢ c)
same-or_other b c = elim (Bool-cases (b == c)) [
  | inl e ↦ inl (ground (arith, e))
  | inr e ↦ inr (λ p. ground (arith, e, p))
]

module _ (address : ℕ → PeerAddress) where
  -- Every peer stands in the bucket of its address.
  pub record IsTable (t : Table) : Type 0 where
    pub size_eq : length t.buckets ≡ t.size
    pub positive : 0 < t.size
    pub placed : (b : ℕ) → All (λ p. address_bucket t (address p) ≡ some b) (get_or t.buckets b [])

  pub same_bucket :
      (t : Table) (x y : PeerAddress)
      → address_equal x y ≡ true
      → address_bucket t x ≡ address_bucket t y
  unfolding address_bucket
  same_bucket t x y h =
      ap (λ o. o >>= (λ h. some (hash_final h % t.size))) (address_hash-address_equal t.seed x y h)

  -- What a search in a bucket ends in.
  Answer : PeerAddress → List ℕ → Option ℕ → Type 0
  Answer addr ps r =
      ((r ≡ none) × All (λ p. address_equal (address p) addr ≡ false) ps)
      ⊎ ((p : ℕ) × (r ≡ some p) × (address_equal (address p) addr ≡ true))

  find_peer-Answer : (addr : PeerAddress) (ps : List ℕ) → Answer addr ps (find_peer address addr ps)
  unfolding find_peer Answer
  find_peer-Answer addr [] = inl (refl, tt)
  find_peer-Answer addr (p ∷ ps) = elim (Bool-cases (address_equal (address p) addr)) [
    | inl e ↦ rw e (inr (p, refl, e))
    | inr e ↦
        rw e (elim (find_peer-Answer addr ps) [ inl (r, a) ↦ inl (r, (refl, a)) | inr q ↦ inr q ])
  ]

  -- The peers of another bucket have other addresses.
  other_bucket :
      (t : Table) (addr : PeerAddress) (b c : ℕ) (ps : List ℕ)
      → address_bucket t addr ≡ some b
      → b ≢ c
      → All (λ p. address_bucket t (address p) ≡ some c) ps
      → All (λ p. address_equal (address p) addr ≡ false) ps
  other_bucket t addr b c [] e ne h = tt
  other_bucket t addr b c (p ∷ ps) e ne h = (
    (elim (Bool-cases (address_equal (address p) addr)) [
      | inr f ↦ f
      | inl f ↦
          let same : some b ≡ some c = sym e ∙ sym (same_bucket t (address p) addr f) ∙ h.0 in
          absurd (ne (some-injective same))
    ]),
    other_bucket t addr b c ps e ne h.1,
  )
    where
      some-injective : {x y : ℕ} → some x ≡ some y → x ≡ y
      some-injective e = cc

  pub bucket-some :
      (t : Table) (addr : PeerAddress)
      → has_family addr ≡ true
      → (b : ℕ) × (address_bucket t addr ≡ some b)
  unfolding address_bucket address_hash
  bucket-some t unspec h = cc
  bucket-some t (in4 p a) h = (_, refl)
  bucket-some t (in6 p a s) h = (_, refl)

  -- A lookup of an address with a family, in a table in order, ends; it finds a peer whose address
  -- equals it, or nothing, and then no peer in any bucket has an equal address.
  pub hashtable_lookup_complete :
      {t : Table} (addr : PeerAddress)
      → IsTable t
      → has_family addr ≡ true
      → ((hashtable_lookup address t addr ≡ some none)
          × ((c : ℕ) → All (λ p. address_equal (address p) addr ≡ false) (get_or t.buckets c [])))
        ⊎ ((p : ℕ) × (hashtable_lookup address t addr ≡ some (some p))
            × (address_equal (address p) addr ≡ true))
  unfolding hashtable_lookup Answer
  hashtable_lookup_complete {t} addr h fam =
      let (b, e) = bucket-some t addr fam in
      rw e (elim (find_peer-Answer addr (get_or t.buckets b [])) [
        | inr (p, r, q) ↦ inr (p, ap some r, q)
        | inl (r, all) ↦ inl (
          ap some r,
          λ c. elim (same-or_other b c) [
            | inl s ↦ rw (← s) all
            | inr ne ↦ other_bucket t addr b c (get_or t.buckets c []) e ne (h.placed c)
          ],
        )
      ])
