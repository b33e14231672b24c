-- ===== src/PeerTable/Change.antt =====
-- src/peer_hashtable.c: an inserted peer is found, also if the table was rebuilt.
use fastd.Base.{
  ℕ, zero, suc, ◌+◌, ◌*◌, ◌≤◌, ◌<◌, ◌≡◌, ◌≢◌, ◌⊎◌, inl, inr, refl, sym, ap, ◌∙◌, true, false, some,
  ◌>>=◌, List, [], ◌∷◌, ltb, Bool-cases, arith, length, get_or, replicate, length-replicate, All,
}
use fastd.Util.{size_mod, size_add, size_mul}
use fastd.Discovery.{PeerAddress}
use fastd.PeerTable.{
  Table, address_equal, address_bucket, has_family, init_hashtable, fold_option, put,
  hashtable_insert, hashtable_lookup,
}
use fastd.PeerTable.Put.{Has, address_equal_self, Present, Placed-put}
use fastd.PeerTable.Lookup.{IsTable, hashtable_lookup_complete}

module _ (address : ℕ → PeerAddress) (seeds : ℕ → ℕ) (peers : List ℕ) where
  insert-put :
      (fuel : ℕ) (t : Table) (p : ℕ)
      → has_family (address p) ≡ true
      → t.used + 1 ≤ 2 * t.size
      → 2 * t.size < size_mod
      → hashtable_insert address seeds peers (suc fuel) t p
        ≡ put address (record t { used = t.used + 1 }) p
  unfolding hashtable_insert
  insert-put fuel t p fam fits small =
      let counted : size_add t.used 1 ≡ t.used + 1 = omega arith in
      let double : size_mul 2 t.size ≡ 2 * t.size = omega arith in
      let room : ltb (2 * t.size) (t.used + 1) ≡ false = ground arith in
      rw (fam, counted, double, room) refl

  insert-skip :
      (fuel : ℕ) (t : Table) (p : ℕ)
      → has_family (address p) ≡ false
      → hashtable_insert address seeds peers (suc fuel) t p ≡ some t
  unfolding hashtable_insert
  insert-skip fuel t p fam = rw fam refl

  insert-rebuild :
      (fuel : ℕ) (t : Table) (p : ℕ)
      → has_family (address p) ≡ true
      → 2 * t.size < t.used + 1
      → 2 * t.size < size_mod
      → t.used + 1 < size_mod
      → hashtable_insert address seeds peers (suc fuel) t p
        ≡ fold_option
            (hashtable_insert address seeds peers fuel)
            (init_hashtable (seeds (2 * t.size)) (2 * t.size) 0)
            peers
  unfolding hashtable_insert
  insert-rebuild fuel t p fam full small less =
      let counted : size_add t.used 1 ≡ t.used + 1 = omega arith in
      let double : size_mul 2 t.size ≡ 2 * t.size = omega arith in
      let double' : size_mul t.size 2 ≡ 2 * t.size = omega arith in
      let room : ltb (2 * t.size) (t.used + 1) ≡ true = ground arith in
      rw (fam, counted, double, double', room) refl

  -- The insertion of several peers that fit.
  record Filled (fuel : ℕ) (t : Table) (ps : List ℕ) : Type 0 where
    table : Table
    result : fold_option (hashtable_insert address seeds peers (suc fuel)) t ps ≡ some table
    ordered : IsTable address table
    others : (q : ℕ) → Present address t q → Present address table q
    all : All (λ p. (has_family (address p) ≡ false) ⊎ Present address table p) ps

  counted-IsTable :
      {t : Table} (n : ℕ) → IsTable address t → IsTable address (record t { used = n })
  unfolding address_bucket
  counted-IsTable n h = record { size_eq = h.size_eq; positive = h.positive; placed = h.placed }

  fold-Filled :
      (fuel : ℕ) (t : Table) (ps : List ℕ)
      → IsTable address t
      → t.used + length ps ≤ 2 * t.size
      → 2 * t.size < size_mod
      → Filled fuel t ps
  unfolding address_bucket
  fold-Filled fuel t [] h fits small = record {
    table = t;
    result = refl;
    ordered = h;
    others = λ q x. x;
    all = tt;
  }
  fold-Filled fuel t (p ∷ ps) h fits small = elim (Bool-cases (has_family (address p))) [
    | inr f ↦
        let r = fold-Filled fuel t ps h (omega arith) small in
        record {
          table = r.table;
          result =
              ap
                (λ o.
                  o >>= (λ t. fold_option (hashtable_insert address seeds peers (suc fuel)) t ps))
                (insert-skip fuel t p f)
              ∙ r.result;
          ordered = r.ordered;
          others = r.others;
          all = (inl f, r.all);
        }
    | inl f ↦
        let t1 : Table = record t { used = t.used + 1 } in
        let (t', k) = Placed-put address p (counted-IsTable (t.used + 1) h) f in
        let r =
          fold-Filled fuel t' ps k.ordered (omega (arith, fits, k.size_eq, k.used_eq))
            (omega (arith, small, k.size_eq)) in
        record {
          table = r.table;
          result =
              ap
                (λ o.
                  o >>= (λ t. fold_option (hashtable_insert address seeds peers (suc fuel)) t ps))
                (insert-put fuel t p f (omega arith) small ∙ k.result)
              ∙ r.result;
          ordered = r.ordered;
          others = λ q x. r.others q (k.others q x);
          all = (inr (r.others p k.here), r.all);
        }
  ]

  empty-IsTable : (seed size : ℕ) → 0 < size → IsTable address (init_hashtable seed size 0)
  unfolding init_hashtable
  empty-IsTable seed size pos = record {
    size_eq = length-replicate size [];
    positive = pos;
    placed = λ b. rw (get_or-empty size b) tt;
  }
    where
      get_or-empty : (n b : ℕ) → get_or {A = List ℕ} (replicate n []) b [] ≡ []
      get_or-empty zero b = refl
      get_or-empty (suc n) zero = refl
      get_or-empty (suc n) (suc b) = get_or-empty n b

  Has-All {κ} : (P : ℕ → Type κ) (p : ℕ) (ps : List ℕ) → Has p ps → All P ps → P p
  Has-All P p [] k h = absurd k
  Has-All P p (q ∷ qs) (inl e) h = rw e h.0
  Has-All P p (q ∷ qs) (inr k) h = Has-All P p qs k h.1

  insert-Present :
      {t : Table} (p : ℕ)
      → IsTable address t
      → has_family (address p) ≡ true
      → Has p peers
      → length peers ≤ 4 * t.size
      → 4 * t.size < size_mod
      → t.used + 1 < size_mod
      → (t' : Table) × (hashtable_insert address seeds peers 2 t p ≡ some t')
        × IsTable address t'
        × Present address t' p
  insert-Present {t} p h fam known fits small less =
      elim (Bool-cases (ltb (2 * t.size) (t.used + 1))) [
        | inr e ↦
            let (t', k) = Placed-put address p (counted-IsTable (t.used + 1) h) fam in
            (
              t',
              insert-put 1 t p fam (ground (arith, e)) (omega (arith, small)) ∙ k.result,
              k.ordered,
              k.here,
            )
        | inl e ↦
            let size = 2 * t.size in
            let empty = empty-IsTable (seeds size) size (omega (arith, h.positive)) in
            let r =
              fold-Filled 0 (init_hashtable (seeds size) size 0) peers empty
                (unfold init_hashtable in omega (arith, fits))
                (unfold init_hashtable in omega (arith, small)) in
            (
              r.table,
              insert-rebuild 1 t p fam (ground (arith, e)) (omega (arith, small)) less ∙ r.result,
              r.ordered,
              elim (Has-All (λ q. (has_family (address q) ≡ false) ⊎ Present address r.table q) p
                  peers known r.all) [ inl f ↦ absurd (cc) | inr x ↦ x ],
            )
      ]

  -- An insertion of a known peer whose address has a family, into a table in order whose size is not
  -- less than a quarter of the number of known peers, ends and leaves a table in order, also if it
  -- rebuilds the table. A lookup of the peer's address then finds a peer with an equal address.
  pub hashtable_lookup-hashtable_insert :
      {t : Table} (p : ℕ)
      → IsTable address t
      → has_family (address p) ≡ true
      → Has p peers
      → length peers ≤ 4 * t.size
      → 4 * t.size < size_mod
      → t.used + 1 < size_mod
      → (t' : Table) × (q : ℕ) × (hashtable_insert address seeds peers 2 t p ≡ some t')
        × IsTable address t'
        × (hashtable_lookup address t' (address p) ≡ some (some q))
        × (address_equal (address q) (address p) ≡ true)
  hashtable_lookup-hashtable_insert {t} p h fam known fits small less =
      let (t', e, o, x) = insert-Present p h fam known fits small less in
      elim (hashtable_lookup_complete address (address p) o fam) [
        | inr (q, r, s) ↦ (t', q, e, o, r, s)
        | inl (r, all) ↦
            let no =
              Has-All (λ q. address_equal (address q) (address p) ≡ false) p
                (get_or t'.buckets x.0 []) x.2 (all x.0) in
            absurd (not_both (sym (address_equal_self (address p)) ∙ no))
      ]
    where
      not_both : true ≢ false
      not_both e = cc
