-- ===== src/PeerTable/Put.antt =====
-- src/peer_hashtable.c: a peer that is put into its bucket is there, and moves no other.
use native.Mathlib.Nat.{mod-lt}
use fastd.Base.{
  ℕ, ◌%◌, ◌<◌, ◌≡◌, ◌⊎◌, inl, inr, refl, ◌∙◌, true, Option, none, some, ◌>>=◌, List, [], ◌∷◌, ◌++◌,
  ◌==◌, Bool-cases, arith, get_or, set, length-set, get_or-set_self, get_or-set_ne, All-append,
}
use fastd.Discovery.{PeerAddress, unspec, in4, in6}
use fastd.Handshake.Methods.{str_eq}
use fastd.Handshake.Methods.Strings.{str_eq_iff}
use fastd.PeerTable.{
  Table, is_linklocal, address_hash, hash_final, address_equal, address_bucket, has_family, put,
}
use fastd.PeerTable.Lookup.{IsTable, bucket-some, same-or_other}

abbrev pub Has : ℕ → List ℕ → Type 0
Has p [] = ⊥
Has p (q ∷ qs) = (p ≡ q) ⊎ Has p qs

Has-append : (p : ℕ) (xs ys : List ℕ) → Has p xs ⊎ Has p ys → Has p (xs ++ ys)
Has-append p [] ys (inl h) = absurd h
Has-append p [] ys (inr h) = h
Has-append p (x ∷ xs) ys (inl (inl e)) = inl e
Has-append p (x ∷ xs) ys (inl (inr h)) = inr (Has-append p xs ys (inl h))
Has-append p (x ∷ xs) ys (inr h) = inr (Has-append p xs ys (inr h))

bind-less :
    (o : Option ℕ) (size b : ℕ)
    → 0 < size
    → (o >>= (λ h. some (hash_final h % size))) ≡ some b
    → b < size
bind-less none size b pos e = cc
bind-less (some h) size b pos e =
    let same : hash_final h % size ≡ b = cc in omega (arith, same, mod-lt (hash_final h) pos)

bucket-less :
    (t : Table) (addr : PeerAddress) (b : ℕ)
    → 0 < t.size
    → address_bucket t addr ≡ some b
    → b < t.size
unfolding address_bucket
bucket-less t addr b pos e = bind-less (address_hash t.seed addr) t.size b pos e

str_eq_self : (s : List ℕ) → str_eq s s ≡ true
str_eq_self s = (str_eq_iff s s).1 refl

same_self : (n : ℕ) → (n == n) ≡ true
same_self n = ground arith

pub address_equal_self : (addr : PeerAddress) → address_equal addr addr ≡ true
unfolding address_equal
address_equal_self unspec = refl
address_equal_self (in4 p a) = rw (str_eq_self a) (str_eq_self p)
address_equal_self (in6 p a s) =
    rw (str_eq_self a, str_eq_self p, same_self s)
      (elim (Bool-cases (is_linklocal a)) [ inl e ↦ rw e refl | inr e ↦ rw e refl ])

module _ (address : ℕ → PeerAddress) where
  -- A peer stands in the bucket of its address.
  abbrev pub Present : Table → ℕ → Type 0
  Present t p = (b : ℕ) × (address_bucket t (address p) ≡ some b) × Has p (get_or t.buckets b [])

  pub record Placed (t : Table) (p : ℕ) (t' : Table) : Type 0 where
    pub result : put address t p ≡ some t'
    pub ordered : IsTable address t'
    pub size_eq : t'.size ≡ t.size
    pub used_eq : t'.used ≡ t.used
    pub here : Present t' p
    pub others : (q : ℕ) → Present t q → Present t' q

  pub Placed-put :
      {t : Table} (p : ℕ)
      → IsTable address t
      → has_family (address p) ≡ true
      → (t' : Table) × Placed t p t'
  unfolding put
  Placed-put {t} p h fam =
      let (b, e) = bucket-some address t (address p) fam in
      let less = bucket-less t (address p) b h.positive e in
      let old = get_or t.buckets b [] in
      let t' : Table = record t { buckets = set t.buckets b (old ++ (p ∷ [])) } in
      let own : get_or (set t.buckets b (old ++ (p ∷ []))) b [] ≡ old ++ (p ∷ []) =
        get_or-set_self t.buckets b (old ++ (p ∷ [])) [] (omega (arith, less, h.size_eq)) in
      let other = get_or-set_ne t.buckets b in
      (
        t',
        record {
          result = rw e refl;
          ordered = record {
            size_eq = length-set t.buckets b (old ++ (p ∷ [])) ∙ h.size_eq;
            positive = h.positive;
            placed = λ c. elim (same-or_other b c) [
              | inl s ↦
                  rw (← s, own)
                    (All-append (λ q. address_bucket t (address q) ≡ some b) old (p ∷ [])
                      (h.placed b) (e, tt))
              | inr ne ↦ rw (other c (old ++ (p ∷ [])) [] ne) (h.placed c)
            ];
          };
          size_eq = refl;
          used_eq = refl;
          here = (b, e, rw own (Has-append p old (p ∷ []) (inr (inl refl))));
          others = λ q x. (
            x.0,
            x.1,
            elim (same-or_other b x.0) [
              | inl s ↦ rw (← s, own) (Has-append q old (p ∷ []) (inl (rw s x.2)))
              | inr ne ↦ rw (other x.0 (old ++ (p ∷ [])) [] ne) x.2
            ],
          );
        },
      )
