-- ===== src/PeerTable/Equal.antt =====
-- src/peer_hashtable.h: addresses that count as equal have the same hash.
use fastd.Base.{ℕ, ◌≡◌, ◌⊎◌, refl, ap, ap₂, ◌∙◌, true, false, List, Bool-cases, inl, inr, arith}
use fastd.Discovery.{PeerAddress, unspec, in4, in6}
use fastd.Handshake.Methods.Strings.{str_eq_iff}
use fastd.PeerTable.{is_linklocal, address_hash, address_equal}

-- The parts that `address_equal` compares.
equal-in4 : (p a q b : List ℕ) → address_equal (in4 p a) (in4 q b) ≡ true → (p ≡ q) × (a ≡ b)
unfolding address_equal
equal-in4 p a q b h = (ground (arith, str_eq_iff p q), ground (arith, str_eq_iff a b))

equal-in6 :
    (p a q b : List ℕ) (s t : ℕ)
    → address_equal (in6 p a s) (in6 q b t) ≡ true
    → (p ≡ q) × (a ≡ b) × ((is_linklocal a ≡ false) ⊎ (s ≡ t))
unfolding address_equal
equal-in6 p a q b s t h = (
  ground (arith, str_eq_iff p q, str_eq_iff a b),
  ground (arith, str_eq_iff a b),
  elim (Bool-cases (is_linklocal a)) [
    | inr e ↦ inl e
    | inl e ↦ inr (ground (arith, e, h, str_eq_iff a b, str_eq_iff p q))
  ],
)

scope-free :
    (seed : ℕ) (q b : List ℕ) (s t : ℕ)
    → (is_linklocal b ≡ false) ⊎ (s ≡ t)
    → address_hash seed (in6 q b s) ≡ address_hash seed (in6 q b t)
scope-free seed q b s t (inl e) = unfold address_hash in rw e refl
scope-free seed q b s t (inr e) = ap (λ s. address_hash seed (in6 q b s)) e

-- Two addresses that `fastd_peer_address_equal` takes for the same have the same hash from any seed,
-- so that they fall into the same bucket of any table. (The scope of an IPv6 address counts for
-- both exactly if the address is link-local.)
pub address_hash-address_equal :
    (seed : ℕ) (x y : PeerAddress)
    → address_equal x y ≡ true
    → address_hash seed x ≡ address_hash seed y
address_hash-address_equal seed unspec unspec h = refl
address_hash-address_equal seed (in4 p a) (in4 q b) h =
    let (e, f) = equal-in4 p a q b h in ap₂ (λ p a. address_hash seed (in4 p a)) e f
address_hash-address_equal seed (in6 p a s) (in6 q b t) h =
    let (e, f, g) = equal-in6 p a q b s t h in
    ap₂ (λ p a. address_hash seed (in6 p a s)) e f ∙ scope-free seed q b s t (rw (← f) g)
address_hash-address_equal seed unspec (in4 q b) h =
    let e : false ≡ true = unfold address_equal in h in cc
address_hash-address_equal seed unspec (in6 q b t) h =
    let e : false ≡ true = unfold address_equal in h in cc
address_hash-address_equal seed (in4 p a) unspec h =
    let e : false ≡ true = unfold address_equal in h in cc
address_hash-address_equal seed (in4 p a) (in6 q b t) h =
    let e : false ≡ true = unfold address_equal in h in cc
address_hash-address_equal seed (in6 p a s) unspec h =
    let e : false ≡ true = unfold address_equal in h in cc
address_hash-address_equal seed (in6 p a s) (in4 q b) h =
    let e : false ≡ true = unfold address_equal in h in cc
