-- ===== src/PeerTable/Tests.antt =====
-- Runs of src/peer_hashtable.c, and its theorems at concrete tables.
use fastd.Base.{
  ℕ, zero, suc, ◌≡◌, ◌⊎◌, inl, inr, refl, true, false, some, none, [], ◌∷◌, arith, All, replicate,
  get_or,
}
use fastd.Discovery.{PeerAddress, in4, in6}
use fastd.Handshake.Methods.{str_eq}
use fastd.PeerTable.{
  Table, address_bucket, address_hash, address_equal, hashtable_insert, hashtable_lookup,
}
use fastd.PeerTable.Equal.{address_hash-address_equal}
use fastd.PeerTable.Lookup.{IsTable, hashtable_lookup_complete}
use fastd.PeerTable.Change.{hashtable_lookup-hashtable_insert}

-- An address by its last byte.
abbrev host : ℕ → PeerAddress
host n = in4 (39 ∷ 16 ∷ []) (10 ∷ 0 ∷ 0 ∷ n ∷ [])

-- A full table of one bucket with the peers 1 and 2.
abbrev small_table : Table
small_table = record { seed = 5; size = 1; used = 2; buckets = (1 ∷ 2 ∷ []) ∷ [] }

small_table-All :
    (b : ℕ)
    → All (λ p. address_bucket small_table (host p) ≡ some b) (get_or small_table.buckets b [])
unfolding address_bucket
small_table-All zero = (refl, (refl, tt))
small_table-All (suc b) = tt

one_bucket : IsTable host small_table
one_bucket = record { size_eq = refl; positive = omega arith; placed = small_table-All }

address_hash-address_equal_example :
    address_hash 7 (in6 (1 ∷ 2 ∷ []) (32 ∷ 1 ∷ replicate 14 3) 4)
    ≡ address_hash 7 (in6 (1 ∷ 2 ∷ []) (32 ∷ 1 ∷ replicate 14 3) 9)
unfolding address_equal str_eq
address_hash-address_equal_example =
    address_hash-address_equal 7 (in6 (1 ∷ 2 ∷ []) (32 ∷ 1 ∷ replicate 14 3) 4)
      (in6 (1 ∷ 2 ∷ []) (32 ∷ 1 ∷ replicate 14 3) 9) refl

hashtable_lookup_complete_example :
    ((hashtable_lookup host small_table (host 2) ≡ some none)
      × ((c : ℕ)
          → All (λ p. address_equal (host p) (host 2) ≡ false) (get_or small_table.buckets c [])))
    ⊎ ((p : ℕ) × (hashtable_lookup host small_table (host 2) ≡ some (some p))
        × (address_equal (host p) (host 2) ≡ true))
hashtable_lookup_complete_example = hashtable_lookup_complete host (host 2) one_bucket refl

hashtable_lookup-hashtable_insert_example :
    (t' : Table) × (q : ℕ) × (hashtable_insert host (λ n. n) (1 ∷ 2 ∷ 3 ∷ []) 2 small_table 3
      ≡ some t')
    × IsTable host t'
    × (hashtable_lookup host t' (host 3) ≡ some (some q))
    × (address_equal (host q) (host 3) ≡ true)
hashtable_lookup-hashtable_insert_example =
    hashtable_lookup-hashtable_insert host (λ n. n) (1 ∷ 2 ∷ 3 ∷ []) 3 one_bucket refl
      (inr (inr (inl refl))) (omega arith) (omega arith) (omega arith)
