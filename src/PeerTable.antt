-- ===== src/PeerTable.antt =====
-- src/peer_hashtable.c, peer_hashtable.h and hash.h: the peers by their current addresses.
pub mod Equal
pub mod Lookup
pub mod Put
pub mod Change
mod Tests
use Prim.Native.Nat.{bit_xor}
use fastd.Base.{
  ℕ, zero, suc, ◌+◌, ◌-◌, ◌*◌, ◌/◌, ◌%◌, ◌^◌, Bool, true, false, not, ◌&&◌, ◌||◌, Option, none,
  some, ◌>>=◌, List, [], ◌∷◌, ◌++◌, ◌==◌, ltb, if◌then◌else◌, get_or, set, replicate,
}
use fastd.Base.Bits.{bit_and}
use fastd.Util.{size_add, size_sub, size_mul}
use fastd.Discovery.{PeerAddress, unspec, in4, in6}
use fastd.Handshake.Methods.{str_eq}

-- The Jenkins one-at-a-time hash, in 32 bits.
unfoldable pub hash_byte : ℕ → ℕ → ℕ
hash_byte hash b =
    let h1 = (hash + b) % 2 ^ 32 in
    let h2 = (h1 + h1 * 2 ^ 10 % 2 ^ 32) % 2 ^ 32 in bit_xor h2 (h2 / 2 ^ 6)

unfoldable pub hash_bytes : ℕ → List ℕ → ℕ
unfolding hash_byte
hash_bytes hash [] = hash
hash_bytes hash (b ∷ bs) = hash_bytes (hash_byte hash b) bs

unfoldable pub hash_final : ℕ → ℕ
hash_final hash =
    let h1 = (hash + hash * 2 ^ 3 % 2 ^ 32) % 2 ^ 32 in
    let h2 = bit_xor h1 (h1 / 2 ^ 11) in (h2 + h2 * 2 ^ 15 % 2 ^ 32) % 2 ^ 32

-- `IN6_IS_ADDR_LINKLOCAL`: the prefix fe80::/10.
abbrev pub is_linklocal : List ℕ → Bool
is_linklocal addr = get_or addr 0 0 == 254 && bit_and (get_or addr 1 0) 192 == 128

-- A scope id in memory, lowest byte first.
abbrev pub le32 : ℕ → List ℕ
le32 n = n % 256 ∷ n / 2 ^ 8 % 256 ∷ n / 2 ^ 16 % 256 ∷ n / 2 ^ 24 % 256 ∷ []

-- `none` is the end of the process: an address without a family.
unfoldable pub address_hash : ℕ → PeerAddress → Option ℕ
unfolding hash_bytes
address_hash hash (in4 port addr) = some (hash_bytes (hash_bytes hash addr) port)
address_hash hash (in6 port addr scope_id) =
    let h = hash_bytes (hash_bytes hash addr) port in
    some (if is_linklocal addr then hash_bytes h (le32 scope_id) else h)
address_hash hash unspec = none

unfoldable pub address_equal : PeerAddress → PeerAddress → Bool
address_equal unspec unspec = true
address_equal (in4 p a) (in4 q b) = if not (str_eq a b) then false else str_eq p q
address_equal (in6 p a s) (in6 q b t) =
    if not (str_eq a b)
    then false
    else if not (str_eq p q)
    then false
    else if is_linklocal a
    then s == t
    else true
address_equal _ _ = false

-- The table: `peer_addr_ht_seed`, `peer_addr_ht_size`, `peer_addr_ht_used` and the buckets. Peers are
-- pointers, here numbers.
pub record Table : Type 0 where
  pub seed : ℕ
  pub size : ℕ
  pub used : ℕ
  pub buckets : List (List ℕ)

-- `seed` is what `fastd_random_bytes` returns.
unfoldable pub init_hashtable : ℕ → ℕ → ℕ → Table
init_hashtable seed size used = record {
  seed = seed;
  size = size;
  used = used;
  buckets = replicate size [];
}

unfoldable pub hashtable_init : ℕ → Table
unfolding init_hashtable
hashtable_init seed = init_hashtable seed 8 0

unfoldable pub address_bucket : Table → PeerAddress → Option ℕ
unfolding address_hash hash_final
address_bucket t addr = address_hash t.seed addr >>= (λ h. some (hash_final h % t.size))

abbrev pub has_family : PeerAddress → Bool
has_family unspec = false
has_family _ = true

abbrev pub fold_option : {A B : Type 0} → (B → A → Option B) → B → List A → Option B
fold_option f b [] = some b
fold_option f b (x ∷ xs) = f b x >>= (λ b'. fold_option f b' xs)

abbrev remove_first : ℕ → List ℕ → List ℕ
remove_first p [] = []
remove_first p (q ∷ qs) = if q == p then qs else q ∷ remove_first p qs

-- The address of each peer, which does not change while the peer is in the table.
module _ (address : ℕ → PeerAddress) where
  -- The end of `fastd_peer_hashtable_insert`.
  unfoldable pub put : Table → ℕ → Option Table
  unfolding address_bucket
  put t peer = address_bucket t (address peer) >>= (λ b.
      some (record t { buckets = set t.buckets b (get_or t.buckets b [] ++ (peer ∷ [])) }))

  -- `seeds` gives the seed of a table by its size, and `peers` is `ctx.peers`. An insertion may
  -- rebuild the table, which inserts all peers again: `fuel` bounds the nesting. `none` is the end
  -- of the process, or too little fuel.
  unfoldable pub hashtable_insert : (ℕ → ℕ) → List ℕ → ℕ → Table → ℕ → Option Table
  unfolding put init_hashtable
  hashtable_insert seeds peers zero t peer = none
  hashtable_insert seeds peers (suc fuel) t peer =
      let counted : Table = record t { used = size_add t.used 1 } in
      let size = size_mul t.size 2 in
      let fresh = init_hashtable (seeds size) size 0 in
      let rebuilt = fold_option (hashtable_insert seeds peers fuel) fresh peers in
      if not (has_family (address peer))
      then some t
      else if ltb (size_mul 2 t.size) counted.used
      then rebuilt
      else put counted peer

  unfoldable pub hashtable_remove : Table → ℕ → Option Table
  unfolding address_bucket
  hashtable_remove t peer =
      let removed = address_bucket t (address peer) >>= (λ b. some (record t {
        used = size_sub t.used 1;
        buckets = set t.buckets b (remove_first peer (get_or t.buckets b []));
      })) in
      if not (has_family (address peer)) then some t else removed

  unfoldable pub find_peer : PeerAddress → List ℕ → Option ℕ
  unfolding address_equal
  find_peer addr [] = none
  find_peer addr (p ∷ ps) = if address_equal (address p) addr then some p else find_peer addr ps

  -- The outer option is the end of the process, the inner one the result NULL.
  unfoldable pub hashtable_lookup : Table → PeerAddress → Option (Option ℕ)
  unfolding address_bucket find_peer
  hashtable_lookup t addr =
      address_bucket t addr >>= (λ b. some (find_peer addr (get_or t.buckets b [])))
