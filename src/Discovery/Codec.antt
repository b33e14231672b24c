-- ===== src/Discovery/Codec.antt =====
-- src/discovery.c: an announced endpoint is the one that is received.
use fastd.Base.{
  ℕ, zero, suc, ◌+◌, ◌*◌, ◌%◌, ◌^◌, ◌≤◌, ◌<◌, ◌≡◌, refl, ap, ◌∙◌, true, false, some, ◌>>=◌, List,
  [], ◌++◌, arith, ltb, length, take, drop, replicate, write, All, write-split, length-write,
}
use fastd.Discovery.{
  PeerAddress, unspec, in4, in6, EthAddr, Endpoint, endpoint_size, to_wire, address_needs_scope_id,
  endpoint_header_len, encode_address, decode_address, be32, of_be32, encode_scope_id,
  decode_scope_id, concat_macs, endpoint_announce, Keys, key_is_self_or_relay, candidate,
  handle_control,
}
use fastd.Discovery.Body.{IsEndpoint, take-length, drop-to_wire, packet, packet-handled}

-- An address with a family, whose parts have their sizes.
abbrev pub IsAddress : PeerAddress → Type 0
IsAddress unspec = ⊥
IsAddress (in4 port addr) = (length port ≡ 2) × (length addr ≡ 4)
IsAddress (in6 port addr scope_id) = (length port ≡ 2) × (length addr ≡ 16) × (scope_id < 2 ^ 32)

abbrev header : ℕ → ℕ → List ℕ → List ℕ → ℕ → ℕ → Endpoint
header version family port addr key_len mac_count = record {
  version = version;
  type = 1;
  key_len = key_len;
  mac_count = mac_count;
  address_family = family;
  port = port;
  address = write (replicate 16 0) 0 addr;
}

header-IsEndpoint :
    (version family : ℕ) (port addr : List ℕ) (key_len mac_count : ℕ)
    → length port ≡ 2
    → IsEndpoint (header version family port addr key_len mac_count)
header-IsEndpoint version family port addr key_len mac_count h = record {
  port_size = h;
  address_size = length-write (replicate 16 0) 0 addr;
}

-- An address stands at the start of its field.
address-field :
    (n : ℕ) (addr : List ℕ)
    → length addr ≡ n
    → n ≤ 16
    → take n (write (replicate 16 0) 0 addr) ≡ addr
address-field n addr h small =
    let zeros = replicate 16 0 in
    let split = write-split zeros 0 addr (omega arith) in
    ap (take n) split ∙ take-length n addr (drop (0 + length addr) zeros) h

needs_scope_id-suc : (p a : List ℕ) (s : ℕ) → address_needs_scope_id (in6 p a (suc s)) ≡ true
unfolding address_needs_scope_id
needs_scope_id-suc p a s = ground arith

encode_scope_id-run :
    (len : ℕ) (p a : List ℕ) (s : ℕ)
    → endpoint_size + 4 ≤ len
    → encode_scope_id len (in6 p a (suc s)) ≡ some (be32 (suc s))
unfolding encode_scope_id
encode_scope_id-run len p a s h =
    let room : ltb len (endpoint_size + 4) ≡ false = ground arith in
    rw (needs_scope_id-suc p a s, room) refl

of_be32-be32 : (n : ℕ) → n < 2 ^ 32 → of_be32 (be32 n) ≡ n
of_be32-be32 n h = omega arith

module _ (k : Keys) (key : List ℕ) (macs : List EthAddr) (on : k.peer_discovery ≡ true)
    (len : length key ≡ k.key_length) (small : length key ≤ 255) (few : length macs < 256)
    (six : All (λ m. length m ≡ 6) macs) (other : key_is_self_or_relay k key ≡ false) where
  few_macs : length macs % 256 ≡ length macs
  few_macs = omega (arith, few)

  abbrev Answered : PeerAddress → Type 0
  Answered addr =
      (b : List ℕ) × (endpoint_announce addr key macs ≡ some b)
      × (handle_control k false b ≡ candidate k key addr macs)

  Answered-in4 : (p a : List ℕ) → IsAddress (in4 p a) → Answered (in4 p a)
  unfolding endpoint_announce encode_address decode_address endpoint_header_len
  Answered-in4 p a ok =
      let h = header 1 4 p a (length key) (length macs) in
      let fits : ltb 255 (length key) ≡ false = ground arith in
      (
        packet h [] key macs,
        rw (fits, few_macs) refl,
        packet-handled k h [] key macs endpoint_size (in4 p a) (in4 p a) on
            (header-IsEndpoint 1 4 p a (length key) (length macs) ok.0) refl refl refl len six refl
            refl other (ap (λ x. some (in4 p x)) (address-field 4 a ok.1 (omega arith))) refl,
      )

  Answered-plain : (p a : List ℕ) → IsAddress (in6 p a 0) → Answered (in6 p a 0)
  unfolding endpoint_announce encode_address decode_address endpoint_header_len
  Answered-plain p a ok =
      let h = header 1 6 p a (length key) (length macs) in
      let fits : ltb 255 (length key) ≡ false = ground arith in
      (
        packet h [] key macs,
        rw (fits, few_macs) refl,
        packet-handled k h [] key macs endpoint_size (in6 p a 0) (in6 p a 0) on
            (header-IsEndpoint 1 6 p a (length key) (length macs) ok.0) refl refl refl len six refl
            refl other (ap (λ x. some (in6 p x 0)) (address-field 16 a ok.1 (omega arith))) refl,
      )

  Answered-scoped :
      (p a : List ℕ) (s : ℕ) → IsAddress (in6 p a (suc s)) → Answered (in6 p a (suc s))
  unfolding endpoint_announce encode_address decode_address decode_scope_id endpoint_header_len
  Answered-scoped p a s ok =
      let h = header 2 6 p a (length key) (length macs) in
      let scope = be32 (suc s) in
      let w = header-IsEndpoint 2 6 p a (length key) (length macs) ok.0 in
      let fits : ltb 255 (length key) ≡ false = ground arith in
      let size = endpoint_size + 4 + length key + length macs * 6 in
      let rest = key ++ concat_macs macs in
      let encoded = encode_scope_id-run size p a s (omega arith) in
      let behind = drop-to_wire h (scope ++ (key ++ concat_macs macs)) w in
      (
        packet h scope key macs,
        rw (fits, few_macs, needs_scope_id-suc p a s)
            (ap (λ o. o >>= (λ l. some (to_wire h ++ (l ++ rest)))) encoded),
        packet-handled k h scope key macs (endpoint_size + 4) (in6 p a 0) (in6 p a (suc s)) on w
            refl refl refl len six refl refl other
            (ap (λ x. some (in6 p x 0)) (address-field 16 a ok.1 (omega arith)))
            (ap (λ l. in6 p a (of_be32 l)) behind
              ∙ ap (λ n. in6 p a n) (of_be32-be32 (suc s) ok.2)),
      )

-- What a relay announces of a peer, a node that discovers peers, and has the relay not marked as
-- passive, handles as the same address and the same Ethernet addresses: they become a candidate of the peer with the announced key, if one is
-- found or made and it is enabled. The key has the protocol's length, at most 255 bytes, and is
-- neither the receiver's nor the announcing relay's; there are less than 256 Ethernet addresses, which
-- is what the byte for their number counts.
pub handle_control-endpoint_announce :
    (k : Keys) (addr : PeerAddress) (key : List ℕ) (macs : List EthAddr)
    → k.peer_discovery ≡ true
    → length key ≡ k.key_length
    → length key ≤ 255
    → length macs < 256
    → All (λ m. length m ≡ 6) macs
    → key_is_self_or_relay k key ≡ false
    → IsAddress addr
    → (b : List ℕ) × (endpoint_announce addr key macs ≡ some b)
      × (handle_control k false b ≡ candidate k key addr macs)
handle_control-endpoint_announce k unspec key macs on len small few six other ok = absurd ok
handle_control-endpoint_announce k (in4 p a) key macs on len small few six other ok =
    Answered-in4 k key macs on len small few six other p a ok
handle_control-endpoint_announce k (in6 p a zero) key macs on len small few six other ok =
    Answered-plain k key macs on len small few six other p a ok
handle_control-endpoint_announce k (in6 p a (suc s)) key macs on len small few six other ok =
    Answered-scoped k key macs on len small few six other p a s ok
