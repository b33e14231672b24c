-- ===== src/Discovery.antt =====
-- src/discovery.c: relays announce the endpoints of their peers to each other, over established
-- sessions.
pub mod Body
pub mod Codec
pub mod Collect
mod Tests
use fastd.Base.{
  ℕ, zero, suc, ◌+◌, ◌*◌, ◌/◌, ◌%◌, ◌^◌, ◌≡◌, Bool, true, false, not, ◌&&◌, ◌||◌, Option, none,
  some, ◌>>=◌, List, [], ◌∷◌, ◌++◌, ◌==◌, ltb, leb, if◌then◌else◌, length, get_or, take, drop,
  replicate, write,
}
use fastd.Handshake.Methods.{str_eq}

-- `fastd_peer_address_t`, by its family; ports and addresses are in network order.
pub data PeerAddress : Type 0 where
  unspec : PeerAddress
  in4 : (port addr : List ℕ) → PeerAddress
  in6 : (port addr : List ℕ) → (scope_id : ℕ) → PeerAddress

-- The six bytes of a `fastd_eth_addr_t`.
abbrev pub EthAddr : Type 0
EthAddr = List ℕ

-- `fastd_discovery_endpoint_t`
pub record Endpoint : Type 0 where
  pub version : ℕ
  pub type : ℕ
  pub key_len : ℕ
  pub mac_count : ℕ
  pub address_family : ℕ
  pub port : List ℕ
  pub address : List ℕ

-- The packed struct in memory, and the struct that stands at the start of some bytes.
abbrev pub endpoint_size : ℕ
endpoint_size = 24

abbrev pub to_wire : Endpoint → List ℕ
to_wire h =
    (h.version ∷ h.type ∷ h.key_len ∷ h.mac_count ∷ h.address_family ∷ 0 ∷ [])
    ++ (h.port ++ h.address)

abbrev pub of_wire : List ℕ → Endpoint
of_wire b = record {
  version = get_or b 0 0;
  type = get_or b 1 0;
  key_len = get_or b 2 0;
  mac_count = get_or b 3 0;
  address_family = get_or b 4 0;
  port = take 2 (drop 6 b);
  address = take 16 (drop 8 b);
}

unfoldable pub address_needs_scope_id : PeerAddress → Bool
address_needs_scope_id (in6 port addr scope_id) = not (scope_id == 0)
address_needs_scope_id _ = false

unfoldable pub endpoint_header_len : Endpoint → ℕ
endpoint_header_len h =
    if h.version == 1 then endpoint_size else if h.version == 2 then endpoint_size + 4 else 0

unfoldable pub get_port : PeerAddress → List ℕ
get_port (in4 port addr) = port
get_port (in6 port addr scope_id) = port
get_port unspec = 0 ∷ 0 ∷ []

-- The Boolean is the result; the header is written in any case.
unfoldable pub encode_address : Endpoint → PeerAddress → Endpoint × Bool
unfolding get_port
encode_address h addr =
    let zeros = replicate 16 0 in
    let h' : Endpoint = record h { address = zeros; port = get_port addr } in
    elim addr [
      | in4 p a ↦ (record h' { address_family = 4; address = write zeros 0 a }, true)
      | in6 p a s ↦ (record h' { address_family = 6; address = write zeros 0 a }, true)
      | unspec ↦ (h', false)
    ]

unfoldable pub decode_address : Endpoint → Option PeerAddress
decode_address h =
    if h.address_family == 4
    then some (in4 h.port (take 4 h.address))
    else if h.address_family == 6
    then some (in6 h.port (take 16 h.address) 0)
    else none

-- `htonl`, as the bytes in memory, and `ntohl`.
abbrev pub be32 : ℕ → List ℕ
be32 n = n / 2 ^ 24 % 256 ∷ n / 2 ^ 16 % 256 ∷ n / 2 ^ 8 % 256 ∷ n % 256 ∷ []

abbrev pub of_be32 : List ℕ → ℕ
of_be32 b = get_or b 0 0 * 2 ^ 24 + get_or b 1 0 * 2 ^ 16 + get_or b 2 0 * 2 ^ 8 + get_or b 3 0

-- The bytes behind the header; `none` is the result false.
unfoldable pub encode_scope_id : ℕ → PeerAddress → Option (List ℕ)
unfolding address_needs_scope_id
encode_scope_id len addr =
    let scope : Option (List ℕ) = elim addr [ in6 p a s ↦ some (be32 s) | _ ↦ none ] in
    if not (address_needs_scope_id addr)
    then none
    else if ltb len (endpoint_size + 4)
    then none
    else scope

unfoldable pub decode_scope_id : PeerAddress → List ℕ → ℕ → PeerAddress
decode_scope_id (in6 p a s) wire len =
    if ltb len (endpoint_size + 4) then in6 p a s else in6 p a (of_be32 (drop endpoint_size wire))
decode_scope_id addr wire len = addr

abbrev pub concat_macs : List EthAddr → List ℕ
concat_macs [] = []
concat_macs (m ∷ ms) = m ++ concat_macs ms

-- The array of `count` addresses at the start of some bytes.
abbrev pub macs_at : ℕ → List ℕ → List EthAddr
macs_at zero b = []
macs_at (suc n) b = take 6 b ∷ macs_at n (drop 6 b)

-- The payload that `send_endpoint_announce` sends about a peer with the given address and key, in a
-- buffer that its parts fill from the start to the end. `none` is nothing sent.
unfoldable pub endpoint_announce : PeerAddress → List ℕ → List EthAddr → Option (List ℕ)
unfolding address_needs_scope_id
endpoint_announce addr key macs =
    let scoped = address_needs_scope_id addr in
    let header_len = endpoint_size + (if scoped then 4 else 0) in
    let len = header_len + length key + length macs * 6 in
    let header : Endpoint = record {
      version = if scoped then 2 else 1;
      type = 1;
      key_len = length key;
      mac_count = length macs % 256;
      address_family = 0;
      port = 0 ∷ 0 ∷ [];
      address = replicate 16 0;
    } in
    let (encoded, ok) = encode_address header addr in
    let rest = key ++ concat_macs macs in
    let scoped_bytes = encode_scope_id len addr >>= (λ s. some (to_wire encoded ++ (s ++ rest))) in
    if ltb 255 (length key)
    then none
    else if not ok
    then none
    else if scoped
    then scoped_bytes
    else some (to_wire encoded ++ rest)

unfoldable pub eth_addr_equal : EthAddr → EthAddr → Bool
eth_addr_equal a b = str_eq a b

unfoldable pub is_unicast : EthAddr → Bool
is_unicast m = get_or m 0 0 % 2 == 0

abbrev pub known_mac : List EthAddr → EthAddr → Bool
known_mac [] mac = false
known_mac (m ∷ ms) mac = eth_addr_equal m mac || known_mac ms mac

-- The list is the first `n_macs` entries of the array.
unfoldable pub add_mac : List EthAddr → EthAddr → List EthAddr
unfolding is_unicast eth_addr_equal
add_mac macs mac =
    if not (is_unicast mac)
    then macs
    else if known_mac macs mac
    then macs
    else if ltb (length macs) 16
    then macs ++ (mac ∷ [])
    else macs

-- `fastd_peer_eth_addr_t`; peers are compared as pointers, here numbers.
pub record EthEntry : Type 0 where
  pub addr : EthAddr
  pub peer : ℕ
  pub timeout : ℕ

unfoldable pub collect_loop : ℕ → ℕ → List EthEntry → List EthAddr → List EthAddr
unfolding add_mac
collect_loop now peer [] macs = macs
collect_loop now peer (e ∷ es) macs =
    collect_loop now peer es (
      if not (e.peer == peer)
      then macs
      else if leb e.timeout now
      then macs
      else add_mac macs e.addr)

unfoldable pub collect_macs : ℕ → List EthEntry → ℕ → EthAddr → List EthAddr
unfolding collect_loop
collect_macs now eth_addrs peer source_mac = collect_loop now peer eth_addrs (add_mac [] source_mac)

-- What the handshake protocol and the configuration provide: the own key and the relay's, the length
-- of keys, the peer with a key (a dynamic one is made if none is known), and whether it is enabled.
pub record Keys : Type 0 where
  pub peer_discovery : Bool
  pub own_key : Option (List ℕ)
  pub relay_key : Option (List ℕ)
  pub key_length : ℕ
  pub find : List ℕ → Option ℕ
  pub add_dynamic : List ℕ → Option ℕ
  pub enabled : ℕ → Bool

abbrev same_key : Option (List ℕ) → List ℕ → Bool
same_key none key = false
same_key (some k) key = str_eq k key

unfoldable pub key_is_self_or_relay : Keys → List ℕ → Bool
key_is_self_or_relay k key =
    if same_key k.own_key key then true else if same_key k.relay_key key then true else false

abbrev pub found : Keys → List ℕ → Option ℕ
found k key = elim (k.find key) [ none ↦ k.add_dynamic key | some p ↦ some p ]

-- The candidate that is added: the peer, its address and its Ethernet addresses.
abbrev pub candidate :
    Keys → List ℕ → PeerAddress → List EthAddr → Option (ℕ × PeerAddress × List EthAddr)
candidate k key addr macs =
    found k key >>= (λ p. if k.enabled p then some (p, addr, macs) else none)

abbrev pub with_scope : Endpoint → List ℕ → ℕ → PeerAddress → PeerAddress
with_scope h b header_len addr = if h.version == 2 then decode_scope_id addr b header_len else addr

-- The checks of the body, and of the header before them.
unfoldable pub handle_body : Keys → List ℕ → Endpoint → ℕ → Option (ℕ × PeerAddress × List EthAddr)
unfolding decode_address decode_scope_id key_is_self_or_relay
handle_body k b h header_len =
    let rest = drop header_len b in
    let key = take k.key_length rest in
    let macs = macs_at h.mac_count (drop k.key_length rest) in
    if header_len == 0 || ltb (length b) header_len
    then none
    else if not (h.key_len == k.key_length)
    then none
    else if not (length b == header_len + k.key_length + h.mac_count * 6)
    then none
    else if key_is_self_or_relay k key
    then none
    else decode_address h >>= (λ a. candidate k key (with_scope h b header_len a) macs)

unfoldable pub handle_header : Keys → List ℕ → Endpoint → Option (ℕ × PeerAddress × List EthAddr)
unfolding endpoint_header_len handle_body
handle_header k b h = if not (h.type == 1) then none else handle_body k b h (endpoint_header_len h)

unfoldable pub handle_control : Keys → Bool → List ℕ → Option (ℕ × PeerAddress × List EthAddr)
unfolding handle_header
handle_control k relay_passive b =
    if not k.peer_discovery || relay_passive
    then none
    else if ltb (length b) endpoint_size
    then none
    else handle_header k b (of_wire b)
