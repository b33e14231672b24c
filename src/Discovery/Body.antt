-- ===== src/Discovery/Body.antt =====
-- src/discovery.c: a payload that is put together from its parts is read as these parts.
use fastd.Base.{
  ℕ, ◌+◌, ◌*◌, ◌<◌, ◌≡◌, refl, sym, ap, ap₂, ◌∙◌, true, false, some, List, [], ◌∷◌, ◌++◌,
  append_assoc, arith, ◌==◌, ltb, length, take, drop, All, length-append, take-length_append,
  drop-length_append, drop-drop,
}
use fastd.Discovery.{
  PeerAddress, EthAddr, Endpoint, endpoint_size, to_wire, of_wire, endpoint_header_len,
  decode_address, concat_macs, macs_at, Keys, key_is_self_or_relay, candidate, with_scope,
  handle_body, handle_header, handle_control,
}

pub take-length : {A : Type 0} (n : ℕ) (xs ys : List A) → length xs ≡ n → take n (xs ++ ys) ≡ xs
take-length n xs ys h = ap (λ k. take k (xs ++ ys)) (sym h) ∙ take-length_append xs ys

drop-length : {A : Type 0} (n : ℕ) (xs ys : List A) → length xs ≡ n → drop n (xs ++ ys) ≡ ys
drop-length n xs ys h = ap (λ k. drop k (xs ++ ys)) (sym h) ∙ drop-length_append xs ys

-- A header whose port and address have their sizes.
pub record IsEndpoint (h : Endpoint) : Type 0 where
  pub port_size : length h.port ≡ 2
  pub address_size : length h.address ≡ 16

pub of_wire-to_wire :
    (h : Endpoint) (rest : List ℕ) → IsEndpoint h → of_wire (to_wire h ++ rest) ≡ h
of_wire-to_wire h rest w =
    let glue = append_assoc h.port h.address rest in
    let port : take 2 ((h.port ++ h.address) ++ rest) ≡ h.port =
      rw glue (take-length 2 h.port (h.address ++ rest) w.port_size) in
    let behind : drop 2 ((h.port ++ h.address) ++ rest) ≡ h.address ++ rest =
      rw glue (drop-length 2 h.port (h.address ++ rest) w.port_size) in
    let address : take 16 (drop 2 ((h.port ++ h.address) ++ rest)) ≡ h.address =
      ap (take 16) behind ∙ take-length 16 h.address rest w.address_size in
    ap₂ (λ p a. let e : Endpoint = record h { port = p; address = a } in e) port address

length-to_wire : (h : Endpoint) → IsEndpoint h → length (to_wire h) ≡ endpoint_size
length-to_wire h w = omega (arith, length-append h.port h.address, w.port_size, w.address_size)

pub drop-to_wire :
    (h : Endpoint) (rest : List ℕ) → IsEndpoint h → drop endpoint_size (to_wire h ++ rest) ≡ rest
drop-to_wire h rest w = drop-length endpoint_size (to_wire h) rest (length-to_wire h w)

macs_at-concat_macs :
    (macs : List EthAddr)
    → All (λ m. length m ≡ 6) macs
    → macs_at (length macs) (concat_macs macs) ≡ macs
macs_at-concat_macs [] h = refl
macs_at-concat_macs (m ∷ ms) h =
    let first = take-length 6 m (concat_macs ms) h.0 in
    let rest = drop-length 6 m (concat_macs ms) h.0 in
    rw (first, rest) (ap (λ l. m ∷ l) (macs_at-concat_macs ms h.1))

length-concat_macs :
    (macs : List EthAddr)
    → All (λ m. length m ≡ 6) macs
    → length (concat_macs macs) ≡ length macs * 6
length-concat_macs [] h = refl
length-concat_macs (m ∷ ms) h =
    omega (arith, length-append m (concat_macs ms), length-concat_macs ms h.1, h.0)

handle_body-run :
    (k : Keys) (b : List ℕ) (h : Endpoint) (n : ℕ) (key : List ℕ) (macs : List EthAddr)
    (a addr : PeerAddress)
    → 0 < n
    → h.key_len ≡ k.key_length
    → length b ≡ n + k.key_length + h.mac_count * 6
    → take k.key_length (drop n b) ≡ key
    → macs_at h.mac_count (drop k.key_length (drop n b)) ≡ macs
    → key_is_self_or_relay k key ≡ false
    → decode_address h ≡ some a
    → with_scope h b n a ≡ addr
    → handle_body k b h n ≡ candidate k key addr macs
unfolding handle_body
handle_body-run k b h n key macs a addr pos same len e f other dec sc =
    let no_zero : (n == 0) ≡ false = ground arith in
    let inside : ltb (length b) n ≡ false = ground (arith, len) in
    let key_ok : (h.key_len == k.key_length) ≡ true = ground (arith, same) in
    let len_ok : (length b == n + k.key_length + h.mac_count * 6) ≡ true = ground (arith, len) in
    rw (no_zero, inside, key_ok, len_ok, e, f, other, dec) (ap (λ x. candidate k key x macs) sc)

-- A payload of a header, the scope if there is one, the key, and the Ethernet addresses.
abbrev pub packet : Endpoint → List ℕ → List ℕ → List EthAddr → List ℕ
packet h scope key macs = to_wire h ++ (scope ++ (key ++ concat_macs macs))

pub packet-handled :
    (k : Keys) (h : Endpoint) (scope key : List ℕ) (macs : List EthAddr) (n : ℕ)
    (a addr : PeerAddress)
    → k.peer_discovery ≡ true
    → IsEndpoint h
    → h.type ≡ 1
    → h.key_len ≡ length key
    → h.mac_count ≡ length macs
    → length key ≡ k.key_length
    → All (λ m. length m ≡ 6) macs
    → n ≡ endpoint_size + length scope
    → endpoint_header_len h ≡ n
    → key_is_self_or_relay k key ≡ false
    → decode_address h ≡ some a
    → with_scope h (packet h scope key macs) n a ≡ addr
    → handle_control k false (packet h scope key macs) ≡ candidate k key addr macs
unfolding handle_control
packet-handled k h scope key macs n a addr on w type kl mc len six n_eq hl other dec sc =
    let b = packet h scope key macs in
    let rest = key ++ concat_macs macs in
    let size : length b ≡ endpoint_size + (length scope + (length key + length macs * 6)) = omega (
      arith,
      length-append (to_wire h) (scope ++ rest),
      length-append scope rest,
      length-append key (concat_macs macs),
      length-concat_macs macs six,
      length-to_wire h w,
    ) in
    let big : ltb (length b) endpoint_size ≡ false = ground (arith, size) in
    let body : drop n b ≡ rest =
      ap (λ m. drop m b) n_eq
      ∙ sym (drop-drop endpoint_size (length scope) b)
      ∙ ap (drop (length scope)) (drop-to_wire h (scope ++ rest) w)
      ∙ drop-length_append scope rest in
    let found_key : take k.key_length (drop n b) ≡ key =
      ap (take k.key_length) body ∙ take-length k.key_length key (concat_macs macs) len in
    let found_macs : macs_at h.mac_count (drop k.key_length (drop n b)) ≡ macs =
      ap (λ l. macs_at h.mac_count (drop k.key_length l)) body
      ∙ ap (macs_at h.mac_count) (drop-length k.key_length key (concat_macs macs) len)
      ∙ ap (λ c. macs_at c (concat_macs macs)) mc
      ∙ macs_at-concat_macs macs six in
    let run =
      handle_body-run k b h n key macs a addr (omega (arith, n_eq)) (kl ∙ len)
        (omega (arith, size, n_eq, mc, len)) found_key found_macs other dec sc in
    let parsed = of_wire-to_wire h (scope ++ rest) w in
    rw (on, big) (ap (handle_header k b) parsed ∙ handle_header-run k b h n type hl ∙ run)
  where
    handle_header-run :
        (k : Keys) (b : List ℕ) (h : Endpoint) (n : ℕ)
        → h.type ≡ 1
        → endpoint_header_len h ≡ n
        → handle_header k b h ≡ handle_body k b h n
    handle_header-run k b h n type hl = unfold handle_header in rw (type, hl) refl
