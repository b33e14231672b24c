-- ===== src/Discovery/Tests.antt =====
-- Runs of src/discovery.c, and its theorems at concrete announcements.
use fastd.Base.{ℕ, ◌≡◌, ◌⊎◌, refl, true, false, some, none, List, [], ◌∷◌, arith, All, replicate}
use fastd.Handshake.Methods.{str_eq}
use fastd.Discovery.{
  PeerAddress, in6, EthAddr, EthEntry, Keys, candidate, endpoint_announce, handle_control,
  key_is_self_or_relay, collect_macs,
}
use fastd.Discovery.Codec.{handle_control-endpoint_announce}
use fastd.Discovery.Collect.{IsCollected, IsLive, collect_macs-IsCollected}

-- Keys of two bytes, of which one peer's is known.
abbrev some_keys : Keys
some_keys = record {
  peer_discovery = true;
  own_key = some (1 ∷ 1 ∷ []);
  relay_key = some (2 ∷ 2 ∷ []);
  key_length = 2;
  find = λ k. some 7;
  add_dynamic = λ k. none;
  enabled = λ p. true;
}

abbrev scoped : PeerAddress
scoped = in6 (39 ∷ 16 ∷ []) (254 ∷ 128 ∷ replicate 14 1) 70000

abbrev one_mac : List EthAddr
one_mac = (2 ∷ 0 ∷ 0 ∷ 0 ∷ 0 ∷ 9 ∷ []) ∷ []

other_key : key_is_self_or_relay some_keys (5 ∷ 6 ∷ []) ≡ false
unfolding key_is_self_or_relay str_eq
other_key = refl

handle_control-endpoint_announce_example :
    (b : List ℕ) × (endpoint_announce scoped (5 ∷ 6 ∷ []) one_mac ≡ some b)
    × (handle_control some_keys false b ≡ candidate some_keys (5 ∷ 6 ∷ []) scoped one_mac)
handle_control-endpoint_announce_example =
    handle_control-endpoint_announce some_keys scoped (5 ∷ 6 ∷ []) one_mac refl refl (omega arith)
      (omega arith) (refl, tt) other_key (refl, refl, omega arith)

-- An entry of the peer 3, one that has timed out, and one of another peer.
abbrev entries : List EthEntry
entries =
    (record { addr = 2 ∷ 1 ∷ []; peer = 3; timeout = 9 })
    ∷ (record { addr = 2 ∷ 2 ∷ []; peer = 3; timeout = 5 })
    ∷ (record { addr = 2 ∷ 3 ∷ []; peer = 4; timeout = 9 })
    ∷ []

collected : collect_macs 5 entries 3 (2 ∷ 9 ∷ []) ≡ (2 ∷ 9 ∷ []) ∷ (2 ∷ 1 ∷ []) ∷ []
unfolding collect_macs str_eq
collected = refl

collect_macs-IsCollected_example :
    IsCollected (collect_macs 5 entries 3 (2 ∷ 9 ∷ []))
    × All (λ m. (m ≡ 2 ∷ 9 ∷ []) ⊎ IsLive 5 3 entries m) (collect_macs 5 entries 3 (2 ∷ 9 ∷ []))
collect_macs-IsCollected_example = collect_macs-IsCollected 5 entries 3 (2 ∷ 9 ∷ [])
