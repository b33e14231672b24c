-- ===== src/EthTable/Tests.antt =====
-- Runs of the table of Ethernet addresses, and its theorems at a concrete table.
use fastd.Base.{ℕ, ◌≡◌, inr, refl, true, some, none, List, [], ◌∷◌, ◌==◌, arith, if◌then◌else◌}
use fastd.Discovery.{EthAddr, EthEntry}
use fastd.Method.{timed_out}
use fastd.Method.Nonce.{value}
use fastd.EthTable.{
  Peers, memcmp, eth_addr_cmp, by_order, find_slot, renew, update, eth_addr_add, peer_at,
  find_by_eth_addr, compact, eth_addr_cleanup, eth_addr_reset,
}
use fastd.EthTable.Order.{IsTable}
use fastd.EthTable.Change.{lookup, peer_of, find_by_eth_addr-lookup}
use fastd.EthTable.Change.Add.{Owner, eth_addr_add-lookup}
use fastd.EthTable.Change.Clean.{unless_gone, eth_addr_cleanup-lookup}

abbrev mac : ℕ → EthAddr
mac n = 2 ∷ 0 ∷ 0 ∷ 0 ∷ 0 ∷ n ∷ []

-- Peer 7 is reached by peer 8, and both are established.
abbrev peers : Peers
peers = record {
  is_established = λ p. if p == 7 then true else p == 8;
  direct_relay = λ p. if p == 7 then 8 else 0;
}

abbrev table : List EthEntry
table =
    (record { addr = mac 1; peer = 7; timeout = 50 })
    ∷ (record { addr = mac 4; peer = 8; timeout = 500 })
    ∷ (record { addr = mac 9; peer = 7; timeout = 60 })
    ∷ []

table-IsTable : IsTable table
table-IsTable = record { macs = omega arith; ascending = omega arith }

program : Unit {0}
unfolding find_by_eth_addr find_slot by_order eth_addr_cmp memcmp peer_at eth_addr_add update renew
    eth_addr_cleanup eth_addr_reset compact
program = tt

found : find_by_eth_addr table (mac 9) ≡ some 7
unfolding program
found = refl

missed : find_by_eth_addr table (mac 5) ≡ none
unfolding program
missed = refl

cleaned : eth_addr_cleanup 60 table ≡ (record { addr = mac 4; peer = 8; timeout = 500 }) ∷ []
unfolding program
cleaned = refl

find_by_eth_addr-lookup_example :
    find_by_eth_addr table (mac 4) ≡ peer_of (lookup (value (mac 4)) table)
find_by_eth_addr-lookup_example = find_by_eth_addr-lookup (mac 4) table-IsTable (omega arith)

eth_addr_add-lookup_example :
    (t' : List EthEntry) × (owner : ℕ) × (eth_addr_add peers 100 table 8 (mac 9) ≡ some t')
    × IsTable t'
    × Owner peers 8 (lookup (value (mac 9)) table) owner
    × (lookup (value (mac 9)) t' ≡ (
        if value (mac 9) == value (mac 9)
        then some (record { addr = mac 9; peer = owner; timeout = 300100 })
        else lookup (value (mac 9)) table))
eth_addr_add-lookup_example =
    eth_addr_add-lookup peers 100 8 (mac 9) (value (mac 9)) table-IsTable (omega arith) (inr refl)

eth_addr_cleanup-lookup_example :
    IsTable (eth_addr_cleanup 55 table)
    × (lookup (value (mac 1)) (eth_addr_cleanup 55 table)
        ≡ unless_gone (λ e. timed_out 55 e.timeout) (lookup (value (mac 1)) table))
eth_addr_cleanup-lookup_example = eth_addr_cleanup-lookup 55 (value (mac 1)) table-IsTable
