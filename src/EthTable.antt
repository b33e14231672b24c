-- ===== src/EthTable.antt =====
-- src/peer.c: the table of Ethernet addresses `ctx.eth_addrs`, which a peer is found in for each packet
-- that a TAP interface sends.
pub mod Order
pub mod Search
pub mod Change
mod Tests
use Prim.Native.Nat.{Ordering, compare}
use fastd.Base.{
  ℕ, zero, suc, ◌+◌, ◌-◌, ◌/◌, Bool, true, false, not, ◌&&◌, Option, none, some, ◌>>=◌, List, [],
  ◌∷◌, ◌++◌, ◌==◌, ltb, if◌then◌else◌, length, get_or, set, take, drop,
}
use fastd.Discovery.{EthAddr, EthEntry}
use fastd.Method.{timed_out}

-- ETH_ADDR_STALE_TIME in milliseconds, and the pointer NULL.
abbrev pub eth_addr_stale_time : ℕ
eth_addr_stale_time = 300000

abbrev pub null : ℕ
null = 0

-- `memcmp` of two strings of the same length.
unfoldable pub memcmp : List ℕ → List ℕ → Ordering
memcmp [] ys = Ordering.eq
memcmp (x ∷ xs) [] = Ordering.eq
memcmp (x ∷ xs) (y ∷ ys) = elim (compare x y) [
  | Ordering.lt ↦ Ordering.lt
  | Ordering.eq ↦ memcmp xs ys
  | Ordering.gt ↦ Ordering.gt
]

unfoldable pub eth_addr_cmp : EthAddr → EthAddr → Ordering
unfolding memcmp
eth_addr_cmp addr1 addr2 = memcmp addr1 addr2

unfoldable pub peer_eth_addr_cmp : EthEntry → EthEntry → Ordering
unfolding eth_addr_cmp
peer_eth_addr_cmp addr1 addr2 = eth_addr_cmp addr1.addr addr2.addr

-- What is known of peers: `fastd_peer_is_established` and the field `direct_relay`.
pub record Peers : Type 0 where
  pub is_established : ℕ → Bool
  pub direct_relay : ℕ → ℕ

-- `VECTOR_INDEX`; the searches stay inside of the table.
abbrev pub entry : List EthEntry → ℕ → EthEntry
entry t i = get_or t i (record { addr = []; peer = null; timeout = 0 })

-- The end of a binary search: the place of the address, or the place where it belongs.
pub data Slot : Type 0 where
  at : ℕ → Slot
  before : ℕ → Slot

-- The three cases of a comparison.
unfoldable pub by_order : Ordering → Slot → Slot → Slot → Slot
by_order Ordering.lt lower here upper = lower
by_order Ordering.eq lower here upper = here
by_order Ordering.gt lower here upper = upper

-- The loop of `fastd_peer_eth_addr_add`, and of `bsearch`. A round halves `max - min`.
unfoldable pub find_slot : List EthEntry → EthAddr → ℕ → ℕ → ℕ → Slot
unfolding eth_addr_cmp by_order
find_slot t addr zero min max = before min
find_slot t addr (suc fuel) min max =
    let cur = min + (max - min) / 2 in
    let lower = find_slot t addr fuel min cur in
    let upper = find_slot t addr fuel (cur + 1) max in
    if ltb min max
    then by_order (eth_addr_cmp addr (entry t cur).addr) lower (at cur) upper
    else before min

-- An address that is known keeps its peer if it has come from the relay of a peer that is established.
unfoldable pub renew : Peers → ℕ → ℕ → EthEntry → EthEntry
renew ps now peer e =
    if not (e.peer == null) && (ps.direct_relay e.peer == peer && ps.is_established e.peer)
    then record e { timeout = now + eth_addr_stale_time }
    else record e { peer = peer; timeout = now + eth_addr_stale_time }

unfoldable pub update : Peers → ℕ → ℕ → EthAddr → List EthEntry → Slot → List EthEntry
unfolding renew
update ps now peer addr t (at cur) = set t cur (renew ps now peer (entry t cur))
update ps now peer addr t (before i) =
    let e : EthEntry = record { addr = addr; peer = peer; timeout = now + eth_addr_stale_time } in
    take i t ++ (e ∷ drop i t)

-- `none` is the end of the process: a peer without a session.
unfoldable pub eth_addr_add : Peers → ℕ → List EthEntry → ℕ → EthAddr → Option (List EthEntry)
unfolding update find_slot
eth_addr_add ps now t peer addr =
    if not (peer == null) && not (ps.is_established peer)
    then none
    else some (update ps now peer addr t (find_slot t addr (length t) 0 (length t)))

unfoldable pub peer_at : List EthEntry → Slot → Option ℕ
peer_at t (at cur) = some (entry t cur).peer
peer_at t (before i) = none

unfoldable pub find_by_eth_addr : List EthEntry → EthAddr → Option ℕ
unfolding peer_at find_slot
find_by_eth_addr t addr = peer_at t (find_slot t addr (length t) 0 (length t))

-- The loops of `fastd_peer_eth_addr_cleanup` and of `reset_peer`, from entry `i` on, where `deleted`
-- entries have been passed over, and `n` are left.
unfoldable pub compact : (EthEntry → Bool) → ℕ → ℕ → ℕ → List EthEntry → List EthEntry
compact gone zero i deleted t = take (length t - deleted) t
compact gone (suc n) i deleted t =
    let passed = gone (entry t i) in
    let moved = if deleted == 0 then t else set t (i - deleted) (entry t i) in
    compact gone n (i + 1) (if passed then deleted + 1 else deleted) (if passed then t else moved)

unfoldable pub eth_addr_cleanup : ℕ → List EthEntry → List EthEntry
unfolding compact
eth_addr_cleanup now t = compact (λ e. timed_out now e.timeout) (length t) 0 0 t

unfoldable pub eth_addr_reset : ℕ → List EthEntry → List EthEntry
unfolding compact
eth_addr_reset peer t = compact (λ e. e.peer == peer) (length t) 0 0 t
