-- ===== src/EthTable/Change.antt =====
-- The table of Ethernet addresses of src/peer.c as a finite map.
pub mod Add
pub mod Clean
use fastd.Base.{
  ℕ, zero, suc, ◌+◌, ◌≤◌, ◌<◌, ◌≡◌, ◌≢◌, refl, sym, ap, subst, ◌∙◌, Bool, true, false, Bool-cases,
  inl, inr, Option, none, some, ◌>>=◌, List, [], ◌∷◌, ◌++◌, ◌==◌, if◌then◌else◌, arith, length, All,
  take, drop, get_or, set, suc_add, take-append-drop,
}
use fastd.Discovery.{EthAddr, EthEntry}
use fastd.Method.Nonce.{value, All-map}
use fastd.EthTable.{Slot, at, before, entry, find_slot, peer_at, find_by_eth_addr}
use fastd.EthTable.Order.{IsMac, key, IsAscending, IsTable, Below, Above, All-middle}
use fastd.EthTable.Search.{split-at, around, whole-IsSlot, IsSlot}

-- The entry of an address, which is given as a number.
abbrev pub lookup : ℕ → List EthEntry → Option EthEntry
lookup k [] = none
lookup k (e ∷ t) = if key e == k then some e else lookup k t

pub lookup-Below : (k : ℕ) (xs ys : List EthEntry) → Below k xs → lookup k (xs ++ ys) ≡ lookup k ys
lookup-Below k [] ys h = refl
lookup-Below k (x ∷ xs) ys h =
    let other : (key x == k) ≡ false = ground (arith, h.0) in rw other (lookup-Below k xs ys h.1)

pub lookup-Above : (k : ℕ) (ys : List EthEntry) → Above k ys → lookup k ys ≡ none
lookup-Above k [] h = refl
lookup-Above k (y ∷ ys) h =
    let other : (key y == k) ≡ false = ground (arith, h.0) in rw other (lookup-Above k ys h.1)

pub lookup-here :
    (k : ℕ) (xs : List EthEntry) (e : EthEntry) (ys : List EthEntry)
    → Below k xs
    → key e ≡ k
    → lookup k (xs ++ (e ∷ ys)) ≡ some e
lookup-here k xs e ys h same =
    let here : (key e == k) ≡ true = ground (arith, same) in
    lookup-Below k xs (e ∷ ys) h ∙ rw here refl

pub lookup-skip :
    (k : ℕ) (xs : List EthEntry) (e : EthEntry) (ys : List EthEntry)
    → (key e == k) ≡ false
    → lookup k (xs ++ (e ∷ ys)) ≡ lookup k (xs ++ ys)
lookup-skip k [] e ys other = rw other refl
lookup-skip k (x ∷ xs) e ys other =
    ap (λ o. if key x == k then some x else o) (lookup-skip k xs e ys other)

pub peer_of : Option EthEntry → Option ℕ
peer_of none = none
peer_of (some e) = some e.peer

-- Where a slot is, the table is cut.
pub lookup-at :
    {t : List EthEntry} {addr : EthAddr} (i : ℕ)
    → IsTable t
    → IsSlot t addr (at i)
    → lookup (value addr) t ≡ some (entry t i)
lookup-at {t} {addr} i h s =
    let same = ap value s.1 in
    ap (lookup (value addr)) (split-at t i _ s.0)
    ∙ lookup-here (value addr) (take i t) (entry t i) (drop (i + 1) t)
        (subst (λ k. Below k (take i t)) same (around h i s.0).0) same

pub lookup-before :
    (t : List EthEntry) (addr : EthAddr) (i : ℕ)
    → IsSlot t addr (before i)
    → lookup (value addr) t ≡ none
lookup-before t addr i s =
    ap (lookup (value addr)) (sym (take-append-drop i t))
    ∙ lookup-Below (value addr) (take i t) (drop i t) s.1
    ∙ lookup-Above (value addr) (drop i t) s.2

peer_at-lookup :
    (t : List EthEntry) (addr : EthAddr) (s : Slot)
    → IsTable t
    → IsSlot t addr s
    → peer_at t s ≡ peer_of (lookup (value addr) t)
unfolding peer_at peer_of
peer_at-lookup t addr (at i) h s = rw (lookup-at i h s) refl
peer_at-lookup t addr (before i) h s = rw (lookup-before t addr i s) refl

-- The search of a table in order ends after as many rounds as there are entries, at most, and answers
-- as a search through all entries does.
pub find_by_eth_addr-lookup :
    {t : List EthEntry} (addr : EthAddr)
    → IsTable t
    → IsMac addr
    → find_by_eth_addr t addr ≡ peer_of (lookup (value addr) t)
unfolding find_by_eth_addr
find_by_eth_addr-lookup {t} addr h m = peer_at-lookup t addr _ h (whole-IsSlot addr h m)
