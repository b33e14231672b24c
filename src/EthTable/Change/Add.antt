-- ===== src/EthTable/Change/Add.antt =====
-- fastd_peer_eth_addr_add of src/peer.c changes one entry of the map.
use fastd.Base.{
  ℕ, ◌+◌, ◌<◌, ◌≡◌, ◌≢◌, ◌⊎◌, refl, sym, ap, subst, ◌∙◌, Bool, true, false, not, ◌&&◌, Bool-cases,
  inl, inr, Option, none, some, List, [], ◌∷◌, ◌++◌, ◌==◌, if◌then◌else◌, arith, length, All, take,
  drop, set, suc_add, take-append-drop, zero, suc,
}
use fastd.Discovery.{EthAddr, EthEntry}
use fastd.Method.Nonce.{value}
use fastd.EthTable.{
  Peers, null, eth_addr_stale_time, Slot, at, before, entry, find_slot, renew, update, eth_addr_add,
}
use fastd.EthTable.Order.{IsMac, key, IsAscending, IsTable, Below, Above}
use fastd.EthTable.Search.{split-at, around, whole-IsSlot, IsSlot}
use fastd.EthTable.Change.{lookup, lookup-here, lookup-skip, lookup-at, lookup-before}

set-split {ℓ} :
    {A : Type ℓ} (t : List A) (i : ℕ) (v : A)
    → i < length t
    → set t i v ≡ take i t ++ (v ∷ drop (i + 1) t)
set-split [] i v h = absurd (omega arith)
set-split (x ∷ t) zero v h = refl
set-split (x ∷ t) (suc i) v h = rw (suc_add i 1) (ap (λ u. x ∷ u) (set-split t i v (omega arith)))

All-remove {ℓ κ} :
    {A : Type ℓ} (P : A → Type κ) (xs : List A) (e : A) (ys : List A)
    → All P (xs ++ (e ∷ ys))
    → All P (xs ++ ys)
All-remove P [] e ys h = h.1
All-remove P (x ∷ xs) e ys h = (h.0, All-remove P xs e ys h.1)

All-insert {ℓ κ} :
    {A : Type ℓ} (P : A → Type κ) (xs : List A) (e : A) (ys : List A)
    → P e
    → All P (xs ++ ys)
    → All P (xs ++ (e ∷ ys))
All-insert P [] e ys p h = (p, h)
All-insert P (x ∷ xs) e ys p h = (h.0, All-insert P xs e ys p h.1)

IsAscending-remove :
    (xs : List EthEntry) (e : EthEntry) (ys : List EthEntry)
    → IsAscending (xs ++ (e ∷ ys))
    → IsAscending (xs ++ ys)
IsAscending-remove [] e ys h = h.1
IsAscending-remove (x ∷ xs) e ys h =
    (All-remove (λ f. key x < key f) xs e ys h.0, IsAscending-remove xs e ys h.1)

IsAscending-insert :
    (xs : List EthEntry) (e : EthEntry) (ys : List EthEntry)
    → Below (key e) xs
    → Above (key e) ys
    → IsAscending (xs ++ ys)
    → IsAscending (xs ++ (e ∷ ys))
IsAscending-insert [] e ys below above h = (above, h)
IsAscending-insert (x ∷ xs) e ys below above h = (
  All-insert (λ f. key x < key f) xs e ys below.0 h.0,
  IsAscending-insert xs e ys below.1 above h.1,
)

-- A new entry between the smaller and the larger ones.
pub IsTable-insert :
    (xs : List EthEntry) (e : EthEntry) (ys : List EthEntry)
    → IsMac e.addr
    → Below (key e) xs
    → Above (key e) ys
    → IsTable (xs ++ ys)
    → IsTable (xs ++ (e ∷ ys))
IsTable-insert xs e ys m below above h = record {
  macs = All-insert (λ f. IsMac f.addr) xs e ys m h.macs;
  ascending = IsAscending-insert xs e ys below above h.ascending;
}

IsTable-remove :
    (xs : List EthEntry) (e : EthEntry) (ys : List EthEntry)
    → IsTable (xs ++ (e ∷ ys))
    → IsTable (xs ++ ys)
IsTable-remove xs e ys h = record {
  macs = All-remove (λ f. IsMac f.addr) xs e ys h.macs;
  ascending = IsAscending-remove xs e ys h.ascending;
}

-- The map with one entry changed.
lookup-insert :
    (k : ℕ) (xs : List EthEntry) (e : EthEntry) (ys : List EthEntry)
    → Below (key e) xs
    → lookup k (xs ++ (e ∷ ys)) ≡ (if key e == k then some e else lookup k (xs ++ ys))
lookup-insert k xs e ys below = elim (Bool-cases (key e == k)) [
  | inl same ↦
      let f : key e ≡ k = ground arith in
      rw same (lookup-here k xs e ys (subst (λ n. Below n xs) f below) f)
  | inr other ↦ rw other (lookup-skip k xs e ys other)
]

-- What `update` makes of the entry of an address.
abbrev pub learned : Peers → ℕ → ℕ → EthAddr → Option EthEntry → EthEntry
learned ps now peer addr none = record {
  addr = addr;
  peer = peer;
  timeout = now + eth_addr_stale_time;
}
learned ps now peer addr (some e) = renew ps now peer e

abbrev Learns : Peers → ℕ → ℕ → EthAddr → List EthEntry → ℕ → List EthEntry → Type 0
Learns ps now peer addr t k t' =
    IsTable t'
    × (lookup k t' ≡ (
        if value addr == k
        then some (learned ps now peer addr (lookup (value addr) t))
        else lookup k t))

addr-renew : (ps : Peers) (now peer : ℕ) (e : EthEntry) → (renew ps now peer e).addr ≡ e.addr
unfolding renew
addr-renew ps now peer e =
    kept (not (e.peer == null) && (ps.direct_relay e.peer == peer && ps.is_established e.peer))
  where
    kept :
        (c : Bool)
        → (if c
            then record e { timeout = now + eth_addr_stale_time }
            else record e { peer = peer; timeout = now + eth_addr_stale_time }).addr
          ≡ e.addr
    kept true = refl
    kept false = refl

-- The table with the entry `e` at the place of an address, where `xs` and `ys` are the others.
placed :
    {t' : List EthEntry} (t : List EthEntry) (k j : ℕ) (xs : List EthEntry) (e : EthEntry)
    (ys : List EthEntry)
    → key e ≡ j
    → t' ≡ xs ++ (e ∷ ys)
    → Below j xs
    → ((j == k) ≡ false → lookup k t ≡ lookup k (xs ++ ys))
    → lookup k t' ≡ (if j == k then some e else lookup k t)
placed t k j xs e ys same split below others =
    ap (lookup k) split
    ∙ lookup-insert k xs e ys (subst (λ n. Below n xs) (sym same) below)
    ∙ ap (λ n. if n == k then some e else lookup k (xs ++ ys)) same
    ∙ chosen (j == k) refl
  where
    chosen :
        (c : Bool)
        → (j == k) ≡ c
        → (if c then some e else lookup k (xs ++ ys)) ≡ (if c then some e else lookup k t)
    chosen true f = refl
    chosen false f = sym (others f)

module _ (ps : Peers) (now peer : ℕ) {t : List EthEntry} (addr : EthAddr) (h : IsTable t)
    (m : IsMac addr) (k : ℕ) where
  Learns-at :
      (i : ℕ)
      → IsSlot t addr (at i)
      → Learns ps now peer addr t k (update ps now peer addr t (at i))
  unfolding update
  Learns-at i s =
      let xs = take i t in
      let ys = drop (i + 1) t in
      let e = renew ps now peer (entry t i) in
      let cut = split-at t i _ s.0 in
      let same = ap value (addr-renew ps now peer (entry t i) ∙ s.1) in
      let old = ap value s.1 in
      let (below, above) = around h i s.0 in
      let below' = subst (λ n. Below n xs) old below in
      let above' = subst (λ n. Above n ys) old above in
      let split = set-split t i e s.0 in
      let rest = IsTable-remove xs (entry t i) ys (subst IsTable cut h) in
      (
        subst IsTable (sym split) (
            IsTable-insert xs e ys (subst IsMac (sym (addr-renew ps now peer (entry t i) ∙ s.1)) m)
              (subst (λ n. Below n xs) (sym same) below')
              (subst (λ n. Above n ys) (sym same) above') rest),
        placed t k (value addr) xs e ys same split below'
              (λ f. ap (lookup k) cut ∙ lookup-skip k xs (entry t i) ys (rw old f))
            ∙ rw (lookup-at i h s) refl,
      )

  Learns-before :
      (i : ℕ)
      → IsSlot t addr (before i)
      → Learns ps now peer addr t k (update ps now peer addr t (before i))
  unfolding update
  Learns-before i s =
      let e = learned ps now peer addr none in
      let whole = take-append-drop i t in
      (
        IsTable-insert (take i t) e (drop i t) m s.1 s.2 (subst IsTable (sym whole) h),
        placed t k (value addr) (take i t) e (drop i t) refl refl s.1
              (λ f. ap (lookup k) (sym whole))
            ∙ rw (lookup-before t addr i s) refl,
      )

  Learns-slot :
      (s : Slot) → IsSlot t addr s → Learns ps now peer addr t k (update ps now peer addr t s)
  Learns-slot (at i) s = Learns-at i s
  Learns-slot (before i) s = Learns-before i s

-- The traffic of a peer comes through the new one: the peer is established, and the new one is the relay
-- of its direct connection. For the own side (NULL) this is an established peer without such a relay.
abbrev pub IsRelayed : Peers → ℕ → ℕ → Type 0
IsRelayed ps old peer = (old ≢ null) × (ps.is_established old ≡ true) × (ps.direct_relay old ≡ peer)

-- The peer that an address belongs to after it was seen from `peer`.
pub data Owner (ps : Peers) (peer : ℕ) (old : Option EthEntry) (owner : ℕ) : Type 0 where
  fresh : old ≡ none → owner ≡ peer → Owner ps peer old owner
  kept :
      (e : EthEntry)
      → old ≡ some e
      → IsRelayed ps e.peer peer
      → owner ≡ e.peer
      → Owner ps peer old owner
  moved :
      (e : EthEntry)
      → old ≡ some e
      → ¬ IsRelayed ps e.peer peer
      → owner ≡ peer
      → Owner ps peer old owner

renew-chosen :
    (ps : Peers) (now peer : ℕ) (e : EthEntry) (c : Bool)
    → (not (e.peer == null) && (ps.direct_relay e.peer == peer && ps.is_established e.peer)) ≡ c
    → renew ps now peer e ≡ (
        if c
        then record e { timeout = now + eth_addr_stale_time }
        else record e { peer = peer; timeout = now + eth_addr_stale_time })
unfolding renew
renew-chosen ps now peer e c h = rw h refl

renewed :
    (ps : Peers) (now peer : ℕ) (addr : EthAddr) (old : Option EthEntry) (e : EthEntry)
    → old ≡ some e
    → e.addr ≡ addr
    → (owner : ℕ) × Owner ps peer old owner
      × (learned ps now peer addr (some e)
          ≡ record { addr = addr; peer = owner; timeout = now + eth_addr_stale_time })
renewed ps now peer addr old e h same =
    elim (Bool-cases
      (not (e.peer == null) && (ps.direct_relay e.peer == peer && ps.is_established e.peer))) [
        | inl relayed ↦ (
          e.peer,
          kept e h (λ f. ground (arith, f), ground arith, ground arith) refl,
          renew-chosen ps now peer e true relayed ∙ ap (with_addr e.peer) same,
        )
        | inr other ↦ (
          peer,
          moved e h (λ r. ground (arith, r.0, r.1, r.2)) refl,
          renew-chosen ps now peer e false other ∙ ap (with_addr peer) same,
        )
      ]
  where
    with_addr : ℕ → EthAddr → EthEntry
    with_addr owner a = record { addr = a; peer = owner; timeout = now + eth_addr_stale_time }

owned :
    (ps : Peers) (now peer : ℕ) (t : List EthEntry) (addr : EthAddr) (s : Slot)
    → IsTable t
    → IsSlot t addr s
    → (owner : ℕ) × Owner ps peer (lookup (value addr) t) owner
      × (learned ps now peer addr (lookup (value addr) t)
          ≡ record { addr = addr; peer = owner; timeout = now + eth_addr_stale_time })
owned ps now peer t addr (at i) h s =
    let found = lookup-at i h s in
    let (owner, o, e) = renewed ps now peer addr (lookup (value addr) t) (entry t i) found s.1 in
    (owner, o, ap (learned ps now peer addr) found ∙ e)
owned ps now peer t addr (before i) h s =
    let found = lookup-before t addr i s in
    (peer, fresh found refl, ap (learned ps now peer addr) found)

-- fastd_peer_eth_addr_add for the own side (NULL) or an established peer keeps the table in strict
-- order, and changes nothing but the entry of the address, which lasts five minutes from now. A new
-- address gets the peer. A known one too, unless the peer that it has is established and has the new
-- one as its direct relay, or, if the new one is NULL, has no direct relay: then it keeps its peer.
pub eth_addr_add-lookup :
    {t : List EthEntry} (ps : Peers) (now peer : ℕ) (addr : EthAddr) (k : ℕ)
    → IsTable t
    → IsMac addr
    → (peer ≡ null) ⊎ (ps.is_established peer ≡ true)
    → (t' : List EthEntry) × (owner : ℕ) × (eth_addr_add ps now t peer addr ≡ some t')
      × IsTable t'
      × Owner ps peer (lookup (value addr) t) owner
      × (lookup k t' ≡ (
          if value addr == k
          then some (record { addr = addr; peer = owner; timeout = now + eth_addr_stale_time })
          else lookup k t))
unfolding eth_addr_add
eth_addr_add-lookup {t} ps now peer addr k h m allowed =
    let s = find_slot t addr (length t) 0 (length t) in
    let slot = whole-IsSlot addr h m in
    let (table, found) = Learns-slot ps now peer addr h m k s slot in
    let (owner, o, e) = owned ps now peer t addr s h slot in
    (
      update ps now peer addr t s,
      owner,
      rw (may_add allowed) refl,
      table,
      o,
      found ∙ ap (λ x. if value addr == k then some x else lookup k t) e,
    )
  where
    may_add :
        (peer ≡ null) ⊎ (ps.is_established peer ≡ true)
        → (not (peer == null) && not (ps.is_established peer)) ≡ false
    may_add (inl e) = rw e refl
    may_add (inr e) = rw e (no_veto (not (peer == null)))
      where
        no_veto : (c : Bool) → (c && false) ≡ false
        no_veto true = refl
        no_veto false = refl
