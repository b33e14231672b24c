-- ===== src/EthTable/Search.antt =====
-- The binary search of src/peer.c finds the one place of an address in the table.
use Prim.Native.Nat.{Ordering}
use fastd.Base.{
  ℕ, zero, suc, ◌+◌, ◌-◌, ◌/◌, ◌≤◌, ◌<◌, ◌≡◌, refl, sym, ap, subst, ◌∙◌, true, false, Bool-cases,
  inl, inr, List, [], ◌∷◌, ◌++◌, arith, length, All, take, drop, get_or, ltb, suc_add, drop-length,
  All-append, ltb→lt,
}
use fastd.Discovery.{EthAddr, EthEntry}
use fastd.Method.Nonce.{value, All-map}
use fastd.EthTable.{Slot, at, before, entry, eth_addr_cmp, by_order, find_slot}
use fastd.EthTable.Order.{
  Tells, memcmp-Tells, IsMac, key, IsAscending, IsTable, Below, Above, All-middle,
  IsAscending-middle,
}

-- A list cut at an entry.
pub split-at {ℓ} :
    {A : Type ℓ} (t : List A) (i : ℕ) (d : A)
    → i < length t
    → t ≡ take i t ++ (get_or t i d ∷ drop (i + 1) t)
split-at [] i d h = absurd (omega arith)
split-at (x ∷ t) zero d h = refl
split-at (x ∷ t) (suc i) d h = rw (suc_add i 1) (ap (λ u. x ∷ u) (split-at t i d (omega arith)))

-- Where an address is, or belongs.
abbrev pub IsSlot : List EthEntry → EthAddr → Slot → Type 0
IsSlot t addr (at i) = (i < length t) × ((entry t i).addr ≡ addr)
IsSlot t addr (before i) =
    (i ≤ length t) × Below (value addr) (take i t) × Above (value addr) (drop i t)

module _ {t : List EthEntry} (h : IsTable t) where
  pub entry-IsMac : (i : ℕ) → i < length t → IsMac (entry t i).addr
  entry-IsMac i lt =
      All-middle (λ e. IsMac e.addr) (take i t) (entry t i) (drop (i + 1) t)
        (subst (All (λ e. IsMac e.addr)) (split-at t i _ lt) h.macs)

  pub around :
      (i : ℕ)
      → i < length t
      → Below (key (entry t i)) (take i t) × Above (key (entry t i)) (drop (i + 1) t)
  around i lt =
      IsAscending-middle (take i t) (entry t i) (drop (i + 1) t)
        (subst IsAscending (split-at t i _ lt) h.ascending)

pub drop-at {ℓ} :
    {A : Type ℓ} (t : List A) (i : ℕ) (d : A)
    → i < length t
    → drop i t ≡ get_or t i d ∷ drop (i + 1) t
drop-at [] i d h = absurd (omega arith)
drop-at (x ∷ t) zero d h = refl
drop-at (x ∷ t) (suc i) d h = rw (suc_add i 1) (drop-at t i d (omega arith))

pub take-at {ℓ} :
    {A : Type ℓ} (t : List A) (i : ℕ) (d : A)
    → i < length t
    → take (i + 1) t ≡ take i t ++ (get_or t i d ∷ [])
take-at [] i d h = absurd (omega arith)
take-at (x ∷ t) zero d h = refl
take-at (x ∷ t) (suc i) d h = rw (suc_add i 1) (ap (λ u. x ∷ u) (take-at t i d (omega arith)))

-- The place in the middle of a range, and the cases of a round.
abbrev mid : ℕ → ℕ → ℕ
mid lo hi = lo + (hi - lo) / 2

module _ (t : List EthEntry) (addr : EthAddr) (fuel lo hi : ℕ) where
  slot-none : ltb lo hi ≡ false → find_slot t addr (suc fuel) lo hi ≡ before lo
  unfolding find_slot
  slot-none e = rw e refl

  slot-eq :
      ltb lo hi ≡ true
      → eth_addr_cmp addr (entry t (mid lo hi)).addr ≡ Ordering.eq
      → find_slot t addr (suc fuel) lo hi ≡ at (mid lo hi)
  unfolding find_slot by_order
  slot-eq e f = rw (e, f) refl

  slot-lt :
      ltb lo hi ≡ true
      → eth_addr_cmp addr (entry t (mid lo hi)).addr ≡ Ordering.lt
      → find_slot t addr (suc fuel) lo hi ≡ find_slot t addr fuel lo (mid lo hi)
  unfolding find_slot by_order
  slot-lt e f = rw (e, f) refl

  slot-gt :
      ltb lo hi ≡ true
      → eth_addr_cmp addr (entry t (mid lo hi)).addr ≡ Ordering.gt
      → find_slot t addr (suc fuel) lo hi ≡ find_slot t addr fuel (mid lo hi + 1) hi
  unfolding find_slot by_order
  slot-gt e f = rw (e, f) refl

module _ {t : List EthEntry} (h : IsTable t) (addr : EthAddr) (m : IsMac addr) where
  compared :
      (i : ℕ) → i < length t → Tells (eth_addr_cmp addr (entry t i).addr) 0 addr (entry t i).addr
  unfolding eth_addr_cmp
  compared i lt =
      let n = entry-IsMac h i lt in memcmp-Tells 0 addr (entry t i).addr (m.0 ∙ sym n.0) m.1 n.1

  Above-middle :
      (i : ℕ) → i < length t → value addr < key (entry t i) → Above (value addr) (drop i t)
  Above-middle i lt less =
      subst (Above (value addr)) (sym (drop-at t i _ lt))
        (less, All-map (drop (i + 1) t) (λ e k. omega (arith, k, less)) (around h i lt).1)

  Below-middle :
      (i : ℕ) → i < length t → key (entry t i) < value addr → Below (value addr) (take (i + 1) t)
  Below-middle i lt less = subst (Below (value addr)) (sym (take-at t i _ lt)) (
      All-append (λ e. key e < value addr) (take i t) (entry t i ∷ [])
        (All-map (take i t) (λ e k. omega (arith, k, less)) (around h i lt).0) (less, tt))

  round :
      (fuel lo hi : ℕ)
      → ltb lo hi ≡ true
      → mid lo hi < length t
      → (Above (value addr) (drop (mid lo hi) t)
          → IsSlot t addr (find_slot t addr fuel lo (mid lo hi)))
      → (Below (value addr) (take (mid lo hi + 1) t)
          → IsSlot t addr (find_slot t addr fuel (mid lo hi + 1) hi))
      → (o : Ordering) → eth_addr_cmp addr (entry t (mid lo hi)).addr ≡ o
      → Tells o 0 addr (entry t (mid lo hi)).addr
      → IsSlot t addr (find_slot t addr (suc fuel) lo hi)
  round fuel lo hi left lt lower upper Ordering.eq e w =
      subst (IsSlot t addr) (sym (slot-eq t addr fuel lo hi left e)) (lt, sym w)
  round fuel lo hi left lt lower upper Ordering.lt e w =
      subst (IsSlot t addr) (sym (slot-lt t addr fuel lo hi left e))
        (lower (Above-middle (mid lo hi) lt w))
  round fuel lo hi left lt lower upper Ordering.gt e w =
      subst (IsSlot t addr) (sym (slot-gt t addr fuel lo hi left e))
        (upper (Below-middle (mid lo hi) lt w))

  -- Each round keeps the entries before `lo` below the address, and those from `hi` on above it.
  pub find_slot-IsSlot :
      (fuel lo hi : ℕ)
      → lo ≤ hi
      → hi ≤ length t
      → hi - lo ≤ fuel
      → Below (value addr) (take lo t)
      → Above (value addr) (drop hi t)
      → IsSlot t addr (find_slot t addr fuel lo hi)
  find_slot-IsSlot zero lo hi a b c below above =
      let e : hi ≡ lo = omega arith in
      unfold find_slot in (omega arith, below, subst (λ i. Above (value addr) (drop i t)) e above)
  find_slot-IsSlot (suc fuel) lo hi a b c below above = elim (Bool-cases (ltb lo hi)) [
    | inl left ↦
        let lt = ltb→lt lo hi left in
        let inside : mid lo hi < length t = omega (arith, lt) in
        round fuel lo hi left inside
          (λ above'.
            find_slot-IsSlot fuel lo (mid lo hi) (omega arith) (omega (arith, lt))
              (omega (arith, lt)) below above')
          (λ below'.
            find_slot-IsSlot fuel (mid lo hi + 1) hi (omega (arith, lt)) b (omega (arith, lt))
              below' above)
          (eth_addr_cmp addr (entry t (mid lo hi)).addr) refl (compared (mid lo hi) inside)
    | inr none_left ↦
        let e : hi ≡ lo = ground arith in
        subst (IsSlot t addr) (sym (slot-none t addr fuel lo hi none_left))
          (omega (arith, e), below, subst (λ i. Above (value addr) (drop i t)) e above)
  ]

-- The search of the whole table.
pub whole-IsSlot :
    {t : List EthEntry} (addr : EthAddr)
    → IsTable t
    → IsMac addr
    → IsSlot t addr (find_slot t addr (length t) 0 (length t))
whole-IsSlot {t} addr h m =
    find_slot-IsSlot h addr m (length t) 0 (length t) (omega arith) (omega arith) (omega arith) tt
      (rw (drop-length t) tt)
