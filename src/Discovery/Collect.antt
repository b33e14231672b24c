-- ===== src/Discovery/Collect.antt =====
-- src/discovery.c: the Ethernet addresses that are announced of a peer.
use fastd.Base.{
  ℕ, ◌≤◌, ◌<◌, ◌≡◌, ◌≢◌, ◌⊎◌, inl, inr, refl, true, false, List, [], ◌∷◌, ◌++◌, arith, ◌==◌, leb,
  ltb, length, All, All-append, length-append, Bool-cases,
}
use fastd.Method.Nonce.{Distinct}
use fastd.Handshake.Methods.Strings.{str_eq_iff}
use fastd.Discovery.{
  EthAddr, EthEntry, eth_addr_equal, is_unicast, known_mac, add_mac, collect_loop, collect_macs,
}

-- A list of Ethernet addresses that can be announced.
pub record IsCollected (macs : List EthAddr) : Type 0 where
  pub distinct : Distinct macs
  pub unicast : All (λ m. is_unicast m ≡ true) macs
  pub bounded : length macs ≤ 16

known_mac-false :
    (macs : List EthAddr) (mac : EthAddr) → known_mac macs mac ≡ false → All (λ m. m ≢ mac) macs
unfolding eth_addr_equal
known_mac-false [] mac h = tt
known_mac-false (m ∷ ms) mac h =
    let iff = str_eq_iff m mac in
    ((λ e. ground (arith, iff)), known_mac-false ms mac (ground arith))

Distinct-snoc :
    (macs : List EthAddr) (mac : EthAddr)
    → Distinct macs
    → All (λ m. m ≢ mac) macs
    → Distinct (macs ++ (mac ∷ []))
Distinct-snoc [] mac d h = (tt, tt)
Distinct-snoc (m ∷ ms) mac d h =
    (All-append (λ y. m ≢ y) ms (mac ∷ []) d.0 (h.0, tt), Distinct-snoc ms mac d.1 h.1)

-- What `add_mac` does: nothing, or a new unicast address at the end.
add_mac-cases :
    (macs : List EthAddr) (mac : EthAddr)
    → (add_mac macs mac ≡ macs)
      ⊎ ((add_mac macs mac ≡ macs ++ (mac ∷ []))
          × (is_unicast mac ≡ true)
          × (known_mac macs mac ≡ false)
          × (length macs < 16))
unfolding add_mac
add_mac-cases macs mac = elim (Bool-cases (is_unicast mac)) [
  | inr e ↦ inl (rw e refl)
  | inl u ↦ elim (Bool-cases (known_mac macs mac)) [
    | inl e ↦ inl (rw (u, e) refl)
    | inr e ↦ elim (Bool-cases (ltb (length macs) 16)) [
      | inl l ↦ inr (rw (u, e, l) (refl, refl, refl, ground (arith, l)))
      | inr l ↦ inl (rw (u, e, l) refl)
    ]
  ]
]

add_mac-IsCollected :
    (macs : List EthAddr) (mac : EthAddr) → IsCollected macs → IsCollected (add_mac macs mac)
add_mac-IsCollected macs mac h = elim (add_mac-cases macs mac) [
  | inl e ↦ rw e h
  | inr (e, u, k, l) ↦ rw e record {
    distinct = Distinct-snoc macs mac h.distinct (known_mac-false macs mac k);
    unicast = All-append (λ m. is_unicast m ≡ true) macs (mac ∷ []) h.unicast (u, tt);
    bounded = omega (arith, length-append macs (mac ∷ []));
  }
]

add_mac-All {κ} :
    (P : EthAddr → Type κ) (macs : List EthAddr) (mac : EthAddr)
    → All P macs
    → P mac
    → All P (add_mac macs mac)
add_mac-All P macs mac h p = elim (add_mac-cases macs mac) [
  | inl e ↦ rw e h
  | inr (e, u, k, l) ↦ rw e (All-append P macs (mac ∷ []) h (p, tt))
]

-- Some entry of the peer that has not timed out has the address.
abbrev pub IsLive : ℕ → ℕ → List EthEntry → EthAddr → Type 0
IsLive now peer [] m = ⊥
IsLive now peer (e ∷ es) m =
    ((e.addr ≡ m) × (e.peer ≡ peer) × (now < e.timeout)) ⊎ IsLive now peer es m

module _ (now peer : ℕ) where
  -- The three ways of one round.
  round-cases :
      (e : EthEntry) (es : List EthEntry) (macs : List EthAddr)
      → (collect_loop now peer (e ∷ es) macs ≡ collect_loop now peer es macs)
        ⊎ ((collect_loop now peer (e ∷ es) macs ≡ collect_loop now peer es (add_mac macs e.addr))
            × (e.peer ≡ peer)
            × (now < e.timeout))
  unfolding collect_loop
  round-cases e es macs = elim (Bool-cases (e.peer == peer)) [
    | inr p ↦ inl (rw p refl)
    | inl p ↦ elim (Bool-cases (leb e.timeout now)) [
      | inl t ↦ inl (rw (p, t) refl)
      | inr t ↦ inr (rw (p, t) (refl, ground (arith, p), ground (arith, t)))
    ]
  ]

  collect_loop-IsCollected :
      (es : List EthEntry) (macs : List EthAddr)
      → IsCollected macs
      → IsCollected (collect_loop now peer es macs)
  collect_loop-IsCollected [] macs h = unfold collect_loop in h
  collect_loop-IsCollected (e ∷ es) macs h = elim (round-cases e es macs) [
    | inl eq ↦ rw eq (collect_loop-IsCollected es macs h)
    | inr (eq, p, t) ↦
        rw eq
          (collect_loop-IsCollected es (add_mac macs e.addr) (add_mac-IsCollected macs e.addr h))
  ]

  collect_loop-All {κ} :
      (P : EthAddr → Type κ) (es : List EthEntry) (macs : List EthAddr)
      → All P macs
      → ((m : EthAddr) → IsLive now peer es m → P m)
      → All P (collect_loop now peer es macs)
  collect_loop-All P [] macs h live = unfold collect_loop in h
  collect_loop-All P (e ∷ es) macs h live = elim (round-cases e es macs) [
    | inl eq ↦ rw eq (collect_loop-All P es macs h (λ m l. live m (inr l)))
    | inr (eq, p, t) ↦ rw eq (
        collect_loop-All P es (add_mac macs e.addr)
          (add_mac-All P macs e.addr h (live e.addr (inl (refl, p, t)))) (λ m l. live m (inr l)))
  ]

-- The addresses that are announced of a peer are different unicast addresses, at most 16, and each is
-- the source of the packet at hand or stands in an entry of the peer that has not timed out.
pub collect_macs-IsCollected :
    (now : ℕ) (entries : List EthEntry) (peer : ℕ) (source_mac : EthAddr)
    → IsCollected (collect_macs now entries peer source_mac)
      × All
          (λ m. (m ≡ source_mac) ⊎ IsLive now peer entries m)
          (collect_macs now entries peer source_mac)
unfolding collect_macs
collect_macs-IsCollected now entries peer source_mac =
    let none_yet : IsCollected [] = record { distinct = tt; unicast = tt; bounded = omega arith } in
    let P : EthAddr → Type 0 = λ m. (m ≡ source_mac) ⊎ IsLive now peer entries m in
    (
      collect_loop-IsCollected now peer entries (add_mac [] source_mac)
          (add_mac-IsCollected [] source_mac none_yet),
      collect_loop-All now peer P entries (add_mac [] source_mac)
          (add_mac-All P [] source_mac tt (inl refl)) (λ m l. inr l),
    )
