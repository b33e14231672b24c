-- ===== src/Backoff/Again.antt =====
-- src/receive.c: no second handshake to an address until its time is over.
use fastd.Base.{
  ℕ, ◌+◌, ◌-◌, ◌*◌, ◌/◌, ◌≤◌, ◌<◌, ◌≡◌, ◌↔◌, refl, sym, subst, ◌∙◌, Bool, true, false, true≢false,
  some, ◌==◌, if◌then◌else◌, arith, [], ◌∷◌,
}
use fastd.Discovery.{PeerAddress, unspec, in4, in6}
use fastd.Handshake.Methods.Strings.{str_eq_iff}
use fastd.PeerTable.{address_hash, address_equal, is_linklocal}
use fastd.Backoff.{
  unknown_tables, table_interval, min_handshake_interval, HandshakeTimeout, Unknown,
  unknown_hash_entry, unset_port, set_entry, known, unknown, search_loop, backoff_insert,
  backoff_unknown,
}
use fastd.Backoff.Scan.{HasFamily, entry_lem, same-entry, Live, seen, unseen, scan}
use fastd.Backoff.Choice.{FirstFree, free, full, FirstFree-unique, search-FirstFree}

HasFamily-unset_port : (addr a : PeerAddress) → unset_port addr ≡ some a → HasFamily a
unfolding unset_port address_hash
HasFamily-unset_port unspec a e = cc
HasFamily-unset_port (in4 port addr) a e =
    let same : in4 (0 ∷ 0 ∷ []) addr ≡ a = cc in subst HasFamily same (λ seed. (_, refl))
HasFamily-unset_port (in6 port addr scope_id) a e =
    let same : in6 (0 ∷ 0 ∷ []) addr scope_id ≡ a = cc in subst HasFamily same (λ seed. (_, refl))

address_equal_refl : (a : PeerAddress) → address_equal a a ≡ true
unfolding address_equal
address_equal_refl unspec = refl
address_equal_refl (in4 p a) = rw ((str_eq_iff a a).1 refl) ((str_eq_iff p p).1 refl)
address_equal_refl (in6 p a s) =
    let same : (s == s) ≡ true = ground arith in
    rw ((str_eq_iff a a).1 refl, (str_eq_iff p p).1 refl, same) (whichever (is_linklocal a))
  where
    whichever : (c : Bool) → (if c then true else true) ≡ true
    whichever true = refl
    whichever false = refl

-- The entry of an address that a handshake is sent to.
abbrev waiting : ℕ → ℕ → PeerAddress → HandshakeTimeout
waiting now chosen a = record {
  address = a;
  timeout = now + min_handshake_interval - chosen * table_interval;
}

module _ (u : Unknown) (now random : ℕ) (addr a : PeerAddress) (e : unset_port addr ≡ some a) where
  backoff-known :
      search_loop u (now / table_interval) now a unknown_tables 0 unknown_tables ≡ some known
      → backoff_unknown u now random addr ≡ some (true, u)
  unfolding backoff_unknown backoff_insert
  backoff-known f = rw (e, f) refl

  backoff-unknown :
      (empty : ℕ) (p : ℕ × ℕ)
      → search_loop u (now / table_interval) now a unknown_tables 0 unknown_tables
        ≡ some (unknown empty)
      → let chosen = if empty == unknown_tables then random else empty in
        unknown_hash_entry u (now / table_interval) chosen a ≡ some p
        → backoff_unknown u now random addr ≡ some (false, set_entry u p (waiting now chosen a))
  unfolding backoff_unknown backoff_insert
  backoff-unknown empty p f g = rw (e, f, g) refl

-- backoff_unknown answers that no handshake is to be sent exactly if one of the last sixteen slices of
-- time has an entry for the address that waits.
pub backoff_unknown_iff :
    (u : Unknown) (now random : ℕ) (addr a : PeerAddress)
    → unset_port addr ≡ some a
    → (backoff_unknown u now random addr ≡ some (true, u))
      ↔ ((i : ℕ) × (i < unknown_tables) × Live u (now / table_interval) now a i)
backoff_unknown_iff u now random addr a e =
    let f = HasFamily-unset_port addr a e in
    elim (scan f unknown_tables 0 unknown_tables) [
      | seen j h k live r ↦ (λ _. (j, k, live), λ _. backoff-known u now random addr a e r)
      | unseen empty r unlive _ ↦
          let chosen = if empty == unknown_tables then random else empty in
          let (p, g) = entry_lem u (now / table_interval) chosen a f in
          let sends = backoff-unknown u now random addr a e empty p r g in
          (
            λ s. let w : true ≡ false = cc in absurd (true≢false w),
            λ h. absurd (unlive h.0 (omega arith) h.1 h.2),
          )
    ]

set_entry_self :
    (u : Unknown) (p : ℕ × ℕ) (t : HandshakeTimeout) → (set_entry u p t).handshakes p.0 p.1 ≡ t
unfolding set_entry
set_entry_self u p t =
    let same0 : (p.0 == p.0) ≡ true = ground arith in
    let same1 : (p.1 == p.1) ≡ true = ground arith in rw (same0, same1) refl

-- The entry is found again in a later slice, as long as it waits.
Live-again :
    (u : Unknown) (now now' chosen : ℕ) (a : PeerAddress) (p : ℕ × ℕ)
    → unknown_hash_entry u (now / table_interval) chosen a ≡ some p
    → now ≤ now'
    → now' < now + min_handshake_interval - chosen * table_interval
    → (i : ℕ) × (i < unknown_tables)
      × Live (set_entry u p (waiting now chosen a)) (now' / table_interval) now' a i
Live-again u now now' chosen a p e h k =
    let t = waiting now chosen a in
    let u' = set_entry u p t in
    let i = now' / table_interval - now / table_interval + chosen in
    let small : i < unknown_tables = omega (arith, h, k) in
    let new = set_entry_self u p t in
    (
      i,
      small,
      record {
        place = p;
        found =
            sym (
              same-entry u u' (now / table_interval) (now' / table_interval) chosen i a
                (unfold set_entry in refl) (omega (arith, small)) (omega (arith, small))
                (omega (arith, h)))
            ∙ e;
        waits = rw new k;
        same = rw new (address_equal_refl a);
      },
    )

-- The slice that a new entry is put into, where `e` is what the search has found.
chosen-FirstFree :
    (u : Unknown) (base now random e : ℕ) (a : PeerAddress)
    → FirstFree u base now a unknown_tables 0 unknown_tables e
    → FirstFree u base now a unknown_tables 0 random (if e == unknown_tables then random else e)
chosen-FirstFree u base now random e a (free lo hi f before) =
    let same : (if e == unknown_tables then random else e) ≡ e = ground (arith, hi) in
    subst (FirstFree u base now a unknown_tables 0 random) (sym same) (free lo hi f before)
chosen-FirstFree u base now random e a (full busy w) = full busy (ground (arith, w))

FirstFree-lt :
    (u : Unknown) (base now random used : ℕ) (a : PeerAddress)
    → random < unknown_tables
    → FirstFree u base now a unknown_tables 0 random used
    → used < unknown_tables
FirstFree-lt u base now random used a h (free lo hi f before) = hi
FirstFree-lt u base now random used a h (full busy e) = omega (arith, e, h)

-- Where a handshake is let go, the new entry is in the slice that FirstFree names.
module _ {u' : Unknown} (u : Unknown) (now random : ℕ) (addr a : PeerAddress)
    (e : unset_port addr ≡ some a) (h : random < unknown_tables)
    (sent : backoff_unknown u now random addr ≡ some (false, u')) where
  abbrev pub IsEntered : ℕ → Type 0
  IsEntered used =
      FirstFree u (now / table_interval) now a unknown_tables 0 random used
      × ((p : ℕ × ℕ) × (unknown_hash_entry u (now / table_interval) used a ≡ some p)
          × (set_entry u p (waiting now used a) ≡ u'))

  pub entered : (used : ℕ) × IsEntered used
  entered =
      let f = HasFamily-unset_port addr a e in
      let base = now / table_interval in
      elim (scan {u = u} {base = base} {now = now} f unknown_tables 0 unknown_tables) [
        | seen j _ _ live r ↦
            let again = backoff-known u now random addr a e r in
            let w : true ≡ false = cc in absurd (true≢false w)
        | unseen empty r unlive w ↦
            let chosen = if empty == unknown_tables then random else empty in
            let (q, k) = entry_lem u base chosen a f in
            let sends = backoff-unknown u now random addr a e empty q r k in
            let new : set_entry u q (waiting now chosen a) ≡ u' = cc in
            let first = search-FirstFree u base now a unknown_tables 0 empty f (omega arith) r in
            (chosen, (chosen-FirstFree u base now random empty a first, (q, k, new)))
      ]

  pub IsEntered-at :
      (used : ℕ)
      → FirstFree u (now / table_interval) now a unknown_tables 0 random used
      → IsEntered used
  IsEntered-at used first =
      let (c, (first', place)) = entered in
      let same =
        FirstFree-unique u (now / table_interval) now a unknown_tables 0 random c used first'
          first in
      subst IsEntered same (first', place)

-- Let `used` be the first of the last sixteen slices of time whose entry for the address is free, or
-- the random one if none is. When backoff_unknown has let a handshake to an address go, it answers
-- until 15 - `used` seconds have passed that no other handshake is to be sent, to any port of the
-- address, and leaves the tables as they are.
pub backoff_unknown-again :
    {u' : Unknown} (u : Unknown) (now now' random random' used : ℕ) (addr addr' a : PeerAddress)
    → unset_port addr ≡ some a
    → unset_port addr' ≡ some a
    → random < unknown_tables
    → FirstFree u (now / table_interval) now a unknown_tables 0 random used
    → backoff_unknown u now random addr ≡ some (false, u')
    → now ≤ now'
    → now' < now + min_handshake_interval - used * table_interval
    → backoff_unknown u' now' random' addr' ≡ some (true, u')
backoff_unknown-again {u'} u now now' random random' used addr addr' a e e' h first sent late
      waits =
    let (_, (q, k, new)) = IsEntered-at u now random addr a e h sent used first in
    (backoff_unknown_iff u' now' random' addr' a e').1 (
      subst (λ v. (i : ℕ) × (i < unknown_tables) × Live v (now' / table_interval) now' a i) new
        (Live-again u now now' used a q k late waits))
