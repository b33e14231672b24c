-- ===== src/Backoff.antt =====
-- src/receive.c: the tables of unknown addresses that a handshake has been sent to, which keep fastd
-- from flooding a host with handshakes.
pub mod Scan
pub mod Choice
pub mod Again
mod Tests
use fastd.Base.{
  ℕ, zero, suc, ◌+◌, ◌-◌, ◌*◌, ◌/◌, ◌%◌, ◌^◌, Bool, true, false, not, ◌&&◌, Option, none, some,
  ◌>>=◌, List, [], ◌∷◌, ◌++◌, ◌==◌, if◌then◌else◌,
}
use fastd.Util.{size_mod}
use fastd.Discovery.{PeerAddress, unspec, in4, in6}
use fastd.Method.{timed_out}
use fastd.PeerTable.{hash_bytes, hash_final, address_hash, address_equal}

-- UNKNOWN_TABLES, UNKNOWN_ENTRIES and MIN_HANDSHAKE_INTERVAL, in milliseconds.
abbrev pub unknown_tables : ℕ
unknown_tables = 16

abbrev pub unknown_entries : ℕ
unknown_entries = 64

abbrev pub min_handshake_interval : ℕ
min_handshake_interval = 15000

abbrev pub table_interval : ℕ
table_interval = min_handshake_interval / (unknown_tables - 1)

-- `fastd_handshake_timeout_t`
pub record HandshakeTimeout : Type 0 where
  pub address : PeerAddress
  pub timeout : ℕ

-- `ctx.unknown_handshakes`, by the table and the entry, and `ctx.unknown_handshake_seed`.
pub record Unknown : Type 0 where
  pub seed : ℕ
  pub handshakes : ℕ → ℕ → HandshakeTimeout

-- `seed` is random.
unfoldable pub unknown_init : ℕ → ℕ → Unknown
unknown_init now seed = record {
  seed = seed;
  handshakes = λ i j. record { address = unspec; timeout = now };
}

-- `slice` in memory, lowest byte first.
abbrev pub le64 : ℕ → List ℕ
le64 n =
    n % 256
    ∷ n / 2 ^ 8 % 256
    ∷ n / 2 ^ 16 % 256
    ∷ n / 2 ^ 24 % 256
    ∷ n / 2 ^ 32 % 256
    ∷ n / 2 ^ 40 % 256
    ∷ n / 2 ^ 48 % 256
    ∷ n / 2 ^ 56 % 256
    ∷ []

-- The table and the entry of an address in a slice of time, which is `base - i` in 64 bits.
unfoldable pub unknown_hash_entry : Unknown → ℕ → ℕ → PeerAddress → Option (ℕ × ℕ)
unfolding address_hash hash_bytes hash_final
unknown_hash_entry u base i addr = do
  let slice = (base + size_mod - i) % size_mod
  hash ← address_hash (hash_bytes u.seed (le64 slice)) addr
  some (slice % unknown_tables, hash_final hash % unknown_entries)

-- `none` is the end of the process in all of the following: an address without a family.
unfoldable pub unset_port : PeerAddress → Option PeerAddress
unset_port (in4 port addr) = some (in4 (0 ∷ 0 ∷ []) addr)
unset_port (in6 port addr scope_id) = some (in6 (0 ∷ 0 ∷ []) addr scope_id)
unset_port unspec = none

unfoldable pub set_entry : Unknown → ℕ × ℕ → HandshakeTimeout → Unknown
set_entry u p t = record u {
  handshakes = λ i j. if i == p.0 && j == p.1 then t else u.handshakes i j;
}

-- The loop of `fastd_receive_unknown_purge`, over the `n` slices from `i` on.
unfoldable pub purge_loop : Unknown → ℕ → ℕ → PeerAddress → ℕ → ℕ → Option Unknown
unfolding unknown_hash_entry set_entry address_equal
purge_loop u base now addr zero i = some u
purge_loop u base now addr (suc n) i = do
  p ← unknown_hash_entry u base i addr
  (let t = u.handshakes p.0 p.1 in
      let rest = purge_loop u base now addr n (i + 1) in
      if timed_out now t.timeout
      then rest
      else if not (address_equal addr t.address)
      then rest
      else some (set_entry u p (record t { timeout = now })))

unfoldable pub unknown_purge : Unknown → ℕ → PeerAddress → Option Unknown
unfolding unset_port purge_loop
unknown_purge u now addr = do
  addr' ← unset_port addr
  purge_loop u (now / table_interval) now addr' unknown_tables 0

-- The end of the search: the address is known, or `first_empty`.
pub data Found : Type 0 where
  known : Found
  unknown : ℕ → Found

unfoldable pub search_loop : Unknown → ℕ → ℕ → PeerAddress → ℕ → ℕ → ℕ → Option Found
unfolding unknown_hash_entry address_equal
search_loop u base now addr zero i first_empty = some (unknown first_empty)
search_loop u base now addr (suc n) i first_empty = do
  p ← unknown_hash_entry u base i addr
  (let t = u.handshakes p.0 p.1 in
      let expired = timed_out now t.timeout in
      let empty = if expired && first_empty == unknown_tables then i else first_empty in
      let rest = search_loop u base now addr n (i + 1) empty in
      if expired then rest else if not (address_equal addr t.address) then rest else some known)

-- `random` is what `fastd_rand(0, UNKNOWN_TABLES)` returns.
unfoldable pub backoff_insert : Unknown → ℕ → ℕ → PeerAddress → Found → Option (Bool × Unknown)
unfolding unknown_hash_entry set_entry
backoff_insert u now random addr known = some (true, u)
backoff_insert u now random addr (unknown empty) = do
  let first_empty = if empty == unknown_tables then random else empty
  p ← unknown_hash_entry u (now / table_interval) first_empty addr
  some (
    false,
    set_entry u p (record {
      address = addr;
      timeout = now + min_handshake_interval - first_empty * table_interval;
    }),
  )

unfoldable pub backoff_unknown : Unknown → ℕ → ℕ → PeerAddress → Option (Bool × Unknown)
unfolding unset_port search_loop backoff_insert
backoff_unknown u now random addr = do
  addr' ← unset_port addr
  found ← search_loop u (now / table_interval) now addr' unknown_tables 0 unknown_tables
  backoff_insert u now random addr' found
