-- ===== src/Backoff/Tests.antt =====
-- Runs of the back-off of src/receive.c, and its theorems at a concrete address.
use fastd.Base.{
  ℕ, ◌/◌, ◌≤◌, ◌<◌, ◌≡◌, ◌↔◌, refl, Bool, true, false, Option, some, [], ◌∷◌, ◌>>=◌, arith,
}
use fastd.Discovery.{PeerAddress, in4}
use fastd.Handshake.Methods.{str_eq}
use fastd.PeerTable.{hash_byte, hash_bytes, hash_final, address_hash, address_equal}
use fastd.Backoff.{
  unknown_tables, table_interval, Unknown, unknown_init, unknown_hash_entry, unset_port, set_entry,
  search_loop, purge_loop, unknown_purge, backoff_insert, backoff_unknown,
}
use fastd.Backoff.Scan.{Live}
use fastd.Backoff.Choice.{free}
use fastd.Backoff.Again.{backoff_unknown_iff, backoff_unknown-again}

program : Unit {0}
unfolding backoff_unknown backoff_insert search_loop set_entry unset_port unknown_hash_entry
    unknown_init address_equal address_hash hash_bytes hash_byte hash_final str_eq unknown_purge
    purge_loop
program = tt

abbrev host : ℕ → PeerAddress
host port = in4 (0 ∷ port ∷ []) (10 ∷ 0 ∷ 0 ∷ 1 ∷ [])

abbrev fresh : Unknown
fresh = unknown_init 70000 17

-- The answers to two packets from the address, and to one after the address is purged.
abbrev answers : ℕ → ℕ → Option (Bool × Bool × Bool)
answers now now' = do
  (a, u) ← backoff_unknown fresh now 3 (host 1)
  (b, u) ← backoff_unknown u now' 3 (host 2)
  u ← unknown_purge u now' (host 3)
  (c, u) ← backoff_unknown u now' 3 (host 2)
  some (a, b, c)

in_time : answers 70000 84999 ≡ some (false, true, false)
unfolding program
in_time = refl

too_late : answers 70000 85000 ≡ some (false, false, false)
unfolding program
too_late = refl

abbrev no_port : PeerAddress
no_port = in4 (0 ∷ 0 ∷ []) (10 ∷ 0 ∷ 0 ∷ 1 ∷ [])

port_unset : (port : ℕ) → unset_port (host port) ≡ some no_port
unfolding program
port_unset port = refl

abbrev place : ℕ × ℕ
place = (6, 60)

place_found : unknown_hash_entry fresh 70 0 no_port ≡ some place
unfolding program
place_found = refl

after_first : Unknown
after_first = set_entry fresh place (record { address = no_port; timeout = 85000 })

first_answer : backoff_unknown fresh 70000 3 (host 1) ≡ some (false, after_first)
unfolding program after_first
first_answer = refl

backoff_unknown_iff_example :
    (backoff_unknown fresh 70000 3 (host 1) ≡ some (true, fresh))
    ↔ ((i : ℕ) × (i < unknown_tables) × Live fresh (70000 / table_interval) 70000 no_port i)
backoff_unknown_iff_example = backoff_unknown_iff fresh 70000 3 (host 1) no_port (port_unset 1)

fresh_timeout : (fresh.handshakes place.0 place.1).timeout ≤ 70000
unfolding program
fresh_timeout = omega arith

backoff_unknown-again_example :
    backoff_unknown after_first 84999 5 (host 2) ≡ some (true, after_first)
backoff_unknown-again_example =
    backoff_unknown-again fresh 70000 84999 3 5 0 (host 1) (host 2) no_port (port_unset 1)
      (port_unset 2) (omega arith)
      (free (omega arith) (omega arith) (place, place_found, fresh_timeout)
        (λ j lo hi. absurd (omega (arith, lo, hi))))
      first_answer (omega arith) (omega arith)
