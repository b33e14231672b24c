-- ===== src/Handshake/Parse.antt =====
-- src/handshake.c: the records of a received handshake, and the numbers in them.
pub mod Numbers
pub mod Loop
pub mod RoundTrip
use fastd.Base.{
  ℕ, zero, suc, ◌+◌, ◌*◌, ◌^◌, Bool, Option, none, some, List, [], ◌∷◌, ◌++◌, ◌==◌, ltb,
  if◌then◌else◌, length, get_or, take, drop,
}
use fastd.Base.Bits.{bit_or}
use fastd.Buffer.{Buffer}
use fastd.Handshake.Record.{record_max, packet_size, tlv_len, tlv_data}

-- The field `records`: what a record's `data` and `length` delimit, or nothing (`data` is NULL).
abbrev pub Records : Type 0
Records = ℕ → Option (List ℕ)

-- The field `length` of a record.
abbrev pub record_length : Option (List ℕ) → ℕ
record_length none = 0
record_length (some v) = length v

-- `fastd_handshake_t`; `tlv` is what `tlv_data` and `tlv_len` delimit. The peer's version is only
-- printed.
pub record Handshake : Type 0 where
  pub type : ℕ
  pub flags : ℕ
  pub records : Records
  pub tlv : Option (List ℕ)

abbrev pub no_records : Records
no_records t = none

abbrev pub no_handshake : Handshake
no_handshake = record { type = 0; flags = 0; records = no_records; tlv = none }

-- `handshake.records[type] = …`, for known types.
abbrev pub store : Records → ℕ → List ℕ → Records
store recs type v t = if ltb type record_max then (if t == type then some v else recs t) else recs t

-- The loop of `parse_tlvs`, over the bytes from `ptr` to `end`. Each round takes 4 bytes at least.
unfoldable pub parse_loop : ℕ → List ℕ → Records → Records
parse_loop (suc fuel) (t0 ∷ t1 ∷ l0 ∷ l1 ∷ rest) recs =
    let type = t0 + t1 * 2 ^ 8 in
    let len = l0 + l1 * 2 ^ 8 in
    let more = parse_loop fuel (drop len rest) (store recs type (take len rest)) in
    if ltb (length rest) len then recs else more
parse_loop _ _ recs = recs

unfoldable pub parse_tlvs : Buffer → Handshake
parse_tlvs b =
    let len = tlv_len b in
    let tlv = take len (drop (tlv_data b) b.base) in
    if ltb b.len packet_size
    then no_handshake
    else if ltb b.len (packet_size + len)
    then no_handshake
    else record no_handshake { records = parse_loop (length tlv) tlv no_records; tlv = some tlv }

-- The value of a record as a number, lowest byte first.
unfoldable pub as_uint8 : List ℕ → ℕ
as_uint8 v = get_or v 0 0

unfoldable pub as_uint16 : List ℕ → ℕ
unfolding as_uint8
as_uint16 v = bit_or (get_or v 1 0 * 2 ^ 8) (as_uint8 v)

unfoldable pub as_uint24 : List ℕ → ℕ
unfolding as_uint16
as_uint24 v = bit_or (get_or v 2 0 * 2 ^ 16) (as_uint16 v)

unfoldable pub as_uint32 : List ℕ → ℕ
unfolding as_uint24
as_uint32 v = bit_or (get_or v 3 0 * 2 ^ 24) (as_uint24 v)

unfoldable pub as_uint : List ℕ → ℕ
unfolding as_uint32
as_uint v =
    if length v == 0
    then 0
    else if length v == 1
    then as_uint8 v
    else if length v == 2
    then as_uint16 v
    else if length v == 3
    then as_uint24 v
    else if length v == 4
    then as_uint32 v
    else 0xffffffff
