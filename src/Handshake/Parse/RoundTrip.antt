-- ===== src/Handshake/Parse/RoundTrip.antt =====
-- What `parse_tlvs` of src/handshake.c makes of any packet, and of a packet that was built by adding
-- records.
use fastd.Base.{
  ℕ, zero, suc, ◌+◌, ◌*◌, ◌^◌, ◌≤◌, ◌<◌, ◌≡◌, refl, sym, ap, ◌∙◌, some, List, [], ◌∷◌, ◌++◌,
  append_assoc, append-nil, arith, ltb, false, length, take, drop, All, length-append, length-take,
  length-drop, take-append-drop, take-length_append, drop-length_append, drop-drop,
}
use native.Mathlib.Decide.{dec_lt}
use fastd.Buffer.{Buffer}
use fastd.Handshake.Record.{packet_size, tlv_len, tlv_data}
use fastd.Handshake.Layout.{record_bytes, IsHandshake, tlv_len-length}
use fastd.Handshake.Parse.{Records, no_records, no_handshake, parse_loop, parse_tlvs}
use fastd.Handshake.Parse.Loop.{Tlvs, encode, IsSmall, stored, IsCut, short, cut, parse_encode}

abbrev pub IsByte : ℕ → Type 0
IsByte b = b < 256

All-drop : (n : ℕ) (xs : List ℕ) → All IsByte xs → All IsByte (drop n xs)
All-drop zero xs h = h
All-drop (suc n) [] h = tt
All-drop (suc n) (x ∷ xs) h = All-drop n xs h.1

-- The header of the record that four bytes stand for.
header_bytes :
    (a c d e : ℕ) (v rest : List ℕ)
    → a < 256
    → c < 256
    → d < 256
    → e < 256
    → length v ≡ d + e * 2 ^ 8
    → a ∷ c ∷ d ∷ e ∷ (v ++ rest) ≡ record_bytes (a + c * 2 ^ 8) v ++ rest
header_bytes a c d e v rest ha hc hd he h = rw h (ground arith)

-- Every sequence of bytes is the encoding of a list of records and a rest that holds no whole one.
split_records :
    (fuel : ℕ) (bytes : List ℕ)
    → length bytes ≤ fuel
    → All IsByte bytes
    → (rs : Tlvs) × (rest : List ℕ) × (bytes ≡ encode rs ++ rest) × All IsSmall rs × IsCut rest
split_records fuel [] h b = ([], [], refl, tt, short (omega arith))
split_records fuel (a ∷ []) h b = ([], a ∷ [], refl, tt, short (omega arith))
split_records fuel (a ∷ c ∷ []) h b = ([], a ∷ c ∷ [], refl, tt, short (omega arith))
split_records fuel (a ∷ c ∷ d ∷ []) h b = ([], a ∷ c ∷ d ∷ [], refl, tt, short (omega arith))
split_records zero (a ∷ c ∷ d ∷ e ∷ rest) h b = absurd (omega arith)
split_records (suc fuel) (a ∷ c ∷ d ∷ e ∷ rest) h b = elim (dec_lt (length rest) (d + e * 2 ^ 8)) [
  | yes lt ↦ ([], a ∷ c ∷ d ∷ e ∷ rest, refl, tt, cut a c lt)
  | no ge ↦
      let n = d + e * 2 ^ 8 in
      let (rs, more, eq, small, end) =
        split_records fuel (drop n rest) (omega (arith, length-drop n rest))
          (All-drop n rest b.1.1.1.1) in
      let size : length (take n rest) ≡ n = omega (arith, length-take n rest) in
      (
        (a + c * 2 ^ 8, take n rest) ∷ rs,
        more,
        ap (λ t. a ∷ c ∷ d ∷ e ∷ t) (sym (take-append-drop n rest))
            ∙ header_bytes a c d e (take n rest) (drop n rest) b.0 b.1.0 b.1.1.0 b.1.1.1.0 size
            ∙ ap (λ t. record_bytes (a + c * 2 ^ 8) (take n rest) ++ t) eq
            ∙ sym (append_assoc (record_bytes (a + c * 2 ^ 8) (take n rest)) (encode rs) more),
        ((omega arith, omega arith), small),
        end,
      )
]

-- On any bytes `parse_loop` finds exactly the records that the bytes start with: it reads whole
-- records as long as there are any, the last one of each known type counts, and the bytes behind
-- them hold no whole record.
pub parse_loop-stored :
    (bytes : List ℕ) (recs : Records)
    → All IsByte bytes
    → (rs : Tlvs) × (rest : List ℕ) × (bytes ≡ encode rs ++ rest)
      × All IsSmall rs
      × IsCut rest
      × (parse_loop (length bytes) bytes recs ≡ stored recs rs)
parse_loop-stored bytes recs h =
    let (rs, rest, eq, small, end) = split_records (length bytes) bytes (omega arith) h in
    (
      rs,
      rest,
      eq,
      small,
      end,
      ap (λ l. parse_loop (length bytes) l recs) eq
          ∙ parse_encode (length bytes) rs recs small end
              (omega (arith, ap length eq, length-append (encode rs) rest)),
    )

-- A handshake packet that holds a list of records is parsed to the table of these records, in which
-- the last record of each known type counts, for any bytes before and behind it in the buffer.
pub parse_tlvs-encode :
    {b : Buffer} {pre post : List ℕ} {type rsv : ℕ} (rs : Tlvs)
    → IsHandshake b pre type rsv (encode rs) post
    → All IsSmall rs
    → parse_tlvs b ≡ record no_handshake { records = stored no_records rs; tlv = some (encode rs) }
unfolding parse_tlvs
parse_tlvs-encode {b} {pre} {post} {type} {rsv} rs h small =
    rw (window, count, long_enough, all_there)
      (ap (λ t. record no_handshake { records = t; tlv = some (encode rs) }) parsed)
  where
    count : tlv_len b ≡ length (encode rs)
    count = tlv_len-length h

    after : drop (tlv_data b) b.base ≡ encode rs ++ post
    after =
        unfold tlv_data in
        rw (h.base, h.head, ← drop-drop (length pre) 4, drop-length_append pre) refl

    window : take (tlv_len b) (drop (tlv_data b) b.base) ≡ encode rs
    window = rw (after, count) (take-length_append (encode rs) post)

    long_enough : ltb b.len packet_size ≡ false
    long_enough = ground (arith, h.len)

    all_there : ltb b.len (packet_size + length (encode rs)) ≡ false
    all_there = ground (arith, h.len)

    parsed : parse_loop (length (encode rs)) (encode rs) no_records ≡ stored no_records rs
    parsed =
        ap (λ l. parse_loop (length (encode rs)) l no_records) (sym (append-nil (encode rs)))
        ∙ parse_encode (length (encode rs)) rs no_records small (short (omega arith)) (omega arith)
