-- ===== src/Handshake/Layout.antt =====
-- What src/handshake.h makes of the bytes of a handshake packet when a record is added.
use fastd.Base.{
  ℕ, suc, ◌+◌, ◌/◌, ◌%◌, ◌^◌, ◌≤◌, ◌<◌, ◌≡◌, refl, sym, ap, ◌∙◌, some, List, [], ◌∷◌, ◌++◌,
  append_assoc, arith, ltb, false, length, write, length-append, write-append, write-replace,
  write-write, get_or-append,
}
use fastd.Buffer.{Buffer}
use fastd.Handshake.Record.{record_len, be16, le16, tlv_len, extend, add}

-- A record on the wire.
abbrev pub record_bytes : ℕ → List ℕ → List ℕ
record_bytes type v = type % 256 ∷ type / 256 % 256 ∷ (le16 (length v) ++ v)

-- A handshake packet in the space of a buffer: `pre` before it, then its header with the length of
-- the records, the records, and unused space.
abbrev pub packet_bytes : ℕ → ℕ → List ℕ → List ℕ
packet_bytes type rsv tlv = type ∷ rsv ∷ (be16 (length tlv) ++ tlv)

pub record IsHandshake (b : Buffer) (pre : List ℕ) (type rsv : ℕ) (tlv post : List ℕ) : Type 0 where
  pub base : b.base ≡ pre ++ (packet_bytes type rsv tlv ++ post)
  pub head : b.head ≡ length pre
  pub len : b.len ≡ length tlv + 4
  pub small : length tlv < 2 ^ 16

pub tlv_len-length :
    {b : Buffer} {pre tlv post : List ℕ} {type rsv : ℕ}
    → IsHandshake b pre type rsv tlv post
    → tlv_len b ≡ length tlv
unfolding tlv_len
tlv_len-length {b} {pre} {tlv} {post} {type} {rsv} h =
    rw (h.base, h.head, get_or-append pre, get_or-append pre) (omega (arith, h.small))

-- Where the space is enough, `add` counts the record in the header and writes it behind the others.
add-write :
    (b : Buffer) (type : ℕ) (v : List ℕ)
    → b.head + b.len + record_len (length v) ≤ length b.base
    → add b type v
      ≡ some (record {
        base =
            write
              (write b.base (b.head + 2) (be16 ((tlv_len b + record_len (length v)) % 2 ^ 16)))
              (b.head + b.len)
              (record_bytes type v);
        head = b.head;
        len = b.len + record_len (length v);
      })
unfolding add extend
add-write b type v h =
    let fits : ltb (length b.base) (b.head + b.len + record_len (length v)) ≡ false =
      ground arith in
    rw fits (
      ap (λ l. some (record { base = l; head = b.head; len = b.len + record_len (length v) }))
        (write-write
          (write b.base (b.head + 2) (be16 ((tlv_len b + record_len (length v)) % 2 ^ 16)))
          (b.head + b.len) (type % 256 ∷ type / 256 % 256 ∷ le16 (length v)) v))

-- The header's length field, in the space before and after.
count-write :
    (pre rest : List ℕ) (type rsv hi lo n : ℕ)
    → write (pre ++ (type ∷ rsv ∷ hi ∷ lo ∷ rest)) (length pre + 2) (be16 n)
      ≡ pre ++ (type ∷ rsv ∷ (be16 n ++ rest))
count-write pre rest type rsv hi lo n =
    write-append pre (type ∷ rsv ∷ hi ∷ lo ∷ rest) 2 (be16 n)
    ∙ ap (λ t. pre ++ (type ∷ rsv ∷ t)) (write-replace (hi ∷ lo ∷ []) rest (be16 n) refl)

-- A write behind the records.
tail-write :
    (pre tlv old post new : List ℕ) (type rsv hi lo : ℕ)
    → length old ≡ length new
    → write
        (pre ++ (type ∷ rsv ∷ hi ∷ lo ∷ (tlv ++ (old ++ post))))
        (length pre + (length tlv + 4))
        new
      ≡ pre ++ (type ∷ rsv ∷ hi ∷ lo ∷ ((tlv ++ new) ++ post))
tail-write pre tlv old post new type rsv hi lo h =
    write-append pre (type ∷ rsv ∷ hi ∷ lo ∷ (tlv ++ (old ++ post))) (length tlv + 4) new
    ∙ ap (λ t. pre ++ t)
        (ap (λ i. write (type ∷ rsv ∷ hi ∷ lo ∷ (tlv ++ (old ++ post))) i new) place
          ∙ ap (λ t. type ∷ rsv ∷ hi ∷ lo ∷ t)
              (write-append tlv (old ++ post) 0 new
                ∙ ap (λ t. tlv ++ t) (write-replace old post new h)
                ∙ sym (append_assoc tlv new post)))
  where
    place : length tlv + 4 ≡ suc (suc (suc (suc (length tlv + 0))))
    place = omega arith

-- Adding a record to a handshake packet whose space has room for it succeeds, appends exactly the
-- record's bytes to the records, counts them in the header, and touches nothing else.
pub add-IsHandshake :
    {b : Buffer} {pre tlv : List ℕ} {type rsv : ℕ} (t : ℕ) (v old post : List ℕ)
    → IsHandshake b pre type rsv tlv (old ++ post)
    → length old ≡ record_len (length v)
    → length tlv + record_len (length v) < 2 ^ 16
    → (b' : Buffer) × (add b t v ≡ some b')
      × IsHandshake b' pre type rsv (tlv ++ record_bytes t v) post
add-IsHandshake {b} {pre} {tlv} {type} {rsv} t v old post h room small = (
  b',
  add-write b t v enough,
  record {
    base = space;
    head = h.head;
    len = omega (arith, h.len, counted);
    small = omega (arith, counted);
  },
)
  where
    counted : length (tlv ++ record_bytes t v) ≡ length tlv + record_len (length v)
    counted = omega (arith, length-append tlv (record_bytes t v))

    enough : b.head + b.len + record_len (length v) ≤ length b.base
    enough = omega (
      arith,
      h.head,
      h.len,
      ap length h.base,
      length-append pre (packet_bytes type rsv tlv ++ (old ++ post)),
      length-append tlv (old ++ post),
      length-append old post,
    )

    new_len : (tlv_len b + record_len (length v)) % 2 ^ 16 ≡ length (tlv ++ record_bytes t v)
    new_len = omega (arith, tlv_len-length h, counted)

    at : b.head + b.len ≡ length pre + (length tlv + 4)
    at = omega (arith, h.head, h.len)

    b' : Buffer
    b' = record {
      base =
          write (write b.base (b.head + 2) (be16 ((tlv_len b + record_len (length v)) % 2 ^ 16)))
            (b.head + b.len) (record_bytes t v);
      head = b.head;
      len = b.len + record_len (length v);
    }

    space : b'.base ≡ pre ++ (packet_bytes type rsv (tlv ++ record_bytes t v) ++ post)
    space =
        rw (new_len, at, h.head, h.base)
          (ap (λ l. write l (length pre + (length tlv + 4)) (record_bytes t v))
              (count-write pre (tlv ++ (old ++ post)) type rsv _ _
                (length (tlv ++ record_bytes t v)))
            ∙ tail-write pre tlv old post (record_bytes t v) type rsv _ _ (omega arith))
