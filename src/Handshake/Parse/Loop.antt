-- ===== src/Handshake/Parse/Loop.antt =====
-- The loop of `parse_tlvs` in src/handshake.c against the lists of records that bytes stand for.
use fastd.Base.{
  ℕ, zero, suc, ◌+◌, ◌*◌, ◌/◌, ◌%◌, ◌^◌, ◌≤◌, ◌<◌, ◌≡◌, refl, ap, ◌∙◌, List, [], ◌∷◌, ◌++◌,
  append_assoc, arith, ltb, false, length, All, length-append, take-length_append,
  drop-length_append,
}
use fastd.Handshake.Layout.{record_bytes}
use fastd.Handshake.Parse.{Records, store, parse_loop}

-- The records of a packet, in their order.
abbrev pub Tlvs : Type 0
Tlvs = List (ℕ × List ℕ)

abbrev pub encode : Tlvs → List ℕ
encode [] = []
encode ((t, v) ∷ rs) = record_bytes t v ++ encode rs

-- Both fields of a record's header have 16 bits.
abbrev pub IsSmall : ℕ × List ℕ → Type 0
IsSmall r = (r.0 < 2 ^ 16) × (length r.1 < 2 ^ 16)

-- A later record replaces an earlier one of its type.
abbrev pub stored : Records → Tlvs → Records
stored recs [] = recs
stored recs ((t, v) ∷ rs) = stored (store recs t v) rs

-- The end of a packet that holds no whole record.
pub data IsCut : List ℕ → Type 0 where
  short : {bytes : List ℕ} → length bytes < 4 → IsCut bytes
  cut :
      {l0 l1 : ℕ} {rest : List ℕ} (t0 t1 : ℕ)
      → length rest < l0 + l1 * 2 ^ 8
      → IsCut (t0 ∷ t1 ∷ l0 ∷ l1 ∷ rest)

parse_short :
    (fuel : ℕ) (bytes : List ℕ) (recs : Records)
    → length bytes < 4
    → parse_loop fuel bytes recs ≡ recs
unfolding parse_loop
parse_short (suc fuel) (a ∷ b ∷ c ∷ d ∷ rest) recs h = absurd (omega arith)
parse_short _ _ recs h = refl

parse_cut :
    (fuel : ℕ) {bytes : List ℕ} (recs : Records) → IsCut bytes → parse_loop fuel bytes recs ≡ recs
parse_cut fuel {bytes} recs (short h) = parse_short fuel bytes recs h
parse_cut zero recs (cut t0 t1 h) = unfold parse_loop in refl
parse_cut (suc fuel) recs (cut {l0} {l1} {rest} t0 t1 h) = unfold parse_loop in ground arith

parse_record :
    (fuel t0 t1 l0 l1 : ℕ) (v more : List ℕ) (recs : Records)
    → length v ≡ l0 + l1 * 2 ^ 8
    → parse_loop (suc fuel) (t0 ∷ t1 ∷ l0 ∷ l1 ∷ (v ++ more)) recs
      ≡ parse_loop fuel more (store recs (t0 + t1 * 2 ^ 8) v)
unfolding parse_loop
parse_record fuel t0 t1 l0 l1 v more recs h =
    let whole : ltb (length (v ++ more)) (length v) ≡ false =
      ground (arith, length-append v more) in
    rw (← h, whole, take-length_append v more, drop-length_append v more) refl

pub parse_encode :
    (fuel : ℕ) (rs : Tlvs) {rest : List ℕ} (recs : Records)
    → All IsSmall rs
    → IsCut rest
    → length (encode rs) ≤ fuel
    → parse_loop fuel (encode rs ++ rest) recs ≡ stored recs rs
parse_encode fuel [] recs s c h = parse_cut fuel recs c
parse_encode zero ((t, v) ∷ rs) recs s c h = absurd (omega arith)
parse_encode (suc fuel) ((t, v) ∷ rs) {rest} recs s c h =
    ap
      (λ l.
        parse_loop (suc fuel) (t % 256 ∷ t / 256 % 256 ∷ length v % 256 ∷ length v / 256 % 256 ∷ l)
          recs)
      (append_assoc v (encode rs) rest)
    ∙ parse_record fuel _ _ _ _ v (encode rs ++ rest) recs (omega (arith, s.0.1))
    ∙ ap (λ k. parse_loop fuel (encode rs ++ rest) (store recs k v)) type
    ∙ parse_encode fuel rs (store recs t v) s.1 c (omega (arith, length-append v (encode rs)))
  where
    type : t % 256 + t / 256 % 256 * 2 ^ 8 ≡ t
    type = omega (arith, s.0.0)
