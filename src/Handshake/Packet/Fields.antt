-- ===== src/Handshake/Packet/Fields.antt =====
-- src/handshake.c: the fields of a parsed handshake, found by the type of their record.
use fastd.Base.{
  ℕ, ◌%◌, ◌/◌, ◌^◌, ◌<◌, ◌≡◌, refl, ap, ◌∙◌, false, Option, none, some, List, [], ◌∷◌, ◌++◌, arith,
  ◌==◌, if◌then◌else◌, length, All, All-append, length-append, Bool-cases, inl, inr, ltb,
}
use fastd.Handshake.Record.{
  record_handshake_type, record_flags, record_mode, record_protocol_name, record_mtu,
  record_method_name, record_version_name, record_method_list, record_compression_name, record_max,
}
use fastd.Handshake.Parse.{Records, no_records, store}
use fastd.Handshake.Parse.Loop.{Tlvs, encode, IsSmall, stored}
use fastd.Handshake.Methods.{Str}
use fastd.Handshake.Packet.{Config, get_mode_id, flag_l2tp_support}
use fastd.Handshake.Packet.Records.{opt_tlv, mtu_tlv, method_tlv, list_tlv, handshake_records}

-- Records of other types leave a field as it is.
abbrev pub IsOther : ℕ → ℕ → Type 0
IsOther t s = (t == s) ≡ false

abbrev pub Types {ℓ} : (ℕ → Type ℓ) → Tlvs → Type ℓ
Types Q rs = All (λ r. Q r.0) rs

store-other : (recs : Records) (s t : ℕ) (v : List ℕ) → IsOther t s → store recs s v t ≡ recs t
store-other recs s t v h = elim (Bool-cases (ltb s record_max)) [
  | inl e ↦ rw (e, h) refl
  | inr e ↦ rw e refl
]

pub stored-other :
    (recs : Records) (rs : Tlvs) (t : ℕ) → Types (IsOther t) rs → stored recs rs t ≡ recs t
stored-other recs [] t h = refl
stored-other recs ((s, v) ∷ rs) t h =
    stored-other (store recs s v) rs t h.1 ∙ store-other recs s t v h.0

pub stored-append :
    (recs : Records) (xs ys : Tlvs) → stored recs (xs ++ ys) ≡ stored (stored recs xs) ys
stored-append recs [] ys = refl
stored-append recs ((t, v) ∷ xs) ys = stored-append (store recs t v) xs ys

Types-mtu_tlv {ℓ} : (Q : ℕ → Type ℓ) (mtu : ℕ) → Q record_mtu → Types Q (mtu_tlv mtu)
Types-mtu_tlv Q mtu q = elim (Bool-cases (mtu == 0)) [ inl e ↦ rw e tt | inr e ↦ rw e (q, tt) ]

Types-opt_tlv {ℓ} : (Q : ℕ → Type ℓ) (t : ℕ) (o : Option Str) → Q t → Types Q (opt_tlv t o)
Types-opt_tlv Q t none q = tt
Types-opt_tlv Q t (some s) q = (q, tt)

Types-method_tlv {ℓ} :
    (Q : ℕ → Type ℓ) (method : Option Str) (methods : List Str)
    → Q record_method_name
    → Types Q (method_tlv method methods)
Types-method_tlv Q method [] q = Types-opt_tlv Q record_method_name method q
Types-method_tlv Q method (m ∷ ms) q = tt

Types-list_tlv {ℓ} :
    (Q : ℕ → Type ℓ) (methods : List Str) → Q record_method_list → Types Q (list_tlv methods)
Types-list_tlv Q [] q = tt
Types-list_tlv Q (m ∷ ms) q = (q, tt)

-- The records behind the protocol name, and those behind the mode.
abbrev pub method_records : Config → Option Str → List Str → Tlvs
method_records c method methods =
    method_tlv method methods
    ++ (list_tlv methods ++ opt_tlv record_compression_name c.compression_name)

Types-method_records {ℓ} :
    (Q : ℕ → Type ℓ) (c : Config) (method : Option Str) (methods : List Str)
    → Q record_method_name
    → Q record_method_list
    → Q record_compression_name
    → Types Q (method_records c method methods)
Types-method_records Q c method methods q l r =
    All-append (λ r. Q r.0) (method_tlv method methods) _ (Types-method_tlv Q method methods q)
      (All-append (λ r. Q r.0) (list_tlv methods) _ (Types-list_tlv Q methods l)
        (Types-opt_tlv Q record_compression_name c.compression_name r))

-- The types in the records of a new handshake.
pub Types-handshake_records {ℓ} :
    (Q : ℕ → Type ℓ) (c : Config) (type mtu : ℕ) (method : Option Str) (methods : List Str)
    → ((t : ℕ) → t < record_max → Q t)
    → Types Q (handshake_records c type mtu method methods)
Types-handshake_records Q c type mtu method methods q =
    let late : Types Q (
        (record_version_name, c.version)
        ∷ (record_protocol_name, c.protocol_name)
        ∷ method_records c method methods) =
      (
        q record_version_name (omega arith),
        (
          q record_protocol_name (omega arith),
          Types-method_records Q c method methods (q record_method_name (omega arith))
              (q record_method_list (omega arith)) (q record_compression_name (omega arith)),
        ),
      ) in
    let tail =
      All-append (λ r. Q r.0) (mtu_tlv mtu) _ (Types-mtu_tlv Q mtu (q record_mtu (omega arith)))
        late in
    (
      q record_handshake_type (omega arith),
      (q record_flags (omega arith), (q record_mode (omega arith), tail)),
    )

pub All-IsSmall :
    (rs : Tlvs) → Types (λ t. t < 2 ^ 16) rs → length (encode rs) < 2 ^ 16 → All IsSmall rs
All-IsSmall [] h small = tt
All-IsSmall ((t, v) ∷ rs) h small = (
  (h.0, omega (arith, length-append v (encode rs))),
  All-IsSmall rs h.1 (omega (arith, length-append v (encode rs))),
)

-- What a new handshake says in each field that a receiver checks.
pub record Says (c : Config) (type mtu : ℕ) (recs : Records) : Type 0 where
  pub type_is : recs record_handshake_type ≡ some (type % 256 ∷ [])
  pub flags_are : recs record_flags ≡ some (flag_l2tp_support ∷ [])
  pub mode_is : recs record_mode ≡ some (get_mode_id c.mode % 256 ∷ [])
  pub mtu_is :
      recs record_mtu ≡ (if mtu == 0 then none else some (mtu % 256 ∷ mtu / 2 ^ 8 % 256 ∷ []))
  pub version_is : recs record_version_name ≡ some c.version
  pub protocol_is : recs record_protocol_name ≡ some c.protocol_name

-- The records behind the mode.
abbrev pub late_records : Config → ℕ → Option Str → List Str → Tlvs
late_records c mtu method methods =
    mtu_tlv mtu
    ++ ((record_version_name, c.version)
        ∷ (record_protocol_name, c.protocol_name)
        ∷ method_records c method methods)

skip_methods :
    (recs : Records) (c : Config) (method : Option Str) (methods : List Str) (t : ℕ)
    → IsOther t record_method_name
    → IsOther t record_method_list
    → IsOther t record_compression_name
    → stored recs (method_records c method methods) t ≡ recs t
skip_methods recs c method methods t n l r =
    stored-other recs (method_records c method methods) t
      (Types-method_records (IsOther t) c method methods n l r)

skip_mtu :
    (recs : Records) (mtu t : ℕ) → IsOther t record_mtu → stored recs (mtu_tlv mtu) t ≡ recs t
skip_mtu recs mtu t h = stored-other recs (mtu_tlv mtu) t (Types-mtu_tlv (IsOther t) mtu h)

mtu_found :
    (recs : Records) (mtu : ℕ)
    → recs record_mtu ≡ none
    → stored recs (mtu_tlv mtu) record_mtu
      ≡ (if mtu == 0 then none else some (mtu % 256 ∷ mtu / 2 ^ 8 % 256 ∷ []))
mtu_found recs mtu h = elim (Bool-cases (mtu == 0)) [ inl e ↦ rw e h | inr e ↦ rw e refl ]

module _ (c : Config) (mtu : ℕ) (method : Option Str) (methods : List Str) (recs : Records) where
  -- A field behind the MTU, in the records up to the MTU, the version and the protocol name.
  late_field :
      (t : ℕ)
      → IsOther t record_method_name
      → IsOther t record_method_list
      → IsOther t record_compression_name
      → stored recs (late_records c mtu method methods) t
        ≡ store
            (store (stored recs (mtu_tlv mtu)) record_version_name c.version)
            record_protocol_name
            c.protocol_name
            t
  late_field t n l r =
      ap (λ f. f t) (stored-append recs (mtu_tlv mtu) _) ∙ skip_methods _ c method methods t n l r

  early_field :
      (t : ℕ)
      → IsOther t record_mtu
      → IsOther t record_version_name
      → IsOther t record_protocol_name
      → IsOther t record_method_name
      → IsOther t record_method_list
      → IsOther t record_compression_name
      → stored recs (late_records c mtu method methods) t ≡ recs t
  early_field t m v p n l r =
      late_field t n l r
      ∙ store-other (store (stored recs (mtu_tlv mtu)) record_version_name c.version)
          record_protocol_name t c.protocol_name p
      ∙ store-other (stored recs (mtu_tlv mtu)) record_version_name t c.version v
      ∙ skip_mtu recs mtu t m

pub handshake_records-Says :
    (c : Config) (type mtu : ℕ) (method : Option Str) (methods : List Str)
    → Says c type mtu (stored no_records (handshake_records c type mtu method methods))
handshake_records-Says c type mtu method methods =
    let head : Records = stored no_records (
      (record_handshake_type, type % 256 ∷ [])
      ∷ (record_flags, flag_l2tp_support ∷ [])
      ∷ (record_mode, get_mode_id c.mode % 256 ∷ [])
      ∷ []) in
    let early = early_field c mtu method methods head in
    let late = late_field c mtu method methods head in
    record {
      type_is = early record_handshake_type refl refl refl refl refl refl;
      flags_are = early record_flags refl refl refl refl refl refl;
      mode_is = early record_mode refl refl refl refl refl refl;
      mtu_is = late record_mtu refl refl refl ∙ mtu_found head mtu refl;
      version_is = late record_version_name refl refl refl;
      protocol_is = late record_protocol_name refl refl refl;
    }
