-- ===== src/Poly1305/Name.antt =====
-- generic_poly1305.c: the names of the method, and what its ciphers are chosen for.
use fastd.Base.{
  ℕ, ◌-◌, ◌≤◌, ◌<◌, ◌≡◌, ◌↔◌, refl, sym, ap, ◌∙◌, true, false, Option, none, some, List, ◌++◌, map,
  arith, length, take, drop, ltb, leb, inl, inr, Bool-cases, length-append, take-append-drop,
  take-length_append, drop-length_append,
}
use fastd.Crypto.{Cipher}
use fastd.Handshake.Methods.{Str, str_eq}
use fastd.Handshake.Methods.Strings.{str_eq_iff}
use fastd.Method.{nonce_bytes, expand_nonce}
use fastd.Method.Nonce.{IsNonce, sent, Distinct}
use fastd.Method.Iv.{ivs-Distinct}
use fastd.Poly1305.{PolySession, poly1305_suffix, with_nonce, poly1305_create_by_name}

with_nonce_iff :
    (o : Option Cipher) (c : Cipher)
    → (with_nonce o ≡ some c) ↔ ((o ≡ some c) × (nonce_bytes < c.iv_length))
unfolding with_nonce
with_nonce_iff none c = (λ e. cc, λ h. cc)
with_nonce_iff (some d) c = elim (Bool-cases (leb d.iv_length nonce_bytes)) [
  | inl small ↦
      rw small (λ e. cc, λ h. absurd (omega (arith, same_length d c h.0, bound small, h.1)))
  | inr large ↦ rw large (λ e. (e, omega (arith, same_length d c e, above large)), λ h. h.0)
]
  where
    same_length :
        (d c : Cipher) → ◌≡◌ {A = Option Cipher} (some d) (some c) → d.iv_length ≡ c.iv_length
    same_length d c e = let f : d ≡ c = cc in ap (λ x. x.iv_length) f

    bound : {n : ℕ} → leb n nonce_bytes ≡ true → n ≤ nonce_bytes
    bound h = ground arith

    above : {n : ℕ} → leb n nonce_bytes ≡ false → nonce_bytes < n
    above h = ground arith

cut-suffix :
    (prefix : Str)
    → let name = prefix ++ poly1305_suffix in
      (ltb (length name) 9 ≡ false)
      × (drop (length name - 9) name ≡ poly1305_suffix)
      × (take (length name - 9) name ≡ prefix)
cut-suffix prefix =
    let l = length-append prefix poly1305_suffix in
    let e : length (prefix ++ poly1305_suffix) - 9 ≡ length prefix = omega (arith, l) in
    (
      ground (arith, l),
      rw (e, drop-length_append prefix poly1305_suffix) refl,
      rw (e, take-length_append prefix poly1305_suffix) refl,
    )

create-suffix :
    (get : Str → Option Cipher) (prefix : Str)
    → poly1305_create_by_name get (prefix ++ poly1305_suffix) ≡ with_nonce (get prefix)
unfolding poly1305_create_by_name
create-suffix get prefix = let (long, end, start) = cut-suffix prefix in rw (long, end, start) refl

created :
    (get : Str → Option Cipher) (name : Str) (c : Cipher)
    → poly1305_create_by_name get name ≡ some c
    → (prefix : Str) × (name ≡ prefix ++ poly1305_suffix)
unfolding poly1305_create_by_name
created get name c e = elim (Bool-cases (ltb (length name) 9)) [
  | inl short ↦ let f : poly1305_create_by_name get name ≡ none = rw short refl in cc
  | inr long ↦ elim (Bool-cases (str_eq (drop (length name - 9) name) poly1305_suffix)) [
    | inl same ↦ (
      take (length name - 9) name,
      sym (take-append-drop (length name - 9) name)
          ∙ ap (λ t. take (length name - 9) name ++ t)
              ((str_eq_iff (drop (length name - 9) name) poly1305_suffix).0 same),
    )
    | inr other ↦ let f : poly1305_create_by_name get name ≡ none = rw (long, other) refl in cc
  ]
]

-- method_create_by_name accepts exactly the names that are a cipher's name with "+poly1305" behind it,
-- where the cipher is one of the build whose IV is longer than the nonce.
pub poly1305_create_by_name_iff :
    (get : Str → Option Cipher) (name : Str) (c : Cipher)
    → (poly1305_create_by_name get name ≡ some c) ↔ (
        (prefix : Str) × (name ≡ prefix ++ poly1305_suffix)
        × (get prefix ≡ some c)
        × (nonce_bytes < c.iv_length))
poly1305_create_by_name_iff get name c = (
  λ e.
      let (prefix, f) = created get name c e in
      let g = sym (create-suffix get prefix) ∙ ap (poly1305_create_by_name get) (sym f) ∙ e in
      let (found, long) = (with_nonce_iff (get prefix) c).0 g in (prefix, f, found, long),
  λ h.
      ap (poly1305_create_by_name get) h.1
      ∙ create-suffix get h.0
      ∙ (with_nonce_iff (get h.0) c).1 (h.2, h.3),
)

-- In a session of a method that method_create_by_name has accepted, the IVs that
-- fastd_method_expand_nonce makes of the nonces of the packets are all different, however often and
-- whenever packets are sent while the session is valid.
pub poly1305_ivs-Distinct :
    (get : Str → Option Cipher) (name : Str) (times : List ℕ) (s : PolySession)
    → poly1305_create_by_name get name ≡ some s.cipher
    → IsNonce s.common.send_nonce
    → Distinct (map (λ n. expand_nonce n s.cipher.iv_length) (sent times s.common))
poly1305_ivs-Distinct get name times s e h =
    let (prefix, f, g, long) = (poly1305_create_by_name_iff get name s.cipher).0 e in
    ivs-Distinct times s.common s.cipher.iv_length h long
