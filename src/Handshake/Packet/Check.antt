-- ===== src/Handshake/Packet/Check.antt =====
-- src/handshake.c: what becomes of a handshake that another node has built.
use fastd.Base.{
  ℕ, ◌%◌, ◌^◌, ◌≤◌, ◌<◌, ◌≡◌, ◌≢◌, ◌↔◌, refl, sym, ap, ◌∙◌, Option, some, List, [], arith, length,
  All,
}
use fastd.Buffer.{Buffer}
use fastd.Buffer.Pool.{Pool, IsPool}
use fastd.Handshake.Parse.{Handshake, no_records, no_handshake, parse_tlvs, as_uint8}
use fastd.Handshake.Parse.Loop.{Tlvs, encode, IsSmall, stored}
use fastd.Handshake.Parse.RoundTrip.{parse_tlvs-encode}
use fastd.Handshake.Methods.{Str}
use fastd.Handshake.Methods.Strings.{NoNul, cut-NoNul, string_equal_iff}
use fastd.Handshake.Packet.{
  Config, Mode, tap, multitap, tun, Verdict, accept, get_mode_id, max_handshake_size,
  flag_l2tp_support, new_handshake, check_flags, check_protocol_name, check_mode, check_reply,
  check_records,
}
use fastd.Handshake.Packet.Build.{Built}
use fastd.Handshake.Packet.Records.{handshake_records}
use fastd.Handshake.Packet.Fields.{
  Says, Types-handshake_records, All-IsSmall, handshake_records-Says,
}
use fastd.Handshake.Packet.RoundTrip.{total_space, new_handshake-Made}

pub Built-parsed :
    {b : Buffer} {room : ℕ} (rs : Tlvs)
    → Built b rs room
    → All IsSmall rs
    → parse_tlvs b ≡ record no_handshake { records = stored no_records rs; tlv = some (encode rs) }
Built-parsed rs h small = parse_tlvs-encode rs h.shape small

pub IsSmall-records :
    (c : Config) (type mtu : ℕ) (method : Option Str) (methods : List Str)
    → length (encode (handshake_records c type mtu method methods)) < 2 ^ 16
    → All IsSmall (handshake_records c type mtu method methods)
IsSmall-records c type mtu method methods h =
    let types = Types-handshake_records (λ t. t < 2 ^ 16) c type mtu method methods in
    All-IsSmall (handshake_records c type mtu method methods) (types (λ t k. omega (arith, k))) h

-- A packet that `new_handshake` builds from a pool with room, whenever its records fit, is read back
-- by `parse_tlvs` as exactly the records that were asked for: the type, the flags, the mode, the MTU
-- if it is not zero, the version, the protocol name, and the others in their order.
pub parse_tlvs-new_handshake :
    {p : Pool} (c : Config) (type mtu : ℕ) (method : Option Str) (methods : List Str)
    (tail_space : ℕ)
    → IsPool p
    → p.buffers ≢ []
    → max_handshake_size ≤ p.max_buffer
    → total_space c mtu method methods tail_space ≤ max_handshake_size
    → (b : Buffer) × (p' : Pool) × (new_handshake c p type mtu method methods tail_space
        ≡ some (some (b, p')))
      × ((parse_tlvs b).tlv ≡ some (encode (handshake_records c type mtu method methods)))
      × ((parse_tlvs b).records ≡ stored no_records (handshake_records c type mtu method methods))
      × Says c type mtu (parse_tlvs b).records
parse_tlvs-new_handshake c type mtu method methods tail_space ip ne big small =
    let (b, p', e, made) =
      new_handshake-Made c type mtu method methods tail_space ip ne big small in
    let rs = handshake_records c type mtu method methods in
    let bytes : length (encode rs) < 2 ^ 16 = omega (arith, made.built.bounded) in
    let parsed = Built-parsed rs made.built (IsSmall-records c type mtu method methods bytes) in
    let recs = ap (λ h. h.records) parsed in
    (
      b,
      p',
      e,
      ap (λ h. h.tlv) parsed,
      recs,
      rw recs (handshake_records-Says c type mtu method methods),
    )

-- The mode ids are bytes.
mode_byte : (c : Config) → get_mode_id c.mode % 256 ≡ get_mode_id c.mode
unfolding get_mode_id
mode_byte c = go c.mode
  where
    go : (m : Mode) → get_mode_id m % 256 ≡ get_mode_id m
    go tap = refl
    go multitap = refl
    go tun = refl

-- The handshake that a receiver hands to the protocol.
abbrev pub taken : ℕ → Tlvs → Handshake
taken type rs = record {
  type = type;
  flags = flag_l2tp_support;
  records = stored no_records rs;
  tlv = some (encode rs);
}

-- Both nodes speak the same protocol in the same mode.
abbrev pub Compatible : Config → Config → Type 0
Compatible c c' = (c'.protocol_name ≡ c.protocol_name) × (get_mode_id c.mode ≡ get_mode_id c'.mode)

module _ (c c' : Config) (type mtu : ℕ) (h : Handshake) (says : Says c type mtu h.records)
    (flags : h.flags ≡ flag_l2tp_support) (mine : NoNul c.protocol_name)
    (theirs : NoNul c'.protocol_name) where
  flags-pass : (next : Verdict) → check_flags h next ≡ next
  unfolding check_flags
  flags-pass next = rw (says.flags_are, flags, check_flags) refl

  protocol-pass :
      (next : Verdict)
      → (check_protocol_name c' h next ≡ accept)
        ↔ ((c'.protocol_name ≡ c.protocol_name) × (next ≡ accept))
  unfolding check_protocol_name
  protocol-pass next =
      let iff = string_equal_iff c'.protocol_name c.protocol_name theirs in
      let same = cut-NoNul c.protocol_name mine in
      rw (says.protocol_is, check_protocol_name)
        (λ e. ground (arith, iff, same), λ e. ground (arith, iff, same))

  mode-pass :
      (next : Verdict)
      → (check_mode c' h next ≡ accept)
        ↔ ((get_mode_id c.mode ≡ get_mode_id c'.mode) × (next ≡ accept))
  unfolding check_mode as_uint8
  mode-pass next = rw (says.mode_is, check_mode, mode_byte c) (λ e. ground arith, λ e. ground arith)

  pub records-pass : check_reply h ≡ accept → (check_records c' h ≡ accept) ↔ Compatible c c'
  unfolding check_records
  records-pass r =
      let rest = check_mode c' h (check_reply h) in
      let flags_ok = flags-pass (check_protocol_name c' h rest) in
      let protocol = protocol-pass rest in
      let mode = mode-pass (check_reply h) in
      (
        (λ e. let (p, q) = protocol.0 (sym flags_ok ∙ e) in (p, (mode.0 q).0)),
        (λ k. flags_ok ∙ protocol.1 (k.0, mode.1 (k.1, r))),
      )
