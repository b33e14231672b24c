-- ===== src/Handshake/Packet/RoundTrip.antt =====
-- A handshake that src/handshake.c builds is read back by its parser, field by field.
use fastd.Base.{
  ℕ, suc, ◌+◌, ◌*◌, ◌^◌, ◌≤◌, ◌<◌, ◌≡◌, ◌≢◌, refl, sym, ap, ◌∙◌, false, Option, none, some, List,
  [], ◌∷◌, ◌++◌, arith, ◌==◌, ltb, if◌then◌else◌, length, take, drop, write, length-append,
  length-take, length-drop, Bool-cases, inl, inr, write-split,
}
use fastd.Util.{alignto, alignto_block}
use fastd.Buffer.{Buffer, pull}
use fastd.Buffer.Payload.{pulled, pull_lem}
use fastd.Buffer.Pool.{Pool, IsPool, alloc}
use fastd.Buffer.PoolLaws.{Fits, alloc-Served}
use fastd.Handshake.Record.{record_compression_name, record_len, packet_size}
use fastd.Handshake.Layout.{record_bytes}
use fastd.Handshake.Parse.Loop.{Tlvs, encode}
use fastd.Handshake.Methods.{Str, create_method_list}
use fastd.Handshake.Packet.{
  Config, buffer_space, start_packet, opt_len, opt_record, method_list_len, max_handshake_size,
  control_size, packet_handshake, put_records, new_handshake,
}
use fastd.Handshake.Packet.Build.{Built, add_all-Built}
use fastd.Handshake.Packet.Records.{
  opt_tlv, mtu_tlv, method_tlv, list_tlv, handshake_records, put_records-add_all,
}

-- The space that `new_handshake` asks for, before it is cut to `size_t`.
abbrev pub total_space : Config → ℕ → Option Str → List Str → ℕ → ℕ
total_space c mtu method methods tail_space =
    control_size
    + packet_size
    + 4 * record_len 1
    + (if mtu == 0 then 0 else record_len 2)
    + record_len (length c.version)
    + record_len (length c.protocol_name)
    + record_len (opt_len method)
    + record_len (method_list_len methods)
    + opt_record c.compression_name
    + tail_space

length-encode-append :
    (xs ys : Tlvs) → length (encode (xs ++ ys)) ≡ length (encode xs) + length (encode ys)
length-encode-append [] ys = omega arith
length-encode-append ((t, v) ∷ xs) ys = omega (
  arith,
  length-encode-append xs ys,
  length-append v (encode (xs ++ ys)),
  length-append v (encode xs),
)

length-mtu_tlv : (mtu : ℕ) → length (encode (mtu_tlv mtu)) ≡ (if mtu == 0 then 0 else record_len 2)
length-mtu_tlv mtu = elim (Bool-cases (mtu == 0)) [ inl e ↦ rw e refl | inr e ↦ rw e refl ]

length-opt_tlv : (t : ℕ) (o : Option Str) → length (encode (opt_tlv t o)) ≡ opt_record o
length-opt_tlv t none = refl
length-opt_tlv t (some s) = omega (arith, length-append s [])

length-method_tlv :
    (method : Option Str) (methods : List Str)
    → length (encode (method_tlv method methods)) ≤ record_len (opt_len method)
length-method_tlv none [] = omega arith
length-method_tlv (some s) [] = omega (arith, length-append s [])
length-method_tlv method (m ∷ ms) = omega arith

length-list_tlv :
    (methods : List Str) → length (encode (list_tlv methods)) ≤ record_len (method_list_len methods)
length-list_tlv [] = omega arith
length-list_tlv (m ∷ ms) =
    let (list, len) = create_method_list (m ∷ ms) in
    omega (arith, length-append (take len list) [], length-take len list)

-- The records and the reply code fit the space.
length-handshake_records :
    (c : Config) (type mtu : ℕ) (method : Option Str) (methods : List Str) (tail_space : ℕ)
    → length (encode (handshake_records c type mtu method methods))
        + tail_space
        + control_size
        + packet_size
        + record_len 1
      ≤ total_space c mtu method methods tail_space
length-handshake_records c type mtu method methods tail_space =
    let opt = opt_tlv record_compression_name c.compression_name in
    let list = list_tlv methods ++ opt in
    let named = method_tlv method methods ++ list in
    omega (
      arith,
      length-encode-append (mtu_tlv mtu) _,
      length-append c.version (record_bytes 5 c.protocol_name ++ encode named),
      length-append c.protocol_name (encode named),
      length-encode-append (method_tlv method methods) list,
      length-encode-append (list_tlv methods) opt,
      length-mtu_tlv mtu,
      length-method_tlv method methods,
      length-list_tlv methods,
      length-opt_tlv record_compression_name c.compression_name,
    )

-- What a request for a new handshake ends in: the records of `rs` in a fresh buffer of the pool.
pub record Made (p : Pool) (rs : Tlvs) (tail_space : ℕ) (b : Buffer) (p' : Pool) : Type 0 where
  pub built : Built b rs (record_len 1 + tail_space)
  pub ordered : IsPool p'
  pub count : length p.buffers ≡ suc (length p'.buffers)

pub start-Built :
    (b : Buffer) (room : ℕ)
    → b.head ≡ control_size
    → control_size + packet_size + room ≤ length b.base
    → room < 2 ^ 16
    → Built (start_packet b) [] room
start-Built b room at fits small = record {
  before = take control_size b.base;
  post = drop (control_size + packet_size) b.base;
  shape = record {
    base =
        ap (λ h. write b.base h (packet_handshake ∷ 0 ∷ 0 ∷ 0 ∷ [])) at
        ∙ write-split b.base control_size (packet_handshake ∷ 0 ∷ 0 ∷ 0 ∷ []) (omega arith);
    head = at ∙ sym (omega (arith, length-take control_size b.base));
    len = refl;
    small = omega arith;
  };
  room_le = omega (arith, length-drop (control_size + packet_size) b.base);
  bounded = omega (arith, small);
}

new_handshake-run :
    (p p' : Pool) (b b' d : Buffer) {total : ℕ} (c : Config) (type mtu : ℕ) (method : Option Str)
    (methods : List Str) (tail_space : ℕ)
    → buffer_space c mtu method methods tail_space ≡ total
    → total ≤ max_handshake_size
    → alloc p total 0 ≡ some (b, p')
    → pull b control_size ≡ some b'
    → put_records c type mtu method methods (start_packet b') ≡ some d
    → new_handshake c p type mtu method methods tail_space ≡ some (some (d, p'))
unfolding new_handshake
new_handshake-run p p' b b' d {total} c type mtu method methods tail_space space small e f g =
    let inside : ltb max_handshake_size total ≡ false = ground (arith, small) in
    rw (space, inside, e, f, g) refl

pub new_handshake-Made :
    {p : Pool} (c : Config) (type mtu : ℕ) (method : Option Str) (methods : List Str)
    (tail_space : ℕ)
    → IsPool p
    → p.buffers ≢ []
    → max_handshake_size ≤ p.max_buffer
    → total_space c mtu method methods tail_space ≤ max_handshake_size
    → (b : Buffer) × (p' : Pool) × (new_handshake c p type mtu method methods tail_space
        ≡ some (some (b, p')))
      × Made p (handshake_records c type mtu method methods) tail_space b p'
unfolding alignto
new_handshake-Made {p} c type mtu method methods tail_space ip ne big small =
    let rs = handshake_records c type mtu method methods in
    let total = total_space c mtu method methods tail_space in
    let fit = length-handshake_records c type mtu method methods tail_space in
    let space : buffer_space c mtu method methods tail_space ≡ total =
      unfold buffer_space in omega (arith, small) in
    let bound = alignto_block total (omega (arith, small)) in
    let fits : Fits p total 0 = record {
      no_wrap = omega (arith, small);
      within = omega (arith, bound, small, big);
    } in
    let (b, p', s) = alloc-Served total 0 ip ne fits in
    let b' = pulled b control_size in
    let start =
      start-Built b' (length (encode rs) + (record_len 1 + tail_space)) (omega (arith, s.head))
        (omega (arith, s.space, fit, small, big)) (omega (arith, fit, small)) in
    let (d, e, made) = add_all-Built (start_packet b') [] rs (record_len 1 + tail_space) start in
    (
      d,
      p',
      new_handshake-run p p' b b' d c type mtu method methods tail_space space small s.result
          (pull_lem control_size s.valid (omega (arith, s.len_eq)))
          (put_records-add_all c type mtu method methods (start_packet b') ∙ e),
      record { built = made; ordered = s.ordered; count = s.count },
    )
