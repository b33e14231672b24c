-- ===== src/Handshake/Packet.antt =====
-- src/handshake.c: building handshake packets, and the checks on a received one.
pub mod Build
pub mod Records
pub mod Fields
pub mod RoundTrip
pub mod Check
pub mod Handled
pub mod Carrier
pub mod Error
use fastd.Base.{
  ℕ, ◌+◌, ◌-◌, ◌*◌, ◌/◌, ◌%◌, ◌^◌, Bool, true, false, not, ◌&&◌, ◌||◌, Option, none, some, ◌>>=◌,
  List, [], ◌∷◌, ◌==◌, ltb, if◌then◌else◌, length, take, write,
}
use fastd.Base.Bits.{bit_and}
use fastd.Util.{size_mod}
use fastd.Buffer.{Buffer, pull}
use fastd.Buffer.Pool.{Pool, alloc}
use fastd.Handshake.Record.{
  record_handshake_type, record_reply_code, record_error_detail, record_flags, record_mode,
  record_protocol_name, record_mtu, record_method_name, record_version_name, record_method_list,
  record_compression_name, record_transport, record_len, packet_size, add, add_uint8, add_uint16,
  add_uint,
}
use fastd.Handshake.Parse.{Handshake, record_length, parse_tlvs, as_uint8, as_uint16}
use fastd.Handshake.Methods.{Str, create_method_list, string_equal}

-- The modes and transports of types.h.
pub data Mode : Type 0 where
  tap multitap tun : Mode

pub data Transport : Type 0 where
  unset udp tcp auto : Transport

-- What of the configuration a handshake shows. `compression_name` is the name of the configured
-- algorithm, if there is one.
pub record Config : Type 0 where
  pub version : Str
  pub protocol_name : Str
  pub mode : Mode
  pub compression_name : Option Str

-- MAX_HANDSHAKE_SIZE, `sizeof(fastd_control_packet_t)`, PACKET_HANDSHAKE and FLAG_L2TP_SUPPORT.
abbrev pub max_handshake_size : ℕ
max_handshake_size = 1232

abbrev pub control_size : ℕ
control_size = 12

abbrev pub packet_handshake : ℕ
packet_handshake = 1

abbrev pub flag_l2tp_support : ℕ
flag_l2tp_support = 1

unfoldable pub get_mode_id : Mode → ℕ
get_mode_id tap = 0
get_mode_id multitap = 0
get_mode_id tun = 1

-- `none` is the end of the process.
unfoldable pub get_transport_id : Transport → Option ℕ
get_transport_id udp = some 1
get_transport_id tcp = some 2
get_transport_id _ = none

unfoldable pub get_transport_by_id : ℕ → Transport
get_transport_by_id id = if id == 1 then udp else if id == 2 then tcp else unset

abbrev pub opt_len : Option Str → ℕ
opt_len none = 0
opt_len (some s) = length s

abbrev pub has_any {ℓ} : {A : Type ℓ} → List A → Bool
has_any [] = false
has_any (x ∷ xs) = true

-- The length of the method list record; `methods` is NULL if there are none.
abbrev pub method_list_len : List Str → ℕ
method_list_len [] = 0
method_list_len (m ∷ ms) = (create_method_list (m ∷ ms)).1

abbrev pub opt_record : Option Str → ℕ
opt_record none = 0
opt_record (some s) = record_len (length s)

unfoldable pub buffer_space : Config → ℕ → Option Str → List Str → ℕ → ℕ
buffer_space c mtu method methods tail_space =
    (control_size
      + packet_size
      + 4 * record_len 1
      + (if mtu == 0 then 0 else record_len 2)
      + record_len (length c.version)
      + record_len (length c.protocol_name)
      + record_len (opt_len method)
      + record_len (method_list_len methods)
      + opt_record c.compression_name
      + tail_space)
    % size_mod

-- The packet header at the start of the window; the window is set to it.
abbrev pub start_packet : Buffer → Buffer
start_packet b = record b {
  base = write b.base b.head (packet_handshake ∷ 0 ∷ 0 ∷ 0 ∷ []);
  len = packet_size;
}

abbrev pub add_opt : Buffer → ℕ → Option Str → Option Buffer
add_opt b type none = some b
add_opt b type (some s) = add b type s

-- The records of `new_handshake`, in its order.
unfoldable pub put_records : Config → ℕ → ℕ → Option Str → List Str → Buffer → Option Buffer
put_records c type mtu method methods start = do
  b ← add_uint8 start record_handshake_type type
  b ← add_uint8 b record_flags flag_l2tp_support
  b ← add_uint8 b record_mode (get_mode_id c.mode)
  b ← if mtu == 0 then some b else add_uint16 b record_mtu mtu
  b ← add b record_version_name c.version
  b ← add b record_protocol_name c.protocol_name
  b ← if has_any methods then some b else add_opt b record_method_name method
  b ←
      if has_any methods
      then add b record_method_list
          (take (create_method_list methods).1 (create_method_list methods).0)
      else some b
  add_opt b record_compression_name c.compression_name

-- The outer option is the end of the process, the inner one the result NULL.
unfoldable pub new_handshake :
    Config → Pool → ℕ → ℕ → Option Str → List Str → ℕ → Option (Option (Buffer × Pool))
new_handshake c p type mtu method methods tail_space =
    let space = buffer_space c mtu method methods tail_space in
    let built : Option (Option (Buffer × Pool)) = (do
      (b, p') ← alloc p space 0
      b ← pull b control_size
      b ← put_records c type mtu method methods (start_packet b)
      some (some (b, p'))) in
    if ltb max_handshake_size space then some none else built

unfoldable pub handshake_new_init : Config → Pool → ℕ → Option (Option (Buffer × Pool))
handshake_new_init c p tail_space = new_handshake c p 1 0 none [] tail_space

unfoldable pub handshake_new_reply :
    Config → Pool → ℕ → ℕ → Option Str → List Str → ℕ → Option (Option (Buffer × Pool))
handshake_new_reply c p type mtu method methods tail_space = do
  made ← new_handshake c p type mtu method methods tail_space
  elim made [
    | none ↦ some none
    | some (b, p') ↦ add_uint8 b record_reply_code 0 >>= (λ b'. some (some (b', p')))
  ]

-- The transport that a handshake advertises.
unfoldable pub get_handshake_transport : Handshake → Transport
unfolding get_transport_by_id
get_handshake_transport h = elim (h.records record_transport) [
  | none ↦ udp
  | some v ↦ if length v == 1 then get_transport_by_id (as_uint8 v) else unset
]

abbrev pub transport_eq : Transport → Transport → Bool
transport_eq unset unset = true
transport_eq udp udp = true
transport_eq tcp tcp = true
transport_eq auto auto = true
transport_eq _ _ = false

-- `fastd_peer_transport_allows`
unfoldable pub transport_allows : Transport → Transport → Bool
transport_allows configured concrete =
    transport_eq configured auto || transport_eq configured concrete

-- `actual` is the transport of the socket, `configured` that of the peer.
unfoldable pub check_transport : Transport → Transport → Handshake → Bool
unfolding get_handshake_transport transport_allows
check_transport actual configured h =
    let advertised = get_handshake_transport h in
    if transport_eq advertised unset
    then false
    else if not (transport_eq advertised actual)
    then false
    else if not (transport_allows configured actual)
    then false
    else true

-- What the checks of a received handshake end in: the handshake is taken, dropped, or answered by an
-- error about one of its fields.
pub data Verdict : Type 0 where
  accept : Verdict
  ignore : Verdict
  unacceptable : ℕ → Verdict

-- The flags outside of FLAG_ALL: `flags & ~FLAG_ALL`.
abbrev pub unknown_flags : ℕ → Bool
unknown_flags flags = not (bit_and flags 254 == 0)

unfoldable pub check_flags : Handshake → Verdict → Verdict
check_flags h next = elim (h.records record_flags) [
  | none ↦ next
  | some v ↦
      if not (length v == 1) || unknown_flags h.flags then unacceptable record_flags else next
]

unfoldable pub check_protocol_name : Config → Handshake → Verdict → Verdict
check_protocol_name c h next = elim (h.records record_protocol_name) [
  | none ↦ next
  | some v ↦ if string_equal c.protocol_name v then next else unacceptable record_protocol_name
]

unfoldable pub check_mode : Config → Handshake → Verdict → Verdict
check_mode c h next = elim (h.records record_mode) [
  | none ↦ next
  | some v ↦
      if not (length v == 1) || not (as_uint8 v == get_mode_id c.mode)
      then unacceptable record_mode
      else next
]

unfoldable pub check_reply : Handshake → Verdict
check_reply h =
    if ltb 1 h.type
    then if record_length (h.records record_reply_code) == 1
      then elim (h.records record_reply_code) [
        | none ↦ ignore
        | some v ↦ if as_uint8 v == 0 then accept else ignore
      ]
      else ignore
    else accept

unfoldable pub check_records : Config → Handshake → Verdict
unfolding check_flags check_protocol_name check_mode check_reply get_mode_id
check_records c h = check_flags h (check_protocol_name c h (check_mode c h (check_reply h)))

-- `fastd_handshake_check_mtu`; `mtu` is `fastd_peer_get_mtu(peer)`.
unfoldable pub check_mtu : ℕ → Handshake → Verdict
check_mtu mtu h = elim (h.records record_mtu) [
  | none ↦ accept
  | some v ↦
      if length v == 2
      then if as_uint16 v == mtu then accept else unacceptable record_mtu
      else accept
]

-- Reads of a record that may be missing.
abbrev pub value_of : Option (List ℕ) → ℕ
value_of none = 0
value_of (some v) = as_uint8 v

abbrev pub flags_of : Option (List ℕ) → ℕ
flags_of none = 0
flags_of (some v) = if ltb 0 (length v) then as_uint8 v else 0

-- The type and the flags of a parsed handshake.
abbrev pub typed : Handshake → Handshake
typed h = record h {
  type = value_of (h.records record_handshake_type);
  flags = flags_of (h.records record_flags);
}

-- `none` is a packet that is dropped before the checks.
abbrev pub judge : Config → Bool → Handshake → Option (Handshake × Verdict)
judge c has_control_header h =
    if not has_control_header && not (bit_and h.flags flag_l2tp_support == 0)
    then none
    else some (h, check_records c h)

unfoldable pub handle_parsed : Config → Bool → Handshake → Option (Handshake × Verdict)
handle_parsed c has_control_header h = elim h.tlv [
  | none ↦ none
  | some _ ↦
      if record_length (h.records record_handshake_type) == 1
      then judge c has_control_header (typed h)
      else none
]

unfoldable pub handshake_handle : Config → Buffer → Bool → Option (Handshake × Verdict)
unfolding handle_parsed
handshake_handle c b has_control_header = handle_parsed c has_control_header (parse_tlvs b)
