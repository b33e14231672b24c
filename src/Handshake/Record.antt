-- ===== src/Handshake/Record.antt =====
-- src/handshake.h: records are added at the end of a handshake packet, whose header counts their
-- bytes.
use fastd.Base.{
  ℕ, ◌+◌, ◌*◌, ◌/◌, ◌%◌, ◌^◌, Option, none, some, ◌>>=◌, List, [], ◌∷◌, ltb, if◌then◌else◌, length,
  get_or, write, replicate,
}
use fastd.Buffer.{Buffer}

-- The record types of `fastd_handshake_record_type_t`.
abbrev pub record_handshake_type : ℕ
record_handshake_type = 0

abbrev pub record_reply_code : ℕ
record_reply_code = 1

abbrev pub record_error_detail : ℕ
record_error_detail = 2

abbrev pub record_flags : ℕ
record_flags = 3

abbrev pub record_mode : ℕ
record_mode = 4

abbrev pub record_protocol_name : ℕ
record_protocol_name = 5

abbrev pub record_mtu : ℕ
record_mtu = 11

abbrev pub record_method_name : ℕ
record_method_name = 12

abbrev pub record_version_name : ℕ
record_version_name = 13

abbrev pub record_method_list : ℕ
record_method_list = 14

abbrev pub record_compression_name : ℕ
record_compression_name = 16

abbrev pub record_transport : ℕ
record_transport = 17

abbrev pub record_max : ℕ
record_max = 18

-- RECORD_LEN, and `sizeof(fastd_handshake_packet_t)`.
abbrev pub record_len : ℕ → ℕ
record_len len = len + 4

abbrev pub packet_size : ℕ
packet_size = 4

-- A byte of the space at an offset from the packet's start.
abbrev pub byte_at : Buffer → ℕ → ℕ
byte_at b i = get_or b.base (b.head + i) 0

-- The bytes of a 16-bit number, highest first (network order) and lowest first.
abbrev pub be16 : ℕ → List ℕ
be16 n = n / 256 % 256 ∷ n % 256 ∷ []

abbrev pub le16 : ℕ → List ℕ
le16 n = n % 256 ∷ n / 256 % 256 ∷ []

unfoldable pub tlv_data : Buffer → ℕ
tlv_data b = b.head + packet_size

unfoldable pub tlv_len : Buffer → ℕ
tlv_len b = byte_at b 2 * 256 + byte_at b 3

-- The result is the buffer and the offset of the value, whose bytes are not initialised. `none` is
-- the end of the process: the space is too small.
unfoldable pub extend : Buffer → ℕ → ℕ → Option (Buffer × ℕ)
unfolding tlv_len
extend b type len =
    let dst = b.head + b.len in
    if ltb (length b.base) (dst + record_len len)
    then none
    else let counted = write b.base (b.head + 2) (be16 ((tlv_len b + record_len len) % 2 ^ 16)) in
      some (
        record {
          base = write counted dst (type % 256 ∷ type / 256 % 256 ∷ le16 len);
          head = b.head;
          len = b.len + record_len len;
        },
        dst + 4,
      )

unfoldable pub add : Buffer → ℕ → List ℕ → Option Buffer
add b type bytes = do
  (b', dst) ← extend b type (length bytes)
  some (record b' { base = write b'.base dst bytes })

unfoldable pub add_zero : Buffer → ℕ → ℕ → Option (Buffer × ℕ)
add_zero b type len = do
  (b', dst) ← extend b type len
  some (record b' { base = write b'.base dst (replicate len 0) }, dst)

unfoldable pub add_uint8 : Buffer → ℕ → ℕ → Option Buffer
add_uint8 b type value = do
  (b', dst) ← extend b type 1
  some (record b' { base = write b'.base dst (value % 256 ∷ []) })

unfoldable pub add_uint16 : Buffer → ℕ → ℕ → Option Buffer
add_uint16 b type value = do
  (b', dst) ← extend b type 2
  some (record b' { base = write b'.base dst (value % 256 ∷ value / 2 ^ 8 % 256 ∷ []) })

unfoldable pub add_uint24 : Buffer → ℕ → ℕ → Option Buffer
add_uint24 b type value = do
  (b', dst) ← extend b type 3
  some (record b' {
    base = write b'.base dst (value % 256 ∷ value / 2 ^ 8 % 256 ∷ value / 2 ^ 16 % 256 ∷ []);
  })

unfoldable pub add_uint32 : Buffer → ℕ → ℕ → Option Buffer
add_uint32 b type value = do
  (b', dst) ← extend b type 4
  some (record b' {
    base =
        write b'.base dst
          (value % 256 ∷ value / 2 ^ 8 % 256 ∷ value / 2 ^ 16 % 256 ∷ value / 2 ^ 24 % 256 ∷ []);
  })

-- The shortest of the four that holds the value.
unfoldable pub add_uint : Buffer → ℕ → ℕ → Option Buffer
unfolding add_uint8 add_uint16 add_uint24 add_uint32
add_uint b type value =
    if ltb 0xffffff value
    then add_uint32 b type value
    else if ltb 0xffff value
    then add_uint24 b type value
    else if ltb 0xff value
    then add_uint16 b type value
    else add_uint8 b type value
