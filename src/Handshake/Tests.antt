-- ===== src/Handshake/Tests.antt =====
-- Runs of src/handshake.c, and the theorems at concrete handshakes.
use fastd.Base.{
  ℕ, ◌<◌, ◌≡◌, ◌≢◌, ◌↔◌, refl, true, Option, some, none, List, [], ◌∷◌, ◌++◌, ◌>>=◌, arith, length,
  take, replicate, All,
}
use fastd.Util.{size_mod}
use fastd.Buffer.{Buffer}
use fastd.Buffer.Pool.{Pool, IsPool, size_max}
use fastd.Handshake.Layout.{IsHandshake}
use fastd.Handshake.Parse.{Handshake, no_records, no_handshake, parse_loop, parse_tlvs}
use fastd.Handshake.Parse.Loop.{encode, stored}
use fastd.Handshake.Parse.RoundTrip.{IsByte}
use fastd.Handshake.Methods.{Str, create_method_list, get_method_by_name_list, names_with_nul}
use fastd.Handshake.Methods.Strings.{NoNul, IsName}
use fastd.Handshake.Methods.Choice.{AllKnown, first_common, choice-first_common}
use fastd.Handshake.Packet.{
  Config, tap, tun, Verdict, accept, new_handshake, handshake_new_init, handshake_new_reply,
  handshake_handle,
}
use fastd.Handshake.Packet.Records.{handshake_records}
use fastd.Handshake.Packet.Fields.{Says}
use fastd.Handshake.Packet.Check.{Compatible, parse_tlvs-new_handshake}
use fastd.Handshake.Packet.Handled.{handshake_handle-new_init, handshake_handle-new_reply}
use fastd.Handshake.Packet.Error.{new_error, parse_tlvs-new_error}

-- "v22", "ec" and the methods "null" and "aes".
abbrev node : Config
node = record {
  version = 118 ∷ 50 ∷ 50 ∷ [];
  protocol_name = 101 ∷ 99 ∷ [];
  mode = tap;
  compression_name = none;
}

abbrev other_node : Config
other_node = record node { mode = tun; version = 118 ∷ 49 ∷ [] }

abbrev null_name : Str
null_name = 110 ∷ 117 ∷ 108 ∷ 108 ∷ []

abbrev aes_name : Str
aes_name = 97 ∷ 101 ∷ 115 ∷ []

abbrev big_pool : Pool
big_pool = record { max_buffer = 1232; buffers = idle ∷ idle ∷ [] }
  where
    idle : Buffer
    idle = record { base = replicate 1232 7; head = 0; len = size_max }

big_pool-IsPool : IsPool big_pool
big_pool-IsPool = record { marked = omega arith; small = omega arith }

has_buffer : big_pool.buffers ≢ []
has_buffer e = cc

parse_tlvs-new_handshake_example :
    (b : Buffer) × (p' : Pool) × (new_handshake node big_pool 2 1400 (some null_name) [] 100
      ≡ some (some (b, p')))
    × ((parse_tlvs b).tlv ≡ some (encode (handshake_records node 2 1400 (some null_name) [])))
    × ((parse_tlvs b).records
        ≡ stored no_records (handshake_records node 2 1400 (some null_name) []))
    × Says node 2 1400 (parse_tlvs b).records
parse_tlvs-new_handshake_example =
    parse_tlvs-new_handshake node 2 1400 (some null_name) [] 100 big_pool-IsPool has_buffer
      (omega arith) (omega arith)

nul_free : NoNul node.protocol_name
nul_free = ground arith

handshake_handle-new_init_example :
    (b : Buffer) × (p' : Pool) × (h : Handshake) × (v : Verdict) × (handshake_new_init node big_pool
        100
      ≡ some (some (b, p')))
    × (handshake_handle other_node b true ≡ some (h, v))
    × (h.type ≡ 1)
    × ((v ≡ accept) ↔ Compatible node other_node)
handshake_handle-new_init_example =
    handshake_handle-new_init node other_node 100 nul_free nul_free big_pool-IsPool has_buffer
      (omega arith) (omega arith)

handshake_handle-new_reply_example :
    (b : Buffer) × (p' : Pool) × (h : Handshake) × (v : Verdict) × (handshake_new_reply node
        big_pool 2 1400 none
        (null_name ∷ aes_name ∷ [])
        100
      ≡ some (some (b, p')))
    × (handshake_handle node b true ≡ some (h, v))
    × (h.type ≡ 2)
    × ((v ≡ accept) ↔ Compatible node node)
unfolding create_method_list
handshake_handle-new_reply_example =
    handshake_handle-new_reply node node 2 1400 none (null_name ∷ aes_name ∷ []) 100 (omega arith)
      nul_free nul_free big_pool-IsPool has_buffer (omega arith) (omega arith)

-- A packet with a gap of two bytes before it and eight behind it.
abbrev gap : Buffer
gap = record { base = 7 ∷ 7 ∷ 1 ∷ 0 ∷ 0 ∷ 0 ∷ replicate 8 9; head = 2; len = 4 }

gap-IsHandshake : IsHandshake gap (7 ∷ 7 ∷ []) 1 0 [] (replicate 6 9 ++ (9 ∷ 9 ∷ []))
gap-IsHandshake = record { base = refl; head = refl; len = refl; small = omega arith }

-- Two records of one type, and a cut one.
abbrev cut_bytes : List ℕ
cut_bytes = 4 ∷ 0 ∷ 1 ∷ 0 ∷ 1 ∷ 4 ∷ 0 ∷ 1 ∷ 0 ∷ 2 ∷ 5 ∷ 0 ∷ 9 ∷ 0 ∷ 1 ∷ []

cut_bytes-IsByte : All IsByte cut_bytes
cut_bytes-IsByte = omega arith

cut_mode : parse_loop 15 cut_bytes no_records 4 ≡ some (2 ∷ [])
unfolding parse_loop
cut_mode = refl

abbrev mode_packet : Buffer
mode_packet = record {
  base = 7 ∷ 7 ∷ 1 ∷ 0 ∷ 0 ∷ 5 ∷ 4 ∷ 0 ∷ 1 ∷ 0 ∷ 1 ∷ 9 ∷ [];
  head = 2;
  len = 9;
}

mode_packet-IsHandshake :
    IsHandshake mode_packet (7 ∷ 7 ∷ []) 1 0 (encode ((4, 1 ∷ []) ∷ [])) (9 ∷ [])
mode_packet-IsHandshake = record { base = refl; head = refl; len = refl; small = omega arith }

two_names-IsName : All IsName (null_name ∷ aes_name ∷ [])
two_names-IsName = ground arith

two_names_small : length (names_with_nul (null_name ∷ aes_name ∷ [])) < size_mod
unfolding names_with_nul
two_names_small = omega arith

-- The methods are known by the lengths of their names.
abbrev known : Str → Option ℕ
known s = some (length s)

aes-AllKnown : AllKnown known (aes_name ∷ [])
aes-AllKnown name h = (length name, refl)

choice-first_common_example :
    let (bytes, len) = create_method_list (null_name ∷ aes_name ∷ []) in
    get_method_by_name_list known (aes_name ∷ []) (some (take len bytes))
    ≡ some (first_common (aes_name ∷ []) (null_name ∷ aes_name ∷ []) >>= known)
choice-first_common_example =
    choice-first_common known (aes_name ∷ []) null_name (aes_name ∷ []) aes-AllKnown
      two_names-IsName two_names_small

-- A handshake that says TCP.
abbrev tcp_handshake : Handshake
tcp_handshake = record no_handshake { records = stored no_records ((17, 2 ∷ []) ∷ []) }

parse_tlvs-new_error_example :
    (b : Buffer) × (p' : Pool) × (new_error big_pool 1 2 4 ≡ some (b, p'))
    × ((parse_tlvs b).records 0 ≡ some (2 ∷ []))
    × ((parse_tlvs b).records 1 ≡ some (2 ∷ []))
    × ((parse_tlvs b).records 2 ≡ some (4 ∷ []))
parse_tlvs-new_error_example =
    parse_tlvs-new_error 1 2 4 big_pool-IsPool has_buffer (omega arith) (omega arith)
