-- ===== src/Compression.antt =====
-- src/compression.c, in a build with zstd: the payload of a compressed session, with its marker.
pub mod Pack
pub mod RoundTrip
mod Tests
use fastd.Base.{
  ℕ, ◌+◌, Option, none, some, ◌>>=◌, List, [], ◌∷◌, ◌==◌, ltb, leb, if◌then◌else◌, length, take,
  drop, get_or, write,
}
use fastd.Buffer.{Buffer, pull_to}
use fastd.Buffer.Pool.{Pool, alloc, free}

-- What the library zstd gives: `compress` has the level of the configuration first, and `none` is an
-- error; `content_size` is `none` for an error and for an unknown size; `decompress` has the room for
-- its result.
pub record Zstd : Type 0 where
  pub compress : ℕ → List ℕ → Option (List ℕ)
  pub content_size : List ℕ → Option ℕ
  pub decompress : List ℕ → ℕ → Option (List ℕ)

abbrev pub packet_plain : ℕ
packet_plain = 0

abbrev pub packet_zstd : ℕ
packet_zstd = 1

abbrev pub data_of : Buffer → List ℕ
data_of b = take b.len (drop b.head b.base)

-- Bytes at the start of a buffer's data; `none` is a write behind its space.
unfoldable pub store : Buffer → List ℕ → Option Buffer
store b bytes =
    if leb (b.head + length bytes) (length b.base)
    then some (record b { base = write b.base b.head bytes })
    else none

-- `room` is `conf.encrypt_headroom` here and below.
unfoldable pub mark_plain : ℕ → Pool → Buffer → Option (Buffer × Pool)
mark_plain room p b = do
  (out, p') ← alloc p (b.len + 1) room
  out' ← store out (packet_plain ∷ data_of b)
  some (out', free p' b)

-- `fastd_compress_payload` behind the call of zstd.
unfoldable pub compressed_payload : ℕ → Pool → Buffer → Option (List ℕ) → Option (Buffer × Pool)
compressed_payload room p b none = mark_plain room p b
compressed_payload room p b (some bytes) =
    let smaller : Option (Buffer × Pool) = (do
      (out, p') ← alloc p (length bytes + 1) room
      out' ← store out (packet_zstd ∷ bytes)
      some (record out' { len = length bytes + 1 }, free p' b)) in
    let plain = mark_plain room p b in if leb (b.len + 1) (length bytes + 1) then plain else smaller

unfoldable pub compress_payload : Zstd → ℕ → ℕ → Pool → Buffer → Option (Buffer × Pool)
compress_payload z level room p b =
    let packed = compressed_payload room p b (z.compress level (data_of b)) in
    if b.len == 0 then some (b, p) else packed

-- `fastd_decompress_payload` behind the call of ZSTD_decompress. The inner `none` is NULL.
unfoldable pub decompressed :
    Pool → Buffer → Buffer → ℕ → Option (List ℕ) → Option (Option Buffer × Pool)
decompressed p b out n none = some (none, free (free p out) b)
decompressed p b out n (some bytes) = do
  out' ← store out bytes
  (if length bytes == n then some (some out', free p b) else some (none, free (free p out') b))

-- ... behind the call of ZSTD_getFrameContentSize.
unfoldable pub decompress_sized :
    Zstd → ℕ → ℕ → Pool → Buffer → Option ℕ → Option (Option Buffer × Pool)
decompress_sized z room max_payload p b none = some (none, free p b)
decompress_sized z room max_payload p b (some n) =
    let fits : Option (Option Buffer × Pool) = (do
      (out, p') ← alloc p n room
      decompressed p' b out n (z.decompress (data_of b) n)) in
    if ltb max_payload n then some (none, free p b) else fits

unfoldable pub decompress_payload : Zstd → ℕ → ℕ → Pool → Buffer → Option (Option Buffer × Pool)
decompress_payload z room max_payload p b =
    let marked : Option (Option Buffer × Pool) = (do
      (marker, b') ← pull_to b 1
      let packet_type = get_or marker 0 0
      let sized = decompress_sized z room max_payload p b' (z.content_size (data_of b'))
      (if packet_type == packet_plain
          then some (some b', p)
          else if packet_type == packet_zstd
          then sized
          else some (none, free p b'))) in
    if b.len == 0 then some (none, free p b) else marked
