-- ===== src/Crypto/Blocks.antt =====
-- The blocks of a packet's buffer: the methods of src/methods read and write them within the space.
use fastd.Base.{
  ℕ, ◌+◌, ◌-◌, ◌*◌, ◌%◌, ◌≤◌, ◌<◌, ◌≡◌, refl, ap, ◌∙◌, some, List, arith, length, take, drop, write,
  length-take, length-drop, length-write, drop-write, take-append, take-append_within, ◌++◌,
}
use fastd.Util.{block128, block_count, alignto, size_mod}
use fastd.Buffer.{Buffer}
use fastd.Buffer.Payload.{IsValid, payload, payload-pulled, take-take}
use fastd.Buffer.Pool.{Pool}
use fastd.Buffer.PoolLaws.{Fits, Served}
use fastd.Crypto.{Cipher, can_access, get_blocks, put_blocks, store_blocks, crypt_packet}
use fastd.Crypto.Stream.{xor_stream, IsStream, length-xor_stream, take-xor_stream}

-- A packet that can be read in blocks: its window and its space are aligned.
pub record IsAligned (b : Buffer) : Type 0 where
  pub valid : IsValid b
  pub start : b.head % block128 ≡ 0
  pub space : length b.base % block128 ≡ 0
  pub room : length b.base + block128 < size_mod

pub get_blocks_at :
    (b : Buffer) (n : ℕ)
    → b.head % block128 ≡ 0
    → b.head + n * block128 ≤ length b.base
    → get_blocks b n ≡ some (take (n * block128) (drop b.head b.base))
unfolding get_blocks can_access
get_blocks_at b n h k = ground arith

get_blocks_lem :
    {b : Buffer}
    → IsAligned b
    → let n = block_count b.len block128 in
      (get_blocks b n ≡ some (take (n * block128) (drop b.head b.base)))
      × (b.head + n * block128 ≤ length b.base)
      × (b.len ≤ n * block128)
unfolding get_blocks can_access block_count
get_blocks_lem h = (ground arith, omega arith, omega arith)

-- The buffer with blocks of bytes at its window.
abbrev pub filled : Buffer → List ℕ → Buffer
filled b bytes = record b { base = write b.base b.head bytes }

-- Bytes that are written over the front of a packet.
pub payload-filled :
    {b : Buffer} (bytes : List ℕ)
    → IsValid b
    → length bytes ≤ b.len
    → IsValid (filled b bytes)
      × (payload (filled b bytes) ≡ bytes ++ drop (length bytes) (payload b))
payload-filled {b} bytes v h =
    let rest = b.len - length bytes in
    let split : b.len ≡ length bytes + rest = omega (arith, h) in
    (
      omega (arith, v, length-write b.base b.head bytes),
      ap (take b.len) (drop-write b.base b.head bytes (omega (arith, v, h)))
          ∙ ap (λ n. take n (bytes ++ drop (b.head + length bytes) b.base)) split
          ∙ take-append rest bytes (drop (b.head + length bytes) b.base)
          ∙ ap (λ t. bytes ++ t) (payload-pulled b (length bytes) h),
    )

-- A single block at the front of a packet.
pub put_blocks_at :
    (b : Buffer) (bytes : List ℕ)
    → b.head % block128 ≡ 0
    → b.head + 1 * block128 ≤ length b.base
    → put_blocks b 1 bytes ≡ some (filled b bytes)
unfolding put_blocks can_access
put_blocks_at b bytes h k = ground arith

-- A buffer that the pool has served with an aligned headroom takes the blocks of its length.
put_blocks_lem :
    {p p' : Pool} {len room : ℕ} {b : Buffer} (bytes : List ℕ)
    → Served p len room b p'
    → Fits p len room
    → room % block128 ≡ 0
    → length bytes ≡ block_count len block128 * block128
    → (put_blocks b (block_count len block128) bytes ≡ some (filled b bytes))
      × IsValid (filled b bytes)
      × (payload (filled b bytes) ≡ take len bytes)
unfolding put_blocks can_access block_count alignto
put_blocks_lem {p} {p'} {len} {room} {b} bytes s f aligned l = (
  ground (arith, within, s.head, s.space),
  record {
    inside = omega (arith, s.valid, length-write b.base b.head bytes);
    small = omega (arith, s.valid, length-write b.base b.head bytes);
  },
  ap (take b.len) (drop-write b.base b.head bytes (omega (arith, within, s.head, s.space)))
      ∙ ap (λ n. take n (bytes ++ drop (b.head + length bytes) b.base)) s.len_eq
      ∙ take-append_within len bytes (drop (b.head + length bytes) b.base)
          (omega (arith, f.no_wrap)),
)
  where
    within : room + block_count len block128 * block128 ≤ p.max_buffer
    within = omega (arith, f.within, f.no_wrap)

length-blocks :
    {b : Buffer}
    → IsAligned b
    → length (take (block_count b.len block128 * block128) (drop b.head b.base))
      ≡ block_count b.len block128 * block128
length-blocks {b} h =
    let n = block_count b.len block128 * block128 in
    let fits = get_blocks_lem h in
    omega (arith, fits, length-take n (drop b.head b.base), length-drop b.head b.base)

crypt_packet-run :
    (c : Cipher) (key : List ℕ) (flags : ℕ) (b out out' : Buffer) (iv bytes result : List ℕ)
    → get_blocks b (block_count b.len block128) ≡ some bytes
    → c.crypt key flags bytes iv ≡ some result
    → put_blocks out (block_count b.len block128) result ≡ some out'
    → crypt_packet c key flags b out iv ≡ some (some out')
unfolding crypt_packet store_blocks
crypt_packet-run c key flags b out out' iv bytes result e f g = rw (e, f, g) refl

-- A stream cipher on an aligned packet, into a buffer that was allocated for its length: no access is
-- misaligned or out of bounds, and the payload is the exclusive or with the key stream.
pub crypt_packet_lem :
    {c : Cipher} {p p' : Pool} {b out : Buffer} {room : ℕ} (key : List ℕ) (flags : ℕ) (iv : List ℕ)
    → (s : IsStream c) → IsAligned b
    → Served p b.len room out p'
    → Fits p b.len room
    → room % block128 ≡ 0
    → (out' : Buffer) × (crypt_packet c key flags b out iv ≡ some (some out'))
      × IsValid out'
      × (payload out' ≡ xor_stream (s.stream key flags iv) 0 (payload b))
      × (out'.head ≡ room)
      × (out'.len ≡ b.len)
      × (length out'.base ≡ p.max_buffer)
crypt_packet_lem {c} {p} {p'} {b} {out} {room} key flags iv s h v f aligned =
    let k = s.stream key flags iv in
    let bytes = take (block_count b.len block128 * block128) (drop b.head b.base) in
    let (e, inside, enough) = get_blocks_lem h in
    let result = xor_stream k 0 bytes in
    let (g, valid, same) =
      put_blocks_lem result v f aligned (length-xor_stream k 0 bytes ∙ length-blocks h) in
    (
      filled out result,
      crypt_packet-run c key flags b out (filled out result) iv bytes result e
          (s.law key flags bytes iv) g,
      valid,
      same
          ∙ take-xor_stream b.len k 0 bytes
          ∙ ap (xor_stream k 0)
              (take-take (block_count b.len block128 * block128) b.len (drop b.head b.base) enough),
      v.head,
      v.len_eq,
      length-write out.base out.head result ∙ v.space,
    )
