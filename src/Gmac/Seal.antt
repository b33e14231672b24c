-- ===== src/Gmac/Seal.antt =====
-- generic_gmac.c and generic_umac.c: the packet that method_encrypt makes.
use fastd.Base.{
  ℕ, ◌+◌, ◌-◌, ◌*◌, ◌%◌, ◌≤◌, ◌<◌, ◌≡◌, ◌≢◌, refl, sym, ap, ap₂, ◌∙◌, some, List, [], ◌∷◌, ◌++◌,
  arith, length, take, drop, replicate, length-append, length-write, take-length_append,
  drop-length_append,
}
use fastd.Util.{block128, size_sub, size_mod}
use fastd.Buffer.{Buffer, push_zero, zero_pad}
use fastd.Buffer.Payload.{
  IsValid, payload, pushed, push_zero_lem, pushed-IsValid, payload-pushed, take-take,
  length-payload,
}
use fastd.Buffer.Pool.{Pool, IsPool, alloc, free}
use fastd.Buffer.PoolLaws.{Fits, alloc-Served, free-IsPool}
use fastd.Crypto.{Mac, block_xor, get_blocks, put_blocks, crypt_packet}
use fastd.Crypto.Stream.{xor_stream, IsStream, length-xor_stream, xor_stream-append}
use fastd.Crypto.Xor.{length-block_xor}
use fastd.Crypto.Blocks.{
  IsAligned, crypt_packet_lem, get_blocks_at, put_blocks_at, filled, payload-filled,
}
use fastd.Method.{
  Session, nonce_bytes, head_bytes, packet_type, increment_nonce, expand_nonce, put_common_header,
}
use fastd.Method.Header.{with_header, with_header-payload, put_common_header_lem}
use fastd.Method.Result.{sealed}
use fastd.Poly1305.{common_headroom}
use fastd.Gmac.{MacSession, get_tail, mac_tagged, mac_seal, mac_encrypt}
use fastd.Gmac.Pad.{padded, CanPad, Padded, zero_pad-Padded, get_tail_lem}

-- A MAC never fails, and its value is a block that depends on the key, the flags, the blocks and the
-- length.
pub record IsMac (m : Mac) : Type 0 where
  pub value : List ℕ → ℕ → List ℕ → ℕ → List ℕ
  pub law :
      (key : List ℕ) (flags : ℕ) (blocks : List ℕ) (len : ℕ)
      → m.digest key flags blocks len ≡ some (value key flags blocks len)
  pub length_value :
      (key : List ℕ) (flags : ℕ) (blocks : List ℕ) (len : ℕ)
      → length (value key flags blocks len) ≡ block128

-- The key stream of a packet, by its nonce; the block that hides the tag; and the tag of a text that is
-- encrypted.
abbrev pub packet_stream : (s : MacSession) → IsStream s.cipher → List ℕ → ℕ → ℕ
packet_stream s c nonce = c.stream s.secret 0 (expand_nonce nonce s.cipher.iv_length)

abbrev pub zero_block : List ℕ
zero_block = replicate block128 0

abbrev pub mask : (ℕ → ℕ) → List ℕ
mask k = xor_stream k 0 zero_block

abbrev pub tag_of : (s : MacSession) → IsMac s.mac → List ℕ → List ℕ
tag_of s m text = m.value s.mac_key 0 (padded text) (length text)

-- The packet behind the header: the hidden tag and the encrypted text.
abbrev pub body : (s : MacSession) → IsMac s.mac → (ℕ → ℕ) → List ℕ → List ℕ
body s m k text =
    block_xor (mask k) (tag_of s m (xor_stream k block128 text)) ++ xor_stream k block128 text

abbrev pub with_zeroes : Buffer → Buffer
with_zeroes b = pushed b zero_block

-- Buffers of `method_encrypt`: the pool has one to give, and the packet has its headroom.
pub record CanSend (p : Pool) (b : Buffer) : Type 0 where
  pub pool : IsPool p
  pub some_free : p.buffers ≢ []
  pub aligned : IsAligned b
  pub headroom : block128 ≤ b.head
  pub space : length b.base ≡ p.max_buffer
  pub fits : Fits p (block128 + b.len) common_headroom

with_zeroes-IsAligned : {b : Buffer} → IsAligned b → block128 ≤ b.head → IsAligned (with_zeroes b)
with_zeroes-IsAligned {b} h r =
    let l = length-write b.base (b.head - block128) zero_block in
    record {
      valid = pushed-IsValid zero_block h.valid r;
      start = omega (arith, h.start);
      space = omega (arith, h.space, l);
      room = omega (arith, h.room, l);
    }

seal-run :
    (p : Pool) (s : MacSession) (b unused out out' packet : Buffer) (flags : ℕ) (common : Session)
    (tail tag first : List ℕ)
    → get_tail (zero_pad out) (size_sub (zero_pad out).len block128) ≡ some tail
    → s.mac.digest s.mac_key 0 tail (size_sub (zero_pad out).len block128) ≡ some tag
    → get_blocks (zero_pad out) 1 ≡ some first
    → put_blocks (zero_pad out) 1 (block_xor first tag) ≡ some out'
    → put_common_header s.common out' flags ≡ some (packet, common)
    → mac_seal p s b unused flags (some out) ≡ some (sealed packet common, free p b)
unfolding mac_seal mac_tagged
seal-run p s b unused out out' packet flags common tail tag first e1 e2 e3 e4 e5 =
    rw (e1, e2, e3, e4, e5) refl

-- The cipher's result, with the text behind the block of the mask.
module _ {out : Buffer} (s : MacSession) (m : IsMac s.mac) (k : ℕ → ℕ) (text : List ℕ)
    (v : IsValid out) (e : payload out ≡ mask k ++ text) (h : out.head ≡ common_headroom)
    (space : length out.base % block128 ≡ 0) (room : length out.base + block128 < size_mod) where
  can_pad : CanPad out
  can_pad = record { valid = v; space = space; room = room }

  length-mask : length (mask k) ≡ block128
  length-mask = length-xor_stream k 0 zero_block

  length-out : out.len ≡ block128 + length text
  length-out =
      omega (arith, length-payload v, ap length e, length-append (mask k) text, length-mask)

  pads : Padded out (zero_pad out)
  pads = zero_pad-Padded can_pad

  text-out : drop block128 (payload out) ≡ text
  text-out =
      ap (drop block128) e
      ∙ ap (λ n. drop n (mask k ++ text)) (sym length-mask)
      ∙ drop-length_append (mask k) text

  tail-out : get_tail (zero_pad out) (size_sub (zero_pad out).len block128) ≡ some (padded text)
  tail-out =
      get_tail_lem (zero_pad out) 0 can_pad refl (omega (arith, pads.head))
        (omega (arith, pads.len)) (omega (arith, pads.head, h))
        (omega (arith, pads.len, length-out))
      ∙ ap (λ t. some (padded t)) text-out

  digest-out :
      s.mac.digest s.mac_key 0 (padded text) (size_sub (zero_pad out).len block128)
      ≡ some (tag_of s m text)
  digest-out =
      let n : size_sub (zero_pad out).len block128 ≡ length text =
        omega (arith, pads.len, length-out, pads.valid) in
      ap (s.mac.digest s.mac_key 0 (padded text)) n ∙ m.law s.mac_key 0 (padded text) (length text)

  one-block : (zero_pad out).head + 1 * block128 ≤ length (zero_pad out).base
  one-block = omega (arith, pads.valid, pads.len, length-out)

  first-out : get_blocks (zero_pad out) 1 ≡ some (mask k)
  first-out =
      let all = drop (zero_pad out).head (zero_pad out).base in
      get_blocks_at (zero_pad out) 1 (omega (arith, pads.head, h)) one-block
      ∙ ap some (
          sym (take-take (zero_pad out).len block128 all (omega (arith, pads.len, length-out)))
          ∙ ap (take block128) (pads.text ∙ e)
          ∙ ap (λ n. take n (mask k ++ text)) (sym length-mask)
          ∙ take-length_append (mask k) text)

  first : List ℕ
  first = block_xor (mask k) (tag_of s m text)

  length-first : length (block_xor (mask k) (tag_of s m text)) ≡ block128
  length-first =
      let l = m.length_value s.mac_key 0 (padded text) (length text) in
      length-block_xor (mask k) (tag_of s m text) (omega (arith, length-mask, l)) ∙ length-mask

  marked :
      IsValid (filled (zero_pad out) (block_xor (mask k) (tag_of s m text)))
      × (payload (filled (zero_pad out) (block_xor (mask k) (tag_of s m text)))
          ≡ block_xor (mask k) (tag_of s m text) ++ text)
  marked =
      let x = block_xor (mask k) (tag_of s m text) in
      let (w, t) =
        payload-filled x pads.valid (omega (arith, length-first, pads.len, length-out)) in
      (w, t ∙ ap₂ (λ n u. x ++ drop n u) length-first pads.text ∙ ap (λ u. x ++ u) text-out)

  pub seal_lem :
      (p : Pool) (b unused : Buffer) (flags : ℕ)
      → length s.common.send_nonce ≡ nonce_bytes
      → (packet : Buffer) × (mac_seal p s b unused flags (some out)
          ≡ some (
            sealed packet (record s.common { send_nonce = increment_nonce s.common.send_nonce }),
            free p b,
          ))
        × IsValid packet
        × (payload packet
            ≡ packet_type s.common.flags
              ∷ flags
              ∷ (s.common.send_nonce ++ (block_xor (mask k) (tag_of s m text) ++ text)))
  seal_lem p b unused flags n =
      let x = block_xor (mask k) (tag_of s m text) in
      let out' = filled (zero_pad out) x in
      let enough : head_bytes ≤ out'.head = omega (arith, pads.head, h) in
      let (w, t) = with_header-payload s.common.send_nonce flags s.common.flags marked.0 enough n in
      (
        with_header out' s.common.send_nonce flags s.common.flags,
        seal-run p s b unused out out' _ flags _ (padded text) (tag_of s m text) (mask k) tail-out
            digest-out first-out
            (put_blocks_at (zero_pad out) x (omega (arith, pads.head, h)) one-block)
            (put_common_header_lem s.common flags marked.0 enough n),
        w,
        t ∙ ap (λ u. packet_type s.common.flags ∷ flags ∷ (s.common.send_nonce ++ u)) marked.1,
      )

encrypt-run :
    (p p' : Pool) (s : MacSession) (b out filled : Buffer) (flags : ℕ)
    → push_zero b block128 ≡ some (with_zeroes b)
    → alloc p (block128 + b.len) common_headroom ≡ some (out, p')
    → crypt_packet s.cipher s.secret 0
        (with_zeroes b)
        out
        (expand_nonce s.common.send_nonce s.cipher.iv_length)
      ≡ some (some filled)
    → mac_encrypt p s b flags ≡ mac_seal p' s (with_zeroes b) out flags (some filled)
unfolding mac_encrypt
encrypt-run p p' s b out filled flags e f g = rw (e, f, g) refl

-- With a stream cipher, a MAC, headroom and a free buffer, method_encrypt sends a packet with the
-- session's next nonce in its header, a block with the tag of the encrypted text under the key stream
-- of that nonce, and the encrypted text. Only the nonce of the session changes, and the pool has as
-- many buffers as before.
pub mac_encrypt-payload :
    {p : Pool} {b : Buffer} (s : MacSession) (flags : ℕ)
    → (c : IsStream s.cipher) → (m : IsMac s.mac) → CanSend p b
    → length s.common.send_nonce ≡ nonce_bytes
    → (packet : Buffer) × (p' : Pool) × (mac_encrypt p s b flags
        ≡ some (
          sealed packet (record s.common { send_nonce = increment_nonce s.common.send_nonce }),
          p',
        ))
      × IsValid packet
      × (payload packet
          ≡ packet_type s.common.flags
            ∷ flags
            ∷ (s.common.send_nonce ++ body s m (packet_stream s c s.common.send_nonce) (payload b)))
      × IsPool p'
      × (length p'.buffers ≡ length p.buffers)
mac_encrypt-payload {p} {b} s flags c m h n =
    let k = packet_stream s c s.common.send_nonce in
    let (out, p', served) =
      alloc-Served (block128 + b.len) common_headroom h.pool h.some_free h.fits in
    let (filled, e, v, same, head, len, space) =
      crypt_packet_lem s.secret 0 (expand_nonce s.common.send_nonce s.cipher.iv_length) c
        (with_zeroes-IsAligned h.aligned h.headroom) served h.fits refl in
    let text =
      same
      ∙ ap (xor_stream k 0) (payload-pushed zero_block h.aligned.valid h.headroom)
      ∙ xor_stream-append k 0 zero_block (payload b) in
    let (packet, f, w, q) =
      seal_lem s m k (xor_stream k block128 (payload b)) v text head
        (omega (arith, space, h.space, h.aligned.space)) (omega (arith, space, h.pool.small)) p'
        (with_zeroes b) out flags n in
    let (ip, more) =
      free-IsPool (with_zeroes b) served.ordered
        (length-write b.base (b.head - block128) zero_block ∙ h.space ∙ sym served.same_max) in
    (
      packet,
      free p' (with_zeroes b),
      encrypt-run p p' s b out filled flags (push_zero_lem block128 h.aligned.valid h.headroom)
            served.result e
          ∙ f,
      w,
      q,
      ip,
      more ∙ sym served.count,
    )
