-- ===== src/Gmac/Open.antt =====
-- generic_gmac.c and generic_umac.c: what method_decrypt does with a packet that the protocol has padded.
use fastd.Base.{
  ℕ, ◌+◌, ◌-◌, ◌%◌, ◌≤◌, ◌<◌, ◌≡◌, ◌≢◌, refl, sym, ap, ap₂, ◌∙◌, true, false, some, List, [], ◌++◌,
  arith, length, take, drop, length-append, drop-length_append,
}
use fastd.Base.Int.{ℤ}
use fastd.Util.{block128, size_mod, size_sub, ssub_size_t}
use fastd.Buffer.{Buffer, View, zero_pad, pull, get_view}
use fastd.Buffer.Payload.{payload, payload-pulled, length-payload}
use fastd.Buffer.Pool.{Pool, IsPool, alloc, free}
use fastd.Buffer.PoolLaws.{Fits}
use fastd.Crypto.{block_equal, get_blocks, crypt_packet}
use fastd.Crypto.Blocks.{IsAligned}
use fastd.Method.{head_bytes, reorder_check, expand_nonce}
use fastd.Method.Header.{behind_header}
use fastd.Method.Result.{received, refused, keep}
use fastd.Gmac.{MacSession, viewed, get_tail, mac_compare, mac_verify, mac_open}
use fastd.Gmac.Pad.{padded, CanPad, Padded, zero_pad-Padded, get_tail_lem}

-- Buffers of `method_decrypt`: the pool has one to give, and the packet stands 8 bytes behind a block,
-- where the header ends on one. `room` is `conf.encrypt_headroom`.
pub record CanReceive (p : Pool) (room : ℕ) (b : Buffer) : Type 0 where
  pub pool : IsPool p
  pub some_free : p.buffers ≢ []
  pub pad : CanPad b
  pub start : b.head % block128 ≡ 8
  pub space : length b.base ≡ p.max_buffer
  pub room_low : block128 ≤ room
  pub room_high : room < size_mod
  pub room_aligned : room % block128 ≡ 0
  pub fits : Fits p (b.len - head_bytes) (room - block128)

-- The packet behind the header.
abbrev pub input_of : Buffer → Buffer
input_of b = viewed (behind_header (zero_pad b))

pub open-run :
    (now room : ℕ) (p p' : Pool) (s : MacSession) (b out filled : Buffer) (v : View)
    (nonce tail tag : List ℕ) (flags : ℕ) (age : ℤ)
    → alloc p v.len (ssub_size_t room block128) ≡ some (out, p')
    → crypt_packet s.cipher s.secret 0 (viewed v) out (expand_nonce nonce s.cipher.iv_length)
      ≡ some (some filled)
    → get_tail (viewed v) (size_sub v.len block128) ≡ some tail
    → s.mac.digest s.mac_key 0 tail (size_sub v.len block128) ≡ some tag
    → mac_open now room p s b v (some (nonce, flags, age))
      ≡ mac_compare now p' s b filled nonce flags age (some tag)
unfolding mac_open mac_verify
open-run now room p p' s b out filled v nonce tail tag flags age e1 e2 e3 e4 =
    rw (e1, e2, e3, e4) refl

pub compare-taken :
    (now : ℕ) (p : Pool) (s : MacSession) (b out packet : Buffer) (nonce tag first : List ℕ)
    (flags : ℕ) (age : ℤ)
    → get_blocks out 1 ≡ some first
    → block_equal tag first ≡ true
    → pull out block128 ≡ some packet
    → let r = reorder_check now s.common nonce age in
      mac_compare now p s b out nonce flags age (some tag)
      ≡ some (received (keep r.1 packet) r.0 r.1 flags, free p b)
unfolding mac_compare
compare-taken now p s b out packet nonce tag first flags age e f g = rw (e, f, g) refl

pub compare-refused :
    (now : ℕ) (p : Pool) (s : MacSession) (b out : Buffer) (nonce tag first : List ℕ) (flags : ℕ)
    (age : ℤ)
    → get_blocks out 1 ≡ some first
    → block_equal tag first ≡ false
    → mac_compare now p s b out nonce flags age (some tag) ≡ some (refused b, free p out)
unfolding mac_compare
compare-refused now p s b out nonce tag first flags age e f = rw (e, f) refl

module _ {p : Pool} {room : ℕ} {b : Buffer} (h : CanReceive p room b) (header first text : List ℕ)
    (l : length header ≡ head_bytes) (m : length first ≡ block128)
    (e : payload b ≡ header ++ (first ++ text)) where
  pub pads : Padded b (zero_pad b)
  pads = zero_pad-Padded h.pad

  pub long : b.len ≡ head_bytes + (block128 + length text)
  long = omega (
    arith,
    length-payload h.pad.valid,
    ap length e,
    length-append header (first ++ text),
    length-append first text,
    l,
    m,
  )

  pub input-len : (input_of b).len + head_bytes ≡ b.len
  input-len = unfold get_view in omega (arith, pads.len, long)

  input-head : (input_of b).head ≡ b.head + head_bytes
  input-head = unfold get_view in omega (arith, pads.head)

  input-base : (input_of b).base ≡ (zero_pad b).base
  input-base = unfold get_view in refl

  pub input-IsAligned : IsAligned (input_of b)
  input-IsAligned =
      let space = ap length input-base ∙ pads.space in
      record {
        valid = omega (arith, h.pad.valid, space, input-len, input-head);
        start = omega (arith, h.start, input-head);
        space = omega (arith, h.pad.space, space);
        room = omega (arith, h.pad.room, space);
      }

  behind : drop head_bytes (payload b) ≡ first ++ text
  behind =
      ap (drop head_bytes) e
      ∙ ap (λ n. drop n (header ++ (first ++ text))) (sym l)
      ∙ drop-length_append header (first ++ text)

  text-behind : drop block128 (drop head_bytes (payload b)) ≡ text
  text-behind =
      ap (drop block128) behind
      ∙ ap (λ n. drop n (first ++ text)) (sym m)
      ∙ drop-length_append first text

  pub input-payload : payload (input_of b) ≡ first ++ text
  input-payload =
      let n : (input_of b).len ≡ (zero_pad b).len - head_bytes =
        omega (arith, input-len, pads.len) in
      let at_head : (input_of b).head ≡ (zero_pad b).head + head_bytes =
        omega (arith, input-head, pads.head) in
      ap₂ (λ n i. take n (drop i (input_of b).base)) n at_head
      ∙ ap (λ s. take ((zero_pad b).len - head_bytes) (drop ((zero_pad b).head + head_bytes) s))
          input-base
      ∙ payload-pulled (zero_pad b) head_bytes (omega (arith, pads.len, long))
      ∙ ap (drop head_bytes) pads.text
      ∙ behind

  pub input-tail : get_tail (input_of b) (size_sub (input_of b).len block128) ≡ some (padded text)
  input-tail =
      get_tail_lem (input_of b) head_bytes h.pad input-base input-head input-len
        input-IsAligned.start (omega (arith, input-len, long))
      ∙ ap (λ t. some (padded t)) text-behind
