-- ===== src/Gmac/Answer.antt =====
-- generic_gmac.c and generic_umac.c: the tag decides whether method_decrypt returns the text.
use fastd.Base.{
  ℕ, ◌+◌, ◌-◌, ◌%◌, ◌≤◌, ◌<◌, ◌≡◌, ◌≢◌, inl, inr, sym, ap, subst, ◌∙◌, Bool-cases, true≢false, some,
  List, ◌++◌, arith, length, take, drop, suc, length-append, take-length_append, drop-length_append,
}
use fastd.Base.Int.{ℤ}
use fastd.Util.{block128, size_mod, size_sub, ssub_size_t}
use fastd.Buffer.{Buffer, zero_pad}
use fastd.Buffer.Payload.{
  IsValid, payload, pulled, pull_lem, payload-pulled, take-take, length-payload,
}
use fastd.Buffer.Pool.{Pool, IsPool, alloc, free}
use fastd.Buffer.PoolLaws.{Fits, alloc-Served, free-IsPool}
use fastd.Crypto.{block_equal, get_blocks}
use fastd.Crypto.Stream.{xor_stream, IsStream, length-xor_stream, xor_stream-append}
use fastd.Crypto.Xor.{block_equal_iff}
use fastd.Crypto.Blocks.{crypt_packet_lem, get_blocks_at}
use fastd.Method.{head_bytes, reorder_check, expand_nonce}
use fastd.Method.Header.{behind_header}
use fastd.Method.Result.{received, refused, keep}
use fastd.Gmac.{MacSession, mac_compare, mac_open}
use fastd.Gmac.Pad.{padded}
use fastd.Gmac.Seal.{IsMac, packet_stream, tag_of}
use fastd.Gmac.Open.{
  CanReceive, input_of, open-run, compare-taken, compare-refused, pads, long, input-len,
  input-IsAligned, input-payload, input-tail,
}

ssub-room :
    (room : ℕ) → block128 ≤ room → room < size_mod → ssub_size_t room block128 ≡ room - block128
unfolding ssub_size_t
ssub-room room h k = ground arith

-- Where `method_decrypt` stands when it has called the cipher and the MAC.
record Opened (now room : ℕ) (p : Pool) (s : MacSession) (b : Buffer) (nonce : List ℕ) (flags : ℕ)
    (age : ℤ) (tag hidden text : List ℕ) : Type 0 where
  out : Buffer
  pool : Pool
  result :
      mac_open now room p s b (behind_header b) (some (nonce, flags, age))
      ≡ mac_compare now pool s b out nonce flags age (some tag)
  valid : IsValid out
  front : get_blocks out 1 ≡ some hidden
  enough : block128 ≤ out.len
  rest : drop block128 (payload out) ≡ text
  space : length out.base ≡ p.max_buffer
  ordered : IsPool pool
  same_max : pool.max_buffer ≡ p.max_buffer
  count : length p.buffers ≡ suc (length pool.buffers)

-- The block and the text that the cipher has made.
front-out :
    {out : Buffer} (hidden text : List ℕ)
    → IsValid out
    → out.head % block128 ≡ 0
    → length hidden ≡ block128
    → payload out ≡ hidden ++ text
    → (get_blocks out 1 ≡ some hidden) × (block128 ≤ out.len) × (drop block128 (payload out) ≡ text)
front-out {out} hidden text v h l e =
    let enough : block128 ≤ out.len =
      omega (arith, length-payload v, ap length e, length-append hidden text, l) in
    (
      get_blocks_at out 1 h (omega (arith, v, enough))
          ∙ ap some (
              sym (take-take out.len block128 (drop out.head out.base) enough)
              ∙ ap (take block128) e
              ∙ ap (λ n. take n (hidden ++ text)) (sym l)
              ∙ take-length_append hidden text),
      enough,
      ap (drop block128) e
          ∙ ap (λ n. drop n (hidden ++ text)) (sym l)
          ∙ drop-length_append hidden text,
    )

module _ {p : Pool} {room : ℕ} {b : Buffer} (h : CanReceive p room b) (header first text : List ℕ)
    (l : length header ≡ head_bytes) (m : length first ≡ block128)
    (e : payload b ≡ header ++ (first ++ text)) (now : ℕ) (s : MacSession) (c : IsStream s.cipher)
    (im : IsMac s.mac) (nonce : List ℕ) (flags : ℕ) (age : ℤ) where
  open_lem :
      let k = packet_stream s c nonce in
      Opened now room p s
        (zero_pad b)
        nonce
        flags
        age
        (tag_of s im text)
        (xor_stream k 0 first)
        (xor_stream k block128 text)
  open_lem =
      let k = packet_stream s c nonce in
      let input = input_of b in
      let same_len : b.len - head_bytes ≡ input.len =
        omega (arith, input-len h header first text l m e) in
      let fits = subst (λ n. Fits p n (room - block128)) same_len h.fits in
      let (out, p', served) = alloc-Served input.len (room - block128) h.pool h.some_free fits in
      let (filled, f, v, same, head, len, space) =
        crypt_packet_lem s.secret 0 (expand_nonce nonce s.cipher.iv_length) c
          (input-IsAligned h header first text l m e) served fits (omega (arith, h.room_aligned)) in
      let plain =
        same
        ∙ ap (xor_stream k 0) (input-payload h header first text l m e)
        ∙ xor_stream-append k 0 first text
        ∙ ap (λ i. xor_stream k 0 first ++ xor_stream k i text) (ap (λ n. n + 0) m) in
      let (front, enough, rest) =
        front-out (xor_stream k 0 first) (xor_stream k block128 text) v
          (omega (arith, head, h.room_aligned)) (length-xor_stream k 0 first ∙ m) plain in
      let n : size_sub input.len block128 ≡ length text =
        omega (arith, long h header first text l m e, same_len, h.pad.valid) in
      record {
        out = filled;
        pool = p';
        result =
            open-run now room p p' s (zero_pad b) out filled (behind_header (zero_pad b)) nonce
              (padded text) (tag_of s im text) flags age
              (ap (alloc p input.len) (ssub-room room h.room_low h.room_high) ∙ served.result) f
              (input-tail h header first text l m e)
              (ap (s.mac.digest s.mac_key 0 (padded text)) n
                ∙ im.law s.mac_key 0 (padded text) (length text));
        valid = v;
        front = front;
        enough = enough;
        rest = rest;
        space = space;
        ordered = served.ordered;
        same_max = served.same_max;
        count = served.count;
      }

-- What comes of a packet whose header is accepted: its text, if the tag that its first block hides is
-- that of the text, or the packet itself.
pub data Answer (now room : ℕ) (p : Pool) (s : MacSession) (b : Buffer) (nonce : List ℕ) (flags : ℕ)
    (age : ℤ) (tag hidden text : List ℕ) : Type 0 where
  taken :
      (packet : Buffer) (p' : Pool)
      → tag ≡ hidden
      → mac_open now room p s b (behind_header b) (some (nonce, flags, age))
        ≡ some (
          received
              (keep (reorder_check now s.common nonce age).1 packet)
              (reorder_check now s.common nonce age).0
              (reorder_check now s.common nonce age).1
              flags,
          p',
        )
      → IsValid packet
      → payload packet ≡ text
      → IsPool p'
      → length p'.buffers ≡ length p.buffers
      → Answer now room p s b nonce flags age tag hidden text
  kept :
      (p' : Pool)
      → tag ≢ hidden
      → mac_open now room p s b (behind_header b) (some (nonce, flags, age)) ≡ some (refused b, p')
      → IsPool p'
      → length p'.buffers ≡ length p.buffers
      → Answer now room p s b nonce flags age tag hidden text

answer-Opened :
    {now room : ℕ} {p : Pool} {s : MacSession} {b : Buffer} {nonce : List ℕ} {flags : ℕ} {age : ℤ}
    {tag hidden text : List ℕ}
    → Opened now room p s b nonce flags age tag hidden text
    → length b.base ≡ p.max_buffer
    → length tag ≡ length hidden
    → Answer now room p s b nonce flags age tag hidden text
answer-Opened {now} {s = s} {b = b} {nonce} {flags} {age} {tag} {hidden} o space l =
    elim (Bool-cases (block_equal tag hidden)) [
      | inl good ↦
          let (ip, more) = free-IsPool b o.ordered (space ∙ sym o.same_max) in
          taken (pulled o.out block128) (free o.pool b) ((block_equal_iff tag hidden l).0 good)
            (o.result
              ∙ compare-taken now o.pool s b o.out _ nonce tag hidden flags age o.front good
                  (pull_lem block128 o.valid o.enough))
            (omega (arith, o.valid, o.enough)) (payload-pulled o.out block128 o.enough ∙ o.rest) ip
            (more ∙ sym o.count)
      | inr bad ↦
          let (ip, more) = free-IsPool o.out o.ordered (o.space ∙ sym o.same_max) in
          kept (free o.pool o.out)
            (λ e. true≢false (sym ((block_equal_iff tag hidden l).1 e) ∙ bad))
            (o.result ∙ compare-refused now o.pool s b o.out nonce tag hidden flags age o.front bad)
            ip (more ∙ sym o.count)
    ]

pub answer :
    {p : Pool} {room : ℕ} {b : Buffer}
    → CanReceive p room b
    → (header first text : List ℕ) → length header ≡ head_bytes
    → length first ≡ block128
    → payload b ≡ header ++ (first ++ text)
    → (now : ℕ) (s : MacSession) → (c : IsStream s.cipher) → (im : IsMac s.mac)
    → (nonce : List ℕ) (flags : ℕ) (age : ℤ)
    → Answer now room p s
        (zero_pad b)
        nonce
        flags
        age
        (tag_of s im text)
        (xor_stream (packet_stream s c nonce) 0 first)
        (xor_stream (packet_stream s c nonce) block128 text)
answer h header first text l m e now s c im nonce flags age =
    answer-Opened (open_lem h header first text l m e now s c im nonce flags age)
      ((pads h header first text l m e).space ∙ h.space)
      (im.length_value s.mac_key 0 (padded text) (length text)
        ∙ sym (length-xor_stream (packet_stream s c nonce) 0 first ∙ m))
