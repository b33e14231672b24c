-- ===== src/Poly1305/Open.antt =====
-- generic_poly1305.c: what method_decrypt does with a packet.
pub mod Checked
use fastd.Base.{
  ℕ, ◌+◌, ◌-◌, ◌%◌, ◌≤◌, ◌<◌, ◌≡◌, ◌≢◌, refl, sym, ap, subst, ◌∙◌, true, false, some, ◌>>=◌, List,
  [], ◌∷◌, ◌++◌, arith, length, take, drop, replicate, length-write, length-append, ltb,
  if◌then◌else◌, take-length_append, drop-length_append, suc,
}
use fastd.Base.Int.{ℤ}
use fastd.Util.{block128, size_mod, ssub_size_t}
use fastd.Buffer.{Buffer, push_zero, pull, pull_to}
use fastd.Buffer.Payload.{
  IsValid, payload, pushed, push_zero_lem, pushed-IsValid, payload-pushed, pulled, pull_lem,
  payload-pulled, length-payload, pull_to_lem,
}
use fastd.Buffer.Pool.{Pool, IsPool, alloc, free}
use fastd.Buffer.PoolLaws.{Fits, Served, alloc-Served}
use fastd.Crypto.{crypt_packet}
use fastd.Crypto.Stream.{xor_stream, IsStream}
use fastd.Crypto.Blocks.{IsAligned, crypt_packet_lem}
use fastd.Method.{head_bytes, expand_nonce}
use fastd.Poly1305.{key_bytes, tag_bytes, OneTimeAuth, PolySession, poly1305_verify, poly1305_open}
use fastd.Poly1305.Seal.{with_zeroes, zeroes, packet_stream, one_time_key, keyed-payload}

-- Buffers of `method_decrypt`: the pool has one to give, and the packet stands 8 bytes behind a block,
-- where the header ends on one. `room` is `conf.encrypt_headroom`.
pub record CanReceive (p : Pool) (room : ℕ) (b : Buffer) : Type 0 where
  pub pool : IsPool p
  pub some_free : p.buffers ≢ []
  pub valid : IsValid b
  pub start : b.head % block128 ≡ 8
  pub aligned : length b.base % block128 ≡ 0
  pub space : length b.base ≡ p.max_buffer
  pub room_low : key_bytes ≤ room
  pub room_high : room < size_mod
  pub room_aligned : room % block128 ≡ 0
  pub fits : Fits p (b.len + 8) (room - key_bytes)

ssub-room :
    (room : ℕ) → key_bytes ≤ room → room < size_mod → ssub_size_t room key_bytes ≡ room - key_bytes
unfolding ssub_size_t
ssub-room room h k = ground arith

-- The text of a packet, and the buffer that the cipher reads.
abbrev pub text_of : Buffer → Buffer
text_of b = pulled (pulled b head_bytes) tag_bytes

open-run :
    (a : OneTimeAuth) (now room : ℕ) (p p' : Pool) (s : PolySession)
    (b b1 b2 b3 b4 out filled : Buffer) (nonce tag : List ℕ) (flags : ℕ) (age : ℤ)
    → pull b head_bytes ≡ some b1
    → pull_to b1 tag_bytes ≡ some (tag, b2)
    → push_zero b2 key_bytes ≡ some b3
    → alloc p b3.len (ssub_size_t room key_bytes) ≡ some (out, p')
    → crypt_packet s.cipher s.secret 0 b3 out (expand_nonce nonce s.cipher.iv_length)
      ≡ some (some filled)
    → pull b3 key_bytes ≡ some b4
    → poly1305_open a now room p s b (some (nonce, flags, age))
      ≡ poly1305_verify a now p' s b4 out tag nonce flags age (some filled)
unfolding poly1305_open
open-run a now room p p' s b b1 b2 b3 b4 out filled nonce tag flags age e1 e2 e3 e4 e5 e6 =
    rw (e1, e2, e3, e4, e5, e6) refl

-- Where `method_decrypt` stands when it has called the cipher.
pub record Opened (a : OneTimeAuth) (now room : ℕ) (p : Pool) (s : PolySession) (b : Buffer)
    (nonce tag : List ℕ) (flags : ℕ) (age : ℤ) (k : ℕ → ℕ) (text : List ℕ) : Type 0 where
  pub rest : Buffer
  pub out : Buffer
  pub filled : Buffer
  pub pool : Pool
  pub result :
      poly1305_open a now room p s b (some (nonce, flags, age))
      ≡ poly1305_verify a now pool s rest out tag nonce flags age (some filled)
  pub rest_valid : IsValid rest
  pub rest_text : payload rest ≡ text
  pub rest_head : rest.head ≡ b.head + (head_bytes + tag_bytes)
  pub rest_space : length rest.base ≡ p.max_buffer
  pub filled_valid : IsValid filled
  pub filled_text : payload filled ≡ one_time_key k ++ xor_stream k key_bytes text
  pub filled_head : filled.head ≡ room - key_bytes
  pub filled_space : length filled.base ≡ p.max_buffer
  pub ordered : IsPool pool
  pub same_max : pool.max_buffer ≡ p.max_buffer
  pub count : length p.buffers ≡ suc (length pool.buffers)

module _ {p : Pool} {room : ℕ} {b : Buffer} (h : CanReceive p room b) (header tag text : List ℕ)
    (l : length header ≡ head_bytes) (m : length tag ≡ tag_bytes)
    (e : payload b ≡ header ++ (tag ++ text)) where
  long : head_bytes + tag_bytes ≤ b.len
  long = omega (
    arith,
    length-payload h.valid,
    ap length e,
    length-append header (tag ++ text),
    length-append tag text,
  )

  after_header : payload (pulled b head_bytes) ≡ tag ++ text
  after_header =
      payload-pulled b head_bytes (omega (arith, long))
      ∙ ap (drop head_bytes) e
      ∙ ap (λ j. drop j (header ++ (tag ++ text))) (sym l)
      ∙ drop-length_append header (tag ++ text)

  header-IsValid : IsValid (pulled b head_bytes)
  header-IsValid = omega (arith, h.valid, long)

  pulled_tag : pull_to (pulled b head_bytes) tag_bytes ≡ some (tag, text_of b)
  pulled_tag =
      pull_to_lem tag_bytes header-IsValid (omega (arith, long))
      ∙ ap (λ t. some (t, text_of b))
          (ap (take tag_bytes) after_header
            ∙ ap (λ j. take j (tag ++ text)) (sym m)
            ∙ take-length_append tag text)

  text-IsValid : IsValid (text_of b)
  text-IsValid = omega (arith, h.valid, long)

  after_tag : payload (text_of b) ≡ text
  after_tag =
      payload-pulled (pulled b head_bytes) tag_bytes (omega (arith, long))
      ∙ ap (drop tag_bytes) after_header
      ∙ ap (λ j. drop j (tag ++ text)) (sym m)
      ∙ drop-length_append tag text

  text_room : key_bytes ≤ (text_of b).head
  text_room = omega (arith, h.start)

  input-IsAligned : IsAligned (with_zeroes (text_of b))
  input-IsAligned =
      let w = length-write b.base ((text_of b).head - key_bytes) zeroes in
      record {
        valid = pushed-IsValid zeroes text-IsValid text_room;
        start = omega (arith, h.start);
        space = omega (arith, h.aligned, w);
        room = omega (arith, h.space, h.pool.small, w);
      }

  input_text : payload (with_zeroes (text_of b)) ≡ zeroes ++ text
  input_text = payload-pushed zeroes text-IsValid text_room ∙ ap (λ t. zeroes ++ t) after_tag

  input_rest :
      pull (with_zeroes (text_of b)) key_bytes ≡ some (pulled (with_zeroes (text_of b)) key_bytes)
  input_rest = pull_lem key_bytes input-IsAligned.valid (omega arith)

  rest_after : payload (pulled (with_zeroes (text_of b)) key_bytes) ≡ text
  rest_after =
      payload-pulled (with_zeroes (text_of b)) key_bytes (omega arith)
      ∙ ap (drop key_bytes) input_text
      ∙ drop-length_append zeroes text

  pub open_lem :
      (a : OneTimeAuth) (now : ℕ) (s : PolySession) (nonce : List ℕ) (flags : ℕ) (age : ℤ)
      → (c : IsStream s.cipher)
      → Opened a now room p s b nonce tag flags age (packet_stream s c nonce) text
  open_lem a now s nonce flags age c =
      let k = packet_stream s c nonce in
      let input = with_zeroes (text_of b) in
      let same_len : b.len + 8 ≡ input.len = omega (arith, long) in
      let fits = subst (λ n. Fits p n (room - key_bytes)) same_len h.fits in
      let (out, p', served) = alloc-Served input.len (room - key_bytes) h.pool h.some_free fits in
      let (filled, f, v, same, head, len, space) =
        crypt_packet_lem s.secret 0 (expand_nonce nonce s.cipher.iv_length) c input-IsAligned served
          fits (omega (arith, h.room_aligned)) in
      record {
        rest = pulled input key_bytes;
        out = out;
        filled = filled;
        pool = p';
        result =
            open-run a now room p p' s b (pulled b head_bytes) (text_of b) input
              (pulled input key_bytes) out filled nonce tag flags age
              (pull_lem head_bytes h.valid (omega (arith, long))) pulled_tag
              (push_zero_lem key_bytes text-IsValid text_room)
              (ap (alloc p input.len) (ssub-room room h.room_low h.room_high) ∙ served.result) f
              input_rest;
        rest_valid = omega (arith, input-IsAligned.valid);
        rest_text = rest_after;
        rest_head = omega (arith, text_room);
        rest_space = length-write b.base ((text_of b).head - key_bytes) zeroes ∙ h.space;
        filled_valid = v;
        filled_text = same ∙ ap (xor_stream k 0) input_text ∙ keyed-payload k text;
        filled_head = head;
        filled_space = space;
        ordered = served.ordered;
        same_max = served.same_max;
        count = served.count;
      }
