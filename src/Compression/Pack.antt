-- ===== src/Compression/Pack.antt =====
-- src/compression.c: what fastd_compress_payload makes of a payload.
use fastd.Base.{
  ℕ, ◌+◌, ◌≤◌, ◌<◌, ◌≡◌, ◌≢◌, ◌⊎◌, inl, inr, refl, sym, ap, ◌∙◌, true, false, Bool-cases,
  Option-cases, Option, none, some, ◌==◌, leb, ltb, if◌then◌else◌, List, [], ◌∷◌, ◌++◌, arith,
  length, take, drop, write, length-write, drop-write, take-length_append, ltb→lt,
}
use fastd.Util.{alignto, block_count, block128, size_mod}
use fastd.Buffer.{Buffer}
use fastd.Buffer.Payload.{IsValid, payload, length-payload}
use fastd.Buffer.Pool.{Pool, IsPool, alloc, free}
use fastd.Buffer.PoolLaws.{Fits, Served, alloc-Served, free-IsPool}
use fastd.Compression.{
  Zstd, packet_plain, packet_zstd, store, mark_plain, compressed_payload, compress_payload,
}

-- A buffer that a payload of at most `n` bytes may replace.
pub record CanReplace (p : Pool) (room n : ℕ) (b : Buffer) : Type 0 where
  pub pool : IsPool p
  pub some_free : p.buffers ≢ []
  pub valid : IsValid b
  pub space : length b.base ≡ p.max_buffer
  pub fits : Fits p n room

alignto-le : (m n : ℕ) → m ≤ n → n + block128 ≤ size_mod → alignto m block128 ≤ alignto n block128
unfolding alignto block_count
alignto-le m n h k = omega arith

Fits-less : {p : Pool} {n room : ℕ} (m : ℕ) → Fits p n room → m ≤ n → Fits p m room
Fits-less {p} {n} {room} m f h = record {
  no_wrap = omega (arith, f.no_wrap, h);
  within =
      omega (arith, f.within, f.no_wrap, alignto-le (room + m) (room + n) (omega arith) f.no_wrap);
}

-- A new buffer with bytes.
pub stored :
    {p p' : Pool} {out : Buffer} {len room : ℕ} (bytes : List ℕ)
    → Served p len room out p'
    → length bytes ≡ len
    → (out' : Buffer) × (store out bytes ≡ some out')
      × IsValid out'
      × (payload out' ≡ bytes)
      × (out'.len ≡ len)
      × (length out'.base ≡ p.max_buffer)
unfolding store
stored {p} {p'} {out} {len} {room} bytes s e =
    let base = write out.base out.head bytes in
    let inside : out.head + length bytes ≤ length out.base =
      omega (arith, s.valid.inside, s.len_eq, e) in
    let same_length = length-write out.base out.head bytes in
    let fits : leb (out.head + length bytes) (length out.base) ≡ true = ground (arith, inside) in
    (
      record out { base = base },
      ap (λ b. if b then some (record out { base = base }) else none) fits,
      record {
        inside = omega (arith, inside, same_length, s.len_eq, e);
        small = omega (arith, same_length, s.valid.small);
      },
      ap (take out.len) (drop-write out.base out.head bytes inside)
          ∙ ap (λ n. take n (bytes ++ drop (out.head + length bytes) out.base)) (s.len_eq ∙ sym e)
          ∙ take-length_append bytes (drop (out.head + length bytes) out.base),
      s.len_eq,
      same_length ∙ s.space,
    )

-- A text with its marker: as it is, or as a frame that is shorter.
abbrev pub Packed : Zstd → ℕ → List ℕ → List ℕ → Type 0
Packed z level text bytes =
    (bytes ≡ packet_plain ∷ text)
    ⊎ ((frame : List ℕ) × (z.compress level text ≡ some frame)
        × (length frame < length text)
        × (bytes ≡ packet_zstd ∷ frame))

-- A packet that replaces a buffer.
abbrev pub Replaced : Option (Buffer × Pool) → Pool → (List ℕ → Type 0) → Type 0
Replaced result p holds =
    (out : Buffer) × (p' : Pool) × (result ≡ some (out, p'))
    × IsValid out
    × holds (payload out)
    × (length out.base ≡ p.max_buffer)
    × IsPool p'
    × (length p'.buffers ≡ length p.buffers)

module _ {p : Pool} {b : Buffer} {room : ℕ} (h : CanReplace p room (b.len + 1) b) where
  plain-run :
      (out out' : Buffer) (p' : Pool)
      → alloc p (b.len + 1) room ≡ some (out, p')
      → store out (packet_plain ∷ payload b) ≡ some out'
      → mark_plain room p b ≡ some (out', free p' b)
  unfolding mark_plain
  plain-run out out' p' e f = rw (e, f) refl

  mark_plain_lem : Replaced (mark_plain room p b) p (λ bytes. bytes ≡ packet_plain ∷ payload b)
  mark_plain_lem =
      let (out, p', s) = alloc-Served (b.len + 1) room h.pool h.some_free h.fits in
      let (out', e, v, t, l, w) =
        stored (packet_plain ∷ payload b) s (omega (arith, length-payload h.valid)) in
      let (ip, n) = free-IsPool b s.ordered (h.space ∙ sym s.same_max) in
      (out', free p' b, plain-run out out' p' s.result e, v, t, w, ip, n ∙ sym s.count)

  smaller-run :
      (frame : List ℕ) (out out' : Buffer) (p' : Pool)
      → length frame < b.len
      → alloc p (length frame + 1) room ≡ some (out, p')
      → store out (packet_zstd ∷ frame) ≡ some out'
      → compressed_payload room p b (some frame)
        ≡ some (record out' { len = length frame + 1 }, free p' b)
  unfolding compressed_payload
  smaller-run frame out out' p' l e f = rw (less, e, f) refl
    where
      less : leb (b.len + 1) (length frame + 1) ≡ false
      less = ground (arith, l)

  larger-run :
      (frame : List ℕ)
      → b.len ≤ length frame
      → compressed_payload room p b (some frame) ≡ mark_plain room p b
  unfolding compressed_payload
  larger-run frame l = rw more refl
    where
      more : leb (b.len + 1) (length frame + 1) ≡ true
      more = ground (arith, l)

  failed-run : compressed_payload room p b none ≡ mark_plain room p b
  unfolding compressed_payload
  failed-run = refl

  smaller_lem :
      (frame : List ℕ)
      → length frame < b.len
      → Replaced (compressed_payload room p b (some frame)) p (λ bytes. bytes ≡ packet_zstd ∷ frame)
  smaller_lem frame l =
      let fits = Fits-less (length frame + 1) h.fits (omega (arith, l)) in
      let (out, p', s) = alloc-Served (length frame + 1) room h.pool h.some_free fits in
      let (out', e, v, t, m, w) = stored (packet_zstd ∷ frame) s (omega arith) in
      let (ip, n) = free-IsPool b s.ordered (h.space ∙ sym s.same_max) in
      (
        record out' { len = length frame + 1 },
        free p' b,
        smaller-run frame out out' p' l s.result e,
        record { inside = omega (arith, v.inside, m); small = v.small },
        ap (λ n. take n (drop out'.head out'.base)) (sym m) ∙ t,
        w,
        ip,
        n ∙ sym s.count,
      )

  packed :
      (z : Zstd) (level : ℕ)
      → Replaced
          (compressed_payload room p b (z.compress level (payload b)))
          p
          (Packed z level (payload b))
  packed z level =
      let (out, p', e, v, t, w, ip, n) = mark_plain_lem in
      elim (Option-cases (z.compress level (payload b))) [
        | inl f ↦ (out, p', ap (compressed_payload room p b) f ∙ failed-run ∙ e, v, inl t, w, ip, n)
        | inr (frame, f) ↦ elim (Bool-cases (ltb (length frame) b.len)) [
          | inr long ↦ (
            out,
            p',
            ap (compressed_payload room p b) f ∙ larger-run frame (ground (arith, long)) ∙ e,
            v,
            inl t,
            w,
            ip,
            n,
          )
          | inl short ↦
              let (out, p', e, v, t, w, ip, n) = smaller_lem frame (ground (arith, short)) in
              (
                out,
                p',
                ap (compressed_payload room p b) f ∙ e,
                v,
                inr (
                  frame,
                  f,
                  omega (arith, ltb→lt (length frame) b.len short, length-payload h.valid),
                  t,
                ),
                w,
                ip,
                n,
              )
        ]
      ]

-- A payload that is not empty leaves fastd_compress_payload in a buffer of its own, with a marker: as
-- it is, or as a frame of zstd that is shorter. No byte is written out of bounds, and no buffer is lost.
pub compress_payload-Packed :
    {p : Pool} {b : Buffer} {room : ℕ} (z : Zstd) (level : ℕ)
    → CanReplace p room (b.len + 1) b
    → b.len ≢ 0
    → Replaced (compress_payload z level room p b) p (Packed z level (payload b))
unfolding compress_payload
compress_payload-Packed {p} {b} {room} z level h ne =
    let (out, p', e, v, t, w, ip, n) = packed h z level in
    let filled : (b.len == 0) ≡ false = ground (arith, ne) in
    let done = compressed_payload room p b (z.compress level (payload b)) in
    (out, p', ap (λ t. if t then some (b, p) else done) filled ∙ e, v, t, w, ip, n)
