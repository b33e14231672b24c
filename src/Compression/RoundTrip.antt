-- ===== src/Compression/RoundTrip.antt =====
-- src/compression.c: a payload that is compressed and decompressed.
use fastd.Base.{
  ℕ, ◌+◌, ◌≤◌, ◌<◌, ◌≡◌, ◌≢◌, inl, inr, refl, sym, ap, ◌∙◌, true, false, none, some, ◌==◌, ltb,
  if◌then◌else◌, List, [], ◌∷◌, arith, length, take, drop, subst,
}
use fastd.Buffer.{Buffer, pull_to}
use fastd.Buffer.Payload.{IsValid, payload, length-payload, pull_to_lem, pulled, payload-pulled}
use fastd.Buffer.Pool.{Pool, IsPool, alloc, free}
use fastd.Buffer.PoolLaws.{alloc-Served, free-IsPool}
use fastd.Compression.Pack.{CanReplace, Packed, stored, compress_payload-Packed}
use fastd.Compression.{
  Zstd, packet_plain, packet_zstd, store, compress_payload, decompressed, decompress_sized,
  decompress_payload,
}

-- What the code relies on: a frame that zstd has made names the size of its content, and gives it back
-- where there is room for it.
pub record IsZstd (z : Zstd) : Type 0 where
  pub size :
      (level : ℕ) (text frame : List ℕ)
      → z.compress level text ≡ some frame
      → z.content_size frame ≡ some (length text)
  pub back :
      (level : ℕ) (text frame : List ℕ)
      → z.compress level text ≡ some frame
      → z.decompress frame (length text) ≡ some text

module _ (z : Zstd) (room max_payload : ℕ) (p : Pool) (b : Buffer) where
  marked-run :
      (marker : ℕ) (b' : Buffer)
      → 0 < b.len
      → pull_to b 1 ≡ some (marker ∷ [], b')
      → decompress_payload z room max_payload p b ≡ (
          if marker == packet_plain
          then some (some b', p)
          else if marker == packet_zstd
          then decompress_sized z room max_payload p b' (z.content_size (payload b'))
          else some (none, free p b'))
  unfolding decompress_payload
  marked-run marker b' h e = rw (some_bytes, e) refl
    where
      some_bytes : (b.len == 0) ≡ false
      some_bytes = ground (arith, h)

  sized-run :
      (n : ℕ) (text : List ℕ) (out out' : Buffer) (p' : Pool)
      → n ≤ max_payload
      → alloc p n room ≡ some (out, p')
      → z.decompress (payload b) n ≡ some text
      → store out text ≡ some out'
      → length text ≡ n
      → decompress_sized z room max_payload p b (some n) ≡ some (some out', free p' b)
  unfolding decompress_sized decompressed
  sized-run n text out out' p' h e f g l = rw (small, e, f, g, same) refl
    where
      small : ltb max_payload n ≡ false
      small = ground (arith, h)

      same : (length text == n) ≡ true
      same = ground (arith, l)

-- A payload that fastd_compress_payload has packed, in a buffer of the receiver, is decompressed to what
-- it was, if it is not longer than the receiver allows.
pub decompress_payload-Packed :
    {z : Zstd} {level room max_payload : ℕ} {p : Pool} {b : Buffer} (text : List ℕ)
    → IsZstd z
    → CanReplace p room (length text) b
    → length text ≤ max_payload
    → Packed z level text (payload b)
    → (out : Buffer) × (p' : Pool) × (decompress_payload z room max_payload p b
        ≡ some (some out, p'))
      × IsValid out
      × (payload out ≡ text)
      × IsPool p'
      × (length p'.buffers ≡ length p.buffers)
decompress_payload-Packed {z} {level} {room} {max_payload} {p} {b} text zstd h l (inl e) =
    let size : 0 < b.len = omega (arith, ap length e, length-payload h.valid) in
    let first = pull_to_lem 1 h.valid size ∙ ap (λ l. some (take 1 l, pulled b 1)) e in
    (
      pulled b 1,
      p,
      marked-run z room max_payload p b packet_plain (pulled b 1) size first,
      record { inside = omega (arith, h.valid.inside, size); small = h.valid.small },
      payload-pulled b 1 size ∙ ap (drop 1) e,
      h.pool,
      refl,
    )
decompress_payload-Packed {z} {level} {room} {max_payload} {p} {b} text zstd h l
      (inr (frame, f, g, e)) =
    let size : 0 < b.len = omega (arith, ap length e, length-payload h.valid) in
    let first = pull_to_lem 1 h.valid size ∙ ap (λ l. some (take 1 l, pulled b 1)) e in
    let behind = payload-pulled b 1 size ∙ ap (drop 1) e in
    let (out, p', s) = alloc-Served (length text) room h.pool h.some_free h.fits in
    let (out', e', v, t, m, w) = stored text s refl in
    let (ip, n) = free-IsPool (pulled b 1) s.ordered (h.space ∙ sym s.same_max) in
    (
      out',
      free p' (pulled b 1),
      marked-run z room max_payload p b packet_zstd (pulled b 1) size first
          ∙ ap (decompress_sized z room max_payload p (pulled b 1))
              (ap z.content_size behind ∙ zstd.size level text frame f)
          ∙ sized-run z room max_payload p (pulled b 1) (length text) text out out' p' l s.result
              (ap (λ x. z.decompress x (length text)) behind ∙ zstd.back level text frame f) e'
              refl,
      v,
      t,
      ip,
      n ∙ sym s.count,
    )

-- A payload that is not empty, was packed by fastd_compress_payload and arrives in a buffer of the
-- receiver is given back by fastd_decompress_payload, if it is not longer than the receiver allows and
-- zstd gives back what it has compressed. The receiver's pool has as many buffers as before.
pub decompress_payload-compress_payload :
    {p p' q : Pool} {b packet arrived : Buffer} (z : Zstd) (level room room' max_payload : ℕ)
    → IsZstd z
    → CanReplace p room (b.len + 1) b
    → b.len ≢ 0
    → compress_payload z level room p b ≡ some (packet, p')
    → CanReplace q room' b.len arrived
    → payload arrived ≡ payload packet
    → b.len ≤ max_payload
    → (out : Buffer) × (q' : Pool) × (decompress_payload z room' max_payload q arrived
        ≡ some (some out, q'))
      × IsValid out
      × (payload out ≡ payload b)
      × IsPool q'
      × (length q'.buffers ≡ length q.buffers)
decompress_payload-compress_payload {p} {p'} {q} {b} {packet} {arrived} z level room room'
      max_payload zstd h ne e k same l =
    let (packet', p'', f, v, packed, w, ip, n) = compress_payload-Packed z level h ne in
    let one : packet' ≡ packet = cc in
    let size = length-payload h.valid in
    decompress_payload-Packed {level = level} (payload b) zstd
      (subst (λ n. CanReplace q room' n arrived) (sym size) k) (omega (arith, size, l))
      (subst (Packed z level (payload b)) (ap payload one ∙ sym same) packed)
