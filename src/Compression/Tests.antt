-- ===== src/Compression/Tests.antt =====
-- The compression with a codec for runs of zeroes.
use fastd.Base.{
  ℕ, zero, suc, ◌≡◌, refl, sym, ap, ◌∙◌, Option, none, some, ◌>>=◌, Option-cases, inl, inr, List,
  [], ◌∷◌, ◌++◌, length, replicate, arith, get_or,
}
use fastd.Util.{alignto, block_count}
use fastd.Buffer.{Buffer}
use fastd.Buffer.Payload.{IsValid, payload}
use fastd.Buffer.Pool.{Pool, IsPool, size_max, alloc, free}
use fastd.Compression.{
  Zstd, compress_payload, decompress_payload, compressed_payload, mark_plain, store,
}
use fastd.Compression.Pack.{CanReplace}
use fastd.Compression.RoundTrip.{IsZstd, decompress_payload-compress_payload}

abbrev zero_run : List ℕ → Option ℕ
zero_run [] = some 0
zero_run (zero ∷ xs) = zero_run xs >>= (λ n. some (suc n))
zero_run (suc x ∷ xs) = none

zero_run-replicate :
    (xs : List ℕ) (n : ℕ) → zero_run xs ≡ some n → (xs ≡ replicate n 0) × (length xs ≡ n)
zero_run-replicate [] n h =
    let none_left : 0 ≡ n = cc in (ap (λ m. replicate m 0) none_left, none_left)
zero_run-replicate (zero ∷ xs) n h = elim (Option-cases (zero_run xs)) [
  | inl e ↦ let h' : none ≡ some n = sym (ap (λ o. o >>= (λ n. some (suc n))) e) ∙ h in absurd cc
  | inr (m, e) ↦
      let h' : some (suc m) ≡ some n = sym (ap (λ o. o >>= (λ n. some (suc n))) e) ∙ h in
      let next : suc m ≡ n = cc in
      let (r, l) = zero_run-replicate xs m e in
      (ap (λ l. 0 ∷ l) r ∙ ap (λ k. replicate k 0) next, omega (arith, l, next))
]
zero_run-replicate (suc x ∷ xs) n h = absurd cc

abbrev frame_of : Option ℕ → Option (List ℕ)
frame_of o = o >>= (λ n. some (n ∷ []))

frame_of-some :
    (o : Option ℕ) (frame : List ℕ)
    → frame_of o ≡ some frame
    → (n : ℕ) × (o ≡ some n) × (frame ≡ n ∷ [])
frame_of-some none frame h = absurd cc
frame_of-some (some n) frame h = let same : n ∷ [] ≡ frame = cc in (n, refl, sym same)

abbrev toy_zstd : Zstd
toy_zstd = record {
  compress = λ level text. frame_of (zero_run text);
  content_size = λ frame. some (get_or frame 0 0);
  decompress = λ frame room. some (replicate (get_or frame 0 0) 0);
}

toy_zstd-IsZstd : IsZstd toy_zstd
toy_zstd-IsZstd = record {
  size = λ level text frame h.
      let (n, e, f) = frame_of-some (zero_run text) frame h in
      ap (λ l. some (get_or l 0 0)) f ∙ ap some (sym (zero_run-replicate text n e).1);
  back = λ level text frame h.
      let (n, e, f) = frame_of-some (zero_run text) frame h in
      ap (λ l. some (replicate (get_or l 0 0) 0)) f ∙ ap some (sym (zero_run-replicate text n e).0);
}

abbrev pool : Pool
pool = record {
  max_buffer = 48;
  buffers = (record { base = replicate 48 7; head = 0; len = size_max }) ∷ [];
}

pool-IsPool : IsPool pool
pool-IsPool = record { marked = omega arith; small = omega arith }

-- Five zeroes, and the two bytes of the packet that carries them.
abbrev five_zeroes : Buffer
five_zeroes = record { base = replicate 16 9 ++ replicate 32 0; head = 16; len = 5 }

abbrev sent_packet : Buffer
sent_packet = record { base = replicate 16 7 ++ (1 ∷ 5 ∷ replicate 30 7); head = 16; len = 2 }

abbrev after : Pool
after = free (record { max_buffer = 48; buffers = [] }) five_zeroes

sent_run : compress_payload toy_zstd 3 16 pool five_zeroes ≡ some (sent_packet, after)
unfolding compress_payload compressed_payload mark_plain store alloc alignto
sent_run = refl

abbrev arrived : Buffer
arrived = record { base = replicate 4 1 ++ (1 ∷ 5 ∷ replicate 42 3); head = 4; len = 2 }

five_zeroes-CanReplace : CanReplace pool 16 6 five_zeroes
five_zeroes-CanReplace = record {
  pool = pool-IsPool;
  some_free = λ e. cc;
  valid = record { inside = omega arith; small = omega arith };
  space = refl;
  fits = record { no_wrap = omega arith; within = unfold alignto block_count in omega arith };
}

arrived-CanReplace : CanReplace pool 16 5 arrived
arrived-CanReplace = record {
  pool = pool-IsPool;
  some_free = λ e. cc;
  valid = record { inside = omega arith; small = omega arith };
  space = refl;
  fits = record { no_wrap = omega arith; within = unfold alignto block_count in omega arith };
}

decompress_payload-compress_payload_example :
    (out : Buffer) × (q' : Pool) × (decompress_payload toy_zstd 16 1500 pool arrived
      ≡ some (some out, q'))
    × IsValid out
    × (payload out ≡ payload five_zeroes)
    × IsPool q'
    × (length q'.buffers ≡ length pool.buffers)
decompress_payload-compress_payload_example =
    decompress_payload-compress_payload toy_zstd 3 16 16 1500 toy_zstd-IsZstd five_zeroes-CanReplace
      (λ e. absurd (omega (arith, e))) sent_run arrived-CanReplace refl (omega arith)
