-- ===== src/Gmac/Pad.antt =====
-- The zero padding (src/buffer.h) of the packets of generic_gmac.c and generic_umac.c.
use fastd.Base.{
  ℕ, ◌+◌, ◌-◌, ◌*◌, ◌%◌, ◌≤◌, ◌<◌, ◌≡◌, refl, sym, ap, ap₂, ◌∙◌, some, List, [], ◌∷◌, ◌++◌, arith,
  length, take, drop, write, replicate, length-take, length-drop, length-write, length-replicate,
  write-split, take-append, take-append_within, take-length_append, take-all, zero, suc,
}
use fastd.Util.{block128, block_count, alignto, size_mod, size_add, size_sub}
use fastd.Buffer.{Buffer, zero_pad}
use fastd.Buffer.Payload.{IsValid, payload, take-take, drop-take, length-payload, payload-pulled}
use fastd.Crypto.{get_blocks}
use fastd.Crypto.Blocks.{get_blocks_at}
use fastd.Gmac.{get_tail}

-- The zeroes from a length to the next block.
abbrev pub padding : ℕ → List ℕ
padding n = replicate ((16 - n % 16) % 16) 0

abbrev pub padded : List ℕ → List ℕ
padded xs = xs ++ padding (length xs)

pub drop-append_within {ℓ} :
    {A : Type ℓ} (n : ℕ) (xs ys : List A) → n ≤ length xs → drop n (xs ++ ys) ≡ drop n xs ++ ys
drop-append_within zero xs ys h = refl
drop-append_within (suc n) [] ys h = absurd (omega arith)
drop-append_within (suc n) (x ∷ xs) ys h = drop-append_within n xs ys (omega arith)

-- A window in an aligned space, padded.
pub record CanPad (b : Buffer) : Type 0 where
  pub valid : IsValid b
  pub space : length b.base % block128 ≡ 0
  pub room : length b.base + block128 < size_mod

zero_pad-eq :
    {b : Buffer}
    → CanPad b
    → zero_pad b ≡ record b { base = write b.base (b.head + b.len) (padding (b.head + b.len)) }
unfolding zero_pad alignto block_count
zero_pad-eq {b} h =
    let e : size_add b.head b.len ≡ b.head + b.len = omega (arith, h.valid) in
    let n : alignto (b.head + b.len) block128 - (b.head + b.len)
        ≡ (16 - (b.head + b.len) % 16) % 16 =
      omega (arith, h.valid, h.room) in
    rw (e, n) refl

-- What stands in the space from `h` on, when the window from `h` of length `l` has been padded.
pad-window :
    (base zeroes : List ℕ) (h l : ℕ)
    → h + l + length zeroes ≤ length base
    → take (l + length zeroes) (drop h (write base (h + l) zeroes)) ≡ take l (drop h base) ++ zeroes
pad-window base zeroes h l fits =
    let w = take l (drop h base) in
    let rest = drop (h + l + length zeroes) base in
    let lw : length w ≡ l = omega (arith, length-take l (drop h base), length-drop h base) in
    let cut : drop h (write base (h + l) zeroes) ≡ w ++ (zeroes ++ rest) =
      ap (drop h) (write-split base (h + l) zeroes fits)
      ∙ drop-append_within h (take (h + l) base) (zeroes ++ rest)
          (omega (arith, length-take (h + l) base))
      ∙ ap (λ t. t ++ (zeroes ++ rest)) (drop-take h l base) in
    ap (take (l + length zeroes)) cut
    ∙ ap (λ n. take (n + length zeroes) (w ++ (zeroes ++ rest))) (sym lw)
    ∙ take-append (length zeroes) w (zeroes ++ rest)
    ∙ ap (λ t. w ++ t) (take-length_append zeroes rest)

-- A buffer that has been padded.
pub record Padded (b c : Buffer) : Type 0 where
  pub head : c.head ≡ b.head
  pub len : c.len ≡ b.len
  pub space : length c.base ≡ length b.base
  pub valid : IsValid c
  pub text : payload c ≡ payload b

module _ {b : Buffer} (h : CanPad b) where
  pads : List ℕ
  pads = padding (b.head + b.len)

  inside : b.head + b.len + length (padding (b.head + b.len)) ≤ length b.base
  inside =
      let zero_byte : ℕ = 0 in
      omega
        (arith, h.valid, h.space, length-replicate ((16 - (b.head + b.len) % 16) % 16) zero_byte)

  pub zero_pad-Padded : Padded b (zero_pad b)
  zero_pad-Padded = rw (zero_pad-eq h) (record {
    head = refl;
    len = refl;
    space = length-write b.base (b.head + b.len) (padding (b.head + b.len));
    valid = omega (arith, h.valid, length-write b.base (b.head + b.len) (padding (b.head + b.len)));
    text =
        sym (
          take-take (b.len + length (padding (b.head + b.len))) b.len
            (drop b.head (write b.base (b.head + b.len) (padding (b.head + b.len)))) (omega arith))
        ∙ ap (take b.len) (pad-window b.base (padding (b.head + b.len)) b.head b.len inside)
        ∙ take-append_within b.len (payload b) (padding (b.head + b.len))
            (omega (arith, length-payload h.valid))
        ∙ take-all b.len (payload b) (omega (arith, length-payload h.valid));
  })

-- The blocks of a window in a padded buffer, which starts `k` bytes behind the packet.
module _ {b : Buffer} (c : Buffer) (k : ℕ) (h : CanPad b) (base : c.base ≡ (zero_pad b).base)
    (head : c.head ≡ b.head + k) (len : c.len + k ≡ b.len) (aligned : c.head % block128 ≡ 0) where
  same-padding : padding (b.head + b.len) ≡ padding c.len
  same-padding =
      let e : (16 - (b.head + b.len) % 16) % 16 ≡ (16 - c.len % 16) % 16 =
        omega (arith, head, len, aligned) in
      ap (λ n. replicate n 0) e

  length-padding : length (padding c.len) ≡ (16 - c.len % 16) % 16
  length-padding = let zero_byte : ℕ = 0 in length-replicate ((16 - c.len % 16) % 16) zero_byte

  size : block_count c.len block128 * block128 ≡ c.len + length (padding c.len)
  size = unfold block_count in omega (arith, length-padding, h.valid, h.room, len)

  text-window : take c.len (drop c.head b.base) ≡ drop k (payload b)
  text-window =
      let e : c.len ≡ b.len - k = omega (arith, len) in
      ap₂ (λ n m. take n (drop m b.base)) e head ∙ payload-pulled b k (omega (arith, len))

  length-text : length (drop k (payload b)) ≡ c.len
  length-text = omega (arith, length-drop k (payload b), length-payload h.valid, len)

  blocks-window :
      take (block_count c.len block128 * block128) (drop c.head c.base)
      ≡ padded (drop k (payload b))
  blocks-window =
      let end : b.head + b.len ≡ c.head + c.len = omega (arith, head, len) in
      let z = padding c.len in
      ap₂ (λ n s. take n (drop c.head s)) size
        (base ∙ ap Buffer.base (zero_pad-eq h) ∙ ap₂ (write b.base) end same-padding)
      ∙ pad-window b.base z c.head c.len (omega (arith, inside h, end, ap length same-padding))
      ∙ ap₂ (λ s n. s ++ padding n) text-window (sym length-text)

  pub padded-blocks :
      (get_blocks c (block_count c.len block128) ≡ some (padded (drop k (payload b))))
      × (length (padded (drop k (payload b))) ≡ block_count c.len block128 * block128)
  padded-blocks =
      let within : c.head + block_count c.len block128 * block128 ≤ length c.base = omega (
        arith,
        size,
        head,
        len,
        inside h,
        ap length same-padding,
        ap length base,
        (zero_pad-Padded h).space,
      ) in
      let n = block_count c.len block128 * block128 in
      (
        get_blocks_at c (block_count c.len block128) aligned within ∙ ap some blocks-window,
        ap length (sym blocks-window)
            ∙ omega (arith, length-take n (drop c.head c.base), length-drop c.head c.base, within),
      )

drop-padded :
    (xs : List ℕ) → block128 ≤ length xs → drop block128 (padded xs) ≡ padded (drop block128 xs)
drop-padded xs h =
    let e : (16 - length xs % 16) % 16 ≡ (16 - length (drop 16 xs) % 16) % 16 =
      omega (arith, length-drop 16 xs) in
    drop-append_within block128 xs (padding (length xs)) h ∙ ap (λ n. drop 16 xs ++ replicate n 0) e

get_tail-run :
    (c : Buffer) (len : ℕ) (bytes : List ℕ)
    → get_blocks c (1 + block_count len block128) ≡ some bytes
    → get_tail c len ≡ some (drop block128 bytes)
unfolding get_tail
get_tail-run c len bytes e = rw e refl

-- What the MAC reads of a packet: the blocks behind the first one, with zeroes at the end.
pub get_tail_lem :
    {b : Buffer} (c : Buffer) (k : ℕ)
    → CanPad b
    → c.base ≡ (zero_pad b).base
    → c.head ≡ b.head + k
    → c.len + k ≡ b.len
    → c.head % block128 ≡ 0
    → block128 ≤ c.len
    → get_tail c (size_sub c.len block128) ≡ some (padded (drop block128 (drop k (payload b))))
get_tail_lem {b} c k h base head len aligned long =
    let (e, l) = padded-blocks c k h base head len aligned in
    let n : 1 + block_count (size_sub c.len block128) block128 ≡ block_count c.len block128 =
      unfold block_count in omega (arith, h.valid, h.room, len, long) in
    get_tail-run c (size_sub c.len block128) (padded (drop k (payload b))) (ap (get_blocks c) n ∙ e)
    ∙ ap some (
        drop-padded (drop k (payload b))
          (omega (arith, long, length-text c k h base head len aligned)))
