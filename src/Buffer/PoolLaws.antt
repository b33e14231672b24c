-- ===== src/Buffer/PoolLaws.antt =====
-- The buffer pool of src/buffer.c loses no buffer, and hands out room for what was asked.
use fastd.Base.{
  ℕ, suc, ◌+◌, ◌-◌, ◌%◌, ◌≤◌, ◌≡◌, ◌≢◌, ◌↔◌, ap, ◌∙◌, refl, Option, none, some, List, [], ◌∷◌, inl,
  inr, arith, length, All, Bool-cases, leb, ◌&&◌, ◌==◌, sym, take, drop, write, length-write,
  drop-write, ◌++◌, take-length_append,
}
use fastd.Util.{size_mod, size_add, alignto, block128, alignto_block}
use fastd.Buffer.{Buffer}
use fastd.Buffer.Payload.{IsValid, payload, length-payload}
use fastd.Buffer.Pool.{
  Pool, IsFree, IsPool, size_max, take_first, alloc, free, cleanup_buffers, dup, align,
}

-- A request that `fastd_buffer_alloc` accepts.
pub record Fits (p : Pool) (len room : ℕ) : Type 0 where
  pub no_wrap : room + len + block128 ≤ size_mod
  pub within : alignto (room + len) block128 ≤ p.max_buffer

pub alloc-take_first :
    (p : Pool) (len room : ℕ) → Fits p len room → alloc p len room ≡ take_first p p.buffers len room
unfolding alloc
alloc-take_first p len room h = rw same (ground arith)
  where
    same : size_add room len ≡ room + len
    same = omega arith

pub take_first-cons :
    (p : Pool) (b : Buffer) (bs : List Buffer) (len room : ℕ)
    → b.len ≡ size_max
    → take_first p (b ∷ bs) len room
      ≡ some (record b { head = room; len = len }, record p { buffers = bs })
unfolding take_first
take_first-cons p b bs len room h = ground arith

-- What `alloc` promises of its result.
pub record Served (p : Pool) (len room : ℕ) (b : Buffer) (p' : Pool) : Type 0 where
  pub result : alloc p len room ≡ some (b, p')
  pub ordered : IsPool p'
  pub valid : IsValid b
  pub head : b.head ≡ room
  pub len_eq : b.len ≡ len
  pub space : length b.base ≡ p.max_buffer
  pub same_max : p'.max_buffer ≡ p.max_buffer
  pub count : length p.buffers ≡ suc (length p'.buffers)

-- A request that fits, from a pool in order that has a buffer, is served: the new buffer has the
-- headroom and the length that were asked, lies within its space, and leaves the pool in order with
-- one buffer less.
pub alloc-Served :
    {p : Pool} (len room : ℕ)
    → IsPool p
    → p.buffers ≢ []
    → Fits p len room
    → (b : Buffer) × (p' : Pool) × Served p len room b p'
alloc-Served {p} len room h ne fits = go p.buffers refl h.marked ne
  where
    go :
        (bs : List Buffer)
        → p.buffers ≡ bs
        → All (IsFree p.max_buffer) bs
        → bs ≢ []
        → (b : Buffer) × (p' : Pool) × Served p len room b p'
    go [] e m n = absurd (n refl)
    go (b ∷ bs) e m n = (
      record b { head = room; len = len },
      record p { buffers = bs },
      record {
        result =
            alloc-take_first p len room fits
            ∙ ap (λ l. take_first p l len room) e
            ∙ take_first-cons p b bs len room m.0.1;
        ordered = record { marked = m.1; small = h.small };
        valid = omega (arith, alignto_block (room + len) fits.no_wrap);
        head = refl;
        len_eq = refl;
        space = m.0.0;
        same_max = refl;
        count = ap length e;
      },
    )

-- A buffer that goes back to the pool is there again, and the pool stays in order.
pub free-IsPool :
    {p : Pool} (b : Buffer)
    → IsPool p
    → length b.base ≡ p.max_buffer
    → IsPool (free p b) × (length (free p b).buffers ≡ suc (length p.buffers))
unfolding free
free-IsPool b h e = (record { marked = ((e, refl), h.marked); small = h.small }, refl)

Fits-zero : (p : Pool) → Fits p 0 0
Fits-zero p = record { no_wrap = omega arith; within = unfold alignto in omega arith }

alloc-nil : (p : Pool) → p.buffers ≡ [] → alloc p 0 0 ≡ none
alloc-nil p e = alloc-take_first p 0 0 (Fits-zero p) ∙ rw e (unfold take_first in refl)

alloc-cons :
    (m : ℕ) (b : Buffer) (bs : List Buffer)
    → b.len ≡ size_max
    → alloc (record { max_buffer = m; buffers = b ∷ bs }) 0 0
      ≡ some (record b { head = 0; len = 0 }, record { max_buffer = m; buffers = bs })
alloc-cons m b bs h = alloc-take_first _ 0 0 (Fits-zero _) ∙ take_first-cons _ b bs 0 0 h

-- What the clean-up does, by the number of buffers in the pool.
cleaned : ℕ → List Buffer → Option Pool
cleaned m (_ ∷ _ ∷ _ ∷ []) = some (record { max_buffer = m; buffers = [] })
cleaned m _ = none

cleanup-cleaned :
    (m : ℕ) (bs : List Buffer)
    → All (IsFree m) bs
    → cleanup_buffers (record { max_buffer = m; buffers = bs }) ≡ cleaned m bs
unfolding cleanup_buffers cleaned
cleanup-cleaned m [] h = rw (alloc-nil (record { max_buffer = m; buffers = [] }) refl)
cleanup-cleaned m (a ∷ []) h =
    rw (alloc-cons m a [] h.0.1, alloc-nil (record { max_buffer = m; buffers = [] }) refl)
cleanup-cleaned m (a ∷ b ∷ []) h = rw (
  alloc-cons m a (b ∷ []) h.0.1,
  alloc-cons m b [] h.1.0.1,
  alloc-nil (record { max_buffer = m; buffers = [] }) refl,
)
cleanup-cleaned m (a ∷ b ∷ c ∷ []) h = rw (
  alloc-cons m a (b ∷ c ∷ []) h.0.1,
  alloc-cons m b (c ∷ []) h.1.0.1,
  alloc-cons m c [] h.1.1.0.1,
)
cleanup-cleaned m (a ∷ b ∷ c ∷ d ∷ ds) h = rw (
  alloc-cons m a (b ∷ c ∷ d ∷ ds) h.0.1,
  alloc-cons m b (c ∷ d ∷ ds) h.1.0.1,
  alloc-cons m c (d ∷ ds) h.1.1.0.1,
)

cleaned_iff :
    (m : ℕ) (bs : List Buffer)
    → (length bs ≡ 3) ↔ (cleaned m bs ≡ some (record { max_buffer = m; buffers = [] }))
unfolding cleaned
cleaned_iff m [] = (λ e. absurd (omega arith), λ e. cc)
cleaned_iff m (a ∷ []) = (λ e. absurd (omega arith), λ e. cc)
cleaned_iff m (a ∷ b ∷ []) = (λ e. absurd (omega arith), λ e. cc)
cleaned_iff m (a ∷ b ∷ c ∷ []) = (λ e. refl, λ e. refl)
cleaned_iff m (a ∷ b ∷ c ∷ d ∷ ds) = (λ e. absurd (omega arith), λ e. cc)

-- The clean-up of a pool in order succeeds exactly if all three buffers are back in the pool, and
-- then it leaves the pool empty.
pub cleanup_buffers_iff :
    {p : Pool}
    → IsPool p
    → (length p.buffers ≡ 3) ↔ (cleanup_buffers p ≡ some (record p { buffers = [] }))
cleanup_buffers_iff {p} h =
    rw (cleanup-cleaned p.max_buffer p.buffers h.marked) (cleaned_iff p.max_buffer p.buffers)

-- The copy that `dup` makes.
dup_lem :
    {p p' : Pool} {b new : Buffer} {room : ℕ}
    → IsValid b
    → Served p b.len room new p'
    → (c : Buffer) × (dup p b room ≡ some (c, p'))
      × (payload c ≡ payload b)
      × (c.head ≡ room)
      × IsValid c
      × (length c.base ≡ p.max_buffer)
unfolding dup
dup_lem {p} {p'} {b} {new} {room} v s = (
  record new { base = write new.base new.head (payload b) },
  rw s.result,
  ap (take new.len) (drop-write new.base new.head (payload b) fits)
      ∙ ap (λ k. take k (payload b ++ rest)) (s.len_eq ∙ sym (length-payload v))
      ∙ take-length_append (payload b) rest,
  s.head,
  record {
    inside = omega (arith, s.valid, length-write new.base new.head (payload b));
    small = omega (arith, s.valid, length-write new.base new.head (payload b));
  },
  length-write new.base new.head (payload b) ∙ s.space,
)
  where
    rest : List ℕ
    rest = drop (new.head + length (payload b)) new.base

    fits : new.head + length (payload b) ≤ length new.base
    fits = omega (arith, s.valid, s.len_eq, length-payload v)

-- `fastd_buffer_align`, with a pool in order that has a buffer and room for the copy: the result has
-- the same payload, at least the headroom asked for, and is aligned behind it. No buffer is lost.
pub align-payload :
    {p : Pool} {b : Buffer} (room : ℕ)
    → IsPool p
    → p.buffers ≢ []
    → IsValid b
    → length b.base ≡ p.max_buffer
    → Fits p b.len room
    → (c : Buffer) × (p' : Pool) × (align p b room ≡ some (c, p'))
      × (payload c ≡ payload b)
      × (room ≤ c.head)
      × ((c.head - room) % block128 ≡ 0)
      × IsValid c
      × IsPool p'
      × (length p'.buffers ≡ length p.buffers)
unfolding align
align-payload {p} {b} room h ne v e fits =
    elim (Bool-cases (leb room b.head && (b.head - room) % block128 == 0)) [
      | inl t ↦ (b, p, rw t, refl, ground arith, ground arith, v, h, refl)
      | inr t ↦
          let (new, p', s) = alloc-Served b.len room h ne fits in
          let (c, ec, pc, hc, vc, lc) = dup_lem v s in
          let (h', n) = free-IsPool b s.ordered (e ∙ sym s.same_max) in
          (c, free p' b, rw (t, ec), pc, omega arith, rw hc (omega arith), vc, h', n ∙ sym s.count)
    ]
