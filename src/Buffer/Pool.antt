-- ===== src/Buffer/Pool.antt =====
-- src/buffer.c: the pool of packet buffers, and the operations of src/buffer.h that allocate.
use fastd.Base.{
  ℕ, ◌+◌, ◌-◌, ◌%◌, ◌<◌, ◌≡◌, ◌==◌, ◌&&◌, Option, none, some, ◌>>=◌, List, [], ◌∷◌, ltb, leb,
  if◌then◌else◌, length, take, drop, write, All,
}
use fastd.Util.{size_mod, size_add, alignto, block128}
use fastd.Buffer.{Buffer, headroom}

-- `SIZE_MAX`, the length that marks a buffer of the pool.
abbrev pub size_max : ℕ
size_max = size_mod - 1

-- The free list `buffers`, its next buffer first; `max_buffer` is `ctx.max_buffer`. A buffer is
-- owned by the pool or by one caller, so the link in `data` is the list's.
pub record Pool : Type 0 where
  pub max_buffer : ℕ
  pub buffers : List Buffer

-- The first buffer of the free list, if its mark is intact.
unfoldable pub take_first : Pool → List Buffer → ℕ → ℕ → Option (Buffer × Pool)
take_first p [] len room = none
take_first p (b ∷ bs) len room =
    if b.len == size_max
    then some (record b { head = room; len = len }, record p { buffers = bs })
    else none

-- `none` is the end of the process: an oversized request, no buffer, a buffer written after free.
unfoldable pub alloc : Pool → ℕ → ℕ → Option (Buffer × Pool)
unfolding take_first
alloc p len room =
    if ltb p.max_buffer (alignto (size_add room len) block128)
    then none
    else take_first p p.buffers len room

unfoldable pub free : Pool → Buffer → Pool
free p b = record p { buffers = record b { len = size_max } ∷ p.buffers }

-- The contents of the memory that is allocated at the start are not known.
unfoldable pub init_buffers : ℕ → List ℕ → List ℕ → List ℕ → Pool
unfolding free
init_buffers max a b c =
    free (free (free (record { max_buffer = max; buffers = [] }) (raw a)) (raw b)) (raw c)
  where
    raw : List ℕ → Buffer
    raw m = record { base = m; head = 0; len = 0 }

-- Frees three buffers, which must be all that the pool has.
unfoldable pub cleanup_buffers : Pool → Option Pool
cleanup_buffers p = do
  (_, p1) ← alloc p 0 0
  (_, p2) ← alloc p1 0 0
  (_, p3) ← alloc p2 0 0
  elim p3.buffers [ [] ↦ some p3 | _ ∷ _ ↦ none ]

unfoldable pub dup : Pool → Buffer → ℕ → Option (Buffer × Pool)
dup p b room = do
  (new, p') ← alloc p b.len room
  some (record new { base = write new.base new.head (take b.len (drop b.head b.base)) }, p')

-- `surplus` is signed: it is not negative if the headroom reaches `min_headroom`.
unfoldable pub align : Pool → Buffer → ℕ → Option (Buffer × Pool)
unfolding headroom
align p b min_headroom =
    let moved : Option (Buffer × Pool) = (do
      (new, p') ← dup p b min_headroom
      some (new, free p' b)) in
    if leb min_headroom (headroom b) && (headroom b - min_headroom) % block128 == 0
    then some (b, p)
    else moved

-- A pool in order: each free buffer has `max_buffer` bytes and carries the mark.
abbrev pub IsFree : ℕ → Buffer → Type 0
IsFree max b = (length b.base ≡ max) × (b.len ≡ size_max)

pub record IsPool (p : Pool) : Type 0 where
  pub marked : All (IsFree p.max_buffer) p.buffers
  pub small : p.max_buffer + block128 < size_mod
