-- ===== src/Buffer.antt =====
-- src/buffer.h: a packet buffer is a fixed space and a window into it. The window's start can be
-- moved to the front (push) or to the back (pull) without moving data.
pub mod Payload
pub mod Views
pub mod Pool
pub mod PoolLaws
pub mod PoolRuns
mod Tests
use fastd.Base.{
  ℕ, ◌+◌, ◌-◌, ◌%◌, ◌≤◌, Option, none, some, ◌>>=◌, List, ltb, if◌then◌else◌, length, take, drop,
  replicate, write,
}
use fastd.Util.{size_mod, size_add, size_sub, alignto, block128}

-- `fastd_buffer_t`: `head` is `data - base`, and `base` holds `ctx.max_buffer` bytes.
pub record Buffer : Type 0 where
  pub base : List ℕ
  pub head : ℕ
  pub len : ℕ

-- `fastd_buffer_view_t`, by the space that it points into.
pub record View : Type 0 where
  pub base : List ℕ
  pub head : ℕ
  pub len : ℕ

-- `none` is the end of the process by `exit_bug`.
unfoldable pub headroom : Buffer → ℕ
headroom b = b.head

unfoldable pub push : Buffer → ℕ → Option Buffer
unfolding headroom
push b n =
    if ltb (headroom b) n
    then none
    else some (record b { head = b.head - n; len = size_add b.len n })

unfoldable pub push_zero : Buffer → ℕ → Option Buffer
push_zero b n = do b' ← push b n; some (record b' { base = write b'.base b'.head (replicate n 0) })

-- The list is the `len` bytes at `data`.
unfoldable pub push_from : Buffer → List ℕ → Option Buffer
push_from b bytes = do
  b' ← push b (length bytes)
  some (record b' { base = write b'.base b'.head bytes })

unfoldable pub pull : Buffer → ℕ → Option Buffer
pull b n =
    if ltb b.len n then none else some (record b { head = b.head + n; len = size_sub b.len n })

unfoldable pub pull_to : Buffer → ℕ → Option (List ℕ × Buffer)
pull_to b n = let bytes = take n (drop b.head b.base) in do b' ← pull b n; some (bytes, b')

unfoldable pub get_view : Buffer → View
get_view b = record { base = b.base; head = b.head; len = b.len }

unfoldable pub view_pull : View → ℕ → Option View
view_pull v n =
    if ltb v.len n then none else some (record v { head = v.head + n; len = size_sub v.len n })

unfoldable pub view_pull_to : View → ℕ → Option (List ℕ × View)
view_pull_to v n =
    let bytes = take n (drop v.head v.base) in do v' ← view_pull v n; some (bytes, v')

unfoldable pub zero_pad : Buffer → Buffer
zero_pad b =
    let end = size_add b.head b.len in
    record b { base = write b.base end (replicate (alignto end block128 - end) 0) }
