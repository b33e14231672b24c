-- ===== src/Method/Result.antt =====
-- What the encrypt and decrypt callbacks of src/method.h return.
use fastd.Base.{ℕ, Bool, Option, none, some}
use fastd.Buffer.{Buffer}
use fastd.Method.{Session}

-- `sealed` is the packet, with the session behind it; the input buffer is freed. `failed` is NULL, with
-- the input buffer, which is still the caller's.
pub data Sent : Type 0 where
  sealed : Buffer → Session → Sent
  failed : Buffer → Sent

-- `received` is the packet, with the session, `*reordered` and `*flags`. In `reordered`, `none` is
-- undef: the packet is a duplicate and comes back empty. `refused` is NULL, with the input buffer.
pub data Received : Type 0 where
  received : Buffer → Session → Option Bool → ℕ → Received
  refused : Buffer → Received

-- The packet by the result of the reorder check.
unfoldable pub keep : Option Bool → Buffer → Buffer
keep none out = record out { len = 0 }
keep (some reordered) out = out
