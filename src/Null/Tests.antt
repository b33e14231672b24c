-- ===== src/Null/Tests.antt =====
-- Runs of the methods that do not encrypt, and their theorems at concrete packets.
use fastd.Base.{◌≡◌, true, some, [], ◌∷◌, ◌++◌, arith, replicate}
use fastd.Buffer.{Buffer}
use fastd.Buffer.Payload.{IsValid, payload}
use fastd.Buffer.Pool.{Pool, IsPool, size_max}
use fastd.Null.{NullSession, l2tp_header, l2tp_encrypt, l2tp_decrypt}
use fastd.Null.RoundTrip.{l2tp_decrypt-l2tp_encrypt}

-- Two bytes with a headroom of ten.
abbrev two_bytes : Buffer
two_bytes = record { base = replicate 10 9 ++ (5 ∷ 6 ∷ replicate 36 0); head = 10; len = 2 }

two_bytes-IsValid : IsValid two_bytes
two_bytes-IsValid = record { inside = omega arith; small = omega arith }

abbrev no_bytes : Buffer
no_bytes = record two_bytes { len = 0 }

abbrev one_free : Pool
one_free = record {
  max_buffer = 48;
  buffers = (record { base = replicate 48 7; head = 0; len = size_max }) ∷ [];
}

one_free-IsPool : IsPool one_free
one_free-IsPool = record { marked = omega arith; small = omega arith }

abbrev compat : NullSession
compat = record { flags = 2; valid = true }

l2tp_decrypt-l2tp_encrypt_example :
    (b1 : Buffer) × (b2 : Buffer) × (l2tp_encrypt one_free two_bytes ≡ some (b1, one_free))
    × (payload b1 ≡ l2tp_header ++ payload two_bytes)
    × (l2tp_decrypt b1 ≡ some (some (b2, 0)))
    × (payload b2 ≡ payload two_bytes)
l2tp_decrypt-l2tp_encrypt_example =
    l2tp_decrypt-l2tp_encrypt one_free two_bytes-IsValid (omega arith) (omega arith)
