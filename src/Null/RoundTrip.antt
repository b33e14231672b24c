-- ===== src/Null/RoundTrip.antt =====
-- src/methods/null and null-l2tp: a packet that is sent is the one that is received.
use fastd.Base.{
  ℕ, ◌≤◌, ◌<◌, ◌≡◌, refl, ap, ◌∙◌, true, false, some, ◌>>=◌, List, [], ◌∷◌, ◌++◌, ◌==◌, ltb, arith,
  length, take, drop, drop-length_append,
}
use fastd.Buffer.{Buffer, View, pull, get_view, view_pull_to}
use fastd.Buffer.Payload.{
  IsValid, payload, pushed, push_from_lem, pushed-IsValid, payload-pushed, pulled, pull_lem,
  payload-pulled,
}
use fastd.Buffer.Views.{get_view-IsValidView, view_read}
use fastd.Buffer.Pool.{Pool, IsPool, alloc, free}
use fastd.Buffer.PoolLaws.{Fits, alloc-Served, free-IsPool}
use fastd.Util.{alignto}
use fastd.Method.{packet_type}
use fastd.Null.{
  NullSession, null_encrypt, null_decrypt, l2tp_header, control_header, l2tp_encrypt,
  l2tp_header_ok, l2tp_decrypt,
}

-- A byte string put before a payload is taken off again.
pull-pushed :
    {b : Buffer} (bytes : List ℕ)
    → IsValid b
    → length bytes ≤ b.head
    → (b' : Buffer) × (pull (pushed b bytes) (length bytes) ≡ some b') × (payload b' ≡ payload b)
pull-pushed {b} bytes v h =
    let w = pushed-IsValid bytes v h in
    (
      pulled (pushed b bytes) (length bytes),
      pull_lem (length bytes) w (omega arith),
      payload-pulled (pushed b bytes) (length bytes) (omega arith)
          ∙ ap (drop (length bytes)) (payload-pushed bytes v h)
          ∙ drop-length_append bytes (payload b),
    )

-- With headroom for the packet type, the null method sends the packet's type, of the sender's session,
-- before the packet, and the receiver gets the packet back, with the flags 0.
pub null_decrypt-null_encrypt :
    {b : Buffer} (s : NullSession)
    → IsValid b
    → 1 ≤ b.head
    → (b1 : Buffer) × (b2 : Buffer) × (null_encrypt s b ≡ some b1)
      × (payload b1 ≡ packet_type s.flags ∷ payload b)
      × (null_decrypt b1 ≡ some (b2, 0))
      × (payload b2 ≡ payload b)
unfolding null_encrypt null_decrypt
null_decrypt-null_encrypt {b} s v h =
    let bytes = packet_type s.flags ∷ [] in
    let (b2, e, same) = pull-pushed bytes v h in
    (
      pushed b bytes,
      b2,
      push_from_lem bytes v h,
      payload-pushed bytes v h,
      ap (λ o. o >>= (λ x. some (x, 0))) e,
      same,
    )

l2tp_decrypt-run :
    (b b' : Buffer) (header : List ℕ) (v : View)
    → 8 ≤ b.len
    → view_pull_to (get_view b) 8 ≡ some (header, v)
    → pull b 8 ≡ some b'
    → l2tp_header_ok header ≡ true
    → l2tp_decrypt b ≡ some (some (b', 0))
unfolding l2tp_decrypt
l2tp_decrypt-run b b' header v long e f ok =
    let enough : ltb b.len 8 ≡ false = ground arith in rw (enough, e, f, ok) refl

l2tp_encrypt-run :
    (p : Pool) (b : Buffer)
    → IsValid b
    → 0 < b.len
    → 8 ≤ b.head
    → l2tp_encrypt p b ≡ some (pushed b l2tp_header, p)
unfolding l2tp_encrypt
l2tp_encrypt-run p b v some_bytes h =
    let no_keepalive : (b.len == 0) ≡ false = ground arith in
    rw (no_keepalive, push_from_lem l2tp_header v h) refl

-- With headroom for its header, the null@l2tp method sends a packet that is not empty behind the
-- header, without a buffer from the pool, and the receiver gets the packet back.
pub l2tp_decrypt-l2tp_encrypt :
    {b : Buffer} (p : Pool)
    → IsValid b
    → 0 < b.len
    → 8 ≤ b.head
    → (b1 : Buffer) × (b2 : Buffer) × (l2tp_encrypt p b ≡ some (b1, p))
      × (payload b1 ≡ l2tp_header ++ payload b)
      × (l2tp_decrypt b1 ≡ some (some (b2, 0)))
      × (payload b2 ≡ payload b)
l2tp_decrypt-l2tp_encrypt {b} p v some_bytes h =
    let w = pushed-IsValid l2tp_header v h in
    let (vv, pv, lv) = get_view-IsValidView w in
    let bytes = payload-pushed l2tp_header v h in
    let (u, e, hu, pu) = view_read l2tp_header (payload b) vv (pv ∙ bytes) in
    let (b2, f, same) = pull-pushed l2tp_header v h in
    let ok : l2tp_header_ok l2tp_header ≡ true = unfold l2tp_header_ok in refl in
    (
      pushed b l2tp_header,
      b2,
      l2tp_encrypt-run p b v some_bytes h,
      bytes,
      l2tp_decrypt-run (pushed b l2tp_header) b2 l2tp_header u (omega arith) e f ok,
      same,
    )

keepalive-run :
    (p p' : Pool) (b b1 : Buffer)
    → b.len ≡ 0
    → alloc (free p b) 0 20 ≡ some (b1, p')
    → IsValid b1
    → b1.head ≡ 20
    → l2tp_encrypt p b ≡ some (pushed (pushed b1 l2tp_header) control_header, p')
unfolding l2tp_encrypt
keepalive-run p p' b b1 z e v h =
    let empty : (b.len == 0) ≡ true = ground (arith, z) in
    let w = pushed-IsValid l2tp_header v (omega arith) in
    rw
      (
        empty,
        e,
        push_from_lem l2tp_header v (omega (arith, h)),
        push_from_lem control_header w (omega (arith, h)),
      )
      refl

keepalive-Fits : (p : Pool) → 32 ≤ p.max_buffer → Fits p 0 20
unfolding alignto
keepalive-Fits p big = record { no_wrap = omega arith; within = omega (arith, big) }

-- For an empty packet the null@l2tp method sends a keepalive, the two headers alone, in a buffer of
-- the pool to which it has given the packet's buffer: the pool has as many buffers as before.
pub l2tp_encrypt-keepalive :
    {p : Pool} (b : Buffer)
    → IsPool p
    → length b.base ≡ p.max_buffer
    → 32 ≤ p.max_buffer
    → b.len ≡ 0
    → (b1 : Buffer) × (p' : Pool) × (l2tp_encrypt p b ≡ some (b1, p'))
      × IsValid b1
      × (payload b1 ≡ control_header ++ l2tp_header)
      × IsPool p'
      × (length p'.buffers ≡ length p.buffers)
unfolding free
l2tp_encrypt-keepalive {p} b ip space big z =
    let (ordered, one_more) = free-IsPool b ip space in
    let fits : Fits (free p b) 0 20 = keepalive-Fits (free p b) big in
    let (c, p', s) = alloc-Served 0 20 ordered (λ e. cc) fits in
    let v = s.valid in
    let w = pushed-IsValid l2tp_header v (omega (arith, s.head)) in
    (
      pushed (pushed c l2tp_header) control_header,
      p',
      keepalive-run p p' b c z s.result v s.head,
      pushed-IsValid control_header w (omega (arith, s.head)),
      payload-pushed control_header w (omega (arith, s.head))
          ∙ ap (λ l. control_header ++ l)
              (payload-pushed l2tp_header v (omega (arith, s.head))
                ∙ ap (λ n. l2tp_header ++ take n (drop c.head c.base)) s.len_eq),
      s.ordered,
      omega (arith, s.count, one_more),
    )
