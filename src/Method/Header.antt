-- ===== src/Method/Header.antt =====
-- The header of src/methods/common.h: what is put before a packet is what is read back.
use fastd.Base.{
  ℕ, ◌≤◌, ◌≡◌, sym, ap, ◌∙◌, refl, none, if◌then◌else◌, some, ◌>>=◌, ◌==◌, List, [], ◌∷◌, ◌++◌,
  arith, length, take, drop, take-all, length-append,
}
use fastd.Buffer.{Buffer, View, view_pull, view_pull_to, get_view}
use fastd.Buffer.Payload.{
  IsValid, payload, view_payload, pushed, push_from_lem, pushed-IsValid, payload-pushed,
}
use fastd.Buffer.Views.{
  IsValidView, view_pulled, get_view-IsValidView, view_read, length-view_payload,
}
use fastd.Method.{
  Session, nonce_bytes, head_bytes, packet_type, increment_nonce, put_common_header_raw,
  put_common_header, take_common_header, handle_common_header, is_nonce_valid,
}
use fastd.Method.Nonce.{IsNonce}

take_common_header-eq :
    (v v1 v2 v3 : View) (t f : ℕ) (n : List ℕ)
    → view_pull_to v 1 ≡ some (t ∷ [], v1)
    → view_pull_to v1 1 ≡ some (f ∷ [], v2)
    → view_pull_to v2 nonce_bytes ≡ some (n, v3)
    → take_common_header v ≡ some (t, f, n, v3)
unfolding take_common_header
take_common_header-eq v v1 v2 v3 t f n e1 e2 e3 = rw (e1, e2, e3)

-- Reading the header off the front of a view.
pub take_common_header_lem :
    {v : View} (t f : ℕ) (n rest : List ℕ)
    → IsValidView v
    → length n ≡ nonce_bytes
    → view_payload v ≡ t ∷ f ∷ (n ++ rest)
    → (v' : View) × (take_common_header v ≡ some (t, f, n, v'))
      × IsValidView v'
      × (view_payload v' ≡ rest)
take_common_header_lem {v} t f n rest h l p =
    let (v1, e1, h1, p1) = view_read (t ∷ []) (f ∷ (n ++ rest)) h p in
    let (v2, e2, h2, p2) = view_read (f ∷ []) (n ++ rest) h1 p1 in
    let (v3, e3, h3, p3) = view_read n rest h2 p2 in
    (v3, take_common_header-eq v v1 v2 v3 t f n e1 e2 (ap (view_pull_to v2) (sym l) ∙ e3), h3, p3)

-- The buffer with the header of a packet.
abbrev pub with_header : Buffer → List ℕ → ℕ → ℕ → Buffer
with_header b nonce flags session_flags =
    pushed (pushed (pushed b nonce) (flags ∷ [])) (packet_type session_flags ∷ [])

pub put_header-eq :
    {b : Buffer} (nonce : List ℕ) (flags session_flags : ℕ)
    → IsValid b
    → head_bytes ≤ b.head
    → length nonce ≡ nonce_bytes
    → put_common_header_raw b nonce flags session_flags
      ≡ some (with_header b nonce flags session_flags)
unfolding put_common_header_raw
put_header-eq {b} nonce flags session_flags v h l =
    let whole : take nonce_bytes nonce ≡ nonce = take-all nonce_bytes nonce (omega arith) in
    let v1 = pushed-IsValid nonce v (omega arith) in
    let v2 = pushed-IsValid (flags ∷ []) v1 (omega arith) in
    rw (whole, push_from_lem nonce v (omega arith), push_from_lem (flags ∷ []) v1 (omega arith))
      (push_from_lem (packet_type session_flags ∷ []) v2 (omega arith))

pub with_header-payload :
    {b : Buffer} (nonce : List ℕ) (flags session_flags : ℕ)
    → IsValid b
    → head_bytes ≤ b.head
    → length nonce ≡ nonce_bytes
    → IsValid (with_header b nonce flags session_flags)
      × (payload (with_header b nonce flags session_flags)
          ≡ packet_type session_flags ∷ flags ∷ (nonce ++ payload b))
with_header-payload {b} nonce flags session_flags v h l =
    let v1 = pushed-IsValid nonce v (omega arith) in
    let v2 = pushed-IsValid (flags ∷ []) v1 (omega arith) in
    let v3 = pushed-IsValid (packet_type session_flags ∷ []) v2 (omega arith) in
    (
      v3,
      payload-pushed (packet_type session_flags ∷ []) v2 (omega arith)
          ∙ ap (λ p. packet_type session_flags ∷ p)
              (payload-pushed (flags ∷ []) v1 (omega arith)
                ∙ ap (λ p. flags ∷ p) (payload-pushed nonce v (omega arith))),
    )

pub put_common_header_lem :
    {b : Buffer} (s : Session) (flags : ℕ)
    → IsValid b
    → head_bytes ≤ b.head
    → length s.send_nonce ≡ nonce_bytes
    → put_common_header s b flags
      ≡ some (
        with_header b s.send_nonce flags s.flags,
        record s { send_nonce = increment_nonce s.send_nonce },
      )
unfolding put_common_header
put_common_header_lem s flags v h l = rw (put_header-eq s.send_nonce flags s.flags v h l)

-- The receiver's first step: whether it goes on is decided by the packet's type and the nonce.
pub handle_common_header_lem :
    {b : Buffer} (now : ℕ) (s : Session) (t flags : ℕ) (n rest : List ℕ)
    → IsValid b
    → length n ≡ nonce_bytes
    → payload b ≡ t ∷ flags ∷ (n ++ rest)
    → (v : View) × (handle_common_header now s (get_view b)
        ≡ some (
          if t == packet_type s.flags
              then is_nonce_valid now s n >>= (λ age. some (n, flags, age))
              else none,
          v,
        ))
unfolding handle_common_header
handle_common_header_lem {b} now s t flags n rest h l p =
    let (vv, pv, lv) = get_view-IsValidView h in
    let (w, e, hw, pw) = take_common_header_lem t flags n rest vv l (pv ∙ p) in (w, rw e refl)

-- The view that is left behind the header.
abbrev pub behind_header : Buffer → View
behind_header b = view_pulled (view_pulled (view_pulled (get_view b) 1) 1) nonce_bytes

view_pull_to-pulled :
    {v v' : View} {bytes : List ℕ} (n : ℕ)
    → IsValidView v
    → n ≤ v.len
    → view_pull_to v n ≡ some (bytes, v')
    → v' ≡ view_pulled v n
unfolding view_pull_to view_pull
view_pull_to-pulled {v} {v'} {bytes} n h le e =
    let f : view_pull_to v n ≡ some (take n (drop v.head v.base), view_pulled v n) = ground arith in
    cc

-- The same as `handle_common_header_lem`, with the view that is left.
pub handle_common_header-behind :
    {b : Buffer} (now : ℕ) (s : Session) (t flags : ℕ) (n rest : List ℕ)
    → IsValid b
    → length n ≡ nonce_bytes
    → payload b ≡ t ∷ flags ∷ (n ++ rest)
    → handle_common_header now s (get_view b)
      ≡ some (
        if t == packet_type s.flags
            then is_nonce_valid now s n >>= (λ age. some (n, flags, age))
            else none,
        behind_header b,
      )
unfolding handle_common_header
handle_common_header-behind {b} now s t flags n rest h l p =
    let (vv, pv, lv) = get_view-IsValidView h in
    let long = length-view_payload vv in
    let whole = ap length (pv ∙ p) in
    let (v1, e1, h1, p1) = view_read (t ∷ []) (flags ∷ (n ++ rest)) vv (pv ∙ p) in
    let f1 = view_pull_to-pulled 1 vv (omega (arith, long, whole)) e1 in
    let (v2, e2, h2, p2) = view_read (flags ∷ []) (n ++ rest) h1 p1 in
    let f2 = view_pull_to-pulled 1 h1 (omega (arith, length-view_payload h1, ap length p1)) e2 in
    let (v3, e3, h3, p3) = view_read n rest h2 p2 in
    let e3' = ap (view_pull_to v2) (sym l) ∙ e3 in
    let f3 =
      view_pull_to-pulled nonce_bytes h2
        (omega (arith, length-view_payload h2, ap length p2, length-append n rest, l)) e3' in
    let last = f3 ∙ ap (λ v. view_pulled v nonce_bytes) (f2 ∙ ap (λ v. view_pulled v 1) f1) in
    rw (take_common_header-eq (get_view b) v1 v2 v3 t flags n e1 e2 e3', last) refl

-- The header that the sender puts before a packet, with its session's flags and next nonce, is what
-- the receiver takes off; behind it the receiver finds exactly the packet. The sender's nonce moves
-- on.
pub take-put_common_header :
    {s : Session} {b : Buffer} (flags : ℕ)
    → IsValid b
    → head_bytes ≤ b.head
    → IsNonce s.send_nonce
    → (b' : Buffer) × (v : View) × (put_common_header s b flags
        ≡ some (b', record s { send_nonce = increment_nonce s.send_nonce }))
      × IsValid b'
      × (take_common_header (get_view b') ≡ some (packet_type s.flags, flags, s.send_nonce, v))
      × (view_payload v ≡ payload b)
unfolding put_common_header
take-put_common_header {s} {b} flags v h n =
    let (v', p) = with_header-payload s.send_nonce flags s.flags v h n.0 in
    let (vv, pv, lv) = get_view-IsValidView v' in
    let (w, e, hw, pw) =
      take_common_header_lem (packet_type s.flags) flags s.send_nonce (payload b) vv n.0 (pv ∙ p) in
    (
      with_header b s.send_nonce flags s.flags,
      w,
      rw (put_header-eq s.send_nonce flags s.flags v h n.0),
      v',
      e,
      pw,
    )
