-- ===== src/Handshake/Packet/Build.antt =====
-- The packets that src/handshake.c builds are what its parser reads.
use fastd.Base.{
  ℕ, ◌+◌, ◌/◌, ◌%◌, ◌^◌, ◌≤◌, ◌<◌, ◌≡◌, refl, sym, ap, ◌∙◌, Option, some, ◌>>=◌, List, [], ◌∷◌,
  ◌++◌, append_assoc, append-nil, arith, length, take, drop, length-append, length-take,
  length-drop, take-append-drop,
}
use fastd.Buffer.{Buffer}
use fastd.Handshake.Record.{record_len, add, add_uint8, add_uint16}
use fastd.Handshake.Layout.{record_bytes, IsHandshake, add-IsHandshake}
use fastd.Handshake.Parse.Loop.{Tlvs, encode}
use fastd.Handshake.Packet.{packet_handshake}

-- A handshake packet under construction: its records so far, and room for more.
pub record Built (b : Buffer) (rs : Tlvs) (room : ℕ) : Type 0 where
  pub before : List ℕ
  pub post : List ℕ
  pub shape : IsHandshake b before packet_handshake 0 (encode rs) post
  pub room_le : room ≤ length post
  pub bounded : length (encode rs) + room < 2 ^ 16

encode-snoc :
    (rs : Tlvs) (t : ℕ) (v : List ℕ) → encode (rs ++ ((t, v) ∷ [])) ≡ encode rs ++ record_bytes t v
encode-snoc [] t v = append-nil (record_bytes t v)
encode-snoc ((s, u) ∷ rs) t v =
    ap (λ l. record_bytes s u ++ l) (encode-snoc rs t v)
    ∙ sym (append_assoc (record_bytes s u) (encode rs) (record_bytes t v))

pub add-Built :
    {b : Buffer} {rs : Tlvs} (room t : ℕ) (v : List ℕ)
    → Built b rs (record_len (length v) + room)
    → (b' : Buffer) × (add b t v ≡ some b') × Built b' (rs ++ ((t, v) ∷ [])) room
add-Built {b} {rs} room t v h =
    let old = take (record_len (length v)) h.post in
    let rest = drop (record_len (length v)) h.post in
    let split : old ++ rest ≡ h.post = take-append-drop (record_len (length v)) h.post in
    let at : IsHandshake b h.before packet_handshake 0 (encode rs) (old ++ rest) =
      rw split h.shape in
    let (b', e, s) =
      add-IsHandshake t v old rest at
        (omega (arith, length-take (record_len (length v)) h.post, h.room_le))
        (omega (arith, h.bounded)) in
    (
      b',
      e,
      record {
        before = h.before;
        post = rest;
        shape = rw (encode-snoc rs t v) s;
        room_le = omega (arith, length-drop (record_len (length v)) h.post, h.room_le);
        bounded =
            rw (encode-snoc rs t v)
              (omega (arith, h.bounded, length-append (encode rs) (record_bytes t v)));
      },
    )

pub uint8-add : (b : Buffer) (t v : ℕ) → add_uint8 b t v ≡ add b t (v % 256 ∷ [])
unfolding add_uint8 add
uint8-add b t v = refl

pub uint16-add :
    (b : Buffer) (t v : ℕ) → add_uint16 b t v ≡ add b t (v % 256 ∷ v / 2 ^ 8 % 256 ∷ [])
unfolding add_uint16 add
uint16-add b t v = refl

abbrev pub add_all : Buffer → Tlvs → Option Buffer
add_all b [] = some b
add_all b ((t, v) ∷ rs) = add b t v >>= (λ b'. add_all b' rs)

pub bind-some {ℓ κ} :
    {A : Type ℓ} {B : Type κ} {m : Option A} (a : A) (f : A → Option B)
    → m ≡ some a
    → (m >>= f) ≡ f a
bind-some a f e = ap (λ o. o >>= f) e

pub add_all-Built :
    (b : Buffer) (rs more : Tlvs) (room : ℕ)
    → Built b rs (length (encode more) + room)
    → (b' : Buffer) × (add_all b more ≡ some b') × Built b' (rs ++ more) room
add_all-Built b rs [] room h = (
  b,
  refl,
  record {
    before = h.before;
    post = h.post;
    shape = rw (append-nil rs) h.shape;
    room_le = omega (arith, h.room_le);
    bounded = rw (append-nil rs) (omega (arith, h.bounded));
  },
)
add_all-Built b rs ((t, v) ∷ more) room h =
    let (c, e, hc) = add-Built (length (encode more) + room) t v (enough b rs t v more room h) in
    let (d, f, hd) = add_all-Built c (rs ++ ((t, v) ∷ [])) more room hc in
    (d, bind-some c (λ b'. add_all b' more) e ∙ f, rw (append_assoc rs ((t, v) ∷ []) more) at hd)
  where
    enough :
        (b : Buffer) (rs : Tlvs) (t : ℕ) (v : List ℕ) (more : Tlvs) (room : ℕ)
        → Built b rs (length (encode ((t, v) ∷ more)) + room)
        → Built b rs (record_len (length v) + (length (encode more) + room))
    enough b rs t v more room h = record {
      before = h.before;
      post = h.post;
      shape = h.shape;
      room_le = omega (arith, h.room_le, length-append v (encode more));
      bounded = omega (arith, h.bounded, length-append v (encode more));
    }
