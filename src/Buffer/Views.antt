-- ===== src/Buffer/Views.antt =====
-- Read-only views of a buffer (src/buffer.h).
use fastd.Base.{
  ℕ, ◌+◌, ◌-◌, ◌≤◌, ◌<◌, ◌≡◌, refl, ap, ◌∙◌, some, List, arith, length, take, drop, drop-drop,
  length-take, length-drop, ◌++◌, length-append, take-length_append, drop-length_append,
}
use fastd.Util.{size_mod}
use fastd.Buffer.{Buffer, View, view_pull, view_pull_to, get_view}
use fastd.Buffer.Payload.{IsValid, payload, view_payload, take-take, drop-take}

pub record IsValidView (v : View) : Type 0 where
  pub inside : v.head + v.len ≤ length v.base
  pub small : length v.base < size_mod

pub get_view-IsValidView :
    {b : Buffer}
    → IsValid b
    → IsValidView (get_view b)
      × (view_payload (get_view b) ≡ payload b)
      × ((get_view b).len ≡ b.len)
unfolding get_view
get_view-IsValidView v = (record { inside = v.inside; small = v.small }, refl, refl)

pub length-view_payload : {v : View} → IsValidView v → length (view_payload v) ≡ v.len
length-view_payload {v} h =
    omega (arith, length-take v.len (drop v.head v.base), length-drop v.head v.base)

abbrev pub view_pulled : View → ℕ → View
view_pulled v n = record v { head = v.head + n; len = v.len - n }

view_payload-pulled :
    (v : View) (n : ℕ) → n ≤ v.len → view_payload (view_pulled v n) ≡ drop n (view_payload v)
view_payload-pulled v n h = rw (split, drop-take, drop-drop, minus)
  where
    split : v.len ≡ n + (v.len - n)
    split = omega arith

    minus : n + (v.len - n) - n ≡ v.len - n
    minus = omega arith

-- Pulling from a view reads the first bytes of its payload and leaves the others.
pub view_payload-view_pull_to :
    {v : View} (n : ℕ)
    → IsValidView v
    → n ≤ v.len
    → (v' : View) × (view_pull_to v n ≡ some (take n (view_payload v), v'))
      × IsValidView v'
      × (view_payload v' ≡ drop n (view_payload v))
      × (v'.len + n ≡ v.len)
unfolding view_pull_to view_pull
view_payload-view_pull_to {v} n h le = (
  view_pulled v n,
  rw (take-take v.len n (drop v.head v.base) le) (ground arith),
  omega arith,
  view_payload-pulled v n le,
  omega arith,
)

-- The same, for a payload that starts with known bytes.
pub view_read :
    {v : View} (bytes rest : List ℕ)
    → IsValidView v
    → view_payload v ≡ bytes ++ rest
    → (v' : View) × (view_pull_to v (length bytes) ≡ some (bytes, v'))
      × IsValidView v'
      × (view_payload v' ≡ rest)
view_read {v} bytes rest h p =
    let (v', e, h', p', l) = view_payload-view_pull_to (length bytes) h enough in
    (
      v',
      e ∙ ap (λ l. some (take (length bytes) l, v')) p ∙ rw (take-length_append bytes rest),
      h',
      p' ∙ ap (drop (length bytes)) p ∙ drop-length_append bytes rest,
    )
  where
    enough : length bytes ≤ v.len
    enough = omega (arith, length-view_payload h, ap length p, length-append bytes rest)
