-- ===== src/Vector/Cells.antt =====
-- src/vector.c: the cells of a vector, what `resize` does to them, and moves by one cell.
use fastd.Base.{
  ℕ, zero, suc, ◌+◌, ◌-◌, ◌^◌, ◌≤◌, ◌<◌, ◌≡◌, refl, sym, ap, ◌∙◌, some, ◌>>=◌, List, [], ◌∷◌, ◌++◌,
  append_assoc, arith, length, take, drop, write, replicate, length-append, length-take,
  length-drop, length-replicate, take-append-drop, take-append, take-length_append, write-append,
  suc_add, write-split,
}
use fastd.Vector.{Vector, resize}
use fastd.Vector.Grow.{IsAllocation, new_allocation-Allocated}

-- The largest length that the theorems speak of; no memory holds more elements.
abbrev pub max_length : ℕ
max_length = 2 ^ 61

pub record IsVector {A : Type 0} (v : Vector A) : Type 0 where
  pub cells_eq : length v.cells ≡ v.allocated
  pub inside : v.length ≤ v.allocated
  pub allocation : IsAllocation v.allocated
  pub bounded : v.length ≤ max_length

abbrev pub contents : {A : Type 0} → Vector A → List A
contents v = take v.length v.cells

pub length-contents : {A : Type 0} {v : Vector A} → IsVector v → length (contents v) ≡ v.length
length-contents {v = v} h = omega (arith, length-take v.length v.cells, h.cells_eq, h.inside)

module _ {A : Type 0} (raw : A) where
  -- The vector that `resize` leaves: cells are added at the end.
  pub record Resized (v : Vector A) (n : ℕ) (v' : Vector A) : Type 0 where
    pub result : resize raw v n ≡ some v'
    pub length_eq : v'.length ≡ n
    pub extra : List A
    pub cells_eq : v'.cells ≡ v.cells ++ extra
    pub ordered : IsVector v'

  pub resize-Resized :
      {v : Vector A} (n : ℕ)
      → length v.cells ≡ v.allocated
      → IsAllocation v.allocated
      → n ≤ max_length
      → (v' : Vector A) × Resized v n v'
  unfolding resize
  resize-Resized {v} n c al small =
      let (alloc, a) = new_allocation-Allocated v.allocated n al (omega arith) in
      let extra = replicate (alloc - v.allocated) raw in
      let v' : Vector A = record { allocated = alloc; length = n; cells = v.cells ++ extra } in
      (
        v',
        record {
          result =
              ap
                (λ o. o >>= (λ x. some (record {
                  allocated = x;
                  length = n;
                  cells = v.cells ++ replicate (x - v.allocated) raw;
                })))
                a.result;
          length_eq = refl;
          extra = extra;
          cells_eq = refl;
          ordered = record {
            cells_eq = omega (
              arith,
              length-append v.cells extra,
              length-replicate (alloc - v.allocated) raw,
              a.grows,
            );
            inside = a.enough;
            allocation = a.power;
            bounded = small;
          };
        },
      )

-- A move by one cell and a write to the gap are one write.
pub move-write :
    {A : Type 0} (d : List A) (p : ℕ) (x : A) (mid : List A)
    → p + 1 + length mid ≤ length d
    → write (write d (p + 1) mid) p (x ∷ []) ≡ write d p (x ∷ mid)
move-write [] p x mid h = absurd (omega arith)
move-write (y ∷ ys) zero x mid h = ap (λ t. x ∷ t) (write-nil (write ys 0 mid))
  where
    write-nil : {A : Type 0} (xs : List A) → write xs 0 [] ≡ xs
    write-nil [] = refl
    write-nil (x ∷ xs) = refl
move-write (y ∷ ys) (suc p) x mid h =
    rw (suc_add p 1) (ap (λ t. y ∷ t) (move-write ys p x mid (omega arith)))

module _ {A : Type 0} where
  -- A write at the start of the second part.
  write-second :
      (p q ys : List A)
      → length ys ≤ length q
      → (rest : List A) × (write (p ++ q) (length p) ys ≡ p ++ (ys ++ rest))
  write-second p q ys h = (
    drop (0 + length ys) q,
    ap (λ i. write (p ++ q) i ys) (omega arith)
        ∙ write-append p q 0 ys
        ∙ ap (λ t. p ++ t) (write-split q 0 ys (omega arith)),
  )

  take-parts : (p ys rest : List A) → take (length p + length ys) (p ++ (ys ++ rest)) ≡ p ++ ys
  take-parts p ys rest =
      take-append (length ys) p (ys ++ rest) ∙ ap (λ t. p ++ t) (take-length_append ys rest)

  pub inserted :
      (p m r : List A) (x : A)
      → 0 < length r
      → take
          (length p + length (x ∷ m))
          (write (write (p ++ (m ++ r)) (length p + 1) m) (length p) (x ∷ []))
        ≡ p ++ (x ∷ m)
  inserted p m r x pos =
      let room = length-append m r in
      let (rest, e) = write-second p (m ++ r) (x ∷ m) (omega (arith, room)) in
      ap (take (length p + length (x ∷ m))) (
        move-write (p ++ (m ++ r)) (length p) x m (omega (arith, room, length-append p (m ++ r)))
        ∙ e)
      ∙ take-parts p (x ∷ m) rest

  pub deleted :
      (p m r : List A) (y : A)
      → take (length p + length m) (write (p ++ (y ∷ (m ++ r))) (length p) m) ≡ p ++ m
  deleted p m r y =
      let (rest, e) = write-second p (y ∷ (m ++ r)) m (omega (arith, length-append m r)) in
      ap (take (length p + length m)) e ∙ take-parts p m rest

-- The cells of a vector, cut at a position of its contents.
pub record Cut {A : Type 0} (v : Vector A) (pos : ℕ) (d : List A) : Type 0 where
  pub behind : List A
  pub cells_eq : d ≡ take pos (contents v) ++ (drop pos (contents v) ++ behind)
  pub before_eq : length (take pos (contents v)) ≡ pos
  pub after_eq : length (drop pos (contents v)) ≡ v.length - pos

pub cells-Cut :
    {A : Type 0} {v : Vector A} (pos : ℕ) (extra : List A)
    → IsVector v
    → pos ≤ v.length
    → Cut v pos (v.cells ++ extra)
cells-Cut {v = v} pos extra h le =
    let c = contents v in
    let parts =
      ap (λ t. t ++ extra) (sym (take-append-drop v.length v.cells))
      ∙ append_assoc c (drop v.length v.cells) extra
      ∙ ap (λ t. t ++ (drop v.length v.cells ++ extra)) (sym (take-append-drop pos c))
      ∙ append_assoc (take pos c) (drop pos c) (drop v.length v.cells ++ extra) in
    record {
      behind = drop v.length v.cells ++ extra;
      cells_eq = parts;
      before_eq = omega (arith, length-take pos c, length-contents h);
      after_eq = omega (arith, length-drop pos c, length-contents h);
    }
