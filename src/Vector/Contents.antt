-- ===== src/Vector/Contents.antt =====
-- src/vector.c: what the operations do to the elements of a vector.
use fastd.Base.{
  ℕ, zero, suc, ◌+◌, ◌-◌, ◌≤◌, ◌<◌, ◌≡◌, refl, sym, ap, ◌∙◌, some, List, [], ◌∷◌, ◌++◌, append-nil,
  drop-drop, arith, length, take, drop, write, length-append, length-drop, length-write,
  take-length_append, suc_add, drop-length_append,
}
use fastd.Util.{size_add, size_sub}
use fastd.Vector.{Vector, resize, vector_insert, vector_delete}
use fastd.Vector.Cells.{
  max_length, IsVector, contents, length-contents, resize-Resized, cells-Cut, inserted, deleted,
}

module _ {A : Type 0} (raw : A) where
  abbrev insert_cells : A → List A → ℕ → ℕ → List A
  insert_cells x d n i = write (write d (i + 1) (take (n - i - 1) (drop i d))) i (x ∷ [])

  insert_cells-cut :
      (x : A) (p m r : List A) (n : ℕ)
      → n ≡ length p + length (x ∷ m)
      → 0 < length r
      → take n (insert_cells x (p ++ (m ++ r)) n (length p)) ≡ p ++ (x ∷ m)
  insert_cells-cut x p m r n e pos =
      let behind = drop-length_append p (m ++ r) in
      let mid : take (n - length p - 1) (drop (length p) (p ++ (m ++ r))) ≡ m =
        ap (take (n - length p - 1)) behind
        ∙ ap (λ k. take k (m ++ r)) (omega (arith, e))
        ∙ take-length_append m r in
      ap (λ l. take n (write (write (p ++ (m ++ r)) (length p + 1) l) (length p) (x ∷ []))) mid
      ∙ ap (λ k. take k (write (write (p ++ (m ++ r)) (length p + 1) m) (length p) (x ∷ []))) e
      ∙ inserted p m r x pos

  vector_insert-run :
      (v v1 : Vector A) (x : A) (pos : ℕ)
      → size_add v.length 1 ≡ v.length + 1
      → resize raw v (v.length + 1) ≡ some v1
      → vector_insert raw v x pos
        ≡ some (record v1 { cells = insert_cells x v1.cells v1.length pos })
  unfolding vector_insert
  vector_insert-run v v1 x pos e f = rw (e, f) refl

  -- An insertion puts the element at its position, before the elements that stood there, and keeps
  -- the others and the vector in order.
  pub contents-vector_insert :
      {v : Vector A} (x : A) (pos : ℕ)
      → IsVector v
      → pos ≤ v.length
      → v.length < max_length
      → (v' : Vector A) × (vector_insert raw v x pos ≡ some v')
        × IsVector v'
        × (contents v' ≡ take pos (contents v) ++ (x ∷ drop pos (contents v)))
  contents-vector_insert {v} x pos h le small =
      let (v1, r) =
        resize-Resized raw (v.length + 1) h.cells_eq h.allocation (omega (arith, small)) in
      let c = cells-Cut pos r.extra h le in
      let p = take pos (contents v) in
      let m = drop pos (contents v) in
      let cells = r.cells_eq ∙ c.cells_eq in
      let room : 0 < length (cells-Cut pos r.extra h le).behind = omega (
        arith,
        ap length cells,
        length-append p (m ++ c.behind),
        length-append m c.behind,
        c.before_eq,
        c.after_eq,
        r.ordered.cells_eq,
        r.ordered.inside,
        r.length_eq,
      ) in
      let mid = take (v1.length - pos - 1) (drop pos v1.cells) in
      (
        record v1 { cells = insert_cells x v1.cells v1.length pos },
        vector_insert-run v v1 x pos (omega (arith, small)) r.result,
        record {
          cells_eq =
              length-write (write v1.cells (pos + 1) mid) pos (x ∷ [])
              ∙ length-write v1.cells (pos + 1) mid
              ∙ r.ordered.cells_eq;
          inside = r.ordered.inside;
          allocation = r.ordered.allocation;
          bounded = r.ordered.bounded;
        },
        ap (λ d. take v1.length (insert_cells x d v1.length pos)) cells
            ∙ ap (λ i. take v1.length (insert_cells x (p ++ (m ++ c.behind)) v1.length i))
                (sym c.before_eq)
            ∙ insert_cells-cut x p m c.behind v1.length
                (omega (arith, r.length_eq, c.before_eq, c.after_eq)) room,
      )

drop-cons :
    {A : Type 0} (i : ℕ) (xs : List A) → i < length xs → (y : A) × (drop i xs ≡ y ∷ drop (i + 1) xs)
drop-cons i [] h = absurd (omega arith)
drop-cons zero (x ∷ xs) h = (x, refl)
drop-cons (suc i) (x ∷ xs) h = let (y, e) = drop-cons i xs (omega arith) in (y, rw (suc_add i 1) e)

take-prefix : {A : Type 0} (n : ℕ) (xs ys : List A) → n ≤ length xs → take n (xs ++ ys) ≡ take n xs
take-prefix zero xs ys h = refl
take-prefix (suc n) [] ys h = absurd (omega arith)
take-prefix (suc n) (x ∷ xs) ys h = ap (λ t. x ∷ t) (take-prefix n xs ys (omega arith))

module _ {A : Type 0} (raw : A) where
  abbrev delete_cells : List A → ℕ → ℕ → List A
  delete_cells d n i = write d i (take (n - i - 1) (drop (i + 1) d))

  delete_cells-cut :
      (y : A) (p m r : List A) (n : ℕ)
      → n ≡ length p + 1 + length m
      → take (n - 1) (delete_cells (p ++ (y ∷ (m ++ r))) n (length p)) ≡ p ++ m
  delete_cells-cut y p m r n e =
      let d = p ++ (y ∷ (m ++ r)) in
      let behind : drop (length p + 1) d ≡ m ++ r =
        sym (drop-drop (length p) 1 d) ∙ ap (drop 1) (drop-length_append p (y ∷ (m ++ r))) in
      let mid : take (n - length p - 1) (drop (length p + 1) d) ≡ m =
        ap (take (n - length p - 1)) behind
        ∙ ap (λ k. take k (m ++ r)) (omega (arith, e))
        ∙ take-length_append m r in
      ap (λ l. take (n - 1) (write d (length p) l)) mid
      ∙ ap (λ k. take k (write d (length p) m)) (omega (arith, e))
      ∙ deleted p m r y

  vector_delete-run :
      (v v' : Vector A) (pos : ℕ)
      → size_sub v.length 1 ≡ v.length - 1
      → resize raw (record v { cells = delete_cells v.cells v.length pos }) (v.length - 1) ≡ some v'
      → vector_delete raw v pos ≡ some v'
  unfolding vector_delete
  vector_delete-run v v' pos e f = rw e f

  -- A deletion takes the element at its position away, and keeps the others and the vector in order.
  pub contents-vector_delete :
      {v : Vector A} (pos : ℕ)
      → IsVector v
      → pos < v.length
      → (v' : Vector A) × (vector_delete raw v pos ≡ some v')
        × IsVector v'
        × (contents v' ≡ take pos (contents v) ++ drop (pos + 1) (contents v))
  contents-vector_delete {v} pos h less =
      let left = delete_cells v.cells v.length pos in
      let kept : length left ≡ length v.cells =
        length-write v.cells pos (take (v.length - pos - 1) (drop (pos + 1) v.cells)) in
      let (v', r) =
        resize-Resized raw {v = record v { cells = left }} (v.length - 1) (kept ∙ h.cells_eq)
          h.allocation (omega (arith, h.bounded)) in
      let c = cells-Cut pos [] h (omega (arith, less)) in
      let p = take pos (contents v) in
      let m = drop (pos + 1) (contents v) in
      let (y, e) = drop-cons pos (contents v) (omega (arith, length-contents h, less)) in
      let cells : v.cells ≡ p ++ (y ∷ (m ++ c.behind)) =
        sym (append-nil v.cells) ∙ c.cells_eq ∙ ap (λ t. p ++ (t ++ c.behind)) e in
      let size : v.length ≡ length p + 1 + length m =
        omega (arith, c.before_eq, length-drop (pos + 1) (contents v), length-contents h, less) in
      (
        v',
        vector_delete-run v v' pos (omega (arith, less, h.bounded)) r.result,
        r.ordered,
        ap (λ n. take n v'.cells) r.length_eq
            ∙ ap (take (v.length - 1)) r.cells_eq
            ∙ take-prefix (v.length - 1) left r.extra (omega (arith, kept, h.cells_eq, h.inside))
            ∙ ap (λ d. take (v.length - 1) (delete_cells d v.length pos)) cells
            ∙ ap (λ i. take (v.length - 1) (delete_cells (p ++ (y ∷ (m ++ c.behind))) v.length i))
                (sym c.before_eq)
            ∙ delete_cells-cut y p m c.behind v.length size,
      )
