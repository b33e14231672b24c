-- ===== src/Vector/Tests.antt =====
-- Runs of src/vector.c, and its theorems at a concrete vector.
use fastd.Base.{ℕ, ◌≡◌, inr, refl, some, [], ◌∷◌, ◌++◌, arith, take, drop}
use fastd.Vector.{Vector, vector_insert}
use fastd.Vector.Grow.{IsAllocation, Allocated, new_allocation-Allocated}
use fastd.Vector.Cells.{IsVector, contents}
use fastd.Vector.Contents.{contents-vector_insert}

abbrev full : Vector ℕ
full = record { allocated = 4; length = 4; cells = 5 ∷ 6 ∷ 7 ∷ 8 ∷ [] }

four-IsAllocation : IsAllocation 4
four-IsAllocation = inr (2, omega arith, refl)

full-IsVector : IsVector full
full-IsVector = record {
  cells_eq = refl;
  inside = omega arith;
  allocation = four-IsAllocation;
  bounded = omega arith;
}

grown :
    vector_insert 0 full 9 1
    ≡ some (record { allocated = 8; length = 5; cells = 5 ∷ 9 ∷ 6 ∷ 7 ∷ 8 ∷ 0 ∷ 0 ∷ 0 ∷ [] })
unfolding vector_insert
grown = refl

new_allocation-Allocated_example : (alloc : ℕ) × Allocated 4 100 alloc
new_allocation-Allocated_example = new_allocation-Allocated 4 100 four-IsAllocation (omega arith)

contents-vector_insert_example :
    (v' : Vector ℕ) × (vector_insert 0 full 9 1 ≡ some v')
    × IsVector v'
    × (contents v' ≡ take 1 (contents full) ++ (9 ∷ drop 1 (contents full)))
contents-vector_insert_example =
    contents-vector_insert 0 9 1 full-IsVector (omega arith) (omega arith)
