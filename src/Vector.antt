-- ===== src/Vector.antt =====
-- src/vector.c and vector.h: arrays that grow by doubling.
pub mod Grow
pub mod Cells
pub mod Contents
mod Tests
use fastd.Base.{
  ℕ, zero, suc, ◌+◌, ◌-◌, ◌*◌, ◌/◌, ◌%◌, ◌^◌, Bool, true, false, Option, none, some, ◌>>=◌, List,
  [], ◌∷◌, ◌++◌, ◌==◌, ltb, if◌then◌else◌, length, take, drop, replicate, write,
}
use fastd.Util.{size_mod, size_add, size_sub, size_mul}

-- MIN_VECTOR_ALLOC
abbrev pub min_vector_alloc : ℕ
min_vector_alloc = 4

-- A vector: `fastd_vector_desc_t`, and the `allocated` cells at `data`, here `cells`.
pub record Vector (A : Type 0) : Type 0 where
  pub allocated : ℕ
  pub length : ℕ
  pub cells : List A

-- The loop that doubles the allocation: at most 64 rounds, since the last bit is shifted out then.
-- `none` is the end of the process.
unfoldable pub grow : ℕ → ℕ → ℕ → Option ℕ
grow zero alloc n = if ltb alloc n then none else some alloc
grow (suc fuel) alloc n =
    let alloc' = alloc * 2 % size_mod in
    let rest = grow fuel alloc' n in
    if ltb alloc n then if alloc' == 0 then none else rest else some alloc

unfoldable pub new_allocation : ℕ → ℕ → Option ℕ
unfolding grow
new_allocation allocated n =
    if allocated == 0 then grow 64 min_vector_alloc (size_mul n 3 / 2) else grow 64 allocated n

module _ {A : Type 0} (raw : A) where
  -- The cells that `realloc` adds hold `raw`. The size in bytes is the allocator's to check.
  unfoldable pub resize : Vector A → ℕ → Option (Vector A)
  unfolding new_allocation
  resize v n = do
    alloc ← new_allocation v.allocated n
    some (record {
      allocated = alloc;
      length = n;
      cells = v.cells ++ replicate (alloc - v.allocated) raw;
    })

  unfoldable pub vector_insert : Vector A → A → ℕ → Option (Vector A)
  unfolding resize
  vector_insert v element pos = do
    v' ← resize v (size_add v.length 1)
    some (record v' {
      cells =
          write (write v'.cells (pos + 1) (take (v'.length - pos - 1) (drop pos v'.cells))) pos
            (element ∷ []);
    })

  unfoldable pub vector_delete : Vector A → ℕ → Option (Vector A)
  unfolding resize
  vector_delete v pos =
      resize
        (record v {
          cells = write v.cells pos (take (v.length - pos - 1) (drop (pos + 1) v.cells));
        })
        (size_sub v.length 1)

  -- `VECTOR_ADD`
  unfoldable pub vector_add : Vector A → A → Option (Vector A)
  unfolding vector_insert
  vector_add v element = vector_insert v element v.length
