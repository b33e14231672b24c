-- ===== src/PQueue.antt =====
-- src/pqueue.c and src/task.c: the task queue is a priority queue, a pairing heap of linked elements.
pub mod Heap
pub mod Remove
mod Tests
use fastd.Base.{
  ℕ, ◌+◌, ◌≤◌, ◌≡◌, Bool, true, false, ◌&&◌, Option, none, some, ◌>>=◌, ◌==◌, ltb, if◌then◌else◌,
}

-- A `fastd_pqueue_t *`: NULL, or an element with its successor and its children. The elements have
-- identities, since a removal names one. Only the order of the 64-bit signed priorities counts, so
-- `value` is the priority plus 2 ^ 63. The back link `pprev` is the place where an element stands.
pub data PQueue : Type 0 where
  null : PQueue
  elem : (id value : ℕ) → (next children : PQueue) → PQueue

-- `pqueue_link(&pqueue, elem)`: the new contents of the place. `none` is the end of the process.
unfoldable pub pqueue_link : PQueue → PQueue → Option PQueue
pqueue_link pqueue null = none
pqueue_link pqueue (elem i v null c) = some (elem i v pqueue c)
pqueue_link pqueue (elem i v (elem j w n d) c) = none

-- The lower of two single elements gets the other as its first child.
abbrev pub pqueue_adopt : ℕ → ℕ → PQueue → PQueue → Option PQueue
pqueue_adopt i v c hi = pqueue_link c hi >>= (λ children. some (elem i v null children))

unfoldable pub pqueue_merge : PQueue → PQueue → Option PQueue
unfolding pqueue_link
pqueue_merge null pqueue2 = none
pqueue_merge (elem i v (elem j w n d) c) pqueue2 = none
pqueue_merge (elem i v null c) null = some (elem i v null c)
pqueue_merge (elem i v null c) (elem j w (elem k x n e) d) = none
pqueue_merge (elem i v null c) (elem j w null d) =
    if ltb v w then pqueue_adopt i v c (elem j w null d) else pqueue_adopt j w d (elem i v null c)

unfoldable pub pqueue_merge_pairs : PQueue → Option PQueue
unfolding pqueue_merge
pqueue_merge_pairs null = some null
pqueue_merge_pairs (elem i v null c) = some (elem i v null c)
pqueue_merge_pairs (elem i v (elem j w pqueue2 d) c) = do
  first ← pqueue_merge (elem i v null c) (elem j w null d)
  rest ← pqueue_merge_pairs pqueue2
  pqueue_merge first rest

-- An element that is not part of a queue has no successor and no children.
unfoldable pub insert : PQueue → ℕ → ℕ → Option PQueue
unfolding pqueue_merge
insert pqueue id value = pqueue_merge (elem id value null null) pqueue

-- What `fastd_pqueue_remove` leaves at the place of an element with a successor and children.
abbrev pub relink : PQueue → PQueue → Option PQueue
relink next null = some next
relink next (elem i v n c) = pqueue_link next (elem i v n c)

unfoldable pub replace_by_children : PQueue → PQueue → Option PQueue
unfolding pqueue_link pqueue_merge_pairs
replace_by_children next children = pqueue_merge_pairs children >>= relink next

-- The removal of the element with an identity, wherever it stands.
unfoldable pub remove : ℕ → PQueue → Option PQueue
unfolding replace_by_children
remove id null = some null
remove id (elem i v next children) =
    let below : Option PQueue = (do
      n ← remove id next
      c ← remove id children
      some (elem i v n c)) in
    if i == id then replace_by_children next children else below

-- `fastd_task_queue_timeout`; `none` is FASTD_TIMEOUT_INV.
unfoldable pub task_queue_timeout : PQueue → Option ℕ
task_queue_timeout null = none
task_queue_timeout (elem i v next children) = some v

-- How often an element with an identity and a priority stands in a queue.
abbrev pub count : ℕ → ℕ → PQueue → ℕ
count i v null = 0
count i v (elem j w next children) =
    (if i == j && v == w then 1 else 0) + count i v next + count i v children

abbrev pub count_id : ℕ → PQueue → ℕ
count_id i null = 0
count_id i (elem j w next children) =
    (if i == j then 1 else 0) + count_id i next + count_id i children
