-- ===== src/PQueue/Tests.antt =====
-- Runs of src/pqueue.c, and its theorems at a concrete heap.
use fastd.Base.{ℕ, ◌-◌, ◌≤◌, ◌<◌, ◌≡◌, ◌⊎◌, refl, some, none, arith}
use fastd.PQueue.{PQueue, null, elem, insert, remove, task_queue_timeout, count, count_id}
use fastd.PQueue.Heap.{IsHeap, IsSingle, task_queue_timeout-least}
use fastd.PQueue.Remove.{remove-IsHeap}

-- The element 1 with the children 4, 3 and 2.
abbrev heap : PQueue
heap = elem 1 10 null (elem 4 30 (elem 3 15 (elem 2 20 null null) null) null)

heap-IsHeap : IsHeap heap
heap-IsHeap = omega arith

root_removed : remove 1 heap ≡ some (elem 3 15 null (elem 2 20 (elem 4 30 null null) null))
unfolding remove
root_removed = refl

inserted :
    insert heap 5 12
    ≡ some (elem 1 10 null (elem 5 12 (elem 4 30 (elem 3 15 (elem 2 20 null null) null) null) null))
unfolding insert
inserted = refl

remove-IsHeap_example :
    (q' : PQueue) × (remove 3 heap ≡ some q')
    × IsSingle q'
    × IsHeap q'
    × ((j w : ℕ) → (j ≡ 3) ⊎ (count j w q' ≡ count j w heap))
    × (count_id 3 q' ≤ count_id 3 heap - 1)
remove-IsHeap_example = remove-IsHeap 3 heap tt heap-IsHeap

task_queue_timeout-least_example :
    ((task_queue_timeout heap ≡ none) × (heap ≡ null))
    ⊎ ((i v : ℕ) × (task_queue_timeout heap ≡ some v)
        × (0 < count i v heap)
        × ((j w : ℕ) → (count j w heap ≡ 0) ⊎ (v ≤ w)))
task_queue_timeout-least_example = task_queue_timeout-least heap tt heap-IsHeap
