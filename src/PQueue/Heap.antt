-- ===== src/PQueue/Heap.antt =====
-- src/pqueue.c: merging keeps the heap order and the elements.
use fastd.Base.{
  ℕ, zero, suc, ◌⊎◌, ◌+◌, ◌≤◌, ◌<◌, ◌≡◌, refl, ◌&&◌, Option, none, some, ◌==◌, ltb, arith,
  Bool-cases, inl, inr,
}
use fastd.PQueue.{
  PQueue, null, elem, pqueue_link, pqueue_merge, pqueue_merge_pairs, insert, task_queue_timeout,
  count, count_id,
}

-- All elements in the list at a place have at least a given priority.
abbrev pub Above : ℕ → PQueue → Type 0
Above m null = Unit
Above m (elem i v next children) = (m ≤ v) × Above m next

-- Every element's children have at least its priority.
abbrev pub IsHeap : PQueue → Type 0
IsHeap null = Unit
IsHeap (elem i v next children) = Above v children × IsHeap children × IsHeap next

-- A queue is one heap, or empty.
abbrev pub IsSingle : PQueue → Type 0
IsSingle null = Unit
IsSingle (elem i v null children) = Unit
IsSingle (elem i v (elem j w n d) children) = ⊥

-- A result that holds the elements of a queue in heap order.
pub record Keeps (r : Option PQueue) (m : ℕ) (counts : ℕ → ℕ → ℕ) (ids : ℕ → ℕ) : Type 0 where
  pub queue : PQueue
  pub result : r ≡ some queue
  pub single : IsSingle queue
  pub heap : IsHeap queue
  pub above : Above m queue
  pub counts_eq : (i v : ℕ) → count i v queue ≡ counts i v
  pub ids_eq : (i : ℕ) → count_id i queue ≡ ids i

merge-Keeps :
    (m i v : ℕ) (c q : PQueue)
    → IsHeap (elem i v null c)
    → m ≤ v
    → IsSingle q
    → IsHeap q
    → Above m q
    → Keeps
        (pqueue_merge (elem i v null c) q)
        m
        (λ j w. count j w (elem i v null c) + count j w q)
        (λ j. count_id j (elem i v null c) + count_id j q)
unfolding pqueue_merge pqueue_link
merge-Keeps m i v c null h le s k a = record {
  queue = elem i v null c;
  result = refl;
  single = tt;
  heap = h;
  above = (le, tt);
  counts_eq = λ j w. omega arith;
  ids_eq = λ j. omega arith;
}
merge-Keeps m i v c (elem j w null d) h le s k a = elim (Bool-cases (ltb v w)) [
  | inl e ↦ rw e record {
    queue = elem i v null (elem j w c d);
    result = refl;
    single = tt;
    heap = ((ground (arith, e), h.0), (k.0, k.1, h.1), tt);
    above = (le, tt);
    counts_eq = λ x y. omega arith;
    ids_eq = λ x. omega arith;
  }
  | inr e ↦ rw e record {
    queue = elem j w null (elem i v d c);
    result = refl;
    single = tt;
    heap = ((ground (arith, e), k.0), (h.0, h.1, k.1), tt);
    above = (a.0, tt);
    counts_eq = λ x y. omega arith;
    ids_eq = λ x. omega arith;
  }
]
merge-Keeps m i v c (elem j w (elem x y n e) d) h le s k a = absurd s

-- The same for any first queue that is not empty.
merge_queues-Keeps :
    (m x : ℕ) (p q : PQueue)
    → 0 < count_id x p
    → IsSingle p
    → IsHeap p
    → Above m p
    → IsSingle q
    → IsHeap q
    → Above m q
    → Keeps
        (pqueue_merge p q)
        m
        (λ j w. count j w p + count j w q)
        (λ j. count_id j p + count_id j q)
merge_queues-Keeps m x null q pos s h a t k b = absurd (omega arith)
merge_queues-Keeps m x (elem i v null c) q pos s h a t k b = merge-Keeps m i v c q h a.0 t k b
merge_queues-Keeps m x (elem i v (elem j w n d) c) q pos s h a t k b = absurd s

merge_pairs-step :
    (i v j w : ℕ) (c d rest first last done : PQueue)
    → pqueue_merge (elem i v null c) (elem j w null d) ≡ some first
    → pqueue_merge_pairs rest ≡ some last
    → pqueue_merge first last ≡ some done
    → pqueue_merge_pairs (elem i v (elem j w rest d) c) ≡ some done
unfolding pqueue_merge_pairs
merge_pairs-step i v j w c d rest first last done e f g = rw (e, f, g) refl

pub merge_pairs-Keeps :
    (m : ℕ) (q : PQueue)
    → IsHeap q
    → Above m q
    → Keeps (pqueue_merge_pairs q) m (λ j w. count j w q) (λ j. count_id j q)
merge_pairs-Keeps m null h a =
    unfold pqueue_merge_pairs in
    record {
      queue = null;
      result = refl;
      single = tt;
      heap = tt;
      above = tt;
      counts_eq = λ i v. refl;
      ids_eq = λ i. refl;
    }
merge_pairs-Keeps m (elem i v null c) h a =
    unfold pqueue_merge_pairs in
    record {
      queue = elem i v null c;
      result = refl;
      single = tt;
      heap = h;
      above = a;
      counts_eq = λ i v. refl;
      ids_eq = λ i. refl;
    }
merge_pairs-Keeps m (elem i v (elem j w rest d) c) h a =
    let first =
      merge-Keeps m i v c (elem j w null d) (h.0, h.1, tt) a.0 tt (h.2.0, h.2.1, tt) (a.1.0, tt) in
    let last = merge_pairs-Keeps m rest h.2.2 a.1.1 in
    let done =
      merge_queues-Keeps m i first.queue last.queue (ground (arith, first.ids_eq i)) first.single
        first.heap first.above last.single last.heap last.above in
    record {
      queue = done.queue;
      result =
          merge_pairs-step i v j w c d rest first.queue last.queue done.queue first.result
            last.result done.result;
      single = done.single;
      heap = done.heap;
      above = done.above;
      counts_eq = λ x y. omega (arith, done.counts_eq x y, first.counts_eq x y, last.counts_eq x y);
      ids_eq = λ x. omega (arith, done.ids_eq x, first.ids_eq x, last.ids_eq x);
    }

pub Above-zero : (q : PQueue) → Above 0 q
Above-zero null = tt
Above-zero (elem i v next children) = (omega arith, Above-zero next)

-- An element that is inserted into a queue in heap order is added to its elements, and the queue is
-- one heap in heap order again.
pub insert-Keeps :
    (q : PQueue) (i v : ℕ)
    → IsSingle q
    → IsHeap q
    → Keeps
        (insert q i v)
        0
        (λ j w. count j w (elem i v null null) + count j w q)
        (λ j. count_id j (elem i v null null) + count_id j q)
unfolding insert
insert-Keeps q i v s h = merge-Keeps 0 i v null q (tt, tt, tt) (omega arith) s h (Above-zero q)

zero-or_pos : (n : ℕ) → (n ≡ 0) ⊎ (0 < n)
zero-or_pos zero = inl refl
zero-or_pos (suc n) = inr (omega arith)

Above-count : (m x y : ℕ) (q : PQueue) → Above m q → IsHeap q → 0 < count x y q → m ≤ y
Above-count m x y null a h pos = absurd (omega arith)
Above-count m x y (elem i v next c) a h pos = elim (Bool-cases (x == i && y == v)) [
  | inl e ↦ ground (arith, e)
  | inr e ↦ elim (zero-or_pos (count x y next)) [
    | inl z ↦
        let below = Above-count v x y c h.0 h.1 (ground (arith, e, z)) in omega (arith, below, a.0)
    | inr p ↦ Above-count m x y next a.1 h.2 p
  ]
]

-- The timeout of a queue in heap order is the least of its elements' priorities, and there is none
-- exactly if the queue is empty.
pub task_queue_timeout-least :
    (q : PQueue)
    → IsSingle q
    → IsHeap q
    → ((task_queue_timeout q ≡ none) × (q ≡ null))
      ⊎ ((i v : ℕ) × (task_queue_timeout q ≡ some v)
          × (0 < count i v q)
          × ((j w : ℕ) → (count j w q ≡ 0) ⊎ (v ≤ w)))
unfolding task_queue_timeout
task_queue_timeout-least null s h = inl (refl, refl)
task_queue_timeout-least (elem i v null c) s h = inr (
  i,
  v,
  refl,
  ground arith,
  λ j w. elim (zero-or_pos (count j w (elem i v null c))) [
    | inl z ↦ inl z
    | inr pos ↦ inr (Above-count v j w (elem i v null c) (omega arith, tt) h pos)
  ],
)
task_queue_timeout-least (elem i v (elem j w n d) c) s h = absurd s
