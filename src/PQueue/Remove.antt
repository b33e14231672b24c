-- ===== src/PQueue/Remove.antt =====
-- src/pqueue.c: an element can be removed from any place of a heap.
use fastd.Base.{
  ℕ, ◌+◌, ◌-◌, ◌⊎◌, ◌≤◌, ◌≡◌, ◌≢◌, refl, sym, ap, ◌∙◌, true, false, Option, some, ◌>>=◌, ◌==◌,
  arith, Bool-cases, inl, inr,
}
use fastd.PQueue.{
  PQueue, null, elem, pqueue_link, relink, replace_by_children, remove, count, count_id,
}
use fastd.PQueue.Heap.{Above, Above-zero, IsHeap, IsSingle, merge_pairs-Keeps}

Above-below : (m n : ℕ) (q : PQueue) → m ≤ n → Above n q → Above m q
Above-below m n null h a = tt
Above-below m n (elem i v next c) h a = (omega (arith, a.0), Above-below m n next h a.1)

-- A list of heaps without the element of an identity.
record Removed (id m : ℕ) (q : PQueue) : Type 0 where
  queue : PQueue
  result : remove id q ≡ some queue
  heap : IsHeap queue
  above : Above m queue
  single : IsSingle q → IsSingle queue
  others : (j w : ℕ) → j ≢ id → count j w queue ≡ count j w q
  gone : count_id id queue ≤ count_id id q - 1

-- Heaps put before a list of heaps.
record Joined (o : Option PQueue) (m : ℕ) (next : PQueue) (c : PQueue) : Type 0 where
  queue : PQueue
  result : o ≡ some queue
  heap : IsHeap queue
  above : Above m queue
  single : next ≡ null → IsSingle queue
  counts_eq : (j w : ℕ) → count j w queue ≡ count j w next + count j w c
  ids_eq : (j : ℕ) → count_id j queue ≡ count_id j next + count_id j c

relink-Joined :
    (m : ℕ) (next merged : PQueue)
    → IsSingle merged
    → IsHeap merged
    → Above m merged
    → IsHeap next
    → Above m next
    → Joined (relink next merged) m next merged
unfolding pqueue_link
relink-Joined m next null s h a k b = record {
  queue = next;
  result = refl;
  heap = k;
  above = b;
  single = λ e. rw e tt;
  counts_eq = λ j w. omega arith;
  ids_eq = λ j. omega arith;
}
relink-Joined m next (elem i v null c) s h a k b = record {
  queue = elem i v next c;
  result = refl;
  heap = (h.0, h.1, k);
  above = (a.0, b);
  single = λ e. rw e tt;
  counts_eq = λ j w. omega arith;
  ids_eq = λ j. omega arith;
}
relink-Joined m next (elem i v (elem j w n d) c) s h a k b = absurd s

replace-Joined :
    (m v : ℕ) (next children : PQueue)
    → m ≤ v
    → Above v children
    → IsHeap children
    → Above m next
    → IsHeap next
    → Joined (replace_by_children next children) m next children
unfolding replace_by_children
replace-Joined m v next children le a h b k =
    let merged = merge_pairs-Keeps m children h (Above-below m v children le a) in
    let joined = relink-Joined m next merged.queue merged.single merged.heap merged.above k b in
    record {
      queue = joined.queue;
      result = ap (λ o. o >>= relink next) merged.result ∙ joined.result;
      heap = joined.heap;
      above = joined.above;
      single = joined.single;
      counts_eq = λ j w. omega (arith, joined.counts_eq j w, merged.counts_eq j w);
      ids_eq = λ j. omega (arith, joined.ids_eq j, merged.ids_eq j);
    }

remove-here :
    (id i v : ℕ) (next children : PQueue)
    → (i == id) ≡ true
    → remove id (elem i v next children) ≡ replace_by_children next children
unfolding remove
remove-here id i v next children e = rw e refl

remove-below :
    (id i v : ℕ) (next children n c : PQueue)
    → (i == id) ≡ false
    → remove id next ≡ some n
    → remove id children ≡ some c
    → remove id (elem i v next children) ≡ some (elem i v n c)
unfolding remove
remove-below id i v next children n c e f g = rw (e, f, g) refl

next-null : (i v : ℕ) (next c : PQueue) → IsSingle (elem i v next c) → next ≡ null
next-null i v null c s = refl
next-null i v (elem j w n d) c s = absurd s

IsSingle-below :
    (id i v : ℕ) (next n c : PQueue)
    → next ≡ null
    → remove id next ≡ some n
    → IsSingle (elem i v n c)
IsSingle-below id i v next null c e r = tt
IsSingle-below id i v next (elem j w k d) c e r =
    let empty : remove id null ≡ some null = unfold remove in refl in
    let same = sym empty ∙ ap (remove id) (sym e) ∙ r in cc

remove-Removed : (id m : ℕ) (q : PQueue) → IsHeap q → Above m q → Removed id m q
remove-Removed id m null h a =
    unfold remove in
    record {
      queue = null;
      result = refl;
      heap = tt;
      above = tt;
      single = λ s. tt;
      others = λ j w ne. refl;
      gone = omega arith;
    }
remove-Removed id m (elem i v next children) h a = elim (Bool-cases (i == id)) [
  | inl e ↦
      let j = replace-Joined m v next children a.0 h.0 h.1 a.1 h.2 in
      record {
        queue = j.queue;
        result = remove-here id i v next children e ∙ j.result;
        heap = j.heap;
        above = j.above;
        single = λ s. j.single (next-null i v next children s);
        others = λ x w ne. ground (arith, j.counts_eq x w, e);
        gone = ground (arith, j.ids_eq id, e);
      }
  | inr e ↦
      let n = remove-Removed id m next h.2 a.1 in
      let c = remove-Removed id v children h.1 h.0 in
      record {
        queue = elem i v n.queue c.queue;
        result = remove-below id i v next children n.queue c.queue e n.result c.result;
        heap = (c.above, c.heap, n.heap);
        above = (a.0, n.above);
        single = λ s.
            IsSingle-below id i v next n.queue c.queue (next-null i v next children s) n.result;
        others = λ x w ne. omega (arith, n.others x w ne, c.others x w ne);
        gone = ground (arith, e, n.gone, c.gone);
      }
]

-- The removal of an element from a queue in heap order succeeds, and leaves a queue in heap order in
-- which all elements of other identities stand as often as before, and those of its identity at
-- least once less, if there were any.
pub remove-IsHeap :
    (id : ℕ) (q : PQueue)
    → IsSingle q
    → IsHeap q
    → (q' : PQueue) × (remove id q ≡ some q')
      × IsSingle q'
      × IsHeap q'
      × ((j w : ℕ) → (j ≡ id) ⊎ (count j w q' ≡ count j w q))
      × (count_id id q' ≤ count_id id q - 1)
remove-IsHeap id q s h =
    let r = remove-Removed id 0 q h (Above-zero q) in
    (
      r.queue,
      r.result,
      r.single s,
      r.heap,
      λ j w. elim (Bool-cases (j == id)) [
        | inl e ↦ inl (ground (arith, e))
        | inr e ↦ inr (r.others j w (λ p. ground (arith, e, p)))
      ],
      r.gone,
    )
