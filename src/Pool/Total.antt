-- ===== src/Pool/Total.antt =====
-- The invariant of the pool: every key of the map has an entry in the heap. It makes the eviction
-- loop of `insert` end.
use bullet_ledger.Base.{
  ℕ, zero, suc, ◌≤◌, ◌<◌, ◌≡◌, refl, ltb, true, false, none, some, List, [], ◌∷◌, length, arith,
  inl, inr, Bool-cases, Option-cases, ◌∙◌, ap, le→not-ltb, not-ltb→le,
}
use bullet_ledger.Base.Assoc
use bullet_ledger.Base.Assoc.{
  Distinct, lookup-insert, lookup-remove, length-insert_present, length-remove, insert-Distinct,
  remove-Distinct, remove_absent,
}
use bullet_ledger.Pool.{
  DeriveStuff, Entry, PriorityPool, heap_push, recycle_key, recycle_value, get_key, evict_once,
  evict, placed, enqueued, replaced, insert, with_capacity,
}
use bullet_ledger.Pool.Heap.{
  queued, IsSorted, queued-heap_push, length-heap_push, heap_push-IsSorted, SameBody,
  recycle_key-SameBody, get_key-SameBody, recycle_value-SameBody,
}

module _ {V : Type 0} where
  -- Every key of the map has an entry in the heap.
  abbrev pub Covers : List Entry → List (ℕ × (V × ℕ)) → Type 0
  Covers h m = (k : ℕ) → Assoc.contains k m ≡ true → queued k h ≡ true

  pub record IsValid (p : PriorityPool V) : Type 0 where
    pub distinct : Distinct p.map
    pub covered : Covers p.heap p.map
    pub sorted : IsSorted p.heap

  pub length-Covers_nil : (m : List (ℕ × (V × ℕ))) → Covers [] m → length m ≡ 0
  unfolding queued
  length-Covers_nil [] c = refl
  length-Covers_nil ((k, a) ∷ m) c = unfold Assoc.lookup in ground (arith, c k)

  pub Covers-remove :
      (w k : ℕ) (h : List Entry) (m : List (ℕ × (V × ℕ)))
      → Covers ((w, k) ∷ h) m
      → Covers h (Assoc.remove k m)
  unfolding queued
  Covers-remove w k h m c j e = ground (arith, lookup-remove k j m, c j)

  pub Covers-drop :
      (w k : ℕ) (h : List Entry) (m : List (ℕ × (V × ℕ)))
      → Covers ((w, k) ∷ h) m
      → Assoc.lookup k m ≡ none
      → Covers h m
  unfolding queued
  Covers-drop w k h m c e j i = ground (arith, c j)

  -- The invariant sees the map and the heap only.
  pub IsValid-same :
      (p q : PriorityPool V) → (p.map ≡ q.map) → (p.heap ≡ q.heap) → IsValid q → IsValid p
  IsValid-same p q em eh v = record {
    distinct = rw em v.distinct;
    covered = rw (em, eh) v.covered;
    sorted = rw eh v.sorted;
  }

  pub with_capacity-IsValid : (n vc : ℕ) → IsValid (with_capacity {V = V} n vc)
  unfolding with_capacity
  with_capacity-IsValid n vc = record {
    distinct = tt;
    covered = λ k h. unfold Assoc.lookup in cc;
    sorted = tt;
  }

module _ {V : Type 0} (d : DeriveStuff V) where
  -- What one round of the eviction does to a heap that is not empty.
  abbrev rest_of : PriorityPool V → ℕ → List Entry → PriorityPool V
  rest_of p k h = record p { heap = h; map = Assoc.remove k p.map }

  pub evict_once_body :
      (p : PriorityPool V) (w k : ℕ) (h : List Entry)
      → p.heap ≡ (w, k) ∷ h
      → ((evict_once d p).map ≡ Assoc.remove k p.map)
        × ((evict_once d p).heap ≡ h)
        × ((evict_once d p).capacity ≡ p.capacity)
  unfolding evict_once
  evict_once_body p w k h e = elim (Option-cases (Assoc.lookup k p.map)) [
    | inl gone ↦
        ground (arith, recycle_key-SameBody k (record p { heap = h }), remove_absent k p.map)
    | inr ((v, u), here) ↦ ground (
      arith,
      recycle_key-SameBody k (recycle_value d v (rest_of p k h)),
      recycle_value-SameBody d v (rest_of p k h),
    )
  ]

  pub evict_once-IsValid :
      (p : PriorityPool V) (w k : ℕ) (h : List Entry)
      → p.heap ≡ (w, k) ∷ h
      → IsValid p
      → IsValid (evict_once d p)
  evict_once-IsValid p w k h e v =
      let (em, eh, ec) = evict_once_body p w k h e in
      record {
        distinct = rw em (remove-Distinct k p.map v.distinct);
        covered = rw (em, eh) (Covers-remove w k h p.map (rw e at v.covered));
        sorted = let s : IsSorted ((w, k) ∷ h) = rw e at v.sorted in rw eh s.1;
      }

  pub evict-total :
      (rounds : ℕ) (p : PriorityPool V) (h : List Entry)
      → p.heap ≡ h
      → length h < rounds
      → IsValid p
      → (q : PriorityPool V) × (evict d rounds p ≡ some q)
        × IsValid q
        × (length q.map ≤ p.capacity)
        × (q.capacity ≡ p.capacity)
  unfolding evict
  evict-total zero p h e l v = absurd (omega arith)
  evict-total (suc rounds) p [] e l v =
      let empty : length p.map ≡ 0 = length-Covers_nil p.map (rw e at v.covered) in
      let fits : ltb p.capacity (length p.map) ≡ false = le→not-ltb _ _ (omega (arith, empty)) in
      (p, rw (fits, evict), v, omega (arith, empty), refl)
  evict-total (suc rounds) p ((w, k) ∷ h) e l v =
      elim (Bool-cases (ltb p.capacity (length p.map))) [
        | inl over ↦
            let (em, eh, ec) = evict_once_body p w k h e in
            let (q, eq, vq, fits, cap) =
              evict-total rounds (evict_once d p) h eh (omega arith)
                (evict_once-IsValid p w k h e v) in
            (q, rw (over, evict) eq, vq, omega (arith, ec), cap ∙ ec)
        | inr fits ↦ (p, rw (fits, evict), v, not-ltb→le _ _ fits, refl)
      ]

  pub placed_body :
      (v : V) (p : PriorityPool V)
      → ((placed d v p).map ≡ Assoc.insert (d.fill_key v) (v, d.get_comperator v) p.map)
        × ((placed d v p).heap ≡ p.heap)
        × ((placed d v p).capacity ≡ p.capacity)
  unfolding placed
  placed_body v p = ground (arith, get_key-SameBody (get_key p).1, get_key-SameBody p)

  pub enqueued_body :
      (v : V) (p : PriorityPool V)
      → ((enqueued d v p).map ≡ Assoc.insert (d.fill_key v) (v, d.get_comperator v) p.map)
        × ((enqueued d v p).heap ≡ heap_push (d.get_comperator v, d.fill_key v) p.heap)
        × ((enqueued d v p).capacity ≡ p.capacity)
  unfolding enqueued
  enqueued_body v p = ground (arith, placed_body v p)

  pub replaced_body :
      (v old : V) (p : PriorityPool V) → SameBody (replaced d v old p) (placed d v p)
  unfolding replaced
  replaced_body v old p = ground (
    arith,
    recycle_value-SameBody d old (recycle_key (d.fill_key v) (placed d v p)),
    recycle_key-SameBody (d.fill_key v) (placed d v p),
  )

  pub enqueued-IsValid : (v : V) (p : PriorityPool V) → IsValid p → IsValid (enqueued d v p)
  unfolding enqueued
  enqueued-IsValid v p i =
      let (em, eh, ec) = placed_body v p in
      let k = d.fill_key v in
      let a : V × ℕ = (v, d.get_comperator v) in
      record {
        distinct = rw em (insert-Distinct k a p.map i.distinct);
        covered = λ j h. rw eh (
            ground (
              arith,
              em,
              queued-heap_push (d.get_comperator v) k j p.heap,
              lookup-insert k j a p.map,
              i.covered j,
            ));
        sorted = rw eh (heap_push-IsSorted (d.get_comperator v, k) p.heap i.sorted);
      }

  replaced-IsValid :
      (v old : V) (u : ℕ) (p : PriorityPool V)
      → Assoc.lookup (d.fill_key v) p.map ≡ some (old, u)
      → IsValid p
      → IsValid (placed d v p)
  replaced-IsValid v old u p e i =
      let (em, eh, ec) = placed_body v p in
      let k = d.fill_key v in
      let a : V × ℕ = (v, d.get_comperator v) in
      record {
        distinct = rw em (insert-Distinct k a p.map i.distinct);
        covered = λ j h. rw eh (ground (arith, em, lookup-insert k j a p.map, i.covered j));
        sorted = rw eh i.sorted;
      }

  -- `insert` returns on every valid pool that is within its capacity: the eviction loop ends. The new
  -- pool is valid, its capacity is the old one, and it is within it.
  pub insert-total :
      (v : V) (p : PriorityPool V)
      → IsValid p
      → length p.map ≤ p.capacity
      → (q : PriorityPool V) × (insert d v p ≡ some q)
        × IsValid q
        × (length q.map ≤ p.capacity)
        × (q.capacity ≡ p.capacity)
  unfolding insert
  insert-total v p i small = elim (Option-cases (Assoc.lookup (d.fill_key v) p.map)) [
    | inl fresh ↦
        let (em, eh, ec) = enqueued_body v p in
        let (q, eq, iq, fits, cap) =
          evict-total (suc (suc (length p.heap))) (enqueued d v p) _ eh
            (omega (arith, length-heap_push (d.get_comperator v, d.fill_key v) p.heap))
            (enqueued-IsValid v p i) in
        (q, rw (fresh, insert) eq, iq, omega (arith, ec), cap ∙ ec)
    | inr ((old, u), here) ↦
        let (em, eh, ec) = placed_body v p in
        let (rm, rh, rc) = replaced_body v old p in
        (
          replaced d v old p,
          rw (here, insert),
          IsValid-same _ _ rm rh (replaced-IsValid v old u p here i),
          omega (
            arith,
            ap (λ m. length m) (rm ∙ em),
            length-insert_present (d.fill_key v) (v, d.get_comperator v) (old, u) p.map here,
          ),
          rc ∙ ec,
        )
  ]
