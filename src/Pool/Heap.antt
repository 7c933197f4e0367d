-- ===== src/Pool/Heap.antt =====
-- The list behind `BinaryHeap`, and what the free lists of the pool leave alone.
use bullet_ledger.Base.{
  ℕ, ◌≤◌, ◌≡◌, refl, ◌==◌, if◌then◌else◌, Bool, true, false, List, [], ◌∷◌, length, All, arith, suc,
}
use bullet_ledger.Pool.{
  DeriveStuff, Entry, PriorityPool, entry_lt, heap_push, recycle_key, recycle_value, get_key,
}

-- A key has an entry in the heap.
unfoldable pub queued : ℕ → List Entry → Bool
queued k [] = false
queued k ((w, j) ∷ h) = if j == k then true else queued k h

-- Priorities fall along the list.
abbrev pub IsSorted : List Entry → Type 0
IsSorted [] = Unit {0}
IsSorted ((w, k) ∷ h) = All (λ (e : Entry). e.0 ≤ w) h × IsSorted h

pub queued-heap_push :
    (w k j : ℕ) (h : List Entry)
    → queued j (heap_push (w, k) h) ≡ (if k == j then true else queued j h)
unfolding queued heap_push
queued-heap_push w k j [] = refl
queued-heap_push w k j ((x, i) ∷ h) = ground (arith, queued-heap_push w k j h)

pub length-heap_push : (e : Entry) (h : List Entry) → length (heap_push e h) ≡ suc (length h)
unfolding heap_push
length-heap_push e [] = refl
length-heap_push e (x ∷ h) = ground (arith, length-heap_push e h)

pub heap_push-All :
    (P : Entry → Type 0) (e : Entry) (h : List Entry) → P e → All P h → All P (heap_push e h)
unfolding heap_push
heap_push-All P e [] pe ph = (pe, tt)
heap_push-All P e (x ∷ h) pe ph =
    elim (entry_lt e x) as (λ b. All P (if b then x ∷ heap_push e h else e ∷ (x ∷ h))) [
      | true ↦ (ph.0, heap_push-All P e h pe ph.1)
      | false ↦ (pe, ph)
    ]

All-le_trans :
    (w x : ℕ) (h : List Entry)
    → w ≤ x
    → All (λ (e : Entry). e.0 ≤ w) h
    → All (λ (e : Entry). e.0 ≤ x) h
All-le_trans w x [] l a = tt
All-le_trans w x (e ∷ h) l a = (omega arith, All-le_trans w x h l a.1)

pub heap_push-IsSorted : (e : Entry) (h : List Entry) → IsSorted h → IsSorted (heap_push e h)
unfolding heap_push
heap_push-IsSorted (w, k) [] s = (tt, tt)
heap_push-IsSorted (w, k) ((x, j) ∷ h) s = ground (
  arith,
  heap_push-All (λ e. e.0 ≤ x) (w, k) h,
  heap_push-IsSorted (w, k) h s.1,
  All-le_trans x w h,
)

module _ {V : Type 0} where
  -- The fields that the free lists do not touch.
  abbrev pub SameBody : PriorityPool V → PriorityPool V → Type 0
  SameBody p q = (p.map ≡ q.map) × (p.heap ≡ q.heap) × (p.capacity ≡ q.capacity)

  pub recycle_key-SameBody : (k : ℕ) (p : PriorityPool V) → SameBody (recycle_key k p) p
  unfolding recycle_key
  recycle_key-SameBody k p = ground arith

  pub get_key-SameBody : (p : PriorityPool V) → SameBody (get_key p).1 p
  unfolding get_key
  get_key-SameBody p = ground arith

  pub recycle_value-SameBody :
      (d : DeriveStuff V) (v : V) (p : PriorityPool V) → SameBody (recycle_value d v p) p
  unfolding recycle_value
  recycle_value-SameBody d v p = ground arith
