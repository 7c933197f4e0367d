-- ===== src/Pool.antt =====
-- src/blockchain/priority.rs: the transaction pool, a map with a priority queue of its keys.
-- A key (`Hash`, 32 bytes) is the number that its bytes spell, most significant first: arrays compare
-- as these numbers do. The std `BinaryHeap<(u64, K)>` is the list of its entries, greatest first; the
-- std `HashMap` is an association list; a `Vec` used as a stack has its top at the head.
pub mod Heap
pub mod Total
pub mod Reads
pub mod Rank
pub mod Eviction
use bullet_ledger.Base.{
  ℕ, zero, suc, ltb, ◌==◌, if◌then◌else◌, Bool, true, false, Option, none, some, List, [], ◌∷◌,
  length, is_some, ◌||◌, ◌&&◌,
}
use bullet_ledger.Base.Assoc

-- trait `DeriveStuff`: what the pool asks of a value. `fill_key` is the key that it writes.
pub record DeriveStuff (V : Type 0) : Type 0 where
  pub fill_key : V → ℕ
  pub get_comperator : V → ℕ
  pub get_value_id : V → ℕ
  pub new : ℕ → V

abbrev pub Entry : Type 0
Entry = ℕ × ℕ

pub record PriorityPool (V : Type 0) : Type 0 where
  pub map : List (ℕ × (V × ℕ))
  pub heap : List Entry
  pub capacity : ℕ
  pub values : List (ℕ × List V)
  pub values_capacity : ℕ
  pub keys : List ℕ
  pub keys_capacity : ℕ

-- The order of `(u64, K)`.
abbrev pub entry_lt : Entry → Entry → Bool
entry_lt (w, k) (x, j) = ltb w x || w == x && ltb k j

-- `BinaryHeap::push`.
unfoldable pub heap_push : Entry → List Entry → List Entry
heap_push e [] = e ∷ []
heap_push e (x ∷ h) = if entry_lt e x then x ∷ heap_push e h else e ∷ (x ∷ h)

abbrev pub first : List Entry → Option Entry
first [] = none
first (e ∷ h) = some e

module _ {V : Type 0} where
  unfoldable pub with_capacity : ℕ → ℕ → PriorityPool V
  with_capacity capacity values_capacity = record {
    map = [];
    heap = [];
    capacity = capacity;
    values = [];
    values_capacity = values_capacity;
    keys = [];
    keys_capacity = capacity;
  }

  unfoldable pub len : PriorityPool V → ℕ
  len p = length p.map

  unfoldable pub contains : ℕ → PriorityPool V → Bool
  contains k p = Assoc.contains k p.map

  unfoldable pub get : ℕ → PriorityPool V → Option (V × ℕ)
  get k p = Assoc.lookup k p.map

  unfoldable pub recycle_key : ℕ → PriorityPool V → PriorityPool V
  recycle_key k p =
      if ltb (length p.keys) p.keys_capacity then record p { keys = k ∷ p.keys } else p

  -- A recycled key, or the default one; the caller overwrites it.
  unfoldable pub get_key : PriorityPool V → ℕ × PriorityPool V
  get_key p = elim p.keys [ [] ↦ (0, p) | k ∷ ks ↦ (k, record p { keys = ks }) ]

  -- `clean`: drop the greatest entries while their keys are not in the map.
  unfoldable pub clean_from : List Entry → PriorityPool V → PriorityPool V
  clean_from [] p = record p { heap = [] }
  clean_from ((w, k) ∷ h) p =
      let rest = clean_from h (recycle_key k (record p { heap = h })) in
      if Assoc.contains k p.map then record p { heap = (w, k) ∷ h } else rest

  unfoldable pub clean : PriorityPool V → PriorityPool V
  unfolding clean_from
  clean p = clean_from p.heap p

  unfoldable pub peek : PriorityPool V → Option Entry × PriorityPool V
  peek p = let q = clean p in (first q.heap, q)

  -- The loop of `pop`, over what is left of the heap.
  unfoldable pub pop_from : List Entry → PriorityPool V → Option V × PriorityPool V
  pop_from [] p = (none, clean (record p { heap = [] }))
  pop_from ((w, k) ∷ h) p =
      let rest = pop_from h (recycle_key k (record p { heap = h })) in
      elim (Assoc.lookup k p.map) [
        | some (v, u) ↦ (some v, recycle_key k (record p { heap = h; map = Assoc.remove k p.map }))
        | none ↦ rest
      ]

  unfoldable pub pop : PriorityPool V → Option V × PriorityPool V
  unfolding pop_from
  pop p = pop_from p.heap p

module _ {V : Type 0} (d : DeriveStuff V) where
  -- `grow` is what the allocator makes of a map that is full.
  unfoldable pub get_value : (ℕ → ℕ) → ℕ → PriorityPool V → V × PriorityPool V
  get_value grow id p = elim (Assoc.lookup id p.values) [
    | none ↦ (
      d.new id,
      record p {
        values = Assoc.insert id [] p.values;
        values_capacity =
            if ltb (length p.values) p.values_capacity
            then p.values_capacity
            else grow p.values_capacity;
      },
    )
    | some [] ↦ (d.new id, p)
    | some (v ∷ vs) ↦ (v, record p { values = Assoc.insert id vs p.values })
  ]

  unfoldable pub recycle_value : V → PriorityPool V → PriorityPool V
  recycle_value v p =
      if ltb (length p.values) p.values_capacity
      then elim (Assoc.lookup (d.get_value_id v) p.values) [
        | some vs ↦ record p { values = Assoc.insert (d.get_value_id v) (v ∷ vs) p.values }
        | none ↦ record p { values = Assoc.insert (d.get_value_id v) (v ∷ []) p.values }
      ]
      else p

  unfoldable pub remove_one : ℕ → PriorityPool V → PriorityPool V
  remove_one k p = elim (Assoc.lookup k p.map) [
    | some (v, u) ↦ recycle_key k (recycle_value v (record p { map = Assoc.remove k p.map }))
    | none ↦ p
  ]

  -- One round of the eviction loop of `insert`. With an empty heap it does nothing, and the loop spins.
  unfoldable pub evict_once : PriorityPool V → PriorityPool V
  evict_once p = elim p.heap [
    | [] ↦ p
    | (w, k) ∷ h ↦ recycle_key k (elim (Assoc.lookup k p.map) [
      | some (v, u) ↦ recycle_value v (record p { heap = h; map = Assoc.remove k p.map })
      | none ↦ record p { heap = h }
    ])
  ]

  -- `none`: the rounds given were not enough.
  unfoldable pub evict : ℕ → PriorityPool V → Option (PriorityPool V)
  evict zero p = none
  evict (suc rounds) p = elim (ltb p.capacity (length p.map)) [
    | true ↦ evict rounds (evict_once p)
    | false ↦ some p
  ]

  -- Two keys are taken from the free list, and the value is put under its key.
  unfoldable pub placed : V → PriorityPool V → PriorityPool V
  placed v p =
      let q = (get_key (get_key p).1).1 in
      record q { map = Assoc.insert (d.fill_key v) (v, d.get_comperator v) q.map }

  -- The second key goes to the heap.
  unfoldable pub enqueued : V → PriorityPool V → PriorityPool V
  unfolding placed
  enqueued v p =
      let q = placed v p in record q { heap = heap_push (d.get_comperator v, d.fill_key v) q.heap }

  -- Where the key was there already the second key and the old value are recycled.
  unfoldable pub replaced : V → V → PriorityPool V → PriorityPool V
  unfolding placed
  replaced v old p = recycle_value old (recycle_key (d.fill_key v) (placed v p))

  unfoldable pub insert : V → PriorityPool V → Option (PriorityPool V)
  unfolding evict_once evict placed enqueued replaced
  insert v p = elim (Assoc.lookup (d.fill_key v) p.map) [
    | some (old, u) ↦ some (replaced v old p)
    | none ↦ evict (suc (suc (length p.heap))) (enqueued v p)
  ]
