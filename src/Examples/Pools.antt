-- ===== src/Examples/Pools.antt =====
-- The pool, the codes and the peers at concrete inputs.
use bullet_ledger.Base.{
  ℕ, ◌+◌, ◌≤◌, ◌≡◌, refl, true, none, some, [], ◌∷◌, length, inr, arith, ◌==◌, if◌then◌else◌,
}
use bullet_ledger.Base.Assoc
use bullet_ledger.Pool.{
  DeriveStuff, PriorityPool, insert, pop, peek, remove_one, get, clean, clean_from, evict,
  evict_once, placed, enqueued, heap_push, get_key, recycle_key, recycle_value,
}
use bullet_ledger.Pool.Heap.{queued}
use bullet_ledger.Pool.Total.{IsValid, insert-total}
use bullet_ledger.Pool.Reads.{Popped, get-insert, remove_one_lem}
use bullet_ledger.Pool.Eviction.{insert_evicts-IsGreatest}
use bullet_ledger.Pool.Rank.{IsRanked, pop-greatest, pop_lem, peek-pop, PoppedGreatest, IsGreatest}

-- A value is its key; its priority is twice the key.
abbrev twice : ℕ → ℕ
twice n = n + n

abbrev numbers : DeriveStuff ℕ
numbers = record { fill_key = λ n. n; get_comperator = twice; get_value_id = λ n. 99; new = λ n. 0 }

-- A full pool of two values, and an entry whose key is gone.
abbrev two : PriorityPool ℕ
two = record {
  map = (3, (3, 6)) ∷ ((1, (1, 2)) ∷ []);
  heap = (8, 4) ∷ ((6, 3) ∷ ((2, 1) ∷ []));
  capacity = 2;
  values = [];
  values_capacity = 1;
  keys = [];
  keys_capacity = 2;
}

abbrev roomy : PriorityPool ℕ
roomy = record two { capacity = 3 }

two-IsValid : IsValid two
unfolding queued Assoc.lookup
two-IsValid = record {
  distinct = (refl, (refl, tt));
  covered = λ k h. ground (arith, h);
  sorted = ((omega arith, (omega arith, tt)), ((omega arith, tt), (tt, tt)));
}

roomy-IsValid : IsValid roomy
roomy-IsValid = record {
  distinct = two-IsValid.distinct;
  covered = two-IsValid.covered;
  sorted = two-IsValid.sorted;
}

two-IsRanked : IsRanked twice two
unfolding Assoc.lookup
two-IsRanked = record { priced = (refl, (refl, (refl, tt))); stored = λ k v u e. ground (arith, e) }

-- What `insert` makes of the two pools.
abbrev roomier : PriorityPool ℕ
roomier = record roomy {
  map = (3, (3, 6)) ∷ ((1, (1, 2)) ∷ ((2, (2, 4)) ∷ []));
  heap = (8, 4) ∷ ((6, 3) ∷ ((4, 2) ∷ ((2, 1) ∷ [])));
}

insert-roomy : insert numbers 2 roomy ≡ some roomier
unfolding insert evict evict_once placed enqueued heap_push Assoc.lookup Assoc.insert get_key
insert-roomy = refl

abbrev evicted : PriorityPool ℕ
evicted = record two {
  map = (1, (1, 2)) ∷ ((2, (2, 4)) ∷ []);
  heap = (4, 2) ∷ ((2, 1) ∷ []);
  values = (99, 3 ∷ []) ∷ [];
  keys = 3 ∷ (4 ∷ []);
}

insert-two : insert numbers 2 two ≡ some evicted
unfolding insert evict evict_once placed enqueued heap_push Assoc.lookup Assoc.insert Assoc.remove
    get_key recycle_key recycle_value
insert-two = refl

insert-total_example :
    (q : PriorityPool ℕ) × (insert numbers 2 two ≡ some q)
    × IsValid q
    × (length q.map ≤ 2)
    × (q.capacity ≡ 2)
insert-total_example = insert-total numbers 2 two two-IsValid (omega arith)

get-insert_example : get 3 roomier ≡ some (3, 6)
unfolding get Assoc.lookup
get-insert_example = get-insert numbers 2 roomy roomier 3 (inr (omega arith)) insert-roomy

insert_evicts_example :
    (k : ℕ) × (Assoc.contains k (Assoc.insert 2 (2, 4) two.map) ≡ true)
    × (evicted.map ≡ Assoc.remove k (Assoc.insert 2 (2, 4) two.map))
    × IsGreatest (twice k) (Assoc.insert 2 (2, 4) two.map)
insert_evicts_example =
    insert_evicts-IsGreatest numbers twice 2 two evicted two-IsValid two-IsRanked refl
      (unfold get Assoc.lookup in refl) refl insert-two

pop_example : IsValid (pop two).1 × Popped two (pop two)
pop_example = pop_lem two two-IsValid

pop-greatest_example : PoppedGreatest two.map (pop two)
pop-greatest_example = pop-greatest twice two two-IsValid two-IsRanked

peek-pop_example :
    (v : ℕ) × (u : ℕ) × (Assoc.lookup 3 two.map ≡ some (v, u)) × ((pop two).0 ≡ some v)
unfolding peek clean clean_from Assoc.lookup recycle_key
peek-pop_example = peek-pop two 6 3 refl

remove_one_example :
    IsValid (remove_one numbers 3 two)
    × ((j : ℕ) → get j (remove_one numbers 3 two) ≡ (if 3 == j then none else get j two))
remove_one_example = remove_one_lem numbers 3 two two-IsValid
