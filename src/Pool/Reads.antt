-- ===== src/Pool/Reads.antt =====
-- What a client of the pool reads after each operation.
use bullet_ledger.Base.{
  ℕ, ◌<◌, ◌≡◌, refl, ltb, ◌==◌, if◌then◌else◌, true, false, Option, none, some, List, [], ◌∷◌,
  length, arith, ◌⊎◌, inl, inr, Option-cases, ap, le→not-ltb,
}
use bullet_ledger.Base.Assoc
use bullet_ledger.Base.Assoc.{
  lookup-insert, lookup-remove, length-insert_fresh, remove-Distinct, remove_absent,
}
use bullet_ledger.Pool.{
  DeriveStuff, Entry, PriorityPool, recycle_key, evict, enqueued, replaced, insert, remove_one,
  recycle_value, pop_from, clean, get,
}
use bullet_ledger.Pool.Heap.{recycle_key-SameBody, recycle_value-SameBody}
use bullet_ledger.Pool.Total.{
  IsValid, Covers, Covers-drop, length-Covers_nil, placed_body, enqueued_body, replaced_body,
}

module _ {V : Type 0} (d : DeriveStuff V) where
  -- The map holds one entry more, or the key was there.
  abbrev pub HasRoom : V → PriorityPool V → Type 0
  HasRoom v p = (Assoc.contains (d.fill_key v) p.map ≡ true) ⊎ (length p.map < p.capacity)

  insert_fresh :
      (v : V) (p : PriorityPool V)
      → Assoc.lookup (d.fill_key v) p.map ≡ none
      → length p.map < p.capacity
      → insert d v p ≡ some (enqueued d v p)
  unfolding insert
  insert_fresh v p e room =
      let (em, eh, ec) = enqueued_body d v p in
      let k = d.fill_key v in
      let a : V × ℕ = (v, d.get_comperator v) in
      let fits : ltb (enqueued d v p).capacity (length (enqueued d v p).map) ≡ false =
        le→not-ltb _ _
          (omega (arith, ec, ap (λ m. length m) em, length-insert_fresh k a p.map e)) in
      rw (e, insert) (rw (evict, fits))

  insert_present :
      (v old : V) (u : ℕ) (p : PriorityPool V)
      → Assoc.lookup (d.fill_key v) p.map ≡ some (old, u)
      → insert d v p ≡ some (replaced d v old p)
  unfolding insert
  insert_present v old u p e = rw (e, insert)

  map_after-insert :
      (v : V) (p q : PriorityPool V)
      → HasRoom v p
      → insert d v p ≡ some q
      → q.map ≡ Assoc.insert (d.fill_key v) (v, d.get_comperator v) p.map
  map_after-insert v p q room e = elim (Option-cases (Assoc.lookup (d.fill_key v) p.map)) [
    | inl fresh ↦ ground (arith, room, fresh, insert_fresh v p fresh, enqueued_body d v p)
    | inr ((old, u), here) ↦
        ground
          (arith, here, insert_present v old u p here, replaced_body d v old p, placed_body d v p)
  ]

  -- With room for one more, `insert` puts the value and its priority under its key, and every other
  -- key reads as before.
  pub get-insert :
      (v : V) (p q : PriorityPool V) (j : ℕ)
      → HasRoom v p
      → insert d v p ≡ some q
      → get j q ≡ (if d.fill_key v == j then some (v, d.get_comperator v) else get j p)
  unfolding get
  get-insert v p q j room e =
      rw (map_after-insert v p q room e)
        (lookup-insert (d.fill_key v) j (v, d.get_comperator v) p.map)

  pub remove_one_body :
      (k : ℕ) (p : PriorityPool V)
      → ((remove_one d k p).map ≡ Assoc.remove k p.map) × ((remove_one d k p).heap ≡ p.heap)
  unfolding remove_one
  remove_one_body k p = elim (Option-cases (Assoc.lookup k p.map)) [
    | inl gone ↦ ground (arith, remove_absent k p.map)
    | inr ((v, u), here) ↦
        let q = record p { map = Assoc.remove k p.map } in
        ground (arith, recycle_key-SameBody k (recycle_value d v q), recycle_value-SameBody d v q)
  ]

  -- `remove_one` makes its key read as absent, leaves every other key, and keeps the invariant.
  pub remove_one_lem :
      (k : ℕ) (p : PriorityPool V)
      → IsValid p
      → IsValid (remove_one d k p)
        × ((j : ℕ) → get j (remove_one d k p) ≡ (if k == j then none else get j p))
  unfolding get
  remove_one_lem k p v =
      let (em, eh) = remove_one_body k p in
      (
        record {
          distinct = rw em (remove-Distinct k p.map v.distinct);
          covered = λ j h. rw eh (ground (arith, em, lookup-remove k j p.map, v.covered j));
          sorted = rw eh v.sorted;
        },
        λ j. rw em (lookup-remove k j p.map),
      )

module _ {V : Type 0} where
  -- What `pop` did: the map was empty, or the value of one key left it.
  abbrev pub Popped : PriorityPool V → Option V × PriorityPool V → Type 0
  Popped p r =
      ((r.0 ≡ none) × (length p.map ≡ 0) × (length r.1.map ≡ 0))
      ⊎ ((k : ℕ) × (v : V) × (u : ℕ) × (r.0 ≡ some v)
          × (Assoc.lookup k p.map ≡ some (v, u))
          × (r.1.map ≡ Assoc.remove k p.map))

  pub pop_from_here :
      (w k : ℕ) (h : List Entry) (p : PriorityPool V) (v : V) (u : ℕ)
      → Assoc.lookup k p.map ≡ some (v, u)
      → ((pop_from ((w, k) ∷ h) p).0 ≡ some v)
        × ((pop_from ((w, k) ∷ h) p).1.map ≡ Assoc.remove k p.map)
        × ((pop_from ((w, k) ∷ h) p).1.heap ≡ h)
  unfolding pop_from
  pop_from_here w k h p v u e =
      ground (arith, recycle_key-SameBody k (record p { heap = h; map = Assoc.remove k p.map }))

  pub pop_from_stale :
      (w k : ℕ) (h : List Entry) (p : PriorityPool V)
      → Assoc.lookup k p.map ≡ none
      → pop_from ((w, k) ∷ h) p ≡ pop_from h (recycle_key k (record p { heap = h }))
  unfolding pop_from
  pop_from_stale w k h p e = rw (e, pop_from)

  pub pop_from_lem :
      (h : List Entry) (p : PriorityPool V) → Covers h p.map → Popped p (pop_from h p)
  pop_from_lem [] p c =
      unfold pop_from clean in inl (refl, length-Covers_nil p.map c, length-Covers_nil p.map c)
  pop_from_lem ((w, k) ∷ h) p c = elim (Option-cases (Assoc.lookup k p.map)) [
    | inl stale ↦
        let (em, eh, ec) = recycle_key-SameBody k (record p { heap = h }) in
        let rest =
          pop_from_lem h (recycle_key k (record p { heap = h }))
            (rw em (Covers-drop w k h p.map c stale)) in
        rw (pop_from_stale w k h p stale) (ground (arith, rest, em))
    | inr ((v, u), here) ↦
        let (e0, em, eh) = pop_from_here w k h p v u here in inr (k, v, u, e0, here, em)
  ]
