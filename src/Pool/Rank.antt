-- ===== src/Pool/Rank.antt =====
-- Priorities: what `pop` and `peek` choose, and what `insert` evicts. `fee` is the priority that a
-- key determines: a transaction's key is the hash of a text that holds its fee.
use bullet_ledger.Base.{
  ℕ, ◌≤◌, ◌≡◌, refl, ◌==◌, true, Option, none, some, List, [], ◌∷◌, length, All, arith, ◌⊎◌, inl,
  inr, Option-cases, ◌∙◌, ap, ==_iff, Bool-cases,
}
use mathlib.Core.Path.{subst}
use native.Mathlib.Nat.{le_refl}
use bullet_ledger.Base.Assoc
use bullet_ledger.Base.Assoc.{
  lookup-insert, lookup-remove, length-remove, length-insert_fresh, remove-Distinct, remove_absent,
}
use bullet_ledger.Pool.{
  Entry, PriorityPool, recycle_key, pop_from, pop, clean, clean_from, peek, first,
}
use bullet_ledger.Pool.Heap.{queued, IsSorted, recycle_key-SameBody}
use bullet_ledger.Pool.Total.{IsValid, Covers, Covers-remove, Covers-drop, length-Covers_nil}
use bullet_ledger.Pool.Reads.{Popped, pop_from_here, pop_from_stale, pop_from_lem}

-- The heap entries carry the fee of their keys.
abbrev pub Priced : (ℕ → ℕ) → List Entry → Type 0
Priced fee h = All (λ (e : Entry). e.0 ≡ fee e.1) h

queued-le :
    (fee : ℕ → ℕ) (w j : ℕ) (h : List Entry)
    → All (λ (e : Entry). e.0 ≤ w) h
    → Priced fee h
    → queued j h ≡ true
    → fee j ≤ w
unfolding queued
queued-le fee w j [] a b q = ground arith
queued-le fee w j ((x, i) ∷ h) a b q = elim (Bool-cases (i == j)) [
  | inl same ↦ let e : i ≡ j = (==_iff i j).0 same in omega (arith, a.0, b.0, ap fee e)
  | inr other ↦ queued-le fee w j h a.1 b.1 (rw other at q)
]

module _ {V : Type 0} where
  pub record IsRanked (fee : ℕ → ℕ) (p : PriorityPool V) : Type 0 where
    pub priced : Priced fee p.heap
    pub stored : (k : ℕ) (v : V) (u : ℕ) → Assoc.lookup k p.map ≡ some (v, u) → u ≡ fee k

  -- No key of the map has a higher priority.
  abbrev pub IsGreatest : ℕ → List (ℕ × (V × ℕ)) → Type 0
  IsGreatest u m = (j : ℕ) (w : V) (x : ℕ) → Assoc.lookup j m ≡ some (w, x) → x ≤ u

  pub head-IsGreatest :
      (fee : ℕ → ℕ) (w k : ℕ) (h : List Entry) (m : List (ℕ × (V × ℕ)))
      → Covers ((w, k) ∷ h) m
      → IsSorted ((w, k) ∷ h)
      → Priced fee ((w, k) ∷ h)
      → ((j : ℕ) (v : V) (u : ℕ) → Assoc.lookup j m ≡ some (v, u) → u ≡ fee j)
      → IsGreatest (fee k) m
  head-IsGreatest fee w k h m c s b stored j v x e =
      let top : fee j ≤ w = queued-le fee w j ((w, k) ∷ h) (le_refl w, s.0) b (c j (rw e)) in
      omega (arith, top, b.0, stored j v x e)

  -- What `pop` did, with the popped value of the greatest priority.
  abbrev pub PoppedGreatest : List (ℕ × (V × ℕ)) → Option V × PriorityPool V → Type 0
  PoppedGreatest m r =
      ((r.0 ≡ none) × (length m ≡ 0) × (length r.1.map ≡ 0))
      ⊎ ((k : ℕ) × (v : V) × (u : ℕ) × (r.0 ≡ some v)
          × (Assoc.lookup k m ≡ some (v, u))
          × (r.1.map ≡ Assoc.remove k m)
          × IsGreatest u m)

  pop_from-greatest :
      (fee : ℕ → ℕ) (h : List Entry) (p : PriorityPool V)
      → Covers h p.map
      → IsSorted h
      → Priced fee h
      → ((k : ℕ) (v : V) (u : ℕ) → Assoc.lookup k p.map ≡ some (v, u) → u ≡ fee k)
      → PoppedGreatest p.map (pop_from h p)
  pop_from-greatest fee [] p c s b stored =
      unfold pop_from clean in inl (refl, length-Covers_nil p.map c, length-Covers_nil p.map c)
  pop_from-greatest fee ((w, k) ∷ h) p c s b stored = elim (Option-cases (Assoc.lookup k p.map)) [
    | inl stale ↦
        let (em, eh, ec) = recycle_key-SameBody k (record p { heap = h }) in
        let rest =
          pop_from-greatest fee h (recycle_key k (record p { heap = h }))
            (rw em (Covers-drop w k h p.map c stale)) s.1 b.1 (rw em stored) in
        rw (pop_from_stale w k h p stale) (
          subst (λ m. PoppedGreatest m (pop_from h (recycle_key k (record p { heap = h })))) em
            rest)
    | inr ((v, u), here) ↦
        let (e0, em, eh) = pop_from_here w k h p v u here in
        let top : IsGreatest (fee k) p.map = head-IsGreatest fee w k h p.map c s b stored in
        inr (k, v, u, e0, here, em, rw (stored k v u here) top)
  ]

  -- With the priorities that keys determine, `pop` takes a value of the greatest priority in the map
  -- out of it, and answers `none` only on an empty map.
  pub pop-greatest :
      (fee : ℕ → ℕ) (p : PriorityPool V) → IsValid p → IsRanked fee p → PoppedGreatest p.map (pop p)
  unfolding pop
  pop-greatest fee p v r = pop_from-greatest fee p.heap p v.covered v.sorted r.priced r.stored

  pop_from-IsValid :
      (h : List Entry) (p : PriorityPool V)
      → IsValid (record p { heap = h })
      → IsValid (pop_from h p).1
  pop_from-IsValid [] p v = unfold pop_from clean in v
  pop_from-IsValid ((w, k) ∷ h) p v = elim (Option-cases (Assoc.lookup k p.map)) [
    | inl stale ↦
        let (em, eh, ec) = recycle_key-SameBody k (record p { heap = h }) in
        rw (pop_from_stale w k h p stale) (
          pop_from-IsValid h (recycle_key k (record p { heap = h })) (record {
            distinct = rw em v.distinct;
            covered = rw em (Covers-drop w k h p.map v.covered stale);
            sorted = v.sorted.1;
          }))
    | inr ((x, u), here) ↦
        let (e0, em, eh) = pop_from_here w k h p x u here in
        record {
          distinct = rw em (remove-Distinct k p.map v.distinct);
          covered = rw (em, eh) (Covers-remove w k h p.map v.covered);
          sorted = rw eh v.sorted.1;
        }
  ]

  -- `pop` keeps the invariant. It takes one key with its value out of the map and returns the value;
  -- it answers `none` exactly on an empty map, which stays empty.
  pub pop_lem : (p : PriorityPool V) → IsValid p → IsValid (pop p).1 × Popped p (pop p)
  unfolding pop
  pop_lem p v = (pop_from-IsValid p.heap p v, pop_from_lem p.heap p v.covered)

  peek_from :
      (h : List Entry) (p : PriorityPool V) (w k : ℕ)
      → first (clean_from h p).heap ≡ some (w, k)
      → (v : V) × (u : ℕ) × (Assoc.lookup k p.map ≡ some (v, u)) × ((pop_from h p).0 ≡ some v)
  unfolding clean_from
  peek_from [] p w k e = cc
  peek_from ((x, j) ∷ h) p w k e = elim (Option-cases (Assoc.lookup j p.map)) [
    | inl stale ↦
        let q = recycle_key j (record p { heap = h }) in
        let (em, eh, ec) = recycle_key-SameBody j (record p { heap = h }) in
        let (v, u, here, out) = peek_from h q w k (ground (arith, e, stale)) in
        (
          v,
          u,
          ground (arith, here, em),
          ap (λ (r : Option V × PriorityPool V). r.0) (pop_from_stale x j h p stale) ∙ out,
        )
    | inr ((v, u), here) ↦
        let (e0, em, eh) = pop_from_here x j h p v u here in
        let same : j ≡ k = ground (arith, e, here) in (v, u, rw (← same) here, e0)
  ]

  -- Where `peek` shows an entry, its key is in the map, and `pop` returns the value of that key.
  pub peek-pop :
      (p : PriorityPool V) (w k : ℕ)
      → (peek p).0 ≡ some (w, k)
      → (v : V) × (u : ℕ) × (Assoc.lookup k p.map ≡ some (v, u)) × ((pop p).0 ≡ some v)
  unfolding peek pop clean
  peek-pop p w k e = peek_from p.heap p w k e
