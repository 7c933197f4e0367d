-- ===== src/Pool/Eviction.antt =====
-- Which key `insert` evicts from a full pool.
use bullet_ledger.Base.{
  ℕ, zero, suc, ◌≤◌, ◌<◌, ◌≡◌, refl, true, none, some, List, [], ◌∷◌, length, arith, inl, inr,
  Option-cases, ◌∙◌, ap, lt→ltb, le→not-ltb,
}
use mathlib.Core.Path.{subst}
use bullet_ledger.Base.Assoc
use bullet_ledger.Base.Assoc.{
  lookup-insert, lookup-remove, length-remove, length-insert_fresh, remove-Distinct, remove_absent,
}
use bullet_ledger.Pool.{DeriveStuff, Entry, PriorityPool, evict, evict_once, enqueued, insert, get}
use bullet_ledger.Pool.Heap.{heap_push-All}
use bullet_ledger.Pool.Total.{
  IsValid, length-Covers_nil, enqueued_body, enqueued-IsValid, evict_once_body, evict_once-IsValid,
}
use bullet_ledger.Pool.Rank.{Priced, IsRanked, IsGreatest, head-IsGreatest}

module _ {V : Type 0} (d : DeriveStuff V) where
  evict_fits :
      (rounds : ℕ) (p q : PriorityPool V)
      → length p.map ≤ p.capacity
      → evict d rounds p ≡ some q
      → q.map ≡ p.map
  unfolding evict
  evict_fits zero p q l e = cc
  evict_fits (suc rounds) p q l e = ground (arith, le→not-ltb p.capacity (length p.map))

  evict_over :
      (rounds : ℕ) (p q : PriorityPool V)
      → p.capacity < length p.map
      → evict d (suc rounds) p ≡ some q
      → evict d rounds (evict_once d p) ≡ some q
  unfolding evict
  evict_over rounds p q l e = rw (lt→ltb _ _ l, evict) at e

  stale_IsRanked :
      (fee : ℕ → ℕ) (w k : ℕ) (h : List Entry) (p : PriorityPool V)
      → p.heap ≡ (w, k) ∷ h
      → Assoc.lookup k p.map ≡ none
      → IsRanked fee p
      → IsRanked fee (evict_once d p)
  stale_IsRanked fee w k h p eh stale r =
      let (em, et, ec) = evict_once_body d p w k h eh in
      let same : (evict_once d p).map ≡ p.map = em ∙ remove_absent k p.map stale in
      let b : Priced fee ((w, k) ∷ h) = rw eh at r.priced in
      record { priced = rw et b.1; stored = rw same r.stored }

  evict-IsGreatest :
      (fee : ℕ → ℕ) (rounds : ℕ) (h : List Entry) (p q : PriorityPool V)
      → p.heap ≡ h
      → IsValid p
      → IsRanked fee p
      → length p.map ≡ suc p.capacity
      → evict d rounds p ≡ some q
      → (k : ℕ) × (Assoc.contains k p.map ≡ true)
        × (q.map ≡ Assoc.remove k p.map)
        × IsGreatest (fee k) p.map
  evict-IsGreatest fee zero h p q eh v r full e = unfold evict in cc
  evict-IsGreatest fee (suc rounds) [] p q eh v r full e =
      absurd (omega (arith, full, length-Covers_nil p.map (rw eh at v.covered)))
  evict-IsGreatest fee (suc rounds) ((w, k) ∷ h) p q eh v r full e =
      let (em, et, ec) = evict_once_body d p w k h eh in
      let again = evict_over rounds p q (omega arith) e in
      elim (Option-cases (Assoc.lookup k p.map)) [
        | inl stale ↦
            let same : (evict_once d p).map ≡ p.map = em ∙ remove_absent k p.map stale in
            let found =
              evict-IsGreatest fee rounds h (evict_once d p) q et
                (evict_once-IsValid d p w k h eh v) (stale_IsRanked fee w k h p eh stale r)
                (omega (arith, ap (λ m. length m) same, ec)) again in
            subst
              (λ m.
                (k : ℕ) × (Assoc.contains k m ≡ true)
                × (q.map ≡ Assoc.remove k m)
                × IsGreatest (fee k) m)
              same found
        | inr ((x, u), here) ↦ (
          k,
          rw here,
          evict_fits rounds (evict_once d p) q
                (omega
                  (arith, ap (λ m. length m) em, ec, length-remove k p.map (x, u) v.distinct here))
                again
              ∙ em,
          head-IsGreatest fee w k h p.map (rw eh at v.covered) (rw eh at v.sorted)
              (rw eh at r.priced) r.stored,
        )
      ]

  enqueued-IsRanked :
      (fee : ℕ → ℕ) (v : V) (p : PriorityPool V)
      → d.get_comperator v ≡ fee (d.fill_key v)
      → IsRanked fee p
      → IsRanked fee (enqueued d v p)
  enqueued-IsRanked fee v p det r =
      let (em, eh, ec) = enqueued_body d v p in
      let a : V × ℕ = (v, d.get_comperator v) in
      record {
        priced = rw eh (heap_push-All (λ e. e.0 ≡ fee e.1) _ p.heap det r.priced);
        stored = rw em (λ j w x e.
            ground (arith, det, lookup-insert (d.fill_key v) j a p.map, r.stored j w x));
      }

  -- On a valid pool whose map is as long as its capacity, where a key determines its priority: when `insert` of a value
  -- under a key that is not in the map returns, what stays is the old map with the new value, less one key, and that key
  -- (it may be the new one) has the greatest priority of them all.
  pub insert_evicts-IsGreatest :
      (fee : ℕ → ℕ) (v : V) (p q : PriorityPool V)
      → IsValid p
      → IsRanked fee p
      → d.get_comperator v ≡ fee (d.fill_key v)
      → get (d.fill_key v) p ≡ none
      → length p.map ≡ p.capacity
      → insert d v p ≡ some q
      → (k : ℕ) × (Assoc.contains k (Assoc.insert (d.fill_key v) (v, d.get_comperator v) p.map)
          ≡ true)
        × (q.map ≡ Assoc.remove k (Assoc.insert (d.fill_key v) (v, d.get_comperator v) p.map))
        × IsGreatest (fee k) (Assoc.insert (d.fill_key v) (v, d.get_comperator v) p.map)
  unfolding insert get
  insert_evicts-IsGreatest fee v p q i r det fresh full e =
      let (em, eh, ec) = enqueued_body d v p in
      let a : V × ℕ = (v, d.get_comperator v) in
      let again : evict d (suc (suc (length p.heap))) (enqueued d v p) ≡ some q =
        rw (fresh, insert) at e in
      let found =
        evict-IsGreatest fee (suc (suc (length p.heap))) _ (enqueued d v p) q refl
          (enqueued-IsValid d v p i) (enqueued-IsRanked fee v p det r)
          (omega
            (arith, ap (λ m. length m) em, ec, length-insert_fresh (d.fill_key v) a p.map fresh))
          again in
      subst
        (λ m.
          (k : ℕ) × (Assoc.contains k m ≡ true) × (q.map ≡ Assoc.remove k m) × IsGreatest (fee k) m)
        em found
