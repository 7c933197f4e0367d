-- ===== src/Node/Block/Executed.antt =====
-- The pool after a block.
use bullet_ledger.Base.{
  ℕ, zero, suc, ◌+◌, ◌*◌, ◌<◌, ◌≡◌, refl, sym, ap, ◌∙◌, none, some, List, arith, inl, inr,
  Option-cases,
}
use bullet_ledger.Base.Slices.{slice}
use bullet_ledger.Base.Words.{from_be_bytes}
use bullet_ledger.Crypto.{Curve, Signer, Hasher}
use bullet_ledger.Ledger.{LedgerFfi}
use bullet_ledger.Pool.{PriorityPool, get, remove_one}
use bullet_ledger.Pool.Total.{IsValid}
use bullet_ledger.Pool.Reads.{remove_one_lem}
use bullet_ledger.Trx.Pooled.{Trx, trx_derive}
use bullet_ledger.Node.Block.{execute_key, execute_keys}
use mathlib.Core.Path.{subst}

module _ (c : Curve) (g : Signer) (h : Hasher) (f : LedgerFfi) where
  first_or_later :
      (n cursor : ℕ) (body : List ℕ) (p' : PriorityPool (Trx c g)) (k : List ℕ)
      → slice cursor 32 body ≡ some k
      → get (from_be_bytes k) p' ≡ none
      → ((i : ℕ) (k' : List ℕ)
          → i < n
          → slice (cursor + 32 + 32 * i) 32 body ≡ some k'
          → get (from_be_bytes k') p' ≡ none)
      → (i : ℕ) (k' : List ℕ) → i < suc n
      → slice (cursor + 32 * i) 32 body ≡ some k'
      → get (from_be_bytes k') p' ≡ none
  first_or_later n cursor body p' k e0 gone later zero k' small found =
      let start : cursor + 32 * 0 ≡ cursor = omega arith in
      let twice : some k ≡ some k' = sym e0 ∙ ap (λ a. slice a 32 body) (sym start) ∙ found in
      let same : k ≡ k' = ground (arith, twice) in
      subst (λ x. get (from_be_bytes x) p' ≡ none) same gone
  first_or_later n cursor body p' k e0 gone later (suc i) k' small found =
      let shift : cursor + 32 + 32 * i ≡ cursor + 32 * suc i = omega arith in
      later i k' (omega arith) (ap (λ a. slice a 32 body) shift ∙ found)

  -- Where the loop over the `n` keys of a block returns, on a pool that is valid, the pool is valid
  -- again, none of these keys is in it any more, and no key is in it that was not there before.
  pub execute_keys-IsValid :
      (n cursor : ℕ) (body : List ℕ) (p p' : PriorityPool (Trx c g)) (l l' : f.Handle)
      (fees fees' : c.Point)
      → IsValid p
      → execute_keys c g h f n cursor body p l fees ≡ some (p', l', fees')
      → IsValid p'
        × ((j : ℕ) → get j p ≡ none → get j p' ≡ none)
        × ((i : ℕ) (k : List ℕ)
            → i < n
            → slice (cursor + 32 * i) 32 body ≡ some k
            → get (from_be_bytes k) p' ≡ none)
  unfolding execute_keys
  execute_keys-IsValid zero cursor body p p' l l' fees fees' v e =
      let same : p ≡ p' = ground (arith, e) in
      (
        subst IsValid same v,
        (λ j absent. rw (← same) absent),
        (λ i k small e'. absurd (omega arith)),
      )
  execute_keys-IsValid (suc n) cursor body p p' l l' fees fees' v e =
      elim (Option-cases (slice cursor 32 body)) [
        | inl short ↦ ground (arith, e, short)
        | inr (k, e0) ↦ elim (Option-cases (execute_key c g h f (from_be_bytes k) p l fees)) [
          | inl panics ↦
              let stops : execute_keys c g h f (suc n) cursor body p l fees ≡ none =
                rw e0 (rw panics refl) in
              ground (arith, e, stops)
          | inr ((l1, fees1), e1) ↦
              let q = remove_one (trx_derive c g h) (from_be_bytes k) p in
              let next : execute_keys c g h f (suc n) cursor body p l fees
                  ≡ execute_keys c g h f n (cursor + 32) body q l1 fees1 =
                rw e0 (rw e1 refl) in
              let (vq, reads) = remove_one_lem (trx_derive c g h) (from_be_bytes k) p v in
              let (v', less, gone) =
                execute_keys-IsValid n (cursor + 32) body q p' l1 l' fees1 fees' vq
                  (sym next ∙ e) in
              let key_gone : get (from_be_bytes k) q ≡ none =
                reads (from_be_bytes k) ∙ ground arith in
              (
                v',
                (λ j absent. less j (reads j ∙ ground (arith, absent))),
                first_or_later n cursor body p' k e0 (less (from_be_bytes k) key_gone) gone,
              )
        ]
      ]
