-- ===== src/Trx/Hidden/Transfer.antt =====
-- What an accepted transfer does to the two balances.
use bullet_ledger.Base.{
  ℕ, ◌+◌, ◌-◌, ◌≤◌, ◌≡◌, refl, Bool, true, some, List, arith, ◌∙◌, ap, Bool-cases, inl, inr,
}
use bullet_ledger.Base.Words.{u64_mod, sub_word-le}
use bullet_ledger.Crypto.{Curve, Signer, Hasher, commit, commit-sub, commit_open}
use bullet_ledger.Trx.Secrets.{TrxSecrets}
use bullet_ledger.Trx.Ephemeral.{sender_after, receiver_after, check_points}
use bullet_ledger.Trx.Ephemeral.Transfer.{check_points-some, points_conserved}
use bullet_ledger.Trx.Hidden.{HiddenTrx, verify_sigs, compute_hash, state_transition, is_valid}

module _ (c : Curve) (g : Signer) (h : Hasher) where
  open c use {
    Point, p_add, p_sub, p_mul, base, scalar_from, compress, decompress, s_sub, s_zero,
    prove_single,
  }

  is_valid-some :
      (t t' : HiddenTrx c g) (s0 r0 s' r' : List ℕ)
      → is_valid c g h t s0 r0 ≡ (t', some (s', r'))
      → ((verify_sigs c g h t).1 ≡ true)
        × (check_points c t.fee_value
              (decompress t.delta_commit)
              (decompress s0)
              (decompress r0)
              t.sender_proof
            ≡ some (s', r'))
  is_valid-some t t' s0 r0 s' r' e = elim (Bool-cases (verify_sigs c g h t).1) [
    | inl right ↦ (right, unfold is_valid verify_sigs compute_hash in ground (arith, e, right))
    | inr wrong ↦ unfold is_valid in ground (arith, e, wrong)
  ]

  -- A transfer of the two given balances is accepted only if both signatures verify and the range proof
  -- is right for the sender's new balance. The two balances that are returned are the compressions of
  -- points that, with the fee, make up the points of the two given balances.
  pub is_valid_hidden-conserves :
      (t t' : HiddenTrx c g) (s0 r0 s' r' : List ℕ)
      → is_valid c g h t s0 r0 ≡ (t', some (s', r'))
      → (s_init : Point) × (r_init : Point) × (s_final : Point) × (r_final : Point)
        × (proof : c.Proof) × (decompress s0 ≡ some s_init)
        × (decompress r0 ≡ some r_init)
        × (s' ≡ compress s_final)
        × (r' ≡ compress r_final)
        × (p_add (p_add s_final r_final) (p_mul (scalar_from t.fee_value) base)
            ≡ p_add s_init r_init)
        × (t.sender_proof ≡ some proof)
        × (c.verify_single proof s' ≡ true)
        × ((verify_sigs c g h t).1 ≡ true)
  is_valid_hidden-conserves t t' s0 r0 s' r' e =
      let (signed, checked) = is_valid-some t t' s0 r0 s' r' e in
      let (d, s, r, proof, ed, es, er, ep, e1, e2, ranged) =
        check_points-some c t.fee_value (decompress t.delta_commit) (decompress s0) (decompress r0)
          t.sender_proof checked in
      (
        s,
        r,
        sender_after c s d t.fee_value,
        receiver_after c r d,
        proof,
        es,
        er,
        e1,
        e2,
        points_conserved c s r d t.fee_value,
        ep,
        ranged,
        signed,
      )

  -- When the sender's value covers the delta and the fee, the fee's commitment is open (its scalar is that of its value,
  -- its blinding 0) and the range proof of what is left can be made, the sender moves to secrets that open the point that
  -- `is_valid` gives it, and hold what is left; the transaction has the delta's commitment and that proof.
  pub state_transition_hidden-sender :
      (checks : Bool) (init delta fee : TrxSecrets c) (t : HiddenTrx c g) (proof : c.Proof)
      → delta.val + fee.val ≤ init.val
      → fee.x ≡ scalar_from fee.val
      → fee.r ≡ s_zero
      → prove_single (init.val - delta.val - fee.val) (s_sub (s_sub init.r delta.r) fee.r)
        ≡ some proof
      → (t' : HiddenTrx c g) × (new : TrxSecrets c) × (state_transition c g h checks true init delta
            fee t
          ≡ some (t', some new))
        × (t'.delta_commit ≡ delta.commitment)
        × (t'.sender_proof ≡ some proof)
        × (new.val + delta.val + fee.val ≡ init.val)
        × (commit c new.x new.r
            ≡ sender_after c (commit c init.x init.r) (commit c delta.x delta.r) t'.fee_value)
  unfolding state_transition sender_after
  state_transition_hidden-sender checks init delta fee t proof funds fx fr proved =
      let s1 = sub_word-le checks u64_mod init.val delta.val (omega arith) in
      let s2 = sub_word-le checks u64_mod (init.val - delta.val) fee.val (omega arith) in
      let y = s_sub (s_sub init.x delta.x) fee.x in
      let new_r = s_sub (s_sub init.r delta.r) fee.r in
      (
        record t {
          delta_commit = delta.commitment;
          fee_value = fee.val;
          sender_proof = some proof;
        },
        record fee { x = y; val = init.val - delta.val - fee.val; r = new_r },
        rw (state_transition, s1) (rw s2 (rw proved refl)),
        refl,
        refl,
        omega arith,
        commit-sub c (s_sub init.x delta.x) fee.x (s_sub init.r delta.r) fee.r
            ∙ ap (λ q. p_sub q (commit c fee.x fee.r)) (commit-sub c init.x delta.x init.r delta.r)
            ∙ ap (p_sub (p_sub (commit c init.x init.r) (commit c delta.x delta.r)))
                (rw (fr, fx) (commit_open c (scalar_from fee.val))),
      )
