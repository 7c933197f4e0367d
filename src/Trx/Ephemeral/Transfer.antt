-- ===== src/Trx/Ephemeral/Transfer.antt =====
-- What an accepted transfer does to the two balances.
use bullet_ledger.Base.{
  ℕ, ◌+◌, ◌-◌, ◌^◌, ◌<◌, ◌≤◌, ◌≡◌, refl, sym, Bool, true, false, Option, some, List, inl, inr,
  arith, ◌∙◌, ap, Option-cases,
}
use bullet_ledger.Base.Words.{u64_mod, add_word-lt, sub_word-le}
use bullet_ledger.Crypto.{Curve, Hasher, commit, commit-add, commit-sub, commit_open}
use bullet_ledger.Trx.Secrets.{TrxSecrets}
use bullet_ledger.Trx.Ephemeral.{
  EphemeralTrx, verify_schnorrs, compute_hash, state_transition, sender_after, receiver_after,
  check_points, is_valid,
}

module _ (c : Curve) where
  open c use {Point, p_add, p_sub, p_mul, base, scalar_from, compress, decompress, s_sub, s_add}

  -- The new points and the fee make up the old points.
  pub points_conserved :
      (s_init r_init delta : Point) (fee : ℕ)
      → p_add
          (p_add (sender_after c s_init delta fee) (receiver_after c r_init delta))
          (p_mul (scalar_from fee) base)
        ≡ p_add s_init r_init
  unfolding sender_after receiver_after
  points_conserved s r d fee =
      let F = p_mul (scalar_from fee) base in
      let A = p_sub (p_sub s d) F in
      c.add_assoc A (p_add r d) F
      ∙ ap (p_add A) (c.add_comm (p_add r d) F)
      ∙ sym (c.add_assoc A F (p_add r d))
      ∙ ap (λ x. p_add x (p_add r d)) (c.sub-add (p_sub s d) F)
      ∙ ap (p_add (p_sub s d)) (c.add_comm r d)
      ∙ sym (c.add_assoc (p_sub s d) d r)
      ∙ ap (λ x. p_add x r) (c.sub-add s d)

  -- What `check_points` accepts.
  pub check_points-some :
      (fee : ℕ) (d s r : Option Point) (p : Option c.Proof) {s' r' : List ℕ}
      → check_points c fee d s r p ≡ some (s', r')
      → (delta : Point) × (s_init : Point) × (r_init : Point) × (proof : c.Proof) × (d ≡ some delta)
        × (s ≡ some s_init)
        × (r ≡ some r_init)
        × (p ≡ some proof)
        × (s' ≡ compress (sender_after c s_init delta fee))
        × (r' ≡ compress (receiver_after c r_init delta))
        × (c.verify_single proof s' ≡ true)
  unfolding check_points
  check_points-some fee (some d) (some s) (some r) (some p) e =
      (d, s, r, p, refl, refl, refl, refl, ground arith, ground arith, ground arith)
  check_points-some fee _ _ _ _ e = ground arith

module _ (c : Curve) (h : Hasher) where
  open c use {Point, p_add, p_sub, p_mul, base, scalar_from, compress, decompress, s_sub, s_add}

  pub verify_schnorrs_same :
      (t t1 : EphemeralTrx c) (b : Bool)
      → verify_schnorrs c h t ≡ some (t1, b)
      → t1 ≡ compute_hash c h t
  unfolding verify_schnorrs
  verify_schnorrs_same t t1 b e = ground arith

  pub is_valid-some :
      (t t' : EphemeralTrx c) (s' r' : List ℕ)
      → is_valid c h t ≡ some (t', some (s', r'))
      → (verify_schnorrs c h t ≡ some (compute_hash c h t, true))
        × (check_points c t.fee_value
              (decompress t.delta_commit)
              (decompress t.sender_init)
              (decompress t.receiver_init)
              t.sender_proof
            ≡ some (s', r'))
  is_valid-some t t' s' r' e = elim (Option-cases (verify_schnorrs c h t)) [
    | inl panics ↦ unfold is_valid in ground (arith, e, panics)
    | inr ((t1, true), seen) ↦
        let same = verify_schnorrs_same t t1 true seen in
        (rw (← same) seen, unfold is_valid compute_hash in ground (arith, e, seen, same))
    | inr ((t1, false), seen) ↦ unfold is_valid in ground (arith, e, seen)
  ]

  -- A transfer is accepted only if both signatures verify and the range proof is right for the
  -- sender's new balance. The two balances that are returned are the compressions of points that,
  -- with the fee, make up the points of the two balances before.
  pub is_valid-conserves :
      (t t' : EphemeralTrx c) (s' r' : List ℕ)
      → is_valid c h t ≡ some (t', some (s', r'))
      → (s_init : Point) × (r_init : Point) × (s_final : Point) × (r_final : Point)
        × (proof : c.Proof) × (decompress t.sender_init ≡ some s_init)
        × (decompress t.receiver_init ≡ some r_init)
        × (s' ≡ compress s_final)
        × (r' ≡ compress r_final)
        × (p_add (p_add s_final r_final) (p_mul (scalar_from t.fee_value) base)
            ≡ p_add s_init r_init)
        × (t.sender_proof ≡ some proof)
        × (c.verify_single proof s' ≡ true)
        × (verify_schnorrs c h t ≡ some (compute_hash c h t, true))
  is_valid-conserves t t' s' r' e =
      let (signed, checked) = is_valid-some t t' s' r' e in
      let (d, s, r, proof, ed, es, er, ep, e1, e2, ranged) =
        check_points-some c t.fee_value (decompress t.delta_commit) (decompress t.sender_init)
          (decompress t.receiver_init) t.sender_proof checked in
      (
        s,
        r,
        sender_after c s d t.fee_value,
        receiver_after c r d,
        proof,
        es,
        er,
        e1,
        e2,
        points_conserved c s r d t.fee_value,
        ep,
        ranged,
        signed,
      )

module _ (c : Curve) (h : Hasher) (checks : Bool) where
  open c use {Point, p_add, p_sub, p_mul, base, scalar_from, s_zero, s_sub, s_add, prove_single}

  -- A sender that can pay the delta and a fee with an open commitment moves to secrets that open just
  -- the point that `is_valid` gives the sender, and hold what is left; nothing over- or underflows,
  -- and the transaction holds the two commitments and the range proof.
  pub state_transition-sender :
      (init delta fee : TrxSecrets c) (t : EphemeralTrx c) (proof : c.Proof)
      → delta.val + fee.val ≤ init.val
      → fee.x ≡ scalar_from fee.val
      → fee.r ≡ s_zero
      → prove_single (init.val - delta.val - fee.val) (s_sub (s_sub init.r delta.r) fee.r)
        ≡ some proof
      → (t' : EphemeralTrx c) × (new : TrxSecrets c) × (state_transition c h checks true init delta
            fee t
          ≡ some (t', some new))
        × (t'.sender_init ≡ init.commitment)
        × (t'.delta_commit ≡ delta.commitment)
        × (t'.sender_proof ≡ some proof)
        × (new.val + delta.val + fee.val ≡ init.val)
        × (commit c new.x new.r
            ≡ sender_after c (commit c init.x init.r) (commit c delta.x delta.r) t'.fee_value)
  unfolding state_transition sender_after
  state_transition-sender init delta fee t proof funds fx fr proved =
      let s1 = sub_word-le checks u64_mod init.val delta.val (omega arith) in
      let s2 = sub_word-le checks u64_mod (init.val - delta.val) fee.val (omega arith) in
      let y = s_sub (s_sub init.x delta.x) fee.x in
      let new_r = s_sub (s_sub init.r delta.r) fee.r in
      (
        record t {
          sender_init = init.commitment;
          delta_commit = delta.commitment;
          fee_value = fee.val;
          sender_proof = some proof;
        },
        record fee { x = y; val = init.val - delta.val - fee.val; r = new_r },
        rw (state_transition, s1) (rw s2 (rw proved refl)),
        refl,
        refl,
        refl,
        omega arith,
        commit-sub c (s_sub init.x delta.x) fee.x (s_sub init.r delta.r) fee.r
            ∙ ap (λ q. p_sub q (commit c fee.x fee.r)) (commit-sub c init.x delta.x init.r delta.r)
            ∙ ap (p_sub (p_sub (commit c init.x init.r) (commit c delta.x delta.r)))
                (rw (fr, fx) (commit_open c (scalar_from fee.val))),
      )

  -- The receiver moves to secrets that open the point that `is_valid` gives it, where the sum of the
  -- balance and the delta is a u64.
  pub state_transition-receiver :
      (init delta fee : TrxSecrets c) (t : EphemeralTrx c)
      → init.val + delta.val < 2 ^ 64
      → (t' : EphemeralTrx c) × (new : TrxSecrets c) × (state_transition c h checks false init delta
            fee t
          ≡ some (t', some new))
        × (t'.receiver_init ≡ init.commitment)
        × (t'.delta_commit ≡ delta.commitment)
        × (new.val ≡ init.val + delta.val)
        × (commit c new.x new.r
            ≡ receiver_after c (commit c init.x init.r) (commit c delta.x delta.r))
  unfolding state_transition receiver_after
  state_transition-receiver init delta fee t fits =
      let s1 = add_word-lt checks u64_mod init.val delta.val fits in
      (
        record t {
          receiver_init = init.commitment;
          delta_commit = delta.commitment;
          fee_value = fee.val;
        },
        record fee {
          x = s_add init.x delta.x;
          val = init.val + delta.val;
          r = s_add init.r delta.r;
        },
        rw (state_transition, s1) refl,
        refl,
        refl,
        refl,
        commit-add c init.x delta.x init.r delta.r,
      )
