-- ===== src/Trx/Ephemeral.antt =====
-- src/blockchain/trxs/ephemeral.rs: a transfer between two hidden balances, each behind a commitment.
-- An outer `none` is a panic, an inner one is the error of the `Result`. `checks` says whether the
-- build checks overflows of u64.
pub mod Codec
pub mod Transfer
use bullet_ledger.Base.{
  ℕ, ◌+◌, ◌*◌, ◌≡◌, ltb, if◌then◌else◌, Bool, true, false, ◌&&◌, Option, none, some, List, [], ◌∷◌,
  ◌++◌, ◌>>=◌, length,
}
use bullet_ledger.Base.Slices.{slice, resize}
use bullet_ledger.Base.Writes.{copy_exact}
use bullet_ledger.Base.Words.{u64_mod, to_le_bytes, from_le_bytes, add_word, sub_word}
use bullet_ledger.Crypto.{Curve, Hasher}
use bullet_ledger.Schnorr.{
  SchnorrProof, schnorr_default, generate, verify, copy_to_slice, from_bytes,
}
use bullet_ledger.Trx.Secrets.{TrxSecrets, proof_length, trx_length, zero_32}

abbrev pub total_trx_proof : ℕ
total_trx_proof = trx_length + 96 * 2

pub record EphemeralTrx (c : Curve) : Type 0 where
  pub tag : List ℕ
  pub hash : List ℕ
  pub sender_proof : Option c.Proof
  pub sender_init : List ℕ
  pub delta_commit : List ℕ
  pub fee_value : ℕ
  pub receiver_init : List ℕ
  pub sender_schnorr : SchnorrProof c
  pub receiver_schnorr : SchnorrProof c

module _ (c : Curve) (h : Hasher) where
  open c use {
    Scalar, Point, s_add, s_sub, scalar_from, p_add, p_sub, p_mul, base, compress, decompress,
    prove_single, verify_single, proof_to_bytes, proof_from_bytes,
  }

  unfoldable pub new : List ℕ → EphemeralTrx c
  new tag = record {
    tag = tag;
    hash = zero_32;
    sender_proof = none;
    sender_init = zero_32;
    delta_commit = zero_32;
    fee_value = 0;
    receiver_init = zero_32;
    sender_schnorr = schnorr_default c h;
    receiver_schnorr = schnorr_default c h;
  }

  unfoldable pub set_delta_commit : List ℕ → EphemeralTrx c → EphemeralTrx c
  set_delta_commit delta t = record t { delta_commit = delta }

  unfoldable pub set_fee : TrxSecrets c → EphemeralTrx c → EphemeralTrx c
  set_fee fee t = record t { fee_value = fee.val }

  unfoldable pub set_init : Bool → List ℕ → EphemeralTrx c → EphemeralTrx c
  set_init is_sender init t =
      if is_sender then record t { sender_init = init } else record t { receiver_init = init }

  -- The text that is hashed.
  unfoldable pub context : EphemeralTrx c → List ℕ
  context t =
      t.tag ++ (t.sender_init ++ (t.delta_commit ++ (to_le_bytes 8 t.fee_value ++ t.receiver_init)))

  unfoldable pub compute_hash : EphemeralTrx c → EphemeralTrx c
  unfolding context
  compute_hash t = record t { hash = h.blake3 (context t) }

  unfoldable pub grown : List ℕ → List ℕ
  grown buffer =
      if ltb (length buffer) total_trx_proof then resize total_trx_proof 0 buffer else buffer

  unfoldable pub put_proof : Option c.Proof → List ℕ → Option (List ℕ)
  put_proof none b = some b
  put_proof (some proof) b = copy_exact 0 proof_length (proof_to_bytes proof) b

  unfoldable pub put_shared : EphemeralTrx c → List ℕ → Option (List ℕ)
  put_shared t b = do
    b1 ← copy_exact proof_length 32 t.sender_init b
    b2 ← copy_exact (proof_length + 32) 32 t.delta_commit b1
    b3 ← copy_exact (proof_length + 64) 8 (to_le_bytes 8 t.fee_value) b2
    copy_exact (proof_length + 72) 32 t.receiver_init b3

  -- The range proof is taken out of the transaction.
  unfoldable pub marshal : EphemeralTrx c → List ℕ → Option (EphemeralTrx c × List ℕ)
  unfolding grown put_proof put_shared
  marshal t buffer = do
    b1 ← put_proof t.sender_proof (grown buffer)
    b2 ← put_shared t b1
    some (record t { sender_proof = none }, b2)

  -- `r1` and `r2` are what `SchnorrProof::generate` draws.
  unfoldable pub schnorr_sender :
      Scalar → Scalar → TrxSecrets c → EphemeralTrx c → List ℕ → Option (EphemeralTrx c × List ℕ)
  unfolding marshal compute_hash
  schnorr_sender r1 r2 s t buffer = do
    (t1, b1) ← marshal t buffer
    let t2 = compute_hash t1
    let proof = generate c h r1 r2 s.x s.r t2.hash
    b2 ← copy_to_slice c h proof trx_length b1
    some (record t2 { sender_schnorr = proof }, b2)

  unfoldable pub schnorr_receiver :
      Scalar → Scalar → TrxSecrets c → EphemeralTrx c → List ℕ → Option (EphemeralTrx c × List ℕ)
  unfolding marshal compute_hash
  schnorr_receiver r1 r2 s t buffer = do
    (t1, b1) ← marshal t buffer
    let t2 = compute_hash t1
    let proof = generate c h r1 r2 s.x s.r t2.hash
    b2 ← copy_to_slice c h proof (trx_length + 96) b1
    some (record t2 { receiver_schnorr = proof }, b2)

  -- The second proof is looked at only if the first verifies.
  unfoldable pub verify_schnorrs : EphemeralTrx c → Option (EphemeralTrx c × Bool)
  unfolding compute_hash
  verify_schnorrs t =
      let t' = compute_hash t in
      do
        first ← verify c h t'.sender_schnorr t'.sender_init t'.hash
        both ← if first then verify c h t'.receiver_schnorr t'.receiver_init t'.hash else some false
        some (t', both)

  unfoldable pub unmarshal : EphemeralTrx c → List ℕ → Option (EphemeralTrx c × Bool)
  unfolding compute_hash
  unmarshal t buffer = do
    bytes ← slice 0 proof_length buffer
    elim (proof_from_bytes bytes) [
      | none ↦ some (t, false)
      | some proof ↦ do
        sender_init ← slice proof_length 32 buffer
        delta_commit ← slice (proof_length + 32) 32 buffer
        fee ← slice (proof_length + 64) 8 buffer
        receiver_init ← slice (proof_length + 72) 32 buffer
        sender_schnorr ← from_bytes c h trx_length buffer
        receiver_schnorr ← from_bytes c h (trx_length + 96) buffer
        some (
          compute_hash (record t {
            sender_proof = some proof;
            sender_init = sender_init;
            delta_commit = delta_commit;
            fee_value = from_le_bytes fee;
            receiver_init = receiver_init;
            sender_schnorr = sender_schnorr;
            receiver_schnorr = receiver_schnorr;
          }),
          true,
        )
    ]

module _ (c : Curve) (h : Hasher) (checks : Bool) where
  open c use {
    Scalar, Point, s_add, s_sub, scalar_from, p_add, p_sub, p_mul, base, compress, decompress,
    prove_single, verify_single,
  }

  -- The new secrets are those of `fee` with the new value, its scalar and the new blinding.
  unfoldable pub state_transition :
      Bool
      → TrxSecrets c
      → TrxSecrets c
      → TrxSecrets c
      → EphemeralTrx c
      → Option (EphemeralTrx c × Option (TrxSecrets c))
  unfolding set_init set_delta_commit set_fee
  state_transition true init delta fee t =
      let t' =
        set_fee c h fee
          (set_delta_commit c h delta.commitment (set_init c h true init.commitment t)) in
      let new_r = s_sub (s_sub init.r delta.r) fee.r in
      let y = s_sub (s_sub init.x delta.x) fee.x in
      do
        less ← sub_word checks u64_mod init.val delta.val
        val ← sub_word checks u64_mod less fee.val
        elim (prove_single val new_r) [
          | none ↦ some (t', none)
          | some proof ↦ some (
            record t' { sender_proof = some proof },
            some (record fee { x = y; val = val; r = new_r }),
          )
        ]
  state_transition false init delta fee t =
      let t' =
        set_fee c h fee
          (set_delta_commit c h delta.commitment (set_init c h false init.commitment t)) in
      let y = s_add init.x delta.x in
      let new_r = s_add init.r delta.r in
      do
        val ← add_word checks u64_mod init.val delta.val
        some (t', some (record fee { x = y; val = val; r = new_r }))

-- The points of the new balances of sender and receiver.
module _ (c : Curve) where
  open c use {Point, scalar_from, p_add, p_sub, p_mul, base, compress, decompress, verify_single}

  unfoldable pub sender_after : Point → Point → ℕ → Point
  sender_after s_init delta fee = p_sub (p_sub s_init delta) (p_mul (scalar_from fee) base)

  unfoldable pub receiver_after : Point → Point → Point
  receiver_after r_init delta = p_add r_init delta

  -- The `match` of `is_valid` on the three points and the proof.
  unfoldable pub check_points :
      ℕ → Option Point → Option Point → Option Point → Option c.Proof → Option (List ℕ × List ℕ)
  unfolding sender_after receiver_after
  check_points fee (some delta) (some s_init) (some r_init) (some s_proof) =
      let s_final = compress (sender_after s_init delta fee) in
      let r_final = compress (receiver_after r_init delta) in
      if verify_single s_proof s_final then some (s_final, r_final) else none
  check_points fee _ _ _ _ = none

module _ (c : Curve) (h : Hasher) where
  -- The proof is taken out where the signatures are right.
  unfoldable pub is_valid : EphemeralTrx c → Option (EphemeralTrx c × Option (List ℕ × List ℕ))
  unfolding verify_schnorrs check_points
  is_valid t = do
    (t', right) ← verify_schnorrs c h t
    some (
        if right
        then (
          record t' { sender_proof = none },
          check_points c t'.fee_value (c.decompress t'.delta_commit) (c.decompress t'.sender_init)
              (c.decompress t'.receiver_init) t'.sender_proof,
        )
        else (t', none))
