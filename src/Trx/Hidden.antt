-- ===== src/Trx/Hidden.antt =====
-- src/blockchain/trxs/hidden.rs: a transfer between the hidden balances of two addresses. An outer
-- `none` is a panic, an inner one is the error of the `Result`; `checks` says whether the build checks
-- overflows of u64.
pub mod Transfer
pub mod Codec
use bullet_ledger.Base.{
  ℕ, ◌+◌, ◌*◌, ltb, ◌==◌, if◌then◌else◌, Bool, true, false, ◌&&◌, Option, none, some, List, [], ◌∷◌,
  ◌++◌, ◌>>=◌, length,
}
use bullet_ledger.Base.Slices.{slice, resize}
use bullet_ledger.Base.Writes.{copy_exact, copy_rest, slice_rest}
use bullet_ledger.Base.Words.{u64_mod, to_le_bytes, from_le_bytes, add_word, sub_word}
use bullet_ledger.Crypto.{Curve, Signer, Hasher}
use bullet_ledger.Trx.Secrets.{TrxSecrets, proof_length, trx_length, zero_32}
use bullet_ledger.Trx.Ephemeral.{check_points}

abbrev pub total_trx_proof : ℕ
total_trx_proof = trx_length + 64 * 2

pub record HiddenTrx (c : Curve) (g : Signer) : Type 0 where
  pub tag : List ℕ
  pub hash : List ℕ
  pub sender_proof : Option c.Proof
  pub sender_addr : g.VerifyingKey
  pub delta_commit : List ℕ
  pub fee_value : ℕ
  pub receiver_addr : g.VerifyingKey
  pub sender_sig : List ℕ
  pub receiver_sig : List ℕ

module _ (c : Curve) (g : Signer) (h : Hasher) where
  open c use {s_add, s_sub, proof_to_bytes, proof_from_bytes, prove_single, decompress}
  open g use {VerifyingKey, SigningKey, key_bytes, key_from_bytes, sign, verify_strict, default_key}

  unfoldable pub new : List ℕ → HiddenTrx c g
  new tag = record {
    tag = tag;
    hash = zero_32;
    sender_proof = none;
    sender_addr = default_key;
    delta_commit = zero_32;
    fee_value = 0;
    receiver_addr = default_key;
    sender_sig = zero_32 ++ zero_32;
    receiver_sig = zero_32 ++ zero_32;
  }

  unfoldable pub set_delta_commit : List ℕ → HiddenTrx c g → HiddenTrx c g
  set_delta_commit delta t = record t { delta_commit = delta }

  unfoldable pub set_fee : TrxSecrets c → HiddenTrx c g → HiddenTrx c g
  set_fee fee t = record t { fee_value = fee.val }

  unfoldable pub set_addr : VerifyingKey → VerifyingKey → HiddenTrx c g → HiddenTrx c g
  set_addr sender receiver t = record t { sender_addr = sender; receiver_addr = receiver }

  -- The text that is hashed.
  unfoldable pub context : HiddenTrx c g → List ℕ
  context t =
      t.tag
      ++ (key_bytes t.sender_addr
          ++ (t.delta_commit ++ (to_le_bytes 8 t.fee_value ++ key_bytes t.receiver_addr)))

  unfoldable pub compute_hash : HiddenTrx c g → HiddenTrx c g
  unfolding context
  compute_hash t = record t { hash = h.blake3 (context t) }

  unfoldable pub grown : List ℕ → List ℕ
  grown buffer =
      if ltb (length buffer) total_trx_proof then resize total_trx_proof 0 buffer else buffer

  unfoldable pub put_proof : Option c.Proof → List ℕ → Option (List ℕ)
  put_proof none b = some b
  put_proof (some proof) b = copy_exact 0 proof_length (proof_to_bytes proof) b

  unfoldable pub put_shared : HiddenTrx c g → List ℕ → Option (List ℕ)
  put_shared t b = do
    b1 ← copy_exact proof_length 32 (key_bytes t.sender_addr) b
    b2 ← copy_exact (proof_length + 32) 32 t.delta_commit b1
    b3 ← copy_exact (proof_length + 64) 8 (to_le_bytes 8 t.fee_value) b2
    copy_exact (proof_length + 72) 32 (key_bytes t.receiver_addr) b3

  -- The range proof is taken out of the transaction.
  unfoldable pub marshal : HiddenTrx c g → List ℕ → Option (HiddenTrx c g × List ℕ)
  unfolding grown put_proof put_shared
  marshal t buffer = do
    b1 ← put_proof t.sender_proof (grown buffer)
    b2 ← put_shared t b1
    some (record t { sender_proof = none }, b2)

  unfoldable pub sender_sign : SigningKey → HiddenTrx c g → List ℕ → Option (HiddenTrx c g × List ℕ)
  unfolding marshal compute_hash
  sender_sign key t buffer = do
    (t1, b1) ← marshal t buffer
    let t2 = compute_hash t1
    let sig = sign key t2.hash
    b2 ← copy_exact trx_length 64 sig b1
    some (record t2 { sender_sig = sig }, b2)

  unfoldable pub receiver_sign :
      SigningKey → HiddenTrx c g → List ℕ → Option (HiddenTrx c g × List ℕ)
  unfolding marshal compute_hash
  receiver_sign key t buffer = do
    (t1, b1) ← marshal t buffer
    let t2 = compute_hash t1
    let sig = sign key t2.hash
    b2 ← copy_rest (trx_length + 64) sig b1
    some (record t2 { receiver_sig = sig }, b2)

  unfoldable pub verify_sigs : HiddenTrx c g → HiddenTrx c g × Bool
  unfolding compute_hash
  verify_sigs t =
      let t' = compute_hash t in
      (
        t',
        verify_strict t'.sender_addr t'.hash t'.sender_sig
            && verify_strict t'.receiver_addr t'.hash t'.receiver_sig,
      )

  -- What was read before an error stays in the transaction.
  unfoldable pub read_sigs : HiddenTrx c g → List ℕ → Option (HiddenTrx c g × Bool)
  unfolding compute_hash
  read_sigs t buffer = do
    sender_sig ← slice trx_length 64 buffer
    receiver_sig ← slice_rest (trx_length + 64) buffer
    some (
        if length receiver_sig == 64
        then (
          compute_hash (record t { sender_sig = sender_sig; receiver_sig = receiver_sig }),
          true,
        )
        else (record t { sender_sig = sender_sig }, false))

  unfoldable pub read_shared : HiddenTrx c g → List ℕ → Option (HiddenTrx c g × Bool)
  unfolding read_sigs
  read_shared t buffer = do
    sender ← slice proof_length 32 buffer
    elim (key_from_bytes sender) [
      | none ↦ some (t, false)
      | some sender_addr ↦ do
        delta ← slice (proof_length + 32) 32 buffer
        fee ← slice (proof_length + 64) 8 buffer
        receiver ← slice (proof_length + 72) 32 buffer
        elim (key_from_bytes receiver) [
          | none ↦ some (
            record t {
              sender_addr = sender_addr;
              delta_commit = delta;
              fee_value = from_le_bytes fee;
            },
            false,
          )
          | some receiver_addr ↦
              read_sigs
                (record t {
                  sender_addr = sender_addr;
                  delta_commit = delta;
                  fee_value = from_le_bytes fee;
                  receiver_addr = receiver_addr;
                })
                buffer
        ]
    ]

  unfoldable pub unmarshal : HiddenTrx c g → List ℕ → Option (HiddenTrx c g × Bool)
  unfolding read_shared
  unmarshal t buffer = do
    bytes ← slice 0 proof_length buffer
    elim (proof_from_bytes bytes) [
      | none ↦ some (t, false)
      | some proof ↦ read_shared (record t { sender_proof = some proof }) buffer
    ]

  -- The new secrets are those of `fee` with the new value, its scalar and the new blinding.
  unfoldable pub state_transition :
      Bool
      → Bool
      → TrxSecrets c
      → TrxSecrets c
      → TrxSecrets c
      → HiddenTrx c g
      → Option (HiddenTrx c g × Option (TrxSecrets c))
  unfolding set_delta_commit set_fee
  state_transition checks true init delta fee t =
      let t' = set_fee fee (set_delta_commit delta.commitment t) in
      let new_r = s_sub (s_sub init.r delta.r) fee.r in
      let y = s_sub (s_sub init.x delta.x) fee.x in
      do
        less ← sub_word checks u64_mod init.val delta.val
        val ← sub_word checks u64_mod less fee.val
        elim (prove_single val new_r) [
          | none ↦ some (t', none)
          | some proof ↦ some (
            record t' { sender_proof = some proof },
            some (record fee { x = y; val = val; r = new_r }),
          )
        ]
  state_transition checks false init delta fee t =
      let t' = set_fee fee (set_delta_commit delta.commitment t) in
      let y = s_add init.x delta.x in
      let new_r = s_add init.r delta.r in
      do
        val ← add_word checks u64_mod init.val delta.val
        some (t', some (record fee { x = y; val = val; r = new_r }))

  -- The two balances are arguments. The proof is taken out where the signatures are right.
  unfoldable pub is_valid :
      HiddenTrx c g → List ℕ → List ℕ → HiddenTrx c g × Option (List ℕ × List ℕ)
  unfolding verify_sigs check_points
  is_valid t sender_init receiver_init =
      let (t', right) = verify_sigs t in
      if right
      then (
        record t' { sender_proof = none },
        check_points c t'.fee_value (decompress t'.delta_commit) (decompress sender_init)
            (decompress receiver_init) t'.sender_proof,
      )
      else (t', none)
