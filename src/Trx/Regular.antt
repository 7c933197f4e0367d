-- ===== src/Trx/Regular.antt =====
-- src/blockchain/trxs/regular.rs: an open transfer between two addresses. An outer `none` is a panic,
-- an inner one is the error of the `Result`; `checks` says whether the build checks overflows of u64.
pub mod Balances
pub mod Codec
use bullet_ledger.Base.{
  ℕ, ◌+◌, ◌*◌, ◌-◌, ltb, ◌==◌, if◌then◌else◌, Bool, true, false, ◌&&◌, Option, none, some, List, [],
  ◌∷◌, ◌++◌, ◌>>=◌, length,
}
use bullet_ledger.Base.Slices.{slice, resize}
use bullet_ledger.Base.Writes.{copy_exact, copy_rest, slice_rest}
use bullet_ledger.Base.Words.{u64_mod, to_le_bytes, from_le_bytes, add_word}
use bullet_ledger.Crypto.{Signer, Hasher}
use bullet_ledger.Trx.Secrets.{zero_32}

abbrev pub trx_length : ℕ
trx_length = 32 + 32 + 8 + 8

abbrev pub total_trx_length : ℕ
total_trx_length = trx_length + 64 * 2

pub record RegularTrx (g : Signer) : Type 0 where
  pub tag : List ℕ
  pub hash : List ℕ
  pub sender_addr : g.VerifyingKey
  pub delta_value : ℕ
  pub fee_value : ℕ
  pub receiver_addr : g.VerifyingKey
  pub sender_sig : List ℕ
  pub receiver_sig : List ℕ

module _ (g : Signer) (h : Hasher) where
  open g use {VerifyingKey, SigningKey, key_bytes, key_from_bytes, sign, verify_strict, default_key}

  unfoldable pub new : List ℕ → RegularTrx g
  new tag = record {
    tag = tag;
    hash = zero_32;
    sender_addr = default_key;
    delta_value = 0;
    fee_value = 0;
    receiver_addr = default_key;
    sender_sig = zero_32 ++ zero_32;
    receiver_sig = zero_32 ++ zero_32;
  }

  unfoldable pub set_fee_and_delta : ℕ → ℕ → RegularTrx g → RegularTrx g
  set_fee_and_delta fee delta t = record t { fee_value = fee; delta_value = delta }

  unfoldable pub set_addr : VerifyingKey → VerifyingKey → RegularTrx g → RegularTrx g
  set_addr sender receiver t = record t { sender_addr = sender; receiver_addr = receiver }

  -- The text that is hashed.
  unfoldable pub context : RegularTrx g → List ℕ
  context t =
      t.tag
      ++ (key_bytes t.sender_addr
          ++ (to_le_bytes 8 t.delta_value
              ++ (to_le_bytes 8 t.fee_value ++ key_bytes t.receiver_addr)))

  unfoldable pub compute_hash : RegularTrx g → RegularTrx g
  unfolding context
  compute_hash t = record t { hash = h.blake3 (context t) }

  unfoldable pub grown : List ℕ → List ℕ
  grown buffer =
      if ltb (length buffer) total_trx_length then resize total_trx_length 0 buffer else buffer

  unfoldable pub put_shared : RegularTrx g → List ℕ → Option (List ℕ)
  put_shared t b = do
    b1 ← copy_exact 0 32 (key_bytes t.sender_addr) b
    b2 ← copy_exact 32 8 (to_le_bytes 8 t.delta_value) b1
    b3 ← copy_exact 40 8 (to_le_bytes 8 t.fee_value) b2
    copy_exact 48 32 (key_bytes t.receiver_addr) b3

  unfoldable pub marshal : RegularTrx g → List ℕ → Option (List ℕ)
  unfolding grown put_shared
  marshal t buffer = put_shared t (grown buffer)

  unfoldable pub sender_sign : SigningKey → RegularTrx g → List ℕ → Option (RegularTrx g × List ℕ)
  unfolding marshal compute_hash
  sender_sign key t buffer = do
    b1 ← marshal t buffer
    let t1 = compute_hash t
    let sig = sign key t1.hash
    b2 ← copy_exact trx_length 64 sig b1
    some (record t1 { sender_sig = sig }, b2)

  unfoldable pub receiver_sign : SigningKey → RegularTrx g → List ℕ → Option (RegularTrx g × List ℕ)
  unfolding marshal compute_hash
  receiver_sign key t buffer = do
    b1 ← marshal t buffer
    let t1 = compute_hash t
    let sig = sign key t1.hash
    b2 ← copy_rest (trx_length + 64) sig b1
    some (record t1 { receiver_sig = sig }, b2)

  unfoldable pub verify_sigs : RegularTrx g → RegularTrx g × Bool
  unfolding compute_hash
  verify_sigs t =
      let t' = compute_hash t in
      (
        t',
        verify_strict t'.sender_addr t'.hash t'.sender_sig
            && verify_strict t'.receiver_addr t'.hash t'.receiver_sig,
      )

  -- What was read before an error stays in the transaction.
  unfoldable pub read_sigs : RegularTrx g → List ℕ → Option (RegularTrx g × Bool)
  unfolding compute_hash
  read_sigs t buffer = do
    sender_sig ← slice trx_length 64 buffer
    receiver_sig ← slice_rest (trx_length + 64) buffer
    some (
        if length receiver_sig == 64
        then (
          compute_hash (record t { sender_sig = sender_sig; receiver_sig = receiver_sig }),
          true,
        )
        else (record t { sender_sig = sender_sig }, false))

  unfoldable pub unmarshal : RegularTrx g → List ℕ → Option (RegularTrx g × Bool)
  unfolding read_sigs
  unmarshal t buffer = do
    sender ← slice 0 32 buffer
    elim (key_from_bytes sender) [
      | none ↦ some (t, false)
      | some sender_addr ↦ do
        delta ← slice 32 8 buffer
        fee ← slice 40 8 buffer
        receiver ← slice 48 32 buffer
        elim (key_from_bytes receiver) [
          | none ↦ some (
            record t {
              sender_addr = sender_addr;
              delta_value = from_le_bytes delta;
              fee_value = from_le_bytes fee;
            },
            false,
          )
          | some receiver_addr ↦
              read_sigs
                (record t {
                  sender_addr = sender_addr;
                  delta_value = from_le_bytes delta;
                  fee_value = from_le_bytes fee;
                  receiver_addr = receiver_addr;
                })
                buffer
        ]
    ]

  paid : Bool → RegularTrx g → ℕ → ℕ → ℕ → Option (Option (ℕ × ℕ))
  paid checks t sender_balance receiver_balance sub = do
    receiver ← add_word checks u64_mod receiver_balance t.delta_value
    some (some (sender_balance - sub, receiver))

  -- The new balances of sender and receiver. The subtraction follows its test, and is exact.
  unfoldable pub new_balances : Bool → RegularTrx g → ℕ → ℕ → Option (Option (ℕ × ℕ))
  unfolding paid
  new_balances checks t sender_balance receiver_balance = do
    sub ← add_word checks u64_mod t.delta_value t.fee_value
    if ltb sender_balance sub then some none else paid checks t sender_balance receiver_balance sub

  unfoldable pub is_valid : Bool → RegularTrx g → ℕ → ℕ → Option (RegularTrx g × Option (ℕ × ℕ))
  unfolding verify_sigs new_balances
  is_valid checks t sender_balance receiver_balance =
      let (t', right) = verify_sigs t in
      if right
      then (do
        balances ← new_balances checks t' sender_balance receiver_balance
        some (t', balances))
      else some (t', none)
