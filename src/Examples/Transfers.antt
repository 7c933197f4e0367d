-- ===== src/Examples/Transfers.antt =====
-- The transactions at concrete inputs.
use bullet_ledger.Base.{
  ℕ, ◌+◌, ◌-◌, ◌^◌, ◌<◌, ◌≤◌, ◌≡◌, refl, Bool, true, false, none, some, [], ◌∷◌, arith,
}
use bullet_ledger.Crypto.{commit}
use bullet_ledger.Base.Words.{add_word}
use bullet_ledger.Schnorr.{generate, verify, compute_challenge, point_or_default}
use bullet_ledger.Schnorr.Complete.{verify-generate}
use bullet_ledger.Ledger.{db_put}
use bullet_ledger.Trx.Secrets.{TrxSecrets, default_tag, zero_32}
use bullet_ledger.Trx.Ephemeral
use bullet_ledger.Trx.Ephemeral.{
  EphemeralTrx, verify_schnorrs, compute_hash, check_points, sender_after, receiver_after,
  state_transition,
}
use bullet_ledger.Trx.Ephemeral.Codec as EphemeralCodec
use bullet_ledger.Trx.Ephemeral.Codec.RoundTrip.{verify_ephemeral-sign_and_read}
use bullet_ledger.Trx.Ephemeral.Transfer.{
  is_valid-conserves, state_transition-sender, state_transition-receiver,
}
use bullet_ledger.Trx.Regular
use bullet_ledger.Trx.Regular.{RegularTrx}
use bullet_ledger.Trx.Regular.Codec as RegularCodec
use bullet_ledger.Trx.Regular.Codec.RoundTrip.{verify_regular-sign_and_read}
use bullet_ledger.Trx.Regular.Balances.{is_valid-exact, is_valid_checked, is_valid_wraps}
use bullet_ledger.Trx.Hidden
use bullet_ledger.Trx.Hidden.{HiddenTrx}
use bullet_ledger.Trx.Hidden.Codec as HiddenCodec
use bullet_ledger.Trx.Hidden.Codec.RoundTrip.{verify_hidden-sign_and_read}
use bullet_ledger.Trx.Hidden.Transfer.{is_valid_hidden-conserves, state_transition_hidden-sender}
use bullet_ledger.Trx.Pooled.{ephemeral, execute, execute-is_valid}
use bullet_ledger.Examples.Instances.{bits, stamps, zeros, bit_bytes, xor, log}

-- Balances of 10 and 5, a delta of 3, a fee of 2.
abbrev secrets : ℕ → Bool → Bool → TrxSecrets bits
secrets val x r = record { commitment = bit_bytes (xor x r); val = val; x = x; r = r }

verify-generate_example :
    verify bits zeros (generate bits zeros true false true true (7 ∷ [])) (bit_bytes false) (7 ∷ [])
    ≡ some true
unfolding commit
verify-generate_example = verify-generate bits zeros true false true true (7 ∷ [])

-- Both signatures are the default ones, which verify under this hasher.
abbrev sent : EphemeralTrx bits
sent = record {
  tag = default_tag;
  hash = zero_32;
  sender_proof = some tt;
  sender_init = bit_bytes true;
  delta_commit = bit_bytes true;
  fee_value = 2;
  receiver_init = bit_bytes false;
  sender_schnorr = record { random = zero_32; s1 = false; s2 = false };
  receiver_schnorr = record { random = zero_32; s1 = false; s2 = false };
}

abbrev accepted : EphemeralTrx bits
accepted = record sent { sender_proof = none }

sent-accepted :
    Ephemeral.is_valid bits zeros sent ≡ some (accepted, some (bit_bytes false, bit_bytes true))
unfolding Ephemeral.is_valid verify_schnorrs compute_hash check_points verify sender_after
    receiver_after compute_challenge commit point_or_default
sent-accepted = refl

is_valid_example :
    (s_init : Bool) × (r_init : Bool) × (s_final : Bool) × (r_final : Bool) × (proof : Unit {0})
    × (bits.decompress sent.sender_init ≡ some s_init)
    × (bits.decompress sent.receiver_init ≡ some r_init)
    × (bit_bytes false ≡ bit_bytes s_final)
    × (bit_bytes true ≡ bit_bytes r_final)
    × (xor (xor s_final r_final) (bits.p_mul (bits.scalar_from 2) bits.base) ≡ xor s_init r_init)
    × (sent.sender_proof ≡ some proof)
    × (bits.verify_single proof (bit_bytes false) ≡ true)
    × (verify_schnorrs bits zeros sent ≡ some (compute_hash bits zeros sent, true))
is_valid_example =
    is_valid-conserves bits zeros sent accepted (bit_bytes false) (bit_bytes true) sent-accepted

execute_example :
    execute bits stamps log (ephemeral accepted) [] false
    ≡ some (
      (db_put log sent.receiver_init
          (bit_bytes true)
          (db_put log sent.sender_init (bit_bytes false) []).1).1,
      bits.p_add false (bits.p_mul (bits.scalar_from 2) bits.base),
    )
execute_example =
    execute-is_valid bits stamps zeros log sent accepted (bit_bytes false) (bit_bytes true) [] false
      sent-accepted

-- The secrets of a visible fee of 2, a delta of 3 and a balance of 10.
abbrev fee_2 : TrxSecrets bits
fee_2 = record { commitment = bit_bytes false; val = 2; x = false; r = false }

state_transition-sender_example :
    (t' : EphemeralTrx bits) × (new : TrxSecrets bits) × (state_transition bits zeros true true
        (secrets 10 false true)
        (secrets 3 true true)
        fee_2
        sent
      ≡ some (t', some new))
    × (t'.sender_init ≡ (secrets 10 false true).commitment)
    × (t'.delta_commit ≡ (secrets 3 true true).commitment)
    × (t'.sender_proof ≡ some tt)
    × (new.val + 3 + 2 ≡ 10)
    × (commit bits new.x new.r
        ≡ sender_after bits (commit bits false true) (commit bits true true) t'.fee_value)
state_transition-sender_example =
    state_transition-sender bits zeros true (secrets 10 false true) (secrets 3 true true) fee_2 sent
      tt (omega arith) refl refl refl

state_transition-receiver_example :
    (t' : EphemeralTrx bits) × (new : TrxSecrets bits) × (state_transition bits zeros true false
        (secrets 10 false true)
        (secrets 3 true true)
        fee_2
        sent
      ≡ some (t', some new))
    × (t'.receiver_init ≡ (secrets 10 false true).commitment)
    × (t'.delta_commit ≡ (secrets 3 true true).commitment)
    × (new.val ≡ 10 + 3)
    × (commit bits new.x new.r
        ≡ receiver_after bits (commit bits false true) (commit bits true true))
state_transition-receiver_example =
    state_transition-receiver bits zeros true (secrets 10 false true) (secrets 3 true true) fee_2
      sent (omega arith)

abbrev regular_trx : ℕ → ℕ → RegularTrx stamps
regular_trx delta fee = record {
  tag = default_tag;
  hash = zero_32;
  sender_addr = tt;
  delta_value = delta;
  fee_value = fee;
  receiver_addr = tt;
  sender_sig = [];
  receiver_sig = [];
}

is_valid-exact_example :
    Regular.is_valid stamps zeros true (regular_trx 3 2) 10 4
    ≡ some (Regular.compute_hash stamps zeros (regular_trx 3 2), some (10 - (3 + 2), 4 + 3))
is_valid-exact_example =
    is_valid-exact stamps zeros true (regular_trx 3 2) 10 4 (unfold Regular.verify_sigs in refl)
      (omega arith) (omega arith)

regular_accepted :
    Regular.is_valid stamps zeros true (regular_trx 3 2) 10 4 ≡ some (regular_trx 3 2, some (5, 7))
unfolding Regular.is_valid Regular.verify_sigs Regular.compute_hash Regular.new_balances add_word
regular_accepted = refl

is_valid_checked_example : (5 + 7 + 2 ≡ 10 + 4) × (7 < 2 ^ 64) × (3 + 2 ≤ 10)
is_valid_checked_example =
    is_valid_checked stamps zeros (regular_trx 3 2) (regular_trx 3 2) 10 4 5 7 regular_accepted

is_valid_wraps_example :
    (s' : ℕ) × (r' : ℕ) × (Regular.is_valid stamps zeros false
        (regular_trx 18446744073709551615 2)
        10
        0
      ≡ some
          (Regular.compute_hash stamps zeros (regular_trx 18446744073709551615 2), some (s', r')))
    × (s' + r' + 2 ≡ 10 + 0 + 2 ^ 64)
    × (10 + 0 < s' + r')
is_valid_wraps_example =
    is_valid_wraps stamps zeros (regular_trx 18446744073709551615 2) 10 0
      (unfold Regular.verify_sigs in refl) (omega arith) (omega arith) (omega arith) (omega arith)
      (omega arith)

sign_regular_example :
    (t' : RegularTrx stamps) × (RegularCodec.sign_and_read stamps zeros tt tt
        (regular_trx 3 2)
        []
        (regular_trx 0 0)
      ≡ some (t', true))
    × (Regular.verify_sigs stamps zeros t' ≡ (t', true))
sign_regular_example =
    verify_regular-sign_and_read stamps zeros tt tt (regular_trx 3 2) [] (regular_trx 0 0)
      (omega arith) (omega arith) (omega arith) refl refl refl

sent-IsSized : EphemeralCodec.IsSized bits zeros sent
sent-IsSized = record {
  sender_32 = refl;
  delta_32 = refl;
  receiver_32 = refl;
  fee_u64 = omega arith;
}

sign_ephemeral_example :
    (t' : EphemeralTrx bits) × (EphemeralCodec.sign_and_read bits zeros true false false true
        (secrets 10 false true)
        (secrets 5 true true)
        sent
        []
        sent
      ≡ some (t', true))
    × (verify_schnorrs bits zeros t' ≡ some (t', true))
unfolding commit
sign_ephemeral_example =
    verify_ephemeral-sign_and_read bits zeros true false false true (secrets 10 false true)
      (secrets 5 true true) sent tt [] sent sent-IsSized refl refl refl refl

abbrev hidden_trx : HiddenTrx bits stamps
hidden_trx = record {
  tag = default_tag;
  hash = zero_32;
  sender_proof = some tt;
  sender_addr = tt;
  delta_commit = bit_bytes true;
  fee_value = 2;
  receiver_addr = tt;
  sender_sig = [];
  receiver_sig = [];
}

sign_hidden_example :
    (t' : HiddenTrx bits stamps) × (HiddenCodec.sign_and_read bits stamps zeros tt tt hidden_trx []
        hidden_trx
      ≡ some (t', true))
    × (Hidden.verify_sigs bits stamps zeros t' ≡ (t', true))
sign_hidden_example =
    verify_hidden-sign_and_read bits stamps zeros tt tt hidden_trx tt [] hidden_trx refl refl
      (omega arith) (omega arith) refl refl refl

abbrev hidden_accepted : HiddenTrx bits stamps
hidden_accepted = record hidden_trx { sender_proof = none }

hidden_trx_accepted :
    Hidden.is_valid bits stamps zeros hidden_trx (bit_bytes true) (bit_bytes false)
    ≡ (hidden_accepted, some (bit_bytes false, bit_bytes true))
unfolding Hidden.is_valid Hidden.verify_sigs Hidden.compute_hash check_points sender_after
    receiver_after
hidden_trx_accepted = refl

is_valid_hidden_example :
    (s_init : Bool) × (r_init : Bool) × (s_final : Bool) × (r_final : Bool) × (proof : Unit {0})
    × (bits.decompress (bit_bytes true) ≡ some s_init)
    × (bits.decompress (bit_bytes false) ≡ some r_init)
    × (bit_bytes false ≡ bit_bytes s_final)
    × (bit_bytes true ≡ bit_bytes r_final)
    × (xor (xor s_final r_final) (bits.p_mul (bits.scalar_from 2) bits.base) ≡ xor s_init r_init)
    × (hidden_trx.sender_proof ≡ some proof)
    × (bits.verify_single proof (bit_bytes false) ≡ true)
    × ((Hidden.verify_sigs bits stamps zeros hidden_trx).1 ≡ true)
is_valid_hidden_example =
    is_valid_hidden-conserves bits stamps zeros hidden_trx hidden_accepted (bit_bytes true)
      (bit_bytes false) (bit_bytes false) (bit_bytes true) hidden_trx_accepted

state_transition_hidden_example :
    (t' : HiddenTrx bits stamps) × (new : TrxSecrets bits) × (Hidden.state_transition bits stamps
        zeros true true
        (secrets 10 false true)
        (secrets 3 true true)
        fee_2
        hidden_trx
      ≡ some (t', some new))
    × (t'.delta_commit ≡ (secrets 3 true true).commitment)
    × (t'.sender_proof ≡ some tt)
    × (new.val + 3 + 2 ≡ 10)
    × (commit bits new.x new.r
        ≡ sender_after bits (commit bits false true) (commit bits true true) t'.fee_value)
state_transition_hidden_example =
    state_transition_hidden-sender bits stamps zeros true (secrets 10 false true)
      (secrets 3 true true) fee_2 hidden_trx tt (omega arith) refl refl refl
