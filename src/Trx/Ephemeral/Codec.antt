-- ===== src/Trx/Ephemeral/Codec.antt =====
-- The bytes that marshalling and the two signatures write.
pub mod RoundTrip
use bullet_ledger.Base.{
  ℕ, ◌+◌, ◌^◌, ◌<◌, ◌≤◌, ◌≡◌, refl, ltb, if◌then◌else◌, Bool, true, false, Option, none, some, List,
  [], ◌∷◌, ◌++◌, ◌>>=◌, length, inl, inr, arith, ◌∙◌, ap, Bool-cases, le→not-ltb,
}
use bullet_ledger.Base.Slices.{slice, resize, length-resize}
use bullet_ledger.Base.Writes.{
  Write, Fits, Reads, apply, copy_exact, copy_exact-eq_some, copy_exact-apply, length-apply,
  slice-apply,
}
use bullet_ledger.Base.Words.{
  to_le_bytes, from_le_bytes, length-to_le_bytes, from_le_bytes-to_le_bytes,
}
use bullet_ledger.Crypto.{Curve, Hasher}
use bullet_ledger.Schnorr.{SchnorrProof, generate}
use bullet_ledger.Schnorr.Complete.{proof_writes, copy_to_slice-apply, from_bytes-slices}
use bullet_ledger.Trx.Secrets.{TrxSecrets, proof_length, trx_length}
use bullet_ledger.Trx.Ephemeral.{
  EphemeralTrx, total_trx_proof, grown, put_proof, put_shared, context, marshal, compute_hash,
  schnorr_sender, schnorr_receiver, unmarshal,
}

module _ (c : Curve) (h : Hasher) where
  -- The byte arrays have their lengths, and the fee is a u64.
  pub record IsSized (t : EphemeralTrx c) : Type 0 where
    pub sender_32 : length t.sender_init ≡ 32
    pub delta_32 : length t.delta_commit ≡ 32
    pub receiver_32 : length t.receiver_init ≡ 32
    pub fee_u64 : t.fee_value < 2 ^ 64

  abbrev shared_writes : EphemeralTrx c → List Write → List Write
  shared_writes t ws =
      (proof_length + 72, t.receiver_init)
      ∷ ((proof_length + 64, to_le_bytes 8 t.fee_value)
          ∷ ((proof_length + 32, t.delta_commit) ∷ ((proof_length, t.sender_init) ∷ ws)))

  put_shared-apply :
      (t : EphemeralTrx c) (ws : List Write) (buf : List ℕ)
      → IsSized t
      → total_trx_proof ≤ length buf
      → Fits (length buf) ws
      → put_shared c h t (apply ws buf) ≡ some (apply (shared_writes t ws) buf)
  unfolding put_shared
  put_shared-apply t ws buf s big f =
      let l8 = length-to_le_bytes 8 t.fee_value in
      let w1 : List Write = (proof_length, t.sender_init) ∷ ws in
      let w2 : List Write = (proof_length + 32, t.delta_commit) ∷ w1 in
      let w3 : List Write = (proof_length + 64, to_le_bytes 8 t.fee_value) ∷ w2 in
      let f1 : Fits (length buf) w1 = (omega arith, f) in
      let f2 : Fits (length buf) w2 = (omega arith, f1) in
      let f3 : Fits (length buf) w3 = (omega (arith, l8), f2) in
      rw
        (
          put_shared,
          copy_exact-apply proof_length 32 t.sender_init ws buf s.sender_32 (omega arith) f,
        )
        (rw
          (copy_exact-apply (proof_length + 32) 32 t.delta_commit w1 buf s.delta_32 (omega arith)
            f1)
          (rw
            (copy_exact-apply (proof_length + 64) 8 (to_le_bytes 8 t.fee_value) w2 buf l8
              (omega arith) f2)
            (copy_exact-apply (proof_length + 72) 32 t.receiver_init w3 buf s.receiver_32
              (omega arith) f3)))

  Fits-shared :
      (t : EphemeralTrx c) (ws : List Write) (size : ℕ)
      → IsSized t
      → total_trx_proof ≤ size
      → Fits size ws
      → Fits size (shared_writes t ws)
  Fits-shared t ws size s big f = (
    omega arith,
    (omega (arith, length-to_le_bytes 8 t.fee_value), (omega arith, (omega arith, f))),
  )

  Fits-proof :
      (p : SchnorrProof c) (at : ℕ) (ws : List Write) (size : ℕ)
      → length p.random ≡ 32
      → at + 96 ≤ size
      → Fits size ws
      → Fits size (proof_writes c h p at ws)
  Fits-proof p at ws size l big f = (
    omega (arith, c.length-scalar_bytes p.s2),
    (omega (arith, c.length-scalar_bytes p.s1), (omega arith, f)),
  )

  length-grown : (buf : List ℕ) → total_trx_proof ≤ length (grown c h buf)
  unfolding grown
  length-grown buf = ground (arith, length-resize total_trx_proof 0 buf)

  grown_of_long : (buf : List ℕ) → total_trx_proof ≤ length buf → grown c h buf ≡ buf
  unfolding grown
  grown_of_long buf big = rw (le→not-ltb _ _ big)

  abbrev proof_write : c.Proof → List Write
  proof_write p = (0, c.proof_to_bytes p) ∷ []

  proof_applied :
      (p : c.Proof) (buf : List ℕ)
      → total_trx_proof ≤ length buf
      → copy_exact 0 proof_length (c.proof_to_bytes p) buf ≡ some (apply (proof_write p) buf)
  unfolding apply
  proof_applied p buf big =
      copy_exact-eq_some 0 proof_length (c.proof_to_bytes p) buf (c.length-proof_to_bytes p)
        (omega arith)

  marshal_first :
      (t : EphemeralTrx c) (p : c.Proof) (buf : List ℕ)
      → IsSized t
      → t.sender_proof ≡ some p
      → marshal c h t buf
        ≡ some (
          record t { sender_proof = none },
          apply (shared_writes t (proof_write p)) (grown c h buf),
        )
  unfolding marshal
  marshal_first t p buf i e =
      let big = length-grown buf in
      let lp = c.length-proof_to_bytes p in
      let f0 : Fits (length (grown c h buf)) (proof_write p) = (omega (arith, big, lp), tt) in
      rw (marshal, e, put_proof)
        (rw (proof_applied p (grown c h buf) big)
          (rw (put_shared-apply t (proof_write p) (grown c h buf) i big f0) refl))

  marshal_again :
      (t : EphemeralTrx c) (ws : List Write) (buf : List ℕ)
      → IsSized t
      → total_trx_proof ≤ length buf
      → Fits (length buf) ws
      → t.sender_proof ≡ none
      → marshal c h t (apply ws buf)
        ≡ some (record t { sender_proof = none }, apply (shared_writes t ws) buf)
  unfolding marshal
  marshal_again t ws buf i big f e =
      let long : total_trx_proof ≤ length (apply ws buf) = omega (arith, length-apply ws buf f) in
      rw (marshal, e, put_proof, grown_of_long (apply ws buf) long)
        (rw (put_shared-apply t ws buf i big f) refl)

module _ (c : Curve) (h : Hasher) (r1 r2 r3 r4 : c.Scalar) (s s' : TrxSecrets c) where
  -- Both parties sign, the sender first, and the bytes are read into `t0`.
  unfoldable pub sign_and_read :
      EphemeralTrx c → List ℕ → EphemeralTrx c → Option (EphemeralTrx c × Bool)
  sign_and_read t buf t0 = do
    (t1, b1) ← schnorr_sender c h r1 r2 s t buf
    (t2, b2) ← schnorr_receiver c h r3 r4 s' t1 b1
    unmarshal c h t0 b2

  abbrev digest : EphemeralTrx c → List ℕ
  digest t = h.blake3 (context c h t)

  abbrev pub sender_made : EphemeralTrx c → SchnorrProof c
  sender_made t = generate c h r1 r2 s.x s.r (h.blake3 (context c h t))

  abbrev pub receiver_made : EphemeralTrx c → SchnorrProof c
  receiver_made t = generate c h r3 r4 s'.x s'.r (h.blake3 (context c h t))

  abbrev first_writes : EphemeralTrx c → c.Proof → List Write
  first_writes t p =
      proof_writes c h (sender_made t) trx_length (shared_writes c h t (proof_write c h p))

  abbrev all_writes : EphemeralTrx c → c.Proof → List Write
  all_writes t p =
      proof_writes c h (receiver_made t) (trx_length + 96) (shared_writes c h t (first_writes t p))

  abbrev after_sender : EphemeralTrx c → EphemeralTrx c
  after_sender t = record t { sender_proof = none; hash = digest t; sender_schnorr = sender_made t }

  length-sender_made : (t : EphemeralTrx c) → length (sender_made t).random ≡ 32
  unfolding generate
  length-sender_made t = c.length-compress _

  length-receiver_made : (t : EphemeralTrx c) → length (receiver_made t).random ≡ 32
  unfolding generate
  length-receiver_made t = c.length-compress _

  first-Fits :
      (t : EphemeralTrx c) (p : c.Proof) (size : ℕ)
      → IsSized c h t
      → total_trx_proof ≤ size
      → Fits size (first_writes t p)
  first-Fits t p size i big =
      let f0 : Fits size (proof_write c h p) = (omega (arith, c.length-proof_to_bytes p), tt) in
      Fits-proof c h (sender_made t) trx_length (shared_writes c h t (proof_write c h p)) size
        (length-sender_made t) (omega arith) (Fits-shared c h t (proof_write c h p) size i big f0)

  sender_step :
      (t : EphemeralTrx c) (p : c.Proof) (buf : List ℕ)
      → IsSized c h t
      → t.sender_proof ≡ some p
      → schnorr_sender c h r1 r2 s t buf
        ≡ some (after_sender t, apply (first_writes t p) (grown c h buf))
  unfolding schnorr_sender compute_hash
  sender_step t p buf i e =
      let big = length-grown c h buf in
      let f0 : Fits (length (grown c h buf)) (proof_write c h p) =
        (omega (arith, big, c.length-proof_to_bytes p), tt) in
      rw (schnorr_sender, marshal_first c h t p buf i e)
        (rw
          (copy_to_slice-apply c h (sender_made t) trx_length
            (shared_writes c h t (proof_write c h p)) (grown c h buf) (length-sender_made t)
            (omega (arith, big))
            (Fits-shared c h t (proof_write c h p) (length (grown c h buf)) i big f0))
          refl)

  abbrev after_both : EphemeralTrx c → EphemeralTrx c
  after_both t = record t {
    sender_proof = none;
    hash = digest t;
    sender_schnorr = sender_made t;
    receiver_schnorr = receiver_made t;
  }

  receiver_step :
      (t : EphemeralTrx c) (p : c.Proof) (buf : List ℕ)
      → IsSized c h t
      → total_trx_proof ≤ length buf
      → schnorr_receiver c h r3 r4 s' (after_sender t) (apply (first_writes t p) buf)
        ≡ some (after_both t, apply (all_writes t p) buf)
  unfolding schnorr_receiver compute_hash
  receiver_step t p buf i big =
      let f1 = first-Fits t p (length buf) i big in
      let i1 : IsSized c h (after_sender t) = record {
        sender_32 = i.sender_32;
        delta_32 = i.delta_32;
        receiver_32 = i.receiver_32;
        fee_u64 = i.fee_u64;
      } in
      rw
        (schnorr_receiver, marshal_again c h (after_sender t) (first_writes t p) buf i1 big f1 refl)
        (rw
          (copy_to_slice-apply c h (receiver_made t) (trx_length + 96)
            (shared_writes c h t (first_writes t p)) buf (length-receiver_made t) (omega arith)
            (Fits-shared c h t (first_writes t p) (length buf) i big f1))
          refl)
