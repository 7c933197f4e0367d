-- ===== src/Trx/Hidden/Codec.antt =====
-- The bytes that marshalling and the two signatures write.
pub mod RoundTrip
use bullet_ledger.Base.{
  ℕ, ◌+◌, ◌^◌, ◌<◌, ◌≤◌, ◌≡◌, refl, Bool, true, ◌&&◌, Option, none, some, List, [], ◌∷◌, ◌>>=◌,
  length, inl, inr, arith, if◌then◌else◌, le→not-ltb, ◌∙◌,
}
use bullet_ledger.Base.Slices.{slice, length-resize}
use bullet_ledger.Base.Writes.{
  Write, Fits, Reads, apply, copy_exact, copy_exact-eq_some, copy_exact-apply, copy_rest,
  copy_rest-eq_exact, slice_rest, slice_rest-eq_slice, slice-apply, length-apply,
}
use bullet_ledger.Base.Words.{
  to_le_bytes, from_le_bytes, length-to_le_bytes, from_le_bytes-to_le_bytes,
}
use bullet_ledger.Crypto.{Curve, Signer, Hasher}
use bullet_ledger.Trx.Secrets.{proof_length, trx_length}
use bullet_ledger.Trx.Hidden.{
  HiddenTrx, total_trx_proof, context, compute_hash, grown, put_proof, put_shared, marshal,
  sender_sign, receiver_sign, verify_sigs, unmarshal,
}

module _ (c : Curve) (g : Signer) (h : Hasher) (k k' : g.SigningKey) where
  -- Both parties sign, the sender first, and the bytes are read into `t0`.
  unfoldable pub sign_and_read :
      HiddenTrx c g → List ℕ → HiddenTrx c g → Option (HiddenTrx c g × Bool)
  sign_and_read t buf t0 = do
    (t1, b1) ← sender_sign c g h k t buf
    (t2, b2) ← receiver_sign c g h k' t1 b1
    unmarshal c g h t0 b2

  abbrev shared_writes : HiddenTrx c g → List Write → List Write
  shared_writes t ws =
      (proof_length + 72, g.key_bytes t.receiver_addr)
      ∷ ((proof_length + 64, to_le_bytes 8 t.fee_value)
          ∷ ((proof_length + 32, t.delta_commit)
              ∷ ((proof_length, g.key_bytes t.sender_addr) ∷ ws)))

  abbrev sig_of : g.SigningKey → HiddenTrx c g → List ℕ
  sig_of key t = g.sign key (h.blake3 (context c g h t))

  abbrev proof_write : c.Proof → List Write
  proof_write p = (0, c.proof_to_bytes p) ∷ []

  abbrev first_writes : HiddenTrx c g → c.Proof → List Write
  first_writes t p = (trx_length, sig_of k t) ∷ shared_writes t (proof_write p)

  abbrev all_writes : HiddenTrx c g → c.Proof → List Write
  all_writes t p = (trx_length + 64, sig_of k' t) ∷ shared_writes t (first_writes t p)

  Fits-proof : (p : c.Proof) (size : ℕ) → proof_length ≤ size → Fits size (proof_write p)
  Fits-proof p size big = (omega (arith, c.length-proof_to_bytes p), tt)

  Fits-shared :
      (t : HiddenTrx c g) (ws : List Write) (size : ℕ)
      → length t.delta_commit ≡ 32
      → trx_length ≤ size
      → Fits size ws
      → Fits size (shared_writes t ws)
  Fits-shared t ws size ld big f =
      let ls = g.length-key_bytes t.sender_addr in
      let lr = g.length-key_bytes t.receiver_addr in
      let lf = length-to_le_bytes 8 t.fee_value in
      (omega (arith, lr), (omega (arith, lf), (omega arith, (omega (arith, ls), f))))

  put_shared-apply :
      (t : HiddenTrx c g) (ws : List Write) (buf : List ℕ)
      → length t.delta_commit ≡ 32
      → trx_length ≤ length buf
      → Fits (length buf) ws
      → put_shared c g h t (apply ws buf) ≡ some (apply (shared_writes t ws) buf)
  unfolding put_shared
  put_shared-apply t ws buf ld big f =
      let ls = g.length-key_bytes t.sender_addr in
      let lr = g.length-key_bytes t.receiver_addr in
      let lf = length-to_le_bytes 8 t.fee_value in
      let w1 : List Write = (proof_length, g.key_bytes t.sender_addr) ∷ ws in
      let w2 : List Write = (proof_length + 32, t.delta_commit) ∷ w1 in
      let w3 : List Write = (proof_length + 64, to_le_bytes 8 t.fee_value) ∷ w2 in
      let f1 : Fits (length buf) w1 = (omega (arith, ls), f) in
      let f2 : Fits (length buf) w2 = (omega arith, f1) in
      let f3 : Fits (length buf) w3 = (omega (arith, lf), f2) in
      rw
        (
          put_shared,
          copy_exact-apply proof_length 32 (g.key_bytes t.sender_addr) ws buf ls (omega arith) f,
        )
        (rw (copy_exact-apply (proof_length + 32) 32 t.delta_commit w1 buf ld (omega arith) f1) (
          rw
            (copy_exact-apply (proof_length + 64) 8 (to_le_bytes 8 t.fee_value) w2 buf lf
              (omega arith) f2)
            (copy_exact-apply (proof_length + 72) 32 (g.key_bytes t.receiver_addr) w3 buf lr
              (omega arith) f3)))

  first-Fits :
      (t : HiddenTrx c g) (p : c.Proof) (size : ℕ)
      → length t.delta_commit ≡ 32
      → total_trx_proof ≤ size
      → Fits size (first_writes t p)
  first-Fits t p size ld big = (
    omega (arith, g.length-sign k (h.blake3 (context c g h t))),
    Fits-shared t (proof_write p) size ld (omega arith) (Fits-proof p size (omega arith)),
  )

  all-Fits :
      (t : HiddenTrx c g) (p : c.Proof) (size : ℕ)
      → length t.delta_commit ≡ 32
      → total_trx_proof ≤ size
      → Fits size (all_writes t p)
  all-Fits t p size ld big = (
    omega (arith, g.length-sign k' (h.blake3 (context c g h t))),
    Fits-shared t (first_writes t p) size ld (omega arith) (first-Fits t p size ld big),
  )

  length-grown :
      (buf : List ℕ) → length buf ≤ total_trx_proof → length (grown c g h buf) ≡ total_trx_proof
  unfolding grown
  length-grown buf small = ground (arith, length-resize total_trx_proof 0 buf)

  grown_of_full : (buf : List ℕ) → length buf ≡ total_trx_proof → grown c g h buf ≡ buf
  unfolding grown
  grown_of_full buf full = rw (le→not-ltb (length buf) total_trx_proof (omega arith))

  abbrev after_sender : HiddenTrx c g → HiddenTrx c g
  after_sender t = record t {
    hash = h.blake3 (context c g h t);
    sender_proof = none;
    sender_sig = sig_of k t;
  }

  proof_applied :
      (p : c.Proof) (buf : List ℕ)
      → proof_length ≤ length buf
      → copy_exact 0 proof_length (c.proof_to_bytes p) buf ≡ some (apply (proof_write p) buf)
  unfolding apply
  proof_applied p buf big =
      copy_exact-eq_some 0 proof_length (c.proof_to_bytes p) buf (c.length-proof_to_bytes p)
        (omega arith)

  sender_step :
      (t : HiddenTrx c g) (p : c.Proof) (buf : List ℕ)
      → length t.delta_commit ≡ 32
      → t.sender_proof ≡ some p
      → length buf ≤ total_trx_proof
      → sender_sign c g h k t buf
        ≡ some (after_sender t, apply (first_writes t p) (grown c g h buf))
  unfolding sender_sign marshal compute_hash
  sender_step t p buf ld e small =
      let full = length-grown buf small in
      let f0 = Fits-proof p (length (grown c g h buf)) (omega (arith, full)) in
      rw (sender_sign, e, put_proof, proof_applied p (grown c g h buf) (omega (arith, full)))
        (rw (put_shared-apply t (proof_write p) (grown c g h buf) ld (omega (arith, full)) f0) (
          rw
            (copy_exact-apply trx_length 64 (sig_of k t) (shared_writes t (proof_write p))
              (grown c g h buf) (g.length-sign k (h.blake3 (context c g h t))) (omega (arith, full))
              (Fits-shared t (proof_write p) (length (grown c g h buf)) ld (omega (arith, full))
                f0))
            refl))

  receiver_step :
      (t : HiddenTrx c g) (p : c.Proof) (buf : List ℕ)
      → length t.delta_commit ≡ 32
      → length buf ≡ total_trx_proof
      → receiver_sign c g h k' (after_sender t) (apply (first_writes t p) buf)
        ≡ some (record (after_sender t) { receiver_sig = sig_of k' t }, apply (all_writes t p) buf)
  unfolding receiver_sign marshal compute_hash
  receiver_step t p buf ld full =
      let f1 = first-Fits t p (length buf) ld (omega arith) in
      let l1 : length (apply (first_writes t p) buf) ≡ total_trx_proof =
        length-apply (first_writes t p) buf f1 ∙ full in
      let fs = Fits-shared t (first_writes t p) (length buf) ld (omega arith) f1 in
      let l2 : length (apply (shared_writes t (first_writes t p)) buf) ≡ trx_length + 64 + 64 =
        omega (arith, length-apply (shared_writes t (first_writes t p)) buf fs) in
      rw (receiver_sign, put_proof, grown_of_full (apply (first_writes t p) buf) l1)
        (rw (put_shared-apply (after_sender t) (first_writes t p) buf ld (omega arith) f1) (
          rw (copy_rest-eq_exact (trx_length + 64) 64 (sig_of k' t) _ l2) (
            rw
              (copy_exact-apply (trx_length + 64) 64 (sig_of k' t)
                (shared_writes t (first_writes t p)) buf
                (g.length-sign k' (h.blake3 (context c g h t))) (omega arith) fs)
              refl)))
