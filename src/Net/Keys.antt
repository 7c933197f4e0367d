-- ===== src/Net/Keys.antt =====
-- src/utils/keys.rs: the keys of a node, their file, and the secret that two nodes share. Bytes drawn at random are
-- arguments; opening and writing the file succeed.
use bullet_ledger.Base.{
  ℕ, ◌+◌, ◌*◌, ◌/◌, ◌%◌, ◌≡◌, refl, sym, ap, ◌∙◌, Option, none, some, List, [], ◌++◌, length, take,
  drop, arith, inl, inr, Option-cases, ◌>>=◌, replicate, ltb, le→not-ltb, false, if◌then◌else◌, ◌-◌,
  set, get_or, length-set, drop-nil, drop-append_ge, take-append_le, take-length,
}
use mathlib.Core.List.{append-nil}
use bullet_ledger.Base.Slices.{slice, resize}
use bullet_ledger.Base.Windows.{slice-middle}
use bullet_ledger.Peers.{OpenFile, set_len, write_all, read_exact}

-- X25519 of curve25519-dalek, and hkdf with sha2: two scalar products of the base point commute.
pub record Exchange : Type 1 where
  pub Scalar : Type 0
  pub MontgomeryPoint : Type 0
  pub from_bytes_mod_order : List ℕ → Scalar
  pub from_bytes : List ℕ → MontgomeryPoint
  pub to_bytes : MontgomeryPoint → List ℕ
  pub base_point : MontgomeryPoint
  pub mul : Scalar → MontgomeryPoint → MontgomeryPoint
  -- `Hkdf::<Sha256>::new(salt, secret)`, expanded with `info` to 32 bytes.
  pub expand : List ℕ → List ℕ → List ℕ → List ℕ
  pub from_bytes-to_bytes : (p : MontgomeryPoint) → from_bytes (to_bytes p) ≡ p
  pub length-to_bytes : (p : MontgomeryPoint) → length (to_bytes p) ≡ 32
  pub mul-mul : (s t : Scalar) → mul s (mul t base_point) ≡ mul t (mul s base_point)

-- `& 248`, `& 127` and `| 64` of bytes.
unfoldable pub clamp_scalar_bytes : List ℕ → List ℕ
clamp_scalar_bytes sk =
    let low = set sk 0 (get_or sk 0 0 / 8 * 8) in set low 31 (get_or low 31 0 % 64 + 64)

-- Both keys, in full.
unfoldable pub read_keys : OpenFile → Option ((List ℕ × List ℕ) × OpenFile)
unfolding read_exact
read_keys file = do
  (pub_key, file1) ← read_exact 32 file
  (priv_key, file2) ← read_exact 32 file1
  some ((pub_key, priv_key), file2)

length-clamp : (sk : List ℕ) → length (clamp_scalar_bytes sk) ≡ length sk
unfolding clamp_scalar_bytes
length-clamp sk = length-set (set sk 0 (get_or sk 0 0 / 8 * 8)) 31 _ ∙ length-set sk 0 _

-- Keys that were written to an empty file, read from its start.
read_keys-written :
    (pub_key priv_key : List ℕ)
    → length pub_key ≡ 32
    → length priv_key ≡ 32
    → read_keys (record { bytes = pub_key ++ priv_key; cursor = 0 })
      ≡ some ((pub_key, priv_key), record { bytes = pub_key ++ priv_key; cursor = 64 })
unfolding read_keys read_exact
read_keys-written pub_key priv_key lp lq =
    let second : slice 32 32 (pub_key ++ priv_key) ≡ some priv_key =
      ap (slice 32 32) (ap (λ q. pub_key ++ q) (sym (append-nil priv_key)))
      ∙ slice-middle 32 32 pub_key priv_key [] lp lq in
    rw (slice-middle 0 32 [] pub_key priv_key refl lp, second) refl

write_out :
    (p q : List ℕ)
    → length p ≡ 32
    → write_all q (write_all p (record { bytes = []; cursor = 0 }))
      ≡ record { bytes = p ++ q; cursor = 32 + length q }
unfolding write_all
write_out p q lp =
    let z : 0 + length p ≡ length p = omega arith in
    let first : take (0 + length p) (p ++ drop (0 + length p) []) ≡ p =
      ap (λ k. take k (p ++ drop k [])) z
      ∙ (take-append_le (length p) p _ (omega arith) ∙ take-length p) in
    let rest : drop (0 + length p + length q) (p ++ drop (0 + length p) []) ≡ [] =
      ap (λ r. drop (0 + length p + length q) (p ++ r)) (drop-nil (0 + length p))
      ∙ (drop-append_ge (0 + length p + length q) p [] (omega arith) ∙ drop-nil _) in
    let size : 0 + length p + length q ≡ 32 + length q = omega (arith, lp) in
    ap (λ b. record { bytes = b; cursor = 0 + length p + length q })
      (ap (λ h. h ++ (q ++ drop (0 + length p + length q) (p ++ drop (0 + length p) []))) first
        ∙ (ap (λ r. p ++ (q ++ r)) rest ∙ ap (λ r. p ++ r) (append-nil q)))
    ∙ ap (λ c. record { bytes = p ++ q; cursor = c }) size

write_new :
    (bytes p q : List ℕ)
    → length p ≡ 32
    → length q ≡ 32
    → write_all q
        (write_all p (record (set_len 0 (record { bytes = bytes; cursor = 0 })) { cursor = 0 }))
      ≡ record { bytes = p ++ q; cursor = 64 }
unfolding set_len resize
write_new bytes p q lp lq =
    let none_less : ltb (length bytes) 0 ≡ false = le→not-ltb (length bytes) 0 (omega arith) in
    ap
      (λ b. write_all q (
        write_all p (record {
          bytes = if b then bytes ++ replicate (0 - length bytes) 0 else [];
          cursor = 0;
        })))
      none_less
    ∙ (write_out p q lp ∙ ap (λ n. record { bytes = p ++ q; cursor = n }) (omega (arith, lq)))

read_keys-bytes :
    (file file' : OpenFile) (keys : List ℕ × List ℕ)
    → read_keys file ≡ some (keys, file')
    → file'.bytes ≡ file.bytes
unfolding read_keys read_exact
read_keys-bytes file file' keys e = ground (arith, e)

module _ (x : Exchange) where
  unfoldable pub generate_keypair : List ℕ → List ℕ × List ℕ
  unfolding clamp_scalar_bytes
  generate_keypair raw =
      let priv_bytes = clamp_scalar_bytes raw in
      (x.to_bytes (x.mul (x.from_bytes_mod_order priv_bytes) x.base_point), priv_bytes)

  unfoldable pub ecdh_shared_secret : List ℕ → List ℕ → List ℕ
  ecdh_shared_secret priv_bytes peer_pub_bytes =
      x.to_bytes (x.mul (x.from_bytes_mod_order priv_bytes) (x.from_bytes peer_pub_bytes))

  unfoldable pub hkdf_derive_key : List ℕ → List ℕ → List ℕ → List ℕ
  hkdf_derive_key shared_secret info salt = x.expand salt shared_secret info

  unfoldable pub load_keys : List ℕ → OpenFile → (List ℕ × List ℕ) × OpenFile
  unfolding read_keys write_all set_len generate_keypair
  load_keys raw file = elim (read_keys file) [
    | some keys ↦ keys
    | none ↦
        let (new_pub, new_priv) = generate_keypair raw in
        let cleared = record (set_len 0 file) { cursor = 0 } in
        ((new_pub, new_priv), write_all new_priv (write_all new_pub cleared))
  ]

  -- Two nodes that generated their keys share the secret that each derives from the other's public key.
  pub ecdh_shared_secret-symmetric :
      (raw raw' : List ℕ)
      → ecdh_shared_secret (generate_keypair raw).1 (generate_keypair raw').0
        ≡ ecdh_shared_secret (generate_keypair raw').1 (generate_keypair raw).0
  unfolding ecdh_shared_secret generate_keypair
  ecdh_shared_secret-symmetric raw raw' =
      let s = x.from_bytes_mod_order (clamp_scalar_bytes raw) in
      let t = x.from_bytes_mod_order (clamp_scalar_bytes raw') in
      ap (λ p. x.to_bytes (x.mul s p)) (x.from_bytes-to_bytes (x.mul t x.base_point))
      ∙ (ap x.to_bytes (x.mul-mul s t)
          ∙ ap (λ p. x.to_bytes (x.mul t p)) (sym (x.from_bytes-to_bytes (x.mul s x.base_point))))

  load-read :
      (raw : List ℕ) (file file' : OpenFile) (keys : List ℕ × List ℕ)
      → read_keys file ≡ some (keys, file')
      → load_keys raw file ≡ (keys, file')
  unfolding load_keys
  load-read raw file file' keys e = rw (e, load_keys) refl

  pub length-keypair :
      (raw : List ℕ)
      → length raw ≡ 32
      → (length (generate_keypair raw).0 ≡ 32) × (length (generate_keypair raw).1 ≡ 32)
  unfolding generate_keypair
  length-keypair raw l = (x.length-to_bytes _, length-clamp raw ∙ l)

  load-unread :
      (raw bytes : List ℕ)
      → length raw ≡ 32
      → read_keys (record { bytes = bytes; cursor = 0 }) ≡ none
      → load_keys raw (record { bytes = bytes; cursor = 0 }) ≡ (
        generate_keypair raw,
        record { bytes = (generate_keypair raw).0 ++ (generate_keypair raw).1; cursor = 64 },
      )
  unfolding load_keys
  load-unread raw bytes l unread =
      rw (unread, load_keys)
        (ap (λ f. (generate_keypair raw, f))
          (write_new bytes _ _ (length-keypair raw l).0 (length-keypair raw l).1))

  -- When the file was open at its start and 32 bytes are drawn, opening it again and loading gives the same keys,
  -- whatever is drawn then.
  pub load_keys-again :
      (raw raw' bytes : List ℕ)
      → length raw ≡ 32
      → let (keys, file) = load_keys raw (record { bytes = bytes; cursor = 0 }) in
        (load_keys raw' (record file { cursor = 0 })).0 ≡ keys
  load_keys-again raw raw' bytes l =
      elim (Option-cases (read_keys (record { bytes = bytes; cursor = 0 }))) [
        | inl unread ↦
            let (l1, l2) = length-keypair raw l in
            rw (load-unread raw bytes l unread)
              (ap (λ r. r.0) (load-read raw' _ _ _ (read_keys-written _ _ l1 l2)))
        | inr ((keys, file), e) ↦
            rw (load-read raw (record { bytes = bytes; cursor = 0 }) file keys e) (
              rw (read_keys-bytes (record { bytes = bytes; cursor = 0 }) file keys e)
                (ap (λ r. r.0) (load-read raw' (record { bytes = bytes; cursor = 0 }) file keys e)))
      ]
