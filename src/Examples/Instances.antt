-- ===== src/Examples/Instances.antt =====
-- A curve, a signer, a hasher and a ledger in which everything can be computed. The scalars and the
-- points are the field of two elements.
use bullet_ledger.Base.{
  ℕ, zero, suc, ◌≡◌, refl, ◌↔◌, Bool, true, false, none, some, List, [], ◌∷◌, length, replicate,
  length-replicate, ◌==◌,
}
use bullet_ledger.Crypto.{Curve, Signer, Hasher}
use bullet_ledger.Ledger.{LedgerFfi}

abbrev pub xor : Bool → Bool → Bool
xor true true = false
xor true false = true
xor false b = b

abbrev pub and : Bool → Bool → Bool
and true b = b
and false b = false

abbrev pub same : Bool → Bool → Bool
same true b = b
same false true = false
same false false = true

pub xor_comm : (p q : Bool) → xor p q ≡ xor q p
xor_comm true true = refl
xor_comm true false = refl
xor_comm false true = refl
xor_comm false false = refl

pub xor_assoc : (p q r : Bool) → xor (xor p q) r ≡ xor p (xor q r)
xor_assoc true true true = refl
xor_assoc true true false = refl
xor_assoc true false r = refl
xor_assoc false q r = refl

pub xor-xor : (p q : Bool) → xor (xor p q) q ≡ p
xor-xor true true = refl
xor-xor true false = refl
xor-xor false true = refl
xor-xor false false = refl

pub and-xor : (s t p : Bool) → and (xor s t) p ≡ xor (and s p) (and t p)
and-xor true true true = refl
and-xor true true false = refl
and-xor true false true = refl
and-xor true false false = refl
and-xor false t p = refl

pub and-and : (s t p : Bool) → and (and s t) p ≡ and s (and t p)
and-and true t p = refl
and-and false t p = refl

pub and-xor_right : (s p q : Bool) → and s (xor p q) ≡ xor (and s p) (and s q)
and-xor_right true p q = refl
and-xor_right false p q = refl

pub xor_none : (q : Bool) → xor q false ≡ q
xor_none true = refl
xor_none false = refl

pub same_iff : (p q : Bool) → (same p q ≡ true) ↔ (p ≡ q)
same_iff true true = (λ e. refl, λ e. refl)
same_iff true false = (λ e. cc, λ e. cc)
same_iff false true = (λ e. cc, λ e. cc)
same_iff false false = (λ e. refl, λ e. refl)

abbrev pub bit_bytes : Bool → List ℕ
bit_bytes true = 1 ∷ replicate 31 0
bit_bytes false = 0 ∷ replicate 31 0

abbrev pub bit_of : List ℕ → Bool
bit_of [] = false
bit_of (b ∷ bs) = b == 1

pub bit_of_bytes : (b : Bool) → bit_of (bit_bytes b) ≡ b
bit_of_bytes true = refl
bit_of_bytes false = refl

pub length_bit : (b : Bool) → length (bit_bytes b) ≡ 32
length_bit true = refl
length_bit false = refl

abbrev pub proof_bytes : List ℕ
proof_bytes = replicate 672 0

pub decode_bit : (p : Bool) → some (bit_of (bit_bytes p)) ≡ some p
decode_bit true = refl
decode_bit false = refl

-- A scalar of a number is its parity.
abbrev pub parity : ℕ → Bool
parity zero = false
parity (suc n) = xor true (parity n)

abbrev pub bits : Curve
bits = record {
  Scalar = Bool;
  Point = Bool;
  Proof = Unit {0};
  s_zero = false;
  s_add = xor;
  s_sub = xor;
  s_mul = and;
  scalar_from = parity;
  from_bytes_mod_order = bit_of;
  scalar_bytes = bit_bytes;
  identity = false;
  p_add = xor;
  p_sub = xor;
  p_mul = and;
  p_eq = same;
  compress = bit_bytes;
  decompress = λ bs. some (bit_of bs);
  base = true;
  blinding = true;
  prove_single = λ n r. some tt;
  verify_single = λ p bs. true;
  proof_to_bytes = λ p. proof_bytes;
  proof_from_bytes = λ bs. some tt;
  add_comm = xor_comm;
  add_assoc = xor_assoc;
  sub-add = xor-xor;
  add-sub = xor-xor;
  mul-add = and-xor;
  mul-sub = and-xor;
  mul-mul = and-and;
  mul-add_right = and-xor_right;
  mul-zero = λ p q. xor_none q;
  p_eq_iff = same_iff;
  decompress-compress = decode_bit;
  length-compress = length_bit;
  from_bytes-scalar_bytes = bit_of_bytes;
  length-scalar_bytes = length_bit;
  proof_from-proof_to = λ p. refl;
  length-proof_to_bytes = λ p. length-replicate {A = ℕ} 672 0;
}

abbrev pub stamps : Signer
stamps = record {
  VerifyingKey = Unit {0};
  SigningKey = Unit {0};
  key_bytes = λ k. replicate 32 7;
  key_from_bytes = λ bs. some tt;
  verifying_key = λ k. tt;
  sign = λ k m. replicate 64 9;
  verify_strict = λ k m s. true;
  default_key = tt;
  key_from-key_bytes = λ k. refl;
  length-key_bytes = λ k. refl;
  length-sign = λ k m. refl;
  verify-sign = λ k m. refl;
}

abbrev pub zeros : Hasher
zeros = record { blake3 = λ m. replicate 32 0; length-blake3 = λ m. refl }

-- A store whose writes are a list, the last one first; every read succeeds.
abbrev pub log : LedgerFfi
log = record {
  Handle = List (List ℕ × List ℕ);
  ledger_open = λ path cache_size map_size tag secret. (0, some []);
  ledger_create_account = λ key block prev l. (0, l);
  ledger_put = λ key value idx block prev l. (0, l);
  ledger_finalize = λ block l. (0, none, l);
  ledger_db_store_value = λ key value l. (0, (key, value) ∷ l);
  ledger_db_delete_value = λ key l. (0, l);
  ledger_db_get_value = λ key l. (0, none, l);
  ledger_db_value_exists = λ key l. (0, l);
}
