-- ===== src/Ledger.antt =====
-- src/blockchain/ledger/mod.rs: the safe wrappers of the ledger engine. The engine is a C++ library
-- behind the functions that ledger/ffi.rs declares, which are the fields of `LedgerFfi`: each gives the
-- return code (the bits of the c_int), what it wrote to its out pointer (`none` is null), and the
-- engine's state after the call. An outer `none` is a panic.

use bullet_ledger.Base.{ℕ, ◌==◌, if◌then◌else◌, Bool, true, false, Option, none, some, List}

pub data InternalError : Type 0 where
  ledger_error : ℕ → InternalError

pub data LedgerResult (A : Type 0) : Type 0 where
  ok : A → LedgerResult A
  err : InternalError → LedgerResult A

abbrev pub Hash : Type 0
Hash = List ℕ

pub record LedgerFfi : Type 1 where
  pub Handle : Type 0
  pub ledger_open : List ℕ → ℕ → ℕ → List ℕ → Option (List ℕ) → ℕ × Option Handle
  pub ledger_create_account : List ℕ → Option Hash → Option Hash → Handle → ℕ × Handle
  pub ledger_put : List ℕ → Hash → ℕ → Option Hash → Option Hash → Handle → ℕ × Handle
  pub ledger_finalize : Hash → Handle → ℕ × Option (List ℕ) × Handle
  pub ledger_db_store_value : List ℕ → List ℕ → Handle → ℕ × Handle
  pub ledger_db_delete_value : List ℕ → Handle → ℕ × Handle
  pub ledger_db_get_value : List ℕ → Handle → ℕ × Option (List ℕ) × Handle
  pub ledger_db_value_exists : List ℕ → Handle → ℕ × Handle

-- `if rc != 0 { Err(InternalError::Ledger(rc)) } else { Ok(()) }`.
unfoldable pub check_rc : ℕ → LedgerResult (Unit {0})
check_rc rc = if rc == 0 then ok tt else err (ledger_error rc)

-- The same with an out pointer, which must not be null.
unfoldable pub check_out : {A : Type 0} → ℕ → Option A → Option (LedgerResult A)
check_out rc (some a) = if rc == 0 then some (ok a) else some (err (ledger_error rc))
check_out rc none = if rc == 0 then none else some (err (ledger_error rc))

abbrev pub is_ok : {A : Type 0} → LedgerResult A → Bool
is_ok (ok a) = true
is_ok (err e) = false

module _ (f : LedgerFfi) where
  open f use {Handle}

  unfoldable pub open_ledger :
      List ℕ → ℕ → ℕ → List ℕ → Option (List ℕ) → Option (LedgerResult Handle)
  unfolding check_out
  open_ledger path cache_size map_size tag secret =
      let (rc, out) = f.ledger_open path cache_size map_size tag secret in check_out rc out

  unfoldable pub create_account :
      List ℕ → Option Hash → Option Hash → Handle → LedgerResult (Unit {0}) × Handle
  unfolding check_rc
  create_account key block prev l =
      let (rc, l') = f.ledger_create_account key block prev l in (check_rc rc, l')

  unfoldable pub put :
      List ℕ → Hash → ℕ → Option Hash → Option Hash → Handle → LedgerResult (Unit {0}) × Handle
  unfolding check_rc
  put key value idx block prev l =
      let (rc, l') = f.ledger_put key value idx block prev l in (check_rc rc, l')

  unfoldable pub finalize : Hash → Handle → Option (LedgerResult (List ℕ)) × Handle
  unfolding check_out
  finalize block l = let (rc, out, l') = f.ledger_finalize block l in (check_out rc out, l')

  unfoldable pub db_put : List ℕ → List ℕ → Handle → LedgerResult (Unit {0}) × Handle
  unfolding check_rc
  db_put key value l = let (rc, l') = f.ledger_db_store_value key value l in (check_rc rc, l')

  unfoldable pub db_remove : List ℕ → Handle → LedgerResult (Unit {0}) × Handle
  unfolding check_rc
  db_remove key l = let (rc, l') = f.ledger_db_delete_value key l in (check_rc rc, l')

  unfoldable pub db_get : List ℕ → Handle → Option (LedgerResult (List ℕ)) × Handle
  unfolding check_out
  db_get key l = let (rc, out, l') = f.ledger_db_get_value key l in (check_out rc out, l')

  unfoldable pub db_exists : List ℕ → Handle → LedgerResult (Unit {0}) × Handle
  unfolding check_rc
  db_exists key l = let (rc, l') = f.ledger_db_value_exists key l in (check_rc rc, l')
