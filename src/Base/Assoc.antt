-- ===== src/Base/Assoc.antt =====
-- A `HashMap` with numeric keys, as an association list: at most one entry for each key is `Distinct`.
use Prim.Native.Nat.{ℕ, suc}
use mathlib.Core.Path.{◌≡◌, refl}
use mathlib.Core.Bool.{Bool, false}
use mathlib.Core.List.{List, [], ◌∷◌}
use mathlib.Core.Option.{Option, none, some}
use native.Mathlib.Omega.{arith}
use package.bullet_ledger.Base.Tests.{◌==◌, if◌then◌else◌, is_some}
use package.bullet_ledger.Base.Lists.{length}

module _ {ℓ} {A : Type ℓ} where
  unfoldable pub lookup : ℕ → List (ℕ × A) → Option A
  lookup k [] = none
  lookup k ((j, a) ∷ m) = if j == k then some a else lookup k m

  -- `insert` replaces the value of a key that is there.
  unfoldable pub insert : ℕ → A → List (ℕ × A) → List (ℕ × A)
  insert k a [] = (k, a) ∷ []
  insert k a ((j, b) ∷ m) = if j == k then (j, a) ∷ m else (j, b) ∷ insert k a m

  unfoldable pub remove : ℕ → List (ℕ × A) → List (ℕ × A)
  remove k [] = []
  remove k ((j, b) ∷ m) = let rest = remove k m in if j == k then rest else (j, b) ∷ rest

  abbrev pub contains : ℕ → List (ℕ × A) → Bool
  contains k m = is_some (lookup k m)

  abbrev pub Distinct : List (ℕ × A) → Type 0
  Distinct [] = Unit {0}
  Distinct ((j, b) ∷ m) = (contains j m ≡ false) × Distinct m

  pub lookup-insert :
      (k j : ℕ) (a : A) (m : List (ℕ × A))
      → lookup j (insert k a m) ≡ (if k == j then some a else lookup j m)
  unfolding lookup insert
  lookup-insert k j a [] = refl
  lookup-insert k j a ((i, b) ∷ m) = ground (arith, lookup-insert k j a m)

  pub lookup-remove :
      (k j : ℕ) (m : List (ℕ × A)) → lookup j (remove k m) ≡ (if k == j then none else lookup j m)
  unfolding lookup remove
  lookup-remove k j [] = ground arith
  lookup-remove k j ((i, b) ∷ m) = ground (arith, lookup-remove k j m)

  pub remove_absent : (k : ℕ) (m : List (ℕ × A)) → lookup k m ≡ none → remove k m ≡ m
  unfolding lookup remove
  remove_absent k [] h = refl
  remove_absent k ((j, b) ∷ m) h = ground (arith, remove_absent k m)

  pub length-insert :
      (k : ℕ) (a : A) (m : List (ℕ × A))
      → length (insert k a m) ≡ (if is_some (lookup k m) then length m else suc (length m))
  unfolding lookup insert
  length-insert k a [] = refl
  length-insert k a ((j, b) ∷ m) = ground (arith, length-insert k a m)

  pub length-insert_fresh :
      (k : ℕ) (a : A) (m : List (ℕ × A))
      → lookup k m ≡ none
      → length (insert k a m) ≡ suc (length m)
  length-insert_fresh k a m e = ground (arith, length-insert k a m)

  pub length-insert_present :
      (k : ℕ) (a b : A) (m : List (ℕ × A)) → lookup k m ≡ some b → length (insert k a m) ≡ length m
  length-insert_present k a b m e = ground (arith, length-insert k a m)

  pub length-remove :
      (k : ℕ) (m : List (ℕ × A)) (a : A)
      → Distinct m
      → lookup k m ≡ some a
      → length m ≡ suc (length (remove k m))
  unfolding lookup remove
  length-remove k [] a d h = ground arith
  length-remove k ((j, b) ∷ m) a d h = ground (arith, length-remove k m a d.1, remove_absent k m)

  pub insert-Distinct : (k : ℕ) (a : A) (m : List (ℕ × A)) → Distinct m → Distinct (insert k a m)
  unfolding lookup insert
  insert-Distinct k a [] d = (refl, tt)
  insert-Distinct k a ((j, b) ∷ m) d =
      ground (arith, insert-Distinct k a m d.1, lookup-insert k j a m)

  pub remove-Distinct : (k : ℕ) (m : List (ℕ × A)) → Distinct m → Distinct (remove k m)
  unfolding lookup remove
  remove-Distinct k [] d = tt
  remove-Distinct k ((j, b) ∷ m) d = ground (arith, remove-Distinct k m d.1, lookup-remove k j m)

  -- To insert what is there changes nothing.
  pub insert_self : (k : ℕ) (a : A) (m : List (ℕ × A)) → lookup k m ≡ some a → insert k a m ≡ m
  unfolding lookup insert
  insert_self k a [] e = ground (arith, e)
  insert_self k a ((j, b) ∷ m) e = ground (arith, e, insert_self k a m)
