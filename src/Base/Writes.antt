-- ===== src/Base/Writes.antt =====
-- Several writes into one buffer, the latest first, and what a later read of it sees.
use Prim.Native.Nat.{ℕ, ◌+◌, ◌-◌, ◌≤◌}
use mathlib.Core.Path.{◌≡◌, refl, ap, ◌∙◌}
use mathlib.Core.Logic.{◌⊎◌, inl, inr}
use mathlib.Core.List.{List, [], ◌∷◌}
use mathlib.Core.Option.{Option, none, some}
use native.Mathlib.Omega.{arith}
use package.bullet_ledger.Base.Tests.{◌==◌, leb, le→leb, if◌then◌else◌, ==_iff}
use package.bullet_ledger.Base.Lists.{length, All}
use package.bullet_ledger.Base.Slices.{
  slice, copy_at, copied, copy_at-eq_some, length-copied, slice-copied_self, slice-copied_disjoint,
}

-- `buf[a..a + n].copy_from_slice(src)` panics too where the lengths differ.
unfoldable pub copy_exact : ℕ → ℕ → List ℕ → List ℕ → Option (List ℕ)
copy_exact a n src buf = if length src == n then copy_at a src buf else none

abbrev pub Write : Type 0
Write = ℕ × List ℕ

unfoldable pub apply : List Write → List ℕ → List ℕ
apply [] buf = buf
apply ((a, src) ∷ ws) buf = copied a src (apply ws buf)

abbrev pub Fits : ℕ → List Write → Type 0
Fits size ws = All (λ (w : Write). w.0 + length w.1 ≤ size) ws

-- The range `a..a + n` holds `out`: the latest write that meets it wrote just that.
abbrev pub Reads : ℕ → ℕ → List ℕ → List Write → Type 0
Reads a n out [] = ⊥
Reads a n out ((b, src) ∷ ws) =
    ((a ≡ b) × (length src ≡ n) × (src ≡ out))
    ⊎ (((a + n ≤ b) ⊎ (b + length src ≤ a)) × Reads a n out ws)

pub copy_exact-eq_some :
    (a n : ℕ) (src buf : List ℕ)
    → length src ≡ n
    → a + n ≤ length buf
    → copy_exact a n src buf ≡ some (copied a src buf)
unfolding copy_exact
copy_exact-eq_some a n src buf e h =
    rw ((==_iff (length src) n).1 e) (copy_at-eq_some a src buf (omega arith))

pub length-apply :
    (ws : List Write) (buf : List ℕ) → Fits (length buf) ws → length (apply ws buf) ≡ length buf
unfolding apply
length-apply [] buf f = refl
length-apply ((a, src) ∷ ws) buf f =
    let e = length-apply ws buf f.1 in
    length-copied a src (apply ws buf) (omega (arith, e, f.0)) ∙ e

-- One more write.
pub copy_exact-apply :
    (a n : ℕ) (src : List ℕ) (ws : List Write) (buf : List ℕ)
    → length src ≡ n
    → a + n ≤ length buf
    → Fits (length buf) ws
    → copy_exact a n src (apply ws buf) ≡ some (apply ((a, src) ∷ ws) buf)
unfolding apply
copy_exact-apply a n src ws buf e h f =
    copy_exact-eq_some a n src (apply ws buf) e (omega (arith, length-apply ws buf f))

pub slice-apply :
    (a n : ℕ) (out : List ℕ) (ws : List Write) (buf : List ℕ)
    → a + n ≤ length buf
    → Fits (length buf) ws
    → Reads a n out ws
    → slice a n (apply ws buf) ≡ some out
unfolding apply
slice-apply a n out [] buf h f r = absurd r
slice-apply a n out ((b, src) ∷ ws) buf h f (inl (e, l, s)) =
    let le = length-apply ws buf f.1 in
    rw (← e) (slice-copied_self a n src (apply ws buf) (omega (arith, le)) l ∙ ap some s)
slice-apply a n out ((b, src) ∷ ws) buf h f (inr (d, r)) =
    let le = length-apply ws buf f.1 in
    slice-copied_disjoint a n b src (apply ws buf) (omega (arith, le, f.0)) d
    ∙ slice-apply a n out ws buf h f.1 r

-- `buf[a..].copy_from_slice(src)`: the rest of the buffer has just the length of `src`.
unfoldable pub copy_rest : ℕ → List ℕ → List ℕ → Option (List ℕ)
copy_rest a src buf = if leb a (length buf) then copy_exact a (length buf - a) src buf else none

-- `&buf[a..]`.
unfoldable pub slice_rest : ℕ → List ℕ → Option (List ℕ)
slice_rest a buf = if leb a (length buf) then slice a (length buf - a) buf else none

pub copy_rest-eq_exact :
    (a n : ℕ) (src buf : List ℕ) → length buf ≡ a + n → copy_rest a src buf ≡ copy_exact a n src buf
unfolding copy_rest
copy_rest-eq_exact a n src buf e =
    rw (le→leb a (length buf) (omega arith)) (ap (λ k. copy_exact a k src buf) (omega arith))

pub slice_rest-eq_slice :
    (a n : ℕ) (buf : List ℕ) → length buf ≡ a + n → slice_rest a buf ≡ slice a n buf
unfolding slice_rest
slice_rest-eq_slice a n buf e =
    rw (le→leb a (length buf) (omega arith)) (ap (λ k. slice a k buf) (omega arith))
