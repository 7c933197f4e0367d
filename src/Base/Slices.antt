-- ===== src/Base/Slices.antt =====
-- Byte slices of the source: `buf[a..a + n]` and `buf[a..].copy_from_slice(src)`.
-- A range outside of the buffer is a panic, which is `none`.
use Prim.Native.Nat.{ℕ, ◌+◌, ◌-◌, ◌≤◌}
use mathlib.Core.Path.{◌≡◌, ap, sym, ◌∙◌}
use mathlib.Core.Logic.{◌⊎◌, inl, inr}
use mathlib.Core.List.{List, ◌++◌}
use mathlib.Core.Option.{Option, none, some}
use native.Mathlib.Omega.{arith}
use package.bullet_ledger.Base.Tests.{leb, ltb, if◌then◌else◌, le→leb}
use package.bullet_ledger.Base.Lists.{
  length, take, drop, replicate, length-append, length-take_le, length-drop, length-replicate,
  take-length, take-append_le, drop-append_le, drop-append_ge, drop-drop, take-drop-take,
}

module _ {ℓ} {A : Type ℓ} where
  -- `&buf[a..a + n]`
  unfoldable pub slice : ℕ → ℕ → List A → Option (List A)
  slice a n buf = if leb (a + n) (length buf) then some (take n (drop a buf)) else none

  -- `buf[a..a + src.len()].copy_from_slice(src)`
  unfoldable pub copy_at : ℕ → List A → List A → Option (List A)
  copy_at a src buf =
      if leb (a + length src) (length buf)
      then some (take a buf ++ (src ++ drop (a + length src) buf))
      else none

  -- `buf.resize(n, fill)`
  unfoldable pub resize : ℕ → A → List A → List A
  resize n fill buf =
      if ltb (length buf) n then buf ++ replicate (n - length buf) fill else take n buf

  pub length-resize : (n : ℕ) (fill : A) (buf : List A) → length (resize n fill buf) ≡ n
  unfolding resize
  length-resize n fill buf = ground (
    arith,
    length-append buf (replicate (n - length buf) fill),
    length-replicate (n - length buf) fill,
    length-take_le n buf,
  )

  -- A copy that fits succeeds.
  unfoldable pub copied : ℕ → List A → List A → List A
  copied a src buf = take a buf ++ (src ++ drop (a + length src) buf)

  pub copy_at-eq_some :
      (a : ℕ) (src buf : List A)
      → a + length src ≤ length buf
      → copy_at a src buf ≡ some (copied a src buf)
  unfolding copy_at copied
  copy_at-eq_some a src buf h = rw (le→leb _ _ h)

  pub length-copied :
      (a : ℕ) (src buf : List A)
      → a + length src ≤ length buf
      → length (copied a src buf) ≡ length buf
  unfolding copied
  length-copied a src buf h = omega (
    arith,
    length-append (take a buf) (src ++ drop (a + length src) buf),
    length-append src (drop (a + length src) buf),
    length-take_le a buf (omega arith),
    length-drop (a + length src) buf,
  )

  drop-copied_self :
      (a : ℕ) (src buf : List A)
      → a ≤ length buf
      → drop a (copied a src buf) ≡ src ++ drop (a + length src) buf
  unfolding copied
  drop-copied_self a src buf h =
      let e : length (take a buf) ≡ a = length-take_le a buf h in
      let none_left : a - length (take a buf) ≡ 0 = omega (arith, e) in
      drop-append_ge a (take a buf) (src ++ drop (a + length src) buf) (omega (arith, e))
      ∙ ap (λ k. drop k (src ++ drop (a + length src) buf)) none_left

  -- What was copied is read back.
  pub slice-copied_self :
      (a n : ℕ) (src buf : List A)
      → a + n ≤ length buf
      → length src ≡ n
      → slice a n (copied a src buf) ≡ some src
  unfolding slice
  slice-copied_self a n src buf h e =
      rw (length-copied a src buf (omega arith), le→leb _ _ h) (ap some same)
    where
      same : take n (drop a (copied a src buf)) ≡ src
      same =
          ap (take n) (drop-copied_self a src buf (omega arith))
          ∙ take-append_le n src (drop (a + length src) buf) (omega arith)
          ∙ ap (λ k. take k src) (sym e)
          ∙ take-length src

  -- Before the copy, and behind it, the old elements stand.
  window-copied_before :
      (a n b : ℕ) (src buf : List A)
      → b ≤ length buf
      → a + n ≤ b
      → take n (drop a (copied b src buf)) ≡ take n (drop a buf)
  unfolding copied
  window-copied_before a n b src buf h d =
      let e : length (take b buf) ≡ b = length-take_le b buf h in
      let R = src ++ drop (b + length src) buf in
      ap (take n) (drop-append_le a (take b buf) R (omega (arith, e)))
      ∙ take-append_le n (drop a (take b buf)) R (omega (arith, e, length-drop a (take b buf)))
      ∙ take-drop-take a n b buf d

  pub drop-copied_behind :
      (a b : ℕ) (src buf : List A)
      → b ≤ length buf
      → b + length src ≤ a
      → drop a (copied b src buf) ≡ drop a buf
  unfolding copied
  drop-copied_behind a b src buf h d =
      let e : length (take b buf) ≡ b = length-take_le b buf h in
      let D = drop (b + length src) buf in
      drop-append_ge a (take b buf) (src ++ D) (omega (arith, e))
      ∙ drop-append_ge (a - length (take b buf)) src D (omega (arith, e))
      ∙ drop-drop (a - length (take b buf) - length src) (b + length src) buf
      ∙ ap (λ k. drop k buf) (omega (arith, e))

  -- A read that does not overlap a copy sees the old elements.
  pub slice-copied_disjoint :
      (a n b : ℕ) (src buf : List A)
      → b + length src ≤ length buf
      → (a + n ≤ b) ⊎ (b + length src ≤ a)
      → slice a n (copied b src buf) ≡ slice a n buf
  unfolding slice
  slice-copied_disjoint a n b src buf h d =
      rw (length-copied b src buf h)
        (ap (λ w. if leb (a + n) (length buf) then some w else none) (rest d))
    where
      rest :
          (a + n ≤ b) ⊎ (b + length src ≤ a)
          → take n (drop a (copied b src buf)) ≡ take n (drop a buf)
      rest (inl p) = window-copied_before a n b src buf (omega arith) p
      rest (inr p) = ap (take n) (drop-copied_behind a b src buf (omega arith) p)
