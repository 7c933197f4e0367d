-- ===== src/Base/Windows.antt =====
-- Windows of lists that are cut and joined.
use Prim.Native.Nat.{ℕ, ◌+◌, ◌-◌, ◌≤◌}
use mathlib.Core.Path.{◌≡◌, ap, sym, ◌∙◌}
use mathlib.Core.List.{List, [], ◌++◌, append-nil}
use mathlib.Core.Option.{none, some}
use native.Mathlib.Omega.{arith}
use package.bullet_ledger.Base.Tests.{leb, if◌then◌else◌, le→leb}
use package.bullet_ledger.Base.Lists.{
  length, take, drop, length-append, length-take_le, length-drop, take-length, take-append_le,
  drop-append_le, drop-append_ge, drop-drop, take-drop-take,
}
use package.bullet_ledger.Base.Slices.{slice}

-- A window behind a cut is a window of the whole.
pub slice-drop :
    (a n k : ℕ) (xs : List ℕ) → k ≤ length xs → slice a n (drop k xs) ≡ slice (k + a) n xs
unfolding slice
slice-drop a n k xs h =
    rw (drop-drop a k xs) (ap (λ b. if b then some (take n (drop (k + a) xs)) else none) same)
  where
    same : leb (a + n) (length (drop k xs)) ≡ leb (k + a + n) (length xs)
    same = ground (arith, length-drop k xs, h)

-- A window inside the first `k` bytes does not see what follows them.
pub slice-take_append :
    (a n k : ℕ) (xs ys : List ℕ)
    → a + n ≤ k
    → k ≤ length xs
    → slice a n (take k xs ++ ys) ≡ slice a n xs
unfolding slice
slice-take_append a n k xs ys h l =
    rw
      (
        le→leb (a + n) (length (take k xs ++ ys)) (omega (arith, lw, lk)),
        le→leb (a + n) (length xs) (omega arith),
      )
      (ap some same)
  where
    lk : length (take k xs) ≡ k
    lk = length-take_le k xs l

    lw : length (take k xs ++ ys) ≡ length (take k xs) + length ys
    lw = length-append (take k xs) ys

    same : take n (drop a (take k xs ++ ys)) ≡ take n (drop a xs)
    same =
        ap (take n) (drop-append_le a (take k xs) ys (omega (arith, lk)))
        ∙ take-append_le n (drop a (take k xs)) ys (omega (arith, lk, length-drop a (take k xs)))
        ∙ take-drop-take a n k xs h

pub drop-take_append : (k : ℕ) (xs ys : List ℕ) → k ≤ length xs → drop k (take k xs ++ ys) ≡ ys
drop-take_append k xs ys l =
    let e = length-take_le k xs l in
    let none_left : k - length (take k xs) ≡ 0 = omega (arith, e) in
    drop-append_ge k (take k xs) ys (omega (arith, e)) ∙ ap (λ j. drop j ys) none_left

pub slice_all : (n : ℕ) (xs : List ℕ) → length xs ≡ n → slice 0 n xs ≡ some xs
unfolding slice
slice_all n xs e =
    rw (le→leb (0 + n) (length xs) (omega arith))
      (ap some (ap (λ k. take k xs) (sym e) ∙ take-length xs))

-- The part `q` of `p ++ q ++ r`.
pub slice-middle :
    (k n : ℕ) (p q r : List ℕ) → length p ≡ k → length q ≡ n → slice k n (p ++ (q ++ r)) ≡ some q
unfolding slice
slice-middle k n p q r lp lq =
    let none_left : k - length p ≡ 0 = omega (arith, lp) in
    let behind : drop k (p ++ (q ++ r)) ≡ q ++ r =
      drop-append_ge k p (q ++ r) (omega (arith, lp)) ∙ ap (λ j. drop j (q ++ r)) none_left in
    let fits : k + n ≤ length (p ++ (q ++ r)) =
      omega (arith, lp, lq, length-append p (q ++ r), length-append q r) in
    rw (le→leb (k + n) (length (p ++ (q ++ r))) fits) (
      ap some (
        ap (take n) behind
        ∙ (take-append_le n q r (omega (arith, lq))
            ∙ (ap (λ j. take j q) (sym lq) ∙ take-length q))))

pub slice-skip : (k a n : ℕ) (p q : List ℕ) → length p ≡ k → slice (k + a) n (p ++ q) ≡ slice a n q
slice-skip k a n p q lp =
    let none_left : k - length p ≡ 0 = omega (arith, lp) in
    let behind : drop k (p ++ q) ≡ q =
      drop-append_ge k p q (omega (arith, lp)) ∙ ap (λ j. drop j q) none_left in
    sym (slice-drop a n k (p ++ q) (omega (arith, lp, length-append p q))) ∙ ap (slice a n) behind

pub slice-last :
    (k n : ℕ) (p q : List ℕ) → length p ≡ k → length q ≡ n → slice k n (p ++ q) ≡ some q
slice-last k n p q lp lq =
    ap (λ r. slice k n (p ++ r)) (sym (append-nil q)) ∙ slice-middle k n p q [] lp lq
