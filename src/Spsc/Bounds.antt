-- ===== src/Spsc/Bounds.antt =====
-- The slots of a ring.
use bullet_ledger.Base.{
  Bool-cases, ltb, ltb→lt, not-ltb→le, inl, inr, ℕ, zero, suc, ◌+◌, ◌-◌, ◌%◌, ◌≤◌, ◌<◌, ◌≡◌, ◌≢◌,
  refl, sym, ap, ◌∙◌, Option, none, List, [], ◌∷◌, ◌++◌, length, get_or, set, get_or-set_self,
  get_or-set_ne, arith,
}
use native.Mathlib.Nat.{mod-add-mod, mod-eq_of_lt, mod-eq-sub-mod, mod-lt}
use mathlib.Core.Path.{ap₂}

-- From a slot, a way round shorter than the ring ends at another slot.
lap-ne : (size at gone : ℕ) → at < size → gone < size → 0 < gone → (at + gone) % size ≢ at
lap-ne size at gone inside short moved back = elim (Bool-cases (ltb (at + gone) size)) [
  | inl before_end ↦
      let stays = mod-eq_of_lt (ltb→lt (at + gone) size before_end) in omega (arith, stays, back)
  | inr past_end ↦
      let over = not-ltb→le (at + gone) size past_end in
      let cut = mod-eq-sub-mod over in
      let landed : (at + gone - size) % size ≡ at + gone - size =
        mod-eq_of_lt (omega (arith, over)) in
      omega (arith, over, cut, landed, back)
]

pub step-ne : (cap h k : ℕ) → suc k < cap → (h + suc k) % cap ≢ h % cap
step-ne cap h k hk e =
    lap-ne cap (h % cap) (suc k) (mod-lt h (omega arith)) hk (omega arith)
      (mod-add-mod h cap (suc k) ∙ e)

module _ {A : Type 0} (cap : ℕ) where
  -- The `n` slots from counter `h` on.
  unfoldable pub window : List (Option A) → ℕ → ℕ → List (Option A)
  window buf h zero = []
  window buf h (suc n) = get_or buf (h % cap) none ∷ window buf (suc h) n

  pub window-suc :
      (buf : List (Option A)) (h n : ℕ)
      → n ≢ 0
      → window buf h n ≡ get_or buf (h % cap) none ∷ window buf (suc h) (n - 1)
  unfolding window
  window-suc buf h zero p = absurd (p refl)
  window-suc buf h (suc n) p = ap (λ k. window buf h (suc k)) (omega arith)

  -- A write just past a window extends it.
  pub window-set_end :
      (buf : List (Option A)) (h n i : ℕ) (v : Option A)
      → cap ≤ length buf
      → n < cap
      → i ≡ (h + n) % cap
      → window (set buf i v) h (suc n) ≡ window buf h n ++ (v ∷ [])
  unfolding window
  window-set_end buf h zero i v hb hn e =
      ap (λ x. x ∷ [])
        (rw (e, at_h) (get_or-set_self buf (h % cap) v none (omega (arith, mod-lt h {m = cap}))))
    where
      at_h : (h + 0) % cap ≡ h % cap
      at_h = ap (λ k. k % cap) (omega arith)
  window-set_end buf h (suc n) i v hb hn e =
      ap₂ ◌∷◌ (get_or-set_ne buf i (h % cap) v none (λ same. step-ne cap h n hn (sym e ∙ same)))
        (window-set_end buf (suc h) n i v hb (omega arith) (e ∙ shift))
    where
      shift : (h + suc n) % cap ≡ (suc h + n) % cap
      shift = ap (λ k. k % cap) (omega arith)

  -- A write just before a window leaves it.
  pub window-set_start :
      (buf : List (Option A)) (h n j : ℕ) (v : Option A)
      → suc j + n ≤ cap
      → window (set buf (h % cap) v) (h + suc j) n ≡ window buf (h + suc j) n
  unfolding window
  window-set_start buf h zero j v hn = refl
  window-set_start buf h (suc n) j v hn =
      ap₂ ◌∷◌
        (get_or-set_ne buf (h % cap) ((h + suc j) % cap) v none
          (λ e. step-ne cap h j (omega arith) (sym e)))
        (rw shift (window-set_start buf h n (suc j) v (omega arith)))
    where
      shift : suc (h + suc j) ≡ h + suc (suc j)
      shift = omega arith
