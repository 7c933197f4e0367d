-- ===== src/Base/Words.antt =====
-- Little-endian bytes of machine words, and arithmetic of machine words.
use Prim.Native.Nat.{ℕ, zero, suc, ◌-◌, ◌≤◌, ◌+◌, ◌*◌, ◌/◌, ◌%◌, ◌^◌, ◌<◌}
use mathlib.Core.Path.{◌≡◌, refl, ap}
use mathlib.Core.Bool.{Bool}
use mathlib.Core.List.{List, [], ◌∷◌}
use mathlib.Core.Option.{Option, none, some}
use native.Mathlib.Omega.{arith}
use native.Mathlib.Nat.{pow-suc}
use package.bullet_ledger.Base.Tests.{leb, ltb, if◌then◌else◌}
use package.bullet_ledger.Base.Lists.{length}

abbrev pub u16_mod : ℕ
u16_mod = 2 ^ 16

abbrev pub u64_mod : ℕ
u64_mod = 2 ^ 64

-- `n.to_le_bytes()` of a word of `w` bytes.
unfoldable pub to_le_bytes : ℕ → ℕ → List ℕ
to_le_bytes zero n = []
to_le_bytes (suc w) n = n % 256 ∷ to_le_bytes w (n / 256)

-- `from_le_bytes`.
unfoldable pub from_le_bytes : List ℕ → ℕ
from_le_bytes [] = 0
from_le_bytes (b ∷ bs) = b + 256 * from_le_bytes bs

pub length-to_le_bytes : (w n : ℕ) → length (to_le_bytes w n) ≡ w
unfolding to_le_bytes
length-to_le_bytes zero n = refl
length-to_le_bytes (suc w) n = ap suc (length-to_le_bytes w (n / 256))

below : (w n : ℕ) → n < 256 ^ suc w → n < 256 * 256 ^ w
below w n h = omega (arith, pow-suc 256 w)

pub from_le_bytes-to_le_bytes : (w n : ℕ) → n < 256 ^ w → from_le_bytes (to_le_bytes w n) ≡ n
unfolding to_le_bytes from_le_bytes
from_le_bytes-to_le_bytes zero n h = omega arith
from_le_bytes-to_le_bytes (suc w) n h =
    omega (arith, below w n h, from_le_bytes-to_le_bytes w (n / 256) (omega (arith, below w n h)))

-- `a + b` on a word below `m`: a build with overflow checks panics, another one wraps.
unfoldable pub add_word : Bool → ℕ → ℕ → ℕ → Option ℕ
add_word checks m a b =
    if ltb (a + b) m then some (a + b) else (if checks then none else some ((a + b) % m))

pub add_word-lt : (checks : Bool) (m a b : ℕ) → a + b < m → add_word checks m a b ≡ some (a + b)
unfolding add_word
add_word-lt checks m a b h = ground arith

-- `a * b` on a word below `m`.
unfoldable pub mul_word : Bool → ℕ → ℕ → ℕ → Option ℕ
mul_word checks m a b =
    if ltb (a * b) m then some (a * b) else (if checks then none else some ((a * b) % m))

pub mul_word-lt : (checks : Bool) (m a b : ℕ) → a * b < m → mul_word checks m a b ≡ some (a * b)
unfolding mul_word
mul_word-lt checks m a b h = ground arith

-- `a - b` on a word below `m`.
unfoldable pub sub_word : Bool → ℕ → ℕ → ℕ → Option ℕ
sub_word checks m a b =
    if leb b a then some (a - b) else (if checks then none else some (a + m - b))

pub sub_word-le : (checks : Bool) (m a b : ℕ) → b ≤ a → sub_word checks m a b ≡ some (a - b)
unfolding sub_word
sub_word-le checks m a b h = ground arith

be_from : ℕ → List ℕ → ℕ
be_from acc [] = acc
be_from acc (b ∷ bs) = be_from (acc * 256 + b) bs

-- The number that bytes spell, most significant first: arrays of one length compare as these do.
unfoldable pub from_be_bytes : List ℕ → ℕ
unfolding be_from
from_be_bytes bs = be_from 0 bs
