-- ===== src/Spsc.antt =====
-- src/spsc.rs: the ring that passes messages from one thread to another, and the chute that passes
-- the used messages back.
mod Bounds
pub mod Refine
use bullet_ledger.Base.{
  ℕ, ◌+◌, ◌-◌, ◌/◌, ◌%◌, ◌==◌, Bool, true, false, not, ◌&&◌, Option, none, some, List, [], ◌∷◌,
  ◌++◌, if◌then◌else◌, length, get_or, set, replicate, ltb, guard, ◌>>=◌, ◌>>◌, arith,
}
use bullet_ledger.Base.Words.{u64_mod}

pub record SpscQueue (A : Type 0) : Type 0 where
  pub buffer : List (Option A)
  pub capacity : ℕ
  pub head : ℕ
  pub tail : ℕ

-- `wrapping_sub` and `wrapping_add` of a `usize`.
abbrev pub wrapping_sub : ℕ → ℕ → ℕ
wrapping_sub a b = (a + (u64_mod - b)) % u64_mod

abbrev pub wrapping_inc : ℕ → ℕ
wrapping_inc a = (a + 1) % u64_mod

module _ {A : Type 0} where
  unfoldable pub new_queue : ℕ → SpscQueue A
  new_queue capacity = record {
    buffer = replicate capacity none;
    capacity = capacity;
    head = 0;
    tail = 0;
  }

  -- `% queue.capacity` and the index into the buffer, which panic.
  unfoldable pub slot : SpscQueue A → ℕ → Option ℕ
  slot q n = do
    guard (not (q.capacity == 0))
    guard (ltb (n % q.capacity) (length q.buffer))
    some (n % q.capacity)

  -- The value that is popped, if any.
  unfoldable pub pop : SpscQueue A → Option (SpscQueue A × Option A)
  pop q = if q.head == q.tail then some (q, none) else (do
    index ← slot q q.head
    some (
      record q { buffer = set q.buffer index none; head = wrapping_inc q.head },
      get_or q.buffer index none,
    ))

  -- The value that is given back when the ring is full.
  unfoldable pub push : SpscQueue A → A → Option (SpscQueue A × Option A)
  push q value = if wrapping_sub q.tail q.head == q.capacity then some (q, some value) else (do
    index ← slot q q.tail
    some (record q { buffer = set q.buffer index (some value); tail = wrapping_inc q.tail }, none))

-- What a `Producer` and a `Consumer` share.
pub record Channel (A : Type 0) : Type 0 where
  pub queue : SpscQueue A
  pub chute : SpscQueue A

module _ {A : Type 0} where
  unfoldable pub new : ℕ → Channel A
  new capacity = record { queue = new_queue capacity; chute = new_queue (capacity / 3) }

  unfoldable pub try_push : Channel A → A → Option (Channel A × Option A)
  try_push ch value = do (q, back) ← push ch.queue value; some (record ch { queue = q }, back)

  -- `fresh` is `T::new(default_cap)`.
  unfoldable pub collect : A → Channel A → Option (Channel A × A)
  collect fresh ch = do
    (q, value) ← pop ch.chute
    some (record ch { chute = q }, elim value [ none ↦ fresh | some t ↦ t ])

  unfoldable pub pop_message : Channel A → Option (Channel A × Option A)
  pop_message ch = do (q, value) ← pop ch.queue; some (record ch { queue = q }, value)

  unfoldable pub recycle : Channel A → A → Option (Channel A × Option A)
  recycle ch value = do (q, back) ← push ch.chute value; some (record ch { chute = q }, back)

-- The calls of the two ends, in the order in which they take effect.
pub data Op (A : Type 0) : Type 0 where
  pushes : A → Op A
  pops : Op A
  collects : Op A
  recycles : A → Op A

-- What a call returns.
pub data Reply (A : Type 0) : Type 0 where
  refused : Option A → Reply A
  received : Option A → Reply A
  collected : A → Reply A

module _ {A : Type 0} (fresh : A) where
  unfoldable pub step : Channel A → Op A → Option (Channel A × Reply A)
  step ch (pushes a) = do (ch', back) ← try_push ch a; some (ch', refused back)
  step ch pops = do (ch', value) ← pop_message ch; some (ch', received value)
  step ch collects = do (ch', value) ← collect fresh ch; some (ch', collected value)
  step ch (recycles a) = do (ch', back) ← recycle ch a; some (ch', refused back)

  unfoldable pub run : Channel A → List (Op A) → Option (List (Reply A))
  run ch [] = some []
  run ch (op ∷ ops) = do (ch', reply) ← step ch op; replies ← run ch' ops; some (reply ∷ replies)
