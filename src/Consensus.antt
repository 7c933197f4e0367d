-- ===== src/Consensus.antt =====
-- src/blockchain/consensus.rs: votes for checkpoints. A `CheckpointPointer` is a number, under which
-- the store has the checkpoint; a `Hash` is the number that its bytes spell, most significant first.
pub mod Votes
use bullet_ledger.Base.{
  ℕ, zero, suc, ◌+◌, ◌-◌, ◌/◌, ◌^◌, ◌==◌, Bool, true, false, not, ◌&&◌, ◌||◌, Option, none, some,
  List, [], ◌∷◌, if◌then◌else◌, ltb, leb, guard, ◌>>=◌, ◌>>◌,
}
use bullet_ledger.Base.Words.{u64_mod, add_word, mul_word}
use bullet_ledger.Base.Assoc.{lookup, insert, remove}

pub record VoteInterval : Type 0 where
  pub epoch : ℕ
  pub hash : ℕ

pub record Vote : Type 0 where
  pub source : VoteInterval
  pub target : VoteInterval

pub record Checkpoint : Type 0 where
  pub hash : ℕ
  pub weight : ℕ
  pub parent : ℕ
  pub heaviest_child : ℕ
  pub children : List ℕ

abbrev pub Buckets : Type 0
Buckets = List (ℕ × List (ℕ × ℕ))

-- Times are in seconds since the epoch of the clock.
pub record Consensus : Type 0 where
  pub next_epoch : ℕ
  pub epoch_interval : ℕ
  pub super_majority : ℕ
  pub last_justified : ℕ
  pub validators : List (ℕ × Vote)
  pub checkpoint_buckets : Buckets
  pub checkpoints : List (ℕ × Checkpoint)

-- A `SystemTime` counts its seconds in an `i64`; an addition that leaves it panics.
unfoldable pub system_time : ℕ → Option ℕ
system_time secs = do guard (ltb secs (2 ^ 63)); some secs

-- `now` is the clock. `none` is a panic: a division by 0, an overflow of a checked build, or a time
-- that no `SystemTime` holds.
unfoldable pub new : Bool → ℕ → ℕ → Option Consensus
unfolding system_time
new checks now epoch_interval = do
  guard (not (epoch_interval == 0))
  count ← add_word checks u64_mod (now / epoch_interval) 1
  next_epoch_secs ← mul_word checks u64_mod count epoch_interval
  next_epoch ← system_time next_epoch_secs
  some (record {
    next_epoch = next_epoch;
    epoch_interval = epoch_interval;
    super_majority = 1000000;
    last_justified = 0;
    validators = [];
    checkpoint_buckets = [];
    checkpoints = [];
  })

-- `none` is the panic of the addition.
unfoldable pub poll : ℕ → Consensus → Option Consensus
unfolding system_time
poll now s =
    if leb s.next_epoch now
    then (do
      next_epoch ← system_time (s.next_epoch + s.epoch_interval)
      some (record s { next_epoch = next_epoch }))
    else some s

-- The target beats its parent's heaviest child.
unfoldable pub overtakes : Checkpoint → Checkpoint → Bool
overtakes target heaviest =
    not (target.hash == heaviest.hash)
    && (ltb heaviest.weight target.weight
        || target.weight == heaviest.weight && ltb target.hash heaviest.hash)

-- The vote of a target `t` without a super majority. The target and its parent are borrowed mutably:
-- a borrow of the parent that is the target, or of a heaviest child that is one of the two, panics.
unfoldable pub count_vote : ℕ → Checkpoint → List (ℕ × Checkpoint) → Option (List (ℕ × Checkpoint))
count_vote t target m = do
  guard (not (target.parent == t))
  parent ← lookup target.parent m
  guard (not (parent.heaviest_child == t))
  guard (not (parent.heaviest_child == target.parent))
  heaviest ← lookup parent.heaviest_child m
  some (
      if overtakes target heaviest
      then insert target.parent (record parent { heaviest_child = t }) m
      else m)

-- The loop over the epochs. Outer `none`: the rounds given were not enough, or a pointer hangs.
unfoldable pub collapse : ℕ → ℕ → VoteInterval → List (ℕ × Checkpoint) → Buckets → Option Buckets
collapse zero previous current m buckets = none
collapse (suc rounds) previous current m buckets =
    let others = remove current.epoch buckets in
    let spin = collapse rounds previous current m buckets in
    let spin_removed = collapse rounds previous current m others in
    if ltb previous current.epoch
    then elim (lookup current.epoch buckets) [
      | none ↦ spin
      | some epoch_map ↦ elim (lookup current.hash epoch_map) [
        | none ↦ spin_removed
        | some pointer ↦ do
          checkpoint ← lookup pointer m
          parent ← lookup checkpoint.parent m
          collapse rounds (previous + 1) (record { epoch = current.epoch - 1; hash = parent.hash })
              m others
      ]
    ]
    else some buckets

-- `bucket.get_mut(&vote.target.hash)` in the bucket of the target's epoch.
abbrev pub find_target : VoteInterval → Consensus → Option ℕ
find_target v s = elim (lookup v.epoch s.checkpoint_buckets) [
  | none ↦ none
  | some bucket ↦ lookup v.hash bucket
]

module _ (checks : Bool) (rounds : ℕ) where
  abbrev voted : Vote → Consensus → Option ℕ → Option (Consensus × Option ℕ)
  voted vote s none = some (s, none)
  voted vote s (some t) = do
    old ← lookup t s.checkpoints
    weight ← add_word checks u64_mod old.weight 32
    let target : Checkpoint = record old { weight = weight }
    let m = insert t target s.checkpoints
    let justified = do
      buckets ← collapse rounds s.last_justified vote.target m s.checkpoint_buckets
      some (record s { checkpoints = m; checkpoint_buckets = buckets }, some vote.target.hash)
    let counted = do m' ← count_vote t target m; some (record s { checkpoints = m' }, none)
    if ltb weight s.super_majority then counted else justified

  -- The earlier vote of the voter is looked up, and nothing is done with it.
  unfoldable pub on_vote : ℕ → Vote → Consensus → Option (Consensus × Option ℕ)
  unfolding count_vote collapse
  on_vote voter vote s = voted vote s (find_target vote.target s)
