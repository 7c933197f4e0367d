-- ===== src/Consensus/Votes.antt =====
-- When epochs begin, which child a vote makes the heaviest, and when a justified vote returns.
use bullet_ledger.Base.{
  Bool, ℕ, zero, suc, ◌+◌, ◌-◌, ◌*◌, ◌/◌, ◌%◌, ◌^◌, ◌<◌, ◌≤◌, ◌==◌, ◌≡◌, ◌≢◌, refl, ◌∙◌, true,
  false, none, some, List, [], ltb, arith, inl, inr, Bool-cases, lt→ltb, le→not-ltb,
}
use native.Mathlib.Nat.{mul-mod_left, mod-lt, mod-eq-sub-div-mul, div-mul-le_self, div-le_self}
use bullet_ledger.Base.Words.{u64_mod, add_word-lt, mul_word-lt}
use bullet_ledger.Base.Assoc.{lookup-remove, lookup, insert, remove, lookup-insert}
use bullet_ledger.Consensus.{
  on_vote, Vote, find_target, VoteInterval, Checkpoint, Buckets, Consensus, system_time, new,
  overtakes, count_vote, collapse,
}

next_multiple :
    (now interval : ℕ) → (now / interval + 1) * interval ≡ now / interval * interval + interval
next_multiple now interval = omega arith

-- When the interval is above 0 and the clock and the interval come to less than 2^63 seconds, `new` does not panic, in a
-- build with overflow checks or without, and sets the next epoch at the first multiple of the interval after the clock.
pub new-next_epoch :
    (checks : Bool) (now interval : ℕ)
    → 0 < interval
    → now + interval < 2 ^ 63
    → (s : Consensus) × (new checks now interval ≡ some s)
      × (s.next_epoch % interval ≡ 0)
      × (now < s.next_epoch)
      × (s.next_epoch ≤ now + interval)
unfolding new system_time
new-next_epoch checks now interval h bounded =
    let below : now / interval * interval ≤ now = div-mul-le_self now interval in
    let product : (now / interval + 1) * interval ≤ now + interval =
      omega (arith, next_multiple now interval, below) in
    let quotient : now / interval ≤ now = div-le_self now interval in
    (
      record {
        next_epoch = (now / interval + 1) * interval;
        epoch_interval = interval;
        super_majority = 1000000;
        last_justified = 0;
        validators = [];
        checkpoint_buckets = [];
        checkpoints = [];
      },
      rw
          (
            add_word-lt checks u64_mod (now / interval) 1 (omega (arith, quotient, bounded)),
            mul_word-lt checks u64_mod (now / interval + 1) interval
                (omega (arith, product, bounded)),
          )
          (ground (arith, h, product, bounded)),
      mul-mod_left (now / interval + 1) interval,
      omega (arith, next_multiple now interval, mod-eq-sub-div-mul now interval, mod-lt now h),
      product,
    )

differ : (a b : ℕ) → a ≢ b → (a == b) ≡ false
differ a b ne = ground (arith, ne)

over_weight :
    (target heaviest : Checkpoint)
    → overtakes target heaviest ≡ true
    → heaviest.weight ≤ target.weight
unfolding overtakes
over_weight target heaviest e = ground (arith, e)

stays_weight :
    (target heaviest : Checkpoint)
    → target.hash ≢ heaviest.hash
    → overtakes target heaviest ≡ false
    → target.weight ≤ heaviest.weight
unfolding overtakes
stays_weight target heaviest ne e = ground (arith, ne, e)

-- With a target whose parent and heaviest child are other checkpoints, the child that the parent has
-- after the count is at least as heavy as the target and as the old heaviest child.
pub count_vote-heaviest :
    (t : ℕ) (target parent heaviest : Checkpoint) (m : List (ℕ × Checkpoint))
    → lookup t m ≡ some target
    → lookup target.parent m ≡ some parent
    → lookup parent.heaviest_child m ≡ some heaviest
    → target.parent ≢ t
    → parent.heaviest_child ≢ t
    → parent.heaviest_child ≢ target.parent
    → target.hash ≢ heaviest.hash
    → (m' : List (ℕ × Checkpoint)) × (parent' chosen : Checkpoint) × (count_vote t target m
        ≡ some m')
      × (lookup target.parent m' ≡ some parent')
      × (lookup parent'.heaviest_child m' ≡ some chosen)
      × (target.weight ≤ chosen.weight)
      × (heaviest.weight ≤ chosen.weight)
unfolding count_vote
count_vote-heaviest t target parent heaviest m et ep eh ne1 ne2 ne3 ne4 =
    elim (Bool-cases (overtakes target heaviest)) [
      | inl over ↦ (
        insert target.parent (record parent { heaviest_child = t }) m,
        record parent { heaviest_child = t },
        target,
        rw (differ target.parent t ne1) (
            rw ep (
              rw (differ parent.heaviest_child t ne2)
                (rw (differ parent.heaviest_child target.parent ne3) (rw eh (rw over refl))))),
        lookup-insert target.parent target.parent (record parent { heaviest_child = t }) m
            ∙ ground arith,
        lookup-insert target.parent t (record parent { heaviest_child = t }) m
            ∙ rw (differ target.parent t ne1) et,
        omega arith,
        over_weight target heaviest over,
      )
      | inr stays ↦ (
        m,
        parent,
        heaviest,
        rw (differ target.parent t ne1) (
            rw ep (
              rw (differ parent.heaviest_child t ne2)
                (rw (differ parent.heaviest_child target.parent ne3) (rw eh (rw stays refl))))),
        ep,
        eh,
        stays_weight target heaviest ne4 stays,
        omega arith,
      )
    ]

-- Whatever the number of rounds, the loop does not end at an epoch after the last justified one whose
-- bucket is missing.
collapse_spins :
    (rounds previous : ℕ) (current : VoteInterval) (m : List (ℕ × Checkpoint)) (buckets : Buckets)
    → previous < current.epoch
    → lookup current.epoch buckets ≡ none
    → collapse rounds previous current m buckets ≡ none
unfolding collapse
collapse_spins zero previous current m buckets h e = refl
collapse_spins (suc rounds) previous current m buckets h e =
    rw (lt→ltb previous current.epoch h)
      (rw e (collapse_spins rounds previous current m buckets h e))

-- `n` epochs down from an interval, each with a bucket that has the checkpoint of its hash.
abbrev pub Chain : List (ℕ × Checkpoint) → ℕ → VoteInterval → Buckets → Type 0
Chain m zero current buckets = Unit {0}
Chain m (suc n) current buckets =
    (bucket : List (ℕ × ℕ)) × (pointer : ℕ) × (checkpoint parent : Checkpoint) × (lookup
        current.epoch buckets
      ≡ some bucket)
    × (lookup current.hash bucket ≡ some pointer)
    × (lookup pointer m ≡ some checkpoint)
    × (lookup checkpoint.parent m ≡ some parent)
    × Chain m n (record { epoch = current.epoch - 1; hash = parent.hash })
        (remove current.epoch buckets)

-- The loop ends with `n + 1` rounds when the buckets hold the chain of `n` checkpoints from its
-- interval down, and `2 * n` is at least the number of epochs since the last justified one.
pub collapse_returns :
    (n previous : ℕ) (current : VoteInterval) (m : List (ℕ × Checkpoint)) (buckets : Buckets)
    → Chain m n current buckets
    → current.epoch ≤ previous + 2 * n
    → (left : Buckets) × (collapse (suc n) previous current m buckets ≡ some left)
unfolding collapse
collapse_returns zero previous current m buckets chain h =
    (buckets, rw (le→not-ltb previous current.epoch (omega arith)) refl)
collapse_returns (suc n) previous current m buckets
      (bucket, pointer, checkpoint, parent, e1, e2, e3, e4, chain) h =
    elim (Bool-cases (ltb previous current.epoch)) [
      | inl more ↦
          let (left, ran) =
            collapse_returns n (previous + 1)
              (record { epoch = current.epoch - 1; hash = parent.hash }) m
              (remove current.epoch buckets) chain (omega arith) in
          (left, rw more (rw e1 (rw e2 (rw e3 (rw e4 ran)))))
      | inr done ↦ (buckets, rw done refl)
    ]

-- The loop whose first round leads to a missing bucket.
collapse_hangs :
    (n previous : ℕ) (current : VoteInterval) (m : List (ℕ × Checkpoint)) (buckets : Buckets)
    (bucket : List (ℕ × ℕ)) (pointer : ℕ) (checkpoint parent : Checkpoint)
    → lookup current.epoch buckets ≡ some bucket
    → lookup current.hash bucket ≡ some pointer
    → lookup pointer m ≡ some checkpoint
    → lookup checkpoint.parent m ≡ some parent
    → previous + 1 < current.epoch - 1
    → lookup (current.epoch - 1) buckets ≡ none
    → collapse n previous current m buckets ≡ none
unfolding collapse
collapse_hangs zero previous current m buckets bucket pointer checkpoint parent e1 e2 e3 e4 far
      missing =
    refl
collapse_hangs (suc n) previous current m buckets bucket pointer checkpoint parent e1 e2 e3 e4 far
      missing =
    let below : VoteInterval = record { epoch = current.epoch - 1; hash = parent.hash } in
    let gone : lookup (current.epoch - 1) (remove current.epoch buckets) ≡ none =
      lookup-remove current.epoch (current.epoch - 1) buckets ∙ ground (arith, missing) in
    rw (lt→ltb previous current.epoch (omega arith)) (
      rw e1 (
        rw e2 (
          rw e3 (
            rw e4
              (collapse_spins n (previous + 1) below m (remove current.epoch buckets) far gone)))))

-- A vote that gives its target, at epoch `e`, a super majority. If the bucket of epoch `e - 1` is
-- missing, and `e - 1` is more than one after the last justified epoch, `on_vote` does not return,
-- whatever the number of rounds.
pub on_vote_hangs :
    (checks : Bool) (rounds voter : ℕ) (vote : Vote) (s : Consensus) (bucket : List (ℕ × ℕ)) (t : ℕ)
    (old parent : Checkpoint)
    → lookup vote.target.epoch s.checkpoint_buckets ≡ some bucket
    → lookup vote.target.hash bucket ≡ some t
    → lookup t s.checkpoints ≡ some old
    → lookup old.parent s.checkpoints ≡ some parent
    → old.parent ≢ t
    → old.weight + 32 < u64_mod
    → s.super_majority ≤ old.weight + 32
    → s.last_justified + 1 < vote.target.epoch - 1
    → lookup (vote.target.epoch - 1) s.checkpoint_buckets ≡ none
    → on_vote checks rounds voter vote s ≡ none
unfolding on_vote
on_vote_hangs checks rounds voter vote s bucket t old parent e1 e2 e3 e4 apart fits major far
      missing =
    rw (found, on_vote)
      (rw e3 (
        rw (add_word-lt checks u64_mod old.weight 32 fits) (
          rw (le→not-ltb (old.weight + 32) s.super_majority major) (
            rw
              (collapse_hangs rounds s.last_justified vote.target m s.checkpoint_buckets bucket t
                target parent e1 e2 at_target at_parent far missing)
              refl))))
  where
    target : Checkpoint
    target = record old { weight = old.weight + 32 }

    m : List (ℕ × Checkpoint)
    m = insert t target s.checkpoints

    found : find_target vote.target s ≡ some t
    found = rw (e1, find_target) e2

    at_target : lookup t m ≡ some target
    at_target = lookup-insert t t target s.checkpoints ∙ ground arith

    at_parent : lookup old.parent m ≡ some parent
    at_parent = lookup-insert t old.parent target s.checkpoints ∙ ground (arith, apart, e4)
