-- ===== src/Examples/Threads.antt =====
-- The channel, the peers, the node and the votes at concrete inputs.
use bullet_ledger.Base.{
  false, ◌*◌, ℕ, ◌+◌, ◌%◌, ◌<◌, ◌≤◌, ◌≡◌, ◌≢◌, refl, ltb, if◌then◌else◌, true, none, some, List, [],
  ◌∷◌, replicate, arith,
}
use bullet_ledger.Base.Assoc
use bullet_ledger.Pool
use bullet_ledger.Pool.{PriorityPool, with_capacity}
use bullet_ledger.Pool.Total.{IsValid}
use bullet_ledger.Spsc
use bullet_ledger.Spsc.{Op, pushes, pops, collects, recycles, refused, received, collected, run}
use bullet_ledger.Spsc.Refine.{fifos_run, run-new}
use bullet_ledger.Peers
use bullet_ledger.Peers.{
  PeerMan, NetError, unauthorized, malformed_prefix, ok, err, v4, is_banned, drop_peers, to_score,
}
use bullet_ledger.Peers.Scores.{record_all, total_score, record_all-is_banned}
use bullet_ledger.Peers.Saved.{new-drop_many}
use bullet_ledger.Trx.Secrets.{default_tag, zero_32}
use bullet_ledger.Trx.Ephemeral
use bullet_ledger.Trx.Ephemeral.{
  EphemeralTrx, verify_schnorrs, check_points, sender_after, receiver_after,
}
use bullet_ledger.Ledger.{db_put, check_rc}
use bullet_ledger.Base.Slices.{slice}
use bullet_ledger.Base.Words.{from_be_bytes}
use bullet_ledger.Trx.Pooled.{Trx, ephemeral, execute, get_value_id}
use bullet_ledger.Node.{Node}
use bullet_ledger.Node.Block.{execute_key, execute_keys}
use bullet_ledger.Node.Block.Executed.{execute_keys-IsValid}
use bullet_ledger.Pool.Heap.{queued}
use bullet_ledger.Consensus
use bullet_ledger.Consensus.{
  Checkpoint, Consensus, VoteInterval, Buckets, Vote, on_vote, count_vote, collapse,
}
use bullet_ledger.Consensus.Votes.{
  new-next_epoch, count_vote-heaviest, collapse_returns, on_vote_hangs,
}
use bullet_ledger.Examples.Instances.{bits, stamps, zeros, log}

-- More messages than the queue and the chute have room for.
abbrev calls : List (Op ℕ)
calls =
    pushes 1
    ∷ (pushes 2
        ∷ (pushes 3 ∷ (pops ∷ (recycles 1 ∷ (collects ∷ (collects ∷ (pops ∷ (pops ∷ []))))))))

run-new_example : run 0 (Spsc.new 2) calls ≡ some (fifos_run 0 2 ([], []) calls)
run-new_example = run-new 0 2 calls (omega arith)

abbrev crowd : PeerMan
crowd = record {
  file = record { bytes = []; cursor = 0 };
  peers = (16777343, 10) ∷ ((33554559, 0) ∷ []);
  threshold = 50;
}

record_all_example :
    (s' : PeerMan) × (record_all true
        (v4 16777343 80)
        (unauthorized ∷ (malformed_prefix ∷ []))
        crowd
      ≡ some s')
    × ((any_port : ℕ)
        → is_banned (v4 16777343 any_port) s' ≡ (
            if ltb (10 + total_score (unauthorized ∷ (malformed_prefix ∷ []))) 50
            then ok
            else err unauthorized))
    × ((jp : ℕ) → 16777343 ≢ jp → Assoc.lookup jp s'.peers ≡ Assoc.lookup jp crowd.peers)
unfolding Assoc.lookup to_score
record_all_example =
    record_all-is_banned true 16777343 80 10 (unauthorized ∷ (malformed_prefix ∷ [])) crowd refl
      (omega arith)

new-drop_example : Peers.new (drop_peers crowd).bytes 50 [] ≡ none
new-drop_example = new-drop_many crowd 50 [] (omega arith) (omega arith)

abbrev fresh_node : Node bits stamps log
fresh_node = record { pool = with_capacity 4 2; ledger = [] }

abbrev blank : EphemeralTrx bits
blank = Ephemeral.new bits zeros default_tag

new-next_epoch_example :
    (s : Consensus) × (Consensus.new true 100 30 ≡ some s)
    × (s.next_epoch % 30 ≡ 0)
    × (100 < s.next_epoch)
    × (s.next_epoch ≤ 100 + 30)
new-next_epoch_example = new-next_epoch true 100 30 (omega arith) (omega arith)

abbrev root : Checkpoint
root = record { hash = 7; weight = 0; parent = 0; heaviest_child = 1; children = 1 ∷ (2 ∷ []) }

abbrev left : Checkpoint
left = record { hash = 9; weight = 64; parent = 0; heaviest_child = 1; children = [] }

abbrev right : Checkpoint
right = record { hash = 8; weight = 64; parent = 0; heaviest_child = 2; children = [] }

abbrev tree : List (ℕ × Checkpoint)
tree = (0, root) ∷ ((1, left) ∷ ((2, right) ∷ []))

count_vote_example :
    (m' : List (ℕ × Checkpoint)) × (parent' chosen : Checkpoint) × (count_vote 2 right tree
      ≡ some m')
    × (Assoc.lookup 0 m' ≡ some parent')
    × (Assoc.lookup parent'.heaviest_child m' ≡ some chosen)
    × (64 ≤ chosen.weight)
    × (64 ≤ chosen.weight)
unfolding Assoc.lookup
count_vote_example =
    count_vote-heaviest 2 right root left tree refl refl refl (λ e. ground (arith, e))
      (λ e. ground (arith, e)) (λ e. ground (arith, e)) (λ e. ground (arith, e))

abbrev vote_target : VoteInterval
vote_target = record { epoch = 2; hash = 8 }

abbrev buckets : Buckets
buckets = (2, (8, 2) ∷ []) ∷ []

collapse_returns_example : (left : Buckets) × (collapse 2 0 vote_target tree buckets ≡ some left)
unfolding Assoc.lookup
collapse_returns_example =
    collapse_returns 1 0 vote_target tree buckets
      ((8, 2) ∷ [], 2, right, root, refl, refl, refl, refl, tt) (omega arith)

abbrev forks : Consensus
forks = record {
  next_epoch = 0;
  epoch_interval = 10;
  super_majority = 96;
  last_justified = 0;
  validators = [];
  checkpoint_buckets = (5, (8, 2) ∷ []) ∷ [];
  checkpoints = tree;
}

abbrev late_vote : Vote
late_vote = record {
  source = record { epoch = 0; hash = 7 };
  target = record { epoch = 5; hash = 8 };
}

on_vote_hangs_example : on_vote true 9 1 late_vote forks ≡ none
unfolding Assoc.lookup
on_vote_hangs_example =
    on_vote_hangs true 9 1 late_vote forks ((8, 2) ∷ []) 2 right root refl refl refl refl
      (λ e. ground (arith, e)) (omega arith) (omega arith) (omega arith) refl

-- A pool of one transaction, with key 0, and a body that names the key.
abbrev one_pool : PriorityPool (Trx bits stamps)
one_pool = record {
  map = (0, (ephemeral blank, 0)) ∷ [];
  heap = (0, 0) ∷ [];
  capacity = 4;
  values = [];
  values_capacity = 2;
  keys = [];
  keys_capacity = 4;
}

one_pool-IsValid : IsValid one_pool
unfolding Assoc.lookup queued
one_pool-IsValid = record {
  distinct = (refl, tt);
  covered = λ k h. ground (arith, h);
  sorted = (tt, tt);
}

abbrev emptied : PriorityPool (Trx bits stamps)
emptied = record one_pool { map = []; values = (99, ephemeral blank ∷ []) ∷ []; keys = 0 ∷ [] }

abbrev written : List (List ℕ × List ℕ)
written = (zero_32, zero_32) ∷ ((zero_32, zero_32) ∷ [])

block_executed :
    execute_keys bits stamps zeros log 1 128 (replicate 160 0) one_pool [] false
    ≡ some (emptied, written, false)
unfolding execute_keys execute_key execute slice from_be_bytes Pool.get Pool.remove_one
    Pool.recycle_key Pool.recycle_value Assoc.lookup Assoc.insert Assoc.remove Ephemeral.new
    sender_after receiver_after db_put check_rc get_value_id
block_executed = refl

execute_keys_example :
    IsValid emptied
    × ((j : ℕ) → Pool.get j one_pool ≡ none → Pool.get j emptied ≡ none)
    × ((i : ℕ) (k : List ℕ)
        → i < 1
        → slice (128 + 32 * i) 32 (replicate 160 0) ≡ some k
        → Pool.get (from_be_bytes k) emptied ≡ none)
execute_keys_example =
    execute_keys-IsValid bits stamps zeros log 1 128 (replicate 160 0) one_pool emptied [] written
      false false one_pool-IsValid block_executed
