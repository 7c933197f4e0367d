-- ===== src/Net/Hub/Spins.antt =====
-- src/server.rs: the rounds of a flush whose first refused message is sent meanwhile.
use bullet_ledger.Base.{
  ℕ, zero, suc, ◌<◌, ◌≡◌, ◌≢◌, refl, ◌∙◌, ◌==◌, false, Option, none, some, List, [], ◌∷◌, ◌++◌,
  length, replicate, arith, inl, inr,
}
use bullet_ledger.Base.Assoc.{lookup, insert, lookup-insert}
use bullet_ledger.Net.Message.{NetMsg}
use bullet_ledger.Net.Hub.{Link, Hub, Flush, consume, refuse, flush_round, flush, internal_try_push}
use bullet_ledger.Net.Hub.Dispatch.{
  Links, Waiting, IsFull, grown, flush_round-RoundCases, flush_round-TryCases, flush_next,
}

full_round :
    (to : ℕ) (m : NetMsg) (f : Flush) → IsFull to f.links → flush_round 0 to m f ≡ refuse to m f
full_round to m f (l, e, full) = elim (flush_round-RoundCases to m f) [
  | inl (e', h) ↦ ground (arith, e, e')
  | inr (inl (l', e', room, h)) ↦ ground (arith, e, e', full, room)
  | inr (inr (full', h)) ↦ h
]

-- The first message that is refused goes to the back, and its id is kept.
first_refused :
    (pops : List ℕ) (to : ℕ) (m : NetMsg) (queue : Waiting) (ls : Links) (ks : List NetMsg)
    → IsFull to ls
    → flush (0 ∷ pops) (record { start = none; queue = (to, m) ∷ queue; links = ls; kept = ks })
      ≡ flush pops
          (record { start = some m.id; queue = queue ++ (to, m) ∷ []; links = ls; kept = ks })
unfolding refuse
first_refused pops to m queue ls ks full =
    flush_next 0 pops to m queue none ls ks _ (full_round to m _ full)

-- A later one with another id goes to the back.
refused :
    (pops : List ℕ) (to first : ℕ) (m : NetMsg) (queue : Waiting) (ls : Links) (ks : List NetMsg)
    → IsFull to ls
    → m.id ≢ first
    → flush
        (0 ∷ pops)
        (record { start = some first; queue = (to, m) ∷ queue; links = ls; kept = ks })
      ≡ flush pops
          (record { start = some first; queue = queue ++ (to, m) ∷ []; links = ls; kept = ks })
unfolding refuse
refused pops to first m queue ls ks full other =
    let st : Flush = record { start = some first; queue = queue; links = ls; kept = ks } in
    let back : refuse to m st ≡ (false, record st { queue = queue ++ (to, m) ∷ [] }) =
      ground (arith, other) in
    flush_next 0 pops to m queue (some first) ls ks _ (full_round to m st full ∙ back)

-- One message for a full link, behind no message with the id that ends the loop.
spins :
    (n to first : ℕ) (m : NetMsg) (ls : Links) (ks : List NetMsg)
    → IsFull to ls
    → m.id ≢ first
    → flush
        (replicate n 0)
        (record { start = some first; queue = (to, m) ∷ []; links = ls; kept = ks })
      ≡ none
unfolding flush
spins zero to first m ls ks full other = refl
spins (suc n) to first m ls ks full other =
    refused (replicate n 0) to first m [] ls ks full other ∙ spins n to first m ls ks full other

popped_room :
    (capacity : ℕ) (taken sent used : List NetMsg)
    → length sent ≡ capacity
    → 0 < capacity
    → (length
          (consume 1 (record { capacity = capacity; taken = taken; sent = sent; used = used })).sent
        == (consume 1
            (record { capacity = capacity; taken = taken; sent = sent; used = used })).capacity)
      ≡ false
unfolding consume
popped_room capacity taken [] used full some_room = ground (arith, full, some_room)
popped_room capacity taken (m ∷ sent) used full some_room = ground (arith, full)

-- A message for a link that was full, and from which the consumer popped one.
accepted :
    (pops : List ℕ) (to : ℕ) (st : Option ℕ) (m : NetMsg) (queue : Waiting) (ls : Links)
    (ks : List NetMsg) (k : Link)
    → lookup to ls ≡ some k
    → length k.sent ≡ k.capacity
    → 0 < k.capacity
    → (x : Link) × (flush
          (1 ∷ pops)
          (record { start = st; queue = (to, m) ∷ queue; links = ls; kept = ks })
        ≡ flush pops (record { start = st; queue = queue; links = insert to x ls; kept = ks }))
accepted pops to st m queue ls ks k e full some_room =
    let f : Flush = record { start = st; queue = queue; links = ls; kept = ks } in
    let room = popped_room k.capacity k.taken k.sent k.used full some_room in
    elim (flush_round-TryCases 1 to m f) [
      | inl (e', h) ↦ ground (arith, e, e')
      | inr (l, e', inl (room', h)) ↦
          (grown (consume 1 l) m, flush_next 1 pops to m queue st ls ks _ h)
      | inr (l, e', inr (full', h)) ↦ ground (arith, e, e', full', room)
    ]

insert-IsFull : (a b : ℕ) (x : Link) (ls : Links) → a ≢ b → IsFull b ls → IsFull b (insert a x ls)
insert-IsFull a b x ls apart (l, e, full) =
    (l, lookup-insert a b x ls ∙ ground (arith, apart, e), full)

-- Two messages with different ids wait, each for a full link of its own. When the first thread pops one message after
-- both were refused, and the second one none, the flush does not end, however many rounds it runs.
pub flush-spins :
    (n a b : ℕ) (m1 m2 : NetMsg) (k : Link) (s : Hub)
    → s.internal_msgs ≡ (a, m1) ∷ ((b, m2) ∷ [])
    → a ≢ b
    → m2.id ≢ m1.id
    → lookup a s.to_internals ≡ some k
    → length k.sent ≡ k.capacity
    → 0 < k.capacity
    → IsFull b s.to_internals
    → internal_try_push (0 ∷ (0 ∷ (1 ∷ replicate n 0))) s ≡ none
unfolding internal_try_push
flush-spins n a b m1 m2 k s queued apart other e full some_room full_b =
    let ls = s.to_internals in
    let ks = s.net_msgs in
    let (x, third) =
      accepted (replicate n 0) a (some m1.id) m1 ((b, m2) ∷ []) ls ks k e full some_room in
    let ends =
      first_refused (0 ∷ (1 ∷ replicate n 0)) a m1 ((b, m2) ∷ []) ls ks (k, e, full)
      ∙ refused (1 ∷ replicate n 0) b m1.id m2 ((a, m1) ∷ []) ls ks full_b other
      ∙ third
      ∙ spins n b m1.id m2 (insert a x ls) ks (insert-IsFull a b x ls apart full_b) other in
    rw (queued, internal_try_push) (rw ends refl)
