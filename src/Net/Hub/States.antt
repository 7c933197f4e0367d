-- ===== src/Net/Hub/States.antt =====
-- src/server.rs: the states of a flush during which no consumer pops.
use mathlib.Core.List.{append_assoc}
use bullet_ledger.Base.{
  ℕ, ◌≡◌, refl, ap, ◌∙◌, ◌==◌, true, false, none, some, List, [], ◌∷◌, ◌++◌, length, replicate,
  arith, ◌⊎◌, inl, inr, Bool-cases,
}
use bullet_ledger.Base.Assoc.{lookup, insert, lookup-insert}
use bullet_ledger.Net.Message.{NetMsg}
use bullet_ledger.Net.Hub.{Link, Flush, refuse, flush_round, flush}
use bullet_ledger.Net.Hub.Dispatch.{
  Links, Waiting, IsFull, grown, first_id, looping, flush_round-RoundCases, flush_next, flush_stop,
}

abbrev pub AllFull : Waiting → Links → Type 0
AllFull [] ls = Unit {0}
AllFull ((to, m) ∷ held) ls = IsFull to ls × AllFull held ls

pub AllFull-append :
    (held : Waiting) (to : ℕ) (m : NetMsg) (ls : Links)
    → AllFull held ls
    → IsFull to ls
    → AllFull (held ++ (to, m) ∷ []) ls
AllFull-append [] to m ls all full = (full, tt)
AllFull-append ((u, x) ∷ held) to m ls (h, all) full = (h, AllFull-append held to m ls all full)

-- A link that is full stays so when another one takes a message.
insert-IsFull :
    (t to : ℕ) (l : Link) (m : NetMsg) (ls : Links)
    → lookup to ls ≡ some l
    → (length l.sent == l.capacity) ≡ false
    → IsFull t ls
    → IsFull t (insert to (grown l m) ls)
insert-IsFull t to l m ls e room (k, h, full) = elim (Bool-cases (to == t)) [
  | inl same ↦ grind (arith, same, e, h, full, room)
  | inr apart ↦ (k, lookup-insert to t (grown l m) ls ∙ rw apart h, full)
]

pub insert-AllFull :
    (held : Waiting) (to : ℕ) (l : Link) (m : NetMsg) (ls : Links)
    → lookup to ls ≡ some l
    → (length l.sent == l.capacity) ≡ false
    → AllFull held ls
    → AllFull held (insert to (grown l m) ls)
insert-AllFull [] to l m ls e room all = tt
insert-AllFull ((t, x) ∷ held) to l m ls e room (full, all) =
    (insert-IsFull t to l m ls e room full, insert-AllFull held to l m ls e room all)

-- The next state of the loop, on the first message of its queue.
abbrev pub NextCases : ℕ → ℕ → NetMsg → Waiting → Waiting → Links → List NetMsg → Type 0
NextCases rounds to m queue held ls ks =
    let before = flush (0 ∷ replicate rounds 0) (looping ((to, m) ∷ queue) held ls ks) in
    ((lookup to ls ≡ none) × (before ≡ flush (replicate rounds 0) (looping queue held ls (m ∷ ks))))
    ⊎ (((l : Link) × (lookup to ls ≡ some l)
          × ((length l.sent == l.capacity) ≡ false)
          × (before
              ≡ flush (replicate rounds 0) (looping queue held (insert to (grown l m) ls) ks)))
        ⊎ (IsFull to ls
            × ((before ≡ flush (replicate rounds 0) (looping queue (held ++ (to, m) ∷ []) ls ks))
                ⊎ ((first_id held ≡ some m.id)
                    × (before
                        ≡ some (record {
                          start = first_id held;
                          queue = ((to, m) ∷ queue) ++ held;
                          links = ls;
                          kept = ks;
                        }))))))

refuse_cases :
    (to : ℕ) (m : NetMsg) (queue held : Waiting) (ls : Links) (ks : List NetMsg)
    → (refuse to m (looping queue held ls ks) ≡ (false, looping queue (held ++ (to, m) ∷ []) ls ks))
      ⊎ ((first_id held ≡ some m.id)
          × (refuse to m (looping queue held ls ks) ≡ (
            true,
            record {
              start = first_id held;
              queue = ((to, m) ∷ queue) ++ held;
              links = ls;
              kept = ks;
            },
          )))
unfolding refuse first_id
refuse_cases to m queue [] ls ks = inl (
    ap (λ q. (false, record { start = some m.id; queue = q; links = ls; kept = ks }))
      (append_assoc queue [] ((to, m) ∷ [])))
refuse_cases to m queue ((u, x) ∷ held) ls ks = elim (Bool-cases (m.id == x.id)) [
  | inl same ↦ inr (ap some (ground (arith, same)), rw same refl)
  | inr apart ↦ inl (
      rw apart (
        ap (λ q. (false, record { start = some x.id; queue = q; links = ls; kept = ks }))
          (append_assoc queue ((u, x) ∷ held) ((to, m) ∷ []))))
]

pub flush-NextCases :
    (rounds to : ℕ) (m : NetMsg) (queue held : Waiting) (ls : Links) (ks : List NetMsg)
    → NextCases rounds to m queue held ls ks
flush-NextCases rounds to m queue held ls ks =
    elim (flush_round-RoundCases to m (looping queue held ls ks)) [
      | inl (e, h) ↦ inl (e, next _ h)
      | inr (inl (l, e, room, h)) ↦ inr (inl (l, e, room, next _ h))
      | inr (inr (full, h)) ↦ inr (
          inr (
            full,
            elim (refuse_cases to m queue held ls ks) [
              | inl h' ↦ inl (next _ (h ∙ h'))
              | inr (same, h') ↦ inr (
                same,
                flush_stop 0 (replicate rounds 0) to m (queue ++ held) (first_id held) ls ks _
                    (h ∙ h'),
              )
            ],
          ))
    ]
  where
    next :
        (g : Flush)
        → flush_round 0 to m (looping queue held ls ks) ≡ (false, g)
        → flush (0 ∷ replicate rounds 0) (looping ((to, m) ∷ queue) held ls ks)
          ≡ flush (replicate rounds 0) g
    next g h = flush_next 0 (replicate rounds 0) to m (queue ++ held) (first_id held) ls ks g h

refuse-same :
    (to : ℕ) (m : NetMsg) (queue : Waiting) (ls : Links) (ks : List NetMsg)
    → refuse to m (record { start = some m.id; queue = queue; links = ls; kept = ks })
      ≡ (true, record { start = some m.id; queue = (to, m) ∷ queue; links = ls; kept = ks })
unfolding refuse
refuse-same to m queue ls ks = ground arith

-- When all that is left waits for full links, the loop stops at the first message that it refused.
pub held_stops :
    (rounds : ℕ) (held : Waiting) (ls : Links) (ks : List NetMsg)
    → AllFull held ls
    → flush (0 ∷ replicate rounds 0) (looping [] held ls ks) ≡ some (looping [] held ls ks)
unfolding flush first_id
held_stops rounds [] ls ks all = refl
held_stops rounds ((to, m) ∷ held) ls ks ((l, e, full), all) =
    let st : Flush = record { start = some m.id; queue = held; links = ls; kept = ks } in
    elim (flush_round-RoundCases to m st) [
      | inl (e', h) ↦ ground (arith, e, e')
      | inr (inl (l', e', room, h)) ↦ ground (arith, e, e', full, room)
      | inr (inr (full', h)) ↦
          flush_stop 0 (replicate rounds 0) to m held (some m.id) ls ks _
            (h ∙ refuse-same to m held ls ks)
    ]
