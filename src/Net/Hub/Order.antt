-- ===== src/Net/Hub/Order.antt =====
-- src/server.rs: what becomes of each thread's messages in a flush during which no consumer pops.
use mathlib.Core.List.{append_assoc, append-nil}
use bullet_ledger.Base.{
  ℕ, zero, suc, ◌<◌, ◌≡◌, ◌≢◌, refl, sym, ap, ◌∙◌, ◌==◌, false, Option, none, some, List, [], ◌∷◌,
  ◌++◌, if◌then◌else◌, length, replicate, arith, inl, inr, Bool-cases,
}
use bullet_ledger.Base.Assoc.{lookup, insert, lookup-insert}
use bullet_ledger.Net.Message.{NetMsg}
use bullet_ledger.Net.Hub.{Link, Hub, Flush, flush, internal_try_push}
use bullet_ledger.Net.Hub.Dispatch.{Links, Waiting, grown, first_id, looping}
use bullet_ledger.Net.Hub.States.{
  AllFull, AllFull-append, insert-AllFull, flush-NextCases, held_stops,
}

-- The messages to the thread `t`, in order.
unfoldable pub only : ℕ → Waiting → List NetMsg
only t [] = []
only t ((to, m) ∷ queue) = let rest = only t queue in if to == t then m ∷ rest else rest

unfoldable pub line_of : Option Link → List NetMsg → List NetMsg
line_of none ms = []
line_of (some l) ms = l.taken ++ (l.sent ++ ms)

-- What the thread `t` has popped, after it what it has been sent, and then what waits for it; nothing when it has no link.
unfoldable pub line : ℕ → Links → Waiting → List NetMsg
unfolding line_of
line t ls queue = line_of (lookup t ls) (only t queue)

abbrev pub Absent : ℕ → Waiting → Type 0
Absent id [] = Unit {0}
Absent id ((to, m) ∷ queue) = (m.id ≢ id) × Absent id queue

abbrev pub DistinctIds : Waiting → Type 0
DistinctIds [] = Unit {0}
DistinctIds ((to, m) ∷ queue) = Absent m.id queue × DistinctIds queue

abbrev FirstAbsent : Waiting → Waiting → Type 0
FirstAbsent [] queue = Unit {0}
FirstAbsent ((to, m) ∷ held) queue = Absent m.id queue

FirstAbsent-tail :
    (held : Waiting) (e : ℕ × NetMsg) (queue : Waiting)
    → FirstAbsent held (e ∷ queue)
    → FirstAbsent held queue
FirstAbsent-tail [] e queue h = tt
FirstAbsent-tail (a ∷ held) e queue h = h.1

FirstAbsent-append :
    (held : Waiting) (to : ℕ) (m : NetMsg) (queue : Waiting)
    → FirstAbsent held queue
    → Absent m.id queue
    → FirstAbsent (held ++ (to, m) ∷ []) queue
FirstAbsent-append [] to m queue h a = a
FirstAbsent-append (x ∷ held) to m queue h a = h

first_id-FirstAbsent :
    (held : Waiting) (to : ℕ) (m : NetMsg) (queue : Waiting)
    → FirstAbsent held ((to, m) ∷ queue)
    → first_id held ≢ some m.id
unfolding first_id
first_id-FirstAbsent [] to m queue h e = ground (arith, e)
first_id-FirstAbsent ((u, x) ∷ held) to m queue h e = ground (arith, e, h)

pub only-append : (t : ℕ) (xs ys : Waiting) → only t (xs ++ ys) ≡ only t xs ++ only t ys
unfolding only
only-append t [] ys = refl
only-append t ((to, m) ∷ xs) ys = ground (arith, only-append t xs ys)

only-AllFull :
    (t : ℕ) (l : Link) (held : Waiting) (ls : Links)
    → lookup t ls ≡ some l
    → (length l.sent == l.capacity) ≡ false
    → AllFull held ls
    → only t held ≡ []
unfolding only
only-AllFull t l [] ls e room all = refl
only-AllFull t l ((to, m) ∷ held) ls e room ((k, h, full), all) = elim (Bool-cases (to == t)) [
  | inl same ↦ ground (arith, same, e, h, full, room)
  | inr apart ↦ rw apart (only-AllFull t l held ls e room all)
]

pub line-unknown :
    (t to : ℕ) (m : NetMsg) (held queue : Waiting) (ls : Links)
    → lookup to ls ≡ none
    → line t ls (held ++ queue) ≡ line t ls (held ++ (to, m) ∷ queue)
unfolding line line_of only
line-unknown t to m held queue ls e =
    rw (only-append t held queue, only-append t held ((to, m) ∷ queue))
      (elim (Bool-cases (to == t)) [
        | inl same ↦ ground (arith, same, e)
        | inr apart ↦ rw apart refl
      ])

line-room :
    (t to : ℕ) (l : Link) (m : NetMsg) (held queue : Waiting) (ls : Links)
    → lookup to ls ≡ some l
    → (length l.sent == l.capacity) ≡ false
    → AllFull held ls
    → line t (insert to (grown l m) ls) (held ++ queue) ≡ line t ls (held ++ (to, m) ∷ queue)
unfolding line line_of only
line-room t to l m held queue ls e room all =
    rw
      (
        only-append t held queue,
        only-append t held ((to, m) ∷ queue),
        lookup-insert to t (grown l m) ls,
      )
      (elim (Bool-cases (to == t)) [
        | inl same ↦
            let e' : lookup t ls ≡ some l = ground (arith, same, e) in
            rw (same, e', only-AllFull t l held ls e' room all)
              (ap (λ ms. l.taken ++ ms) (append_assoc l.sent (m ∷ []) (only t queue)))
        | inr apart ↦ rw apart refl
      ])

-- The outcome of a flush: each line as before, and what is left waits for full links.
abbrev pub Ordered : Flush → Links → Waiting → Type 0
Ordered g ls queue = ((t : ℕ) → line t g.links g.queue ≡ line t ls queue) × AllFull g.queue g.links

-- What a flush comes to, where `distinct` is what its order needs.
abbrev pub Outcome : Option Flush → Type 0 → Links → Waiting → Type 0
Outcome o distinct ls queue = (g : Flush) × (o ≡ some g) × (distinct → Ordered g ls queue)

abbrev Clear : Waiting → Waiting → Type 0
Clear held queue = FirstAbsent held queue × DistinctIds queue

-- From a round to the next one.
Outcome-next :
    (o o' : Option Flush) (P P' : Type 0) (ls ls' : Links) (queue queue' : Waiting)
    → o ≡ o'
    → (P → P')
    → ((t : ℕ) → line t ls' queue' ≡ line t ls queue)
    → Outcome o' P' ls' queue'
    → Outcome o P ls queue
Outcome-next o o' P P' ls ls' queue queue' h f same (g, e, good) =
    (g, h ∙ e, λ p. ((λ t. (good (f p)).0 t ∙ same t), (good (f p)).1))

pub flush_ends :
    (rounds : ℕ) (queue held : Waiting) (ls : Links) (ks : List NetMsg)
    → AllFull held ls
    → length queue < rounds
    → Outcome
        (flush (replicate rounds 0) (looping queue held ls ks))
        (Clear held queue)
        ls
        (held ++ queue)
flush_ends zero queue held ls ks all enough = elim enough [ ]
flush_ends (suc rounds) [] held ls ks all enough = (
  looping [] held ls ks,
  held_stops rounds held ls ks all,
  λ p. ((λ t. ap (line t ls) (sym (append-nil held))), all),
)
flush_ends (suc rounds) ((to, m) ∷ queue) held ls ks all enough =
    let fewer : length queue < rounds = omega arith in
    elim (flush-NextCases rounds to m queue held ls ks) [
      | inl (e, h) ↦
          Outcome-next _ _ _ _ ls ls _ _ h (λ p. (FirstAbsent-tail held (to, m) queue p.0, p.1.1))
            (λ t. line-unknown t to m held queue ls e)
            (flush_ends rounds queue held ls (m ∷ ks) all fewer)
      | inr (inl (l, e, room, h)) ↦
          Outcome-next _ _ _ _ ls (insert to (grown l m) ls) _ _ h
            (λ p. (FirstAbsent-tail held (to, m) queue p.0, p.1.1))
            (λ t. line-room t to l m held queue ls e room all)
            (flush_ends rounds queue held _ ks (insert-AllFull held to l m ls e room all) fewer)
      | inr (inr (full, inl h)) ↦
          Outcome-next _ _ _ _ ls ls _ _ h
            (λ p. (
              FirstAbsent-append held to m queue (FirstAbsent-tail held (to, m) queue p.0) p.1.0,
              p.1.1,
            ))
            (λ t. ap (line t ls) (append_assoc held ((to, m) ∷ []) queue))
            (flush_ends rounds queue _ ls ks (AllFull-append held to m ls all full) fewer)
      | inr (inr (full, inr (same, h))) ↦
          (_, h, λ p. elim (first_id-FirstAbsent held to m queue p.0 same) [ ])
    ]

try_push_ends :
    (rounds : ℕ) (s : Hub)
    → length s.internal_msgs < rounds
    → (g : Flush) × (internal_try_push (replicate rounds 0) s
        ≡ some (record s { internal_msgs = g.queue; to_internals = g.links; net_msgs = g.kept }))
      × (Clear [] s.internal_msgs → Ordered g s.to_internals s.internal_msgs)
unfolding internal_try_push first_id
try_push_ends rounds s enough =
    let (g, e, good) = flush_ends rounds s.internal_msgs [] s.to_internals s.net_msgs tt enough in
    (g, rw (sym (append-nil s.internal_msgs)) (rw e refl), good)

-- When the queued messages have distinct ids and no consumer pops a message while the flush runs, a flush with more rounds
-- than there are messages ends, leaves the line of each thread that has a link (what it popped, what it was sent, then what waits for it) as it was, and each message that still
-- waits is for a link that is full.
pub flush-keeps_order :
    (rounds : ℕ) (s : Hub)
    → length s.internal_msgs < rounds
    → DistinctIds s.internal_msgs
    → (s' : Hub) × (internal_try_push (replicate rounds 0) s ≡ some s')
      × ((t : ℕ) → line t s'.to_internals s'.internal_msgs ≡ line t s.to_internals s.internal_msgs)
      × AllFull s'.internal_msgs s'.to_internals
flush-keeps_order rounds s enough distinct =
    let (g, e, good) = try_push_ends rounds s enough in
    (_, e, (good (tt, distinct)).0, (good (tt, distinct)).1)
