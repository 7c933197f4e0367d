-- ===== src/Net/Hub/Dispatch.antt =====
-- src/server.rs: a flush of the queue, round by round.
use bullet_ledger.Base.{
  ℕ, ◌≡◌, refl, ap, ◌∙◌, ◌==◌, true, false, Option, none, some, List, [], ◌∷◌, ◌++◌, length, arith,
  ◌⊎◌, inl, inr, Option-cases, Bool-cases,
}
use bullet_ledger.Base.Assoc.{lookup, insert, insert_self}
use bullet_ledger.Spsc.Refine.{fifo_push}
use bullet_ledger.Net.Message.{NetMsg}
use bullet_ledger.Net.Hub.{Link, consume, try_push, Flush, refuse, pushed, flush_round, flush}

abbrev pub Links : Type 0
Links = List (ℕ × Link)

abbrev pub Waiting : Type 0
Waiting = List (ℕ × NetMsg)

-- The link of `t` takes no more messages.
abbrev pub IsFull : ℕ → Links → Type 0
IsFull t ls = (l : Link) × (lookup t ls ≡ some l) × (length l.sent ≡ l.capacity)

abbrev pub grown : Link → NetMsg → Link
grown l m = record l { sent = l.sent ++ m ∷ [] }

-- The id that ends the loop: of the first message that was sent to the back.
unfoldable pub first_id : Waiting → Option ℕ
first_id [] = none
first_id ((to, m) ∷ held) = some m.id

-- The loop with `queue` still to see, behind which stand the messages that were refused.
abbrev pub looping : Waiting → Waiting → Links → List NetMsg → Flush
looping queue held ls ks = record {
  start = first_id held;
  queue = queue ++ held;
  links = ls;
  kept = ks;
}

try_push-full :
    (m : NetMsg) (l : Link) → (length l.sent == l.capacity) ≡ true → try_push m l ≡ (l, some m)
unfolding try_push fifo_push
try_push-full m l full = rw full refl

try_push-room :
    (m : NetMsg) (l : Link)
    → (length l.sent == l.capacity) ≡ false
    → try_push m l ≡ (grown l m, none)
unfolding try_push fifo_push
try_push-room m l room = rw room refl

-- What a round does: an unknown link, or one that takes the message, or one that is full, after the consumer's pops.
abbrev pub TryCases : ℕ → ℕ → NetMsg → Flush → Type 0
TryCases n to m f =
    ((lookup to f.links ≡ none) × (flush_round n to m f ≡ (false, record f { kept = m ∷ f.kept })))
    ⊎ ((l : Link) × (lookup to f.links ≡ some l)
        × ((((length (consume n l).sent == (consume n l).capacity) ≡ false)
              × (flush_round n to m f
                  ≡ (false, record f { links = insert to (grown (consume n l) m) f.links })))
            ⊎ (((length (consume n l).sent == (consume n l).capacity) ≡ true)
                × (flush_round n to m f
                    ≡ refuse to m (record f { links = insert to (consume n l) f.links })))))

pub flush_round-TryCases : (n to : ℕ) (m : NetMsg) (f : Flush) → TryCases n to m f
unfolding flush_round pushed
flush_round-TryCases n to m f = elim (Option-cases (lookup to f.links)) [
  | inl unknown ↦ inl (unknown, rw (unknown, flush_round) refl)
  | inr (l, e) ↦
      let k = consume n l in
      elim (Bool-cases (length k.sent == k.capacity)) [
        | inl full ↦
            inr (l, e, inr (full, rw (e, flush_round) (ap (pushed to f) (try_push-full m k full))))
        | inr room ↦
            inr (l, e, inl (room, rw (e, flush_round) (ap (pushed to f) (try_push-room m k room))))
      ]
]

-- The same where the consumer popped nothing.
abbrev pub RoundCases : ℕ → NetMsg → Flush → Type 0
RoundCases to m f =
    ((lookup to f.links ≡ none) × (flush_round 0 to m f ≡ (false, record f { kept = m ∷ f.kept })))
    ⊎ (((l : Link) × (lookup to f.links ≡ some l)
          × ((length l.sent == l.capacity) ≡ false)
          × (flush_round 0 to m f ≡ (false, record f { links = insert to (grown l m) f.links })))
        ⊎ (IsFull to f.links × (flush_round 0 to m f ≡ refuse to m f)))

pub flush_round-RoundCases : (to : ℕ) (m : NetMsg) (f : Flush) → RoundCases to m f
unfolding consume
flush_round-RoundCases to m f = elim (flush_round-TryCases 0 to m f) [
  | inl unknown ↦ inl unknown
  | inr (l, e, inl (room, h)) ↦ inr (inl (l, e, room, h))
  | inr (l, e, inr (full, h)) ↦ inr (
      inr (
        (l, e, ground (arith, full)),
        h ∙ ap (λ ls. refuse to m (record f { links = ls })) (insert_self to l f.links e),
      ))
]

pub flush_next :
    (n : ℕ) (pops : List ℕ) (to : ℕ) (m : NetMsg) (rest : Waiting) (st : Option ℕ) (ls : Links)
    (ks : List NetMsg) (g : Flush)
    → flush_round n to m (record { start = st; queue = rest; links = ls; kept = ks }) ≡ (false, g)
    → flush (n ∷ pops) (record { start = st; queue = (to, m) ∷ rest; links = ls; kept = ks })
      ≡ flush pops g
unfolding flush
flush_next n pops to m rest st ls ks g =
    ap (λ r. elim r.0 [ true ↦ some r.1 | false ↦ flush pops r.1 ])

pub flush_stop :
    (n : ℕ) (pops : List ℕ) (to : ℕ) (m : NetMsg) (rest : Waiting) (st : Option ℕ) (ls : Links)
    (ks : List NetMsg) (g : Flush)
    → flush_round n to m (record { start = st; queue = rest; links = ls; kept = ks }) ≡ (true, g)
    → flush (n ∷ pops) (record { start = st; queue = (to, m) ∷ rest; links = ls; kept = ks })
      ≡ some g
unfolding flush
flush_stop n pops to m rest st ls ks g =
    ap (λ r. elim r.0 [ true ↦ some r.1 | false ↦ flush pops r.1 ])
