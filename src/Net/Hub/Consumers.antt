-- ===== src/Net/Hub/Consumers.antt =====
-- src/server.rs: what becomes of each thread's messages in a flush while the consumers pop.
use mathlib.Core.List.{append_assoc, append-nil, Perm, perm_append_singleton}
use mathlib.Core.List.Perm
use mathlib.Core.Option.{some-injective}
use mathlib.Core.Path.{subst}
use bullet_ledger.Base.{
  ℕ, zero, suc, ◌≡◌, refl, sym, ap, ◌∙◌, ◌==◌, false, Option, none, some, List, [], ◌∷◌, ◌++◌,
  arith, inl, inr, Bool-cases, Option-cases,
}
use bullet_ledger.Base.Assoc.{lookup, insert, lookup-insert}
use bullet_ledger.Net.Message.{NetMsg}
use bullet_ledger.Net.Hub.{Link, Hub, Flush, consume, refuse, flush_round, flush, internal_try_push}
use bullet_ledger.Net.Hub.Dispatch.{
  Links, Waiting, grown, flush_round-TryCases, flush_next, flush_stop,
}
use bullet_ledger.Net.Hub.Order.{only, line_of, line, only-append, line-unknown}

-- A consumer moves messages from one end of what it was sent to what it has.
consumed_parts :
    (n capacity : ℕ) (taken sent used : List NetMsg)
    → (consume n (record { capacity = capacity; taken = taken; sent = sent; used = used })).taken
        ++ (consume n
            (record { capacity = capacity; taken = taken; sent = sent; used = used })).sent
      ≡ taken ++ sent
unfolding consume
consumed_parts zero capacity taken sent used = refl
consumed_parts (suc n) capacity taken [] used = refl
consumed_parts (suc n) capacity taken (m ∷ sent) used =
    consumed_parts n capacity (taken ++ m ∷ []) sent used ∙ append_assoc taken (m ∷ []) sent

consume_lem : (n : ℕ) (l : Link) → (consume n l).taken ++ (consume n l).sent ≡ l.taken ++ l.sent
consume_lem n l = consumed_parts n l.capacity l.taken l.sent l.used

-- `k` is the link of `to` in place of `l`, with the messages `more` in it of those that waited.
line-insert :
    (t to : ℕ) (l k : Link) (more : List NetMsg) (ls : Links) (queue queue' : Waiting)
    → lookup to ls ≡ some l
    → k.taken ++ k.sent ≡ (l.taken ++ l.sent) ++ more
    → (to ≡ t → more ++ only t queue ≡ only t queue')
    → ((to == t) ≡ false → only t queue ≡ only t queue')
    → line t (insert to k ls) queue ≡ line t ls queue'
unfolding line line_of
line-insert t to l k more ls queue queue' e whole here apart = elim (Bool-cases (to == t)) [
  | inl same ↦
      let is : to ≡ t = ground (arith, same) in
      let found : lookup t ls ≡ some l = subst (λ u. lookup u ls ≡ some l) is e in
      rw (lookup-insert to t k ls, same, found)
        (sym (append_assoc k.taken k.sent (only t queue))
          ∙ ap (λ ms. ms ++ only t queue) whole
          ∙ append_assoc (l.taken ++ l.sent) more (only t queue)
          ∙ ap (λ ms. (l.taken ++ l.sent) ++ ms) (here is)
          ∙ append_assoc l.taken l.sent (only t queue'))
  | inr other ↦ rw (lookup-insert to t k ls, other) (ap (line_of (lookup t ls)) (apart other))
]

-- No thread's messages change, but for their order.
abbrev pub Steady : Flush → Flush → Type 0
Steady f g = (t : ℕ) → Perm (line t g.links g.queue) (line t f.links f.queue)

same-Perm : (xs ys : List NetMsg) → xs ≡ ys → Perm xs ys
same-Perm xs ys e = subst (λ ms. Perm xs ms) e (Perm.refl xs)

abbrev with_front : ℕ → NetMsg → Flush → Flush
with_front to m f = record f { queue = (to, m) ∷ f.queue }

line_of-Perm :
    (o : Option Link) (xs ys : List NetMsg) → Perm xs ys → Perm (line_of o xs) (line_of o ys)
unfolding line_of
line_of-Perm none xs ys p = Perm.refl []
line_of-Perm (some l) xs ys p = Perm.append_left l.taken (Perm.append_left l.sent p)

only-moved :
    (t to : ℕ) (m : NetMsg) (queue : Waiting)
    → Perm (only t (queue ++ (to, m) ∷ [])) (only t ((to, m) ∷ queue))
unfolding only
only-moved t to m queue = elim (Bool-cases (to == t)) [
  | inl same ↦
      rw (only-append t queue ((to, m) ∷ []), same) (perm_append_singleton m (only t queue))
  | inr apart ↦
      rw (only-append t queue ((to, m) ∷ []), apart, append-nil (only t queue))
        (Perm.refl (only t queue))
]

-- A message sent to the back of the queue.
line-moved :
    (t to : ℕ) (m : NetMsg) (ls : Links) (queue : Waiting)
    → Perm (line t ls (queue ++ (to, m) ∷ [])) (line t ls ((to, m) ∷ queue))
unfolding line
line-moved t to m ls queue = line_of-Perm (lookup t ls) _ _ (only-moved t to m queue)

refuse-Steady : (to : ℕ) (m : NetMsg) (f : Flush) → Steady (with_front to m f) (refuse to m f).1
unfolding refuse
refuse-Steady to m f t = elim (Option-cases f.start) [
  | inl fresh ↦ rw fresh (line-moved t to m f.links f.queue)
  | inr (first, begun) ↦ elim (Bool-cases (m.id == first)) [
    | inl again ↦ rw begun (rw again (Perm.refl _))
    | inr other ↦ rw begun (rw other (line-moved t to m f.links f.queue))
  ]
]

-- The links after the consumer's pops.
line-consumed :
    (t to n : ℕ) (l : Link) (ls : Links) (queue : Waiting)
    → lookup to ls ≡ some l
    → line t (insert to (consume n l) ls) queue ≡ line t ls queue
line-consumed t to n l ls queue e =
    line-insert t to l (consume n l) [] ls queue queue e
      (consume_lem n l ∙ sym (append-nil (l.taken ++ l.sent))) (λ same. refl) (λ other. refl)

line-taken :
    (t to n : ℕ) (l : Link) (m : NetMsg) (ls : Links) (queue : Waiting)
    → lookup to ls ≡ some l
    → line t (insert to (grown (consume n l) m) ls) queue ≡ line t ls ((to, m) ∷ queue)
unfolding only
line-taken t to n l m ls queue e =
    line-insert t to l (grown (consume n l) m) (m ∷ []) ls queue ((to, m) ∷ queue) e
      (sym (append_assoc (consume n l).taken (consume n l).sent (m ∷ []))
        ∙ ap (λ ms. ms ++ m ∷ []) (consume_lem n l))
      (λ same. ground (arith, same)) (λ other. ground (arith, other))

flush_round-Steady :
    (n to : ℕ) (m : NetMsg) (f : Flush) → Steady (with_front to m f) (flush_round n to m f).1
flush_round-Steady n to m f = elim (flush_round-TryCases n to m f) [
  | inl (e, h) ↦
      subst (λ r. Steady (with_front to m f) r.1) (sym h)
        (λ t. same-Perm _ _ (line-unknown t to m [] f.queue f.links e))
  | inr (l, e, inl (room, h)) ↦
      subst (λ r. Steady (with_front to m f) r.1) (sym h)
        (λ t. same-Perm _ _ (line-taken t to n l m f.links f.queue e))
  | inr (l, e, inr (full, h)) ↦
      subst (λ r. Steady (with_front to m f) r.1) (sym h)
        (λ t.
          Perm.trans (refuse-Steady to m (record f { links = insert to (consume n l) f.links }) t)
            (same-Perm _ _ (line-consumed t to n l f.links ((to, m) ∷ f.queue) e)))
]

flush-Steady :
    (pops : List ℕ) (st : Option ℕ) (queue : Waiting) (ls : Links) (ks : List NetMsg) (g : Flush)
    → flush pops (record { start = st; queue = queue; links = ls; kept = ks }) ≡ some g
    → Steady (record { start = st; queue = queue; links = ls; kept = ks }) g
unfolding flush
flush-Steady [] st queue ls ks g e = ground (arith, e)
flush-Steady (n ∷ pops) st [] ls ks g e =
    let f : Flush = record { start = st; queue = []; links = ls; kept = ks } in
    subst (Steady f) (some-injective f g e) (λ t. Perm.refl (line t ls []))
flush-Steady (n ∷ pops) st ((to, m) ∷ queue) ls ks g e =
    let f : Flush = record { start = st; queue = queue; links = ls; kept = ks } in
    let r = flush_round n to m f in
    let step = flush_round-Steady n to m f in
    elim (Bool-cases r.0) [
      | inl stops ↦
          let stopped = flush_stop n pops to m queue st ls ks r.1 (ap (λ b. (b, r.1)) stops) in
          subst (Steady (with_front to m f)) (some-injective r.1 g (sym stopped ∙ e)) step
      | inr goes ↦
          let going = flush_next n pops to m queue st ls ks r.1 (ap (λ b. (b, r.1)) goes) in
          let rest = flush-Steady pops r.1.start r.1.queue r.1.links r.1.kept g (sym going ∙ e) in
          λ t. Perm.trans (rest t) (step t)
    ]

-- Whatever the consumers pop while it runs, a flush that ends leaves the messages of each thread that has a link (what it
-- popped, what it was sent and what waits for it) as they were, but for their order: none is lost, and none sent twice.
pub flush-loses_nothing :
    (pops : List ℕ) (s s' : Hub)
    → internal_try_push pops s ≡ some s'
    → (t : ℕ)
    → Perm (line t s'.to_internals s'.internal_msgs) (line t s.to_internals s.internal_msgs)
unfolding internal_try_push
flush-loses_nothing pops s s' e =
    let f : Flush = record {
      start = none;
      queue = s.internal_msgs;
      links = s.to_internals;
      kept = s.net_msgs;
    } in
    elim (Option-cases (flush pops f)) [
      | inl spins ↦
          let lost : internal_try_push pops s ≡ none = rw (spins, internal_try_push) refl in
          ground (arith, lost, e)
      | inr (g, ends) ↦
          let result : Hub = record s {
            internal_msgs = g.queue;
            to_internals = g.links;
            net_msgs = g.kept;
          } in
          let ran : internal_try_push pops s ≡ some result = rw (ends, internal_try_push) refl in
          subst
            (λ x.
              (t : ℕ)
              → Perm (line t x.to_internals x.internal_msgs)
                  (line t s.to_internals s.internal_msgs))
            (some-injective result s' (sym ran ∙ e))
            (flush-Steady pops none s.internal_msgs s.to_internals s.net_msgs g ends)
    ]
