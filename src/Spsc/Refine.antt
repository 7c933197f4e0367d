-- ===== src/Spsc/Refine.antt =====
-- The rings of a channel behave as two bounded queues.
use mathlib.Core.Path.{subst}
use bullet_ledger.Base.{
  ℕ, suc, ◌+◌, ◌/◌, ◌%◌, ◌≤◌, ◌<◌, ◌==◌, ◌≡◌, refl, sym, ap, ◌∙◌, false, Option, none, some, List,
  [], ◌∷◌, ◌++◌, if◌then◌else◌, length, get_or, set, length-set, length-replicate, length-append,
  drop, arith, Bool-cases, inl, inr, lt→ltb, guard,
}
use native.Mathlib.Nat.{mod-lt}
use bullet_ledger.Base.Words.{u64_mod}
use bullet_ledger.Spsc.{
  SpscQueue, new_queue, wrapping_sub, wrapping_inc, slot, pop, push, Channel, new, try_push,
  collect, pop_message, recycle, Op, pushes, pops, collects, recycles, Reply, refused, received,
  collected, step, run,
}
use bullet_ledger.Spsc.Bounds.{window, window-set_end, window-set_start}

gap : (h n : ℕ) → h + n < u64_mod → wrapping_sub (h + n) h ≡ n
gap h n fits = omega arith

module _ {A : Type 0} where
  abbrev pub somes : List A → List (Option A)
  somes [] = []
  somes (a ∷ xs) = some a ∷ somes xs

  somes_append : (xs : List A) (a : A) → somes (xs ++ (a ∷ [])) ≡ somes xs ++ (some a ∷ [])
  somes_append [] a = refl
  somes_append (b ∷ xs) a = ap (◌∷◌ (some b)) (somes_append xs a)

  -- A queue of at most `cap` values, the oldest first.
  unfoldable pub fifo_push : ℕ → List A → A → List A × Option A
  fifo_push cap xs a = if length xs == cap then (xs, some a) else (xs ++ (a ∷ []), none)

  unfoldable pub fifo_pop : List A → List A × Option A
  fifo_pop [] = ([], none)
  fifo_pop (a ∷ xs) = (xs, some a)

  -- The ring `q` holds `xs`, and `n` more calls do not wrap its counters.
  abbrev pub Holds : ℕ → SpscQueue A → List A → ℕ → Type 0
  Holds cap q xs n =
      (q.capacity ≡ cap)
      × (length q.buffer ≡ cap)
      × (q.tail ≡ q.head + length xs)
      × (length xs ≤ cap)
      × (q.tail + n < u64_mod)
      × (window cap q.buffer q.head (length xs) ≡ somes xs)

  slot-some :
      (q : SpscQueue A) (cap n : ℕ)
      → q.capacity ≡ cap
      → length q.buffer ≡ cap
      → 0 < cap
      → slot q n ≡ some (n % cap)
  unfolding slot
  slot-some q cap n ec eb h =
      rw (ec, eb, guard, lt→ltb (n % cap) cap (mod-lt n h)) ground (arith, mod-lt n h)

  push_free :
      (q : SpscQueue A) (a : A) (i : ℕ)
      → (wrapping_sub q.tail q.head == q.capacity) ≡ false
      → slot q q.tail ≡ some i
      → push q a
        ≡ some (record q { buffer = set q.buffer i (some a); tail = wrapping_inc q.tail }, none)
  unfolding push
  push_free q a i free at = rw free (rw at refl)

  pop_ready :
      (q : SpscQueue A) (i : ℕ)
      → (q.head == q.tail) ≡ false
      → slot q q.head ≡ some i
      → pop q
        ≡ some (
          record q { buffer = set q.buffer i none; head = wrapping_inc q.head },
          get_or q.buffer i none,
        )
  unfolding pop
  pop_ready q i ready at = rw ready (rw at refl)

  push-Holds :
      (cap : ℕ) (q : SpscQueue A) (xs : List A) (a : A) (n : ℕ)
      → Holds cap q xs (suc n)
      → (q' : SpscQueue A) × (push q a ≡ some (q', (fifo_push cap xs a).1))
        × Holds cap q' (fifo_push cap xs a).0 n
  unfolding fifo_push push
  push-Holds cap q xs a n (ec, eb, et, room, fits, holds) =
      let same : (wrapping_sub q.tail q.head == q.capacity) ≡ (length xs == cap) =
        rw (ec, et, gap q.head (length xs) (omega arith)) refl in
      elim (Bool-cases (length xs == cap)) [
        | inl full ↦ rw full (q, rw (same ∙ full) refl, (ec, eb, et, room, omega arith, holds))
        | inr free ↦
            let lt : length xs < cap = ground (arith, free, room) in
            let wins =
              window-set_end cap q.buffer q.head (length xs) (q.tail % cap) (some a) (omega arith)
                lt (ap (λ t. t % cap) et) in
            let longer = length-append xs (a ∷ []) in
            let grown : length (xs ++ (a ∷ [])) ≡ suc (length xs) = omega (arith, longer) in
            let at = slot-some q cap q.tail ec eb (omega arith) in
            rw free (
              record q {
                buffer = set q.buffer (q.tail % cap) (some a);
                tail = wrapping_inc q.tail;
              },
              push_free q a (q.tail % cap) (same ∙ free) at,
              (
                ec,
                length-set q.buffer (q.tail % cap) (some a) ∙ eb,
                omega (arith, longer),
                omega (arith, longer),
                omega arith,
                ap (window cap (set q.buffer (q.tail % cap) (some a)) q.head) grown
                    ∙ wins
                    ∙ ap (λ w. w ++ (some a ∷ [])) holds
                    ∙ sym (somes_append xs a),
              ),
            )
      ]

  pop-Holds :
      (cap : ℕ) (q : SpscQueue A) (xs : List A) (n : ℕ)
      → Holds cap q xs (suc n)
      → (q' : SpscQueue A) × (pop q ≡ some (q', (fifo_pop xs).1)) × Holds cap q' (fifo_pop xs).0 n
  unfolding fifo_pop pop window
  pop-Holds cap q [] n (ec, eb, et, room, fits, holds) =
      (q, ground (arith, et), (ec, eb, et, room, omega arith, holds))
  pop-Holds cap q (a ∷ xs) n (ec, eb, et, room, fits, holds) =
      let at = slot-some q cap q.head ec eb (omega arith) in
      let ready : (q.head == q.tail) ≡ false = ground (arith, et) in
      let next : wrapping_inc q.head ≡ q.head + 1 = omega arith in
      let suc_head : suc q.head ≡ q.head + 1 = omega arith in
      (
        record q { buffer = set q.buffer (q.head % cap) none; head = wrapping_inc q.head },
        pop_ready q (q.head % cap) ready at
            ∙ ap
                (λ v. some (
                  record q {
                    buffer = set q.buffer (q.head % cap) none;
                    head = wrapping_inc q.head;
                  },
                  v,
                ))
                (ap (λ w. get_or w 0 none) holds),
        (
          ec,
          length-set q.buffer (q.head % cap) none ∙ eb,
          omega arith,
          omega arith,
          omega arith,
          ap (λ k. window cap (set q.buffer (q.head % cap) none) k (length xs)) next
              ∙ window-set_start cap q.buffer q.head (length xs) 0 none (omega arith)
              ∙ ap (λ k. window cap q.buffer k (length xs)) (sym suc_head)
              ∙ ap (drop 1) holds,
        ),
      )

  new_queue-Holds : (cap n : ℕ) → n < u64_mod → Holds cap (new_queue cap) [] n
  unfolding new_queue window
  new_queue-Holds cap n h =
      (refl, length-replicate cap none, omega arith, omega arith, omega arith, refl)

module _ {A : Type 0} (fresh : A) (capacity : ℕ) where
  unfoldable pub fifos_step : List A × List A → Op A → (List A × List A) × Reply A
  fifos_step (sent, used) (pushes a) =
      let (sent', back) = fifo_push capacity sent a in ((sent', used), refused back)
  fifos_step (sent, used) pops =
      let (sent', value) = fifo_pop sent in ((sent', used), received value)
  fifos_step (sent, used) collects =
      let (used', value) = fifo_pop used in
      ((sent, used'), collected (elim value [ none ↦ fresh | some t ↦ t ]))
  fifos_step (sent, used) (recycles a) =
      let (used', back) = fifo_push (capacity / 3) used a in ((sent, used'), refused back)

  unfoldable pub fifos_run : List A × List A → List (Op A) → List (Reply A)
  fifos_run f [] = []
  fifos_run f (op ∷ ops) = let (f', reply) = fifos_step f op in reply ∷ fifos_run f' ops

  abbrev HoldsBoth : Channel A → List A × List A → ℕ → Type 0
  HoldsBoth ch (sent, used) n =
      Holds capacity ch.queue sent n × Holds (capacity / 3) ch.chute used n

  weaker :
      (cap : ℕ) (q : SpscQueue A) (xs : List A) (n : ℕ) → Holds cap q xs (suc n) → Holds cap q xs n
  weaker cap q xs n (ec, eb, et, room, fits, holds) = (ec, eb, et, room, omega arith, holds)

  step-HoldsBoth :
      (ch : Channel A) (f : List A × List A) (op : Op A) (n : ℕ)
      → HoldsBoth ch f (suc n)
      → (ch' : Channel A) × (step fresh ch op ≡ some (ch', (fifos_step f op).1))
        × HoldsBoth ch' (fifos_step f op).0 n
  unfolding fifos_step step try_push pop_message collect recycle
  step-HoldsBoth ch (sent, used) (pushes a) n (hq, hc) =
      let (q, e, h) = push-Holds capacity ch.queue sent a n hq in
      (record ch { queue = q }, rw e refl, (h, weaker (capacity / 3) ch.chute used n hc))
  step-HoldsBoth ch (sent, used) pops n (hq, hc) =
      let (q, e, h) = pop-Holds capacity ch.queue sent n hq in
      (record ch { queue = q }, rw e refl, (h, weaker (capacity / 3) ch.chute used n hc))
  step-HoldsBoth ch (sent, used) collects n (hq, hc) =
      let (q, e, h) = pop-Holds (capacity / 3) ch.chute used n hc in
      (record ch { chute = q }, rw e refl, (weaker capacity ch.queue sent n hq, h))
  step-HoldsBoth ch (sent, used) (recycles a) n (hq, hc) =
      let (q, e, h) = push-Holds (capacity / 3) ch.chute used a n hc in
      (record ch { chute = q }, rw e refl, (weaker capacity ch.queue sent n hq, h))

  run-Holds :
      (ch : Channel A) (f : List A × List A) (ops : List (Op A)) (n : ℕ)
      → HoldsBoth ch f (length ops + n)
      → run fresh ch ops ≡ some (fifos_run f ops)
  unfolding run fifos_run
  run-Holds ch f [] n h = refl
  run-Holds ch f (op ∷ ops) n h =
      let (ch', e, h') =
        step-HoldsBoth ch f op (length ops + n) (subst (HoldsBoth ch f) (omega arith) h) in
      rw e (rw (run-Holds ch' (fifos_step f op).0 ops n h') refl)

  -- A new channel answers any sequence of fewer than 2^64 calls of its two ends as a queue of at most
  -- `capacity` values and a queue of at most `capacity / 3` used values do. No call panics, for any
  -- capacity, 0 included.
  pub run-new :
      (ops : List (Op A))
      → length ops < u64_mod
      → run fresh (new capacity) ops ≡ some (fifos_run ([], []) ops)
  unfolding new
  run-new ops h =
      run-Holds (new capacity) ([], []) ops 0
        (
          new_queue-Holds capacity (length ops + 0) (omega arith),
          new_queue-Holds (capacity / 3) (length ops + 0) (omega arith),
        )
