-- ===== src/Net/Server/Deadlines.antt =====
-- src/server.rs: the table of deadlines and the connections under updates and time-outs.
use mathlib.Core.Path.{subst}
use mathlib.Core.Option.{some-injective}
use bullet_ledger.Base.{
  ◌≡◌, ℕ, ◌+◌, ◌≤◌, ◌<◌, ◌==◌, true, false, some, List, [], ◌∷◌, ltb, refl, sym, ap, ◌∙◌, arith,
  inl, inr, Option-cases, Bool-cases, ltb→lt, not-ltb→le,
}
use bullet_ledger.Base.Assoc.{lookup, insert, remove, lookup-insert, lookup-remove}
use bullet_ledger.Net.Server.{
  TcpConnection, TimeoutEntry, Server, push, handle_timeouts, update_timeout, next_deadline,
}
use bullet_ledger.Net.Server.Expiry.{AllFrom, Sorted, Has, Covered, expire-Left, alive}

push-AllFrom :
    (w : ℕ) (e : TimeoutEntry) (es : List TimeoutEntry)
    → w ≤ e.when
    → AllFrom w es
    → AllFrom w (push e es)
unfolding push
push-AllFrom w e [] le all = (le, tt)
push-AllFrom w e (x ∷ es) le (h, all) = elim (Bool-cases (ltb e.when x.when)) [
  | inl first ↦ rw first (le, (h, all))
  | inr later ↦ rw later (h, push-AllFrom w e es le all)
]

AllFrom-le : (v w : ℕ) (es : List TimeoutEntry) → v ≤ w → AllFrom w es → AllFrom v es
AllFrom-le v w [] le all = tt
AllFrom-le v w (x ∷ es) le (h, all) = (omega (arith, le, h), AllFrom-le v w es le all)

pub push-Sorted : (e : TimeoutEntry) (es : List TimeoutEntry) → Sorted es → Sorted (push e es)
unfolding push
push-Sorted e [] sorted = (tt, tt)
push-Sorted e (x ∷ es) (all, sorted) = elim (Bool-cases (ltb e.when x.when)) [
  | inl first ↦
      let lt : e.when < x.when = ltb→lt e.when x.when first in
      rw first
        ((omega (arith, lt), AllFrom-le e.when x.when es (omega (arith, lt)) all), (all, sorted))
  | inr later ↦
      rw later
        (push-AllFrom x.when e es (not-ltb→le e.when x.when later) all, push-Sorted e es sorted)
]

push-Has_new : (e : TimeoutEntry) (es : List TimeoutEntry) → Has e.when e.token (push e es)
unfolding push
push-Has_new e [] = inl (refl, refl)
push-Has_new e (x ∷ es) = elim (Bool-cases (ltb e.when x.when)) [
  | inl first ↦ rw first (inl (refl, refl))
  | inr later ↦ rw later (inr (push-Has_new e es))
]

push-Has_old :
    (w t : ℕ) (e : TimeoutEntry) (es : List TimeoutEntry) → Has w t es → Has w t (push e es)
unfolding push
push-Has_old w t e [] h = elim h [ ]
push-Has_old w t e (x ∷ es) h = elim (Bool-cases (ltb e.when x.when)) [
  | inl first ↦ rw first (inr h)
  | inr later ↦
      rw later (elim h [ inl here ↦ inl here | inr there ↦ inr (push-Has_old w t e es there) ])
]

insert-here :
    {A : Type 0} (t u : ℕ) (c d : A) (m : List (ℕ × A))
    → (t == u) ≡ true
    → lookup u (insert t c m) ≡ some d
    → c ≡ d
insert-here t u c d m same h = some-injective c d (ground (arith, same, h, lookup-insert t u c m))

pub insert-elsewhere :
    {A : Type 0} (t u : ℕ) (c d : A) (m : List (ℕ × A))
    → (t == u) ≡ false
    → lookup u (insert t c m) ≡ some d
    → lookup u m ≡ some d
insert-elsewhere t u c d m apart h = ground (arith, apart, h, lookup-insert t u c m)

module _ {C Io : Type 0} (T : TcpConnection C Io) where
  abbrev pub Timed : Server C → List (ℕ × C) → Type 0
  Timed s maps = Covered T maps s.time_table × Sorted s.time_table

  -- Removing a connection leaves the rest timed.
  pub remove-Timed :
      (t : ℕ) (s : Server C) (maps : List (ℕ × C)) → Timed s maps → Timed s (remove t maps)
  remove-Timed t s maps (covered, sorted) = (
    (λ u c e. covered u c (elim (Bool-cases (t == u)) [
      | inl same ↦ ground (arith, same, e, lookup-remove t u maps)
      | inr apart ↦ ground (arith, apart, e, lookup-remove t u maps)
    ])),
    sorted,
  )

  -- Every connection is timed but perhaps that of `t`, and setting its deadline makes it so.
  abbrev pub TimedBut : ℕ → Server C → List (ℕ × C) → Type 0
  TimedBut t s maps =
      ((u : ℕ) (c : C)
        → (t == u) ≡ false
        → lookup u maps ≡ some c
        → Has (T.get_last_deadline c) u s.time_table)
      × Sorted s.time_table

  pub update_timeout-Timed :
      (now t : ℕ) (s : Server C) (maps : List (ℕ × C))
      → TimedBut t s maps
      → Timed (update_timeout T now t s maps).0 (update_timeout T now t s maps).1
  unfolding update_timeout
  update_timeout-Timed now t s maps (others, sorted) = elim (Option-cases (lookup t maps)) [
    | inl absent ↦
        rw (absent, update_timeout)
          (
            (λ u c e. elim (Bool-cases (t == u)) [
              | inl same ↦ ground (arith, same, e, absent)
              | inr apart ↦ others u c apart e
            ]),
            sorted,
          )
    | inr (c, e) ↦
        let c' : C = T.set_last_deadline (next_deadline now s.idle_timeout) c in
        let entry : TimeoutEntry = record { when = T.get_last_deadline c'; token = t } in
        rw (e, update_timeout)
          (
            (λ u d h. elim (Bool-cases (t == u)) [
              | inl same ↦
                  let here : t ≡ u = ground (arith, same) in
                  subst (λ x. Has (T.get_last_deadline x) u (push entry s.time_table))
                    (insert-here t u c' d maps same h)
                    (subst (λ x. Has (T.get_last_deadline c') x (push entry s.time_table)) here
                      (push-Has_new entry s.time_table))
              | inr apart ↦
                  push-Has_old (T.get_last_deadline d) u entry s.time_table
                    (others u d apart (insert-elsewhere t u c' d maps apart h))
            ]),
            push-Sorted entry s.time_table sorted,
          )
  ]

  -- A connection that keeps its deadline may take the place of another state of it.
  pub keep-Timed :
      (t : ℕ) (c c' : C) (s : Server C) (maps : List (ℕ × C))
      → lookup t maps ≡ some c
      → T.get_last_deadline c' ≡ T.get_last_deadline c
      → Timed s maps
      → Timed s (insert t c' maps)
  keep-Timed t c c' s maps e same (covered, sorted) = (
    (λ u d h. elim (Bool-cases (t == u)) [
      | inl k ↦
          let here : t ≡ u = ground (arith, k) in
          let renewed : c' ≡ d = insert-here t u c' d maps k h in
          subst (λ x. Has (T.get_last_deadline x) u s.time_table) renewed
            (subst (λ w. Has w u s.time_table) (sym same)
              (covered u c (ap (λ x. lookup x maps) (sym here) ∙ e)))
      | inr apart ↦ covered u d (insert-elsewhere t u c' d maps apart h)
    ]),
    sorted,
  )

  pub timeouts-end_expired :
      (now : ℕ) (s : Server C) (maps : List (ℕ × C))
      → Timed s maps
      → (t : ℕ) → lookup t (handle_timeouts T now s maps).2 ≡ alive T now (lookup t maps)
  unfolding handle_timeouts
  timeouts-end_expired now s maps (covered, sorted) t =
      (expire-Left T now s.time_table maps s.hub sorted covered).0 t

  pub timeouts-wait :
      (now : ℕ) (s : Server C) (maps : List (ℕ × C))
      → Timed s maps
      → (t : ℕ) (c : C) → lookup t (handle_timeouts T now s maps).2 ≡ some c
      → now + (handle_timeouts T now s maps).0 ≤ T.get_last_deadline c
  unfolding handle_timeouts
  timeouts-wait now s maps (covered, sorted) t c e =
      let (_, _, _, wait) = expire-Left T now s.time_table maps s.hub sorted covered in
      wait s.idle_polltimeout t c e

  pub timeouts-Timed :
      (now : ℕ) (s : Server C) (maps : List (ℕ × C))
      → Timed s maps
      → Timed (handle_timeouts T now s maps).1 (handle_timeouts T now s maps).2
  unfolding handle_timeouts
  timeouts-Timed now s maps (covered, sorted) =
      let (_, covered', sorted', _) = expire-Left T now s.time_table maps s.hub sorted covered in
      (covered', sorted')
