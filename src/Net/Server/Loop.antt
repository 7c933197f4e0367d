-- ===== src/Net/Server/Loop.antt =====
-- src/server.rs: the table of deadlines under events and turns of the poll loop.
use mathlib.Core.Path.{subst}
use mathlib.Core.Option.{some-injective}
use bullet_ledger.Base.{
  ◌≡◌, ℕ, ◌==◌, Option, none, some, List, [], ◌∷◌, ◌++◌, refl, sym, ◌∙◌, arith, inl, inr,
  Option-cases, Bool-cases,
}
use bullet_ledger.Base.Assoc.{contains}
use bullet_ledger.Net.Message.{NetMsg}
use bullet_ledger.Net.Server.{TcpConnection, Server, handle_timeouts}
use bullet_ledger.Net.Server.Events.{on_event}
use bullet_ledger.Net.Server.Intake.{take_msgs}
use bullet_ledger.Net.Server.Poll.{
  Ready, Handlers, listener_id, push_internal, accept, handle_event, handle_events, poll_turn,
}
use bullet_ledger.Net.Server.Deadlines.{Timed, timeouts-Timed}
use bullet_ledger.Net.Server.Turn.{
  same_table-Timed, KeepTable, FreshEvent, FreshEvents, FreshTurn, push_internal-table,
  on_event-Timed, take_msgs-Timed, accept-Timed,
}

module _ {C Io : Type 0} (T : TcpConnection C Io) (H : Handlers C) where
  -- What an event or a turn gives.
  abbrev pub After : Type 0
  After = List NetMsg × Server C × List (ℕ × C)

  after-Timed :
      (o : Option After) (x out : After)
      → o ≡ some x
      → o ≡ some out
      → Timed T x.1 x.2
      → Timed T out.1 out.2
  after-Timed o x out e e' = subst (λ y. Timed T y.1 y.2) (some-injective x out (sym e ∙ e'))

  -- An event, after the flush before it.
  pushed-Timed :
      (kept : KeepTable T H) (r : Ready Io) (s s1 : Server C) (maps : List (ℕ × C)) (out : After)
      → FreshEvent T H r s maps
      → push_internal T H r.pops s ≡ some s1
      → handle_event T H r s maps ≡ some out
      → Timed T s maps
      → Timed T out.1 out.2
  unfolding handle_event
  pushed-Timed kept r s s1 maps out (accepts, msgs) h e timed =
      let timed1 = same_table-Timed T s s1 maps (push_internal-table T H r.pops s s1 h) timed in
      let taken = take_msgs T H.handle_from_internal r.popped s1 maps in
      let accepted = accept T H r.io r.now r.accepted s1 maps in
      elim (Bool-cases (r.event.token == listener_id)) [
        | inl listener ↦
            after-Timed _ ([], accepted.0, accepted.1) out (rw (h, handle_event) (rw listener refl))
              e (accept-Timed T H r.io r.now r.accepted s1 maps accepts timed1)
        | inr stream ↦ elim (Bool-cases (contains r.event.token H.from_internals)) [
          | inl thread ↦
              after-Timed _ taken out (rw (h, handle_event) (rw (stream, thread) refl)) e
                (take_msgs-Timed T H kept r.popped s1 maps (msgs s1 h) timed1)
          | inr conn ↦
              elim (Option-cases (on_event T H.handle_errored r.io r.now r.event s1 maps)) [
                | inl panics ↦
                    let lost : handle_event T H r s maps ≡ none =
                      rw (h, handle_event) (rw (stream, conn) (rw panics refl)) in
                    ground (arith, lost, e)
                | inr (st, ran) ↦
                    after-Timed _ ([], st.0, st.1) out
                      (rw (h, handle_event) (rw (stream, conn) (rw ran refl))) e
                      (on_event-Timed T H kept.0 r.io r.now r.event s1 maps st ran timed1)
              ]
        ]
      ]

  handle_event-Timed :
      (kept : KeepTable T H) (r : Ready Io) (s : Server C) (maps : List (ℕ × C)) (out : After)
      → FreshEvent T H r s maps
      → handle_event T H r s maps ≡ some out
      → Timed T s maps
      → Timed T out.1 out.2
  unfolding handle_event
  handle_event-Timed kept r s maps out fresh e timed =
      elim (Option-cases (push_internal T H r.pops s)) [
        | inl spins ↦
            let lost : handle_event T H r s maps ≡ none = rw (spins, handle_event) refl in
            ground (arith, lost, e)
        | inr (s1, h) ↦ pushed-Timed kept r s s1 maps out fresh h e timed
      ]

  handle_events-Timed :
      (kept : KeepTable T H) (rs : List (Ready Io)) (s : Server C) (maps : List (ℕ × C))
      (out : After)
      → FreshEvents T H rs s maps
      → handle_events T H rs s maps ≡ some out
      → Timed T s maps
      → Timed T out.1 out.2
  unfolding handle_events
  handle_events-Timed kept [] s maps out fresh e timed =
      after-Timed _ ([], s, maps) out refl e timed
  handle_events-Timed kept (r ∷ rs) s maps out (first, rest) e timed =
      elim (Option-cases (handle_event T H r s maps)) [
        | inl fails ↦
            let lost : handle_events T H (r ∷ rs) s maps ≡ none = rw (fails, handle_events) refl in
            ground (arith, lost, e)
        | inr ((back, s1, maps1), h) ↦
            let timed1 = handle_event-Timed kept r s maps (back, s1, maps1) first h timed in
            elim (Option-cases (handle_events T H rs s1 maps1)) [
              | inl fails ↦
                  let lost : handle_events T H (r ∷ rs) s maps ≡ none =
                    rw (h, handle_events) (rw fails refl) in
                  ground (arith, lost, e)
              | inr ((more, s2, maps2), h2) ↦
                  after-Timed _ (back ++ more, s2, maps2) out (rw (h, handle_events) (rw h2 refl)) e
                    (handle_events-Timed kept rs s1 maps1 (more, s2, maps2) (rest back s1 maps1 h)
                      h2 timed1)
            ]
      ]

  -- A turn of the loop keeps the deadlines.
  pub poll_turn-Timed :
      (kept : KeepTable T H) (before : ℕ) (events : Option (List (Ready Io))) (pops : List ℕ)
      (s : Server C) (maps : List (ℕ × C)) (out : After)
      → FreshTurn T H before events s maps
      → poll_turn T H before events pops s maps ≡ some out
      → Timed T s maps
      → Timed T out.1 out.2
  unfolding poll_turn
  poll_turn-Timed kept before none pops s maps out fresh e timed =
      let after = handle_timeouts T before s maps in
      elim (Option-cases (push_internal T H pops after.1)) [
        | inl spins ↦
            let lost : poll_turn T H before none pops s maps ≡ none = rw (spins, poll_turn) refl in
            ground (arith, lost, e)
        | inr (s2, h) ↦
            after-Timed _ ([], s2, after.2) out (rw (h, poll_turn) refl) e
              (same_table-Timed T after.1 s2 after.2 (push_internal-table T H pops after.1 s2 h)
                (timeouts-Timed T before s maps timed))
      ]
  poll_turn-Timed kept before (some rs) pops s maps out fresh e timed =
      handle_events-Timed kept rs _ _ out fresh e (timeouts-Timed T before s maps timed)
