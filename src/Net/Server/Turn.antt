-- ===== src/Net/Server/Turn.antt =====
-- src/server.rs: the table of deadlines under the parts of a turn of the poll loop.
use mathlib.Core.Path.{subst}
use mathlib.Core.Option.{some-injective}
use bullet_ledger.Base.{
  ◌≡◌, ℕ, Bool, false, Option, none, some, List, [], ◌∷◌, refl, sym, ◌∙◌, arith, inl, inr,
  Option-cases, Bool-cases,
}
use bullet_ledger.Base.Assoc.{lookup, insert}
use bullet_ledger.Peers.{SocketAddr, NetError}
use bullet_ledger.Net.Message.{NetMsg, is_internal}
use bullet_ledger.Net.Hub.{Hub, internal_try_push}
use bullet_ledger.Net.Server.{
  Answer, done, failed, TcpConnection, Server, handle_timeouts, update_timeout, put_conn,
}
use bullet_ledger.Net.Server.Events.{Stream, Event, handle_outbound, after_event, served, on_event}
use bullet_ledger.Net.Server.Intake.{Popped, take_msg, take_msgs}
use bullet_ledger.Net.Server.Poll.{Ready, Handlers, push_internal, accept, handle_event}
use bullet_ledger.Net.Server.Kept.{handle_new-Timed, handle_outbound-Timed}
use bullet_ledger.Net.Server.Expiry.{Sorted, Covered}
use bullet_ledger.Net.Server.Deadlines.{Timed, remove-Timed, update_timeout-Timed, insert-elsewhere}

module _ {C Io : Type 0} (T : TcpConnection C Io) where
  -- A server and its connections.
  abbrev pub State : Type 0
  State = Server C × List (ℕ × C)

  abbrev pub IsTimed : State → Type 0
  IsTimed (s, maps) = Timed T s maps

  answered : (o : Option State) (x st : State) → o ≡ some x → o ≡ some st → IsTimed x → IsTimed st
  answered o x st e e' = subst IsTimed (some-injective x st (sym e ∙ e'))

  pub same_table-Timed :
      (s s' : Server C) (maps : List (ℕ × C))
      → s'.time_table ≡ s.time_table
      → Timed T s maps
      → Timed T s' maps
  same_table-Timed s s' maps e = subst (λ tab. Covered T maps tab × Sorted tab) (sym e)

module _ {C Io : Type 0} (T : TcpConnection C Io) (H : Handlers C) where
  -- The caller's handlers of errors and of internal messages leave the table of deadlines.
  abbrev pub KeepTable : Type 0
  KeepTable =
      ((e : NetError) (a : Option SocketAddr) (s : Server C)
        → (H.handle_errored e a s).time_table ≡ s.time_table)
      × ((m : NetMsg) (s : Server C) → (H.handle_from_internal m s).1.time_table ≡ s.time_table)

  -- A stream that is accepted or dialled has a descriptor that no connection has at that time. First, for the messages
  -- that are popped from another thread.
  abbrev pub FreshMsgs : List (Popped Io) → Server C → List (ℕ × C) → Type 0
  FreshMsgs [] s maps = Unit {0}
  FreshMsgs (p ∷ ps) s maps =
      ((new : Stream) → p.stream ≡ some new → lookup new.socket.token maps ≡ none)
      × FreshMsgs ps (take_msg T H.handle_from_internal p s maps).1
          (take_msg T H.handle_from_internal p s maps).2

  abbrev pub FreshEvent : Ready Io → Server C → List (ℕ × C) → Type 0
  FreshEvent r s maps =
      ((new : Stream) (addr : SocketAddr)
        → r.accepted ≡ some (new, addr)
        → lookup new.socket.token maps ≡ none)
      × ((s1 : Server C) → push_internal T H r.pops s ≡ some s1 → FreshMsgs r.popped s1 maps)

  abbrev pub FreshEvents : List (Ready Io) → Server C → List (ℕ × C) → Type 0
  FreshEvents [] s maps = Unit {0}
  FreshEvents (r ∷ rs) s maps =
      FreshEvent r s maps
      × ((back : List NetMsg) (s1 : Server C) (maps1 : List (ℕ × C))
          → handle_event T H r s maps ≡ some (back, s1, maps1)
          → FreshEvents rs s1 maps1)

  -- For a turn of the loop, after its time-outs.
  abbrev pub FreshTurn : ℕ → Option (List (Ready Io)) → Server C → List (ℕ × C) → Type 0
  FreshTurn before none s maps = Unit {0}
  FreshTurn before (some rs) s maps =
      FreshEvents rs (handle_timeouts T before s maps).1 (handle_timeouts T before s maps).2

  after_event-Timed :
      ((e : NetError) (a : Option SocketAddr) (s : Server C)
        → (H.handle_errored e a s).time_table ≡ s.time_table)
      → (now t : ℕ) (s : Server C) (maps : List (ℕ × C)) (answer : Answer Bool × C × Hub)
      → Timed T s maps
      → IsTimed T (after_event T H.handle_errored now t s maps answer)
  unfolding after_event put_conn
  after_event-Timed kept now t s maps (failed e, c, hub) timed =
      rw (kept e (T.get_addr c) (record s { hub = hub })) (remove-Timed T t s maps timed)
  after_event-Timed kept now t s maps (done b, c, hub) (covered, sorted) =
      update_timeout-Timed T now t _ (insert t c maps)
        ((λ u d apart h. covered u d (insert-elsewhere t u c d maps apart h)), sorted)

  pub on_event-Timed :
      ((e : NetError) (a : Option SocketAddr) (s : Server C)
        → (H.handle_errored e a s).time_table ≡ s.time_table)
      → (io : Io) (now : ℕ) (event : Event) (s : Server C) (maps : List (ℕ × C)) (st : State T)
      → on_event T H.handle_errored io now event s maps ≡ some st
      → Timed T s maps
      → IsTimed T st
  unfolding on_event
  on_event-Timed kept io now event s maps st e (covered, sorted) =
      elim (Option-cases (lookup event.token maps)) [
        | inl absent ↦
            answered T _ (update_timeout T now event.token s maps) st (rw (absent, on_event) refl) e
              (update_timeout-Timed T now event.token s maps
                ((λ u d apart h. covered u d h), sorted))
        | inr (c, found) ↦ elim (Option-cases (served T io event c s.hub)) [
          | inl panics ↦
              let none_left : on_event T H.handle_errored io now event s maps ≡ none =
                rw (found, on_event) (rw panics refl) in
              ground (arith, none_left, e)
          | inr (answer, h) ↦
              answered T _ (after_event T H.handle_errored now event.token s maps answer) st
                (rw (found, on_event) (rw h refl)) e
                (after_event-Timed kept now event.token s maps answer (covered, sorted))
        ]
      ]

  pub push_internal-table :
      (pops : List ℕ) (s s1 : Server C)
      → push_internal T H pops s ≡ some s1
      → s1.time_table ≡ s.time_table
  unfolding push_internal
  push_internal-table pops s s1 e = elim (Option-cases (internal_try_push pops s.hub)) [
    | inl spins ↦
        let lost : push_internal T H pops s ≡ none = rw (spins, push_internal) refl in
        ground (arith, lost, e)
    | inr (hub, h) ↦
        let ran : push_internal T H pops s ≡ some (record s { hub = hub }) =
          rw (h, push_internal) refl in
        let same : record s { hub = hub } ≡ s1 = some-injective _ s1 (sym ran ∙ e) in
        subst (λ x. x.time_table ≡ s.time_table) same refl
  ]

  take_msg-Timed :
      (kept : KeepTable) (p : Popped Io) (s : Server C) (maps : List (ℕ × C))
      → ((new : Stream) → p.stream ≡ some new → lookup new.socket.token maps ≡ none)
      → Timed T s maps
      → Timed T
          (take_msg T H.handle_from_internal p s maps).1
          (take_msg T H.handle_from_internal p s maps).2
  unfolding take_msg
  take_msg-Timed kept p s maps fresh timed =
      let out = handle_outbound T p.io p.now p.stream p.msg s maps in
      let sent = handle_outbound-Timed T p.io p.now p.stream p.msg s maps fresh timed in
      elim (Bool-cases (is_internal p.msg.code)) [
        | inl internal ↦
            rw (internal, take_msg)
              (same_table-Timed T s (H.handle_from_internal p.msg s).1 maps (kept.1 p.msg s) timed)
        | inr external ↦ elim (Option-cases out.0) [
          | inl taken ↦ rw (external, take_msg) (rw taken sent)
          | inr (m, back) ↦ rw (external, take_msg) (rw back sent)
        ]
      ]

  pub take_msgs-Timed :
      (kept : KeepTable) (ps : List (Popped Io)) (s : Server C) (maps : List (ℕ × C))
      → FreshMsgs ps s maps
      → Timed T s maps
      → Timed T
          (take_msgs T H.handle_from_internal ps s maps).1
          (take_msgs T H.handle_from_internal ps s maps).2
  unfolding take_msgs
  take_msgs-Timed kept [] s maps fresh timed = timed
  take_msgs-Timed kept (p ∷ ps) s maps (first, rest) timed =
      take_msgs-Timed kept ps _ _ rest (take_msg-Timed kept p s maps first timed)

  pub accept-Timed :
      (io : Io) (now : ℕ) (accepted : Option (Stream × SocketAddr)) (s : Server C)
      (maps : List (ℕ × C))
      → ((new : Stream) (addr : SocketAddr)
          → accepted ≡ some (new, addr)
          → lookup new.socket.token maps ≡ none)
      → Timed T s maps
      → Timed T (accept T H io now accepted s maps).0 (accept T H io now accepted s maps).1
  unfolding accept
  accept-Timed io now none s maps fresh timed = timed
  accept-Timed io now (some (stream, addr)) s maps fresh timed =
      elim (Bool-cases (H.allow_connection addr)) [
        | inl allowed ↦
            rw (allowed, accept)
              (handle_new-Timed T io now stream addr none false s maps (fresh stream addr refl)
                timed)
        | inr banned ↦ rw (banned, accept) timed
      ]
