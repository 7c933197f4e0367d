-- ===== src/Net/Server/Life.antt =====
-- src/server.rs: the turns of a server's poll loop, and what holds of its deadlines after any of them.
use bullet_ledger.Base.{◌≡◌, ℕ, ◌+◌, ◌≤◌, Option, some, List, [], arith}
use bullet_ledger.Base.Assoc.{lookup}
use bullet_ledger.Net.Message.{NetMsg}
use bullet_ledger.Net.Server.{TcpConnection, Server, handle_timeouts}
use bullet_ledger.Net.Server.Poll.{Ready, Handlers, poll_turn}
use bullet_ledger.Net.Server.Turn.{State, IsTimed, KeepTable, FreshTurn}
use bullet_ledger.Net.Server.Loop.{poll_turn-Timed}
use bullet_ledger.Net.Server.Expiry.{alive}
use bullet_ledger.Net.Server.Deadlines.{timeouts-end_expired, timeouts-wait}

module _ {C Io : Type 0} (T : TcpConnection C Io) (H : Handlers C) where
  -- A turn of the loop that returns: its time-outs, what the poll gives, with any number of events of any kind, and the
  -- flushes between.
  pub data Step : State T → State T → Type 0 where
    turn :
        (before : ℕ) (events : Option (List (Ready Io))) (pops : List ℕ) (s s' : Server C)
        (maps maps' : List (ℕ × C)) (back : List NetMsg)
        → FreshTurn T H before events s maps
        → poll_turn T H before events pops s maps ≡ some (back, s', maps')
        → Step (s, maps) (s', maps')

  pub data Reach (start : State T) : State T → Type 0 where
    here : Reach start start
    later : {st st' : State T} → Reach start st → Step st st' → Reach start st'

  Step-Timed : KeepTable T H → (st st' : State T) → Step st st' → IsTimed T st → IsTimed T st'
  Step-Timed kept _ _ (turn before events pops s s' maps maps' back fresh ran) timed =
      poll_turn-Timed T H kept before events pops s maps (back, s', maps') fresh ran timed

  -- From a server without connections and entries, after any number of turns of the poll loop that return, each
  -- connection's last deadline stands in the table, and the table is sorted. The conditions: the caller's
  -- `handle_errored` and `handle_from_internal` leave the table, and a stream that is accepted or dialled has a descriptor
  -- that no connection has then.
  pub Reach-Timed :
      KeepTable T H
      → (s : Server C) → s.time_table ≡ []
      → (st : State T) → Reach (s, []) st
      → IsTimed T st
  unfolding lookup
  Reach-Timed kept s empty _ here = rw empty ((λ t c e. ground (arith, e)), tt)
  Reach-Timed kept s empty _ (later {st} {st'} run step) =
      Step-Timed kept st st' step (Reach-Timed kept s empty st run)

  -- In a state that such a server reaches by turns of the poll loop, `handle_timeouts` at `now` leaves each token the
  -- connection that it had, if its last deadline is after `now`, and else none; and the time that it gives to wait ends no
  -- later than the last deadline of any connection left. The conditions: the server began without connections and entries,
  -- the caller's `handle_errored` and `handle_from_internal` leave the table, and a stream that is accepted or dialled has
  -- a descriptor that no connection has then.
  pub Reach-timeouts :
      KeepTable T H
      → (s : Server C) → s.time_table ≡ []
      → (s' : Server C) (maps : List (ℕ × C)) → Reach (s, []) (s', maps)
      → (now : ℕ)
      → ((t : ℕ) → lookup t (handle_timeouts T now s' maps).2 ≡ alive T now (lookup t maps))
        × ((t : ℕ) (c : C)
            → lookup t (handle_timeouts T now s' maps).2 ≡ some c
            → now + (handle_timeouts T now s' maps).0 ≤ T.get_last_deadline c)
  Reach-timeouts kept s empty s' maps run now =
      let timed = Reach-Timed kept s empty (s', maps) run in
      (timeouts-end_expired T now s' maps timed, timeouts-wait T now s' maps timed)
