-- ===== src/Net/Server/Poll.antt =====
-- src/server.rs: how a server is made, and a turn of its poll loop.
use bullet_ledger.Base.{
  ℕ, ◌==◌, Bool, false, Option, none, some, List, [], ◌∷◌, ◌++◌, if◌then◌else◌, ◌>>=◌,
}
use bullet_ledger.Base.Assoc.{insert, contains}
use bullet_ledger.Peers.{SocketAddr, NetError, OpenFile}
use bullet_ledger.Net.Message.{NetMsg}
use bullet_ledger.Net.Keys.{Exchange, load_keys}
use bullet_ledger.Net.Hub.{Link, internal_try_push}
use bullet_ledger.Net.Server.{TcpConnection, Server, handle_timeouts}
use bullet_ledger.Net.Server.Events.{Stream, Event, handle_new, on_event}
use bullet_ledger.Net.Server.Intake.{Popped, take_msgs}

-- The vector is emptied from its end, so an earlier link takes the place of a later one.
unfoldable pub to_internals_from_vec : List (Link × ℕ) → List (ℕ × Link)
to_internals_from_vec [] = []
to_internals_from_vec ((l, t) ∷ tos) = insert t l (to_internals_from_vec tos)

-- The token of the listener.
abbrev pub listener_id : ℕ
listener_id = 696969

-- `NetServer::new`, where polling and binding succeed; times are the configuration's, `raw` is drawn for new keys.
unfoldable pub new_server :
    {C : Type 0} → Exchange → List ℕ → ℕ → ℕ → OpenFile → List (ℕ × Link) → Server C × OpenFile
unfolding load_keys
new_server x raw idle_timeout idle_polltimeout file to_internals =
    let ((pub_key, priv_key), file') = load_keys x raw file in
    (
      record {
        hub = record {
          registry = (listener_id, false) ∷ [];
          pub_key = pub_key;
          priv_key = priv_key;
          buffs = [];
          net_msgs = [];
          internal_msgs = [];
          to_internals = to_internals;
        };
        time_table = [];
        token_map = [];
        connections = [];
        idle_timeout = idle_timeout;
        idle_polltimeout = idle_polltimeout;
      },
      file',
    )

-- An event of the poll, with what is found behind it: a stream at the listener, the messages of another thread; `pops`
-- is what the consumers of the links pop while the queue is flushed before it, `io` and `now` are what is drawn and the
-- clock while it is handled.
pub record Ready (Io : Type 0) : Type 0 where
  pub event : Event
  pub accepted : Option (Stream × SocketAddr)
  pub popped : List (Popped Io)
  pub pops : List ℕ
  pub io : Io
  pub now : ℕ

-- What the caller of `start` passes, and the tokens of the threads that send messages.
pub record Handlers (C : Type 0) : Type 0 where
  pub handle_from_internal : NetMsg → Server C → Option NetMsg × Server C
  pub allow_connection : SocketAddr → Bool
  pub handle_errored : NetError → Option SocketAddr → Server C → Server C
  pub from_internals : List (ℕ × Bool)

module _ {C Io : Type 0} (T : TcpConnection C Io) (H : Handlers C) where
  -- `internal_try_push`.
  unfoldable pub push_internal : List ℕ → Server C → Option (Server C)
  unfolding internal_try_push
  push_internal pops s = do hub ← internal_try_push pops s.hub; some (record s { hub = hub })

  unfoldable pub accept :
      Io → ℕ → Option (Stream × SocketAddr) → Server C → List (ℕ × C) → Server C × List (ℕ × C)
  unfolding handle_new
  accept io now none s maps = (s, maps)
  accept io now (some (stream, addr)) s maps =
      let (answer, s', maps') = handle_new T io now stream addr none false s maps in
      if H.allow_connection addr then (s', maps') else (s, maps)

  -- An event. The messages recycled to the other threads come with the answer.
  unfoldable pub handle_event :
      Ready Io → Server C → List (ℕ × C) → Option (List NetMsg × Server C × List (ℕ × C))
  unfolding push_internal accept take_msgs on_event
  handle_event r s maps = do
    s1 ← push_internal r.pops s
    let (back, s3, maps3) = take_msgs T H.handle_from_internal r.popped s1 maps
    let (s2, maps2) = accept r.io r.now r.accepted s1 maps
    (if r.event.token == listener_id
        then some ([], s2, maps2)
        else if contains r.event.token H.from_internals
        then some (back, s3, maps3)
        else (do
          (s4, maps4) ← on_event T H.handle_errored r.io r.now r.event s1 maps
          some ([], s4, maps4)))

  unfoldable pub handle_events :
      List (Ready Io) → Server C → List (ℕ × C) → Option (List NetMsg × Server C × List (ℕ × C))
  unfolding handle_event
  handle_events [] s maps = some ([], s, maps)
  handle_events (r ∷ rs) s maps = do
    (back, s1, maps1) ← handle_event r s maps
    (more, s2, maps2) ← handle_events rs s1 maps1
    some (back ++ more, s2, maps2)

  -- A turn of the loop; `events` is what the poll gives, with `none` for an error, and `pops` is what the consumers pop
  -- while the queue is flushed after that.
  unfoldable pub poll_turn :
      ℕ
      → Option (List (Ready Io))
      → List ℕ
      → Server C
      → List (ℕ × C)
      → Option (List NetMsg × Server C × List (ℕ × C))
  unfolding handle_timeouts push_internal handle_events
  poll_turn before events pops s maps =
      let (wait, s1, maps1) = handle_timeouts T before s maps in
      elim events [
        | none ↦ do s2 ← push_internal pops s1; some ([], s2, maps1)
        | some rs ↦ handle_events rs s1 maps1
      ]
