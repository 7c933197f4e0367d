-- ===== src/Net/Server/Events.antt =====
-- src/server.rs: new connections, outgoing messages and the events of connections.
use bullet_ledger.Base.{
  ℕ, ◌==◌, ◌&&◌, Bool, true, false, Option, none, some, List, [], ◌∷◌, not, ◌||◌, if◌then◌else◌,
  ltb, ◌>>=◌,
}
use bullet_ledger.Base.Assoc.{lookup, insert, remove}
use bullet_ledger.Peers.{SocketAddr, v4, v6, NetError, socket_failed, other}
use bullet_ledger.Net.Message.{NetMsg}
use bullet_ledger.Net.Hub.{Hub, register, deregister}
use bullet_ledger.Net.Socket.{Socket}
use bullet_ledger.Net.Server.{
  Answer, done, failed, TcpConnection, Server, get_conn, put_conn, update_timeout,
}

-- What the system calls of `handle_new` answer: `none` or `false` is an error.
pub record Stream : Type 0 where
  pub socket : Socket
  pub nodelay : Bool
  pub registers : Bool
  pub deregisters : Bool
  -- The text of an error.
  pub error : List ℕ

bytes_eq : List ℕ → List ℕ → Bool
bytes_eq [] [] = true
bytes_eq [] (y ∷ ys) = false
bytes_eq (x ∷ xs) [] = false
bytes_eq (x ∷ xs) (y ∷ ys) = let rest = bytes_eq xs ys in x == y && rest

unfoldable pub addr_eq : SocketAddr → SocketAddr → Bool
unfolding bytes_eq
addr_eq (v4 ip port) (v4 ip' port') = ip == ip' && port == port'
addr_eq (v6 ip port) (v6 ip' port') = bytes_eq ip ip' && port == port'
addr_eq (v4 ip port) (v6 ip' port') = false
addr_eq (v6 ip port) (v4 ip' port') = false

-- The `get` and the `insert` of `token_map`.
unfoldable pub addr_lookup : SocketAddr → List (SocketAddr × ℕ) → Option ℕ
addr_lookup a [] = none
addr_lookup a ((b, t) ∷ m) = if addr_eq b a then some t else addr_lookup a m

unfoldable pub addr_insert : SocketAddr → ℕ → List (SocketAddr × ℕ) → List (SocketAddr × ℕ)
addr_insert a t [] = (a, t) ∷ []
addr_insert a t ((b, u) ∷ m) =
    let rest = addr_insert a t m in if addr_eq b a then (b, t) ∷ m else (b, u) ∷ rest

pub record Event : Type 0 where
  pub token : ℕ
  pub is_error : Bool
  pub is_writable : Bool
  pub is_readable : Bool

module _ {C Io : Type 0} (T : TcpConnection C Io) where
  -- The last part of `handle_new`: the connection takes its place and its deadline.
  unfoldable pub place :
      ℕ → Stream → SocketAddr → C → Server C → List (ℕ × C) → Server C × List (ℕ × C)
  place now stream addr c s maps =
      let maps' = insert stream.socket.token c maps in
      elim (lookup stream.socket.token maps) [
        | some old ↦ (put_conn T old s, maps')
        | none ↦
            update_timeout T now stream.socket.token
              (record s { token_map = addr_insert addr stream.socket.token s.token_map }) maps'
      ]

  -- What `handle_new` does for an outgoing stream; `false` is a failed deregistration, which it returns.
  unfoldable pub negotiate : Io → Stream → C → Hub → Bool × C × Hub
  unfolding deregister
  negotiate io stream c hub =
      let (answer, c', hub') = T.initiate_negotiation io c hub in
      elim answer [
        | done _ ↦ (true, c', hub')
        | failed e ↦
            if stream.deregisters
            then (true, c', deregister stream.socket.token hub')
            else (false, c', hub')
      ]

  unfoldable pub settle :
      ℕ
      → Stream
      → SocketAddr
      → Server C
      → List (ℕ × C)
      → Bool
      → C
      → Answer ℕ × Server C × List (ℕ × C)
  unfolding place
  settle now stream addr s maps true c =
      let (s', maps') = place now stream addr c s maps in (done stream.socket.token, s', maps')
  settle now stream addr s maps false c = (failed (other stream.error), s, maps)

  -- The answer is the token of the stream.
  unfoldable pub handle_new :
      Io
      → ℕ
      → Stream
      → SocketAddr
      → Option (List ℕ)
      → Bool
      → Server C
      → List (ℕ × C)
      → Answer ℕ × Server C × List (ℕ × C)
  unfolding register negotiate settle
  handle_new io now stream addr pub_key is_outbound s maps =
      let s0 = record s { hub = register stream.socket.token is_outbound s.hub } in
      let (c, s1) = get_conn T io now stream.socket addr pub_key s0 in
      let (goes_on, c', hub) =
        (if is_outbound then negotiate io stream c s1.hub else (true, c, s1.hub)) in
      if not stream.nodelay || not stream.registers
      then (failed (other stream.error), s, maps)
      else settle now stream addr (record s1 { hub = hub }) maps goes_on c'

  unfoldable pub enqueue :
      Io → ℕ → C → NetMsg → Server C → List (ℕ × C) → Option NetMsg × Server C × List (ℕ × C)
  enqueue io token c msg s maps =
      let (back, c', hub) = T.enqueue_msg io msg c s.hub in
      (back, record s { hub = hub }, insert token c' maps)

  -- What a connection makes of an event: writing comes before reading, and an error ends it.
  unfoldable pub served : Io → Event → C → Hub → Option (Answer Bool × C × Hub)
  served io event c hub = do
    (answer, c', hub') ←
        (if event.is_error
          then some (failed socket_failed, c, hub)
          else (if event.is_writable then T.on_writable io c hub else some (done false, c, hub)))
    elim answer [
      | failed e ↦ some (failed e, c', hub')
      | done wrote ↦
          if event.is_readable then T.on_readable io c' hub' else some (done wrote, c', hub')
    ]

  unfoldable pub at_token : List (ℕ × C) → ℕ → Option (ℕ × C)
  at_token maps token = elim (lookup token maps) [ none ↦ none | some c ↦ some (token, c) ]

  -- The connection that a message goes to: of its token, or else of its address.
  unfoldable pub find_active : NetMsg → Server C → List (ℕ × C) → Option (ℕ × C)
  unfolding addr_lookup at_token
  find_active msg s maps = do
    token ←
        (if ltb 0 msg.stream_token
          then some msg.stream_token
          else do addr ← msg.addr; addr_lookup addr s.token_map)
    at_token maps token

  -- With the answer of `handle_new`.
  unfoldable pub after_dial :
      Io → NetMsg → Answer ℕ → Server C → List (ℕ × C) → Option NetMsg × Server C × List (ℕ × C)
  unfolding enqueue
  after_dial io msg (failed e) s maps = (some msg, s, maps)
  after_dial io msg (done token) s maps = elim (lookup token maps) [
    | none ↦ (some msg, s, maps)
    | some c ↦ enqueue io token c msg s maps
  ]

  -- `stream` is what `TcpStream::connect` gives.
  unfoldable pub dial :
      Io
      → ℕ
      → Option Stream
      → SocketAddr
      → NetMsg
      → Server C
      → List (ℕ × C)
      → Option NetMsg × Server C × List (ℕ × C)
  unfolding handle_new after_dial
  dial io now none addr msg s maps = (some msg, s, maps)
  dial io now (some stream) addr msg s maps =
      let (answer, s', maps') = handle_new io now stream addr msg.pub_key true s maps in
      after_dial io (record msg { pub_key = none }) answer s' maps'

  -- The answer is the message that comes back.
  unfoldable pub handle_outbound :
      Io
      → ℕ
      → Option Stream
      → NetMsg
      → Server C
      → List (ℕ × C)
      → Option NetMsg × Server C × List (ℕ × C)
  unfolding find_active dial enqueue
  handle_outbound io now stream msg s maps =
      let taken = record msg { addr = none } in
      elim (find_active msg s maps) [
        | some (token, c) ↦ enqueue io token c taken s maps
        | none ↦ elim msg.addr [
          | none ↦ (some taken, s, maps)
          | some addr ↦ dial io now stream addr taken s maps
        ]
      ]

  unfoldable pub after_event :
      (NetError → Option SocketAddr → Server C → Server C)
      → ℕ
      → ℕ
      → Server C
      → List (ℕ × C)
      → Answer Bool × C × Hub
      → Server C × List (ℕ × C)
  unfolding put_conn update_timeout
  after_event handle_errored now token s maps (failed e, c, hub) =
      (put_conn T c (handle_errored e (T.get_addr c) (record s { hub = hub })), remove token maps)
  after_event handle_errored now token s maps (done b, c, hub) =
      update_timeout T now token (record s { hub = hub }) (insert token c maps)

  -- An event of a connection; `handle_errored` is the caller's.
  unfoldable pub on_event :
      (NetError → Option SocketAddr → Server C → Server C)
      → Io
      → ℕ
      → Event
      → Server C
      → List (ℕ × C)
      → Option (Server C × List (ℕ × C))
  unfolding after_event served
  on_event handle_errored io now event s maps = elim (lookup event.token maps) [
    | none ↦ some (update_timeout T now event.token s maps)
    | some c ↦ do
      answer ← served io event c s.hub
      some (after_event handle_errored now event.token s maps answer)
  ]
