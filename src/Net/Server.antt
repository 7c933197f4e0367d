-- ===== src/Net/Server.antt =====
-- src/server.rs: the connections of a server and their deadlines. Times are in milliseconds and `now` is an argument;
-- what the sockets and the random source give is an argument `Io`. An outer `none` is a panic.
pub mod Expiry
pub mod Events
pub mod Intake
pub mod Poll
pub mod Deadlines
pub mod Kept
pub mod Turn
pub mod Loop
pub mod Life
use bullet_ledger.Base.{
  ◌≡◌, ℕ, zero, suc, ◌+◌, ◌-◌, ◌*◌, ◌==◌, ◌&&◌, Bool, true, false, Option, none, some, List, [],
  ◌∷◌, if◌then◌else◌, ltb, ◌>>=◌,
}
use bullet_ledger.Base.Assoc.{lookup, insert, remove, contains}
use bullet_ledger.Peers.{SocketAddr, NetError, socket_failed, other}
use bullet_ledger.Net.Message.{NetMsg}
use bullet_ledger.Net.Hub.{Hub}
use bullet_ledger.Net.Socket.{Socket}

-- `Result<A, NetError>`
pub data Answer (A : Type 0) : Type 0 where
  done : A → Answer A
  failed : NetError → Answer A

-- The trait of connections, with what a server relies on.
pub record TcpConnection (C Io : Type 0) : Type 0 where
  pub new : Io → ℕ → Hub → C × Hub
  pub reset : C → Hub → C × Hub
  pub initialize : Socket → SocketAddr → Option (List ℕ) → ℕ → C → Hub → C × Hub
  pub on_readable : Io → C → Hub → Option (Answer Bool × C × Hub)
  pub on_writable : Io → C → Hub → Option (Answer Bool × C × Hub)
  pub get_last_deadline : C → ℕ
  pub set_last_deadline : ℕ → C → C
  pub enqueue_msg : Io → NetMsg → C → Hub → Option NetMsg × C × Hub
  pub get_addr : C → Option SocketAddr
  pub initiate_negotiation : Io → C → Hub → Answer (Unit {0}) × C × Hub
  pub get-set_last_deadline : (d : ℕ) (c : C) → get_last_deadline (set_last_deadline d c) ≡ d
  pub deadline-enqueue_msg :
      (io : Io) (m : NetMsg) (c : C) (h : Hub)
      → get_last_deadline (enqueue_msg io m c h).1 ≡ get_last_deadline c

pub record TimeoutEntry : Type 0 where
  pub when : ℕ
  pub token : ℕ

-- `push` on the heap of entries, which is the list of them in the order of its pops.
unfoldable pub push : TimeoutEntry → List TimeoutEntry → List TimeoutEntry
push entry [] = entry ∷ []
push entry (e ∷ es) =
    let rest = push entry es in if ltb entry.when e.when then entry ∷ e ∷ es else e ∷ rest

-- The other fields of `NetServer`.
pub record Server (C : Type 0) : Type 0 where
  pub hub : Hub
  pub time_table : List TimeoutEntry
  pub token_map : List (SocketAddr × ℕ)
  pub connections : List C
  pub idle_timeout : ℕ
  pub idle_polltimeout : ℕ

-- `timeout` is in seconds.
unfoldable pub next_deadline : ℕ → ℕ → ℕ
next_deadline now timeout = now + timeout * 1000

module _ {C Io : Type 0} (T : TcpConnection C Io) where
  abbrev ConnMapping : Type 0
  ConnMapping = List (ℕ × C)

  -- What becomes of an entry that was popped.
  unfoldable pub expire_entry : TimeoutEntry → ConnMapping → Hub → ConnMapping × Hub
  expire_entry entry maps hub = elim (lookup entry.token maps) [
    | none ↦ (maps, hub)
    | some c ↦
        if T.get_last_deadline c == entry.when
        then (remove entry.token maps, (T.reset c hub).1)
        else (maps, hub)
  ]

  -- The loop of `handle_timeouts`, with the time until the entry that ended it.
  unfoldable pub expire :
      ℕ → List TimeoutEntry → ConnMapping → Hub → Option ℕ × List TimeoutEntry × ConnMapping × Hub
  unfolding expire_entry
  expire now [] maps hub = (none, [], maps, hub)
  expire now (entry ∷ table) maps hub =
      let after = expire_entry entry maps hub in
      let rest = expire now table after.0 after.1 in
      if ltb now entry.when && contains entry.token maps
      then (some (entry.when - now), entry ∷ table, maps, hub)
      else rest

  unfoldable pub handle_timeouts : ℕ → Server C → ConnMapping → ℕ × Server C × ConnMapping
  unfolding expire
  handle_timeouts now s maps =
      let (wait, table, maps', hub) = expire now s.time_table maps s.hub in
      (
        elim wait [ none ↦ s.idle_polltimeout | some d ↦ d ],
        record s { time_table = table; hub = hub },
        maps',
      )

  unfoldable pub update_timeout : ℕ → ℕ → Server C → ConnMapping → Server C × ConnMapping
  unfolding push next_deadline
  update_timeout now token s maps = elim (lookup token maps) [
    | none ↦ (s, maps)
    | some c ↦
        let c' = T.set_last_deadline (next_deadline now s.idle_timeout) c in
        (
          record s {
            time_table =
                push (record { when = T.get_last_deadline c'; token = token }) s.time_table;
          },
          insert token c' maps,
        )
  ]

  unfoldable pub get_conn : Io → ℕ → Socket → SocketAddr → Option (List ℕ) → Server C → C × Server C
  get_conn io now stream addr pub_key s =
      let got : C × Hub × List C = (elim s.connections [
        | [] ↦ let (new, hub) = T.new io now s.hub in (new, hub, [])
        | c ∷ cs ↦ (c, s.hub, cs)
      ]) in
      let (c', hub') = T.initialize stream addr pub_key now got.0 got.1 in
      (c', record s { hub = hub'; connections = got.2 })

  unfoldable pub put_conn : C → Server C → Server C
  put_conn c s =
      let (c', hub) = T.reset c s.hub in record s { hub = hub; connections = c' ∷ s.connections }
