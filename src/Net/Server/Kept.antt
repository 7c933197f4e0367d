-- ===== src/Net/Server/Kept.antt =====
-- src/server.rs: the table of deadlines under new connections and outgoing messages.
use bullet_ledger.Base.{
  ◌≡◌, ℕ, not, ◌||◌, Bool, true, false, Option, none, some, List, refl, arith, inl, inr,
  Option-cases, Bool-cases, ◌>>=◌,
}
use bullet_ledger.Base.Assoc.{lookup, insert}
use bullet_ledger.Peers.{SocketAddr}
use bullet_ledger.Net.Message.{NetMsg}
use bullet_ledger.Net.Server.{Answer, done, failed, TcpConnection, Server, get_conn}
use bullet_ledger.Net.Server.Events.{
  Stream, place, handle_new, settle, enqueue, at_token, find_active, after_dial, dial,
  handle_outbound,
}
use bullet_ledger.Net.Server.Deadlines.{Timed, keep-Timed, update_timeout-Timed, insert-elsewhere}

module _ {C Io : Type 0} (T : TcpConnection C Io) where
  place-Timed :
      (now : ℕ) (stream : Stream) (addr : SocketAddr) (c : C) (s : Server C) (maps : List (ℕ × C))
      → lookup stream.socket.token maps ≡ none
      → Timed T s maps
      → Timed T (place T now stream addr c s maps).0 (place T now stream addr c s maps).1
  unfolding place
  place-Timed now stream addr c s maps fresh (covered, sorted) =
      rw (fresh, place)
        (update_timeout-Timed T now stream.socket.token _ (insert stream.socket.token c maps) (
          (λ u d apart h. covered u d (insert-elsewhere stream.socket.token u c d maps apart h)),
          sorted,
        ))

  settle-Timed :
      (now : ℕ) (stream : Stream) (addr : SocketAddr) (s : Server C) (maps : List (ℕ × C))
      (goes_on : Bool) (c : C)
      → lookup stream.socket.token maps ≡ none
      → Timed T s maps
      → Timed T
          (settle T now stream addr s maps goes_on c).1
          (settle T now stream addr s maps goes_on c).2
  unfolding settle
  settle-Timed now stream addr s maps true c fresh timed =
      place-Timed now stream addr c s maps fresh timed
  settle-Timed now stream addr s maps false c fresh timed = timed

  pub handle_new-Timed :
      (io : Io) (now : ℕ) (stream : Stream) (addr : SocketAddr) (key : Option (List ℕ))
      (outbound : Bool) (s : Server C) (maps : List (ℕ × C))
      → lookup stream.socket.token maps ≡ none
      → Timed T s maps
      → Timed T
          (handle_new T io now stream addr key outbound s maps).1
          (handle_new T io now stream addr key outbound s maps).2
  unfolding handle_new get_conn
  handle_new-Timed io now stream addr key outbound s maps fresh timed =
      elim (Bool-cases (not stream.nodelay || not stream.registers)) [
        | inl refused ↦ rw (refused, handle_new) timed
        | inr fine ↦ rw (fine, handle_new) (settle-Timed now stream addr _ maps _ _ fresh timed)
      ]

  enqueue-Timed :
      (io : Io) (t : ℕ) (c : C) (m : NetMsg) (s : Server C) (maps : List (ℕ × C))
      → lookup t maps ≡ some c
      → Timed T s maps
      → Timed T (enqueue T io t c m s maps).1 (enqueue T io t c m s maps).2
  unfolding enqueue
  enqueue-Timed io t c m s maps e timed =
      keep-Timed T t c (T.enqueue_msg io m c s.hub).1 s maps e (T.deadline-enqueue_msg io m c s.hub)
        timed

  at_token-lookup :
      (o : Option ℕ) (maps : List (ℕ × C)) (t : ℕ) (c : C)
      → (o >>= at_token T maps) ≡ some (t, c)
      → lookup t maps ≡ some c
  unfolding at_token
  at_token-lookup none maps t c e = grind (arith, e)
  at_token-lookup (some u) maps t c e = elim (Option-cases (lookup u maps)) [
    | inl absent ↦ grind (arith, absent, e)
    | inr (d, h) ↦ grind (arith, h, e)
  ]

  find_active-lookup :
      (m : NetMsg) (s : Server C) (maps : List (ℕ × C)) (t : ℕ) (c : C)
      → find_active T m s maps ≡ some (t, c)
      → lookup t maps ≡ some c
  unfolding find_active
  find_active-lookup m s maps t c e = at_token-lookup _ maps t c e

  after_dial-Timed :
      (io : Io) (m : NetMsg) (answer : Answer ℕ) (s : Server C) (maps : List (ℕ × C))
      → Timed T s maps
      → Timed T (after_dial T io m answer s maps).1 (after_dial T io m answer s maps).2
  unfolding after_dial
  after_dial-Timed io m (failed e) s maps timed = timed
  after_dial-Timed io m (done t) s maps timed = elim (Option-cases (lookup t maps)) [
    | inl absent ↦ rw (absent, after_dial) timed
    | inr (c, e) ↦ rw (e, after_dial) (enqueue-Timed io t c m s maps e timed)
  ]

  dial-Timed :
      (io : Io) (now : ℕ) (stream : Option Stream) (addr : SocketAddr) (m : NetMsg) (s : Server C)
      (maps : List (ℕ × C))
      → ((new : Stream) → stream ≡ some new → lookup new.socket.token maps ≡ none)
      → Timed T s maps
      → Timed T (dial T io now stream addr m s maps).1 (dial T io now stream addr m s maps).2
  unfolding dial
  dial-Timed io now none addr m s maps fresh timed = timed
  dial-Timed io now (some new) addr m s maps fresh timed =
      after_dial-Timed io _ _ _ _
        (handle_new-Timed io now new addr m.pub_key true s maps (fresh new refl) timed)

  pub handle_outbound-Timed :
      (io : Io) (now : ℕ) (stream : Option Stream) (m : NetMsg) (s : Server C) (maps : List (ℕ × C))
      → ((new : Stream) → stream ≡ some new → lookup new.socket.token maps ≡ none)
      → Timed T s maps
      → Timed T
          (handle_outbound T io now stream m s maps).1
          (handle_outbound T io now stream m s maps).2
  unfolding handle_outbound
  handle_outbound-Timed io now stream m s maps fresh timed =
      elim (Option-cases (find_active T m s maps)) [
        | inr ((t, c), e) ↦
            rw (e, handle_outbound)
              (enqueue-Timed io t c _ s maps (find_active-lookup m s maps t c e) timed)
        | inl none_active ↦ elim (Option-cases m.addr) [
          | inl unaddressed ↦ rw (none_active, handle_outbound) (rw unaddressed timed)
          | inr (addr, e) ↦
              rw (none_active, handle_outbound)
                (rw e (dial-Timed io now stream addr _ s maps fresh timed))
        ]
      ]
