-- ===== src/Net/Server/Intake.antt =====
-- src/server.rs: the messages that another thread has sent, in the order in which they are popped.
use bullet_ledger.Base.{ℕ, Option, none, some, List, [], ◌∷◌, if◌then◌else◌}
use bullet_ledger.Net.Message.{NetMsg, is_internal}
use bullet_ledger.Net.Hub.{get_new_msg}
use bullet_ledger.Net.Server.{TcpConnection, Server}
use bullet_ledger.Net.Server.Events.{Stream, handle_outbound}

-- A message, with what a dial for it would give, the id drawn for a message that is made, and what is drawn and the clock
-- while it is handled.
pub record Popped (Io : Type 0) : Type 0 where
  pub msg : NetMsg
  pub stream : Option Stream
  pub id : ℕ
  pub io : Io
  pub now : ℕ

module _ {C Io : Type 0} (T : TcpConnection C Io) where
  -- What a message leaves: the message that is recycled, the server and the connections.
  -- `handle_from_internal` is the caller's.
  unfoldable pub take_msg :
      (NetMsg → Server C → Option NetMsg × Server C)
      → Popped Io
      → Server C
      → List (ℕ × C)
      → Option NetMsg × Server C × List (ℕ × C)
  unfolding is_internal handle_outbound get_new_msg
  take_msg handle_from_internal p s maps =
      let (answer, s1) = handle_from_internal p.msg s in
      let (back, s2, maps2) = handle_outbound T p.io p.now p.stream p.msg s maps in
      let (new, hub) = get_new_msg p.id s2.hub in
      if is_internal p.msg.code then (answer, s1, maps) else (elim back [
        | some m ↦ (some m, s2, maps2)
        | none ↦ (some new, record s2 { hub = hub }, maps2)
      ])

  -- The loop; the messages that are recycled come in order.
  unfoldable pub take_msgs :
      (NetMsg → Server C → Option NetMsg × Server C)
      → List (Popped Io)
      → Server C
      → List (ℕ × C)
      → List NetMsg × Server C × List (ℕ × C)
  unfolding take_msg
  take_msgs handle_from_internal [] s maps = ([], s, maps)
  take_msgs handle_from_internal (p ∷ ps) s maps =
      let (back, s1, maps1) = take_msg handle_from_internal p s maps in
      let (rest, s2, maps2) = take_msgs handle_from_internal ps s1 maps1 in
      (elim back [ none ↦ rest | some m ↦ m ∷ rest ], s2, maps2)
