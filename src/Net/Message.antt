-- ===== src/Net/Message.antt =====
-- src/utils/msg.rs: the messages between threads. A token is a number; a random id is an argument.
use bullet_ledger.Base.{ℕ, Bool, true, false, Option, none, List, ◌++◌}
use bullet_ledger.Header.{PacketCode, new_buffer, reset_buffer}
use bullet_ledger.Peers.{SocketAddr}

pub data NetManCode : Type 0 where
  no_action : NetManCode
  adds_peer : NetManCode
  removes_peer : NetManCode

pub data NetMsgCode : Type 0 where
  internal : NetManCode → NetMsgCode
  external : PacketCode → NetMsgCode

unfoldable pub is_internal : NetMsgCode → Bool
is_internal (internal code) = true
is_internal (external code) = false

-- The one function that the program stores as a `Handler`.
pub data Handler : Type 0 where
  handle_pong : Handler

pub record NetMsg : Type 0 where
  pub id : ℕ
  pub from_code : ℕ
  pub stream_token : ℕ
  pub addr : Option SocketAddr
  pub pub_key : Option (List ℕ)
  pub code : NetMsgCode
  pub body : List ℕ
  pub handler : Option Handler

-- The code and the handler stay.
unfoldable pub reset : ℕ → NetMsg → NetMsg
reset id m = record m {
  id = id;
  stream_token = 0;
  from_code = 0;
  addr = none;
  pub_key = none;
  body = reset_buffer m.body;
}

unfoldable pub new : ℕ → NetMsg
unfolding reset
new id = reset id (record {
  id = id;
  from_code = 0;
  stream_token = 0;
  addr = none;
  pub_key = none;
  code = internal no_action;
  body = new_buffer;
  handler = none;
})

unfoldable pub fill_fd_and_id : ℕ → ℕ → NetMsg → NetMsg
fill_fd_and_id id token m = record m {
  id = id;
  stream_token = token;
  from_code = 0;
  addr = none;
  pub_key = none;
}

unfoldable pub fill_for_internal : ℕ → ℕ → NetManCode → List ℕ → NetMsg → NetMsg
unfolding reset
fill_for_internal id from_code code buff m =
    let m0 = reset id m in
    record m0 { from_code = from_code; code = internal code; body = m0.body ++ buff }
