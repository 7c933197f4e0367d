-- ===== src/Net/Ping.antt =====
-- src/peer_net/ping_pong.rs: a ping that another thread sends through the network thread.
use bullet_ledger.Base.{ℕ, Option, none, some, List, [], ◌∷◌, ◌++◌}
use bullet_ledger.Base.Words.{to_le_bytes}
use bullet_ledger.Header.{ping}
use bullet_ledger.Peers.{SocketAddr}
use bullet_ledger.Net.Message.{NetMsg, handle_pong, external}
use bullet_ledger.Net.Hub.{Link, try_push, collect}

-- The loop of tries, on the link as each try finds it; `none`: it is full at all of them.
unfoldable pub send_tries : NetMsg → List Link → Option Link
unfolding try_push
send_tries m [] = none
send_tries m (l ∷ later) =
    let (l', back) = try_push m l in
    let rest = send_tries m later in elim back [ none ↦ some l' | some m' ↦ rest ]

-- The first try is on the link of which the message was collected, the others on the link as it is `later`.
unfoldable pub send_ping : ℕ → SocketAddr → List ℕ → ℕ → Option ℕ → Link → List Link → Option Link
unfolding collect send_tries
send_ping id remote_addr remote_pub_key from index link later =
    let (m, link1) = collect id link in
    let body = m.body ++ (b'P' ∷ b'i' ∷ b'n' ∷ b'g' ∷ []) in
    let m1 = record m {
      addr = some remote_addr;
      pub_key = some remote_pub_key;
      code = external ping;
      from_code = from;
      body = (elim index [ none ↦ body | some i ↦ body ++ to_le_bytes 8 i ]);
      handler = some handle_pong;
    } in
    send_tries m1 (link1 ∷ later)
