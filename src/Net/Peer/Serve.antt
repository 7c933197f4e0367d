-- ===== src/Net/Peer/Serve.antt =====
-- src/peer_net/connection.rs: `impl TcpConnection for PeerConnection`, for the server of src/server.rs.
use bullet_ledger.Base.{
  ◌≡◌, ℕ, ◌+◌, ◌<◌, ◌==◌, ◌&&◌, not, Bool, false, Option, none, some, List, length, refl, ap, ◌∙◌,
  arith, inl, inr, Bool-cases, Option-cases,
}
use bullet_ledger.Base.Slices.{slice}
use bullet_ledger.Base.Assoc.{lookup}
use bullet_ledger.Header.{negotiation_syn, header_len}
use bullet_ledger.Net.Message.{NetMsg}
use bullet_ledger.Net.Hub.{Hub}
use bullet_ledger.Net.Server.{Answer, TcpConnection}
use bullet_ledger.Net.Peer.{
  Ciphers, PeerIo, PeerConnection, new, reset, initialize, enqueue_msg, initiate_negotiation,
}
use bullet_ledger.Net.Peer.Handle.{
  take_next, handle_syn, negotiation_as, handle_negotiation, switch, code_switcher,
}
use bullet_ledger.Net.Peer.Read.{Ending, panics, returns, is_negotiation, process_packet, read_loop}
use bullet_ledger.Net.Peer.Read.Rounds.{rounds_left}
use bullet_ledger.Net.Peer.Write.{on_writable}

module _ (c : Ciphers) where
  -- What the server sees of the end of the loop.
  unfoldable pub ended : Option (Ending c) → Option (Answer Bool × PeerConnection c × Hub)
  ended none = none
  ended (some panics) = none
  ended (some (returns answer self server)) = some (answer, self, server)

  -- The loop, with the rounds that `read_loop-ends` shows to be enough.
  unfoldable pub on_readable :
      PeerIo → PeerConnection c → Hub → Option (Answer Bool × PeerConnection c × Hub)
  unfolding ended read_loop rounds_left
  on_readable io self server = ended (read_loop c (rounds_left c self) io self server)

  pub deadline-enqueue :
      (io : PeerIo) (m : NetMsg) (self : PeerConnection c) (server : Hub)
      → (enqueue_msg c io m self server).1.last_deadline ≡ self.last_deadline
  unfolding enqueue_msg
  deadline-enqueue io m self server =
      elim (Bool-cases (length self.outbound == 0 && not io.reregisters)) [
        | inl refused ↦ rw refused refl
        | inr queued ↦ rw queued refl
      ]

  -- `idle_timeout` is the server's.
  unfoldable pub peer_connection : ℕ → TcpConnection (PeerConnection c) PeerIo
  unfolding new reset initialize on_readable on_writable enqueue_msg initiate_negotiation
  peer_connection idle_timeout = record {
    new = λ io now server. new c io.header_id io.msg_id idle_timeout now server;
    reset = reset c;
    initialize = initialize c;
    on_readable = on_readable;
    on_writable = on_writable c;
    get_last_deadline = λ self. self.last_deadline;
    set_last_deadline = λ deadline self. record self { last_deadline = deadline };
    enqueue_msg = enqueue_msg c;
    get_addr = λ self. self.addr;
    initiate_negotiation = initiate_negotiation c;
    get-set_last_deadline = λ deadline self. refl;
    deadline-enqueue_msg = deadline-enqueue;
  }

  short_slice : (a n : ℕ) (buf : List ℕ) → length buf < a + n → slice a n buf ≡ none
  unfolding slice
  short_slice a n buf short = ground (arith, short)

  syn-short :
      (io : PeerIo) (self : PeerConnection c) (server : Hub)
      → length self.read_buf < 67
      → handle_syn c io self server ≡ none
  unfolding handle_syn take_next
  syn-short io self server short = elim (Option-cases (slice 3 32 self.read_buf)) [
    | inl lost ↦ rw (lost, handle_syn) refl
    | inr (bs, h) ↦ rw (h, short_slice 35 32 self.read_buf short, handle_syn) refl
  ]

  switch-syn :
      (io : PeerIo) (self : PeerConnection c) (server : Hub)
      → self.read_header.code ≡ negotiation_syn
      → code_switcher c io self server ≡ handle_syn c io self server
  unfolding code_switcher switch handle_negotiation negotiation_as
  switch-syn io self server syn =
      ap (λ code. switch c code io self server) syn
      ∙ ap (λ code. negotiation_as c code io self server) syn

  -- A packet of a first negotiation with less than 67 bytes, for whose id no handler waits, is a panic: whoever sent it,
  -- and whether or not the connection is negotiated.
  pub short_negotiation-panics :
      (io : PeerIo) (self : PeerConnection c) (server : Hub)
      → self.read_header.code ≡ negotiation_syn
      → lookup self.read_header.msg_id self.inbound_handlers ≡ none
      → length self.read_buf < 67
      → process_packet c io self server ≡ none
  unfolding process_packet is_negotiation
  short_negotiation-panics io self server syn unhandled short =
      let self1 : PeerConnection c = record self { read_pos = header_len } in
      let passes : (not self.is_negotiated && not (is_negotiation self.read_header.code)) ≡ false =
        rw syn (ground arith) in
      let lost : code_switcher c io self1 server ≡ none =
        switch-syn io self1 server syn ∙ syn-short io self1 server short in
      rw (passes, unhandled, process_packet) (rw lost refl)
