-- ===== src/Net/Peer/Handle/Answers.antt =====
-- What the two ends of a negotiation make of each other's packets.
use bullet_ledger.Base.{
  ◌≡◌, ℕ, ◌+◌, ◌-◌, true, some, List, [], ◌∷◌, ◌++◌, if◌then◌else◌, length, drop, refl, ap, ◌∙◌,
  arith, drop-append_ge,
}
use bullet_ledger.Base.Slices.{slice, length-resize}
use bullet_ledger.Base.Windows.{slice-middle, slice-skip, slice-last}
use bullet_ledger.Header.{negotiation_ack, associated, reset_buffer}
use bullet_ledger.Net.Message.{NetMsg, external, fill_fd_and_id}
use bullet_ledger.Net.Hub.{Hub, get_new_msg}
use bullet_ledger.Net.Server.{done}
use bullet_ledger.Net.Peer.{Ciphers, PeerIo, PeerConnection, reading_prefix, idle, enable_writable}
use bullet_ledger.Net.Peer.Handle.{
  writes, nothing, bytes_equal, hash2, session_key, take_next, handle_syn, handle_ack,
}

bytes_equal_self : (bs : List ℕ) → bytes_equal bs bs ≡ true
unfolding bytes_equal
bytes_equal_self [] = refl
bytes_equal_self (b ∷ bs) = ground (arith, bytes_equal_self bs)

pub length-reset_buffer : (bs : List ℕ) → length (reset_buffer bs) ≡ 39
unfolding reset_buffer
length-reset_buffer bs = length-resize 39 0 bs

pub drop-front : (k : ℕ) (p q : List ℕ) → length p ≡ k → drop k (p ++ q) ≡ q
drop-front k p q lp =
    let none_left : k - length p ≡ 0 = omega (arith, lp) in
    drop-append_ge k p q (omega (arith, lp)) ∙ ap (λ j. drop j q) none_left

module _ (c : Ciphers) where
  take_next-some :
      (n : ℕ) (self : PeerConnection c) (bs : List ℕ)
      → slice self.read_pos n self.read_buf ≡ some bs
      → take_next c n self ≡ some (bs, record self { read_pos = self.read_pos + n })
  unfolding take_next
  take_next-some n self bs e = rw (e, take_next) refl

  -- The answer to a first packet.
  abbrev pub ack_body : PeerIo → Hub → List ℕ → List ℕ → List ℕ
  ack_body io server tag sealed = server.pub_key ++ (io.salt ++ (io.nonce ++ (tag ++ sealed)))

  pub syn-answered :
      (io : PeerIo) (self : PeerConnection c) (server : Hub) (hd remote salt sealed tag : List ℕ)
      → self.read_buf ≡ hd ++ (remote ++ salt)
      → length hd ≡ 3
      → length remote ≡ 32
      → length salt ≡ 32
      → c.aead.encrypt
          (session_key c server.priv_key remote (hash2 c salt io.salt))
          io.nonce
          associated
          (hash2 c salt io.salt)
        ≡ some (sealed, tag)
      → (m : NetMsg) × (self' : PeerConnection c) × (server' : Hub) × (handle_syn c io self server
          ≡ some (done (writes m), self', server'))
        × (drop 39 m.body ≡ ack_body io server tag sealed)
        × (self'.key ≡ session_key c server.priv_key remote (hash2 c salt io.salt))
        × (self'.is_acking ≡ true)
  unfolding handle_syn take_next get_new_msg fill_fd_and_id
  syn-answered io self server hd remote salt sealed tag buf lh lr ls sealing =
      let s1 : slice 3 32 self.read_buf ≡ some remote =
        rw buf (slice-middle 3 32 hd remote salt lh lr) in
      let s2 : slice 35 32 self.read_buf ≡ some salt =
        rw buf (slice-skip 3 32 32 hd (remote ++ salt) lh ∙ slice-last 32 32 remote salt lr ls) in
      let fetched = get_new_msg io.msg_id server in
      let m : NetMsg = record (fill_fd_and_id io.msg_id self.token fetched.0) {
        body = fetched.0.body ++ ack_body io server tag sealed;
        code = external negotiation_ack;
      } in
      let self' : PeerConnection c = record self {
        read_pos = 67;
        remote_pub_key = remote;
        key = session_key c server.priv_key remote (hash2 c salt io.salt);
        is_acking = true;
      } in
      (
        m,
        self',
        fetched.1,
        rw (s1, s2, handle_syn) (rw (sealing, handle_syn) refl),
        drop-front 39 fetched.0.body (ack_body io server tag sealed) (length-reset_buffer _),
        refl,
        refl,
      )

  pub ack-accepted :
      (io : PeerIo) (self : PeerConnection c) (server : Hub)
      (hd remote salt nonce tag sealed : List ℕ)
      → self.read_buf ≡ hd ++ (remote ++ (salt ++ (nonce ++ (tag ++ sealed))))
      → length hd ≡ 3
      → length remote ≡ 32
      → length salt ≡ 32
      → length nonce ≡ 12
      → length tag ≡ 16
      → length sealed ≡ 32
      → c.aead.decrypt
          (session_key c server.priv_key remote (hash2 c self.remote_pub_key salt))
          nonce
          associated
          sealed
          tag
        ≡ some (hash2 c self.remote_pub_key salt)
      → (self' : PeerConnection c) × (server' : Hub) × (handle_ack c io self server
          ≡ some (done nothing, self', server'))
        × (self'.key ≡ session_key c server.priv_key remote (hash2 c self.remote_pub_key salt))
        × (self'.is_negotiated ≡ true)
  unfolding handle_ack take_next
  ack-accepted io self server hd remote salt nonce tag sealed buf lh lr ls ln lt le opening =
      let r4 : List ℕ = tag ++ sealed in
      let r3 : List ℕ = nonce ++ r4 in
      let r2 : List ℕ = salt ++ r3 in
      let r1 : List ℕ = remote ++ r2 in
      let s1 : slice 3 32 self.read_buf ≡ some remote =
        rw buf (slice-middle 3 32 hd remote r2 lh lr) in
      let s2 : slice 35 32 self.read_buf ≡ some salt =
        rw buf (slice-skip 3 32 32 hd r1 lh ∙ slice-middle 32 32 remote salt r3 lr ls) in
      let s3 : slice 67 12 self.read_buf ≡ some nonce = rw buf (
        slice-skip 3 64 12 hd r1 lh
        ∙ (slice-skip 32 32 12 remote r2 lr ∙ slice-middle 32 12 salt nonce r4 ls ln)) in
      let s4 : slice 79 16 self.read_buf ≡ some tag = rw buf (
        slice-skip 3 76 16 hd r1 lh
        ∙ (slice-skip 32 44 16 remote r2 lr
            ∙ (slice-skip 32 12 16 salt r3 ls ∙ slice-middle 12 16 nonce tag sealed ln lt))) in
      let s5 : slice 95 32 self.read_buf ≡ some sealed = rw buf (
        slice-skip 3 92 32 hd r1 lh
        ∙ (slice-skip 32 60 32 remote r2 lr
            ∙ (slice-skip 32 28 32 salt r3 ls
                ∙ (slice-skip 12 16 32 nonce r4 ln ∙ slice-last 16 32 tag sealed lt le)))) in
      let done_self : PeerConnection c = record self {
        read_pos = 127;
        remote_pub_key = remote;
        key = session_key c server.priv_key remote (hash2 c self.remote_pub_key salt);
        read_header = record self.read_header { nonce = nonce; tag = tag };
        is_negotiated = true;
        read_state = some reading_prefix;
        write_state = some idle;
      } in
      (
        done_self,
        (if io.reregisters then enable_writable c done_self server else server),
        rw (s1, s2, s3, s4, s5, handle_ack) (rw (opening, bytes_equal_self _, handle_ack) refl),
        refl,
        refl,
      )
