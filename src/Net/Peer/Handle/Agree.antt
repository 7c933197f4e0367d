-- ===== src/Net/Peer/Handle/Agree.antt =====
-- The two ends of a negotiation come to the same key.
use bullet_ledger.Base.{
  ◌≡◌, ℕ, ◌==◌, ◌&&◌, not, true, false, none, some, List, [], ◌∷◌, ◌++◌, if◌then◌else◌, length,
  drop, refl, sym, ap, ◌∙◌, arith,
}
use bullet_ledger.Header.{negotiation_syn, associated}
use bullet_ledger.Net.Message.{NetMsg, external, fill_fd_and_id}
use bullet_ledger.Net.Keys.{
  generate_keypair, length-keypair, hkdf_derive_key, ecdh_shared_secret,
  ecdh_shared_secret-symmetric,
}
use bullet_ledger.Net.Hub.{Hub, get_new_msg}
use bullet_ledger.Net.Server.{done}
use bullet_ledger.Net.Peer.{
  Ciphers, PeerIo, PeerConnection, enable_writable, enqueue_msg, begun, initiate_negotiation,
}
use bullet_ledger.Net.Peer.Handle.{writes, nothing, hash2, session_key, handle_syn, handle_ack}
use bullet_ledger.Net.Peer.Handle.Answers.{
  length-reset_buffer, drop-front, syn-answered, ack-accepted,
}

module _ (c : Ciphers) where
  enqueue-queues :
      (io : PeerIo) (m : NetMsg) (self : PeerConnection c) (server : Hub)
      → (length self.outbound == 0 && not io.reregisters) ≡ false
      → enqueue_msg c io m self server ≡ (
        none,
        record self { outbound = self.outbound ++ m ∷ [] },
        (if length self.outbound == 0 then enable_writable c self server else server),
      )
  unfolding enqueue_msg
  enqueue-queues io m self server kept = rw kept refl

  -- The first packet of a negotiation.
  initiated :
      (io : PeerIo) (self : PeerConnection c) (server : Hub)
      → io.reregisters ≡ true
      → (syn : NetMsg) × (self' : PeerConnection c) × (server' : Hub) × (initiate_negotiation c io
            self server
          ≡ (done tt, self', server'))
        × (self'.outbound ≡ self.outbound ++ syn ∷ [])
        × (drop 39 syn.body ≡ server.pub_key ++ io.salt)
        × (self'.remote_pub_key ≡ io.salt)
  unfolding initiate_negotiation begun get_new_msg fill_fd_and_id
  initiated io self server works =
      let fetched = get_new_msg io.msg_id server in
      let kept : (length self.outbound == 0 && not io.reregisters) ≡ false =
        ground (arith, works) in
      let filled = fill_fd_and_id io.msg_id self.token fetched.0 in
      let syn : NetMsg = record filled {
        body = fetched.0.body ++ (server.pub_key ++ io.salt);
        code = external negotiation_syn;
      } in
      let opened : PeerConnection c = record self { is_negotiated = false } in
      (
        syn,
        record opened { outbound = self.outbound ++ syn ∷ []; remote_pub_key = io.salt },
        (if length self.outbound == 0 then enable_writable c opened fetched.1 else fetched.1),
        ap (begun c io) (enqueue-queues io syn opened fetched.1 kept),
        refl,
        drop-front 39 fetched.0.body (server.pub_key ++ io.salt) (length-reset_buffer _),
        refl,
      )

  session_key-agrees :
      (raw raw' pub_key priv_key pub_key' priv_key' : List ℕ)
      → generate_keypair c.exchange raw ≡ (pub_key, priv_key)
      → generate_keypair c.exchange raw' ≡ (pub_key', priv_key')
      → (salt : List ℕ)
      → session_key c priv_key pub_key' salt ≡ session_key c priv_key' pub_key salt
  unfolding session_key
  session_key-agrees raw raw' pub_key priv_key pub_key' priv_key' keys keys' salt =
      let shared : ecdh_shared_secret c.exchange priv_key pub_key'
          ≡ ecdh_shared_secret c.exchange priv_key' pub_key =
        ap (λ p. ecdh_shared_secret c.exchange p.1 pub_key') (sym keys)
        ∙ (ap (λ p. ecdh_shared_secret c.exchange (generate_keypair c.exchange raw).1 p.0)
              (sym keys')
            ∙ (ecdh_shared_secret-symmetric c.exchange raw raw'
                ∙ (ap (λ p. ecdh_shared_secret c.exchange p.1 (generate_keypair c.exchange raw).0)
                      keys'
                    ∙ ap (λ p. ecdh_shared_secret c.exchange priv_key' p.0) keys))) in
      ap (λ secret. c.key_from_slice (hkdf_derive_key c.exchange secret associated salt)) shared

  -- When two nodes with generated keys negotiate, the initiator's first packet behind any header makes the other end
  -- write a packet which, behind any header, the initiator accepts: it is negotiated then, the other end is to
  -- acknowledge, and both have the same key. The conditions: the nodes' keys were generated from 32 bytes, the salts have
  -- 32 bytes and the nonce 12, headers have 3, ChaCha20Poly1305 seals 32 bytes, and the initiator's stream registers.
  pub negotiation-agrees :
      (raw raw' : List ℕ) (io io' : PeerIo) (a b : PeerConnection c) (server server' : Hub)
      (hd hd' : List ℕ)
      → length raw ≡ 32
      → length raw' ≡ 32
      → generate_keypair c.exchange raw ≡ (server.pub_key, server.priv_key)
      → generate_keypair c.exchange raw' ≡ (server'.pub_key, server'.priv_key)
      → length io.salt ≡ 32
      → length io'.salt ≡ 32
      → length io'.nonce ≡ 12
      → length hd ≡ 3
      → length hd' ≡ 3
      → io.reregisters ≡ true
      → ((key : c.aead.Key) (nonce plain : List ℕ)
          → length plain ≡ 32
          → (r : List ℕ × List ℕ) × (c.aead.encrypt key nonce associated plain ≡ some r))
      → (syn : NetMsg) × (ack : NetMsg) × (a1 : PeerConnection c) × (a2 : PeerConnection c)
        × (b2 : PeerConnection c) × (s1 : Hub) × (s2 : Hub) × (s2' : Hub) × (initiate_negotiation c
              io a server
            ≡ (done tt, a1, s1))
        × (a1.outbound ≡ a.outbound ++ syn ∷ [])
        × (handle_syn c io' (record b { read_buf = hd ++ drop 39 syn.body }) server'
            ≡ some (done (writes ack), b2, s2'))
        × (handle_ack c io (record a1 { read_buf = hd' ++ drop 39 ack.body }) server
            ≡ some (done nothing, a2, s2))
        × (a2.key ≡ b2.key)
        × (a2.is_negotiated ≡ true)
        × (b2.is_acking ≡ true)
  negotiation-agrees raw raw' io io' a b server server' hd hd' lraw lraw' keys keys' ls ls' ln lh
        lh' works seals =
      let (syn, a1, s1, begins, queued, syn_body, salted) = initiated io a server works in
      let l : length server.pub_key ≡ 32 =
        ap (λ p. length p.0) (sym keys) ∙ (length-keypair c.exchange raw lraw).0 in
      let l' : length server'.pub_key ≡ 32 =
        ap (λ p. length p.0) (sym keys') ∙ (length-keypair c.exchange raw' lraw').0 in
      let salt = hash2 c io.salt io'.salt in
      let ls0 : length salt ≡ 32 = c.length-blake3 (io.salt ++ io'.salt) in
      let key = session_key c server'.priv_key server.pub_key salt in
      let ((sealed, tag), sealing) = seals key io'.nonce salt ls0 in
      let (le, lt) = c.aead.length-encrypt key io'.nonce associated salt sealed tag sealing in
      let (ack, b2, s2', answers, ack_bytes, b_key, acking) =
        syn-answered c io' (record b { read_buf = hd ++ drop 39 syn.body }) server' hd
          server.pub_key io.salt sealed tag (ap (λ p. hd ++ p) syn_body) lh l ls sealing in
      let agree : session_key c server.priv_key server'.pub_key salt ≡ key =
        session_key-agrees raw raw' _ _ _ _ keys keys' salt in
      let (a2, s2, accepts, a_key, negotiated) =
        ack-accepted c io (record a1 { read_buf = hd' ++ drop 39 ack.body }) server hd'
          server'.pub_key io'.salt io'.nonce tag sealed (ap (λ p. hd' ++ p) ack_bytes) lh' l' ls' ln
          lt (le ∙ ls0)
          (rw (salted, agree)
            (c.aead.decrypt-encrypt key io'.nonce associated salt sealed tag sealing)) in
      (
        syn,
        ack,
        a1,
        a2,
        b2,
        s1,
        s2,
        s2',
        begins,
        queued,
        answers,
        accepts,
        a_key
            ∙ (ap (λ r. session_key c server.priv_key server'.pub_key (hash2 c r io'.salt)) salted
                ∙ (agree ∙ sym b_key)),
        negotiated,
        acking,
      )
