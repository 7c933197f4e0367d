-- ===== src/Net/Peer/Read/Rounds.antt =====
-- The loop of `on_readable` ends: each round reads what is there, or moves the connection on.
use mathlib.Core.Option.{some-injective}
use bullet_ledger.Base.{
  ◌≡◌, ℕ, zero, suc, ◌+◌, ◌-◌, ◌<◌, ◌≤◌, ◌&&◌, true, Option, none, some, List, leb, length, refl,
  ap, ◌∙◌, arith, ◌⊎◌, inl, inr, Bool-cases, Option-cases,
}
use bullet_ledger.Header.{prefix_len}
use bullet_ledger.Net.Socket.{Socket, Got, got, would_block, broken, read_chunk, read}
use bullet_ledger.Net.Hub.{Hub}
use bullet_ledger.Net.Server.{Answer, done, failed}
use bullet_ledger.Net.Peer.{
  Ciphers, PeerIo, PeerConnection, ReadState, continues, stops, reading_prefix, reading, processing,
}
use bullet_ledger.Net.Peer.Handle.{HandlerRes, reads, writes, nothing}
use bullet_ledger.Net.Peer.Read.{
  after_prefix, read_prefix, after_body, read_body, after_handler, process_packet, read_step,
  Ending, panics, returns, read_loop,
}
use bullet_ledger.Net.Peer.Read.Chunks.{read_chunk_cases, after_prefix-got, after_body-got}

module _ (c : Ciphers) where
  waiting : Option Socket → ℕ
  waiting none = 0
  waiting (some s) = length s.received

  ahead : Option ReadState → ℕ
  ahead (some reading_prefix) = 3
  ahead (some reading) = 2
  ahead (some processing) = 1
  ahead none = 1

  -- The rounds that a connection can take before the loop ends.
  unfoldable pub rounds_left : PeerConnection c → ℕ
  unfolding waiting ahead
  rounds_left self = waiting self.stream + ahead self.read_state

  after_prefix-fewer :
      (s s' : Socket) (self self' : PeerConnection c) (answer : Got (List ℕ))
      → self.stream ≡ some s'
      → (length s'.received < length s.received)
        ⊎ (((bs : List ℕ) × (answer ≡ got bs)
              × (length bs ≡ prefix_len)
              × (length s'.received ≡ length s.received))
            ⊎ (answer ≡ would_block))
      → after_prefix c self answer ≡ some (done continues, self')
      → rounds_left self' < length s.received + 3
  unfolding rounds_left waiting ahead after_prefix
  after_prefix-fewer s s' self self' would_block at how e = ground (arith, e)
  after_prefix-fewer s s' self self' broken at how e = ground (arith, e)
  after_prefix-fewer s s' self self' (got bs) at how e =
      let (kept, state) = after_prefix-got c self self' bs e in
      rw (kept, at)
        (elim state [
          | inl on ↦ rw on (elim how [
            | inl less ↦ omega (arith, less)
            | inr (inl (bs', same, full, equal)) ↦ omega (arith, equal)
            | inr (inr none_read) ↦ ground (arith, none_read)
          ])
          | inr (on, short) ↦ rw on (elim how [
            | inl less ↦ omega (arith, less)
            | inr (inl (bs', same, full, equal)) ↦ ground (arith, same, short, full)
            | inr (inr none_read) ↦ ground (arith, none_read)
          ])
        ])

  after_body-fewer :
      (s s' : Socket) (self self' : PeerConnection c) (answer : Got (List ℕ))
      → self.stream ≡ some s'
      → (length s'.received < length s.received)
        ⊎ (((bs : List ℕ) × (answer ≡ got bs)
              × (length bs ≡ self.read_target - self.read_pos)
              × (length s'.received ≡ length s.received))
            ⊎ (answer ≡ would_block))
      → after_body c self answer ≡ some (done continues, self')
      → rounds_left self' < length s.received + 2
  unfolding rounds_left waiting ahead after_body
  after_body-fewer s s' self self' would_block at how e = ground (arith, e)
  after_body-fewer s s' self self' broken at how e = ground (arith, e)
  after_body-fewer s s' self self' (got bs) at how e =
      let (kept, state) = after_body-got c self self' bs e in
      rw (kept, at)
        (elim state [
          | inl on ↦ rw on (elim how [
            | inl less ↦ omega (arith, less)
            | inr (inl (bs', same, full, equal)) ↦ omega (arith, equal)
            | inr (inr none_read) ↦ ground (arith, none_read)
          ])
          | inr (on, short) ↦ rw on (elim how [
            | inl less ↦ omega (arith, less)
            | inr (inl (bs', same, full, equal)) ↦ ground (arith, same, short, full)
            | inr (inr none_read) ↦ ground (arith, none_read)
          ])
        ])

  read_prefix-fewer :
      (self self' : PeerConnection c)
      → read_prefix c self ≡ some (done continues, self')
      → rounds_left self' < waiting self.stream + 3
  unfolding read_prefix read waiting
  read_prefix-fewer self self' e = elim (Option-cases self.stream) [
    | inl closed ↦
        let lost : read_prefix c self ≡ none = rw (closed, read_prefix) refl in
        ground (arith, lost, e)
    | inr (s, opened) ↦
        let next : Socket = record s { received = (read_chunk prefix_len s.received).1 } in
        rw opened (
          after_prefix-fewer s next _ self' (read_chunk prefix_len s.received).0 refl
            (read_chunk_cases prefix_len s.received) (rw (opened, read_prefix) at e))
  ]

  read_body-fewer :
      (self self' : PeerConnection c)
      → read_body c self ≡ some (done continues, self')
      → rounds_left self' < waiting self.stream + 2
  unfolding read_body read waiting
  read_body-fewer self self' e = elim (Option-cases self.stream) [
    | inl closed ↦
        let lost : read_body c self ≡ none = rw (closed, read_body) refl in ground (arith, lost, e)
    | inr (s, opened) ↦
        let m : ℕ = self.read_target - self.read_pos in
        let next : Socket = record s { received = (read_chunk m s.received).1 } in
        elim (Bool-cases
          (leb self.read_pos self.read_target && leb self.read_target (length self.read_buf))) [
            | inl fits ↦ rw opened (
                after_body-fewer s next (record self { stream = some next }) self'
                  (read_chunk m s.received).0 refl (read_chunk_cases m s.received)
                  (rw fits at (rw (opened, read_body) at e)))
            | inr outside ↦
                let lost : read_body c self ≡ none = rw (opened, read_body) (rw outside refl) in
                ground (arith, lost, e)
          ]
  ]

  after_handler-stops :
      (io : PeerIo) (r : Answer HandlerRes × PeerConnection c × Hub) (self' : PeerConnection c)
      (server' : Hub)
      → after_handler c io r ≡ (done continues, self', server')
      → ⊥
  unfolding after_handler
  after_handler-stops io (failed x, self, server) self' server' e = ground (arith, e)
  after_handler-stops io (done nothing, self, server) self' server' e = ground (arith, e)
  after_handler-stops io (done (reads id handler), self, server) self' server' e = ground (arith, e)
  after_handler-stops io (done (writes m), self, server) self' server' e = ground (arith, e)

  process-stops :
      (io : PeerIo) (self : PeerConnection c) (server : Hub) (self' : PeerConnection c)
      (server' : Hub)
      → process_packet c io self server ≡ some (done continues, self', server')
      → ⊥
  unfolding process_packet
  process-stops io self server self' server' e = grind (arith, e, after_handler-stops)

  step-fewer :
      (io : PeerIo) (self : PeerConnection c) (server : Hub) (self' : PeerConnection c)
      (server' : Hub)
      → read_step c io self server ≡ some (done continues, self', server')
      → rounds_left self' < rounds_left self
  unfolding read_step rounds_left ahead
  step-fewer io self server self' server' e = elim (Option-cases self.read_state) [
    | inl lost ↦ ground (arith, rw (lost, read_step) at e)
    | inr (reading_prefix, h) ↦
        elim (Option-cases (read_prefix c (record self { read_state = none }))) [
          | inl panic ↦ ground (arith, rw (h, panic, read_step) at e)
          | inr ((flow, next), r) ↦
              let same =
                some-injective (flow, next, server) (done continues, self', server')
                  (rw (h, r, read_step) at e) in
              rw h (
                read_prefix-fewer (record self { read_state = none }) self'
                  (r ∙ ap (λ t. some (t.0, t.1)) same))
        ]
    | inr (reading, h) ↦ elim (Option-cases (read_body c (record self { read_state = none }))) [
      | inl panic ↦ ground (arith, rw (h, panic, read_step) at e)
      | inr ((flow, next), r) ↦
          let same =
            some-injective (flow, next, server) (done continues, self', server')
              (rw (h, r, read_step) at e) in
          rw h (
            read_body-fewer (record self { read_state = none }) self'
              (r ∙ ap (λ t. some (t.0, t.1)) same))
    ]
    | inr (processing, h) ↦
        elim (process-stops io (record self { read_state = none }) server self' server'
          (rw (h, read_step) at e)) [ ]
  ]

  ahead-positive : (st : Option ReadState) → 1 ≤ ahead st
  unfolding ahead
  ahead-positive none = omega arith
  ahead-positive (some reading_prefix) = omega arith
  ahead-positive (some reading) = omega arith
  ahead-positive (some processing) = omega arith

  rounds_left-positive : (self : PeerConnection c) → 1 ≤ rounds_left self
  unfolding rounds_left
  rounds_left-positive self = omega (arith, ahead-positive self.read_state)

  -- As many rounds as `rounds_left` gives are enough for the loop of `on_readable` to end, with an answer or a panic.
  pub read_loop-ends :
      (rounds : ℕ) (io : PeerIo) (self : PeerConnection c) (server : Hub)
      → rounds_left self ≤ rounds
      → (r : Ending c) × (read_loop c rounds io self server ≡ some r)
  unfolding read_loop
  read_loop-ends zero io self server enough =
      absurd (omega (arith, rounds_left-positive self, enough))
  read_loop-ends (suc rounds) io self server enough =
      elim (Option-cases (read_step c io self server)) [
        | inl panic ↦ (panics, rw (panic, read_loop) refl)
        | inr ((failed x, self1, server1), h) ↦
            (returns (failed x) self1 server1, rw (h, read_loop) refl)
        | inr ((done stops, self1, server1), h) ↦
            (returns (done true) self1 server1, rw (h, read_loop) refl)
        | inr ((done continues, self1, server1), h) ↦
            let fewer = step-fewer io self server self1 server1 h in
            rw (h, read_loop)
              (read_loop-ends rounds io self1 server1 (omega (arith, fewer, enough)))
      ]
