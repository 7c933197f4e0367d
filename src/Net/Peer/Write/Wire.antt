-- ===== src/Net/Peer/Write/Wire.antt =====
-- What a peer's socket has taken is the packet, in order, however the writes are cut.
use mathlib.Core.Path.{subst}
use mathlib.Core.Option.{some-injective}
use mathlib.Core.List.{append_assoc, append-nil}
use bullet_ledger.Base.{
  ◌≡◌, ℕ, zero, suc, ◌+◌, ◌-◌, ◌≤◌, ◌==◌, Bool, true, false, none, some, List, [], ◌∷◌, ◌++◌,
  if◌then◌else◌, leb, length, take, drop, refl, sym, ap, ◌∙◌, arith, ◌⊎◌, inl, inr, Bool-cases,
  drop-drop, length-drop, drop-append_ge, drop-nil, Option-cases,
}
use bullet_ledger.Peers.{encryption}
use bullet_ledger.Net.Socket.{Socket, Room, accepts, full, refuses}
use bullet_ledger.Net.Hub.{Hub}
use bullet_ledger.Net.Server.{done, failed}
use bullet_ledger.Net.Peer.{Ciphers, PeerIo, PeerConnection, idle, writing}
use bullet_ledger.Net.Peer.Write.{
  Written, all_written, blocked, aborted, write_failed, write_loop, finish_packet, after_loop,
  marshal, write_packet,
}

take-drop : (k : ℕ) (xs : List ℕ) → take k xs ++ drop k xs ≡ xs
take-drop zero xs = refl
take-drop (suc k) [] = refl
take-drop (suc k) (x ∷ xs) = ap (◌∷◌ x) (take-drop k xs)

drop_all : (k : ℕ) (xs : List ℕ) → k ≡ length xs → drop k xs ≡ []
drop_all k xs e =
    ap (drop k) (sym (append-nil xs))
    ∙ (drop-append_ge k xs [] (omega (arith, e)) ∙ drop-nil (k - length xs))

-- The bytes of the loop: what the socket has, and what is left of the buffer of which `n - start` bytes were written.
abbrev Kept : ℕ → List ℕ → List ℕ → Written × ℕ × Bool × List Room × List ℕ → Type 0
Kept n bs wire (ending, n', worked, rooms, wire') =
    (n ≤ n')
    × (wire' ++ drop (n' - n) bs ≡ wire ++ bs)
    × (ending ≡ all_written → n' - n ≡ length bs)

-- A loop that ends at once, and not for being done.
stopped :
    (n : ℕ) (bs wire : List ℕ) (worked : Bool) (rooms : List Room) (ending : Written)
    → (ending ≡ all_written → n - n ≡ length bs)
    → Kept n bs wire (ending, n, worked, rooms, wire)
stopped n bs wire worked rooms ending over =
    let nothing : n - n ≡ 0 = omega arith in
    (omega arith, ap (λ k. wire ++ drop k bs) nothing, over)

-- After a write of `m` bytes, from what holds of the rest.
onward :
    (n m : ℕ) (bs wire : List ℕ) (end : Written × ℕ × Bool × List Room × List ℕ)
    → m ≤ length bs
    → Kept (n + m) (drop m bs) (wire ++ take m bs) end
    → Kept n bs wire end
onward n m bs wire (ending, n', worked, rooms, wire') fits (le, same, over) =
    let split : m + (n' - (n + m)) ≡ n' - n = omega (arith, le) in
    (
      omega (arith, le),
      ap (λ k. wire' ++ drop k bs) (sym split)
          ∙ (ap (λ r. wire' ++ r) (sym (drop-drop (n' - (n + m)) m bs))
              ∙ (same
                  ∙ (append_assoc wire (take m bs) (drop m bs)
                      ∙ ap (λ r. wire ++ r) (take-drop m bs)))),
      λ e. omega (arith, le, over e, length-drop m bs, fits),
    )

write_loop-Kept :
    (rooms : List Room) (bs : List ℕ) (n : ℕ) (worked : Bool) (wire : List ℕ)
    → Kept n bs wire (write_loop rooms bs n worked wire)
unfolding write_loop
write_loop-Kept rooms [] n worked wire =
    stopped n [] wire worked rooms all_written (λ e. omega arith)
write_loop-Kept [] (b ∷ bs) n worked wire =
    stopped n (b ∷ bs) wire worked [] blocked (λ e. ground (arith, e))
write_loop-Kept (full ∷ rooms) (b ∷ bs) n worked wire =
    stopped n (b ∷ bs) wire worked rooms blocked (λ e. ground (arith, e))
write_loop-Kept (refuses ∷ rooms) (b ∷ bs) n worked wire =
    stopped n (b ∷ bs) wire worked rooms write_failed (λ e. ground (arith, e))
write_loop-Kept (accepts k ∷ rooms) (b ∷ bs) n worked wire = elim (Bool-cases (k == 0)) [
  | inl none_taken ↦
      rw none_taken (stopped n (b ∷ bs) wire worked rooms aborted (λ e. ground (arith, e)))
  | inr some_taken ↦
      let all : List ℕ = b ∷ bs in
      let m : ℕ = (if leb k (length all) then k else length all) in
      let fits : m ≤ length all = ground arith in
      rw some_taken (
        onward n m all wire (write_loop rooms (drop m all) (n + m) true (wire ++ take m all)) fits
          (write_loop-Kept rooms (drop m all) (n + m) true (wire ++ take m all)))
]

module _ (c : Ciphers) where
  -- The bytes that the socket of a connection has been given, and after them those of its buffer that it has not.
  unfoldable pub stream_bytes : PeerConnection c → List ℕ
  stream_bytes self = elim self.stream [
    | none ↦ []
    | some s ↦ s.written ++ drop self.write_pos self.write_buf
  ]

  unfoldable pub wire_of : PeerConnection c → List ℕ
  wire_of self = elim self.stream [ none ↦ [] | some s ↦ s.written ]

  -- Either the packet is not all written, and the same bytes are to be on the wire, or they are all there.
  abbrev pub Sent : List ℕ → PeerConnection c → Type 0
  Sent bytes self =
      ((self.write_state ≡ some writing) × (stream_bytes self ≡ bytes))
      ⊎ ((self.write_state ≡ some idle) × (wire_of self ≡ bytes))

  after_loop-Sent :
      (io : PeerIo) (s : Socket) (self : PeerConnection c) (server : Hub) (b : Bool)
      (self' : PeerConnection c) (server' : Hub) (end : Written × ℕ × Bool × List Room × List ℕ)
      → Kept self.write_pos (drop self.write_pos self.write_buf) s.written end
      → after_loop c io s self server end ≡ (done b, self', server')
      → Sent (s.written ++ drop self.write_pos self.write_buf) self'
  unfolding after_loop finish_packet stream_bytes wire_of
  after_loop-Sent io s self server b self' server' (all_written, n, worked, rooms, wire)
        (le, same, over) e =
      let rest : List ℕ = drop self.write_pos self.write_buf in
      let none_left : drop (n - self.write_pos) rest ≡ [] =
        drop_all (n - self.write_pos) rest (over refl) in
      let sent : wire ≡ s.written ++ rest =
        sym (append-nil wire) ∙ (ap (λ r. wire ++ r) (sym none_left) ∙ same) in
      subst (Sent (s.written ++ rest)) (ap (λ r. r.1) e) (inr (refl, sent))
  after_loop-Sent io s self server b self' server' (blocked, n, worked, rooms, wire)
        (le, same, over) e =
      let rest : List ℕ = drop self.write_pos self.write_buf in
      let onwards : self.write_pos + (n - self.write_pos) ≡ n = omega (arith, le) in
      let left : wire ++ drop n self.write_buf ≡ s.written ++ rest =
        ap (λ k. wire ++ drop k self.write_buf) (sym onwards)
        ∙ (ap (λ r. wire ++ r) (sym (drop-drop (n - self.write_pos) self.write_pos self.write_buf))
            ∙ same) in
      subst (Sent (s.written ++ rest)) (ap (λ r. r.1) e) (inl (refl, left))
  after_loop-Sent io s self server b self' server' (aborted, n, worked, rooms, wire) kept e =
      ground (arith, e)
  after_loop-Sent io s self server b self' server' (write_failed, n, worked, rooms, wire) kept e =
      ground (arith, e)

  -- When `write_packet` returns without an error, the buffer held a packet that was marshalled, and either the
  -- connection goes on writing, with the same bytes on the wire and still to write as before, or it is idle and the
  -- socket was given all those bytes, in whatever pieces it took them.
  pub write_packet-sends :
      (io : PeerIo) (self : PeerConnection c) (server : Hub) (b : Bool) (self' : PeerConnection c)
      (server' : Hub)
      → write_packet c io self server ≡ some (done b, self', server')
      → (packed : PeerConnection c) × (marshal c io self ≡ some (some packed))
        × Sent (stream_bytes packed) self'
  unfolding write_packet stream_bytes
  write_packet-sends io self server b self' server' e = elim (Option-cases (marshal c io self)) [
    | inl panics ↦
        let lost : write_packet c io self server ≡ none = rw (panics, write_packet) refl in
        ground (arith, lost, e)
    | inr (none, h) ↦
        let lost : write_packet c io self server ≡ some (failed (encryption []), self, server) =
          rw (h, write_packet) refl in
        ground (arith, lost, e)
    | inr (some packed, h) ↦ elim (Option-cases packed.stream) [
      | inl closed ↦
          let lost : write_packet c io self server ≡ none = rw (h, write_packet) (rw closed refl) in
          ground (arith, lost, e)
      | inr (s, opened) ↦
          let left : List ℕ = drop packed.write_pos packed.write_buf in
          let end = write_loop s.rooms left packed.write_pos false s.written in
          let ran : write_packet c io self server ≡ some (after_loop c io s packed server end) =
            rw (h, write_packet) (rw opened refl) in
          let kept = write_loop-Kept s.rooms left packed.write_pos false s.written in
          (
            packed,
            h,
            rw opened (
                after_loop-Sent io s packed server b self' server' end kept
                  (some-injective _ _ (sym ran ∙ e))),
          )
    ]
  ]
