-- ===== src/Net/Peer/Read/Chunks.antt =====
-- What a read of a connection leaves: of what came in, and as the state.
use bullet_ledger.Base.{
  ◌≡◌, ℕ, ◌+◌, ◌<◌, some, List, [], ◌∷◌, leb, length, take, refl, arith, ◌⊎◌, inl, inr, Bool-cases,
  length-take_le,
}
use bullet_ledger.Header.{prefix_len}
use bullet_ledger.Net.Socket.{Received, bytes, blocks, ends, breaks, got, would_block, read_chunk}
use bullet_ledger.Net.Server.{Answer, done}
use bullet_ledger.Net.Peer.{
  Ciphers, PeerConnection, Flow, continues, reading_prefix, reading, processing,
}
use bullet_ledger.Net.Peer.Read.{end_prefix, after_prefix, end_body, after_body}

-- A read empties a piece of what came in, fills the buffer, or answers something else than bytes.
pub read_chunk_cases :
    (m : ℕ) (rs : List Received)
    → (length (read_chunk m rs).1 < length rs)
      ⊎ (((bs : List ℕ) × ((read_chunk m rs).0 ≡ got bs)
            × (length bs ≡ m)
            × (length (read_chunk m rs).1 ≡ length rs))
          ⊎ ((read_chunk m rs).0 ≡ would_block))
unfolding read_chunk
read_chunk_cases m [] = inr (inr refl)
read_chunk_cases m (bytes bs ∷ rest) = elim (Bool-cases (leb (length bs) m)) [
  | inl fits ↦ rw fits (inl (omega arith))
  | inr more ↦
      rw more (inr (inl (take m bs, refl, length-take_le m bs (ground (arith, more)), refl)))
]
read_chunk_cases m (blocks ∷ rest) = inl (omega arith)
read_chunk_cases m (ends ∷ rest) = inl (omega arith)
read_chunk_cases m (breaks ∷ rest) = inl (omega arith)

module _ (c : Ciphers) where
  end_prefix-state :
      (self self' : PeerConnection c) (f : Answer Flow)
      → end_prefix c self ≡ some (f, self')
      → (self'.stream ≡ self.stream) × (self'.read_state ≡ some reading)
  unfolding end_prefix
  end_prefix-state self self' f e = ground (arith, e)

  end_body-state :
      (self self' : PeerConnection c)
      → end_body c self ≡ some (done continues, self')
      → (self'.stream ≡ self.stream) × (self'.read_state ≡ some processing)
  unfolding end_body
  end_body-state self self' e = ground (arith, e)

  pub after_prefix-got :
      (self self' : PeerConnection c) (bs : List ℕ)
      → after_prefix c self (got bs) ≡ some (done continues, self')
      → (self'.stream ≡ self.stream)
        × ((self'.read_state ≡ some reading)
            ⊎ ((self'.read_state ≡ some reading_prefix) × (length bs < prefix_len)))
  unfolding after_prefix
  after_prefix-got self self' bs e = grind (arith, e, end_prefix-state)

  pub after_body-got :
      (self self' : PeerConnection c) (bs : List ℕ)
      → after_body c self (got bs) ≡ some (done continues, self')
      → (self'.stream ≡ self.stream)
        × ((self'.read_state ≡ some processing)
            ⊎ ((self'.read_state ≡ some reading) × (self.read_pos + length bs < self.read_target)))
  unfolding after_body
  after_body-got self self' bs e = grind (arith, e, end_body-state)
