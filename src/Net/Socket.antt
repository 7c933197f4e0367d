-- ===== src/Net/Socket.antt =====
-- What the connections use of mio's `TcpStream`: a descriptor, with what the reads and the writes will find.
use bullet_ledger.Base.{◌++◌, ℕ, List, [], ◌∷◌, if◌then◌else◌, length, take, drop, leb}

-- What comes in: bytes, an empty queue (`WouldBlock`), the end of the stream, or an error.
pub data Received : Type 0 where
  bytes : List ℕ → Received
  blocks : Received
  ends : Received
  breaks : Received

-- What a write finds: room for so many bytes, none (`WouldBlock`), or an error.
pub data Room : Type 0 where
  accepts : ℕ → Room
  full : Room
  refuses : Room

pub record Socket : Type 0 where
  pub token : ℕ
  pub received : List Received
  pub rooms : List Room
  pub written : List ℕ

-- The answers of `read` and of `write`: the bytes that were read, or the number of those written.
pub data Got (A : Type 0) : Type 0 where
  got : A → Got A
  would_block : Got A
  broken : Got A

-- `read` into `m` bytes takes at most `m` of the bytes that are there.
unfoldable pub read_chunk : ℕ → List Received → Got (List ℕ) × List Received
read_chunk m [] = (would_block, [])
read_chunk m (bytes bs ∷ rest) =
    if leb (length bs) m then (got bs, rest) else (got (take m bs), bytes (drop m bs) ∷ rest)
read_chunk m (blocks ∷ rest) = (would_block, rest)
read_chunk m (ends ∷ rest) = (got [], rest)
read_chunk m (breaks ∷ rest) = (broken, rest)

unfoldable pub read : ℕ → Socket → Got (List ℕ) × Socket
unfolding read_chunk
read m s = let (answer, rest) = read_chunk m s.received in (answer, record s { received = rest })

unfoldable pub write : List ℕ → Socket → Got ℕ × Socket
write buf s = elim s.rooms [
  | [] ↦ (would_block, s)
  | full ∷ rooms ↦ (would_block, record s { rooms = rooms })
  | refuses ∷ rooms ↦ (broken, record s { rooms = rooms })
  | accepts k ∷ rooms ↦
      let n = (if leb k (length buf) then k else length buf) in
      (got n, record s { rooms = rooms; written = s.written ++ take n buf })
]
