-- ===== src/Peers.antt =====
-- src/peer_net/peers.rs and src/utils/errors.rs: the known peers, their scores, and the file that
-- keeps them. An address `[u8; 4]` is the number of its bytes, the first one lowest, and the map is
-- a list in the order in which the program goes through it.
pub mod Scores
pub mod Saved
use bullet_ledger.Base.{
  ℕ, zero, suc, ◌+◌, ◌*◌, ◌%◌, ◌==◌, Bool, true, false, Option, none, some, List, [], ◌∷◌, ◌++◌,
  if◌then◌else◌, length, take, drop, ltb, ◌>>=◌, arith,
}
use bullet_ledger.Base.Words.{u16_mod, u64_mod, to_le_bytes, from_le_bytes, add_word}
use bullet_ledger.Base.Slices.{slice, resize}
use bullet_ledger.Base.Assoc.{lookup, insert, remove, contains}

-- A string is its bytes.
pub data NetError : Type 0 where
  connection_aborted : NetError
  malformed_prefix : NetError
  unauthorized : NetError
  negotiation_failed : NetError
  encryption : List ℕ → NetError
  decryption : List ℕ → NetError
  socket_failed : NetError
  other : List ℕ → NetError

unfoldable pub to_score : NetError → ℕ
to_score unauthorized = 30
to_score malformed_prefix = 20
to_score (decryption s) = 10
to_score _ = 0

-- `NetResult<()>`
pub data NetResult : Type 0 where
  ok : NetResult
  err : NetError → NetResult

-- `SocketAddr`: an IPv4 address with its port, or an IPv6 address of 16 bytes with its port.
pub data SocketAddr : Type 0 where
  v4 : ℕ → ℕ → SocketAddr
  v6 : List ℕ → ℕ → SocketAddr

-- An open file: its bytes and the cursor.
pub record OpenFile : Type 0 where
  pub bytes : List ℕ
  pub cursor : ℕ

unfoldable pub set_len : ℕ → OpenFile → OpenFile
set_len n f = record f { bytes = resize n 0 f.bytes }

unfoldable pub write_all : List ℕ → OpenFile → OpenFile
write_all src f = record {
  bytes = take f.cursor f.bytes ++ (src ++ drop (f.cursor + length src) f.bytes);
  cursor = f.cursor + length src;
}

-- `none` is the end of the file.
unfoldable pub read_exact : ℕ → OpenFile → Option (List ℕ × OpenFile)
read_exact n f = do
  window ← slice f.cursor n f.bytes
  some (window, record f { cursor = f.cursor + n })

unfoldable pub seek_relative : ℕ → OpenFile → OpenFile
seek_relative n f = record f { cursor = f.cursor + n }

pub record PeerMan : Type 0 where
  pub file : OpenFile
  pub peers : List (ℕ × ℕ)
  pub threshold : ℕ

unfoldable pub write_peers : List (ℕ × ℕ) → OpenFile → OpenFile
write_peers [] f = f
write_peers ((ip, score) ∷ ps) f =
    write_peers ps (write_all (to_le_bytes 2 score) (write_all (to_le_bytes 4 ip) f))

-- The file that `drop` leaves.
unfoldable pub drop_peers : PeerMan → OpenFile
drop_peers s =
    let start = record s.file { cursor = 0 } in
    let sized = set_len ((length s.peers * 6) % u64_mod + 8) start in
    write_peers s.peers (write_all (to_le_bytes 8 (length s.peers)) sized)

-- The loop of `new`: the peers from index `i` on, `n` of them.
unfoldable pub read_peers : ℕ → ℕ → OpenFile → List (ℕ × ℕ) → Option (List (ℕ × ℕ) × OpenFile)
read_peers zero i f peers = some (peers, f)
read_peers (suc n) i f peers = do
  (ip, f1) ← read_exact 4 (seek_relative (i * 6) f)
  (score, f2) ← read_exact 2 f1
  read_peers n (suc i) f2 (insert (from_le_bytes ip) (from_le_bytes score) peers)

unfoldable pub insert_new : ℕ → List (ℕ × ℕ) → List (ℕ × ℕ)
insert_new ip peers = if contains ip peers then peers else insert ip 0 peers

unfoldable pub insert_all : List ℕ → List (ℕ × ℕ) → List (ℕ × ℕ)
insert_all [] peers = peers
insert_all (ip ∷ ips) peers = insert_all ips (insert_new ip peers)

-- `PeerMan::new` on the bytes of the file at its path. `none` is an I/O error.
unfoldable pub new : List ℕ → ℕ → List ℕ → Option PeerMan
new stored threshold initial_ips = do
  let f : OpenFile = record { bytes = stored; cursor = 0 }
  let f0 = if ltb (length stored) 8 then set_len 8 f else f
  (peer_count, f1) ← read_exact 8 f0
  (peers, f2) ← read_peers (from_le_bytes peer_count) 0 f1 []
  some (record { file = f2; peers = insert_all initial_ips peers; threshold = threshold % u16_mod })

unfoldable pub add_peer : ℕ → PeerMan → PeerMan
add_peer ip s = record s { peers = insert_new ip s.peers }

unfoldable pub remove_peer : ℕ → PeerMan → PeerMan
remove_peer ip s = record s { peers = remove ip s.peers }

abbrev below_threshold : ℕ → Option ℕ → NetResult
below_threshold threshold none = err unauthorized
below_threshold threshold (some score) = if ltb score threshold then ok else err unauthorized

unfoldable pub is_banned : SocketAddr → PeerMan → NetResult
is_banned (v4 ip port) s = below_threshold s.threshold (lookup ip s.peers)
is_banned (v6 ip port) s = err unauthorized

module _ (checks : Bool) where
  abbrev scored : ℕ → NetError → PeerMan → Option ℕ → Option (PeerMan × NetResult)
  scored ip error s none = some (s, err unauthorized)
  scored ip error s (some score) = do
    score' ← add_word checks u16_mod score (to_score error % u16_mod)
    some (record s { peers = insert ip score' s.peers }, ok)

  -- `none` is the panic of an addition that overflows, in a build with overflow checks.
  unfoldable pub record_behaviour : SocketAddr → NetError → PeerMan → Option (PeerMan × NetResult)
  record_behaviour (v4 ip port) error s = scored ip error s (lookup ip s.peers)
  record_behaviour (v6 ip port) error s = some (s, err unauthorized)
