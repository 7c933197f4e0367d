-- ===== src/Header.antt =====
-- src/peer_net/header.rs, src/utils/buffs.rs and the packet codes of src/peer_net/handlers.rs: the
-- prefix and the header of a packet. An outer `none` is a panic.
pub mod Sealed
use bullet_ledger.Base.{
  ◌≡◌, ℕ, zero, suc, ◌+◌, ◌-◌, ◌==◌, Bool, true, false, Option, none, some, List, [], ◌∷◌, ◌++◌,
  if◌then◌else◌, length, take, drop, replicate, leb, guard, ◌>>=◌, ◌>>◌,
}
use bullet_ledger.Base.Slices.{slice, resize}
use bullet_ledger.Base.Writes.{copy_exact}
use bullet_ledger.Base.Words.{to_le_bytes, from_le_bytes}

-- ChaCha20Poly1305: the cipher text and the tag of a key, a nonce, associated data and a plain text.
pub record Aead : Type 1 where
  pub Key : Type 0
  pub encrypt : Key → List ℕ → List ℕ → List ℕ → Option (List ℕ × List ℕ)
  pub decrypt : Key → List ℕ → List ℕ → List ℕ → List ℕ → Option (List ℕ)
  pub decrypt-encrypt :
      (k : Key) (nonce aad plain sealed tag : List ℕ)
      → encrypt k nonce aad plain ≡ some (sealed, tag)
      → decrypt k nonce aad sealed tag ≡ some plain
  pub length-encrypt :
      (k : Key) (nonce aad plain sealed tag : List ℕ)
      → encrypt k nonce aad plain ≡ some (sealed, tag)
      → (length sealed ≡ length plain) × (length tag ≡ 16)

pub data PacketCode : Type 0 where
  no_packet : PacketCode
  ping : PacketCode
  negotiation_syn : PacketCode
  negotiation_ack : PacketCode
  social : PacketCode
  blockchain : PacketCode

-- `code as u8`
unfoldable pub packet_byte : PacketCode → ℕ
packet_byte no_packet = 0
packet_byte ping = 1
packet_byte negotiation_syn = 2
packet_byte negotiation_ack = 3
packet_byte social = 4
packet_byte blockchain = 5

unfoldable pub code_from_u8 : ℕ → PacketCode
code_from_u8 dig =
    if dig == 1
    then ping
    else if dig == 2
    then negotiation_syn
    else if dig == 3
    then negotiation_ack
    else if dig == 4
    then social
    else (if dig == 5 then blockchain else no_packet)

abbrev pub prefix_len : ℕ
prefix_len = 8 + 12 + 16

abbrev pub header_len : ℕ
header_len = 1 + 2

-- b"bullet_ledger"
abbrev pub associated : List ℕ
associated =
    b'b' ∷ b'u' ∷ b'l' ∷ b'l' ∷ b'e' ∷ b't' ∷ b'_' ∷ b'l' ∷ b'e' ∷ b'd' ∷ b'g' ∷ b'e' ∷ b'r' ∷ []

-- `H` is the type of the response handlers, function pointers.
pub record Header (H : Type 0) : Type 0 where
  pub code : PacketCode
  pub response_handler : Option H
  pub msg_id : ℕ
  pub nonce : List ℕ
  pub tag : List ℕ
  pub is_marshalled : Bool

module _ {H : Type 0} where
  -- `random_id` is the number drawn at random.
  unfoldable pub new : ℕ → Header H
  new random_id = record {
    code = no_packet;
    response_handler = none;
    msg_id = random_id;
    nonce = replicate 12 0;
    tag = replicate 16 0;
    is_marshalled = false;
  }

  unfoldable pub reset : Header H → Header H
  reset hd = record hd {
    code = no_packet;
    response_handler = none;
    nonce = replicate 12 0;
    tag = replicate 16 0;
    is_marshalled = false;
  }

  -- The conversion of two bytes to an array does not fail.
  unfoldable pub raw_unmarshal : List ℕ → Header H → Option (Header H)
  raw_unmarshal [] hd = none
  raw_unmarshal (code ∷ rest) hd = do
    msg_id ← slice 1 2 (code ∷ rest)
    some (record hd { code = code_from_u8 code; msg_id = from_le_bytes msg_id })

  -- `buff.len() - PREFIX_LEN` below 0 panics or wraps; a buffer that short panics below in any case.
  unfoldable pub raw_marshal : List ℕ → Header H → Option (List ℕ × Header H)
  raw_marshal buff hd = do
    b1 ← copy_exact 0 8 (to_le_bytes 8 (length buff - prefix_len)) buff
    b2 ← copy_exact prefix_len 1 (packet_byte hd.code ∷ []) b1
    b3 ← copy_exact (prefix_len + 1) 2 (to_le_bytes 2 hd.msg_id) b2
    some (b3, record hd { is_marshalled = true })

  -- A whole prefix, where `read_prefix` has read it: the length of what follows, the nonce and the tag.
  unfoldable pub take_prefix : List ℕ → Header H → Option (ℕ × Header H)
  take_prefix read_buf hd = do
    len ← slice 0 8 read_buf
    nonce ← slice 8 12 read_buf
    tag ← slice 20 16 read_buf
    some (from_le_bytes len, record hd { nonce = nonce; tag = tag })

module _ {H : Type 0} (a : Aead) where
  -- The inner `none` is `NetError::Decryption`.
  unfoldable pub encrypt_unmarshal : List ℕ → a.Key → Header H → Option (Option (Header H))
  encrypt_unmarshal buff key hd = elim (a.decrypt key hd.nonce associated buff hd.tag) [
    | none ↦ some none
    | some plain ↦ do hd' ← raw_unmarshal plain hd; some (some hd')
  ]

  -- `nonce` is the nonce drawn at random. The inner `none` is `NetError::Encryption`.
  unfoldable pub encrypt_marshal :
      List ℕ → List ℕ → a.Key → Header H → Option (Option (List ℕ) × Header H)
  encrypt_marshal nonce buff key hd = do
    (b0, hd') ← raw_marshal buff hd
    elim (a.encrypt key nonce associated (drop prefix_len b0)) [
      | none ↦ some (none, hd')
      | some (sealed, tag) ↦ do
        n12 ← slice 0 12 nonce
        t16 ← slice 0 16 tag
        b1 ← copy_exact 8 12 n12 (take prefix_len b0 ++ sealed)
        b2 ← copy_exact 20 16 t16 b1
        some (some b2, hd')
    ]

-- `WriteBuffer::reset`
unfoldable pub reset_buffer : List ℕ → List ℕ
reset_buffer buf = resize (prefix_len + header_len) 0 buf

unfoldable pub new_buffer : List ℕ
new_buffer = reset_buffer []
