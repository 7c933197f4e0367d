-- ===== src/Examples/Packets.antt =====
-- A packet at a concrete input.
use bullet_ledger.Base.{
  ℕ, ◌≡◌, refl, true, some, List, [], ◌∷◌, ◌++◌, length, replicate, drop, arith,
}
use bullet_ledger.Base.Slices.{slice, copy_at}
use bullet_ledger.Base.Writes.{copy_exact}
use bullet_ledger.Base.Words.{to_le_bytes}
use bullet_ledger.Header.{
  Aead, Header, blockchain, packet_byte, raw_marshal, new, take_prefix, encrypt_unmarshal,
  encrypt_marshal,
}
use bullet_ledger.Header.Sealed.{encrypt_marshal-opens}

-- The plain text, with a fixed tag.
abbrev pub plain_text : Aead
plain_text = record {
  Key = Unit {0};
  encrypt = λ k nonce aad plain. some (plain, replicate 16 5);
  decrypt = λ k nonce aad sealed tag. some sealed;
  decrypt-encrypt = λ k nonce aad plain sealed tag e. ground (arith, e);
  length-encrypt = λ k nonce aad plain sealed tag e. ground (arith, e);
}

abbrev ones : List ℕ
ones = replicate 12 1

abbrev note : Header (Unit {0})
note = record (new 513) { code = blockchain }

abbrev sealed_note : List ℕ
sealed_note =
    (6 ∷ replicate 7 0) ++ (ones ++ (replicate 16 5 ++ (5 ∷ (1 ∷ (2 ∷ (7 ∷ (7 ∷ (7 ∷ []))))))))

note_sealed :
    encrypt_marshal plain_text ones (replicate 39 0 ++ (7 ∷ (7 ∷ (7 ∷ [])))) tt note
    ≡ some (some sealed_note, record note { is_marshalled = true })
unfolding encrypt_marshal raw_marshal copy_exact copy_at slice to_le_bytes packet_byte new
note_sealed = refl

encrypt_marshal_example :
    (got : Header (Unit {0})) × (take_prefix sealed_note (new 0)
      ≡ some (length (drop 36 sealed_note), got))
    × (encrypt_unmarshal plain_text (drop 36 sealed_note) tt got
        ≡ some (some (record got { code = blockchain; msg_id = 513 })))
unfolding new
encrypt_marshal_example =
    encrypt_marshal-opens plain_text ones (replicate 39 0 ++ (7 ∷ (7 ∷ (7 ∷ [])))) sealed_note tt
      note (record note { is_marshalled = true }) (new 0) refl (omega arith) (omega arith)
      (omega arith) note_sealed
