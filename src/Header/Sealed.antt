-- ===== src/Header/Sealed.antt =====
-- What `encrypt_marshal` seals is read back.
use bullet_ledger.Base.{
  ℕ, ◌-◌, ◌^◌, ◌<◌, ◌≤◌, ◌≡◌, refl, sym, ap, ◌∙◌, true, none, some, List, [], ◌∷◌, ◌++◌, length,
  take, drop, arith, inl, inr, Option-cases, length-append, length-take_le, length-drop,
}
use bullet_ledger.Base.Windows.{slice-drop, slice-take_append, drop-take_append, slice_all}
use bullet_ledger.Base.Slices.{
  slice, copied, length-copied, slice-copied_self, slice-copied_disjoint, drop-copied_behind,
}
use bullet_ledger.Base.Writes.{
  Write, Fits, apply, copy_exact-eq_some, copy_exact-apply, length-apply, slice-apply,
}
use bullet_ledger.Base.Words.{
  to_le_bytes, from_le_bytes, length-to_le_bytes, from_le_bytes-to_le_bytes,
}
use bullet_ledger.Header.{
  Aead, PacketCode, no_packet, ping, negotiation_syn, negotiation_ack, social, blockchain,
  packet_byte, code_from_u8, associated, Header, raw_unmarshal, raw_marshal, take_prefix,
  encrypt_unmarshal, encrypt_marshal,
}

code_from-packet_byte : (code : PacketCode) → code_from_u8 (packet_byte code) ≡ code
unfolding code_from_u8 packet_byte
code_from-packet_byte no_packet = refl
code_from-packet_byte ping = refl
code_from-packet_byte negotiation_syn = refl
code_from-packet_byte negotiation_ack = refl
code_from-packet_byte social = refl
code_from-packet_byte blockchain = refl

module _ {H : Type 0} where
  -- The writes of `raw_marshal`.
  abbrev marks : Header H → List ℕ → List Write
  marks hd buff =
      (37, to_le_bytes 2 hd.msg_id)
      ∷ ((36, packet_byte hd.code ∷ []) ∷ ((0, to_le_bytes 8 (length buff - 36)) ∷ []))

  marks-Fits :
      (hd : Header H) (buff : List ℕ) → 39 ≤ length buff → Fits (length buff) (marks hd buff)
  marks-Fits hd buff h =
      let l2 = length-to_le_bytes 2 hd.msg_id in
      let l8 = length-to_le_bytes 8 (length buff - 36) in
      (omega (arith, l2), (omega arith, (omega (arith, l8), tt)))

  raw_marshal-apply :
      (hd : Header H) (buff : List ℕ)
      → 39 ≤ length buff
      → raw_marshal buff hd ≡ some (apply (marks hd buff) buff, record hd { is_marshalled = true })
  unfolding raw_marshal apply
  raw_marshal-apply hd buff h =
      let l2 = length-to_le_bytes 2 hd.msg_id in
      let l8 = length-to_le_bytes 8 (length buff - 36) in
      let w1 : List Write = (0, to_le_bytes 8 (length buff - 36)) ∷ [] in
      let f1 : Fits (length buff) w1 = (omega (arith, l8), tt) in
      let f2 : Fits (length buff) ((36, packet_byte hd.code ∷ []) ∷ w1) = (omega arith, f1) in
      rw
        (
          raw_marshal,
          copy_exact-apply 0 8 (to_le_bytes 8 (length buff - 36)) [] buff l8 (omega arith) tt,
        )
        (rw (copy_exact-apply 36 1 (packet_byte hd.code ∷ []) w1 buff refl (omega arith) f1) (
          rw
            (copy_exact-apply 37 2 (to_le_bytes 2 hd.msg_id) ((36, packet_byte hd.code ∷ []) ∷ w1)
              buff l2 (omega arith) f2)
            refl))

  -- What a plain text says that has the code and the id at its start.
  raw_unmarshal_lem :
      (plain : List ℕ) (hd : Header H) (code : PacketCode) (id : ℕ)
      → slice 0 1 plain ≡ some (packet_byte code ∷ [])
      → slice 1 2 plain ≡ some (to_le_bytes 2 id)
      → id < 2 ^ 16
      → raw_unmarshal plain hd ≡ some (record hd { code = code; msg_id = id })
  unfolding raw_unmarshal
  raw_unmarshal_lem [] hd code id e0 e1 h = unfold slice in ground (arith, e0)
  raw_unmarshal_lem (b ∷ rest) hd code id e0 e1 h =
      let head : b ≡ packet_byte code = unfold slice in ground (arith, e0) in
      rw e1 (ap some (same_header head))
    where
      same_header :
          b ≡ packet_byte code
          → record hd { code = code_from_u8 b; msg_id = from_le_bytes (to_le_bytes 2 id) }
            ≡ record hd { code = code; msg_id = id }
      same_header head =
          rw (head, code_from-packet_byte code, from_le_bytes-to_le_bytes 2 id h) refl

-- The packet that `encrypt_marshal` makes of its prefix, the nonce, the tag and the sealed bytes.
packet : List ℕ → List ℕ → List ℕ → List ℕ → List ℕ
packet nonce tag sealed b0 = copied 20 tag (copied 8 nonce (take 36 b0 ++ sealed))

packet_reads :
    (nonce tag sealed b0 : List ℕ)
    → length nonce ≡ 12
    → length tag ≡ 16
    → 39 ≤ length b0
    → length sealed ≡ length b0 - 36
    → (slice 0 8 (packet nonce tag sealed b0) ≡ slice 0 8 b0)
      × (slice 8 12 (packet nonce tag sealed b0) ≡ some nonce)
      × (slice 20 16 (packet nonce tag sealed b0) ≡ some tag)
      × (drop 36 (packet nonce tag sealed b0) ≡ sealed)
unfolding packet
packet_reads nonce tag sealed b0 ln lt lb ls =
    let whole = take 36 b0 ++ sealed in
    let lw = length-append (take 36 b0) sealed in
    let lp = length-take_le 36 b0 (omega arith) in
    let l1 = length-copied 8 nonce whole (omega (arith, lw, lp)) in
    let one = copied 8 nonce whole in
    (
      slice-copied_disjoint 0 8 20 tag one (omega (arith, lw, lp, l1)) (inl (omega arith))
          ∙ slice-copied_disjoint 0 8 8 nonce whole (omega (arith, lw, lp)) (inl (omega arith))
          ∙ slice-take_append 0 8 36 b0 sealed (omega arith) (omega arith),
      slice-copied_disjoint 8 12 20 tag one (omega (arith, lw, lp, l1)) (inl (omega arith))
          ∙ slice-copied_self 8 12 nonce whole (omega (arith, lw, lp)) ln,
      slice-copied_self 20 16 tag one (omega (arith, lw, lp, l1)) lt,
      drop-copied_behind 36 20 tag one (omega (arith, lw, lp, l1)) (omega arith)
          ∙ drop-copied_behind 36 8 nonce whole (omega (arith, lw, lp)) (omega arith)
          ∙ drop-take_append 36 b0 sealed (omega arith),
    )

module _ {H : Type 0} (a : Aead) where
  sealed_packet :
      (nonce buff : List ℕ) (key : a.Key) (hd : Header H)
      → length nonce ≡ 12
      → 39 ≤ length buff
      → (sealed tag : List ℕ)
      → a.encrypt key nonce associated (drop 36 (apply (marks hd buff) buff)) ≡ some (sealed, tag)
      → encrypt_marshal a nonce buff key hd
        ≡ some (
          some (packet nonce tag sealed (apply (marks hd buff) buff)),
          record hd { is_marshalled = true },
        )
  unfolding encrypt_marshal packet
  sealed_packet nonce buff key hd ln big sealed tag sealing =
      let b0 = apply (marks hd buff) buff in
      let (ls, lt) = a.length-encrypt key nonce associated (drop 36 b0) sealed tag sealing in
      let lb = length-apply (marks hd buff) buff (marks-Fits hd buff big) in
      let lw = length-append (take 36 b0) sealed in
      let lp = length-take_le 36 b0 (omega (arith, lb)) in
      let whole = take 36 b0 ++ sealed in
      let l1 = length-copied 8 nonce whole (omega (arith, lw, lp)) in
      rw (raw_marshal-apply hd buff big) (
        rw sealing (
          rw (slice_all 12 nonce ln) (
            rw (slice_all 16 tag lt) (
              rw (copy_exact-eq_some 8 12 nonce whole ln (omega (arith, lw, lp))) (
                rw
                  (copy_exact-eq_some 20 16 tag (copied 8 nonce whole) lt
                    (omega (arith, lw, lp, l1, ls, lb, length-drop 36 b0)))
                  refl)))))

  marks_read :
      (hd : Header H) (buff : List ℕ)
      → 39 ≤ length buff
      → (slice 0 8 (apply (marks hd buff) buff) ≡ some (to_le_bytes 8 (length buff - 36)))
        × (slice 36 1 (apply (marks hd buff) buff) ≡ some (packet_byte hd.code ∷ []))
        × (slice 37 2 (apply (marks hd buff) buff) ≡ some (to_le_bytes 2 hd.msg_id))
  marks_read hd buff big =
      let f = marks-Fits hd buff big in
      let l2 = length-to_le_bytes 2 hd.msg_id in
      let l8 = length-to_le_bytes 8 (length buff - 36) in
      (
        slice-apply 0 8 (to_le_bytes 8 (length buff - 36)) (marks hd buff) buff (omega arith) f
            (inr (inl (omega arith), inr (inl (omega arith), inl (refl, l8, refl)))),
        slice-apply 36 1 (packet_byte hd.code ∷ []) (marks hd buff) buff (omega arith) f
            (inr (inl (omega arith), inl (refl, refl, refl))),
        slice-apply 37 2 (to_le_bytes 2 hd.msg_id) (marks hd buff) buff (omega arith) f
            (inl (refl, l2, refl)),
      )

  -- A packet with room for its prefix and header, that `encrypt_marshal` seals under a nonce of 12
  -- bytes. Whoever takes the prefix of the bytes reads the length of what follows, and with the same
  -- key opens what follows to the code and the message id of the sender's header.
  pub encrypt_marshal-opens :
      (nonce buff out : List ℕ) (key : a.Key) (hd hd' rd : Header H)
      → length nonce ≡ 12
      → 39 ≤ length buff
      → length buff < 2 ^ 64
      → hd.msg_id < 2 ^ 16
      → encrypt_marshal a nonce buff key hd ≡ some (some out, hd')
      → (got : Header H) × (take_prefix out rd ≡ some (length (drop 36 out), got))
        × (encrypt_unmarshal a (drop 36 out) key got
            ≡ some (some (record got { code = hd.code; msg_id = hd.msg_id })))
  unfolding encrypt_marshal encrypt_unmarshal take_prefix
  encrypt_marshal-opens nonce buff out key hd hd' rd ln big small id e =
      let b0 = apply (marks hd buff) buff in
      let marked = raw_marshal-apply hd buff big in
      let lb = length-apply (marks hd buff) buff (marks-Fits hd buff big) in
      elim (Option-cases (a.encrypt key nonce associated (drop 36 b0))) [
        | inl fails ↦
            let stops : encrypt_marshal a nonce buff key hd
                ≡ some (none, record hd { is_marshalled = true }) =
              rw marked (rw fails refl) in
            ground (arith, e, stops)
        | inr ((sealed, tag), sealing) ↦
            let (ls, lt) = a.length-encrypt key nonce associated (drop 36 b0) sealed tag sealing in
            let ld = length-drop 36 b0 in
            let made = sealed_packet nonce buff key hd ln big sealed tag sealing in
            let same : out ≡ packet nonce tag sealed b0 = ground (arith, e, made) in
            let (r0, r1, r2, r3) =
              packet_reads nonce tag sealed b0 ln lt (omega (arith, lb)) (omega (arith, ls, ld)) in
            let got = record rd { nonce = nonce; tag = tag } in
            let (m0, m1, m2) = marks_read hd buff big in
            let opened = a.decrypt-encrypt key nonce associated (drop 36 b0) sealed tag sealing in
            let said =
              raw_unmarshal_lem (drop 36 b0) got hd.code hd.msg_id
                (slice-drop 0 1 36 b0 (omega (arith, lb)) ∙ m1)
                (slice-drop 1 2 36 b0 (omega (arith, lb)) ∙ m2) id in
            let behind : length (drop 36 (packet nonce tag sealed b0)) ≡ length buff - 36 =
              rw r3 (omega (arith, ls, ld, lb)) in
            (
              got,
              rw (same, take_prefix)
                  (rw (r0 ∙ m0) (
                    rw r1 (
                      rw r2 (
                        ap some (
                          ap (λ n. (n, got))
                            (from_le_bytes-to_le_bytes 8 (length buff - 36) (omega arith)
                              ∙ sym behind)))))),
              rw (same, r3, encrypt_unmarshal) (rw opened (rw said refl)),
            )
      ]
