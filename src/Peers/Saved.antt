-- ===== src/Peers/Saved.antt =====
-- What `new` reads of the file that `drop` leaves.
use mathlib.Core.Path.{subst}
use bullet_ledger.Base.{
  le→not-ltb, ℕ, zero, suc, ◌+◌, ◌-◌, ◌*◌, ◌^◌, ◌%◌, ◌<◌, ◌≤◌, ◌≡◌, refl, sym, ap, ◌∙◌, none, some,
  List, [], ◌∷◌, length, arith, inl, inr, Option-cases,
}
use bullet_ledger.Base.Words.{
  u64_mod, to_le_bytes, from_le_bytes, length-to_le_bytes, from_le_bytes-to_le_bytes,
}
use bullet_ledger.Base.Slices.{
  slice, resize, length-resize, copied, length-copied, slice-copied_disjoint, slice-copied_self,
}
use bullet_ledger.Base.Assoc.{insert}
use bullet_ledger.Peers.{
  OpenFile, set_len, write_all, read_exact, seek_relative, PeerMan, write_peers, drop_peers,
  read_peers, new,
}

read_exact-some :
    (n : ℕ) (f f' : OpenFile) (w : List ℕ)
    → read_exact n f ≡ some (w, f')
    → (f.cursor + n ≤ length f.bytes) × (f' ≡ record f { cursor = f.cursor + n })
unfolding read_exact slice
read_exact-some n f f' w e = ground (arith, e)

-- One round of the loop, when the loop succeeds.
read_peers_round :
    (n i : ℕ) (f f' : OpenFile) (peers peers' : List (ℕ × ℕ))
    → read_peers (suc n) i f peers ≡ some (peers', f')
    → (f2 : OpenFile) × (peers2 : List (ℕ × ℕ)) × (read_peers n (suc i) f2 peers2
        ≡ some (peers', f'))
      × (f2.cursor ≡ f.cursor + i * 6 + 6)
      × (length f2.bytes ≡ length f.bytes)
      × (f2.cursor ≤ length f2.bytes)
unfolding read_peers seek_relative
read_peers_round n i f f' peers peers' e =
    elim (Option-cases (read_exact 4 (seek_relative (i * 6) f))) [
      | inl fails ↦ ground (arith, e, fails)
      | inr ((ip, f1), e1) ↦ elim (Option-cases (read_exact 2 f1)) [
        | inl fails ↦
            let stops : read_peers (suc n) i f peers ≡ none = rw e1 (rw fails refl) in
            ground (arith, e, stops)
        | inr ((score, f2), e2) ↦
            let next : read_peers (suc n) i f peers
                ≡ read_peers n (suc i) f2 (insert (from_le_bytes ip) (from_le_bytes score) peers) =
              rw e1 (rw e2 refl) in
            let (r1, s1) = read_exact-some 4 (seek_relative (i * 6) f) f1 ip e1 in
            let (r2, s2) = read_exact-some 2 f1 f2 score e2 in
            let c1 : f1.cursor ≡ f.cursor + i * 6 + 4 = ap (λ g. g.cursor) s1 in
            let b1 : f1.bytes ≡ f.bytes = ap (λ g. g.bytes) s1 in
            let c2 : f2.cursor ≡ f1.cursor + 2 = ap (λ g. g.cursor) s2 in
            let b2 : f2.bytes ≡ f1.bytes = ap (λ g. g.bytes) s2 in
            let n2 : length f2.bytes ≡ length f1.bytes = ap length b2 in
            (
              f2,
              insert (from_le_bytes ip) (from_le_bytes score) peers,
              sym next ∙ e,
              omega (arith, c1, c2),
              n2 ∙ ap length b1,
              omega (arith, n2, r2, c2),
            )
      ]
    ]

-- From the second peer on, each read lies at least 12 bytes behind the last one.
read_peers_reach :
    (n i : ℕ) (f f' : OpenFile) (peers peers' : List (ℕ × ℕ))
    → 1 ≤ i
    → f.cursor ≤ length f.bytes
    → read_peers n i f peers ≡ some (peers', f')
    → f.cursor + 12 * n ≤ length f.bytes
read_peers_reach zero i f f' peers peers' hi h e = omega arith
read_peers_reach (suc n) i f f' peers peers' hi h e =
    let (f2, peers2, ran, cursor, same, inside) = read_peers_round n i f f' peers peers' e in
    let rest = read_peers_reach n (suc i) f2 f' peers2 peers' (omega arith) inside ran in
    omega arith

length-write_all :
    (src : List ℕ) (f : OpenFile)
    → f.cursor + length src ≤ length f.bytes
    → length (write_all src f).bytes ≡ length f.bytes
unfolding write_all copied
length-write_all src f h = length-copied f.cursor src f.bytes h

head-write_all :
    (src : List ℕ) (f : OpenFile)
    → f.cursor + length src ≤ length f.bytes
    → 8 ≤ f.cursor
    → slice 0 8 (write_all src f).bytes ≡ slice 0 8 f.bytes
unfolding write_all copied
head-write_all src f h b = slice-copied_disjoint 0 8 f.cursor src f.bytes h (inl b)

-- Writing the peers keeps the length and the count.
write_peers_keeps :
    (ps : List (ℕ × ℕ)) (f : OpenFile)
    → f.cursor + length ps * 6 ≤ length f.bytes
    → 8 ≤ f.cursor
    → (length (write_peers ps f).bytes ≡ length f.bytes)
      × (slice 0 8 (write_peers ps f).bytes ≡ slice 0 8 f.bytes)
unfolding write_peers
write_peers_keeps [] f h b = (refl, refl)
write_peers_keeps ((ip, score) ∷ ps) f h b =
    let l4 = length-to_le_bytes 4 ip in
    let l2 = length-to_le_bytes 2 score in
    let f1 = write_all (to_le_bytes 4 ip) f in
    let f2 = write_all (to_le_bytes 2 score) f1 in
    let c1 : f1.cursor ≡ f.cursor + 4 = unfold write_all in ap (◌+◌ f.cursor) l4 in
    let c2 : f2.cursor ≡ f1.cursor + 2 = unfold write_all in ap (◌+◌ f1.cursor) l2 in
    let n1 = length-write_all (to_le_bytes 4 ip) f (omega (arith, l4)) in
    let n2 = length-write_all (to_le_bytes 2 score) f1 (omega (arith, l2, c1, n1)) in
    let (n3, h3) =
      write_peers_keeps ps f2 (omega (arith, n1, n2, c1, c2)) (omega (arith, c1, c2)) in
    (
      n3 ∙ n2 ∙ n1,
      h3
          ∙ head-write_all (to_le_bytes 2 score) f1 (omega (arith, l2, c1, n1)) (omega (arith, c1))
          ∙ head-write_all (to_le_bytes 4 ip) f (omega (arith, l4)) b,
    )

-- The file that `drop` leaves: 8 bytes that count the peers, and 6 for each peer.
saved :
    (s : PeerMan)
    → length s.peers * 6 + 8 < u64_mod
    → (length (drop_peers s).bytes ≡ length s.peers * 6 + 8)
      × (slice 0 8 (drop_peers s).bytes ≡ some (to_le_bytes 8 (length s.peers)))
unfolding drop_peers
saved s h =
    let start : OpenFile = record s.file { cursor = 0 } in
    let n = length s.peers in
    let sized = set_len ((n * 6) % u64_mod + 8) start in
    let count = to_le_bytes 8 n in
    let f = write_all count sized in
    let lc = length-to_le_bytes 8 n in
    let ls : length sized.bytes ≡ (n * 6) % u64_mod + 8 =
      unfold set_len in length-resize ((n * 6) % u64_mod + 8) 0 s.file.bytes in
    let at_start : sized.cursor ≡ 0 = unfold set_len in refl in
    let lf = length-write_all count sized (omega (arith, ls, lc, at_start)) in
    let cf : f.cursor ≡ 8 = unfold write_all set_len in omega (arith, lc) in
    let (kept, head) =
      write_peers_keeps s.peers f (omega (arith, cf, lf, ls)) (omega (arith, cf)) in
    let counted : slice 0 8 f.bytes ≡ some count =
      unfold write_all copied set_len in
      slice-copied_self 0 8 count (resize ((n * 6) % u64_mod + 8) 0 s.file.bytes)
        (omega (arith, length-resize ((n * 6) % u64_mod + 8) 0 s.file.bytes)) lc in
    (omega (arith, kept, lf, ls), head ∙ counted)

-- The peers of a file that starts with a count.
counted_read :
    (stored : List ℕ) (n : ℕ)
    → n < u64_mod
    → slice 0 8 stored ≡ some (to_le_bytes 8 n)
    → 8 ≤ length stored
    → (threshold : ℕ) (ips : List ℕ) (s' : PeerMan) → new stored threshold ips ≡ some s'
    → (peers : List (ℕ × ℕ)) × (f : OpenFile) × (read_peers n 0
          (record { bytes = stored; cursor = 8 })
          []
        ≡ some (peers, f))
unfolding new read_exact
counted_read stored n fits head long threshold ips s' e =
    elim (Option-cases (read_peers n 0 (record { bytes = stored; cursor = 8 }) [])) [
      | inl fails ↦
          let stops : new stored threshold ips ≡ none =
            rw (le→not-ltb (length stored) 8 long)
              (rw (head, read_exact) (rw (from_le_bytes-to_le_bytes 8 n fits) (rw fails refl))) in
          ground (arith, e, stops)
      | inr ((peers, f), ran) ↦ (peers, f, ran)
    ]

-- A file saved with two or more peers, fewer than 2^60, is never loaded again: `new` returns an I/O
-- error for it, whatever the threshold and the initial addresses.
pub new-drop_many :
    (s : PeerMan) (threshold : ℕ) (ips : List ℕ)
    → 2 ≤ length s.peers
    → length s.peers < 2 ^ 60
    → new (drop_peers s).bytes threshold ips ≡ none
new-drop_many s threshold ips many few =
    elim (Option-cases (new (drop_peers s).bytes threshold ips)) [
      | inl fails ↦ fails
      | inr (s', e) ↦
          let (len, head) = saved s (omega arith) in
          let (peers, f, ran) =
            counted_read (drop_peers s).bytes (length s.peers) (omega arith) head
              (omega (arith, len)) threshold ips s' e in
          let (f2, peers2, ran2, cursor, same, inside) =
            read_peers_round (length s.peers - 1) 0
              (record { bytes = (drop_peers s).bytes; cursor = 8 }) f [] peers
              (subst
                (λ n.
                  read_peers n 0 (record { bytes = (drop_peers s).bytes; cursor = 8 }) []
                  ≡ some (peers, f))
                (omega arith) ran) in
          let far =
            read_peers_reach (length s.peers - 1) 1 f2 f peers2 peers (omega arith) inside ran2 in
          absurd (omega (arith, far, same, len, cursor))
    ]
