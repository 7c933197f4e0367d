-- ===== src/Peers/Scores.antt =====
-- How the recorded behaviour of a peer bans it.
use bullet_ledger.Base.{
  ℕ, ◌+◌, ◌%◌, ◌<◌, ◌≡◌, ◌≢◌, refl, ap, ◌∙◌, Bool, Option, some, List, [], ◌∷◌, if◌then◌else◌, ltb,
  ◌>>=◌, arith,
}
use bullet_ledger.Base.Words.{u16_mod, add_word-lt}
use bullet_ledger.Base.Assoc.{lookup, insert, lookup-insert}
use bullet_ledger.Peers.{
  NetError, malformed_prefix, decryption, connection_aborted, negotiation_failed, encryption,
  socket_failed, other, to_score, ok, err, unauthorized, SocketAddr, v4, PeerMan, is_banned,
  record_behaviour,
}

abbrev pub total_score : List NetError → ℕ
total_score [] = 0
total_score (e ∷ es) = to_score e + total_score es

-- The errors are recorded one after the other.
unfoldable pub record_all : Bool → SocketAddr → List NetError → PeerMan → Option PeerMan
record_all checks addr [] s = some s
record_all checks addr (e ∷ es) s = do
  (s', result) ← record_behaviour checks addr e s
  record_all checks addr es s'

small_score : (e : NetError) → to_score e % u16_mod ≡ to_score e
unfolding to_score
small_score unauthorized = refl
small_score malformed_prefix = refl
small_score (decryption x) = refl
small_score connection_aborted = refl
small_score negotiation_failed = refl
small_score (encryption x) = refl
small_score socket_failed = refl
small_score (other x) = refl

recorded :
    (checks : Bool) (ip port score : ℕ) (e : NetError) (s : PeerMan)
    → lookup ip s.peers ≡ some score
    → score + to_score e < u16_mod
    → record_behaviour checks (v4 ip port) e s
      ≡ some (record s { peers = insert ip (score + to_score e) s.peers }, ok)
unfolding record_behaviour
recorded checks ip port score e s known fits =
    rw (known, small_score e, add_word-lt checks u16_mod score (to_score e) fits) refl

-- A peer with a score, whose errors are recorded one after the other, is refused exactly when its
-- score and those of the errors add up to the threshold, as long as the sum fits in 16 bits. The
-- scores of the other peers do not change.
pub record_all-is_banned :
    (checks : Bool) (ip port score : ℕ) (es : List NetError) (s : PeerMan)
    → lookup ip s.peers ≡ some score
    → score + total_score es < u16_mod
    → (s' : PeerMan) × (record_all checks (v4 ip port) es s ≡ some s')
      × ((any_port : ℕ)
          → is_banned (v4 ip any_port) s'
            ≡ (if ltb (score + total_score es) s.threshold then ok else err unauthorized))
      × ((jp : ℕ) → ip ≢ jp → lookup jp s'.peers ≡ lookup jp s.peers)
unfolding record_all is_banned
record_all-is_banned checks ip port score [] s known fits =
    let whole : score + 0 ≡ score = omega arith in
    (s, refl, (λ any_port. rw (known, whole) refl), (λ jp apart. refl))
record_all-is_banned checks ip port score (e ∷ es) s known fits =
    let s1 = record s { peers = insert ip (score + to_score e) s.peers } in
    let known1 : lookup ip s1.peers ≡ some (score + to_score e) =
      lookup-insert ip ip (score + to_score e) s.peers ∙ ground arith in
    let whole : (score + to_score e) + total_score es ≡ score + (to_score e + total_score es) =
      omega arith in
    let (s', ran, banned, others) =
      record_all-is_banned checks ip port (score + to_score e) es s1 known1 (omega arith) in
    (
      s',
      rw (recorded checks ip port score e s known (omega arith)) ran,
      (λ any_port.
          banned any_port ∙ ap (λ k. if ltb k s.threshold then ok else err unauthorized) whole),
      (λ jp apart.
          others jp apart
          ∙ lookup-insert ip jp (score + to_score e) s.peers
          ∙ ground (arith, apart)),
    )
