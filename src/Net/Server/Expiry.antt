-- ===== src/Net/Server/Expiry.antt =====
-- src/server.rs: what the loop of handle_timeouts does to the table and the connections.
use mathlib.Core.Option.{some-injective}
use bullet_ledger.Base.{
  ◌≡◌, ◌≢◌, ℕ, ◌+◌, ◌≤◌, ◌<◌, ◌==◌, ◌&&◌, false, Option, none, some, List, [], ◌∷◌, if◌then◌else◌,
  ltb, refl, sym, ap, ◌∙◌, arith, ◌⊎◌, inl, inr, Option-cases, Bool-cases,
}
use bullet_ledger.Base.Assoc.{lookup, remove, contains, lookup-remove}
use bullet_ledger.Net.Hub.{Hub}
use bullet_ledger.Net.Server.{TcpConnection, TimeoutEntry, expire_entry, expire}

abbrev pub AllFrom : ℕ → List TimeoutEntry → Type 0
AllFrom w [] = Unit {0}
AllFrom w (e ∷ es) = (w ≤ e.when) × AllFrom w es

abbrev pub Sorted : List TimeoutEntry → Type 0
Sorted [] = Unit {0}
Sorted (e ∷ es) = AllFrom e.when es × Sorted es

-- The table has an entry of this time and token.
abbrev pub Has : ℕ → ℕ → List TimeoutEntry → Type 0
Has w t [] = ⊥
Has w t (e ∷ es) = ((e.when ≡ w) × (e.token ≡ t)) ⊎ Has w t es

AllFrom-Has : (w v t : ℕ) (es : List TimeoutEntry) → AllFrom w es → Has v t es → w ≤ v
AllFrom-Has w v t [] all h = elim h [ ]
AllFrom-Has w v t (e ∷ es) (le, all) (inl (same, _)) = omega (arith, le, same)
AllFrom-Has w v t (e ∷ es) (le, all) (inr h) = AllFrom-Has w v t es all h

Sorted-Has :
    (v t : ℕ) (e : TimeoutEntry) (es : List TimeoutEntry)
    → Sorted (e ∷ es)
    → Has v t (e ∷ es)
    → e.when ≤ v
Sorted-Has v t e es (all, _) (inl (same, _)) = omega (arith, same)
Sorted-Has v t e es (all, _) (inr h) = AllFrom-Has e.when v t es all h

module _ {C Io : Type 0} (T : TcpConnection C Io) where
  -- Each connection's last deadline stands in the table.
  abbrev pub Covered : List (ℕ × C) → List TimeoutEntry → Type 0
  Covered maps table =
      (t : ℕ) (c : C) → lookup t maps ≡ some c → Has (T.get_last_deadline c) t table

  -- A connection, if its deadline is after `now`.
  unfoldable pub alive : ℕ → Option C → Option C
  alive now none = none
  alive now (some c) = if ltb now (T.get_last_deadline c) then some c else none

  alive-later : (now : ℕ) (c : C) → now < T.get_last_deadline c → alive now (some c) ≡ some c
  unfolding alive
  alive-later now c h = ground (arith, h)

  alive-past : (now : ℕ) (c : C) → T.get_last_deadline c ≤ now → alive now (some c) ≡ none
  unfolding alive
  alive-past now c h = ground (arith, h)

  -- What an entry does to the connections: it ends the one whose last deadline it is.
  abbrev EntryCases : TimeoutEntry → List (ℕ × C) → Hub → Type 0
  EntryCases entry maps hub =
      (((expire_entry T entry maps hub).0 ≡ maps)
        × ((c : C) → lookup entry.token maps ≡ some c → T.get_last_deadline c ≢ entry.when))
      ⊎ ((c : C) × (lookup entry.token maps ≡ some c)
          × (T.get_last_deadline c ≡ entry.when)
          × ((expire_entry T entry maps hub).0 ≡ remove entry.token maps))

  entry_cases : (entry : TimeoutEntry) (maps : List (ℕ × C)) (hub : Hub) → EntryCases entry maps hub
  unfolding expire_entry
  entry_cases entry maps hub = elim (Option-cases (lookup entry.token maps)) [
    | inl absent ↦ inl (rw (absent, expire_entry) refl, λ c e. ground (arith, absent, e))
    | inr (c, e) ↦ elim (Bool-cases (T.get_last_deadline c == entry.when)) [
      | inl same ↦ inr (c, e, ground (arith, same), rw (e, expire_entry) (rw same refl))
      | inr differ ↦ inl (
        rw (e, expire_entry) (rw differ refl),
        λ d e' same.
            ground (arith, differ, same, ap T.get_last_deadline (some-injective c d (sym e ∙ e'))),
      )
    ]
  ]

  -- What the rest of the loop starts from, after an entry that does not end it.
  abbrev Popped : ℕ → TimeoutEntry → List TimeoutEntry → List (ℕ × C) → List (ℕ × C) → Type 0
  Popped now entry table maps maps' =
      Covered maps' table × ((t : ℕ) → alive now (lookup t maps') ≡ alive now (lookup t maps))

  entry_Popped :
      (now : ℕ) (entry : TimeoutEntry) (table : List TimeoutEntry) (maps : List (ℕ × C)) (hub : Hub)
      → Covered maps (entry ∷ table)
      → (ltb now entry.when && contains entry.token maps) ≡ false
      → Popped now entry table maps (expire_entry T entry maps hub).0
  unfolding alive
  entry_Popped now entry table maps hub covered over = elim (entry_cases entry maps hub) [
    | inl (same, other) ↦ rw same (
      (λ t c e. elim (covered t c e) [
        | inl (w, k) ↦ elim (other c (ap (λ j. lookup j maps) k ∙ e) (sym w)) [ ]
        | inr h ↦ h
      ]),
      λ t. refl,
    )
    | inr (c, e, last, removed) ↦ rw (removed) (
      (λ t d h. elim (Bool-cases (entry.token == t)) [
        | inl same ↦ ground (arith, same, h, lookup-remove entry.token t maps)
        | inr apart ↦
            elim (covered t d (ground (arith, apart, h, lookup-remove entry.token t maps))) [
              | inl (w, k) ↦ ground (arith, apart, k)
              | inr there ↦ there
            ]
      ]),
      λ t. rw (lookup-remove entry.token t maps) (elim (Bool-cases (entry.token == t)) [
        | inl same ↦
            let here : lookup t maps ≡ some c = ground (arith, same, e) in
            let past : T.get_last_deadline c ≤ now = ground (arith, e, last, over) in
            rw (same, here) (sym (alive-past now c past))
        | inr apart ↦ rw apart refl
      ]),
    )
  ]

  unchanged :
      (now : ℕ) (maps : List (ℕ × C))
      → ((t : ℕ) (c : C) → lookup t maps ≡ some c → now < T.get_last_deadline c)
      → (t : ℕ) → lookup t maps ≡ alive now (lookup t maps)
  unfolding alive
  unchanged now maps later t = elim (Option-cases (lookup t maps)) [
    | inl e ↦ rw e refl
    | inr (c, e) ↦ rw e (sym (alive-later now c (later t c e)))
  ]

  -- What the loop leaves.
  abbrev pub Left : ℕ → List (ℕ × C) → Option ℕ × List TimeoutEntry × List (ℕ × C) × Hub → Type 0
  Left now maps (wait, table, maps', hub) =
      ((t : ℕ) → lookup t maps' ≡ alive now (lookup t maps))
      × Covered maps' table
      × Sorted table
      × ((idle t : ℕ) (c : C)
          → lookup t maps' ≡ some c
          → now + (elim wait [ none ↦ idle | some d ↦ d ]) ≤ T.get_last_deadline c)

  pub expire-Left :
      (now : ℕ) (table : List TimeoutEntry) (maps : List (ℕ × C)) (hub : Hub)
      → Sorted table
      → Covered maps table
      → Left now maps (expire T now table maps hub)
  unfolding expire
  expire-Left now [] maps hub sorted covered = (
    unchanged now maps (λ t c e. elim (covered t c e) [ ]),
    covered,
    tt,
    λ idle t c e. elim (covered t c e) [ ],
  )
  expire-Left now (entry ∷ table) maps hub sorted covered =
      elim (Bool-cases (ltb now entry.when && contains entry.token maps)) [
        | inl ends ↦
            let ahead : now < entry.when = ground (arith, ends) in
            let later : (t : ℕ) (c : C)
                → lookup t maps ≡ some c
                → entry.when ≤ T.get_last_deadline c =
              (λ t c e. Sorted-Has (T.get_last_deadline c) t entry table sorted (covered t c e)) in
            rw ends (
              unchanged now maps (λ t c e. omega (arith, ahead, later t c e)),
              covered,
              sorted,
              λ idle t c h. omega (arith, ahead, later t c h),
            )
        | inr over ↦
            let (covered', same) = entry_Popped now entry table maps hub covered over in
            let (ih, cov, srt, dur) =
              expire-Left now table _ (expire_entry T entry maps hub).1 sorted.1 covered' in
            rw over ((λ t. ih t ∙ same t), cov, srt, dur)
      ]
