-- ===== src/Duels/Leaderboard/Table/Counted.antt =====
-- Which duels count, and what they say of a win.
use dailydraft_fun.Prelude.{
  ◌≡◌, ◌≢◌, refl, sym, ◌∙◌, ◌⊎◌, inl, inr, true, false, not, ◌||◌, ◌==◌, Option, none, some, List,
  [], ◌∷◌, arith, length, Result, ok, err, from_bind, ok-injective, throw_if, throw_if-eq-ok,
  require, require-eq-ok, Bool-cases,
}
use dailydraft_fun.Js.Text.{Text, text_eq, text_eq_iff}
use dailydraft_fun.Duels.State.{DuelStatus, settled, status_eq}
use dailydraft_fun.Duels.Leaderboard.Types.{
  Outcome, Duel, RankedDuel, ProviderMode, mock, Winner, missing, nobody, wallet, nonempty,
  is_mock_mode, any_mock, winner_played, winner_of, rankable,
}

-- What the winner of a duel says: nobody is a tie, and a wallet that is not empty won, which is one of the two
-- that played.
abbrev pub IsResult : Text → Text → Winner → Option Text → Type 0
IsResult creator opponent missing result = ⊥
IsResult creator opponent nobody result = result ≡ none
IsResult creator opponent (wallet w) result =
    ((w ≡ creator) ⊎ (w ≡ opponent))
    × (((w ≡ []) × (result ≡ none)) ⊎ ((w ≢ []) × (result ≡ some w)))

-- A duel that counts: settled at a known time by two wallets, in no mock mode, with two outcomes, neither of
-- which is a mock.
pub record Counts (d : Duel) (r : RankedDuel) : Type 0 where
  pub is_settled : d.status ≡ settled
  pub genuine : d.provider_mode ≢ mock
  pub creator : r.creator ≡ d.creator_wallet
  pub opponent : (d.opponent_wallet ≡ some r.opponent) × (r.opponent ≢ [])
  pub played : (d.settled_at ≡ some r.played_at) × (r.played_at ≢ [])
  pub outcomes :
      (a b : Outcome) × (d.outcomes ≡ some (a ∷ b ∷ []))
      × (r.outcomes ≡ a ∷ b ∷ [])
      × (a.is_mock ≡ false)
      × (b.is_mock ≡ false)
  pub result : IsResult d.creator_wallet r.opponent d.winner_wallet r.winner

-- The duels that count, in their order.
pub data Counted : List Duel → List RankedDuel → Type 0 where
  all_counted : Counted [] []
  counted :
      {d : Duel} {r : RankedDuel} {ds : List Duel} {rs : List RankedDuel}
      → Counts d r
      → Counted ds rs
      → Counted (d ∷ ds) (r ∷ rs)
  skipped :
      {d : Duel} {ds : List Duel} {rs : List RankedDuel}
      → ((r : RankedDuel) → Counts d r → ⊥)
      → Counted ds rs
      → Counted (d ∷ ds) rs

status_eq-settled : (s : DuelStatus) → status_eq s settled ≡ true → s ≡ settled
unfolding status_eq
status_eq-settled s h = ground arith

nonempty_lem : (o : Option Text) {t : Text} → nonempty o ≡ some t → (o ≡ some t) × (t ≢ [])
nonempty_lem none h = cc
nonempty_lem (some []) h = cc
nonempty_lem (some (c ∷ cs)) h = ground arith

nonempty_some : (t : Text) → t ≢ [] → nonempty (some t) ≡ some t
nonempty_some [] ne = absurd (ne refl)
nonempty_some (c ∷ cs) ne = refl

mock_mode : (m : ProviderMode) → is_mock_mode m ≡ false → m ≢ mock
mock_mode m h = λ e. absurd (cc (rw e at h))

genuine_mode : (m : ProviderMode) → m ≢ mock → is_mock_mode m ≡ false
genuine_mode mock ne = absurd (ne refl)
genuine_mode _ ne = refl

two_outcomes :
    (os : List Outcome)
    → length os == 2 ≡ true
    → any_mock os ≡ false
    → (a b : Outcome) × (os ≡ a ∷ b ∷ []) × (a.is_mock ≡ false) × (b.is_mock ≡ false)
two_outcomes [] two real = cc
two_outcomes (a ∷ []) two real = cc
two_outcomes (a ∷ b ∷ []) two real = (a, b, refl, ground arith, ground arith)
two_outcomes (a ∷ b ∷ c ∷ os) two real = ground arith

winner_text :
    (w : Text)
    → ((w ≡ []) × (winner_of (wallet w) ≡ none)) ⊎ ((w ≢ []) × (winner_of (wallet w) ≡ some w))
winner_text [] = inl (refl, refl)
winner_text (c ∷ cs) = inr (ground arith, refl)

winner_of-IsResult :
    (winner : Winner) (creator opponent : Text)
    → winner_played winner creator opponent ≡ true
    → IsResult creator opponent winner (winner_of winner)
unfolding winner_played
winner_of-IsResult missing creator opponent h = cc
winner_of-IsResult nobody creator opponent h = refl
winner_of-IsResult (wallet w) creator opponent h = (
  elim (Bool-cases (text_eq w creator)) [
    | inl own ↦ inl ((text_eq_iff w creator).0 own)
    | inr other ↦ inr ((text_eq_iff w opponent).0 (rw other at h))
  ],
  winner_text w,
)

IsResult-winner_of :
    (winner : Winner) (creator opponent : Text) (result : Option Text)
    → IsResult creator opponent winner result
    → (winner_played winner creator opponent ≡ true) × (winner_of winner ≡ result)
unfolding winner_played
IsResult-winner_of missing creator opponent result h = absurd h
IsResult-winner_of nobody creator opponent result h = (refl, sym h)
IsResult-winner_of (wallet w) creator opponent result (played, told) = (
  elim played [
    | inl own ↦ rw ((text_eq_iff w creator).1 own) refl
    | inr other ↦ rw ((text_eq_iff w opponent).1 other) (ground arith)
  ],
  elim told [
    | inl (empty, tie) ↦ rw empty (sym tie)
    | inr (full, won) ↦ nonempty_some w full ∙ sym won
  ],
)

pub rankable-Counts : (d : Duel) {r : RankedDuel} → rankable d ≡ ok r → Counts d r
unfolding rankable
rankable-Counts d {r} h =
    from_bind (throw_if (not (status_eq d.status settled)) tt) _ h λ _ over h₁.
      from_bind (require (nonempty d.opponent_wallet) tt) _ h₁ λ opponent met h₂.
        from_bind (require d.outcomes tt) _ h₂ λ os shown h₃.
          from_bind (require (nonempty d.settled_at) tt) _ h₃ λ at timed h₄.
            from_bind
              (throw_if (is_mock_mode d.provider_mode || not (length os == 2) || any_mock os) tt) _
              h₄
              λ _ real h₅.
                from_bind
                  (throw_if (not (winner_played d.winner_wallet d.creator_wallet opponent)) tt) _ h₅
                  λ _ played h₆.
                    let tests =
                      throw_if-eq-ok
                        (is_mock_mode d.provider_mode || not (length os == 2) || any_mock os) tt
                        real in
                    let (a, b, two, first, second) =
                      two_outcomes os (ground (arith, tests)) (ground (arith, tests)) in
                    rw (sym (ok-injective h₆)) (record {
                      is_settled = status_eq-settled d.status (
                          ground
                            (arith, throw_if-eq-ok (not (status_eq d.status settled)) tt over));
                      genuine = mock_mode d.provider_mode (ground (arith, tests));
                      creator = refl;
                      opponent =
                          nonempty_lem d.opponent_wallet
                            (require-eq-ok (nonempty d.opponent_wallet) tt met);
                      played =
                          nonempty_lem d.settled_at
                            (require-eq-ok (nonempty d.settled_at) tt timed);
                      outcomes = (
                        a,
                        b,
                        rw (← two) (require-eq-ok d.outcomes tt shown),
                        two,
                        first,
                        second,
                      );
                      result = winner_of-IsResult d.winner_wallet d.creator_wallet opponent (
                          ground (
                            arith,
                            throw_if-eq-ok
                                (not (winner_played d.winner_wallet d.creator_wallet opponent)) tt
                                played,
                          ));
                    })

settled_eq : status_eq settled settled ≡ true
unfolding status_eq
settled_eq = refl

pub Counts-rankable :
    (d : Duel) (r : RankedDuel) → Counts d r → (r' : RankedDuel) × (rankable d ≡ ok r')
unfolding rankable
Counts-rankable d r c =
    let (a, b, shown, same, first, second) = c.outcomes in
    let (played, _) =
      IsResult-winner_of d.winner_wallet d.creator_wallet r.opponent r.winner c.result in
    rw
      (
        c.is_settled,
        settled_eq,
        c.opponent.0,
        nonempty_some r.opponent c.opponent.1,
        shown,
        c.played.0,
        nonempty_some r.played_at c.played.1,
        genuine_mode d.provider_mode c.genuine,
        first,
        second,
        played,
      )
      (_, refl)

-- The duels that count, as the loop reads them.
abbrev pub add_ranked : Result (Unit {0}) RankedDuel → List RankedDuel → List RankedDuel
add_ranked (err _) rs = rs
add_ranked (ok r) rs = r ∷ rs

abbrev pub ranked_duels : List Duel → List RankedDuel
ranked_duels [] = []
ranked_duels (d ∷ ds) = add_ranked (rankable d) (ranked_duels ds)

add_ranked-Counted :
    (d : Duel) (m : Result (Unit {0}) RankedDuel) (ds : List Duel) (rs : List RankedDuel)
    → rankable d ≡ m
    → Counted ds rs
    → Counted (d ∷ ds) (add_ranked m rs)
add_ranked-Counted d (err e) ds rs h rest =
    skipped (λ r c. let (_, ranked) = Counts-rankable d r c in absurd (cc (sym h ∙ ranked))) rest
add_ranked-Counted d (ok r) ds rs h rest = counted (rankable-Counts d h) rest

pub ranked_duels-Counted : (ds : List Duel) → Counted ds (ranked_duels ds)
ranked_duels-Counted [] = all_counted
ranked_duels-Counted (d ∷ ds) =
    add_ranked-Counted d (rankable d) ds (ranked_duels ds) refl (ranked_duels-Counted ds)
