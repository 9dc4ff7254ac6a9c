-- ===== src/GameView/Headline.antt =====
-- What GameWinOverlay.tsx says of the end of a game.
use dot_and_boxes.Prelude.{
  ℕ, ◌≡◌, refl, ◌⊎◌, inl, inr, true, false, Option, none, some, ◌++◌, arith, ◌==◌, if◌then◌else◌,
  Bool-cases, Option-cases, find-some,
}
use dot_and_boxes.Prelude.Text.{Text, codes}
use dot_and_boxes.Messages.{Game, GamePlayer}
use dot_and_boxes.Game.{winner_player, is_game_finished}
use dot_and_boxes.GameView.{headline, win_overlay}

-- What the overlay should say to a user, given who has won.
pub record SaysWinner (to_upper : Text → Text) (g : Game) (user : Option ℕ) (said : Text)
    : Type 0 where
  pub winner : GamePlayer
  pub won : g.winner_id ≡ some winner.user_id
  pub said_so : said ≡ elim user as (λ _. Text) [
    | none ↦ to_upper (codes winner.username) ++ codes " WINS!"
    | some uid ↦
        if winner.user_id == uid
        then codes "YOU WIN!"
        else to_upper (codes winner.username) ++ codes " WINS!"
  ]

winner_player-won :
    (g : Game) {w : GamePlayer} → winner_player g ≡ some w → g.winner_id ≡ some w.user_id
unfolding winner_player
winner_player-won g {w} h =
    let found =
      find-some (λ (p : GamePlayer). elim g.winner_id [ none ↦ false | some x ↦ p.user_id == x ])
        g.players {x = w} h in
    ground (arith, found)

-- The page shows the overlay exactly of a finished game. It says `DRAW!` where no player of the game is
-- its winner, and otherwise who has won, which is `YOU WIN!` to the winner and to no one else.
pub win_overlay_lem :
    (to_upper : Text → Text) (g : Game) (user : Option ℕ)
    → ((is_game_finished (some g) ≡ false) × (win_overlay to_upper g user ≡ none))
      ⊎ ((is_game_finished (some g) ≡ true)
          × ((said : Text) × (win_overlay to_upper g user ≡ some said)
              × (((winner_player g ≡ none) × (said ≡ codes "DRAW!"))
                  ⊎ SaysWinner to_upper g user said)))
unfolding win_overlay headline
win_overlay_lem to_upper g user = elim (Bool-cases (is_game_finished (some g))) [
  | inr n ↦ inl (n, rw n refl)
  | inl y ↦ inr (
    y,
    (
      headline to_upper (winner_player g) user,
      rw y refl,
      by_winner (Option-cases (winner_player g)) user,
    ),
  )
]
  where
    by_winner :
        (winner_player g ≡ none) ⊎ ((w : GamePlayer) × (winner_player g ≡ some w))
        → (u : Option ℕ)
        → let said = headline to_upper (winner_player g) u in
          ((winner_player g ≡ none) × (said ≡ codes "DRAW!")) ⊎ SaysWinner to_upper g u said
    by_winner (inl e) u = inl (e, rw e refl)
    by_winner (inr (w, e)) none =
        inr (record { winner = w; won = winner_player-won g e; said_so = rw e refl })
    by_winner (inr (w, e)) (some uid) =
        inr (record { winner = w; won = winner_player-won g e; said_so = rw e refl })
