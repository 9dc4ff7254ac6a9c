-- ===== src/GameView.antt =====
-- What the page of a game renders, web/src/routes/game/$gameID.tsx and
-- web/src/components/GameWinOverlay.tsx: the players in the order of their scores, the turn, the times,
-- and the end of the game. An upper-cased text is the parameter `to_upper`; style is not modelled.
pub mod Ranking
pub mod Headline
pub mod Presence
pub mod Hydration
mod Tests
use package.dot_and_boxes.Prelude.{
  ℕ, ◌+◌, ◌*◌, Bool, true, false, not, ◌&&◌, ◌||◌, Option, none, some, List, [], ◌∷◌, ◌++◌, String,
  map, find, take, ltb, if◌then◌else◌, ◌==◌,
}
use package.dot_and_boxes.Prelude.Int.{ℤ, pos, negsuc, leb_ℤ}
use package.dot_and_boxes.Prelude.Dict.{Dict, lookup}
use package.dot_and_boxes.Prelude.Text.{Text, codes, decimal}
use package.dot_and_boxes.Messages.{Game, GamePlayer, TimerStatePayload}
use package.dot_and_boxes.Game.{current_turn_player, winner_player, is_game_finished}
use package.dot_and_boxes.Game.Timer.{
  default_turn_limit_ms, get_player_time, is_player_disconnected,
}
use package.dot_and_boxes.Game.Clock.{format_turn_clock}

-- `sort((a, b) => b.score - a.score)`, which keeps the order of equal scores.
abbrev pub insert_by_score : GamePlayer → List GamePlayer → List GamePlayer
insert_by_score p [] = p ∷ []
insert_by_score p (q ∷ qs) = if ltb p.score q.score then q ∷ insert_by_score p qs else p ∷ q ∷ qs

unfoldable pub players_by_score : List GamePlayer → List GamePlayer
players_by_score [] = []
players_by_score (p ∷ ps) = insert_by_score p (players_by_score ps)

unfoldable pub is_my_turn : Game → ℕ → Bool
is_my_turn g uid = elim (current_turn_player g) [ none ↦ false | some p ↦ p.user_id == uid ]

abbrev pub or_else : Text → Text → Text
or_else [] d = d
or_else (c ∷ t) d = c ∷ t

-- `turnDisplayText`; a name that is empty counts as none.
unfoldable pub turn_display_text : Game → ℕ → Text
unfolding is_my_turn
turn_display_text g uid =
    let anonymous = codes "Player " ++ decimal g.current_turn in
    if is_my_turn g uid
    then codes "Your Turn"
    else elim (current_turn_player g) [
      | none ↦ anonymous
      | some p ↦ or_else (codes p.username) anonymous
    ]
      ++ codes "'s Turn"

-- `timeMs <= Math.min(2000, Math.max(800, turnLimit * 0.35))`
abbrev pub is_low : ℤ → ℤ → Bool
is_low time limit = leb_ℤ time (pos 2000) && (leb_ℤ time (pos 800) || is_low_part time limit)
  where
    -- `time <= limit * 0.35`
    is_low_part : ℤ → ℤ → Bool
    is_low_part (pos t) (pos l) = leb_ℤ (pos (100 * t)) (pos (35 * l))
    is_low_part (negsuc t) (pos l) = true
    is_low_part (pos t) (negsuc l) = false
    is_low_part (negsuc t) (negsuc l) = leb_ℤ (pos (35 * (l + 1))) (pos (100 * (t + 1)))

pub record Clock : Type 0 where
  pub text : Text
  pub low : Bool

abbrev pub turn_limit : TimerStatePayload → ℤ
turn_limit t = elim t.turn_limit_ms [ none ↦ default_turn_limit_ms | some l ↦ l ]

abbrev pub clock_of : TimerStatePayload → ℤ → Clock
clock_of t time = record {
  text = format_turn_clock time (turn_limit t);
  low = is_low time (turn_limit t);
}

-- The clock beside the turn.
unfoldable pub turn_clock : Option TimerStatePayload → Game → Option Clock
turn_clock none g = none
turn_clock (some t) g = elim (current_turn_player g) [
  | none ↦ none
  | some p ↦ elim (get_player_time (some t) p.user_id) [
    | none ↦ none
    | some time ↦ some (clock_of t time)
  ]
]

pub data Badge : Type 0 where
  your_turn playing : Badge

-- The last line of a row: the turn order, or the clock, which is green for the player whose turn it is.
pub data LastLine : Type 0 where
  in_order : ℕ → LastLine
  timed : Clock → Bool → LastLine

pub record PlayerRow : Type 0 where
  pub user_id : ℕ
  pub their_turn : Bool
  pub is_you : Bool
  pub trophy : Bool
  pub initial : Text
  pub color : String
  pub name : Text
  pub badge : Option Badge
  pub disconnected : Bool
  pub last_line : LastLine
  pub score : ℕ

abbrev pub is_winner : Game → GamePlayer → Bool
is_winner g p = elim g.winner_id [ none ↦ false | some w ↦ p.user_id == w ]

abbrev pub last_line_of : Option TimerStatePayload → Bool → GamePlayer → LastLine
last_line_of none theirs p = in_order (p.turn_order + 1)
last_line_of (some t) theirs p = elim (get_player_time (some t) p.user_id) [
  | none ↦ in_order (p.turn_order + 1)
  | some time ↦ let c = clock_of t time in timed (record c { low = theirs && c.low }) theirs
]

module _ (to_upper : Text → Text) where
  unfoldable pub table_row :
      Game → ℕ → Dict String → Option TimerStatePayload → GamePlayer → PlayerRow
  table_row g uid colors timer p =
      let theirs = p.turn_order == g.current_turn in
      let you = p.user_id == uid in
      record {
        user_id = p.user_id;
        their_turn = theirs;
        is_you = you;
        trophy = is_winner g p;
        initial = to_upper (take 1 (codes p.username));
        color = elim (lookup p.user_id colors) [ none ↦ "#666" | some c ↦ c ];
        name = if you then codes "You" else codes p.username;
        badge = if theirs then some (if you then your_turn else playing) else none;
        disconnected = is_player_disconnected timer p.user_id;
        last_line = last_line_of timer theirs p;
        score = p.score;
      }

  unfoldable pub table_rows : Game → ℕ → Dict String → Option TimerStatePayload → List PlayerRow
  unfolding table_row players_by_score
  table_rows g uid colors timer = map (table_row g uid colors timer) (players_by_score g.players)

  -- `headline` of the overlay.
  unfoldable pub headline : Option GamePlayer → Option ℕ → Text
  headline none user = codes "DRAW!"
  headline (some w) none = to_upper (codes w.username) ++ codes " WINS!"
  headline (some w) (some uid) =
      if w.user_id == uid then codes "YOU WIN!" else to_upper (codes w.username) ++ codes " WINS!"

  -- The overlay that the page renders, with what it says.
  unfoldable pub win_overlay : Game → Option ℕ → Option Text
  unfolding headline
  win_overlay g user =
      if is_game_finished (some g) then some (headline (winner_player g) user) else none

-- A row of the final scores.
pub record ScoreRow : Type 0 where
  pub star : Bool
  pub name : Text
  pub score : ℕ

abbrev pub is_id : Option ℕ → ℕ → Bool
is_id none uid = false
is_id (some u) uid = uid == u

unfoldable pub final_scores : Game → Option ℕ → List ScoreRow
unfolding players_by_score
final_scores g user =
    map
      (λ p. record {
        star = is_id g.winner_id p.user_id && has_winner (winner_player g);
        name = if is_id user p.user_id then codes "You" else codes p.username;
        score = p.score;
      })
      (players_by_score g.players)
  where
    has_winner : Option GamePlayer → Bool
    has_winner none = false
    has_winner (some w) = true

pub record LeaderboardEntry : Type 0 where
  pub rank : ℕ
  pub user_id : ℕ
  pub username : Text
  pub value : ℕ

-- `rankForUser`
unfoldable pub rank_for_user : Option (List LeaderboardEntry) → Option ℕ → Option ℕ
rank_for_user none user = none
rank_for_user (some es) none = none
rank_for_user (some es) (some uid) = elim (find (λ e. e.user_id == uid) es) [
  | none ↦ none
  | some e ↦ some e.rank
]

-- `rows` of `MiniLbTable`, each with whether it is highlighted.
unfoldable pub mini_table :
    Option (List LeaderboardEntry) → Option ℕ → List (Bool × LeaderboardEntry)
mini_table none user = []
mini_table (some es) user = map (λ e. (is_id user e.user_id, e)) (take 8 es)
