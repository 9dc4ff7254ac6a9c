-- ===== src/GameView/Tests.antt =====
-- Runs of what $gameID.tsx renders of a game of two, and of its presence and its timer.
use dot_and_boxes.Prelude.{ℕ, ◌≡◌, refl, true, false, none, some, List, [], ◌∷◌}
use dot_and_boxes.Prelude.Int.{pos}
use dot_and_boxes.Prelude.Text.{Text, codes}
use dot_and_boxes.Messages.{Game, GamePlayer, TimerStatePayload}
use dot_and_boxes.Game.{current_turn_player}
use dot_and_boxes.GameView.{players_by_score, turn_display_text, is_low}
use dot_and_boxes.GameView.Ranking.{IsFalling, scorers, players_by_score_lem}
use dot_and_boxes.GameView.Presence.{PresenceEvent, changes}
use dot_and_boxes.GameView.Hydration.{
  TimerEvent, effect_runs, replies, ticks, timer, axios_error, new_hydration, run_timer,
}

abbrev ann : GamePlayer
ann = record {
  player = record {
    user_id = 7;
    username = "Ann";
    avatar_url = "";
    is_anonymous = true;
    status = "";
  };
  turn_order = 0;
  score = 1;
}

abbrev bob : GamePlayer
bob = record {
  player = record {
    user_id = 8;
    username = "Bob";
    avatar_url = "";
    is_anonymous = true;
    status = "";
  };
  turn_order = 1;
  score = 3;
}

abbrev game : Game
game = record {
  game_id = 1;
  game_name = none;
  players = ann ∷ bob ∷ [];
  board_size = 2;
  winner_id = some 8;
  created_at = "";
  current_turn = 0;
  grid = [];
}

turn_of_ann : turn_display_text game 8 ≡ codes "Ann's Turn"
unfolding turn_display_text current_turn_player
turn_of_ann = refl

low_at_a_third : is_low (pos 1750) (pos 5000) ≡ true
low_at_a_third = refl

not_low : is_low (pos 1751) (pos 5000) ≡ false
not_low = refl

bob_first : players_by_score (ann ∷ bob ∷ []) ≡ bob ∷ ann ∷ []
unfolding players_by_score
bob_first = refl

players_by_score_lem_example :
    IsFalling (players_by_score game.players)
    × ((k : ℕ) → scorers k (players_by_score game.players) ≡ scorers k game.players)
players_by_score_lem_example = players_by_score_lem game.players

-- Upper case for ASCII is enough here.
abbrev same : Text → Text
same t = t

abbrev visits : List PresenceEvent
visits = changes true (codes "1") ∷ changes false (codes "1") ∷ changes true (codes "1") ∷ []

abbrev payload : TimerStatePayload
payload = record { game_id = 1; players = []; active_turn = 0; turn_limit_ms = none }

abbrev first_run : List TimerEvent
first_run = effect_runs true ∷ []

under_way : (run_timer first_run new_hydration).running ≡ some 0
unfolding run_timer
under_way = refl

abbrev later : List TimerEvent
later = ticks payload ∷ replies 0 (axios_error (some 404)) ∷ replies 1 (timer payload) ∷ []
