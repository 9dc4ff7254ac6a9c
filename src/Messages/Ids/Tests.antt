-- ===== src/Messages/Ids/Tests.antt =====
-- A game of the user 7 and the bot -1, as the page of the game shows it in the bot's turn.
use dot_and_boxes.Prelude.{◌≡◌, refl, false, none, some, [], ◌∷◌}
use dot_and_boxes.Prelude.Int.{negsuc}
use dot_and_boxes.Prelude.Dict.{lookup}
use dot_and_boxes.Prelude.Text.{codes}
use dot_and_boxes.Messages.{Game, GamePlayer}
use dot_and_boxes.Messages.Ids.{id_of}
use dot_and_boxes.Game.{current_turn_player, turn_to_user_id_map, winner_player}
use dot_and_boxes.GameView.{turn_display_text, is_my_turn}

abbrev ann : GamePlayer
ann = record {
  player = record {
    user_id = 7;
    username = "Ann";
    avatar_url = "";
    is_anonymous = false;
    status = "";
  };
  turn_order = 0;
  score = 1;
}

abbrev bot : GamePlayer
bot = record {
  player = record {
    user_id = id_of (negsuc 0);
    username = "Bot1";
    avatar_url = "";
    is_anonymous = false;
    status = "";
  };
  turn_order = 1;
  score = 3;
}

abbrev game : Game
game = record {
  game_id = 1;
  game_name = none;
  players = ann ∷ bot ∷ [];
  board_size = 2;
  winner_id = some (id_of (negsuc 0));
  created_at = "";
  current_turn = 1;
  grid = [];
}

turn_of_bot : turn_display_text game 7 ≡ codes "Bot1's Turn"
unfolding turn_display_text current_turn_player id_of
turn_of_bot = refl

not_turn_of_ann : is_my_turn game 7 ≡ false
unfolding is_my_turn current_turn_player id_of
not_turn_of_ann = refl

id_of_bot : lookup 1 (turn_to_user_id_map (some game)) ≡ some (id_of (negsuc 0))
unfolding turn_to_user_id_map
id_of_bot = refl

bot_won : winner_player game ≡ some bot
unfolding winner_player id_of
bot_won = refl
