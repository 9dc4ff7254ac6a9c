-- ===== src/Game/Tests.antt =====
-- Runs of web/src/routes/game/$gameID.tsx, on an empty board of two by two boxes.
use dot_and_boxes.Prelude.{
  ℕ, ◌≡◌, refl, ◌⊎◌, inl, inr, true, false, none, some, List, [], ◌∷◌, arith, String,
}
use dot_and_boxes.Prelude.Int.{pos}
use dot_and_boxes.Prelude.Text.{codes, decimal}
use dot_and_boxes.Board.{Grid, ok, type_error, apply_claim_edge, is_edge_free}
use dot_and_boxes.Board.Lines.{IsBoard}
use dot_and_boxes.Messages.{Player, GamePlayer, Game, TimerStatePayload, Message, game_state}
use dot_and_boxes.Replay.{make_empty_grid}
use dot_and_boxes.Replay.EmptyGrid.{make_empty_grid-IsBoard}
use dot_and_boxes.Game.{is_game_finished, current_turn_player}
use dot_and_boxes.Game.Players.{DistinctTurns}
use dot_and_boxes.Game.Clock.{format_turn_clock}
use dot_and_boxes.Game.Move.{
  MoveRequest, Page, Pending, done, waits, handle_click, refused, finish_move, receive_all,
}
use dot_and_boxes.Game.Move.Requests.{
  MayMove, handle_click-MayMove, game_of, says, finish_move_lem, failed_move_forgets,
}
use dot_and_boxes.Game.Move.Optimistic.{second_click}

abbrev user : ℕ → String → Player
user id name = record {
  user_id = id;
  username = name;
  avatar_url = "";
  is_anonymous = false;
  status = "in_game";
}

abbrev ann : GamePlayer
ann = record { player = user 7 "ann"; turn_order = 0; score = 0 }

abbrev bob : GamePlayer
bob = record { player = user 9 "bob"; turn_order = 1; score = 0 }

abbrev game : Game
unfolding make_empty_grid
game = record {
  game_id = 3;
  game_name = none;
  players = ann ∷ bob ∷ [];
  board_size = 2;
  winner_id = none;
  created_at = "";
  current_turn = 0;
  grid = make_empty_grid 2;
}

abbrev page : Page
unfolding make_empty_grid
page = record {
  cache = some game;
  is_processing_move = false;
  timer_state = none;
  toasts = [];
  requests = [];
}

abbrev click : MoveRequest
click = record { game_id = 3; player_id = 7; row = pos 0; col = pos 0; edge = "right_edge" }

-- The same line, from the box to the right.
abbrev click_again : MoveRequest
click_again = record { game_id = 3; player_id = 7; row = pos 0; col = pos 1; edge = "left_edge" }

-- The grid after the click.
abbrev clicked : Grid
unfolding make_empty_grid apply_claim_edge
clicked = elim (apply_claim_edge (make_empty_grid 2) 2 (pos 0) (pos 0) "right_edge") [
  | ok g ↦ g
  | type_error ↦ []
]

abbrev waiting : Page
unfolding make_empty_grid apply_claim_edge
waiting = record page {
  cache = some (record game { grid = clicked });
  is_processing_move = true;
  requests = click ∷ [];
}

abbrev pending : Pending
unfolding make_empty_grid
pending = record { before = game }

click_waits : handle_click false (some 7) click page ≡ ok (waits pending waiting)
unfolding handle_click is_game_finished current_turn_player is_edge_free apply_claim_edge
    make_empty_grid
click_waits = refl

-- The other player is told that it is not his turn.
not_his_turn :
    handle_click false (some 9) click page
    ≡ ok (done (record page { toasts = "Not your turn" ∷ [] }))
unfolding handle_click is_game_finished current_turn_player is_edge_free apply_claim_edge
    make_empty_grid
not_his_turn = refl

game-IsBoard : IsBoard 2 game.grid
unfolding make_empty_grid
game-IsBoard = (make_empty_grid-IsBoard 2).0

handle_click-MayMove_example :
    MayMove false (some 7) click page pending.before
    × (waiting.requests ≡ click ∷ page.requests)
    × (waiting.is_processing_move ≡ true)
    × ((g : Grid) × (apply_claim_edge pending.before.grid pending.before.board_size click.row
            click.col click.edge
          ≡ ok g)
        × (waiting.cache ≡ some (record pending.before { grid = g })))
handle_click-MayMove_example = handle_click-MayMove false (some 7) click page click_waits

second_click_example :
    (q' : Page) × (handle_click false (some 7) click_again waiting ≡ ok (done q'))
    × (q'.requests ≡ waiting.requests)
    × (q'.cache ≡ waiting.cache)
unfolding pending waiting
second_click_example =
    second_click false (some 7) click page false (some 7) click_again game-IsBoard click_waits refl

finish_move_lem_example :
    ((g : Game) × (game_of (refused (some "edge already claimed")) ≡ some g)
      × (finish_move pending (refused (some "edge already claimed")) waiting
          ≡ record page { cache = some g; requests = click ∷ page.requests }))
    ⊎ (game_of (refused (some "edge already claimed")) ≡ none)
      × (finish_move pending (refused (some "edge already claimed")) waiting ≡ record page {
        toasts = says (refused (some "edge already claimed")) ∷ page.toasts;
        requests = click ∷ page.requests;
      })
unfolding page
finish_move_lem_example =
    finish_move_lem false (some 7) click page (refused (some "edge already claimed")) refl
      click_waits

-- What the server sends while the request is under way.
abbrev news : List Message
unfolding make_empty_grid
news = record { topic = some "game:3"; body = game_state (record game { current_turn = 1 }) } ∷ []

failed_move_forgets_example :
    (finish_move pending (refused none) (receive_all "game:3" news waiting)).cache ≡ page.cache
failed_move_forgets_example =
    failed_move_forgets false (some 7) click page "game:3" news (refused none) click_waits (λ g. cc)

distinct : DistinctTurns (ann ∷ bob ∷ [])
distinct = (elim [ inl e ↦ absurd (omega (arith, e)) | inr e ↦ e ], ((λ e. e), tt))

-- A server behind by seconds, and one ahead.
abbrev timer : TimerStatePayload
timer = record {
  game_id = 3;
  players =
      record { turn_order = 0; user_id = 7; remaining_ms = pos 9000; disconnected = false }
      ∷ record { turn_order = 1; user_id = 9; remaining_ms = pos 9000; disconnected = true }
      ∷ [];
  active_turn = 0;
  turn_limit_ms = none;
}

-- Five seconds' limit, and two minutes'.
short_clock : format_turn_clock (pos 4200) (pos 5000) ≡ codes "5s"
unfolding format_turn_clock decimal
short_clock = refl

long_clock : format_turn_clock (pos 64000) (pos 120000) ≡ codes "1:04"
unfolding format_turn_clock decimal
long_clock = refl
