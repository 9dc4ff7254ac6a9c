-- ===== src/Canvas/Tests.antt =====
-- The drawing of a board of one box, and its colours (web/src/pixi/renderBoard.ts).
use dot_and_boxes.Prelude.{
  ◌≡◌, refl, true, false, none, some, List, [], ◌∷◌, All, flat, length, get_elem?,
}
use dot_and_boxes.Prelude.Int.{pos, negsuc}
use dot_and_boxes.Prelude.Text.{codes, trim}
use dot_and_boxes.Board.{Box, Grid, ok, top_edge, left_edge, apply_claim_edge}
use dot_and_boxes.Messages.{Game, GamePlayer}
use dot_and_boxes.Game.{is_game_finished, current_turn_player}
use dot_and_boxes.Game.Move.{Page, MoveRequest, waits, is_turn_of, handle_click}
use dot_and_boxes.Game.Move.Requests.{sent}
use dot_and_boxes.Canvas.Moves.{tap_sends}
use dot_and_boxes.Board.Lines.{IsBoard}
use dot_and_boxes.Replay.{make_empty_grid}
use dot_and_boxes.Replay.EmptyGrid.{make_empty_grid-IsBoard}
use dot_and_boxes.Canvas.{Params, pixel_edges, pixel_edge}
use dot_and_boxes.Canvas.Colors.{css_color_to_pixi}
use dot_and_boxes.Canvas.Edges.{claimed_paint_for_edge, PixelEdge, on_pointer, pointer_tap}
use dot_and_boxes.Canvas.Clicks.{IsHonest, drawn-IsHonest}

short_color : css_color_to_pixi (codes " #F0a ") ≡ some (pos 0xff00aa)
unfolding css_color_to_pixi trim
short_color = refl

named_color : css_color_to_pixi (codes "Red") ≡ some (pos 0xf2a4a4)
unfolding css_color_to_pixi trim
named_color = refl

no_color : css_color_to_pixi (codes "#") ≡ none
unfolding css_color_to_pixi trim
no_color = refl

abbrev grid : Grid
unfolding make_empty_grid
grid = make_empty_grid 1

abbrev params : Params
unfolding make_empty_grid
params = record {
  boxes = flat grid;
  board_dimension = 1;
  box_size = 70;
  base_x = negsuc 499;
  base_y = negsuc 499;
  full_w = 80;
  full_h = 80;
  user_colors = [];
  turn_to_user_id_map = [];
  game_id = 3;
  user_id = 7;
  emphasize_selectable_edges = true;
}

grid-IsBoard : IsBoard 1 grid
unfolding make_empty_grid
grid-IsBoard = (make_empty_grid-IsBoard 1).0

widths : All (λ (row : List Box). length row ≡ 1) grid
unfolding make_empty_grid
widths = (refl, tt)

drawn-IsHonest_example : All (IsHonest 1 grid) (pixel_edges params (flat grid))
drawn-IsHonest_example = drawn-IsHonest 1 grid params grid-IsBoard widths

abbrev box : Box
box = record {
  row = 0;
  col = 0;
  top_edge = false;
  right_edge = false;
  bottom_edge = false;
  left_edge = false;
  owner_turn = none;
}

abbrev top : PixelEdge
top = pixel_edge params box top_edge

abbrev ann : GamePlayer
ann = record {
  player = record {
    user_id = 7;
    username = "Ann";
    avatar_url = "";
    is_anonymous = true;
    status = "";
  };
  turn_order = 0;
  score = 0;
}

abbrev game : Game
game = record {
  game_id = 1;
  game_name = none;
  players = ann ∷ [];
  board_size = 1;
  winner_id = none;
  created_at = "";
  current_turn = 0;
  grid = grid;
}

abbrev page : Page
page = record {
  cache = some game;
  is_processing_move = false;
  timer_state = none;
  toasts = [];
  requests = [];
}

abbrev left_move : MoveRequest
left_move = record {
  game_id = params.game_id;
  player_id = 7;
  row = pos 0;
  col = pos 0;
  edge = "left_edge";
}

running : is_game_finished (some game) ≡ false
unfolding is_game_finished make_empty_grid grid
running = refl

turn : is_turn_of game 7 ≡ true
unfolding current_turn_player
turn = refl

abbrev left_pixel_edge : PixelEdge
left_pixel_edge = pixel_edge params box left_edge

drawn_left : get_elem? (pixel_edges params (flat grid)) 1 ≡ some left_pixel_edge
unfolding pixel_edges make_empty_grid grid params
drawn_left = refl

tapped_left : (on_pointer pointer_tap left_pixel_edge).1 ≡ some left_move
unfolding on_pointer claimed_paint_for_edge params
tapped_left = refl

tap_sends_example :
    (out : Grid) × (apply_claim_edge grid 1 (pos 0) (pos 0) "left_edge" ≡ ok out)
    × IsBoard 1 out
    × (handle_click false (some 7) left_move page
        ≡ ok (waits (record { before = game }) (sent game left_move page out)))
unfolding params grid
tap_sends_example =
    tap_sends params page game 1 {e = left_pixel_edge} {m = left_move} grid-IsBoard widths refl
      running turn drawn_left tapped_left
