-- ===== src/Canvas.antt =====
-- The canvas of the board, web/src/pixi/renderBoard.ts: `rebuildBoardContent` as the list of what it
-- adds to the container, in the order in which it is drawn. PixiJS itself is not modelled: a
-- `Graphics` is the list of its commands.
pub mod Colors
pub mod Shapes
pub mod Edges
pub mod Paints
pub mod Clicks
pub mod Moves
mod Tests
use package.dot_and_boxes.Prelude.{
  ℕ, ◌+◌, ◌*◌, Bool, true, false, not, ◌&&◌, ◌||◌, Option, none, some, List, [], ◌∷◌, ◌++◌, ltb,
  ◌==◌, if◌then◌else◌, length, String,
}
use package.dot_and_boxes.Prelude.Int.{ℤ, pos}
use package.dot_and_boxes.Prelude.Dict.{Dict}
use package.dot_and_boxes.Prelude.Text.{Text}
use package.dot_and_boxes.Board.{
  Box, ClaimEdgeName, top_edge, left_edge, right_edge, bottom_edge, get_edge,
}
use package.dot_and_boxes.Game.Move.{MoveRequest}
use package.dot_and_boxes.Canvas.Colors.{Color, css_color_to_pixi, pastel_named_color, token}
use package.dot_and_boxes.Canvas.Shapes.{
  Command, CompletedCell, px, add_tabletop_quadrant_background, add_grid_lattice_lines,
  add_completed_cell, add_dot_lattice,
}
use package.dot_and_boxes.Canvas.Edges.{PixelEdge, claimed_paint_for_edge, color_of_owner}

pub record Params : Type 0 where
  pub boxes : List Box
  pub board_dimension : ℕ
  pub box_size : ℕ
  pub base_x : ℤ
  pub base_y : ℤ
  pub full_w : ℕ
  pub full_h : ℕ
  pub user_colors : Dict String
  pub turn_to_user_id_map : Dict ℕ
  pub game_id : ℕ
  pub user_id : ℕ
  pub emphasize_selectable_edges : Bool

-- A child of the container.
pub data Child : Type 0 where
  background : List Command → Child
  shapes : List Command → Child
  cell : CompletedCell → Child
  edge : PixelEdge → Child

abbrev pub starts_with_hash : Text → Bool
starts_with_hash [] = false
starts_with_hash (c ∷ s) = c == 35

-- The fill of a completed cell, by its colour's text.
unfoldable pub fill_of : Text → Color
fill_of color =
    if starts_with_hash color || ltb 6 (length color)
    then css_color_to_pixi color
    else pastel_named_color (token color)

-- The first loop over the boxes.
abbrev pub completed_cells : Params → List Box → List Child
completed_cells p [] = []
completed_cells p (b ∷ bs) =
    elim b.owner_turn [
      | none ↦ []
      | some turn ↦
          cell (
            add_completed_cell (b.col * p.box_size) (b.row * p.box_size) p.box_size
              (fill_of (color_of_owner p.turn_to_user_id_map p.user_colors "#888888" turn)))
          ∷ []
    ]
    ++ completed_cells p bs

-- The label of an `EdgeKind`.
abbrev pub label : ClaimEdgeName → String
label top_edge = "top_edge"
label left_edge = "left_edge"
label right_edge = "right_edge"
label bottom_edge = "bottom_edge"

-- `emit`
abbrev pub emit : Params → Box → ClaimEdgeName → MoveRequest
emit p b e = record {
  game_id = p.game_id;
  player_id = p.user_id;
  row = pos b.row;
  col = pos b.col;
  edge = label e;
}

-- The ends of an edge of a box, in pixels.
abbrev pub ends : ℕ → Box → ClaimEdgeName → ℕ × ℕ × ℕ × ℕ
ends size b top_edge = (b.col * size, b.row * size, b.col * size + size, b.row * size)
ends size b left_edge = (b.col * size, b.row * size, b.col * size, b.row * size + size)
ends size b right_edge =
    (b.col * size + size, b.row * size, b.col * size + size, b.row * size + size)
ends size b bottom_edge =
    (b.col * size, b.row * size + size, b.col * size + size, b.row * size + size)

-- One call of `addPixelEdge`.
abbrev pub pixel_edge : Params → Box → ClaimEdgeName → PixelEdge
pixel_edge p b e = record {
  xa = px (ends p.box_size b e).0;
  ya = px (ends p.box_size b e).1;
  xb = px (ends p.box_size b e).2;
  yb = px (ends p.box_size b e).3;
  claimed_paint =
      if get_edge e b
      then some (
          claimed_paint_for_edge p.boxes p.board_dimension b.row b.col e p.turn_to_user_id_map
            p.user_colors)
      else none;
  emphasize_selectable = p.emphasize_selectable_edges && not (get_edge e b);
  hover = false;
  click = emit p b e;
}

-- The four calls for a box, in their order.
abbrev pub edges_of_box : Params → Box → List PixelEdge
edges_of_box p b =
    pixel_edge p b top_edge
    ∷ pixel_edge p b left_edge
    ∷ pixel_edge p b right_edge
    ∷ pixel_edge p b bottom_edge
    ∷ []

-- The second loop over the boxes.
unfoldable pub pixel_edges : Params → List Box → List PixelEdge
pixel_edges p [] = []
pixel_edges p (b ∷ bs) = edges_of_box p b ++ pixel_edges p bs

abbrev pub edge_children : List PixelEdge → List Child
edge_children [] = []
edge_children (e ∷ es) = edge e ∷ edge_children es

-- `rebuildBoardContent`: the children that it leaves in the container, whatever was in it.
unfoldable pub rebuild_board_content : Params → List Child
unfolding pixel_edges
rebuild_board_content p =
    background (add_tabletop_quadrant_background p.base_x p.base_y p.full_w p.full_h)
      ∷ shapes (add_grid_lattice_lines p.board_dimension p.box_size)
      ∷ completed_cells p p.boxes
    ++ edge_children (pixel_edges p p.boxes)
    ++ shapes (add_dot_lattice p.board_dimension p.box_size) ∷ []
