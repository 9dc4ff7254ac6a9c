-- ===== src/Canvas/Edges.antt =====
-- The edges that web/src/pixi/renderBoard.ts draws: which cells tint an edge, what is painted, the
-- area that takes a tap, and the pointer's events.
use dot_and_boxes.Prelude.{
  ℕ, ◌+◌, ◌-◌, ◌*◌, Bool, true, false, not, ◌&&◌, Option, none, some, List, [], ◌∷◌, ◌++◌, ltb,
  ◌==◌, if◌then◌else◌, find, String,
}
use dot_and_boxes.Prelude.Int.{ℤ, pos, ◌+ℤ◌, ◌-ℤ◌, min_ℤ, max_ℤ}
use dot_and_boxes.Prelude.Dict.{Dict, lookup}
use dot_and_boxes.Prelude.Text.{Text, codes}
use dot_and_boxes.Board.{Box, ClaimEdgeName, top_edge, left_edge, right_edge, bottom_edge}
use dot_and_boxes.Game.Move.{MoveRequest}
use dot_and_boxes.Canvas.Colors.{Color, stroke_for_active_edge}
use dot_and_boxes.Canvas.Shapes.{Command, rect, fill, stroke, hex, px}

pub data ClaimedPaint : Type 0 where
  pending : ClaimedPaint
  player : Text → ClaimedPaint

-- A list that is spread where the test holds.
abbrev spread : Bool → ℕ × ℕ → List (ℕ × ℕ)
spread true cell = cell ∷ []
spread false cell = []

unfoldable pub adjacent_cells_for_edge : ℕ → ℕ → ClaimEdgeName → ℕ → List (ℕ × ℕ)
adjacent_cells_for_edge row col top_edge dim = (row, col) ∷ spread (ltb 0 row) (row - 1, col)
adjacent_cells_for_edge row col bottom_edge dim =
    (row, col) ∷ spread (ltb (row + 1) dim) (row + 1, col)
adjacent_cells_for_edge row col left_edge dim = (row, col) ∷ spread (ltb 0 col) (row, col - 1)
adjacent_cells_for_edge row col right_edge dim =
    (row, col) ∷ spread (ltb (col + 1) dim) (row, col + 1)

abbrev pub box_at : List Box → ℕ × ℕ → Option Box
box_at boxes cell = find (λ x. x.row == cell.0 && x.col == cell.1) boxes

abbrev pub owner_in : Option Box → Option ℕ
owner_in none = none
owner_in (some b) = b.owner_turn

-- `uid ? userColors[uid] ?? fallback : fallback`: the user id 0 counts as no user.
abbrev pub color_of_owner : Dict ℕ → Dict String → String → ℕ → Text
color_of_owner maps colors fallback turn = elim (lookup turn maps) [
  | none ↦ codes fallback
  | some uid ↦
      if uid == 0
      then codes fallback
      else elim (lookup uid colors) [ none ↦ codes fallback | some c ↦ codes c ]
]

-- The loop of `claimedPaintForEdge`.
abbrev pub paint_of_cells : List Box → Dict ℕ → Dict String → List (ℕ × ℕ) → ClaimedPaint
paint_of_cells boxes maps colors [] = pending
paint_of_cells boxes maps colors (cell ∷ cells) = elim (owner_in (box_at boxes cell)) [
  | some turn ↦ player (color_of_owner maps colors "gray" turn)
  | none ↦ paint_of_cells boxes maps colors cells
]

unfoldable pub claimed_paint_for_edge :
    List Box → ℕ → ℕ → ℕ → ClaimEdgeName → Dict ℕ → Dict String → ClaimedPaint
unfolding adjacent_cells_for_edge
claimed_paint_for_edge boxes dim row col edge maps colors =
    paint_of_cells boxes maps colors (adjacent_cells_for_edge row col edge dim)

-- The container that `addPixelEdge` adds, with the move that a tap on it calls `onEdgeClick` for.
pub record PixelEdge : Type 0 where
  pub xa : ℤ
  pub ya : ℤ
  pub xb : ℤ
  pub yb : ℤ
  pub claimed_paint : Option ClaimedPaint
  pub emphasize_selectable : Bool
  pub hover : Bool
  pub click : MoveRequest

abbrev pub is_claimed : PixelEdge → Bool
is_claimed e = elim e.claimed_paint [ none ↦ false | some _ ↦ true ]

-- `ya === yb`
abbrev pub is_horizontal : PixelEdge → Bool
is_horizontal e = eq_ℤ e.ya e.yb
  where
    eq_ℤ : ℤ → ℤ → Bool
    eq_ℤ (pos a) (pos b) = a == b
    eq_ℤ (ℤ.negsuc a) (ℤ.negsuc b) = a == b
    eq_ℤ _ _ = false

abbrev pub x_min : PixelEdge → ℤ
x_min e = min_ℤ e.xa e.xb

abbrev pub y_min : PixelEdge → ℤ
y_min e = min_ℤ e.ya e.yb

abbrev pub edge_length : PixelEdge → ℤ
edge_length e = if is_horizontal e then max_ℤ e.xa e.xb -ℤ x_min e else max_ℤ e.ya e.yb -ℤ y_min e

pub record Area : Type 0 where
  pub x : ℤ
  pub y : ℤ
  pub w : ℤ
  pub h : ℤ

-- The rectangle that takes the pointer's events; `EDGE_HIT` is 22 pixels.
unfoldable pub hit_area : PixelEdge → Area
hit_area e =
    if is_horizontal e
    then record { x = x_min e -ℤ px 11; y = e.ya -ℤ px 11; w = edge_length e +ℤ px 22; h = px 22 }
    else record { x = e.xa -ℤ px 11; y = y_min e -ℤ px 11; w = px 22; h = edge_length e +ℤ px 22 }

-- Half of the thickness, which is 6 pixels, or 14.
abbrev pub half_thick : PixelEdge → ℕ
half_thick e = if not (is_claimed e) && e.emphasize_selectable && e.hover then 7 else 3

abbrev pub stroke_color : PixelEdge → Color
stroke_color e = elim e.claimed_paint [
  | none ↦
      if e.emphasize_selectable && e.hover
      then hex 0x57534e
      else if not e.emphasize_selectable && e.hover
      then hex 0x9ca3af
      else hex 0xb8b8b8
  | some paint ↦ elim paint [ pending ↦ hex 0x57534e | player c ↦ stroke_for_active_edge c ]
]

abbrev pub is_neutral : Color → Bool
is_neutral none = false
is_neutral (some (pos n)) = n == 0xe5e7eb
is_neutral (some (ℤ.negsuc n)) = false

-- A rectangle along the edge: so much before its ends, and so much on each side of its middle.
abbrev pub along : PixelEdge → ℕ → ℕ → ℤ × ℤ × ℤ × ℤ
along e ends side =
    if is_horizontal e
    then (x_min e -ℤ px ends, e.ya -ℤ px side, edge_length e +ℤ px (2 * ends), px (2 * side))
    else (e.xa -ℤ px side, y_min e -ℤ px ends, px (2 * side), edge_length e +ℤ px (2 * ends))

-- The glow of an edge that a player's colour tints.
abbrev pub glow : PixelEdge → Text → List Command
glow e c =
    let player_stroke = stroke_for_active_edge c in
    let neutral = is_neutral player_stroke in
    let (ox, oy, ow, oh) = along e 1 (half_thick e + 2) in
    let (ix, iy, iw, ih) = along e 0 (half_thick e + 1) in
    rect ox oy ow oh
      (fill (if neutral then hex 0xf59e0b else player_stroke) (if neutral then 35 else 28))
    ∷ rect ix iy iw ih
        (fill (if neutral then hex 0xfbbf24 else player_stroke) (if neutral then 55 else 42))
    ∷ []

abbrev pub rim : PixelEdge → List Command
rim e =
    let (x, y, w, h) = along e 2 (half_thick e + 2) in
    if not (is_claimed e) && e.emphasize_selectable && e.hover
    then rect x y w h (stroke 150 (hex 0xa8a29e) 55) ∷ []
    else []

-- `paint`
unfoldable pub paint : PixelEdge → List Command
paint e =
    let (x, y, w, h) = along e 0 (half_thick e) in
    elim e.claimed_paint [
      | none ↦ rim e
      | some p ↦ elim p [ pending ↦ rim e | player c ↦ glow e c ]
    ]
    ++ rect x y w h (fill (stroke_color e) 100) ∷ []

pub data Pointer : Type 0 where
  pointer_tap pointer_over pointer_out : Pointer

-- The listeners, which only an edge that is not claimed has, and the move that a tap makes.
unfoldable pub on_pointer : Pointer → PixelEdge → PixelEdge × Option MoveRequest
on_pointer p e =
    if is_claimed e then (e, none) else elim p as (λ _. PixelEdge × Option MoveRequest) [
      | pointer_tap ↦ (e, some e.click)
      | pointer_over ↦ (record e { hover = true }, none)
      | pointer_out ↦ (record e { hover = false }, none)
    ]
