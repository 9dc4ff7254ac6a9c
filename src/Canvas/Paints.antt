-- ===== src/Canvas/Paints.antt =====
-- Which cells tint an edge: `adjacentCellsForEdge` and `claimedPaintForEdge` of
-- web/src/pixi/renderBoard.ts.
use dot_and_boxes.Prelude.{
  ℕ, ◌<◌, ◌≡◌, refl, ◌↔◌, inl, inr, Bool, ◌||◌, none, List, [], ◌∷◌, arith, All, any, ◌==◌, ◌&&◌,
  String, Option-cases,
}
use dot_and_boxes.Prelude.Dict.{Dict}
use dot_and_boxes.Board.{Box, ClaimEdgeName, top_edge, left_edge, right_edge, bottom_edge}
use dot_and_boxes.Board.Lines.{Line, line_of, same_line}
use dot_and_boxes.Canvas.Edges.{
  pending, adjacent_cells_for_edge, box_at, owner_in, paint_of_cells, claimed_paint_for_edge,
}

-- The cell `(a, b)` has an edge on the line.
abbrev pub touches : Line → ℕ → ℕ → Bool
touches l a b =
    same_line l (line_of a b top_edge)
    || same_line l (line_of a b left_edge)
    || same_line l (line_of a b right_edge)
    || same_line l (line_of a b bottom_edge)

abbrev pub among : ℕ → ℕ → List (ℕ × ℕ) → Bool
among a b cells = any (λ (c : ℕ × ℕ). c.0 == a && c.1 == b) cells

-- For an edge of a board of size `dim`, `adjacentCellsForEdge` lists, of the cells of the board,
-- exactly those that have an edge on the same line.
pub adjacent_cells_for_edge_lem :
    (dim row col : ℕ) (e : ClaimEdgeName) (a b : ℕ)
    → row < dim
    → col < dim
    → a < dim
    → b < dim
    → among a b (adjacent_cells_for_edge row col e dim) ≡ touches (line_of row col e) a b
unfolding adjacent_cells_for_edge
adjacent_cells_for_edge_lem dim row col top_edge a b hr hc ha hb = ground arith
adjacent_cells_for_edge_lem dim row col left_edge a b hr hc ha hb = ground arith
adjacent_cells_for_edge_lem dim row col right_edge a b hr hc ha hb = ground arith
adjacent_cells_for_edge_lem dim row col bottom_edge a b hr hc ha hb = ground arith

abbrev pub IsUnowned : List Box → ℕ × ℕ → Type 0
IsUnowned boxes cell = owner_in (box_at boxes cell) ≡ none

pending_iff :
    (boxes : List Box) (maps : Dict ℕ) (colors : Dict String) (cells : List (ℕ × ℕ))
    → (paint_of_cells boxes maps colors cells ≡ pending) ↔ All (IsUnowned boxes) cells
pending_iff boxes maps colors [] = (λ _. tt, λ _. refl)
pending_iff boxes maps colors (c ∷ cs) =
    let rest = pending_iff boxes maps colors cs in
    elim (Option-cases (owner_in (box_at boxes c))) [
      | inl e ↦ (λ h. (e, rest.0 (ground (arith, e, h))), λ h. ground (arith, e, rest.1 h.1))
      | inr (t, e) ↦ (λ h. absurd (ground (arith, e, h)), λ h. absurd (ground (arith, e, h.0)))
    ]

-- A claimed edge is painted as pending exactly as long as no cell beside it is owned, so the two
-- cells that share a line agree on that.
pub claimed_paint_for_edge-pending_iff :
    (boxes : List Box) (dim row col : ℕ) (e : ClaimEdgeName) (maps : Dict ℕ) (colors : Dict String)
    → (claimed_paint_for_edge boxes dim row col e maps colors ≡ pending)
      ↔ All (IsUnowned boxes) (adjacent_cells_for_edge row col e dim)
unfolding claimed_paint_for_edge
claimed_paint_for_edge-pending_iff boxes dim row col e maps colors =
    pending_iff boxes maps colors (adjacent_cells_for_edge row col e dim)
