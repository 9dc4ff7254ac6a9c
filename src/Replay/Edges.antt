-- ===== src/Replay/Edges.antt =====
-- `setEdge` of web/src/routes/_authenticated/replay/$gameID.tsx against `applyClaimEdge` of
-- web/src/lib/optimisticGameGrid.ts.
use dot_and_boxes.Prelude.{ℕ, ◌<◌, ◌≡◌, refl, arith, some, String}
use dot_and_boxes.Prelude.Int.{pos}
use dot_and_boxes.Board.{
  Grid, ClaimEdgeName, top_edge, left_edge, right_edge, bottom_edge, claim_sides, apply_claim_edge,
  edge_label,
}
use dot_and_boxes.Board.Cells.{clone_grid_id}
use dot_and_boxes.Replay.{set_edge}

pub set_edge-eq-claim :
    (n : ℕ) (g : Grid) (r c : ℕ) (e : ClaimEdgeName)
    → r < n
    → c < n
    → set_edge g n (pos r) (pos c) e ≡ claim_sides n g (pos r) (pos c) (some e)
unfolding set_edge claim_sides
set_edge-eq-claim n g r c top_edge hr hc = ground arith
set_edge-eq-claim n g r c left_edge hr hc = ground arith
set_edge-eq-claim n g r c right_edge hr hc = ground arith
set_edge-eq-claim n g r c bottom_edge hr hc = ground arith

-- The name under which the live game sends an edge.
abbrev pub name_of : ClaimEdgeName → String
name_of top_edge = "top_edge"
name_of left_edge = "left_edge"
name_of right_edge = "right_edge"
name_of bottom_edge = "bottom_edge"

pub edge_label-name_of : (e : ClaimEdgeName) → edge_label (name_of e) ≡ some e
edge_label-name_of top_edge = refl
edge_label-name_of left_edge = refl
edge_label-name_of right_edge = refl
edge_label-name_of bottom_edge = refl

-- On any grid, well formed or not, and at any place within the size, the replay's `setEdge` and the
-- live game's `applyClaimEdge` give the same result: the same grid, or both throw.
pub set_edge-eq-apply_claim_edge :
    (n : ℕ) (g : Grid) (r c : ℕ) (edge : String) {e : ClaimEdgeName}
    → r < n
    → c < n
    → edge_label edge ≡ some e
    → set_edge g n (pos r) (pos c) e ≡ apply_claim_edge g n (pos r) (pos c) edge
unfolding apply_claim_edge
set_edge-eq-apply_claim_edge n g r c edge {e} hr hc l =
    rw (clone_grid_id g, l) (set_edge-eq-claim n g r c e hr hc)
