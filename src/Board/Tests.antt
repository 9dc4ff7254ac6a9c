-- ===== src/Board/Tests.antt =====
-- Runs of web/src/lib/optimisticGameGrid.ts on an empty board of two by two boxes.
use dot_and_boxes.Prelude.{◌≡◌, refl, true, false, arith, if◌then◌else◌}
use dot_and_boxes.Prelude.Int.{pos, negsuc}
use dot_and_boxes.Board.{
  Grid, Result, ok, type_error, ◌>>=◌, left_edge, right_edge, is_edge_free, apply_claim_edge,
}
use dot_and_boxes.Board.Lines.{line_of, same_line, IsBoard}
use dot_and_boxes.Board.Refinement.{Claims, apply_claim_edge-Claims}
use dot_and_boxes.Board.Free.{Decides, IsFree, is_edge_free-Decides, is_edge_free-claim}
use dot_and_boxes.Replay.{make_empty_grid}
use dot_and_boxes.Replay.EmptyGrid.{make_empty_grid-IsBoard}

abbrev two : Grid
unfolding make_empty_grid
two = make_empty_grid 2

two-IsBoard : IsBoard 2 two
unfolding make_empty_grid
two-IsBoard = (make_empty_grid-IsBoard 2).0

abbrev claimed_two : Result Grid
unfolding apply_claim_edge
claimed_two = apply_claim_edge two 2 (pos 0) (pos 0) "right_edge"

-- The claimed line is not free from the next box, a border edge is, and off the board nothing is.
shared_edge : (claimed_two >>= λ g. is_edge_free g 2 (pos 0) (pos 1) "left_edge") ≡ ok false
unfolding is_edge_free apply_claim_edge make_empty_grid
shared_edge = refl

border_edge : (claimed_two >>= λ g. is_edge_free g 2 (pos 0) (pos 1) "right_edge") ≡ ok true
unfolding is_edge_free apply_claim_edge make_empty_grid
border_edge = refl

off_board : is_edge_free two 2 (negsuc 0) (pos 0) "top_edge" ≡ ok false
unfolding is_edge_free
off_board = refl

-- A size greater than the grid's throws.
too_small : is_edge_free two 4 (pos 3) (pos 0) "top_edge" ≡ type_error
unfolding is_edge_free make_empty_grid
too_small = refl

apply_claim_edge-Claims_example :
    Claims 2 two (line_of 0 1 left_edge) (apply_claim_edge two 2 (pos 0) (pos 1) "left_edge")
apply_claim_edge-Claims_example =
    apply_claim_edge-Claims 2 two 0 1 "left_edge" two-IsBoard (omega arith) (omega arith) refl

is_edge_free-Decides_example :
    Decides
      (is_edge_free two 2 (negsuc 3) (pos 1) "top_edge")
      (IsFree 2 two (negsuc 3) (pos 1) "top_edge")
is_edge_free-Decides_example = is_edge_free-Decides 2 two (negsuc 3) (pos 1) "top_edge" two-IsBoard

after_right_edge :
    Claims 2 two (line_of 0 0 right_edge) (apply_claim_edge two 2 (pos 0) (pos 0) "right_edge")
after_right_edge =
    apply_claim_edge-Claims 2 two 0 0 "right_edge" two-IsBoard (omega arith) (omega arith) refl

is_edge_free-claim_example : is_edge_free after_right_edge.out 2 (pos 0) (pos 1) "left_edge" ≡ (
    if same_line (line_of 0 0 right_edge) (line_of 0 1 left_edge)
    then ok false
    else is_edge_free two 2 (pos 0) (pos 1) "left_edge")
is_edge_free-claim_example =
    is_edge_free-claim 2 two 0 0 "right_edge" 0 1 "left_edge" two-IsBoard (omega arith)
      (omega arith) (omega arith) (omega arith) refl refl after_right_edge.returns
