-- ===== src/Replay.antt =====
-- The replay page, web/src/routes/_authenticated/replay/$gameID.tsx: the snapshots that
-- `buildReplayStates` makes from the events of a game (web/src/api/fetchGames.ts), and the
-- playback controls. Rows and columns of an event are integers of the payload, taken unchecked.
pub mod Edges
pub mod EmptyGrid
pub mod Moves
pub mod Snapshots
pub mod Scores
pub mod Playback
mod Tests
use package.dot_and_boxes.Prelude.{
  ℕ, zero, suc, ◌+◌, ◌-◌, Bool, true, false, Option, none, some, List, [], ◌∷◌, ◌++◌, String,
  if◌then◌else◌, ◌&&◌,
}
use package.dot_and_boxes.Prelude.Int.{ℤ, pos, ◌+ℤ◌, ◌-ℤ◌, ltb_ℤ}
use package.dot_and_boxes.Prelude.Dict.{Dict, lookup, insert}
use package.dot_and_boxes.Board.{
  Box, Grid, Result, ok, ◌>>=◌, ClaimEdgeName, top_edge, left_edge, right_edge, bottom_edge,
  mark_edge, write_box,
}
use text.Mathlib.Text.{◌==◌ as str_eq}

-- The fields of `MoveAppliedPayload`, `BoxCompletedPayload` and `GamePlayer` (fetchGames.ts).
pub record MoveAppliedPayload : Type 0 where
  pub turn_order : ℕ
  pub row : ℤ
  pub col : ℤ
  pub edge : String

pub record BoxCompletedPayload : Type 0 where
  pub row : ℤ
  pub col : ℤ
  pub owner_turn : ℕ

-- An event with what the `switch` reads of its type's payload; `unknown` is any type that it has no
-- case for.
pub data DomainEvent : Type 0 where
  created : ℕ → DomainEvent
  move_applied : MoveAppliedPayload → DomainEvent
  box_completed : BoxCompletedPayload → DomainEvent
  turn_passed : ℕ → DomainEvent
  ended forfeited unknown : DomainEvent

unfoldable pub edge_name_to_field : String → ClaimEdgeName
edge_name_to_field edge =
    if str_eq edge "top"
    then top_edge
    else if str_eq edge "right"
    then right_edge
    else if str_eq edge "bottom"
    then bottom_edge
    else if str_eq edge "left"
    then left_edge
    else top_edge

unfoldable pub empty_box : ℕ → ℕ → Box
empty_box r c = record {
  row = r;
  col = c;
  top_edge = false;
  right_edge = false;
  bottom_edge = false;
  left_edge = false;
  owner_turn = none;
}

-- The inner loop, at column `c` with `left` columns to go.
pub empty_row : ℕ → ℕ → ℕ → List Box
unfolding empty_box
empty_row r c zero = []
empty_row r c (suc left) = empty_box r c ∷ empty_row r (suc c) left

-- The outer loop, at row `r` with `left` rows to go.
pub empty_rows : ℕ → ℕ → ℕ → Grid
unfolding empty_row
empty_rows size r zero = []
empty_rows size r (suc left) = empty_row r 0 size ∷ empty_rows size (suc r) left

unfoldable pub make_empty_grid : ℕ → Grid
unfolding empty_rows
make_empty_grid size = empty_rows size 0 size

-- The guarded second write of `setEdge`.
abbrev write_if : Bool → Grid → ℤ → ℤ → ClaimEdgeName → Result Grid
write_if test g r c k = if test then write_box g r c (mark_edge k) else ok g

unfoldable pub set_edge : Grid → ℕ → ℤ → ℤ → ClaimEdgeName → Result Grid
set_edge grid n row col top_edge = do
  g ← write_box grid row col (mark_edge top_edge)
  write_if (ltb_ℤ (pos 0) row) g (row -ℤ pos 1) col bottom_edge
set_edge grid n row col right_edge = do
  g ← write_box grid row col (mark_edge right_edge)
  write_if (ltb_ℤ col (pos n -ℤ pos 1)) g row (col +ℤ pos 1) left_edge
set_edge grid n row col bottom_edge = do
  g ← write_box grid row col (mark_edge bottom_edge)
  write_if (ltb_ℤ row (pos n -ℤ pos 1)) g (row +ℤ pos 1) col top_edge
set_edge grid n row col left_edge = do
  g ← write_box grid row col (mark_edge left_edge)
  write_if (ltb_ℤ (pos 0) col) g row (col -ℤ pos 1) right_edge

pub record ReplayState : Type 0 where
  pub grid : Grid
  pub scores : Dict ℕ
  pub current_turn : ℕ
  pub last_move : Option MoveAppliedPayload

-- The variables of `buildReplayStates`.
pub record Builder : Type 0 where
  pub states : List ReplayState
  pub board_size : ℕ
  pub grid : Grid
  pub scores : Dict ℕ
  pub current_turn : ℕ
  pub has_pending_move : Bool
  pub last_move : Option MoveAppliedPayload

abbrev pub initial : Builder
initial = record {
  states = [];
  board_size = 0;
  grid = [];
  scores = [];
  current_turn = 0;
  has_pending_move = false;
  last_move = none;
}

-- A deep copy of the variables: the value of an immutable model.
abbrev pub snapshot : Builder → ReplayState
snapshot b = record {
  grid = b.grid;
  scores = b.scores;
  current_turn = b.current_turn;
  last_move = b.last_move;
}

-- `states.push(...)` of the variables, after which no move is pending.
abbrev pub push_state : Builder → Builder
push_state b = record b { states = b.states ++ snapshot b ∷ []; has_pending_move = false }

-- The test above the `switch`.
abbrev pub flush_before : DomainEvent → Builder → Builder
flush_before (move_applied _) b = if b.has_pending_move then push_state b else b
flush_before _ b = b

-- `scores[t] || 0`
abbrev pub score_of : Dict ℕ → ℕ → ℕ
score_of d t = elim (lookup t d) [ none ↦ 0 | some n ↦ n ]

abbrev pub set_owner : ℕ → Box → Box
set_owner t b = record b { owner_turn = some t }

abbrev pub start_game : ℕ → Builder → Builder
start_game size b =
    let c : Builder = record b {
      board_size = size;
      grid = make_empty_grid size;
      scores = [];
      current_turn = 0;
    } in
    record c {
      states =
          c.states
          ++ record {
            grid = c.grid;
            scores = c.scores;
            current_turn = c.current_turn;
            last_move = none;
          }
            ∷ [];
    }

-- The edge of `game.move_applied`, and what the case does with the grid that results.
abbrev pub marked : MoveAppliedPayload → Builder → Result Grid
marked p b = set_edge b.grid b.board_size p.row p.col (edge_name_to_field p.edge)

abbrev pub moved : MoveAppliedPayload → Builder → Grid → Builder
moved p b g = record b { grid = g; last_move = some p; has_pending_move = true }

abbrev pub scored : BoxCompletedPayload → Builder → Grid → Builder
scored p b g = record b {
  grid = g;
  scores = insert p.owner_turn (score_of b.scores p.owner_turn + 1) b.scores;
}

-- The `switch` of `buildReplayStates`.
unfoldable pub handle_event : DomainEvent → Builder → Result Builder
unfolding edge_name_to_field set_edge
handle_event (created size) b = ok (start_game size b)
handle_event (move_applied p) b = marked p b >>= λ g. ok (moved p b g)
handle_event (box_completed p) b =
    write_box b.grid p.row p.col (set_owner p.owner_turn) >>= λ g. ok (scored p b g)
handle_event (turn_passed next) b = ok (push_state (record b { current_turn = next }))
handle_event ended b = ok (push_state b)
handle_event forfeited b = ok (push_state b)
handle_event unknown b = ok b

-- The loop over the events.
unfoldable pub build_from : Builder → List DomainEvent → Result Builder
unfolding handle_event
build_from b [] = ok b
build_from b (e ∷ es) = handle_event e (flush_before e b) >>= λ b'. build_from b' es

-- What a move still pending adds after the loop.
abbrev pub flush_end : Builder → List ReplayState
flush_end b = if b.has_pending_move then b.states ++ snapshot b ∷ [] else b.states

unfoldable pub build_replay_states : List DomainEvent → Result (List ReplayState)
unfolding build_from
build_replay_states events = build_from initial events >>= λ b. ok (flush_end b)
