-- ===== src/Replay/Tests.antt =====
-- Runs of web/src/routes/_authenticated/replay/$gameID.tsx on the log of a game on one box.
use dot_and_boxes.Prelude.{
  ℕ, ◌+◌, map, ◌≡◌, refl, List, [], ◌∷◌, Bool, true, false, Option, none, some, All, arith, String,
  inl,
}
use dot_and_boxes.Prelude.Int.{pos, negsuc, pos_part}
use dot_and_boxes.Board.{Grid, Result, ok, type_error, left_edge, apply_claim_edge}
use dot_and_boxes.Replay.{
  DomainEvent, created, move_applied, box_completed, turn_passed, ended, MoveAppliedPayload,
  BoxCompletedPayload, ReplayState, build_replay_states, make_empty_grid, set_edge, score_of,
}
use dot_and_boxes.Replay.Edges.{set_edge-eq-apply_claim_edge}
use dot_and_boxes.Replay.Moves.{IsShown, build_replay_states-IsShown}
use dot_and_boxes.Replay.Snapshots.{IsInside, IsSnapshot, build_replay_states-IsSnapshot}
use dot_and_boxes.Replay.Playback.{
  Playback, new_playback, current_state, run, handle, Event, drag, press_toggle, effect,
  interval_call, press_backward, key_down,
}
use dot_and_boxes.Replay.Playback.Range.{
  InRange, run-InRange, calls, playback_ends, loading_keys_lose_step,
}

abbrev move : String → MoveAppliedPayload
move edge = record { turn_order = 0; row = pos 0; col = pos 0; edge = edge }

abbrev first_box : BoxCompletedPayload
first_box = record { row = pos 0; col = pos 0; owner_turn = 1 }

-- The events after `game.created`.
abbrev log : List DomainEvent
log =
    move_applied (move "top")
    ∷ move_applied (move "left")
    ∷ box_completed first_box
    ∷ turn_passed 1
    ∷ ended
    ∷ []

abbrev box : Bool → Bool → Option ℕ → Grid
box top left owner =
    (record {
      row = 0;
      col = 0;
      top_edge = top;
      right_edge = false;
      bottom_edge = false;
      left_edge = left;
      owner_turn = owner;
    }
      ∷ [])
    ∷ []

abbrev fresh_state : ReplayState
fresh_state = record {
  grid = box false false none;
  scores = [];
  current_turn = 0;
  last_move = none;
}

abbrev top_state : ReplayState
top_state = record {
  grid = box true false none;
  scores = [];
  current_turn = 0;
  last_move = some (move "top");
}

-- A move with nothing after it is shown all the same.
one_move :
    build_replay_states (created 1 ∷ move_applied (move "top") ∷ [])
    ≡ ok (fresh_state ∷ top_state ∷ [])
unfolding build_replay_states make_empty_grid
one_move = refl

-- A move before the game is created throws.
no_board : build_replay_states (move_applied (move "top") ∷ []) ≡ type_error
unfolding build_replay_states
no_board = refl

-- The winner of the box has one point in the end.
abbrev scores_of : Result (List ReplayState) → List ℕ
scores_of (ok ss) = map (λ (s : ReplayState). score_of s.scores 1) ss
scores_of type_error = []

log_scores : scores_of (build_replay_states (created 1 ∷ log)) ≡ 0 ∷ 0 ∷ 1 ∷ 1 ∷ []
unfolding build_replay_states make_empty_grid
log_scores = refl

set_edge-eq-apply_claim_edge_example :
    set_edge (make_empty_grid 2) 2 (pos 0) (pos 1) left_edge
    ≡ apply_claim_edge (make_empty_grid 2) 2 (pos 0) (pos 1) "left_edge"
set_edge-eq-apply_claim_edge_example =
    set_edge-eq-apply_claim_edge 2 (make_empty_grid 2) 0 1 "left_edge" (omega arith) (omega arith)
      refl

build_replay_states-IsShown_example :
    All (IsShown (fresh_state ∷ top_state ∷ [])) (created 1 ∷ move_applied (move "top") ∷ [])
build_replay_states-IsShown_example =
    build_replay_states-IsShown (created 1 ∷ move_applied (move "top") ∷ []) one_move

inside : IsInside 1 (pos 0) (pos 0) 0 0
inside = record { at_row = refl; at_col = refl; row_lt = omega arith; col_lt = omega arith }

build_replay_states-IsSnapshot_example :
    (out : List ReplayState) × (build_replay_states (created 1 ∷ log) ≡ ok out)
    × All (IsSnapshot 1) out
build_replay_states-IsSnapshot_example =
    build_replay_states-IsSnapshot 1 log
      ((0, 0, inside), ((0, 0, inside), (0, 0, inside, refl, tt)))

abbrev shown_states : List ReplayState
shown_states = fresh_state ∷ top_state ∷ []

abbrev clicks : List Event
clicks = press_toggle ∷ effect ∷ interval_call ∷ drag (pos 1) ∷ press_backward ∷ []

start-InRange : InRange 2 new_playback
start-InRange = record { nonneg = refl; step_lt = omega arith; speed_lt = omega arith }

run-InRange_example : InRange 2 (run 2 clicks new_playback)
run-InRange_example =
    run-InRange 2 clicks new_playback (tt, (tt, (tt, ((refl, omega arith), (tt, tt)))))
      start-InRange

abbrev playing : Playback
playing = record { current_step = pos 0; is_playing = true; speed_index = 1; interval = true }

playback_ends_example :
    (pos_part (run 2 (calls 2) playing).current_step + 1 ≡ 2)
    × ((run 2 (calls 2) playing).is_playing ≡ false)
    × ((run 2 (calls 2) playing).interval ≡ false)
playback_ends_example =
    playback_ends 2 1 playing
      (record { nonneg = refl; step_lt = omega arith; speed_lt = omega arith }) refl refl

loading_keys_lose_step_example :
    (handle 0 (key_down "End") new_playback).current_step ≡ negsuc 0
    × (current_state shown_states (handle 0 (key_down "End") new_playback) ≡ none)
loading_keys_lose_step_example = loading_keys_lose_step "End" new_playback shown_states (inl refl)
