-- ===== src/Game/Move.antt =====
-- A move by a click, `handleClick`: the guards, the optimistic grid, and the end of the request.
-- The call stops at its `await`, so it is two steps; messages of the server may come in between.
-- `closed_over` is the value of `isProcessingMove` that the callback was made with.
pub mod Optimistic
pub mod Progress
pub mod Requests
use package.dot_and_boxes.Prelude.{
  ℕ, Bool, true, false, not, ◌&&◌, ◌||◌, Option, none, some, List, [], ◌∷◌, String, if◌then◌else◌,
  ◌==◌,
}
use package.dot_and_boxes.Prelude.Int.{ℤ}
use package.dot_and_boxes.Board.{
  Result, ok, type_error, ◌>>=◌, is_edge_free, apply_claim_edge, Grid,
}
use package.dot_and_boxes.Messages.{Game, TimerStatePayload, Message, game_state, game_timer, Body}
use package.dot_and_boxes.Game.{is_game_finished, current_turn_player}
use package.dot_and_boxes.Game.Timer.{normalize_timer_payload}
use text.Mathlib.Text.{◌==◌ as str_eq}

-- `POST /api/v1/games/${gameId}/move` with its body.
pub record MoveRequest : Type 0 where
  pub game_id : ℕ
  pub player_id : ℕ
  pub row : ℤ
  pub col : ℤ
  pub edge : String

-- What the page keeps: the query's entry for the game, the flag, the timer, the toasts (newest
-- first) and the requests sent (newest first).
pub record Page : Type 0 where
  pub cache : Option Game
  pub is_processing_move : Bool
  pub timer_state : Option TimerStatePayload
  pub toasts : List String
  pub requests : List MoveRequest

-- What a call that waits for its response holds: the game before it.
pub record Pending : Type 0 where
  pub before : Game

-- A click that ended at once, or one that now waits.
pub data Started : Type 0 where
  done : Page → Started
  waits : Pending → Page → Started

abbrev pub is_turn_of : Game → ℕ → Bool
is_turn_of g user_id = elim (current_turn_player g) [ none ↦ false | some p ↦ p.user_id == user_id ]

-- From `setIsProcessingMove(true)` to the request.
unfoldable pub send_move : Game → MoveRequest → Page → Result Started
send_move before m p = do
  grid ← apply_claim_edge before.grid before.board_size m.row m.col m.edge
  ok (
      waits (record { before = before })
        (record p {
          is_processing_move = true;
          cache = some (record before { grid = grid });
          requests = m ∷ p.requests;
        }))

-- The guards after those on the cache and the user.
unfoldable pub check_move : Game → ℕ → MoveRequest → Page → Result Started
unfolding send_move
check_move before user_id m p =
    if is_game_finished (some before)
    then ok (done p)
    else if not (is_turn_of before user_id)
    then ok (done (record p { toasts = "Not your turn" ∷ p.toasts }))
    else if not (m.player_id == user_id)
    then ok (done p)
    else do
      free ← is_edge_free before.grid before.board_size m.row m.col m.edge
      if free then send_move before m p else ok (done p)

-- `handleClick` up to its `await`; `user` is the id of the user signed in.
unfoldable pub handle_click : Bool → Option ℕ → MoveRequest → Page → Result Started
unfolding check_move
handle_click closed_over user m p = if closed_over then ok (done p) else elim p.cache [
  | none ↦ ok (done p)
  | some before ↦ elim user [ none ↦ ok (done p) | some uid ↦ check_move before uid m p ]
]

-- How the request ended: with the game after the move; refused with the `error` of the body, if it
-- has one; by an `Error` thrown underway; by something thrown that is no `Error`.
pub data Response : Type 0 where
  accepted : Game → Response
  refused : Option String → Response
  thrown : String → Response
  thrown_other : Response

-- `error.error || "Failed to make move"`
abbrev pub error_text : Option String → String
error_text none = "Failed to make move"
error_text (some e) = if str_eq e "" then "Failed to make move" else e

-- The `catch` block.
abbrev pub roll_back : Pending → String → Page → Page
roll_back w message p = record p { cache = some w.before; toasts = message ∷ p.toasts }

-- `handleClick` after its `await`, with the `finally` block.
unfoldable pub finish_move : Pending → Response → Page → Page
finish_move w r p =
    let q : Page = elim r [
      | accepted g ↦ record p { cache = some g }
      | refused e ↦ roll_back w (error_text e) p
      | thrown message ↦ roll_back w message p
      | thrown_other ↦ roll_back w "Failed to make move" p
    ] in
    record q { is_processing_move = false }

-- The page's subscriber, for a message on the game's topic.
abbrev pub receive_body : Body → Page → Page
receive_body (game_state g) p = record p { cache = some g }
receive_body (game_timer t) p = record p { timer_state = some (normalize_timer_payload t) }
receive_body _ p = p

-- The subscriber of the page at the topic `game:${gameID}`.
unfoldable pub receive : String → Message → Page → Page
receive topic m p = elim m.topic [
  | none ↦ p
  | some t ↦ if str_eq t topic then receive_body m.body p else p
]

unfoldable pub receive_all : String → List Message → Page → Page
unfolding receive
receive_all topic [] p = p
receive_all topic (m ∷ ms) p = receive_all topic ms (receive topic m p)
