-- ===== src/Game/Move/Progress.antt =====
-- `handleClick` of web/src/routes/game/$gameID.tsx on a board: a click that meets every guard is sent.
use dot_and_boxes.Prelude.{ℕ, ◌≡◌, refl, sym, ◌∙◌, true, false, Option, ==_iff}
use dot_and_boxes.Board.{Grid, ok, is_edge_free, apply_claim_edge}
use dot_and_boxes.Board.Cells.{ok_inj}
use dot_and_boxes.Board.Lines.{line_of, IsBoard}
use dot_and_boxes.Board.Free.{is_edge_free-Decides}
use dot_and_boxes.Board.Refinement.{Claims, apply_claim_edge-Claims}
use dot_and_boxes.Messages.{Game}
use dot_and_boxes.Game.Move.{MoveRequest, Page, waits, check_move, send_move, handle_click}
use dot_and_boxes.Game.Move.Requests.{MayMove, sent}

-- A claim that `isEdgeFree` allows does not throw.
free_claim :
    (n : ℕ) (g : Grid) (m : MoveRequest)
    → IsBoard n g
    → is_edge_free g n m.row m.col m.edge ≡ ok true
    → (out : Grid) × (apply_claim_edge g n m.row m.col m.edge ≡ ok out) × IsBoard n out
free_claim n g m w free =
    let d = is_edge_free-Decides n g m.row m.col m.edge w in
    let (r, c, e, x, y, hr, hc, l, _) = d.sound (ok_inj (sym d.returns ∙ free)) in
    let claims : Claims n g (line_of r c e) (apply_claim_edge g n m.row m.col m.edge) =
      rw (x, y) (apply_claim_edge-Claims n g r c m.edge w hr hc l) in
    (claims.out, claims.returns, claims.board)

module _ (m : MoveRequest) (p : Page) {before : Game} {user : Option ℕ}
    (may : MayMove false user m p before) {out : Grid}
    (claim : apply_claim_edge before.grid before.board_size m.row m.col m.edge ≡ ok out) where
  send_move-waits :
      send_move before m p ≡ ok (waits (record { before = before }) (sent before m p out))
  unfolding send_move
  send_move-waits = rw claim refl

  check_move-waits :
      check_move before m.player_id m p
      ≡ ok (waits (record { before = before }) (sent before m p out))
  unfolding check_move
  check_move-waits =
      rw (may.running, may.turn, (==_iff m.player_id m.player_id).1 refl, may.free) send_move-waits

  handle_click-check :
      handle_click false user m p ≡ ok (waits (record { before = before }) (sent before m p out))
  unfolding handle_click
  handle_click-check = rw (may.cached, may.signed_in) check_move-waits

-- On a game whose grid is a board, a click that meets every guard waits: it sends exactly its move,
-- sets the flag, keeps the game as it was, and caches the game with the edge claimed, whose grid is a
-- board again.
pub handle_click-waits :
    (user : Option ℕ) (m : MoveRequest) (p : Page) (before : Game)
    → IsBoard before.board_size before.grid
    → MayMove false user m p before
    → (out : Grid) × (apply_claim_edge before.grid before.board_size m.row m.col m.edge ≡ ok out)
      × IsBoard before.board_size out
      × (handle_click false user m p
          ≡ ok (waits (record { before = before }) (sent before m p out)))
handle_click-waits user m p before w may =
    let (out, claim, board) = free_claim before.board_size before.grid m w may.free in
    (out, claim, board, handle_click-check m p may claim)
