-- ===== src/Canvas/Moves.antt =====
-- From the canvas of web/src/pixi/renderBoard.ts to `handleClick` of web/src/routes/game/$gameID.tsx: a
-- tap on a drawn edge.
use dot_and_boxes.Prelude.{
  ℕ, ◌≡◌, refl, sym, ap, ◌∙◌, Bool, true, false, some, List, [], ◌∷◌, All, length, get_elem?, flat,
  Bool-cases, inl, inr,
}
use dot_and_boxes.Board.{Box, Grid, ok, is_edge_free, apply_claim_edge}
use dot_and_boxes.Board.Lines.{IsBoard}
use dot_and_boxes.Messages.{Game}
use dot_and_boxes.Game.{is_game_finished}
use dot_and_boxes.Game.Move.{MoveRequest, Page, waits, is_turn_of, handle_click}
use dot_and_boxes.Game.Move.Requests.{sent}
use dot_and_boxes.Game.Move.Progress.{handle_click-waits}
use dot_and_boxes.Canvas.{Params, pixel_edges}
use dot_and_boxes.Canvas.Edges.{PixelEdge, pointer_tap, on_pointer, is_claimed}
use dot_and_boxes.Canvas.Clicks.{takes_tap, IsHonest, drawn-IsHonest, All-get_elem?}

-- The move of a drawn edge is the user's own.
abbrev IsOwn : Params → PixelEdge → Type 0
IsOwn p e = e.click.player_id ≡ p.user_id

pixel_edges-IsOwn : (p : Params) (bs : List Box) → All (IsOwn p) (pixel_edges p bs)
unfolding pixel_edges
pixel_edges-IsOwn p [] = tt
pixel_edges-IsOwn p (b ∷ bs) = (refl, (refl, (refl, (refl, pixel_edges-IsOwn p bs))))

tap_lem :
    (e : PixelEdge) {m : MoveRequest}
    → (on_pointer pointer_tap e).1 ≡ some m
    → (m ≡ e.click) × (takes_tap e ≡ true)
unfolding on_pointer
tap_lem e {m} h = elim (Bool-cases (is_claimed e)) [
  | inl y ↦ absurd (cc (rw y at h))
  | inr n ↦ let back : some e.click ≡ some m = (rw n at h) in (cc, rw (n, takes_tap) refl)
]

-- On the board of a cached game that is not finished, in which it is the turn of the user whose canvas
-- is drawn, and with no move underway: a tap on a drawn edge that makes a move has `handleClick` send
-- exactly that move and wait, with the edge claimed in the cached game.
pub tap_sends :
    (p : Params) (page : Page) (before : Game) (i : ℕ) {e : PixelEdge} {m : MoveRequest}
    → IsBoard before.board_size before.grid
    → All (λ (row : List Box). length row ≡ before.board_size) before.grid
    → page.cache ≡ some before
    → is_game_finished (some before) ≡ false
    → is_turn_of before p.user_id ≡ true
    → get_elem? (pixel_edges p (flat before.grid)) i ≡ some e
    → (on_pointer pointer_tap e).1 ≡ some m
    → (out : Grid) × (apply_claim_edge before.grid before.board_size m.row m.col m.edge ≡ ok out)
      × IsBoard before.board_size out
      × (handle_click false (some p.user_id) m page
          ≡ ok (waits (record { before = before }) (sent before m page out)))
tap_sends p page before i {e} {m} w widths cached running turn drawn tapped =
    let (same, takes) = tap_lem e {m = m} tapped in
    let n = before.board_size in
    let edges = pixel_edges p (flat before.grid) in
    let honest =
      All-get_elem? (IsHonest n before.grid) edges i {x = e}
        (drawn-IsHonest n before.grid p w widths) drawn in
    let own : m.player_id ≡ p.user_id =
      ap (λ (x : MoveRequest). x.player_id) same
      ∙ All-get_elem? (IsOwn p) edges i {x = e} (pixel_edges-IsOwn p (flat before.grid)) drawn in
    handle_click-waits (some p.user_id) m page before w (record {
      idle = refl;
      cached = cached;
      signed_in = ap (λ (k : ℕ). some k) (sym own);
      running = running;
      turn = ap (is_turn_of before) own ∙ turn;
      free =
          ap (λ (x : MoveRequest). is_edge_free before.grid n x.row x.col x.edge) same
          ∙ honest
          ∙ ap (λ (x : Bool). ok x) takes;
    })
