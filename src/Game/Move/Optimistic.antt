-- ===== src/Game/Move/Optimistic.antt =====
-- Two clicks on one line, without a render between them (`handleClick` of
-- web/src/routes/game/$gameID.tsx).
use dot_and_boxes.Prelude.{
  ℕ, ◌≡◌, refl, sym, ap, ◌∙◌, inl, inr, Bool-cases, Bool, true, false, ◌||◌, Option, none, some,
  ◌∷◌, arith, ◌==◌,
}
use dot_and_boxes.Prelude.Int.{ℤ, pos, negsuc}
use dot_and_boxes.Board.{Grid, ok, ClaimEdgeName, edge_label, is_edge_free, apply_claim_edge}
use dot_and_boxes.Board.Cells.{ok_inj}
use dot_and_boxes.Board.Lines.{Line, line_of, same_line, edge_at, IsBoard}
use dot_and_boxes.Board.Free.{is_edge_free-Decides, IsFree}
use dot_and_boxes.Board.Refinement.{Claims, apply_claim_edge-Claims}
use dot_and_boxes.Messages.{Game}
use dot_and_boxes.Game.{is_game_finished}
use dot_and_boxes.Game.Move.{
  MoveRequest, Page, Pending, done, waits, is_turn_of, check_move, handle_click,
}
use dot_and_boxes.Game.Move.Requests.{handle_click-MayMove}
use mathlib.Core.Option
use mathlib.Core.Path.{subst}

-- The line that a click at an integer place means, if it means one.
abbrev pub line_at : ℤ → ℤ → Option ClaimEdgeName → Option Line
line_at (pos r) (pos c) e = Option.map (line_of r c) e
line_at (negsuc _) y e = none
line_at (pos r) (negsuc _) e = none

abbrev pub line_of_move : MoveRequest → Option Line
line_of_move m = line_at m.row m.col (edge_label m.edge)

same_line_refl : (a : Line) → same_line a a ≡ true
same_line_refl a = ground arith

line_eq : (a b : Line) → some a ≡ some b → same_line a b ≡ true
line_eq a b h = let e : a ≡ b = cc in rw e (same_line_refl b)

or_hit : (b : Bool) {h : Bool} → h ≡ true → (b || h) ≡ true
or_hit b e = ground arith

IsFree-line :
    (n : ℕ) (g : Grid) (m : MoveRequest)
    → (f : IsFree n g m.row m.col m.edge) → line_of_move m ≡ some (line_of f.0 f.1 f.2)
IsFree-line n g m (r, c, e, x, y, _, _, l, _) = rw (x, y, l)

module _ (n : ℕ) (g out : Grid) (m m' : MoveRequest) (w : IsBoard n g)
    (free : is_edge_free g n m.row m.col m.edge ≡ ok true)
    (run : apply_claim_edge g n m.row m.col m.edge ≡ ok out) where
  asked : IsFree n g m.row m.col m.edge
  asked =
      let d = is_edge_free-Decides n g m.row m.col m.edge w in
      d.sound (ok_inj (sym d.returns ∙ free))

  claims : Claims n g (line_of asked.0 asked.1 asked.2) (apply_claim_edge g n m.row m.col m.edge)
  claims =
      let (r, c, e, x, y, hr, hc, l, _) = asked in
      rw (x, y) (apply_claim_edge-Claims n g r c m.edge w hr hc l)

  out_eq : claims.out ≡ out
  out_eq = ok_inj (sym claims.returns ∙ run)

  -- The optimistic grid is a board.
  out-IsBoard : IsBoard n out
  out-IsBoard = subst (IsBoard n) out_eq claims.board

  -- On it, the claimed line is not free.
  out_not_free :
      line_of_move m' ≡ line_of_move m → is_edge_free out n m'.row m'.col m'.edge ≡ ok false
  out_not_free same =
      let d = is_edge_free-Decides n out m'.row m'.col m'.edge out-IsBoard in
      elim (Bool-cases d.out) [
        | inr no_edge ↦ d.returns ∙ ap (λ (b : Bool). ok b) no_edge
        | inl one ↦
            let f = d.sound one in
            let (r, c, e, x, y, hr, hc, l, open_edge) = f in
            let now = claims.edges r c e hr hc in
            let hit =
              line_eq (line_of asked.0 asked.1 asked.2) (line_of r c e)
                (sym (IsFree-line n g m asked) ∙ sym same ∙ IsFree-line n out m' f) in
            let claimed : edge_at out r c e ≡ true =
              subst (λ (o : Grid). edge_at o r c e ≡ true) out_eq (now ∙ or_hit _ hit) in
            absurd (cc (sym claimed ∙ open_edge))
      ]

-- The guards on an edge that is not free.
check_not_free :
    (before : Game) (uid : ℕ) (m : MoveRequest) (p : Page)
    → is_edge_free before.grid before.board_size m.row m.col m.edge ≡ ok false
    → (q : Page) × (check_move before uid m p ≡ ok (done q))
      × (q.requests ≡ p.requests)
      × (q.cache ≡ p.cache)
unfolding check_move
check_not_free before uid m p f = elim (Bool-cases (is_game_finished (some before))) [
  | inl over ↦ (p, rw over, refl, refl)
  | inr running ↦ elim (Bool-cases (is_turn_of before uid)) [
    | inr n ↦ (record p { toasts = "Not your turn" ∷ p.toasts }, rw (running, n), refl, refl)
    | inl t ↦ elim (Bool-cases (m.player_id == uid)) [
      | inr n ↦ (p, rw (running, t, n), refl, refl)
      | inl i ↦ (p, rw (running, t, i, f), refl, refl)
    ]
  ]
]

-- A click on an edge that is not free ends at once, and changes no more than the toasts.
not_free_done :
    (closed_over : Bool) (user : Option ℕ) (m : MoveRequest) (p : Page) (before : Game)
    → p.cache ≡ some before
    → is_edge_free before.grid before.board_size m.row m.col m.edge ≡ ok false
    → (q : Page) × (handle_click closed_over user m p ≡ ok (done q))
      × (q.requests ≡ p.requests)
      × (q.cache ≡ p.cache)
unfolding handle_click
not_free_done true user m p before e f = (p, refl, refl, refl)
not_free_done false none m p before e f = (p, ground arith, refl, refl)
not_free_done false (some uid) m p before e f =
    let (q, run, sent, kept) = check_not_free before uid m p f in
    (q, ground (arith, run), sent, kept)

-- After a click that was sent from a well-formed grid, a click on the same line, from the same box
-- or the one next to it, by whoever and whatever flag it closed over, ends at once,
-- sends no request and leaves the cache as it is.
pub second_click :
    (closed_over : Bool) (user : Option ℕ) (m : MoveRequest) (p : Page) {w : Pending} {q : Page}
    (closed_over' : Bool) (user' : Option ℕ) (m' : MoveRequest)
    → IsBoard w.before.board_size w.before.grid
    → handle_click closed_over user m p ≡ ok (waits w q)
    → line_of_move m' ≡ line_of_move m
    → (q' : Page) × (handle_click closed_over' user' m' q ≡ ok (done q'))
      × (q'.requests ≡ q.requests)
      × (q'.cache ≡ q.cache)
second_click closed_over user m p {w} {q} closed_over' user' m' board h same =
    let (may, _, _, (g, run, cached)) = handle_click-MayMove closed_over user m p h in
    not_free_done closed_over' user' m' q (record w.before { grid = g }) cached
      (out_not_free w.before.board_size w.before.grid g m m' board may.free run same)
