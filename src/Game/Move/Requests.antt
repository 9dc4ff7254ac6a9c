-- ===== src/Game/Move/Requests.antt =====
-- `handleClick` of web/src/routes/game/$gameID.tsx: when a click sends a request, and the page after
-- its end.
use dot_and_boxes.Prelude.{
  ℕ, ◌≡◌, refl, arith, ap, ◌∙◌, sym, ◌≢◌, ◌⊎◌, inl, inr, Bool-cases, ==_iff, if◌then◌else◌, Bool,
  true, false, Option, none, some, List, ◌∷◌, String, ◌==◌,
}
use dot_and_boxes.Board.{Grid, Result, ok, type_error, ◌>>=◌, is_edge_free, apply_claim_edge}
use dot_and_boxes.Board.Cells.{ok_inj, bind_returns}
use dot_and_boxes.Messages.{Game, Message}
use dot_and_boxes.Game.{is_game_finished}
use dot_and_boxes.Game.Move.{
  MoveRequest, Page, Pending, Started, done, waits, is_turn_of, send_move, check_move, handle_click,
  Response, accepted, refused, thrown, thrown_other, error_text, finish_move, receive_all,
}

-- Everything that a click must meet before it is sent.
pub record MayMove (closed_over : Bool) (user : Option ℕ) (m : MoveRequest) (p : Page)
    (before : Game) : Type 0 where
  pub idle : closed_over ≡ false
  pub cached : p.cache ≡ some before
  pub signed_in : user ≡ some m.player_id
  pub running : is_game_finished (some before) ≡ false
  pub turn : is_turn_of before m.player_id ≡ true
  pub free : is_edge_free before.grid before.board_size m.row m.col m.edge ≡ ok true

-- The page after the first part of a move.
abbrev pub sent : Game → MoveRequest → Page → Grid → Page
sent before m p g = record p {
  is_processing_move = true;
  cache = some (record before { grid = g });
  requests = m ∷ p.requests;
}

-- How a click that waits came to wait.
abbrev pub Sends : Game → MoveRequest → Page → Pending → Page → Type 0
Sends before m p w q =
    (g : Grid) × (apply_claim_edge before.grid before.board_size m.row m.col m.edge ≡ ok g)
    × (w.before ≡ before)
    × (q ≡ sent before m p g)

waits_inj : {w w' : Pending} {q q' : Page} → waits w q ≡ waits w' q' → (w ≡ w') × (q ≡ q')
waits_inj h = (cc, cc)

send_move-Sends :
    (before : Game) (m : MoveRequest) (p : Page) {w : Pending} {q : Page}
    → send_move before m p ≡ ok (waits w q)
    → Sends before m p w q
unfolding send_move
send_move-Sends before m p {w} {q} h =
    let (g, run, e) =
      bind_returns (apply_claim_edge before.grid before.board_size m.row m.col m.edge)
        (λ g. ok (waits (record { before = before }) (sent before m p g))) h in
    let (ew, eq) = waits_inj (ok_inj e) in (g, run, ap (λ (x : Pending). x.before) (sym ew), sym eq)

module _ (before : Game) (uid : ℕ) (m : MoveRequest) (p : Page) {w : Pending} {q : Page} where
  free_first :
      (x : Result Bool)
      → (x >>= λ free. if free then send_move before m p else ok (done p)) ≡ ok (waits w q)
      → (x ≡ ok true) × Sends before m p w q
  free_first (ok true) h = (refl, send_move-Sends before m p h)
  free_first (ok false) h = absurd (cc)
  free_first type_error h = absurd (cc)

  check_move-Sends :
      check_move before uid m p ≡ ok (waits w q)
      → (is_game_finished (some before) ≡ false)
        × (is_turn_of before uid ≡ true)
        × (m.player_id ≡ uid)
        × (is_edge_free before.grid before.board_size m.row m.col m.edge ≡ ok true)
        × Sends before m p w q
  unfolding check_move
  check_move-Sends h = elim (Bool-cases (is_game_finished (some before))) [
    | inl e ↦ absurd (cc (rw e at h))
    | inr e ↦ elim (Bool-cases (is_turn_of before uid)) [
      | inr n ↦ absurd (cc (rw (e, n) at h))
      | inl t ↦ elim (Bool-cases (m.player_id == uid)) [
        | inr n ↦ absurd (cc (rw (e, t, n) at h))
        | inl i ↦
            let (free, rest) = free_first _ (rw (e, t, i) at h) in
            (e, t, (==_iff _ _).0 i, free, rest)
      ]
    ]
  ]

-- A click that waits has met every guard, and changed the page in three fields.
handle_click-sent :
    (closed_over : Bool) (user : Option ℕ) (m : MoveRequest) (p : Page) {w : Pending} {q : Page}
    → handle_click closed_over user m p ≡ ok (waits w q)
    → MayMove closed_over user m p w.before × Sends w.before m p w q
unfolding handle_click
handle_click-sent true user m p h = absurd (cc)
handle_click-sent false user m p {w} {q} h = cached p.cache user refl refl h
  where
    cached :
        (c : Option Game) (u : Option ℕ)
        → p.cache ≡ c
        → user ≡ u
        → (elim c as (λ _. Result Started) [
          | none ↦ ok (done p)
          | some before ↦ elim u [ none ↦ ok (done p) | some uid ↦ check_move before uid m p ]
        ])
          ≡ ok (waits w q)
        → MayMove false user m p w.before × Sends w.before m p w q
    cached none u e f h = absurd (cc)
    cached (some before) none e f h = absurd (cc)
    cached (some before) (some uid) e f h =
        let (running, turn, own, free, (g, run, old, new)) = check_move-Sends before uid m p h in
        rw (old, new)
          (
            record {
              idle = refl;
              cached = e;
              signed_in = rw own f;
              running = running;
              turn = rw own turn;
              free = free;
            },
            (g, run, refl, refl),
          )

-- Whatever the page and the click, a click that goes on to wait has met every guard: the flag that
-- it closed over was false, a game was cached that was not finished, the user signed in is the
-- player who moves and whose turn it is, and `isEdgeFree` said that the edge is free. It has then
-- sent exactly its move, cached the game with the edge claimed, and kept the game as it was.
pub handle_click-MayMove :
    (closed_over : Bool) (user : Option ℕ) (m : MoveRequest) (p : Page) {w : Pending} {q : Page}
    → handle_click closed_over user m p ≡ ok (waits w q)
    → MayMove closed_over user m p w.before
      × (q.requests ≡ m ∷ p.requests)
      × (q.is_processing_move ≡ true)
      × ((g : Grid) × (apply_claim_edge w.before.grid w.before.board_size m.row m.col m.edge ≡ ok g)
          × (q.cache ≡ some (record w.before { grid = g })))
handle_click-MayMove closed_over user m p h =
    let (may, (g, run, old, new)) = handle_click-sent closed_over user m p h in
    rw new (may, refl, refl, (g, run, refl))

abbrev pub game_of : Response → Option Game
game_of (accepted g) = some g
game_of _ = none

-- What the toast says of a failure: the text of the reply, the message of what was thrown, or a text of its own.
abbrev pub says : Response → String
says (refused e) = error_text e
says (thrown message) = message
says _ = "Failed to make move"

accepted_of : (r : Response) (g : Game) → game_of r ≡ some g → r ≡ accepted g
accepted_of (accepted g') g e = cc
accepted_of (refused x) g e = cc
accepted_of (thrown x) g e = cc
accepted_of thrown_other g e = cc

finished_by :
    (w : Pending) (r : Response) (p : Page)
    → ((g : Game) × (game_of r ≡ some g)
        × (finish_move w r p ≡ record p { is_processing_move = false; cache = some g }))
      ⊎ (game_of r ≡ none)
        × (finish_move w r p ≡ record p {
          is_processing_move = false;
          cache = some w.before;
          toasts = says r ∷ p.toasts;
        })
unfolding finish_move
finished_by w (accepted g) p = inl (g, refl, refl)
finished_by w (refused e) p = inr (refl, refl)
finished_by w (thrown message) p = inr (refl, refl)
finished_by w thrown_other p = inr (refl, refl)

-- A click that waits, on a page that no move is under way on, whose request ends before anything else
-- happens: it has sent one request more. If the server accepted the move, its game is in the cache and
-- all else is as before the click; if not, the page is the one before the click, its cached game included,
-- with a toast that says why.
pub finish_move_lem :
    (closed_over : Bool) (user : Option ℕ) (m : MoveRequest) (p : Page) (r : Response) {w : Pending}
    {q : Page}
    → p.is_processing_move ≡ false
    → handle_click closed_over user m p ≡ ok (waits w q)
    → ((g : Game) × (game_of r ≡ some g)
        × (finish_move w r q ≡ record p { cache = some g; requests = m ∷ p.requests }))
      ⊎ (game_of r ≡ none)
        × (finish_move w r q ≡ record p { toasts = says r ∷ p.toasts; requests = m ∷ p.requests })
finish_move_lem closed_over user m p r {w} {q} idle h =
    let (may, (g, run, old, new)) = handle_click-sent closed_over user m p h in
    elim (finished_by w r q) [
      | inl (g', e, page) ↦ inl (g', e, page ∙ ground (arith, new, idle))
      | inr (e, page) ↦ inr (e, page ∙ ground (arith, new, idle, may.cached))
    ]

-- Whatever messages arrive between a click that waits and the failure of its request, the cache is
-- the game from before the click in the end: what the server sent meanwhile is lost.
pub failed_move_forgets :
    (closed_over : Bool) (user : Option ℕ) (m : MoveRequest) (p : Page) {w : Pending} {q : Page}
    (topic : String) (ms : List Message) (r : Response)
    → handle_click closed_over user m p ≡ ok (waits w q)
    → ((g : Game) → r ≢ accepted g)
    → (finish_move w r (receive_all topic ms q)).cache ≡ p.cache
failed_move_forgets closed_over user m p {w} {q} topic ms r h failed =
    elim (finished_by w r (receive_all topic ms q)) [
      | inl (g, e, _) ↦ absurd (failed g (accepted_of r g e))
      | inr (_, back) ↦
          ap (λ (x : Page). x.cache) back
          ∙ sym (handle_click-MayMove closed_over user m p h).0.cached
    ]
