-- ===== src/Replay/Snapshots.antt =====
-- `buildReplayStates` of web/src/routes/_authenticated/replay/$gameID.tsx on the log of one game.
use dot_and_boxes.Prelude.{
  ℕ, ◌+◌, ◌<◌, ◌≡◌, refl, sym, ap, ◌∙◌, Bool, true, false, ◌&&◌, Option, none, some, List, [], ◌∷◌,
  ◌++◌, arith, ◌==◌, if◌then◌else◌, All,
}
use dot_and_boxes.Prelude.Int.{ℤ, pos}
use dot_and_boxes.Prelude.Dict.{lookup-insert}
use dot_and_boxes.Board.{Grid, ok, ◌>>=◌, cell, modify_cell, write_box}
use dot_and_boxes.Board.Lines.{owner_at, IsBoard, some_of-IsPlaced}
use dot_and_boxes.Board.Claim.{claimed, claim_sides_lem}
use dot_and_boxes.Board.Refinement.{claimed-IsBoard, owner_at-claimed}
use dot_and_boxes.Replay.{
  DomainEvent, created, move_applied, box_completed, turn_passed, ended, forfeited, unknown,
  MoveAppliedPayload, BoxCompletedPayload, edge_name_to_field, set_owner, score_of, ReplayState,
  Builder, initial, snapshot, push_state, flush_before, start_game, marked, moved, scored,
  build_from, flush_end, build_replay_states,
}
use dot_and_boxes.Replay.Edges.{set_edge-eq-claim}
use dot_and_boxes.Replay.EmptyGrid.{make_empty_grid-IsBoard}
use dot_and_boxes.Replay.Scores.{
  owned, owned-claimed, owned-set_owner, owned-empty, set_owner-IsBoard, owner_at-set_owner,
}

-- A place of the board of size `n`.
pub record IsInside (n : ℕ) (x y : ℤ) (r c : ℕ) : Type 0 where
  pub at_row : x ≡ pos r
  pub at_col : y ≡ pos c
  pub row_lt : r < n
  pub col_lt : c < n

abbrev pub mark_done : ℕ → ℕ → (ℕ → ℕ → Bool) → ℕ → ℕ → Bool
mark_done r c done a b = if r == a && c == b then true else done a b

-- The events that follow `game.created` in the log of a game on a board of size `n`: places on the
-- board, and no box completed twice. `done` tells the boxes that are completed already.
abbrev pub IsLog : ℕ → (ℕ → ℕ → Bool) → List DomainEvent → Type 0
IsLog n done [] = Unit
IsLog n done (created _ ∷ es) = ⊥
IsLog n done (move_applied p ∷ es) =
    ((r : ℕ) × (c : ℕ) × IsInside n p.row p.col r c) × IsLog n done es
IsLog n done (box_completed p ∷ es) =
    (r : ℕ) × (c : ℕ) × IsInside n p.row p.col r c
    × (done r c ≡ false)
    × IsLog n (mark_done r c done) es
IsLog n done (turn_passed _ ∷ es) = IsLog n done es
IsLog n done (ended ∷ es) = IsLog n done es
IsLog n done (forfeited ∷ es) = IsLog n done es
IsLog n done (unknown ∷ es) = IsLog n done es

-- A snapshot to show: a board, and for each player the number of boxes owned on it.
pub record IsSnapshot (n : ℕ) (s : ReplayState) : Type 0 where
  pub board : IsBoard n s.grid
  pub tally : (t : ℕ) → score_of s.scores t ≡ owned t s.grid

abbrev pub is_owned : Option ℕ → Bool
is_owned none = false
is_owned (some _) = true

pub record Inv (n : ℕ) (done : ℕ → ℕ → Bool) (b : Builder) : Type 0 where
  pub now : IsSnapshot n (snapshot b)
  pub size : b.board_size ≡ n
  pub owners : (r c : ℕ) → r < n → c < n → is_owned (owner_at b.grid r c) ≡ done r c
  pub shown : All (IsSnapshot n) b.states

All-push :
    {n : ℕ} (ss : List ReplayState) {s : ReplayState}
    → All (IsSnapshot n) ss
    → IsSnapshot n s
    → All (IsSnapshot n) (ss ++ s ∷ [])
All-push [] h k = (k, tt)
All-push (s ∷ ss) h k = (h.0, All-push ss h.1 k)

-- What a builder with the same grid and scores, and other turns and moves, keeps.
push-Inv : {n : ℕ} {done : ℕ → ℕ → Bool} {b : Builder} → Inv n done b → Inv n done (push_state b)
push-Inv {b = b} i = record {
  now = record { board = i.now.board; tally = i.now.tally };
  size = i.size;
  owners = i.owners;
  shown = All-push b.states i.shown i.now;
}

module _ (n : ℕ) (done : ℕ → ℕ → Bool) where
  flush_before-Inv : (e : DomainEvent) (b : Builder) → Inv n done b → Inv n done (flush_before e b)
  flush_before-Inv (move_applied p) b i = go b.has_pending_move
    where
      go : (t : Bool) → Inv n done (if t then push_state b else b)
      go true = push-Inv i
      go false = i
  flush_before-Inv _ b i = i

  -- A move on the board.
  marked-Inv :
      (p : MoveAppliedPayload) (b : Builder) (r c : ℕ)
      → IsInside n p.row p.col r c
      → Inv n done b
      → (g : Grid) × (marked p b ≡ ok g) × Inv n done (moved p b g)
  marked-Inv p b r c at i =
      let e = edge_name_to_field p.edge in
      (
        claimed n b.grid r c e,
        rw (at.at_row, at.at_col, i.size, set_edge-eq-claim n b.grid r c e at.row_lt at.col_lt)
            (claim_sides_lem n b.grid i.now.board r c at.row_lt at.col_lt e),
        record {
          now = record {
            board = claimed-IsBoard n b.grid r c e i.now.board at.row_lt at.col_lt;
            tally = λ t. i.now.tally t ∙ sym (owned-claimed t n b.grid r c e);
          };
          size = i.size;
          owners = λ a d ha hd. rw (owner_at-claimed n b.grid r c e a d) (i.owners a d ha hd);
          shown = i.shown;
        },
      )

none_of-is_owned : (o : Option ℕ) → is_owned o ≡ false → o ≡ none
none_of-is_owned none h = refl
none_of-is_owned (some t) h = cc

module _ (n : ℕ) (done : ℕ → ℕ → Bool) (p : BoxCompletedPayload) (b : Builder) (r c : ℕ)
    (at : IsInside n p.row p.col r c) (fresh : done r c ≡ false) (i : Inv n done b) where
  -- A box that is completed for the first time.
  scored-Inv :
      (g : Grid) × (write_box b.grid p.row p.col (set_owner p.owner_turn) ≡ ok g)
      × Inv n (mark_done r c done) (scored p b g)
  scored-Inv =
      let (x, here) =
        some_of-IsPlaced r c (cell b.grid r c) (i.now.board.placed r c at.row_lt at.col_lt) in
      let free : x.owner_turn ≡ none =
        none_of-is_owned x.owner_turn (rw here at (i.owners r c at.row_lt at.col_lt) ∙ fresh) in
      (
        modify_cell b.grid r c (set_owner p.owner_turn),
        rw (at.at_row, at.at_col) (ground (arith, here)),
        record {
          now = record {
            board = set_owner-IsBoard n b.grid r c p.owner_turn i.now.board;
            tally = λ t. ground (
              arith,
              lookup-insert p.owner_turn t (score_of b.scores p.owner_turn + 1) b.scores,
              i.now.tally t,
              owned-set_owner t p.owner_turn b.grid r c here free,
            );
          };
          size = i.size;
          owners = λ a d ha hd. ground (
            arith,
            i.owners a d ha hd,
            owner_at-set_owner n b.grid r c p.owner_turn a d (i.now.board.placed a d ha hd),
          );
          shown = i.shown;
        },
      )

-- The loop, from any point of the log.
build_from-Inv :
    (n : ℕ) (done : ℕ → ℕ → Bool) (es : List DomainEvent) (b : Builder)
    → IsLog n done es
    → Inv n done b
    → (b' : Builder) × (done' : ℕ → ℕ → Bool) × (build_from b es ≡ ok b') × Inv n done' b'
unfolding build_from
build_from-Inv n done [] b l i = (b, done, refl, i)
build_from-Inv n done (created _ ∷ es) b l i = absurd l
build_from-Inv n done (move_applied p ∷ es) b ((r, c, at), l) i =
    let f = flush_before (move_applied p) b in
    let (g, run, j) = marked-Inv n done p f r c at (flush_before-Inv n done (move_applied p) b i) in
    let (b', done', rest, k) = build_from-Inv n done es (moved p f g) l j in
    (b', done', rw run rest, k)
build_from-Inv n done (box_completed p ∷ es) b (r, c, at, fresh, l) i =
    let (g, run, j) = scored-Inv n done p b r c at fresh i in
    let (b', done', rest, k) = build_from-Inv n (mark_done r c done) es (scored p b g) l j in
    (b', done', rw run rest, k)
build_from-Inv n done (turn_passed t ∷ es) b l i =
    build_from-Inv n done es _ l (push-Inv (turned t i))
  where
    turned : {b : Builder} (t : ℕ) → Inv n done b → Inv n done (record b { current_turn = t })
    turned t i = record {
      now = record { board = i.now.board; tally = i.now.tally };
      size = i.size;
      owners = i.owners;
      shown = i.shown;
    }
build_from-Inv n done (ended ∷ es) b l i = build_from-Inv n done es _ l (push-Inv i)
build_from-Inv n done (forfeited ∷ es) b l i = build_from-Inv n done es _ l (push-Inv i)
build_from-Inv n done (unknown ∷ es) b l i = build_from-Inv n done es b l i

start_game-Inv : (n : ℕ) → Inv n (λ _ _. false) (start_game n initial)
start_game-Inv n =
    let (board, _, free) = make_empty_grid-IsBoard n in
    let fresh : IsSnapshot n (snapshot (start_game n initial)) = record {
      board = board;
      tally = λ t. sym (owned-empty t n);
    } in
    record {
      now = fresh;
      size = refl;
      owners = λ r c hr hc. rw (free r c hr hc);
      shown = (record { board = fresh.board; tally = fresh.tally }, tt);
    }

-- On the log of a game of size `n`, `game.created` first, then events on the board in any order
-- that complete no box twice, `buildReplayStates` returns; every snapshot is a board of size `n`,
-- and its score of each player is the number of boxes that the player owns on it.
pub build_replay_states-IsSnapshot :
    (n : ℕ) (es : List DomainEvent)
    → IsLog n (λ _ _. false) es
    → (out : List ReplayState) × (build_replay_states (created n ∷ es) ≡ ok out)
      × All (IsSnapshot n) out
unfolding build_replay_states
build_replay_states-IsSnapshot n es l =
    let (b, done, run, i) =
      build_from-Inv n (λ _ _. false) es (start_game n initial) l (start_game-Inv n) in
    (flush_end b, ap (λ r. r >>= λ x. ok (flush_end x)) run, flushed b.has_pending_move i)
  where
    flushed :
        {b : Builder} {done : ℕ → ℕ → Bool} (t : Bool)
        → Inv n done b
        → All (IsSnapshot n) (if t then b.states ++ snapshot b ∷ [] else b.states)
    flushed {b} true i = All-push b.states i.shown i.now
    flushed false i = i.shown
