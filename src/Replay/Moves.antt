-- ===== src/Replay/Moves.antt =====
-- The moves of a log and the snapshots of `buildReplayStates`
-- (web/src/routes/_authenticated/replay/$gameID.tsx).
use dot_and_boxes.Prelude.{
  ◌≡◌, refl, ◌⊎◌, inl, inr, Bool, true, false, some, List, [], ◌∷◌, ◌++◌, arith, if◌then◌else◌, All,
}
use dot_and_boxes.Board.{ok, write_box}
use dot_and_boxes.Board.Cells.{bind_returns, ok_inj}
use mathlib.Core.Path.{subst}
use dot_and_boxes.Replay.{
  DomainEvent, created, move_applied, box_completed, turn_passed, ended, forfeited, unknown,
  MoveAppliedPayload, ReplayState, marked, moved, scored, set_owner, Builder, initial, snapshot,
  push_state, flush_before, handle_event, build_from, flush_end, build_replay_states,
}

-- Some snapshot of the list has `p` as its last move.
abbrev pub Shows : MoveAppliedPayload → List ReplayState → Type 0
Shows p [] = ⊥
Shows p (s ∷ ss) = (s.last_move ≡ some p) ⊎ Shows p ss

Shows-append_left :
    (p : MoveAppliedPayload) (ss ts : List ReplayState) → Shows p ss → Shows p (ss ++ ts)
Shows-append_left p [] ts h = absurd h
Shows-append_left p (s ∷ ss) ts h = ground (arith, Shows-append_left p ss ts)

Shows-append_right :
    (p : MoveAppliedPayload) (ss ts : List ReplayState) → Shows p ts → Shows p (ss ++ ts)
Shows-append_right p [] ts h = h
Shows-append_right p (s ∷ ss) ts h = inr (Shows-append_right p ss ts h)

-- A move that is pushed already, or that the next push shows.
abbrev Kept : MoveAppliedPayload → Builder → Type 0
Kept p b = Shows p b.states ⊎ (b.has_pending_move ≡ true) × (b.last_move ≡ some p)

Kept-push : (p : MoveAppliedPayload) (b : Builder) → Kept p b → Shows p (push_state b).states
Kept-push p b (inl old) = Shows-append_left p b.states _ old
Kept-push p b (inr (_, e)) = Shows-append_right p b.states _ (inl e)

-- An event throws, or keeps what is kept.
handle_event-Kept :
    (p : MoveAppliedPayload) (e : DomainEvent) (b b' : Builder)
    → handle_event e (flush_before e b) ≡ ok b'
    → Kept p b
    → Kept p b'
unfolding handle_event
handle_event-Kept p (created size) b b' h (inl k) =
    inl (subst (λ (x : Builder). Shows p x.states) (ok_inj h) (Shows-append_left p b.states _ k))
handle_event-Kept p (created size) b b' h (inr k) = ground (arith, ok_inj h)
handle_event-Kept p (move_applied m) b b' h k =
    let c = flush_before (move_applied m) b in
    let (g, _, e) = bind_returns (marked m c) (λ g. ok (moved m c g)) h in
    inl (
      subst (λ (x : Builder). Shows p x.states) {x = moved m c g} (ok_inj e)
        (flushed b.has_pending_move refl k))
  where
    flushed :
        (t : Bool)
        → b.has_pending_move ≡ t
        → Kept p b
        → Shows p (if t then push_state b else b).states
    flushed true e k = Kept-push p b k
    flushed false e (inl old) = old
    flushed false e (inr (pending, _)) = cc
handle_event-Kept p (box_completed c) b b' h k =
    let (g, _, e) =
      bind_returns (write_box b.grid c.row c.col (set_owner c.owner_turn)) (λ g. ok (scored c b g))
        h in
    subst (Kept p) {x = scored c b g} (ok_inj e) k
handle_event-Kept p (turn_passed t) b b' h k = inl (
    subst (λ (x : Builder). Shows p x.states) (ok_inj h)
      (Kept-push p (record b { current_turn = t }) k))
handle_event-Kept p ended b b' h k =
    inl (subst (λ (x : Builder). Shows p x.states) (ok_inj h) (Kept-push p b k))
handle_event-Kept p forfeited b b' h k =
    inl (subst (λ (x : Builder). Shows p x.states) (ok_inj h) (Kept-push p b k))
handle_event-Kept p unknown b b' h k = subst (Kept p) (ok_inj h) k

handle_move-Kept :
    (p : MoveAppliedPayload) (b b' : Builder)
    → handle_event (move_applied p) (flush_before (move_applied p) b) ≡ ok b'
    → Kept p b'
unfolding handle_event
handle_move-Kept p b b' h =
    let c = flush_before (move_applied p) b in
    let (g, _, e) = bind_returns (marked p c) (λ g. ok (moved p c g)) h in
    subst (Kept p) {x = moved p c g} (ok_inj e) (inr (refl, refl))

build_from-Kept :
    (p : MoveAppliedPayload) (es : List DomainEvent) (b b' : Builder)
    → build_from b es ≡ ok b'
    → Kept p b
    → Kept p b'
unfolding build_from
build_from-Kept p [] b b' h k = subst (Kept p) (ok_inj h) k
build_from-Kept p (e ∷ es) b b' h k =
    let (c, step, rest) =
      bind_returns (handle_event e (flush_before e b)) (λ c. build_from c es) h in
    build_from-Kept p es c b' rest (handle_event-Kept p e b c step k)

-- What a list of snapshots owes to an event: a snapshot for a move, and nothing for another event.
abbrev pub IsShown : List ReplayState → DomainEvent → Type 0
IsShown out (move_applied p) = Shows p out
IsShown out _ = Unit

Kept-flush_end : (p : MoveAppliedPayload) (b : Builder) → Kept p b → Shows p (flush_end b)
Kept-flush_end p b k = go b.has_pending_move refl k
  where
    go :
        (t : Bool)
        → b.has_pending_move ≡ t
        → Kept p b
        → Shows p (if t then b.states ++ snapshot b ∷ [] else b.states)
    go true e k = Kept-push p b k
    go false e (inl old) = old
    go false e (inr (pending, _)) = cc

build_from-IsShown :
    (es : List DomainEvent) (b b' : Builder)
    → build_from b es ≡ ok b'
    → All (IsShown (flush_end b')) es
unfolding build_from
build_from-IsShown [] b b' h = tt
build_from-IsShown (e ∷ es) b b' h =
    let (c, step, rest) =
      bind_returns (handle_event e (flush_before e b)) (λ c. build_from c es) h in
    (here e step rest, build_from-IsShown es c b' rest)
  where
    here :
        {c : Builder} (e : DomainEvent)
        → handle_event e (flush_before e b) ≡ ok c
        → build_from c es ≡ ok b'
        → IsShown (flush_end b') e
    here {c} (move_applied p) step rest =
        Kept-flush_end p b' (build_from-Kept p es c b' rest (handle_move-Kept p b c step))
    here _ step rest = tt

-- On any list of events, if `buildReplayStates` returns, then each move of the list is the last
-- move of a snapshot: none is passed over, also where no `game.turn_passed` follows it.
pub build_replay_states-IsShown :
    (es : List DomainEvent) {out : List ReplayState}
    → build_replay_states es ≡ ok out
    → All (IsShown out) es
unfolding build_replay_states
build_replay_states-IsShown es {out} h =
    let (b, run, e) = bind_returns (build_from initial es) (λ b. ok (flush_end b)) h in
    subst (λ o. All (IsShown o) es) (ok_inj e) (build_from-IsShown es initial b run)
