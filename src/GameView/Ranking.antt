-- ===== src/GameView/Ranking.antt =====
-- The order in which $gameID.tsx and GameWinOverlay.tsx show the players.
use dot_and_boxes.Prelude.{
  ℕ, ◌≤◌, ◌≡◌, refl, ap, ◌∙◌, List, [], ◌∷◌, keep, arith, ◌==◌, if◌then◌else◌,
}
use dot_and_boxes.Messages.{GamePlayer}
use dot_and_boxes.GameView.{insert_by_score, players_by_score}

-- No score is above the one before it.
abbrev pub IsFalling : List GamePlayer → Type 0
IsFalling [] = Unit
IsFalling (p ∷ []) = Unit
IsFalling (p ∷ q ∷ ps) = (q.score ≤ p.score) × IsFalling (q ∷ ps)

abbrev pub scorers : ℕ → List GamePlayer → List GamePlayer
scorers k ps = keep (λ (p : GamePlayer). p.score == k) ps

insert-IsFalling :
    (p : GamePlayer) (qs : List GamePlayer) → IsFalling qs → IsFalling (insert_by_score p qs)
insert-IsFalling p [] h = tt
insert-IsFalling p (q ∷ []) h = ground arith
insert-IsFalling p (q ∷ r ∷ qs) h = ground (arith, h, insert-IsFalling p (r ∷ qs) h.1)

insert-scorers :
    (k : ℕ) (p : GamePlayer) (qs : List GamePlayer)
    → scorers k (insert_by_score p qs) ≡ (if p.score == k then p ∷ scorers k qs else scorers k qs)
insert-scorers k p [] = refl
insert-scorers k p (q ∷ qs) = ground (arith, insert-scorers k p qs)

players_by_score-IsFalling : (ps : List GamePlayer) → IsFalling (players_by_score ps)
unfolding players_by_score
players_by_score-IsFalling [] = tt
players_by_score-IsFalling (p ∷ ps) =
    insert-IsFalling p (players_by_score ps) (players_by_score-IsFalling ps)

players_by_score-scorers :
    (k : ℕ) (ps : List GamePlayer) → scorers k (players_by_score ps) ≡ scorers k ps
unfolding players_by_score
players_by_score-scorers k [] = refl
players_by_score-scorers k (p ∷ ps) =
    insert-scorers k p (players_by_score ps)
    ∙ ap (λ qs. if p.score == k then p ∷ qs else qs) (players_by_score-scorers k ps)

-- The players are shown with no score above the one before it, and for every score the players who
-- have it are those of the game, in the game's order: nobody is lost or shown twice, and a tie is
-- broken by the order of the game.
pub players_by_score_lem :
    (ps : List GamePlayer)
    → IsFalling (players_by_score ps) × ((k : ℕ) → scorers k (players_by_score ps) ≡ scorers k ps)
players_by_score_lem ps = (players_by_score-IsFalling ps, λ k. players_by_score-scorers k ps)
