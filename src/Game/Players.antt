-- ===== src/Game/Players.antt =====
-- `turnToUserIdMap` of web/src/routes/game/$gameID.tsx, against a search among the players.
use dot_and_boxes.Prelude.{
  ℕ, ◌≡◌, refl, ◌≢◌, ◌⊎◌, inl, inr, Bool-cases, Option, none, some, List, [], ◌∷◌, find, arith,
  ◌==◌, if◌then◌else◌,
}
use dot_and_boxes.Prelude.Dict.{Dict, lookup, insert, lookup-insert}
use dot_and_boxes.Messages.{Game, GamePlayer}
use dot_and_boxes.Game.{add_turns, turn_to_user_id_map}
use mathlib.Core.Option
use mathlib.Core.Path.{subst}

-- The last player of a turn.
abbrev pub last_of_turn : ℕ → List GamePlayer → Option GamePlayer
last_of_turn t [] = none
last_of_turn t (p ∷ ps) = elim (last_of_turn t ps) [
  | some q ↦ some q
  | none ↦ if p.turn_order == t then some p else none
]

lookup-add_turns :
    (t : ℕ) (ps : List GamePlayer) (acc : Dict ℕ)
    → lookup t (add_turns ps acc)
      ≡ elim (last_of_turn t ps) [ some q ↦ some q.user_id | none ↦ lookup t acc ]
lookup-add_turns t [] acc = refl
lookup-add_turns t (p ∷ ps) acc = ground (
  arith,
  lookup-add_turns t ps (insert p.turn_order p.user_id acc),
  lookup-insert p.turn_order t p.user_id acc,
)

-- No two players have one turn.
abbrev pub HasTurn : ℕ → List GamePlayer → Type 0
HasTurn t [] = ⊥
HasTurn t (p ∷ ps) = (p.turn_order ≡ t) ⊎ HasTurn t ps

abbrev pub DistinctTurns : List GamePlayer → Type 0
DistinctTurns [] = Unit
DistinctTurns (p ∷ ps) = ¬ HasTurn p.turn_order ps × DistinctTurns ps

last_of_turn-none : (t : ℕ) (ps : List GamePlayer) → ¬ HasTurn t ps → last_of_turn t ps ≡ none
last_of_turn-none t [] h = refl
last_of_turn-none t (p ∷ ps) h =
    let rest = last_of_turn-none t ps (λ k. h (inr k)) in
    let here : p.turn_order ≢ t = λ e. h (inl e) in ground arith

last-eq-find :
    (t : ℕ) (ps : List GamePlayer)
    → DistinctTurns ps
    → last_of_turn t ps ≡ find (λ p. p.turn_order == t) ps
last-eq-find t [] d = refl
last-eq-find t (p ∷ ps) (fresh, d) = elim (Bool-cases (p.turn_order == t)) [
  | inl e ↦
      let same : p.turn_order ≡ t = ground arith in
      ground (arith, last_of_turn-none t ps (subst (λ k. ¬ HasTurn k ps) same fresh))
  | inr n ↦ ground (arith, last-eq-find t ps d)
]

-- Where no two players have one turn, `turnToUserIdMap[t]` is the id of the player whose turn `t`
-- is, the one that the search `players.find` for this turn yields, and no entry if there is none.
pub turn_to_user_id_map-find :
    (g : Game) (t : ℕ)
    → DistinctTurns g.players
    → lookup t (turn_to_user_id_map (some g))
      ≡ Option.map (λ p. p.user_id) (find (λ p. p.turn_order == t) g.players)
unfolding turn_to_user_id_map
turn_to_user_id_map-find g t d =
    ground (arith, lookup-add_turns t g.players [], last-eq-find t g.players d)
