-- ===== src/Game.antt =====
-- The page of a running game, web/src/routes/game/$gameID.tsx: the end of the game, the map from
-- turns to users, the players' colours, the turn clock, and the move that a click makes.
pub mod Timer
pub mod Clock
pub mod Over
pub mod Players
pub mod Move
mod Tests
use package.dot_and_boxes.Prelude.{
  ℕ, ◌+◌, ◌%◌, Bool, true, false, not, ◌&&◌, Option, none, some, List, [], ◌∷◌, String, all, find,
  length, get_elem?, if◌then◌else◌, ◌==◌,
}
use package.dot_and_boxes.Prelude.Dict.{Dict, insert, lookup}
use package.dot_and_boxes.Board.{Box}
use package.dot_and_boxes.Messages.{Game, GamePlayer}

-- `box.owner_turn !== null`
abbrev pub has_owner : Box → Bool
has_owner b = elim b.owner_turn [ none ↦ false | some _ ↦ true ]

unfoldable pub is_game_finished : Option Game → Bool
is_game_finished none = false
is_game_finished (some g) = elim g.winner_id [
  | some _ ↦ true
  | none ↦ all (λ row. all has_owner row) g.grid
]

-- The reduction from the left: a later player of a turn replaces an earlier one.
abbrev pub add_turns : List GamePlayer → Dict ℕ → Dict ℕ
add_turns [] acc = acc
add_turns (p ∷ ps) acc = add_turns ps (insert p.turn_order p.user_id acc)

unfoldable pub turn_to_user_id_map : Option Game → Dict ℕ
turn_to_user_id_map none = []
turn_to_user_id_map (some g) = add_turns g.players []

abbrev pub colors : List String
colors = "red" ∷ "blue" ∷ "green" ∷ "purple" ∷ "orange" ∷ "pink" ∷ []

-- `colors[turn_order % colors.length]`, which is always there.
abbrev pub color_of_turn : ℕ → String
color_of_turn t = elim (get_elem? colors (t % length colors)) [ none ↦ "" | some c ↦ c ]

abbrev pub add_colors : List GamePlayer → Dict String → Dict String
add_colors [] acc = acc
add_colors (p ∷ ps) acc = add_colors ps (insert p.user_id (color_of_turn p.turn_order) acc)

unfoldable pub user_colors : Game → Dict String
user_colors g = add_colors g.players []

unfoldable pub winner_player : Game → Option GamePlayer
winner_player g = find (λ p. elim g.winner_id [ none ↦ false | some w ↦ p.user_id == w ]) g.players

unfoldable pub current_turn_player : Game → Option GamePlayer
current_turn_player g = find (λ p. p.turn_order == g.current_turn) g.players

-- A number that is there and not 0, as a condition.
abbrev is_truthy : Option ℕ → Bool
is_truthy none = false
is_truthy (some n) = not (n == 0)

-- `handleQuitGame`: the game that it asks the server to forfeit, if any. It leaves the page in any
-- case, also when the request fails.
unfoldable pub handle_quit_game : Option Game → Option ℕ → Option ℕ
unfolding is_game_finished
handle_quit_game none user = none
handle_quit_game (some g) user =
    if is_truthy (some g.game_id) && is_truthy user && not (is_game_finished (some g))
    then some g.game_id
    else none
