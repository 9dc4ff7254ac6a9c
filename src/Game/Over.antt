-- ===== src/Game/Over.antt =====
-- `isGameFinished` and `handleQuitGame` of web/src/routes/game/$gameID.tsx.
use dot_and_boxes.Prelude.{
  ℕ, zero, suc, ◌≡◌, refl, sym, ◌∙◌, ◌≢◌, ◌↔◌, ◌⊎◌, inl, inr, Bool, true, Option, none, some, List,
  [], ◌∷◌, all, get_elem?, arith, Bool-cases, Option-cases,
}
use dot_and_boxes.Board.{Box, Grid, cell}
use dot_and_boxes.Messages.{Game}
use dot_and_boxes.Game.{has_owner, is_game_finished, handle_quit_game}

module _ {ℓ} {A : Type ℓ} (p : A → Bool) where
  all-get_elem? :
      (xs : List A) (i : ℕ) {x : A} → all p xs ≡ true → get_elem? xs i ≡ some x → p x ≡ true
  all-get_elem? [] i h e = cc
  all-get_elem? (y ∷ ys) zero h e = ground arith
  all-get_elem? (y ∷ ys) (suc i) {x} h e = all-get_elem? ys i {x = x} (ground arith) e

  all_of_get_elem? :
      (xs : List A) → ((i : ℕ) (x : A) → get_elem? xs i ≡ some x → p x ≡ true) → all p xs ≡ true
  all_of_get_elem? [] h = refl
  all_of_get_elem? (y ∷ ys) h =
      let rest = all_of_get_elem? ys (λ i. h (suc i)) in ground (arith, h 0 y, rest)

-- Every box that the grid has is owned.
abbrev pub IsFull : Grid → Type 0
IsFull g = (r c : ℕ) (b : Box) → cell g r c ≡ some b → b.owner_turn ≢ none

abbrev pub IsOver : Game → Type 0
IsOver g = (g.winner_id ≢ none) ⊎ IsFull g.grid

has_owner_iff : (b : Box) → (has_owner b ≡ true) ↔ (b.owner_turn ≢ none)
has_owner_iff b = (ground arith, ground arith)

all_rows : Grid → Bool
all_rows g = all (λ row. all has_owner row) g

cell_in_row :
    (g : Grid) (r c : ℕ) {row : List Box} {b : Box}
    → get_elem? g r ≡ some row
    → get_elem? row c ≡ some b
    → cell g r c ≡ some b
cell_in_row g r c e f = rw (e, cell) f

row_of_cell :
    (g : Grid) (r c : ℕ) {b : Box}
    → cell g r c ≡ some b
    → (row : List Box) × (get_elem? g r ≡ some row) × (get_elem? row c ≡ some b)
row_of_cell g r c {b} e = go (get_elem? g r) refl
  where
    go :
        (o : Option (List Box))
        → get_elem? g r ≡ o
        → (row : List Box) × (get_elem? g r ≡ some row) × (get_elem? row c ≡ some b)
    go none f = absurd (cc)
    go (some row) f = (row, f, ground arith)

IsFull-all : (g : Grid) → (all_rows g ≡ true) ↔ IsFull g
unfolding all_rows
IsFull-all g = (
  λ h r c b e.
      let (row, er, ec) = row_of_cell g r c e in
      (has_owner_iff b).0
        (all-get_elem? has_owner row c (all-get_elem? (λ x. all has_owner x) g r h er) ec),
  λ h.
      all_of_get_elem? (λ x. all has_owner x) g
        λ r row er.
          all_of_get_elem? has_owner row
            λ c b ec. (has_owner_iff b).1 (h r c b (cell_in_row g r c er ec)),
)

no_winner : (g : Game) → g.winner_id ≡ none → is_game_finished (some g) ≡ all_rows g.grid
unfolding is_game_finished all_rows
no_winner g e = ground arith

-- `isGameFinished` is true exactly of a game that has a winner, or whose boxes are all owned.
pub is_game_finished_iff : (g : Game) → (is_game_finished (some g) ≡ true) ↔ IsOver g
unfolding is_game_finished
is_game_finished_iff g = elim (Option-cases g.winner_id) [
  | inl e ↦ (
    λ h. inr ((IsFull-all g.grid).0 (sym (no_winner g e) ∙ h)),
    elim [ inl n ↦ absurd (n e) | inr full ↦ no_winner g e ∙ (IsFull-all g.grid).1 full ],
  )
  | inr (w, e) ↦ (λ _. inl (λ n. cc), λ _. ground arith)
]

-- Where the ids of the game and of the user are not 0, `handleQuitGame` asks the server to forfeit
-- the game on the page if that is not over, and makes no request if it has a winner or all its
-- boxes are owned.
pub handle_quit_game_lem :
    (g : Game) (user : ℕ)
    → g.game_id ≢ 0
    → user ≢ 0
    → ((handle_quit_game (some g) (some user) ≡ some g.game_id) × (¬ IsOver g))
      ⊎ ((handle_quit_game (some g) (some user) ≡ none) × IsOver g)
unfolding handle_quit_game
handle_quit_game_lem g user ng nu =
    let over = is_game_finished_iff g in
    elim (Bool-cases (is_game_finished (some g))) [
      | inl y ↦ inr (ground (arith, y), over.0 y)
      | inr n ↦ inl (ground (arith, n, ng, nu), λ o. cc (sym (over.1 o) ∙ n))
    ]
