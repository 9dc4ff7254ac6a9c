-- ===== src/Board/Cells.antt =====
-- Reads and writes of one box of a grid, and `cloneGrid` (web/src/lib/optimisticGameGrid.ts).
use mathlib.Core.Option
use dot_and_boxes.Prelude.{
  ℕ, zero, suc, ◌≡◌, refl, ap, ◌&&◌, List, [], ◌∷◌, arith, ◌==◌, if◌then◌else◌, get_elem?-modify,
}
use dot_and_boxes.Board.{
  Box, Grid, Result, ok, type_error, ◌>>=◌, cell, modify_cell, clone_row, clone_grid,
}
use mathlib.Core.Path.{ap₂}

clone_row_id : (row : List Box) → clone_row row ≡ row
unfolding clone_row
clone_row_id [] = refl
clone_row_id (b ∷ bs) = ap (λ r. b ∷ r) (clone_row_id bs)

-- The copy is equal to the grid.
pub clone_grid_id : (g : Grid) → clone_grid g ≡ g
unfolding clone_grid
clone_grid_id [] = refl
clone_grid_id (row ∷ g) = ap₂ ◌∷◌ (clone_row_id row) (clone_grid_id g)

pub cell-modify :
    (g : Grid) (r c r' c' : ℕ) (f : Box → Box)
    → cell (modify_cell g r c f) r' c'
      ≡ (if r == r' && c == c' then Option.map f (cell g r' c') else cell g r' c')
cell-modify [] r c r' c' f = ground arith
cell-modify (row ∷ g) zero c zero c' f = ground (arith, get_elem?-modify row c c' f)
cell-modify (row ∷ g) zero c (suc r') c' f = ground arith
cell-modify (row ∷ g) (suc r) c zero c' f = ground arith
cell-modify (row ∷ g) (suc r) c (suc r') c' f = ground (arith, cell-modify g r c r' c' f)

pub ok_inj {ℓ} : {A : Type ℓ} {a b : A} → ok a ≡ ok b → a ≡ b
ok_inj h = cc

-- A call that goes on and returns: its first part returned, and so did the rest.
pub bind_returns :
    {X Y : Type 0} (first : Result X) (rest : X → Result Y) {y : Y}
    → (first >>= rest) ≡ ok y
    → (x : X) × (first ≡ ok x) × (rest x ≡ ok y)
bind_returns type_error rest run = cc
bind_returns (ok x) rest run = (x, refl, run)
