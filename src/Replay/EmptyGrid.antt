-- ===== src/Replay/EmptyGrid.antt =====
-- `makeEmptyGrid` of web/src/routes/_authenticated/replay/$gameID.tsx.
use dot_and_boxes.Prelude.{
  ℕ, zero, suc, ◌+◌, ◌<◌, ◌≡◌, refl, sym, ap, ◌∙◌, false, none, some, arith, length, get_elem?,
}
use mathlib.Core.Path.{ap₂}
use dot_and_boxes.Board.{ClaimEdgeName, top_edge, get_edge, cell}
use dot_and_boxes.Board.Lines.{edge_at, owner_at, IsBoard}
use dot_and_boxes.Replay.{empty_row, empty_rows, empty_box, make_empty_grid}

get_elem?-empty_row :
    (r c left j : ℕ) → j < left → get_elem? (empty_row r c left) j ≡ some (empty_box r (c + j))
unfolding empty_row
get_elem?-empty_row r c zero j h = absurd (omega arith)
get_elem?-empty_row r c (suc left) zero h = ap (λ k. some (empty_box r k)) (omega arith)
get_elem?-empty_row r c (suc left) (suc j) h =
    get_elem?-empty_row r (suc c) left j (omega arith)
    ∙ ap (λ k. some (empty_box r k)) (omega arith)

get_elem?-empty_rows :
    (size r left i : ℕ)
    → i < left
    → get_elem? (empty_rows size r left) i ≡ some (empty_row (r + i) 0 size)
unfolding empty_rows
get_elem?-empty_rows size r zero i h = absurd (omega arith)
get_elem?-empty_rows size r (suc left) zero h = ap (λ k. some (empty_row k 0 size)) (omega arith)
get_elem?-empty_rows size r (suc left) (suc i) h =
    get_elem?-empty_rows size (suc r) left i (omega arith)
    ∙ ap (λ k. some (empty_row k 0 size)) (omega arith)

length-empty_rows : (size r left : ℕ) → length (empty_rows size r left) ≡ left
unfolding empty_rows
length-empty_rows size r zero = refl
length-empty_rows size r (suc left) = ap suc (length-empty_rows size (suc r) left)

length-make_empty_grid : (n : ℕ) → length (make_empty_grid n) ≡ n
unfolding make_empty_grid
length-make_empty_grid n = length-empty_rows n 0 n

no_edge : (r c : ℕ) (e : ClaimEdgeName) → get_edge e (empty_box r c) ≡ false
unfolding empty_box
no_edge r c top_edge = refl
no_edge r c _ = refl

pub cell-make_empty_grid :
    (n r c : ℕ) → r < n → c < n → cell (make_empty_grid n) r c ≡ some (empty_box r c)
unfolding make_empty_grid
cell-make_empty_grid n r c hr hc =
    rw (get_elem?-empty_rows n 0 n r hr, cell)
      (get_elem?-empty_row (0 + r) 0 n c hc
        ∙ ap₂ (λ a b. some (empty_box a b)) (omega arith) (omega arith))

-- `makeEmptyGrid(n)` is a board of size `n` on which no edge is claimed and no box is owned.
pub make_empty_grid-IsBoard :
    (n : ℕ)
    → IsBoard n (make_empty_grid n)
      × ((r c : ℕ) (e : ClaimEdgeName) → r < n → c < n → edge_at (make_empty_grid n) r c e ≡ false)
      × ((r c : ℕ) → r < n → c < n → owner_at (make_empty_grid n) r c ≡ none)
unfolding empty_box
make_empty_grid-IsBoard n = (
  record {
    rows = length_lem;
    placed = λ r c hr hc. rw (cell-make_empty_grid n r c hr hc) (refl, refl);
    shared =
        λ r c r' c' e e' hr hc hr' hc' _. unclaimed r c e hr hc ∙ sym (unclaimed r' c' e' hr' hc');
  },
  unclaimed,
  λ r c hr hc. rw (cell-make_empty_grid n r c hr hc),
)
  where
    length_lem : length (make_empty_grid n) ≡ n
    length_lem = length-make_empty_grid n

    unclaimed :
        (r c : ℕ) (e : ClaimEdgeName) → r < n → c < n → edge_at (make_empty_grid n) r c e ≡ false
    unclaimed r c e hr hc = rw (cell-make_empty_grid n r c hr hc) (no_edge r c e)
