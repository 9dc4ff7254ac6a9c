-- ===== src/Board.antt =====
-- The board that the client shows and claims edges on: `Box` of web/src/types/websocket.ts and
-- the optimistic update of web/src/lib/optimisticGameGrid.ts.
-- A `Box[][]` is a list of rows. Rows and columns come in as integers, since the code tests them
-- for being negative; a read of `undefined` throws a `TypeError`.
pub mod Cells
pub mod Lines
pub mod Claim
pub mod Refinement
pub mod Free
mod Tests
use package.dot_and_boxes.Prelude.{
  ℕ, Bool, true, false, not, ◌||◌, Option, none, some, List, map, String, get_elem?, modify,
  if◌then◌else◌,
}
use package.dot_and_boxes.Prelude.Int.{ℤ, pos, negsuc, ◌+ℤ◌, ◌-ℤ◌, ltb_ℤ, leb_ℤ}
use text.Mathlib.Text.{◌==◌ as str_eq}

-- A call that returns, or that throws a `TypeError`.
pub data Result {ℓ} (A : Type ℓ) : Type ℓ where
  ok : A → Result A
  type_error : Result A

infixl 5 ◌>>=◌
abbrev pub ◌>>=◌ {ℓ κ} : {A : Type ℓ} {B : Type κ} → Result A → (A → Result B) → Result B
ok a >>= f = f a
type_error >>= f = type_error

pub record Box : Type 0 where
  pub row : ℕ
  pub col : ℕ
  pub top_edge : Bool
  pub right_edge : Bool
  pub bottom_edge : Bool
  pub left_edge : Bool
  pub owner_turn : Option ℕ

abbrev pub Grid : Type 0
Grid = List (List Box)

pub data ClaimEdgeName : Type 0 where
  top_edge left_edge right_edge bottom_edge : ClaimEdgeName

-- `box[k]`
abbrev pub get_edge : ClaimEdgeName → Box → Bool
get_edge top_edge b = b.top_edge
get_edge left_edge b = b.left_edge
get_edge right_edge b = b.right_edge
get_edge bottom_edge b = b.bottom_edge

-- `box[k] = true`
abbrev pub mark_edge : ClaimEdgeName → Box → Box
mark_edge top_edge b = record b { top_edge = true }
mark_edge left_edge b = record b { left_edge = true }
mark_edge right_edge b = record b { right_edge = true }
mark_edge bottom_edge b = record b { bottom_edge = true }

-- The labels of the two `switch (edge as ClaimEdgeName)`; `none` is `default`.
abbrev pub edge_label : String → Option ClaimEdgeName
edge_label s =
    if str_eq s "top_edge"
    then some top_edge
    else if str_eq s "bottom_edge"
    then some bottom_edge
    else if str_eq s "left_edge"
    then some left_edge
    else if str_eq s "right_edge"
    then some right_edge
    else none

-- `xs[i]`; an index below zero is no element.
abbrev pub at? {ℓ} : {A : Type ℓ} → List A → ℤ → Option A
at? xs (pos i) = get_elem? xs i
at? xs (negsuc _) = none

-- `grid[row][col]`, which throws if there is no such row.
abbrev pub read_box : Grid → ℤ → ℤ → Result (Option Box)
read_box g r c = elim (at? g r) [ none ↦ type_error | some row ↦ ok (at? row c) ]

-- The box at a row and a column, if there is one.
abbrev pub cell : Grid → ℕ → ℕ → Option Box
cell g r c = elim (get_elem? g r) [ none ↦ none | some row ↦ get_elem? row c ]

abbrev pub modify_cell : Grid → ℕ → ℕ → (Box → Box) → Grid
modify_cell g r c f = modify g r (λ row. modify row c f)

-- `grid[r][c].k = v` for a row and a column that are no negative numbers.
abbrev pub write_cell : Grid → ℕ → ℕ → (Box → Box) → Result Grid
write_cell g r c f = elim (cell g r c) [ none ↦ type_error | some _ ↦ ok (modify_cell g r c f) ]

-- `grid[r][c].k = v`: it throws where there is no such box.
abbrev pub write_box : Grid → ℤ → ℤ → (Box → Box) → Result Grid
write_box g (pos r) (pos c) f = write_cell g r c f
write_box g (negsuc _) c f = type_error
write_box g (pos r) (negsuc _) f = type_error

pub clone_row : List Box → List Box
clone_row = map λ b. record {
  row = b.row;
  col = b.col;
  top_edge = b.top_edge;
  right_edge = b.right_edge;
  bottom_edge = b.bottom_edge;
  left_edge = b.left_edge;
  owner_turn = b.owner_turn;
}

pub clone_grid : Grid → Grid
unfolding clone_row
clone_grid = map clone_row

abbrev pub is_outside : ℕ → ℤ → ℤ → Bool
is_outside n r c = ltb_ℤ r (pos 0) || leb_ℤ (pos n) r || ltb_ℤ c (pos 0) || leb_ℤ (pos n) c

-- The `switch` of `isEdgeFree`.
abbrev pub free_side : Option ClaimEdgeName → Box → Bool
free_side none b = false
free_side (some e) b = not (get_edge e b)

unfoldable pub is_edge_free : Grid → ℕ → ℤ → ℤ → String → Result Bool
is_edge_free grid board_size row col edge = if is_outside board_size row col then ok false else do
  box ← read_box grid row col
  elim box [ none ↦ ok false | some b ↦ ok (free_side (edge_label edge) b) ]

-- The closure `set` of `applyClaimEdge`, on the copy `g`.
abbrev pub set_side : ℕ → Grid → ℤ → ℤ → ClaimEdgeName → Result Grid
set_side n g r c k = if is_outside n r c then ok g else write_box g r c (mark_edge k)

-- The `switch` of `applyClaimEdge`, on the copy `g`.
unfoldable pub claim_sides : ℕ → Grid → ℤ → ℤ → Option ClaimEdgeName → Result Grid
claim_sides n g row col (some top_edge) = do
  g' ← set_side n g row col top_edge
  set_side n g' (row -ℤ pos 1) col bottom_edge
claim_sides n g row col (some bottom_edge) = do
  g' ← set_side n g row col bottom_edge
  set_side n g' (row +ℤ pos 1) col top_edge
claim_sides n g row col (some left_edge) = do
  g' ← set_side n g row col left_edge
  set_side n g' row (col -ℤ pos 1) right_edge
claim_sides n g row col (some right_edge) = do
  g' ← set_side n g row col right_edge
  set_side n g' row (col +ℤ pos 1) left_edge
claim_sides n g row col none = ok g

unfoldable pub apply_claim_edge : Grid → ℕ → ℤ → ℤ → String → Result Grid
unfolding clone_grid claim_sides
apply_claim_edge grid board_size row col edge =
    claim_sides board_size (clone_grid grid) row col (edge_label edge)
