-- ===== src/Board/Lines.antt =====
-- The abstract board behind the boxes of web/src/types/websocket.ts: an edge is one line between two
-- dots, and a well-formed grid of size `n` stores every line the same way in both of its boxes.
use dot_and_boxes.Prelude.{
  ℕ, ◌+◌, ◌<◌, ◌≡◌, refl, Bool, true, false, ◌&&◌, ◌||◌, Option, none, some, arith, ◌==◌, length,
  if◌then◌else◌,
}
use dot_and_boxes.Board.{
  Box, Grid, ClaimEdgeName, top_edge, left_edge, right_edge, bottom_edge, get_edge, mark_edge, cell,
  modify_cell,
}
use dot_and_boxes.Board.Cells.{cell-modify}
use mathlib.Core.Option

pub data Line : Type 0 where
  horizontal : ℕ → ℕ → Line
  vertical : ℕ → ℕ → Line

-- The line that an edge of the box at a row and a column is.
abbrev pub line_of : ℕ → ℕ → ClaimEdgeName → Line
line_of r c top_edge = horizontal r c
line_of r c bottom_edge = horizontal (r + 1) c
line_of r c left_edge = vertical r c
line_of r c right_edge = vertical r (c + 1)

abbrev pub same_line : Line → Line → Bool
same_line (horizontal a b) (horizontal c d) = a == c && b == d
same_line (vertical a b) (vertical c d) = a == c && b == d
same_line (horizontal a b) (vertical c d) = false
same_line (vertical a b) (horizontal c d) = false

abbrev pub same_edge : ClaimEdgeName → ClaimEdgeName → Bool
same_edge top_edge top_edge = true
same_edge left_edge left_edge = true
same_edge right_edge right_edge = true
same_edge bottom_edge bottom_edge = true
same_edge _ _ = false

abbrev pub edge_of : Option Box → ClaimEdgeName → Bool
edge_of none e = false
edge_of (some b) e = get_edge e b

abbrev pub owner_of : Option Box → Option ℕ
owner_of none = none
owner_of (some b) = b.owner_turn

abbrev pub edge_at : Grid → ℕ → ℕ → ClaimEdgeName → Bool
edge_at g r c e = edge_of (cell g r c) e

abbrev pub owner_at : Grid → ℕ → ℕ → Option ℕ
owner_at g r c = owner_of (cell g r c)

abbrev pub IsPlaced : ℕ → ℕ → Option Box → Type 0
IsPlaced r c none = ⊥
IsPlaced r c (some b) = (b.row ≡ r) × (b.col ≡ c)

pub some_of-IsPlaced : (r c : ℕ) (o : Option Box) → IsPlaced r c o → (b : Box) × (o ≡ some b)
some_of-IsPlaced r c none p = absurd p
some_of-IsPlaced r c (some b) p = (b, refl)

-- `n` rows with a box at each of `n` columns, which knows its place, and agrees with its
-- neighbours on the lines between them.
pub record IsBoard (n : ℕ) (g : Grid) : Type 0 where
  pub rows : length g ≡ n
  pub placed : (r c : ℕ) → r < n → c < n → IsPlaced r c (cell g r c)
  pub shared :
      (r c r' c' : ℕ) (e e' : ClaimEdgeName)
      → r < n
      → c < n
      → r' < n
      → c' < n
      → same_line (line_of r c e) (line_of r' c' e') ≡ true
      → edge_at g r c e ≡ edge_at g r' c' e'

pub edge_of-mark :
    (k e : ClaimEdgeName) (b : Box) → get_edge e (mark_edge k b) ≡ (get_edge e b || same_edge k e)
edge_of-mark top_edge e b = ground arith
edge_of-mark left_edge e b = ground arith
edge_of-mark right_edge e b = ground arith
edge_of-mark bottom_edge e b = ground arith

module _ (g : Grid) (r c : ℕ) (k : ClaimEdgeName) (r' c' : ℕ) where
  -- Marking an edge of one box changes that edge of that box.
  pub edge_at-mark :
      (e : ClaimEdgeName)
      → IsPlaced r' c' (cell g r' c')
      → edge_at (modify_cell g r c (mark_edge k)) r' c' e
        ≡ (edge_at g r' c' e || (r == r' && c == c' && same_edge k e))
  edge_at-mark e p = rw (cell-modify g r c r' c' (mark_edge k)) (go (cell g r' c') p)
    where
      go :
          (o : Option Box)
          → IsPlaced r' c' o
          → edge_of (if r == r' && c == c' then Option.map (mark_edge k) o else o) e
            ≡ (edge_of o e || (r == r' && c == c' && same_edge k e))
      go none q = absurd q
      go (some b) q = ground (arith, edge_of-mark k e b)

  pub IsPlaced-mark :
      IsPlaced r' c' (cell g r' c') → IsPlaced r' c' (cell (modify_cell g r c (mark_edge k)) r' c')
  IsPlaced-mark p = rw (cell-modify g r c r' c' (mark_edge k)) (go (cell g r' c') k p)
    where
      go :
          (o : Option Box) (k : ClaimEdgeName)
          → IsPlaced r' c' o
          → IsPlaced r' c' (if r == r' && c == c' then Option.map (mark_edge k) o else o)
      go none k q = absurd q
      go (some b) top_edge q = ground arith
      go (some b) _ q = ground arith

  pub owner_at-mark : owner_at (modify_cell g r c (mark_edge k)) r' c' ≡ owner_at g r' c'
  owner_at-mark = rw (cell-modify g r c r' c' (mark_edge k)) (go (cell g r' c') k)
    where
      go :
          (o : Option Box) (k : ClaimEdgeName)
          → owner_of (if r == r' && c == c' then Option.map (mark_edge k) o else o) ≡ owner_of o
      go none k = ground arith
      go (some b) top_edge = ground arith
      go (some b) _ = ground arith
