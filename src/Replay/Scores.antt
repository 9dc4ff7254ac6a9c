-- ===== src/Replay/Scores.antt =====
-- The boxes that a player owns on a grid, counted, under the two writes of
-- web/src/routes/_authenticated/replay/$gameID.tsx.
use dot_and_boxes.Prelude.{
  ℕ, zero, suc, ◌+◌, ◌≡◌, refl, ◌∙◌, ◌&&◌, Option, none, some, List, [], ◌∷◌, arith, ◌==◌,
  if◌then◌else◌, get_elem?, modify, length-modify,
}
use dot_and_boxes.Board.{Box, Grid, ClaimEdgeName, top_edge, mark_edge, cell, modify_cell}
use dot_and_boxes.Board.Cells.{cell-modify}
use dot_and_boxes.Board.Lines.{edge_of, owner_of, owner_at, IsPlaced, IsBoard}
use dot_and_boxes.Board.Claim.{other_side, mark_other, claimed}
use dot_and_boxes.Replay.{set_owner, empty_row, empty_rows, make_empty_grid}
use mathlib.Core.Option
use mathlib.Core.Path.{fun_ext}

abbrev pub owns : ℕ → Box → ℕ
owns t b = elim b.owner_turn [ none ↦ 0 | some u ↦ if u == t then 1 else 0 ]

abbrev pub owned_row : ℕ → List Box → ℕ
owned_row t [] = 0
owned_row t (b ∷ bs) = owns t b + owned_row t bs

-- How many boxes of the grid the player of turn `t` owns.
abbrev pub owned : ℕ → Grid → ℕ
owned t [] = 0
owned t (row ∷ g) = owned_row t row + owned t g

module _ (t : ℕ) (e : ClaimEdgeName) where
  owns-mark : (k : ClaimEdgeName) (b : Box) → owns t (mark_edge k b) ≡ owns t b
  owns-mark top_edge b = refl
  owns-mark _ b = refl

  owned_row-mark :
      (row : List Box) (c : ℕ) → owned_row t (modify row c (mark_edge e)) ≡ owned_row t row
  owned_row-mark [] c = refl
  owned_row-mark (b ∷ bs) zero = rw (owns-mark e b)
  owned_row-mark (b ∷ bs) (suc c) = omega (arith, owned_row-mark bs c)

  pub owned-mark : (g : Grid) (r c : ℕ) → owned t (modify_cell g r c (mark_edge e)) ≡ owned t g
  owned-mark [] r c = refl
  owned-mark (row ∷ g) zero c = omega (arith, owned_row-mark row c)
  owned-mark (row ∷ g) (suc r) c = omega (arith, owned-mark g r c)

pub owned-claimed :
    (t n : ℕ) (g : Grid) (r c : ℕ) (e : ClaimEdgeName) → owned t (claimed n g r c e) ≡ owned t g
owned-claimed t n g r c e = go (other_side n r c e)
  where
    go :
        (o : Option (ℕ × ℕ × ClaimEdgeName))
        → owned t (mark_other o (modify_cell g r c (mark_edge e))) ≡ owned t g
    go none = owned-mark t e g r c
    go (some (x, y, k)) = owned-mark t k _ x y ∙ owned-mark t e g r c

module _ (t u : ℕ) where
  owned_row-set_owner :
      (row : List Box) (c : ℕ) {b : Box}
      → get_elem? row c ≡ some b
      → b.owner_turn ≡ none
      → owned_row t (modify row c (set_owner u)) ≡ (if u == t then 1 else 0) + owned_row t row
  owned_row-set_owner [] c h free = cc
  owned_row-set_owner (x ∷ xs) zero h free = ground arith
  owned_row-set_owner (x ∷ xs) (suc c) h free = omega (arith, owned_row-set_owner xs c h free)

  -- A box that nobody owned adds one to its new owner's count, and nothing to the others'.
  pub owned-set_owner :
      (g : Grid) (r c : ℕ) {b : Box}
      → cell g r c ≡ some b
      → b.owner_turn ≡ none
      → owned t (modify_cell g r c (set_owner u)) ≡ (if u == t then 1 else 0) + owned t g
  owned-set_owner [] r c h free = cc
  owned-set_owner (row ∷ g) zero c h free = omega (arith, owned_row-set_owner row c h free)
  owned-set_owner (row ∷ g) (suc r) c h free = omega (arith, owned-set_owner g r c h free)

owned_row-empty : (t r c left : ℕ) → owned_row t (empty_row r c left) ≡ 0
unfolding empty_row
owned_row-empty t r c zero = refl
owned_row-empty t r c (suc left) = omega (arith, owned_row-empty t r (suc c) left)

owned-empty_rows : (t size r left : ℕ) → owned t (empty_rows size r left) ≡ 0
unfolding empty_rows
owned-empty_rows t size r zero = refl
owned-empty_rows t size r (suc left) =
    omega (arith, owned_row-empty t r 0 size, owned-empty_rows t size (suc r) left)

pub owned-empty : (t n : ℕ) → owned t (make_empty_grid n) ≡ 0
unfolding make_empty_grid
owned-empty t n = owned-empty_rows t n 0 n

module _ (n : ℕ) (g : Grid) (r c u : ℕ) where
  cell_of_owner :
      (r' c' : ℕ) → edge_of (cell (modify_cell g r c (set_owner u)) r' c') ≡ edge_of (cell g r' c')
  cell_of_owner r' c' = rw (cell-modify g r c r' c' (set_owner u)) (go (cell g r' c'))
    where
      go :
          (o : Option Box)
          → edge_of (if r == r' && c == c' then Option.map (set_owner u) o else o) ≡ edge_of o
      go o = fun_ext (λ e. every o e)
        where
          every :
              (o : Option Box) (e : ClaimEdgeName)
              → edge_of (if r == r' && c == c' then Option.map (set_owner u) o else o) e
                ≡ edge_of o e
          every none e = ground arith
          every (some b) top_edge = ground arith
          every (some b) _ = ground arith

  IsPlaced-set_owner :
      (r' c' : ℕ)
      → IsPlaced r' c' (cell g r' c')
      → IsPlaced r' c' (cell (modify_cell g r c (set_owner u)) r' c')
  IsPlaced-set_owner r' c' p = rw (cell-modify g r c r' c' (set_owner u)) (go (cell g r' c') p)
    where
      go :
          (o : Option Box)
          → IsPlaced r' c' o
          → IsPlaced r' c' (if r == r' && c == c' then Option.map (set_owner u) o else o)
      go none q = absurd q
      go (some b) q = ground arith

  -- A new owner leaves a board a board.
  pub set_owner-IsBoard : IsBoard n g → IsBoard n (modify_cell g r c (set_owner u))
  set_owner-IsBoard w = record {
    rows = length-modify g r _ ∙ w.rows;
    placed = λ r' c' hr hc. IsPlaced-set_owner r' c' (w.placed r' c' hr hc);
    shared = λ a b a' b' k k' ha hb ha' hb' s.
        rw (cell_of_owner a b, cell_of_owner a' b') (w.shared a b a' b' k k' ha hb ha' hb' s);
  }

  pub owner_at-set_owner :
      (r' c' : ℕ)
      → IsPlaced r' c' (cell g r' c')
      → owner_at (modify_cell g r c (set_owner u)) r' c'
        ≡ (if r == r' && c == c' then some u else owner_at g r' c')
  owner_at-set_owner r' c' p = rw (cell-modify g r c r' c' (set_owner u)) (go (cell g r' c') p)
    where
      go :
          (o : Option Box)
          → IsPlaced r' c' o
          → owner_of (if r == r' && c == c' then Option.map (set_owner u) o else o)
            ≡ (if r == r' && c == c' then some u else owner_of o)
      go none q = absurd q
      go (some b) q = ground arith
