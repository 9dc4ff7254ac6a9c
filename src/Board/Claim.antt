-- ===== src/Board/Claim.antt =====
-- `applyClaimEdge` of web/src/lib/optimisticGameGrid.ts at a box of a board: the two marks that it
-- makes, and the edges after them.
use dot_and_boxes.Prelude.{
  ℕ, ◌+◌, ◌-◌, ◌<◌, ◌≡◌, inl, inr, true, false, ◌||◌, Option, none, some, arith, ◌==◌,
  if◌then◌else◌, ltb, ltb→lt, Bool-cases,
}
use dot_and_boxes.Prelude.Int.{ℤ, pos, negsuc, ◌+ℤ◌, ◌-ℤ◌}
use dot_and_boxes.Board.{
  Grid, ok, ClaimEdgeName, top_edge, left_edge, right_edge, bottom_edge, mark_edge, cell,
  modify_cell, is_outside, set_side, claim_sides,
}
use dot_and_boxes.Board.Lines.{
  line_of, same_line, edge_at, IsPlaced, IsBoard, edge_at-mark, IsPlaced-mark, some_of-IsPlaced,
}

-- The box on the other side of an edge, with the edge's name there.
abbrev pub other_side : ℕ → ℕ → ℕ → ClaimEdgeName → Option (ℕ × ℕ × ClaimEdgeName)
other_side n r c top_edge = if r == 0 then none else some (r - 1, c, bottom_edge)
other_side n r c bottom_edge = if ltb (r + 1) n then some (r + 1, c, top_edge) else none
other_side n r c left_edge = if c == 0 then none else some (r, c - 1, right_edge)
other_side n r c right_edge = if ltb (c + 1) n then some (r, c + 1, left_edge) else none

abbrev pub mark_other : Option (ℕ × ℕ × ClaimEdgeName) → Grid → Grid
mark_other none g = g
mark_other (some (r, c, k)) g = modify_cell g r c (mark_edge k)

-- Both boxes marked.
abbrev pub claimed : ℕ → Grid → ℕ → ℕ → ClaimEdgeName → Grid
claimed n g r c e = mark_other (other_side n r c e) (modify_cell g r c (mark_edge e))

set_side_inside :
    (n : ℕ) (g : Grid) (r c : ℕ) (k : ClaimEdgeName)
    → r < n
    → c < n
    → IsPlaced r c (cell g r c)
    → set_side n g (pos r) (pos c) k ≡ ok (modify_cell g r c (mark_edge k))
set_side_inside n g r c k hr hc p =
    let (b, e) = some_of-IsPlaced r c (cell g r c) p in ground (arith, e)

-- Stepping to a neighbour inside the board, and off it.
pub minus_one : (r : ℕ) → (r == 0) ≡ false → pos r -ℤ pos 1 ≡ pos (r - 1)
minus_one r h = ground arith

pub plus_one : (r : ℕ) → pos r +ℤ pos 1 ≡ pos (r + 1)
plus_one r = ground arith

off_start : (r : ℕ) → (r == 0) ≡ true → pos r -ℤ pos 1 ≡ negsuc 0
off_start r h = ground arith

set_side_far :
    (n : ℕ) (g : Grid) (x y : ℤ) (k : ClaimEdgeName)
    → is_outside n x y ≡ true
    → set_side n g x y k ≡ ok g
set_side_far n g x y k h = rw h

module _ (n : ℕ) (g : Grid) (w : IsBoard n g) (r c : ℕ) (hr : r < n) (hc : c < n) where
  -- After the first side is marked, the other one is still there to be marked.
  second :
      (e k : ClaimEdgeName) (r' c' : ℕ)
      → r' < n
      → c' < n
      → set_side n (modify_cell g r c (mark_edge e)) (pos r') (pos c') k
        ≡ ok (modify_cell (modify_cell g r c (mark_edge e)) r' c' (mark_edge k))
  second e k r' c' hr' hc' =
      set_side_inside n (modify_cell g r c (mark_edge e)) r' c' k hr' hc'
        (IsPlaced-mark g r c e r' c' (w.placed r' c' hr' hc'))

  -- On a board the two calls of `set` do not throw.
  pub claim_sides_lem :
      (e : ClaimEdgeName) → claim_sides n g (pos r) (pos c) (some e) ≡ ok (claimed n g r c e)
  unfolding claim_sides
  claim_sides_lem top_edge =
      rw (set_side_inside n g r c top_edge hr hc (w.placed r c hr hc)) elim (Bool-cases (r == 0)) [
        | inl z ↦ rw (z, off_start r z)
        | inr s ↦ rw (s, minus_one r s) (second top_edge bottom_edge (r - 1) c (omega arith) hc)
      ]
  claim_sides_lem bottom_edge =
      rw (set_side_inside n g r c bottom_edge hr hc (w.placed r c hr hc)) (
        rw (plus_one r) elim (Bool-cases (ltb (r + 1) n)) [
          | inl s ↦ rw s (second bottom_edge top_edge (r + 1) c (ltb→lt _ _ s) hc)
          | inr z ↦ rw z (set_side_far n _ (pos (r + 1)) (pos c) top_edge (ground arith))
        ])
  claim_sides_lem left_edge =
      rw (set_side_inside n g r c left_edge hr hc (w.placed r c hr hc)) elim (Bool-cases (c == 0)) [
        | inl z ↦
            rw (z, off_start c z) (set_side_far n _ (pos r) (negsuc 0) right_edge (ground arith))
        | inr s ↦ rw (s, minus_one c s) (second left_edge right_edge r (c - 1) hr (omega arith))
      ]
  claim_sides_lem right_edge = rw (set_side_inside n g r c right_edge hr hc (w.placed r c hr hc)) (
      rw (plus_one c) elim (Bool-cases (ltb (c + 1) n)) [
        | inl s ↦ rw s (second right_edge left_edge r (c + 1) hr (ltb→lt _ _ s))
        | inr z ↦ rw z (set_side_far n _ (pos r) (pos (c + 1)) left_edge (ground arith))
      ])

  -- The edges after both boxes are marked, box by box.
  pub edges_of_two :
      (e : ClaimEdgeName) (r' c' : ℕ) (e' : ClaimEdgeName)
      → r' < n
      → c' < n
      → edge_at (claimed n g r c e) r' c' e'
        ≡ (edge_at g r' c' e' || same_line (line_of r c e) (line_of r' c' e'))
  edges_of_two top_edge r' c' e' hr' hc' =
      let p = w.placed r' c' hr' hc' in
      let q = IsPlaced-mark g r c top_edge r' c' p in
      ground (
        arith,
        edge_at-mark g r c top_edge r' c' e' p,
        edge_at-mark (modify_cell g r c (mark_edge top_edge)) (r - 1) c bottom_edge r' c' e' q,
      )
  edges_of_two bottom_edge r' c' e' hr' hc' =
      let p = w.placed r' c' hr' hc' in
      let q = IsPlaced-mark g r c bottom_edge r' c' p in
      ground (
        arith,
        edge_at-mark g r c bottom_edge r' c' e' p,
        edge_at-mark (modify_cell g r c (mark_edge bottom_edge)) (r + 1) c top_edge r' c' e' q,
      )
  edges_of_two left_edge r' c' e' hr' hc' =
      let p = w.placed r' c' hr' hc' in
      let q = IsPlaced-mark g r c left_edge r' c' p in
      ground (
        arith,
        edge_at-mark g r c left_edge r' c' e' p,
        edge_at-mark (modify_cell g r c (mark_edge left_edge)) r (c - 1) right_edge r' c' e' q,
      )
  edges_of_two right_edge r' c' e' hr' hc' =
      let p = w.placed r' c' hr' hc' in
      let q = IsPlaced-mark g r c right_edge r' c' p in
      ground (
        arith,
        edge_at-mark g r c right_edge r' c' e' p,
        edge_at-mark (modify_cell g r c (mark_edge right_edge)) r (c + 1) left_edge r' c' e' q,
      )
