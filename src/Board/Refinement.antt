-- ===== src/Board/Refinement.antt =====
-- `applyClaimEdge` of web/src/lib/optimisticGameGrid.ts against the abstract board of lines.
use dot_and_boxes.Prelude.{
  ℕ, ◌<◌, ◌≡◌, sym, ◌∙◌, true, ◌||◌, Option, none, some, arith, length, String, length-modify,
}
use dot_and_boxes.Prelude.Int.{pos}
use dot_and_boxes.Board.{
  Grid, Result, ok, ◌>>=◌, ClaimEdgeName, edge_label, mark_edge, cell, modify_cell,
  apply_claim_edge,
}
use dot_and_boxes.Board.Cells.{clone_grid_id}
use dot_and_boxes.Board.Lines.{
  Line, line_of, same_line, edge_at, owner_at, IsPlaced, IsBoard, IsPlaced-mark, owner_at-mark,
}
use dot_and_boxes.Board.Claim.{other_side, mark_other, claimed, claim_sides_lem, edges_of_two}

length-claimed :
    (n : ℕ) (g : Grid) (r c : ℕ) (e : ClaimEdgeName) → length (claimed n g r c e) ≡ length g
length-claimed n g r c e = go (other_side n r c e)
  where
    go :
        (o : Option (ℕ × ℕ × ClaimEdgeName))
        → length (mark_other o (modify_cell g r c (mark_edge e))) ≡ length g
    go none = length-modify g r _
    go (some (r', c', k)) = length-modify _ r' _ ∙ length-modify g r _

module _ (n : ℕ) (g : Grid) (r c : ℕ) (e : ClaimEdgeName) (r' c' : ℕ) where
  IsPlaced-claimed : IsPlaced r' c' (cell g r' c') → IsPlaced r' c' (cell (claimed n g r c e) r' c')
  IsPlaced-claimed p = go (other_side n r c e)
    where
      go :
          (o : Option (ℕ × ℕ × ClaimEdgeName))
          → IsPlaced r' c' (cell (mark_other o (modify_cell g r c (mark_edge e))) r' c')
      go none = IsPlaced-mark g r c e r' c' p
      go (some (x, y, k)) = IsPlaced-mark _ x y k r' c' (IsPlaced-mark g r c e r' c' p)

  pub owner_at-claimed : owner_at (claimed n g r c e) r' c' ≡ owner_at g r' c'
  owner_at-claimed = go (other_side n r c e)
    where
      go :
          (o : Option (ℕ × ℕ × ClaimEdgeName))
          → owner_at (mark_other o (modify_cell g r c (mark_edge e))) r' c' ≡ owner_at g r' c'
      go none = owner_at-mark g r c e r' c'
      go (some (x, y, k)) = owner_at-mark _ x y k r' c' ∙ owner_at-mark g r c e r' c'

same_line_trans : (a b d : Line) → same_line b d ≡ true → same_line a b ≡ same_line a d
same_line_trans a b d h = ground arith

pub claimed-IsBoard :
    (n : ℕ) (g : Grid) (r c : ℕ) (e : ClaimEdgeName)
    → IsBoard n g
    → r < n
    → c < n
    → IsBoard n (claimed n g r c e)
claimed-IsBoard n g r c e w hr hc =
    let edges = edges_of_two n g w r c hr hc e in
    record {
      rows = length-claimed n g r c e ∙ w.rows;
      placed = λ r' c' hr' hc'. IsPlaced-claimed n g r c e r' c' (w.placed r' c' hr' hc');
      shared = λ a b a' b' k k' ha hb ha' hb' s. rw (
        edges a b k ha hb,
        edges a' b' k' ha' hb',
        w.shared a b a' b' k k' ha hb ha' hb' s,
        same_line_trans (line_of r c e) (line_of a b k) (line_of a' b' k') s,
      );
    }

-- What a claim of one line of a board of size `n` returns: a board on which that line is claimed,
-- seen from either box, every other line is as it was, and so are the owners.
pub record Claims (n : ℕ) (g : Grid) (line : Line) (res : Result Grid) : Type 0 where
  pub out : Grid
  pub returns : res ≡ ok out
  pub board : IsBoard n out
  pub edges :
      (r c : ℕ) (e : ClaimEdgeName)
      → r < n
      → c < n
      → edge_at out r c e ≡ (edge_at g r c e || same_line line (line_of r c e))
  pub owners : (r c : ℕ) → owner_at out r c ≡ owner_at g r c

-- On a board, and at a box of it, `applyClaimEdge` does not throw and claims the line that the
-- edge's name denotes: exactly the edges that lie on this line become true, in both boxes that
-- share it, no owner changes, and the result is a board again.
pub apply_claim_edge-Claims :
    (n : ℕ) (g : Grid) (r c : ℕ) (edge : String) {e : ClaimEdgeName}
    → IsBoard n g
    → r < n
    → c < n
    → edge_label edge ≡ some e
    → Claims n g (line_of r c e) (apply_claim_edge g n (pos r) (pos c) edge)
unfolding apply_claim_edge
apply_claim_edge-Claims n g r c edge {e} w hr hc l = record {
  out = claimed n g r c e;
  returns = rw (clone_grid_id g, l) (claim_sides_lem n g w r c hr hc e);
  board = claimed-IsBoard n g r c e w hr hc;
  edges = edges_of_two n g w r c hr hc e;
  owners = owner_at-claimed n g r c e;
}

-- Two claims on a board, made in either order, leave the same edges and the same owners.
pub claim_comm :
    (n : ℕ) (g : Grid) (r c : ℕ) (edge : String) (r' c' : ℕ) (edge' : String) {e e' : ClaimEdgeName}
    → IsBoard n g
    → r < n
    → c < n
    → r' < n
    → c' < n
    → edge_label edge ≡ some e
    → edge_label edge' ≡ some e'
    → (one : Grid) × (two : Grid) × ((apply_claim_edge g n (pos r) (pos c) edge >>= λ h.
          apply_claim_edge h n (pos r') (pos c') edge')
        ≡ ok one)
      × ((apply_claim_edge g n (pos r') (pos c') edge' >>= λ h.
            apply_claim_edge h n (pos r) (pos c) edge)
          ≡ ok two)
      × ((a b : ℕ) (k : ClaimEdgeName) → a < n → b < n → edge_at one a b k ≡ edge_at two a b k)
      × ((a b : ℕ) → owner_at one a b ≡ owner_at two a b)
claim_comm n g r c edge r' c' edge' w hr hc hr' hc' l l' =
    let p = apply_claim_edge-Claims n g r c edge w hr hc l in
    let q = apply_claim_edge-Claims n g r' c' edge' w hr' hc' l' in
    let pq = apply_claim_edge-Claims n p.out r' c' edge' p.board hr' hc' l' in
    let qp = apply_claim_edge-Claims n q.out r c edge q.board hr hc l in
    (
      pq.out,
      qp.out,
      rw p.returns pq.returns,
      rw q.returns qp.returns,
      λ a b k ha hb. ground (
        arith,
        p.edges a b k ha hb,
        q.edges a b k ha hb,
        pq.edges a b k ha hb,
        qp.edges a b k ha hb,
      ),
      λ a b. pq.owners a b ∙ p.owners a b ∙ sym (qp.owners a b ∙ q.owners a b),
    )
