-- ===== src/Board/Free.antt =====
-- `isEdgeFree` of web/src/lib/optimisticGameGrid.ts on a board, and after `applyClaimEdge`.
use dot_and_boxes.Prelude.{
  ℕ, ◌<◌, ◌≡◌, refl, sym, ap, ◌∙◌, inl, inr, Bool, true, false, not, ◌&&◌, ◌||◌, none, some, arith,
  if◌then◌else◌, String, ltb, Bool-cases, Option-cases,
}
use dot_and_boxes.Prelude.Int.{ℤ, pos, negsuc, pos_part}
use dot_and_boxes.Board.{
  Grid, Result, ok, ClaimEdgeName, edge_label, cell, is_outside, is_edge_free, apply_claim_edge,
}
use dot_and_boxes.Board.Cells.{ok_inj}
use dot_and_boxes.Board.Lines.{line_of, same_line, edge_at, IsBoard, some_of-IsPlaced}
use dot_and_boxes.Board.Refinement.{apply_claim_edge-Claims}

free_after : (was now : Bool) → ok (not (was || now)) ≡ (if now then ok false else ok (not was))
free_after was now = ground arith

pub is_edge_free_inside :
    (n : ℕ) (g : Grid) (r c : ℕ) (edge : String)
    → IsBoard n g
    → r < n
    → c < n
    → is_edge_free g n (pos r) (pos c) edge
      ≡ ok (elim (edge_label edge) [ none ↦ false | some e ↦ not (edge_at g r c e) ])
unfolding is_edge_free
is_edge_free_inside n g r c edge w hr hc =
    let (b, e) = some_of-IsPlaced r c (cell g r c) (w.placed r c hr hc) in ground (arith, e)

pub is_edge_free_outside :
    (n : ℕ) (g : Grid) (x y : ℤ) (edge : String)
    → is_outside n x y ≡ true
    → is_edge_free g n x y edge ≡ ok false
unfolding is_edge_free
is_edge_free_outside n g x y edge h = rw h

-- An edge of the board's that nobody has claimed.
abbrev pub IsFree : ℕ → Grid → ℤ → ℤ → String → Type 0
IsFree n g x y edge =
    (r : ℕ) × (c : ℕ) × (e : ClaimEdgeName) × (x ≡ pos r)
    × (y ≡ pos c)
    × (r < n)
    × (c < n)
    × (edge_label edge ≡ some e)
    × (edge_at g r c e ≡ false)

-- The call returns, and returns true exactly if `P` holds.
pub record Decides (res : Result Bool) (P : Type 0) : Type 0 where
  pub out : Bool
  pub returns : res ≡ ok out
  pub sound : out ≡ true → P
  pub complete : P → out ≡ true

pos_inj : (a b : ℕ) → pos a ≡ pos b → a ≡ b
pos_inj a b h = ap pos_part h

some_inj : (a b : ClaimEdgeName) → some a ≡ some b → a ≡ b
some_inj a b h = cc

inside_Decides :
    (n : ℕ) (g : Grid) (r c : ℕ) (edge : String)
    → IsBoard n g
    → r < n
    → c < n
    → Decides (is_edge_free g n (pos r) (pos c) edge) (IsFree n g (pos r) (pos c) edge)
inside_Decides n g r c edge w hr hc = elim (Option-cases (edge_label edge)) [
  | inl z ↦ record {
    out = false;
    returns = is_edge_free_inside n g r c edge w hr hc ∙ rw z;
    sound = λ f. cc;
    complete = λ (r', c', e, x, y, hr', hc', l, f). cc;
  }
  | inr (e, l) ↦ record {
    out = not (edge_at g r c e);
    returns = is_edge_free_inside n g r c edge w hr hc ∙ rw l;
    sound = λ f. (r, c, e, refl, refl, hr, hc, l, ground arith);
    complete = λ (r', c', e', x, y, hr', hc', l', f).
        rw (pos_inj r r' x, pos_inj c c' y, some_inj e e' (sym l ∙ l'), f);
  }
]

outside_Decides :
    (n : ℕ) (g : Grid) (x y : ℤ) (edge : String)
    → is_outside n x y ≡ true
    → Decides (is_edge_free g n x y edge) (IsFree n g x y edge)
outside_Decides n g x y edge h = record {
  out = false;
  returns = is_edge_free_outside n g x y edge h;
  sound = λ f. cc;
  complete = λ (r, c, e, x', y', hr, hc, l, f). ground arith;
}

-- For any integers and any text, on a board `isEdgeFree` does not throw, and it returns true
-- exactly if they name an edge of the board's that is not claimed.
pub is_edge_free-Decides :
    (n : ℕ) (g : Grid) (x y : ℤ) (edge : String)
    → IsBoard n g
    → Decides (is_edge_free g n x y edge) (IsFree n g x y edge)
is_edge_free-Decides n g (negsuc x) y edge w = outside_Decides n g (negsuc x) y edge (ground arith)
is_edge_free-Decides n g (pos x) (negsuc y) edge w =
    outside_Decides n g (pos x) (negsuc y) edge (ground arith)
is_edge_free-Decides n g (pos x) (pos y) edge w = elim (Bool-cases (ltb x n && ltb y n)) [
  | inl inside ↦ inside_Decides n g x y edge w (ground arith) (ground arith)
  | inr off ↦ outside_Decides n g (pos x) (pos y) edge (ground arith)
]

-- After `applyClaimEdge` at a box of a board, `isEdgeFree` at any box of it is false for the edges
-- that lie on the claimed line, and what it was before for every other edge.
pub is_edge_free-claim :
    (n : ℕ) (g : Grid) (r c : ℕ) (edge : String) (r' c' : ℕ) (edge' : String) {e e' : ClaimEdgeName}
    {out : Grid}
    → IsBoard n g
    → r < n
    → c < n
    → r' < n
    → c' < n
    → edge_label edge ≡ some e
    → edge_label edge' ≡ some e'
    → apply_claim_edge g n (pos r) (pos c) edge ≡ ok out
    → is_edge_free out n (pos r') (pos c') edge' ≡ (
        if same_line (line_of r c e) (line_of r' c' e')
        then ok false
        else is_edge_free g n (pos r') (pos c') edge')
is_edge_free-claim n g r c edge r' c' edge' {e} {e'} {out} w hr hc hr' hc' l l' run =
    let k = apply_claim_edge-Claims n g r c edge w hr hc l in
    let same : k.out ≡ out = ok_inj (sym k.returns ∙ run) in
    let now = is_edge_free_inside n k.out r' c' edge' k.board hr' hc' in
    rw (← same) (
      now
      ∙ rw (l', k.edges r' c' e' hr' hc', is_edge_free_inside n g r' c' edge' w hr' hc', l')
          (free_after (edge_at g r' c' e') (same_line (line_of r c e) (line_of r' c' e'))))
