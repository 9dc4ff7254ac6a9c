-- ===== src/Canvas/Clicks.antt =====
-- The pointer on the edges that web/src/pixi/renderBoard.ts draws, against `isEdgeFree`, the guard of
-- the move that a tap makes.
use dot_and_boxes.Prelude.{
  ℕ, zero, suc, ◌<◌, ◌≡◌, refl, ap, sym, ◌∙◌, Bool, true, false, not, none, some, List, [], ◌∷◌,
  ◌++◌, arith, All, length, get_elem?, flat, String, Bool-cases, inl, inr, ◌⊎◌,
}
use dot_and_boxes.Prelude.Int.{pos}
use mathlib.Core.Path.{subst}
use dot_and_boxes.Board.{
  Box, Grid, ok, ClaimEdgeName, top_edge, left_edge, right_edge, bottom_edge, get_edge, cell,
  is_edge_free, edge_label,
}
use dot_and_boxes.Board.Lines.{IsPlaced, IsBoard}
use dot_and_boxes.Board.Free.{is_edge_free_inside}
use dot_and_boxes.Canvas.{Params, pixel_edges, pixel_edge, label}
use dot_and_boxes.Canvas.Edges.{
  PixelEdge, Pointer, pointer_tap, pointer_over, pointer_out, on_pointer, is_claimed,
}

module _ {A : Type 0} (P : A → Type 0) where
  All-append : (xs ys : List A) → All P xs → All P ys → All P (xs ++ ys)
  All-append [] ys h k = k
  All-append (x ∷ xs) ys h k = (h.0, All-append xs ys h.1 k)

  All-of_get_elem? : (xs : List A) → ((i : ℕ) (x : A) → get_elem? xs i ≡ some x → P x) → All P xs
  All-of_get_elem? [] h = tt
  All-of_get_elem? (x ∷ xs) h = (h 0 x refl, All-of_get_elem? xs λ i. h (suc i))

  All-flat :
      (xss : List (List A))
      → ((r c : ℕ) (row : List A) (x : A)
          → get_elem? xss r ≡ some row
          → get_elem? row c ≡ some x
          → P x)
      → All P (flat xss)
  All-flat [] h = tt
  All-flat (xs ∷ xss) h =
      All-append xs (flat xss) (All-of_get_elem? xs λ c x e. h 0 c xs x refl e)
        (All-flat xss λ r. h (suc r))

length_of_get_elem? :
    {A : Type 0} (xs : List A) (i : ℕ) {x : A} → get_elem? xs i ≡ some x → i < length xs
length_of_get_elem? [] i h = cc
length_of_get_elem? (y ∷ ys) zero h = omega arith
length_of_get_elem? (y ∷ ys) (suc i) {x} h =
    let rest = length_of_get_elem? ys i {x = x} h in omega (arith, rest)

pub All-get_elem? :
    {A : Type 0} (P : A → Type 0) (xs : List A) (i : ℕ) {x : A}
    → All P xs
    → get_elem? xs i ≡ some x
    → P x
All-get_elem? P [] i h e = cc
All-get_elem? P (y ∷ ys) zero {x} h e = subst P {x = y} {y = x} some_eq h.0
  where
    some_eq : y ≡ x
    some_eq = cc
All-get_elem? P (y ∷ ys) (suc i) {x} h e = All-get_elem? P ys i {x = x} h.1 e

-- Whether a tap on the edge makes a move.
abbrev pub takes_tap : PixelEdge → Bool
takes_tap e = elim (on_pointer pointer_tap e).1 [ none ↦ false | some _ ↦ true ]

edge_label-label : (e : ClaimEdgeName) → edge_label (label e) ≡ some e
edge_label-label top_edge = refl
edge_label-label left_edge = refl
edge_label-label right_edge = refl
edge_label-label bottom_edge = refl

takes_tap-pixel_edge :
    (p : Params) (b : Box) (e : ClaimEdgeName) → takes_tap (pixel_edge p b e) ≡ not (get_edge e b)
unfolding on_pointer
takes_tap-pixel_edge p b e = ground arith

-- What a tap on the edge is good for: `isEdgeFree` says the same of its move.
abbrev pub IsHonest : ℕ → Grid → PixelEdge → Type 0
IsHonest n g e = is_edge_free g n e.click.row e.click.col e.click.edge ≡ ok (takes_tap e)

same_place :
    (g : Grid) (n : ℕ) {x y r c : ℕ}
    → x ≡ r
    → y ≡ c
    → (edge : String)
    → is_edge_free g n (pos x) (pos y) edge ≡ is_edge_free g n (pos r) (pos c) edge
same_place g n e f edge = rw (e, f)

module _ (n : ℕ) (g : Grid) (p : Params) (w : IsBoard n g) where
  free_edge :
      (r c : ℕ) (b : Box) (e : ClaimEdgeName)
      → r < n
      → c < n
      → cell g r c ≡ some b
      → is_edge_free g n (pos b.row) (pos b.col) (label e) ≡ ok (not (get_edge e b))
  free_edge r c b e hr hc here =
      let at : IsPlaced r c (some b) = rw here at (w.placed r c hr hc) in
      let free = is_edge_free_inside n g r c (label e) w hr hc in
      same_place g n at.0 at.1 (label e) ∙ free ∙ rw (edge_label-label e, here)

  pixel_edge-IsHonest :
      (r c : ℕ) (b : Box) (e : ClaimEdgeName)
      → r < n
      → c < n
      → cell g r c ≡ some b
      → IsHonest n g (pixel_edge p b e)
  pixel_edge-IsHonest r c b e hr hc here =
      free_edge r c b e hr hc here ∙ ap (λ (x : Bool). ok x) (sym (takes_tap-pixel_edge p b e))

  pixel_edges-IsHonest :
      (bs : List Box)
      → All (λ b. (e : ClaimEdgeName) → IsHonest n g (pixel_edge p b e)) bs
      → All (IsHonest n g) (pixel_edges p bs)
  unfolding pixel_edges
  pixel_edges-IsHonest [] h = tt
  pixel_edges-IsHonest (b ∷ bs) (h, hs) =
      (h top_edge, (h left_edge, (h right_edge, (h bottom_edge, pixel_edges-IsHonest bs hs))))

cell_of_rows :
    (g : Grid) (r c : ℕ) {row : List Box} {b : Box}
    → get_elem? g r ≡ some row
    → get_elem? row c ≡ some b
    → cell g r c ≡ some b
cell_of_rows g r c e f = rw (e, cell) f

-- On a board whose rows have `n` boxes each, of the edges that `rebuildBoardContent` draws for the
-- boxes of the grid exactly those take a tap whose move `isEdgeFree` calls free, and for none of
-- their moves does it throw.
pub drawn-IsHonest :
    (n : ℕ) (g : Grid) (p : Params)
    → IsBoard n g
    → All (λ (row : List Box). length row ≡ n) g
    → All (IsHonest n g) (pixel_edges p (flat g))
drawn-IsHonest n g p w widths = pixel_edges-IsHonest n g p w (flat g) (
    All-flat (λ b. (e : ClaimEdgeName) → IsHonest n g (pixel_edge p b e)) g
      λ r c row b er ec e.
        let hr = length_of_get_elem? g r {x = row} er in
        let hc = length_of_get_elem? row c {x = b} ec in
        let wide = All-get_elem? (λ (row : List Box). length row ≡ n) g r {x = row} widths er in
        pixel_edge-IsHonest n g p w r c b e (omega (arith, hr, w.rows)) (omega (arith, hc, wide))
          (cell_of_rows g r c er ec))

abbrev pub run_pointer : List Pointer → PixelEdge → PixelEdge
run_pointer [] e = e
run_pointer (q ∷ qs) e = run_pointer qs (on_pointer q e).0

set_hover : Bool → PixelEdge → PixelEdge
set_hover h e = record e { hover = h }

-- What the pointer does to an edge is to set `hover`.
hover_only : (qs : List Pointer) (e : PixelEdge) → (h : Bool) × (run_pointer qs e ≡ set_hover h e)
unfolding on_pointer set_hover
hover_only [] e = (e.hover, refl)
hover_only (q ∷ qs) e =
    let (h, same) = hover_only qs (on_pointer q e).0 in
    (h, same ∙ forget q (Bool-cases (is_claimed e)))
  where
    forget :
        {h : Bool} (q : Pointer)
        → (is_claimed e ≡ true) ⊎ (is_claimed e ≡ false)
        → set_hover h (on_pointer q e).0 ≡ set_hover h e
    forget q (inl y) = rw y
    forget pointer_tap (inr y) = rw y
    forget pointer_over (inr y) = rw y
    forget pointer_out (inr y) = rw y

claimed_stays : (qs : List Pointer) (e : PixelEdge) → is_claimed e ≡ true → run_pointer qs e ≡ e
unfolding on_pointer
claimed_stays [] e h = refl
claimed_stays (q ∷ qs) e h = rw h (claimed_stays qs e h)

set_hover_back : (e : PixelEdge) → e.hover ≡ false → set_hover false e ≡ e
unfolding set_hover
set_hover_back e f = rw (← f)

out_lem :
    (qs : List Pointer) (e : PixelEdge)
    → e.hover ≡ false
    → (on_pointer pointer_out (run_pointer qs e)).0 ≡ e
unfolding on_pointer set_hover
out_lem qs e f = elim (Bool-cases (is_claimed e)) [
  | inl y ↦ rw (claimed_stays qs e y, y)
  | inr y ↦ let (h, same) = hover_only qs e in rw (same, y) (set_hover_back e f)
]

tap_same :
    (h : Bool) (e : PixelEdge)
    → (on_pointer pointer_tap (set_hover h e)).1 ≡ (on_pointer pointer_tap e).1
unfolding on_pointer set_hover
tap_same h e = elim (Bool-cases (is_claimed e)) [ inl y ↦ rw y | inr y ↦ rw y ]

-- Whatever the pointer does to an edge that is not hovered at first, taps, overs and outs in any
-- order: a tap then makes the move that it made at first, or none if it made none, and once the
-- pointer is out again the edge is as it was at first.
pub run_pointer_lem :
    (qs : List Pointer) (e : PixelEdge)
    → e.hover ≡ false
    → ((on_pointer pointer_tap (run_pointer qs e)).1 ≡ (on_pointer pointer_tap e).1)
      × ((on_pointer pointer_out (run_pointer qs e)).0 ≡ e)
run_pointer_lem qs e f = let (h, same) = hover_only qs e in (rw same (tap_same h e), out_lem qs e f)
