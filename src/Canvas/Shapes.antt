-- ===== src/Canvas/Shapes.antt =====
-- What web/src/pixi/renderBoard.ts draws behind and over the edges, as lists of drawing commands.
-- A length is an integer number of hundredths of a pixel, the opacity `alpha` a number of
-- hundredths. The loops over rows and columns run a known number of rounds; `stripes` is the loop
-- of the wood grain.
use dot_and_boxes.Prelude.{
  ℕ, zero, suc, ◌+◌, ◌*◌, ◌≤◌, ◌<◌, ◌≡◌, ap, ◌∙◌, true, false, none, some, List, [], ◌∷◌, ◌++◌,
  arith, if◌then◌else◌, map, min, Bool-cases, inl, inr, get_elem?,
}
use dot_and_boxes.Prelude.Int.{ℤ, pos, pos_part, ◌+ℤ◌, ◌-ℤ◌, ltb_ℤ}
use dot_and_boxes.Canvas.Colors.{Color, darken_fill}

pub data Paint : Type 0 where
  fill : Color → ℕ → Paint
  stroke : ℕ → Color → ℕ → Paint

pub data Command : Type 0 where
  rect : ℤ → ℤ → ℤ → ℤ → Paint → Command
  line : ℤ → ℤ → ℤ → ℤ → Paint → Command
  circle : ℤ → ℤ → ℕ → Paint → Command

abbrev pub hex : ℕ → Color
hex n = some (pos n)

-- `for (let yy = from; yy < limit; yy += step)`: the values of `yy`.
unfoldable pub stripes : ℕ → ℤ → ℤ → ℕ → List ℤ
stripes zero from limit step = []
stripes (suc fuel) from limit step =
    let rest = stripes fuel (from +ℤ pos step) limit step in
    if ltb_ℤ from limit then from ∷ rest else []

-- How many rounds there can be, each going a unit at least.
abbrev pub rounds : ℤ → ℤ → ℕ
rounds from limit = pos_part (limit -ℤ from)

unfoldable pub grain_rows : ℤ → ℤ → ℕ → List ℤ
unfolding stripes
grain_rows from limit step = stripes (rounds from limit) from limit step

abbrev pub px : ℕ → ℤ
px n = pos (n * 100)

-- `addWoodGrainOverlay`
unfoldable pub add_wood_grain_overlay : ℤ → ℤ → ℤ → ℤ → Color → List Command
unfolding grain_rows darken_fill
add_wood_grain_overlay x y w h base =
    let grain = hex (darken_fill base 14) in
    map (λ yy. rect (x +ℤ px 2) yy (w -ℤ px 4) (px 2) (fill grain 40))
      (grain_rows (y +ℤ px 3) (y +ℤ h -ℤ px 2) 500)

abbrev quadrant : ℤ → ℤ → ℤ → ℤ → ℕ → List Command
quadrant x y w h color =
    rect x y w h (fill (hex color) 100) ∷ add_wood_grain_overlay x y w h (hex color)

-- `addTabletopQuadrantBackground`, for a width and a height in pixels.
unfoldable pub add_tabletop_quadrant_background : ℤ → ℤ → ℕ → ℕ → List Command
unfolding add_wood_grain_overlay
add_tabletop_quadrant_background base_x base_y full_w full_h =
    let hw = pos (full_w * 50) in
    let hh = pos (full_h * 50) in
    quadrant base_x base_y hw hh 0xf2c4c4
    ++ quadrant (base_x +ℤ hw) base_y hw hh 0xb8daf5
    ++ quadrant base_x (base_y +ℤ hh) hw hh 0xc4ebd4
    ++ quadrant (base_x +ℤ hw) (base_y +ℤ hh) hw hh 0xf5eab8

-- The numbers from `i` on, `left` many.
abbrev pub from_to : ℕ → ℕ → List ℕ
from_to i zero = []
from_to i (suc left) = i ∷ from_to (suc i) left

abbrev pub lattice_stroke : Paint
lattice_stroke = stroke 125 (hex 0xd4d4d4) 95

-- `addGridLatticeLines`
unfoldable pub add_grid_lattice_lines : ℕ → ℕ → List Command
add_grid_lattice_lines board_dim box_size =
    let span = px (board_dim * box_size) in
    map (λ r. line (pos 0) (px (r * box_size)) span (px (r * box_size)) lattice_stroke)
      (from_to 0 (board_dim + 1))
    ++ map (λ c. line (px (c * box_size)) (pos 0) (px (c * box_size)) span lattice_stroke)
        (from_to 0 (board_dim + 1))

-- One dot: its shadow, its disc and its rim.
abbrev pub dot : ℕ → ℕ → ℕ → List Command
dot box_size r c =
    let cx = px (c * box_size) in
    let cy = px (r * box_size) in
    circle cx cy 525 (fill (hex 0x000000) 12)
    ∷ circle cx cy 450 (fill (hex 0xffffff) 100)
    ∷ circle cx cy 450 (stroke 100 (hex 0xe5e5e5) 85)
    ∷ []

abbrev pub dots_of_row : ℕ → ℕ → List ℕ → List Command
dots_of_row box_size r [] = []
dots_of_row box_size r (c ∷ cs) = dot box_size r c ++ dots_of_row box_size r cs

abbrev pub dots_of_rows : ℕ → List ℕ → List ℕ → List Command
dots_of_rows box_size [] cs = []
dots_of_rows box_size (r ∷ rs) cs = dots_of_row box_size r cs ++ dots_of_rows box_size rs cs

-- `addDotLattice`
unfoldable pub add_dot_lattice : ℕ → ℕ → List Command
add_dot_lattice board_dim box_size =
    dots_of_rows box_size (from_to 0 (board_dim + 1)) (from_to 0 (board_dim + 1))

-- The `+1` of a completed cell: its centre and its font size.
pub record ScoreText : Type 0 where
  pub center_x : ℤ
  pub center_y : ℤ
  pub font_size : ℕ

pub record CompletedCell : Type 0 where
  pub shapes : List Command
  pub score : ScoreText

-- `addCompletedCell`, at a place in whole pixels.
unfoldable pub add_completed_cell : ℕ → ℕ → ℕ → Color → CompletedCell
unfolding grain_rows darken_fill
add_completed_cell x y box_size fill_color =
    let inner = px box_size -ℤ px 6 in
    let x0 = px (x + 3) in
    let y0 = px (y + 3) in
    let grain = hex (darken_fill fill_color 18) in
    record {
      shapes =
          rect x0 y0 inner inner (fill fill_color 100)
          ∷ rect x0 y0 inner inner (stroke 200 (hex 0x3f3f46) 35)
          ∷ map (λ yy. rect (x0 +ℤ px 1) yy (inner -ℤ px 2) (px 2) (fill grain 45))
              (grain_rows (y0 +ℤ px 2) (y0 +ℤ inner -ℤ px 2) 400);
      score = record {
        center_x = pos (x * 100 + box_size * 50);
        center_y = pos (y * 100 + box_size * 50);
        font_size = min 2200 (box_size * 34);
      };
    }

far_row :
    (k : ℕ) (from limit : ℤ) (step : ℕ)
    → ltb_ℤ from limit ≡ false
    → ltb_ℤ (from +ℤ pos (k * step)) limit ≡ false
far_row k from limit step h = far from limit (k * step) h
  where
    far : (from limit : ℤ) (d : ℕ) → ltb_ℤ from limit ≡ false → ltb_ℤ (from +ℤ pos d) limit ≡ false
    far from limit d h = ground arith

add_twice : (x : ℤ) (a b : ℕ) → x +ℤ pos a +ℤ pos b ≡ x +ℤ pos (a + b)
add_twice x a b = ground arith

next_row :
    (k : ℕ) (from : ℤ) (step : ℕ) → from +ℤ pos step +ℤ pos (k * step) ≡ from +ℤ pos (suc k * step)
next_row k from step = add_twice from step (k * step) ∙ ap (λ d. from +ℤ pos d) (omega arith)

nearer :
    (from limit : ℤ) (step : ℕ) {fuel : ℕ}
    → 0 < step
    → rounds from limit ≤ suc fuel
    → ltb_ℤ from limit ≡ true
    → rounds (from +ℤ pos step) limit ≤ fuel
nearer from limit step s h p = ground arith

get_elem?-stripes :
    (fuel k : ℕ) (from limit : ℤ) (step : ℕ)
    → 0 < step
    → rounds from limit ≤ fuel
    → get_elem? (stripes fuel from limit step) k
      ≡ (if ltb_ℤ (from +ℤ pos (k * step)) limit then some (from +ℤ pos (k * step)) else none)
unfolding stripes
get_elem?-stripes zero k from limit step s h = rw (far_row k from limit step (ground arith))
get_elem?-stripes (suc fuel) zero from limit step s h = ground arith
get_elem?-stripes (suc fuel) (suc k) from limit step s h = elim (Bool-cases (ltb_ℤ from limit)) [
  | inr n ↦ rw (n, far_row (suc k) from limit step n)
  | inl p ↦
      rw (p, ← next_row k from step)
        (get_elem?-stripes fuel k (from +ℤ pos step) limit step s (nearer from limit step s h p))
]

-- For a step above zero, the row `k` of the wood grain lies at `from + k * step`, and there is one
-- exactly if this is below the limit: the rounds that the loop is given are enough.
pub grain_rows_lem :
    (k : ℕ) (from limit : ℤ) (step : ℕ)
    → 0 < step
    → get_elem? (grain_rows from limit step) k
      ≡ (if ltb_ℤ (from +ℤ pos (k * step)) limit then some (from +ℤ pos (k * step)) else none)
unfolding grain_rows
grain_rows_lem k from limit step s =
    get_elem?-stripes (rounds from limit) k from limit step s (omega arith)
