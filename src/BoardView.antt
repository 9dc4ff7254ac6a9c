-- ===== src/BoardView.antt =====
-- The zoom and the pan of the board, web/src/components/Grid.tsx. JavaScript's numbers are the parameter
-- `Numbers`, NaN among them, with the laws that the code relies on. A state of React and the ref beside it
-- are one field: each write sets both.
pub mod Inside
mod Tests
use package.dot_and_boxes.Prelude.{
  ℕ, ◌+◌, ◌*◌, ◌≤◌, ◌<◌, ◌≡◌, Bool, true, false, ◌⊎◌, Option, none, some, List, [], ◌∷◌,
  if◌then◌else◌, ltb, ◌==◌, max,
}

pub record Numbers : Type 1 where
  pub Number : Type 0
  pub of_ℕ : ℕ → Number
  pub plus : Number → Number → Number
  pub minus : Number → Number → Number
  pub times : Number → Number → Number
  pub over : Number → Number → Number
  pub le : Number → Number → Bool
  -- `Math.min` and `Math.max`
  pub min_of : Number → Number → Number
  pub max_of : Number → Number → Number

-- From here on a double is no longer exact for each integer.
abbrev pub exact_bound : ℕ
exact_bound = 9007199254740992

-- Of the doubles: an order that NaN is not in, not even with itself; `Math.min` and `Math.max` are NaN
-- where one of their arguments is; and what holds of the roundings of the arithmetic that the code
-- does with exact integers and a scale from 1 on.
pub record Laws (N : Numbers) : Type 0 where
  pub le_trans : (a b c : N.Number) → N.le a b ≡ true → N.le b c ≡ true → N.le a c ≡ true
  pub le_of_ℕ : (m n : ℕ) → m ≤ n → N.le (N.of_ℕ m) (N.of_ℕ n) ≡ true
  pub max_low :
      (a b : N.Number) → N.le (N.max_of a b) (N.max_of a b) ≡ true → N.le b (N.max_of a b) ≡ true
  pub max_real :
      (a b : N.Number)
      → N.le a a ≡ true
      → N.le b b ≡ true
      → N.le (N.max_of a b) (N.max_of a b) ≡ true
  pub min_real : (a b : N.Number) → N.le (N.min_of a b) (N.min_of a b) ≡ true → N.le a a ≡ true
  pub min_high :
      (a b : N.Number) → N.le (N.min_of a b) (N.min_of a b) ≡ true → N.le (N.min_of a b) b ≡ true
  pub le_min : (x a b : N.Number) → N.le x a ≡ true → N.le x b ≡ true → N.le x (N.min_of a b) ≡ true
  pub real : (x a : N.Number) → N.le x a ≡ true → N.le a a ≡ true
  -- a quotient by a number from 1 on is no larger than what is divided
  pub over_le :
      (n : ℕ) (s : N.Number)
      → n ≤ exact_bound
      → N.le (N.of_ℕ 1) s ≡ true
      → N.le (N.over (N.of_ℕ n) s) (N.of_ℕ n) ≡ true
  pub one_le_over :
      (m n : ℕ)
      → m ≤ n
      → 0 < m
      → n ≤ exact_bound
      → N.le (N.of_ℕ 1) (N.over (N.of_ℕ n) (N.of_ℕ m)) ≡ true
  -- a finite number from 1 on times a ratio of naturals is not NaN
  pub times_real :
      (k m : ℕ) (s : N.Number)
      → m ≤ exact_bound
      → N.le (N.of_ℕ 1) s ≡ true
      → N.le s (N.of_ℕ m) ≡ true
      → let r = N.times s (N.over (N.of_ℕ k) (N.of_ℕ 100)) in N.le r r ≡ true
  -- `-5 + n - v` is no less than `-5` where `v` is at most `n`
  pub room :
      (n : ℕ) (v : N.Number)
      → n ≤ exact_bound
      → N.le v (N.of_ℕ n) ≡ true
      → let origin = N.minus (N.of_ℕ 0) (N.of_ℕ 5) in
        N.le origin (N.minus (N.plus origin (N.of_ℕ n)) v) ≡ true

module _ (N : Numbers) where
  -- The origin of the board, `baseX` and `baseY`, which is `-PAD`.
  abbrev pub origin : N.Number
  origin = N.minus (N.of_ℕ 0) (N.of_ℕ 5)

  -- `fullW` and `fullH` of `dimensions`
  abbrev pub full_size : ℕ → ℕ
  full_size board_size = 70 * board_size + 2 * 5

  abbrev pub full : ℕ → N.Number
  full board_size = N.of_ℕ (full_size board_size)

  unfoldable pub initial_scale : ℕ → N.Number
  initial_scale board_size =
      if ltb 10 board_size then N.over (N.of_ℕ board_size) (N.of_ℕ 10) else N.of_ℕ 1

  -- `maxScale`
  abbrev pub max_scale : ℕ → N.Number
  max_scale board_size = N.of_ℕ (max 1 board_size)

  pub record Point : Type 0 where
    pub x : N.Number
    pub y : N.Number

  -- One coordinate of `clampView`, for a view of the size `size`.
  abbrev pub clamp_one : ℕ → N.Number → N.Number → N.Number
  clamp_one board_size size v =
      N.min_of (N.max_of v origin) (N.minus (N.plus origin (full board_size)) size)

  unfoldable pub clamp_view : ℕ → N.Number → Point → Point
  clamp_view board_size size v = record {
    x = clamp_one board_size size v.x;
    y = clamp_one board_size size v.y;
  }

  -- The size of the view, `fullW / s`.
  abbrev pub view_size : ℕ → N.Number → N.Number
  view_size board_size s = N.over (full board_size) s

  unfoldable pub make_initial_view : ℕ → Point
  unfolding initial_scale clamp_view
  make_initial_view board_size =
      let size = view_size board_size (initial_scale board_size) in
      let v = N.plus origin (N.over (N.minus (full board_size) size) (N.of_ℕ 2)) in
      clamp_view board_size size (record { x = v; y = v })

  pub record Pan : Type 0 where
    pub pointer_id : ℕ
    pub last_x : N.Number
    pub last_y : N.Number

  -- The rectangle of the canvas in the window.
  pub record Rect : Type 0 where
    pub left : N.Number
    pub top : N.Number
    pub width : N.Number
    pub height : N.Number

  pub record ViewState : Type 0 where
    pub scale : N.Number
    pub view_min : Point
    pub pan : Option Pan
    -- whether the canvas is there
    pub canvas : Bool

  unfoldable pub initial_view : ℕ → ViewState
  unfolding initial_scale make_initial_view
  initial_view board_size = record {
    scale = initial_scale board_size;
    view_min = make_initial_view board_size;
    pan = none;
    canvas = false;
  }

  -- `resetView`, and the effect on a new game.
  unfoldable pub reset_view : ℕ → ViewState → ViewState
  unfolding initial_scale make_initial_view
  reset_view board_size v = record v {
    scale = initial_scale board_size;
    view_min = make_initial_view board_size;
  }

  -- The point of the board under the fraction `t` of the view stays where it is.
  abbrev pub zoom_one : N.Number → N.Number → N.Number → N.Number → N.Number
  zoom_one v t size new_size = N.minus (N.plus v (N.times t size)) (N.times t new_size)

  -- `s` of `applyZoomAtClientPoint`
  abbrev pub clamp_scale : ℕ → N.Number → N.Number
  clamp_scale board_size next_scale =
      N.min_of (N.max_of next_scale (N.of_ℕ 1)) (max_scale board_size)

  abbrev pub zoom_view : ℕ → Rect → N.Number → N.Number → N.Number → ViewState → ViewState
  zoom_view board_size rect client_x client_y s v =
      let size = view_size board_size v.scale in
      let new_size = view_size board_size s in
      let t_x = N.over (N.minus client_x rect.left) rect.width in
      let t_y = N.over (N.minus client_y rect.top) rect.height in
      record v {
        scale = s;
        view_min = clamp_view board_size new_size (record {
          x = zoom_one v.view_min.x t_x size new_size;
          y = zoom_one v.view_min.y t_y size new_size;
        });
      }

  unfoldable pub apply_zoom_at_client_point :
      ℕ → Rect → N.Number → N.Number → N.Number → ViewState → ViewState
  unfolding clamp_view
  apply_zoom_at_client_point board_size rect client_x client_y next_scale v =
      if v.canvas
      then zoom_view board_size rect client_x client_y (clamp_scale board_size next_scale) v
      else v

  -- A factor in hundredths.
  abbrev pub by_hundredths : ℕ → N.Number → N.Number
  by_hundredths k s = N.times s (N.over (N.of_ℕ k) (N.of_ℕ 100))

  -- `onWheel`, with whether `deltaY` is positive.
  unfoldable pub on_wheel : ℕ → Rect → N.Number → N.Number → Bool → ViewState → ViewState
  unfolding apply_zoom_at_client_point
  on_wheel board_size rect client_x client_y down v =
      apply_zoom_at_client_point board_size rect client_x client_y
        (by_hundredths (if down then 92 else 108) v.scale) v

  -- `zoomBy`, by so many hundredths, at the middle of the canvas.
  unfoldable pub zoom_by : ℕ → Rect → ℕ → ViewState → ViewState
  unfolding apply_zoom_at_client_point
  zoom_by board_size rect k v =
      apply_zoom_at_client_point board_size rect (N.plus rect.left (N.over rect.width (N.of_ℕ 2)))
        (N.plus rect.top (N.over rect.height (N.of_ℕ 2))) (by_hundredths k v.scale) v

  -- `onPanPointerDown`; only the first button, 0, starts a pan.
  unfoldable pub on_pan_pointer_down : ℕ → ℕ → N.Number → N.Number → ViewState → ViewState
  on_pan_pointer_down button pointer_id client_x client_y v =
      if button == 0
      then record v {
        pan = some (record { pointer_id = pointer_id; last_x = client_x; last_y = client_y });
      }
      else v

  -- `prev + (-d / length) * size`
  abbrev pub pan_one : N.Number → N.Number → N.Number → N.Number → N.Number
  pan_one v d length size = N.plus v (N.times (N.over (N.minus (N.of_ℕ 0) d) length) size)

  -- `onMove`, where the pan is under way and of this pointer.
  abbrev pub move_pan : ℕ → Rect → N.Number → N.Number → Pan → ViewState → ViewState
  move_pan board_size rect client_x client_y pan v =
      let size = view_size board_size v.scale in
      record v {
        pan = some (record pan { last_x = client_x; last_y = client_y });
        view_min = clamp_view board_size size (record {
          x = pan_one v.view_min.x (N.minus client_x pan.last_x) rect.width size;
          y = pan_one v.view_min.y (N.minus client_y pan.last_y) rect.height size;
        });
      }

  unfoldable pub on_move : ℕ → Rect → ℕ → N.Number → N.Number → ViewState → ViewState
  unfolding clamp_view
  on_move board_size rect pointer_id client_x client_y v = elim v.pan [
    | none ↦ v
    | some pan ↦
        if pan.pointer_id == pointer_id
        then if v.canvas then move_pan board_size rect client_x client_y pan v else v
        else v
  ]

  -- `onEnd`
  unfoldable pub on_end : ℕ → ViewState → ViewState
  on_end pointer_id v = elim v.pan [
    | none ↦ v
    | some pan ↦ if pan.pointer_id == pointer_id then record v { pan = none } else v
  ]

  -- The camera of a screen of this size: its scale and its position.
  pub record Camera : Type 0 where
    pub zoom : Point
    pub position : Point

  unfoldable pub camera_of : ℕ → N.Number → N.Number → ViewState → Camera
  camera_of board_size width height v =
      let size = view_size board_size v.scale in
      let zoom_x = N.over width size in
      let zoom_y = N.over height size in
      record {
        zoom = record { x = zoom_x; y = zoom_y };
        position = record {
          x = N.times (N.minus (N.of_ℕ 0) v.view_min.x) zoom_x;
          y = N.times (N.minus (N.of_ℕ 0) v.view_min.y) zoom_y;
        };
      }

  pub data ViewEvent : Type 0 where
    canvas_comes canvas_goes resets : ViewEvent
    wheels : Rect → N.Number → N.Number → Bool → ViewEvent
    zooms : Rect → ℕ → ViewEvent
    downs : ℕ → ℕ → N.Number → N.Number → ViewEvent
    moves : Rect → ℕ → N.Number → N.Number → ViewEvent
    ends : ℕ → ViewEvent

  unfoldable pub handle_view : ℕ → ViewEvent → ViewState → ViewState
  unfolding reset_view on_wheel zoom_by on_pan_pointer_down on_move on_end
  handle_view n canvas_comes v = record v { canvas = true }
  handle_view n canvas_goes v = record v { canvas = false }
  handle_view n resets v = reset_view n v
  handle_view n (wheels rect client_x client_y down) v = on_wheel n rect client_x client_y down v
  handle_view n (zooms rect k) v = zoom_by n rect k v
  handle_view n (downs button pointer_id client_x client_y) v =
      on_pan_pointer_down button pointer_id client_x client_y v
  handle_view n (moves rect pointer_id client_x client_y) v =
      on_move n rect pointer_id client_x client_y v
  handle_view n (ends pointer_id) v = on_end pointer_id v

  unfoldable pub run_view_events : ℕ → List ViewEvent → ViewState → ViewState
  unfolding handle_view
  run_view_events n [] v = v
  run_view_events n (e ∷ es) v = run_view_events n es (handle_view n e v)
