-- ===== src/BoardView/Inside.antt =====
-- The view of Grid.tsx over any events: the scale and the rectangle that is shown.
use dot_and_boxes.Prelude.{
  ℕ, ◌≤◌, ◌≡◌, ◌⊎◌, refl, Bool, true, false, inl, inr, Option, none, some, List, [], ◌∷◌,
  Bool-cases, if◌then◌else◌, ltb, arith, max, ltb→lt, ◌==◌,
}
use dot_and_boxes.BoardView.{
  Numbers, Laws, exact_bound, origin, full, full_size, initial_scale, max_scale, Point, clamp_view,
  view_size, make_initial_view, ViewState, Pan, Rect, initial_view, canvas_comes, canvas_goes,
  resets, wheels, zooms, downs, moves, ends, reset_view, clamp_scale, apply_zoom_at_client_point,
  on_wheel, zoom_by, on_pan_pointer_down, on_move, on_end, ViewEvent, handle_view, run_view_events,
}

module _ (N : Numbers) where
  -- A number that is NaN, and one within bounds unless it is.
  abbrev pub is_nan : N.Number → Bool
  is_nan a = if N.le a a then false else true

  pub IsBetween : (low high a : N.Number) → Type 0
  IsBetween low high a = (is_nan a ≡ true) ⊎ ((N.le low a ≡ true) × (N.le a high ≡ true))

  -- The bounds of the scale, which is never NaN, and of a view of it.
  pub record IsInside (n : ℕ) (s : N.Number) (v : Point N) : Type 0 where
    pub scale_low : N.le (N.of_ℕ 1) s ≡ true
    pub scale_high : N.le s (max_scale N n) ≡ true
    pub x_inside :
        IsBetween (origin N) (N.minus (N.plus (origin N) (full N n)) (view_size N n s)) v.x
    pub y_inside :
        IsBetween (origin N) (N.minus (N.plus (origin N) (full N n)) (view_size N n s)) v.y

module _ (N : Numbers) (L : Laws N) where
  -- What is clamped to bounds that are in order is between them, and NaN only where it was.
  clamp_real :
      (v low high : N.Number)
      → N.le low high ≡ true
      → N.le (N.min_of (N.max_of v low) high) (N.min_of (N.max_of v low) high) ≡ true
      → (N.le low (N.min_of (N.max_of v low) high) ≡ true)
        × (N.le (N.min_of (N.max_of v low) high) high ≡ true)
  clamp_real v low high h r =
      (L.le_min low _ high (L.max_low v low (L.min_real _ high r)) h, L.min_high _ high r)

  clamp_lem :
      (v low high : N.Number)
      → N.le low high ≡ true
      → IsBetween N low high (N.min_of (N.max_of v low) high)
  unfolding IsBetween
  clamp_lem v low high h =
      let c = N.min_of (N.max_of v low) high in
      elim (Bool-cases (N.le c c)) [
        | inl y ↦ inr (clamp_real v low high h y)
        | inr k ↦ inl (rw k refl)
      ]

  clamp_scale_lem :
      (v low high : N.Number)
      → N.le v v ≡ true
      → N.le low low ≡ true
      → N.le low high ≡ true
      → (N.le low (N.min_of (N.max_of v low) high) ≡ true)
        × (N.le (N.min_of (N.max_of v low) high) high ≡ true)
  clamp_scale_lem v low high r l h =
      clamp_real v low high h
        (L.real low _ (L.le_min low _ high (L.max_low v low (L.max_real v low r l)) h))

  module _ (n : ℕ) (small : full_size N n ≤ exact_bound) where
    clamp_view-IsInside :
        (s : N.Number) (v : Point N)
        → N.le (N.of_ℕ 1) s ≡ true
        → N.le s (max_scale N n) ≡ true
        → IsInside N n s (clamp_view N n (view_size N n s) v)
    unfolding clamp_view
    clamp_view-IsInside s v low high =
        let size = view_size N n s in
        let room = L.room (full_size N n) size small (L.over_le (full_size N n) s small low) in
        record {
          scale_low = low;
          scale_high = high;
          x_inside = clamp_lem v.x _ _ room;
          y_inside = clamp_lem v.y _ _ room;
        }

    initial_scale-bounds :
        (N.le (N.of_ℕ 1) (initial_scale N n) ≡ true)
        × (N.le (initial_scale N n) (max_scale N n) ≡ true)
    unfolding initial_scale
    initial_scale-bounds = elim (Bool-cases (ltb 10 n)) [
      | inl y ↦
          let h = ltb→lt 10 n y in
          let low = L.one_le_over 10 n (omega arith) (omega arith) (omega arith) in
          let high =
            L.le_trans _ _ _ (L.over_le n (N.of_ℕ 10) (omega arith) (L.le_of_ℕ 1 10 (omega arith)))
              (L.le_of_ℕ n (max 1 n) (omega arith)) in
          (rw y low, rw y high)
      | inr k ↦ (rw k (L.le_of_ℕ 1 1 (omega arith)), rw k (L.le_of_ℕ 1 (max 1 n) (omega arith)))
    ]

    initial-IsInside : IsInside N n (initial_scale N n) (make_initial_view N n)
    unfolding make_initial_view
    initial-IsInside = clamp_view-IsInside _ _ initial_scale-bounds.0 initial_scale-bounds.1

    -- What is said of a whole view.
    abbrev InView : ViewState N → Type 0
    InView v = IsInside N n v.scale v.view_min

    factor-real :
        (k : ℕ) (v : ViewState N)
        → InView v
        → let r = N.times v.scale (N.over (N.of_ℕ k) (N.of_ℕ 100)) in N.le r r ≡ true
    factor-real k v i = L.times_real k (max 1 n) v.scale (omega arith) i.scale_low i.scale_high

    zoom-InView :
        (rect : Rect N) (client_x client_y next : N.Number) (v : ViewState N)
        → N.le next next ≡ true
        → InView v
        → InView (apply_zoom_at_client_point N n rect client_x client_y next v)
    unfolding apply_zoom_at_client_point
    zoom-InView rect client_x client_y next v r i = elim (Bool-cases v.canvas) [
      | inr k ↦ rw k i
      | inl y ↦
          let (low, high) =
            clamp_scale_lem next (N.of_ℕ 1) (max_scale N n) r (L.le_of_ℕ 1 1 (omega arith))
              (L.le_of_ℕ 1 (max 1 n) (omega arith)) in
          rw y (clamp_view-IsInside (clamp_scale N n next) _ low high)
    ]

    down-InView :
        (button pointer_id : ℕ) (client_x client_y : N.Number) (v : ViewState N)
        → InView v
        → InView (on_pan_pointer_down N button pointer_id client_x client_y v)
    unfolding on_pan_pointer_down
    down-InView button pointer_id client_x client_y v i = elim (Bool-cases (button == 0)) [
      | inl y ↦ rw y i
      | inr k ↦ rw k i
    ]

    move-InView :
        (rect : Rect N) (pointer_id : ℕ) (client_x client_y : N.Number) (v : ViewState N)
        → InView v
        → InView (on_move N n rect pointer_id client_x client_y v)
    unfolding on_move
    move-InView rect pointer_id client_x client_y v i = by_pan v.pan refl
      where
        by_pan :
            (o : Option (Pan N))
            → v.pan ≡ o
            → InView (on_move N n rect pointer_id client_x client_y v)
        by_pan none e = rw e i
        by_pan (some pan) e = elim (Bool-cases (pan.pointer_id == pointer_id)) [
          | inr k ↦ rw (e, k) i
          | inl y ↦ elim (Bool-cases v.canvas) [
            | inr k ↦ rw (e, y, k) i
            | inl c ↦ rw (e, y, c) (clamp_view-IsInside v.scale _ i.scale_low i.scale_high)
          ]
        ]

    end-InView : (pointer_id : ℕ) (v : ViewState N) → InView v → InView (on_end N pointer_id v)
    unfolding on_end
    end-InView pointer_id v i = by_pan v.pan refl
      where
        by_pan : (o : Option (Pan N)) → v.pan ≡ o → InView (on_end N pointer_id v)
        by_pan none e = rw e i
        by_pan (some pan) e = elim (Bool-cases (pan.pointer_id == pointer_id)) [
          | inl y ↦ rw (e, y) i
          | inr k ↦ rw (e, k) i
        ]

    handle_view-InView :
        (e : ViewEvent N) (v : ViewState N) → InView v → InView (handle_view N n e v)
    unfolding handle_view reset_view on_wheel zoom_by
    handle_view-InView canvas_comes v i = i
    handle_view-InView canvas_goes v i = i
    handle_view-InView resets v i = initial-IsInside
    handle_view-InView (wheels rect client_x client_y down) v i =
        zoom-InView rect client_x client_y _ v (factor-real (if down then 92 else 108) v i) i
    handle_view-InView (zooms rect k) v i = zoom-InView rect _ _ _ v (factor-real k v i) i
    handle_view-InView (downs button pointer_id client_x client_y) v i =
        down-InView button pointer_id client_x client_y v i
    handle_view-InView (moves rect pointer_id client_x client_y) v i =
        move-InView rect pointer_id client_x client_y v i
    handle_view-InView (ends pointer_id) v i = end-InView pointer_id v i

    run-InView :
        (es : List (ViewEvent N)) (v : ViewState N) → InView v → InView (run_view_events N n es v)
    unfolding run_view_events
    run-InView [] v i = i
    run-InView (e ∷ es) v i = run-InView es (handle_view N n e v) (handle_view-InView e v i)

-- Whatever the pointer, the wheel and the buttons do, the scale stays between 1 and `maxScale` and is
-- never NaN, and each coordinate of the rectangle that is shown, unless it is NaN, lies within the board
-- with its margin: the rectangle begins no earlier and ends no later. This is so for all numbers of which
-- the laws hold, and a board whose size in units is at most 2 ^ 53.
pub run_view_events-IsInside :
    (N : Numbers) (L : Laws N) (n : ℕ) (es : List (ViewEvent N))
    → full_size N n ≤ exact_bound
    → let v = run_view_events N n es (initial_view N n) in IsInside N n v.scale v.view_min
unfolding initial_view
run_view_events-IsInside N L n es small =
    run-InView N L n small es (initial_view N n) (initial-IsInside N L n small)
