-- ===== src/MenuCanvas/Props/Lost.antt =====
-- The rim of the ready button of GameContainer.tsx, where the user was ready before the scene was made.
use dot_and_boxes.Prelude.{
  ℕ, ◌≡◌, Bool, true, false, Option, none, some, List, [], ◌∷◌, if◌then◌else◌, ◌==◌, arith,
}
use dot_and_boxes.Prelude.Text.{Text}
use dot_and_boxes.MenuCanvas.{frames_end, framing, handle, frames_done}
use dot_and_boxes.MenuCanvas.Props.{
  Props, Screen, make_menu, write_props, names_of, on_scene, made_by, render_mounted, open_overlay,
  render_props, canvas_event, ScreenEvent, canvas_does, renders, handle_screen, run_screen,
}

-- The user is ready, and the scene of the run `e` does not show it.
abbrev pub IsDark : ℕ → Screen → Type 0
IsDark e s =
    (s.canvas.scene_ref ≡ some e)
    × (s.props.ready_highlighted ≡ true)
    × ((s.scenes e).ready_lit ≡ false)

-- Renders of a user who is ready.
abbrev pub AreReady : List ScreenEvent → Type 0
AreReady [] = Unit {0}
AreReady (renders guests p ∷ es) = (p.ready_highlighted ≡ true) × AreReady es
AreReady (_ ∷ es) = ⊥

module _ (to_upper : Text → Text) where
  open_overlay-IsDark : (e : ℕ) (s : Screen) → IsDark e s → IsDark e (open_overlay s)
  unfolding open_overlay
  open_overlay-IsDark e s h = ground (arith, h)

  if_IsDark :
      (b : Bool) (e : ℕ) (s : Screen) → IsDark e s → IsDark e (if b then s else open_overlay s)
  if_IsDark true e s h = h
  if_IsDark false e s h = open_overlay-IsDark e s h

  render_props-IsDark :
      (guests : Option (List Text)) (p : Props) (e : ℕ) (s : Screen)
      → p.ready_highlighted ≡ true
      → IsDark e s
      → IsDark e (render_props to_upper guests p s)
  unfolding render_props write_props
  render_props-IsDark guests p e s r h = at_mounted s.canvas.mounted
    where
      new : Props
      new = record p { guest_names = names_of guests s.props.guest_names }

      written : Screen
      written = record (on_scene (write_props to_upper s.props guests new) s) { props = new }

      dark : IsDark e written
      dark = (h.0, r, rw (h.0, on_scene) (ground (arith, h, r)))

      at_mounted :
          (mounted : Option ℕ)
          → IsDark e (elim mounted as (λ _. Screen) [
            | none ↦ s
            | some m ↦ render_mounted to_upper guests p s
          ])
      at_mounted none = h
      at_mounted (some m) =
          if_IsDark (s.props.open_create_lobby_nonce == p.open_create_lobby_nonce) e written dark

  module _ (has_renderer : Bool → ℕ → Bool) where
    run_screen-IsDark :
        (es : List ScreenEvent) (e : ℕ) (s : Screen)
        → AreReady es
        → IsDark e s
        → IsDark e (run_screen to_upper has_renderer es s)
    unfolding run_screen handle_screen
    run_screen-IsDark [] e s r h = h
    run_screen-IsDark (renders guests p ∷ es) e s r h =
        run_screen-IsDark es e (render_props to_upper guests p s) r.1
          (render_props-IsDark guests p e s r.0 h)
    run_screen-IsDark (canvas_does _ ∷ es) e s r h = elim r [ ]

    -- A scene that is made while the user is ready does not show it, whatever renders of a user who is
    -- ready follow.
    pub ready_stays-IsDark :
        (es : List ScreenEvent) (e : ℕ) (s : Screen)
        → AreReady es
        → (s.canvas.runs e).stage ≡ framing
        → s.props.ready_highlighted ≡ true
        → IsDark e (
            run_screen to_upper has_renderer es
              (canvas_event to_upper has_renderer (frames_end e true) s))
    unfolding canvas_event handle frames_done make_menu
    ready_stays-IsDark es e s r f q =
        run_screen-IsDark es e (canvas_event to_upper has_renderer (frames_end e true) s) r
          (if_IsDark _ e after (made, q, dark))
      where
        after : Screen
        after = record s {
          canvas = handle has_renderer (frames_end e true) s.canvas;
          scenes = made_by to_upper (frames_end e true) s;
        }

        made : after.canvas.scene_ref ≡ some e
        made = ground (arith, f)

        dark : (after.scenes e).ready_lit ≡ false
        dark = rw (f, made_by) (ground arith)
