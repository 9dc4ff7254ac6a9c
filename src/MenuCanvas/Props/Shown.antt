-- ===== src/MenuCanvas/Props/Shown.antt =====
-- What the menu shows of the props of GameContainer.tsx after any renders, mounts and ends of its scenes.
use dot_and_boxes.Prelude.{
  ℕ, ◌<◌, ◌≡◌, ◌≢◌, refl, inl, inr, Bool, true, false, Option, none, some, List, [], ◌∷◌,
  if◌then◌else◌, ◌==◌, arith, Bool-cases, Option-cases,
}
use dot_and_boxes.Prelude.Text.{Text}
use dot_and_boxes.MenuCanvas.{
  Event, Stage, idle, starting, over, mounts, unmounts, init_fails, init_ends, frames_end, framing,
  handle, mount_canvas, canvas_init_failed, canvas_init_done, frames_done,
}
use dot_and_boxes.MenuCanvas.Presence.{
  IsPresent, unmount_canvas_lem, handle-IsPresent, handle-failed,
}
use dot_and_boxes.MenuCanvas.Props.{
  Props, Scene, Screen, new_screen, write_props, write_all_props, on_scene, names_of, open_overlay,
  render_mounted, render_props, mount_props, made_by, mounting, canvas_event, ScreenEvent,
  canvas_does, renders, handle_screen, run_screen, same_bool,
}
use dot_and_boxes.MenuCanvas.Props.Reflects.{
  Reflects, make_menu-Reflects, write_all_props-Reflects, write_props-Reflects,
}

abbrev pub head_or : ℕ → List ℕ → ℕ
head_or d [] = d
head_or d (x ∷ xs) = x

-- No entry is zero or equals the one before it.
abbrev pub AreNew : List ℕ → Type 0
AreNew [] = Unit {0}
AreNew (x ∷ xs) = (0 < x) × (x ≢ head_or 0 xs) × AreNew xs

-- `openLobbyNonceRef` holds the nonce of the last opening.
abbrev pub InTurn : Screen → Type 0
InTurn s = (s.opened ≡ head_or 0 s.openings) × AreNew s.openings

open_overlay-InTurn : (s : Screen) → InTurn s → InTurn (open_overlay s)
unfolding open_overlay
open_overlay-InTurn s h = ground (arith, h.0, h.1)

open_overlay-opened :
    (s : Screen)
    → s.canvas.pixi_ready ≡ true
    → s.canvas.scene_ref ≢ none
    → 0 < s.props.open_create_lobby_nonce
    → (open_overlay s).opened ≡ s.props.open_create_lobby_nonce
unfolding open_overlay
open_overlay-opened s r p n = ground arith

open_overlay-same :
    (s : Screen)
    → ((open_overlay s).canvas ≡ s.canvas)
      × ((open_overlay s).props ≡ s.props)
      × ((open_overlay s).scenes ≡ s.scenes)
unfolding open_overlay
open_overlay-same s = ground arith

-- The scene that the page refers to shows its props.
abbrev pub HasScene : (Text → Text) → Screen → Type 0
HasScene to_upper s = (e : ℕ) → s.canvas.scene_ref ≡ some e → Reflects to_upper s.props (s.scenes e)

module _ (to_upper : Text → Text) where
  on_scene-HasScene :
      (f : Scene → Scene) (p : Props) (s : Screen)
      → ((x : Scene) → Reflects to_upper s.props x → Reflects to_upper p (f x))
      → HasScene to_upper s
      → HasScene to_upper (record (on_scene f s) { props = p })
  on_scene-HasScene f p s keep h = elim (Option-cases s.canvas.scene_ref) [
    | inl gone ↦ rw gone (λ e r. cc)
    | inr (k, there) ↦ rw there (λ e r. at_scene k e there (ground (arith, r)))
  ]
    where
      at_scene :
          (k e : ℕ)
          → s.canvas.scene_ref ≡ some k
          → k ≡ e
          → Reflects to_upper p (if e == k then f (s.scenes k) else s.scenes e)
      at_scene k e there same =
          let y : (e == k) ≡ true = ground (arith, same) in rw y (keep (s.scenes k) (h k there))

  made-HasScene :
      (has_renderer : Bool → ℕ → Bool) (ev : Event) (s : Screen)
      → HasScene to_upper s
      → HasScene to_upper
          (record s { canvas = handle has_renderer ev s.canvas; scenes = made_by to_upper ev s })
  unfolding handle mount_canvas canvas_init_failed canvas_init_done frames_done
  made-HasScene has_renderer mounts s h e r = h e (ground arith)
  made-HasScene has_renderer unmounts s h e r =
      h e (ground (arith, unmount_canvas_lem has_renderer s.canvas))
  made-HasScene has_renderer (init_fails k) s h e r = h e (ground arith)
  made-HasScene has_renderer (init_ends k fonts) s h e r = h e (ground arith)
  made-HasScene has_renderer (frames_end k false) s h e r = h e (ground arith)
  made-HasScene has_renderer (frames_end k true) s h e r = at_stage (s.canvas.runs k).stage refl
    where
      at_stage :
          (stage : Stage)
          → (s.canvas.runs k).stage ≡ stage
          → Reflects to_upper s.props (made_by to_upper (frames_end k true) s e)
      at_stage idle q = rw (q, made_by) (h e (ground arith))
      at_stage starting q = rw (q, made_by) (h e (ground arith))
      at_stage over q = rw (q, made_by) (h e (ground arith))
      at_stage framing q = elim (Bool-cases (e == k)) [
        | inl y ↦ rw (q, made_by, y) (make_menu-Reflects to_upper s.props)
        | inr n ↦ absurd (ground (arith, r, q, n))
      ]

  open_overlay-HasScene : (s : Screen) → HasScene to_upper s → HasScene to_upper (open_overlay s)
  open_overlay-HasScene s h = let (c, p, x) = open_overlay-same s in rw (c, p, x) h

module _ (to_upper : Text → Text) where
  -- The scene shows the props, and the overlay was opened for the nonce of the props, unless PixiJS has
  -- failed, and for no nonce twice in a row.
  pub record Shows (s : Screen) : Type 0 where
    pub scene : HasScene to_upper s
    present : IsPresent s.canvas
    pub overlay :
        s.canvas.pixi_failed ≡ false
        → s.canvas.pixi_ready ≡ true
        → 0 < s.props.open_create_lobby_nonce
        → s.opened ≡ s.props.open_create_lobby_nonce
    pub turn : InTurn s

  -- The overlay's effect, for the screen `w`, which the rest of an event leaves: it may be left out
  -- where the nonce was opened before.
  effect-Shows :
      (skip : Bool) (w : Screen)
      → HasScene to_upper w
      → IsPresent w.canvas
      → InTurn w
      → (skip ≡ true
          → w.canvas.pixi_failed ≡ false
          → w.canvas.pixi_ready ≡ true
          → 0 < w.props.open_create_lobby_nonce
          → w.opened ≡ w.props.open_create_lobby_nonce)
      → Shows (if skip then w else open_overlay w)
  effect-Shows true w h p t o = record { scene = h; present = p; overlay = o refl; turn = t }
  effect-Shows false w h p t o =
      let (c, q, x) = open_overlay-same w in
      record {
        scene = open_overlay-HasScene to_upper w h;
        present = rw c p;
        overlay = rw (c, q) (λ f r n. open_overlay-opened w r (p f r) n);
        turn = open_overlay-InTurn w t;
      }

  module _ (has_renderer : Bool → ℕ → Bool) where
    canvas_event-Shows :
        (ev : Event) (s : Screen) → Shows s → Shows (canvas_event to_upper has_renderer ev s)
    unfolding canvas_event
    canvas_event-Shows ev s i = effects (mounting ev s)
      where
        after : Screen
        after = record s {
          canvas = handle has_renderer ev s.canvas;
          scenes = made_by to_upper ev s;
        }

        skip : Bool
        skip = same_bool s.canvas.pixi_ready (handle has_renderer ev s.canvas).pixi_ready

        kept :
            skip ≡ true
            → after.canvas.pixi_failed ≡ false
            → after.canvas.pixi_ready ≡ true
            → 0 < s.props.open_create_lobby_nonce
            → s.opened ≡ s.props.open_create_lobby_nonce
        kept e f r n = i.overlay (handle-failed has_renderer ev s.canvas f) (ground (arith, e, r)) n

        present : IsPresent after.canvas
        present = handle-IsPresent has_renderer ev s.canvas i.present

        made : HasScene to_upper after
        made = made-HasScene to_upper has_renderer ev s i.scene

        effects :
            (b : Bool)
            → Shows (
                if skip
                then mount_props to_upper b after
                else open_overlay (mount_props to_upper b after))
        effects false = effect-Shows skip after made present i.turn kept
        effects true =
            effect-Shows skip (on_scene (write_all_props to_upper s.props) after)
              (on_scene-HasScene to_upper (write_all_props to_upper s.props) s.props after
                (λ x _. write_all_props-Reflects to_upper s.props x) made)
              present i.turn kept

    render_props-Shows :
        (guests : Option (List Text)) (p : Props) (s : Screen)
        → Shows s
        → Shows (render_props to_upper guests p s)
    unfolding render_props
    render_props-Shows guests p s i = at_mounted s.canvas.mounted
      where
        at_mounted :
            (mounted : Option ℕ)
            → Shows (elim mounted as (λ _. Screen) [
              | none ↦ s
              | some m ↦ render_mounted to_upper guests p s
            ])
        at_mounted none = i
        at_mounted (some m) =
            let new = record p { guest_names = names_of guests s.props.guest_names } in
            effect-Shows (s.props.open_create_lobby_nonce == p.open_create_lobby_nonce)
              (record (on_scene (write_props to_upper s.props guests new) s) { props = new })
              (on_scene-HasScene to_upper (write_props to_upper s.props guests new) new s
                (λ x h. write_props-Reflects to_upper s.props p guests x h) i.scene)
              i.present i.turn (λ e f r n. ground (arith, e, i.overlay f r))

    handle_screen-Shows :
        (e : ScreenEvent) (s : Screen) → Shows s → Shows (handle_screen to_upper has_renderer e s)
    unfolding handle_screen
    handle_screen-Shows (canvas_does ev) s i = canvas_event-Shows ev s i
    handle_screen-Shows (renders guests p) s i = render_props-Shows guests p s i

    run_screen_from :
        (es : List ScreenEvent) (s : Screen)
        → Shows s
        → Shows (run_screen to_upper has_renderer es s)
    unfolding run_screen
    run_screen_from [] s i = i
    run_screen_from (e ∷ es) s i =
        run_screen_from es (handle_screen to_upper has_renderer e s) (handle_screen-Shows e s i)

    -- After any renders, mounts, unmounts and ends of the runs of the canvas: the scene that the page
    -- refers to has the names of the last props in its slots, and their mute states; its badge, its
    -- ready rim and its pending state are those of the last props, or those of a new scene (no badge, not
    -- lit, not pending). A page that is ready, where PixiJS has not failed, has a scene, and has opened the
    -- form for the nonce of the last props, if that is above zero, as the last one; the form was opened
    -- for no nonce of zero, and for no nonce twice in a row.
    pub run_screen-Shows :
        (es : List ScreenEvent) (p : Props)
        → Shows (run_screen to_upper has_renderer es (new_screen to_upper p))
    run_screen-Shows es p = run_screen_from es (new_screen to_upper p) (record {
      scene = λ e r. cc;
      present = λ f r. cc;
      overlay = λ f r n. cc;
      turn = (refl, tt);
    })
