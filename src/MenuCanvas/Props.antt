-- ===== src/MenuCanvas/Props.antt =====
-- What GameContainer.tsx passes on to the scene of the menu: its props at the making of the scene, and
-- an effect for each prop that changes with a render, over the canvas of MenuCanvas; with the setters of
-- web/src/pixi/mainMenu/MainMenuScene.ts. The menu has its dock, which play.tsx always gives. React runs
-- the effects of a prop when it is not the one of the render before; a list of names may be a new array
-- with equal entries. Upper-casing is a parameter. The label of the name is in CreateLobby.
pub mod Lost
pub mod Reflects
pub mod Shown
mod Tests
use dot_and_boxes.Prelude.{
  ℕ, Bool, true, false, not, ◌||◌, Option, none, some, List, [], ◌∷◌, if◌then◌else◌, ◌==◌,
}
use dot_and_boxes.Prelude.Text.{Text, text_eq}
use dot_and_boxes.CreateLobby.Slots.{Roster, name_is, guests_are, set_names, make_scene}
use dot_and_boxes.MenuCanvas.{Container, new_container, Event, mounts, frames_end, framing, handle}

pub record Props : Type 0 where
  pub display_name : Text
  pub guest_names : List Text
  pub chat_badge_count : ℕ
  pub ready_highlighted : Bool
  pub initial_sound_muted : Bool
  pub initial_music_muted : Bool
  pub lobby_create_pending : Bool
  pub open_create_lobby_nonce : ℕ

-- What the controller of a scene shows.
pub record Scene : Type 0 where
  pub roster : Roster
  pub badge : ℕ
  pub ready_lit : Bool
  pub sound_dimmed : Bool
  pub music_dimmed : Bool
  pub create_pending : Bool

pub record Screen : Type 0 where
  pub canvas : Container
  -- the props of the last render, which `propsRef` and the other refs hold
  pub props : Props
  -- the scenes, by the runs that made them
  pub scenes : ℕ → Scene
  -- `openLobbyNonceRef.current`, and the nonces for which the overlay was opened, the last first
  pub opened : ℕ
  pub openings : List ℕ

abbrev pub same_bool : Bool → Bool → Bool
same_bool true b = b
same_bool false b = not b

-- `sceneRef.current?.…`
abbrev pub on_scene : (Scene → Scene) → Screen → Screen
on_scene f s = record s {
  scenes = elim s.canvas.scene_ref as (λ _. ℕ → Scene) [
    | none ↦ s.scenes
    | some e ↦ λ k. if k == e then f (s.scenes e) else s.scenes k
  ];
}

-- The effect of `openCreateLobbyNonce` and `pixiLobbyReady`.
unfoldable pub open_overlay : Screen → Screen
open_overlay s =
    let nonce = s.props.open_create_lobby_nonce in
    if nonce == 0 || not s.canvas.pixi_ready then s else elim s.canvas.scene_ref as (λ _. Screen) [
      | none ↦ s
      | some e ↦
          if nonce == s.opened
          then s
          else record s { opened = nonce; openings = nonce ∷ s.openings }
    ]

abbrev pub mounting : Event → Screen → Bool
mounting mounts s = elim s.canvas.mounted [ none ↦ true | some _ ↦ false ]
mounting ev s = false

abbrev pub names_of : Option (List Text) → List Text → List Text
names_of none old = old
names_of (some g) old = g

pub data ScreenEvent : Type 0 where
  canvas_does : Event → ScreenEvent
  renders : Option (List Text) → Props → ScreenEvent

module _ (to_upper : Text → Text) where
  -- `createMainMenuScene`, with the options that the effect gives.
  unfoldable pub make_menu : Props → Scene
  make_menu p = record {
    roster = make_scene to_upper p.display_name p.guest_names;
    badge = 0;
    ready_lit = false;
    sound_dimmed = p.initial_sound_muted;
    music_dimmed = p.initial_music_muted;
    create_pending = false;
  }

  abbrev pub new_screen : Props → Screen
  new_screen p = record {
    canvas = new_container;
    props = p;
    scenes = λ _. make_menu p;
    opened = 0;
    openings = [];
  }

  -- The effect of `displayName`, and that of `guestNames`; none is for the array of the render before.
  abbrev pub write_name : Text → Text → Roster → Roster
  write_name old name r = if text_eq old name then r else set_names to_upper (name_is name) r

  abbrev pub write_guests : Option (List Text) → Roster → Roster
  write_guests none r = r
  write_guests (some g) r = set_names to_upper (guests_are g) r

  -- The effects of the props that a scene shows, in their order, for the new props `p`.
  unfoldable pub write_props : Props → Option (List Text) → Props → Scene → Scene
  write_props old guests p x = record {
    roster = write_guests guests (write_name old.display_name p.display_name x.roster);
    badge = if old.chat_badge_count == p.chat_badge_count then x.badge else p.chat_badge_count;
    ready_lit =
        if same_bool old.ready_highlighted p.ready_highlighted
        then x.ready_lit
        else p.ready_highlighted;
    sound_dimmed =
        if same_bool old.initial_sound_muted p.initial_sound_muted
        then x.sound_dimmed
        else p.initial_sound_muted;
    music_dimmed =
        if same_bool old.initial_music_muted p.initial_music_muted
        then x.music_dimmed
        else p.initial_music_muted;
    create_pending =
        if same_bool old.lobby_create_pending p.lobby_create_pending
        then x.create_pending
        else p.lobby_create_pending;
  }

  -- A render with new props, while the component is mounted.
  abbrev pub render_mounted : Option (List Text) → Props → Screen → Screen
  render_mounted guests p s =
      let new = record p { guest_names = names_of guests s.props.guest_names } in
      let written = record (on_scene (write_props s.props guests new) s) { props = new } in
      if s.props.open_create_lobby_nonce == new.open_create_lobby_nonce
      then written
      else open_overlay written

  unfoldable pub render_props : Option (List Text) → Props → Screen → Screen
  render_props guests p s = elim s.canvas.mounted as (λ _. Screen) [
    | none ↦ s
    | some m ↦ render_mounted guests p s
  ]

  -- The effects of the props at a mount, where each of them runs.
  unfoldable pub write_all_props : Props → Scene → Scene
  write_all_props p x = record {
    roster =
        set_names to_upper (guests_are p.guest_names)
          (set_names to_upper (name_is p.display_name) x.roster);
    badge = p.chat_badge_count;
    ready_lit = p.ready_highlighted;
    sound_dimmed = p.initial_sound_muted;
    music_dimmed = p.initial_music_muted;
    create_pending = p.lobby_create_pending;
  }

  abbrev pub mount_props : Bool → Screen → Screen
  mount_props true s = on_scene (write_all_props s.props) s
  mount_props false s = s

  -- The scene that an event makes: after the two frames `createMainMenuScene` returns one.
  abbrev pub made_by : Event → Screen → ℕ → Scene
  made_by (frames_end e true) s k = elim (s.canvas.runs e).stage as (λ _. Scene) [
    | framing ↦ if k == e then make_menu s.props else s.scenes k
    | _ ↦ s.scenes k
  ]
  made_by ev s k = s.scenes k

module _ (to_upper : Text → Text) (has_renderer : Bool → ℕ → Bool) where
  -- An event of the canvas. A new `pixiLobbyReady` renders the component, and the last effect runs.
  unfoldable pub canvas_event : Event → Screen → Screen
  canvas_event ev s =
      let after = record s {
        canvas = handle has_renderer ev s.canvas;
        scenes = made_by to_upper ev s;
      } in
      let written = mount_props to_upper (mounting ev s) after in
      if same_bool s.canvas.pixi_ready (handle has_renderer ev s.canvas).pixi_ready
      then written
      else open_overlay written

  unfoldable pub handle_screen : ScreenEvent → Screen → Screen
  unfolding canvas_event render_props
  handle_screen (canvas_does ev) s = canvas_event ev s
  handle_screen (renders guests p) s = render_props to_upper guests p s

  unfoldable pub run_screen : List ScreenEvent → Screen → Screen
  unfolding handle_screen
  run_screen [] s = s
  run_screen (e ∷ es) s = run_screen es (handle_screen e s)
