-- ===== src/MenuCanvas.antt =====
-- The canvas of the main menu: web/src/components/GameContainer.tsx, over the scenes of
-- web/src/pixi/SceneManager.ts. The effect that starts PixiJS runs at a mount, of which React's strict
-- mode makes two. Each run has a number; what its closure holds is in the store `runs`: `cancelled`, how
-- far its asynchronous function is, its application, and its scene manager. The refs are shared by the runs.
-- PixiJS is a parameter: `has_renderer made destroyed` says whether `app.renderer` is set, once
-- `app.init` has returned and after so many calls of `app.destroy`.
pub mod Sound
pub mod Presence
pub mod Props
pub mod Teardown
mod Tests
use dot_and_boxes.Prelude.{
  ℕ, ◌+◌, Bool, true, false, Option, none, some, List, [], ◌∷◌, if◌then◌else◌, ◌==◌,
}
use dot_and_boxes.Lobby.Store.{GameSceneId, loading, main_menu}

-- `SceneManager`, with the scenes that it has destroyed, the last first.
pub record Manager : Type 0 where
  pub current : Option GameSceneId
  pub destroyed : List GameSceneId

abbrev pub new_manager : Manager
new_manager = record { current = none; destroyed = [] }

-- `this.current?.destroy()`
abbrev pub destroy_current : Manager → List GameSceneId
destroy_current m = elim m.current [ none ↦ m.destroyed | some scene ↦ scene ∷ m.destroyed ]

unfoldable pub switch : GameSceneId → Manager → Manager
switch next m = record { current = some next; destroyed = destroy_current m }

unfoldable pub destroy : Manager → Manager
destroy m = record { current = none; destroyed = destroy_current m }

-- Where the asynchronous function of a run is: it awaits the layout and `app.init`, or two frames, or
-- it is over, or was never called.
pub data Stage : Type 0 where
  idle starting framing over : Stage

pub record Run : Type 0 where
  pub cancelled : Bool
  pub stage : Stage
  -- `app.init` has returned; how often `app.destroy` was called
  pub made : Bool
  pub destroys : ℕ
  pub manager : Manager

abbrev pub new_run : Stage → Run
new_run stage = record {
  cancelled = false;
  stage = stage;
  made = false;
  destroys = 0;
  manager = new_manager;
}

pub record Container : Type 0 where
  pub mounted : Option ℕ
  pub next : ℕ
  pub runs : ℕ → Run
  -- `sceneRef`, `sceneManagerRef` and `appRef`, by the runs that wrote them
  pub scene_ref : Option ℕ
  pub manager_ref : Option ℕ
  pub app_ref : Option ℕ
  pub pixi_ready : Bool
  pub pixi_failed : Bool
  -- `currentScene` of the store
  pub current_scene : GameSceneId

abbrev pub new_container : Container
new_container = record {
  mounted = none;
  next = 0;
  runs = λ _. new_run idle;
  scene_ref = none;
  manager_ref = none;
  app_ref = none;
  pixi_ready = false;
  pixi_failed = false;
  current_scene = loading;
}

abbrev pub set_run : ℕ → Run → Container → Container
set_run e r c = record c { runs = λ k. if k == e then r else c.runs k }

-- The effect, up to its first `await`. React has run the cleanup of the run before.
unfoldable pub mount_canvas : Container → Container
mount_canvas c = elim c.mounted as (λ _. Container) [
  | some _ ↦ c
  | none ↦ record (set_run c.next (new_run starting) c) {
    mounted = some c.next;
    next = c.next + 1;
    pixi_ready = false;
    current_scene = loading;
  }
]

-- `if (!cancelled) { setPixiFailed(true); ... }` of the run `e`.
abbrev pub report_failure : ℕ → Container → Container
report_failure e c =
    if (c.runs e).cancelled
    then c
    else record c { pixi_failed = true; pixi_ready = true; current_scene = main_menu }

-- `app.destroy(...)` of the run `e`.
abbrev pub destroy_app : ℕ → Container → Container
destroy_app e c = set_run e (record (c.runs e) { destroys = (c.runs e).destroys + 1 }) c

-- `app.init` throws.
unfoldable pub canvas_init_failed : ℕ → Container → Container
canvas_init_failed e c = elim (c.runs e).stage as (λ _. Container) [
  | starting ↦ report_failure e (set_run e (record (c.runs e) { stage = over }) c)
  | _ ↦ c
]

-- `app.init` returns, up to the frames; the flag is the value of `installLobbyBitmapFont`.
unfoldable pub canvas_init_done : ℕ → Bool → Container → Container
unfolding switch
canvas_init_done e fonts c =
    let ended = set_run e (record (c.runs e) { stage = over; made = true }) c in
    elim (c.runs e).stage as (λ _. Container) [
      | starting ↦
          if (c.runs e).cancelled
          then destroy_app e ended
          else if fonts
          then record (set_run e
              (record (c.runs e) {
                stage = framing;
                made = true;
                manager = switch loading new_manager;
              })
              c) { manager_ref = some e }
          else destroy_app e (report_failure e ended)
      | _ ↦ c
    ]

module _ (has_renderer : Bool → ℕ → Bool) where
  -- After the two frames; the flag says whether `createMainMenuScene` returns. The colour of the
  -- background is written to `app.renderer`, which throws a `TypeError` where there is none, after the scene
  -- is switched and its ref is set and before all else.
  unfoldable pub frames_done : ℕ → Bool → Container → Container
  unfolding switch
  frames_done e scene c =
      let ended = set_run e (record (c.runs e) { stage = over }) c in
      let switched =
        record (set_run e
          (record (c.runs e) { stage = over; manager = switch main_menu (c.runs e).manager }) c) {
            scene_ref = some e;
          } in
      elim (c.runs e).stage as (λ _. Container) [
        | framing ↦
            if scene
            then if has_renderer (c.runs e).made (c.runs e).destroys
              then record switched {
                app_ref = some e;
                current_scene = main_menu;
                pixi_ready = if (c.runs e).cancelled then c.pixi_ready else true;
              }
              else switched
            else destroy_app e (report_failure e ended)
        | _ ↦ c
      ]

abbrev pub destroy_manager : Option ℕ → Container → Container
unfolding destroy
destroy_manager none c = c
destroy_manager (some e) c =
    set_run e (record (c.runs e) { manager = destroy (c.runs e).manager }) c

module _ (has_renderer : Bool → ℕ → Bool) where
  -- `if (live?.renderer) { live.destroy(...) }`
  abbrev pub destroy_live : ℕ → Container → Container
  destroy_live e c = if has_renderer (c.runs e).made (c.runs e).destroys then destroy_app e c else c

  -- The cleanup of the run that is mounted.
  unfoldable pub unmount_canvas : Container → Container
  unmount_canvas c = elim c.mounted as (λ _. Container) [
    | none ↦ c
    | some e ↦
        let a = record (set_run e (record (c.runs e) { cancelled = true }) c) {
          mounted = none;
          pixi_ready = false;
          current_scene = loading;
          scene_ref = none;
        } in
        let b = record (destroy_manager c.manager_ref a) { manager_ref = none } in
        let live : ℕ = elim c.app_ref [ none ↦ e | some j ↦ j ] in
        record (destroy_live live b) { app_ref = none }
  ]

pub data Event : Type 0 where
  mounts : Event
  unmounts : Event
  init_fails : ℕ → Event
  init_ends : ℕ → Bool → Event
  frames_end : ℕ → Bool → Event

module _ (has_renderer : Bool → ℕ → Bool) where
  unfoldable pub handle : Event → Container → Container
  unfolding unmount_canvas
  handle mounts c = mount_canvas c
  handle unmounts c = unmount_canvas has_renderer c
  handle (init_fails e) c = canvas_init_failed e c
  handle (init_ends e fonts) c = canvas_init_done e fonts c
  handle (frames_end e scene) c = frames_done has_renderer e scene c

  unfoldable pub run : List Event → Container → Container
  unfolding handle
  run [] c = c
  run (e ∷ es) c = run es (handle e c)
