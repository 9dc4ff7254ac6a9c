-- ===== src/MenuCanvas/Tests.antt =====
-- The canvas of the main menu mounted twice, as in React's strict mode, and unmounted too early.
use dot_and_boxes.Prelude.{
  ℕ, ◌≡◌, ◌≢◌, ◌≤◌, ◌⊎◌, ◌&&◌, ◌==◌, if◌then◌else◌, refl, Bool, true, false, none, List, [], ◌∷◌,
}
use dot_and_boxes.Lobby.Store.{loading}
use dot_and_boxes.MenuCanvas.{
  switch, destroy, mount_canvas, canvas_init_done, frames_done, unmount_canvas, new_container,
  Event, mounts, unmounts, init_ends, frames_end, handle, run,
}
use dot_and_boxes.MenuCanvas.Sound.{is_mounted}
use dot_and_boxes.MenuCanvas.Teardown.{run-TornDown}

-- A renderer from the end of `app.init` to the first `app.destroy`.
abbrev renderer : Bool → ℕ → Bool
renderer made destroys = made && destroys == 0

abbrev strict : List Event
strict =
    mounts
    ∷ unmounts
    ∷ mounts
    ∷ init_ends 0 true
    ∷ init_ends 1 true
    ∷ frames_end 1 true
    ∷ unmounts
    ∷ []

abbrev early : List Event
early = mounts ∷ init_ends 0 true ∷ []

strict_is_destroyed : ((run renderer strict new_container).runs 1).destroys ≡ 1
unfolding run handle mount_canvas unmount_canvas canvas_init_done frames_done switch destroy
strict_is_destroyed = refl

run-TornDown_example :
    let c = run renderer strict new_container in
    ((c.runs 1).destroys ≤ 1)
    × ((is_mounted c 1 ≡ true)
        ⊎ (((c.runs 1).destroys ≡ (if (c.runs 1).made then 1 else 0))
            × ((c.runs 1).manager.current ≡ none)))
    × ((c.mounted ≢ none) ⊎ ((c.pixi_ready ≡ false) × (c.current_scene ≡ loading)))
unfolding run handle mount_canvas unmount_canvas canvas_init_done frames_done switch destroy
run-TornDown_example =
    run-TornDown renderer refl refl refl strict 1 (tt, (refl, (tt, (tt, (tt, (tt, (refl, tt)))))))
