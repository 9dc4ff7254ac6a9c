-- ===== src/MenuCanvas/Presence.antt =====
-- When the canvas of GameContainer.tsx has a scene, and what its unmount leaves to be shown.
use dot_and_boxes.Prelude.{
  ℕ, ◌≡◌, ◌≢◌, refl, ◌∙◌, ◌⊎◌, inl, inr, Bool, true, false, Option, none, some, arith, Bool-cases,
  Option-cases,
}
use dot_and_boxes.Lobby.Store.{loading}
use dot_and_boxes.MenuCanvas.{
  Container, Event, unmounts, handle, mount_canvas, canvas_init_failed, canvas_init_done,
  frames_done, unmount_canvas, destroy_manager, destroy_live, set_run,
}

-- Two canvases show the same.
abbrev pub SameView : Container → Container → Type 0
SameView a b =
    (a.pixi_failed ≡ b.pixi_failed) × (a.pixi_ready ≡ b.pixi_ready) × (a.scene_ref ≡ b.scene_ref)

destroy_manager-SameView : (o : Option ℕ) (a : Container) → SameView (destroy_manager o a) a
unfolding destroy_manager
destroy_manager-SameView none a = (refl, refl, refl)
destroy_manager-SameView (some e) a = (refl, refl, refl)

-- While nothing has failed, a page that is ready has a scene.
abbrev pub IsPresent : Container → Type 0
IsPresent c = c.pixi_failed ≡ false → c.pixi_ready ≡ true → c.scene_ref ≢ none

module _ (has_renderer : Bool → ℕ → Bool) where
  destroy_live-SameView : (e : ℕ) (a : Container) → SameView (destroy_live has_renderer e a) a
  destroy_live-SameView e a = elim (Bool-cases (has_renderer (a.runs e).made (a.runs e).destroys)) [
    | inl alive ↦ rw alive (refl, refl, refl)
    | inr gone ↦ rw gone (refl, refl, refl)
  ]

  -- An unmount leaves the page not ready and without a scene, unless nothing was mounted.
  pub unmount_canvas_lem :
      (c : Container)
      → let u = unmount_canvas has_renderer c in
        (u.pixi_failed ≡ c.pixi_failed)
        × ((u ≡ c) ⊎ ((u.pixi_ready ≡ false) × (u.scene_ref ≡ none)))
  unfolding unmount_canvas
  unmount_canvas_lem c = elim (Option-cases c.mounted) [
    | inl gone ↦ rw gone (refl, inl refl)
    | inr (e, there) ↦
        let a : Container = record (set_run e (record (c.runs e) { cancelled = true }) c) {
          mounted = none;
          pixi_ready = false;
          current_scene = loading;
          scene_ref = none;
        } in
        let w = destroy_manager-SameView c.manager_ref a in
        let b = record (destroy_manager c.manager_ref a) { manager_ref = none } in
        let live : ℕ = elim c.app_ref [ none ↦ e | some j ↦ j ] in
        let v = destroy_live-SameView live b in
        rw (there, unmount_canvas) (v.0 ∙ w.0, inr (v.1 ∙ w.1, v.2 ∙ w.2))
  ]

  pub handle-IsPresent :
      (ev : Event) (c : Container) → IsPresent c → IsPresent (handle has_renderer ev c)
  unfolding handle mount_canvas canvas_init_failed canvas_init_done frames_done
  handle-IsPresent unmounts c h f r = ground (arith, h, unmount_canvas_lem c)
  handle-IsPresent ev c h f r = ground (arith, h)

  pub handle-failed :
      (ev : Event) (c : Container)
      → (handle has_renderer ev c).pixi_failed ≡ false
      → c.pixi_failed ≡ false
  unfolding handle mount_canvas canvas_init_failed canvas_init_done frames_done
  handle-failed unmounts c f = ground (arith, unmount_canvas_lem c)
  handle-failed ev c f = ground arith
