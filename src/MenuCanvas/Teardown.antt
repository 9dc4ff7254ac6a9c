-- ===== src/MenuCanvas/Teardown.antt =====
-- What GameContainer.tsx leaves behind: an unmount destroys the application and the scenes, except
-- while the frames before the menu's scene are awaited.
use dot_and_boxes.Prelude.{
  ℕ, ◌≤◌, ◌≡◌, ◌≢◌, ◌⊎◌, inl, inr, Bool, true, false, none, List, if◌then◌else◌, arith, Bool-cases,
  Option-cases,
}
use dot_and_boxes.Lobby.Store.{loading}
use dot_and_boxes.MenuCanvas.{Container, new_container, Event, run}
use dot_and_boxes.MenuCanvas.Sound.{
  is_mounted, IsSound, AreCalm, run-Keeps, new_container-IsSound, new_container-IsShown,
}

made_destroyed :
    (c : Container) (k : ℕ)
    → is_mounted c k ≡ false
    → IsSound c k
    → (c.runs k).destroys ≡ (if (c.runs k).made then 1 else 0)
made_destroyed c k m i = ground arith

module _ (has_renderer : Bool → ℕ → Bool) (not_made : has_renderer false 0 ≡ false)
    (alive : has_renderer true 0 ≡ true) (is_gone : has_renderer true 1 ≡ false) where
  -- After any mounts, unmounts and ends of what is awaited, where no unmount came while the mounted run
  -- awaited its two frames: no application is destroyed twice; a run that is not mounted has destroyed
  -- its application, if PixiJS made it one, and holds no scene; and with no run mounted the page is not
  -- ready, and the store's scene is that of loading.
  pub run-TornDown :
      (es : List Event) (k : ℕ)
      → AreCalm has_renderer es new_container
      → let c = run has_renderer es new_container in
        ((c.runs k).destroys ≤ 1)
        × ((is_mounted c k ≡ true)
            ⊎ (((c.runs k).destroys ≡ (if (c.runs k).made then 1 else 0))
                × ((c.runs k).manager.current ≡ none)))
        × ((c.mounted ≢ none) ⊎ ((c.pixi_ready ≡ false) × (c.current_scene ≡ loading)))
  run-TornDown es k s =
      let (i, j) =
        run-Keeps has_renderer not_made alive is_gone es new_container s new_container-IsSound
          new_container-IsShown in
      (
        (i k).at_most,
        elim (Bool-cases (is_mounted (run has_renderer es new_container) k)) [
          | inl m ↦ inl m
          | inr m ↦ inr (made_destroyed _ k m (i k), (i k).scene m)
        ],
        elim (Option-cases (run has_renderer es new_container).mounted) [
          | inl m ↦ inr (j.ready m, j.menu m)
          | inr (e, m) ↦ inl (λ n. cc)
        ],
      )
