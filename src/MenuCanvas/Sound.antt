-- ===== src/MenuCanvas/Sound.antt =====
-- The invariant of the canvas of GameContainer.tsx, kept by every event but an unmount while the frames
-- before the menu's scene are awaited.
use dot_and_boxes.Prelude.{
  ℕ, ◌+◌, ◌≤◌, ◌≡◌, ◌≢◌, refl, ◌⊎◌, inl, inr, Bool, true, false, not, ◌&&◌, ◌||◌, Option, none,
  some, List, [], ◌∷◌, if◌then◌else◌, ◌==◌, arith, Bool-cases, Option-cases,
}
use dot_and_boxes.Lobby.Store.{loading}
use dot_and_boxes.MenuCanvas.{
  switch, destroy, Stage, idle, starting, framing, Run, Container, new_container, mount_canvas,
  canvas_init_failed, canvas_init_done, frames_done, unmount_canvas, Event, mounts, unmounts,
  init_fails, init_ends, frames_end, handle, run,
}

abbrev pub is_mounted : Container → ℕ → Bool
is_mounted c k = elim c.mounted [ none ↦ false | some m ↦ m == k ]

abbrev pub is_at : Option ℕ → ℕ → Bool
is_at o k = elim o [ none ↦ false | some m ↦ m == k ]

abbrev pub is_framing : Stage → Bool
is_framing framing = true
is_framing _ = false

-- The run that is mounted does not await its frames.
abbrev pub is_settled : Container → Bool
is_settled c = elim c.mounted [ none ↦ true | some m ↦ not (is_framing (c.runs m).stage) ]

-- The run of the effect that an event is about.
abbrev subject : Event → ℕ
subject mounts = 0
subject unmounts = 0
subject (init_fails e) = e
subject (init_ends e fonts) = e
subject (frames_end e scene) = e

abbrev is_starting : Stage → Bool
is_starting starting = true
is_starting _ = false

abbrev is_idle : Stage → Bool
is_idle idle = true
is_idle _ = false

-- Of one run: only the mounted one holds an application that is not destroyed, or a scene, and the refs
-- name it; each application is destroyed once at most.
pub record IsSound (c : Container) (k : ℕ) : Type 0 where
  pub live : is_mounted c k ≡ true → (c.runs k).cancelled ≡ false
  gone : is_mounted c k ≡ false → is_idle (c.runs k).stage ≡ false → (c.runs k).cancelled ≡ true
  fresh : c.next ≤ k → is_idle (c.runs k).stage ≡ true
  unborn : is_idle (c.runs k).stage ≡ true → (c.runs k).made ≡ false
  in_use : is_mounted c k ≡ true → is_idle (c.runs k).stage ≡ false
  waiting : is_starting (c.runs k).stage ≡ true → (c.runs k).made ≡ false
  pub unmade : (c.runs k).made ≡ false → (c.runs k).destroys ≡ 0
  pub at_most : (c.runs k).destroys ≤ 1
  pub framed : is_framing (c.runs k).stage ≡ true → is_mounted c k ≡ true
  pub framed_ref : is_framing (c.runs k).stage ≡ true → is_at c.manager_ref k ≡ true
  pub framed_made :
      is_framing (c.runs k).stage ≡ true → ((c.runs k).made ≡ true) × ((c.runs k).destroys ≡ 0)
  pub settled :
      (c.runs k).made ≡ true
      → (c.runs k).destroys ≡ 0
      → (is_framing (c.runs k).stage || is_at c.app_ref k) ≡ true
  pub app : is_at c.app_ref k ≡ true → is_mounted c k ≡ true
  app_made : is_at c.app_ref k ≡ true → ((c.runs k).made ≡ true) × ((c.runs k).destroys ≡ 0)
  pub app_over : is_at c.app_ref k ≡ true → is_framing (c.runs k).stage ≡ false
  manager : is_at c.manager_ref k ≡ true → is_mounted c k ≡ true
  pub scene : is_mounted c k ≡ false → (c.runs k).manager.current ≡ none
  scene_ref : is_at c.scene_ref k ≡ true → is_at c.app_ref k ≡ true
  shown : (c.runs k).manager.current ≢ none → is_at c.manager_ref k ≡ true

-- What the page shows is of a run that is mounted.
pub record IsShown (c : Container) : Type 0 where
  pub ready : c.mounted ≡ none → c.pixi_ready ≡ false
  pub menu : c.mounted ≡ none → c.current_scene ≡ loading

module _ (has_renderer : Bool → ℕ → Bool) where
  -- No unmount comes while the run that is mounted awaits its frames.
  abbrev pub IsCalm : Event → Container → Type 0
  IsCalm unmounts c = is_settled c ≡ true
  IsCalm _ c = Unit

  abbrev pub AreCalm : List Event → Container → Type 0
  AreCalm [] c = Unit
  AreCalm (e ∷ es) c = IsCalm e c × AreCalm es (handle has_renderer e c)

module _ (has_renderer : Bool → ℕ → Bool) (not_made : has_renderer false 0 ≡ false)
    (alive : has_renderer true 0 ≡ true) (is_gone : has_renderer true 1 ≡ false) where
  step-IsSound :
      (ev : Event) (c : Container) (k : ℕ)
      → ev ≢ unmounts
      → IsSound c (subject ev)
      → IsSound c k
      → IsSound (handle has_renderer ev c) k
  unfolding handle mount_canvas canvas_init_failed canvas_init_done frames_done switch
  step-IsSound mounts c k n i j = ground arith
  step-IsSound unmounts c k n i j = absurd (n refl)
  step-IsSound (init_fails e) c k n i j = ground arith
  step-IsSound (init_ends e fonts) c k n i j = ground arith
  step-IsSound (frames_end e scene) c k n i j = ground arith

  ref_of_mounted :
      (c : Container) (e : ℕ) (o : Option ℕ)
      → c.mounted ≡ some e
      → ((k : ℕ) → is_at o k ≡ true → is_mounted c k ≡ true)
      → (o ≡ none) ⊎ (o ≡ some e)
  ref_of_mounted c e none m h = inl refl
  ref_of_mounted c e (some j) m h = inr (ground (arith, m, h j))

  is_live :
      (c : Container) (e : ℕ)
      → IsSound c e
      → has_renderer (c.runs e).made (c.runs e).destroys
        ≡ ((c.runs e).made && (c.runs e).destroys == 0)
  is_live c e i = elim (Bool-cases (c.runs e).made) [
    | inr no_app ↦ rw (no_app, i.unmade no_app) not_made
    | inl app ↦ elim (Bool-cases ((c.runs e).destroys == 0)) [
      | inl whole ↦ let z : (c.runs e).destroys ≡ 0 = ground (arith, whole) in rw (app, z) alive
      | inr destroyed ↦
          let o : (c.runs e).destroys ≡ 1 = ground (arith, destroyed, i.at_most) in
          rw (app, o) is_gone
    ]
  ]

  -- What is left of the mounted run `e` by its cleanup.
  abbrev torn : Container → ℕ → Run
  torn c e = record {
    cancelled = true;
    stage = (c.runs e).stage;
    made = (c.runs e).made;
    destroys =
        (c.runs e).destroys + (if has_renderer (c.runs e).made (c.runs e).destroys then 1 else 0);
    manager = if is_at c.manager_ref e then destroy (c.runs e).manager else (c.runs e).manager;
  }

  unmount-runs :
      (c : Container) (e k : ℕ)
      → c.mounted ≡ some e
      → (c.app_ref ≡ none) ⊎ (c.app_ref ≡ some e)
      → (c.manager_ref ≡ none) ⊎ (c.manager_ref ≡ some e)
      → (unmount_canvas has_renderer c).runs k ≡ (if k == e then torn c e else c.runs k)
  unfolding unmount_canvas destroy
  unmount-runs c e k m (inl a) (inl r) = ground arith
  unmount-runs c e k m (inl a) (inr r) = ground arith
  unmount-runs c e k m (inr a) (inl r) = ground arith
  unmount-runs c e k m (inr a) (inr r) = ground arith

  unmount-refs :
      (c : Container) (e : ℕ)
      → c.mounted ≡ some e
      → ((unmount_canvas has_renderer c).mounted ≡ none)
        × ((unmount_canvas has_renderer c).next ≡ c.next)
        × ((unmount_canvas has_renderer c).app_ref ≡ none)
        × ((unmount_canvas has_renderer c).manager_ref ≡ none)
        × ((unmount_canvas has_renderer c).scene_ref ≡ none)
        × ((unmount_canvas has_renderer c).pixi_ready ≡ false)
        × ((unmount_canvas has_renderer c).current_scene ≡ loading)
  unfolding unmount_canvas destroy
  unmount-refs c e m = elim (Option-cases c.manager_ref) [
    | inl r ↦ ground (arith, m, r)
    | inr (j, r) ↦ ground (arith, m, r)
  ]

  unmount-IsSound :
      (c : Container) (e k : ℕ)
      → c.mounted ≡ some e
      → is_settled c ≡ true
      → ((k : ℕ) → IsSound c k)
      → IsSound (unmount_canvas has_renderer c) k
  unfolding destroy
  unmount-IsSound c e k m s i =
      let l = is_live c e (i e) in
      let a = ref_of_mounted c e c.app_ref m (λ j. (i j).app) in
      let r = ref_of_mounted c e c.manager_ref m (λ j. (i j).manager) in
      let runs = unmount-runs c e k m a r in ground (arith, i e, i k, l, runs, unmount-refs c e m)

  step-IsShown :
      (ev : Event) (c : Container)
      → ev ≢ unmounts
      → IsSound c (subject ev)
      → IsShown c
      → IsShown (handle has_renderer ev c)
  unfolding handle mount_canvas canvas_init_failed canvas_init_done frames_done
  step-IsShown mounts c n i j = ground arith
  step-IsShown unmounts c n i j = absurd (n refl)
  step-IsShown (init_fails e) c n i j = ground arith
  step-IsShown (init_ends e fonts) c n i j = ground arith
  step-IsShown (frames_end e scene) c n i j = ground arith

  unmount-Keeps :
      (c : Container)
      → is_settled c ≡ true
      → ((k : ℕ) → IsSound c k)
      → IsShown c
      → ((k : ℕ) → IsSound (unmount_canvas has_renderer c) k)
        × IsShown (unmount_canvas has_renderer c)
  unmount-Keeps c s i j = elim (Option-cases c.mounted) [
    | inl m ↦
        let same : unmount_canvas has_renderer c ≡ c = unfold unmount_canvas in rw (m) in
        (λ k. rw same (i k), rw same j)
    | inr (e, m) ↦ (
      λ k. unmount-IsSound c e k m s i,
      let refs = unmount-refs c e m in record { ready = λ _. refs.5; menu = λ _. refs.6 },
    )
  ]

  handle-Keeps :
      (ev : Event) (c : Container)
      → IsCalm has_renderer ev c
      → ((k : ℕ) → IsSound c k)
      → IsShown c
      → ((k : ℕ) → IsSound (handle has_renderer ev c) k) × IsShown (handle has_renderer ev c)
  handle-Keeps unmounts c s i j = unfold handle in unmount-Keeps c s i j
  handle-Keeps mounts c s i j =
      (λ k. step-IsSound mounts c k (cc) (i 0) (i k), step-IsShown mounts c (cc) (i 0) j)
  handle-Keeps (init_fails e) c s i j = (
    λ k. step-IsSound (init_fails e) c k (λ h. cc) (i e) (i k),
    step-IsShown (init_fails e) c (λ h. cc) (i e) j,
  )
  handle-Keeps (init_ends e fonts) c s i j = (
    λ k. step-IsSound (init_ends e fonts) c k (λ h. cc) (i e) (i k),
    step-IsShown (init_ends e fonts) c (λ h. cc) (i e) j,
  )
  handle-Keeps (frames_end e scene) c s i j = (
    λ k. step-IsSound (frames_end e scene) c k (λ h. cc) (i e) (i k),
    step-IsShown (frames_end e scene) c (λ h. cc) (i e) j,
  )

  pub run-Keeps :
      (es : List Event) (c : Container)
      → AreCalm has_renderer es c
      → ((k : ℕ) → IsSound c k)
      → IsShown c
      → ((k : ℕ) → IsSound (run has_renderer es c) k) × IsShown (run has_renderer es c)
  unfolding run
  run-Keeps [] c s i j = (i, j)
  run-Keeps (e ∷ es) c (s, ss) i j =
      let (i', j') = handle-Keeps e c s i j in run-Keeps es (handle has_renderer e c) ss i' j'

pub new_container-IsSound : (k : ℕ) → IsSound new_container k
new_container-IsSound k = record {
  live = λ h. cc;
  gone = λ _ h. cc;
  fresh = λ _. refl;
  unborn = λ _. refl;
  in_use = λ h. cc;
  waiting = λ h. cc;
  unmade = λ _. refl;
  at_most = omega arith;
  framed = λ h. cc;
  framed_ref = λ h. cc;
  framed_made = λ h. cc;
  settled = λ h. cc;
  app = λ h. cc;
  app_made = λ h. cc;
  app_over = λ h. cc;
  manager = λ h. cc;
  scene = λ _. refl;
  scene_ref = λ h. cc;
  shown = λ h. absurd (h refl);
}

pub new_container-IsShown : IsShown new_container
new_container-IsShown = record { ready = λ _. refl; menu = λ _. refl }
