-- ===== src/Splash.antt =====
-- The splash of web/src/components/DeployLoadingOverlay.tsx, with `Root` of web/src/routes/__root.tsx
-- that shows it. The effect depends on `onComplete`, a new function at each render of `Root`, so that
-- each such render runs its cleanup and the effect again. Each run of the effect has a number, and
-- what its closure holds is in the store `runs`: the flag `cancelled`, the call that awaits the layout
-- and `app.init`, the tick, and its timeouts. An event whose subject is gone does nothing. The refs
-- and the state of the component are shared by its runs.

pub mod Completion
pub mod Console
pub mod Progress
mod Tests
use dot_and_boxes.Prelude.{
  ℕ, ◌+◌, Bool, true, false, not, ◌&&◌, ◌||◌, Option, none, some, List, [], ◌∷◌, any, if◌then◌else◌,
  ◌==◌, leb,
}

pub record Run : Type 0 where
  pub cancelled : Bool
  -- before the end of `app.init`
  pub starting : Bool
  -- `tick` is on the ticker
  pub ticking : Bool
  -- the timeout of `finishAfterMs` is set, and `safetyTimer`
  pub fallback : Bool
  pub safety : Bool

abbrev pub new_run : Run
new_run = record {
  cancelled = false;
  starting = true;
  ticking = false;
  fallback = false;
  safety = false;
}

pub record Splash : Type 0 where
  pub mounted : Option ℕ
  pub next : ℕ
  pub runs : ℕ → Run
  -- `finishedRef.current` and `fadeOut`
  pub finished : Bool
  pub fade_out : Bool
  -- the timeouts of 420 ms that are set, by their runs, and the calls of `onComplete`
  pub fading : List ℕ
  pub completed : ℕ

abbrev pub new_splash : Splash
new_splash = record {
  mounted = none;
  next = 0;
  runs = λ e. record new_run { starting = false };
  finished = false;
  fade_out = false;
  fading = [];
  completed = 0;
}

abbrev pub set_run : ℕ → Run → Splash → Splash
set_run e r s = record s { runs = λ k. if k == e then r else s.runs k }

-- The first timeout of the run taken out.
abbrev pub take_out : ℕ → List ℕ → List ℕ
take_out e [] = []
take_out e (x ∷ xs) = if x == e then xs else x ∷ take_out e xs

-- `finish` of the run `e`.
unfoldable pub finish_splash : ℕ → Splash → Splash
finish_splash e s =
    if s.finished || (s.runs e).cancelled
    then s
    else record (set_run e (record (s.runs e) { ticking = false }) s) {
      finished = true;
      fade_out = true;
      fading = e ∷ s.fading;
    }

-- The cleanup: the safety timer is cleared, the other timeouts are not.
unfoldable pub clean_up_splash : Splash → Splash
clean_up_splash s = elim s.mounted as (λ _. Splash) [
  | none ↦ s
  | some e ↦ record (set_run e (record (s.runs e) { cancelled = true; safety = false }) s) {
    mounted = none;
  }
]

-- The effect, up to its first `await`; React has run the cleanup before it.
unfoldable pub start_splash : Splash → Splash
start_splash s = record (set_run s.next new_run s) { mounted = some s.next; next = s.next + 1 }

-- The first render, and a render with a new `onComplete`.
unfoldable pub render_splash : Splash → Splash
unfolding clean_up_splash start_splash
render_splash s = start_splash (clean_up_splash s)

-- `app.init` throws.
unfoldable pub splash_init_failed : ℕ → Splash → Splash
splash_init_failed e s =
    if (s.runs e).starting
    then set_run e (record (s.runs e) { starting = false; fallback = true }) s
    else s

-- `app.init` returns; the flag says whether one of the two fonts could be installed.
unfoldable pub splash_init_done : ℕ → Bool → Splash → Splash
splash_init_done e fonts s =
    if (s.runs e).starting
    then if (s.runs e).cancelled
      then set_run e (record (s.runs e) { starting = false }) s
      else if fonts
      then set_run e (record (s.runs e) { starting = false; ticking = true; safety = true }) s
      else set_run e (record (s.runs e) { starting = false; fallback = true }) s
    else s

-- `(pixiRenderedOnce && minTimePassed) || pastCap`, where the tick has set `pixiRenderedOnce`.
abbrev pub is_over : ℕ → Bool
is_over elapsed = leb 1200 elapsed || leb 7500 elapsed

-- `tick` of the run `e`, `elapsed` milliseconds after its start.
unfoldable pub splash_tick : ℕ → ℕ → Splash → Splash
unfolding finish_splash
splash_tick e elapsed s =
    if (s.runs e).ticking && not (s.runs e).cancelled && is_over elapsed
    then finish_splash e s
    else s

-- The timeout of `finishAfterMs`.
unfoldable pub fallback_due : ℕ → Splash → Splash
unfolding finish_splash
fallback_due e s =
    let s' = set_run e (record (s.runs e) { fallback = false }) s in
    if (s.runs e).fallback then if (s.runs e).cancelled then s' else finish_splash e s' else s

unfoldable pub safety_due : ℕ → Splash → Splash
unfolding finish_splash
safety_due e s =
    let s' = set_run e (record (s.runs e) { safety = false }) s in
    if (s.runs e).safety
    then if (s.runs e).cancelled || s.finished then s' else finish_splash e s'
    else s

-- The timeout that `finish` sets. `onComplete` unmounts the splash, by a later event.
unfoldable pub fade_due : ℕ → Splash → Splash
fade_due e s =
    let s' = record s { fading = take_out e s.fading } in
    if any (λ x. x == e) s.fading
    then if (s.runs e).cancelled then s' else record s' { completed = s.completed + 1 }
    else s

pub data Event : Type 0 where
  renders : Event
  unmounts : Event
  init_fails : ℕ → Event
  init_ends : ℕ → Bool → Event
  ticks : ℕ → ℕ → Event
  fallback_fires : ℕ → Event
  safety_fires : ℕ → Event
  fade_fires : ℕ → Event

unfoldable pub handle : Event → Splash → Splash
handle renders s = render_splash s
handle unmounts s = clean_up_splash s
handle (init_fails e) s = splash_init_failed e s
handle (init_ends e fonts) s = splash_init_done e fonts s
handle (ticks e elapsed) s = splash_tick e elapsed s
handle (fallback_fires e) s = fallback_due e s
handle (safety_fires e) s = safety_due e s
handle (fade_fires e) s = fade_due e s

unfoldable pub run : List Event → Splash → Splash
unfolding handle
run [] s = s
run (e ∷ es) s = run es (handle e s)
