-- ===== src/Splash/Progress.antt =====
-- That the splash of DeployLoadingOverlay.tsx always has a way to its end, as long as `Root` does not
-- render again after `finish`.
use dot_and_boxes.Prelude.{ℕ, ◌≡◌, true, false, ◌||◌, List, [], ◌∷◌, if◌then◌else◌, arith}
use dot_and_boxes.Splash.{
  Splash, new_splash, finish_splash, clean_up_splash, start_splash, render_splash,
  splash_init_failed, splash_init_done, splash_tick, fallback_due, safety_due, fade_due, Event,
  renders, init_fails, fallback_fires, safety_fires, fade_fires, handle, run,
}
use dot_and_boxes.Splash.Completion.{
  is_mounted, is_active, subject, Once, handle-Once, new_splash-Once,
}

-- `Root` renders with a new `onComplete` only while the splash has not finished.
abbrev pub IsCalm : Event → Splash → Type 0
IsCalm renders s = s.finished ≡ false
IsCalm _ s = Unit

abbrev pub AreCalm : List Event → Splash → Type 0
AreCalm [] s = Unit
AreCalm (e ∷ es) s = IsCalm e s × AreCalm es (handle e s)

record IsUnderway (s : Splash) (k : ℕ) : Type 0 where
  live : is_mounted s k ≡ true → (s.runs k).cancelled ≡ false
  own : (s.runs k).cancelled ≡ false → is_active (s.runs k) ≡ true → is_mounted s k ≡ true
  ahead :
      is_mounted s k ≡ true
      → s.finished ≡ false
      → ((s.runs k).starting || (s.runs k).fallback || (s.runs k).safety) ≡ true
  ending : is_mounted s k ≡ true → s.finished ≡ true → s.completed ≡ 0 → s.fading ≡ k ∷ []

handle-IsUnderway :
    (ev : Event) (s : Splash) (k : ℕ)
    → IsCalm ev s
    → Once s
    → IsUnderway s (subject ev)
    → IsUnderway s k
    → IsUnderway (handle ev s) k
unfolding handle render_splash clean_up_splash start_splash splash_init_failed splash_init_done
    splash_tick fallback_due safety_due finish_splash fade_due
handle-IsUnderway renders s k c o i j = ground arith
handle-IsUnderway ev s k c o i j = ground arith

run-IsUnderway :
    (es : List Event) (s : Splash)
    → AreCalm es s
    → Once s
    → ((k : ℕ) → IsUnderway s k)
    → Once (run es s) × ((k : ℕ) → IsUnderway (run es s) k)
unfolding run
run-IsUnderway [] s c o i = (o, i)
run-IsUnderway (e ∷ es) s (c, cs) o i =
    run-IsUnderway es (handle e s) cs (handle-Once e s o)
      (λ k. handle-IsUnderway e s k c o (i (subject e)) (i k))

new_splash-IsUnderway : (k : ℕ) → IsUnderway new_splash k
new_splash-IsUnderway k = record {
  live = λ h. cc;
  own = λ _ h. cc;
  ahead = λ h. cc;
  ending = λ h. cc;
}

-- A way to the end: what the browser does next for the run that is mounted, where `app.init` fails if
-- it is awaited.
abbrev pub rest_of : Splash → ℕ → List Event
rest_of s e =
    if s.finished
    then fade_fires e ∷ []
    else if (s.runs e).starting
    then init_fails e ∷ fallback_fires e ∷ fade_fires e ∷ []
    else if (s.runs e).fallback
    then fallback_fires e ∷ fade_fires e ∷ []
    else safety_fires e ∷ fade_fires e ∷ []

rest_of_lem :
    (s : Splash) (e : ℕ)
    → is_mounted s e ≡ true
    → s.completed ≡ 0
    → Once s
    → IsUnderway s e
    → (run (rest_of s e) s).completed ≡ 1
unfolding run handle splash_init_failed fallback_due safety_due finish_splash fade_due
rest_of_lem s e m c o i = ground arith

-- As long as `Root` renders the splash again only before its `finish`, the splash that is mounted and
-- has not called `onComplete` is not stuck: its run awaits `app.init` or has a timeout that is set,
-- and what is due of these, and then the timeout of `finish`, calls `onComplete` once.
pub run-CanComplete :
    (es : List Event) (e : ℕ)
    → AreCalm es new_splash
    → is_mounted (run es new_splash) e ≡ true
    → (run es new_splash).completed ≡ 0
    → (run (rest_of (run es new_splash) e) (run es new_splash)).completed ≡ 1
run-CanComplete es e c m z =
    let (o, i) = run-IsUnderway es new_splash c new_splash-Once new_splash-IsUnderway in
    rest_of_lem (run es new_splash) e m z o (i e)
