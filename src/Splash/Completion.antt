-- ===== src/Splash/Completion.antt =====
-- How often, and whether, the splash of DeployLoadingOverlay.tsx calls `onComplete`.
use dot_and_boxes.Prelude.{
  ℕ, ◌+◌, ◌≤◌, ◌<◌, ◌≡◌, refl, inl, inr, Bool, true, false, ◌||◌, none, some, List, [], ◌∷◌, any,
  length, ◌==◌, arith, Bool-cases,
}
use dot_and_boxes.Splash.{
  Run, Splash, new_splash, take_out, finish_splash, clean_up_splash, start_splash, render_splash,
  splash_init_failed, splash_init_done, splash_tick, fallback_due, safety_due, fade_due, Event,
  renders, unmounts, init_fails, init_ends, ticks, fallback_fires, safety_fires, fade_fires, handle,
  run,
}

abbrev pub is_mounted : Splash → ℕ → Bool
is_mounted s k = elim s.mounted [ none ↦ false | some m ↦ m == k ]

abbrev pub is_active : Run → Bool
is_active r = r.starting || r.ticking || r.fallback || r.safety

-- The run of the effect that an event is about.
abbrev pub subject : Event → ℕ
subject renders = 0
subject unmounts = 0
subject (init_fails e) = e
subject (init_ends e fonts) = e
subject (ticks e elapsed) = e
subject (fallback_fires e) = e
subject (safety_fires e) = e
subject (fade_fires e) = e

pub record Once (s : Splash) : Type 0 where
  pub early_fading : s.finished ≡ false → s.fading ≡ []
  pub early_completed : s.finished ≡ false → s.completed ≡ 0
  pub bound : length s.fading + s.completed ≤ 1

length-take_out :
    (e : ℕ) (xs : List ℕ) → any (λ x. x == e) xs ≡ true → length (take_out e xs) + 1 ≡ length xs
length-take_out e [] h = cc
length-take_out e (x ∷ xs) h = elim (Bool-cases (x == e)) [
  | inl same ↦ rw same (omega arith)
  | inr other ↦ rw other (omega (arith, length-take_out e xs (ground (arith, h, other))))
]

pub handle-Once : (ev : Event) (s : Splash) → Once s → Once (handle ev s)
unfolding handle render_splash clean_up_splash start_splash splash_init_failed splash_init_done
    splash_tick fallback_due safety_due finish_splash fade_due
handle-Once (fade_fires e) s o = ground (arith, length-take_out e s.fading)
handle-Once ev s o = ground arith

run-Once : (es : List Event) (s : Splash) → Once s → Once (run es s)
unfolding run
run-Once [] s o = o
run-Once (e ∷ es) s o = run-Once es (handle e s) (handle-Once e s o)

pub new_splash-Once : Once new_splash
new_splash-Once = record {
  early_fading = λ _. refl;
  early_completed = λ _. refl;
  bound = omega arith;
}

-- Of one run of the effect: it is mounted or cancelled once it was made, only a run that was made
-- awaits anything, and only such a run has a timeout of 420 ms.
record IsNumbered (s : Splash) (k : ℕ) : Type 0 where
  live : is_mounted s k ≡ true → (s.runs k).cancelled ≡ false
  made : is_mounted s k ≡ true → k < s.next
  gone : is_mounted s k ≡ false → k < s.next → (s.runs k).cancelled ≡ true
  fresh : s.next ≤ k → is_active (s.runs k) ≡ false
  faded : any (λ x. x == k) s.fading ≡ true → k < s.next

any-take_out :
    (e k : ℕ) (xs : List ℕ) → any (λ x. x == k) (take_out e xs) ≡ true → any (λ x. x == k) xs ≡ true
any-take_out e k [] h = h
any-take_out e k (x ∷ xs) h = ground (arith, any-take_out e k xs)

handle-IsNumbered :
    (ev : Event) (s : Splash) (k : ℕ)
    → IsNumbered s (subject ev)
    → IsNumbered s k
    → IsNumbered (handle ev s) k
unfolding handle render_splash clean_up_splash start_splash splash_init_failed splash_init_done
    splash_tick fallback_due safety_due finish_splash fade_due
handle-IsNumbered (fade_fires e) s k i j = ground (arith, any-take_out e k s.fading)
handle-IsNumbered ev s k i j = ground arith

run-IsNumbered :
    (es : List Event) (s : Splash) → ((k : ℕ) → IsNumbered s k) → (k : ℕ) → IsNumbered (run es s) k
unfolding run
run-IsNumbered [] s i = i
run-IsNumbered (e ∷ es) s i =
    run-IsNumbered es (handle e s) (λ k. handle-IsNumbered e s k (i (subject e)) (i k))

new_splash-IsNumbered : (k : ℕ) → IsNumbered new_splash k
new_splash-IsNumbered k = record {
  live = λ h. cc;
  made = λ h. cc;
  gone = λ _ h. absurd (omega arith);
  fresh = λ _. refl;
  faded = λ h. cc;
}

-- The splash has finished, no call of `onComplete` was made, and the runs that could make one are
-- cancelled.
record IsStuck (s : Splash) (k : ℕ) : Type 0 where
  over : s.finished ≡ true
  none_yet : s.completed ≡ 0
  cancelled : any (λ x. x == k) s.fading ≡ true → (s.runs k).cancelled ≡ true
  before : any (λ x. x == k) s.fading ≡ true → k < s.next

handle-IsStuck :
    (ev : Event) (s : Splash) (k : ℕ)
    → IsStuck s (subject ev)
    → IsStuck s k
    → IsStuck (handle ev s) k
unfolding handle render_splash clean_up_splash start_splash splash_init_failed splash_init_done
    splash_tick fallback_due safety_due finish_splash fade_due
handle-IsStuck (fade_fires e) s k i j = ground (arith, any-take_out e k s.fading)
handle-IsStuck ev s k i j = ground arith

run-IsStuck :
    (es : List Event) (s : Splash) → ((k : ℕ) → IsStuck s k) → (k : ℕ) → IsStuck (run es s) k
unfolding run
run-IsStuck [] s i = i
run-IsStuck (e ∷ es) s i =
    run-IsStuck es (handle e s) (λ k. handle-IsStuck e s k (i (subject e)) (i k))

render-IsStuck :
    (s : Splash) (k : ℕ)
    → s.finished ≡ true
    → s.completed ≡ 0
    → IsNumbered s k
    → IsStuck (render_splash s) k
unfolding render_splash clean_up_splash start_splash
render-IsStuck s k f c i = ground arith

-- Whatever happens, `onComplete` is called at most once.
pub completes_once : (es : List Event) → (run es new_splash).completed ≤ 1
completes_once es = let o = run-Once es _ new_splash-Once in omega (arith, o.bound)

-- A render of `Root` between the end of the splash and its call of `onComplete`, 420 ms later,
-- prevents that call for good, whatever happens then: the timeout is of a run of the effect that is
-- cancelled, and `finishedRef` keeps each later run from finishing.
pub rerender_blocks_completion :
    (es later : List Event)
    → (run es new_splash).finished ≡ true
    → (run es new_splash).completed ≡ 0
    → (run later (render_splash (run es new_splash))).completed ≡ 0
rerender_blocks_completion es later f c =
    let stuck =
      run-IsStuck later (render_splash (run es new_splash))
        (λ k. render-IsStuck _ k f c (run-IsNumbered es _ new_splash-IsNumbered k)) 0 in
    stuck.none_yet
