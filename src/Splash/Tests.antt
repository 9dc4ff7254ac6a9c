-- ===== src/Splash/Tests.antt =====
-- Runs of the splash, and the theorems about it at a splash that starts, is rendered again and ends.
use dot_and_boxes.Prelude.{◌≡◌, ◌≤◌, refl, true, List, [], ◌∷◌}
use dot_and_boxes.Splash.{
  new_splash, finish_splash, clean_up_splash, start_splash, render_splash, splash_init_done,
  splash_tick, fade_due, Event, renders, init_ends, ticks, safety_fires, fade_fires, handle, run,
}
use dot_and_boxes.Splash.Completion.{completes_once, rerender_blocks_completion}
use dot_and_boxes.Splash.Progress.{run-CanComplete, rest_of}
use dot_and_boxes.Splash.Console.{type_tick, type_ticks, new_console}
use dot_and_boxes.Splash.Console.Typing.{CatchesUp, tick-CatchesUp}
use dot_and_boxes.Splash.Console.Typing.Lines.{IsTyped}

-- Mounted, started, and over after 1,216 ms.
abbrev shown : List Event
shown = renders ∷ init_ends 0 true ∷ ticks 0 16 ∷ ticks 0 1216 ∷ []

completes : (run (fade_fires 0 ∷ []) (run shown new_splash)).completed ≡ 1
unfolding run handle render_splash clean_up_splash start_splash splash_init_done splash_tick
    finish_splash fade_due
completes = refl

completes_once_example :
    (run (fade_fires 0 ∷ fade_fires 0 ∷ safety_fires 0 ∷ shown) new_splash).completed ≤ 1
completes_once_example = completes_once (fade_fires 0 ∷ fade_fires 0 ∷ safety_fires 0 ∷ shown)

-- The user's data come in, and `Root` renders, while the splash fades.
rerender_blocks_completion_example :
    (run
      (fade_fires 0 ∷ init_ends 1 true ∷ ticks 1 1216 ∷ safety_fires 1 ∷ [])
      (render_splash (run shown new_splash))).completed
    ≡ 0
unfolding run handle render_splash clean_up_splash start_splash splash_init_done splash_tick
    finish_splash
rerender_blocks_completion_example =
    rerender_blocks_completion shown
      (fade_fires 0 ∷ init_ends 1 true ∷ ticks 1 1216 ∷ safety_fires 1 ∷ []) refl refl

abbrev rerendered : List Event
rerendered = renders ∷ renders ∷ init_ends 0 true ∷ init_ends 1 true ∷ []

run-CanComplete_example :
    (run (rest_of (run rerendered new_splash) 1) (run rerendered new_splash)).completed ≡ 1
unfolding run handle render_splash clean_up_splash start_splash splash_init_done
run-CanComplete_example = run-CanComplete rerendered 1 (refl, (refl, (tt, (tt, tt)))) refl refl

tick-CatchesUp_example :
    IsTyped 100 (type_ticks (116 ∷ 160 ∷ []) (new_console 100))
    × CatchesUp 32 2000
        (type_ticks (116 ∷ 160 ∷ []) (new_console 100))
        (type_tick 2000 (type_ticks (116 ∷ 160 ∷ []) (new_console 100)))
tick-CatchesUp_example = tick-CatchesUp 100 2000 (116 ∷ 160 ∷ [])
