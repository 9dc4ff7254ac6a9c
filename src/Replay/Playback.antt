-- ===== src/Replay/Playback.antt =====
-- The playback controls of web/src/routes/_authenticated/replay/$gameID.tsx: the current step, play
-- and pause, the interval that advances the step, and the keyboard. `total` is the number of
-- snapshots; a step is an integer, since the code computes `totalSteps - 1` also while there is no
-- snapshot yet.
pub mod Range
use package.dot_and_boxes.Prelude.{
  ℕ, zero, suc, ◌+◌, ◌%◌, Bool, true, false, Option, none, List, [], ◌∷◌, String, length, get_elem?,
  if◌then◌else◌,
}
use package.dot_and_boxes.Prelude.Int.{ℤ, pos, negsuc, ◌+ℤ◌, ◌-ℤ◌, leb_ℤ, min_ℤ, max_ℤ}
use package.dot_and_boxes.Board.{at?}
use package.dot_and_boxes.Replay.{ReplayState}
use text.Mathlib.Text.{◌==◌ as str_eq}

pub record Speed : Type 0 where
  pub label : String
  pub value : ℕ

abbrev pub speed_options : List Speed
speed_options =
    record { label = "0.5x"; value = 2000 }
    ∷ record { label = "1x"; value = 1000 }
    ∷ record { label = "2x"; value = 500 }
    ∷ record { label = "4x"; value = 250 }
    ∷ []

-- `interval` tells whether `intervalRef` holds a running interval.
pub record Playback : Type 0 where
  pub current_step : ℤ
  pub is_playing : Bool
  pub speed_index : ℕ
  pub interval : Bool

-- The first render.
abbrev pub new_playback : Playback
new_playback = record {
  current_step = pos 0;
  is_playing = false;
  speed_index = 1;
  interval = false;
}

abbrev pub last_step : ℕ → ℤ
last_step total = pos total -ℤ pos 1

abbrev pub is_at_end : ℕ → Playback → Bool
is_at_end total p = leb_ℤ (last_step total) p.current_step

-- `replayStates[currentStep] || null`
abbrev pub current_state : List ReplayState → Playback → Option ReplayState
current_state states p = at? states p.current_step

unfoldable pub stop_playback : Playback → Playback
stop_playback p = record p { interval = false; is_playing = false }

unfoldable pub start_playback : ℕ → Playback → Playback
start_playback total p = record p {
  current_step = if is_at_end total p then pos 0 else p.current_step;
  is_playing = true;
}

-- The effect on `isPlaying`, the speed and the number of steps.
unfoldable pub run_effect : Playback → Playback
run_effect p = if p.is_playing then record p { interval = true } else record p { interval = false }

-- One call by the interval, which comes only while the interval runs.
unfoldable pub tick : ℕ → Playback → Playback
unfolding stop_playback
tick total p =
    if p.interval
    then if is_at_end total p
      then stop_playback p
      else record p { current_step = p.current_step +ℤ pos 1 }
    else p

unfoldable pub step_forward : ℕ → Playback → Playback
unfolding stop_playback
step_forward total p = record (stop_playback p) {
  current_step = min_ℤ (p.current_step +ℤ pos 1) (last_step total);
}

unfoldable pub step_backward : Playback → Playback
unfolding stop_playback
step_backward p = record (stop_playback p) {
  current_step = max_ℤ (p.current_step -ℤ pos 1) (pos 0);
}

unfoldable pub go_to_start : Playback → Playback
unfolding stop_playback
go_to_start p = record (stop_playback p) { current_step = pos 0 }

unfoldable pub go_to_end : ℕ → Playback → Playback
unfolding stop_playback
go_to_end total p = record (stop_playback p) { current_step = last_step total }

unfoldable pub toggle_play : ℕ → Playback → Playback
unfolding stop_playback start_playback
toggle_play total p = if p.is_playing then stop_playback p else start_playback total p

unfoldable pub cycle_speed : Playback → Playback
cycle_speed p = record p { speed_index = (p.speed_index + 1) % length speed_options }

-- `handleKeyDown`
unfoldable pub handle_key_down : ℕ → String → Playback → Playback
unfolding toggle_play step_forward step_backward go_to_start go_to_end
handle_key_down total key p =
    if str_eq key " "
    then toggle_play total p
    else if str_eq key "ArrowRight"
    then step_forward total p
    else if str_eq key "ArrowLeft"
    then step_backward p
    else if str_eq key "Home"
    then go_to_start p
    else if str_eq key "End"
    then go_to_end total p
    else p

-- The range input's `onChange`.
unfoldable pub drag_to : ℤ → Playback → Playback
unfolding stop_playback
drag_to value p = record (stop_playback p) { current_step = value }

-- What can happen to the page while its snapshots are `total` many.
pub data Event : Type 0 where
  effect interval_call press_toggle press_forward press_backward press_start press_end press_speed :
      Event
  key_down : String → Event
  drag : ℤ → Event

unfoldable pub handle : ℕ → Event → Playback → Playback
unfolding run_effect tick handle_key_down toggle_play step_forward step_backward go_to_start
    go_to_end cycle_speed drag_to
handle total effect p = run_effect p
handle total interval_call p = tick total p
handle total press_toggle p = toggle_play total p
handle total press_forward p = step_forward total p
handle total press_backward p = step_backward p
handle total press_start p = go_to_start p
handle total press_end p = go_to_end total p
handle total press_speed p = cycle_speed p
handle total (key_down key) p = handle_key_down total key p
handle total (drag value) p = drag_to value p

unfoldable pub run : ℕ → List Event → Playback → Playback
unfolding handle
run total [] p = p
run total (e ∷ es) p = run total es (handle total e p)
