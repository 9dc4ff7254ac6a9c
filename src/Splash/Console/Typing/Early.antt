-- ===== src/Splash/Console/Typing/Early.antt =====
-- What the splash of DeployLoadingOverlay.tsx has shown when it may end.
use dot_and_boxes.Prelude.{
  ℕ, zero, suc, ◌+◌, ◌*◌, ◌≤◌, ◌<◌, inl, inr, List, [], ◌∷◌, ltb, arith, Bool-cases, All,
}
use dot_and_boxes.Splash.Console.{
  console_lines, Console, new_console, type_tick, type_ticks, percent,
}
use dot_and_boxes.Splash.Console.Typing.{
  type_burst-CatchesUp, new_console-IsTyped, type_ticks-IsTyped,
}
use dot_and_boxes.Splash.Console.Typing.Lines.{time_before, IsTyped}

pub type_ticks_late :
    (start bound : ℕ) (nows : List ℕ) (c : Console)
    → IsTyped start c
    → c.next_event_at ≤ bound + 160
    → All (λ now. now ≤ bound) nows
    → (type_ticks nows c).next_event_at ≤ bound + 160
unfolding type_ticks type_tick
type_ticks_late start bound [] c t h a = h
type_ticks_late start bound (now ∷ nows) c t h (a, later) =
    let (t', u) = type_burst-CatchesUp 32 now start c t in
    type_ticks_late start bound nows (type_tick now c) t' (ground (arith, u.none_early, a, h)) later

pub time_late : (k n : ℕ) → 2 ≤ k → 1569 ≤ time_before console_lines k + n + 1
time_late zero n h = absurd (omega arith)
time_late (suc zero) n h = absurd (omega arith)
time_late (suc (suc k)) n h = omega arith

pub percent_early : (elapsed : ℕ) → elapsed < 1200 → percent elapsed ≤ 15
unfolding percent
percent_early elapsed h = ground arith

-- In the first 1,200 ms, the time after which the splash ends, the percentage stays at 15 at most,
-- and the console has not begun the third of its four lines.
pub splash_ends_early :
    (start elapsed : ℕ) (nows : List ℕ)
    → elapsed < 1200
    → All (λ now. now ≤ start + elapsed) nows
    → (percent elapsed ≤ 15) × ((type_ticks nows (new_console start)).line_index < 2)
splash_ends_early start elapsed nows h a =
    let c = type_ticks nows (new_console start) in
    let t = type_ticks-IsTyped start nows (new_console start) (new_console-IsTyped start) in
    let l =
      type_ticks_late start (start + elapsed) nows (new_console start) (new_console-IsTyped start)
        (omega arith) a in
    (
      percent_early elapsed h,
      elim (Bool-cases (ltb c.line_index 2)) [
        | inl early ↦ ground (arith, early)
        | inr late ↦
            let p = time_late c.line_index (32 * c.col_in_line) (ground (arith, late)) in
            absurd (omega (arith, p, l, t.on_time))
      ],
    )
