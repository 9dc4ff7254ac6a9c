-- ===== src/Splash/Console/Typing.antt =====
-- What the console of DeployLoadingOverlay.tsx shows after any ticks, and when.
pub mod Early
pub mod Lines
use dot_and_boxes.Prelude.{
  ℕ, zero, suc, ◌+◌, ◌*◌, ◌≡◌, ◌≤◌, ◌<◌, refl, ◌⊎◌, inl, inr, ap, true, ◌&&◌, some, List, [], ◌∷◌,
  get_elem?, modify, get_elem?-modify, length, take, map, if◌then◌else◌, ltb, leb, ◌==◌, arith,
  Bool-cases, Option-cases, All,
}
use dot_and_boxes.Prelude.Text.{Text}
use mathlib.Core.Option
use dot_and_boxes.Splash.Console.{
  console_lines, Console, new_console, type_event, type_burst, type_tick, type_ticks, percent,
}
use dot_and_boxes.Splash.Console.Typing.Lines.{
  time_before, events_before, before_suc, take_all, line_at, events_of, IsTyped, shown_char,
  shown_end, end_time, end_events,
}

type_event-IsTyped :
    (start : ℕ) (full : Text) (c : Console)
    → get_elem? console_lines c.line_index ≡ some full
    → IsTyped start c
    → IsTyped start (type_event full c)
unfolding type_event
type_event-IsTyped start full c h t = elim (Bool-cases (ltb c.col_in_line (length full))) [
  | inl more ↦ rw more record {
    on_time = omega (arith, t.on_time);
    fits = λ full' h'. let e : full ≡ full' = cc in rw (← e) (ground (arith, more));
    shown = λ i. shown_char i c.line_index c.col_in_line full console_lines c.texts h (t.shown i);
  }
  | inr whole ↦
      let e : c.col_in_line ≡ length full = ground (arith, t.fits full h) in
      rw whole record {
        on_time =
            end_time start c.line_index c.col_in_line c.next_event_at full console_lines h e
              t.on_time;
        fits = λ _ _. omega arith;
        shown =
            λ i. shown_end i c.line_index c.col_in_line full console_lines c.texts h e (t.shown i);
      }
]

type_event-events :
    (start : ℕ) (full : Text) (c : Console)
    → get_elem? console_lines c.line_index ≡ some full
    → IsTyped start c
    → (events_of (type_event full c) ≡ events_of c + 1)
      × ((type_event full c).next_event_at ≤ c.next_event_at + 160)
unfolding type_event
type_event-events start full c h t = elim (Bool-cases (ltb c.col_in_line (length full))) [
  | inl more ↦ rw more (omega arith, omega arith)
  | inr whole ↦
      let e : c.col_in_line ≡ length full = ground (arith, t.fits full h) in
      rw whole (end_events c.line_index c.col_in_line full console_lines h e, omega arith)
]

line_there :
    (k : ℕ)
    → ltb k 4 ≡ true
    → (x : ℕ) × (full : Text) × (get_elem? console_lines k ≡ some (x ∷ full))
line_there zero h = (_, _, refl)
line_there (suc zero) h = (_, _, refl)
line_there (suc (suc zero)) h = (_, _, refl)
line_there (suc (suc (suc zero))) h = (_, _, refl)
line_there (suc (suc (suc (suc k)))) h = absurd (ground (arith, h))

-- What `left` rounds of the loop do at the time `now`: each event that they handle was due, and they end
-- with none left that is due, or after `left` events.
pub record CatchesUp (left now : ℕ) (c c' : Console) : Type 0 where
  pub at_least : events_of c ≤ events_of c'
  pub at_most : events_of c' ≤ events_of c + left
  pub all_due : (events_of c' ≡ events_of c + left) ⊎ (4 ≤ c'.line_index) ⊎ (now < c'.next_event_at)
  pub none_early : (c'.next_event_at ≡ c.next_event_at) ⊎ (c'.next_event_at ≤ now + 160)

type_burst-CatchesUp :
    (left now start : ℕ) (c : Console)
    → IsTyped start c
    → IsTyped start (type_burst left now c) × CatchesUp left now c (type_burst left now c)
unfolding type_burst
type_burst-CatchesUp zero now start c t = (
  t,
  record {
    at_least = omega arith;
    at_most = omega arith;
    all_due = inl (omega arith);
    none_early = inl refl;
  },
)
type_burst-CatchesUp (suc left) now start c t =
    elim (Bool-cases (ltb c.line_index 4 && leb c.next_event_at now)) [
      | inr stop ↦ rw stop (
        t,
        record {
          at_least = omega arith;
          at_most = omega arith;
          all_due = inr (ground (arith, stop));
          none_early = inl refl;
        },
      )
      | inl go ↦
          let (x, full, h) = line_there c.line_index (ground (arith, go)) in
          let (t', u) =
            type_burst-CatchesUp left now start (type_event (x ∷ full) c)
              (type_event-IsTyped start (x ∷ full) c h t) in
          let (one, late) = type_event-events start (x ∷ full) c h t in
          rw (go, h)
            (
              t',
              record {
                at_least = omega (arith, u.at_least, one);
                at_most = omega (arith, u.at_most, one);
                all_due = ground (arith, u.all_due, one);
                none_early = inr (ground (arith, u.none_early, late, go));
              },
            )
    ]

new_console-IsTyped : (start : ℕ) → IsTyped start (new_console start)
new_console-IsTyped start = record {
  on_time = omega arith;
  fits = λ _ _. omega arith;
  shown = empty;
}
  where
    empty :
        (i : ℕ)
        → get_elem? (map (λ _. []) console_lines) i
          ≡ Option.map (line_at 0 0 i) (get_elem? console_lines i)
    empty zero = refl
    empty (suc zero) = refl
    empty (suc (suc zero)) = refl
    empty (suc (suc (suc zero))) = refl
    empty (suc (suc (suc (suc i)))) = refl

type_ticks-IsTyped :
    (start : ℕ) (nows : List ℕ) (c : Console) → IsTyped start c → IsTyped start (type_ticks nows c)
unfolding type_ticks
type_ticks-IsTyped start [] c t = t
type_ticks-IsTyped start (now ∷ nows) c t =
    type_ticks-IsTyped start nows (type_tick now c)
      (unfold type_tick in (type_burst-CatchesUp 32 now start c t).0)

-- After any ticks, whatever their times, the lines before the one that is being typed are whole, of that
-- one the characters typed so far are shown, the others are empty, and the next event comes 32 ms a
-- character and 160 ms a line after the start. A further tick at the time `now` handles only events that are due: the event
-- after the last one that it handled comes at most 160 ms after `now`. It handles 32 events, or leaves
-- none that is due, or is done with the last line.
pub tick-CatchesUp :
    (start now : ℕ) (nows : List ℕ)
    → IsTyped start (type_ticks nows (new_console start))
      × CatchesUp 32 now
          (type_ticks nows (new_console start))
          (type_tick now (type_ticks nows (new_console start)))
unfolding type_tick
tick-CatchesUp start now nows =
    let t = type_ticks-IsTyped start nows (new_console start) (new_console-IsTyped start) in
    (t, (type_burst-CatchesUp 32 now start _ t).1)
