-- ===== src/Replay/Playback/Range.antt =====
-- The step of the playback against the snapshots that there are, or are not yet
-- (web/src/routes/_authenticated/replay/$gameID.tsx).
use dot_and_boxes.Prelude.{
  ℕ, zero, suc, ◌+◌, ◌<◌, ◌≡◌, refl, ap, ◌∙◌, ◌⊎◌, inl, inr, true, false, none, some, List, [], ◌∷◌,
  String, length, get_elem?-lt, arith, All,
}
use dot_and_boxes.Prelude.Int.{ℤ, pos, negsuc, pos_part, neg_part, ◌+ℤ◌, min_ℤ}
use dot_and_boxes.Replay.{ReplayState}
use dot_and_boxes.Board.{at?}
use dot_and_boxes.Replay.Playback.{
  Playback, current_state, Event, drag, effect, interval_call, key_down, tick, handle, run,
}

-- A step that is the number of one of `total` snapshots, and one of the four speeds.
pub record InRange (total : ℕ) (p : Playback) : Type 0 where
  pub nonneg : neg_part p.current_step ≡ 0
  pub step_lt : pos_part p.current_step < total
  pub speed_lt : p.speed_index < 4

-- The browser keeps the range input within 0 and `total - 1`.
abbrev pub IsOffered : ℕ → Event → Type 0
IsOffered total (drag value) = (neg_part value ≡ 0) × (pos_part value < total)
IsOffered total _ = Unit

handle-InRange :
    (total : ℕ) (e : Event) (p : Playback)
    → IsOffered total e
    → InRange total p
    → InRange total (handle total e p)
unfolding handle
handle-InRange total effect p o i = ground arith
handle-InRange total _ p o i = ground arith

-- While there are `total` snapshots, no control, key, drag within the range or call of the
-- interval, in any order, moves a step and a speed that are in range out of it.
pub run-InRange :
    (total : ℕ) (es : List Event) (p : Playback)
    → All (IsOffered total) es
    → InRange total p
    → InRange total (run total es p)
unfolding run
run-InRange total [] p o i = i
run-InRange total (e ∷ es) p o i =
    run-InRange total es (handle total e p) o.1 (handle-InRange total e p o.0 i)

current_state_of-InRange :
    (states : List ReplayState) (p : Playback)
    → InRange (length states) p
    → (s : ReplayState) × (current_state states p ≡ some s)
current_state_of-InRange states p i = go p.current_step i.nonneg i.step_lt
  where
    go :
        (x : ℤ)
        → neg_part x ≡ 0
        → pos_part x < length states
        → (s : ReplayState) × (at? states x ≡ some s)
    go (pos n) z h = get_elem?-lt states n h
    go (negsuc n) z h = absurd (omega arith)

-- With a step and a speed in range for the snapshots that there are, the page shows one of the
-- snapshots after any controls, keys, drags within the range and calls of the interval, in any order.
pub run-shows :
    (states : List ReplayState) (es : List Event) (p : Playback)
    → All (IsOffered (length states)) es
    → InRange (length states) p
    → (s : ReplayState) × (current_state states (run (length states) es p) ≡ some s)
run-shows states es p o i =
    current_state_of-InRange states (run (length states) es p)
      (run-InRange (length states) es p o i)

abbrev pub calls : ℕ → List Event
calls zero = []
calls (suc k) = interval_call ∷ calls k

tick-moves :
    (total k : ℕ) (p : Playback)
    → InRange total p
    → p.interval ≡ true
    → pos_part p.current_step + suc k < total
    → (tick total p).interval ≡ true
      × (pos_part (tick total p).current_step ≡ pos_part p.current_step + 1)
unfolding tick
tick-moves total k p i on h = ground arith

tick_at_end :
    (total : ℕ) (p : Playback)
    → InRange total p
    → p.interval ≡ true
    → pos_part p.current_step + 1 ≡ total
    → (tick total p).interval ≡ false
      × ((tick total p).is_playing ≡ false)
      × ((tick total p).current_step ≡ p.current_step)
unfolding tick
tick_at_end total p i on h = ground arith

-- From a step `s` in range, with the interval running, `total - s` calls of the interval, and no
-- other event, bring the replay to the last snapshot and stop it there.
pub playback_ends :
    (total k : ℕ) (p : Playback)
    → InRange total p
    → p.interval ≡ true
    → pos_part p.current_step + suc k ≡ total
    → (pos_part (run total (calls (suc k)) p).current_step + 1 ≡ total)
      × ((run total (calls (suc k)) p).is_playing ≡ false)
      × ((run total (calls (suc k)) p).interval ≡ false)
unfolding run
playback_ends total zero p i on h =
    let (off, stopped, same) = tick_at_end total p i on (omega arith) in
    (ap (λ x. pos_part x + 1) same ∙ omega arith, stopped, off)
playback_ends total (suc k) p i on h =
    let (on', moved) = tick-moves total k p i on (omega arith) in
    playback_ends total k (tick total p) (handle-InRange total interval_call p tt i) on'
      (omega (arith, moved))

min_of_nonneg : (x : ℤ) → neg_part x ≡ 0 → min_ℤ (x +ℤ pos 1) (negsuc 0) ≡ negsuc 0
min_of_nonneg x h = ground arith

-- While the log is still loading there is no snapshot, but the keys are handled. Then `End`, and
-- at a step of zero or more the right arrow, set the step to -1, and when any snapshots arrive the page shows none of them.
pub loading_keys_lose_step :
    (key : String) (p : Playback) (states : List ReplayState)
    → (key ≡ "End") ⊎ ((key ≡ "ArrowRight") × (neg_part p.current_step ≡ 0))
    → (handle 0 (key_down key) p).current_step ≡ negsuc 0
      × (current_state states (handle 0 (key_down key) p) ≡ none)
unfolding handle
loading_keys_lose_step key p states (inl e) = rw e (refl, refl)
loading_keys_lose_step key p states (inr (e, i)) =
    let back = min_of_nonneg p.current_step i in rw e (back, ap (at? states) back)
