-- ===== src/Splash/Console.antt =====
-- The console of DeployLoadingOverlay.tsx: the `while` loop of `tick`, which types one character or ends
-- one line for each event that is due, 32 at most in a frame, and the percentage beside the bar. Times are
-- whole milliseconds, and the quotient of the percentage is exact.
pub mod Typing
use dot_and_boxes.Prelude.{
  ℕ, zero, suc, ◌+◌, ◌*◌, ◌/◌, ◌-◌, ◌≡◌, refl, Bool, true, false, ◌&&◌, Option, none, some, List,
  [], ◌∷◌, get_elem?, modify, length, take, map, if◌then◌else◌, ltb, leb, min,
}
use dot_and_boxes.Prelude.Text.{Text, codes}

abbrev pub console_lines : List Text
console_lines =
    codes "Initializing engine..."
    ∷ codes "Loading assets..."
    ∷ codes "Connecting server..."
    ∷ codes "Ready."
    ∷ []

pub record Console : Type 0 where
  pub line_index : ℕ
  pub col_in_line : ℕ
  pub next_event_at : ℕ
  -- the texts of `lineTexts`
  pub texts : List Text

abbrev pub new_console : ℕ → Console
new_console start = record {
  line_index = 0;
  col_in_line = 0;
  next_event_at = start;
  texts = map (λ _. []) console_lines;
}

-- The body of the loop, for the line `full`.
unfoldable pub type_event : Text → Console → Console
type_event full c =
    if ltb c.col_in_line (length full)
    then record c {
      col_in_line = c.col_in_line + 1;
      texts = modify c.texts c.line_index (λ _. take (c.col_in_line + 1) full);
      next_event_at = c.next_event_at + 32;
    }
    else record c {
      line_index = c.line_index + 1;
      col_in_line = 0;
      next_event_at = c.next_event_at + 160;
    }

-- The loop, with the rounds that `burst` leaves.
unfoldable pub type_burst : ℕ → ℕ → Console → Console
type_burst zero now c = c
type_burst (suc left) now c =
    if ltb c.line_index (length console_lines) && leb c.next_event_at now
    then elim (get_elem? console_lines c.line_index) as (λ _. Console) [
      | none ↦ c
      | some [] ↦ c
      | some (x ∷ full) ↦ type_burst left now (type_event (x ∷ full) c)
    ]
    else c

unfoldable pub type_tick : ℕ → Console → Console
unfolding type_burst
type_tick now c = type_burst 32 now c

-- The ticks at these times.
unfoldable pub type_ticks : List ℕ → Console → Console
unfolding type_tick
type_ticks [] c = c
type_ticks (now ∷ nows) c = type_ticks nows (type_tick now c)

-- `Math.min(100, Math.floor(p * 100))`
unfoldable pub percent : ℕ → ℕ
percent elapsed = min 100 (min 7500 elapsed * 100 / 7500)
