-- ===== src/Game/Clock.antt =====
-- `formatTurnClock` of web/src/routes/game/$gameID.tsx: the text of a player's remaining time.
use dot_and_boxes.Prelude.{
  ℕ, ◌+◌, ◌*◌, ◌/◌, ◌%◌, ◌≤◌, ◌<◌, ◌≡◌, ap, false, [], ◌∷◌, ◌++◌, arith, if◌then◌else◌,
}
use dot_and_boxes.Prelude.Int.{ℤ, pos, negsuc, pos_part, ltb_ℤ, leb_ℤ, min_ℤ, ◌≤ℤ◌}
use dot_and_boxes.Prelude.Text.{Text, codes, decimal, pad_two, pad_two-decimal}
use dot_and_boxes.Game.Timer.{default_turn_limit_ms}

-- `Math.max(0, Math.ceil(ms / 1000))`
abbrev pub ceil_seconds : ℤ → ℕ
ceil_seconds (pos n) = (n + 999) / 1000
ceil_seconds (negsuc _) = 0

-- The limit that the clock goes by, and the seconds that it shows.
abbrev pub clock_limit : ℤ → ℤ
clock_limit limit = if ltb_ℤ (pos 0) limit then limit else default_turn_limit_ms

abbrev pub total_seconds : ℤ → ℤ → ℕ
total_seconds ms limit = ceil_seconds (min_ℤ ms (clock_limit limit))

unfoldable pub format_turn_clock : ℤ → ℤ → Text
format_turn_clock ms turn_limit_ms =
    let s = total_seconds ms turn_limit_ms in
    if leb_ℤ (clock_limit turn_limit_ms) (pos 90000)
    then decimal s ++ codes "s"
    else decimal (s / 60) ++ codes ":" ++ pad_two (decimal (s % 60))

ceil_seconds_bounds :
    (x : ℤ) → (x ≤ℤ pos (ceil_seconds x * 1000)) × (ceil_seconds x * 1000 ≤ pos_part x + 999)
ceil_seconds_bounds (pos n) = omega arith
ceil_seconds_bounds (negsuc n) = omega arith

ceil_seconds-le : (x y : ℤ) → x ≤ℤ y → ceil_seconds x ≤ (pos_part y + 999) / 1000
ceil_seconds-le (pos n) (pos m) h = omega arith
ceil_seconds-le (pos n) (negsuc m) h = absurd (omega arith)
ceil_seconds-le (negsuc n) y h = omega arith

min_ℤ_bounds : (x y : ℤ) → (min_ℤ x y ≤ℤ x) × (min_ℤ x y ≤ℤ y)
min_ℤ_bounds x y = ground arith

-- The seconds that the clock shows cover the time left up to the limit, by less than a second too
-- much, and stay within the limit rounded up to seconds.
pub total_seconds_bounds :
    (ms limit : ℤ)
    → (min_ℤ ms (clock_limit limit) ≤ℤ pos (total_seconds ms limit * 1000))
      × (total_seconds ms limit * 1000 ≤ pos_part ms + 999)
      × (total_seconds ms limit ≤ (pos_part (clock_limit limit) + 999) / 1000)
total_seconds_bounds ms limit =
    let l = clock_limit limit in
    let (low, high) = ceil_seconds_bounds (min_ℤ ms l) in
    let (by_ms, by_limit) = min_ℤ_bounds ms l in
    (
      low,
      pos_part-le (min_ℤ ms l) ms (ceil_seconds (min_ℤ ms l) * 1000) by_ms high,
      ceil_seconds-le (min_ℤ ms l) l by_limit,
    )
  where
    pos_part-le : (x y : ℤ) (k : ℕ) → x ≤ℤ y → k ≤ pos_part x + 999 → k ≤ pos_part y + 999
    pos_part-le (pos n) (pos m) k h b = omega arith
    pos_part-le (pos n) (negsuc m) k h b = omega arith
    pos_part-le (negsuc n) y k h b = omega arith

-- For a limit over 90 seconds the clock is minutes, a colon, and two digits of seconds below 60,
-- which together are the seconds left.
pub format_turn_clock_long :
    (ms limit : ℤ)
    → leb_ℤ (clock_limit limit) (pos 90000) ≡ false
    → (m : ℕ) × (s : ℕ) × (format_turn_clock ms limit
        ≡ decimal m ++ codes ":" ++ (48 + s / 10) ∷ (48 + s % 10) ∷ [])
      × (s < 60)
      × (m * 60 + s ≡ total_seconds ms limit)
unfolding format_turn_clock
format_turn_clock_long ms limit h =
    let t = total_seconds ms limit in
    (
      t / 60,
      t % 60,
      rw h (ap (λ u. decimal (t / 60) ++ codes ":" ++ u) (pad_two-decimal (t % 60) (omega arith))),
      omega arith,
      omega arith,
    )
