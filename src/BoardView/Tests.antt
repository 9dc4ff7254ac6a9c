-- ===== src/BoardView/Tests.antt =====
-- A run of the view of the board, Grid.tsx, over the integers with NaN and a division that rounds down.
use dot_and_boxes.Prelude.{
  ℕ, zero, suc, ◌/◌, ◌*◌, ◌≤◌, ◌<◌, ◌≡◌, Bool, true, false, Option, none, some, List, [], ◌∷◌,
  arith, if◌then◌else◌,
}
use native.Mathlib.Nat.{div-le_self, le-div_iff_mul-le}
use dot_and_boxes.Prelude.Int.{ℤ, pos, negsuc, ◌+ℤ◌, ◌-ℤ◌, leb_ℤ}
use dot_and_boxes.BoardView.{
  Numbers, Laws, exact_bound, Rect, ViewEvent, canvas_comes, wheels, zooms, downs, moves, ends,
  initial_view, run_view_events,
}
use dot_and_boxes.BoardView.Inside.{IsInside, run_view_events-IsInside}

-- NaN is `none`, also as what a division by zero gives.
abbrev over_ℤ : ℤ → ℤ → Option ℤ
over_ℤ a (pos zero) = none
over_ℤ (pos a) (pos (suc b)) = some (pos (a / suc b))
over_ℤ (negsuc a) (pos (suc b)) = some (pos 0 -ℤ pos (suc a / suc b))
over_ℤ (pos a) (negsuc b) = some (pos 0 -ℤ pos (a / suc b))
over_ℤ (negsuc a) (negsuc b) = some (pos (suc a / suc b))

abbrev times_ℤ : ℤ → ℤ → ℤ
times_ℤ (pos a) (pos b) = pos (a * b)
times_ℤ (pos a) (negsuc b) = pos 0 -ℤ pos (a * suc b)
times_ℤ (negsuc a) (pos b) = pos 0 -ℤ pos (suc a * b)
times_ℤ (negsuc a) (negsuc b) = pos (suc a * suc b)

abbrev lifted : (ℤ → ℤ → Option ℤ) → Option ℤ → Option ℤ → Option ℤ
lifted f none b = none
lifted f (some a) none = none
lifted f (some a) (some b) = f a b

abbrev le : Option ℤ → Option ℤ → Bool
le none b = false
le (some a) none = false
le (some a) (some b) = leb_ℤ a b

abbrev over : Option ℤ → Option ℤ → Option ℤ
over = lifted over_ℤ

abbrev min_of : Option ℤ → Option ℤ → Option ℤ
min_of = lifted (λ a b. some (if leb_ℤ a b then a else b))

abbrev max_of : Option ℤ → Option ℤ → Option ℤ
max_of = lifted (λ a b. some (if leb_ℤ a b then b else a))

abbrev integers : Numbers
integers = record {
  Number = Option ℤ;
  of_ℕ = λ n. some (pos n);
  plus = lifted (λ a b. some (a +ℤ b));
  minus = lifted (λ a b. some (a -ℤ b));
  times = lifted (λ a b. some (times_ℤ a b));
  over = over;
  le = le;
  min_of = min_of;
  max_of = max_of;
}

leb_ℤ_refl : (a : ℤ) → leb_ℤ a a ≡ true
leb_ℤ_refl a = ground arith

leb_ℤ_max : (a b : ℤ) → leb_ℤ b (if leb_ℤ a b then b else a) ≡ true
leb_ℤ_max a b = ground arith

leb_ℤ_min : (a b : ℤ) → leb_ℤ (if leb_ℤ a b then a else b) b ≡ true
leb_ℤ_min a b = ground arith

le_trans : (a b c : Option ℤ) → le a b ≡ true → le b c ≡ true → le a c ≡ true
le_trans none b c h k = absurd (cc)
le_trans (some a) none c h k = absurd (cc)
le_trans (some a) (some b) none h k = absurd (cc)
le_trans (some a) (some b) (some c) h k = ground (arith, h, k)

max_low : (a b : Option ℤ) → le (max_of a b) (max_of a b) ≡ true → le b (max_of a b) ≡ true
max_low none b h = absurd (cc)
max_low (some a) none h = absurd (cc)
max_low (some a) (some b) h = leb_ℤ_max a b

max_real : (a b : Option ℤ) → le a a ≡ true → le b b ≡ true → le (max_of a b) (max_of a b) ≡ true
max_real none b h k = absurd (cc)
max_real (some a) none h k = absurd (cc)
max_real (some a) (some b) h k = leb_ℤ_refl (if leb_ℤ a b then b else a)

min_real : (a b : Option ℤ) → le (min_of a b) (min_of a b) ≡ true → le a a ≡ true
min_real none b h = h
min_real (some a) b h = leb_ℤ_refl a

min_high : (a b : Option ℤ) → le (min_of a b) (min_of a b) ≡ true → le (min_of a b) b ≡ true
min_high none b h = absurd (cc)
min_high (some a) none h = absurd (cc)
min_high (some a) (some b) h = leb_ℤ_min a b

le_min : (x a b : Option ℤ) → le x a ≡ true → le x b ≡ true → le x (min_of a b) ≡ true
le_min none a b h k = absurd (cc)
le_min (some x) none b h k = absurd (cc)
le_min (some x) (some a) none h k = absurd (cc)
le_min (some x) (some a) (some b) h k = ground (arith, h, k)

real : (x a : Option ℤ) → le x a ≡ true → le a a ≡ true
real none a h = absurd (cc)
real (some x) none h = absurd (cc)
real (some x) (some a) h = leb_ℤ_refl a

over_le :
    (n : ℕ) (s : Option ℤ)
    → n ≤ exact_bound
    → le (some (pos 1)) s ≡ true
    → le (over (some (pos n)) s) (some (pos n)) ≡ true
over_le n none b h = absurd (cc)
over_le n (some (pos zero)) b h = ground (arith, h)
over_le n (some (pos (suc k))) b h = ground (arith, div-le_self n (suc k))
over_le n (some (negsuc k)) b h = ground (arith, h)

one_le_over :
    (m n : ℕ)
    → m ≤ n
    → 0 < m
    → n ≤ exact_bound
    → le (some (pos 1)) (over (some (pos n)) (some (pos m))) ≡ true
one_le_over zero n h p b = absurd (omega arith)
one_le_over (suc m) n h p b =
    ground (arith, (le-div_iff_mul-le {k = suc m} {x = 1} {y = n} p).1 (omega (arith, h)))

times_real :
    (k m : ℕ) (s : Option ℤ)
    → m ≤ exact_bound
    → le (some (pos 1)) s ≡ true
    → le s (some (pos m)) ≡ true
    → let r = lifted (λ a b. some (times_ℤ a b)) s (over (some (pos k)) (some (pos 100))) in
      le r r ≡ true
times_real k m none b h l = absurd (cc)
times_real k m (some s) b h l = leb_ℤ_refl (times_ℤ s (pos (k / 100)))

room :
    (n : ℕ) (v : Option ℤ)
    → n ≤ exact_bound
    → le v (some (pos n)) ≡ true
    → let origin = integers.minus (some (pos 0)) (some (pos 5)) in
      le origin (integers.minus (integers.plus origin (some (pos n))) v) ≡ true
room n none b h = absurd (cc)
room n (some v) b h = ground (arith, h)

integers-Laws : Laws integers
integers-Laws = record {
  le_trans = le_trans;
  le_of_ℕ = λ m n h. ground arith;
  max_low = max_low;
  max_real = max_real;
  min_real = min_real;
  min_high = min_high;
  le_min = le_min;
  real = real;
  over_le = over_le;
  one_le_over = one_le_over;
  times_real = times_real;
  room = room;
}

abbrev at : ℕ → Option ℤ
at n = some (pos n)

abbrev rect : Rect integers
rect = record { left = at 0; top = at 0; width = at 400; height = at 400 }

abbrev events : List (ViewEvent integers)
events =
    canvas_comes
    ∷ zooms rect 115
    ∷ wheels rect (at 100) (at 100) false
    ∷ downs 0 1 (at 50) (at 50)
    ∷ moves rect 1 (at 90) (at 0)
    ∷ ends 1
    ∷ []

run_view_events-IsInside_example :
    IsInside integers 12
      (run_view_events integers 12 events (initial_view integers 12)).scale
      (run_view_events integers 12 events (initial_view integers 12)).view_min
run_view_events-IsInside_example =
    run_view_events-IsInside integers integers-Laws 12 events (omega arith)
