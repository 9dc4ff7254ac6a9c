-- ===== src/Splash/Console/Typing/Lines.antt =====
-- How far the console of DeployLoadingOverlay.tsx is, and how long that took.
use dot_and_boxes.Prelude.{
  ℕ, zero, suc, ◌+◌, ◌*◌, ◌≡◌, ◌≤◌, refl, inl, inr, ap, some, List, [], ◌∷◌, get_elem?, modify,
  get_elem?-modify, length, take, if◌then◌else◌, ltb, ◌==◌, arith, Bool-cases, Option-cases,
}
use dot_and_boxes.Prelude.Text.{Text}
use mathlib.Core.Option
use dot_and_boxes.Splash.Console.{console_lines, Console}

-- How long the lines before the `k`th take, and how many events they are.
abbrev pub time_before : List Text → ℕ → ℕ
time_before [] k = 0
time_before (l ∷ ls) zero = 0
time_before (l ∷ ls) (suc k) = 32 * length l + 160 + time_before ls k

abbrev pub events_before : List Text → ℕ → ℕ
events_before [] k = 0
events_before (l ∷ ls) zero = 0
events_before (l ∷ ls) (suc k) = length l + 1 + events_before ls k

pub before_suc :
    (ls : List Text) (k : ℕ) (full : Text)
    → get_elem? ls k ≡ some full
    → (time_before ls (suc k) ≡ time_before ls k + 32 * length full + 160)
      × (events_before ls (suc k) ≡ events_before ls k + length full + 1)
before_suc [] k full h = cc
before_suc (l ∷ []) zero full h = ground (arith, h)
before_suc (l ∷ m ∷ ls) zero full h = ground (arith, h)
before_suc (l ∷ ls) (suc k) full h = let ih = before_suc ls k full h in omega (arith, ih.0, ih.1)

pub take_all : (s : Text) → take (length s) s ≡ s
take_all [] = refl
take_all (c ∷ s) = ap (λ t. c ∷ t) (take_all s)

-- The line `i` while `n` characters of the line `k` are typed.
abbrev pub line_at : ℕ → ℕ → ℕ → Text → Text
line_at k n i full = if ltb i k then full else if i == k then take n full else []

abbrev pub events_of : Console → ℕ
events_of c = events_before console_lines c.line_index + c.col_in_line

-- The lines before the one that is being typed are whole, the others empty, and the next event comes when
-- what is typed took its time.
pub record IsTyped (start : ℕ) (c : Console) : Type 0 where
  pub on_time :
      c.next_event_at ≡ start + time_before console_lines c.line_index + 32 * c.col_in_line
  pub fits :
      (full : Text) → get_elem? console_lines c.line_index ≡ some full → c.col_in_line ≤ length full
  pub shown :
      (i : ℕ)
      → get_elem? c.texts i
        ≡ Option.map (line_at c.line_index c.col_in_line i) (get_elem? console_lines i)

pub shown_char :
    (i k n : ℕ) (full : Text) (lines texts : List Text)
    → get_elem? lines k ≡ some full
    → get_elem? texts i ≡ Option.map (line_at k n i) (get_elem? lines i)
    → get_elem? (modify texts k (λ _. take (n + 1) full)) i
      ≡ Option.map (line_at k (n + 1) i) (get_elem? lines i)
shown_char i k n full lines texts h t = elim (Bool-cases (k == i)) [
  | inl same ↦
      let e : k ≡ i = ground (arith, same) in
      let h' : get_elem? lines i ≡ some full = rw (← e) h in
      rw (get_elem?-modify texts k i (λ _. take (n + 1) full), t, h') (ground (arith, same))
  | inr other ↦
      rw (get_elem?-modify texts k i (λ _. take (n + 1) full), t, other)
        (elim (Option-cases (get_elem? lines i)) [
          | inl gone ↦ rw gone
          | inr (x, there) ↦ rw there (ground (arith, other))
        ])
]

pub shown_end :
    (i k n : ℕ) (full : Text) (lines texts : List Text)
    → get_elem? lines k ≡ some full
    → n ≡ length full
    → get_elem? texts i ≡ Option.map (line_at k n i) (get_elem? lines i)
    → get_elem? texts i ≡ Option.map (line_at (k + 1) 0 i) (get_elem? lines i)
shown_end i k n full lines texts h e t = elim (Bool-cases (k == i)) [
  | inl same ↦
      let p : k ≡ i = ground (arith, same) in
      let h' : get_elem? lines i ≡ some full = rw (← p) h in
      rw (t, h', e) (ground (arith, same, take_all full))
  | inr other ↦ rw t (elim (Option-cases (get_elem? lines i)) [
    | inl gone ↦ rw gone
    | inr (x, there) ↦ rw there (ground (arith, other))
  ])
]

pub end_time :
    (start k n at : ℕ) (full : Text) (ls : List Text)
    → get_elem? ls k ≡ some full
    → n ≡ length full
    → at ≡ start + time_before ls k + 32 * n
    → at + 160 ≡ start + time_before ls (k + 1) + 0
end_time start k n at full ls h e t =
    let s : k + 1 ≡ suc k = omega arith in rw s (omega (arith, before_suc ls k full h, e, t))

pub end_events :
    (k n : ℕ) (full : Text) (ls : List Text)
    → get_elem? ls k ≡ some full
    → n ≡ length full
    → events_before ls (k + 1) + 0 ≡ events_before ls k + n + 1
end_events k n full ls h e =
    let s : k + 1 ≡ suc k = omega arith in rw s (omega (arith, before_suc ls k full h, e))
