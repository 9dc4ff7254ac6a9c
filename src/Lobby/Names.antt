-- ===== src/Lobby/Names.antt =====
-- `assignUniqueDisplayNames` of web/src/pixi/mainMenu/uniquePlayerNames.ts. The `Map` of the names
-- seen is a list with the newest entry first.
use dot_and_boxes.Prelude.{
  ℕ, zero, suc, ◌+◌, ◌≡◌, refl, ap, ◌∙◌, Option, none, some, List, [], ◌∷◌, ◌++◌, arith, ◌==◌,
  if◌then◌else◌, get_elem?, take, Bool-cases, inl, inr,
}
use dot_and_boxes.Prelude.Text.{Text, codes, trim, decimal, text_eq, text_eq_sound, text_eq_refl}
use mathlib.Core.Option

abbrev pub or_default : Text → Text → Text
or_default [] d = d
or_default (c ∷ s) d = c ∷ s

-- `raw.trim() || "Player"`
unfoldable pub base : Text → Text
base raw = or_default (trim raw) (codes "Player")

abbrev pub Seen : Type 0
Seen = List (Text × ℕ)

-- `seen.get(name) ?? 0`
abbrev pub count_of : Text → Seen → ℕ
count_of name [] = 0
count_of name ((k, n) ∷ seen) = if text_eq k name then n else count_of name seen

abbrev pub numbered : Text → ℕ → Text
numbered name next = if next == 1 then name else name ++ codes "(" ++ decimal next ++ codes ")"

-- The callback of `map`, from the names seen so far on.
unfoldable pub assign_from : Seen → List Text → List Text
assign_from seen [] = []
assign_from seen (raw ∷ names) =
    let next = count_of (base raw) seen + 1 in
    numbered (base raw) next ∷ assign_from ((base raw, next) ∷ seen) names

unfoldable pub assign_unique_display_names : List Text → List Text
unfolding assign_from
assign_unique_display_names names = assign_from [] names

-- How many of the names have this base.
abbrev pub occurrences : Text → List Text → ℕ
occurrences b [] = 0
occurrences b (raw ∷ names) = (if text_eq (base raw) b then 1 else 0) + occurrences b names

-- The name after `raw` was seen once more.
count_after :
    (b x : Text) (seen : Seen)
    → count_of x ((b, count_of b seen + 1) ∷ seen)
      ≡ count_of x seen + (if text_eq b x then 1 else 0)
count_after b x seen = elim (Bool-cases (text_eq b x)) [
  | inr n ↦ ground (arith, n)
  | inl y ↦ rw (y, text_eq_sound b x y)
]

get_elem?-assign_from :
    (seen : Seen) (names : List Text) (i : ℕ)
    → get_elem? (assign_from seen names) i
      ≡ Option.map
          (λ raw.
            numbered
              (base raw)
              (count_of (base raw) seen + occurrences (base raw) (take (suc i) names)))
          (get_elem? names i)
unfolding assign_from
get_elem?-assign_from seen [] i = refl
get_elem?-assign_from seen (raw ∷ names) zero = rw (text_eq_refl (base raw))
get_elem?-assign_from seen (raw ∷ names) (suc i) =
    get_elem?-assign_from ((base raw, count_of (base raw) seen + 1) ∷ seen) names i
    ∙ later (get_elem? names i)
  where
    later :
        (o : Option Text)
        → Option.map
            (λ x. numbered (base x) (
              count_of (base x) ((base raw, count_of (base raw) seen + 1) ∷ seen)
              + occurrences (base x) (take (suc i) names)))
            o
          ≡ Option.map
              (λ x.
                numbered (base x) (
                  count_of (base x) seen + occurrences (base x) (take (suc (suc i)) (raw ∷ names))))
              o
    later none = refl
    later (some x) =
        ap (λ k. some (numbered (base x) k)) (omega (arith, count_after (base raw) (base x) seen))

-- The name at place `i` is the trimmed one, or `Player` for a blank one, and from its second
-- occurrence on it carries the number of the occurrence, counted over the names up to place `i`.
pub assign_unique_display_names_lem :
    (names : List Text) (i : ℕ)
    → get_elem? (assign_unique_display_names names) i
      ≡ Option.map
          (λ raw. numbered (base raw) (occurrences (base raw) (take (suc i) names)))
          (get_elem? names i)
unfolding assign_unique_display_names
assign_unique_display_names_lem names i =
    get_elem?-assign_from [] names i ∙ from_none (get_elem? names i)
  where
    from_none :
        (o : Option Text)
        → Option.map
            (λ raw. numbered (base raw) (0 + occurrences (base raw) (take (suc i) names)))
            o
          ≡ Option.map (λ raw. numbered (base raw) (occurrences (base raw) (take (suc i) names))) o
    from_none none = refl
    from_none (some x) = ap (λ k. some (numbered (base x) k)) (omega arith)
