-- ===== src/CreateLobby/Label.antt =====
-- The label of the user's name on the menu.
use dot_and_boxes.Prelude.{
  ℕ, zero, suc, ◌≤◌, ◌<◌, ◌≡◌, refl, ap, true, [], ◌∷◌, ◌++◌, length, take, arith, ltb, lt→ltb,
}
use dot_and_boxes.Prelude.Text.{Text, codes}
use dot_and_boxes.CreateLobby.{name_label}

take_all : (n : ℕ) (t : Text) → length t ≤ n → take n t ≡ t
take_all zero [] h = refl
take_all zero (c ∷ t) h = absurd (omega (arith, h))
take_all (suc n) [] h = refl
take_all (suc n) (c ∷ t) h = ap (λ s. c ∷ s) (take_all n t (omega (arith, h)))

-- An upper-cased name of 19 or 20 code units is shown whole, and with an ellipsis after it, although
-- nothing was cut: the label is then longer than without the cut, which is for labels over 24.
pub name_label_grows :
    (upper : Text)
    → 18 < length upper
    → length upper ≤ 20
    → name_label upper ≡ codes "NAME: " ++ upper ++ codes "…"
name_label_grows upper low high =
    let long : ltb 24 (length (codes "NAME: " ++ upper)) ≡ true =
      lt→ltb 24 (length (codes "NAME: " ++ upper)) (omega (arith, low)) in
    rw (long, name_label) (ap (λ t. codes "NAME: " ++ t ++ codes "…") (take_all 20 upper high))
