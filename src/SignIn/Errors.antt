-- ===== src/SignIn/Errors.antt =====
-- The errors that web/src/components/AuthForm.tsx shows.
use dot_and_boxes.Prelude.{
  ℕ, ◌≡◌, ◌≤◌, refl, Bool, true, false, ◌||◌, Option, some, length, ltb, arith, Bool-cases, inl,
  inr,
}
use dot_and_boxes.Prelude.Text.{Text, trim_start}
use dot_and_boxes.SignIn.{
  text_body, axios_error, starts_with, is_doctype, ends_html, is_html, is_404, text_body_message,
  get_error_message,
}

or_parts : (a b : Bool) → (a || b) ≡ false → (a ≡ false) × (b ≡ false)
or_parts false b h = (refl, h)
or_parts true b h = cc

text_body_lem :
    (status : Option ℕ) (t : Text)
    → (is_doctype (text_body_message status t) ≡ false)
      × (ends_html (text_body_message status t) ≡ false)
      × (length (text_body_message status t) ≤ 280)
unfolding text_body_message is_doctype ends_html trim_start starts_with
text_body_lem status t = elim (Bool-cases (is_html t)) [
  | inl page ↦ rw page (refl, refl, omega arith)
  | inr no_page ↦ elim (Bool-cases (ltb 280 (length t))) [
    | inl long ↦
        rw (no_page, long)
          (elim (Bool-cases (is_404 status)) [
            | inl e ↦ rw e (refl, refl, omega arith)
            | inr e ↦ rw e (refl, refl, omega arith)
          ])
    | inr short ↦
        rw (no_page, short)
          (
            (or_parts (is_doctype t) (ends_html t) no_page).0,
            (or_parts (is_doctype t) (ends_html t) no_page).1,
            ground (arith, short),
          )
  ]
]

-- A text that the server answers with is never shown as a page of HTML, nor in more than 280
-- characters, whatever it is and whatever its status is.
pub get_error_message-text_body :
    (status : Option ℕ) (t message : Text)
    → (is_doctype (get_error_message (axios_error status (some (text_body t)) message)) ≡ false)
      × (ends_html (get_error_message (axios_error status (some (text_body t)) message)) ≡ false)
      × (length (get_error_message (axios_error status (some (text_body t)) message)) ≤ 280)
unfolding get_error_message
get_error_message-text_body status t message = text_body_lem status t
