-- ===== src/SignIn/Names.antt =====
-- Which names of guests the form of web/src/components/AuthForm.tsx asks for.
use dot_and_boxes.Prelude.{
  ℕ, ◌≡◌, ◌≢◌, ◌≤◌, refl, ap, ◌∙◌, ◌⊎◌, inl, inr, true, false, ◌&&◌, none, some, [], ◌∷◌, ◌++◌, all,
  length, arith, Option-cases,
}
use mathlib.Core.List.{reverse, reverse-reverse, reverse-cons}
use dot_and_boxes.Prelude.Text.{Text, trim, trim_start, is_space}
use dot_and_boxes.Auth.{guest_body}
use dot_and_boxes.SignIn.{
  is_word, guest_name_issue, SignIn, handle_guest_jump_in, is_processing, jump_button,
}

-- Three to twenty letters, digits and underscores.
pub record IsGuestName (t : Text) : Type 0 where
  pub low : 3 ≤ length t
  pub high : length t ≤ 20
  pub words : all is_word t ≡ true

word-not_space : (c : ℕ) → is_word c ≡ true → is_space c ≡ false
word-not_space c h = ground (arith, h)

trim_start-words : (t : Text) → all is_word t ≡ true → trim_start t ≡ t
unfolding trim_start
trim_start-words [] h = refl
trim_start-words (c ∷ t) h = rw (word-not_space c (ground (arith, h)))

all-append : (s t : Text) → all is_word (s ++ t) ≡ (all is_word s && all is_word t)
all-append [] t = refl
all-append (c ∷ s) t = ground (arith, all-append s t)

all-reverse : (t : Text) → all is_word t ≡ true → all is_word (reverse t) ≡ true
all-reverse [] h = refl
all-reverse (c ∷ t) h =
    rw (reverse-cons c t, all-append (reverse t) (c ∷ []), all-reverse t (ground (arith, h)))
      (ground (arith, h))

trim-words : (t : Text) → all is_word t ≡ true → trim t ≡ t
unfolding trim
trim-words t h =
    ap (λ s. reverse (trim_start (reverse s))) (trim_start-words t h)
    ∙ ap reverse (trim_start-words (reverse t) (all-reverse t h))
    ∙ reverse-reverse t

guest_body-words : (t : Text) → IsGuestName t → guest_body (some t) ≡ some t
unfolding guest_body
guest_body-words [] n = absurd (omega (arith, n.low))
guest_body-words (c ∷ t) n = rw (trim-words (c ∷ t) n.words)

issue-IsGuestName : (t : Text) → guest_name_issue t ≡ none → IsGuestName t
unfolding guest_name_issue
issue-IsGuestName [] h = cc
issue-IsGuestName (c ∷ t) h = ground (arith, h)

IsGuestName-issue : (t : Text) → IsGuestName t → guest_name_issue t ≡ none
unfolding guest_name_issue
IsGuestName-issue [] n = absurd (omega (arith, n.low))
IsGuestName-issue (c ∷ t) n = ground (arith, n)

-- What an enabled button does with the name that is typed in.
abbrev pub JumpsIn : SignIn → Type 0
JumpsIn s =
    (IsGuestName (trim (trim s.username))
      × ((jump_button false s).1 ≡ some (trim (trim s.username)))
      × (guest_body (jump_button false s).1 ≡ some (trim (trim s.username)))
      × ((jump_button false s).0.guest_submitting ≡ true))
    ⊎ ((¬ (IsGuestName (trim (trim s.username))))
        × ((jump_button false s).1 ≡ none)
        × ((jump_button false s).0.username_error ≢ none)
        × ((jump_button false s).0.guest_submitting ≡ false))

jump-fine :
    (s : SignIn)
    → is_processing false s ≡ false
    → guest_name_issue (trim (trim s.username)) ≡ none
    → ((jump_button false s).1 ≡ some (trim (trim s.username)))
      × ((jump_button false s).0.guest_submitting ≡ true)
unfolding jump_button handle_guest_jump_in
jump-fine s h fine = rw (h) (rw (fine, handle_guest_jump_in) (refl, refl))

jump-bad :
    (s : SignIn) (issue : Text)
    → is_processing false s ≡ false
    → guest_name_issue (trim (trim s.username)) ≡ some issue
    → ((jump_button false s).1 ≡ none)
      × ((jump_button false s).0.username_error ≢ none)
      × ((jump_button false s).0.guest_submitting ≡ false)
unfolding jump_button handle_guest_jump_in
jump-bad s issue h bad =
    rw (h) (rw (bad, handle_guest_jump_in) (refl, (λ e. cc), ground (arith, h)))

-- A click on the enabled button asks for a guest exactly if the trimmed name has three to twenty
-- characters, all letters, digits or underscores. The request is then for this name, as it is, and the
-- button is disabled; if not, no request is made and the field shows an error.
pub jump_button_lem : (s : SignIn) → is_processing false s ≡ false → JumpsIn s
jump_button_lem s h = elim (Option-cases (guest_name_issue (trim (trim s.username)))) [
  | inl fine ↦
      let n = issue-IsGuestName (trim (trim s.username)) fine in
      let (asks, waits) = jump-fine s h fine in inl (n, asks, rw asks (guest_body-words _ n), waits)
  | inr (issue, bad) ↦
      let (none_asked, shown, free) = jump-bad s issue h bad in
      inr (λ n. let fine = IsGuestName-issue _ n in cc, none_asked, shown, free)
]
