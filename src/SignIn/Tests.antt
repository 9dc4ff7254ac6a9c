-- ===== src/SignIn/Tests.antt =====
-- Runs of the form of the login page.
use dot_and_boxes.Prelude.{◌≡◌, refl, Bool, true, false, none, some, [], all}
use dot_and_boxes.Prelude.Text.{Text, codes, trim, trim_start}
use dot_and_boxes.SignIn.{
  SignIn, guest_name_issue, funky_name_suggestions, handle_guest_jump_in, jump_button, text_body,
  axios_error, text_body_message, is_doctype, ends_html, starts_with, get_error_message,
  unreachable,
}
use dot_and_boxes.SignIn.Names.{JumpsIn, jump_button_lem}

abbrev is_fine : Text → Bool
unfolding guest_name_issue
is_fine t = elim (guest_name_issue t) [ none ↦ true | some issue ↦ false ]

-- All suggestions keep the rules.
suggestions_are_fine : all is_fine funky_name_suggestions ≡ true
unfolding guest_name_issue
suggestions_are_fine = refl

page_of_proxy :
    get_error_message (axios_error (some 404) (some (text_body (codes " <!doctype HTML><p>"))) [])
    ≡ unreachable
unfolding get_error_message text_body_message is_doctype ends_html starts_with trim_start
page_of_proxy = refl

abbrev form : SignIn
form = record {
  username = codes " line_9 ";
  username_error = none;
  root_error = none;
  is_submitting = false;
  guest_submitting = false;
}

jumps_in : (jump_button false form).1 ≡ some (codes "line_9")
unfolding jump_button handle_guest_jump_in guest_name_issue trim
jumps_in = refl

jump_button_lem_example : JumpsIn form
jump_button_lem_example = jump_button_lem form refl
