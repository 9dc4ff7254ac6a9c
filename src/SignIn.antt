-- ===== src/SignIn.antt =====
-- The form of the login page, web/src/components/AuthForm.tsx as web/src/routes/login.tsx uses it: the
-- name of a guest and its rules, the flags, and the text that a failed request shows. A request is made
-- by the handler up to its `await`; its end is an event.
pub mod Names
pub mod Errors
mod Tests
use dot_and_boxes.Prelude.{
  ℕ, zero, suc, ◌+◌, Bool, true, false, ◌&&◌, ◌||◌, Option, none, some, List, [], ◌∷◌, all, length,
  if◌then◌else◌, ◌==◌, ltb, leb,
}
use dot_and_boxes.Prelude.Text.{Text, codes, trim, trim_start, is_space}

-- `[a-zA-Z0-9_]`
abbrev pub is_word : ℕ → Bool
is_word c = (leb 97 c && leb c 122) || (leb 65 c && leb c 90) || (leb 48 c && leb c 57) || c == 95

-- `/^[a-zA-Z0-9_]+$/`
abbrev pub is_words : Text → Bool
is_words [] = false
is_words (c ∷ t) = is_word c && all is_word t

-- The message of the first issue of `funkyGuestUsername`, for a text that it has trimmed.
unfoldable pub guest_name_issue : Text → Option Text
guest_name_issue t =
    if ltb (length t) 3
    then some (codes "Use at least 3 characters for your funky name.")
    else if ltb 20 (length t)
    then some (codes "Max 20 characters.")
    else if is_words t
    then none
    else some (codes "Letters, numbers, and underscores only.")

abbrev pub funky_name_suggestions : List Text
funky_name_suggestions =
    codes "DOT_WIZARD"
    ∷ codes "LINE_NINJA"
    ∷ codes "BOX_BANDIT"
    ∷ codes "GRID_GHOST"
    ∷ codes "EDGE_RUNNER"
    ∷ codes "SQUAREBOSS"
    ∷ codes "DOT_GOBLIN"
    ∷ []

-- The body of a response: an object whose `message` is a text, a text, or another value.
pub data Body : Type 0 where
  message_body text_body : Text → Body
  other_body : Body

-- What a request throws: an error of axios, with the status and the body of its response, another
-- `Error`, or another value.
pub data Failure : Type 0 where
  axios_error : Option ℕ → Option Body → Text → Failure
  plain_error : Text → Failure
  not_error : Failure

abbrev pub lower : ℕ → ℕ
lower c = if leb 65 c && leb c 90 then c + 32 else c

-- Whether the text starts with this one, in lower case, up to the case of letters.
unfoldable pub starts_with : Text → Text → Bool
starts_with [] t = true
starts_with (p ∷ ps) [] = false
starts_with (p ∷ ps) (c ∷ t) = lower c == p && starts_with ps t

-- `/^\s*<!DOCTYPE html/i`
unfoldable pub is_doctype : Text → Bool
unfolding trim_start starts_with
is_doctype t = starts_with (codes "<!doctype html") (trim_start t)

-- `/<\/html>\s*$/i`: at some place the end tag stands, and after it only white space.
abbrev pub drop_chars : ℕ → Text → Text
drop_chars zero t = t
drop_chars (suc n) [] = []
drop_chars (suc n) (c ∷ t) = drop_chars n t

unfoldable pub ends_html : Text → Bool
unfolding starts_with
ends_html [] = false
ends_html (c ∷ t) =
    (starts_with (codes "</html>") (c ∷ t) && all is_space (drop_chars 7 (c ∷ t))) || ends_html t

abbrev pub is_html : Text → Bool
unfolding is_doctype ends_html
is_html t = is_doctype t || ends_html t

abbrev pub is_404 : Option ℕ → Bool
is_404 none = false
is_404 (some s) = s == 404

abbrev pub unreachable : Text
unreachable =
    codes
      "Could not reach the game server. If you are on Vercel, check that /api is rewritten to your Render backend (see vercel.json)."

-- The text for a body that is one.
unfoldable pub text_body_message : Option ℕ → Text → Text
text_body_message status raw =
    if is_html raw
    then unreachable
    else if ltb 280 (length raw)
    then if is_404 status
      then codes "Game server returned 404 — API URL or proxy may be misconfigured."
      else codes "The server returned an unexpected response."
    else raw

-- `getErrorMessage`
unfoldable pub get_error_message : Failure → Text
unfolding text_body_message
get_error_message (axios_error status (some (message_body t)) message) = t
get_error_message (axios_error status (some (text_body t)) message) = text_body_message status t
get_error_message (axios_error status (some other_body) message) = message
get_error_message (axios_error status none message) = message
get_error_message (plain_error message) = message
get_error_message not_error = codes "Something went wrong"

pub record SignIn : Type 0 where
  pub username : Text
  pub username_error : Option Text
  pub root_error : Option Text
  pub is_submitting : Bool
  pub guest_submitting : Bool

-- A click on a suggestion.
unfoldable pub choose_suggestion : Text → SignIn → SignIn
choose_suggestion name s = record s { username = name; username_error = none }

-- `handleGuestJumpIn` up to its `await`, with the name of the guest that it asks for.
unfoldable pub handle_guest_jump_in : SignIn → SignIn × Option Text
unfolding guest_name_issue
handle_guest_jump_in s =
    let name = trim (trim s.username) in
    elim (guest_name_issue name) as (λ _. SignIn × Option Text) [
      | some issue ↦ (record s { username_error = some issue }, none)
      | none ↦ (record s { username_error = none; guest_submitting = true }, some name)
    ]

-- The end of the request: what it threw, if it did.
unfoldable pub after_jump_in : Option Failure → SignIn → SignIn
unfolding get_error_message
after_jump_in none s = record s { guest_submitting = false }
after_jump_in (some e) s = record s {
  root_error = some (get_error_message e);
  guest_submitting = false;
}

-- The button, and its click.
abbrev pub is_processing : Bool → SignIn → Bool
is_processing is_loading s = is_loading || s.is_submitting || s.guest_submitting

unfoldable pub jump_button : Bool → SignIn → SignIn × Option Text
unfolding handle_guest_jump_in
jump_button is_loading s = if is_processing is_loading s then (s, none) else handle_guest_jump_in s

-- `onSubmit`, where the form takes passwords too, and the end of its request.
unfoldable pub on_submit : Bool → SignIn → SignIn × Bool
on_submit guest_only s =
    if guest_only then (s, false) else (record s { is_submitting = true }, true)

unfoldable pub after_submit : Option Failure → SignIn → SignIn
unfolding get_error_message
after_submit none s = record s { is_submitting = false }
after_submit (some e) s = record s {
  root_error = some (get_error_message e);
  is_submitting = false;
}
