-- ===== src/Auth.antt =====
-- The identity of the user: web/src/api/fetchUser.ts, `User` of web/src/types/auth.ts, and the end of
-- the session in web/src/AuthContext.tsx. The JSON codec is a parameter: `stringify`, and `parse` with
-- what its result is good for. The query cache holds an entry for `["me"]` or none.
pub mod Guest
pub mod Routes
mod Tests
use package.dot_and_boxes.Prelude.{
  ℕ, Bool, true, false, ◌&&◌, Option, none, some, List, [], ◌∷◌, if◌then◌else◌, String,
}
use package.dot_and_boxes.Prelude.Text.{Text, trim}
use package.dot_and_boxes.Lobby.Display.{Session}
use package.dot_and_boxes.Lobby.Requests.{Response, resolved, rejected}

pub record User : Type 0 where
  pub user_id : ℕ
  pub username : String
  pub is_guest : Bool

-- What `JSON.parse` gives: an exception, a value that is no user by the tests of `readCachedMe`, or
-- one that is.
pub data Parsed : Type 0 where
  throws no_user : Parsed
  a_user : User → Parsed

-- The window, its storage with the cached user, and the query's entry.
pub record Identity : Type 0 where
  pub has_window : Bool
  pub session : Session
  pub cached_me : Option Text
  pub pending_create_lobby : Option Text
  pub me : Option (Option User)

-- A call of `sessionStorage` that takes effect: it throws where there is no storage, which is caught.
abbrev pub storage_works : Identity → Bool
storage_works w = w.has_window && w.session.available

unfoldable pub cache_me : (User → Text) → User → Identity → Identity
cache_me stringify u w = if storage_works w then record w { cached_me = some (stringify u) } else w

unfoldable pub clear_cached_me : Identity → Identity
clear_cached_me w = if storage_works w then record w { cached_me = none } else w

abbrev pub user_of : Parsed → Option User
user_of throws = none
user_of no_user = none
user_of (a_user u) = some u

-- A text that is there and not empty is parsed.
abbrev pub user_of_item : (Text → Parsed) → Option Text → Option User
user_of_item parse none = none
user_of_item parse (some []) = none
user_of_item parse (some (c ∷ s)) = user_of (parse (c ∷ s))

-- `readCachedMe`, and `fetchUser`, which is it.
unfoldable pub read_cached_me : (Text → Parsed) → Identity → Option User
read_cached_me parse w = if storage_works w then user_of_item parse w.cached_me else none

-- The body of the request: the trimmed name, if there is one.
abbrev pub name_of_body : Text → Option Text
name_of_body [] = none
name_of_body (c ∷ s) = some (c ∷ s)

unfoldable pub guest_body : Option Text → Option Text
guest_body none = none
guest_body (some name) = name_of_body (trim name)

-- How a call of `guestLogin` ends, with the identity after it.
pub data Login : Type 0 where
  logged_in : User → Identity → Login
  login_failed : Identity → Login

unfoldable pub guest_login : (User → Text) → Response User → Identity → Login
unfolding cache_me
guest_login stringify (resolved u) w = logged_in u (cache_me stringify u w)
guest_login stringify (rejected e) w = login_failed w

-- A call of `ensureGuestSession`: whether it asked for a guest, whether it returned, and the identity
-- after it.
pub record Ensured : Type 0 where
  pub asked : Bool
  pub returned : Bool
  pub after : Identity

abbrev pub ensured_by : Login → Ensured
ensured_by (logged_in u w) = record {
  asked = true;
  returned = true;
  after = record w { me = some (some u) };
}
ensured_by (login_failed w) = record { asked = true; returned = false; after = w }

-- `ensureQueryData`: the entry that is there, or a fetch that makes one.
abbrev pub ensure_me : (Text → Parsed) → Identity → Option User × Identity
ensure_me parse w = elim w.me as (λ _. Option User × Identity) [
  | some u ↦ (u, w)
  | none ↦ (read_cached_me parse w, record w { me = some (read_cached_me parse w) })
]

unfoldable pub ensure_guest_session :
    (User → Text) → (Text → Parsed) → Response User → Identity → Ensured
unfolding guest_login read_cached_me
ensure_guest_session stringify parse r w = elim (ensure_me parse w).0 [
  | some u ↦ record { asked = false; returned = true; after = (ensure_me parse w).1 }
  | none ↦ ensured_by (guest_login stringify r (ensure_me parse w).1)
]

-- `onSuccess` of the logout: the three items of the lobby are removed, the cached user and the
-- entry's data too. `invalidateQueries` then fetches the entry anew.
abbrev pub forget_lobby : Identity → Identity
forget_lobby w =
    if storage_works w
    then record w {
      session = record w.session { lobby_display = none; lobby_prompt_done = none };
      pending_create_lobby = none;
    }
    else w

unfoldable pub log_out : (Text → Parsed) → Identity → Identity
unfolding clear_cached_me read_cached_me
log_out parse w =
    let v = clear_cached_me (forget_lobby w) in record v { me = some (read_cached_me parse v) }
