-- ===== src/Auth/Routes.antt =====
-- The guards of the routes (`beforeLoad`) and their redirects: web/src/routes/index.tsx, register.tsx,
-- login.tsx, join.$lobbyID.tsx, _authenticated.tsx, and the guards of /play and of a lobby below it. The
-- router is a parameter: `resolve` is the place that it takes a path for. The query of `fetchUser` never
-- fails, and there is a window. The page of the name, the history and a
-- replay have the guard of `_authenticated` only; a game, the leaderboard, the page about the site and a
-- path of no route have none.
pub mod Ends
pub mod Links
use dot_and_boxes.Prelude.{
  ℕ, zero, suc, ◌+◌, ◌≤◌, ◌≡◌, ◌≢◌, refl, ap, ◌∙◌, ◌⊎◌, inl, inr, Bool, true, false, Option, none,
  some, List, [], ◌∷◌, ◌++◌, if◌then◌else◌, arith, Bool-cases, Option-cases,
}
use dot_and_boxes.Prelude.Text.{Text, codes}
use dot_and_boxes.Lobby.Display.{Session, has_completed_lobby_name_prompt}
use dot_and_boxes.Lobby.Requests.{Response, resolved, rejected}
use dot_and_boxes.Auth.{
  User, Parsed, Identity, Ensured, storage_works, cache_me, read_cached_me, guest_login, ensured_by,
  ensure_me, ensure_guest_session,
}

pub data Location : Type 0 where
  at_index at_play at_choose_name at_history at_leaderboard at_about : Location
  at_register at_login : Option Text → Location
  at_join at_lobby at_replay at_game : Text → Location
  -- a path of no route
  at_no_route : Text → Location

-- A place, with the user's identity and the requests for a guest made so far.
pub record Visit : Type 0 where
  pub at : Location
  pub identity : Identity
  pub guests : ℕ

-- What the guards of a place end with: they let it be, or redirect.
pub data Guarded : Type 0 where
  stays goes : Visit → Guarded

abbrev pub guided : Option Location → Visit → Guarded
guided none v = stays v
guided (some l) v = goes (record v { at = l })

abbrev pub join_path : Text → Text
join_path id = codes "/join/" ++ id

abbrev pub href_of : Location → Text
href_of at_index = codes "/"
href_of at_play = codes "/play"
href_of at_choose_name = codes "/choose-name"
href_of (at_register q) = codes "/register"
href_of (at_login q) = codes "/login"
href_of (at_join id) = join_path id
href_of (at_lobby id) = codes "/lobby/" ++ id
href_of at_history = codes "/history"
href_of at_leaderboard = codes "/leaderboard"
href_of at_about = codes "/about"
href_of (at_replay id) = codes "/replay/" ++ id
href_of (at_game id) = codes "/game/" ++ id
href_of (at_no_route path) = path

-- The place for a user who is known: the lobby, or the page of the name.
abbrev pub lobby_or_name : Text → Identity → Location
lobby_or_name id w =
    if has_completed_lobby_name_prompt w.session then at_lobby id else at_choose_name

abbrev pub started : Location → Identity → ℕ → Visit
started l w n = record { at = l; identity = w; guests = n }

-- Where the router ends, after at most so many requests for a guest.
abbrev pub Arrives : Location → ℕ → Option Visit → Type 0
Arrives l n none = ⊥
Arrives l n (some v) = (v.at ≡ l) × (v.guests ≤ n)

-- The JSON codec, the router, and what the server answers to a request for a guest.
pub record Site : Type 0 where
  pub stringify : User → Text
  pub parse : Text → Parsed
  pub resolve : Text → Location
  pub answer : Response User

module _ (site : Site) where
  open site use {stringify, parse, resolve, answer}

  abbrev pub ensured : Identity → Ensured
  ensured w = ensure_guest_session stringify parse answer w

  -- What a guard says after a call of `ensureGuestSession`: `next` redirects or not, and `failed` is for a
  -- request that fails.
  abbrev pub after_guest : (Identity → Option Location) → Location → Visit → Ensured → Guarded
  after_guest next failed v e =
      let after = record v {
        identity = e.after;
        guests = if e.asked then suc v.guests else v.guests;
      } in
      if e.returned then guided (next e.after) after else goes (record after { at = failed })

  abbrev pub with_guest : (Identity → Option Location) → Location → Visit → Guarded
  with_guest next failed v = after_guest next failed v (ensured v.identity)

  -- The guard of the routes that ask for a name first; what /play keeps before it redirects is in Play.
  abbrev pub name_prompt : Identity → Option Location
  name_prompt w = if has_completed_lobby_name_prompt w.session then none else some at_choose_name

  -- The guard of `_authenticated`, then that of the route below it.
  abbrev pub guard : (Identity → Option Location) → Visit → Guarded
  guard below v = with_guest below (at_login (some (href_of v.at))) v

  abbrev pub asked_me : Visit → Visit
  asked_me v = record v { identity = (ensure_me parse v.identity).1 }

  abbrev pub guard_login : Option Text → Option User → Visit → Guarded
  guard_login q none v = stays v
  guard_login q (some u) v = goes (record v { at = elim q [ none ↦ at_play | some t ↦ resolve t ] })

  abbrev pub guard_join : Text → Option User → Visit → Guarded
  guard_join id (some u) v = goes (record v { at = at_lobby id })
  guard_join id none v = with_guest (λ _. some (at_lobby id)) (at_login (some (join_path id))) v

  -- The guards of a place.
  abbrev pub guards_of : Location → Visit → Guarded
  guards_of at_index v = goes (record v { at = at_play })
  guards_of (at_register q) v = goes (record v { at = at_login q })
  guards_of (at_login q) v = guard_login q (ensure_me parse v.identity).0 (asked_me v)
  guards_of (at_join id) v = guard_join id (ensure_me parse v.identity).0 (asked_me v)
  guards_of (at_lobby id) v = guard name_prompt v
  guards_of at_play v = guard name_prompt v
  guards_of at_choose_name v = guard (λ _. none) v
  guards_of at_history v = guard (λ _. none) v
  guards_of (at_replay id) v = guard (λ _. none) v
  guards_of (at_game id) v = stays v
  guards_of at_leaderboard v = stays v
  guards_of at_about v = stays v
  guards_of (at_no_route path) v = stays v

  unfoldable pub run_guards : Visit → Guarded
  run_guards v = guards_of v.at v

  -- The router follows the redirects; none is for more of them than the fuel.
  unfoldable pub follow : ℕ → Visit → Option Visit
  unfolding run_guards
  follow zero v = none
  follow (suc fuel) v = elim (run_guards v) as (λ _. Option Visit) [
    | stays w ↦ some w
    | goes w ↦ follow fuel w
  ]

  -- `onGuestJumpIn` of the login page, once the server has made the guest `u`: `guestLogin` and the
  -- fetch that it leads to, then the path that the page keeps.
  unfoldable pub after_login : User → Visit → Visit
  unfolding read_cached_me cache_me
  after_login u v =
      let w = cache_me stringify u v.identity in
      record {
        at = elim v.at as (λ _. Location) [ at_login (some t) ↦ resolve t | _ ↦ at_play ];
        identity = record w { me = some (read_cached_me parse w) };
        guests = suc v.guests;
      }
