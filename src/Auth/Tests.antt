-- ===== src/Auth/Tests.antt =====
-- Runs of web/src/api/fetchUser.ts, with a codec for one user.
use dot_and_boxes.Prelude.{◌≡◌, refl, arith, true, none, some, [], ◌∷◌}
use dot_and_boxes.Lobby.Display.{has_completed_lobby_name_prompt}
use dot_and_boxes.Prelude.Text.{Text, codes}
use dot_and_boxes.Lobby.Requests.{Response, resolved, rejected, unknown}
use dot_and_boxes.Auth.{
  User, Parsed, throws, a_user, Identity, ensure_me, ensure_guest_session, read_cached_me,
}
use dot_and_boxes.Auth.Routes.{
  Location, at_join, at_login, at_choose_name, Visit, Site, join_path, lobby_or_name, started,
  Arrives, run_guards, follow, after_login,
}
use dot_and_boxes.Auth.Routes.Ends.{IsShown, follow-IsShown}
use dot_and_boxes.Auth.Routes.Links.{join_link-Arrives, refused_link_survives}

abbrev guest : User
guest = record { user_id = 7; username = "ann"; is_guest = true }

abbrev written : User → Text
written u = codes "ann"

abbrev read : Text → Parsed
read [] = throws
read (c ∷ s) = a_user guest

abbrev start : Identity
start = record {
  has_window = true;
  session = record { available = true; lobby_display = none; lobby_prompt_done = none };
  cached_me = none;
  pending_create_lobby = none;
  me = none;
}

abbrev answer : Response User
answer = resolved guest

abbrev failure : Response User
failure = rejected (unknown 0)

returns_once : (ensure_guest_session written read answer start).returned ≡ true
unfolding ensure_guest_session
returns_once = refl

no_user : (ensure_me read start).0 ≡ none
unfolding read_cached_me
no_user = refl

-- A router for one path, that of the link.
abbrev router : Text → Location
router path = at_join (codes "ab12")

abbrev site : Response User → Site
site r = record { stringify = written; parse = read; resolve = router; answer = r }

join_link-Arrives_example :
    Arrives
      (lobby_or_name (codes "ab12") start)
      1
      (follow (site answer) 3 (started (at_join (codes "ab12")) start 0))
join_link-Arrives_example = join_link-Arrives (site answer) (codes "ab12") start 0 guest refl

refused_link_survives_example :
    (v : Visit) × (follow (site failure) 3 (started (at_join (codes "ab12")) start 0) ≡ some v)
    × (v.at ≡ at_login (some (join_path (codes "ab12"))))
    × Arrives (lobby_or_name (codes "ab12") start) 3 (
        follow
          (record (site failure) { answer = resolved guest })
          3
          (after_login (site failure) guest v))
refused_link_survives_example =
    refused_link_survives (site failure) (codes "ab12") start 0 guest no_user (λ x e. cc) refl

follow-IsShown_example :
    IsShown (follow (site failure) 4 (started (at_join (codes "ab12")) start 0))
follow-IsShown_example =
    follow-IsShown (site failure) (λ t. tt) 4 (started (at_join (codes "ab12")) start 0)
      (omega arith)

-- The guest has no name yet.
asks_for_name :
    follow (site answer) 3 (started (at_join (codes "ab12")) start 0)
    ≡ some (record {
      at = at_choose_name;
      identity = record start { cached_me = some (codes "ann"); me = some (some guest) };
      guests = 1;
    })
unfolding follow run_guards ensure_guest_session has_completed_lobby_name_prompt
asks_for_name = refl
