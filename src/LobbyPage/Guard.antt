-- ===== src/LobbyPage/Guard.antt =====
-- The guard of the page of a lobby, its query and where it goes when the query fails, and the path that its cleanup reads.
use dot_and_boxes.Prelude.{
  ℕ, Bool, not, ◌&&◌, Option, none, some, [], ◌∷◌, ◌++◌, if◌then◌else◌, leb, ◌==◌,
}
use mathlib.Core.List.{reverse}
use dot_and_boxes.Prelude.Text.{Text, codes, decimal}
use dot_and_boxes.Messages.{Lobby}
use dot_and_boxes.Lobby.Display.{Session, has_completed_lobby_name_prompt}

pub data Route : Type 0 where
  home play choose_name : Route
  game : Text → Route

-- `beforeLoad`: where it redirects to; on the server there is no `window`.
unfoldable pub before_load : Bool → Session → Option Route
before_load has_window s =
    if not has_window
    then none
    else if has_completed_lobby_name_prompt s
    then none
    else some choose_name

abbrev pub is_ok : ℕ → Bool
is_ok status = leb 200 status && leb status 299

-- What the request for the lobby gives: the lobby, or the message of the error.
pub data Loaded : Type 0 where
  loaded : Lobby → Loaded
  failed : Text → Loaded

unfoldable pub lobby_query : ℕ → Lobby → Loaded
lobby_query status body =
    if is_ok status
    then loaded body
    else if status == 404
    then failed (codes "Lobby not found — it may have ended or the link is wrong.")
    else failed (codes "Could not load lobby (" ++ decimal status ++ codes ").")

-- `lobbyFailureRoute`
unfoldable pub lobby_failure_route : Session → Route
lobby_failure_route s = if has_completed_lobby_name_prompt s then play else choose_name

-- The query as the layout effect sees it: `isPending`, `isError` with the message if the error is an
-- `Error`, or the data, which may be missing.
pub data Query : Type 0 where
  pending : Query
  is_error : Option Text → Query
  has_data : Option Lobby → Query

-- `raw.replace(/\/+$/, "") || "/"`, of a text given from its end.
abbrev pub drop_slashes : Text → Text
drop_slashes [] = []
drop_slashes (c ∷ s) = if c == 47 then drop_slashes s else c ∷ s

abbrev pub or_slash : Text → Text
or_slash [] = codes "/"
or_slash (c ∷ s) = c ∷ s

unfoldable pub path_of : Text → Text
path_of raw = or_slash (reverse (drop_slashes (reverse raw)))
