-- ===== src/Lobby/Tests.antt =====
-- Runs of the helpers of the lobby, web/src/api/lobby.ts and the others of Lobby.
use dot_and_boxes.Prelude.{ℕ, ◌≡◌, refl, true, false, none, some, List, [], ◌∷◌}
use dot_and_boxes.Prelude.Text.{Text, codes, trim, decimal}
use dot_and_boxes.Messages.{LobbyPlayer, Lobby}
use dot_and_boxes.Lobby.Names.{assign_unique_display_names, base}
use dot_and_boxes.Lobby.Display.{Session}
use dot_and_boxes.Lobby.Requests.{
  object, string, AxiosError, axios, Response, rejected, fetch_lobby, error,
}

abbrev names : List Text
names = codes "Ann" ∷ codes " Ann " ∷ codes "" ∷ codes "Ann" ∷ []

numbered_names :
    assign_unique_display_names names
    ≡ codes "Ann" ∷ codes "Ann(2)" ∷ codes "Player" ∷ codes "Ann(3)" ∷ []
unfolding assign_unique_display_names base trim decimal
numbered_names = refl

-- A name that looks numbered makes two equal names.
equal_names :
    assign_unique_display_names (codes "Ann" ∷ codes "Ann(2)" ∷ codes "Ann" ∷ [])
    ≡ codes "Ann" ∷ codes "Ann(2)" ∷ codes "Ann(2)" ∷ []
unfolding assign_unique_display_names base trim decimal
equal_names = refl

abbrev session : Session
session = record { available = true; lobby_display = none; lobby_prompt_done = none }

abbrev not_found : AxiosError
not_found = record {
  status = some 404;
  data_of = some (object (some (string (codes "gone"))) none);
  message = codes "Request failed with status code 404";
}

abbrev response : Response ℕ
response = rejected (axios not_found)

lobby_not_found : fetch_lobby response ≡ error (codes "Lobby not found")
unfolding fetch_lobby
lobby_not_found = refl

abbrev guest : LobbyPlayer
guest = record {
  player = record {
    user_id = 7;
    username = " ";
    avatar_url = "";
    is_anonymous = true;
    status = "";
  };
  is_ready = true;
}

abbrev the_lobby : Lobby
the_lobby = record {
  lobby_id = "a";
  name = "";
  board_size = 5;
  host_id = 7;
  player_limit = 2;
  is_private = false;
  created_at = "";
  players = some (guest ∷ []);
}
