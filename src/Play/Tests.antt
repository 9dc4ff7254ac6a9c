-- ===== src/Play/Tests.antt =====
-- Runs of the page of the main menu, play.tsx, for the user 7.
use dot_and_boxes.Prelude.{◌≡◌, refl, true, false, none, some, List, [], ◌∷◌, ◌++◌}
use dot_and_boxes.Prelude.Int.{pos}
use dot_and_boxes.Prelude.Text.{Text, codes, decimal, value_from}
use dot_and_boxes.Messages.{Lobby, LobbyPlayer, LobbyUpdatedPayload, chat_new, lobby_updated}
use dot_and_boxes.Play.{Menu, MenuEvent, receives, sound_click, bgm_box}
use dot_and_boxes.Play.Seat.{self_ready}
use dot_and_boxes.Play.Stores.{Storage, Number, finite}
use dot_and_boxes.Play.Lobbies.{list_of, my_lobby, Write, message, created, joined, write_all}
use dot_and_boxes.Play.Lobbies.Refinement.{view, run_view, write_all-run_view}
use dot_and_boxes.Lobby.Display.{Session, has_completed_lobby_name_prompt}
use dot_and_boxes.Play.Stores.{keep_create_intent}
use dot_and_boxes.Play.ChooseName.{save_and_play, skip_to_lobby, address_create, link_intent_lost}

abbrev player : LobbyPlayer
player = record {
  player = record {
    user_id = 7;
    username = "Ann";
    avatar_url = "";
    is_anonymous = true;
    status = "";
  };
  is_ready = true;
}

abbrev lobby : Lobby
lobby = record {
  lobby_id = "a";
  name = "";
  board_size = 5;
  host_id = 7;
  player_limit = 2;
  is_private = false;
  created_at = "";
  players = some (player ∷ []);
}

abbrev update : LobbyUpdatedPayload
update = record {
  lobby_id = "a";
  players = some [];
  status = some "waiting";
  board_size = none;
  host_id = none;
  created_at = none;
  name = none;
  player_limit = none;
  is_private = none;
}

abbrev writes : List Write
writes = created lobby ∷ message (lobby_updated update) ∷ joined lobby ∷ []

updated_lobby :
    list_of (write_all (created lobby ∷ message (lobby_updated update) ∷ []) none)
    ≡ record lobby { players = some [] } ∷ []
unfolding write_all
updated_lobby = refl

write_all-run_view_example : view (write_all writes none) ≡ run_view writes (view none)
write_all-run_view_example = write_all-run_view writes none

-- A `Number` that reads digits.
abbrev to_number : Text → Number
to_number t = finite (pos (value_from 0 t))

abbrev storage : Storage
storage = record {
  available = true;
  create_nonce = none;
  pending_create = none;
  mute_sfx = some (codes "1");
  mute_bgm = none;
}

abbrev menu : Menu
menu = record {
  lobbies = some (lobby ∷ []);
  open_create_nonce = 0;
  bot_dialog = false;
  lobby_dialog = false;
  chat_dialog = false;
  profile_dialog = false;
  settings_dialog = false;
  chat_unread = 3;
  mute_sfx = true;
  mute_bgm = false;
  storage = storage;
  effects = [];
}

abbrev toggles : List MenuEvent
toggles = sound_click ∷ bgm_box true ∷ []

reads_twelve : to_number (decimal 12) ≡ finite (pos 12)
unfolding decimal value_from
reads_twelve = refl

ready_here : self_ready (my_lobby menu.lobbies (some 7)) (some 7) ≡ true
unfolding self_ready my_lobby
ready_here = refl

abbrev chat : MenuEvent
chat = receives (record {
  topic = some "chat:global";
  body = chat_new (record { user_id = 8; username = "Bob"; message = "hi"; timestamp = "" });
})

abbrev fresh : Session
fresh = record { available = true; lobby_display = none; lobby_prompt_done = none }

not_done : has_completed_lobby_name_prompt fresh ≡ false
unfolding has_completed_lobby_name_prompt
not_done = refl

abbrev quoted : Text → Text
quoted t = 34 ∷ (t ++ (34 ∷ []))

link_intent_lost_example :
    let (redirects, kept) =
      keep_create_intent true fresh (address_create quoted (some (codes "1"))) storage in
    (redirects ≡ true)
    × ((save_and_play (codes "Ann") fresh kept).create ≡ false)
    × ((skip_to_lobby fresh kept).create ≡ false)
link_intent_lost_example =
    link_intent_lost quoted (codes "Ann") fresh storage refl refl not_done refl
