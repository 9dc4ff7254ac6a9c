-- ===== src/Play.antt =====
-- The page of the main menu, web/src/routes/_authenticated/play.tsx, with the list of the lobbies in
-- web/src/components/Lobby.tsx. What the page asks of the router, the toasts and the server is logged,
-- newest first. The conversion of a text to a number is the parameter `to_number`.
pub mod Seat
pub mod Stores
pub mod ChooseName
pub mod Lobbies
pub mod Unread
pub mod Prefs
pub mod Ready
mod Tests
use package.dot_and_boxes.Prelude.{
  ℕ, ◌+◌, Bool, true, false, not, ◌&&◌, ◌||◌, Option, none, some, List, [], ◌∷◌, String, map, keep,
  find, any, take, if◌then◌else◌, ◌==◌,
}
use package.dot_and_boxes.Prelude.Int.{ℤ, pos, ltb_ℤ}
use package.dot_and_boxes.Prelude.Text.{Text, codes, decimal, text_eq, trim}
use package.dot_and_boxes.Messages.{Lobby, LobbyPlayer, Body, chat_new, Message}
use package.dot_and_boxes.Lobby.Display.{
  Session, has_completed_lobby_name_prompt, read_lobby_display_name,
}
use Lobbies.{LobbyCache, seats, list_of, add_created, receive_lobby}
use package.dot_and_boxes.Play.Stores.{
  Storage, keep_create_intent, Number, finite, not_finite, positive_or_one, is_one,
}
use package.dot_and_boxes.Play.Seat.{
  lobby_guest_names, self_ready, seats_user, or_text, lobby_display_name,
}

pub data Target : Type 0 where
  to_play to_leaderboard to_history to_choose_name : Target
  to_lobby : String → Target
  to_game : Text → Target

pub data Effect : Type 0 where
  refetch_lobbies : Effect
  post_ready : String → Effect
  post_bot_game : ℕ → ℕ → ℕ → Effect
  go_to : Target → Effect
  toast_success toast_error : Text → Effect

pub record Menu : Type 0 where
  pub lobbies : LobbyCache
  pub open_create_nonce : ℕ
  pub bot_dialog : Bool
  pub lobby_dialog : Bool
  pub chat_dialog : Bool
  pub profile_dialog : Bool
  pub settings_dialog : Bool
  pub chat_unread : ℕ
  pub mute_sfx : Bool
  pub mute_bgm : Bool
  pub storage : Storage
  pub effects : List Effect

abbrev pub effect : Effect → Menu → Menu
effect e m = record m { effects = e ∷ m.effects }

module _ (to_number : Text → Number) where
  unfoldable pub read_pending_open_create_nonce : Bool → Storage → ℕ × Storage
  read_pending_open_create_nonce has_window s =
      if has_window && s.available
      then elim s.create_nonce [
        | none ↦ (0, s)
        | some [] ↦ (0, s)
        | some (c ∷ t) ↦ (positive_or_one (to_number (c ∷ t)), record s { create_nonce = none })
      ]
      else (0, s)

  -- The state of a first render in the browser.
  unfoldable pub open_menu : Storage → Menu
  unfolding read_pending_open_create_nonce
  open_menu s =
      let (nonce, s') = read_pending_open_create_nonce true s in
      record {
        lobbies = none;
        open_create_nonce = nonce;
        bot_dialog = false;
        lobby_dialog = false;
        chat_dialog = false;
        profile_dialog = false;
        settings_dialog = false;
        chat_unread = 0;
        mute_sfx = is_one s'.mute_sfx;
        mute_bgm = is_one s'.mute_bgm;
        storage = s';
        effects = [];
      }

-- The effect on `?create=1`, at a time `now`.
unfoldable pub take_create_param : Bool → ℕ → Menu → Menu
take_create_param create now m =
    if create
    then effect (go_to to_play) (record m {
      open_create_nonce = now;
      storage =
          if m.storage.available
          then record m.storage { create_nonce = some (decimal now) }
          else m.storage;
    })
    else m

-- `dock.ready`
unfoldable pub dock_ready : Option ℕ → Menu → Menu
dock_ready user m = elim (find (seats_user user) (list_of m.lobbies)) [
  | none ↦ effect (toast_error (codes "Join a lobby first (Lobbies or Online).")) m
  | some l ↦ effect (post_ready l.lobby_id) m
]

-- The end of the request: done, or an error with its message.
unfoldable pub ready_ended : Option Text → Menu → Menu
ready_ended none m =
    effect (toast_success (codes "Ready status updated")) (effect refetch_lobbies m)
ready_ended (some message) m = effect (toast_error message) m

-- The end of the request for a lobby: the lobby, or an error with its message if it is an `Error`.
unfoldable pub lobby_created_here : Lobby → Menu → Menu
unfolding add_created
lobby_created_here l m =
    effect (go_to (to_lobby l.lobby_id)) (record m { lobbies = add_created l m.lobbies })

unfoldable pub lobby_not_created : Option Text → Menu → Menu
lobby_not_created none m = effect (toast_error (codes "Failed to create lobby")) m
lobby_not_created (some message) m = effect (toast_error message) m

-- `submitBotGame`, up to the request.
unfoldable pub submit_bot_game : Option ℕ → ℕ → ℕ → Menu → Menu
submit_bot_game none size bots m = effect (toast_error (codes "Please login to play")) m
submit_bot_game (some uid) size bots m =
    if uid == 0
    then effect (toast_error (codes "Please login to play")) m
    else effect (post_bot_game uid size bots) m

-- The reply to it: the id of the game, or none for a failure, which leaves the dialog open.
unfoldable pub bot_game_ended : Option ℕ → Menu → Menu
bot_game_ended none m = effect (toast_error (codes "Failed to create bot game")) m
bot_game_ended (some id) m =
    record (effect (go_to (to_game (decimal id)))
      (effect (toast_success (codes "Bot game starting!")) m)) { bot_dialog = false }

abbrev pub is_global : Option String → Bool
is_global none = true
is_global (some t) = text_eq (codes t) [] || text_eq (codes t) (codes "chat:global")

-- The subscriber of the unread count, which is there while the chat is closed.
abbrev pub count_chat : Message → Menu → Menu
count_chat msg m = elim msg.body [
  | chat_new p ↦
      if not m.chat_dialog && is_global msg.topic
      then record m { chat_unread = m.chat_unread + 1 }
      else m
  | _ ↦ m
]

-- Both subscribers.
unfoldable pub receive_message : Message → Menu → Menu
unfolding receive_lobby
receive_message msg m = count_chat msg (record m { lobbies = receive_lobby msg.body m.lobbies })

-- `dock.chat`, with the effect that then runs.
unfoldable pub open_chat : Menu → Menu
open_chat m = record m { chat_dialog = true; chat_unread = 0 }

unfoldable pub close_chat : Menu → Menu
close_chat m = record m { chat_dialog = false }

abbrev pub item_of_bool : Bool → Text
item_of_bool b = if b then codes "1" else codes "0"

-- The two check boxes of the settings, and `dock.sound` and `dock.music`, which flip them.
unfoldable pub set_mute_sfx : Bool → Menu → Menu
set_mute_sfx next m = record m {
  mute_sfx = next;
  storage = record m.storage { mute_sfx = some (item_of_bool next) };
}

unfoldable pub set_mute_bgm : Bool → Menu → Menu
set_mute_bgm next m = record m {
  mute_bgm = next;
  storage = record m.storage { mute_bgm = some (item_of_bool next) };
}

unfoldable pub dock_sound : Menu → Menu
unfolding set_mute_sfx
dock_sound m = set_mute_sfx (not m.mute_sfx) m

unfoldable pub dock_music : Menu → Menu
unfolding set_mute_bgm
dock_music m = set_mute_bgm (not m.mute_bgm) m

-- `dock.list`, which is also the button for the game online.
unfoldable pub dock_list : Menu → Menu
dock_list m = effect refetch_lobbies (record m { lobby_dialog = true })

-- The other buttons of the dock, the closing of a dialog, and the links of the profile.
pub data Click : Type 0 where
  play home refresh trophy gear your_name : Click
  close_bot close_lobbies close_settings close_profile : Click
  settings_profile leaderboard_link history_link : Click

unfoldable pub press_button : Click → Menu → Menu
press_button play m = record m { bot_dialog = true }
press_button home m = effect (go_to to_play) m
press_button refresh m = effect refetch_lobbies m
press_button trophy m = effect (go_to to_leaderboard) m
press_button gear m = record m { settings_dialog = true }
press_button your_name m = effect (go_to to_choose_name) m
press_button close_bot m = record m { bot_dialog = false }
press_button close_lobbies m = record m { lobby_dialog = false }
press_button close_settings m = record m { settings_dialog = false }
press_button close_profile m = record m { profile_dialog = false }
press_button settings_profile m = record m { settings_dialog = false; profile_dialog = true }
press_button leaderboard_link m =
    effect (go_to to_leaderboard) (record m { profile_dialog = false })
press_button history_link m = effect (go_to to_history) (record m { profile_dialog = false })

pub data MenuEvent : Type 0 where
  create_param : Bool → ℕ → MenuEvent
  ready_click : Option ℕ → MenuEvent
  ready_ends : Option Text → MenuEvent
  creates : Lobby → MenuEvent
  creates_not : Option Text → MenuEvent
  submits : Option ℕ → ℕ → ℕ → MenuEvent
  bot_game_ends : Option ℕ → MenuEvent
  receives : Message → MenuEvent
  fetched : List Lobby → MenuEvent
  chat_opens chat_closes sound_click music_click list_click : MenuEvent
  sfx_box bgm_box : Bool → MenuEvent
  clicks : Click → MenuEvent

unfoldable pub handle_menu : MenuEvent → Menu → Menu
unfolding take_create_param dock_ready ready_ended lobby_created_here lobby_not_created
    submit_bot_game bot_game_ended receive_message open_chat close_chat dock_sound dock_music
    dock_list set_mute_sfx set_mute_bgm press_button
handle_menu (create_param create now) m = take_create_param create now m
handle_menu (ready_click user) m = dock_ready user m
handle_menu (ready_ends failure) m = ready_ended failure m
handle_menu (creates l) m = lobby_created_here l m
handle_menu (creates_not failure) m = lobby_not_created failure m
handle_menu (submits user size bots) m = submit_bot_game user size bots m
handle_menu (bot_game_ends g) m = bot_game_ended g m
handle_menu (receives msg) m = receive_message msg m
handle_menu (fetched ls) m = record m { lobbies = some ls }
handle_menu chat_opens m = open_chat m
handle_menu chat_closes m = close_chat m
handle_menu sound_click m = dock_sound m
handle_menu music_click m = dock_music m
handle_menu list_click m = dock_list m
handle_menu (sfx_box next) m = set_mute_sfx next m
handle_menu (bgm_box next) m = set_mute_bgm next m
handle_menu (clicks k) m = press_button k m

unfoldable pub run_events : List MenuEvent → Menu → Menu
unfolding handle_menu
run_events [] m = m
run_events (e ∷ es) m = run_events es (handle_menu e m)
