-- ===== src/LobbyPage.antt =====
-- The page of one lobby, web/src/routes/_authenticated/lobby/$lobbyID.tsx. What the page asks of the
-- browser and of the server is logged, newest first. A handler that a render makes takes what it
-- closes over as arguments; the part after an `await` is a definition of its own.
pub mod Received
pub mod Guard
pub mod Leaving
pub mod Starting
pub mod View
mod Tests
use package.dot_and_boxes.Prelude.{
  ℕ, Bool, true, false, not, ◌&&◌, ◌||◌, Option, none, some, List, [], ◌∷◌, ◌++◌, map, any, length,
  if◌then◌else◌, leb, ◌==◌,
}
use mathlib.Core.List.{reverse}
use package.dot_and_boxes.Prelude.Text.{Text, codes, decimal, text_eq}
use package.dot_and_boxes.Messages.{LobbyPlayer, Lobby, GameId, number, text}
use package.dot_and_boxes.Lobby.Display.{Session, has_completed_lobby_name_prompt}
use package.dot_and_boxes.LobbyPage.Guard.{
  Route, home, play, choose_name, game, before_load, is_ok, Loaded, loaded, failed, lobby_query,
  lobby_failure_route, Query, pending, is_error, has_data, drop_slashes, or_slash, path_of,
}
use package.dot_and_boxes.LobbyPage.Received.{
  IdField, absent, nullish, present, StartFields, Incoming, updated, game_new, other_type, id_text,
  started_id, or_empty, merge_players, has_player, is_signed_in, player_ids,
}

pub data Action : Type 0 where
  refetch leave_keepalive leave_beacon leave_post join_post ready_post delete_lobby : Action
  create_game : List ℕ → ℕ → Action
  announce : GameId → Action
  navigate : Route → Action
  toast_error toast_success alert copy_text : Text → Action

pub record Page : Type 0 where
  -- `isGameStartingRef`, `hasLeftRef`, `hasAttemptedRejoin` and `lobbyRedirectStarted`
  pub game_starting : Bool
  pub has_left : Bool
  pub attempted_rejoin : Bool
  pub redirect_started : Bool
  pub is_starting : Bool
  pub is_toggling_ready : Bool
  pub is_leaving : Bool
  -- the data of the query of this lobby
  pub cache : Option Lobby
  pub log : List Action

abbrev pub new_page : Page
new_page = record {
  game_starting = false;
  has_left = false;
  attempted_rejoin = false;
  redirect_started = false;
  is_starting = false;
  is_toggling_ready = false;
  is_leaving = false;
  cache = none;
  log = [];
}

abbrev pub act : Action → Page → Page
act a p = record p { log = a ∷ p.log }

abbrev pub redirect : Text → Session → Page → Page
redirect msg s p =
    if p.redirect_started
    then p
    else act (navigate (lobby_failure_route s))
        (act (toast_error msg) (record p { redirect_started = true }))

unfoldable pub watch_query : Query → Session → Page → Page
unfolding lobby_failure_route
watch_query pending s p = p
watch_query (is_error none) s p = redirect (codes "Could not open this lobby.") s p
watch_query (is_error (some msg)) s p = redirect msg s p
watch_query (has_data none) s p = redirect (codes "Lobby unavailable.") s p
watch_query (has_data (some l)) s p = p

-- `leaveLobbyQuietly`, and the handler of `beforeunload`, which differ in how they send.
unfoldable pub leave_lobby_quietly : Page → Page
leave_lobby_quietly p =
    if p.game_starting || p.has_left then p else act leave_keepalive (record p { has_left = true })

unfoldable pub handle_before_unload : Page → Page
handle_before_unload p =
    if p.game_starting || p.has_left then p else act leave_beacon (record p { has_left = true })

abbrev pub open_game : IdField → Page → Page
open_game absent p = p
open_game nullish p = p
open_game (present i) p = act (navigate (game (id_text i))) p

abbrev pub receive_incoming : Incoming → Page → Page
receive_incoming (updated ps) p = elim p.cache [
  | none ↦ p
  | some old ↦ record p { cache = some (merge_players ps old) }
]
receive_incoming (game_new f) p = open_game (started_id f) (record p { game_starting = true })
receive_incoming other_type p = p

-- The effect of the rejoin, with the lobby and the user of its render.
unfoldable pub auto_rejoin : Option Lobby → Option ℕ → Page → Page
auto_rejoin none user p = p
auto_rejoin (some l) none p = p
auto_rejoin (some l) (some uid) p =
    if uid == 0 || p.attempted_rejoin
    then p
    else if has_player uid l.players
    then p
    else act join_post (record p { attempted_rejoin = true })

-- After the request to join: its status, or none where it failed.
unfoldable pub after_rejoin : Option ℕ → Page → Page
after_rejoin none p = p
after_rejoin (some status) p =
    if is_ok status || status == 409
    then act refetch p
    else if status == 404
    then act (navigate home) p
    else p

-- `handleStartGame` with the lobby and the flag of its render, up to the request.
unfoldable pub handle_start_game : Option Lobby → Bool → Page → Page
handle_start_game none starting p = p
handle_start_game (some l) starting p =
    if starting
    then p
    else act (create_game (player_ids l.players) l.board_size) (record p { is_starting = true })

-- After it: the id of the created game, or none for a failure of any kind.
unfoldable pub after_start : Option GameId → Bool → Page → Page
after_start none connected p = record (act (alert (codes "Failed to create game")) p) {
  is_starting = false;
}
after_start (some i) connected p =
    let q =
      act delete_lobby (act (navigate (game (id_text i))) (record p { game_starting = true })) in
    if connected then act (announce i) q else q

unfoldable pub handle_toggle_ready : Bool → Bool → Page → Page
handle_toggle_ready toggling connected p =
    if toggling || not connected then p else act ready_post (record p { is_toggling_ready = true })

-- The `finally` block, whatever the reply is.
unfoldable pub after_toggle_ready : Page → Page
after_toggle_ready p = record p { is_toggling_ready = false }

unfoldable pub copy_invite_link : Text → Text → Page → Page
copy_invite_link origin lobby_id p = act (copy_text (origin ++ codes "/join/" ++ lobby_id)) p

-- Whether the clipboard took the text.
unfoldable pub after_copy : Bool → Page → Page
after_copy true p = act (toast_success (codes "Invite link copied")) p
after_copy false p = act (toast_error (codes "Could not copy link")) p

unfoldable pub handle_leave_lobby : Bool → Page → Page
handle_leave_lobby leaving p =
    if leaving then p else act leave_post (record p { is_leaving = true; has_left = true })

-- Whether the reply was ok.
unfoldable pub after_leave : Bool → Page → Page
after_leave true p = record (act (navigate home) p) { is_leaving = false }
after_leave false p = record p { has_left = false; is_leaving = false }

-- What can happen to the page, with what the handlers close over.
pub data Event : Type 0 where
  query_changes : Query → Session → Event
  lobby_arrives : Lobby → Event
  connection_changes : Bool → Event
  unloads : Event
  cleans_up : Text → Event
  message_arrives : Option Text → Incoming → Event
  rejoin_effect : Option Lobby → Option ℕ → Event
  rejoin_ends : Option ℕ → Event
  start_click : Option Lobby → Bool → Event
  start_ends : Option GameId → Bool → Event
  ready_click : Bool → Bool → Event
  ready_ends : Event
  copy_click : Text → Event
  copy_ends : Bool → Event
  leave_click : Bool → Event
  leave_ends : Bool → Event

module _ (lobby_id : Text) where
  -- The cleanup of the effect of `beforeunload`, with the path that the browser is at.
  unfoldable pub leave_on_cleanup : Text → Page → Page
  unfolding path_of leave_lobby_quietly
  leave_on_cleanup raw p =
      if text_eq (path_of raw) (codes "/lobby/" ++ lobby_id) then p else leave_lobby_quietly p

  -- The effect of the connection, which only asks for the lobby again.
  unfoldable pub watch_connection : Bool → Page → Page
  watch_connection connected p = if not connected || text_eq lobby_id [] then p else act refetch p

  abbrev pub is_game_new_here : Incoming → Bool
  is_game_new_here (game_new (some f)) = text_eq (or_empty f.lobby_id) lobby_id
  is_game_new_here (game_new none) = text_eq [] lobby_id
  is_game_new_here (updated ps) = false
  is_game_new_here other_type = false

  -- `event.topic` is the topic of the lobby.
  abbrev pub is_on_topic : Option Text → Bool
  is_on_topic none = false
  is_on_topic (some t) = text_eq t (codes "lobby:" ++ lobby_id)

  -- The subscriber.
  unfoldable pub receive_event : Option Text → Incoming → Page → Page
  receive_event topic m p =
      if is_on_topic topic || is_game_new_here m then receive_incoming m p else p

  unfoldable pub handle : Event → Page → Page
  unfolding watch_query handle_before_unload leave_on_cleanup watch_connection receive_event
      auto_rejoin after_rejoin handle_start_game after_start handle_toggle_ready after_toggle_ready
      copy_invite_link after_copy handle_leave_lobby after_leave
  handle (query_changes q s) p = watch_query q s p
  handle (lobby_arrives l) p = record p { cache = some l }
  handle (connection_changes connected) p = watch_connection connected p
  handle unloads p = handle_before_unload p
  handle (cleans_up raw) p = leave_on_cleanup raw p
  handle (message_arrives topic m) p = receive_event topic m p
  handle (rejoin_effect l user) p = auto_rejoin l user p
  handle (rejoin_ends status) p = after_rejoin status p
  handle (start_click l starting) p = handle_start_game l starting p
  handle (start_ends i connected) p = after_start i connected p
  handle (ready_click toggling connected) p = handle_toggle_ready toggling connected p
  handle ready_ends p = after_toggle_ready p
  handle (copy_click origin) p = copy_invite_link origin lobby_id p
  handle (copy_ends taken) p = after_copy taken p
  handle (leave_click leaving) p = handle_leave_lobby leaving p
  handle (leave_ends replied_ok) p = after_leave replied_ok p

  unfoldable pub run : List Event → Page → Page
  unfolding handle
  run [] p = p
  run (e ∷ es) p = run es (handle e p)
