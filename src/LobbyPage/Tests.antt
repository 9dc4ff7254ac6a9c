-- ===== src/LobbyPage/Tests.antt =====
-- Runs of the page of a lobby, $lobbyID.tsx, for the lobby `a` of the user 7.
use dot_and_boxes.Prelude.{◌≡◌, ◌≤◌, ◌+◌, refl, true, false, none, some, List, [], ◌∷◌, ◌++◌, map}
use dot_and_boxes.Prelude.Text.{codes}
use dot_and_boxes.Messages.{LobbyPlayer, Lobby, number}
use dot_and_boxes.LobbyPage.{
  Page, new_page, Event, run, handle, leave_post, join_post, navigate, create_game,
  handle_start_game, message_arrives, unloads, cleans_up, start_click, start_ends, leave_click,
  leave_ends, rejoin_effect,
}
use dot_and_boxes.LobbyPage.Received.{present, absent, game_new, updated}
use dot_and_boxes.LobbyPage.Guard.{path_of, home}
use dot_and_boxes.LobbyPage.Leaving.{
  quiet_leaves, failed_leaves, joins, redirects, run-counts, no_leave_after_start, leave_rejoins,
}
use dot_and_boxes.LobbyPage.Starting.{
  creations, failed_starts, AreRendered, run-creations, start_button-MayStart,
}
use dot_and_boxes.LobbyPage.View.{MayStart, Button, start_button, players_of}

abbrev player : LobbyPlayer
player = record {
  player = record {
    user_id = 7;
    username = "Ann";
    avatar_url = "";
    is_anonymous = true;
    status = "";
  };
  is_ready = true;
}

abbrev other_player : LobbyPlayer
other_player = record {
  player = record {
    user_id = 8;
    username = "Bob";
    avatar_url = "";
    is_anonymous = true;
    status = "";
  };
  is_ready = true;
}

abbrev lobby : Lobby
lobby = record {
  lobby_id = "a";
  name = "";
  board_size = 5;
  host_id = 7;
  player_limit = 2;
  is_private = false;
  created_at = "";
  players = some (player ∷ other_player ∷ []);
}

abbrev alone : Lobby
alone = record lobby { players = some (player ∷ []) }

path_example : path_of (codes "/lobby/a//") ≡ codes "/lobby/a"
unfolding path_of
path_example = refl

-- A failed leave, and then the tab closes and the page is unmounted.
abbrev leaving : List Event
leaving = leave_click false ∷ leave_ends false ∷ unloads ∷ cleans_up (codes "/play") ∷ []

leaving_twice : quiet_leaves (run (codes "a") leaving new_page) ≡ 1
unfolding run
leaving_twice = refl

run-counts_example :
    (quiet_leaves (run (codes "a") leaving new_page) ≤ 1 + failed_leaves leaving)
    × (joins (run (codes "a") leaving new_page) ≤ 1)
    × (redirects (run (codes "a") leaving new_page) ≤ 1)
run-counts_example = run-counts (codes "a") leaving

abbrev game_starts : Event
game_starts = message_arrives none (
    game_new
      (some (record { camel = absent; snake = present (number 3); lobby_id = some (codes "a") })))

no_leave_after_start_example :
    quiet_leaves (run (codes "a") (game_starts ∷ leaving) new_page) ≡ quiet_leaves new_page
no_leave_after_start_example = no_leave_after_start (codes "a") game_starts leaving new_page refl

abbrev page : Page
page = record new_page { cache = some lobby }

leave_rejoins_example :
    (run
      (codes "a")
      (leave_click false
        ∷ message_arrives (some (codes "lobby:" ++ codes "a")) (updated (some (other_player ∷ [])))
        ∷ rejoin_effect (some (record lobby { players = some (other_player ∷ []) })) (some 7)
        ∷ leave_ends true
        ∷ [])
      page).log
    ≡ navigate home ∷ join_post ∷ leave_post ∷ []
leave_rejoins_example =
    leave_rejoins (codes "a") 7 lobby (other_player ∷ []) page refl refl refl refl

abbrev starting : List Event
starting =
    start_click (some lobby) false
    ∷ start_ends none true
    ∷ start_click (some lobby) false
    ∷ start_click (some lobby) true
    ∷ start_ends (some (number 3)) true
    ∷ []

rendered : AreRendered (codes "a") starting new_page
unfolding handle
rendered = (refl, (tt, (refl, (refl, (tt, tt)))))

run-creations_example : creations (run (codes "a") starting new_page) ≤ 1 + failed_starts starting
run-creations_example = run-creations (codes "a") starting rendered

abbrev enabled : Button
enabled = record { disabled = false; label = codes "Start Game" }

abbrev disabled_one : Button
disabled_one = record { disabled = true; label = codes "Start Game" }

button_enabled : start_button false (some 7) lobby ≡ some enabled
unfolding start_button
button_enabled = refl

button_disabled : start_button false (some 7) alone ≡ some disabled_one
unfolding start_button
button_disabled = refl

start_button-MayStart_example :
    MayStart (some 7) lobby
    × ((handle_start_game (some lobby) false page).log
        ≡ create_game (map (λ q. q.user_id) (players_of lobby)) lobby.board_size ∷ page.log)
    × ((handle_start_game (some lobby) false page).is_starting ≡ true)
start_button-MayStart_example =
    start_button-MayStart false (some 7) lobby page {b = enabled} button_enabled refl
