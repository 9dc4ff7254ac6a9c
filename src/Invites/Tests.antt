-- ===== src/Invites/Tests.antt =====
-- An invitation that is sent, and one that is declined twice.
use dot_and_boxes.Prelude.{◌+◌, ◌≤◌, ◌≡◌, refl, true, none, some, List, [], ◌∷◌, all}
use dot_and_boxes.Messages.{Player, InvitePayload, invite_new}
use dot_and_boxes.Socket
use dot_and_boxes.Socket.{Client, new_client, auth, url, opens}
use dot_and_boxes.Auth.{User}
use dot_and_boxes.Invites.{
  new_player_lobby, receive_invites, click_player, handle_send_game_invite, handle_decline_invite,
  Event, receives, clicks, sends, declines, handle, run,
}
use dot_and_boxes.Invites.Answers.{answers, is_open, is_to_other, run-answers}

abbrev ann : User
ann = record { user_id = 7; username = "Ann"; is_guest = true }

abbrev bo : Player
bo = record {
  user_id = 8;
  username = "Bo";
  avatar_url = "";
  is_anonymous = true;
  status = "online";
}

abbrev online : Client
online = Socket.run (auth true ∷ url 0 ∷ opens 1 ∷ []) new_client

abbrev from_bo : InvitePayload
from_bo = record {
  sender_id = 8;
  sender_name = "Bo";
  receiver_id = 7;
  receiver_name = "Ann";
  timestamp = "12:00";
  board_size = 5;
}

abbrev events : List Event
events =
    clicks bo
    ∷ sends online "11:59"
    ∷ receives (record { topic = none; body = invite_new from_bo })
    ∷ declines online
    ∷ declines online
    ∷ []

declined_once : answers (run (some ann) events new_player_lobby).sent ≡ 1
unfolding run handle receive_invites click_player handle_send_game_invite handle_decline_invite
    Socket.run Socket.handle Socket.change_auth Socket.clean_up Socket.run_effect Socket.url_ready
    Socket.on_open Socket.send
declined_once = refl

run-answers_example :
    (answers (run (some ann) events new_player_lobby).sent
        + is_open (run (some ann) events new_player_lobby).incoming_invite
      ≤ 1)
    × (all (is_to_other 7) (run (some ann) events new_player_lobby).sent ≡ true)
run-answers_example = run-answers events ann
