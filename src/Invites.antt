-- ===== src/Invites.antt =====
-- Invitations between players: web/src/components/PlayerLobby.tsx with its children PlayerItem.tsx,
-- SendInviteModal.tsx and IncomingInviteModal.tsx, on the client of Socket. What goes out is logged,
-- newest first; a message that the client has no socket for is lost.
pub mod Answers
mod Tests
use dot_and_boxes.Prelude.{
  ℕ, Bool, true, false, ◌&&◌, not, Option, none, some, List, [], ◌∷◌, if◌then◌else◌, ◌==◌, String,
}
use dot_and_boxes.Prelude.Int.{ℤ, pos}
use dot_and_boxes.Messages.{
  Player, InvitePayload, AcceptInvitePayload, DeclineInvitePayload, GameId, Body, player_get,
  other_players, invite_new, game_new, Message,
}
use package.dot_and_boxes.Socket
use package.dot_and_boxes.Socket.{Client}
use dot_and_boxes.Auth.{User}

-- An invitation that goes out. Its size is what `parseInt` gave; none is `NaN`.
pub record Invitation : Type 0 where
  pub sender_id : ℕ
  pub sender_name : String
  pub receiver_id : ℕ
  pub receiver_name : String
  pub timestamp : String
  pub board_size : Option ℤ

pub data Sent : Type 0 where
  get_players : Sent
  invite : Invitation → Sent
  accept : AcceptInvitePayload → Sent
  decline : DeclineInvitePayload → Sent

-- `players`; a payload that is a text is kept too, and is no list.
pub data Players : Type 0 where
  listed : List Player → Players
  a_text : Players

pub record PlayerLobby : Type 0 where
  pub players : Players
  pub board_size : Option ℤ
  pub incoming_invite : Option InvitePayload
  pub selected_player : Option Player
  pub sent : List Sent
  -- the games that the page went to
  pub opened : List GameId

abbrev pub new_player_lobby : PlayerLobby
new_player_lobby = record {
  players = listed [];
  board_size = some (pos 10);
  incoming_invite = none;
  selected_player = none;
  sent = [];
  opened = [];
}

abbrev pub send_out : Client → Sent → PlayerLobby → PlayerLobby
send_out client m s = elim (Socket.send client) as (λ _. PlayerLobby) [
  | none ↦ s
  | some socket ↦ record s { sent = m ∷ s.sent }
]

-- The effect on `connected`.
unfoldable pub ask_players : Client → PlayerLobby → PlayerLobby
ask_players client s = if client.connected then send_out client get_players s else s

-- The subscriber.
unfoldable pub receive_invites : Message → PlayerLobby → PlayerLobby
receive_invites m s = elim m.body as (λ _. PlayerLobby) [
  | player_get ps ↦ record s { players = listed ps }
  | other_players ↦ record s { players = a_text }
  | invite_new i ↦ record s { incoming_invite = some i }
  | game_new g ↦ record s { opened = g.game_id ∷ s.opened }
  | _ ↦ s
]

-- `handleClick` of PlayerItem, which calls `handlePlayerClick`.
unfoldable pub click_player : Option User → Player → PlayerLobby → PlayerLobby
click_player none p s = record s { selected_player = some p }
click_player (some u) p s =
    if p.user_id == u.user_id then s else record s { selected_player = some p }

unfoldable pub change_board_size : Option ℤ → PlayerLobby → PlayerLobby
change_board_size size s = record s { board_size = size }

-- `handleSendGameInvite` at the time `now`.
abbrev pub invite_of : User → Player → Option ℤ → String → Sent
invite_of u p size now = invite (record {
  sender_id = u.user_id;
  sender_name = u.username;
  receiver_id = p.user_id;
  receiver_name = p.username;
  timestamp = now;
  board_size = size;
})

abbrev pub send_invite_of :
    Option Player → Client → Option User → String → PlayerLobby → PlayerLobby
send_invite_of none client user now s = s
send_invite_of (some p) client none now s = s
send_invite_of (some p) client (some u) now s =
    record (send_out client (invite_of u p s.board_size now) s) { selected_player = none }

unfoldable pub handle_send_game_invite : Client → Option User → String → PlayerLobby → PlayerLobby
handle_send_game_invite client user now s = send_invite_of s.selected_player client user now s

abbrev pub answer_with :
    (User → InvitePayload → Sent)
    → Option InvitePayload
    → Client
    → Option User
    → PlayerLobby
    → PlayerLobby
answer_with answer none client user s = s
answer_with answer (some i) client none s = s
answer_with answer (some i) client (some u) s = record (send_out client (answer u i) s) {
  incoming_invite = none;
}

unfoldable pub handle_accept_invite : Client → Option User → PlayerLobby → PlayerLobby
handle_accept_invite client user s =
    answer_with
      (λ u i.
        accept
          (record { player_id = u.user_id; sender_id = i.sender_id; board_size = i.board_size }))
      s.incoming_invite client user s

unfoldable pub handle_decline_invite : Client → Option User → PlayerLobby → PlayerLobby
handle_decline_invite client user s =
    answer_with (λ u i. decline (record { inviter_id = i.sender_id })) s.incoming_invite client user
      s

pub data Event : Type 0 where
  connects : Client → Event
  receives : Message → Event
  clicks : Player → Event
  sizes : Option ℤ → Event
  sends : Client → String → Event
  closes : Event
  accepts : Client → Event
  declines : Client → Event
  dismisses : Event

module _ (user : Option User) where
  unfoldable pub handle : Event → PlayerLobby → PlayerLobby
  unfolding ask_players receive_invites click_player change_board_size handle_send_game_invite
      handle_accept_invite handle_decline_invite
  handle (connects client) s = ask_players client s
  handle (receives m) s = receive_invites m s
  handle (clicks p) s = click_player user p s
  handle (sizes size) s = change_board_size size s
  handle (sends client now) s = handle_send_game_invite client user now s
  handle closes s = record s { selected_player = none }
  handle (accepts client) s = handle_accept_invite client user s
  handle (declines client) s = handle_decline_invite client user s
  handle dismisses s = record s { incoming_invite = none }

  unfoldable pub run : List Event → PlayerLobby → PlayerLobby
  unfolding handle
  run [] s = s
  run (e ∷ es) s = run es (handle e s)
