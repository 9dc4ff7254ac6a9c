-- ===== src/Messages.antt =====
-- The messages of the game's WebSocket and the records that they carry: web/src/types/websocket.ts
-- and web/src/types/lobby.ts. Turns and scores are natural numbers; so are ids, where those of bots, which
-- are negative, stand as Messages/Ids says; an optional field is an `Option`; a time stamp is its text.
mod Ids
use dot_and_boxes.Prelude.{ℕ, Bool, Option, List, String}
use dot_and_boxes.Prelude.Int.{ℤ}
use dot_and_boxes.Board.{Grid}

pub record Player : Type 0 where
  pub user_id : ℕ
  pub username : String
  pub avatar_url : String
  pub is_anonymous : Bool
  pub status : String

pub record GamePlayer : Type 0 where
  pub player : Player
  pub open player use *
  pub turn_order : ℕ
  pub score : ℕ

pub record LobbyPlayer : Type 0 where
  pub player : Player
  pub open player use *
  pub is_ready : Bool

pub record Game : Type 0 where
  pub game_id : ℕ
  pub game_name : Option String
  pub players : List GamePlayer
  pub board_size : ℕ
  pub winner_id : Option ℕ
  pub created_at : String
  pub current_turn : ℕ
  pub grid : Grid

pub record WinnerPayload : Type 0 where
  pub winner_id : ℕ
  pub winner_username : String

pub record InvitePayload : Type 0 where
  pub sender_id : ℕ
  pub sender_name : String
  pub receiver_id : ℕ
  pub receiver_name : String
  pub timestamp : String
  pub board_size : ℕ

-- `gameID: number | string`
pub data GameId : Type 0 where
  number : ℕ → GameId
  text : String → GameId

pub record GameStartPayload : Type 0 where
  pub game_id : GameId
  pub lobby_id : Option String

pub record AcceptInvitePayload : Type 0 where
  pub player_id : ℕ
  pub sender_id : ℕ
  pub board_size : ℕ

pub record DeclineInvitePayload : Type 0 where
  pub inviter_id : ℕ

pub record ChatMessagePayload : Type 0 where
  pub user_id : ℕ
  pub username : String
  pub message : String
  pub timestamp : String

pub record GameQuitPayload : Type 0 where
  pub game_id : ℕ
  pub player_id : ℕ

pub record GameMovePayload : Type 0 where
  pub game_id : ℕ
  pub player_id : ℕ
  pub row : ℤ
  pub col : ℤ
  pub edge : String

pub record PlayerTimerInfo : Type 0 where
  pub turn_order : ℕ
  pub user_id : ℕ
  pub remaining_ms : ℤ
  pub disconnected : Bool

pub record TimerStatePayload : Type 0 where
  pub game_id : ℕ
  pub players : List PlayerTimerInfo
  pub active_turn : ℕ
  pub turn_limit_ms : Option ℤ

-- `Lobby`; the payload of `lobby_created` has the same fields.
pub record Lobby : Type 0 where
  pub lobby_id : String
  pub name : String
  pub board_size : ℕ
  pub host_id : ℕ
  pub player_limit : ℕ
  pub is_private : Bool
  pub created_at : String
  pub players : Option (List LobbyPlayer)

pub record CreateLobbyData : Type 0 where
  pub name : String
  pub board_size : ℕ
  pub player_limit : ℕ
  pub is_private : Bool

pub record LobbyUpdatedPayload : Type 0 where
  pub lobby_id : String
  pub players : Option (List LobbyPlayer)
  pub status : Option String
  pub board_size : Option ℕ
  pub host_id : Option ℕ
  pub created_at : Option String
  pub name : Option String
  pub player_limit : Option ℕ
  pub is_private : Option Bool

-- The `type` of a message with its payload. `other_players` is `player:get` with a text.
pub data Body : Type 0 where
  game_move : GameMovePayload → Body
  chat_new : ChatMessagePayload → Body
  game_state : Game → Body
  winner_set : WinnerPayload → Body
  your_turn invalid_move page_join page_leave other_players : Body
  game_quit : GameQuitPayload → Body
  invite_new : InvitePayload → Body
  player_get : List Player → Body
  game_new : GameStartPayload → Body
  invite_accept : AcceptInvitePayload → Body
  invite_decline : DeclineInvitePayload → Body
  game_timer : TimerStatePayload → Body
  lobby_created : Lobby → Body
  lobby_updated : LobbyUpdatedPayload → Body
  lobby_deleted : String → Body

pub record Message : Type 0 where
  pub topic : Option String
  pub body : Body
