-- ===== src/LobbyPage/Received.antt =====
-- What the page of a lobby reads in the messages of the server and in the lobby.
use dot_and_boxes.Prelude.{ℕ, Bool, false, not, Option, none, some, List, [], map, any, ◌==◌}
use dot_and_boxes.Prelude.Text.{Text, codes, decimal}
use dot_and_boxes.Messages.{LobbyPlayer, Lobby, GameId, number, text}

-- An id in a payload: its key is missing, its value is `null` or `undefined`, or it is there.
pub data IdField : Type 0 where
  absent nullish : IdField
  present : GameId → IdField

-- `gameID`, `game_id` and `lobby_id` of a payload.
pub record StartFields : Type 0 where
  pub camel : IdField
  pub snake : IdField
  pub lobby_id : Option Text

pub data Incoming : Type 0 where
  updated : Option (List LobbyPlayer) → Incoming
  -- the fields of the payload, if it is an object
  game_new : Option StartFields → Incoming
  other_type : Incoming

-- `String(id)`
abbrev pub id_text : GameId → Text
id_text (number n) = decimal n
id_text (text s) = codes s

-- The game of a `game:new`: the key `gameID` goes first, whatever its value is.
abbrev pub started_id : Option StartFields → IdField
started_id none = absent
started_id (some f) = elim f.camel [ absent ↦ f.snake | nullish ↦ nullish | present i ↦ present i ]

abbrev pub or_empty : Option Text → Text
or_empty none = []
or_empty (some t) = t

-- `payload.players ?? old.players`
abbrev pub merge_players : Option (List LobbyPlayer) → Lobby → Lobby
merge_players none old = old
merge_players (some ps) old = record old { players = some ps }

-- `lobby.players?.some((p) => p.user_id === user.userID)`
abbrev pub has_player : ℕ → Option (List LobbyPlayer) → Bool
has_player uid none = false
has_player uid (some ps) = any (λ q. q.user_id == uid) ps

abbrev pub is_signed_in : Option ℕ → Bool
is_signed_in none = false
is_signed_in (some uid) = not (uid == 0)

abbrev pub player_ids : Option (List LobbyPlayer) → List ℕ
player_ids none = []
player_ids (some ps) = map (λ q. q.user_id) ps
