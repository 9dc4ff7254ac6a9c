-- ===== src/Play/Seat.antt =====
-- What play.tsx shows of the user's lobby and of the user.
use dot_and_boxes.Prelude.{
  ℕ, Bool, false, not, Option, none, some, List, [], ◌∷◌, String, map, keep, find, take, ◌==◌,
}
use dot_and_boxes.Prelude.Text.{Text, codes, trim}
use dot_and_boxes.Messages.{Lobby, LobbyPlayer}
use dot_and_boxes.Lobby.Display.{Session, read_lobby_display_name}
use dot_and_boxes.Play.Lobbies.{seats}

-- `lobbyGuestNames`
unfoldable pub lobby_guest_names : Option Lobby → Option ℕ → List String
lobby_guest_names none user = []
lobby_guest_names (some l) none = []
lobby_guest_names (some l) (some uid) = elim l.players [
  | none ↦ []
  | some ps ↦ take 2 (map (λ (p : LobbyPlayer). p.username) (keep (λ p. not (p.user_id == uid)) ps))
]

-- `selfReady`
unfoldable pub self_ready : Option Lobby → Option ℕ → Bool
self_ready none user = false
self_ready (some l) none = false
self_ready (some l) (some uid) = elim l.players [
  | none ↦ false
  | some ps ↦ elim (find (λ (p : LobbyPlayer). p.user_id == uid) ps) [
    | none ↦ false
    | some p ↦ p.is_ready
  ]
]

-- `p.user_id === uid` for some player, where `uid` may be `undefined`.
abbrev pub seats_user : Option ℕ → Lobby → Bool
seats_user none l = false
seats_user (some uid) l = seats uid l

abbrev pub or_text : Text → Text → Text
or_text [] d = d
or_text (c ∷ t) d = c ∷ t

-- `lobbyDisplayName`
unfoldable pub lobby_display_name : Session → Option Text → Text
lobby_display_name session username =
    or_text (trim (read_lobby_display_name session))
      (or_text (elim username [ none ↦ [] | some t ↦ trim t ]) (codes "PLAYER"))
