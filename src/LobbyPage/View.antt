-- ===== src/LobbyPage/View.antt =====
-- What $lobbyID.tsx renders of a lobby: the rows of the players, the two buttons and the notices. An
-- upper-cased text is the parameter `to_upper`.
use dot_and_boxes.Prelude.{
  ℕ, ◌≡◌, ◌≤◌, Bool, true, false, not, ◌&&◌, ◌||◌, Option, none, some, List, [], ◌∷◌, ◌++◌, map,
  find, all, length, take, if◌then◌else◌, leb, ◌==◌,
}
use dot_and_boxes.Prelude.Text.{Text, codes, decimal}
use dot_and_boxes.Messages.{LobbyPlayer, Lobby}
use dot_and_boxes.LobbyPage.Guard.{Query, pending, is_error, has_data}

-- `players ?? []`
abbrev pub players_of : Lobby → List LobbyPlayer
players_of l = elim l.players [ none ↦ [] | some ps ↦ ps ]

abbrev pub is_user : Option ℕ → ℕ → Bool
is_user none uid = false
is_user (some u) uid = uid == u

unfoldable pub is_current_user_ready : Option ℕ → Lobby → Bool
is_current_user_ready user l = elim (find (λ p. is_user user p.user_id) (players_of l)) [
  | none ↦ false
  | some p ↦ p.is_ready
]

unfoldable pub all_players_ready : Lobby → Bool
all_players_ready l = elim l.players [ none ↦ false | some ps ↦ all (λ p. p.is_ready) ps ]

unfoldable pub has_enough_players : Lobby → Bool
has_enough_players l = leb 2 (length (players_of l))

unfoldable pub is_host : Option ℕ → Lobby → Bool
is_host user l = is_user user l.host_id

-- The text in place of the lobby, while it is not there.
unfoldable pub waiting_text : Query → Option Text
waiting_text pending = some (codes "Loading lobby...")
waiting_text (is_error msg) = some (codes "Taking you back to Play…")
waiting_text (has_data none) = some (codes "Taking you back to Play…")
waiting_text (has_data (some l)) = none

pub record Button : Type 0 where
  pub disabled : Bool
  pub label : Text

unfoldable pub ready_button : Bool → Bool → Option ℕ → Lobby → Button
unfolding is_current_user_ready
ready_button toggling connected user l = record {
  disabled = toggling || not connected;
  label =
      if toggling
      then codes "Updating..."
      else if is_current_user_ready user l
      then codes "Unready"
      else codes "Ready Up";
}

-- The host's button, which no one else has.
unfoldable pub start_button : Bool → Option ℕ → Lobby → Option Button
unfolding is_host has_enough_players all_players_ready
start_button starting user l =
    if is_host user l
    then some (record {
      disabled = not (has_enough_players l) || not (all_players_ready l) || starting;
      label = if starting then codes "Creating Game..." else codes "Start Game";
    })
    else none

unfoldable pub leave_button : Bool → Button
leave_button leaving = record {
  disabled = leaving;
  label = if leaving then codes "Leaving..." else codes "Leave";
}

-- The boxes below the buttons.
pub data Notice : Type 0 where
  all_must_be_ready need_two_players disconnected : Notice

abbrev pub when : Bool → Notice → List Notice
when b n = if b then n ∷ [] else []

unfoldable pub notices : Bool → Lobby → List Notice
unfolding has_enough_players all_players_ready
notices connected l =
    when (not (all_players_ready l) && has_enough_players l) all_must_be_ready
    ++ when (not (has_enough_players l)) need_two_players
    ++ when (not connected) disconnected

pub record Row : Type 0 where
  pub initial : Text
  pub name : Text
  pub crown : Bool
  pub you : Bool
  pub status : Text

unfoldable pub player_count : Lobby → Text
player_count l =
    codes "Players: " ++ decimal (length (players_of l)) ++ codes " / " ++ decimal l.player_limit

module _ (to_upper : Text → Text) where
  unfoldable pub player_row : Option ℕ → Lobby → LobbyPlayer → Row
  player_row user l p = record {
    initial = to_upper (take 1 (codes p.username));
    name = codes p.username;
    crown = p.user_id == l.host_id;
    you = is_user user p.user_id;
    status = if p.is_ready then codes "Ready" else codes "Not Ready";
  }

  -- None where the text `No players in lobby` stands.
  unfoldable pub player_rows : Option ℕ → Lobby → List Row
  unfolding player_row
  player_rows user l = map (player_row user l) (players_of l)

-- What a lobby must meet to be started.
pub record MayStart (user : Option ℕ) (l : Lobby) : Type 0 where
  pub hosted : user ≡ some l.host_id
  pub enough : 2 ≤ length (players_of l)
  pub everyone_ready : all (λ (p : LobbyPlayer). p.is_ready) (players_of l) ≡ true
