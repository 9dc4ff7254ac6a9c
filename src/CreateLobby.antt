-- ===== src/CreateLobby.antt =====
-- The form for a new lobby on the menu's canvas: its values and flags in
-- web/src/pixi/mainMenu/createLobbyDomForm.ts, `closeCreateLobby`, `handleCreateLobbySubmit`,
-- `openCreateLobby` and `setDisplayName` of web/src/pixi/mainMenu/MainMenuScene.ts, and the rules of
-- web/src/lib/lobbyCreateForm.ts. What `Number(input.value)` gives is a fraction or `NaN`; the message of
-- zod for a `NaN` is the parameter `not_a_number`.
pub mod Slots
pub mod Submit
pub mod Label
mod Tests
use package.dot_and_boxes.Prelude.{
  ℕ, suc, ◌+◌, ◌*◌, ◌/◌, min, max, Bool, true, false, Option, none, some, List, [], ◌∷◌, ◌++◌,
  length, take, if◌then◌else◌, leb, ltb,
}
use package.dot_and_boxes.Prelude.Int.{ℤ, pos, negsuc}
use package.dot_and_boxes.Prelude.Text.{Text, codes, trim}

-- `fraction n d` is n / (d + 1).
pub data Number : Type 0 where
  nan : Number
  fraction : ℤ → ℕ → Number

abbrev pub whole : ℕ → Number
whole n = fraction (pos n) 0

-- `Math.min(10, Math.max(5, Math.round(n)))`, which keeps `NaN`; halves are rounded up.
unfoldable pub clamp_board_api : Number → Number
clamp_board_api nan = nan
clamp_board_api (fraction (pos n) d) = whole (min 10 (max 5 ((2 * n + suc d) / (2 * suc d))))
clamp_board_api (fraction (negsuc n) d) = whole 5

abbrev pub at_least : ℕ → ℤ → ℕ → Bool
at_least m (pos n) d = leb (m * suc d) n
at_least m (negsuc n) d = false

abbrev pub at_most : ℕ → ℤ → ℕ → Bool
at_most m (pos n) d = leb n (m * suc d)
at_most m (negsuc n) d = true

pub record LobbyValues : Type 0 where
  pub name : Text
  pub player_limit : Number
  pub board_size : Number
  pub is_private : Bool

-- The form: whether it is open, the two flags of a request under way (the scene's and the buttons'), the
-- error that it shows, and its inputs.
pub record Form : Type 0 where
  pub visible : Bool
  pub lobby_create_pending : Bool
  pub buttons_pending : Bool
  pub error : Text
  pub name : Text
  pub player_limit : Number
  pub board_size : Number

-- `getValues`
abbrev pub get_values : Form → LobbyValues
get_values f = record {
  name = f.name;
  player_limit = f.player_limit;
  board_size = f.board_size;
  is_private = false;
}

-- `reset`
unfoldable pub reset : Number → Form → Form
unfolding clamp_board_api
reset default_board_size f = record f {
  name = [];
  player_limit = whole 4;
  board_size = clamp_board_api default_board_size;
  error = [];
  buttons_pending = false;
}

unfoldable pub close_create_lobby : Form → Form
close_create_lobby f =
    if f.lobby_create_pending then f else record f { visible = false; error = [] }

unfoldable pub open_create_lobby : Number → Form → Form
unfolding reset
open_create_lobby default_board_size f = record (reset default_board_size f) {
  error = [];
  visible = true;
}

unfoldable pub set_lobby_create_pending : Bool → Form → Form
set_lobby_create_pending pending f = record f {
  lobby_create_pending = pending;
  buttons_pending = pending;
}

module _ (not_a_number : Text) where
  -- The message of a number's first rule that does not hold.
  abbrev pub number_issue : ℕ → Text → ℕ → Text → Number → Option Text
  number_issue low too_low high too_high nan = some not_a_number
  number_issue low too_low high too_high (fraction n d) =
      if at_least low n d then if at_most high n d then none else some too_high else some too_low

  abbrev pub name_issue : Text → Option Text
  name_issue [] = some (codes "Lobby name is required")
  name_issue (c ∷ t) = none

  abbrev pub or_next : Option Text → Option Text → Option Text
  or_next none next = next
  or_next (some message) next = some message

  -- `LobbyCreateSchema.safeParse`: the message of the first issue, of a name that is already trimmed.
  unfoldable pub first_issue : LobbyValues → Option Text
  first_issue v = or_next (name_issue v.name) (
      or_next
        (number_issue 2 (codes "Minimum 2 players") 10 (codes "Maximum 10 players") v.player_limit)
        (number_issue 5 (codes "Minimum board size is 5") 10 (codes "Maximum board size is 10")
          v.board_size))

  -- The values as the schema takes them: the name is trimmed here and once more there.
  unfoldable pub submitted_values : Form → LobbyValues
  unfolding clamp_board_api
  submitted_values f = record {
    name = trim (trim f.name);
    player_limit = (get_values f).player_limit;
    board_size = clamp_board_api (get_values f).board_size;
    is_private = (get_values f).is_private;
  }

  -- `handleCreateLobbySubmit`, with what `onLobbyCreateSubmit` is called with.
  unfoldable pub handle_create_lobby_submit : Form → Form × Option LobbyValues
  unfolding first_issue submitted_values
  handle_create_lobby_submit f =
      if f.lobby_create_pending then (f, none) else elim (first_issue (submitted_values f)) [
        | some message ↦ (record f { error = message }, none)
        | none ↦ (record f { error = [] }, some (submitted_values f))
      ]

-- The request failed, with the message of an `Error` if it was one.
unfoldable pub create_lobby_failed : Option Text → Form → Form
create_lobby_failed none f = record f { error = codes "Failed to create lobby" }
create_lobby_failed (some message) f = record f { error = message }

-- The texts and the states of the two buttons.
pub record FormButtons : Type 0 where
  pub disabled : Bool
  pub submit_text : Text

unfoldable pub form_buttons : Form → FormButtons
form_buttons f = record {
  disabled = f.buttons_pending;
  submit_text = if f.buttons_pending then codes "WAIT…" else codes "CREATE";
}

abbrev pub or_player : Text → Text
or_player [] = codes "PLAYER"
or_player (c ∷ t) = c ∷ t

-- The label of the name, of the upper-cased name.
abbrev pub name_label : Text → Text
name_label upper =
    if ltb 24 (length (codes "NAME: " ++ upper))
    then codes "NAME: " ++ take 20 upper ++ codes "…"
    else codes "NAME: " ++ upper

-- `setDisplayName`: the label that it sets.
unfoldable pub set_display_name : (Text → Text) → Text → Text
set_display_name to_upper name = name_label (to_upper (or_player (trim name)))
