-- ===== src/CreateLobby/Tests.antt =====
-- Runs of the form for a new lobby.

use dot_and_boxes.Prelude.{◌≡◌, ◌⊎◌, refl, true, false, none, some, []}
use dot_and_boxes.Prelude.Int.{pos}
use dot_and_boxes.Prelude.Text.{codes, trim}
use dot_and_boxes.CreateLobby.{
  Form, whole, fraction, clamp_board_api, submitted_values, handle_create_lobby_submit,
}
use dot_and_boxes.CreateLobby.Submit.{CanCreate, IsWhole, handle_create_lobby_submit_lem}

-- Seven and a half is rounded up.
rounded : clamp_board_api (fraction (pos 15) 1) ≡ whole 8
unfolding clamp_board_api
rounded = refl

abbrev form : Form
form = record {
  visible = true;
  lobby_create_pending = false;
  buttons_pending = false;
  error = [];
  name = codes " room ";
  player_limit = whole 4;
  board_size = whole 12;
}

asks_for_ten :
    (handle_create_lobby_submit (codes "nan") form).1
    ≡ some (record {
      name = codes "room";
      player_limit = whole 4;
      board_size = whole 10;
      is_private = false;
    })
unfolding handle_create_lobby_submit trim
asks_for_ten = refl

handle_create_lobby_submit_lem_example :
    (CanCreate form
      × ((handle_create_lobby_submit (codes "nan") form).1
          ≡ some (submitted_values (codes "nan") form))
      × IsWhole 5 10 (submitted_values (codes "nan") form).board_size)
    ⊎ ((¬ (CanCreate form)) × ((handle_create_lobby_submit (codes "nan") form).1 ≡ none))
handle_create_lobby_submit_lem_example = handle_create_lobby_submit_lem (codes "nan") form
