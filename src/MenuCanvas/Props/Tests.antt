-- ===== src/MenuCanvas/Props/Tests.antt =====
-- A menu whose props change before and after its scene is made.
use dot_and_boxes.Prelude.{
  ℕ, ◌-◌, ◌≡◌, ◌&&◌, ◌==◌, refl, Bool, true, false, some, List, [], ◌∷◌, leb, if◌then◌else◌,
}
use dot_and_boxes.Prelude.Text.{Text, codes, trim, decimal}
use dot_and_boxes.Lobby.Names.{base, assign_unique_display_names, assign_from}
use dot_and_boxes.CreateLobby.Slots.{occupied, waiting, set_names, make_scene, apply_slots}
use dot_and_boxes.MenuCanvas.{
  switch, mount_canvas, canvas_init_done, frames_done, mounts, init_ends, frames_end, handle,
}
use dot_and_boxes.MenuCanvas.Props.{
  Props, Screen, make_menu, new_screen, write_props, write_all_props, open_overlay, render_props,
  canvas_event, ScreenEvent, canvas_does, renders, handle_screen, run_screen,
}
use dot_and_boxes.MenuCanvas.Props.Shown.{Shows, run_screen-Shows}

-- English letters in upper case.
abbrev upper : Text → Text
upper [] = []
upper (c ∷ t) = (if leb 97 c && leb c 122 then c - 32 else c) ∷ upper t

-- A renderer from the end of `app.init` to the first `app.destroy`.
abbrev renderer : Bool → ℕ → Bool
renderer made destroys = made && destroys == 0

abbrev props : Props
props = record {
  display_name = codes "ann";
  guest_names = [];
  chat_badge_count = 2;
  ready_highlighted = true;
  initial_sound_muted = true;
  initial_music_muted = false;
  lobby_create_pending = false;
  open_create_lobby_nonce = 7;
}

abbrev later : Props
later = record props { display_name = codes "bo"; initial_music_muted = true }

abbrev events : List ScreenEvent
events =
    canvas_does mounts
    ∷ canvas_does (init_ends 0 true)
    ∷ canvas_does (frames_end 0 true)
    ∷ renders (some (codes "cy" ∷ [])) later
    ∷ []

abbrev last : Screen
last = run_screen upper renderer events (new_screen upper props)

-- The badge and the ready rim of the first props are not shown, and the form is open.
shows_late :
    ((last.scenes 0).roster.slots
      ≡ occupied (codes "BO") 0xe63946 ∷ occupied (codes "CY") 0x457b9d ∷ waiting ∷ [])
    × ((last.scenes 0).music_dimmed ≡ true)
    × ((last.scenes 0).badge ≡ 0)
    × ((last.scenes 0).ready_lit ≡ false)
    × (last.openings ≡ 7 ∷ [])
unfolding run_screen handle_screen canvas_event render_props open_overlay write_props
    write_all_props make_menu make_scene set_names apply_slots handle mount_canvas canvas_init_done
    frames_done switch assign_unique_display_names assign_from base trim decimal
shows_late = (refl, refl, refl, refl, refl)

run_screen-Shows_example : Shows upper last
run_screen-Shows_example = run_screen-Shows upper renderer events props
