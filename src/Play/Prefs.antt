-- ===== src/Play/Prefs.antt =====
-- What play.tsx keeps in the browser over a reload: the two mute items, and the nonce of `?create=1`.
use dot_and_boxes.Prelude.{ℕ, ◌≡◌, ◌≢◌, refl, sym, ◌∙◌, ap, true, List, [], ◌∷◌, arith}
use dot_and_boxes.Prelude.Int.{pos}
use dot_and_boxes.Prelude.Text.{Text, decimal, decimal_nil}
use dot_and_boxes.Play.{
  Menu, open_menu, read_pending_open_create_nonce, take_create_param, dock_ready, ready_ended,
  lobby_created_here, lobby_not_created, submit_bot_game, bot_game_ended, receive_message,
  open_chat, close_chat, dock_sound, dock_music, dock_list, set_mute_sfx, set_mute_bgm,
  press_button, MenuEvent, handle_menu, run_events,
}
use dot_and_boxes.Play.Stores.{Storage, Number, finite, is_one}

-- The mute states are what the items say.
record IsStored (m : Menu) : Type 0 where
  sfx_stored : is_one m.storage.mute_sfx ≡ m.mute_sfx
  bgm_stored : is_one m.storage.mute_bgm ≡ m.mute_bgm

handle_menu-IsStored : (e : MenuEvent) (m : Menu) → IsStored m → IsStored (handle_menu e m)
unfolding handle_menu take_create_param dock_ready ready_ended lobby_created_here lobby_not_created
    submit_bot_game bot_game_ended receive_message open_chat close_chat dock_sound dock_music
    dock_list set_mute_sfx set_mute_bgm press_button
handle_menu-IsStored e m i = record {
  sfx_stored = ground (arith, i.sfx_stored);
  bgm_stored = ground (arith, i.bgm_stored);
}

run_events-IsStored : (es : List MenuEvent) (m : Menu) → IsStored m → IsStored (run_events es m)
unfolding run_events
run_events-IsStored [] m i = i
run_events-IsStored (e ∷ es) m i =
    run_events-IsStored es (handle_menu e m) (handle_menu-IsStored e m i)

-- `decimal n` is a text that is not empty.
decimal-cons : (n : ℕ) → n ≢ 0 → (c : ℕ) × (t : Text) × (decimal n ≡ c ∷ t)
decimal-cons n p = by_text (decimal n) refl
  where
    by_text : (t : Text) → decimal n ≡ t → (c : ℕ) × (s : Text) × (decimal n ≡ c ∷ s)
    by_text [] h = absurd (p (decimal_nil n h))
    by_text (c ∷ s) h = (c, s, h)

module _ (to_number : Text → Number) where
  open_menu-IsStored : (s : Storage) → IsStored (open_menu to_number s)
  unfolding open_menu
  open_menu-IsStored s = record { sfx_stored = refl; bgm_stored = refl }

  open_menu-mutes :
      (s : Storage)
      → ((open_menu to_number s).mute_sfx ≡ is_one s.mute_sfx)
        × ((open_menu to_number s).mute_bgm ≡ is_one s.mute_bgm)
  unfolding open_menu read_pending_open_create_nonce
  open_menu-mutes s = (ground arith, ground arith)

  -- After any events since the page was opened, whatever was stored then, a reload shows the two mute
  -- states that the page has.
  pub reload-mutes :
      (s : Storage) (es : List MenuEvent)
      → let m = run_events es (open_menu to_number s) in
        ((open_menu to_number m.storage).mute_sfx ≡ m.mute_sfx)
        × ((open_menu to_number m.storage).mute_bgm ≡ m.mute_bgm)
  reload-mutes s es =
      let m = run_events es (open_menu to_number s) in
      let i = run_events-IsStored es (open_menu to_number s) (open_menu-IsStored s) in
      let (sfx, bgm) = open_menu-mutes m.storage in (sfx ∙ i.sfx_stored, bgm ∙ i.bgm_stored)

  -- Where the storage is available and `Number` reads back the digits of `now`, which is not 0: a
  -- reload after the effect on `?create=1` at the time `now` opens with the nonce `now`, and a second
  -- reload with 0.
  pub reload-nonce :
      (now : ℕ) (m : Menu)
      → to_number (decimal now) ≡ finite (pos now)
      → m.storage.available ≡ true
      → now ≢ 0
      → let reloaded = open_menu to_number (take_create_param true now m).storage in
        (reloaded.open_create_nonce ≡ now)
        × ((open_menu to_number reloaded.storage).open_create_nonce ≡ 0)
  unfolding open_menu read_pending_open_create_nonce take_create_param
  reload-nonce now m reads available nonzero =
      let (c, t, digits) = decimal-cons now nonzero in
      let reads' : to_number (c ∷ t) ≡ finite (pos now) = ap to_number (sym digits) ∙ reads in
      (
        ground (arith, available, digits, reads', nonzero),
        ground (arith, available, digits, reads', nonzero),
      )
