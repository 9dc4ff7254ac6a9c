-- ===== src/Play/Unread.antt =====
-- The count of unread messages in play.tsx.
use dot_and_boxes.Prelude.{
  ℕ, ◌+◌, ◌≡◌, refl, ap, ◌∙◌, Bool, true, false, List, [], ◌∷◌, ◌++◌, any, arith, if◌then◌else◌,
}
use dot_and_boxes.Messages.{Body, chat_new}
use dot_and_boxes.Play.{
  Menu, is_global, take_create_param, dock_ready, ready_ended, lobby_created_here,
  lobby_not_created, submit_bot_game, bot_game_ended, receive_message, open_chat, close_chat,
  dock_sound, dock_music, dock_list, set_mute_sfx, set_mute_bgm, press_button, MenuEvent, receives,
  chat_opens, chat_closes, handle_menu, run_events,
}

abbrev pub is_open : MenuEvent → Bool
is_open chat_opens = true
is_open _ = false

abbrev pub is_close : MenuEvent → Bool
is_close chat_closes = true
is_close _ = false

abbrev pub is_chat : Body → Bool
is_chat (chat_new p) = true
is_chat _ = false

-- How many messages of the global chat arrive.
abbrev pub global_chats : List MenuEvent → ℕ
global_chats [] = 0
global_chats (receives msg ∷ es) =
    if is_chat msg.body
    then (if is_global msg.topic then 1 else 0) + global_chats es
    else global_chats es
global_chats (_ ∷ es) = global_chats es

run_events-append :
    (es fs : List MenuEvent) (m : Menu) → run_events (es ++ fs) m ≡ run_events fs (run_events es m)
unfolding run_events
run_events-append [] fs m = refl
run_events-append (e ∷ es) fs m = run_events-append es fs (handle_menu e m)

-- A closed chat counts, an open one does not.
handle-closed :
    (e : MenuEvent) (m : Menu)
    → m.chat_dialog ≡ false
    → is_open e ≡ false
    → ((handle_menu e m).chat_dialog ≡ false)
      × ((handle_menu e m).chat_unread ≡ m.chat_unread + global_chats (e ∷ []))
unfolding handle_menu take_create_param dock_ready ready_ended lobby_created_here lobby_not_created
    submit_bot_game bot_game_ended receive_message open_chat close_chat dock_sound dock_music
    dock_list set_mute_sfx set_mute_bgm press_button
handle-closed e m d o = (ground (arith, d, o), ground (arith, d, o))

handle-open :
    (e : MenuEvent) (m : Menu)
    → m.chat_dialog ≡ true
    → is_close e ≡ false
    → m.chat_unread ≡ 0
    → ((handle_menu e m).chat_dialog ≡ true) × ((handle_menu e m).chat_unread ≡ 0)
unfolding handle_menu take_create_param dock_ready ready_ended lobby_created_here lobby_not_created
    submit_bot_game bot_game_ended receive_message open_chat close_chat dock_sound dock_music
    dock_list set_mute_sfx set_mute_bgm press_button
handle-open e m d o z = (ground (arith, d, o, z), ground (arith, d, o, z))

run-closed :
    (es : List MenuEvent) (m : Menu)
    → m.chat_dialog ≡ false
    → any is_open es ≡ false
    → (run_events es m).chat_unread ≡ m.chat_unread + global_chats es
unfolding run_events
run-closed [] m d o = ground arith
run-closed (e ∷ es) m d o =
    let (still, counted) = handle-closed e m d (ground (arith, o)) in
    let rest = run-closed es (handle_menu e m) still (ground (arith, o)) in
    ground (arith, rest, counted)

run-open :
    (es : List MenuEvent) (m : Menu)
    → m.chat_dialog ≡ true
    → any is_close es ≡ false
    → m.chat_unread ≡ 0
    → (run_events es m).chat_unread ≡ 0
unfolding run_events
run-open [] m d o z = z
run-open (e ∷ es) m d o z =
    let (still, zero) = handle-open e m d (ground (arith, o)) z in
    run-open es (handle_menu e m) still (ground (arith, o)) zero

closing :
    (m : Menu)
    → ((handle_menu chat_closes m).chat_dialog ≡ false)
      × ((handle_menu chat_closes m).chat_unread ≡ m.chat_unread)
unfolding handle_menu close_chat
closing m = (refl, refl)

opening :
    (m : Menu)
    → ((handle_menu chat_opens m).chat_dialog ≡ true) × ((handle_menu chat_opens m).chat_unread ≡ 0)
unfolding handle_menu open_chat
opening m = (refl, refl)

-- Whatever happened before, if the chat is opened, stays open over the events `during`, is closed,
-- and stays closed over the events `after`, then the count of unread messages is the number of the
-- global chat's messages among `after`: those that came while it was open are not counted, nor those
-- of other topics.
pub run_events-unread :
    (es during after : List MenuEvent) (m : Menu)
    → any is_close during ≡ false
    → any is_open after ≡ false
    → (run_events (es ++ chat_opens ∷ (during ++ chat_closes ∷ after)) m).chat_unread
      ≡ global_chats after
unfolding run_events
run_events-unread es during after m c o =
    let opened = handle_menu chat_opens (run_events es m) in
    let read = run_events during opened in
    let zero =
      run-open during opened (opening (run_events es m)).0 c (opening (run_events es m)).1 in
    ap (λ (x : Menu). x.chat_unread)
      (run_events-append es (chat_opens ∷ (during ++ chat_closes ∷ after)) m)
    ∙ ap (λ (x : Menu). x.chat_unread) (run_events-append during (chat_closes ∷ after) opened)
    ∙ run-closed after (handle_menu chat_closes read) (closing read).0 o
    ∙ ap (λ n. n + global_chats after) ((closing read).1 ∙ zero)
    ∙ omega arith
