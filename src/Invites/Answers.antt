-- ===== src/Invites/Answers.antt =====
-- To whom PlayerLobby.tsx sends invitations, and how often it answers them.
use dot_and_boxes.Prelude.{
  ℕ, ◌+◌, ◌≤◌, ◌≡◌, refl, Bool, true, not, Option, none, some, List, [], ◌∷◌, ◌==◌, arith, all,
}
use dot_and_boxes.Messages.{Player, InvitePayload, Body, invite_new}
use dot_and_boxes.Auth.{User}
use dot_and_boxes.Invites.{
  Sent, invite, accept, decline, PlayerLobby, new_player_lobby, ask_players, receive_invites,
  click_player, change_board_size, handle_send_game_invite, handle_accept_invite,
  handle_decline_invite, Event, receives, handle, run,
}

abbrev pub answers : List Sent → ℕ
answers [] = 0
answers (accept p ∷ os) = 1 + answers os
answers (decline p ∷ os) = 1 + answers os
answers (_ ∷ os) = answers os

abbrev pub is_open : Option InvitePayload → ℕ
is_open none = 0
is_open (some i) = 1

abbrev pub is_invite : Body → ℕ
is_invite (invite_new i) = 1
is_invite _ = 0

-- How many invitations came in.
abbrev pub invitations : List Event → ℕ
invitations [] = 0
invitations (receives m ∷ es) = is_invite m.body + invitations es
invitations (_ ∷ es) = invitations es

-- Not an invitation of this player.
abbrev pub is_to_other : ℕ → Sent → Bool
is_to_other me (invite i) = not (i.receiver_id == me)
is_to_other me _ = true

abbrev is_other : ℕ → Option Player → Bool
is_other me none = true
is_other me (some p) = not (p.user_id == me)

record IsFair (u : User) (n : ℕ) (s : PlayerLobby) : Type 0 where
  answered : answers s.sent + is_open s.incoming_invite ≤ n
  others : all (is_to_other u.user_id) s.sent ≡ true
  selected : is_other u.user_id s.selected_player ≡ true

handle-IsFair :
    (e : Event) (u : User) (n : ℕ) (s : PlayerLobby)
    → IsFair u n s
    → IsFair u (n + invitations (e ∷ [])) (handle (some u) e s)
unfolding handle ask_players receive_invites click_player change_board_size handle_send_game_invite
    handle_accept_invite handle_decline_invite
handle-IsFair e u n s f = ground arith

run-IsFair :
    (es : List Event) (u : User) (n : ℕ) (s : PlayerLobby)
    → IsFair u n s
    → IsFair u (n + invitations es) (run (some u) es s)
unfolding run
run-IsFair [] u n s f = ground (arith, f)
run-IsFair (e ∷ es) u n s f =
    let rest =
      run-IsFair es u (n + invitations (e ∷ [])) (handle (some u) e s) (handle-IsFair e u n s f) in
    ground (arith, rest)

-- Whatever the user does and the server sends, over whatever connections: each invitation that
-- came in is answered once at most, so that the answers that went out and the invitation that is
-- still shown are no more than those that came in; and no invitation went out to the user, whom the list
-- shows too.
pub run-answers :
    (es : List Event) (u : User)
    → (answers (run (some u) es new_player_lobby).sent
          + is_open (run (some u) es new_player_lobby).incoming_invite
        ≤ invitations es)
      × (all (is_to_other u.user_id) (run (some u) es new_player_lobby).sent ≡ true)
run-answers es u =
    let f =
      run-IsFair es u 0 new_player_lobby
        (record { answered = omega arith; others = refl; selected = refl }) in
    (omega (arith, f.answered), f.others)
