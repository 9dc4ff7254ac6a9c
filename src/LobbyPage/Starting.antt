-- ===== src/LobbyPage/Starting.antt =====
-- The start of a game in $lobbyID.tsx: when its button can be clicked, what the click asks of the
-- server, and how often.
use dot_and_boxes.Prelude.{
  ℕ, ◌+◌, ◌≤◌, ◌≡◌, ◌≢◌, refl, ◌⊎◌, inl, inr, Bool, true, false, not, ◌||◌, Option, none, some,
  List, [], ◌∷◌, all, length, map, if◌then◌else◌, arith, Bool-cases,
}
use dot_and_boxes.Prelude.Text.{Text, codes}
use dot_and_boxes.Messages.{LobbyPlayer, Lobby}
use dot_and_boxes.LobbyPage.{
  Action, create_game, Page, new_page, watch_query, leave_lobby_quietly, handle_before_unload,
  leave_on_cleanup, watch_connection, receive_event, auto_rejoin, after_rejoin, handle_start_game,
  after_start, handle_toggle_ready, after_toggle_ready, copy_invite_link, after_copy,
  handle_leave_lobby, after_leave, Event, handle, run, start_click, start_ends,
}
use dot_and_boxes.LobbyPage.Received.{player_ids}
use dot_and_boxes.LobbyPage.Guard.{lobby_failure_route}
use dot_and_boxes.LobbyPage.Leaving.{tally}
use dot_and_boxes.LobbyPage.View.{
  players_of, is_host, has_enough_players, all_players_ready, Button, start_button, notices,
  MayStart,
}

abbrev pub is_creation : Action → Bool
is_creation (create_game ids size) = true
is_creation _ = false

abbrev pub creations : Page → ℕ
creations p = tally is_creation p.log

-- How many requests for a game failed.
abbrev pub failed_starts : List Event → ℕ
failed_starts [] = 0
failed_starts (start_ends none connected ∷ es) = 1 + failed_starts es
failed_starts (_ ∷ es) = failed_starts es

-- A click on the start button comes from a render that shows the flag of the page.
abbrev pub IsRendered : Event → Page → Type 0
IsRendered (start_click l starting) p = starting ≡ p.is_starting
IsRendered _ p = Unit

abbrev pub AreRendered : Text → List Event → Page → Type 0
AreRendered lobby_id [] p = Unit
AreRendered lobby_id (e ∷ es) p = IsRendered e p × AreRendered lobby_id es (handle lobby_id e p)

abbrev bit : Bool → ℕ
bit b = if b then 1 else 0

module _ (lobby_id : Text) where
  handle-creations :
      (e : Event) (p : Page) (n : ℕ)
      → IsRendered e p
      → creations p + 1 ≤ n + bit p.is_starting
      → creations (handle lobby_id e p) + 1
        ≤ n + failed_starts (e ∷ []) + bit (handle lobby_id e p).is_starting
  unfolding handle watch_query handle_before_unload leave_on_cleanup watch_connection receive_event
      auto_rejoin after_rejoin handle_start_game after_start handle_toggle_ready after_toggle_ready
      copy_invite_link after_copy handle_leave_lobby after_leave lobby_failure_route
      leave_lobby_quietly
  handle-creations e p n r h = ground (arith, r, h)

  run-bound :
      (es : List Event) (p : Page) (n : ℕ)
      → AreRendered lobby_id es p
      → creations p + 1 ≤ n + bit p.is_starting
      → creations (run lobby_id es p) + 1
        ≤ n + failed_starts es + bit (run lobby_id es p).is_starting
  unfolding run
  run-bound [] p n r h = ground (arith, h)
  run-bound (e ∷ es) p n (r, rs) h =
      let rest = run-bound es (handle lobby_id e p) _ rs (handle-creations e p n r h) in
      ground (arith, rest)

-- After any events from the start, in each of which a click on the start button comes from a render
-- that shows the flag of the page: the page has sent at most as many requests for a game as have
-- failed, and one.
pub run-creations :
    (lobby_id : Text) (es : List Event)
    → AreRendered lobby_id es new_page
    → creations (run lobby_id es new_page) ≤ 1 + failed_starts es
run-creations lobby_id es r =
    let h = run-bound lobby_id es new_page 1 r (omega arith) in ground (arith, h)

host_of : (user : Option ℕ) (l : Lobby) → is_host user l ≡ true → user ≡ some l.host_id
unfolding is_host
host_of none l h = cc
host_of (some u) l h = ground (arith, h)

enough_of : (l : Lobby) → has_enough_players l ≡ true → 2 ≤ length (players_of l)
unfolding has_enough_players
enough_of l h = ground (arith, h)

ready_of :
    (l : Lobby)
    → all_players_ready l ≡ true
    → all (λ (p : LobbyPlayer). p.is_ready) (players_of l) ≡ true
unfolding all_players_ready
ready_of l h = ground (arith, h)

start_button_lem :
    (starting : Bool) (user : Option ℕ) (l : Lobby) {b : Button}
    → start_button starting user l ≡ some b
    → (is_host user l ≡ true)
      × (b.disabled ≡ (not (has_enough_players l) || not (all_players_ready l) || starting))
      × (b.label ≡ (if starting then codes "Creating Game..." else codes "Start Game"))
unfolding start_button
start_button_lem starting user l {b} s = ground (arith, s)

notices_lem :
    (connected : Bool) (l : Lobby)
    → (not (has_enough_players l) || not (all_players_ready l)) ≡ true
    → notices connected l ≢ []
unfolding notices
notices_lem connected l h = ground (arith, h)

player_ids_lem : (l : Lobby) → player_ids l.players ≡ map (λ q. q.user_id) (players_of l)
player_ids_lem l = ground arith

-- An enabled start button is the host's, with two players or more, all of them ready; a click on it
-- asks for one game of exactly the players of the lobby and of its size.
pub start_button-MayStart :
    (starting : Bool) (user : Option ℕ) (l : Lobby) (p : Page) {b : Button}
    → start_button starting user l ≡ some b
    → b.disabled ≡ false
    → MayStart user l
      × ((handle_start_game (some l) starting p).log
          ≡ create_game (map (λ q. q.user_id) (players_of l)) l.board_size ∷ p.log)
      × ((handle_start_game (some l) starting p).is_starting ≡ true)
unfolding handle_start_game
start_button-MayStart starting user l p {b} s d =
    let (host, disabled, label) = start_button_lem starting user l s in
    let enough : has_enough_players l ≡ true = ground (arith, disabled, d) in
    let ready : all_players_ready l ≡ true = ground (arith, disabled, d) in
    let idle : starting ≡ false = ground (arith, disabled, d) in
    (
      record {
        hosted = host_of user l host;
        enough = enough_of l enough;
        everyone_ready = ready_of l ready;
      },
      rw (idle, player_ids_lem l) refl,
      rw idle refl,
    )

-- A start button that is disabled says why: a game is being created, or a notice stands below it,
-- whether or not the page is connected.
pub start_button-explained :
    (starting connected : Bool) (user : Option ℕ) (l : Lobby) {b : Button}
    → start_button starting user l ≡ some b
    → b.disabled ≡ true
    → (b.label ≡ codes "Creating Game...") ⊎ (notices connected l ≢ [])
start_button-explained starting connected user l {b} s d =
    let (host, disabled, label) = start_button_lem starting user l s in
    elim (Bool-cases starting) [
      | inl busy ↦ inl (rw busy at label)
      | inr idle ↦ inr (notices_lem connected l (ground (arith, disabled, d, idle)))
    ]
