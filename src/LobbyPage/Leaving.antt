-- ===== src/LobbyPage/Leaving.antt =====
-- What $lobbyID.tsx asks of the server over any run of events: leaving without a click, joining again,
-- and the redirect of a lobby that fails to load.
use dot_and_boxes.Prelude.{
  ℕ, ◌+◌, ◌≤◌, ◌≡◌, refl, ◌∙◌, Bool, true, false, ◌||◌, some, List, [], ◌∷◌, ◌++◌, if◌then◌else◌,
  arith, ◌==◌,
}
use dot_and_boxes.Prelude.Text.{Text, codes, text_eq_refl}
use dot_and_boxes.Messages.{LobbyPlayer, Lobby}
use dot_and_boxes.LobbyPage.{
  Action, leave_keepalive, leave_beacon, leave_post, join_post, navigate, Page, new_page,
  watch_query, leave_lobby_quietly, handle_before_unload, leave_on_cleanup, watch_connection,
  receive_event, auto_rejoin, after_rejoin, handle_start_game, after_start, handle_toggle_ready,
  after_toggle_ready, copy_invite_link, after_copy, handle_leave_lobby, after_leave, is_on_topic,
  is_game_new_here, Event, handle, run, message_arrives, rejoin_effect, start_ends, leave_click,
  leave_ends,
}
use dot_and_boxes.LobbyPage.Received.{game_new, updated, has_player}
use dot_and_boxes.LobbyPage.Guard.{play, choose_name, home, lobby_failure_route}

-- How many actions of a log pass a test.
abbrev pub tally : (Action → Bool) → List Action → ℕ
tally f [] = 0
tally f (a ∷ log) = (if f a then 1 else 0) + tally f log

-- A request to leave that no click asked for.
abbrev pub is_quiet_leave : Action → Bool
is_quiet_leave leave_keepalive = true
is_quiet_leave leave_beacon = true
is_quiet_leave _ = false

abbrev pub is_join : Action → Bool
is_join join_post = true
is_join _ = false

-- Where a lobby that fails to load leads.
abbrev pub is_redirect : Action → Bool
is_redirect (navigate play) = true
is_redirect (navigate choose_name) = true
is_redirect _ = false

abbrev pub quiet_leaves : Page → ℕ
quiet_leaves p = tally is_quiet_leave p.log

abbrev pub joins : Page → ℕ
joins p = tally is_join p.log

abbrev pub redirects : Page → ℕ
redirects p = tally is_redirect p.log

-- How many requests of the leave button failed.
abbrev pub failed_leaves : List Event → ℕ
failed_leaves [] = 0
failed_leaves (leave_ends false ∷ es) = 1 + failed_leaves es
failed_leaves (_ ∷ es) = failed_leaves es

abbrev bit : Bool → ℕ
bit b = if b then 1 else 0

-- The counts of a page against its flags.
record Counts (quiet : ℕ) (p : Page) : Type 0 where
  quiet_bound : quiet_leaves p + 1 ≤ quiet + bit p.has_left
  joins_bound : joins p ≤ bit p.attempted_rejoin
  redirects_bound : redirects p ≤ bit p.redirect_started

module _ (lobby_id : Text) where
  handle-Counts :
      (e : Event) (p : Page) (n : ℕ)
      → Counts n p
      → Counts (n + failed_leaves (e ∷ [])) (handle lobby_id e p)
  unfolding handle watch_query handle_before_unload leave_on_cleanup watch_connection receive_event
      auto_rejoin after_rejoin handle_start_game after_start handle_toggle_ready after_toggle_ready
      copy_invite_link after_copy handle_leave_lobby after_leave lobby_failure_route
      leave_lobby_quietly
  handle-Counts e p n c = record {
    quiet_bound = ground (arith, c.quiet_bound);
    joins_bound = ground (arith, c.joins_bound);
    redirects_bound = ground (arith, c.redirects_bound);
  }

  run-Counts :
      (es : List Event) (p : Page) (n : ℕ)
      → Counts n p
      → Counts (n + failed_leaves es) (run lobby_id es p)
  unfolding run
  run-Counts [] p n c = record {
    quiet_bound = ground (arith, c.quiet_bound);
    joins_bound = c.joins_bound;
    redirects_bound = c.redirects_bound;
  }
  run-Counts (e ∷ es) p n c =
      let rest = run-Counts es (handle lobby_id e p) _ (handle-Counts e p n c) in
      record {
        quiet_bound = ground (arith, rest.quiet_bound);
        joins_bound = rest.joins_bound;
        redirects_bound = rest.redirects_bound;
      }

-- The page of any lobby, after any events from the start, in any order: it has sent at most as many
-- requests to leave that no click asked for as there are failed requests of the leave button, and
-- one; it has asked to join again at most once; and it has left for `/play` or `/choose-name` at
-- most once.
pub run-counts :
    (lobby_id : Text) (es : List Event)
    → (quiet_leaves (run lobby_id es new_page) ≤ 1 + failed_leaves es)
      × (joins (run lobby_id es new_page) ≤ 1)
      × (redirects (run lobby_id es new_page) ≤ 1)
run-counts lobby_id es =
    let start : Counts 1 new_page = record {
      quiet_bound = omega arith;
      joins_bound = omega arith;
      redirects_bound = omega arith;
    } in
    let c = run-Counts lobby_id es new_page 1 start in
    (
      ground (arith, c.quiet_bound),
      ground (arith, c.joins_bound),
      ground (arith, c.redirects_bound),
    )

-- A `game:new` that the page of the lobby takes for its own, or the end of its own request with a
-- game.
abbrev pub IsStart : Text → Event → Type 0
IsStart lobby_id (message_arrives topic (game_new f)) =
    (is_on_topic lobby_id topic || is_game_new_here lobby_id (game_new f)) ≡ true
IsStart lobby_id (start_ends (some i) connected) = Unit
IsStart lobby_id _ = ⊥

module _ (lobby_id : Text) where
  starts : (e : Event) (p : Page) → IsStart lobby_id e → (handle lobby_id e p).game_starting ≡ true
  unfolding handle receive_event after_start
  starts e p h = ground (arith, h)

  handle-started :
      (e : Event) (p : Page)
      → p.game_starting ≡ true
      → (quiet_leaves (handle lobby_id e p) ≡ quiet_leaves p)
        × ((handle lobby_id e p).game_starting ≡ true)
  unfolding handle watch_query handle_before_unload leave_on_cleanup watch_connection receive_event
      auto_rejoin after_rejoin handle_start_game after_start handle_toggle_ready after_toggle_ready
      copy_invite_link after_copy handle_leave_lobby after_leave lobby_failure_route
      leave_lobby_quietly
  handle-started e p h = (ground (arith, h), ground (arith, h))

  quiet-start :
      (e : Event) (p : Page)
      → IsStart lobby_id e
      → quiet_leaves (handle lobby_id e p) ≡ quiet_leaves p
  unfolding handle receive_event after_start
  quiet-start e p h = ground (arith, h)

  run-started :
      (es : List Event) (p : Page)
      → p.game_starting ≡ true
      → (quiet_leaves (run lobby_id es p) ≡ quiet_leaves p)
        × ((run lobby_id es p).game_starting ≡ true)
  unfolding run
  run-started [] p h = (refl, h)
  run-started (e ∷ es) p h =
      let (same, still) = handle-started e p h in
      let (same', still') = run-started es (handle lobby_id e p) still in (same' ∙ same, still')

-- Once the game starts, by a `game:new` that the page takes for its own or by the end of its own
-- request with a game, no request to leave is sent but by the leave button, whatever happens then:
-- unmounting, closing the tab, a lobby that fails to load.
pub no_leave_after_start :
    (lobby_id : Text) (e : Event) (es : List Event) (p : Page)
    → IsStart lobby_id e
    → quiet_leaves (run lobby_id (e ∷ es) p) ≡ quiet_leaves p
unfolding run
no_leave_after_start lobby_id e es p h =
    (run-started lobby_id es (handle lobby_id e p) (starts lobby_id e p h)).0
    ∙ quiet-start lobby_id e p h

-- A page of a lobby that has not asked to join again sends a request to leave and, where the lobby
-- without the user reaches it before the reply, one to join again after it: the effect of the rejoin
-- does not ask whether the user left. The user is signed in, their id is not 0, the update names the
-- topic of the lobby, and a lobby is cached.
pub leave_rejoins :
    (lobby_id : Text) (uid : ℕ) (old : Lobby) (ps : List LobbyPlayer) (p : Page)
    → p.cache ≡ some old
    → p.attempted_rejoin ≡ false
    → (uid == 0) ≡ false
    → has_player uid (some ps) ≡ false
    → let es : List Event =
        leave_click false
        ∷ message_arrives (some (codes "lobby:" ++ lobby_id)) (updated (some ps))
        ∷ rejoin_effect (some (record old { players = some ps })) (some uid)
        ∷ leave_ends true
        ∷ [] in
      (run lobby_id es p).log ≡ navigate home ∷ join_post ∷ leave_post ∷ p.log
unfolding run handle handle_leave_lobby receive_event auto_rejoin after_leave
leave_rejoins lobby_id uid old ps p c a z n =
    rw (c, text_eq_refl (codes "lobby:" ++ lobby_id), z, a, n) refl
