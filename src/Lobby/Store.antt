-- ===== src/Lobby/Store.antt =====
-- The store that the canvas reads, web/src/stores/gameStore.ts, and the bridge that keeps it,
-- web/src/hooks/useGameWebSocketBridge.ts.
use dot_and_boxes.Prelude.{
  ℕ, zero, suc, ◌+◌, ◌%◌, ◌≡◌, refl, ◌∙◌, ◌≢◌, ◌⊎◌, inl, inr, Bool, Option, none, some, List, [],
  ◌∷◌, ◌++◌, arith, ◌==◌, if◌then◌else◌, String, get_elem?,
}
use dot_and_boxes.Prelude.Dict.{Dict, lookup, insert, lookup-insert}
use dot_and_boxes.Prelude.Text.{Text, codes, trim, decimal}
use dot_and_boxes.Messages.{Lobby, LobbyPlayer}
use dot_and_boxes.Lobby.Names.{or_default}

pub data GameSceneId : Type 0 where
  loading main_menu lobby game : GameSceneId

pub data ConnectionStatus : Type 0 where
  connecting connected disconnected : ConnectionStatus

pub record LobbyPlayerView : Type 0 where
  pub user_id : ℕ
  pub display_name : Text
  pub avatar_url : String
  pub is_ready : Bool
  pub slot_color : ℕ

pub record GameStoreState : Type 0 where
  pub current_scene : GameSceneId
  pub connection_status : ConnectionStatus
  pub lobby_players : Dict LobbyPlayerView

abbrev pub new_store : GameStoreState
new_store = record { current_scene = loading; connection_status = connecting; lobby_players = [] }

abbrev pub set_current_scene : GameSceneId → GameStoreState → GameStoreState
set_current_scene scene s = record s { current_scene = scene }

abbrev pub set_connection_status : ConnectionStatus → GameStoreState → GameStoreState
set_connection_status status s = record s { connection_status = status }

abbrev pub set_lobby_players : Dict LobbyPlayerView → GameStoreState → GameStoreState
set_lobby_players players s = record s { lobby_players = players }

abbrev pub clear_lobby_players : GameStoreState → GameStoreState
clear_lobby_players s = record s { lobby_players = [] }

-- The effect on `connected`.
unfoldable pub bridge_connected : Bool → GameStoreState → GameStoreState
bridge_connected now s = set_connection_status (if now then connected else disconnected) s

-- `MAIN_MENU_PLAYER_COLORS[i % MAIN_MENU_PLAYER_COLORS.length]`
abbrev pub slot_color_at : ℕ → ℕ
slot_color_at i = if i % 3 == 0 then 0xe63946 else if i % 3 == 1 then 0x457b9d else 0x2a9d8f

-- The view of the player at place `i`.
unfoldable pub view_of : ℕ → LobbyPlayer → LobbyPlayerView
view_of i p = record {
  user_id = p.user_id;
  display_name = or_default (trim (codes p.username)) (codes "PLAYER " ++ decimal p.user_id);
  avatar_url = p.avatar_url;
  is_ready = p.is_ready;
  slot_color = slot_color_at i;
}

-- The `forEach`, from place `i` on.
abbrev pub add_views : ℕ → List LobbyPlayer → Dict LobbyPlayerView → Dict LobbyPlayerView
add_views i [] next = next
add_views i (p ∷ ps) next = add_views (suc i) ps (insert p.user_id (view_of i p) next)

-- The effect on `myLobby`, by its players.
abbrev pub bridge_players : Option (List LobbyPlayer) → GameStoreState → GameStoreState
bridge_players none s = clear_lobby_players s
bridge_players (some []) s = clear_lobby_players s
bridge_players (some (p ∷ ps)) s = set_lobby_players (add_views 0 (p ∷ ps) []) s

unfoldable pub bridge_lobby : Option Lobby → GameStoreState → GameStoreState
unfolding view_of
bridge_lobby none s = clear_lobby_players s
bridge_lobby (some l) s = bridge_players l.players s

-- The players of the lobby.
abbrev pub players_of : Option Lobby → List LobbyPlayer
players_of none = []
players_of (some l) = elim l.players [ none ↦ [] | some ps ↦ ps ]

abbrev pub HasUser : ℕ → List LobbyPlayer → Type 0
HasUser u [] = ⊥
HasUser u (p ∷ ps) = (p.user_id ≡ u) ⊎ HasUser u ps

abbrev pub DistinctUsers : List LobbyPlayer → Type 0
DistinctUsers [] = Unit
DistinctUsers (p ∷ ps) = ¬ HasUser p.user_id ps × DistinctUsers ps

lookup-add_views_old :
    (u i : ℕ) (ps : List LobbyPlayer) (next : Dict LobbyPlayerView)
    → ¬ HasUser u ps
    → lookup u (add_views i ps next) ≡ lookup u next
lookup-add_views_old u i [] next h = refl
lookup-add_views_old u i (p ∷ ps) next h =
    let here : p.user_id ≢ u = λ e. h (inl e) in
    let rest =
      lookup-add_views_old u (suc i) ps (insert p.user_id (view_of i p) next) (λ k. h (inr k)) in
    ground (arith, rest, lookup-insert p.user_id u (view_of i p) next)

same_view : (p : LobbyPlayer) (i j : ℕ) → i ≡ j → some (view_of i p) ≡ some (view_of j p)
same_view p i j e = rw e

lookup-insert_self :
    (u : ℕ) (v : LobbyPlayerView) (d : Dict LobbyPlayerView) → lookup u (insert u v d) ≡ some v
lookup-insert_self u v d = ground (arith, lookup-insert u u v d)

lookup-add_views :
    (i k : ℕ) (ps : List LobbyPlayer) (next : Dict LobbyPlayerView) {p : LobbyPlayer}
    → DistinctUsers ps
    → get_elem? ps k ≡ some p
    → lookup p.user_id (add_views i ps next) ≡ some (view_of (i + k) p)
lookup-add_views i k [] next d h = cc
lookup-add_views i zero (q ∷ ps) next {p} (fresh, d) h = rw (← same) (
    lookup-add_views_old q.user_id (suc i) ps (insert q.user_id (view_of i q) next) fresh
    ∙ lookup-insert_self q.user_id (view_of i q) next
    ∙ same_view q i (i + 0) (omega arith))
  where
    same : q ≡ p
    same = cc
lookup-add_views i (suc k) (q ∷ ps) next {p} (fresh, d) h =
    lookup-add_views (suc i) k ps (insert q.user_id (view_of i q) next) {p = p} d h
    ∙ same_view p (suc i + k) (i + suc k) (omega arith)

-- After the bridge's effect on a lobby in which no two players have one id, the store has for the
-- player at place `k` the view of that player, with the colour of place `k`; the scene and the
-- connection are what they were.
pub bridge_lobby_lem :
    (l : Option Lobby) (s : GameStoreState) (k : ℕ) (p : LobbyPlayer)
    → DistinctUsers (players_of l)
    → get_elem? (players_of l) k ≡ some p
    → (lookup p.user_id (bridge_lobby l s).lobby_players ≡ some (view_of k p))
      × ((bridge_lobby l s).current_scene ≡ s.current_scene)
      × ((bridge_lobby l s).connection_status ≡ s.connection_status)
unfolding bridge_lobby
bridge_lobby_lem none s k p d h = absurd (cc)
bridge_lobby_lem (some l) s k p d h = by_players l.players d h
  where
    by_players :
        (o : Option (List LobbyPlayer))
        → DistinctUsers (elim o as (λ _. List LobbyPlayer) [ none ↦ [] | some ps ↦ ps ])
        → get_elem? (elim o as (λ _. List LobbyPlayer) [ none ↦ [] | some ps ↦ ps ]) k ≡ some p
        → (lookup p.user_id (bridge_players o s).lobby_players ≡ some (view_of k p))
          × ((bridge_players o s).current_scene ≡ s.current_scene)
          × ((bridge_players o s).connection_status ≡ s.connection_status)
    by_players none d h = absurd (cc)
    by_players (some []) d h = absurd (cc)
    by_players (some (q ∷ ps)) d h = (
      lookup-add_views 0 k (q ∷ ps) [] {p = p} d h ∙ same_view p (0 + k) k (omega arith),
      refl,
      refl,
    )
