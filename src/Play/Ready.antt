-- ===== src/Play/Ready.antt =====
-- The lobby that the ready button of play.tsx asks for, and the one that the page shows as the user's.
use dot_and_boxes.Prelude.{◌≡◌, refl, ◌∙◌, ap, true, Option, none, some, List, [], ◌∷◌, find, ℕ}
use dot_and_boxes.Prelude.Text.{codes}
use dot_and_boxes.Messages.{Lobby}
use dot_and_boxes.Play.{Menu, Effect, post_ready, toast_error, effect, dock_ready}
use dot_and_boxes.Play.Seat.{seats_user, self_ready}
use dot_and_boxes.Play.Lobbies.{LobbyCache, list_of, my_lobby}

-- No lobby seats a user who is not there.
find-nobody : (ls : List Lobby) → find (seats_user none) ls ≡ none
find-nobody [] = refl
find-nobody (l ∷ ls) = find-nobody ls

find-seats_user :
    (c : LobbyCache) (user : Option ℕ) → find (seats_user user) (list_of c) ≡ my_lobby c user
unfolding my_lobby
find-seats_user none none = refl
find-seats_user none (some uid) = refl
find-seats_user (some ls) none = find-nobody ls
find-seats_user (some ls) (some uid) = refl

-- What a click on the ready button should do, for the lobby that is the user's.
abbrev pub asked : Option Lobby → List Effect → List Effect
asked none es = toast_error (codes "Join a lobby first (Lobbies or Online).") ∷ es
asked (some l) es = post_ready l.lobby_id ∷ es

dock_ready-asked :
    (user : Option ℕ) (m : Menu)
    → (dock_ready user m).effects ≡ asked (find (seats_user user) (list_of m.lobbies)) m.effects
unfolding dock_ready
dock_ready-asked user m = by_lobby (find (seats_user user) (list_of m.lobbies))
  where
    by_lobby :
        (o : Option Lobby)
        → (elim o as (λ _. Menu) [
          | none ↦ effect (toast_error (codes "Join a lobby first (Lobbies or Online).")) m
          | some l ↦ effect (post_ready l.lobby_id) m
        ]).effects
          ≡ asked o m.effects
    by_lobby none = refl
    by_lobby (some l) = refl

-- A user who is shown as ready has a lobby.
self_ready-some :
    (o : Option Lobby) (user : Option ℕ) → self_ready o user ≡ true → (l : Lobby) × (o ≡ some l)
unfolding self_ready
self_ready-some none user h = absurd (cc)
self_ready-some (some l) user h = (l, refl)

-- The ready button asks for exactly the lobby that the page shows as the user's, also before the
-- lobbies are there and for a user who is not signed in; where there is none it shows a toast and
-- sends nothing.
pub dock_ready-my_lobby :
    (user : Option ℕ) (m : Menu)
    → (dock_ready user m).effects ≡ asked (my_lobby m.lobbies user) m.effects
dock_ready-my_lobby user m =
    dock_ready-asked user m ∙ ap (λ o. asked o m.effects) (find-seats_user m.lobbies user)

-- Where the page highlights the ready button, a click on it asks for a lobby and shows no toast.
pub self_ready-asks :
    (user : Option ℕ) (m : Menu)
    → self_ready (my_lobby m.lobbies user) user ≡ true
    → (l : Lobby) × (my_lobby m.lobbies user ≡ some l)
      × ((dock_ready user m).effects ≡ post_ready l.lobby_id ∷ m.effects)
self_ready-asks user m h =
    let (l, e) = self_ready-some (my_lobby m.lobbies user) user h in
    (l, e, dock_ready-my_lobby user m ∙ ap (λ o. asked o m.effects) e)
