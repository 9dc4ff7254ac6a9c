-- ===== src/Play/Lobbies.antt =====
-- The list of the lobbies that web/src/routes/_authenticated/play.tsx keeps in the query's cache, which
-- its subscriber and the request for a new lobby write.
pub mod Refinement
use dot_and_boxes.Prelude.{
  ℕ, ◌+◌, ◌≡◌, refl, sym, ap, ◌∙◌, Bool, true, false, not, Option, none, some, List, [], ◌∷◌, ◌++◌,
  map, keep, find, any, if◌then◌else◌, arith, Bool-cases, inl, inr, ◌==◌,
}
use dot_and_boxes.Prelude.Text.{Text, codes, text_eq, text_eq_refl, text_eq_sound}
use mathlib.Core.Path.{fun_ext}
use mathlib.Core.Option
use dot_and_boxes.Messages.{
  Lobby, LobbyUpdatedPayload, Body, lobby_created, lobby_updated, lobby_deleted,
}

-- The data of the query, which is `[]` to a write where there is none.
abbrev pub LobbyCache : Type 0
LobbyCache = Option (List Lobby)

abbrev pub list_of : LobbyCache → List Lobby
list_of none = []
list_of (some ls) = ls

abbrev pub has_id : Text → Lobby → Bool
has_id k l = text_eq (codes l.lobby_id) k

-- A key of the payload replaces the field, where it is there.
abbrev pub or_old {ℓ} : {A : Type ℓ} → Option A → A → A
or_old none old = old
or_old (some new) old = new

abbrev pub or_old_option {ℓ} : {A : Type ℓ} → Option A → Option A → Option A
or_old_option none old = old
or_old_option (some new) old = some new

-- `{ ...l, ...msg.payload }`; the key `status` is none of a lobby's.
abbrev pub spread_update : LobbyUpdatedPayload → Lobby → Lobby
spread_update u l = record {
  lobby_id = u.lobby_id;
  name = or_old u.name l.name;
  board_size = or_old u.board_size l.board_size;
  host_id = or_old u.host_id l.host_id;
  player_limit = or_old u.player_limit l.player_limit;
  is_private = or_old u.is_private l.is_private;
  created_at = or_old u.created_at l.created_at;
  players = or_old_option u.players l.players;
}

-- `onSuccess` of the mutation that creates a lobby.
unfoldable pub add_created : Lobby → LobbyCache → LobbyCache
add_created l c = some (list_of c ++ l ∷ [])

-- The subscriber.
unfoldable pub receive_lobby : Body → LobbyCache → LobbyCache
receive_lobby (lobby_created l) c = some (list_of c ++ l ∷ [])
receive_lobby (lobby_deleted i) c = some (keep (λ l. not (has_id (codes i) l)) (list_of c))
receive_lobby (lobby_updated u) c =
    some (map (λ l. if has_id (codes u.lobby_id) l then spread_update u l else l) (list_of c))
receive_lobby _ c = c

-- `onSuccess` of the mutation of web/src/components/Lobby.tsx that joins a lobby.
unfoldable pub replace_joined : Lobby → LobbyCache → LobbyCache
replace_joined joined c =
    some (map (λ l. if has_id (codes joined.lobby_id) l then joined else l) (list_of c))

-- Who writes the list: a message, or the reply to a request of the page's own.
pub data Write : Type 0 where
  message : Body → Write
  created joined : Lobby → Write

unfoldable pub write : Write → LobbyCache → LobbyCache
unfolding receive_lobby add_created replace_joined
write (message m) c = receive_lobby m c
write (created l) c = add_created l c
write (joined l) c = replace_joined l c

unfoldable pub write_all : List Write → LobbyCache → LobbyCache
unfolding write
write_all [] c = c
write_all (w ∷ ws) c = write_all ws (write w c)

-- `lobbies.find((l) => l.players?.some((p) => p.user_id === uid))`
abbrev pub seats : ℕ → Lobby → Bool
seats uid l = elim l.players [ none ↦ false | some ps ↦ any (λ p. p.user_id == uid) ps ]

unfoldable pub my_lobby : LobbyCache → Option ℕ → Option Lobby
my_lobby none user = none
my_lobby (some ls) none = none
my_lobby (some ls) (some uid) = find (seats uid) ls

-- How many lobbies of the list have the id.
abbrev pub count_id : Text → List Lobby → ℕ
count_id k [] = 0
count_id k (l ∷ ls) = (if has_id k l then 1 else 0) + count_id k ls

count_id-append :
    (k : Text) (ls : List Lobby) (l : Lobby)
    → count_id k (ls ++ l ∷ []) ≡ count_id k ls + (if has_id k l then 1 else 0)
count_id-append k [] l = omega arith
count_id-append k (x ∷ ls) l = omega (arith, count_id-append k ls l)

-- The page that creates a lobby has it twice in its list, whichever comes first, the reply to its
-- request or the message to all pages: both add it, and neither asks whether it is there.
pub created_twice :
    (l : Lobby) (c : LobbyCache)
    → (count_id
          (codes l.lobby_id)
          (list_of (write_all (created l ∷ message (lobby_created l) ∷ []) c))
        ≡ count_id (codes l.lobby_id) (list_of c) + 2)
      × (count_id
            (codes l.lobby_id)
            (list_of (write_all (message (lobby_created l) ∷ created l ∷ []) c))
          ≡ count_id (codes l.lobby_id) (list_of c) + 2)
unfolding write_all write receive_lobby add_created
created_twice l c =
    let k = codes l.lobby_id in
    let one = count_id-append k (list_of c) l in
    let two = count_id-append k (list_of c ++ l ∷ []) l in
    let same = text_eq_refl k in (ground (arith, one, two, same), ground (arith, one, two, same))
