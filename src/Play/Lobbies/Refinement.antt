-- ===== src/Play/Lobbies/Refinement.antt =====
-- The cached list of lobbies of Play/Lobbies against an abstract one: under each id a sequence of lobbies,
-- and a lobby as the values of its keys. What a message does is said by keys, and not by the code's spread.
use dot_and_boxes.Prelude.{
  ℕ, ◌≡◌, refl, sym, ap, ◌∙◌, Bool, true, false, not, Option, none, some, List, [], ◌∷◌, ◌++◌,
  String, map, keep, if◌then◌else◌, arith, Bool-cases, inl, inr,
}
use dot_and_boxes.Prelude.Text.{Text, codes, text_eq, text_eq_sound}
use mathlib.Core.Path.{fun_ext}
use mathlib.Core.Option
use dot_and_boxes.Messages.{
  Lobby, LobbyPlayer, LobbyUpdatedPayload, lobby_created, lobby_updated, lobby_deleted,
}
use dot_and_boxes.Play.Lobbies.{
  LobbyCache, list_of, has_id, spread_update, receive_lobby, add_created, replace_joined, Write,
  message, created, joined, write, write_all,
}

-- The keys of a lobby and the values under them.
pub data Key : Type 0 where
  id title size host limit private since seated : Key

pub data Value : Type 0 where
  a_text : String → Value
  a_number : ℕ → Value
  a_flag : Bool → Value
  people : List LobbyPlayer → Value

abbrev pub Fields : Type 0
Fields = Key → Option Value

abbrev pub fields_of : Lobby → Fields
fields_of l id = some (a_text l.lobby_id)
fields_of l title = some (a_text l.name)
fields_of l size = some (a_number l.board_size)
fields_of l host = some (a_number l.host_id)
fields_of l limit = some (a_number l.player_limit)
fields_of l private = some (a_flag l.is_private)
fields_of l since = some (a_text l.created_at)
fields_of l seated = Option.map people l.players

abbrev pub payload_of : LobbyUpdatedPayload → Fields
payload_of u id = some (a_text u.lobby_id)
payload_of u title = Option.map a_text u.name
payload_of u size = Option.map a_number u.board_size
payload_of u host = Option.map a_number u.host_id
payload_of u limit = Option.map a_number u.player_limit
payload_of u private = Option.map a_flag u.is_private
payload_of u since = Option.map a_text u.created_at
payload_of u seated = Option.map people u.players

-- The new value of a key, or the old one where there is none.
abbrev pub overlay : Fields → Fields → Fields
overlay new old k = elim (new k) [ some v ↦ some v | none ↦ old k ]

spread-overlay :
    (u : LobbyUpdatedPayload) (l : Lobby)
    → fields_of (spread_update u l) ≡ overlay (payload_of u) (fields_of l)
spread-overlay u l = fun_ext by_key
  where
    by_key : (k : Key) → fields_of (spread_update u l) k ≡ overlay (payload_of u) (fields_of l) k
    by_key id = refl
    by_key title = ground arith
    by_key size = ground arith
    by_key host = ground arith
    by_key limit = ground arith
    by_key private = ground arith
    by_key since = ground arith
    by_key seated = ground arith

-- The abstract list: the lobbies that an id names, in the order of the list.
abbrev pub View : Type 0
View = Text → List Fields

abbrev pub view : LobbyCache → View
view c k = map fields_of (keep (has_id k) (list_of c))

abbrev add_view : Lobby → View → View
add_view l v k = if has_id k l then v k ++ fields_of l ∷ [] else v k

abbrev map_view : Text → (Fields → Fields) → View → View
map_view i f v k = if text_eq i k then map f (v k) else v k

-- What a write does to the lobbies that an id names.
abbrev pub step_view : Write → View → View
step_view (message (lobby_created l)) v = add_view l v
step_view (message (lobby_deleted i)) v = λ k. if text_eq (codes i) k then [] else v k
step_view (message (lobby_updated u)) v = map_view (codes u.lobby_id) (overlay (payload_of u)) v
step_view (message _) v = v
step_view (created l) v = add_view l v
step_view (joined l) v = map_view (codes l.lobby_id) (λ _. fields_of l) v

abbrev pub run_view : List Write → View → View
run_view [] v = v
run_view (w ∷ ws) v = run_view ws (step_view w v)

text_eq_right : (a b c : Text) → text_eq a b ≡ true → text_eq a c ≡ text_eq b c
text_eq_right a b c h = ap (λ t. text_eq t c) (text_eq_sound a b h)

other_id : (i k : Text) (l : Lobby) → text_eq i k ≡ true → has_id i l ≡ false → has_id k l ≡ false
other_id i k l e n = ap (λ t. text_eq (codes l.lobby_id) t) (sym (text_eq_sound i k e)) ∙ n

keep-append :
    (f : Lobby → Bool) (ls : List Lobby) (l : Lobby)
    → keep f (ls ++ l ∷ []) ≡ (if f l then keep f ls ++ l ∷ [] else keep f ls)
keep-append f [] l = refl
keep-append f (x ∷ ls) l = ground (arith, keep-append f ls l)

map-snoc :
    (ls : List Lobby) (l : Lobby)
    → map fields_of (ls ++ l ∷ []) ≡ map fields_of ls ++ fields_of l ∷ []
map-snoc [] l = refl
map-snoc (x ∷ ls) l = ap (λ t. fields_of x ∷ t) (map-snoc ls l)

view-add :
    (k : Text) (l : Lobby) (ls : List Lobby)
    → map fields_of (keep (has_id k) (ls ++ l ∷ [])) ≡ (
        if has_id k l
        then map fields_of (keep (has_id k) ls) ++ fields_of l ∷ []
        else map fields_of (keep (has_id k) ls))
view-add k l ls = rw (keep-append (has_id k) ls l) (elim (Bool-cases (has_id k l)) [
  | inl y ↦ rw y (map-snoc (keep (has_id k) ls) l)
  | inr n ↦ rw n
])

keep-keep :
    (i k : Text) (ls : List Lobby)
    → keep (has_id k) (keep (λ l. not (has_id i l)) ls)
      ≡ (if text_eq i k then [] else keep (has_id k) ls)
keep-keep i k [] = ground arith
keep-keep i k (x ∷ ls) = elim (Bool-cases (has_id i x)) [
  | inl y ↦ ground (arith, y, keep-keep i k ls, text_eq_right (codes x.lobby_id) i k y)
  | inr n ↦ elim (Bool-cases (text_eq i k)) [
    | inl e ↦ let away = other_id i k x e n in ground (arith, n, e, away, keep-keep i k ls)
    | inr e ↦ ground (arith, n, e, keep-keep i k ls)
  ]
]

-- A write of the lobbies that have one id, which keeps the id and writes the fields by `g`.
module _ (i : Text) (f : Lobby → Lobby) (g : Fields → Fields)
    (same : (l : Lobby) → codes (f l).lobby_id ≡ i)
    (writes : (l : Lobby) → fields_of (f l) ≡ g (fields_of l)) where
  view-replace :
      (k : Text) (ls : List Lobby)
      → map fields_of (keep (has_id k) (map (λ l. if has_id i l then f l else l) ls)) ≡ (
          if text_eq i k
          then map g (map fields_of (keep (has_id k) ls))
          else map fields_of (keep (has_id k) ls))
  view-replace k [] = ground arith
  view-replace k (x ∷ ls) =
      let kept : has_id k (f x) ≡ text_eq i k = ap (λ t. text_eq t k) (same x) in
      elim (Bool-cases (has_id i x)) [
        | inl y ↦
            ground
              (arith, y, kept, view-replace k ls, writes x, text_eq_right (codes x.lobby_id) i k y)
        | inr n ↦ elim (Bool-cases (text_eq i k)) [
          | inl e ↦ ground (arith, n, e, view-replace k ls, other_id i k x e n)
          | inr e ↦ ground (arith, n, e, view-replace k ls)
        ]
      ]

write-step_view :
    (w : Write) (c : LobbyCache) (k : Text) → view (write w c) k ≡ step_view w (view c) k
unfolding write receive_lobby add_created replace_joined
write-step_view (message (lobby_created l)) c k = view-add k l (list_of c)
write-step_view (message (lobby_deleted i)) c k =
    rw (keep-keep (codes i) k (list_of c))
      (elim (Bool-cases (text_eq (codes i) k)) [ inl y ↦ rw y | inr n ↦ rw n ])
write-step_view (message (lobby_updated u)) c k =
    view-replace (codes u.lobby_id) (spread_update u) (overlay (payload_of u)) (λ l. refl)
      (spread-overlay u) k (list_of c)
write-step_view (message _) c k = refl
write-step_view (created l) c k = view-add k l (list_of c)
write-step_view (joined l) c k =
    view-replace (codes l.lobby_id) (λ _. l) (λ _. fields_of l) (λ _. refl) (λ _. refl) k
      (list_of c)

-- The list of the lobbies implements the abstract one, in which an id names a sequence of lobbies and a
-- lobby is the values of its keys. After any messages and replies to the page's own requests, in any
-- order, the lobbies of the list with an id are, in their order, those that the writes leave under that
-- id: a created lobby comes after those that are there, also where there is one, a deletion leaves none,
-- an update gives each of them the values of the payload's keys and leaves the other keys, and a lobby
-- that was joined replaces each of them.
pub write_all-run_view :
    (ws : List Write) (c : LobbyCache) → view (write_all ws c) ≡ run_view ws (view c)
unfolding write_all
write_all-run_view [] c = refl
write_all-run_view (w ∷ ws) c =
    write_all-run_view ws (write w c) ∙ ap (run_view ws) (fun_ext (write-step_view w c))
