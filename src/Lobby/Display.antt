-- ===== src/Lobby/Display.antt =====
-- web/src/lib/lobbyDisplay.ts: two keys of the session's storage, which throws where it is not
-- available, and then nothing is kept.
use dot_and_boxes.Prelude.{
  ◌≡◌, refl, Bool, true, false, Option, none, some, [], ◌∷◌, take, if◌then◌else◌, Bool-cases, inl,
  inr,
}
use dot_and_boxes.Prelude.Text.{Text, codes, trim, text_eq}

pub record Session : Type 0 where
  pub available : Bool
  pub lobby_display : Option Text
  pub lobby_prompt_done : Option Text

-- `getItem(...) === "1"`
unfoldable pub has_completed_lobby_name_prompt : Session → Bool
has_completed_lobby_name_prompt s =
    if s.available
    then elim s.lobby_prompt_done [ none ↦ false | some t ↦ text_eq t (codes "1") ]
    else true

unfoldable pub mark_lobby_name_prompt_complete : Session → Session
mark_lobby_name_prompt_complete s =
    if s.available then record s { lobby_prompt_done = some (codes "1") } else s

unfoldable pub read_lobby_display_name : Session → Text
read_lobby_display_name s =
    if s.available then elim s.lobby_display [ none ↦ [] | some t ↦ trim t ] else []

-- An item set, or removed for the empty text.
abbrev pub item_of : Text → Option Text
item_of [] = none
item_of (c ∷ t) = some (c ∷ t)

unfoldable pub write_lobby_display_name : Text → Session → Session
write_lobby_display_name name s =
    if s.available then record s { lobby_display = item_of (take 24 (trim name)) } else s

trim_nil : trim [] ≡ []
unfolding trim
trim_nil = refl

item_lem : (t : Text) → elim (item_of t) as (λ _. Text) [ none ↦ [] | some u ↦ trim u ] ≡ trim t
unfolding trim
item_lem [] = refl
item_lem (c ∷ t) = refl

-- What is read after a write is the name trimmed, cut to 24 code units and trimmed again, also where
-- this is nothing and the item is removed; without storage nothing is read. Writing it leaves the
-- other key as it is.
pub read-write_lobby_display_name :
    (name : Text) (s : Session)
    → (read_lobby_display_name (write_lobby_display_name name s)
        ≡ (if s.available then trim (take 24 (trim name)) else []))
      × (has_completed_lobby_name_prompt (write_lobby_display_name name s)
          ≡ has_completed_lobby_name_prompt s)
unfolding read_lobby_display_name write_lobby_display_name has_completed_lobby_name_prompt
read-write_lobby_display_name name s = elim (Bool-cases s.available) [
  | inl y ↦ (rw y (item_lem (take 24 (trim name))), rw y)
  | inr n ↦ (rw n, rw n)
]
