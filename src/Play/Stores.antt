-- ===== src/Play/Stores.antt =====
-- The storages of play.tsx: the wish for a new lobby that its guard keeps, and the nonce that it reads.
use dot_and_boxes.Prelude.{
  ℕ, Bool, true, false, not, ◌&&◌, ◌||◌, Option, none, some, if◌then◌else◌, ◌==◌,
}
use dot_and_boxes.Prelude.Int.{ℤ, pos}
use dot_and_boxes.Prelude.Text.{Text, codes, text_eq}
use dot_and_boxes.Lobby.Display.{Session, has_completed_lobby_name_prompt}

-- The items of the two storages that the page writes, and whether the session's is available.
pub record Storage : Type 0 where
  pub available : Bool
  pub create_nonce : Option Text
  pub pending_create : Option Text
  pub mute_sfx : Option Text
  pub mute_bgm : Option Text

-- `beforeLoad`: whether it redirects to `/choose-name`, and the storage then. The argument `create` is
-- what `u.searchParams.get("create")` gives, or none also where the address cannot be read: the text that
-- the router wrote into the address, which need not be the value of the search.
unfoldable pub keep_create_intent : Bool → Session → Option Text → Storage → Bool × Storage
keep_create_intent has_window session create s =
    if not has_window || has_completed_lobby_name_prompt session then (false, s) else elim create [
      | none ↦ (true, s)
      | some t ↦
          if text_eq t (codes "1") && s.available
          then (true, record s { pending_create = some (codes "1") })
          else (true, s)
    ]

-- What `Number(raw)` is: finite or not. The page itself writes whole numbers.
pub data Number : Type 0 where
  finite : ℤ → Number
  not_finite : Number

abbrev pub positive_or_one : Number → ℕ
positive_or_one not_finite = 1
positive_or_one (finite (pos n)) = if n == 0 then 1 else n
positive_or_one (finite _) = 1

-- `localStorage.getItem(...) === "1"`
abbrev pub is_one : Option Text → Bool
is_one none = false
is_one (some t) = text_eq t (codes "1")
