-- ===== src/Play/ChooseName.antt =====
-- The page that asks for the name, web/src/routes/_authenticated/choose-name.tsx, and what it keeps of a
-- visit to `/play?create=1`. The session's storage is that of Lobby/Display and of Play.
use dot_and_boxes.Prelude.{
  ◌≡◌, refl, ap, ◌∙◌, Bool, true, false, Option, none, some, [], ◌∷◌, if◌then◌else◌, arith,
}
use dot_and_boxes.Prelude.Text.{Text, codes, text_eq, trim}
use dot_and_boxes.Lobby.Display.{
  Session, has_completed_lobby_name_prompt, mark_lobby_name_prompt_complete,
  read_lobby_display_name, write_lobby_display_name,
}
use dot_and_boxes.Play.Stores.{Storage, keep_create_intent}

-- `useState(...)` of the input: the name stored, or the user's.
unfoldable pub initial_name : Session → Option Text → Text
initial_name session username = stored (read_lobby_display_name session)
  where
    of_user : Option Text → Text
    of_user none = []
    of_user (some t) = trim t

    stored : Text → Text
    stored [] = of_user username
    stored (c ∷ t) = c ∷ t

unfoldable pub consume_pending_create_lobby : Storage → Bool × Storage
consume_pending_create_lobby s =
    if s.available
    then (
      elim s.pending_create [ none ↦ false | some t ↦ text_eq t (codes "1") ],
      record s { pending_create = none },
    )
    else (false, s)

-- What the page leaves behind: the session, the storage, and whether it goes to `/play?create=1`.
pub record Left : Type 0 where
  pub session : Session
  pub storage : Storage
  pub create : Bool

-- `skipToLobby`, and `saveAndPlay` with the name in the input.
unfoldable pub skip_to_lobby : Session → Storage → Left
unfolding consume_pending_create_lobby
skip_to_lobby session s =
    let (create, s') = consume_pending_create_lobby s in
    record { session = mark_lobby_name_prompt_complete session; storage = s'; create = create }

unfoldable pub save_and_play : Text → Session → Storage → Left
unfolding skip_to_lobby
save_and_play value session s = skip_to_lobby (write_lobby_display_name value session) s

completed_of :
    (session : Session)
    → has_completed_lobby_name_prompt (mark_lobby_name_prompt_complete session) ≡ true
unfolding has_completed_lobby_name_prompt mark_lobby_name_prompt_complete
completed_of session = ground arith

completed_after_write :
    (value : Text) (session : Session)
    → has_completed_lobby_name_prompt
        (mark_lobby_name_prompt_complete (write_lobby_display_name value session))
      ≡ true
completed_after_write value session = completed_of (write_lobby_display_name value session)

available_of :
    (session : Session) → has_completed_lobby_name_prompt session ≡ false → session.available ≡ true
unfolding has_completed_lobby_name_prompt
available_of session h = ground (arith, h)

keep_lem :
    (session : Session) (s : Storage) (create : Option Text)
    → s.available ≡ session.available
    → has_completed_lobby_name_prompt session ≡ false
    → keep_create_intent true session create s ≡ (
      true,
      if elim create [ none ↦ false | some t ↦ text_eq t (codes "1") ]
          then record s { pending_create = some (codes "1") }
          else s,
    )
unfolding keep_create_intent
keep_lem session s create a h = ground (arith, a, h, available_of session h)

consume_lem :
    (s : Storage)
    → s.available ≡ true
    → consume_pending_create_lobby s ≡ (
      elim s.pending_create [ none ↦ false | some t ↦ text_eq t (codes "1") ],
      record s { pending_create = none },
    )
unfolding consume_pending_create_lobby
consume_lem s a = rw a refl

-- `create === "1"`
abbrev pub asks_create : Option Text → Bool
asks_create none = false
asks_create (some t) = text_eq t (codes "1")

skip_to_lobby_lem :
    (session : Session) (s : Storage)
    → s.available ≡ true
    → ((skip_to_lobby session s).create ≡ asks_create s.pending_create)
      × ((skip_to_lobby session s).storage.pending_create ≡ none)
      × ((skip_to_lobby session s).session ≡ mark_lobby_name_prompt_complete session)
unfolding skip_to_lobby
skip_to_lobby_lem session s a = ground (arith, consume_lem s a)

no_second_redirect :
    (session : Session) (create : Option Text) (s : Storage)
    → has_completed_lobby_name_prompt session ≡ true
    → keep_create_intent true session create s ≡ (false, s)
unfolding keep_create_intent
no_second_redirect session create s h = rw h refl

pending_after :
    (session : Session) (s : Storage) (create : Option Text)
    → s.available ≡ session.available
    → has_completed_lobby_name_prompt session ≡ false
    → s.pending_create ≡ none
    → let kept = (keep_create_intent true session create s).1 in
      (kept.available ≡ true) × (asks_create kept.pending_create ≡ asks_create create)
pending_after session s create a h n =
    ground (arith, a, h, n, keep_lem session s create a h, available_of session h)

-- A visit to `/play` before the name is chosen, in a session whose storage works and holds no wish to
-- create a lobby: after `Continue` the page goes to `/play?create=1` exactly where the text in the address
-- was `1`, nothing stays in the storage, and `/play` then does not redirect to the name again.
raw_intent_survives :
    (value : Text) (session : Session) (s : Storage) (create : Option Text)
    → s.available ≡ session.available
    → has_completed_lobby_name_prompt session ≡ false
    → s.pending_create ≡ none
    → let left = save_and_play value session (keep_create_intent true session create s).1 in
      (left.create ≡ asks_create create)
      × (left.storage.pending_create ≡ none)
      × (keep_create_intent true left.session create left.storage ≡ (false, left.storage))
unfolding save_and_play
raw_intent_survives value session s create a h n =
    let kept = (keep_create_intent true session create s).1 in
    let (works, same) = pending_after session s create a h n in
    let written = write_lobby_display_name value session in
    let (created, cleared, marked) = skip_to_lobby_lem written kept works in
    (
      created ∙ same,
      cleared,
      no_second_redirect (skip_to_lobby written kept).session create
          (skip_to_lobby written kept).storage
          (ap has_completed_lobby_name_prompt marked ∙ completed_of written),
    )

-- What the address holds for the search of a link of the site, by the router's writer of a value.
abbrev pub address_create : (Text → Text) → Option Text → Option Text
address_create write_value none = none
address_create write_value (some value) = some (write_value value)

-- The router writes a text that reads as JSON in quotes. The link of the site that asks for a new lobby
-- has the search `1`: a visitor who follows it before the name is chosen, in a session whose storage works
-- and holds no wish to create a lobby, is sent to the page of the name, and neither of the two ways out
-- of it goes to `/play?create=1`.
pub link_intent_lost :
    (write_value : Text → Text) (value : Text) (session : Session) (s : Storage)
    → write_value (codes "1") ≡ 34 ∷ 49 ∷ 34 ∷ []
    → s.available ≡ session.available
    → has_completed_lobby_name_prompt session ≡ false
    → s.pending_create ≡ none
    → let create = address_create write_value (some (codes "1")) in
      let (redirects, kept) = keep_create_intent true session create s in
      (redirects ≡ true)
      × ((save_and_play value session kept).create ≡ false)
      × ((skip_to_lobby session kept).create ≡ false)
link_intent_lost write_value value session s quoted a h n =
    let create = address_create write_value (some (codes "1")) in
    let kept = (keep_create_intent true session create s).1 in
    let asks : asks_create create ≡ false = rw quoted in
    let (works, same) = pending_after session s create a h n in
    (
      ap (λ r. r.0) (keep_lem session s create a h),
      (raw_intent_survives value session s create a h n).0 ∙ asks,
      (skip_to_lobby_lem session kept works).0 ∙ same ∙ asks,
    )
