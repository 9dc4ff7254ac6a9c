-- ===== src/GameView/Presence.antt =====
-- The presence of the page at the server, `page:join` and `page:leave` in $gameID.tsx: what the effect
-- hands to `send`, newest first, with the cleanup that is pending.
use dot_and_boxes.Prelude.{
  ◌≡◌, refl, Bool, true, false, not, ◌||◌, Option, none, some, List, [], ◌∷◌, ◌++◌, if◌then◌else◌,
  Bool-cases, inl, inr,
}
use dot_and_boxes.Prelude.Text.{Text, codes}

pub data PresenceMessage : Type 0 where
  page_join page_leave : Text → PresenceMessage

pub record Presence : Type 0 where
  -- the topic that the cleanup leaves
  pub joined : Option Text
  pub messages : List PresenceMessage

abbrev pub game_topic : Text → Text
game_topic id = codes "game:" ++ id

abbrev pub is_blank : Text → Bool
is_blank [] = true
is_blank (c ∷ t) = false

unfoldable pub leave_page : Presence → Presence
leave_page p = elim p.joined [
  | none ↦ p
  | some t ↦ record { joined = none; messages = page_leave t ∷ p.messages }
]

-- The effect on `connected` and the id of the game, which runs the cleanup of the last run first.
unfoldable pub change_presence : Bool → Text → Presence → Presence
unfolding leave_page
change_presence connected id p =
    let q = leave_page p in
    if not connected || is_blank id
    then q
    else record { joined = some (game_topic id); messages = page_join (game_topic id) ∷ q.messages }

pub data PresenceEvent : Type 0 where
  changes : Bool → Text → PresenceEvent
  unmounts : PresenceEvent

unfoldable pub handle_presence : PresenceEvent → Presence → Presence
unfolding change_presence leave_page
handle_presence (changes connected id) p = change_presence connected id p
handle_presence unmounts p = leave_page p

unfoldable pub run_presence : List PresenceEvent → Presence → Presence
unfolding handle_presence
run_presence [] p = p
run_presence (e ∷ es) p = run_presence es (handle_presence e p)

-- The messages join and leave one topic at a time: the newest first, each leave answers the join right
-- before it, and a join comes when nothing is joined. The topic is the one that is joined at the end.
abbrev pub Alternates : Option Text → List PresenceMessage → Type 0
Alternates none [] = Unit
Alternates (some t) [] = ⊥
Alternates none (page_leave t ∷ ns) = Alternates (some t) ns
Alternates (some u) (page_leave t ∷ ns) = ⊥
Alternates none (page_join t ∷ ns) = ⊥
Alternates (some u) (page_join t ∷ ns) = (u ≡ t) × Alternates none ns

abbrev pub no_presence : Presence
no_presence = record { joined = none; messages = [] }

leave_page-Alternates :
    (o : Option Text) (ns : List PresenceMessage)
    → Alternates o ns
    → let q = leave_page (record { joined = o; messages = ns }) in
      (q.joined ≡ none) × Alternates none q.messages
unfolding leave_page
leave_page-Alternates none ns h = (refl, h)
leave_page-Alternates (some t) ns h = (refl, h)

change_presence-Alternates :
    (connected : Bool) (id : Text) (p : Presence)
    → Alternates p.joined p.messages
    → let q = change_presence connected id p in Alternates q.joined q.messages
unfolding change_presence
change_presence-Alternates connected id p h =
    let (gone, left) = leave_page-Alternates p.joined p.messages h in
    elim (Bool-cases (not connected || is_blank id)) [
      | inl y ↦ rw (y, gone) left
      | inr n ↦ rw n (refl, left)
    ]

handle_presence-Alternates :
    (e : PresenceEvent) (p : Presence)
    → Alternates p.joined p.messages
    → let q = handle_presence e p in Alternates q.joined q.messages
unfolding handle_presence
handle_presence-Alternates (changes connected id) p h = change_presence-Alternates connected id p h
handle_presence-Alternates unmounts p h =
    let (gone, left) = leave_page-Alternates p.joined p.messages h in rw gone left

run-Alternates :
    (es : List PresenceEvent) (p : Presence)
    → Alternates p.joined p.messages
    → let q = run_presence es p in Alternates q.joined q.messages
unfolding run_presence
run-Alternates [] p h = h
run-Alternates (e ∷ es) p h =
    run-Alternates es (handle_presence e p) (handle_presence-Alternates e p h)

-- After any changes of the connection and of the game, in any order, the messages join and leave one
-- topic at a time: each leave answers the join right before it, a join comes only when nothing is
-- joined, and what is joined is the topic that the pending cleanup leaves. After the page is
-- unmounted everything that was joined has been left.
pub run_presence-Alternates :
    (es : List PresenceEvent)
    → let p = run_presence es no_presence in
      Alternates p.joined p.messages × Alternates none (handle_presence unmounts p).messages
unfolding handle_presence
run_presence-Alternates es =
    let h = run-Alternates es no_presence tt in (h, (leave_page-Alternates _ _ h).1)
