-- ===== src/Chat.antt =====
-- The chat box, web/src/components/ChatBox.tsx, on the client of Socket.
pub mod Sending
pub mod Receiving
mod Tests
use package.dot_and_boxes.Prelude.{
  ℕ, Bool, true, false, not, ◌&&◌, ◌||◌, Option, none, some, List, [], ◌∷◌, ◌++◌, length, take,
  if◌then◌else◌, ltb, ◌==◌, map,
}
use package.dot_and_boxes.Prelude.Text.{Text, codes, decimal, text_eq, trim}
use package.dot_and_boxes.Messages.{ChatMessagePayload, Body, chat_new, Message}
use package.dot_and_boxes.Socket
use package.dot_and_boxes.Socket.{Client}

abbrev pub max_message_length : ℕ
max_message_length = 500

pub record ChatUser : Type 0 where
  pub user_id : ℕ
  pub username : Text

-- The payload of a message that the box sends, with its topic.
pub record Outgoing : Type 0 where
  pub topic : Text
  pub user_id : ℕ
  pub username : Text
  pub text : Text
  pub timestamp : Text

pub record ChatBox : Type 0 where
  -- `newMessage`, and the data of the query
  pub draft : Text
  pub messages : Option (List ChatMessagePayload)
  -- what went out, with the socket that it went by, newest first
  pub sent : List (ℕ × Outgoing)

abbrev pub new_chat_box : ChatBox
new_chat_box = record { draft = []; messages = none; sent = [] }

abbrev pub list_of : Option (List ChatMessagePayload) → List ChatMessagePayload
list_of none = []
list_of (some ms) = ms

unfoldable pub endpoint : Option ℕ → Text
endpoint none = codes "/api/v1/chat"
endpoint (some id) = codes "/api/v1/games/" ++ decimal id ++ codes "/chat"

abbrev pub is_empty : Text → Bool
is_empty [] = true
is_empty (c ∷ t) = false

-- `onChange`
unfoldable pub change_draft : Text → ChatBox → ChatBox
change_draft value c = record c { draft = take max_message_length value }

-- The mutation: the client sends by its socket, or warns where it has none that is open.
abbrev pub send_message : Client → Outgoing → ChatBox → ChatBox
send_message client message c = elim (Socket.send client) [
  | none ↦ c
  | some s ↦ record c { sent = (s, message) ∷ c.sent }
]

module _ (topic : Text) where
  -- `handleSendMessage` at the time `now`.
  unfoldable pub handle_send_message : Client → Option ChatUser → Text → ChatBox → ChatBox
  handle_send_message client user now c =
      let trimmed = trim c.draft in
      if is_empty trimmed || ltb max_message_length (length trimmed) then c else elim user [
        | none ↦ c
        | some u ↦
            record (send_message client
              (record {
                topic = topic;
                user_id = u.user_id;
                username = u.username;
                text = trimmed;
                timestamp = now;
              })
              c) { draft = [] }
      ]

  -- The key `Enter` sends; the others go to the input.
  unfoldable pub on_input_key_down : Text → Client → Option ChatUser → Text → ChatBox → ChatBox
  unfolding handle_send_message
  on_input_key_down key client user now c =
      if text_eq key (codes "Enter") then handle_send_message client user now c else c

  -- The topic of a message is the topic of the box.
  abbrev pub is_topic : Message → Bool
  is_topic msg = elim msg.topic [ none ↦ false | some t ↦ text_eq (codes t) topic ]

  -- The subscriber, which is there while the client is connected.
  unfoldable pub receive_chat : Bool → Message → ChatBox → ChatBox
  receive_chat connected msg c = if not connected then c else elim msg.body [
    | chat_new p ↦
        if is_topic msg then record c { messages = some (list_of c.messages ++ p ∷ []) } else c
    | _ ↦ c
  ]

-- What the box renders: a row for each message, which is the user's own or not, whether the button
-- is disabled, and the count of a long draft.
pub record ChatRow : Type 0 where
  pub own : Bool
  pub payload : ChatMessagePayload

abbrev pub is_own : Option ChatUser → ChatMessagePayload → Bool
is_own none p = false
is_own (some u) p = p.user_id == u.user_id

unfoldable pub chat_rows : Option ChatUser → ChatBox → List ChatRow
chat_rows user c = map (λ p. record { own = is_own user p; payload = p }) (list_of c.messages)

unfoldable pub send_disabled : ChatBox → Bool
send_disabled c = is_empty (trim c.draft)

-- `newMessage.length > MAX_MESSAGE_LENGTH * 0.8`
unfoldable pub draft_counter : ChatBox → Option Text
draft_counter c =
    if ltb 400 (length c.draft)
    then some (decimal (length c.draft) ++ codes "/" ++ decimal max_message_length)
    else none

pub data ChatEvent : Type 0 where
  types : Text → ChatEvent
  presses : Text → Client → Option ChatUser → Text → ChatEvent
  sends : Client → Option ChatUser → Text → ChatEvent
  arrives : Bool → Message → ChatEvent
  fetches : List ChatMessagePayload → ChatEvent

module _ (topic : Text) where
  unfoldable pub handle_chat : ChatEvent → ChatBox → ChatBox
  unfolding change_draft on_input_key_down handle_send_message receive_chat
  handle_chat (types value) c = change_draft value c
  handle_chat (presses key client user now) c = on_input_key_down topic key client user now c
  handle_chat (sends client user now) c = handle_send_message topic client user now c
  handle_chat (arrives connected msg) c = receive_chat topic connected msg c
  handle_chat (fetches ms) c = record c { messages = some ms }

  unfoldable pub run_chat : List ChatEvent → ChatBox → ChatBox
  unfolding handle_chat
  run_chat [] c = c
  run_chat (e ∷ es) c = run_chat es (handle_chat e c)
