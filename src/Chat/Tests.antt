-- ===== src/Chat/Tests.antt =====
-- Runs of the chat box, ChatBox.tsx, in the global chat.
use dot_and_boxes.Prelude.{ℕ, ◌≡◌, ◌⊎◌, refl, true, false, none, some, List, [], ◌∷◌, length}
use dot_and_boxes.Prelude.Text.{Text, codes, trim}
use dot_and_boxes.Messages.{ChatMessagePayload, Message, chat_new}
use dot_and_boxes.Socket
use dot_and_boxes.Socket.{Client, new_client, auth, url, opens}
use dot_and_boxes.Chat.{
  ChatUser, new_chat_box, handle_send_message, send_disabled, ChatEvent, types, presses, run_chat,
}
use dot_and_boxes.Chat.Sending.{button_sends}

abbrev global : Text
global = codes "chat:global"

abbrev user : ChatUser
user = record { user_id = 7; username = codes "Ann" }

-- Signed in and connected by the socket 1.
abbrev online : Client
online = Socket.run (auth true ∷ url 0 ∷ opens 1 ∷ []) new_client

abbrev typed : List ChatEvent
typed = types (codes "hello") ∷ presses (codes "Enter") online (some user) (codes "12:00") ∷ []

abbrev payload : ChatMessagePayload
payload = record { user_id = 7; username = "Ann"; message = "hello"; timestamp = "12:00" }

abbrev echo : Message
echo = record { topic = some "chat:global"; body = chat_new payload }

sent_one : length (run_chat global typed new_chat_box).sent ≡ 1
unfolding run_chat Socket.run Socket.send trim
sent_one = refl

abbrev draft : List ChatEvent
draft = types (codes "hello") ∷ []

enabled : send_disabled (run_chat global draft new_chat_box) ≡ false
unfolding run_chat send_disabled trim
enabled = refl

button_sends_example :
    let c = run_chat global draft new_chat_box in
    let after = handle_send_message global new_client (some user) (codes "12:00") c in
    (after.draft ≡ [])
    × (after.messages ≡ c.messages)
    × (((Socket.send new_client ≡ none) × (after.sent ≡ c.sent))
        ⊎ ((s : ℕ) × (Socket.send new_client ≡ some s)
            × (after.sent
                ≡ (
                  s,
                  record {
                    topic = global;
                    user_id = 7;
                    username = codes "Ann";
                    text = trim c.draft;
                    timestamp = codes "12:00";
                  },
                )
                  ∷ c.sent)))
button_sends_example = button_sends global draft new_client user (codes "12:00") enabled
