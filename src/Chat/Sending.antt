-- ===== src/Chat/Sending.antt =====
-- What ChatBox.tsx sends: the bounds of the draft and of the messages, and a message that is lost.
use dot_and_boxes.Prelude.{
  ℕ, zero, suc, ◌+◌, ◌≤◌, ◌≡◌, refl, ◌∙◌, false, Option, none, some, List, [], ◌∷◌, All, length,
  take, arith, ltb, Option-cases, inl, inr, ◌⊎◌,
}
use dot_and_boxes.Prelude.Text.{Text, trim, trim_start}
use mathlib.Core.List.{reverse, reverse_aux}
use dot_and_boxes.Socket
use dot_and_boxes.Socket.{Client, Event}
use dot_and_boxes.Chat.{
  ChatUser, Outgoing, ChatBox, new_chat_box, is_empty, change_draft, send_message,
  handle_send_message, on_input_key_down, receive_chat, send_disabled, types, presses, sends,
  arrives, fetches, ChatEvent, handle_chat, run_chat,
}

length-take : (n : ℕ) (t : Text) → length (take n t) ≤ n
length-take zero t = omega arith
length-take (suc n) [] = omega arith
length-take (suc n) (c ∷ t) = omega (arith, length-take n t)

length-trim_start : (t : Text) → length (trim_start t) ≤ length t
unfolding trim_start
length-trim_start [] = omega arith
length-trim_start (c ∷ t) = ground (arith, length-trim_start t)

length-reverse_aux : (t acc : Text) → length (reverse_aux t acc) ≡ length t + length acc
length-reverse_aux [] acc = omega arith
length-reverse_aux (c ∷ t) acc = omega (arith, length-reverse_aux t (c ∷ acc))

length-reverse : (t : Text) → length (reverse t) ≡ length t
length-reverse t = length-reverse_aux t [] ∙ omega arith

length-trim : (t : Text) → length (trim t) ≤ length t
unfolding trim
length-trim t =
    let inner = trim_start t in
    omega (
      arith,
      length-reverse (trim_start (reverse inner)),
      length-trim_start (reverse inner),
      length-reverse inner,
      length-trim_start t,
    )

abbrev pub IsSendable : Text → Outgoing → Type 0
IsSendable topic m = (m.topic ≡ topic) × (is_empty m.text ≡ false) × (length m.text ≤ 500)

-- The bound of the draft, and what has been sent.
record Inv (topic : Text) (c : ChatBox) : Type 0 where
  draft_bound : length c.draft ≤ 500
  sent_sendable : All (λ (x : ℕ × Outgoing). IsSendable topic x.1) c.sent

module _ (topic : Text) where
  send-Inv :
      (client : Client) (user : Option ChatUser) (now : Text) (c : ChatBox)
      → Inv topic c
      → Inv topic (handle_send_message topic client user now c)
  unfolding handle_send_message
  send-Inv client user now c i = record {
    draft_bound = ground (arith, i.draft_bound);
    sent_sendable = ground (arith, i.sent_sendable);
  }

  handle_chat-Inv : (e : ChatEvent) (c : ChatBox) → Inv topic c → Inv topic (handle_chat topic e c)
  unfolding handle_chat on_input_key_down change_draft receive_chat
  handle_chat-Inv (types value) c i = record {
    draft_bound = length-take 500 value;
    sent_sendable = i.sent_sendable;
  }
  handle_chat-Inv (presses key client user now) c i = record {
    draft_bound = ground (arith, i.draft_bound, (send-Inv client user now c i).draft_bound);
    sent_sendable = ground (arith, i.sent_sendable, (send-Inv client user now c i).sent_sendable);
  }
  handle_chat-Inv (sends client user now) c i = send-Inv client user now c i
  handle_chat-Inv (arrives connected msg) c i = record {
    draft_bound = ground (arith, i.draft_bound);
    sent_sendable = ground (arith, i.sent_sendable);
  }
  handle_chat-Inv (fetches ms) c i = record {
    draft_bound = i.draft_bound;
    sent_sendable = i.sent_sendable;
  }

  run_chat-Inv : (es : List ChatEvent) (c : ChatBox) → Inv topic c → Inv topic (run_chat topic es c)
  unfolding run_chat
  run_chat-Inv [] c i = i
  run_chat-Inv (e ∷ es) c i = run_chat-Inv es (handle_chat topic e c) (handle_chat-Inv e c i)

  new_chat_box-Inv : Inv topic new_chat_box
  new_chat_box-Inv = record { draft_bound = omega arith; sent_sendable = tt }

-- After any events from an empty box, its draft has at most 500 code units, and every message that it
-- sent names the topic of the box and has between 1 and 500.
pub run_chat-IsSendable :
    (topic : Text) (es : List ChatEvent)
    → (length (run_chat topic es new_chat_box).draft ≤ 500)
      × All (λ (x : ℕ × Outgoing). IsSendable topic x.1) (run_chat topic es new_chat_box).sent
run_chat-IsSendable topic es =
    let i = run_chat-Inv topic es new_chat_box (new_chat_box-Inv topic) in
    (i.draft_bound, i.sent_sendable)

send_message_lem :
    (client : Client) (m : Outgoing) (c : ChatBox)
    → ((send_message client m c).messages ≡ c.messages)
      × (((Socket.send client ≡ none) × ((send_message client m c).sent ≡ c.sent))
          ⊎ ((s : ℕ) × (Socket.send client ≡ some s)
              × ((send_message client m c).sent ≡ (s, m) ∷ c.sent)))
send_message_lem client m c = elim (Option-cases (Socket.send client)) [
  | inl n ↦ (rw (n, send_message) refl, inl (n, rw (n, send_message) refl))
  | inr (s, e) ↦ (rw (e, send_message) refl, inr (s, e, rw (e, send_message) refl))
]

handle_send_message-sends :
    (topic : Text) (client : Client) (u : ChatUser) (now : Text) (c : ChatBox)
    → length c.draft ≤ 500
    → send_disabled c ≡ false
    → handle_send_message topic client (some u) now c
      ≡ record (send_message client
          (record {
            topic = topic;
            user_id = u.user_id;
            username = u.username;
            text = trim c.draft;
            timestamp = now;
          })
          c) { draft = [] }
unfolding handle_send_message send_disabled
handle_send_message-sends topic client u now c bound enabled =
    let short : ltb 500 (length (trim c.draft)) ≡ false =
      ground (arith, bound, length-trim c.draft) in
    rw (enabled, short) refl

-- In every box that any events lead to from an empty one: where the user is signed in and the button
-- is enabled, a click empties the draft; it sends the trimmed draft by the client's open socket, so
-- the test of the length never refuses it; and with no open socket it sends nothing, so that the
-- message is lost.
pub button_sends :
    (topic : Text) (es : List ChatEvent) (client : Client) (u : ChatUser) (now : Text)
    → send_disabled (run_chat topic es new_chat_box) ≡ false
    → let c = run_chat topic es new_chat_box in
      let after = handle_send_message topic client (some u) now c in
      (after.draft ≡ [])
      × (after.messages ≡ c.messages)
      × (((Socket.send client ≡ none) × (after.sent ≡ c.sent))
          ⊎ ((s : ℕ) × (Socket.send client ≡ some s)
              × (after.sent
                  ≡ (
                    s,
                    record {
                      topic = topic;
                      user_id = u.user_id;
                      username = u.username;
                      text = trim c.draft;
                      timestamp = now;
                    },
                  )
                    ∷ c.sent)))
button_sends topic es client u now enabled =
    let c = run_chat topic es new_chat_box in
    let bound = (run_chat-IsSendable topic es).0 in
    rw (handle_send_message-sends topic client u now c bound enabled)
      (refl, (send_message_lem client _ c).0, (send_message_lem client _ c).1)
