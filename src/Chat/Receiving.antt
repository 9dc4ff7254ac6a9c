-- ===== src/Chat/Receiving.antt =====
-- What ChatBox.tsx shows of the messages that arrive.
use dot_and_boxes.Prelude.{
  ◌≡◌, refl, sym, ap, ◌∙◌, Bool, true, false, Option, List, [], ◌∷◌, ◌++◌, any, arith,
  if◌then◌else◌, map,
}
use dot_and_boxes.Prelude.Text.{Text}
use dot_and_boxes.Messages.{ChatMessagePayload, chat_new, Message}
use dot_and_boxes.Chat.{
  ChatUser, ChatBox, list_of, change_draft, handle_send_message, on_input_key_down, is_topic,
  receive_chat, is_own, chat_rows, ChatEvent, fetches, arrives, handle_chat, run_chat,
}

abbrev pub is_fetch : ChatEvent → Bool
is_fetch (fetches ms) = true
is_fetch _ = false

abbrev chat_of : Text → Message → List ChatMessagePayload
chat_of topic msg = elim msg.body as (λ _. List ChatMessagePayload) [
  | chat_new p ↦ if is_topic topic msg then p ∷ [] else []
  | _ ↦ []
]

-- The messages of the topic that arrive while the client is connected, in order.
abbrev pub arrived : Text → List ChatEvent → List ChatMessagePayload
arrived topic [] = []
arrived topic (arrives true msg ∷ es) = chat_of topic msg ++ arrived topic es
arrived topic (_ ∷ es) = arrived topic es

append_nil : (ms : List ChatMessagePayload) → ms ++ [] ≡ ms
append_nil [] = refl
append_nil (m ∷ ms) = ap (λ ns. m ∷ ns) (append_nil ms)

append_assoc : (ms ns os : List ChatMessagePayload) → (ms ++ ns) ++ os ≡ ms ++ (ns ++ os)
append_assoc [] ns os = refl
append_assoc (m ∷ ms) ns os = ap (λ x. m ∷ x) (append_assoc ms ns os)

module _ (topic : Text) where
  handle_chat-arrived :
      (e : ChatEvent) (c : ChatBox)
      → is_fetch e ≡ false
      → list_of (handle_chat topic e c).messages ≡ list_of c.messages ++ arrived topic (e ∷ [])
  unfolding handle_chat change_draft handle_send_message on_input_key_down receive_chat
  handle_chat-arrived e c n = ground (arith, n, append_nil (list_of c.messages))

  arrived-cons :
      (e : ChatEvent) (es : List ChatEvent)
      → arrived topic (e ∷ es) ≡ arrived topic (e ∷ []) ++ arrived topic es
  arrived-cons e es = ground arith

  run_chat-arrived :
      (es : List ChatEvent) (c : ChatBox)
      → any is_fetch es ≡ false
      → list_of (run_chat topic es c).messages ≡ list_of c.messages ++ arrived topic es
  unfolding run_chat
  run_chat-arrived [] c n = sym (append_nil (list_of c.messages))
  run_chat-arrived (e ∷ es) c n =
      run_chat-arrived es (handle_chat topic e c) (ground (arith, n))
      ∙ ap (λ ms. ms ++ arrived topic es) (handle_chat-arrived e c (ground (arith, n)))
      ∙ append_assoc (list_of c.messages) (arrived topic (e ∷ [])) (arrived topic es)
      ∙ ap (λ ms. list_of c.messages ++ ms) (sym (arrived-cons e es))

-- Over any events without a fetch the rows of the box are those that it had, and after them one for
-- each message of its topic that arrived while the client was connected, in that order: what other
-- topics bring, what comes while it is not connected, and what the user sends, adds no row.
pub run_chat-rows :
    (topic : Text) (user : Option ChatUser) (es : List ChatEvent) (c : ChatBox)
    → any is_fetch es ≡ false
    → chat_rows user (run_chat topic es c)
      ≡ map
          (λ p. record { own = is_own user p; payload = p })
          (list_of c.messages ++ arrived topic es)
unfolding chat_rows
run_chat-rows topic user es c n =
    ap (map (λ (p : ChatMessagePayload). record { own = is_own user p; payload = p }))
      (run_chat-arrived topic es c n)
