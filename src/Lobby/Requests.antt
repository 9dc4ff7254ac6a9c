-- ===== src/Lobby/Requests.antt =====
-- web/src/api/lobby.ts: the text that an error shows, and the requests. `axios` is the parameter: a
-- request ends with what the server sends or with what `axios` throws.
use dot_and_boxes.Prelude.{
  ℕ, ◌≡◌, refl, ◌⊎◌, inl, inr, Bool, true, false, Option, none, some, List, [], ◌∷◌, arith, ◌==◌,
  if◌then◌else◌,
}
use dot_and_boxes.Prelude.Text.{Text, codes, trim, text_eq}

-- A field of the body: a text, or another value than a text, `null` or `undefined`.
pub data Field : Type 0 where
  string : Text → Field
  other : Field

-- The body of a response: an object with its fields `error` and `message`, or anything else.
pub data Body : Type 0 where
  object : Option Field → Option Field → Body
  no_object : Body

-- An error of axios, with the status and the body of its response and its own message.
pub record AxiosError : Type 0 where
  pub status : Option ℕ
  pub data_of : Option Body
  pub message : Text

-- What a request throws: an error of axios, or something else, told apart by a number.
pub data Thrown : Type 0 where
  axios : AxiosError → Thrown
  unknown : ℕ → Thrown

abbrev pub is_empty : Text → Bool
is_empty [] = true
is_empty (c ∷ s) = false

abbrev pub is_blank : Text → Bool
is_blank t = is_empty (trim t)

-- `o.error ?? o.message`
abbrev pub field_of : Body → Option Field
field_of no_object = none
field_of (object (some e) m) = some e
field_of (object none m) = m

-- The text of the server, if it sent one that is not blank.
abbrev pub server_text : Option Field → Option Text
server_text none = none
server_text (some other) = none
server_text (some (string t)) = if is_blank t then none else some t

abbrev pub text_of_body : Option Body → Option Text
text_of_body none = none
text_of_body (some b) = server_text (field_of b)

-- `error.message && error.message !== "Network Error"`
abbrev pub own_text : Text → Option Text
own_text t = if is_empty t then none else if text_eq t (codes "Network Error") then none else some t

unfoldable pub axios_api_error_message : Thrown → Text → Text
axios_api_error_message (unknown k) fallback = fallback
axios_api_error_message (axios e) fallback = elim (text_of_body e.data_of) [
  | some t ↦ t
  | none ↦ elim (own_text e.message) [ some t ↦ t | none ↦ fallback ]
]

-- How a request ends, and how the function around it does: it returns, it throws an `Error` with a
-- message, or it throws again what was thrown.
pub data Response (A : Type 0) : Type 0 where
  resolved : A → Response A
  rejected : Thrown → Response A

pub data Outcome (A : Type 0) : Type 0 where
  returns : A → Outcome A
  error : Text → Outcome A
  rethrows : Thrown → Outcome A

-- The `catch` block that all the requests have.
abbrev pub with_message : {A : Type 0} → Text → Thrown → Outcome A
with_message fallback (axios e) = error (axios_api_error_message (axios e) fallback)
with_message fallback (unknown k) = rethrows (unknown k)

unfoldable pub request : {A : Type 0} → Text → Response A → Outcome A
unfolding axios_api_error_message
request fallback (resolved a) = returns a
request fallback (rejected e) = with_message fallback e

-- `error.response?.status === 404`
abbrev pub is_not_found : Thrown → Bool
is_not_found (unknown k) = false
is_not_found (axios e) = elim e.status [ none ↦ false | some s ↦ s == 404 ]

module _ {Lobby : Type 0} where
  unfoldable pub fetch_lobbies : Response (List Lobby) → Outcome (List Lobby)
  unfolding request
  fetch_lobbies r = request (codes "Failed to fetch lobbies") r

  unfoldable pub fetch_lobby : Response Lobby → Outcome Lobby
  unfolding axios_api_error_message
  fetch_lobby (resolved a) = returns a
  fetch_lobby (rejected e) =
      if is_not_found e
      then error (codes "Lobby not found")
      else with_message (codes "Failed to fetch lobby") e

  unfoldable pub create_lobby : Response Lobby → Outcome Lobby
  unfolding request
  create_lobby r = request (codes "Failed to create lobby") r

  unfoldable pub join_lobby : Response Lobby → Outcome Lobby
  unfolding request
  join_lobby r = request (codes "Failed to join lobby") r

  unfoldable pub toggle_lobby_ready : Response Lobby → Outcome Lobby
  unfolding request
  toggle_lobby_ready r = request (codes "Failed to toggle ready") r

unfoldable pub leave_lobby : Response (Unit {0}) → Outcome (Unit {0})
unfolding request
leave_lobby r = request (codes "Failed to leave lobby") r

-- Where the text of an error of axios comes from.
abbrev pub IsTextOf : AxiosError → Text → Text → Type 0
IsTextOf e fallback t =
    ((text_of_body e.data_of ≡ some t) × (is_blank t ≡ false))
    ⊎ (t ≡ e.message) × (is_empty t ≡ false) × (text_eq t (codes "Network Error") ≡ false)
    ⊎ (t ≡ fallback)

server_text-not_blank : (f : Option Field) {t : Text} → server_text f ≡ some t → is_blank t ≡ false
server_text-not_blank none h = cc
server_text-not_blank (some other) h = cc
server_text-not_blank (some (string u)) {t} h = ground (arith, h)

text_of_body-not_blank : (b : Option Body) {t : Text} → text_of_body b ≡ some t → is_blank t ≡ false
text_of_body-not_blank none h = cc
text_of_body-not_blank (some b) {t} h = server_text-not_blank (field_of b) {t = t} h

own_text_lem :
    (u : Text) {t : Text}
    → own_text u ≡ some t
    → (t ≡ u) × (is_empty t ≡ false) × (text_eq t (codes "Network Error") ≡ false)
own_text_lem u {t} h = ground (arith, h)

-- The text for an error of axios is the server's, which is then not blank; or else the error's own
-- message, which is then not empty and not `Network Error`; or else the fallback.
pub axios_api_error_message_lem :
    (e : AxiosError) (fallback : Text)
    → IsTextOf e fallback (axios_api_error_message (axios e) fallback)
unfolding axios_api_error_message
axios_api_error_message_lem e fallback =
    by_texts (text_of_body e.data_of) (own_text e.message) refl refl
  where
    by_texts :
        (a b : Option Text)
        → text_of_body e.data_of ≡ a
        → own_text e.message ≡ b
        → IsTextOf e fallback
            (elim a [ some t ↦ t | none ↦ elim b [ some t ↦ t | none ↦ fallback ] ])
    by_texts (some t) b f g = inl (f, text_of_body-not_blank e.data_of {t = t} f)
    by_texts none (some t) f g = inr (inl (own_text_lem e.message {t = t} g))
    by_texts none none f g = inr (inr refl)

-- `fetchLobby` returns what the server sent; on the status 404 it throws `Lobby not found`, whatever
-- the body says; on any other error of axios it throws that error's text; and it throws again
-- unchanged what is no error of axios.
pub fetch_lobby_lem :
    {Lobby : Type 0} (r : Response Lobby)
    → ((a : Lobby) × (r ≡ resolved a) × (fetch_lobby r ≡ returns a))
      ⊎ ((e : AxiosError) × (r ≡ rejected (axios e))
          × (fetch_lobby r
              ≡ error (
                  if elim e.status [ none ↦ false | some s ↦ s == 404 ]
                  then codes "Lobby not found"
                  else axios_api_error_message (axios e) (codes "Failed to fetch lobby"))))
      ⊎ ((k : ℕ) × (r ≡ rejected (unknown k)) × (fetch_lobby r ≡ rethrows (unknown k)))
unfolding fetch_lobby
fetch_lobby_lem (resolved a) = inl (a, refl, refl)
fetch_lobby_lem {Lobby} (rejected (axios e)) =
    inr (inl (e, refl, by_status (is_not_found (axios e))))
  where
    by_status :
        (b : Bool)
        → let thrown : Outcome Lobby =
            if b
            then error (codes "Lobby not found")
            else with_message (codes "Failed to fetch lobby") (axios e) in
          thrown
          ≡ error (
              if b
              then codes "Lobby not found"
              else axios_api_error_message (axios e) (codes "Failed to fetch lobby"))
    by_status true = refl
    by_status false = refl
fetch_lobby_lem (rejected (unknown k)) = inr (inr (k, refl, refl))
