-- ===== src/Origin.antt =====
-- The addresses of the server, web/src/lib/apiOrigin.ts. The two variables of the build are parameters,
-- and so is `new URL`, of which the protocol and the host are used; a text that is no address throws.
pub mod Csrf
mod Tests
use dot_and_boxes.Prelude.{
  Bool, true, false, ◌&&◌, Option, none, some, [], ◌∷◌, ◌++◌, ℕ, if◌then◌else◌, ◌==◌, leb,
}
use dot_and_boxes.Prelude.Text.{Text, codes, decimal, text_eq}

pub record Address : Type 0 where
  pub protocol : Text
  pub host : Text

-- `.replace(/\/$/, "")`: one slash at the end goes.
unfoldable pub drop_last_slash : Text → Text
drop_last_slash [] = []
drop_last_slash (c ∷ []) = if c == 47 then [] else c ∷ []
drop_last_slash (c ∷ d ∷ t) = c ∷ drop_last_slash (d ∷ t)

-- `API_ORIGIN` and `WS_DIRECT_ORIGIN`
unfoldable pub origin_of : Option Text → Text
unfolding drop_last_slash
origin_of none = []
origin_of (some t) = drop_last_slash t

abbrev pub with_slash : Text → Text
with_slash [] = codes "/"
with_slash (c ∷ t) = if c == 47 then c ∷ t else 47 ∷ c ∷ t

abbrev pub is_set : Text → Bool
is_set [] = false
is_set (c ∷ t) = true

unfoldable pub api_url : Text → Text → Text
api_url api_origin path =
    if is_set api_origin then api_origin ++ with_slash path else with_slash path

-- The scheme of a socket for the protocol of a page.
abbrev pub ws_scheme : Text → Text
ws_scheme protocol = if text_eq protocol (codes "https:") then codes "wss" else codes "ws"

abbrev pub socket_at : Address → Text
socket_at a = ws_scheme a.protocol ++ codes "://" ++ a.host ++ codes "/api/v1/ws"

module _ (parse : Text → Option Address) where
  -- `getWebSocketUrl`, of the page's own address; none where `new URL` throws.
  unfoldable pub get_web_socket_url : Text → Address → Option Text
  get_web_socket_url api_origin page =
      if is_set api_origin
      then elim (parse api_origin) [ none ↦ none | some a ↦ some (socket_at a) ]
      else some (socket_at page)

  -- The reply to the request for a token: its status, and the token of the body; or no reply, or one whose
  -- body is read and is no JSON.
  pub data TokenReply : Type 0 where
    token : ℕ → Option Text → TokenReply
    no_reply : TokenReply

  -- How `getWebSocketUrlAsync` ends: with an address, or it throws an error with a message, or another.
  pub data Resolved : Type 0 where
    url : Text → Resolved
    error : Text → Resolved
    throws : Resolved

  abbrev pub bridge_url : Text → Text → (Text → Text) → Resolved
  bridge_url ws_origin t encode = elim (parse ws_origin) [
    | none ↦ throws
    | some a ↦ url (socket_at a ++ codes "?token=" ++ encode t)
  ]

  abbrev pub of_token : Text → (Text → Text) → Option Text → Resolved
  of_token ws_origin encode none = error (codes "ws-token: missing token")
  of_token ws_origin encode (some []) = error (codes "ws-token: missing token")
  of_token ws_origin encode (some (c ∷ t)) = bridge_url ws_origin (c ∷ t) encode

  -- `URLSearchParams` is the parameter `encode`.
  unfoldable pub get_web_socket_url_async :
      (Text → Text) → Text → Text → Address → TokenReply → Resolved
  unfolding get_web_socket_url
  get_web_socket_url_async encode api_origin ws_origin page reply =
      if is_set ws_origin
      then elim reply as (λ _. Resolved) [
        | no_reply ↦ throws
        | token status t ↦
            if leb 200 status && leb status 299
            then of_token ws_origin encode t
            else error (codes "ws-token failed: " ++ decimal status)
      ]
      else elim (get_web_socket_url api_origin page) [ none ↦ throws | some u ↦ url u ]
