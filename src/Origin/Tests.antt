-- ===== src/Origin/Tests.antt =====
-- The token of a page with three cookies, sent with a request that changes something.
use dot_and_boxes.Prelude.{◌≡◌, refl, some, none, List, [], ◌∷◌}
use dot_and_boxes.Prelude.Text.{codes, trim_start}
use dot_and_boxes.Origin.Csrf.{
  Cookie, returns, after_prefix, until_semicolon, csrf_here, csrf_later, csrf_match,
  document_cookie, get_csrf_token, intercept, csrf_match-document_cookie,
}

abbrev cookies : List Cookie
cookies =
    record { name = codes "my_csrf"; value = codes "no=1" }
    ∷ record { name = codes "_csrf"; value = codes "a%3Db" }
    ∷ record { name = codes "theme"; value = codes "" }
    ∷ []

csrf_match-document_cookie_example : csrf_match (document_cookie cookies) ≡ some (codes "a%3Db")
csrf_match-document_cookie_example = csrf_match-document_cookie cookies (
  record { name_plain = refl; name_whole = refl; name_starts = refl; value_whole = refl },
  (
    record { name_plain = refl; name_whole = refl; name_starts = refl; value_whole = refl },
    (record { name_plain = refl; name_whole = refl; name_starts = refl; value_whole = refl }, tt),
  ),
)

post_has_token :
    intercept (λ t. some t) (some (codes "post")) (document_cookie cookies)
    ≡ returns (some (codes "a%3Db"))
unfolding intercept get_csrf_token csrf_match csrf_here csrf_later after_prefix trim_start
    until_semicolon
post_has_token = refl

get_has_none : intercept (λ t. some t) (some (codes "get")) (document_cookie cookies) ≡ returns none
unfolding intercept
get_has_none = refl
