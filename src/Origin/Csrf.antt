-- ===== src/Origin/Csrf.antt =====
-- The token of web/src/lib/csrf.ts, and the interceptor of web/src/main.tsx that sends it. The
-- decoding of `decodeURIComponent` is a parameter; it throws for a text that is no encoding.
use dot_and_boxes.Prelude.{
  ◌≡◌, refl, ap, ◌∙◌, Bool, false, ◌||◌, Option, none, some, List, [], ◌∷◌, ◌++◌, any,
  if◌then◌else◌, ◌==◌, arith, Bool-cases, inl, inr, All, Option-cases,
}
use mathlib.Core.Option
use dot_and_boxes.Prelude.Text.{Text, codes, is_space, trim_start, text_eq}

-- What follows the prefix, if the text starts with it.
unfoldable pub after_prefix : Text → Text → Option Text
after_prefix [] t = some t
after_prefix (p ∷ ps) [] = none
after_prefix (p ∷ ps) (c ∷ t) = let rest = after_prefix ps t in if p == c then rest else none

-- `[^;]*`
unfoldable pub until_semicolon : Text → Text
until_semicolon [] = []
until_semicolon (c ∷ t) = if c == 59 then [] else c ∷ until_semicolon t

-- The group of `/(^|;\s*)_csrf=([^;]*)/` behind `(^|;\s*)`.
unfoldable pub csrf_here : Text → Option Text
unfolding after_prefix
csrf_here t = after_prefix (codes "_csrf=") t

-- The match further left wins: the first semicolon that the name follows.
unfoldable pub csrf_later : Text → Option Text
csrf_later [] = none
csrf_later (c ∷ t) =
    let rest = csrf_later t in
    if c == 59
    then elim (csrf_here (trim_start t)) as (λ _. Option Text) [ some v ↦ some v | none ↦ rest ]
    else rest

-- `match[2]` of `document.cookie.match(...)`
unfoldable pub csrf_match : Text → Option Text
csrf_match cookie = elim (csrf_here cookie) as (λ _. Option Text) [
  | some v ↦ some (until_semicolon v)
  | none ↦ elim (csrf_later cookie) as (λ _. Option Text) [
    | some v ↦ some (until_semicolon v)
    | none ↦ none
  ]
]

-- What a call ends with: a value, or it throws.
pub data Called (A : Type 0) : Type 0 where
  returns : A → Called A
  throws : Called A

module _ (decode : Text → Option Text) where
  unfoldable pub get_csrf_token : Text → Called (Option Text)
  unfolding csrf_match
  get_csrf_token cookie = elim (csrf_match cookie) as (λ _. Called (Option Text)) [
    | none ↦ returns none
    | some v ↦ elim (decode v) [ none ↦ throws | some t ↦ returns (some t) ]
  ]

  abbrev pub is_safe : Text → Bool
  is_safe method =
      text_eq method (codes "get")
      || text_eq method (codes "head")
      || text_eq method (codes "options")

  abbrev pub token_header : Called (Option Text) → Called (Option Text)
  token_header throws = throws
  token_header (returns none) = returns none
  token_header (returns (some [])) = returns none
  token_header (returns (some (c ∷ t))) = returns (some (c ∷ t))

  -- The interceptor: the header `X-CSRF-Token` that it sets, by the method in lower case, if there is one.
  unfoldable pub intercept : Option Text → Text → Called (Option Text)
  unfolding get_csrf_token
  intercept none cookie = returns none
  intercept (some []) cookie = returns none
  intercept (some (c ∷ m)) cookie =
      if is_safe (c ∷ m) then returns none else token_header (get_csrf_token cookie)

-- A cookie, and what `document.cookie` makes of them.
pub record Cookie : Type 0 where
  pub name : Text
  pub value : Text

-- A cookie in front of a text.
abbrev pub cookie_text : Cookie → Text → Text
cookie_text c rest = c.name ++ (61 ∷ (c.value ++ rest))

abbrev pub more_cookies : List Cookie → Text
more_cookies [] = []
more_cookies (c ∷ cs) = 59 ∷ 32 ∷ cookie_text c (more_cookies cs)

abbrev pub document_cookie : List Cookie → Text
document_cookie [] = []
document_cookie (c ∷ cs) = cookie_text c (more_cookies cs)

abbrev pub first_csrf : List Cookie → Option Text
first_csrf [] = none
first_csrf (c ∷ cs) = if text_eq c.name (codes "_csrf") then some c.value else first_csrf cs

abbrev pub starts_blank : Text → Bool
starts_blank [] = false
starts_blank (c ∷ t) = is_space c

-- The name has no `=` and no semicolon, and does not start with white space; the value has no semicolon.
pub record IsCookie (c : Cookie) : Type 0 where
  pub name_plain : any (λ x. x == 61) c.name ≡ false
  pub name_whole : any (λ x. x == 59) c.name ≡ false
  pub name_starts : starts_blank c.name ≡ false
  pub value_whole : any (λ x. x == 59) c.value ≡ false

after_prefix_name :
    (ps name rest : Text)
    → any (λ x. x == 61) name ≡ false
    → any (λ x. x == 61) ps ≡ false
    → after_prefix (ps ++ 61 ∷ []) (name ++ (61 ∷ rest))
      ≡ (if text_eq name ps then some rest else none)
unfolding after_prefix
after_prefix_name [] [] rest n p = refl
after_prefix_name [] (c ∷ name) rest n p = ground (arith, n)
after_prefix_name (q ∷ ps) [] rest n p = ground (arith, p)
after_prefix_name (q ∷ ps) (c ∷ name) rest n p =
    ground (arith, after_prefix_name ps name rest, n, p)

csrf_later_skip :
    (t rest : Text) → any (λ x. x == 59) t ≡ false → csrf_later (t ++ rest) ≡ csrf_later rest
unfolding csrf_later
csrf_later_skip [] rest h = refl
csrf_later_skip (c ∷ t) rest h = ground (arith, csrf_later_skip t rest, h)

until_semicolon_value :
    (v : Text) (cs : List Cookie)
    → any (λ x. x == 59) v ≡ false
    → until_semicolon (v ++ more_cookies cs) ≡ v
unfolding until_semicolon
until_semicolon_value [] [] h = refl
until_semicolon_value [] (c ∷ cs) h = refl
until_semicolon_value (x ∷ v) cs h = ground (arith, until_semicolon_value v cs, h)

csrf_here-cookie :
    (c : Cookie) (rest : Text)
    → IsCookie c
    → csrf_here (cookie_text c rest)
      ≡ (if text_eq c.name (codes "_csrf") then some (c.value ++ rest) else none)
unfolding csrf_here
csrf_here-cookie c rest i =
    after_prefix_name (codes "_csrf") c.name (c.value ++ rest) i.name_plain refl

trim_start-cookie :
    (name rest : Text)
    → starts_blank name ≡ false
    → trim_start (name ++ (61 ∷ rest)) ≡ name ++ (61 ∷ rest)
unfolding trim_start
trim_start-cookie [] rest h = refl
trim_start-cookie (c ∷ name) rest h = rw h

csrf_later-cookie :
    (c : Cookie) (rest : Text) → IsCookie c → csrf_later (cookie_text c rest) ≡ csrf_later rest
csrf_later-cookie c rest i =
    csrf_later_skip c.name (61 ∷ (c.value ++ rest)) i.name_whole
    ∙ csrf_later_skip (61 ∷ c.value) rest (i.value_whole)

-- The text from the value of the first such cookie on.
first_text : List Cookie → Option Text
first_text [] = none
first_text (c ∷ cs) =
    if text_eq c.name (codes "_csrf") then some (c.value ++ more_cookies cs) else first_text cs

some_or : Option Text → Option Text → Option Text
some_or (some v) rest = some v
some_or none rest = rest

csrf_later-next :
    (t : Text) → csrf_later (59 ∷ 32 ∷ t) ≡ some_or (csrf_here (trim_start t)) (csrf_later t)
unfolding csrf_later trim_start some_or
csrf_later-next t = elim (Option-cases (csrf_here (trim_start t))) [
  | inl e ↦ rw e
  | inr (v, e) ↦ rw e
]

csrf_later-more :
    (cs : List Cookie) → All IsCookie cs → csrf_later (more_cookies cs) ≡ first_text cs
unfolding first_text some_or
csrf_later-more [] i = unfold csrf_later in refl
csrf_later-more (c ∷ cs) (i, is) =
    let rest = more_cookies cs in
    rw
      (
        csrf_later-next (cookie_text c rest),
        trim_start-cookie c.name (c.value ++ rest) i.name_starts,
        csrf_here-cookie c rest i,
        csrf_later-cookie c rest i,
        csrf_later-more cs is,
      )
      (elim (Bool-cases (text_eq c.name (codes "_csrf"))) [ inl e ↦ rw e | inr e ↦ rw e ])

first_text-value :
    (cs : List Cookie)
    → All IsCookie cs
    → Option.map until_semicolon (first_text cs) ≡ first_csrf cs
unfolding first_text
first_text-value [] i = refl
first_text-value (c ∷ cs) (i, is) = elim (Bool-cases (text_eq c.name (codes "_csrf"))) [
  | inl e ↦ rw e (ap some (until_semicolon_value c.value cs i.value_whole))
  | inr e ↦ rw e (first_text-value cs is)
]

csrf_match-here :
    (t : Text) (v : Text) → csrf_here t ≡ some v → csrf_match t ≡ some (until_semicolon v)
unfolding csrf_match csrf_here until_semicolon
csrf_match-here t v h = rw h

csrf_match-later :
    (t : Text) → csrf_here t ≡ none → csrf_match t ≡ Option.map until_semicolon (csrf_later t)
unfolding csrf_match csrf_here csrf_later
csrf_match-later t h = elim (Option-cases (csrf_later t)) [
  | inl e ↦ rw (h, e)
  | inr (v, e) ↦ rw (h, e)
]

-- What the pattern of `getCsrfToken` finds in the text that a browser makes of its cookies: the value
-- of the first cookie that is named `_csrf`, whole, and nothing if there is none, whatever the names
-- and values of the others are.
pub csrf_match-document_cookie :
    (cs : List Cookie) → All IsCookie cs → csrf_match (document_cookie cs) ≡ first_csrf cs
csrf_match-document_cookie [] i = unfold csrf_match csrf_here after_prefix csrf_later in refl
csrf_match-document_cookie (c ∷ cs) (i, is) =
    let rest = more_cookies cs in
    let here = csrf_here-cookie c rest i in
    elim (Bool-cases (text_eq c.name (codes "_csrf"))) [
      | inl e ↦ rw e (
          csrf_match-here (cookie_text c rest) (c.value ++ rest) (rw (here, e) refl)
          ∙ ap some (until_semicolon_value c.value cs i.value_whole))
      | inr e ↦ rw e (
          csrf_match-later (cookie_text c rest) (rw (here, e) refl)
          ∙ ap (Option.map until_semicolon) (csrf_later-cookie c rest i ∙ csrf_later-more cs is)
          ∙ first_text-value cs is)
    ]
