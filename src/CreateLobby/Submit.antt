-- ===== src/CreateLobby/Submit.antt =====
-- When the form for a new lobby asks for one, and for which.
use dot_and_boxes.Prelude.{
  ℕ, ◌≤◌, ◌≡◌, ◌≢◌, refl, sym, ◌∙◌, ◌⊎◌, inl, inr, true, false, Option, none, some, [], ◌∷◌, arith,
  Bool-cases,
}
use mathlib.Core.Path.{subst}
use dot_and_boxes.Prelude.Int.{pos, negsuc}
use dot_and_boxes.Prelude.Text.{Text, codes, trim}
use dot_and_boxes.CreateLobby.{
  Number, nan, fraction, whole, clamp_board_api, at_least, at_most, Form, number_issue, name_issue,
  or_next, first_issue, submitted_values, handle_create_lobby_submit,
}

abbrev pub IsBetween : ℕ → ℕ → Number → Type 0
IsBetween low high nan = ⊥
IsBetween low high (fraction n d) = (at_least low n d ≡ true) × (at_most high n d ≡ true)

-- A whole number between two.
abbrev pub IsWhole : ℕ → ℕ → Number → Type 0
IsWhole low high x = (n : ℕ) × (x ≡ whole n) × (low ≤ n) × (n ≤ high)

-- What must hold of the form for a lobby to be asked for.
pub record CanCreate (f : Form) : Type 0 where
  pub idle : f.lobby_create_pending ≡ false
  pub named : trim (trim f.name) ≢ []
  pub limit : IsBetween 2 10 f.player_limit
  pub sized : f.board_size ≢ nan

clamp_board_api-IsWhole : (x : Number) → (x ≡ nan) ⊎ IsWhole 5 10 (clamp_board_api x)
unfolding clamp_board_api
clamp_board_api-IsWhole nan = inl refl
clamp_board_api-IsWhole (fraction (pos n) d) = inr (_, refl, omega arith, omega arith)
clamp_board_api-IsWhole (fraction (negsuc n) d) = inr (5, refl, omega arith, omega arith)

-- The rules of a number hold, or there is an issue.
number_issue_lem :
    (not_a_number : Text) (low high : ℕ) (too_low too_high : Text) (x : Number)
    → ((number_issue not_a_number low too_low high too_high x ≡ none) × IsBetween low high x)
      ⊎ (((m : Text) × (number_issue not_a_number low too_low high too_high x ≡ some m))
          × (¬ (IsBetween low high x)))
number_issue_lem z low high too_low too_high nan = inr ((z, refl), λ h. h)
number_issue_lem z low high too_low too_high (fraction n d) = elim (Bool-cases (at_least low n d)) [
  | inr a ↦ inr ((too_low, rw (a, number_issue) refl), λ h. absurd (cc))
  | inl a ↦ elim (Bool-cases (at_most high n d)) [
    | inr b ↦ inr ((too_high, rw (a, b, number_issue) refl), λ h. absurd (cc))
    | inl b ↦ inl (rw (a, b, number_issue) refl, (a, b))
  ]
]

IsWhole-IsBetween : (low high : ℕ) (x : Number) → IsWhole low high x → IsBetween low high x
IsWhole-IsBetween low high x (n, e, l, h) =
    subst (IsBetween low high) (sym e) (ground arith, ground arith)

some_of : {A : Type 0} (o : Option A) (a : A) → o ≡ some a → o ≢ none
some_of o a e n = cc

module _ (not_a_number : Text) where
  abbrev limit_issue : Form → Option Text
  limit_issue f =
      number_issue not_a_number 2 (codes "Minimum 2 players") 10 (codes "Maximum 10 players")
        f.player_limit

  abbrev board_issue : Number → Option Text
  board_issue x =
      number_issue not_a_number 5 (codes "Minimum board size is 5") 10
        (codes "Maximum board size is 10") x

  board_issue_lem :
      (x : Number)
      → ((board_issue (clamp_board_api x) ≡ none) × (x ≢ nan) × IsWhole 5 10 (clamp_board_api x))
        ⊎ (((m : Text) × (board_issue (clamp_board_api x) ≡ some m)) × (x ≡ nan))
  unfolding clamp_board_api
  board_issue_lem nan = inr ((not_a_number, refl), refl)
  board_issue_lem (fraction n d) = elim (clamp_board_api-IsWhole (fraction n d)) [
    | inl e ↦ absurd (cc)
    | inr w ↦
        elim (number_issue_lem not_a_number 5 10 (codes "Minimum board size is 5")
          (codes "Maximum board size is 10") (clamp_board_api (fraction n d))) [
            | inl (none_here, _) ↦ inl (none_here, (λ e. absurd (cc)), w)
            | inr (_, out) ↦ absurd (out (IsWhole-IsBetween 5 10 _ w))
          ]
  ]

  name_issue_lem :
      (t : Text)
      → ((name_issue not_a_number t ≡ none) × (t ≢ []))
        ⊎ (((m : Text) × (name_issue not_a_number t ≡ some m)) × (t ≡ []))
  name_issue_lem [] = inr ((codes "Lobby name is required", refl), refl)
  name_issue_lem (c ∷ t) = inl (refl, λ e. absurd (cc))

  module _ (f : Form) where
    issue_of : Option Text
    unfolding first_issue submitted_values
    issue_of = first_issue not_a_number (submitted_values not_a_number f)

    submits :
        f.lobby_create_pending ≡ false
        → issue_of ≡ none
        → (handle_create_lobby_submit not_a_number f).1 ≡ some (submitted_values not_a_number f)
    unfolding handle_create_lobby_submit issue_of
    submits p e = rw (p, e) refl

    refuses :
        {m : Text}
        → f.lobby_create_pending ≡ false
        → issue_of ≡ some m
        → (handle_create_lobby_submit not_a_number f).1 ≡ none
    unfolding handle_create_lobby_submit issue_of
    refuses p e = rw (p, e) refl

    refuses_pending :
        f.lobby_create_pending ≡ true → (handle_create_lobby_submit not_a_number f).1 ≡ none
    unfolding handle_create_lobby_submit
    refuses_pending p = rw p refl

    issue_lem :
        issue_of
        ≡ or_next not_a_number
            (name_issue not_a_number (trim (trim f.name)))
            (or_next not_a_number (limit_issue f) (board_issue (clamp_board_api f.board_size)))
    unfolding issue_of first_issue submitted_values
    issue_lem = refl

  -- A click on `CREATE` asks for a lobby exactly where no request is under way, the trimmed name is not
  -- empty, the number of players is between 2 and 10, and the size of the board is a number: it then
  -- asks for the trimmed name, that number of players, and a whole size between 5 and 10. In every
  -- other case it asks for nothing.
  pub handle_create_lobby_submit_lem :
      (f : Form)
      → (CanCreate f
          × ((handle_create_lobby_submit not_a_number f).1 ≡ some (submitted_values not_a_number f))
          × IsWhole 5 10 (submitted_values not_a_number f).board_size)
        ⊎ ((¬ (CanCreate f)) × ((handle_create_lobby_submit not_a_number f).1 ≡ none))
  unfolding submitted_values
  handle_create_lobby_submit_lem f = elim (Bool-cases f.lobby_create_pending) [
    | inl busy ↦ inr (λ c. absurd (let idle = c.idle in cc), refuses_pending f busy)
    | inr idle ↦ elim (name_issue_lem (trim (trim f.name))) [
      | inr ((m, e), empty) ↦
          inr (λ c. c.named empty, refuses f {m = m} idle (issue_lem f ∙ rw e refl))
      | inl (named, nonempty) ↦
          elim (number_issue_lem not_a_number 2 10 (codes "Minimum 2 players")
            (codes "Maximum 10 players") f.player_limit) [
              | inr ((m, e), out) ↦
                  inr (λ c. out c.limit, refuses f {m = m} idle (issue_lem f ∙ rw (named, e) refl))
              | inl (fits, limit) ↦ elim (board_issue_lem f.board_size) [
                | inr ((m, e), no_number) ↦ inr (
                  λ c. c.sized no_number,
                  refuses f {m = m} idle (issue_lem f ∙ rw (named, fits, e) refl),
                )
                | inl (fine, sized, size) ↦ inl (
                  record { idle = idle; named = nonempty; limit = limit; sized = sized },
                  submits f idle (issue_lem f ∙ rw (named, fits, fine) refl),
                  size,
                )
              ]
            ]
    ]
  ]
