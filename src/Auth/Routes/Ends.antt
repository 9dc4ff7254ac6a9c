-- ===== src/Auth/Routes/Ends.antt =====
-- That the redirects of the guards of Auth/Routes end, and where.
use dot_and_boxes.Prelude.{
  ℕ, zero, suc, ◌+◌, ◌*◌, ◌≤◌, ◌<◌, ◌≡◌, refl, ap, ◌∙◌, ◌⊎◌, inl, inr, true, false, Option, none,
  some, length, arith, Bool-cases, Option-cases,
}
use dot_and_boxes.Prelude.Text.{Text}
use dot_and_boxes.Lobby.Display.{has_completed_lobby_name_prompt}
use dot_and_boxes.Lobby.Requests.{Response, resolved, rejected}
use dot_and_boxes.Auth.{
  User, Identity, guest_login, Ensured, ensured_by, ensure_me, ensure_guest_session,
}
use dot_and_boxes.Auth.Routes.{
  Site, Location, at_index, at_play, at_choose_name, at_register, at_login, at_join, at_lobby,
  at_history, at_leaderboard, at_about, at_replay, at_game, at_no_route, Visit, Guarded, stays,
  goes, guided, ensured, with_guest, name_prompt, join_path, guards_of, guard_login, guard_join,
  asked_me, run_guards, follow,
}
use dot_and_boxes.Auth.Routes.Links.{me_is}

abbrev login_left : Option Text → ℕ
login_left none = 4
login_left (some t) = 2 * length t + 6

-- The guards that a place leads to at most; a login page without a user stays.
abbrev pub left : Location → Option (Option User) → ℕ
left at_choose_name me = 2
left at_play me = 3
left (at_lobby id) me = 3
left at_history me = 2
left (at_replay id) me = 2
left (at_game id) me = 1
left at_leaderboard me = 1
left at_about me = 1
left (at_no_route path) me = 1
left at_index me = 4
left (at_join id) me = 4
left (at_register q) me = suc (login_left q)
left (at_login q) (some none) = 1
left (at_login q) _ = login_left q

abbrev pub left_of : Visit → ℕ
left_of v = left v.at v.identity.me

-- The search of a path that leads to the login page is shorter than the path.
abbrev pub IsShorter : Text → Location → Type 0
IsShorter t (at_login (some q)) = length q < length t
IsShorter t (at_register (some q)) = length q < length t
IsShorter t _ = Unit {0}

abbrev pub HasUser : Identity → Type 0
HasUser w = (u : User) × (w.me ≡ some (some u))

-- The places that are shown: the login page without a user, those below `_authenticated` with one, who
-- has a name on the pages that ask for it, and those without a guard.
abbrev pub IsAdmitted : Location → Identity → Type 0
IsAdmitted (at_login q) w = w.me ≡ some none
IsAdmitted at_choose_name w = HasUser w
IsAdmitted at_history w = HasUser w
IsAdmitted (at_replay id) w = HasUser w
IsAdmitted (at_game id) w = Unit {0}
IsAdmitted at_leaderboard w = Unit {0}
IsAdmitted at_about w = Unit {0}
IsAdmitted (at_no_route path) w = Unit {0}
IsAdmitted at_play w = HasUser w × (has_completed_lobby_name_prompt w.session ≡ true)
IsAdmitted (at_lobby id) w = HasUser w × (has_completed_lobby_name_prompt w.session ≡ true)
IsAdmitted at_index w = ⊥
IsAdmitted (at_join id) w = ⊥
IsAdmitted (at_register q) w = ⊥

-- The guards admit the visit, or redirect it to a place with fewer guards left.
abbrev Progresses : ℕ → Guarded → Type 0
Progresses n (stays w) = IsAdmitted w.at w.identity
Progresses n (goes w) = left_of w < n

left-le :
    (t : Text) (l : Location) (me : Option (Option User))
    → IsShorter t l
    → left l me < 2 * length t + 6
left-le t at_index me h = omega arith
left-le t at_play me h = omega arith
left-le t at_choose_name me h = omega arith
left-le t (at_register none) me h = omega arith
left-le t (at_register (some q)) me h = omega (arith, h)
left-le t (at_login q) (some none) h = omega arith
left-le t (at_login none) none h = omega arith
left-le t (at_login none) (some (some u)) h = omega arith
left-le t (at_login (some q)) none h = omega (arith, h)
left-le t (at_login (some q)) (some (some u)) h = omega (arith, h)
left-le t (at_join id) me h = omega arith
left-le t (at_lobby id) me h = omega arith
left-le t at_history me h = omega arith
left-le t (at_replay id) me h = omega arith
left-le t (at_game id) me h = omega arith
left-le t at_leaderboard me h = omega arith
left-le t at_about me h = omega arith
left-le t (at_no_route path) me h = omega arith

left_login-le : (q : Option Text) (me : Option (Option User)) → left (at_login q) me ≤ login_left q
left_login-le q none = omega arith
left_login-le none (some none) = omega arith
left_login-le (some t) (some none) = omega arith
left_login-le q (some (some u)) = omega arith

left_pos : (l : Location) (me : Option (Option User)) → 0 < left l me
left_pos at_index me = omega arith
left_pos at_play me = omega arith
left_pos at_choose_name me = omega arith
left_pos (at_register q) me = omega arith
left_pos (at_login q) (some none) = omega arith
left_pos (at_login none) none = omega arith
left_pos (at_login (some t)) none = omega arith
left_pos (at_login none) (some (some u)) = omega arith
left_pos (at_login (some t)) (some (some u)) = omega arith
left_pos (at_join id) me = omega arith
left_pos (at_lobby id) me = omega arith
left_pos at_history me = omega arith
left_pos (at_replay id) me = omega arith
left_pos (at_game id) me = omega arith
left_pos at_leaderboard me = omega arith
left_pos at_about me = omega arith
left_pos (at_no_route path) me = omega arith

-- The router ends at a place that is shown.
abbrev pub IsShown : Option Visit → Type 0
IsShown none = ⊥
IsShown (some w) = IsAdmitted w.at w.identity

module _ (site : Site) where
  open site use {stringify, parse, resolve, answer}

  -- A call of `ensureGuestSession` returns with a user, or throws and leaves none.
  abbrev EndsWell : Ensured → Type 0
  EndsWell e =
      ((e.returned ≡ true) × (HasUser e.after)) ⊎ ((e.returned ≡ false) × (e.after.me ≡ some none))

  ensured_by-EndsWell :
      (r : Response User) (w : Identity)
      → w.me ≡ some none
      → EndsWell (ensured_by (guest_login stringify r w))
  unfolding guest_login
  ensured_by-EndsWell (resolved u) w h = inl (refl, (u, refl))
  ensured_by-EndsWell (rejected e) w h = inr (refl, h)

  ensured-EndsWell : (w : Identity) → EndsWell (ensured site w)
  unfolding ensure_guest_session
  ensured-EndsWell w = elim (Option-cases (ensure_me parse w).0) [
    | inr (u, e) ↦ rw (e, ensure_guest_session) (inl (refl, (u, me_is site w ∙ ap some e)))
    | inl e ↦
        rw (e, ensure_guest_session)
          (ensured_by-EndsWell answer (ensure_me parse w).1 (me_is site w ∙ ap some e))
  ]

  with_guest-Progresses :
      (next : Identity → Option Location) (q : Option Text) (v : Visit) (n : ℕ)
      → 1 < n
      → ((w : Visit) → w.at ≡ v.at → HasUser w.identity → Progresses n (guided (next w.identity) w))
      → Progresses n (with_guest site next (at_login q) v)
  with_guest-Progresses next q v n h k = elim (ensured-EndsWell v.identity) [
    | inl (r, m) ↦ rw r (k _ refl m)
    | inr (r, m) ↦ rw (r, m) h
  ]

  -- The guard of a page that asks for a name.
  name_prompt-Progresses :
      (l : Location) (w : Visit)
      → w.at ≡ l
      → ((i : Identity)
          → HasUser i
          → has_completed_lobby_name_prompt i.session ≡ true
          → IsAdmitted l i)
      → HasUser w.identity
      → Progresses 3 (guided (name_prompt site w.identity) w)
  name_prompt-Progresses l w e admitted u =
      elim (Bool-cases (has_completed_lobby_name_prompt w.identity.session)) [
        | inl named ↦ rw (named, e) (admitted w.identity u named)
        | inr unnamed ↦ rw unnamed (omega arith)
      ]

  left-login :
      (q : Option Text) (w : Identity) (u : User)
      → (ensure_me parse w).0 ≡ some u
      → left (at_login q) w.me ≡ login_left q
  left-login q w u h = elim (Option-cases w.me) [
    | inl e ↦ rw e
    | inr (none, e) ↦ absurd (ground (arith, h, e))
    | inr (some x, e) ↦ rw e
  ]

  guard_login-Progresses :
      ((t : Text) → IsShorter t (resolve t))
      → (q : Option Text) (me : Option User) (v : Visit) (n : ℕ) → v.at ≡ at_login q
      → v.identity.me ≡ some me
      → ((u : User) → me ≡ some u → n ≡ login_left q)
      → Progresses n (guard_login site q me v)
  guard_login-Progresses shorter q none v n a e h = rw a e
  guard_login-Progresses shorter none (some u) v n a e h = rw (h u refl) (omega arith)
  guard_login-Progresses shorter (some t) (some u) v n a e h =
      rw (h u refl) (left-le t (resolve t) v.identity.me (shorter t))

  guard_join-Progresses :
      (id : Text) (me : Option User) (v : Visit) → Progresses 4 (guard_join site id me v)
  guard_join-Progresses id (some u) v = omega arith
  guard_join-Progresses id none v =
      with_guest-Progresses (λ _. some (at_lobby id)) (some (join_path id)) v 4 (omega arith)
        (λ w e u. omega arith)

  guards_of-Progresses :
      ((t : Text) → IsShorter t (resolve t))
      → (l : Location) (v : Visit) → v.at ≡ l
      → Progresses (left l v.identity.me) (guards_of site l v)
  guards_of-Progresses shorter at_index v a = omega arith
  guards_of-Progresses shorter (at_register q) v a = omega (arith, left_login-le q v.identity.me)
  guards_of-Progresses shorter (at_login q) v a =
      guard_login-Progresses shorter q (ensure_me parse v.identity).0 (asked_me site v) _ a
        (me_is site v.identity) (λ u e. left-login q v.identity u e)
  guards_of-Progresses shorter (at_join id) v a =
      guard_join-Progresses id (ensure_me parse v.identity).0 (asked_me site v)
  guards_of-Progresses shorter (at_lobby id) v a =
      with_guest-Progresses (name_prompt site) _ v 3 (omega arith)
        (λ w e u. name_prompt-Progresses (at_lobby id) w (e ∙ a) (λ i x n. (x, n)) u)
  guards_of-Progresses shorter at_play v a =
      with_guest-Progresses (name_prompt site) _ v 3 (omega arith)
        (λ w e u. name_prompt-Progresses at_play w (e ∙ a) (λ i x n. (x, n)) u)
  guards_of-Progresses shorter at_choose_name v a =
      with_guest-Progresses (λ _. none) _ v 2 (omega arith) (λ w e u. rw (e ∙ a) u)
  guards_of-Progresses shorter at_history v a =
      with_guest-Progresses (λ _. none) _ v 2 (omega arith) (λ w e u. rw (e ∙ a) u)
  guards_of-Progresses shorter (at_replay id) v a =
      with_guest-Progresses (λ _. none) _ v 2 (omega arith) (λ w e u. rw (e ∙ a) u)
  guards_of-Progresses shorter (at_game id) v a = rw a tt
  guards_of-Progresses shorter at_leaderboard v a = rw a tt
  guards_of-Progresses shorter at_about v a = rw a tt
  guards_of-Progresses shorter (at_no_route path) v a = rw a tt

  ended_by :
      (follow_on : Visit → Option Visit) (n : ℕ) (g : Guarded)
      → Progresses n g
      → ((w : Visit) → left_of w < n → IsShown (follow_on w))
      → IsShown (elim g as (λ _. Option Visit) [ stays w ↦ some w | goes w ↦ follow_on w ])
  ended_by follow_on n (stays w) p on = p
  ended_by follow_on n (goes w) p on = on w p

  -- Where the search of a path that leads to the login page, or to the page of registration, is shorter
  -- than the path, the router ends after it ran at most as many guards as `left_of` says: two for each
  -- character of the redirect of a login and 7 more, and 4 at any place but these two pages. It ends
  -- at the login page without a user; at the page of the name, the history or a replay with a user; at
  -- /play or a lobby with a user who has chosen a name; or at a place that asks for no user: a game, the
  -- leaderboard, the page about the site, or a path of no route.
  pub follow-IsShown :
      ((t : Text) → IsShorter t (resolve t))
      → (fuel : ℕ) (v : Visit) → left_of v ≤ fuel
      → IsShown (follow site fuel v)
  unfolding follow run_guards
  follow-IsShown shorter zero v h = absurd (omega (arith, left_pos v.at v.identity.me, h))
  follow-IsShown shorter (suc fuel) v h =
      ended_by (follow site fuel) (left_of v) (guards_of site v.at v)
        (guards_of-Progresses shorter v.at v refl)
        (λ w p. follow-IsShown shorter fuel w (omega (arith, p, h)))
