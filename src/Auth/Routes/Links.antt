-- ===== src/Auth/Routes/Links.antt =====
-- Where a link to join a lobby ends, by the guards of Auth/Routes.
use dot_and_boxes.Prelude.{
  ℕ, suc, ◌+◌, ◌≡◌, ◌≢◌, refl, ap, ◌∙◌, inl, inr, true, false, Option, none, some, if◌then◌else◌,
  arith, Bool-cases, Option-cases,
}
use dot_and_boxes.Prelude.Text.{Text}
use dot_and_boxes.Lobby.Display.{has_completed_lobby_name_prompt}
use dot_and_boxes.Lobby.Requests.{Response, resolved, rejected}
use dot_and_boxes.Auth.{
  User, Identity, storage_works, cache_me, read_cached_me, guest_login, ensured_by, ensure_me,
  ensure_guest_session,
}
use dot_and_boxes.Auth.Routes.{
  Site, Location, at_choose_name, at_login, at_join, at_lobby, Visit, stays, goes, guided,
  join_path, href_of, lobby_or_name, started, Arrives, ensured, after_guest, with_guest,
  name_prompt, asked_me, guard_login, guard_join, run_guards, follow, after_login,
}

module _ (site : Site) where
  open site use {stringify, parse, resolve, answer}

  known_ensured :
      (w : Identity) (u : User)
      → w.me ≡ some (some u)
      → ensured site w ≡ record { asked = false; returned = true; after = w }
  unfolding ensure_guest_session
  known_ensured w u e = rw e

  follow-stays :
      (f : ℕ) (v w : Visit) → run_guards site v ≡ stays w → follow site (suc f) v ≡ some w
  unfolding follow
  follow-stays f v w h = rw (h, follow)

  follow-goes :
      (f : ℕ) (v w : Visit) → run_guards site v ≡ goes w → follow site (suc f) v ≡ follow site f w
  unfolding follow
  follow-goes f v w h = rw (h, follow)

  with_guest-known :
      (next : Identity → Option Location) (failed l : Location) (w : Identity) (n : ℕ) (u : User)
      → w.me ≡ some (some u)
      → with_guest site next failed (record { at = l; identity = w; guests = n })
        ≡ guided (next w) (record { at = l; identity = w; guests = n })
  with_guest-known next failed l w n u e =
      ap (after_guest site next failed (record { at = l; identity = w; guests = n }))
        (known_ensured w u e)

  -- A user who is known gets there with no request.
  known_lobby :
      (id : Text) (w : Identity) (n : ℕ) (u : User)
      → w.me ≡ some (some u)
      → follow site 2 (record { at = at_lobby id; identity = w; guests = n })
        ≡ some (record { at = lobby_or_name id w; identity = w; guests = n })
  unfolding run_guards
  known_lobby id w n u e = elim (Bool-cases (has_completed_lobby_name_prompt w.session)) [
    | inl named ↦ rw named (
        follow-stays 1 (record { at = at_lobby id; identity = w; guests = n })
          (record { at = at_lobby id; identity = w; guests = n })
          (with_guest-known (name_prompt site) (at_login (some (href_of (at_lobby id))))
              (at_lobby id) w n u e
            ∙ (rw named)))
    | inr unnamed ↦ rw unnamed (
        follow-goes 1 (record { at = at_lobby id; identity = w; guests = n })
          (record { at = at_choose_name; identity = w; guests = n })
          (with_guest-known (name_prompt site) (at_login (some (href_of (at_lobby id))))
              (at_lobby id) w n u e
            ∙ (rw unnamed))
        ∙ follow-stays 0 _ _ (
            with_guest-known (λ _. none) (at_login (some (href_of at_choose_name))) at_choose_name w
              n u e))
  ]

  pub me_is : (w : Identity) → (ensure_me parse w).1.me ≡ some (ensure_me parse w).0
  me_is w = elim (Option-cases w.me) [
    | inl e ↦ rw (e, ensure_me)
    | inr (o, e) ↦ rw (e, ensure_me) (e)
  ]

  me_session : (w : Identity) → (ensure_me parse w).1.session ≡ w.session
  me_session w = elim (Option-cases w.me) [
    | inl e ↦ rw (e, ensure_me)
    | inr (o, e) ↦ rw (e, ensure_me)
  ]

  ensured_new :
      (w : Identity)
      → w.me ≡ some none
      → ensured site w ≡ ensured_by (guest_login stringify answer w)
  unfolding ensure_guest_session
  ensured_new w e = rw e

  join_known :
      (id : Text) (w : Identity) (n : ℕ) (u : User)
      → (ensure_me parse w).0 ≡ some u
      → Arrives (lobby_or_name id w) n (follow site 3 (started (at_join id) w n))
  unfolding run_guards
  join_known id w n u h =
      let w' = (ensure_me parse w).1 in
      let known : w'.me ≡ some (some u) = me_is w ∙ ap some h in
      let first =
        follow-goes 2 (started (at_join id) w n) (started (at_lobby id) w' n)
          (ap (λ o. guard_join site id o (asked_me site (started (at_join id) w n))) h) in
      rw (first, known_lobby id w' n u known, me_session w) (refl, omega arith)

  cache_session : (u : User) (w : Identity) → (cache_me stringify u w).session ≡ w.session
  unfolding cache_me
  cache_session u w = elim (Bool-cases (storage_works w)) [ inl y ↦ rw y | inr n ↦ rw n ]

  -- The identity after a guest was made.
  abbrev with_me : User → Identity → Identity
  with_me u w = record (cache_me stringify u w) { me = some (some u) }

  ensured_made :
      (w : Identity) (u : User)
      → w.me ≡ some none
      → answer ≡ resolved u
      → ensured site w ≡ record { asked = true; returned = true; after = with_me u w }
  unfolding guest_login
  ensured_made w u e a = ensured_new w e ∙ (rw a)

  ensured_refused :
      (w : Identity)
      → w.me ≡ some none
      → ((u : User) → answer ≢ resolved u)
      → ensured site w ≡ record { asked = true; returned = false; after = w }
  unfolding guest_login
  ensured_refused w e a = ensured_new w e ∙ by_answer answer a
    where
      by_answer :
          (r : Response User)
          → ((u : User) → r ≢ resolved u)
          → ensured_by (guest_login stringify r w)
            ≡ record { asked = true; returned = false; after = w }
      by_answer (resolved u) n = absurd (n u refl)
      by_answer (rejected t) n = refl

  join_new :
      (id : Text) (w : Identity) (n : ℕ) (u : User)
      → (ensure_me parse w).0 ≡ none
      → answer ≡ resolved u
      → Arrives (lobby_or_name id w) (suc n) (follow site 3 (started (at_join id) w n))
  unfolding run_guards
  join_new id w n u h a =
      let w' = (ensure_me parse w).1 in
      let empty : w'.me ≡ some none = me_is w ∙ ap some h in
      let first =
        follow-goes 2 (started (at_join id) w n)
          (record { at = at_lobby id; identity = with_me u w'; guests = suc n })
          (ap (λ o. guard_join site id o (asked_me site (started (at_join id) w n))) h
            ∙ ap
                (after_guest site (λ _. some (at_lobby id)) (at_login (some (join_path id)))
                  (started (at_join id) w' n))
                (ensured_made w' u empty a)) in
      rw (first, known_lobby id (with_me u w') (suc n) u refl, cache_session u w', me_session w)
        (refl, omega arith)

  me_known : (v : Identity) (o : Option User) → v.me ≡ some o → ensure_me parse v ≡ (o, v)
  me_known v o e =
      ap
        (λ m. elim m as (λ _. Option User × Identity) [
          | some u ↦ (u, v)
          | none ↦ (read_cached_me parse v, record v { me = some (read_cached_me parse v) })
        ])
        e

  join_refused :
      (id : Text) (w : Identity) (n : ℕ)
      → (ensure_me parse w).0 ≡ none
      → ((u : User) → answer ≢ resolved u)
      → follow site 3 (started (at_join id) w n)
        ≡ some (record {
          at = at_login (some (join_path id));
          identity = (ensure_me parse w).1;
          guests = suc n;
        })
  unfolding run_guards
  join_refused id w n h a =
      let w' = (ensure_me parse w).1 in
      let empty : w'.me ≡ some none = me_is w ∙ ap some h in
      let login : Visit = record {
        at = at_login (some (join_path id));
        identity = w';
        guests = suc n;
      } in
      let first = follow-goes 2 (started (at_join id) w n) login (
        ap (λ o. guard_join site id o (asked_me site (started (at_join id) w n))) h
        ∙ ap
            (after_guest site (λ _. some (at_lobby id)) (at_login (some (join_path id)))
              (started (at_join id) w' n))
            (ensured_refused w' empty a)) in
      let again = me_known w' none empty in
      let last = follow-stays 1 login login (
        ap (λ p. guard_login site (some (join_path id)) p.0 (record login { identity = p.1 }))
          again) in
      first ∙ last

  weaken : (l : Location) (n : ℕ) (o : Option Visit) → Arrives l n o → Arrives l (suc n) o
  weaken l n none h = h
  weaken l n (some v) (at, few) = (at, omega (arith, few))

  -- A link to join a lobby, with a server that makes guests, ends at the lobby after one redirect, or
  -- after two at the page of the name for a user whose session has no name yet, whatever the query and the
  -- storage hold; the server is asked for one guest at most.
  pub join_link-Arrives :
      (id : Text) (w : Identity) (n : ℕ) (u : User)
      → answer ≡ resolved u
      → Arrives (lobby_or_name id w) (suc n) (follow site 3 (started (at_join id) w n))
  join_link-Arrives id w n u a = elim (Option-cases (ensure_me parse w).0) [
    | inl new ↦ join_new id w n u new a
    | inr (x, known) ↦
        weaken (lobby_or_name id w) n (follow site 3 (started (at_join id) w n))
          (join_known id w n x known)
  ]

-- Where the query knows no user and the server makes no guest, such a link ends at the login page, which
-- keeps it. Once the server has made a guest there, and if the router takes the kept path for the link, the
-- user gets to the lobby, or to the page of the name, all the same, with three requests at most in all.
pub refused_link_survives :
    (site : Site) (id : Text) (w : Identity) (n : ℕ) (u : User)
    → (ensure_me site.parse w).0 ≡ none
    → ((x : User) → site.answer ≢ resolved x)
    → site.resolve (join_path id) ≡ at_join id
    → (v : Visit) × (follow site 3 (started (at_join id) w n) ≡ some v)
      × (v.at ≡ at_login (some (join_path id)))
      × Arrives
          (lobby_or_name id w)
          (n + 3)
          (follow (record site { answer = resolved u }) 3 (after_login site u v))
unfolding after_login
refused_link_survives site id w n u new no_guest path =
    let v : Visit = record {
      at = at_login (some (join_path id));
      identity = (ensure_me site.parse w).1;
      guests = suc n;
    } in
    let w' = (after_login site u v).identity in
    let arrives =
      join_link-Arrives (record site { answer = resolved u }) id w' (suc (suc n)) u refl in
    let same_place : lobby_or_name id w' ≡ lobby_or_name id w =
      ap (λ s. if has_completed_lobby_name_prompt s then at_lobby id else at_choose_name)
        (cache_session site u (ensure_me site.parse w).1 ∙ me_session site w) in
    let three : suc (suc (suc n)) ≡ n + 3 = omega arith in
    let there : Arrives (lobby_or_name id w) (n + 3)
        (follow (record site { answer = resolved u }) 3 (started (at_join id) w' (suc (suc n)))) =
      rw (← same_place, ← three) arrives in
    (v, join_refused site id w n new no_guest, refl, rw path there)
