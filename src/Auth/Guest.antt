-- ===== src/Auth/Guest.antt =====
-- The guest that web/src/api/fetchUser.ts makes sure of, on a second call, after a reload, and after
-- the logout.
use dot_and_boxes.Prelude.{
  ◌≡◌, refl, ◌∙◌, ◌≢◌, inl, inr, true, false, Option, none, some, [], ◌∷◌, Bool-cases,
}
use dot_and_boxes.Prelude.Text.{Text}
use dot_and_boxes.Lobby.Requests.{Response, resolved, rejected}
use dot_and_boxes.Auth.{
  User, Parsed, a_user, Identity, storage_works, cache_me, clear_cached_me, read_cached_me,
  user_of_item, user_of, guest_login, Ensured, ensured_by, ensure_me, ensure_guest_session, log_out,
  forget_lobby,
}

-- The page loaded again: the query cache is empty, the storage is as it was.
abbrev pub reload : Identity → Identity
reload w = record w { me = none }

module _ (stringify : User → Text) (parse : Text → Parsed) where
  known :
      (u : User) (w : Identity) (r : Response User)
      → w.me ≡ some (some u)
      → ensure_guest_session stringify parse r w
        ≡ record { asked = false; returned = true; after = w }
  unfolding ensure_guest_session
  known u w r e = rw e

  agrees :
      (w : Identity) (u : User)
      → (ensure_me parse w).0 ≡ some u
      → (ensure_me parse w).1.me ≡ some (some u)
  agrees w u h = by_entry w.me refl h
    where
      by_entry :
          (o : Option (Option User))
          → w.me ≡ o
          → (elim o as (λ _. Option User × Identity) [
            | some x ↦ (x, w)
            | none ↦ (read_cached_me parse w, record w { me = some (read_cached_me parse w) })
          ]).0
            ≡ some u
          → (elim o as (λ _. Option User × Identity) [
            | some x ↦ (x, w)
            | none ↦ (read_cached_me parse w, record w { me = some (read_cached_me parse w) })
          ]).1.me
            ≡ some (some u)
      by_entry (some x) e k = rw (e, k)
      by_entry none e k = rw k

  has_user :
      (r : Response User) (w : Identity)
      → (ensure_guest_session stringify parse r w).returned ≡ true
      → (u : User) × ((ensure_guest_session stringify parse r w).after.me ≡ some (some u))
  unfolding ensure_guest_session
  has_user r w h = by_pair (ensure_me parse w).0 (ensure_me parse w).1 r (agrees w) h
    where
      by_pair :
          (x : Option User) (v : Identity) (r : Response User)
          → ((u : User) → x ≡ some u → v.me ≡ some (some u))
          → (elim x as (λ _. Ensured) [
            | some u ↦ record { asked = false; returned = true; after = v }
            | none ↦ ensured_by (guest_login stringify r v)
          ]).returned
            ≡ true
          → (u : User) × ((elim x as (λ _. Ensured) [
            | some u ↦ record { asked = false; returned = true; after = v }
            | none ↦ ensured_by (guest_login stringify r v)
          ]).after.me
              ≡ some (some u))
      by_pair (some u) v r agree k = (u, agree u refl)
      by_pair none v (resolved u) agree k = (u, refl)
      by_pair none v (rejected e) agree k = absurd (cc)

  -- If a call of `ensureGuestSession` returns, the query has a user then, and a second call, with
  -- any answer of the server, asks for no guest and leaves everything as it is.
  pub ensure_guest_session_twice :
      (r : Response User) (w : Identity) (r' : Response User)
      → (ensure_guest_session stringify parse r w).returned ≡ true
      → let w' = (ensure_guest_session stringify parse r w).after in
        ((u : User) × (w'.me ≡ some (some u)))
        × (ensure_guest_session stringify parse r' w'
            ≡ record { asked = false; returned = true; after = w' })
  ensure_guest_session_twice r w r' h =
      let (u, e) = has_user r w h in
      ((u, e), known u (ensure_guest_session stringify parse r w).after r' e)

  gone : (w : Identity) → read_cached_me parse (clear_cached_me w) ≡ none
  unfolding read_cached_me clear_cached_me
  gone w = elim (Bool-cases (storage_works w)) [ inl y ↦ rw (y, y) | inr n ↦ rw (n, n) ]

  asks :
      (w : Identity) (r : Response User)
      → w.me ≡ some none
      → (ensure_guest_session stringify parse r w).asked ≡ true
  unfolding ensure_guest_session
  asks w (resolved u) e = rw e
  asks w (rejected t) e = rw e

  none_left : (w : Identity) → (log_out parse w).me ≡ some none
  unfolding log_out
  none_left w = rw (gone (forget_lobby w))

  -- After the logout, with or without storage, the query holds that there is no user, and the next
  -- call of `ensureGuestSession`, with any answer of the server, asks for a guest.
  pub log_out_lem :
      (w : Identity) (r : Response User)
      → ((log_out parse w).me ≡ some none)
        × ((ensure_guest_session stringify parse r (log_out parse w)).asked ≡ true)
  log_out_lem w r = (none_left w, asks (log_out parse w) r (none_left w))

  item : (t : Text) → t ≢ [] → user_of_item parse (some t) ≡ user_of (parse t)
  item [] n = absurd (n refl)
  item (c ∷ s) n = refl

  reads_back :
      (u : User) (v : Identity)
      → parse (stringify u) ≡ a_user u
      → stringify u ≢ []
      → storage_works v ≡ true
      → read_cached_me parse (reload (cache_me stringify u v)) ≡ some u
  unfolding read_cached_me cache_me
  reads_back u v law text works = rw (works, works, item (stringify u) text, law)

  keeps_storage : (w : Identity) → storage_works (ensure_me parse w).1 ≡ storage_works w
  keeps_storage w = by_entry w.me
    where
      by_entry :
          (o : Option (Option User))
          → storage_works
              (elim o as (λ _. Option User × Identity) [
                | some x ↦ (x, w)
                | none ↦ (read_cached_me parse w, record w { me = some (read_cached_me parse w) })
              ]).1
            ≡ storage_works w
      by_entry (some x) = refl
      by_entry none = refl

  first_call :
      (u : User) (w : Identity)
      → (ensure_me parse w).0 ≡ none
      → ensure_guest_session stringify parse (resolved u) w ≡ record {
        asked = true;
        returned = true;
        after = record (cache_me stringify u (ensure_me parse w).1) { me = some (some u) };
      }
  unfolding ensure_guest_session guest_login
  first_call u w new = rw (ensure_guest_session, new)

  after_reload :
      (u : User) (v : Identity) (r : Response User)
      → read_cached_me parse (reload v) ≡ some u
      → let again = ensure_guest_session stringify parse r (reload v) in
        (again.asked ≡ false) × (again.after.me ≡ some (some u))
  unfolding ensure_guest_session
  after_reload u v r f =
      (rw (ensure_guest_session, f), rw (ensure_guest_session, f) (agrees (reload v) u f))

  -- With storage, and where no user is known, the guest that the server gives to
  -- `ensureGuestSession` is still the user after a reload, if `parse` reads back what `stringify`
  -- writes for this guest, which is not empty: a further call, with any answer of the server, asks
  -- for no other.
  pub guest_stays :
      (u : User) (w : Identity) (r : Response User)
      → parse (stringify u) ≡ a_user u
      → stringify u ≢ []
      → storage_works w ≡ true
      → (ensure_me parse w).0 ≡ none
      → let first = ensure_guest_session stringify parse (resolved u) w in
        let again = ensure_guest_session stringify parse r (reload first.after) in
        (first.asked ≡ true) × (again.asked ≡ false) × (again.after.me ≡ some (some u))
  guest_stays u w r law text works new =
      let v = (ensure_me parse w).1 in
      let back = reads_back u v law text (keeps_storage w ∙ works) in
      let (quiet, same) = after_reload u (cache_me stringify u v) r back in
      rw (first_call u w new) (refl, quiet, same)
