-- ===== src/CreateLobby/Slots.antt =====
-- The slots of the players on the menu: `applySlots` of web/src/pixi/mainMenu/MainMenuScene.ts with the
-- two handlers that call it, over web/src/pixi/mainMenu/PlayerSlot.ts. Upper-casing is a parameter.
use dot_and_boxes.Prelude.{
  ℕ, zero, suc, ◌≤◌, ◌<◌, ◌≡◌, ◌≢◌, refl, ap, sym, ◌∙◌, false, Option, none, some, List, [], ◌∷◌,
  ◌++◌, take, get_elem?, arith, ◌==◌, Bool-cases, inl, inr, Option-cases,
}
use dot_and_boxes.Prelude.Text.{Text, codes, trim, text_eq, text_eq_refl}
use dot_and_boxes.Lobby.Names.{
  or_default, base, numbered, occurrences, assign_unique_display_names,
  assign_unique_display_names_lem,
}
use dot_and_boxes.Lobby.Store.{slot_color_at}

-- What `setEmpty` and `setOccupied` leave in a slot.
pub data Slot : Type 0 where
  waiting : Slot
  occupied : Text → ℕ → Slot

pub record Roster : Type 0 where
  pub display_name : Text
  pub guest_names : List Text
  pub slots : List Slot

-- A call of `setDisplayName` or `setGuestNames`.
pub data Update : Type 0 where
  name_is : Text → Update
  guests_are : List Text → Update

module _ (to_upper : Text → Text) where
  -- The body of the loop for a slot: `labels[i]`, if it is defined and not empty.
  abbrev pub slot_of : ℕ → Option Text → Slot
  slot_of i none = waiting
  slot_of i (some []) = waiting
  slot_of i (some (c ∷ t)) = occupied (to_upper (c ∷ t)) (slot_color_at i)

  -- `applySlots`, which writes all three slots.
  unfoldable pub apply_slots : Roster → Roster
  apply_slots r =
      let labels = assign_unique_display_names (take 3 (r.display_name ∷ r.guest_names)) in
      record r {
        slots =
            slot_of 0 (get_elem? labels 0)
            ∷ slot_of 1 (get_elem? labels 1)
            ∷ slot_of 2 (get_elem? labels 2)
            ∷ [];
      }

  unfoldable pub set_names : Update → Roster → Roster
  unfolding apply_slots
  set_names (name_is name) r = apply_slots (record r { display_name = name })
  set_names (guests_are names) r = apply_slots (record r { guest_names = names })

  unfoldable pub set_all_names : List Update → Roster → Roster
  unfolding set_names
  set_all_names [] r = r
  set_all_names (u ∷ us) r = set_all_names us (set_names u r)

-- The scene is made with the user's name and the names of guests.
unfoldable pub make_scene : (Text → Text) → Text → List Text → Roster
unfolding apply_slots
make_scene to_upper name guests =
    apply_slots to_upper (record { display_name = name; guest_names = guests; slots = [] })

or_default-ne-nil : (s d : Text) → d ≢ [] → or_default s d ≢ []
or_default-ne-nil [] d h = h
or_default-ne-nil (c ∷ s) d h = λ e. cc

numbered-ne-nil : (raw : Text) (n : ℕ) → numbered (base raw) n ≢ []
unfolding base
numbered-ne-nil raw n h =
    or_default-ne-nil (trim raw) (codes "Player") (λ e. cc) (of_numbered (base raw) n h)
  where
    of_append : (s t : Text) → s ++ t ≡ [] → s ≡ []
    of_append [] t h = refl
    of_append (c ∷ s) t h = cc

    of_numbered : (b : Text) (n : ℕ) → numbered b n ≡ [] → b ≡ []
    of_numbered b n h = elim (Bool-cases (n == 1)) [
      | inl one ↦ rw one at h
      | inr more ↦ of_append b _ (of_append _ _ (of_append _ (codes ")") (rw more at h)))
    ]

get_elem?-take :
    (n i : ℕ) (names : List Text) → i < n → get_elem? (take n names) i ≡ get_elem? names i
get_elem?-take zero i names h = elim h [ ]
get_elem?-take (suc n) i [] h = refl
get_elem?-take (suc n) zero (x ∷ names) h = refl
get_elem?-take (suc n) (suc i) (x ∷ names) h = get_elem?-take n i names (omega (arith, h))

take-take : (n i : ℕ) (names : List Text) → i ≤ n → take i (take n names) ≡ take i names
take-take n zero names h = refl
take-take zero (suc i) names h = absurd (omega (arith, h))
take-take (suc n) (suc i) [] h = refl
take-take (suc n) (suc i) (x ∷ names) h = ap (λ t. x ∷ t) (take-take n i names (omega (arith, h)))

module _ (to_upper : Text → Text) where
  -- The slot at place `i` for these names: the name there with the number of its occurrence.
  abbrev pub slot_for : List Text → ℕ → Slot
  slot_for names i = elim (get_elem? names i) as (λ _. Slot) [
    | none ↦ waiting
    | some raw ↦
        occupied (to_upper (numbered (base raw) (occurrences (base raw) (take (suc i) names))))
          (slot_color_at i)
  ]

  slot_of-some :
      (i : ℕ) (t : Text)
      → t ≢ []
      → slot_of to_upper i (some t) ≡ occupied (to_upper t) (slot_color_at i)
  slot_of-some i [] h = absurd (h refl)
  slot_of-some i (c ∷ t) h = refl

  slot_of_label :
      (i : ℕ) (names : List Text)
      → i < 3
      → slot_of to_upper i (get_elem? (assign_unique_display_names (take 3 names)) i)
        ≡ slot_for names i
  slot_of_label i names h =
      rw
        (
          assign_unique_display_names_lem (take 3 names) i,
          get_elem?-take 3 i names h,
          take-take 3 (suc i) names (omega (arith, h)),
        )
        (elim (Option-cases (get_elem? names i)) [
          | inl gone ↦ rw (gone, slot_for)
          | inr (raw, there) ↦ rw (there, slot_for) (slot_of-some i _ (numbered-ne-nil raw _))
        ])

  abbrev pub slots_for : List Text → List Slot
  slots_for names = slot_for names 0 ∷ slot_for names 1 ∷ slot_for names 2 ∷ []

  pub apply_slots_lem :
      (r : Roster) → (apply_slots to_upper r).slots ≡ slots_for (r.display_name ∷ r.guest_names)
  unfolding apply_slots
  apply_slots_lem r =
      let names = r.display_name ∷ r.guest_names in
      let a = slot_of_label 0 names (omega arith) in
      let b = slot_of_label 1 names (omega arith) in
      let c = slot_of_label 2 names (omega arith) in cc (a, b, c)

-- The names that the last updates gave.
abbrev pub last_name : Text → List Update → Text
last_name name [] = name
last_name name (name_is n ∷ us) = last_name n us
last_name name (guests_are g ∷ us) = last_name name us

abbrev pub last_guests : List Text → List Update → List Text
last_guests guests [] = guests
last_guests guests (name_is n ∷ us) = last_guests guests us
last_guests guests (guests_are g ∷ us) = last_guests g us

module _ (to_upper : Text → Text) where
  set_all_names-slots :
      (us : List Update) (r : Roster)
      → r.slots ≡ slots_for to_upper (r.display_name ∷ r.guest_names)
      → (set_all_names to_upper us r).slots
        ≡ slots_for to_upper (last_name r.display_name us ∷ last_guests r.guest_names us)
  unfolding set_all_names set_names apply_slots
  set_all_names-slots [] r h = h
  set_all_names-slots (name_is n ∷ us) r h =
      let r' = record r { display_name = n } in
      set_all_names-slots us (apply_slots to_upper r') (apply_slots_lem to_upper r')
  set_all_names-slots (guests_are g ∷ us) r h =
      let r' = record r { guest_names = g } in
      set_all_names-slots us (apply_slots to_upper r') (apply_slots_lem to_upper r')

  -- After any calls of `setDisplayName` and `setGuestNames` the three slots show the names that were
  -- given last, the user's first: the slot at a place is occupied by the trimmed name at this place, or by
  -- `Player` for a blank one, with the number of its occurrence from the second on, in upper case and in
  -- the colour of the place; a slot with no name waits, and the names after the third are not shown.
  pub scene-slots :
      (us : List Update) (name : Text) (guests : List Text)
      → (set_all_names to_upper us (make_scene to_upper name guests)).slots
        ≡ slots_for to_upper (last_name name us ∷ last_guests guests us)
  unfolding make_scene apply_slots
  scene-slots us name guests =
      let r : Roster = record { display_name = name; guest_names = guests; slots = [] } in
      set_all_names-slots us (make_scene to_upper name guests) (apply_slots_lem to_upper r)

numbered-longer : (b : Text) → text_eq b (numbered b 2) ≡ false
numbered-longer [] = refl
numbered-longer (c ∷ b) = ground (arith, numbered-longer b)

-- The labels are not always unique, which `assignUniqueDisplayNames` is named for: a user called as the
-- second of two equal names is numbered, `Name(2)`, gets the same label as that one.
pub labels_collide :
    (b : Text)
    → base b ≡ b
    → base (numbered b 2) ≡ numbered b 2
    → get_elem? (assign_unique_display_names (b ∷ b ∷ numbered b 2 ∷ [])) 1
      ≡ get_elem? (assign_unique_display_names (b ∷ b ∷ numbered b 2 ∷ [])) 2
labels_collide b h k =
    assign_unique_display_names_lem (b ∷ b ∷ numbered b 2 ∷ []) 1
    ∙ (rw (h, k, text_eq_refl b, text_eq_refl (numbered b 2), numbered-longer b))
    ∙ sym (assign_unique_display_names_lem (b ∷ b ∷ numbered b 2 ∷ []) 2)
