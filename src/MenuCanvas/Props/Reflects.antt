-- ===== src/MenuCanvas/Props/Reflects.antt =====
-- What one scene of the menu shows of the props of GameContainer.tsx.
use dot_and_boxes.Prelude.{
  ◌≡◌, refl, ap, ◌∙◌, ◌⊎◌, inl, inr, false, Option, none, some, List, [], ◌∷◌, arith, Bool-cases,
}
use dot_and_boxes.Prelude.Text.{Text, text_eq, text_eq_sound}
use dot_and_boxes.CreateLobby.Slots.{
  Roster, name_is, guests_are, set_names, make_scene, apply_slots, slots_for, apply_slots_lem,
}
use dot_and_boxes.MenuCanvas.Props.{
  Props, Scene, make_menu, write_name, write_guests, names_of, write_props, write_all_props,
}

module _ (to_upper : Text → Text) where
  -- The slots are those of these names.
  pub record IsNamed (p : Props) (r : Roster) : Type 0 where
    pub name : r.display_name ≡ p.display_name
    pub guests : r.guest_names ≡ p.guest_names
    pub slots : r.slots ≡ slots_for to_upper (p.display_name ∷ p.guest_names)

  -- Names and mute states are those of the props; the badge, the ready rim and the pending state are
  -- those of the props or those of a new scene.
  pub record Reflects (p : Props) (x : Scene) : Type 0 where
    pub named : IsNamed p x.roster
    pub sound : x.sound_dimmed ≡ p.initial_sound_muted
    pub music : x.music_dimmed ≡ p.initial_music_muted
    pub badge : (x.badge ≡ p.chat_badge_count) ⊎ (x.badge ≡ 0)
    pub ready : (x.ready_lit ≡ p.ready_highlighted) ⊎ (x.ready_lit ≡ false)
    pub pending : (x.create_pending ≡ p.lobby_create_pending) ⊎ (x.create_pending ≡ false)

  apply_slots-IsNamed :
      (q : Props) (r : Roster)
      → r.display_name ≡ q.display_name
      → r.guest_names ≡ q.guest_names
      → IsNamed q (apply_slots to_upper r)
  unfolding apply_slots
  apply_slots-IsNamed q r a b = record {
    name = a;
    guests = b;
    slots = apply_slots_lem to_upper r ∙ (λ i. slots_for to_upper (a i ∷ b i));
  }

  set_names-IsNamed :
      (q : Props) (r : Roster)
      → IsNamed q (
          set_names to_upper
            (guests_are q.guest_names)
            (set_names to_upper (name_is q.display_name) r))
  unfolding set_names apply_slots
  set_names-IsNamed q r =
      apply_slots-IsNamed q
        (record (set_names to_upper (name_is q.display_name) r) { guest_names = q.guest_names })
        refl refl

  -- With the name of `q` and the guests of `p`, then with both of `q`.
  write_name-IsNamed :
      (p q : Props) (r : Roster)
      → IsNamed p r
      → IsNamed
          (record q { guest_names = p.guest_names })
          (write_name to_upper p.display_name q.display_name r)
  unfolding set_names apply_slots
  write_name-IsNamed p q r i = elim (Bool-cases (text_eq p.display_name q.display_name)) [
    | inl same ↦
        let e = text_eq_sound p.display_name q.display_name same in
        rw same (record {
          name = i.name ∙ e;
          guests = i.guests;
          slots = i.slots ∙ ap (λ n. slots_for to_upper (n ∷ p.guest_names)) e;
        })
    | inr other ↦ rw other (
        apply_slots-IsNamed (record q { guest_names = p.guest_names })
          (record r { display_name = q.display_name }) refl i.guests)
  ]

  write_guests-IsNamed :
      (q : Props) (guests : Option (List Text)) (old : List Text) (r : Roster)
      → IsNamed (record q { guest_names = old }) r
      → IsNamed (record q { guest_names = names_of guests old }) (write_guests to_upper guests r)
  unfolding set_names apply_slots
  write_guests-IsNamed q none old r i = i
  write_guests-IsNamed q (some g) old r i =
      apply_slots-IsNamed (record q { guest_names = g }) (record r { guest_names = g }) i.name refl

  pub make_menu-Reflects : (p : Props) → Reflects p (make_menu to_upper p)
  unfolding make_menu make_scene
  make_menu-Reflects p = record {
    named =
        apply_slots-IsNamed p
          (record { display_name = p.display_name; guest_names = p.guest_names; slots = [] }) refl
          refl;
    sound = refl;
    music = refl;
    badge = inr refl;
    ready = inr refl;
    pending = inr refl;
  }

  pub write_all_props-Reflects : (p : Props) (x : Scene) → Reflects p (write_all_props to_upper p x)
  unfolding write_all_props
  write_all_props-Reflects p x = record {
    named = set_names-IsNamed p x.roster;
    sound = refl;
    music = refl;
    badge = inl refl;
    ready = inl refl;
    pending = inl refl;
  }

  pub write_props-Reflects :
      (p q : Props) (guests : Option (List Text)) (x : Scene)
      → Reflects p x
      → let new = record q { guest_names = names_of guests p.guest_names } in
        Reflects new (write_props to_upper p guests new x)
  unfolding write_props
  write_props-Reflects p q guests x i = record {
    named =
        write_guests-IsNamed q guests p.guest_names
          (write_name to_upper p.display_name q.display_name x.roster)
          (write_name-IsNamed p q x.roster i.named);
    sound = ground (arith, i.sound);
    music = ground (arith, i.music);
    badge = ground (arith, i.badge);
    ready = ground (arith, i.ready);
    pending = ground (arith, i.pending);
  }
