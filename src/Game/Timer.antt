-- ===== src/Game/Timer.antt =====
-- The turn timers of web/src/routes/game/$gameID.tsx: `normalizeTimerPayload`, and the look-ups by
-- user.
use dot_and_boxes.Prelude.{
  ℕ, ◌≡◌, refl, ap, ◌≢◌, inl, inr, Bool-cases, Bool, false, Option, none, some, List, [], ◌∷◌, map,
  find, arith, ◌==◌, if◌then◌else◌,
}
use dot_and_boxes.Prelude.Int.{ℤ, pos, min_ℤ, max_ℤ, ◌≤ℤ◌}
use dot_and_boxes.Messages.{TimerStatePayload, PlayerTimerInfo}

-- `DEFAULT_TURN_LIMIT_MS`
abbrev pub default_turn_limit_ms : ℤ
default_turn_limit_ms = pos 5000

abbrev pub limit_of : TimerStatePayload → ℤ
limit_of t = elim t.turn_limit_ms [ none ↦ default_turn_limit_ms | some l ↦ l ]

abbrev pub clamp_player : ℕ → ℤ → PlayerTimerInfo → PlayerTimerInfo
clamp_player active limit p = record p {
  remaining_ms =
      if p.turn_order == active then min_ℤ (max_ℤ (pos 0) p.remaining_ms) limit else p.remaining_ms;
}

unfoldable pub normalize_timer_payload : TimerStatePayload → TimerStatePayload
normalize_timer_payload raw = record raw {
  turn_limit_ms = some (limit_of raw);
  players = map (clamp_player raw.active_turn (limit_of raw)) raw.players;
}

-- `getPlayerTime` and `isPlayerDisconnected`
unfoldable pub get_player_time : Option TimerStatePayload → ℕ → Option ℤ
get_player_time none uid = none
get_player_time (some t) uid = elim (find (λ p. p.user_id == uid) t.players) [
  | none ↦ none
  | some p ↦ some p.remaining_ms
]

unfoldable pub is_player_disconnected : Option TimerStatePayload → ℕ → Bool
is_player_disconnected none uid = false
is_player_disconnected (some t) uid = elim (find (λ p. p.user_id == uid) t.players) [
  | none ↦ false
  | some p ↦ p.disconnected
]

-- A time between nothing and the limit.
abbrev pub IsWithin : ℤ → PlayerTimerInfo → Type 0
IsWithin limit p = (pos 0 ≤ℤ p.remaining_ms) × (p.remaining_ms ≤ℤ limit)

-- What the normalised timer of one player is, given the one received.
pub record Clamped (active : ℕ) (limit : ℤ) (p q : PlayerTimerInfo) : Type 0 where
  pub within : p.turn_order ≡ active → IsWithin limit q
  pub kept : IsWithin limit p → q ≡ p
  pub others : p.turn_order ≢ active → q ≡ p
  pub same_turn : q.turn_order ≡ p.turn_order
  pub same_user : q.user_id ≡ p.user_id
  pub same_flag : q.disconnected ≡ p.disconnected

abbrev pub AllClamped : ℕ → ℤ → List PlayerTimerInfo → List PlayerTimerInfo → Type 0
AllClamped active limit [] [] = Unit
AllClamped active limit (p ∷ ps) (q ∷ qs) = Clamped active limit p q × AllClamped active limit ps qs
AllClamped active limit _ _ = ⊥

clamp_player-Clamped :
    (active : ℕ) (limit : ℤ) (p : PlayerTimerInfo)
    → pos 0 ≤ℤ limit
    → Clamped active limit p (clamp_player active limit p)
clamp_player-Clamped active limit p h = ground arith

map-AllClamped :
    (active : ℕ) (limit : ℤ) (ps : List PlayerTimerInfo)
    → pos 0 ≤ℤ limit
    → AllClamped active limit ps (map (clamp_player active limit) ps)
map-AllClamped active limit [] h = tt
map-AllClamped active limit (p ∷ ps) h =
    (clamp_player-Clamped active limit p h, map-AllClamped active limit ps h)

-- With a limit of zero or more (5000 ms where the server sends none), the normalised payload
-- states the limit, and its players are those received, in order: the one whose turn it is has a
-- time between zero and the limit, a time within these is kept, and so is every other player.
pub normalize_timer_payload-Clamped :
    (t : TimerStatePayload)
    → pos 0 ≤ℤ limit_of t
    → ((normalize_timer_payload t).turn_limit_ms ≡ some (limit_of t))
      × AllClamped t.active_turn (limit_of t) t.players (normalize_timer_payload t).players
unfolding normalize_timer_payload
normalize_timer_payload-Clamped t h = (refl, map-AllClamped t.active_turn (limit_of t) t.players h)

clamp_idem :
    (x limit : ℤ)
    → min_ℤ (max_ℤ (pos 0) (min_ℤ (max_ℤ (pos 0) x) limit)) limit ≡ min_ℤ (max_ℤ (pos 0) x) limit
clamp_idem x limit = ground arith

clamp_player_idem :
    (active : ℕ) (limit : ℤ) (p : PlayerTimerInfo)
    → clamp_player active limit (clamp_player active limit p) ≡ clamp_player active limit p
clamp_player_idem active limit p =
    ap (λ x. record p { remaining_ms = x })
      (elim (Bool-cases (p.turn_order == active)) [
        | inl e ↦ rw e (clamp_idem p.remaining_ms limit)
        | inr n ↦ rw n
      ])

map-clamp_player_idem :
    (active : ℕ) (limit : ℤ) (ps : List PlayerTimerInfo)
    → map (clamp_player active limit) (map (clamp_player active limit) ps)
      ≡ map (clamp_player active limit) ps
map-clamp_player_idem active limit [] = refl
map-clamp_player_idem active limit (p ∷ ps) =
    cc (clamp_player_idem active limit p, map-clamp_player_idem active limit ps)

-- A payload that is normalised already stays as it is.
pub normalize_timer_payload_idem :
    (t : TimerStatePayload)
    → normalize_timer_payload (normalize_timer_payload t) ≡ normalize_timer_payload t
unfolding normalize_timer_payload
normalize_timer_payload_idem t =
    ap (λ ps. record t { turn_limit_ms = some (limit_of t); players = ps })
      (map-clamp_player_idem t.active_turn (limit_of t) t.players)
