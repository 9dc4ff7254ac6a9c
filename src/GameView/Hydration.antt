-- ===== src/GameView/Hydration.antt =====
-- The timer of the page in $gameID.tsx: `fetchGameTimer` of web/src/api/fetchGameTimer.ts on a reload and
-- on a new connection, beside the messages `game:timer`. Each run of the effect has a number; its reply
-- is dropped once it is not the last run.
use dot_and_boxes.Prelude.{
  ℕ, ◌+◌, ◌<◌, ◌≡◌, refl, ap, ==_iff, ◌∙◌, inl, inr, Bool, false, Option, none, some, List, [], ◌∷◌,
  arith, if◌then◌else◌, ◌==◌, Bool-cases,
}
use dot_and_boxes.Messages.{TimerStatePayload}
use dot_and_boxes.Game.Timer.{normalize_timer_payload}

-- How the request ends: with a timer, with an error of axios and its status, or with another error.
pub data TimerReply : Type 0 where
  timer : TimerStatePayload → TimerReply
  axios_error : Option ℕ → TimerReply
  other_error : TimerReply

-- `fetchGameTimer`: a timer, `null` for the status 404, or a throw.
pub data Fetched : Type 0 where
  found : TimerStatePayload → Fetched
  no_timer throws : Fetched

unfoldable pub fetch_game_timer : TimerReply → Fetched
fetch_game_timer (timer t) = found t
fetch_game_timer (axios_error none) = throws
fetch_game_timer (axios_error (some status)) = if status == 404 then no_timer else throws
fetch_game_timer other_error = throws

pub record Hydration : Type 0 where
  -- `timerState`, and the ref beside it
  pub timer_state : Option TimerStatePayload
  -- the run that is not cancelled, and the number of the next
  pub running : Option ℕ
  pub next : ℕ

-- The effect, with whether there are an id and a game.
unfoldable pub start_hydration : Bool → Hydration → Hydration
start_hydration ready h =
    if ready
    then record h { running = some h.next; next = h.next + 1 }
    else record h { running = none }

abbrev pub is_running : ℕ → Option ℕ → Bool
is_running k none = false
is_running k (some r) = r == k

abbrev pub set_timer : Fetched → Hydration → Hydration
set_timer (found t) h = record h { timer_state = some (normalize_timer_payload t) }
set_timer no_timer h = record h { timer_state = none }
set_timer throws h = h

-- The `then` of the run `k`.
unfoldable pub end_hydration : ℕ → TimerReply → Hydration → Hydration
unfolding fetch_game_timer
end_hydration k reply h = if is_running k h.running then set_timer (fetch_game_timer reply) h else h

-- A message `game:timer`.
unfoldable pub receive_timer : TimerStatePayload → Hydration → Hydration
receive_timer t h = record h { timer_state = some (normalize_timer_payload t) }

pub data TimerEvent : Type 0 where
  effect_runs : Bool → TimerEvent
  unmounts : TimerEvent
  replies : ℕ → TimerReply → TimerEvent
  ticks : TimerStatePayload → TimerEvent

unfoldable pub handle_timer : TimerEvent → Hydration → Hydration
unfolding start_hydration end_hydration receive_timer
handle_timer (effect_runs ready) h = start_hydration ready h
handle_timer unmounts h = record h { running = none }
handle_timer (replies k reply) h = end_hydration k reply h
handle_timer (ticks t) h = receive_timer t h

unfoldable pub run_timer : List TimerEvent → Hydration → Hydration
unfolding handle_timer
run_timer [] h = h
run_timer (e ∷ es) h = run_timer es (handle_timer e h)

-- No run with this number is to come, and it is not the one under way.
record IsStale (k : ℕ) (h : Hydration) : Type 0 where
  old : k < h.next
  over : is_running k h.running ≡ false

-- The events without the replies of the run `k`.
abbrev pub without : ℕ → List TimerEvent → List TimerEvent
without k [] = []
without k (replies j reply ∷ es) = if j == k then without k es else replies j reply ∷ without k es
without k (e ∷ es) = e ∷ without k es

module _ (k : ℕ) where
  handle_timer-IsStale :
      (e : TimerEvent) (h : Hydration) → IsStale k h → IsStale k (handle_timer e h)
  unfolding handle_timer start_hydration end_hydration receive_timer fetch_game_timer
  handle_timer-IsStale e h s = record {
    old = ground (arith, s.old);
    over = ground (arith, s.old, s.over);
  }

  stale_reply :
      (reply : TimerReply) (h : Hydration) → IsStale k h → handle_timer (replies k reply) h ≡ h
  unfolding handle_timer end_hydration
  stale_reply reply h s = rw s.over refl

  run_timer-without :
      (es : List TimerEvent) (h : Hydration)
      → IsStale k h
      → run_timer es h ≡ run_timer (without k es) h
  unfolding run_timer
  run_timer-without [] h s = refl
  run_timer-without (effect_runs ready ∷ es) h s =
      run_timer-without es _ (handle_timer-IsStale (effect_runs ready) h s)
  run_timer-without (unmounts ∷ es) h s = run_timer-without es _ (handle_timer-IsStale unmounts h s)
  run_timer-without (ticks t ∷ es) h s = run_timer-without es _ (handle_timer-IsStale (ticks t) h s)
  run_timer-without (replies j reply ∷ es) h s = elim (Bool-cases (j == k)) [
    | inl y ↦
        rw (y, without)
          (ap (run_timer es) (
              ap (λ i. handle_timer (replies i reply) h) ((==_iff j k).0 y) ∙ stale_reply reply h s)
            ∙ run_timer-without es h s)
    | inr n ↦ rw (n, without) (run_timer-without es _ (handle_timer-IsStale (replies j reply) h s))
  ]

abbrev pub new_hydration : Hydration
new_hydration = record { timer_state = none; running = none; next = 0 }

-- The run under way has a number below the next.
abbrev IsOld : Hydration → Type 0
IsOld h = (k : ℕ) → h.running ≡ some k → k < h.next

handle_timer-IsOld : (e : TimerEvent) (h : Hydration) → IsOld h → IsOld (handle_timer e h)
unfolding handle_timer start_hydration end_hydration receive_timer fetch_game_timer
handle_timer-IsOld e h o k r = ground (arith, o k, r)

run_timer-IsOld : (es : List TimerEvent) (h : Hydration) → IsOld h → IsOld (run_timer es h)
unfolding run_timer
run_timer-IsOld [] h o = o
run_timer-IsOld (e ∷ es) h o = run_timer-IsOld es (handle_timer e h) (handle_timer-IsOld e h o)

restart-IsStale :
    (k : ℕ) (ready : Bool) (h : Hydration)
    → IsOld h
    → h.running ≡ some k
    → IsStale k (start_hydration ready h)
unfolding start_hydration
restart-IsStale k ready h o r = record { old = ground (arith, o k r); over = ground (arith, o k r) }

-- After any events, once the effect runs again, for another game or connection or for none, whatever
-- the run before it still replies makes no difference, over any events that follow.
pub late_replies :
    (before after : List TimerEvent) (k : ℕ) (ready : Bool)
    → (run_timer before new_hydration).running ≡ some k
    → run_timer (effect_runs ready ∷ after) (run_timer before new_hydration)
      ≡ run_timer (effect_runs ready ∷ without k after) (run_timer before new_hydration)
unfolding run_timer handle_timer
late_replies before after k ready r =
    let h = run_timer before new_hydration in
    let o : IsOld h = run_timer-IsOld before new_hydration (λ j e. absurd (cc)) in
    run_timer-without k after (start_hydration ready h) (restart-IsStale k ready h o r)

-- The reply of the run under way replaces a timer that a message brought after the request was sent: by
-- an older one, or by none where the server had no timer then.
pub reply_overwrites :
    (k : ℕ) (tick old : TimerStatePayload) (h : Hydration)
    → h.running ≡ some k
    → ((run_timer (ticks tick ∷ replies k (timer old) ∷ []) h).timer_state
        ≡ some (normalize_timer_payload old))
      × ((run_timer (ticks tick ∷ replies k (axios_error (some 404)) ∷ []) h).timer_state ≡ none)
unfolding run_timer handle_timer end_hydration receive_timer fetch_game_timer
reply_overwrites k tick old h r =
    let same = (==_iff k k).1 refl in (rw (r, same) refl, rw (r, same) refl)
