-- ===== src/Socket.antt =====
-- The WebSocket client, web/src/WebSocketContext.tsx. Each run of the effect on `isAuthenticated`
-- has a number, which its callbacks close over: it is cancelled once it is not the mounted one.
-- What the browser holds is in the state too: the calls that await the URL, the sockets that have
-- not fired `close`, and the timeouts that are set. An event whose subject is gone does nothing.
pub mod Attempts
mod Tests
use package.dot_and_boxes.Prelude.{
  ℕ, suc, ◌+◌, Bool, true, false, not, ◌&&◌, Option, none, some, List, [], ◌∷◌, ◌++◌, keep, any,
  map, if◌then◌else◌, ◌==◌,
}

-- A socket that has not fired `close`, and a timeout that is set, with the run that made it.
pub record Socket : Type 0 where
  pub id : ℕ
  pub effect : ℕ

pub record Timeout : Type 0 where
  pub id : ℕ
  pub effect : ℕ

pub record Client : Type 0 where
  -- `socket.current`, `connected`, `subscribers.current` and `reconnectTimeout.current`
  pub socket : Option ℕ
  pub connected : Bool
  pub subscribers : List ℕ
  pub reconnect : Option ℕ
  -- the run of the effect that is not cancelled
  pub mounted : Option ℕ
  -- what the browser holds
  pub awaiting : List ℕ
  pub live : List Socket
  pub opened : List ℕ
  pub timeouts : List Timeout
  pub next : ℕ

abbrev pub new_client : Client
new_client = record {
  socket = none;
  connected = false;
  subscribers = [];
  reconnect = none;
  mounted = none;
  awaiting = [];
  live = [];
  opened = [];
  timeouts = [];
  next = 0;
}

abbrev pub is_mounted : Client → ℕ → Bool
is_mounted c e = elim c.mounted [ none ↦ false | some m ↦ m == e ]

-- The first occurrence taken out.
abbrev pub erase : ℕ → List ℕ → List ℕ
erase e [] = []
erase e (x ∷ xs) = if x == e then xs else x ∷ erase e xs

abbrev pub erase_socket : ℕ → List Socket → List Socket
erase_socket s [] = []
erase_socket s (x ∷ xs) = if x.id == s then xs else x ∷ erase_socket s xs

abbrev pub find_socket : ℕ → List Socket → Option ℕ
find_socket s [] = none
find_socket s (x ∷ xs) = if x.id == s then some x.effect else find_socket s xs

abbrev pub erase_timeout : ℕ → List Timeout → List Timeout
erase_timeout t [] = []
erase_timeout t (x ∷ xs) = if x.id == t then xs else x ∷ erase_timeout t xs

abbrev pub find_timeout : ℕ → List Timeout → Option ℕ
find_timeout t [] = none
find_timeout t (x ∷ xs) = if x.id == t then some x.effect else find_timeout t xs

-- `if (reconnectTimeout.current) { clearTimeout(...); ... = null }`
abbrev pub clear_reconnect : Client → Client
clear_reconnect c = elim c.reconnect [
  | none ↦ c
  | some t ↦ record c { timeouts = erase_timeout t c.timeouts; reconnect = none }
]

-- `scheduleReconnect` of the run `e`.
abbrev pub schedule_reconnect : ℕ → Client → Client
schedule_reconnect e c =
    if is_mounted c e
    then elim c.reconnect [
      | some _ ↦ c
      | none ↦ record c {
        reconnect = some c.next;
        timeouts = record { id = c.next; effect = e } ∷ c.timeouts;
        next = c.next + 1;
      }
    ]
    else c

-- `attemptConnect` of the run `e`, up to its `await`.
abbrev pub attempt_connect : ℕ → Client → Client
attempt_connect e c = if is_mounted c e then record c { awaiting = e ∷ c.awaiting } else c

-- `socket.current.close()`: it is open no more, and fires `close` later.
abbrev pub close_current : Client → Client
close_current c = elim c.socket [
  | none ↦ c
  | some s ↦ record c { opened = erase s c.opened; socket = none }
]

-- The cleanup of the mounted run.
unfoldable pub clean_up : Client → Client
clean_up c =
    let a = close_current (record c { mounted = none }) in
    let b = clear_reconnect (record a { subscribers = [] }) in record b { connected = false }

-- The body of the effect; it runs with nothing mounted.
unfoldable pub run_effect : Bool → Client → Client
run_effect false c = elim c.socket [
  | none ↦ c
  | some s ↦ record (close_current c) { connected = false; subscribers = [] }
]
run_effect true c = attempt_connect c.next (record c { mounted = some c.next; next = c.next + 1 })

-- React runs the cleanup of the last run, if that was an authenticated one, before the next.
unfoldable pub change_auth : Bool → Client → Client
unfolding clean_up run_effect
change_auth auth c =
    run_effect auth (elim c.mounted as (λ _. Client) [ none ↦ c | some _ ↦ clean_up c ])

-- After the `await`, with a URL.
unfoldable pub url_ready : ℕ → Client → Client
url_ready e c =
    let d = record c { awaiting = erase e c.awaiting } in
    if any (λ x. x == e) c.awaiting
    then if is_mounted c e
      then record d {
        live = record { id = d.next; effect = e } ∷ d.live;
        socket = some d.next;
        next = d.next + 1;
      }
      else d
    else c

-- The `catch` block: no URL, or a constructor that throws.
unfoldable pub url_failed : ℕ → Client → Client
url_failed e c =
    if any (λ x. x == e) c.awaiting
    then schedule_reconnect e (record c { awaiting = erase e c.awaiting })
    else c

unfoldable pub on_open : ℕ → Client → Client
on_open s c = elim (find_socket s c.live) [
  | none ↦ c
  | some _ ↦ clear_reconnect (record c { connected = true; opened = s ∷ c.opened })
]

unfoldable pub on_close : ℕ → Client → Client
on_close s c = elim (find_socket s c.live) [
  | none ↦ c
  | some e ↦ schedule_reconnect e (record c {
    connected = false;
    socket = none;
    live = erase_socket s c.live;
    opened = erase s c.opened;
  })
]

-- `ws.close()`
unfoldable pub on_error : ℕ → Client → Client
on_error s c = record c { opened = erase s c.opened }

-- The callback of the timeout.
unfoldable pub on_timeout : ℕ → Client → Client
on_timeout t c = elim (find_timeout t c.timeouts) [
  | none ↦ c
  | some e ↦
      attempt_connect e (record c { timeouts = erase_timeout t c.timeouts; reconnect = none })
]

-- A `Set` keeps one copy, at the place of the first `add`.
unfoldable pub subscribe : ℕ → Client → Client
subscribe k c =
    if any (λ x. x == k) c.subscribers
    then c
    else record c { subscribers = c.subscribers ++ k ∷ [] }

unfoldable pub unsubscribe : ℕ → Client → Client
unsubscribe k c = record c { subscribers = keep (λ x. not (x == k)) c.subscribers }

-- `onmessage`: the subscribers that the message is given to, in order, by any socket.
unfoldable pub on_message : {M : Type 0} → M → Client → List (ℕ × M)
on_message m c = map (λ k. (k, m)) c.subscribers

-- `send`: the socket that the message goes out by, or none, with a warning.
unfoldable pub send : Client → Option ℕ
send c = elim c.socket [
  | none ↦ none
  | some s ↦ if any (λ x. x == s) c.opened then some s else none
]

pub data Event : Type 0 where
  auth : Bool → Event
  url failed opens closes errs fires subscribes unsubscribes : ℕ → Event

unfoldable pub handle : Event → Client → Client
unfolding change_auth url_ready url_failed on_open on_close on_error on_timeout subscribe
    unsubscribe
handle (auth a) c = change_auth a c
handle (url e) c = url_ready e c
handle (failed e) c = url_failed e c
handle (opens s) c = on_open s c
handle (closes s) c = on_close s c
handle (errs s) c = on_error s c
handle (fires t) c = on_timeout t c
handle (subscribes k) c = subscribe k c
handle (unsubscribes k) c = unsubscribe k c

unfoldable pub run : List Event → Client → Client
unfolding handle
run [] c = c
run (e ∷ es) c = run es (handle e c)
