-- ===== src/Socket/Attempts.antt =====
-- The ways to a connection that are under way in web/src/WebSocketContext.tsx: the calls that await
-- the URL, the sockets that have not closed, and the timeouts that are set; and late `close` events.
use dot_and_boxes.Prelude.{
  ℕ, ◌+◌, ◌≤◌, ◌<◌, ◌≡◌, refl, ◌≢◌, Bool, true, false, Option, none, some, List, [], ◌∷◌, any,
  length, arith, ◌==◌, if◌then◌else◌,
}
use dot_and_boxes.Socket.{
  Client, Socket, Timeout, new_client, erase, erase_socket, find_socket, clean_up, run_effect,
  change_auth, url_ready, url_failed, on_open, on_close, on_error, on_timeout, send, subscribe,
  unsubscribe, Event, auth, url, failed, opens, closes, errs, fires, subscribes, unsubscribes,
  handle, run,
}

abbrev pub count : ℕ → List ℕ → ℕ
count e [] = 0
count e (x ∷ xs) = (if x == e then 1 else 0) + count e xs

abbrev pub count_sockets : ℕ → List Socket → ℕ
count_sockets e [] = 0
count_sockets e (x ∷ xs) = (if x.effect == e then 1 else 0) + count_sockets e xs

-- The timeouts that are set are the one that `reconnectTimeout` holds, of the mounted run.
abbrev pub TimeoutsMatch : Option ℕ → Option ℕ → List Timeout → Type 0
TimeoutsMatch m none ts = ts ≡ []
TimeoutsMatch (some e) (some t) ts = ts ≡ record { id = t; effect = e } ∷ []
TimeoutsMatch none (some t) ts = ⊥

abbrev pub attempts : ℕ → Client → ℕ
attempts e c = count e c.awaiting + count_sockets e c.live + length c.timeouts

pub record Inv (c : Client) : Type 0 where
  pub timeouts_match : TimeoutsMatch c.mounted c.reconnect c.timeouts
  pub one_attempt : (e : ℕ) → c.mounted ≡ some e → attempts e c ≡ 1
  pub fresh : (e : ℕ) → c.next ≤ e → (count e c.awaiting ≡ 0) × (count_sockets e c.live ≡ 0)
  pub mounted_old : (e : ℕ) → c.mounted ≡ some e → e < c.next

count-erase :
    (e k : ℕ) (xs : List ℕ)
    → any (λ x. x == k) xs ≡ true
    → count e (erase k xs) + (if k == e then 1 else 0) ≡ count e xs
count-erase e k [] h = cc
count-erase e k (x ∷ xs) h = ground (arith, count-erase e k xs)

count-erase-le : (e k : ℕ) (xs : List ℕ) → count e (erase k xs) ≤ count e xs
count-erase-le e k [] = omega arith
count-erase-le e k (x ∷ xs) = ground (arith, count-erase-le e k xs)

-- How much the run of a socket that may be there counts.
abbrev counted : ℕ → Option ℕ → ℕ
counted e none = 0
counted e (some k) = if k == e then 1 else 0

count-erase_socket :
    (e s : ℕ) (xs : List Socket)
    → count_sockets e (erase_socket s xs) + counted e (find_socket s xs) ≡ count_sockets e xs
count-erase_socket e s [] = refl
count-erase_socket e s (x ∷ xs) = ground (arith, count-erase_socket e s xs)

-- A socket that may be there is of the run that is mounted.
abbrev pub IsCurrent : Option ℕ → Option ℕ → Type 0
IsCurrent none m = Unit
IsCurrent (some e) m = m ≡ some e

new_client-Inv : Inv new_client
new_client-Inv = record {
  timeouts_match = refl;
  one_attempt = λ e h. cc;
  fresh = λ e h. (refl, refl);
  mounted_old = λ e h. cc;
}

module _ (c : Client) (i : Inv c) where
  url_ready-Inv : (e : ℕ) → Inv (url_ready e c)
  unfolding url_ready
  url_ready-Inv e = record {
    timeouts_match = ground (arith, i.timeouts_match);
    one_attempt =
        λ k h. ground (arith, i.one_attempt k, count-erase k e c.awaiting, i.mounted_old k);
    fresh = λ k h. ground (arith, i.fresh k, i.mounted_old e, count-erase-le k e c.awaiting);
    mounted_old = λ k h. ground (arith, i.mounted_old k);
  }

  url_failed-Inv : (e : ℕ) → Inv (url_failed e c)
  unfolding url_failed
  url_failed-Inv e = record {
    timeouts_match = ground (arith, i.timeouts_match, i.one_attempt e, count-erase e e c.awaiting);
    one_attempt =
        λ k h. ground (arith, i.timeouts_match, i.one_attempt k, count-erase k e c.awaiting);
    fresh = λ k h. ground (arith, i.fresh k, i.mounted_old e, count-erase-le k e c.awaiting);
    mounted_old = λ k h. ground (arith, i.mounted_old k);
  }

  on_open-Inv : (s : ℕ) → IsCurrent (find_socket s c.live) c.mounted → Inv (on_open s c)
  unfolding on_open
  on_open-Inv s current = record {
    timeouts_match = ground (arith, i.timeouts_match);
    one_attempt = λ k h.
        ground (arith, i.timeouts_match, i.one_attempt k, current, count-erase_socket k s c.live);
    fresh = λ k h. ground (arith, i.fresh k);
    mounted_old = λ k h. ground (arith, i.mounted_old k);
  }

  on_close-Inv : (s : ℕ) → Inv (on_close s c)
  unfolding on_close
  on_close-Inv s = record {
    timeouts_match = ground (arith, i.timeouts_match);
    one_attempt =
        λ k h. ground (arith, i.timeouts_match, i.one_attempt k, count-erase_socket k s c.live);
    fresh = λ k h. ground (arith, i.fresh k, count-erase_socket k s c.live);
    mounted_old = λ k h. ground (arith, i.mounted_old k);
  }

  change_auth-Inv : (a : Bool) → Inv (change_auth a c)
  unfolding change_auth clean_up run_effect
  change_auth-Inv a = record {
    timeouts_match = ground (arith, i.timeouts_match);
    one_attempt = λ k h. ground (arith, i.timeouts_match, i.one_attempt k, i.fresh c.next);
    fresh = λ k h. ground (arith, i.fresh k, i.timeouts_match);
    mounted_old = λ k h. ground (arith, i.mounted_old k);
  }

  subscribe-Inv : (k : ℕ) → Inv (subscribe k c)
  unfolding subscribe
  subscribe-Inv k = record {
    timeouts_match = ground (arith, i.timeouts_match);
    one_attempt = λ e h. ground (arith, i.one_attempt e);
    fresh = λ e h. ground (arith, i.fresh e);
    mounted_old = λ e h. ground (arith, i.mounted_old e);
  }

  on_timeout-Inv : (t : ℕ) → Inv (on_timeout t c)
  unfolding on_timeout
  on_timeout-Inv t = record {
    timeouts_match = ground (arith, i.timeouts_match);
    one_attempt = λ k h. ground (arith, i.timeouts_match, i.one_attempt k);
    fresh = λ k h. ground (arith, i.fresh k, i.timeouts_match, i.mounted_old k);
    mounted_old = λ k h. ground (arith, i.mounted_old k);
  }

no_timeouts : (c : Client) → Inv c → c.mounted ≡ none → c.timeouts ≡ []
no_timeouts c i m = ground (arith, i.timeouts_match, m)

abbrev pub IsTimely : Event → Client → Type 0
IsTimely (opens s) c = IsCurrent (find_socket s c.live) c.mounted
IsTimely e c = Unit

-- Every socket that opens is of the run that is mounted then.
abbrev pub AreTimely : List Event → Client → Type 0
AreTimely [] c = Unit
AreTimely (e ∷ es) c = IsTimely e c × AreTimely es (handle e c)

handle-Inv : (e : Event) (c : Client) → IsTimely e c → Inv c → Inv (handle e c)
unfolding handle on_error unsubscribe
handle-Inv (auth a) c h i = change_auth-Inv c i a
handle-Inv (url e) c h i = url_ready-Inv c i e
handle-Inv (failed e) c h i = url_failed-Inv c i e
handle-Inv (opens s) c h i = on_open-Inv c i s h
handle-Inv (closes s) c h i = on_close-Inv c i s
handle-Inv (errs s) c h i = record {
  timeouts_match = i.timeouts_match;
  one_attempt = i.one_attempt;
  fresh = i.fresh;
  mounted_old = i.mounted_old;
}
handle-Inv (fires t) c h i = on_timeout-Inv c i t
handle-Inv (subscribes k) c h i = subscribe-Inv c i k
handle-Inv (unsubscribes k) c h i = record {
  timeouts_match = i.timeouts_match;
  one_attempt = i.one_attempt;
  fresh = i.fresh;
  mounted_old = i.mounted_old;
}

run-Inv : (es : List Event) (c : Client) → AreTimely es c → Inv c → Inv (run es c)
unfolding run
run-Inv [] c h i = i
run-Inv (e ∷ es) c (h, hs) i = run-Inv es (handle e c) hs (handle-Inv e c h i)

-- After any events from the start, in each of which a socket that opens is of the run of the effect
-- mounted then: if the run `e` is mounted, then the calls of `e` that await the URL, the sockets of
-- `e` that have not closed and the timeouts that are set are one in all.
pub run-one_attempt :
    (es : List Event) (e : ℕ)
    → AreTimely es new_client
    → (run es new_client).mounted ≡ some e
    → attempts e (run es new_client) ≡ 1
run-one_attempt es e h m = (run-Inv es new_client h new_client-Inv).one_attempt e m

-- After any events from the start, in each of which a socket that opens is of the run of the effect
-- mounted then: if no run is mounted, then no timeout is set, so nothing will connect again.
pub run-unmounted :
    (es : List Event)
    → AreTimely es new_client
    → (run es new_client).mounted ≡ none
    → (run es new_client).timeouts ≡ []
run-unmounted es h m = no_timeouts (run es new_client) (run-Inv es new_client h new_client-Inv) m

find_socket-erase_socket :
    (s t : ℕ) (xs : List Socket) → s ≢ t → find_socket t (erase_socket s xs) ≡ find_socket t xs
find_socket-erase_socket s t [] n = refl
find_socket-erase_socket s t (x ∷ xs) n = ground (arith, find_socket-erase_socket s t xs, n)

stale_close_lem :
    (c : Client) (i : Inv c) (s t e m : ℕ)
    → find_socket s c.live ≡ some e
    → find_socket t c.live ≡ some m
    → c.mounted ≡ some m
    → e ≢ m
    → let after = on_close s c in
      (after.connected ≡ false)
      × (send after ≡ none)
      × (find_socket t after.live ≡ some m)
      × (after.timeouts ≡ [])
unfolding on_close send
stale_close_lem c i s t e m fs ft mo n = ground (
  arith,
  fs,
  ft,
  mo,
  n,
  i.timeouts_match,
  i.one_attempt m,
  count-erase_socket m t c.live,
  find_socket-erase_socket s t c.live,
)

-- In every state after timely events from the start: if the mounted run `m` has a socket `t` that
-- has not closed, and the run `e`, another one, has such a socket `s`, then the `close` event of `s`
-- leaves the client with no socket and not connected, so that `send` refuses everything, while `t`
-- has still not closed and no timeout is set to connect again.
pub stale_close :
    (es : List Event) (s t e m : ℕ)
    → AreTimely es new_client
    → find_socket s (run es new_client).live ≡ some e
    → find_socket t (run es new_client).live ≡ some m
    → (run es new_client).mounted ≡ some m
    → e ≢ m
    → let after = on_close s (run es new_client) in
      (after.connected ≡ false)
      × (send after ≡ none)
      × (find_socket t after.live ≡ some m)
      × (after.timeouts ≡ [])
stale_close es s t e m h fs ft mo n =
    stale_close_lem (run es new_client) (run-Inv es new_client h new_client-Inv) s t e m fs ft mo n
