-- ===== src/Socket/Tests.antt =====
-- Runs of web/src/WebSocketContext.tsx: an outage, and a sign-out with a sign-in before the old socket
-- closes.
use dot_and_boxes.Prelude.{ℕ, ◌≡◌, refl, true, false, none, some, List, [], ◌∷◌, arith}
use dot_and_boxes.Socket.{
  new_client, Event, auth, url, failed, opens, closes, fires, subscribes, run, handle, on_close,
  on_message, send, find_socket,
}
use dot_and_boxes.Socket.Attempts.{attempts, AreTimely, run-one_attempt, stale_close}

-- Signed in, connected, cut off, and connected again: run 0 with the sockets 1 and 3, timeout 2.
abbrev outage : List Event
outage = auth true ∷ url 0 ∷ opens 1 ∷ closes 1 ∷ fires 2 ∷ url 0 ∷ opens 3 ∷ []

outage_sends : send (run outage new_client) ≡ some 3
unfolding run send
outage_sends = refl

two_subscribers :
    on_message {M = ℕ} 5 (run (subscribes 1 ∷ subscribes 2 ∷ subscribes 1 ∷ []) new_client)
    ≡ (1, 5) ∷ (2, 5) ∷ []
unfolding run on_message
two_subscribers = refl

timely_outage : AreTimely outage new_client
unfolding handle
timely_outage = (tt, (tt, (refl, (tt, (tt, (tt, (refl, tt)))))))

mounted_outage : (run outage new_client).mounted ≡ some 0
unfolding run
mounted_outage = refl

run-one_attempt_example : attempts 0 (run outage new_client) ≡ 1
run-one_attempt_example = run-one_attempt outage 0 timely_outage mounted_outage

-- Signed out while the timeout is set.
abbrev leaving : List Event
leaving = auth true ∷ failed 0 ∷ auth false ∷ []

unmounted_leaving : (run leaving new_client).mounted ≡ none
unfolding run
unmounted_leaving = refl

-- Signed out and in again, before the first socket has closed: runs 0 and 2, sockets 1 and 3.
abbrev again : List Event
again = auth true ∷ url 0 ∷ opens 1 ∷ auth false ∷ auth true ∷ url 2 ∷ opens 3 ∷ []

timely_again : AreTimely again new_client
unfolding handle
timely_again = (tt, (tt, (refl, (tt, (tt, (tt, (refl, tt)))))))

old_socket : find_socket 1 (run again new_client).live ≡ some 0
unfolding run
old_socket = refl

new_socket : find_socket 3 (run again new_client).live ≡ some 2
unfolding run
new_socket = refl

mounted_again : (run again new_client).mounted ≡ some 2
unfolding run
mounted_again = refl

stale_close_example :
    let after = on_close 1 (run again new_client) in
    (after.connected ≡ false)
    × (send after ≡ none)
    × (find_socket 3 after.live ≡ some 2)
    × (after.timeouts ≡ [])
stale_close_example =
    stale_close again 1 3 0 2 timely_again old_socket new_socket mounted_again
      (λ e. absurd (omega (arith, e)))
