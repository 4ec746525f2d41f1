-- ===== src/Sender/Reverse/Reported.antt =====
-- What the reverse client's connect callback was told, against `IsConnected`.
use usb_lib.Prelude.{
  branch, ℕ, zero, suc, ◌≡◌, refl, sym, ap, ◌∙◌, inr, List, [], ◌∷◌, ◌++◌, Bool, true, false, not,
  ◌&&◌, ◌||◌, ◌+◌, All, ltb, length, Option, none, some, if◌then◌else◌,
}
use usb_lib.Words.{Bytes}
use usb_lib.Message.{NetworkMessage, serialize_message}
use usb_lib.Socket.{
  SendAnswer, took, would_block, failed, SendState, send_loop, send_errors, loop_errors, is_open,
  ConnectCalls, Event, notify_connect, closed, closed_all, Outcome, connect, close,
  receive_thread_end,
}
use usb_lib.Socket.Attempt.{
  Attempt, online, already_up, no_socket, abandoned, crashed, connects, connect-Attempt,
}
use usb_lib.Sender.Reverse.{
  ReverseClient, reverse_client, interrupt, on_network_error, on_network_connect, on_events,
  close_socket, receive_end, wait_for_confirmation, after_connect, connect_to_server,
  after_reconnect, wait_to_reconnect, reconnect_round, disconnect, enable_auto_reconnect,
  after_message,
}
use usb_lib.Sender.Reverse.Run.{
  Operation, connecting, disconnecting, enabling, losing, sending, reconnecting, perform, run,
  EndedOr, run-EndedOr,
}

-- The last call of the callback; before the first one, the client is not connected.
abbrev pub last_report : List Bool → Bool
last_report [] = false
last_report (up ∷ _) = up

abbrev pub IsReported : ReverseClient → Type 0
IsReported c = c.connected ≡ last_report c.reported

on_events-closed_all :
    (c : ReverseClient) (fds : List ℕ) (events : List Event)
    → on_events c (closed_all fds ++ events) ≡ on_events c events
unfolding on_events closed_all
on_events-closed_all c [] events = refl
on_events-closed_all c (fd ∷ fds) events = on_events-closed_all c fds events

on_events-closed :
    (c : ReverseClient) (fd : Option ℕ) (events : List Event)
    → on_events c (closed fd ++ events) ≡ on_events c events
unfolding on_events closed
on_events-closed c none events = refl
on_events-closed c (some fd) events = refl

close_socket_lem :
    (c : ReverseClient)
    → close_socket c ≡ on_network_connect (record c { socket = (close c.socket).0 }) false
unfolding close_socket close
close_socket_lem c =
    let c' = record c { socket = (close c.socket).0 } in
    on_events-closed c' c.socket.socket_fd _
    ∙ on_events-closed_all c' c.socket.client_fds _
    ∙ (unfold on_events on_network_connect in refl)

close_socket-IsReported : (c : ReverseClient) → IsReported (close_socket c)
close_socket-IsReported c = rw (close_socket_lem c) (unfold on_network_connect in refl)

last_report-close_socket : (c : ReverseClient) → false ≡ last_report (close_socket c).reported
unfolding on_network_connect
last_report-close_socket c =
    sym (ap (λ (d : ReverseClient). last_report d.reported) (close_socket_lem c))

receive_end-IsReported : (c : ReverseClient) (broken : Bool) → IsReported (receive_end c broken)
unfolding receive_end receive_thread_end on_events on_network_connect on_network_error
receive_end-IsReported c true = refl
receive_end-IsReported c false = refl

interrupt-IsReported :
    (c : ReverseClient) (ended : Bool) → IsReported c → IsReported (interrupt c ended)
interrupt-IsReported c ended v =
    branch IsReported (ended && c.socket.is_connected) _ _ (λ _. receive_end-IsReported c false)
      (λ _. v)

wait-IsReported :
    (n : ℕ) (c : ReverseClient) (ends : ℕ → Bool)
    → IsReported c
    → IsReported (wait_for_confirmation n c ends).0
unfolding wait_for_confirmation
wait-IsReported zero c ends v = close_socket-IsReported c
wait-IsReported (suc n) c ends v =
    let w = interrupt-IsReported c (ends n) v in
    branch (λ (r : ReverseClient × Bool). IsReported r.0) (interrupt c (ends n)).connected _ _
      (λ _. w) (λ _. wait-IsReported n (interrupt c (ends n)) ends w)

close_unless-IsReported :
    (c : ReverseClient) → IsReported c → IsReported (if c.connected then c else close_socket c)
close_unless-IsReported c v =
    branch IsReported c.connected _ _ (λ _. v) (λ _. close_socket-IsReported c)

reconnect-IsReported :
    (n : ℕ) (c : ReverseClient) (ends : ℕ → Bool)
    → IsReported c
    → IsReported (wait_to_reconnect n c ends)
unfolding wait_to_reconnect
reconnect-IsReported zero c ends v = close_unless-IsReported c v
reconnect-IsReported (suc n) c ends v =
    let c' = interrupt c (ends n) in
    let w = interrupt-IsReported c (ends n) v in
    branch IsReported (not c'.connected && not c'.should_stop) _ _
      (λ _. reconnect-IsReported n c' ends w) (λ _. close_unless-IsReported c' w)

module _ (c : ReverseClient) (calls : ConnectCalls) (ends : ℕ → Bool) where
  module _ (v : IsReported c) (down : c.connected ≡ false) where
    after_connect-IsReported :
        Attempt c.socket calls → IsReported (after_connect c (connect c.socket calls) ends).0
    unfolding after_connect on_events on_network_error on_network_connect
    after_connect-IsReported (already_up up e) = rw e v
    after_connect-IsReported (no_socket _ e) = rw e (sym down ∙ v)
    after_connect-IsReported (abandoned fd _ e) = rw e (sym down ∙ v)
    after_connect-IsReported (crashed t _ _ e) = rw e v
    after_connect-IsReported (connects fd _ free e) = rw e (
        wait-IsReported 50
          (on_events (record c { socket = online c.socket fd }) (notify_connect true ∷ [])) ends
          refl)

    after_reconnect-IsReported :
        Attempt c.socket calls → IsReported (after_reconnect c (connect c.socket calls) ends).0
    unfolding after_reconnect on_events on_network_error on_network_connect
    after_reconnect-IsReported (already_up up e) = rw e v
    after_reconnect-IsReported (no_socket _ e) = rw e (sym down ∙ v)
    after_reconnect-IsReported (abandoned fd _ e) = rw e (sym down ∙ v)
    after_reconnect-IsReported (crashed t _ _ e) = rw e v
    after_reconnect-IsReported (connects fd _ free e) = rw e (
        reconnect-IsReported 30
          (on_events (record c { socket = online c.socket fd }) (notify_connect true ∷ [])) ends
          refl)

  round-IsReported : IsReported c → IsReported (reconnect_round c calls ends).0
  unfolding reconnect_round
  round-IsReported v =
      branch (λ (r : ReverseClient × Outcome). IsReported r.0)
        (not c.should_stop && c.auto_reconnect) _ _
        (λ _.
          branch (λ (r : ReverseClient × Outcome). IsReported r.0) c.connected _ _ (λ _. v)
            (λ down. after_reconnect-IsReported v down (connect-Attempt c.socket calls)))
        (λ _. v)

-- No call of `send` failed.
abbrev pub NoneFailed : List SendAnswer → Type 0
NoneFailed [] = Unit
NoneFailed (failed ∷ answers) = ⊥
NoneFailed (would_block ∷ answers) = NoneFailed answers
NoneFailed (took n ∷ answers) = NoneFailed answers

-- An operation that no failing `send` is part of.
abbrev pub SendsWell : Operation → Type 0
SendsWell (sending m answers) = NoneFailed answers
SendsWell op = Unit

loop_errors-nil :
    (bytes : Bytes) (total : ℕ) (answers : List SendAnswer)
    → NoneFailed answers
    → loop_errors (send_loop bytes total answers).0 ≡ []
unfolding loop_errors send_loop
loop_errors-nil bytes total [] ok =
    branch (λ (r : SendState × Bytes). loop_errors r.0 ≡ []) (ltb total (length bytes)) _ _
      (λ _. refl) (λ _. refl)
loop_errors-nil bytes total (took n ∷ answers) ok =
    branch (λ (r : SendState × Bytes). loop_errors r.0 ≡ []) (ltb total (length bytes)) _ _
      (λ _. loop_errors-nil bytes (total + n) answers ok) (λ _. refl)
loop_errors-nil bytes total (would_block ∷ answers) ok =
    branch (λ (r : SendState × Bytes). loop_errors r.0 ≡ []) (ltb total (length bytes)) _ _
      (λ _. loop_errors-nil bytes total answers ok) (λ _. refl)
loop_errors-nil bytes total (failed ∷ answers) ok = absurd ok

after_message_lem :
    (c : ReverseClient) (m : NetworkMessage) (answers : List SendAnswer)
    → NoneFailed answers
    → after_message c m answers ≡ c
unfolding after_message send_errors
after_message_lem c m answers ok =
    branch (λ (d : ReverseClient). d ≡ c) (not c.connected) _ _ (λ _. refl)
      (λ _.
        branch (λ (events : List Event). on_events c events ≡ c)
          (not c.socket.is_connected || not (is_open c.socket)) _ _ (λ _. unfold on_events in refl)
          (λ _. rw (loop_errors-nil (serialize_message m) 0 answers ok) (unfold on_events in refl)))

perform-IsReported :
    (c : ReverseClient) (op : Operation)
    → SendsWell op
    → IsReported c
    → EndedOr IsReported (perform c op)
unfolding perform connect_to_server disconnect enable_auto_reconnect
perform-IsReported c (connecting host port calls ends) _ v = inr (
    branch (λ (r : ReverseClient × Outcome). IsReported r.0) c.connected _ _ (λ _. v)
      (λ down.
        after_connect-IsReported (record c { server_host = host; server_port = port }) calls ends v
          down (connect-Attempt c.socket calls)))
perform-IsReported c disconnecting _ v = inr (
    branch IsReported c.connected _ _
      (λ _. last_report-close_socket (record c {
        should_stop = true;
        auto_reconnect = false;
        reconnect_thread = false;
        reconnecting = false;
      }))
      (λ _. v))
perform-IsReported c (enabling enable seconds) _ v =
    inr (branch IsReported (enable && not c.reconnect_thread) _ _ (λ _. v) (λ _. v))
perform-IsReported c (losing broken) _ v =
    inr
      (branch IsReported c.socket.is_connected _ _ (λ _. receive_end-IsReported c broken) (λ _. v))
perform-IsReported c (sending m answers) ok v = inr (rw (after_message_lem c m answers ok) v)
perform-IsReported c (reconnecting calls ends) _ v = inr (
    branch (λ (r : ReverseClient × Outcome). IsReported r.0) c.reconnecting _ _
      (λ _. round-IsReported c calls ends v) (λ _. v))

-- From a new reverse client on, whatever sequence of calls and steps of its threads follows in which no
-- `send` of a `SendMessage` fails, the process has terminated or `IsConnected` agrees with the last call
-- of the connect callback.
pub run-IsReported :
    (ops : List Operation) → All SendsWell ops → EndedOr IsReported (run reverse_client ops)
unfolding reverse_client
run-IsReported ops ok =
    run-EndedOr IsReported SendsWell perform-IsReported reverse_client ops ok refl
