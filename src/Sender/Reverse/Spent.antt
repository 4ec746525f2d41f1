-- ===== src/Sender/Reverse/Spent.antt =====
-- The reconnect thread of the reverse client once automatic reconnection was switched off.
use usb_lib.Prelude.{
  branch, ℕ, zero, suc, ◌≡◌, refl, inr, List, [], ◌∷◌, Bool, true, false, not, ◌&&◌, arith, All,
  if◌then◌else◌,
}
use usb_lib.Message.{serialize_message}
use usb_lib.Socket.{
  send_errors, TcpSocket, ConnectCalls, Event, notify_error, notify_connect, data_received,
  closed_fd, Outcome, returns, terminates, connect, close, receive_thread_end,
}
use usb_lib.Sender.Reverse.{
  ReverseClient, interrupt, on_network_error, on_network_connect, on_events, close_socket,
  receive_end, wait_for_confirmation, after_connect, connect_to_server, reconnect_round,
  enable_auto_reconnect, after_message,
}
use usb_lib.Sender.Reverse.Run.{
  Operation, connecting, disconnecting, enabling, losing, sending, reconnecting, perform, run,
  EndedOr, run-EndedOr,
}

-- The thread object is joinable, but the thread has left its loop.
pub record IsSpent (c : ReverseClient) : Type 0 where
  pub joinable : c.reconnect_thread ≡ true
  pub over : c.reconnecting ≡ false

on_events-IsSpent :
    (c : ReverseClient) (events : List Event) → IsSpent c → IsSpent (on_events c events)
unfolding on_events on_network_connect on_network_error
on_events-IsSpent c [] v = v
on_events-IsSpent c (notify_error ∷ events) v =
    on_events-IsSpent _ events (record { joinable = v.joinable; over = v.over })
on_events-IsSpent c (data_received bytes ∷ events) v = on_events-IsSpent c events v
on_events-IsSpent c (closed_fd fd ∷ events) v = on_events-IsSpent c events v
on_events-IsSpent c (notify_connect up ∷ events) v =
    on_events-IsSpent _ events (record { joinable = v.joinable; over = v.over })

with_socket-IsSpent :
    (c : ReverseClient) (s : TcpSocket) → IsSpent c → IsSpent (record c { socket = s })
with_socket-IsSpent c s v = record { joinable = v.joinable; over = v.over }

close_socket-IsSpent : (c : ReverseClient) → IsSpent c → IsSpent (close_socket c)
unfolding close_socket
close_socket-IsSpent c v =
    let (s, events) = close c.socket in
    on_events-IsSpent (record c { socket = s }) events (with_socket-IsSpent c s v)

receive_end-IsSpent :
    (c : ReverseClient) (broken : Bool) → IsSpent c → IsSpent (receive_end c broken)
unfolding receive_end
receive_end-IsSpent c broken v =
    let (s, events) = receive_thread_end c.socket in
    on_events-IsSpent (record c { socket = s }) (if broken then notify_error ∷ events else events)
      (with_socket-IsSpent c s v)

interrupt-IsSpent : (c : ReverseClient) (ended : Bool) → IsSpent c → IsSpent (interrupt c ended)
interrupt-IsSpent c ended v =
    branch IsSpent (ended && c.socket.is_connected) _ _ (λ _. receive_end-IsSpent c false v)
      (λ _. v)

wait-IsSpent :
    (n : ℕ) (c : ReverseClient) (ends : ℕ → Bool)
    → IsSpent c
    → IsSpent (wait_for_confirmation n c ends).0
unfolding wait_for_confirmation
wait-IsSpent zero c ends v = close_socket-IsSpent c v
wait-IsSpent (suc n) c ends v =
    let w = interrupt-IsSpent c (ends n) v in
    branch (λ (r : ReverseClient × Bool). IsSpent r.0) (interrupt c (ends n)).connected _ _ (λ _. w)
      (λ _. wait-IsSpent n (interrupt c (ends n)) ends w)

after_connect-IsSpent :
    (c : ReverseClient) (r : TcpSocket × Outcome × List Event) (ends : ℕ → Bool)
    → IsSpent c
    → IsSpent (after_connect c r ends).0
unfolding after_connect
after_connect-IsSpent c (s, terminates, events) ends v = with_socket-IsSpent c s v
after_connect-IsSpent c (s, returns false, events) ends v =
    on_events-IsSpent _ events (with_socket-IsSpent c s v)
after_connect-IsSpent c (s, returns true, events) ends v =
    wait-IsSpent 50 _ ends (on_events-IsSpent _ events (with_socket-IsSpent c s v))

-- Every operation but a disconnection.
abbrev pub IsKeeping : Operation → Type 0
IsKeeping disconnecting = ⊥
IsKeeping op = Unit

perform-IsSpent :
    (c : ReverseClient) (op : Operation) → IsKeeping op → IsSpent c → EndedOr IsSpent (perform c op)
unfolding perform connect_to_server enable_auto_reconnect after_message
perform-IsSpent c (connecting host port calls ends) ok v = inr (
    branch (λ (r : ReverseClient × Outcome). IsSpent r.0) c.connected _ _ (λ _. v)
      (λ _.
        after_connect-IsSpent (record c { server_host = host; server_port = port })
          (connect c.socket calls) ends (record { joinable = v.joinable; over = v.over })))
perform-IsSpent c disconnecting ok v = absurd ok
perform-IsSpent c (enabling enable seconds) ok v = inr (
    branch IsSpent (enable && not c.reconnect_thread) _ _
      (λ on. absurd (ground (arith, on, v.joinable)))
      (λ _. record { joinable = v.joinable; over = v.over }))
perform-IsSpent c (losing broken) ok v =
    inr (branch IsSpent c.socket.is_connected _ _ (λ _. receive_end-IsSpent c broken v) (λ _. v))
perform-IsSpent c (sending m answers) ok v = inr (
    branch IsSpent (not c.connected) _ _ (λ _. v)
      (λ _. on_events-IsSpent c (send_errors c.socket (serialize_message m) answers) v))
perform-IsSpent c (reconnecting calls ends) ok v =
    branch (EndedOr IsSpent) c.reconnecting _ _ (λ on. cc (on, v.over)) (λ _. inr v)

reconnect_round-IsSpent :
    (c : ReverseClient) (calls : ConnectCalls) (ends : ℕ → Bool)
    → c.reconnect_thread ≡ true
    → c.auto_reconnect ≡ false
    → IsSpent (reconnect_round c calls ends).0
unfolding reconnect_round
reconnect_round-IsSpent c calls ends old off =
    branch (λ (r : ReverseClient × Outcome). IsSpent r.0) (not c.should_stop && c.auto_reconnect) _
      _ (λ on. absurd (ground (arith, on, off))) (λ _. record { joinable = old; over = refl })

-- If the reconnect thread comes to its test after automatic reconnection was switched off, it ends for
-- good: whatever follows except a disconnection, enabling automatic reconnection again included,
-- terminates the process or leaves the client without a thread that reconnects.
pub run-reconnect_round :
    (c : ReverseClient) (calls : ConnectCalls) (ends : ℕ → Bool) (ops : List Operation)
    → c.reconnect_thread ≡ true
    → c.auto_reconnect ≡ false
    → All IsKeeping ops
    → EndedOr IsSpent (run (reconnect_round c calls ends).0 ops)
run-reconnect_round c calls ends ops old off ok =
    run-EndedOr IsSpent IsKeeping perform-IsSpent (reconnect_round c calls ends).0 ops ok
      (reconnect_round-IsSpent c calls ends old off)
