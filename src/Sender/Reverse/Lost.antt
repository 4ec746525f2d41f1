-- ===== src/Sender/Reverse/Lost.antt =====
-- The reverse client after its connection is lost, with and without its reconnect thread.
use usb_lib.Prelude.{
  branch, arith, ℕ, ◌≡◌, refl, inl, inr, List, Bool, true, false, not, ◌&&◌, none,
}
use usb_lib.Socket.{ConnectCalls, connect, receive_thread_end}
use usb_lib.Socket.Attempt.{
  Attempt, already_up, no_socket, abandoned, crashed, connects, connect-Attempt,
}
use usb_lib.Sender.Reverse.{
  ReverseClient, on_network_error, on_network_connect, on_events, receive_end, after_connect,
  connect_to_server, after_reconnect, reconnect_round, disconnect, enable_auto_reconnect,
  after_message,
}
use usb_lib.Sender.Reverse.Run.{
  Operation, connecting, disconnecting, enabling, losing, sending, reconnecting, perform, run,
  EndedOr, run-EndedOr, Anything, All-Anything,
}

-- Neither the client nor its socket is connected, and the old receive thread was never joined.
pub record IsLost (c : ReverseClient) : Type 0 where
  pub down : c.connected ≡ false
  pub socket_down : c.socket.is_connected ≡ false
  pub unjoined : c.socket.receive_thread ≡ true

pub receive_end-IsLost :
    (c : ReverseClient) (broken : Bool)
    → c.socket.receive_thread ≡ true
    → IsLost (receive_end c broken)
unfolding receive_end receive_thread_end on_events on_network_connect on_network_error
receive_end-IsLost c true old = record { down = refl; socket_down = refl; unjoined = old }
receive_end-IsLost c false old = record { down = refl; socket_down = refl; unjoined = old }

-- The socket without a descriptor, after a failed attempt.
failed-IsLost :
    (c : ReverseClient)
    → IsLost c
    → IsLost (record c { socket = record (c.socket) { socket_fd = none }; connected = false })
failed-IsLost c v = record { down = refl; socket_down = v.socket_down; unjoined = v.unjoined }

module _ (c : ReverseClient) (calls : ConnectCalls) (ends : ℕ → Bool) (v : IsLost c) where
  after_connect-IsLost :
      Attempt c.socket calls → EndedOr IsLost (after_connect c (connect c.socket calls) ends)
  unfolding after_connect on_events on_network_error
  after_connect-IsLost (already_up up e) = cc (up, v.socket_down)
  after_connect-IsLost (no_socket _ e) = rw e (inr (failed-IsLost c v))
  after_connect-IsLost (abandoned fd _ e) = rw e (inr (failed-IsLost c v))
  after_connect-IsLost (crashed t _ _ e) = rw e (inl refl)
  after_connect-IsLost (connects fd _ free e) = cc (free, v.unjoined)

  after_reconnect-IsLost :
      Attempt c.socket calls → EndedOr IsLost (after_reconnect c (connect c.socket calls) ends)
  unfolding after_reconnect on_events on_network_error
  after_reconnect-IsLost (already_up up e) = cc (up, v.socket_down)
  after_reconnect-IsLost (no_socket _ e) = rw e (inr (failed-IsLost c v))
  after_reconnect-IsLost (abandoned fd _ e) = rw e (inr (failed-IsLost c v))
  after_reconnect-IsLost (crashed t _ _ e) = rw e (inl refl)
  after_reconnect-IsLost (connects fd _ free e) = cc (free, v.unjoined)

  reconnect_round-IsLost : EndedOr IsLost (reconnect_round c calls ends)
  unfolding reconnect_round
  reconnect_round-IsLost =
      branch (EndedOr IsLost) (not c.should_stop && c.auto_reconnect) _ _
        (λ _.
          branch (EndedOr IsLost) c.connected _ _ (λ _. inr v)
            (λ _. after_reconnect-IsLost (connect-Attempt c.socket calls)))
        (λ _. inr (record { down = v.down; socket_down = v.socket_down; unjoined = v.unjoined }))

perform-IsLost :
    (c : ReverseClient) (op : Operation) → Anything op → IsLost c → EndedOr IsLost (perform c op)
unfolding perform connect_to_server disconnect enable_auto_reconnect after_message
perform-IsLost c (connecting host port calls ends) _ v =
    branch (EndedOr IsLost) c.connected _ _ (λ up. cc (up, v.down))
      (λ _.
        after_connect-IsLost (record c { server_host = host; server_port = port }) calls ends
          (record { down = v.down; socket_down = v.socket_down; unjoined = v.unjoined })
          (connect-Attempt c.socket calls))
perform-IsLost c disconnecting _ v = inr (
    branch IsLost c.connected _ _ (λ up. cc (up, v.down))
      (λ _. record { down = v.down; socket_down = v.socket_down; unjoined = v.unjoined }))
perform-IsLost c (enabling enable seconds) _ v = inr (
    branch IsLost (enable && not c.reconnect_thread) _ _
      (λ _. record { down = v.down; socket_down = v.socket_down; unjoined = v.unjoined })
      (λ _. record { down = v.down; socket_down = v.socket_down; unjoined = v.unjoined }))
perform-IsLost c (losing broken) _ v =
    inr (branch IsLost c.socket.is_connected _ _ (λ up. cc (up, v.socket_down)) (λ _. v))
perform-IsLost c (sending m answers) _ v =
    inr (branch IsLost (not c.connected) _ _ (λ _. v) (λ up. ground (arith, up, v.down)))
perform-IsLost c (reconnecting calls ends) _ v =
    branch (EndedOr IsLost) c.reconnecting _ _ (λ _. reconnect_round-IsLost c calls ends v)
      (λ _. inr v)

-- Once a reverse client whose receive thread runs has lost its connection, whether the peer closed it
-- or an error broke it, no sequence of calls, steps of the receive thread and rounds of the reconnect
-- thread brings it back: afterwards the process has terminated, or neither the client nor its socket
-- is connected.
pub run-IsLost :
    (c : ReverseClient) (broken : Bool) (ops : List Operation)
    → c.socket.receive_thread ≡ true
    → EndedOr IsLost (run (receive_end c broken) ops)
run-IsLost c broken ops old =
    run-EndedOr IsLost Anything perform-IsLost (receive_end c broken) ops (All-Anything ops)
      (receive_end-IsLost c broken old)
