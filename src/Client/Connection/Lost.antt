-- ===== src/Client/Connection/Lost.antt =====
-- The client after its connection is lost: `Connect` on the socket whose receive thread has ended.
use usb_lib.Prelude.{
  branch, ℕ, ◌≡◌, refl, ◌⊎◌, inl, inr, List, [], ◌∷◌, Bool, true, false, not, arith,
}
use usb_lib.Socket.{TcpSocket, ConnectCalls, Outcome, returns, terminates, connect}
use usb_lib.Socket.Attempt.{
  Attempt, already_up, no_socket, abandoned, crashed, connects, connect-Attempt,
}
use usb_lib.Client.Connection.{
  UsbipClient, start_heartbeat, stop_heartbeat, on_network_error, on_events, continue, receive_end,
  after_connect, connect_client, disconnect, sent,
}
use usb_lib.Client.Connection.Events.{receive_end_lem, offline}
use usb_lib.Client.Connection.Coherent.{IsCoherent}
use usb_lib.Client.Connection.Run.{
  Operation, connecting, disconnecting, losing, starting, stopping, sending, perform, run,
}

-- Neither the client nor its socket is connected, and the old receive thread was never joined.
pub record IsLost (c : UsbipClient) : Type 0 where
  pub down : c.connected ≡ false
  pub socket_down : c.socket.is_connected ≡ false
  pub unjoined : c.socket.receive_thread ≡ true

-- The process has terminated, or the client is still lost.
abbrev pub EndedOrLost : UsbipClient × Outcome → Type 0
EndedOrLost (c, outcome) = (outcome ≡ terminates) ⊎ IsLost c

offline-IsLost :
    (c : UsbipClient) (s : TcpSocket)
    → s.is_connected ≡ false
    → s.receive_thread ≡ true
    → IsLost (offline c s)
unfolding stop_heartbeat
offline-IsLost c s down old = ground arith

pub receive_end-IsLost :
    (c : UsbipClient) (broken : Bool)
    → c.socket.receive_thread ≡ true
    → IsLost (receive_end c broken).0
receive_end-IsLost c broken old = rw (receive_end_lem c broken) (offline-IsLost c _ refl old)

after_connect-IsLost :
    (c : UsbipClient) (calls : ConnectCalls) (ends : ℕ → Bool)
    → IsLost c
    → Attempt c.socket calls
    → EndedOrLost (after_connect c (connect c.socket calls) ends)
unfolding after_connect on_events on_network_error
after_connect-IsLost c calls ends v (already_up up e) = cc (up, v.socket_down)
after_connect-IsLost c calls ends v (no_socket _ e) =
    rw e (inr (record { down = refl; socket_down = v.socket_down; unjoined = v.unjoined }))
after_connect-IsLost c calls ends v (abandoned fd _ e) =
    rw e (inr (record { down = refl; socket_down = v.socket_down; unjoined = v.unjoined }))
after_connect-IsLost c calls ends v (crashed t _ _ e) = rw e (inl refl)
after_connect-IsLost c calls ends v (connects fd _ free e) = cc (free, v.unjoined)

start_heartbeat-IsLost : (c : UsbipClient) (n : ℕ) → IsLost c → EndedOrLost (start_heartbeat c n)
unfolding start_heartbeat
start_heartbeat-IsLost c n v =
    branch EndedOrLost c.heartbeat_running _ _ (λ _. inr v)
      (λ _.
        branch EndedOrLost c.heartbeat_thread _ _ (λ _. inl refl)
          (λ _. inr (record { down = v.down; socket_down = v.socket_down; unjoined = v.unjoined })))

stop_heartbeat-IsLost : (c : UsbipClient) → IsLost c → IsLost (stop_heartbeat c)
unfolding stop_heartbeat
stop_heartbeat-IsLost c v = ground arith

perform-IsLost : (c : UsbipClient) (op : Operation) → IsLost c → EndedOrLost (perform c op)
unfolding perform connect_client disconnect sent
perform-IsLost c (connecting host port calls ends) v =
    branch EndedOrLost c.connected _ _ (λ up. cc (up, v.down))
      (λ _.
        after_connect-IsLost (record c { server_host = host; server_port = port }) calls ends
          (record { down = v.down; socket_down = v.socket_down; unjoined = v.unjoined })
          (connect-Attempt c.socket calls))
perform-IsLost c disconnecting v =
    branch EndedOrLost (not c.connected) _ _ (λ _. inr v) (λ up. ground (arith, up, v.down))
perform-IsLost c (losing broken) v =
    branch EndedOrLost c.socket.is_connected _ _ (λ up. cc (up, v.socket_down)) (λ _. inr v)
perform-IsLost c (starting n) v = start_heartbeat-IsLost c n v
perform-IsLost c stopping v = inr (stop_heartbeat-IsLost c v)
perform-IsLost c (sending m answers) v =
    inr (branch IsLost c.connected _ _ (λ up. cc (up, v.down)) (λ _. v))

continue-IsLost :
    (r : UsbipClient × Outcome) (rest : UsbipClient → UsbipClient × Outcome)
    → EndedOrLost r
    → ((c : UsbipClient) → IsLost c → EndedOrLost (rest c))
    → EndedOrLost (continue r rest)
continue-IsLost (c, terminates) rest v h = inl refl
continue-IsLost (c, returns b) rest (inl e) h = cc
continue-IsLost (c, returns b) rest (inr v) h = h c v

run-EndedOrLost : (c : UsbipClient) (ops : List Operation) → IsLost c → EndedOrLost (run c ops)
unfolding run
run-EndedOrLost c [] v = inr v
run-EndedOrLost c (op ∷ ops) v =
    continue-IsLost (perform c op) (λ c'. run c' ops) (perform-IsLost c op v)
      (λ c' w. run-EndedOrLost c' ops w)

-- Once a connected client has lost its connection, whether the peer closed it or an error broke it, no
-- sequence of operations brings the client back: afterwards the process has terminated, or the client
-- is not connected and its socket is not.
pub run-receive_end :
    (c : UsbipClient) (broken : Bool) (ops : List Operation)
    → IsCoherent c
    → c.socket.is_connected ≡ true
    → EndedOrLost (run (receive_end c broken).0 ops)
run-receive_end c broken ops v up =
    run-EndedOrLost (receive_end c broken).0 ops (
      receive_end-IsLost c broken (elim (v.receiving) [ inl down ↦ cc (down, up) | inr old ↦ old ]))
