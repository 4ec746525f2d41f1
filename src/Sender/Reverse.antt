-- ===== src/Sender/Reverse.antt =====
-- sender/reverse_client.h and reverse_client.cpp: the class ReverseClient, its connection to the server
-- and its reconnect thread. The user's connect callback is the list of the values it was called with.
pub mod Lost
pub mod Run
pub mod Reported
pub mod Spent
use usb_lib.Prelude.{ℕ, zero, suc, List, [], ◌∷◌, Bool, true, false, ◌&&◌, not, if◌then◌else◌}
use usb_lib.Words.{Bytes}
use usb_lib.Message.{NetworkMessage, serialize_message}
use usb_lib.Socket.{
  TcpSocket, tcp_socket, ConnectCalls, Event, notify_error, notify_connect, data_received,
  closed_fd, Outcome, returns, terminates, SendAnswer, SendState, finished, send, send_errors,
  connect, close, receive_thread_end,
}

-- `reconnect_thread` says whether the `std::thread` is joinable, `reconnecting` whether the thread is
-- still in its loop; `reported` holds the calls of the connect callback, the last one first.
pub record ReverseClient : Type 0 where
  pub socket : TcpSocket
  pub connected : Bool
  pub auto_reconnect : Bool
  pub should_stop : Bool
  pub server_host : Bytes
  pub server_port : ℕ
  pub reconnect_interval : ℕ
  pub reconnect_thread : Bool
  pub reconnecting : Bool
  pub reported : List Bool

unfoldable pub reverse_client : ReverseClient
reverse_client = record {
  socket = tcp_socket;
  connected = false;
  auto_reconnect = false;
  should_stop = false;
  server_host = [];
  server_port = 3240;
  reconnect_interval = 5;
  reconnect_thread = false;
  reconnecting = false;
  reported = [];
}

unfoldable pub on_network_connect : ReverseClient → Bool → ReverseClient
on_network_connect c up = record c { connected = up; reported = up ∷ c.reported }

unfoldable pub on_network_error : ReverseClient → ReverseClient
on_network_error c = record c { connected = false }

-- The callbacks for the events of a call, in order.
unfoldable pub on_events : ReverseClient → List Event → ReverseClient
unfolding on_network_connect on_network_error
on_events c [] = c
on_events c (notify_error ∷ events) = on_events (on_network_error c) events
on_events c (data_received bytes ∷ events) = on_events c events
on_events c (closed_fd fd ∷ events) = on_events c events
on_events c (notify_connect up ∷ events) = on_events (on_network_connect c up) events

-- `tcp_client_->Close()`.
unfoldable pub close_socket : ReverseClient → ReverseClient
unfolding on_events
close_socket c = let (s, events) = close c.socket in on_events (record c { socket = s }) events

-- The receive thread leaves its loop: the peer has closed the connection, or `recv` failed, which it
-- reports first.
unfoldable pub receive_end : ReverseClient → Bool → ReverseClient
unfolding on_events
receive_end c broken =
    let (s, events) = receive_thread_end c.socket in
    on_events (record c { socket = s }) (if broken then notify_error ∷ events else events)

-- What the receive thread does before a round of a wait.
abbrev pub interrupt : ReverseClient → Bool → ReverseClient
interrupt c ended = if ended && c.socket.is_connected then receive_end c false else c

-- The loop of `ConnectToServer` that waits for the confirmation, with `n` rounds left; `ends` says for
-- each round whether the receive thread ends before it.
unfoldable pub wait_for_confirmation : ℕ → ReverseClient → (ℕ → Bool) → ReverseClient × Bool
unfolding receive_end close_socket
wait_for_confirmation zero c ends = (close_socket c, false)
wait_for_confirmation (suc n) c ends =
    let c' = interrupt c (ends n) in
    let rest = wait_for_confirmation n c' ends in if c'.connected then (c', true) else rest

abbrev pub returned : ReverseClient × Bool → ReverseClient × Outcome
returned (c, b) = (c, returns b)

-- The rest of `ConnectToServer`, with what the socket's `Connect` did.
unfoldable pub after_connect :
    ReverseClient → TcpSocket × Outcome × List Event → (ℕ → Bool) → ReverseClient × Outcome
unfolding wait_for_confirmation on_events
after_connect c (s, terminates, events) ends = (record c { socket = s }, terminates)
after_connect c (s, returns false, events) ends =
    (on_events (record c { socket = s }) events, returns false)
after_connect c (s, returns true, events) ends =
    returned (wait_for_confirmation 50 (on_events (record c { socket = s }) events) ends)

unfoldable pub connect_to_server :
    ReverseClient → Bytes → ℕ → ConnectCalls → (ℕ → Bool) → ReverseClient × Outcome
unfolding after_connect
connect_to_server c host port calls ends =
    let c' = record c { server_host = host; server_port = port } in
    if c.connected then (c, returns true) else after_connect c' (connect c.socket calls) ends

-- The loop of `ReconnectThread` that waits for the confirmation, and what follows it.
unfoldable pub wait_to_reconnect : ℕ → ReverseClient → (ℕ → Bool) → ReverseClient
unfolding receive_end close_socket
wait_to_reconnect zero c ends = if c.connected then c else close_socket c
wait_to_reconnect (suc n) c ends =
    let c' = interrupt c (ends n) in
    let rest = wait_to_reconnect n c' ends in
    let over = if c'.connected then c' else close_socket c' in
    if not c'.connected && not c'.should_stop then rest else over

-- The rest of an attempt of the reconnect thread, with what the socket's `Connect` did.
unfoldable pub after_reconnect :
    ReverseClient → TcpSocket × Outcome × List Event → (ℕ → Bool) → ReverseClient × Outcome
unfolding wait_to_reconnect on_events
after_reconnect c (s, terminates, events) ends = (record c { socket = s }, terminates)
after_reconnect c (s, returns false, events) ends =
    (on_events (record c { socket = s }) events, returns true)
after_reconnect c (s, returns true, events) ends =
    (wait_to_reconnect 30 (on_events (record c { socket = s }) events) ends, returns true)

-- A round of `ReconnectThread`: its test, then an attempt if the client is not connected.
unfoldable pub reconnect_round : ReverseClient → ConnectCalls → (ℕ → Bool) → ReverseClient × Outcome
unfolding after_reconnect
reconnect_round c calls ends =
    if not c.should_stop && c.auto_reconnect
    then if c.connected then (c, returns true) else after_reconnect c (connect c.socket calls) ends
    else (record c { reconnecting = false }, returns true)

-- The thread leaves its loop once it sees `should_stop_`, so that the join returns.
unfoldable pub disconnect : ReverseClient → ReverseClient
unfolding close_socket
disconnect c =
    let c' = record c {
      should_stop = true;
      auto_reconnect = false;
      reconnect_thread = false;
      reconnecting = false;
    } in
    if c'.connected then record (close_socket c') { connected = false } else c'

unfoldable pub send_message : ReverseClient → NetworkMessage → List SendAnswer → SendState × Bytes
send_message c m answers =
    if not c.connected then (finished false, []) else send c.socket (serialize_message m) answers

-- What `SendMessage` leaves of the client: a failure of the `Send` has called `OnNetworkError`.
unfoldable pub after_message : ReverseClient → NetworkMessage → List SendAnswer → ReverseClient
unfolding on_events
after_message c m answers =
    if not c.connected then c else on_events c (send_errors c.socket (serialize_message m) answers)

unfoldable pub enable_auto_reconnect : ReverseClient → Bool → ℕ → ReverseClient
enable_auto_reconnect c enable seconds =
    let c' = record c { auto_reconnect = enable; reconnect_interval = seconds } in
    if enable && not c.reconnect_thread
    then record c' { should_stop = false; reconnect_thread = true; reconnecting = true }
    else c'
