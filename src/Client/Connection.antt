-- ===== src/Client/Connection.antt =====
-- The connection of UsbipClient in usbip_client.cpp: its flags, its heartbeat thread and its socket. The
-- socket's callbacks run inside the calls of the socket, in the order of its events.
pub mod Lost
pub mod Events
pub mod Coherent
pub mod Run
pub mod Stopping
use usb_lib.Prelude.{
  ℕ, zero, suc, ◌+◌, ◌≡◌, List, [], ◌∷◌, Bool, true, false, ◌&&◌, not, Option, none, some,
  if◌then◌else◌,
}
use usb_lib.Words.{Bytes}
use usb_lib.Text.{codes}
use usb_lib.Usb.{UsbUrb}
use usb_lib.Message.{
  NetworkMessage, serialize_message, create_device_list_request, create_device_import_request,
  create_urb_response, create_heartbeat,
}
use usb_lib.Socket.{
  TcpSocket, tcp_socket, ConnectCalls, Event, notify_error, notify_connect, data_received,
  closed_fd, Outcome, returns, terminates, SendAnswer, SendState, finished, send, send_errors,
  connect, close, receive_thread_end,
}

-- `heartbeat_thread` says whether the `std::thread` is joinable.
pub record UsbipClient : Type 0 where
  pub socket : TcpSocket
  pub connected : Bool
  pub heartbeat_running : Bool
  pub heartbeat_thread : Bool
  pub heartbeat_interval : ℕ
  pub server_host : Bytes
  pub server_port : ℕ

unfoldable pub usbip_client : UsbipClient
usbip_client = record {
  socket = tcp_socket;
  connected = false;
  heartbeat_running = false;
  heartbeat_thread = false;
  heartbeat_interval = 30;
  server_host = [];
  server_port = 3240;
}

-- A thread that is still joinable when the next one is assigned terminates the process.
unfoldable pub start_heartbeat : UsbipClient → ℕ → UsbipClient × Outcome
start_heartbeat c seconds =
    let c' = record c { heartbeat_interval = seconds; heartbeat_running = true } in
    if c.heartbeat_running
    then (c, returns true)
    else if c.heartbeat_thread
    then (c', terminates)
    else (record c' { heartbeat_thread = true }, returns true)

-- The thread leaves its loop at the latest after its sleep, so that the join returns.
unfoldable pub stop_heartbeat : UsbipClient → UsbipClient
stop_heartbeat c =
    if c.heartbeat_running
    then record c { heartbeat_running = false; heartbeat_thread = false }
    else c

-- The default interval of `StartHeartbeat` is 30 seconds.
unfoldable pub on_network_connect : UsbipClient → Bool → UsbipClient × Outcome
unfolding start_heartbeat stop_heartbeat
on_network_connect c true = start_heartbeat (record c { connected = true }) 30
on_network_connect c false = (stop_heartbeat (record c { connected = false }), returns true)

unfoldable pub on_network_error : UsbipClient → UsbipClient
on_network_error c = record c { connected = false }

-- What follows a call, unless that terminated the process.
abbrev pub continue :
    UsbipClient × Outcome → (UsbipClient → UsbipClient × Outcome) → UsbipClient × Outcome
continue (c, terminates) rest = (c, terminates)
continue (c, returns b) rest = rest c

-- The callbacks for the events of a call, in order.
unfoldable pub on_events : UsbipClient → List Event → UsbipClient × Outcome
unfolding on_network_connect on_network_error
on_events c [] = (c, returns true)
on_events c (notify_error ∷ events) = on_events (on_network_error c) events
on_events c (data_received bytes ∷ events) = on_events c events
on_events c (closed_fd fd ∷ events) = on_events c events
on_events c (notify_connect up ∷ events) =
    continue (on_network_connect c up) (λ c'. on_events c' events)

-- `tcp_client_->Close()`.
unfoldable pub close_socket : UsbipClient → UsbipClient × Outcome
unfolding on_events
close_socket c = let (s, events) = close c.socket in on_events (record c { socket = s }) events

-- The receive thread leaves its loop: the peer has closed the connection, or `recv` failed, which it
-- reports first.
unfoldable pub receive_end : UsbipClient → Bool → UsbipClient × Outcome
unfolding on_events
receive_end c broken =
    let (s, events) = receive_thread_end c.socket in
    on_events (record c { socket = s }) (if broken then notify_error ∷ events else events)

-- The loop that waits for the confirmation, with `n` rounds left; `ends` says for each round whether
-- the receive thread ends before it.
unfoldable pub wait_for_confirmation : ℕ → UsbipClient → (ℕ → Bool) → UsbipClient × Outcome
unfolding receive_end close_socket
wait_for_confirmation zero c ends = continue (close_socket c) (λ c'. (c', returns false))
wait_for_confirmation (suc n) c ends =
    continue (if ends n && c.socket.is_connected then receive_end c false else (c, returns true))
      (λ c'.
        let rest = wait_for_confirmation n c' ends in
        if c'.connected then (c', returns true) else rest)

-- The rest of `Connect`, with what the socket's `Connect` did.
unfoldable pub after_connect :
    UsbipClient → TcpSocket × Outcome × List Event → (ℕ → Bool) → UsbipClient × Outcome
unfolding wait_for_confirmation on_events
after_connect c (s, terminates, events) ends = (record c { socket = s }, terminates)
after_connect c (s, returns false, events) ends =
    continue (on_events (record c { socket = s }) events) (λ c'. (c', returns false))
after_connect c (s, returns true, events) ends =
    continue (on_events (record c { socket = s }) events) (λ c'. wait_for_confirmation 50 c' ends)

-- `UsbipClient::Connect`.
unfoldable pub connect_client :
    UsbipClient → Bytes → ℕ → ConnectCalls → (ℕ → Bool) → UsbipClient × Outcome
unfolding after_connect
connect_client c host port calls ends =
    let c' = record c { server_host = host; server_port = port } in
    if c.connected then (c, returns true) else after_connect c' (connect c.socket calls) ends

unfoldable pub disconnect : UsbipClient → UsbipClient × Outcome
unfolding close_socket stop_heartbeat
disconnect c =
    if not c.connected
    then (c, returns true)
    else continue (close_socket (stop_heartbeat c))
        (λ c'. (record c' { connected = false }, returns true))

-- The guard of every request, and its `Send`: its state and the bytes that the kernel took.
send_request : UsbipClient → NetworkMessage × ℕ → ℕ → List SendAnswer → (SendState × Bytes) × ℕ
send_request c (m, seq') seq answers =
    if c.connected
    then (send c.socket (serialize_message m) answers, seq')
    else ((finished false, []), seq)

-- What a `Send` of the client leaves of it: a failure has called `OnNetworkError`.
unfoldable pub sent : UsbipClient → NetworkMessage → List SendAnswer → UsbipClient
unfolding on_events
sent c m answers =
    if c.connected then (on_events c (send_errors c.socket (serialize_message m) answers)).0 else c

unfoldable pub request_device_list : UsbipClient → ℕ → List SendAnswer → (SendState × Bytes) × ℕ
unfolding send_request
request_device_list c seq answers = send_request c (create_device_list_request seq) seq answers

unfoldable pub after_list_request : UsbipClient → ℕ → List SendAnswer → UsbipClient
unfolding sent
after_list_request c seq answers = sent c (create_device_list_request seq).0 answers

unfoldable pub import_device : UsbipClient → Bytes → ℕ → List SendAnswer → (SendState × Bytes) × ℕ
unfolding send_request
import_device c bus_id seq answers =
    send_request c (create_device_import_request bus_id seq) seq answers

unfoldable pub after_import_request : UsbipClient → Bytes → ℕ → List SendAnswer → UsbipClient
unfolding sent
after_import_request c bus_id seq answers =
    sent c (create_device_import_request bus_id seq).0 answers

unfoldable pub send_urb_response :
    UsbipClient → UsbUrb → ℕ → List SendAnswer → (SendState × Bytes) × ℕ
unfolding send_request
send_urb_response c urb seq answers = send_request c (create_urb_response urb seq) seq answers

unfoldable pub after_urb_response : UsbipClient → UsbUrb → ℕ → List SendAnswer → UsbipClient
unfolding sent
after_urb_response c urb seq answers = sent c (create_urb_response urb seq).0 answers

-- A round of `HeartbeatThread` once its sleep is over: `none` if it leaves the loop.
unfoldable pub heartbeat_round :
    UsbipClient → ℕ → List SendAnswer → Option (UsbipClient × ((SendState × Bytes) × ℕ))
unfolding sent
heartbeat_round c seq answers =
    let (m, seq') = create_heartbeat seq in
    if c.heartbeat_running && c.connected
    then some (sent c m answers, (send c.socket (serialize_message m) answers, seq'))
    else none
