-- ===== src/Client/Connection/Events.antt =====
-- What the callbacks do when the client's socket is closed or its receive thread ends.
use usb_lib.Prelude.{ℕ, ◌≡◌, refl, ◌∙◌, List, [], ◌∷◌, ◌++◌, Bool, true, false, Option, none, some}
use usb_lib.Socket.{TcpSocket, Event, closed, closed_all, returns, close, receive_thread_end}
use usb_lib.Client.Connection.{
  UsbipClient, stop_heartbeat, on_network_connect, on_network_error, on_events, close_socket,
  receive_end,
}

on_events-closed_all :
    (c : UsbipClient) (fds : List ℕ) (events : List Event)
    → on_events c (closed_all fds ++ events) ≡ on_events c events
unfolding on_events closed_all
on_events-closed_all c [] events = refl
on_events-closed_all c (fd ∷ fds) events = on_events-closed_all c fds events

on_events-closed :
    (c : UsbipClient) (fd : Option ℕ) (events : List Event)
    → on_events c (closed fd ++ events) ≡ on_events c events
unfolding on_events closed
on_events-closed c none events = refl
on_events-closed c (some fd) events = refl

-- The client once its connection is gone.
abbrev pub offline : UsbipClient → TcpSocket → UsbipClient
unfolding stop_heartbeat
offline c s = stop_heartbeat (record c { connected = false; socket = s })

pub close_socket_lem :
    (c : UsbipClient) → close_socket c ≡ (offline c (close c.socket).0, returns true)
unfolding close_socket close
close_socket_lem c =
    let c' = record c { socket = (close c.socket).0 } in
    on_events-closed c' c.socket.socket_fd _
    ∙ on_events-closed_all c' c.socket.client_fds _
    ∙ (unfold on_events on_network_connect in refl)

pub receive_end_lem :
    (c : UsbipClient) (broken : Bool)
    → receive_end c broken ≡ (offline c (record (c.socket) { is_connected = false }), returns true)
unfolding receive_end receive_thread_end on_events on_network_connect on_network_error
receive_end_lem c true = refl
receive_end_lem c false = refl
