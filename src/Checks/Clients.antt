-- ===== src/Checks/Clients.antt =====
-- The theorems on the receiver's client, at concrete inputs.
use usb_lib.Prelude.{◌≡◌, ◌⊎◌, refl, inr, List, [], ◌∷◌, true, false, some}
use usb_lib.Socket.{ConnectCalls, tcp_socket, terminates}
use usb_lib.Socket.Attempt.{online}
use usb_lib.Client.Connection.{UsbipClient, usbip_client, receive_end}
use usb_lib.Client.Connection.Coherent.{IsCoherent, IsSafe, usbip_client-IsCoherent}
use usb_lib.Client.Connection.Run.{
  Operation, connecting, disconnecting, losing, starting, stopping, run, Reaches, run-IsSafe,
}
use usb_lib.Client.Connection.Lost.{EndedOrLost, run-receive_end}

abbrev calls : ConnectCalls
calls = record { socket_result = some 3; address_valid = true; connect_done = true }

abbrev connect_now : Operation
connect_now = connecting (49 ∷ []) 3240 calls (λ _. false)

-- A session, a loss, and the reconnection of the receiver's main loop.
abbrev session : List Operation
session =
    connect_now
    ∷ stopping
    ∷ starting 10
    ∷ disconnecting
    ∷ connect_now
    ∷ losing true
    ∷ connect_now
    ∷ []

run-IsSafe_example :
    IsSafe (run usbip_client session)
    ⊎ (((run usbip_client session).1 ≡ terminates) × Reaches usbip_client session)
run-IsSafe_example = run-IsSafe usbip_client session usbip_client-IsCoherent

abbrev pub up_client : UsbipClient
up_client = record {
  socket = online tcp_socket 3;
  connected = true;
  heartbeat_running = true;
  heartbeat_thread = true;
  heartbeat_interval = 30;
  server_host = [];
  server_port = 3240;
}

pub up_client-IsCoherent : IsCoherent up_client
unfolding tcp_socket
up_client-IsCoherent = record {
  thread_flag = refl;
  online_flag = inr refl;
  receiving = inr refl;
  opened = inr refl;
}

run-receive_end_example :
    EndedOrLost (run (receive_end up_client true).0 (connect_now ∷ starting 30 ∷ []))
unfolding tcp_socket
run-receive_end_example =
    run-receive_end up_client true (connect_now ∷ starting 30 ∷ []) up_client-IsCoherent refl
