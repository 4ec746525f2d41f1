-- ===== src/Checks/Sockets.antt =====
-- The theorems on the socket, at concrete inputs.
use usb_lib.Prelude.{◌≡◌, ◌↔◌, refl, [], ◌∷◌, ◌++◌, true, false, some, arith}
use usb_lib.Words.{Bytes}
use usb_lib.Socket.{
  accept_round, accepted, listen, ListenCalls, TcpSocket, tcp_socket, connect, send, took,
  would_block, finished, ConnectCalls,
}
use usb_lib.Socket.Send.{send-connected}
use usb_lib.Socket.Server.{ServerRun, fresh, later, listens, accepts, send-ServerRun}

-- A socket whose `Connect` succeeded.
abbrev calls : ConnectCalls
calls = record { socket_result = some 3; address_valid = true; connect_done = true }

abbrev online : TcpSocket
online = (connect tcp_socket calls).0

send-connected_example :
    (rest : Bytes) × (1 ∷ 2 ∷ 3 ∷ []
      ≡ (send online (1 ∷ 2 ∷ 3 ∷ []) (took 2 ∷ would_block ∷ took 1 ∷ [])).1 ++ rest)
    × (((send online (1 ∷ 2 ∷ 3 ∷ []) (took 2 ∷ would_block ∷ took 1 ∷ [])).0 ≡ finished true)
        ↔ (rest ≡ []))
unfolding connect tcp_socket
send-connected_example =
    send-connected online (1 ∷ 2 ∷ 3 ∷ []) (took 2 ∷ would_block ∷ took 1 ∷ []) refl refl
      (omega arith, (omega arith, tt))

abbrev server_calls : ListenCalls
server_calls = record {
  socket_result = some 3;
  option_set = true;
  is_wildcard = true;
  address_valid = false;
  bind_done = true;
  listen_done = true;
}

-- The sender's socket with one client.
abbrev serving : TcpSocket
serving = (accept_round (listen tcp_socket server_calls).0 (accepted 4)).0

serving-ServerRun : ServerRun serving
serving-ServerRun = later (later fresh (listens server_calls)) (accepts (accepted 4))

send-ServerRun_example : send serving (1 ∷ 2 ∷ []) (took 2 ∷ []) ≡ (finished false, [])
send-ServerRun_example = send-ServerRun (1 ∷ 2 ∷ []) (took 2 ∷ []) serving-ServerRun
