-- ===== src/Checks/Reverses.antt =====
-- The theorems on the reverse client, at concrete inputs.
use usb_lib.Prelude.{refl, [], ◌∷◌, true, false, some}
use usb_lib.Message.{create_heartbeat}
use usb_lib.Socket.{ConnectCalls, tcp_socket, took}
use usb_lib.Socket.Attempt.{online}
use usb_lib.Sender.Reverse.{ReverseClient, reverse_client, receive_end}
use usb_lib.Sender.Reverse.Run.{
  Operation, connecting, disconnecting, enabling, losing, sending, reconnecting, run, EndedOr,
}
use usb_lib.Sender.Reverse.Lost.{IsLost, run-IsLost}
use usb_lib.Sender.Reverse.Reported.{IsReported, run-IsReported}

abbrev calls : ConnectCalls
calls = record { socket_result = some 3; address_valid = true; connect_done = true }

abbrev connect_now : Operation
connect_now = connecting (49 ∷ []) 3240 calls (λ _. false)

abbrev reconnect_now : Operation
reconnect_now = reconnecting calls (λ _. false)

abbrev say : Operation
say = sending (create_heartbeat 1).0 (took 24 ∷ [])

abbrev up_reverse : ReverseClient
up_reverse = record {
  socket = online tcp_socket 3;
  connected = true;
  auto_reconnect = false;
  should_stop = false;
  server_host = [];
  server_port = 3240;
  reconnect_interval = 5;
  reconnect_thread = true;
  reconnecting = true;
  reported = true ∷ [];
}

run-IsLost_example :
    EndedOr IsLost
      (run (receive_end up_reverse false) (enabling true 5 ∷ reconnect_now ∷ connect_now ∷ []))
run-IsLost_example =
    run-IsLost up_reverse false (enabling true 5 ∷ reconnect_now ∷ connect_now ∷ []) refl

run-IsReported_example : EndedOr IsReported (
    run reverse_client
      (enabling true 5 ∷ reconnect_now ∷ say ∷ losing true ∷ disconnecting ∷ connect_now ∷ []))
run-IsReported_example =
    run-IsReported
      (enabling true 5 ∷ reconnect_now ∷ say ∷ losing true ∷ disconnecting ∷ connect_now ∷ [])
      (tt, (tt, (tt, (tt, (tt, (tt, tt))))))
