-- ===== src/Checks/Mains.antt =====
-- The theorems on the two programs' `main`, at concrete inputs.
use usb_lib.Prelude.{◌≡◌, refl, List, [], ◌∷◌, ◌++◌, true, false, some}
use usb_lib.Words.{image32}
use usb_lib.Message.{
  serialize_message, image_message_header, create_device_list_request, network_message,
}
use usb_lib.Socket.{tcp_socket, took, connect, send, send_loop, send_errors, loop_errors}
use usb_lib.Client.Connection.{
  usbip_client, connect_client, request_device_list, after_list_request, sent, on_events,
}
use usb_lib.Virtual.Manager.{initialize}
use usb_lib.Receiver.Options.{no_options}
use usb_lib.Receiver.Program.{initialize_receiver}
use usb_lib.Receiver.Main as Main
use usb_lib.Receiver.Main.Signals.{without_signals, run-early_signals}
use usb_lib.Sender.Control.{usb_sender, initialize_sender}
use usb_lib.Sender.Main as SenderMain
use usb_lib.Sender.Main.Exit.{is_signalled, ends_well, run-exit_code}
use usb_lib.Checks.Scans.{start_calls}

-- The network lets a connection through, and `send` takes 20 bytes and then 8.
abbrev calls : Main.TickCalls
calls = record {
  modprobe = true;
  link = record {
    connect_calls = record { socket_result = some 3; address_valid = true; connect_done = true };
    ends = λ _. false;
    answers = took 20 ∷ took 8 ∷ [];
  };
  answers = [];
}

-- Signals before each part of `Start`.
abbrev early : List Main.Event
early =
    Main.ticks calls
    ∷ Main.signals
    ∷ Main.ticks calls
    ∷ Main.signals
    ∷ Main.ticks calls
    ∷ Main.ticks calls
    ∷ Main.signals
    ∷ []

early_marks :
    (Main.run no_options
      (Main.go Main.constructing (Main.usb_receiver 1))
      (without_signals early)).phase
    ≡ Main.marking
unfolding Main.run without_signals Main.usb_receiver initialize_receiver initialize connect_client
    usbip_client connect tcp_socket request_device_list send send_loop serialize_message
    after_list_request sent send_errors loop_errors on_events image_message_header image32
    create_device_list_request network_message
early_marks = refl

run-early_signals_example :
    let m = Main.go Main.constructing (Main.usb_receiver 1) in
    let r = Main.run no_options m (early ++ (Main.ticks calls ∷ [])) in
    (r ≡ Main.run no_options m (without_signals early ++ (Main.ticks calls ∷ [])))
    × (r.phase ≡ Main.acting)
    × (r.program.running ≡ true)
run-early_signals_example = run-early_signals no_options 1 early calls early_marks

-- The sender with a signal before it has begun, and another one in `Start`.
abbrev sender_calls : SenderMain.TickCalls
sender_calls = record { libusb = some 1; start_calls = start_calls }

abbrev sender_events : List SenderMain.Event
sender_events =
    SenderMain.signals
    ∷ SenderMain.ticks sender_calls
    ∷ SenderMain.ticks sender_calls
    ∷ SenderMain.signals
    ∷ SenderMain.ticks sender_calls
    ∷ SenderMain.ticks sender_calls
    ∷ []

sender_calm : is_signalled SenderMain.begin_main sender_events ≡ false
unfolding is_signalled usb_sender SenderMain.tick SenderMain.signal_handler initialize_sender
sender_calm = refl

run-exit_code_example :
    let m = SenderMain.run SenderMain.begin_main sender_events in
    (ends_well m.phase ≡ false) × (m.phase ≡ SenderMain.looping → m.program.running ≡ true)
run-exit_code_example = run-exit_code sender_events sender_calm
