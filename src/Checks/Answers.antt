-- ===== src/Checks/Answers.antt =====
-- The theorems on what the receiver answers and gives back, and on the log, at concrete inputs.
use usb_lib.Prelude.{
  ℕ, ◌≡◌, ◌↔◌, refl, List, [], ◌∷◌, true, some, All, length, arith, append-nil, if◌then◌else◌,
}
use usb_lib.Words.{image32}
use usb_lib.Text.{codes}
use usb_lib.Usb.{UsbUrb}
use usb_lib.Usbip.{UsbipDeviceInfo}
use usb_lib.Logger.{Logger, Clock, info, debug, error}
use usb_lib.Logger.Filter.{
  Call, log_all, console_lines, file_lines, severe_lines, has_open_file, log_all-severe_lines,
}
use usb_lib.Message.{
  NetworkMessage, receive_all, serialize_message, image_message_header, create_urb_response,
  network_message,
}
use usb_lib.Socket.{SendAnswer, took, tcp_socket, send, send_loop}
use usb_lib.Client.Connection.{send_urb_response}
use usb_lib.Ports.Alloc.{InUse}
use usb_lib.Virtual.Urb.{process_urb}
use usb_lib.Receiver.{UsbReceiver, ImportCalls, returned, on_urb_received}
use usb_lib.Receiver.Holdings.{NoneHolds}
use usb_lib.Receiver.Program.{ended, stop}
use usb_lib.Receiver.Restored.{receive_lists, stop-receive_lists}
use usb_lib.Receiver.Respond.{receive_urb, receive_urbs}
use usb_lib.Receiver.Respond.Ignored.{IsReady, AllSent, IsIgnored, receive_urbs-IsIgnored}
use usb_lib.Checks.{stick_info, bulk_out}
use usb_lib.Checks.Clients.{up_client-IsCoherent}
use usb_lib.Checks.Imports.{import_calls, request_fits}
use usb_lib.Checks.Programs.{at_work}

-- The same device list comes twice.
abbrev lists : List (List (UsbipDeviceInfo × ImportCalls))
lists = ((stick_info, import_calls) ∷ []) ∷ ((stick_info, import_calls) ∷ []) ∷ []

stop-receive_lists_example :
    (r : UsbReceiver) × (receive_lists at_work.receiver lists ≡ returned true r)
    × (let s = stop (record at_work { receiver = r }) in
        (s.1 ≡ ended true)
        × (s.0.receiver.virtual_devices ≡ [])
        × ((q : ℕ)
            → InUse s.0.receiver.table.usage q ↔ (
                InUse at_work.receiver.table.usage q
                × NoneHolds at_work.receiver.virtual_devices q)))
stop-receive_lists_example =
    stop-receive_lists at_work lists refl up_client-IsCoherent refl
      (refl, refl, (1, refl, refl, tt), tt) ((request_fits, tt), ((request_fits, tt), tt))

at_work-IsReady : IsReady at_work
unfolding tcp_socket
at_work-IsReady = record {
  connected = refl;
  online = refl;
  opened = refl;
  attached = refl;
  sequence_u32 = omega arith;
}

-- `send` takes the 20 bytes of the answer at once.
abbrev urbs : List (UsbUrb × List SendAnswer)
urbs = (bulk_out, took 20 ∷ []) ∷ []

urbs-AllSent : AllSent at_work urbs
unfolding receive_urb send_urb_response send send_loop serialize_message image_message_header
    image32 create_urb_response network_message on_urb_received process_urb tcp_socket
urbs-AllSent = ((omega arith, tt), refl, tt)

receive_urbs-IsIgnored_example :
    (ms : List NetworkMessage) × (receive_all [] (receive_urbs at_work urbs ∷ []) ≡ some (ms, []))
    × (length ms ≡ length urbs)
    × All IsIgnored ms
receive_urbs-IsIgnored_example =
    receive_urbs-IsIgnored at_work urbs (receive_urbs at_work urbs ∷ []) at_work-IsReady
      urbs-AllSent (append-nil (receive_urbs at_work urbs))

abbrev clock : Clock
clock = record { date = codes "2024-05-01 10:00:00"; milliseconds = 1714557600007 }

-- A logger as the programs set it, with a file.
abbrev to_both : Logger
to_both = record {
  log_level = info;
  console_output = true;
  log_file = some (codes "usb.log", true);
}

abbrev log_calls : List Call
log_calls =
    record { clock = clock; level = debug; source = codes "src/a.cpp"; line = 3; message = [] }
    ∷ record {
      clock = clock;
      level = error;
      source = codes "src/b.cpp";
      line = 14;
      message = codes "lost";
    }
    ∷ []

log_all-severe_lines_example :
    (console_lines (log_all to_both log_calls)
      ≡ (if to_both.console_output then severe_lines to_both log_calls else []))
    × (file_lines (log_all to_both log_calls)
        ≡ (if has_open_file to_both then severe_lines to_both log_calls else []))
log_all-severe_lines_example = log_all-severe_lines to_both log_calls
