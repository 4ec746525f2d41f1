-- ===== src/Checks/Imports.antt =====
-- The theorems on the import of devices, at concrete inputs.
use usb_lib.Prelude.{ℕ, ◌≤◌, [], ◌∷◌, true, false, some, length, replicate, arith, refl}
use usb_lib.Words.{image32}
use usb_lib.Text.{c_text}
use usb_lib.Message.{
  serialize_message, create_device_import_request, image_message_header, network_message,
}
use usb_lib.Socket.{tcp_socket, took}
use usb_lib.Socket.Send.{takes}
use usb_lib.Receiver.{UsbReceiver, ImportCalls}
use usb_lib.Receiver.Import.{Imported, import_device_internal-Imported}
use usb_lib.Checks.{stick_info}

-- Ports 1 and 2 of three are free, and there is no virtual device yet.
abbrev pub empty_receiver : UsbReceiver
empty_receiver = record {
  virtual_devices = [];
  table = record { usage = true ∷ false ∷ false ∷ []; locked = false };
  next_sequence = 1;
}

-- The shell succeeds, and the connected socket takes a byte at a time.
abbrev pub import_calls : ImportCalls
import_calls = record {
  garbage = stick_info;
  system = λ c. true;
  connected = true;
  socket = record tcp_socket { socket_fd = some 3; is_connected = true };
  answers = replicate 20 (took 1);
}

pub request_fits :
    (seq : ℕ)
    → length (serialize_message (create_device_import_request (c_text stick_info.busid) seq).0)
      ≤ takes import_calls.answers
unfolding serialize_message create_device_import_request image_message_header network_message c_text
    image32
request_fits seq = omega arith

import_device_internal-Imported_example : Imported empty_receiver stick_info import_calls
import_device_internal-Imported_example =
    import_device_internal-Imported empty_receiver stick_info import_calls refl (request_fits 1)
