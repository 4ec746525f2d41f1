-- ===== src/Checks/Programs.antt =====
-- The theorems on the receiver's program, its command line, the buffer and the capture thread, at
-- concrete inputs.
use usb_lib.Prelude.{refl, [], ◌∷◌, true, false, some}
use usb_lib.Checks.{stick_info}
use usb_lib.Checks.Clients.{up_client, up_client-IsCoherent}
use usb_lib.Virtual.{VirtualDevice, virtual_usb_device}
use usb_lib.Receiver.Program.{Program, stop}
use usb_lib.Receiver.Stop.{IsStopped, stop-IsStopped}

-- A virtual device on port 1, and a receiver that has it.
abbrev pub attached_device : VirtualDevice
attached_device = record (virtual_usb_device stick_info) {
  created = true;
  attached = true;
  port_number = some 1;
}

abbrev pub at_work : Program
at_work = record {
  running = true;
  server_host = [];
  server_port = 3240;
  client = up_client;
  receiver = record {
    virtual_devices = attached_device ∷ [];
    table = record { usage = true ∷ true ∷ false ∷ []; locked = false };
    next_sequence = 5;
  };
  manager_initialized = true;
}

stop-IsStopped_example : IsStopped at_work (stop at_work)
stop-IsStopped_example =
    stop-IsStopped at_work refl up_client-IsCoherent refl (refl, refl, (1, refl, refl, tt), tt)
