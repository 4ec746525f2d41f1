-- ===== src/Checks/Handles.antt =====
-- The theorems on the handles and the names of libusb's devices, at concrete inputs.
use usb_lib.Prelude.{◌≡◌, List, [], ◌∷◌, true, some, none}
use usb_lib.Checks.{no_setup}
use usb_lib.Sender.Device.{LibusbDevice, new_device, no_descriptor}
use usb_lib.Sender.Device.Session.{idle, accepts, Follows}
use usb_lib.Sender.Device.Life.{
  Operation, opening, closing, claiming, submitting, releasing, controlling, moving_bulk, run, life,
  run-Session,
}

abbrev stick : LibusbDevice
stick = record {
  bus_number = 1;
  device_address = 12;
  device_speed = 3;
  descriptor = some no_descriptor;
  active_config = none;
}

-- Interface 0 is claimed twice and released once before the handle is closed.
abbrev use_of_stick : List Operation
use_of_stick =
    claiming 0 true
    ∷ opening (some 7)
    ∷ opening (some 8)
    ∷ claiming 0 true
    ∷ claiming 0 true
    ∷ releasing 0 true
    ∷ moving_bulk 129 512 true
    ∷ controlling no_setup none
    ∷ claiming 1 true
    ∷ closing
    ∷ moving_bulk 129 512 true
    ∷ opening (some 9)
    ∷ claiming 0 true
    ∷ submitting 9 true
    ∷ []

run-Session_example :
    Follows idle (run (new_device stick no_descriptor) use_of_stick)
    × (accepts idle (life (new_device stick no_descriptor) use_of_stick) ≡ some idle)
run-Session_example = run-Session stick no_descriptor use_of_stick
