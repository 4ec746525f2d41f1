-- ===== src/Checks/Scans.antt =====
-- The theorems on the devices that the sender finds, at concrete inputs.
use usb_lib.Prelude.{[], ◌∷◌, ◌++◌, true, false, some, none, replicate}
use usb_lib.Words.{Bytes}
use usb_lib.Storage.{InitializeCalls}
use usb_lib.Sender.Device.{LibusbDevice, no_descriptor}
use usb_lib.Sender.Control.{Probe, StartCalls}

-- The header of a configuration of 32 bytes, as it stands in libusb's struct.
abbrev config_header : Bytes
config_header = 9 ∷ 2 ∷ 32 ∷ 0 ∷ 1 ∷ 1 ∷ 0 ∷ 128 ∷ 50 ∷ []

abbrev struct_memory : Bytes
struct_memory = config_header ++ (0 ∷ replicate 30 7)

-- A mass storage device.
abbrev stick : LibusbDevice
stick = record {
  bus_number = 1;
  device_address = 12;
  device_speed = 3;
  descriptor =
      some (record no_descriptor { device_class = 8; id_vendor = 1921; id_product = 21863 });
  active_config = some (32, struct_memory);
}

abbrev all_well : InitializeCalls
all_well = record {
  opened = true;
  claimed = true;
  reset = true;
  capacity = record {
    sent_16 = none;
    data_16 = none;
    sent_10 = none;
    data_10 = none;
    status = none;
  };
}

abbrev probe : Probe
probe = record { calls = all_well; word = 0; address = 4096 }

abbrev pub start_calls : StartCalls
start_calls = record {
  listen_calls = record {
    socket_result = some 3;
    option_set = true;
    is_wildcard = true;
    address_valid = false;
    bind_done = true;
    listen_done = true;
  };
  listed = some (some stick ∷ []);
  unset = no_descriptor;
  probes = λ _. probe;
  capable = true;
  hotplug_answer = some 1;
}
