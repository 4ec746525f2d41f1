-- ===== src/Checks.antt =====
-- The inputs on which the theorems are tried out: messages, transfers, devices and replies.
pub mod Wire
pub mod Devices
pub mod Imports
pub mod Sockets
pub mod Storages
pub mod Clients
pub mod Reverses
pub mod Handles
pub mod Hotplugs
pub mod Scans
pub mod Programs
pub mod Stops
pub mod Mains
pub mod Answers
use usb_lib.Prelude.{
  ℕ, List, [], ◌∷◌, ◌++◌, Bool, true, false, none, some, replicate, inl, inr, refl, arith,
}
use usb_lib.Words.{Bytes}
use usb_lib.Usb.{UsbSetupPacket, UsbUrb, UsbDevice, IsSetup, control, bulk, dir_out, dir_in}
use usb_lib.Usbip.{UsbipDeviceInfo, UsbipCmdSubmit, UsbipRetSubmit}
use usb_lib.Message.{
  NetworkMessage, network_message, heartbeat, urb_submit, type_value, message_magic,
}
use usb_lib.Message.Frame.{IsMessage}
use usb_lib.Client.Transport.{IsSubmittable}
use usb_lib.Sender.{StorageDevice}
use usb_lib.Sender.Pipeline.{IsSendable}

abbrev pub no_setup : UsbSetupPacket
no_setup = record { request_type = 0; request = 0; value = 0; index = 0; setup_length = 0 }

-- A heartbeat, and a message of three bytes.
abbrev pub beat : NetworkMessage
beat = record {
  header = record { magic = message_magic; type = 8; length = 0; sequence = 7; checksum = 0 };
  payload = [];
}

abbrev pub three_bytes : NetworkMessage
three_bytes = record {
  header = record { magic = message_magic; type = 5; length = 3; sequence = 8; checksum = 0 };
  payload = 10 ∷ 20 ∷ 30 ∷ [];
}

pub beat-IsMessage : IsMessage beat
beat-IsMessage = record {
  magic_right = refl;
  type_u32 = omega arith;
  length_right = refl;
  within_limit = omega arith;
  sequence_u32 = omega arith;
}

pub three_bytes-IsMessage : IsMessage three_bytes
three_bytes-IsMessage = record {
  magic_right = refl;
  type_u32 = omega arith;
  length_right = refl;
  within_limit = omega arith;
  sequence_u32 = omega arith;
}

-- A bulk transfer of four bytes to endpoint 2.
abbrev pub bulk_out : UsbUrb
bulk_out = record {
  id = 77;
  transfer_type = bulk;
  direction = dir_out;
  endpoint = 2;
  flags = 5;
  data_bytes = 1 ∷ 2 ∷ 3 ∷ 4 ∷ [];
  setup = no_setup;
  status = 0;
  actual_length = 4;
  timestamp = 1000;
}

-- A control transfer that sets configuration 1.
abbrev pub set_configuration_1 : UsbUrb
set_configuration_1 = record {
  id = 78;
  transfer_type = control;
  direction = dir_out;
  endpoint = 0;
  flags = 0;
  data_bytes = [];
  setup = record { request_type = 0; request = 9; value = 1; index = 0; setup_length = 0 };
  status = 0;
  actual_length = 0;
  timestamp = 1001;
}

-- A bulk transfer from the device with `n` zero bytes.
abbrev pub bulk_in : ℕ → UsbUrb
bulk_in n = record bulk_out {
  direction = dir_in;
  endpoint = 129;
  data_bytes = replicate n 0;
  actual_length = n;
}

pub no_setup-IsSetup : IsSetup no_setup
no_setup-IsSetup = record {
  request_type_u8 = omega arith;
  request_u8 = omega arith;
  value_u16 = omega arith;
  index_u16 = omega arith;
  length_u16 = omega arith;
}

pub bulk_out-IsSubmittable : IsSubmittable bulk_out
bulk_out-IsSubmittable = record {
  endpoint_u8 = omega arith;
  flags_u32 = omega arith;
  setup_valid = no_setup-IsSetup;
  size_s32 = omega arith;
  kind = inr ((λ e. absurd (omega arith)), refl);
}

set_configuration_1-IsSubmittable : IsSubmittable set_configuration_1
set_configuration_1-IsSubmittable = record {
  endpoint_u8 = omega arith;
  flags_u32 = omega arith;
  setup_valid = record {
    request_type_u8 = omega arith;
    request_u8 = omega arith;
    value_u16 = omega arith;
    index_u16 = omega arith;
    length_u16 = omega arith;
  };
  size_s32 = omega arith;
  kind = inl (refl, refl);
}

pub bulk_out-IsSendable : IsSendable bulk_out
bulk_out-IsSendable = record {
  submittable = bulk_out-IsSubmittable;
  outward = refl;
  fits = omega arith;
}

pub set_configuration_1-IsSendable : IsSendable set_configuration_1
set_configuration_1-IsSendable = record {
  submittable = set_configuration_1-IsSubmittable;
  outward = refl;
  fits = omega arith;
}

-- A stick at bus id "1-2".
abbrev pub stick : StorageDevice
stick = record {
  path = 47 ∷ 100 ∷ [];
  bus_id = 49 ∷ 45 ∷ 50 ∷ [];
  info = record {
    path = 47 ∷ 100 ∷ [];
    bus_id = 49 ∷ 45 ∷ 50 ∷ [];
    bus_number = 1;
    device_number = 2;
    speed = 3;
    descriptor = record {
      length = 18;
      descriptor_type = 1;
      bcd_usb = 512;
      device_class = 8;
      device_sub_class = 6;
      device_protocol = 80;
      max_packet_size0 = 64;
      id_vendor = 1921;
      id_product = 21888;
      bcd_device = 256;
      manufacturer = 1;
      product = 2;
      serial_number = 3;
      num_configurations = 1;
    };
    config_descriptor = [];
    is_connected = true;
  };
}

abbrev pub stick_info : UsbipDeviceInfo
stick_info = record {
  path = replicate 256 0;
  busid = replicate 32 0;
  busnum = 1;
  devnum = 2;
  speed = 3;
  id_vendor = 1921;
  id_product = 21888;
  bcd_device = 256;
  device_class = 8;
  device_sub_class = 6;
  device_protocol = 80;
  configuration_value = 1;
  num_configurations = 1;
  num_interfaces = 1;
}

abbrev pub a_command : UsbipCmdSubmit
a_command = record {
  header = record { command = 1; seqnum = 9; devid = 1; direction = 0; ep = 2 };
  transfer_flags = 5;
  transfer_buffer_length = 4;
  start_frame = 0;
  number_of_packets = 0;
  interval = 0;
  setup = 0;
}

abbrev pub a_reply : UsbipRetSubmit
a_reply = record {
  header = record { command = 3; seqnum = 9; devid = 1; direction = 1; ep = 2 };
  status = 0;
  actual_length = 4;
  start_frame = 0;
  number_of_packets = 0;
  error_count = 0;
}
