-- ===== src/Sender/Device.antt =====
-- sender/usb/usb_device_manager.h and usb_device_manager.cpp: the class UsbDevice, a device of libusb
-- with its handle. The answers of libusb are arguments, and an operation returns the calls it made.
pub mod Session
pub mod Life
pub mod Naming
use usb_lib.Prelude.{
  ℕ, zero, suc, ◌-◌, List, [], ◌∷◌, ◌++◌, map, Bool, true, false, ◌&&◌, not, Option, none, some,
  ◌==◌, if◌then◌else◌, length, take, replicate,
}
use usb_lib.Words.{Bytes}
use usb_lib.Text.{codes, to_string}
use usb_lib.Capture.{erase_first}
use usb_lib.Usb.{UsbSetupPacket, UsbDeviceDescriptor, UsbDevice}

-- What libusb says of a device. `descriptor` and `active_config` are `none` where the call fails; the
-- latter is `wTotalLength` and the memory from the returned struct on.
pub record LibusbDevice : Type 0 where
  pub bus_number : ℕ
  pub device_address : ℕ
  pub device_speed : ℕ
  pub descriptor : Option UsbDeviceDescriptor
  pub active_config : Option (ℕ × Bytes)

-- The calls of libusb on a handle, with the answer where the protocol depends on it.
pub data Call : Type 0 where
  call_open : Option ℕ → Call
  call_close : ℕ → Call
  call_claim : ℕ → ℕ → Bool → Call
  call_release : ℕ → ℕ → Call
  call_control : ℕ → UsbSetupPacket → Call
  call_bulk call_interrupt : ℕ → ℕ → ℕ → Call
  call_string : ℕ → ℕ → Call
  call_submit : ℕ → Call  -- with the transfer's own handle

-- `handle` is `none` for the null pointer.
pub record SenderUsbDevice : Type 0 where
  pub device : LibusbDevice
  pub handle : Option ℕ
  pub info : UsbDevice
  pub claimed_interfaces : List ℕ

-- `setw(3)` with `setfill('0')`.
abbrev pub pad3 : Bytes → Bytes
pad3 text = replicate (3 - length text) 48 ++ text

unfoldable pub get_path : LibusbDevice → Bytes
get_path d =
    codes "/dev/bus/usb/"
    ++ (pad3 (to_string d.bus_number) ++ (47 ∷ pad3 (to_string d.device_address)))

unfoldable pub get_bus_id : LibusbDevice → Bytes
get_bus_id d = to_string d.bus_number ++ (45 ∷ to_string d.device_address)

-- The copy of `GetConfigDescriptor` and `LoadDeviceInfo`, empty where the call fails.
unfoldable pub config_bytes : Option (ℕ × Bytes) → Bytes
config_bytes none = []
config_bytes (some (total, memory)) = take total memory

-- The descriptor of a `protocol::UsbDevice` that nothing has filled in.
abbrev pub no_descriptor : UsbDeviceDescriptor
no_descriptor = record {
  length = 0;
  descriptor_type = 0;
  bcd_usb = 0;
  device_class = 0;
  device_sub_class = 0;
  device_protocol = 0;
  max_packet_size0 = 0;
  id_vendor = 0;
  id_product = 0;
  bcd_device = 0;
  manufacturer = 0;
  product = 0;
  serial_number = 0;
  num_configurations = 0;
}

-- `unset` is what the descriptor holds if libusb does not give one.
unfoldable pub load_device_info : LibusbDevice → UsbDeviceDescriptor → UsbDevice
unfolding config_bytes get_path get_bus_id
load_device_info d unset = record {
  path = get_path d;
  bus_id = get_bus_id d;
  bus_number = d.bus_number;
  device_number = d.device_address;
  speed = d.device_speed;
  descriptor = elim (d.descriptor) [ none ↦ unset | some desc ↦ desc ];
  config_descriptor = config_bytes d.active_config;
  is_connected = true;
}

-- The constructor of the class.
unfoldable pub new_device : LibusbDevice → UsbDeviceDescriptor → SenderUsbDevice
unfolding load_device_info
new_device d unset = record {
  device = d;
  handle = none;
  info = load_device_info d unset;
  claimed_interfaces = [];
}

-- An operation's result: the device, the value it returns, and its calls.
abbrev pub Result : Type 0
Result = SenderUsbDevice × Bool × List Call

-- `answer` is the handle that `libusb_open` gives, `none` if it fails.
unfoldable pub open_device : SenderUsbDevice → Option ℕ → Result
open_device d answer = elim (d.handle) [
  | some h ↦ (d, true, [])
  | none ↦ elim answer [
    | none ↦ (d, false, call_open none ∷ [])
    | some h ↦ (record d { handle = some h }, true, call_open (some h) ∷ [])
  ]
]

unfoldable pub releases : Option ℕ → List ℕ → List Call
releases none ns = []
releases (some h) [] = []
releases (some h) (n ∷ ns) = call_release h n ∷ releases (some h) ns

unfoldable pub closes : Option ℕ → List Call
closes none = []
closes (some h) = call_close h ∷ []

-- The releases' answers are ignored.
unfoldable pub close_device : SenderUsbDevice → Result
unfolding releases closes
close_device d = (
  record d { handle = none; claimed_interfaces = [] },
  true,
  releases d.handle d.claimed_interfaces ++ closes d.handle,
)

unfoldable pub claim_interface : SenderUsbDevice → ℕ → Bool → Result
claim_interface d n ok = elim (d.handle) [
  | none ↦ (d, false, [])
  | some h ↦
      if ok
      then (
        record d { claimed_interfaces = d.claimed_interfaces ++ (n ∷ []) },
        true,
        call_claim h n true ∷ [],
      )
      else (d, false, call_claim h n false ∷ [])
]

-- `std::find` and `erase`: the first entry goes.
unfoldable pub release_interface : SenderUsbDevice → ℕ → Bool → Result
unfolding erase_first
release_interface d n ok = elim (d.handle) [
  | none ↦ (d, true, [])
  | some h ↦
      if ok
      then (
        record d { claimed_interfaces = erase_first n d.claimed_interfaces },
        true,
        call_release h n ∷ [],
      )
      else (d, false, call_release h n ∷ [])
]

-- The guard of every transfer, and its call; `ok` says whether the call succeeds.
unfoldable pub transfer : SenderUsbDevice → (ℕ → Call) → Bool → Result
transfer d call ok = elim (d.handle) [ none ↦ (d, false, []) | some h ↦ (d, ok, call h ∷ []) ]

-- `answer` is the number of bytes, `none` for an error; with the result comes what is written to
-- `actual_length`.
unfoldable pub control_transfer : SenderUsbDevice → UsbSetupPacket → Option ℕ → Result × Option ℕ
unfolding transfer
control_transfer d setup answer = elim answer [
  | none ↦ (transfer d (λ h. call_control h setup) false, none)
  | some n ↦ (
    transfer d (λ h. call_control h setup) true,
    elim (d.handle) [ none ↦ none | some h ↦ some n ],
  )
]

unfoldable pub bulk_transfer : SenderUsbDevice → ℕ → ℕ → Bool → Result
unfolding transfer
bulk_transfer d endpoint size ok = transfer d (λ h. call_bulk h endpoint size) ok

unfoldable pub interrupt_transfer : SenderUsbDevice → ℕ → ℕ → Bool → Result
unfolding transfer
interrupt_transfer d endpoint size ok = transfer d (λ h. call_interrupt h endpoint size) ok

-- `SubmitTransfer`: `own` is the handle of the transfer; `ok` says whether libusb takes it.
unfoldable pub submit_transfer : SenderUsbDevice → ℕ → Bool → Result
unfolding transfer
submit_transfer d own ok = transfer d (λ h. call_submit own) ok

-- `answer` is the text that libusb writes, of 256 bytes at most; with the result comes the text.
unfoldable pub get_string_descriptor : SenderUsbDevice → ℕ → Option Bytes → Result × Option Bytes
unfolding transfer
get_string_descriptor d index answer = elim answer [
  | none ↦ (transfer d (λ h. call_string h index) false, none)
  | some text ↦ (
    transfer d (λ h. call_string h index) true,
    elim (d.handle) [ none ↦ none | some h ↦ some text ],
  )
]

unfoldable pub get_device_descriptor : SenderUsbDevice → Option UsbDeviceDescriptor
get_device_descriptor d = d.device.descriptor

unfoldable pub get_config_descriptor : SenderUsbDevice → Option Bytes
unfolding config_bytes
get_config_descriptor d = elim (d.device.active_config) [
  | none ↦ none
  | some config ↦ some (config_bytes (some config))
]
