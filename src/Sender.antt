-- ===== src/Sender.antt =====
-- sender/main.cpp: the class UsbSender, which answers the receiver's requests and sends the captured
-- URBs. A handler returns the bytes that it passes to `TcpSocket::Send`, and the messages' counter.
pub mod Pipeline
pub mod Requests
pub mod Reverse
pub mod Device
pub mod Manager
pub mod Control
pub mod Main
use usb_lib.Prelude.{
  ℕ, zero, suc, ◌+◌, ◌-◌, ◌%◌, Bool, true, false, ◌&&◌, ◌||◌, List, [], ◌∷◌, ◌++◌, Option, none,
  some, map, ◌==◌, if◌then◌else◌, replicate, length, arith,
}
use usb_lib.Words.{Bytes}
use usb_lib.Usb.{UsbUrb, UsbDevice}
use usb_lib.Usbip.{UsbipDeviceInfo}
use usb_lib.Message.{
  NetworkMessage, MessageType, type_value, device_list_request, device_import_request, heartbeat,
  serialize_message, create_device_list_response, create_device_import_response, create_heartbeat,
}
use usb_lib.Capture.Processor.{create_usbip_submit}

-- An entry of `mass_storage_devices_`: what `GetPath`, `GetBusId` and `GetDeviceInfo` return.
pub record StorageDevice : Type 0 where
  pub path : Bytes
  pub bus_id : Bytes
  pub info : UsbDevice

-- `strncpy` of a text into `n` bytes: it stops at a NUL and pads with zeros.
unfoldable pub strncpy : ℕ → Bytes → Bytes
strncpy zero text = []
strncpy (suc n) [] = 0 ∷ replicate n 0
strncpy (suc n) (c ∷ text) =
    let rest = strncpy n text in if c == 0 then replicate (suc n) 0 else c ∷ rest

-- A zeroed array of `size + 1` bytes after `strncpy(array, text, size)`.
unfoldable pub text_field : ℕ → Bytes → Bytes
unfolding strncpy
text_field size text = strncpy size text ++ (0 ∷ [])

unfoldable pub device_info : StorageDevice → UsbipDeviceInfo
unfolding text_field
device_info d =
    let desc = d.info.descriptor in
    record {
      path = text_field 255 d.path;
      busid = text_field 31 d.bus_id;
      busnum = d.info.bus_number;
      devnum = d.info.device_number;
      speed = d.info.speed;
      id_vendor = desc.id_vendor;
      id_product = desc.id_product;
      bcd_device = desc.bcd_device;
      device_class = desc.device_class;
      device_sub_class = desc.device_sub_class;
      device_protocol = desc.device_protocol;
      configuration_value = 1;
      num_configurations = desc.num_configurations;
      num_interfaces = 1;
    }

-- `==` of two strings.
unfoldable pub same_text : Bytes → Bytes → Bool
same_text [] [] = true
same_text [] (b ∷ bs) = false
same_text (a ∷ as') [] = false
same_text (a ∷ as') (b ∷ bs) = a == b && same_text as' bs

-- The search loop of `HandleDeviceImportRequest`.
unfoldable pub has_device : List StorageDevice → Bytes → Bool
unfolding same_text
has_device [] bus_id = false
has_device (d ∷ ds) bus_id = if same_text d.bus_id bus_id then true else has_device ds bus_id

-- "Device not found"
abbrev pub device_not_found : Bytes
device_not_found =
    68 ∷ 101 ∷ 118 ∷ 105 ∷ 99 ∷ 101 ∷ 32 ∷ 110 ∷ 111 ∷ 116 ∷ 32 ∷ 102 ∷ 111 ∷ 117 ∷ 110 ∷ 100 ∷ []

abbrev sending : NetworkMessage × ℕ → Bytes × ℕ
sending (m, seq) = (serialize_message m, seq)

unfoldable pub handle_device_list_request : List StorageDevice → ℕ → Bytes × ℕ
handle_device_list_request ds seq = sending (create_device_list_response (map device_info ds) seq)

unfoldable pub handle_device_import_request : List StorageDevice → NetworkMessage → ℕ → Bytes × ℕ
handle_device_import_request ds m seq =
    let found = has_device ds m.payload in
    sending (create_device_import_response found (if found then [] else device_not_found) seq)

unfoldable pub handle_heartbeat : ℕ → Bytes × ℕ
handle_heartbeat seq = sending (create_heartbeat seq)

-- `none`: the message type is unknown and nothing is sent.
unfoldable pub on_network_message : List StorageDevice → NetworkMessage → ℕ → Option Bytes × ℕ
on_network_message ds m seq =
    let listed = handle_device_list_request ds seq in
    let imported = handle_device_import_request ds m seq in
    let beat = handle_heartbeat seq in
    if m.header.type == type_value device_list_request
    then (some (listed.0), listed.1)
    else if m.header.type == type_value device_import_request
    then (some (imported.0), imported.1)
    else if m.header.type == type_value heartbeat
    then (some (beat.0), beat.1)
    else (none, seq)

-- Each captured URB goes through a new UrbProcessor, whose counter starts at 1.
unfoldable pub captured_message : UsbUrb → ℕ → NetworkMessage × ℕ
captured_message urb seq = let (m, next, seq') = create_usbip_submit urb 1 seq in (m, seq')

unfoldable pub on_urb_captured : UsbUrb → ℕ → Bytes × ℕ
unfolding captured_message
on_urb_captured urb seq = sending (captured_message urb seq)

-- The URBs that the capture thread passes to the callback, one after the other: the bytes for the
-- connection.
unfoldable pub wire_of : List UsbUrb → ℕ → Bytes
wire_of [] seq = []
wire_of (u ∷ us) seq = let (bytes, seq') = on_urb_captured u seq in bytes ++ wire_of us seq'
