-- ===== src/Client.antt =====
-- receiver/usbip/usbip_client.h and usbip_client.cpp: what the receiver makes of the messages. The
-- callbacks and the bytes passed to `TcpSocket::Send` are events, in order.
pub mod Urb
pub mod DeviceList
pub mod Transport
pub mod Misread
pub mod Connection
use usb_lib.Prelude.{
  ℕ, ◌+◌, ◌%◌, List, [], ◌∷◌, ◌++◌, Bool, true, false, not, ltb, ◌==◌, Option, none, some,
  if◌then◌else◌, length, arith,
}
use usb_lib.Words.{Bytes}
use usb_lib.Usb.{UsbUrb, UsbSetupPacket}
use usb_lib.Usbip.{UsbipDeviceInfo}
use usb_lib.Message.{
  NetworkMessage, type_value, device_list_response, device_import_response, urb_submit, heartbeat,
  serialize_message, create_heartbeat, create_device_list_request, create_device_import_request,
  create_urb_response,
}
use Urb.{handle_urb_submit}
use DeviceList.{handle_device_list_response}

pub data ClientEvent : Type 0 where
  device_list_callback : List UsbipDeviceInfo → ClientEvent
  urb_callback : UsbUrb → ClientEvent
  error_callback : Bytes → ClientEvent
  sends : Bytes → ClientEvent

-- The locals `success` and `error_msg`, which are logged.
unfoldable pub handle_device_import_response : Bytes → Bool × Bytes
handle_device_import_response [] = (false, [])
handle_device_import_response (b ∷ bs) =
    let success = not (b == 0) in (success, if not success then bs else [])

-- The reply to a heartbeat, with the messages' counter.
unfoldable pub handle_heartbeat : ℕ → List ClientEvent × ℕ
handle_heartbeat seq =
    let (m, seq') = create_heartbeat seq in (sends (serialize_message m) ∷ [], seq')

abbrev urb_event : Option UsbUrb → List ClientEvent
urb_event none = []
urb_event (some u) = urb_callback u ∷ []

-- `OnNetworkMessage`, with what an uninitialised setup packet holds and the clock. An import response
-- and an unknown type are only logged.
unfoldable pub on_network_message : NetworkMessage → UsbSetupPacket × ℕ → ℕ → List ClientEvent × ℕ
on_network_message m (garbage, now) seq =
    let t = m.header.type in
    if t == type_value device_list_response
    then (device_list_callback (handle_device_list_response m.payload) ∷ [], seq)
    else if t == type_value device_import_response
    then ([], seq)
    else if t == type_value urb_submit
    then (urb_event (handle_urb_submit m.payload garbage now), seq)
    else if t == type_value heartbeat
    then handle_heartbeat seq
    else ([], seq)

-- The calls for the messages of a stream; `env` gives each call its garbage and its time.
unfoldable pub on_network_messages :
    List NetworkMessage → (ℕ → UsbSetupPacket × ℕ) → ℕ → ℕ → List ClientEvent × ℕ
on_network_messages [] env k seq = ([], seq)
on_network_messages (m ∷ ms) env k seq =
    let (events, seq') = on_network_message m (env k) seq in
    let (later, last) = on_network_messages ms env (k + 1) seq' in (events ++ later, last)
