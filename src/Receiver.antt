-- ===== src/Receiver.antt =====
-- receiver/main.cpp, the class UsbReceiver: how a device of the sender becomes a virtual device, and how
-- that is undone when a step fails; and `ImportDevice` of receiver/usbip/usbip_client.cpp.
pub mod Import
pub mod Holdings
pub mod Program
pub mod Stop
pub mod Options
pub mod Restored
pub mod Respond
pub mod Main
use usb_lib.Prelude.{
  ℕ, List, [], ◌∷◌, ◌++◌, Bool, true, false, Option, none, some, ◌==◌, if◌then◌else◌, arith,
}
use usb_lib.Words.{Bytes}
use usb_lib.Usb.{UsbUrb, class_mass_storage}
use usb_lib.Usbip.{UsbipDeviceInfo}
use usb_lib.Text.{c_text}
use usb_lib.Message.{serialize_message, create_device_import_request}
use usb_lib.Socket.{TcpSocket, SendAnswer, SendState, finished, waiting, send}
use usb_lib.Ports.{PortTable, Locking, done, deadlock}
use usb_lib.Virtual.{
  VirtualDevice, virtual_usb_device, create_device, attach_device, detach_device, destroy_device,
}
use usb_lib.Virtual.Urb.{process_urb}

-- The virtual devices, beside the manager's ports and the counter of the messages.
pub record UsbReceiver : Type 0 where
  pub virtual_devices : List VirtualDevice
  pub table : PortTable
  pub next_sequence : ℕ

-- What the steps of an import meet: the memory of the new object, the shell, the client's flag and
-- socket, and the answers of `send`.
pub record ImportCalls : Type 0 where
  pub garbage : UsbipDeviceInfo
  pub system : Bytes → Bool
  pub connected : Bool
  pub socket : TcpSocket
  pub answers : List SendAnswer

-- An import returns, or waits for a mutex for ever, or is still in the loop of `Send` when the answers
-- are used up.
pub data ImportResult : Type 0 where
  returned : Bool → UsbReceiver → ImportResult
  locked_up sending : ImportResult

-- `UsbipClient::ImportDevice`, with the counter after it. The client's state is not here: each import is
-- given its flag and its socket, and what a failed `Send` makes of them is in Client.Connection.
unfoldable pub import_device : ImportCalls → Bytes → ℕ → SendState × ℕ
import_device c bus_id seq =
    let (m, seq') = create_device_import_request bus_id seq in
    if c.connected
    then ((send c.socket (serialize_message m) c.answers).0, seq')
    else (finished false, seq)

-- The last pointer goes, and the destructor destroys the device once more.
unfoldable pub drop_device : UsbReceiver → Locking (VirtualDevice × PortTable) → ImportResult
drop_device r deadlock = locked_up
drop_device r (done (d, t)) = returned false (record r { table = t })

unfoldable pub give_up : UsbReceiver → Locking (VirtualDevice × PortTable) → ImportResult
unfolding drop_device
give_up r deadlock = locked_up
give_up r (done (d, t)) = drop_device r (destroy_device d t)

-- The device is in the list while the request is sent, and taken off again if that fails.
unfoldable pub after_request :
    UsbReceiver → VirtualDevice → PortTable → SendState × ℕ → ImportResult
unfolding give_up
after_request r d t (waiting, seq) = sending
after_request r d t (finished true, seq) =
    returned true
      (record { virtual_devices = r.virtual_devices ++ (d ∷ []); table = t; next_sequence = seq })
after_request r d t (finished false, seq) =
    give_up (record r { next_sequence = seq }) (destroy_device (detach_device d).1 t)

unfoldable pub after_attach :
    UsbReceiver → UsbipDeviceInfo → ImportCalls → PortTable → Bool × VirtualDevice → ImportResult
unfolding after_request
after_attach r info c t (true, d) =
    after_request r d t (import_device c (c_text info.busid) r.next_sequence)
after_attach r info c t (false, d) = give_up r (destroy_device d t)

unfoldable pub after_create :
    UsbReceiver
    → UsbipDeviceInfo
    → ImportCalls
    → Locking (Bool × VirtualDevice × PortTable)
    → ImportResult
unfolding after_attach
after_create r info c deadlock = locked_up
after_create r info c (done (true, d, t)) = after_attach r info c t (attach_device d c.system)
after_create r info c (done (false, d, t)) = drop_device r (destroy_device d t)

-- `ImportDeviceInternal`.
unfoldable pub import_device_internal : UsbReceiver → UsbipDeviceInfo → ImportCalls → ImportResult
unfolding after_create
import_device_internal r info c =
    after_create r info c (create_device (virtual_usb_device c.garbage) info r.table)

-- `OnUrbReceived`: only the first device gets the URB. The response goes back through its callback.
unfoldable pub on_urb_received : List VirtualDevice → UsbUrb → Option UsbUrb × List VirtualDevice
on_urb_received [] urb = (none, [])
on_urb_received (d ∷ ds) urb = let (response, d') = process_urb d urb in (response, d' ∷ ds)

-- `OnDeviceListReceived`: every mass storage device is imported, and the result is not looked at. Each
-- import meets its own answers.
unfoldable pub on_device_list_received :
    UsbReceiver → List (UsbipDeviceInfo × ImportCalls) → ImportResult
on_device_list_received r [] = returned true r
on_device_list_received r ((info, c) ∷ more) =
    if info.device_class == class_mass_storage
    then elim (import_device_internal r info c) [
      | returned result r' ↦ on_device_list_received r' more
      | locked_up ↦ locked_up
      | sending ↦ sending
    ]
    else on_device_list_received r more
