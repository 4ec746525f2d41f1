-- ===== src/Receiver/Respond.antt =====
-- receiver/main.cpp: `OnUrbReceived` with the answer's way back through `OnUrbResponse`, and
-- `OnUsbipError`.
pub mod Ignored
use usb_lib.Prelude.{ℕ, List, [], ◌∷◌, ◌++◌, Bool, true, false, Option, none, some}
use usb_lib.Words.{Bytes}
use usb_lib.Text.{codes}
use usb_lib.Search.{search_from}
use usb_lib.Usb.{UsbUrb}
use usb_lib.Socket.{SendAnswer, SendState, finished}
use usb_lib.Client.Connection.{send_urb_response, after_urb_response}
use usb_lib.Virtual.{VirtualDevice}
use usb_lib.Receiver.{on_urb_received}
use usb_lib.Receiver.Program.{Program, numbered}

-- Whether the text is one that the log calls a connection error.
unfoldable pub on_usbip_error : Bytes → Bool
on_usbip_error error = elim (search_from (codes "connection") error) [
  | none ↦ false
  | some found ↦ true
]

-- The program, the state of the `Send` and the bytes that the kernel took. A failure is only logged.
unfoldable pub on_urb_response : Program → UsbUrb → List SendAnswer → Program × SendState × Bytes
on_urb_response p urb answers =
    let ((state, wire), seq) = send_urb_response p.client urb p.receiver.next_sequence answers in
    let client = after_urb_response p.client urb p.receiver.next_sequence answers in
    (record (numbered p seq) { client = client }, state, wire)

abbrev pub with_devices : Program → List VirtualDevice → Program
with_devices p ds = record p { receiver = record (p.receiver) { virtual_devices = ds } }

-- The callback of the virtual device, if it is called.
unfoldable pub answer :
    Program → Option UsbUrb × List VirtualDevice → List SendAnswer → Program × SendState × Bytes
unfolding on_urb_response
answer p (none, ds) answers = (with_devices p ds, finished true, [])
answer p (some response, ds) answers = on_urb_response (with_devices p ds) response answers

unfoldable pub receive_urb : Program → UsbUrb → List SendAnswer → Program × SendState × Bytes
unfolding answer
receive_urb p urb answers = answer p (on_urb_received p.receiver.virtual_devices urb) answers

-- All that the kernel took for the URBs that come one after the other.
unfoldable pub receive_urbs : Program → List (UsbUrb × List SendAnswer) → Bytes
receive_urbs p [] = []
receive_urbs p ((urb, answers) ∷ more) =
    let (p', state, wire) = receive_urb p urb answers in wire ++ receive_urbs p' more
