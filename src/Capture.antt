-- ===== src/Capture.antt =====
-- sender/capture/urb_capture.h and urb_capture.cpp: the class UrbCapture, which queues the captured
-- URBs, and whose thread counts them and passes them on. The devices' own operations are in Storage;
-- here a device is a pointer, and the result of its `StartCapture` is only logged.
pub mod Processor
pub mod Thread
pub mod Delivery
pub mod Wakeup
use usb_lib.Prelude.{
  ℕ, zero, suc, ◌+◌, ◌%◌, List, [], ◌∷◌, ◌++◌, Bool, true, false, Option, none, some, not, ◌==◌,
  if◌then◌else◌, arith,
}
use usb_lib.Usb.{UsbUrb, UsbTransferType, control, isochronous, bulk, interrupt}

-- Every counter is a uint64_t.
pub record Statistics : Type 0 where
  pub total_urbs : ℕ
  pub control_urbs : ℕ
  pub bulk_urbs : ℕ
  pub interrupt_urbs : ℕ
  pub iso_urbs : ℕ
  pub bytes_transferred : ℕ
  pub errors : ℕ

abbrev pub u64_mod : ℕ
u64_mod = 18446744073709551616

abbrev pub no_statistics : Statistics
no_statistics = record {
  total_urbs = 0;
  control_urbs = 0;
  bulk_urbs = 0;
  interrupt_urbs = 0;
  iso_urbs = 0;
  bytes_transferred = 0;
  errors = 0;
}

abbrev bump : ℕ → ℕ
bump n = (n + 1) % u64_mod

-- The `switch` over the type.
unfoldable pub count_type : UsbTransferType → Statistics → Statistics
count_type control s = record s { control_urbs = bump s.control_urbs }
count_type bulk s = record s { bulk_urbs = bump s.bulk_urbs }
count_type interrupt s = record s { interrupt_urbs = bump s.interrupt_urbs }
count_type isochronous s = record s { iso_urbs = bump s.iso_urbs }

unfoldable pub update_statistics : Statistics → UsbUrb → Statistics
unfolding count_type
update_statistics s urb = count_type urb.transfer_type (record s {
  total_urbs = bump s.total_urbs;
  bytes_transferred = (s.bytes_transferred + urb.actual_length) % u64_mod;
  errors = if urb.status == 0 then s.errors else bump s.errors;
})

-- `devices_` are pointers in the order of their addition.
pub record UrbCapture : Type 0 where
  pub devices : List ℕ
  pub capturing : Bool
  pub should_stop : Bool
  pub urb_queue : List UsbUrb
  pub statistics : Statistics

unfoldable pub urb_capture : UrbCapture
urb_capture = record {
  devices = [];
  capturing = false;
  should_stop = false;
  urb_queue = [];
  statistics = no_statistics;
}

unfoldable pub contains : ℕ → List ℕ → Bool
contains p [] = false
contains p (q ∷ qs) = if q == p then true else contains p qs

-- A null pointer is refused; a device that is there stays as it is.
unfoldable pub add_device : UrbCapture → Option ℕ → Bool × UrbCapture
unfolding contains
add_device c none = (false, c)
add_device c (some p) =
    if contains p c.devices then (true, c) else (true, record c { devices = c.devices ++ (p ∷ []) })

unfoldable pub erase_first : ℕ → List ℕ → List ℕ
erase_first p [] = []
erase_first p (q ∷ qs) = let rest = erase_first p qs in if q == p then qs else q ∷ rest

unfoldable pub remove_device : UrbCapture → Option ℕ → UrbCapture
unfolding erase_first
remove_device c none = c
remove_device c (some p) = record c { devices = erase_first p c.devices }

unfoldable pub remove_all_devices : UrbCapture → UrbCapture
remove_all_devices c = record c { devices = [] }

-- `InjectUrb`, and `OnDeviceData`, which is the same.
unfoldable pub inject_urb : UrbCapture → UsbUrb → UrbCapture
inject_urb c urb = if not c.capturing then c else record c { urb_queue = c.urb_queue ++ (urb ∷ []) }

unfoldable pub reset_statistics : UrbCapture → UrbCapture
reset_statistics c = record c { statistics = no_statistics }
