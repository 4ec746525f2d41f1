-- ===== src/Storage.antt =====
-- sender/usb/mass_storage_device.h and mass_storage_device.cpp: the storage device behind the sender.
-- What libusb answers is an argument: whether a call succeeded, and what a transfer moved.
pub mod FindEndpoints
pub mod Capacity
pub mod Descriptors
pub mod Sizes
pub mod Requests
use usb_lib.Prelude.{
  ℕ, zero, suc, ◌+◌, ◌%◌, List, [], ◌∷◌, ◌++◌, Bool, true, false, ◌&&◌, not, Option, none, some,
  ◌==◌, if◌then◌else◌, length, arith,
}
use Prim.Native.Nat.{bit_and}
use usb_lib.Words.{Bytes}
use usb_lib.Usb.{UsbUrb, UsbSetupPacket, UsbDirection, dir_in, dir_out, control, bulk}
use FindEndpoints.{EndpointInfo, Endpoints, no_endpoints, find_endpoints, has_all}
use Capacity.{CapacityCalls, CapacityResult, get_capacity}

pub record MassStorageDevice : Type 0 where
  pub initialized : Bool
  pub capturing : Bool
  pub endpoints : Endpoints
  pub next_tag : ℕ
  pub total_blocks : ℕ
  pub block_size : ℕ

unfoldable pub mass_storage_device : MassStorageDevice
mass_storage_device = record {
  initialized = false;
  capturing = false;
  endpoints = no_endpoints;
  next_tag = 1;
  total_blocks = 0;
  block_size = 512;
}

-- What the calls on the USB device come to, in the order in which `Initialize` makes them: `Open`,
-- `ClaimInterface` and `ResetDevice`, the last only logged, then the transfers of `GetCapacity`.
pub record InitializeCalls : Type 0 where
  pub opened : Bool
  pub claimed : Bool
  pub reset : Bool
  pub capacity : CapacityCalls

-- `block_size_` is passed by reference, and keeps what `GetCapacity` wrote also when that fails.
with_capacity : MassStorageDevice → CapacityResult → MassStorageDevice
with_capacity d r = record d {
  initialized = true;
  next_tag = r.next_tag;
  block_size = r.block_size;
  total_blocks = if r.success then r.total_blocks else d.total_blocks;
}

-- `none`: the search for the endpoints ran out of fuel, which it does not.
unfoldable pub initialize :
    MassStorageDevice → Bytes → InitializeCalls → ℕ → Option (Bool × MassStorageDevice)
unfolding with_capacity
initialize d config calls unset =
    if d.initialized
    then some (true, d)
    else if not calls.opened
    then some (false, d)
    else if length config == 0
    then some (false, d)
    else elim (find_endpoints config d.endpoints) [
      | none ↦ none
      | some e ↦
          let d' = record d { endpoints = e } in
          if not (has_all e)
          then some (false, d')
          else if not calls.claimed
          then some (false, d')
          else some
              (true, with_capacity d' (get_capacity d'.next_tag unset d'.block_size calls.capacity))
    ]

unfoldable pub cleanup : MassStorageDevice → MassStorageDevice
cleanup d = record d { capturing = false; initialized = false }

unfoldable pub start_capture : MassStorageDevice → Bool × MassStorageDevice
start_capture d =
    if d.initialized && not d.capturing then (true, record d { capturing = true }) else (false, d)

unfoldable pub stop_capture : MassStorageDevice → MassStorageDevice
stop_capture d = record d { capturing = false }

abbrev next : MassStorageDevice → MassStorageDevice
next d = record d { next_tag = (d.next_tag + 1) % 4294967296 }

unfoldable pub create_control_urb :
    MassStorageDevice → ℕ → ℕ → ℕ → ℕ → Bytes → ℕ → UsbUrb × MassStorageDevice
create_control_urb d request_type request value index bytes now = (
  record {
    id = d.next_tag;
    transfer_type = control;
    direction = if bit_and request_type 0x80 == 0 then dir_out else dir_in;
    endpoint = 0;
    flags = 0;
    data_bytes = bytes;
    setup = record {
      request_type = request_type;
      request = request;
      value = value;
      index = index;
      setup_length = length bytes % 65536;
    };
    status = 0;
    actual_length = 0;
    timestamp = now;
  },
  next d,
)

-- `garbage` is what the uninitialised setup packet holds.
unfoldable pub create_bulk_urb :
    MassStorageDevice → ℕ → Bytes → UsbDirection → UsbSetupPacket → ℕ → UsbUrb × MassStorageDevice
create_bulk_urb d endpoint bytes direction garbage now = (
  record {
    id = d.next_tag;
    transfer_type = bulk;
    direction = direction;
    endpoint = endpoint;
    flags = 0;
    data_bytes = bytes;
    setup = garbage;
    status = 0;
    actual_length = length bytes % 4294967296;
    timestamp = now;
  },
  next d,
)
