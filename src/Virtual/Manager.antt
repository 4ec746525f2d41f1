-- ===== src/Virtual/Manager.antt =====
-- The class UsbipManager of virtual_usb_device.cpp: its own operations on virtual devices. They hold the
-- manager's mutex while they call into a device, which calls back into the manager. A `shared_ptr` is a
-- number, and the devices behind them are a store. `modprobe` is an argument.
pub mod Deadlock
use usb_lib.Prelude.{
  not, ℕ, ◌+◌, ◌≡◌, List, [], ◌∷◌, ◌++◌, Bool, true, false, Option, none, some, ◌==◌, if◌then◌else◌,
  replicate, length, take, ◌-◌, arith,
}
use usb_lib.Usbip.{UsbipDeviceInfo}
use usb_lib.Ports.{PortTable, Locking, done, deadlock}
use usb_lib.Virtual.{VirtualDevice, virtual_usb_device, create_device, destroy_device}

pub record UsbipManager : Type 0 where
  pub table : PortTable
  pub initialized : Bool
  pub virtual_devices : List ℕ

abbrev pub Devices : Type 0
Devices = ℕ → VirtualDevice

abbrev pub update : Devices → ℕ → VirtualDevice → Devices
update devices p d q = if p == q then d else devices q

unfoldable pub usbip_manager : UsbipManager
usbip_manager = record {
  table = record { usage = []; locked = false };
  initialized = false;
  virtual_devices = [];
}

abbrev resize_usage : ℕ → List Bool → List Bool
resize_usage n usage = take n usage ++ replicate (n - length usage) false

-- `resize` adds free ports where the table is shorter than 8, and keeps those that are there.
unfoldable pub initialize : UsbipManager → Bool → Bool × UsbipManager
initialize m modprobe =
    let t = m.table in
    let m' = record m { table = record t { usage = resize_usage 8 t.usage } } in
    if m.initialized
    then (true, m)
    else if modprobe
    then (true, record m' { initialized = true })
    else (false, m')

-- `Cleanup`: the pointers go; whether the kernel module could be unloaded is not looked at.
unfoldable pub cleanup_manager : UsbipManager → UsbipManager
cleanup_manager m =
    if not m.initialized then m else record m { virtual_devices = []; initialized = false }

-- The mutex is held from here on.
abbrev hold : PortTable → PortTable
hold t = record t { locked = true }

abbrev release : PortTable → PortTable
release t = record t { locked = false }

-- `fresh` is the pointer that `make_shared` gives; `none` is the null pointer.
unfoldable pub create_virtual_device :
    UsbipManager
    → Devices
    → ℕ
    → UsbipDeviceInfo
    → UsbipDeviceInfo
    → Locking (Option ℕ × UsbipManager × Devices)
create_virtual_device m devices fresh garbage info =
    if m.table.locked
    then deadlock
    else elim (create_device (virtual_usb_device garbage) info (hold m.table)) [
      | deadlock ↦ deadlock
      | done (true, d, t) ↦ done (
        some fresh,
        record m { table = release t; virtual_devices = m.virtual_devices ++ (fresh ∷ []) },
        update devices fresh d,
      )
      | done (false, d, t) ↦ done (none, record m { table = release t }, devices)
    ]

-- `std::find` and `erase` of the pointer: the list without it, if it is there.
unfoldable pub remove_pointer : ℕ → List ℕ → Option (List ℕ)
remove_pointer p [] = none
remove_pointer p (q ∷ qs) =
    let rest = remove_pointer p qs in
    if q == p then some qs else elim rest [ none ↦ none | some qs' ↦ some (q ∷ qs') ]

unfoldable pub remove_virtual_device :
    UsbipManager → Devices → ℕ → Locking (Bool × UsbipManager × Devices)
remove_virtual_device m devices p =
    if m.table.locked then deadlock else elim (remove_pointer p m.virtual_devices) [
      | none ↦ done (false, m, devices)
      | some rest ↦ elim (destroy_device (devices p) (hold m.table)) [
        | deadlock ↦ deadlock
        | done (d, t) ↦
            done (true, record m { table = release t; virtual_devices = rest }, update devices p d)
      ]
    ]
