-- ===== src/Virtual/Manager/Deadlock.antt =====
-- The manager's operations on devices against its own mutex.
use usb_lib.Prelude.{ℕ, ◌≡◌, List, true, false, some, arith}
use usb_lib.Usbip.{UsbipDeviceInfo}
use usb_lib.Ports.{deadlock, get_available_port, release_port}
use usb_lib.Virtual.{virtual_usb_device, create_device, detach_device, destroy_device}
use usb_lib.Virtual.Manager.{
  UsbipManager, Devices, create_virtual_device, remove_virtual_device, remove_pointer,
}

-- `CreateVirtualDevice` never returns, in any state of the manager: it holds the mutex while the new
-- device asks the manager for a port.
pub create_virtual_device-deadlock :
    (m : UsbipManager) (devices : Devices) (fresh : ℕ) (garbage info : UsbipDeviceInfo)
    → create_virtual_device m devices fresh garbage info ≡ deadlock
unfolding create_virtual_device create_device virtual_usb_device get_available_port
create_virtual_device-deadlock m devices fresh garbage info = ground arith

-- With the mutex free, `RemoveVirtualDevice` never returns for a listed device that is created and holds
-- a port: it holds the mutex while the device gives the port back.
pub remove_virtual_device-deadlock :
    (m : UsbipManager) (devices : Devices) (p port : ℕ) (rest : List ℕ)
    → m.table.locked ≡ false
    → remove_pointer p m.virtual_devices ≡ some rest
    → (devices p).created ≡ true
    → (devices p).port_number ≡ some port
    → remove_virtual_device m devices p ≡ deadlock
unfolding remove_virtual_device destroy_device detach_device release_port
remove_virtual_device-deadlock m devices p port rest free listed made held = ground arith
