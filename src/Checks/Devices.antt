-- ===== src/Checks/Devices.antt =====
-- The theorems on ports, virtual devices and the capture, at concrete inputs.
use usb_lib.Prelude.{◌≡◌, refl, [], ◌∷◌, true, false, none, some}
use usb_lib.Usb.{UsbUrb}
use usb_lib.Ports.{PortTable, done, deadlock, get_available_port, take_first_free}
use usb_lib.Virtual.{
  VirtualDevice, virtual_usb_device, create_device, created_on, on_port, attach_device,
  destroy_device,
}
use usb_lib.Virtual.Urb.{process_urb}
use usb_lib.Virtual.Response.{Answers, process_urb-Answers}
use usb_lib.Virtual.Consistent.{IsConsistent, virtual_usb_device-IsConsistent}
use usb_lib.Virtual.Lifecycle.{
  DeviceRun, creates, attaches, constructed, then_step, DeviceStep-IsConsistent, destroy-DeviceRun,
}
use usb_lib.Virtual.Manager.{create_virtual_device, usbip_manager}
use usb_lib.Virtual.Manager.Deadlock.{create_virtual_device-deadlock}
use usb_lib.Capture.{urb_capture, no_statistics, update_statistics}
use usb_lib.Capture.Thread.{
  begin_capture, waiting, calling, System, Reach, here, next, initial, starts, tests, pushes, wakes,
  pops, counts, is_draining,
}
use usb_lib.Capture.Delivery.{IsFaithful, Reach-delivered}
use usb_lib.Checks.{bulk_out, stick_info}

-- Ports 0 and 1 of four are in use.
abbrev ports : PortTable
ports = record { usage = true ∷ true ∷ false ∷ false ∷ []; locked = false }

-- A device that was created on port 2 and attached, and the table then.
abbrev device : VirtualDevice
device =
    (attach_device (on_port (record (virtual_usb_device stick_info) { device_info = stick_info }) 2)
      (λ c. true)).1

abbrev table : PortTable
table = record { usage = true ∷ true ∷ true ∷ false ∷ []; locked = false }

device_created :
    create_device (virtual_usb_device stick_info) stick_info ports
    ≡ done (
      true,
      on_port (record (virtual_usb_device stick_info) { device_info = stick_info }) 2,
      table,
    )
unfolding create_device created_on get_available_port take_first_free virtual_usb_device
device_created = refl

device-DeviceRun : DeviceRun stick_info ports device table
device-DeviceRun =
    then_step (then_step constructed (creates stick_info true device_created))
      (attaches (λ c. true))

device_up : device.attached ≡ true
unfolding attach_device on_port virtual_usb_device
device_up = refl

process_urb-Answers_example :
    (r : UsbUrb) × ((process_urb device bulk_out).0 ≡ some r) × Answers bulk_out r
process_urb-Answers_example = process_urb-Answers device bulk_out device_up

blank-IsConsistent : IsConsistent (virtual_usb_device stick_info) ports
blank-IsConsistent = virtual_usb_device-IsConsistent stick_info ports refl

DeviceStep-IsConsistent_example :
    IsConsistent
      (on_port (record (virtual_usb_device stick_info) { device_info = stick_info }) 2)
      table
DeviceStep-IsConsistent_example =
    DeviceStep-IsConsistent (creates stick_info true device_created) blank-IsConsistent

destroy-DeviceRun_example :
    (d' : VirtualDevice) × (u' : PortTable) × (destroy_device device table ≡ done (d', u'))
    × (d'.created ≡ false)
    × (d'.attached ≡ false)
    × (d'.port_number ≡ none)
destroy-DeviceRun_example = destroy-DeviceRun refl device-DeviceRun

create_virtual_device-deadlock_example :
    create_virtual_device usbip_manager (λ p. device) 1 stick_info stick_info ≡ deadlock
create_virtual_device-deadlock_example =
    create_virtual_device-deadlock usbip_manager (λ p. device) 1 stick_info stick_info

-- The capture gets an URB, its thread counts it and has not yet passed it on.
abbrev brought : System
brought = record initial {
  capture = record (begin_capture initial.capture) { urb_queue = bulk_out ∷ [] };
  worker = waiting;
  accepted = bulk_out ∷ [];
}

abbrev counting : System
counting = record brought {
  capture = record (begin_capture initial.capture) {
    statistics = update_statistics no_statistics bulk_out;
  };
  worker = calling bulk_out;
  since_reset = bulk_out ∷ [];
}

brought-Reach : Reach brought
unfolding urb_capture is_draining
brought-Reach =
    next (next (next here (starts refl refl refl)) (tests bulk_out refl))
      (pushes [] bulk_out [] refl refl)

counting-Reach : Reach counting
unfolding urb_capture
counting-Reach =
    next (next (next brought-Reach (wakes refl refl (λ e. cc))) (pops bulk_out [] refl refl))
      (counts bulk_out refl)

Reach-delivered_example : IsFaithful counting
Reach-delivered_example = Reach-delivered counting-Reach
