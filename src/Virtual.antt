-- ===== src/Virtual.antt =====
-- receiver/virtual_device/virtual_usb_device.h and virtual_usb_device.cpp: the virtual device. Its life
-- cycle is here, its answers to URBs are in Virtual/Urb. `std::system` is an argument of the operations
-- that run a command: whether the command succeeded.
pub mod Urb
pub mod Response
pub mod Descriptors
pub mod Consistent
pub mod Lifecycle
pub mod Manager
pub mod Shell
use usb_lib.Prelude.{
  ℕ, zero, suc, ◌+◌, List, [], ◌∷◌, ◌++◌, Bool, true, false, Option, none, some, if◌then◌else◌,
  replicate, arith,
}
use usb_lib.Words.{Bytes}
use usb_lib.Text.{codes, to_string, c_text}
use usb_lib.Usb.{image_descriptor, desc_device}
use usb_lib.Usbip.{UsbipDeviceInfo}
use usb_lib.Ports.{PortTable, Locking, done, deadlock, get_available_port, release_port}

-- `port_number` is `none` for -1; `urb_thread` says whether the thread is joinable.
pub record VirtualDevice : Type 0 where
  pub device_info : UsbipDeviceInfo
  pub created : Bool
  pub attached : Bool
  pub processing : Bool
  pub urb_thread : Bool
  pub usbip_port_path : Bytes
  pub device_path : Bytes
  pub port_number : Option ℕ
  pub current_configuration : ℕ
  pub device_descriptor : Bytes
  pub config_descriptor : Bytes
  pub string_descriptors : List Bytes

abbrev pub default_strings : List Bytes
default_strings =
    [] ∷ codes "USB Redirector" ∷ codes "Virtual Mass Storage" ∷ codes "123456789" ∷ []

-- The constructor; `info` is what the uninitialised `device_info_` holds.
unfoldable pub virtual_usb_device : UsbipDeviceInfo → VirtualDevice
virtual_usb_device info = record {
  device_info = info;
  created = false;
  attached = false;
  processing = false;
  urb_thread = false;
  usbip_port_path = [];
  device_path = [];
  port_number = none;
  current_configuration = 0;
  device_descriptor = [];
  config_descriptor = [];
  string_descriptors = default_strings;
}

unfoldable pub create_device_descriptors : VirtualDevice → VirtualDevice
create_device_descriptors d = record d {
  device_descriptor = image_descriptor (record {
    length = 18;
    descriptor_type = desc_device;
    bcd_usb = 0x0200;
    device_class = d.device_info.device_class;
    device_sub_class = d.device_info.device_sub_class;
    device_protocol = d.device_info.device_protocol;
    max_packet_size0 = 64;
    id_vendor = d.device_info.id_vendor;
    id_product = d.device_info.id_product;
    bcd_device = d.device_info.bcd_device;
    manufacturer = 1;
    product = 2;
    serial_number = 3;
    num_configurations = 1;
  });
  config_descriptor = replicate 32 0;
}

-- The rest of `CreateDevice` once a port is there.
unfoldable pub on_port : VirtualDevice → ℕ → VirtualDevice
unfolding create_device_descriptors
on_port d port =
    let d' = create_device_descriptors (record d {
      port_number = some port;
      usbip_port_path = codes "/sys/devices/platform/vhci_hcd.0/usb" ++ to_string (port + 1);
      device_path = codes "/dev/bus/usb/" ++ (to_string (port + 1) ++ codes "/001");
    }) in
    record d' { created = true }

unfoldable pub created_on : VirtualDevice → Option ℕ → PortTable → Bool × VirtualDevice × PortTable
unfolding on_port
created_on d none t = (false, record d { port_number = none }, t)
created_on d (some port) t = (true, on_port d port, t)

unfoldable pub create_device :
    VirtualDevice → UsbipDeviceInfo → PortTable → Locking (Bool × VirtualDevice × PortTable)
unfolding created_on
create_device d info t = if d.created then done (true, d, t) else elim (get_available_port t) [
  | deadlock ↦ deadlock
  | done (port, t') ↦ done (created_on (record d { device_info = info }) port t')
]

port_text : Option ℕ → Bytes
port_text none = codes "-1"
port_text (some p) = to_string p

-- The shell commands of `AttachToPort` and `DetachFromPort`.
unfoldable pub attach_command : VirtualDevice → Bytes
unfolding port_text
attach_command d =
    codes "echo 'attach "
    ++ (port_text d.port_number
        ++ (codes " "
            ++ (c_text d.device_info.busid ++ codes "' > /sys/devices/platform/vhci_hcd.0/attach")))

unfoldable pub detach_command : VirtualDevice → Bytes
unfolding port_text
detach_command d =
    codes "echo 'detach "
    ++ (port_text d.port_number ++ codes "' > /sys/devices/platform/vhci_hcd.0/detach")

-- With what `std::system` makes of a command.
unfoldable pub attach_device : VirtualDevice → (Bytes → Bool) → Bool × VirtualDevice
attach_device d system =
    if d.created
    then (if d.attached
        then (true, d)
        else if system (attach_command d)
        then (true, record d { processing = true; urb_thread = true; attached = true })
        else (false, d))
    else (false, d)

-- The result of the detach command is not looked at.
unfoldable pub detach_device : VirtualDevice → Bool × VirtualDevice
detach_device d =
    if d.attached
    then (true, record d { processing = false; urb_thread = false; attached = false })
    else (true, d)

release_own : VirtualDevice → Option ℕ → PortTable → Locking (VirtualDevice × PortTable)
release_own d none t = done (record d { created = false }, t)
release_own d (some port) t = elim (release_port port t) [
  | deadlock ↦ deadlock
  | done t' ↦ done (record d { port_number = none; created = false }, t')
]

unfoldable pub destroy_device : VirtualDevice → PortTable → Locking (VirtualDevice × PortTable)
unfolding release_own
destroy_device d t =
    let d' = (detach_device d).1 in
    if d'.created then release_own d' d'.port_number t else done (d', t)
