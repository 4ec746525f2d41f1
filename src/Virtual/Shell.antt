-- ===== src/Virtual/Shell.antt =====
-- virtual_usb_device.cpp: the parts that meet the system: shell commands, files and the kernel module. What
-- `std::system` returns for a command, and what the streams do, are arguments.
use usb_lib.Prelude.{ℕ, Bool, false, [], Option, none, some, ◌==◌, if◌then◌else◌}
use usb_lib.Words.{Bytes}
use usb_lib.Text.{codes}
use usb_lib.Usbip.{UsbipDeviceInfo}
use usb_lib.Virtual.{VirtualDevice, attach_command, detach_command}

-- Success is the result 0; `attach_device` takes this function of the command as its argument.
unfoldable pub execute_command : (Bytes → ℕ) → Bytes → Bool
execute_command system command = system command == 0

unfoldable pub attach_to_port : VirtualDevice → (Bytes → ℕ) → Bool
attach_to_port d system = execute_command system (attach_command d)

unfoldable pub detach_from_port : VirtualDevice → (Bytes → ℕ) → Bool
detach_from_port d system = execute_command system (detach_command d)

-- What `std::ofstream` does with a path and the content: whether it is open, and whether it is good
-- after the output.
pub record OutputStream : Type 0 where
  pub is_open : Bool
  pub good : Bool

unfoldable pub write_to_file : (Bytes → Bytes → OutputStream) → Bytes → Bytes → Bool
write_to_file stream path content =
    let file = stream path content in if file.is_open then file.good else false

-- `none` where the file cannot be opened.
unfoldable pub read_from_file : (Bytes → Option Bytes) → Bytes → Bytes
read_from_file stream path = elim (stream path) [ none ↦ [] | some content ↦ content ]

-- The operations of UsbipManager on the kernel module.
unfoldable pub load_kernel_module : (Bytes → ℕ) → Bool
load_kernel_module system = system (codes "modprobe vhci-hcd") == 0

unfoldable pub unload_kernel_module : (Bytes → ℕ) → Bool
unload_kernel_module system = system (codes "modprobe -r vhci-hcd") == 0

unfoldable pub is_usbip_module_loaded : (Bytes → ℕ) → Bool
is_usbip_module_loaded system = system (codes "lsmod | grep -q vhci_hcd") == 0

-- A round of `UrbProcessingThread`: whether it goes on.
unfoldable pub urb_processing_round : VirtualDevice → Bool
urb_processing_round d = d.processing

unfoldable pub get_device_path : VirtualDevice → Bytes
get_device_path d = d.device_path

unfoldable pub get_device_info : VirtualDevice → UsbipDeviceInfo
get_device_info d = d.device_info

unfoldable pub is_created : VirtualDevice → Bool
is_created d = d.created

unfoldable pub is_attached : VirtualDevice → Bool
is_attached d = d.attached
