-- ===== src/Sender/Manager.antt =====
-- sender/usb/usb_device_manager.h and usb_device_manager.cpp: the class UsbDeviceManager. The answers of
-- libusb are arguments, and an operation returns
-- the calls that succeeded. `devices_` is never filled.
pub mod Registration
pub mod Hotplug
pub mod Search
use usb_lib.Prelude.{
  ℕ, List, [], ◌∷◌, ◌++◌, Bool, true, false, ◌&&◌, ◌||◌, not, Option, none, some, ◌==◌,
  if◌then◌else◌,
}
use usb_lib.Words.{Bytes}
use usb_lib.Usb.{UsbDeviceDescriptor, class_mass_storage}
use usb_lib.Socket.{Outcome, returns, terminates}
use usb_lib.Sender.{same_text}
use usb_lib.Sender.Device.{LibusbDevice, SenderUsbDevice, new_device, get_path}

-- `context` is `none` for the null pointer; `hotplug_thread` says whether the `std::thread` is joinable.
pub record UsbDeviceManager : Type 0 where
  pub context : Option ℕ
  pub monitoring : Bool
  pub hotplug_thread : Bool
  pub hotplug_handle : ℕ

-- The calls of libusb with the context, and a callback's handle.
pub data ContextCall : Type 0 where
  call_init call_exit : ℕ → ContextCall
  call_register call_deregister : ℕ → ℕ → ContextCall

abbrev pub has_context : UsbDeviceManager → Bool
has_context m = elim (m.context) [ none ↦ false | some c ↦ true ]

-- A call on the manager's context.
abbrev pub on_context : UsbDeviceManager → (ℕ → ContextCall) → List ContextCall
on_context m call = elim (m.context) [ none ↦ [] | some c ↦ call c ∷ [] ]

unfoldable pub usb_device_manager : UsbDeviceManager
usb_device_manager = record {
  context = none;
  monitoring = false;
  hotplug_thread = false;
  hotplug_handle = 0;
}

-- An operation's result: the manager, what happens to the caller, and the calls.
abbrev pub ManagerResult : Type 0
ManagerResult = UsbDeviceManager × Outcome × List ContextCall

-- `answer` is the new context; an old one is lost.
unfoldable pub initialize_manager : UsbDeviceManager → Option ℕ → ManagerResult
initialize_manager m answer = elim answer [
  | none ↦ (m, returns false, [])
  | some c ↦ (record m { context = some c }, returns true, call_init c ∷ [])
]

-- `capable` is `libusb_has_capability`; `answer` the handle of the registration, `none` if it fails.
unfoldable pub start_hotplug_monitoring : UsbDeviceManager → Bool → Option ℕ → ManagerResult
start_hotplug_monitoring m capable answer =
    if m.monitoring || not (has_context m)
    then (m, returns true, [])
    else if not capable
    then (m, returns true, [])
    else elim answer [
      | none ↦ (m, returns true, [])
      | some h ↦
          let m' = record m { hotplug_handle = h; monitoring = true } in
          if m.hotplug_thread then (m', terminates, on_context m (λ c. call_register c h)) else (
            record m' { hotplug_thread = true },
            returns true,
            on_context m (λ c. call_register c h),
          )
    ]

-- The thread leaves its loop once it sees the flag, so that the join returns.
unfoldable pub stop_hotplug_monitoring : UsbDeviceManager → UsbDeviceManager × List ContextCall
stop_hotplug_monitoring m =
    let m' = record m { monitoring = false; hotplug_thread = false } in
    if not m.monitoring
    then (m, [])
    else if not (m.hotplug_handle == 0) && has_context m
    then (record m' { hotplug_handle = 0 }, on_context m (λ c. call_deregister c m.hotplug_handle))
    else (m', [])

unfoldable pub cleanup_manager : UsbDeviceManager → ManagerResult
unfolding stop_hotplug_monitoring
cleanup_manager m =
    let (m', calls) = stop_hotplug_monitoring m in
    if has_context m'
    then (record m' { context = none }, returns true, calls ++ on_context m' call_exit)
    else (m', returns true, calls)

-- `none` for the null pointer; `unset` is what a device's descriptor holds if libusb does not give one.
unfoldable pub create_device : Option LibusbDevice → UsbDeviceDescriptor → Option SenderUsbDevice
create_device none unset = none
create_device (some l) unset = some (new_device l unset)

-- The loop over libusb's list.
unfoldable pub create_devices :
    List (Option LibusbDevice) → UsbDeviceDescriptor → List SenderUsbDevice
unfolding create_device
create_devices [] unset = []
create_devices (l ∷ ls) unset =
    let rest = create_devices ls unset in
    elim (create_device l unset) [ none ↦ rest | some d ↦ d ∷ rest ]

-- `listed` is libusb's list, `none` if the call fails.
unfoldable pub enumerate_devices :
    UsbDeviceManager
    → Option (List (Option LibusbDevice))
    → UsbDeviceDescriptor
    → List SenderUsbDevice
unfolding create_devices
enumerate_devices m listed unset = elim listed [
  | none ↦ []
  | some ls ↦ if not (has_context m) then [] else create_devices ls unset
]

unfoldable pub is_mass_storage_device : UsbDeviceDescriptor → Bool
is_mass_storage_device desc = desc.device_class == class_mass_storage

unfoldable pub only_mass_storage : List SenderUsbDevice → List SenderUsbDevice
only_mass_storage [] = []
only_mass_storage (d ∷ ds) =
    let rest = only_mass_storage ds in
    if d.info.descriptor.device_class == class_mass_storage then d ∷ rest else rest

unfoldable pub get_mass_storage_devices :
    UsbDeviceManager
    → Option (List (Option LibusbDevice))
    → UsbDeviceDescriptor
    → List SenderUsbDevice
unfolding enumerate_devices only_mass_storage
get_mass_storage_devices m listed unset = only_mass_storage (enumerate_devices m listed unset)

-- The loops of `FindDevice` and `FindDeviceByPath`.
unfoldable pub first_with : (SenderUsbDevice → Bool) → List SenderUsbDevice → Option SenderUsbDevice
first_with p [] = none
first_with p (d ∷ ds) = let rest = first_with p ds in if p d then some d else rest

abbrev pub has_ids : ℕ → ℕ → SenderUsbDevice → Bool
has_ids vendor product d =
    d.info.descriptor.id_vendor == vendor && d.info.descriptor.id_product == product

unfoldable pub find_device :
    UsbDeviceManager
    → Option (List (Option LibusbDevice))
    → UsbDeviceDescriptor
    → ℕ
    → ℕ
    → Option SenderUsbDevice
unfolding first_with enumerate_devices
find_device m listed unset vendor product =
    first_with (has_ids vendor product) (enumerate_devices m listed unset)

abbrev pub has_path : Bytes → SenderUsbDevice → Bool
has_path path d = same_text (get_path d.device) path

unfoldable pub find_device_by_path :
    UsbDeviceManager
    → Option (List (Option LibusbDevice))
    → UsbDeviceDescriptor
    → Bytes
    → Option SenderUsbDevice
unfolding first_with enumerate_devices
find_device_by_path m listed unset path =
    first_with (has_path path) (enumerate_devices m listed unset)

pub data HotplugEvent : Type 0 where
  device_arrived device_left other_event : HotplugEvent

-- `HotplugCallback`: the arguments of the call of the user's callback, if there is one; `none` is the
-- null pointer.
unfoldable pub hotplug_callback :
    HotplugEvent
    → Option LibusbDevice
    → UsbDeviceDescriptor
    → Bool
    → Option (Option SenderUsbDevice × Bool)
unfolding create_device
hotplug_callback device_arrived l unset has_callback = elim (create_device l unset) [
  | none ↦ none
  | some d ↦ if has_callback then some (some d, true) else none
]
hotplug_callback device_left l unset has_callback =
    if has_callback then some (none, false) else none
hotplug_callback other_event l unset has_callback = none
