-- ===== src/Sender/Control.antt =====
-- sender/main.cpp: how UsbSender starts and stops its parts, finds the storage devices and meets the
-- hotplug events. The capture's thread is in Capture.Thread.
use usb_lib.Prelude.{
  ℕ, List, [], ◌∷◌, ◌++◌, Bool, true, false, ◌&&◌, not, Option, none, some, ◌==◌, if◌then◌else◌,
}
use usb_lib.Usb.{UsbDeviceDescriptor, class_mass_storage}
use usb_lib.Storage.{MassStorageDevice, mass_storage_device, InitializeCalls, initialize}
use usb_lib.Socket.{
  TcpSocket, tcp_socket, ListenCalls, Event, Outcome, returns, terminates, listen, close,
}
use usb_lib.Capture.{UrbCapture, urb_capture, add_device}
use usb_lib.Capture.Thread.{begin_capture, end_capture}
use usb_lib.Sender.{StorageDevice}
use usb_lib.Sender.Device.{LibusbDevice, SenderUsbDevice, get_path, get_bus_id}
use usb_lib.Sender.Manager.{
  UsbDeviceManager, ManagerResult, usb_device_manager, initialize_manager, start_hotplug_monitoring,
  stop_hotplug_monitoring, get_mass_storage_devices,
}

pub record UsbSender : Type 0 where
  pub running : Bool
  pub device_manager : UsbDeviceManager
  pub urb_capture : UrbCapture
  pub tcp_server : TcpSocket
  pub mass_storage_devices : List StorageDevice

unfoldable pub usb_sender : UsbSender
usb_sender = record {
  running = false;
  device_manager = usb_device_manager;
  urb_capture = urb_capture;
  tcp_server = tcp_socket;
  mass_storage_devices = [];
}

-- `ok` says whether libusb could be initialized.
unfoldable pub initialize_sender : UsbSender → Option ℕ → UsbSender × Bool
initialize_sender s context =
    let (m, outcome, calls) = initialize_manager s.device_manager context in
    (record s { device_manager = m }, elim context [ none ↦ false | some c ↦ true ])

-- What the initialization of a storage device meets: the calls on the device, what an uninitialised
-- variable holds, and where the object is in memory.
pub record Probe : Type 0 where
  pub calls : InitializeCalls
  pub word : ℕ
  pub address : ℕ

abbrev pub storage_of : SenderUsbDevice → StorageDevice
storage_of d = record { path = get_path d.device; bus_id = get_bus_id d.device; info = d.info }

abbrev with_storage : UsbSender → StorageDevice → ℕ → UsbSender
with_storage s d address = record s {
  mass_storage_devices = s.mass_storage_devices ++ (d ∷ []);
  urb_capture = (add_device s.urb_capture (some address)).1;
}

-- The new MassStorageDevice is kept if its `Initialize` returns true.
unfoldable pub keep_if :
    UsbSender → StorageDevice → ℕ → Option (Bool × MassStorageDevice) → UsbSender
keep_if s d address none = s
keep_if s d address (some (false, storage)) = s
keep_if s d address (some (true, storage)) = with_storage s d address

unfoldable pub try_storage : UsbSender → SenderUsbDevice → Probe → UsbSender
unfolding keep_if
try_storage s d probe =
    keep_if s (storage_of d) probe.address
      (initialize mass_storage_device d.info.config_descriptor probe.calls probe.word)

-- The loop of `ScanMassStorageDevices`.
unfoldable pub scan_loop : UsbSender → List SenderUsbDevice → (SenderUsbDevice → Probe) → UsbSender
unfolding try_storage
scan_loop s [] probes = s
scan_loop s (d ∷ ds) probes = scan_loop (try_storage s d (probes d)) ds probes

-- What `Start` meets: the calls of `Listen`, libusb's list and the descriptor where libusb gives none,
-- the probes, and the answers for the hotplug callback.
pub record StartCalls : Type 0 where
  pub listen_calls : ListenCalls
  pub listed : Option (List (Option LibusbDevice))
  pub unset : UsbDeviceDescriptor
  pub probes : SenderUsbDevice → Probe
  pub capable : Bool
  pub hotplug_answer : Option ℕ

unfoldable pub scan_mass_storage_devices : UsbSender → StartCalls → UsbSender
unfolding scan_loop
scan_mass_storage_devices s c =
    scan_loop s (get_mass_storage_devices s.device_manager c.listed c.unset) c.probes

abbrev pub starting_capture : UrbCapture → UrbCapture
starting_capture c = if c.capturing then c else begin_capture c

-- The last steps of `Start`, with what the manager did.
abbrev pub monitored : UsbSender → ManagerResult → UsbSender × Outcome
monitored s (m, terminates, calls) = (record s { device_manager = m }, terminates)
monitored s (m, returns b, calls) = (record s { device_manager = m; running = true }, returns true)

-- `Start`, with what `Listen` did.
unfoldable pub after_listen :
    UsbSender → TcpSocket × Outcome × List Event → StartCalls → UsbSender × Outcome
unfolding scan_mass_storage_devices
after_listen s (t, terminates, events) c = (record s { tcp_server = t }, terminates)
after_listen s (t, returns false, events) c = (record s { tcp_server = t }, returns false)
after_listen s (t, returns true, events) c =
    let s' = scan_mass_storage_devices (record s { tcp_server = t }) c in
    monitored (record s' { urb_capture = starting_capture s'.urb_capture })
      (start_hotplug_monitoring s'.device_manager c.capable c.hotplug_answer)

unfoldable pub start : UsbSender → StartCalls → UsbSender × Outcome
unfolding after_listen
start s c =
    if s.running then (s, returns true) else after_listen s (listen s.tcp_server c.listen_calls) c

abbrev pub stopping_capture : UrbCapture → UrbCapture
stopping_capture c = if not c.capturing then c else end_capture c

unfoldable pub stop : UsbSender → UsbSender
stop s = if not s.running then s else record {
  running = false;
  device_manager = (stop_hotplug_monitoring s.device_manager).0;
  urb_capture = stopping_capture s.urb_capture;
  tcp_server = (close s.tcp_server).0;
  mass_storage_devices = [];
}

-- `OnDeviceHotplug`; a device that has gone stays in the list.
unfoldable pub on_device_hotplug : UsbSender → Option SenderUsbDevice → Bool → Probe → UsbSender
unfolding try_storage
on_device_hotplug s none connected probe = s
on_device_hotplug s (some d) connected probe =
    let added = try_storage s d probe in
    if connected && d.info.descriptor.device_class == class_mass_storage then added else s
