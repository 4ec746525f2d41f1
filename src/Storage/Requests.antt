-- ===== src/Storage/Requests.antt =====
-- `ResetDevice` and `GetMaxLun` of mass_storage_device.cpp, over the control transfers of the device.
use usb_lib.Prelude.{ℕ, Bool, false, ◌&&◌, Option, none, some, ◌==◌}
use usb_lib.Usb.{UsbSetupPacket}
use usb_lib.Storage.{MassStorageDevice}
use usb_lib.Sender.Device.{SenderUsbDevice, Result, control_transfer}

-- The `int` -1 of an interface that was not found becomes 65535.
abbrev request_index : MassStorageDevice → ℕ
request_index m = elim (m.endpoints.interface_number) [ none ↦ 65535 | some n ↦ n ]

abbrev class_request : MassStorageDevice → ℕ → ℕ → ℕ → UsbSetupPacket
class_request m request_type request size = record {
  request_type = request_type;
  request = request;
  value = 0;
  index = request_index m;
  setup_length = size;
}

unfoldable pub reset_device : MassStorageDevice → SenderUsbDevice → Option ℕ → Result
reset_device m d answer = (control_transfer d (class_request m 0x21 0xff 0) answer).0

-- Whether the transfer succeeds and moves one byte.
unfoldable pub get_max_lun : MassStorageDevice → SenderUsbDevice → Option ℕ → Result × Bool
get_max_lun m d answer =
    let (r, moved) = control_transfer d (class_request m 0xa1 0xfe 1) answer in
    (r, r.1 && elim moved [ none ↦ false | some n ↦ n == 1 ])
