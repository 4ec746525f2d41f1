-- ===== src/Virtual/Urb.antt =====
-- The virtual device's answers to URBs.
use usb_lib.Prelude.{
  ℕ, zero, suc, ◌+◌, ◌-◌, ◌*◌, ◌/◌, ◌%◌, [], ◌∷◌, ◌++◌, ◌&&◌, Option, none, some, ltb, leb, ◌==◌,
  if◌then◌else◌, length, take, get_or, get_elem?, replicate,
}
use Prim.Native.Nat.{bit_and}
use usb_lib.Words.{Bytes, htonl, image32}
use usb_lib.Text.{codes}
use usb_lib.Usb.{
  UsbUrb, UsbSetupPacket, UsbTransferType, control, isochronous, bulk, interrupt, UsbDirection,
  dir_out, dir_in, dir_other, desc_device, desc_configuration, desc_string, req_get_descriptor,
  req_get_configuration, req_set_configuration, class_mass_storage,
}
use usb_lib.Virtual.{VirtualDevice}

-- `std::memcpy` of bytes into a buffer that has room for them.
unfoldable pub write_at : ℕ → Bytes → Bytes → Bytes
write_at zero [] buf = buf
write_at zero (b ∷ bs) [] = []
write_at zero (b ∷ bs) (x ∷ buf) = b ∷ write_at zero bs buf
write_at (suc i) bs [] = []
write_at (suc i) bs (x ∷ buf) = x ∷ write_at i bs buf

-- `std::vector::resize`: cut, or filled up with zeros.
unfoldable pub resize : ℕ → Bytes → Bytes
resize n bs = take n bs ++ replicate (n - length bs) 0

-- Every character is followed by a zero byte.
unfoldable pub widen : Bytes → Bytes
widen [] = []
widen (c ∷ text) = c ∷ 0 ∷ widen text

unfoldable pub string_descriptor : ℕ → Bytes → Bytes
unfolding widen
string_descriptor index text =
    if index == 0 then 4 ∷ 3 ∷ 0x09 ∷ 0x04 ∷ [] else (2 + length text * 2) % 256 ∷ 3 ∷ widen text

unfoldable pub get_string_descriptor : VirtualDevice → ℕ → Bytes
unfolding string_descriptor
get_string_descriptor d index = elim (get_elem? d.string_descriptors index) [
  | none ↦ []
  | some text ↦ string_descriptor index text
]

unfoldable pub get_device_descriptor : VirtualDevice → Bytes
get_device_descriptor d = d.device_descriptor

unfoldable pub get_configuration_descriptor : VirtualDevice → Bytes
get_configuration_descriptor d = d.config_descriptor

unfoldable pub get_descriptor : VirtualDevice → ℕ → ℕ → Bytes
unfolding get_string_descriptor get_device_descriptor get_configuration_descriptor
get_descriptor d desc_type desc_index =
    if desc_type == desc_device
    then get_device_descriptor d
    else if desc_type == desc_configuration
    then get_configuration_descriptor d
    else if desc_type == desc_string
    then get_string_descriptor d desc_index
    else []

unfoldable pub handle_standard_request : VirtualDevice → UsbSetupPacket → Bytes × VirtualDevice
unfolding get_descriptor
handle_standard_request d s =
    if s.request == req_get_descriptor
    then (get_descriptor d (s.value / 256 % 256) (s.value % 256), d)
    else if s.request == req_set_configuration
    then ([], record d { current_configuration = s.value % 256 })
    else if s.request == req_get_configuration
    then (d.current_configuration ∷ [], d)
    else ([], d)

unfoldable pub handle_class_request : VirtualDevice → UsbSetupPacket → Bytes
handle_class_request d s =
    if d.device_info.device_class == class_mass_storage && s.request == 0xFE then 0 ∷ [] else []

unfoldable pub handle_vendor_request : UsbSetupPacket → Bytes
handle_vendor_request s = []

-- IN becomes OUT, and everything else IN.
unfoldable pub opposite : UsbDirection → UsbDirection
opposite dir_out = dir_in
opposite dir_in = dir_out
opposite (dir_other b) = dir_in

-- The response to `urb` that carries the bytes.
unfoldable pub response_with : UsbUrb → Bytes → UsbUrb
unfolding opposite
response_with urb bytes = record urb {
  direction = opposite urb.direction;
  data_bytes = bytes;
  status = 0;
  actual_length = length bytes % 4294967296;
}

-- A request type with both type bits set leaves the URB's own data in the response.
unfoldable pub handle_control_urb : VirtualDevice → UsbUrb → UsbUrb × VirtualDevice
unfolding handle_standard_request handle_class_request handle_vendor_request response_with
handle_control_urb d urb =
    let kind = bit_and urb.setup.request_type 0x60 in
    let (standard, d') = handle_standard_request d urb.setup in
    if kind == 0x00
    then (response_with urb standard, d')
    else if kind == 0x20
    then (response_with urb (handle_class_request d urb.setup), d)
    else if kind == 0x40
    then (response_with urb (handle_vendor_request urb.setup), d)
    else (response_with urb urb.data_bytes, d)

unfoldable pub simulate_device_response : UsbUrb → UsbUrb
unfolding response_with
simulate_device_response urb = elim (urb.direction) [
  | dir_out ↦ response_with urb []
  | dir_in ↦ response_with urb (0x00 ∷ 0x01 ∷ 0x02 ∷ 0x03 ∷ [])
  | dir_other b ↦ response_with urb (0x00 ∷ 0x01 ∷ 0x02 ∷ 0x03 ∷ [])
]

-- INQUIRY: the 16 bytes of the product are its 15 characters and the NUL behind them.
unfoldable pub inquiry_reply : Bytes
unfolding write_at
inquiry_reply = write_at 16 (codes "Mass Storage   " ++ (0 ∷ [])) (
    write_at 8 (codes "Virtual ")
      (write_at 0 (0x00 ∷ 0x80 ∷ 0x04 ∷ 0x02 ∷ 31 ∷ []) (replicate 36 0)))

-- READ CAPACITY (10): 1024 blocks of 512 bytes.
unfoldable pub capacity_reply : Bytes
unfolding write_at
capacity_reply =
    write_at 4 (image32 (htonl 512)) (write_at 0 (image32 (htonl 1023)) (replicate 8 0))

unfoldable pub process_scsi_command : Bytes → Bytes
unfolding inquiry_reply capacity_reply
process_scsi_command cbw =
    if ltb (length cbw) 31
    then []
    else if get_or cbw 15 0 == 0x12
    then inquiry_reply
    else if get_or cbw 15 0 == 0x25
    then capacity_reply
    else []

abbrev pub csw_signature : ℕ
csw_signature = 0x53425355

-- A short OUT transfer is answered with its own data; the CSW is written over the URB's data.
unfoldable pub handle_mass_storage_urb : UsbUrb → UsbUrb
unfolding process_scsi_command response_with write_at resize
handle_mass_storage_urb urb =
    let status_wrapper =
      response_with urb (write_at 0 (image32 csw_signature) (resize 13 urb.data_bytes)) in
    elim (urb.direction) [
      | dir_out ↦ response_with urb (
          if leb 31 (length urb.data_bytes)
          then process_scsi_command urb.data_bytes
          else urb.data_bytes)
      | dir_in ↦ status_wrapper
      | dir_other b ↦ status_wrapper
    ]

unfoldable pub handle_bulk_urb : VirtualDevice → UsbUrb → UsbUrb
unfolding handle_mass_storage_urb simulate_device_response
handle_bulk_urb d urb =
    if d.device_info.device_class == class_mass_storage
    then handle_mass_storage_urb urb
    else simulate_device_response urb

unfoldable pub handle_interrupt_urb : UsbUrb → UsbUrb
handle_interrupt_urb urb = simulate_device_response urb

unfoldable pub handle_isochronous_urb : UsbUrb → UsbUrb
handle_isochronous_urb urb = simulate_device_response urb

unfoldable pub by_type : UsbTransferType → VirtualDevice → UsbUrb → UsbUrb × VirtualDevice
unfolding handle_control_urb handle_bulk_urb handle_interrupt_urb handle_isochronous_urb
by_type control d urb = handle_control_urb d urb
by_type isochronous d urb = (handle_isochronous_urb urb, d)
by_type bulk d urb = (handle_bulk_urb d urb, d)
by_type interrupt d urb = (handle_interrupt_urb urb, d)

-- The URB response callback's argument, if it is called, and the device afterwards.
unfoldable pub process_urb : VirtualDevice → UsbUrb → Option UsbUrb × VirtualDevice
unfolding by_type
process_urb d urb =
    let (response, d') = by_type urb.transfer_type d urb in
    if d.attached then (some response, d') else (none, d)
