-- ===== src/Sender/Requests.antt =====
-- The sender's answers to the receiver's requests, as the receiver's client reads them.
use usb_lib.Prelude.{
  ℕ, zero, suc, ◌+◌, ◌*◌, ◌≤◌, ◌≡◌, ◌∙◌, ◌⊎◌, inl, inr, refl, sym, ap, append-nil, List, [], ◌∷◌,
  some, map, length, arith, All, true, false, Bool-cases, length-append, length-replicate,
  if◌then◌else◌,
}
use usb_lib.Words.{Bytes, IsU16, IsU32}
use usb_lib.Message.{
  NetworkMessage, network_message, type_value, serialize_message, create_device_list_request,
  create_device_list_response, create_device_import_request, create_device_import_response,
  device_import_response, get_next_sequence, receive_all,
}
use usb_lib.Message.Frame.{IsMessage, received, wire_header}
use usb_lib.Message.Stream.{join, receive_all-frames}
use usb_lib.Usb.{UsbSetupPacket}
use usb_lib.Usbip.{UsbipDeviceInfo}
use usb_lib.Client as Client
use usb_lib.Client.{handle_device_import_response, device_list_callback, on_network_messages}
use usb_lib.Client.DeviceList.RoundTrip.{
  IsDevice, handle_device_list_response-serialize_device_list, length-serialize_device_list,
}
use usb_lib.Sender.{
  StorageDevice, strncpy, text_field, device_info, same_text, has_device, device_not_found,
  on_network_message, handle_device_list_request, handle_device_import_request,
}

length-strncpy : (n : ℕ) (text : Bytes) → length (strncpy n text) ≡ n
unfolding strncpy
length-strncpy zero text = refl
length-strncpy (suc n) [] = ap suc (length-replicate n 0)
length-strncpy (suc n) (c ∷ text) =
    ground (arith, length-strncpy n text, length-replicate {A = ℕ} n 0)

length-text_field : (n : ℕ) (text : Bytes) → length (text_field n text) ≡ n + 1
unfolding text_field
length-text_field n text =
    omega (arith, length-append (strncpy n text) (0 ∷ []), length-strncpy n text)

-- The numbers of the device fit the fields of the wire format.
pub record IsListable (d : StorageDevice) : Type 0 where
  pub bus_u32 : IsU32 d.info.bus_number
  pub device_u32 : IsU32 d.info.device_number
  pub speed_u32 : IsU32 d.info.speed
  pub vendor_u16 : IsU16 d.info.descriptor.id_vendor
  pub product_u16 : IsU16 d.info.descriptor.id_product
  pub bcd_u16 : IsU16 d.info.descriptor.bcd_device

device_info-IsDevice : (d : StorageDevice) → IsListable d → IsDevice (device_info d)
unfolding device_info
device_info-IsDevice d v = record {
  path_size = length-text_field 255 d.path;
  busid_size = length-text_field 31 d.bus_id;
  busnum_u32 = v.bus_u32;
  devnum_u32 = v.device_u32;
  speed_u32 = v.speed_u32;
  vendor_u16 = v.vendor_u16;
  product_u16 = v.product_u16;
  bcd_u16 = v.bcd_u16;
}

devices_valid : (ds : List StorageDevice) → All IsListable ds → All IsDevice (map device_info ds)
devices_valid [] v = tt
devices_valid (d ∷ ds) v = (device_info-IsDevice d v.0, devices_valid ds v.1)

length-devices : (ds : List StorageDevice) → length (map device_info ds) ≡ length ds
length-devices [] = refl
length-devices (d ∷ ds) = ap suc (length-devices ds)

-- The answer, and what its size is.
response : List StorageDevice → ℕ → NetworkMessage
response ds seq = (create_device_list_response (map device_info ds) seq).0

response-IsMessage :
    (ds : List StorageDevice) (seq : ℕ)
    → All IsListable ds
    → length ds ≤ 3360
    → IsU32 seq
    → IsMessage (response ds seq)
unfolding response create_device_list_response network_message get_next_sequence type_value
response-IsMessage ds seq v few n =
    let size =
      length-serialize_device_list (map device_info ds) (devices_valid ds v)
      ∙ ap (λ (k : ℕ). 12 + 312 * k) (length-devices ds) in
    record {
      magic_right = refl;
      type_u32 = omega arith;
      length_right = omega (arith, size, few);
      within_limit = omega (arith, size, few);
      sequence_u32 = n;
    }

response_arrives :
    (ds : List StorageDevice) (seq : ℕ) (env : ℕ → UsbSetupPacket × ℕ) (s : ℕ)
    → All IsListable ds
    → length ds ≤ 3360
    → on_network_messages (received (response ds seq) ∷ []) env 0 s
      ≡ (device_list_callback (map device_info ds) ∷ [], s)
unfolding response create_device_list_response network_message type_value on_network_messages
    Client.on_network_message received wire_header
response_arrives ds seq env s v few =
    ap (λ (infos : List UsbipDeviceInfo). (device_list_callback infos ∷ [], s))
      (handle_device_list_response-serialize_device_list (map device_info ds) (devices_valid ds v)
        (omega (arith, length-devices ds, few)))

-- For at most 3360 devices, which is what fits a message, whose numbers fit their fields, the sender
-- answers the receiver's device list request with one message. If its bytes reach the receiver, cut
-- anywhere into pieces, the receiver's handler returns with an empty buffer, and its client calls the
-- device list callback once, with exactly the descriptions of the sender's devices, in order.
pub device_list_request_answered :
    (ds : List StorageDevice) (seq seq' : ℕ) (cut : Bytes → List Bytes)
    (env : ℕ → UsbSetupPacket × ℕ) (s : ℕ)
    → All IsListable ds
    → length ds ≤ 3360
    → IsU32 seq
    → ((bytes : Bytes) → join (cut bytes) ≡ bytes)
    → (bytes : Bytes) × (ms : List NetworkMessage) × ((on_network_message ds
          (create_device_list_request seq').0
          seq).0
        ≡ some bytes)
      × (receive_all [] (cut bytes) ≡ some (ms, []))
      × (on_network_messages ms env 0 s ≡ (device_list_callback (map device_info ds) ∷ [], s))
unfolding on_network_message create_device_list_request network_message type_value
    handle_device_list_request response
device_list_request_answered ds seq seq' cut env s v few n whole =
    let m = response ds seq in
    (
      serialize_message m,
      received m ∷ [],
      refl,
      receive_all-frames (m ∷ []) (cut (serialize_message m))
          (response-IsMessage ds seq v few n, tt)
          (whole (serialize_message m) ∙ sym (append-nil (serialize_message m))),
      response_arrives ds seq env s v few,
    )

-- A device of the list has the bus id.
abbrev pub Offers : List StorageDevice → Bytes → Type 0
Offers [] bus_id = ⊥
Offers (d ∷ ds) bus_id = (d.bus_id ≡ bus_id) ⊎ Offers ds bus_id

pub same_text→eq : (a b : Bytes) → same_text a b ≡ true → a ≡ b
unfolding same_text
same_text→eq [] [] e = refl
same_text→eq [] (y ∷ b) e = cc
same_text→eq (x ∷ a) [] e = cc
same_text→eq (x ∷ a) (y ∷ b) e = ground (arith, same_text→eq a b)

pub same_text_refl : (a : Bytes) → same_text a a ≡ true
unfolding same_text
same_text_refl [] = refl
same_text_refl (x ∷ a) = ground (arith, same_text_refl a)

has_device→Offers : (ds : List StorageDevice) (b : Bytes) → has_device ds b ≡ true → Offers ds b
unfolding has_device
has_device→Offers [] b e = cc
has_device→Offers (d ∷ ds) b e = elim (Bool-cases (same_text d.bus_id b)) [
  | inl same ↦ inl (same_text→eq d.bus_id b same)
  | inr other ↦ inr (has_device→Offers ds b (ground arith))
]

Offers→has_device : (ds : List StorageDevice) (b : Bytes) → Offers ds b → has_device ds b ≡ true
unfolding has_device
Offers→has_device [] b h = elim h [ ]
Offers→has_device (d ∷ ds) b (inl e) = rw e (rw (same_text_refl b))
Offers→has_device (d ∷ ds) b (inr h) = ground (arith, Offers→has_device ds b h)

-- The sender answers an import request with one message. The receiver's client reads success from it
-- if a device of the sender has the requested bus id, and otherwise the failure with its error text.
pub import_request_answered :
    (ds : List StorageDevice) (bus_id : Bytes) (seq seq' : ℕ)
    → (m : NetworkMessage) × ((on_network_message ds
          (create_device_import_request bus_id seq').0
          seq).0
        ≡ some (serialize_message m))
      × (m.header.type ≡ type_value device_import_response)
      × ((Offers ds bus_id × (handle_device_import_response m.payload ≡ (true, [])))
          ⊎ ((¬ Offers ds bus_id)
              × (handle_device_import_response m.payload ≡ (false, device_not_found))))
unfolding on_network_message create_device_import_request network_message type_value
    handle_device_import_request create_device_import_response handle_device_import_response
import_request_answered ds bus_id seq seq' = elim (Bool-cases (has_device ds bus_id)) [
  | inl e ↦ (
    (create_device_import_response (has_device ds bus_id)
        (if has_device ds bus_id then [] else device_not_found) seq).0,
    refl,
    refl,
    inl (has_device→Offers ds bus_id e, ground (arith, e)),
  )
  | inr e ↦ (
    (create_device_import_response (has_device ds bus_id)
        (if has_device ds bus_id then [] else device_not_found) seq).0,
    refl,
    refl,
    inr ((λ h. absurd (ground (arith, e, Offers→has_device ds bus_id h))), ground (arith, e)),
  )
]
