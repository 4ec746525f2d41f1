-- ===== src/Client/DeviceList/RoundTrip.antt =====
-- `UsbipProtocol::SerializeDeviceList` against `UsbipClient::HandleDeviceListResponse`.
use usb_lib.Prelude.{
  ℕ, zero, suc, ◌+◌, ◌*◌, ◌%◌, ◌≤◌, ◌<◌, ◌⊎◌, inl, ◌≡◌, refl, ap, ◌∙◌, List, [], ◌∷◌, ◌++◌, length,
  take, drop, arith, All, length-append, drop-append_left, take-append_left, drop-add,
}
use usb_lib.Words.{
  Bytes, IsU16, IsU32, image16, image32, load16, load32, ntohl, ntohl_field, ntohs_field,
}
use usb_lib.Usbip.{
  UsbipDeviceInfo, image_device, device_to_network, serialize_devices, serialize_device_list,
}
use usb_lib.Client.DeviceList.{
  load_device, device_to_host, device_loop, handle_device_list_response,
}

-- The texts fill their arrays and the numbers fit their fields.
pub record IsDevice (d : UsbipDeviceInfo) : Type 0 where
  pub path_size : length d.path ≡ 256
  pub busid_size : length d.busid ≡ 32
  pub busnum_u32 : IsU32 d.busnum
  pub devnum_u32 : IsU32 d.devnum
  pub speed_u32 : IsU32 d.speed
  pub vendor_u16 : IsU16 d.id_vendor
  pub product_u16 : IsU16 d.id_product
  pub bcd_u16 : IsU16 d.bcd_device

-- The numbers of a device in memory, with what follows.
numbers_image : UsbipDeviceInfo → Bytes → Bytes
numbers_image d tail =
    image32 d.busnum
    ++ (image32 d.devnum
        ++ (image32 d.speed
            ++ (image16 d.id_vendor
                ++ (image16 d.id_product
                    ++ (image16 d.bcd_device
                        ++ (d.device_class ∷ d.device_sub_class ∷ d.device_protocol
                            ∷ d.configuration_value ∷ d.num_configurations ∷ d.num_interfaces
                            ∷ tail))))))

module _ (d : UsbipDeviceInfo) (tail : Bytes) (v : IsDevice d) where
  net : UsbipDeviceInfo
  net = device_to_network d

  behind_path : drop 256 (image_device net tail) ≡ d.busid ++ numbers_image net tail
  unfolding net image_device numbers_image device_to_network
  behind_path = drop-append_left 256 d.path _ v.path_size

  numbers : drop 32 (drop 256 (image_device net tail)) ≡ numbers_image net tail
  numbers = ap (drop 32) behind_path ∙ drop-append_left 32 d.busid _ v.busid_size

  path_read : take 256 (image_device net tail) ≡ d.path
  unfolding net image_device device_to_network
  path_read = take-append_left 256 d.path _ v.path_size

  busid_read : take 32 (drop 256 (image_device net tail)) ≡ d.busid
  busid_read = ap (take 32) behind_path ∙ take-append_left 32 d.busid _ v.busid_size

  pub load-image_device : device_to_host (load_device (image_device (device_to_network d) tail)) ≡ d
  unfolding device_to_host load_device numbers_image net device_to_network image32 image16 load32
      load16
  load-image_device =
      rw (numbers, path_read, busid_read)
        λ i. record d {
          busnum = ntohl_field d.busnum v.busnum_u32 i;
          devnum = ntohl_field d.devnum v.devnum_u32 i;
          speed = ntohl_field d.speed v.speed_u32 i;
          id_vendor = ntohs_field d.id_vendor v.vendor_u16 i;
          id_product = ntohs_field d.id_product v.product_u16 i;
          bcd_device = ntohs_field d.bcd_device v.bcd_u16 i;
        }

  behind_device : drop 312 (image_device (device_to_network d) tail) ≡ tail
  unfolding net numbers_image image32 image16
  behind_device =
      drop-add 288 24 (image_device net tail)
      ∙ ap (drop 24) (drop-add 256 32 (image_device net tail) ∙ numbers)

  length-image_device : length (image_device (device_to_network d) tail) ≡ 312 + length tail
  unfolding image_device image32 image16 device_to_network
  length-image_device =
      rw (length-append d.path, length-append d.busid) (omega (arith, v.path_size, v.busid_size))

device_loop-serialize :
    (ds : List UsbipDeviceInfo) (payload : Bytes) (offset : ℕ)
    → All IsDevice ds
    → drop offset payload ≡ serialize_devices ds
    → length payload ≡ offset + length (serialize_devices ds)
    → device_loop (length ds) payload offset ≡ ds
unfolding device_loop serialize_devices
device_loop-serialize [] payload offset v e len = refl
device_loop-serialize (d ∷ ds) payload offset v e len =
    let tail = serialize_devices ds in
    let size = length-image_device d tail v.0 in
    let rest =
      device_loop-serialize ds payload (offset + 312) v.1
        (drop-add offset 312 payload ∙ ap (drop 312) e ∙ behind_device d tail v.0)
        (omega (arith, len, size)) in
    let first =
      ap (λ (b : Bytes). device_to_host (load_device b)) e ∙ load-image_device d tail v.0 in
    ground (arith, rest, first, size)

-- What the sender puts into a device list response is what the receiver's callback gets: the devices
-- come back in order with all their fields, for a list of less than 2^32 devices whose texts fill their
-- arrays and whose numbers fit.
pub handle_device_list_response-serialize_device_list :
    (ds : List UsbipDeviceInfo)
    → All IsDevice ds
    → IsU32 (length ds)
    → handle_device_list_response (serialize_device_list ds) ≡ ds
unfolding handle_device_list_response serialize_device_list image32 load32
handle_device_list_response-serialize_device_list ds v few =
    let payload = serialize_device_list ds in
    let wrap : length ds % 4294967296 ≡ length ds = omega arith in
    let count = ntohl_field (length ds % 4294967296) (omega arith) ∙ wrap in
    let loop = device_loop-serialize ds payload 12 v refl (omega arith) in
    ground (arith, ap (λ (n : ℕ). device_loop n payload 12) count, loop)

pub length-serialize_devices :
    (ds : List UsbipDeviceInfo) → All IsDevice ds → length (serialize_devices ds) ≡ 312 * length ds
unfolding serialize_devices
length-serialize_devices [] v = refl
length-serialize_devices (d ∷ ds) v =
    omega (arith, length-image_device d (serialize_devices ds) v.0, length-serialize_devices ds v.1)

pub length-serialize_device_list :
    (ds : List UsbipDeviceInfo)
    → All IsDevice ds
    → length (serialize_device_list ds) ≡ 12 + 312 * length ds
unfolding serialize_device_list image32
length-serialize_device_list ds v = omega (arith, length-serialize_devices ds v)

-- From an offset in the payload as many devices are read as are announced, or as many as the rest has
-- room for.
device_loop_bounds :
    (n : ℕ) (payload : Bytes) (offset : ℕ)
    → offset ≤ length payload
    → let k = length (device_loop n payload offset) in
      (k ≤ n)
      × (offset + 312 * k ≤ length payload)
      × ((k ≡ n) ⊎ (length payload < offset + 312 * (k + 1)))
unfolding device_loop
device_loop_bounds zero payload offset h = (omega arith, omega arith, inl refl)
device_loop_bounds (suc n) payload offset h =
    ground (arith, device_loop_bounds n payload (offset + 312))

-- From a payload that is shorter than the header of twelve bytes no device is read. From any other the
-- devices that are read lie behind the header and inside the payload, they are no more than the header
-- announces, and they are fewer only if the payload has no room for the next one.
pub handle_device_list_response_bounds :
    (payload : Bytes)
    → let k = length (handle_device_list_response payload) in
      let announced = ntohl (load32 (drop 8 payload)) in
      ((length payload < 12) × (k ≡ 0))
      ⊎ ((12 + 312 * k ≤ length payload)
          × (k ≤ announced)
          × ((k ≡ announced) ⊎ (length payload < 12 + 312 * (k + 1))))
unfolding handle_device_list_response
handle_device_list_response_bounds payload =
    ground (arith, device_loop_bounds (ntohl (load32 (drop 8 payload))) payload 12)
