-- ===== src/Client/DeviceList.antt =====
-- `UsbipClient::HandleDeviceListResponse`: the devices in a message's payload.
pub mod RoundTrip
use usb_lib.Prelude.{
  ℕ, zero, suc, ◌+◌, List, [], ◌∷◌, ltb, leb, if◌then◌else◌, length, take, drop, get_or, arith,
}
use usb_lib.Words.{Bytes, load16, load32, ntohs, ntohl}
use usb_lib.Usbip.{UsbipDeviceInfo, sizeof_device_info}

-- `std::memcpy` into a UsbipDeviceInfo. The first 288 bytes are the two texts.
unfoldable pub load_device : Bytes → UsbipDeviceInfo
load_device bs =
    let numbers = drop 32 (drop 256 bs) in
    record {
      path = take 256 bs;
      busid = take 32 (drop 256 bs);
      busnum = load32 numbers;
      devnum = load32 (drop 4 numbers);
      speed = load32 (drop 8 numbers);
      id_vendor = load16 (drop 12 numbers);
      id_product = load16 (drop 14 numbers);
      bcd_device = load16 (drop 16 numbers);
      device_class = get_or numbers 18 0;
      device_sub_class = get_or numbers 19 0;
      device_protocol = get_or numbers 20 0;
      configuration_value = get_or numbers 21 0;
      num_configurations = get_or numbers 22 0;
      num_interfaces = get_or numbers 23 0;
    }

unfoldable pub device_to_host : UsbipDeviceInfo → UsbipDeviceInfo
device_to_host d = record d {
  busnum = ntohl d.busnum;
  devnum = ntohl d.devnum;
  speed = ntohl d.speed;
  id_vendor = ntohs d.id_vendor;
  id_product = ntohs d.id_product;
  bcd_device = ntohs d.bcd_device;
}

-- The loop over the announced number of devices, which stops where the payload ends.
unfoldable pub device_loop : ℕ → Bytes → ℕ → List UsbipDeviceInfo
device_loop zero payload offset = []
device_loop (suc n) payload offset =
    let rest = device_loop n payload (offset + sizeof_device_info) in
    if leb (offset + sizeof_device_info) (length payload)
    then device_to_host (load_device (drop offset payload)) ∷ rest
    else []

-- The list that the device list callback gets; it is called on every payload.
unfoldable pub handle_device_list_response : Bytes → List UsbipDeviceInfo
unfolding device_loop
handle_device_list_response payload =
    if leb 12 (length payload) then device_loop (ntohl (load32 (drop 8 payload))) payload 12 else []
