-- ===== src/Usbip.antt =====
-- common/protocol/usbip_protocol.h and usbip_protocol.cpp: the packed structs of the USB/IP protocol,
-- their byte order, their serialization and their parsing. A struct is its fields; `image` is its
-- memory, which `std::memcpy` moves.
pub mod RoundTrip
use usb_lib.Prelude.{
  ℕ, ◌+◌, ◌%◌, ◌≡◌, List, [], ◌∷◌, ◌++◌, Option, none, some, Bool, true, false, ◌&&◌, ltb,
  if◌then◌else◌, length, take, drop, replicate, arith,
}
use Prim.Native.Nat.{bit_or}
use usb_lib.Words.{
  Bytes, image16, image32, image64, load16, load32, load64, htons, htonl, ntohs, ntohl,
}

pub record UsbipHeader : Type 0 where
  pub command : ℕ
  pub seqnum : ℕ
  pub devid : ℕ
  pub direction : ℕ
  pub ep : ℕ

-- The int32_t fields are bit patterns.
pub record UsbipCmdSubmit : Type 0 where
  pub header : UsbipHeader
  pub transfer_flags : ℕ
  pub transfer_buffer_length : ℕ
  pub start_frame : ℕ
  pub number_of_packets : ℕ
  pub interval : ℕ
  pub setup : ℕ

pub record UsbipRetSubmit : Type 0 where
  pub header : UsbipHeader
  pub status : ℕ
  pub actual_length : ℕ
  pub start_frame : ℕ
  pub number_of_packets : ℕ
  pub error_count : ℕ

pub record UsbipDeviceInfo : Type 0 where
  pub path : Bytes
  pub busid : Bytes
  pub busnum : ℕ
  pub devnum : ℕ
  pub speed : ℕ
  pub id_vendor : ℕ
  pub id_product : ℕ
  pub bcd_device : ℕ
  pub device_class : ℕ
  pub device_sub_class : ℕ
  pub device_protocol : ℕ
  pub configuration_value : ℕ
  pub num_configurations : ℕ
  pub num_interfaces : ℕ

abbrev pub op_reply : ℕ
op_reply = 0x00000000

abbrev pub op_devlist : ℕ
op_devlist = 0x00000005

abbrev pub usbip_cmd_submit : ℕ
usbip_cmd_submit = 0x00000001

abbrev pub usbip_ret_submit : ℕ
usbip_ret_submit = 0x00000003

-- The sizes of the packed structs.
abbrev pub sizeof_header : ℕ
sizeof_header = 20

abbrev pub sizeof_cmd_submit : ℕ
sizeof_cmd_submit = 48

abbrev pub sizeof_ret_submit : ℕ
sizeof_ret_submit = 40

abbrev pub sizeof_device_info : ℕ
sizeof_device_info = 312

-- Byte order.
unfoldable pub host_to_network_header : UsbipHeader → UsbipHeader
host_to_network_header h = record {
  command = htonl h.command;
  seqnum = htonl h.seqnum;
  devid = htonl h.devid;
  direction = htonl h.direction;
  ep = htonl h.ep;
}

unfoldable pub network_to_host_header : UsbipHeader → UsbipHeader
network_to_host_header h = record {
  command = ntohl h.command;
  seqnum = ntohl h.seqnum;
  devid = ntohl h.devid;
  direction = ntohl h.direction;
  ep = ntohl h.ep;
}

-- `setup` keeps its eight bytes as they are.
unfoldable pub host_to_network_cmd : UsbipCmdSubmit → UsbipCmdSubmit
host_to_network_cmd c = record c {
  header = host_to_network_header c.header;
  transfer_flags = htonl c.transfer_flags;
  transfer_buffer_length = htonl c.transfer_buffer_length;
  start_frame = htonl c.start_frame;
  number_of_packets = htonl c.number_of_packets;
  interval = htonl c.interval;
}

unfoldable pub network_to_host_cmd : UsbipCmdSubmit → UsbipCmdSubmit
network_to_host_cmd c = record c {
  header = network_to_host_header c.header;
  transfer_flags = ntohl c.transfer_flags;
  transfer_buffer_length = ntohl c.transfer_buffer_length;
  start_frame = ntohl c.start_frame;
  number_of_packets = ntohl c.number_of_packets;
  interval = ntohl c.interval;
}

unfoldable pub host_to_network_ret : UsbipRetSubmit → UsbipRetSubmit
host_to_network_ret r = record {
  header = host_to_network_header r.header;
  status = htonl r.status;
  actual_length = htonl r.actual_length;
  start_frame = htonl r.start_frame;
  number_of_packets = htonl r.number_of_packets;
  error_count = htonl r.error_count;
}

unfoldable pub network_to_host_ret : UsbipRetSubmit → UsbipRetSubmit
network_to_host_ret r = record {
  header = network_to_host_header r.header;
  status = ntohl r.status;
  actual_length = ntohl r.actual_length;
  start_frame = ntohl r.start_frame;
  number_of_packets = ntohl r.number_of_packets;
  error_count = ntohl r.error_count;
}

-- Memory images, with `tail` what stands behind the struct.
unfoldable pub image_header : UsbipHeader → Bytes → Bytes
image_header h tail =
    image32 h.command
    ++ (image32 h.seqnum ++ (image32 h.devid ++ (image32 h.direction ++ (image32 h.ep ++ tail))))

unfoldable pub image_cmd : UsbipCmdSubmit → Bytes → Bytes
image_cmd c tail = image_header c.header (
    image32 c.transfer_flags
    ++ (image32 c.transfer_buffer_length
        ++ (image32 c.start_frame
            ++ (image32 c.number_of_packets ++ (image32 c.interval ++ (image64 c.setup ++ tail))))))

unfoldable pub image_ret : UsbipRetSubmit → Bytes → Bytes
image_ret r tail = image_header r.header (
    image32 r.status
    ++ (image32 r.actual_length
        ++ (image32 r.start_frame
            ++ (image32 r.number_of_packets ++ (image32 r.error_count ++ tail)))))

unfoldable pub load_header : Bytes → UsbipHeader
load_header bs = record {
  command = load32 bs;
  seqnum = load32 (drop 4 bs);
  devid = load32 (drop 8 bs);
  direction = load32 (drop 12 bs);
  ep = load32 (drop 16 bs);
}

unfoldable pub load_cmd : Bytes → UsbipCmdSubmit
load_cmd bs = record {
  header = load_header bs;
  transfer_flags = load32 (drop 20 bs);
  transfer_buffer_length = load32 (drop 24 bs);
  start_frame = load32 (drop 28 bs);
  number_of_packets = load32 (drop 32 bs);
  interval = load32 (drop 36 bs);
  setup = load64 (drop 40 bs);
}

unfoldable pub load_ret : Bytes → UsbipRetSubmit
load_ret bs = record {
  header = load_header bs;
  status = load32 (drop 20 bs);
  actual_length = load32 (drop 24 bs);
  start_frame = load32 (drop 28 bs);
  number_of_packets = load32 (drop 32 bs);
  error_count = load32 (drop 36 bs);
}

-- The trailing data of a serialized command: `none` is a null pointer, for which `resize` leaves
-- zeros; otherwise the pointer has `len` bytes at least.
unfoldable pub trailing : Option Bytes → ℕ → Bytes
trailing none len = replicate len 0
trailing (some d) len = if ltb 0 len then take len d else replicate len 0

unfoldable pub serialize_cmd_submit : UsbipCmdSubmit → Option Bytes → ℕ → Bytes
unfolding trailing
serialize_cmd_submit cmd d len = image_cmd (host_to_network_cmd cmd) (trailing d len)

unfoldable pub serialize_ret_submit : UsbipRetSubmit → Option Bytes → ℕ → Bytes
unfolding trailing
serialize_ret_submit ret d len = image_ret (host_to_network_ret ret) (trailing d len)

-- `none` is the result `false`.
unfoldable pub parse_header : Bytes → Option UsbipHeader
parse_header bs =
    if ltb (length bs) sizeof_header then none else some (network_to_host_header (load_header bs))

unfoldable pub parse_cmd_submit : Bytes → Option UsbipCmdSubmit
parse_cmd_submit bs =
    if ltb (length bs) sizeof_cmd_submit then none else some (network_to_host_cmd (load_cmd bs))

unfoldable pub parse_ret_submit : Bytes → Option UsbipRetSubmit
parse_ret_submit bs =
    if ltb (length bs) sizeof_ret_submit then none else some (network_to_host_ret (load_ret bs))

-- One device of a device list, its numbers in network order.
unfoldable pub image_device : UsbipDeviceInfo → Bytes → Bytes
image_device d tail =
    d.path
    ++ (d.busid
        ++ (image32 d.busnum
            ++ (image32 d.devnum
                ++ (image32 d.speed
                    ++ (image16 d.id_vendor
                        ++ (image16 d.id_product
                            ++ (image16 d.bcd_device
                                ++ (d.device_class ∷ d.device_sub_class ∷ d.device_protocol
                                    ∷ d.configuration_value ∷ d.num_configurations
                                    ∷ d.num_interfaces ∷ tail))))))))

unfoldable pub device_to_network : UsbipDeviceInfo → UsbipDeviceInfo
device_to_network d = record d {
  busnum = htonl d.busnum;
  devnum = htonl d.devnum;
  speed = htonl d.speed;
  id_vendor = htons d.id_vendor;
  id_product = htons d.id_product;
  bcd_device = htons d.bcd_device;
}

unfoldable pub serialize_devices : List UsbipDeviceInfo → Bytes
serialize_devices [] = []
serialize_devices (d ∷ ds) = image_device (device_to_network d) (serialize_devices ds)

unfoldable pub serialize_device_list : List UsbipDeviceInfo → Bytes
serialize_device_list ds =
    image32 (htonl (bit_or op_reply op_devlist))
    ++ (image32 (htonl 0) ++ (image32 (htonl (length ds % 4294967296)) ++ serialize_devices ds))
