-- ===== src/Usbip/RoundTrip.antt =====
-- The serializers and the parsers of usbip_protocol.cpp against each other.
use usb_lib.Prelude.{
  ◌+◌, ◌≡◌, refl, [], ◌∷◌, some, length, drop, arith, le→ltb, lt→ltb, suc, ap, take_self,
}
use usb_lib.Words.{
  Bytes, IsU32, IsU64, image32, image64, load32, load64, load64-image64, ntohl_field,
}
use usb_lib.Usbip.{
  UsbipHeader, UsbipCmdSubmit, UsbipRetSubmit, host_to_network_header, network_to_host_header,
  host_to_network_cmd, network_to_host_cmd, host_to_network_ret, network_to_host_ret, image_header,
  image_cmd, image_ret, load_header, load_cmd, load_ret, trailing, serialize_cmd_submit,
  serialize_ret_submit, parse_cmd_submit, parse_ret_submit,
}

-- The fields fit their types.
pub record IsHeader (h : UsbipHeader) : Type 0 where
  pub command_u32 : IsU32 h.command
  pub seqnum_u32 : IsU32 h.seqnum
  pub devid_u32 : IsU32 h.devid
  pub direction_u32 : IsU32 h.direction
  pub ep_u32 : IsU32 h.ep

pub record IsCmdSubmit (c : UsbipCmdSubmit) : Type 0 where
  pub header_valid : IsHeader c.header
  pub flags_u32 : IsU32 c.transfer_flags
  pub length_u32 : IsU32 c.transfer_buffer_length
  pub start_u32 : IsU32 c.start_frame
  pub packets_u32 : IsU32 c.number_of_packets
  pub interval_u32 : IsU32 c.interval
  pub setup_u64 : IsU64 c.setup

pub record IsRetSubmit (r : UsbipRetSubmit) : Type 0 where
  pub header_valid : IsHeader r.header
  pub status_u32 : IsU32 r.status
  pub length_u32 : IsU32 r.actual_length
  pub start_u32 : IsU32 r.start_frame
  pub packets_u32 : IsU32 r.number_of_packets
  pub errors_u32 : IsU32 r.error_count

pub load-image_header :
    (h : UsbipHeader)
    → IsHeader h
    → network_to_host_header (load_header (image_header (host_to_network_header h) [])) ≡ h
unfolding network_to_host_header load_header image_header host_to_network_header image32 load32
load-image_header h v = λ i. record {
  command = ntohl_field h.command v.command_u32 i;
  seqnum = ntohl_field h.seqnum v.seqnum_u32 i;
  devid = ntohl_field h.devid v.devid_u32 i;
  direction = ntohl_field h.direction v.direction_u32 i;
  ep = ntohl_field h.ep v.ep_u32 i;
}

load-image_cmd :
    (c : UsbipCmdSubmit) (tail : Bytes)
    → IsCmdSubmit c
    → network_to_host_cmd (load_cmd (image_cmd (host_to_network_cmd c) tail)) ≡ c
unfolding network_to_host_cmd load_cmd image_cmd host_to_network_cmd image_header image32 image64
    load32 load64 load_header
load-image_cmd c tail v = λ i. record {
  header = load-image_header c.header v.header_valid i;
  transfer_flags = ntohl_field c.transfer_flags v.flags_u32 i;
  transfer_buffer_length = ntohl_field c.transfer_buffer_length v.length_u32 i;
  start_frame = ntohl_field c.start_frame v.start_u32 i;
  number_of_packets = ntohl_field c.number_of_packets v.packets_u32 i;
  interval = ntohl_field c.interval v.interval_u32 i;
  setup = load64-image64 c.setup tail v.setup_u64 i;
}

length-image_cmd :
    (c : UsbipCmdSubmit) (tail : Bytes) → length (image_cmd c tail) ≡ length tail + 48
unfolding image_cmd image_header image32 image64
length-image_cmd c tail = omega arith

load-image_ret :
    (r : UsbipRetSubmit) (tail : Bytes)
    → IsRetSubmit r
    → network_to_host_ret (load_ret (image_ret (host_to_network_ret r) tail)) ≡ r
unfolding network_to_host_ret load_ret image_ret host_to_network_ret image_header image32 load32
    load_header
load-image_ret r tail v = λ i. record {
  header = load-image_header r.header v.header_valid i;
  status = ntohl_field r.status v.status_u32 i;
  actual_length = ntohl_field r.actual_length v.length_u32 i;
  start_frame = ntohl_field r.start_frame v.start_u32 i;
  number_of_packets = ntohl_field r.number_of_packets v.packets_u32 i;
  error_count = ntohl_field r.error_count v.errors_u32 i;
}

pub length-image_ret :
    (r : UsbipRetSubmit) (tail : Bytes) → length (image_ret r tail) ≡ length tail + 40
unfolding image_ret image_header image32
length-image_ret r tail = omega arith

pub trailing-whole : (d : Bytes) → trailing (some d) (length d) ≡ d
unfolding trailing
trailing-whole [] = refl
trailing-whole (x ∷ xs) = rw (lt→ltb 0 (suc (length xs)) (omega arith)) (ap (◌∷◌ x) (take_self xs))

pub drop-image_cmd : (c : UsbipCmdSubmit) (tail : Bytes) → drop 48 (image_cmd c tail) ≡ tail
unfolding image_cmd image_header image32 image64
drop-image_cmd c tail = refl

pub drop-image_ret : (r : UsbipRetSubmit) (tail : Bytes) → drop 40 (image_ret r tail) ≡ tail
unfolding image_ret image_header image32
drop-image_ret r tail = refl

pub length-serialize_cmd :
    (c : UsbipCmdSubmit) (d : Bytes)
    → length (serialize_cmd_submit c (some d) (length d)) ≡ length d + 48
unfolding serialize_cmd_submit
length-serialize_cmd c d = rw (trailing-whole d) (length-image_cmd (host_to_network_cmd c) d)

-- A submit command whose fields fit their types is parsed back from its serialization, with the data
-- that was passed behind it.
pub parse-serialize_cmd_submit :
    (c : UsbipCmdSubmit) (d : Bytes)
    → IsCmdSubmit c
    → (parse_cmd_submit (serialize_cmd_submit c (some d) (length d)) ≡ some c)
      × (drop 48 (serialize_cmd_submit c (some d) (length d)) ≡ d)
      × (length (serialize_cmd_submit c (some d) (length d)) ≡ length d + 48)
unfolding parse_cmd_submit serialize_cmd_submit
parse-serialize_cmd_submit c d v =
    rw (trailing-whole d) (parsed, drop-image_cmd _ d, length-image_cmd _ d)
  where
    sent : Bytes
    sent = image_cmd (host_to_network_cmd c) d

    parsed : parse_cmd_submit sent ≡ some c
    parsed =
        rw (le→ltb (length sent) 48 (omega (arith, length-image_cmd (host_to_network_cmd c) d)))
          (ap some (load-image_cmd c d v))

-- A reply whose fields fit their types is parsed back from its serialization, with the data that was
-- passed behind it.
pub parse-serialize_ret_submit :
    (r : UsbipRetSubmit) (d : Bytes)
    → IsRetSubmit r
    → (parse_ret_submit (serialize_ret_submit r (some d) (length d)) ≡ some r)
      × (drop 40 (serialize_ret_submit r (some d) (length d)) ≡ d)
      × (length (serialize_ret_submit r (some d) (length d)) ≡ length d + 40)
unfolding parse_ret_submit serialize_ret_submit
parse-serialize_ret_submit r d v =
    rw (trailing-whole d) (parsed, drop-image_ret _ d, length-image_ret _ d)
  where
    sent : Bytes
    sent = image_ret (host_to_network_ret r) d

    parsed : parse_ret_submit sent ≡ some r
    parsed =
        rw (le→ltb (length sent) 40 (omega (arith, length-image_ret (host_to_network_ret r) d)))
          (ap some (load-image_ret r d v))
