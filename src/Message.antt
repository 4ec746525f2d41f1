-- ===== src/Message.antt =====
-- common/network/message_handler.h and message_handler.cpp: the framing of messages on a byte stream.
-- The handler's state is its receive buffer; the static `next_sequence_` is passed from call to call.
-- The messages handed to the callback are returned, in order.
pub mod Frame
pub mod Stream
pub mod Total
pub mod Sound
pub mod Resync
use usb_lib.Prelude.{
  ℕ, zero, suc, ◌+◌, ◌%◌, ◌≡◌, List, [], ◌∷◌, ◌++◌, Option, none, some, Bool, true, false, ◌&&◌,
  ltb, ◌==◌, if◌then◌else◌, length, take, drop, not, arith,
}
use usb_lib.Words.{Bytes, image32, load32, htonl, ntohl}
use usb_lib.Search.{search_from}
use usb_lib.Usb.{UsbUrb}
use usb_lib.Usbip.{UsbipDeviceInfo, serialize_device_list}

pub data MessageType : Type 0 where
  device_list_request device_list_response device_import_request device_import_response :
      MessageType
  urb_submit urb_response device_disconnect heartbeat : MessageType

unfoldable pub type_value : MessageType → ℕ
type_value device_list_request = 1
type_value device_list_response = 2
type_value device_import_request = 3
type_value device_import_response = 4
type_value urb_submit = 5
type_value urb_response = 6
type_value device_disconnect = 7
type_value heartbeat = 8

pub record MessageHeader : Type 0 where
  pub magic : ℕ
  pub type : ℕ
  pub length : ℕ
  pub sequence : ℕ
  pub checksum : ℕ

pub record NetworkMessage : Type 0 where
  pub header : MessageHeader
  pub payload : Bytes

abbrev pub message_magic : ℕ
message_magic = 0x55534249

abbrev pub max_message_size : ℕ
max_message_size = 1048576

abbrev pub sizeof_message_header : ℕ
sizeof_message_header = 20

-- `next_sequence_++` returns the old value.
unfoldable pub get_next_sequence : ℕ → ℕ × ℕ
get_next_sequence next = (next, (next + 1) % 4294967296)

-- The constructors of NetworkMessage, with the counter before and after.
unfoldable pub network_message : MessageType → Bytes → ℕ → NetworkMessage × ℕ
unfolding get_next_sequence
network_message t bytes next =
    let (seq, next') = get_next_sequence next in
    (
      record {
        header = record {
          magic = message_magic;
          type = type_value t;
          length = length bytes % 4294967296;
          sequence = seq;
          checksum = 0;
        };
        payload = bytes;
      },
      next',
    )

-- The loop `checksum += data[i]` over a uint32_t.
unfoldable pub checksum_from : ℕ → Bytes → ℕ
checksum_from acc [] = acc
checksum_from acc (b ∷ bs) = checksum_from ((acc + b) % 4294967296) bs

unfoldable pub calculate_checksum : Bytes → ℕ → ℕ
unfolding checksum_from
calculate_checksum bs len = checksum_from 0 (take len bs)

unfoldable pub header_to_network : MessageHeader → MessageHeader
header_to_network h = record {
  magic = htonl h.magic;
  type = htonl h.type;
  length = htonl h.length;
  sequence = htonl h.sequence;
  checksum = htonl h.checksum;
}

unfoldable pub header_to_host : MessageHeader → MessageHeader
header_to_host h = record {
  magic = ntohl h.magic;
  type = ntohl h.type;
  length = ntohl h.length;
  sequence = ntohl h.sequence;
  checksum = ntohl h.checksum;
}

unfoldable pub image_message_header : MessageHeader → Bytes → Bytes
image_message_header h tail =
    image32 h.magic
    ++ (image32 h.type
        ++ (image32 h.length ++ (image32 h.sequence ++ (image32 h.checksum ++ tail))))

unfoldable pub load_message_header : Bytes → MessageHeader
load_message_header bs = record {
  magic = load32 bs;
  type = load32 (drop 4 bs);
  length = load32 (drop 8 bs);
  sequence = load32 (drop 12 bs);
  checksum = load32 (drop 16 bs);
}

unfoldable pub serialize_message : NetworkMessage → Bytes
serialize_message m =
    image_message_header
      (header_to_network
        (record (m.header) { checksum = calculate_checksum m.payload (length m.payload) }))
      m.payload

unfoldable pub validate_message : MessageHeader → Bytes → Bool
validate_message h payload =
    if h.length == 0 then h.checksum == 0 else calculate_checksum payload h.length == h.checksum

-- `none`: the message is too short and nothing is delivered.
unfoldable pub process_complete_message : Bytes → ℕ → Option NetworkMessage
process_complete_message bs len =
    let h = header_to_host (load_message_header bs) in
    if ltb len sizeof_message_header
    then none
    else some (record {
      header = h;
      payload = if ltb 0 h.length then take h.length (drop sizeof_message_header bs) else [];
    })

-- The bytes of MESSAGE_MAGIC as they stand in memory.
abbrev pub magic_pattern : Bytes
unfolding image32
magic_pattern = image32 message_magic

-- The search for the next magic number, from the second byte on.
unfoldable pub resync : Bytes → Bytes
resync buf = elim (search_from magic_pattern (drop 1 buf)) [ none ↦ [] | some found ↦ found ]

-- One round of the `while` loop: `leave` is the loop's test or its `break`, `again` has the message
-- that was delivered, if any, and the receive buffer that is left.
pub data Round : Type 0 where
  leave : Round
  again : Option NetworkMessage → Bytes → Round

-- The round after the header was read.
unfoldable pub round_after : MessageHeader → Bytes → Round
unfolding resync
round_after h buf =
    let total = sizeof_message_header + h.length in
    if not (h.magic == message_magic)
    then again none (resync buf)
    else if ltb max_message_size h.length
    then again none (drop sizeof_message_header buf)
    else if ltb (length buf) total
    then leave
    else again
        (if validate_message h (drop sizeof_message_header buf)
          then process_complete_message buf total
          else none)
        (drop total buf)

unfoldable pub round : Bytes → Round
round buf =
    if ltb (length buf) sizeof_message_header
    then leave
    else round_after (header_to_host (load_message_header buf)) buf

abbrev pub deliver : Option NetworkMessage → List NetworkMessage → List NetworkMessage
deliver none ms = ms
deliver (some m) ms = m ∷ ms

abbrev pub delivering :
    Option NetworkMessage
    → Option (List NetworkMessage × Bytes)
    → Option (List NetworkMessage × Bytes)
delivering m none = none
delivering m (some (ms, buf)) = some (deliver m ms, buf)

-- The loop, on fuel; `none` means that the fuel ran out.
unfoldable pub process_loop : ℕ → Bytes → Option (List NetworkMessage × Bytes)
process_loop zero buf = none
process_loop (suc fuel) buf = elim (round buf) [
  | leave ↦ some ([], buf)
  | again m rest ↦ delivering m (process_loop fuel rest)
]

-- Each round that goes on shortens the buffer.
unfoldable pub process_received_data : Bytes → Bytes → Option (List NetworkMessage × Bytes)
process_received_data buf bytes = process_loop (suc (length (buf ++ bytes))) (buf ++ bytes)

-- The bytes arrive in pieces, one call for each.
unfoldable pub receive_all : Bytes → List Bytes → Option (List NetworkMessage × Bytes)
receive_all buf [] = some ([], buf)
receive_all buf (c ∷ cs) = elim (process_received_data buf c) [
  | none ↦ none
  | some (ms, buf') ↦ elim (receive_all buf' cs) [
    | none ↦ none
    | some (more, last) ↦ some (ms ++ more, last)
  ]
]

-- The messages that the program sends.
unfoldable pub create_device_list_request : ℕ → NetworkMessage × ℕ
create_device_list_request = network_message device_list_request []

unfoldable pub create_device_list_response : List UsbipDeviceInfo → ℕ → NetworkMessage × ℕ
create_device_list_response ds = network_message device_list_response (serialize_device_list ds)

unfoldable pub create_device_import_request : Bytes → ℕ → NetworkMessage × ℕ
create_device_import_request bus_id = network_message device_import_request bus_id

unfoldable pub create_device_import_response : Bool → Bytes → ℕ → NetworkMessage × ℕ
create_device_import_response success error =
    network_message device_import_response
      ((if success then 1 else 0) ∷ (if not success && ltb 0 (length error) then error else []))

unfoldable pub create_urb_submit : UsbUrb → ℕ → NetworkMessage × ℕ
create_urb_submit urb = network_message urb_submit []

unfoldable pub create_urb_response : UsbUrb → ℕ → NetworkMessage × ℕ
create_urb_response urb = network_message urb_response []

unfoldable pub create_device_disconnect : Bytes → ℕ → NetworkMessage × ℕ
create_device_disconnect bus_id = network_message device_disconnect bus_id

unfoldable pub create_heartbeat : ℕ → NetworkMessage × ℕ
create_heartbeat = network_message heartbeat []
