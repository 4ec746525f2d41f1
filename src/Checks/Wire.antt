-- ===== src/Checks/Wire.antt =====
-- The theorems on messages and the redirected transfers, at concrete inputs.
use usb_lib.Prelude.{
  ap, ◌∙◌, take, take-append-drop, append-nil, ℕ, ◌+◌, ◌*◌, ◌≤◌, ◌<◌, ◌≡◌, ◌≢◌, ◌⊎◌, refl, List, [],
  ◌∷◌, ◌++◌, true, false, some, All, length, drop, replicate, arith,
}
use usb_lib.Words.{Bytes, ntohl, htonl, image32, load32}
use usb_lib.Usb.{UsbUrb, UsbSetupPacket}
use usb_lib.Usbip.{parse_cmd_submit, serialize_cmd_submit}
use usb_lib.Usbip.RoundTrip.{IsHeader, IsCmdSubmit, parse-serialize_cmd_submit}
use usb_lib.Message.{
  checksum_from, calculate_checksum, image_message_header, header_to_network, header_to_host,
  load_message_header, process_loop, round_after, validate_message, process_complete_message,
  NetworkMessage, serialize_message, receive_all, process_received_data, round, leave,
  message_magic, type_value, device_import_response, create_device_list_request,
  create_device_import_request,
}
use usb_lib.Message.Frame.{front_header, wire_header, received}
use usb_lib.Message.Stream.{frames, join, receive_all-frames}
use usb_lib.Message.Total.{process_received_data-total}
use usb_lib.Message.Sound.{IsSound, process_received_data-IsSound}
use usb_lib.Message.Resync.{process_received_data-astray}
use usb_lib.Capture.Processor.{process_urb}
use usb_lib.Client.{device_list_callback, on_network_messages, handle_device_import_response}
use usb_lib.Client.Urb.{handle_urb_submit}
use usb_lib.Client.Transport.{arrived, handle-process_urb_out}
use usb_lib.Client.Misread.{handle-process_urb_in}
use usb_lib.Client.DeviceList.{handle_device_list_response}
use usb_lib.Client.DeviceList.RoundTrip.{handle_device_list_response_bounds}
use usb_lib.Sender.{wire_of, on_network_message, device_info, device_not_found}
use usb_lib.Sender.Pipeline.{arrivals, pipeline_delivers}
use usb_lib.Sender.Requests.{
  IsListable, Offers, device_list_request_answered, import_request_answered,
}
use usb_lib.Checks.{
  beat, three_bytes, beat-IsMessage, three_bytes-IsMessage, no_setup, bulk_out, bulk_in,
  set_configuration_1, bulk_out-IsSubmittable, bulk_out-IsSendable, set_configuration_1-IsSendable,
  stick, a_command,
}

-- The bytes of two frames in two pieces, cut inside the first header.
abbrev pieces : List Bytes
pieces = (85 ∷ 83 ∷ []) ∷ drop 2 (frames (beat ∷ three_bytes ∷ [])) ∷ []

pieces_lem : join pieces ≡ frames (beat ∷ three_bytes ∷ [])
unfolding serialize_message image_message_header header_to_network calculate_checksum checksum_from
    image32 htonl
pieces_lem = refl

receive_all-frames_example :
    receive_all [] pieces ≡ some (received beat ∷ received three_bytes ∷ [], [])
receive_all-frames_example =
    receive_all-frames (beat ∷ three_bytes ∷ []) pieces
      (beat-IsMessage, (three_bytes-IsMessage, tt)) pieces_lem

process_received_data-total_example :
    (ms : List NetworkMessage) × (rest : Bytes) × (process_received_data (1 ∷ []) (replicate 30 2)
      ≡ some (ms, rest))
    × (round rest ≡ leave)
    × (length rest ≤ length {A = ℕ} ((1 ∷ []) ++ replicate 30 2))
process_received_data-total_example = process_received_data-total (1 ∷ []) (replicate 30 2)

beat_arrives : process_received_data [] (serialize_message beat) ≡ some (received beat ∷ [], [])
unfolding serialize_message image_message_header header_to_network header_to_host
    load_message_header calculate_checksum checksum_from image32 load32 htonl ntohl
    process_received_data process_loop round round_after validate_message process_complete_message
    received wire_header
beat_arrives = refl

process_received_data-IsSound_example : All IsSound (received beat ∷ [])
process_received_data-IsSound_example =
    process_received_data-IsSound [] (serialize_message beat) [] (received beat ∷ []) beat_arrives

-- A stray byte in front of a whole frame.
stray :
    (20 ≤ length (0 ∷ serialize_message beat))
    × ((front_header (0 ∷ serialize_message beat)).magic ≢ message_magic)
unfolding serialize_message image_message_header header_to_network header_to_host
    load_message_header calculate_checksum checksum_from image32 load32 htonl ntohl front_header
stray = (omega arith, λ e. absurd (omega arith))

process_received_data-astray_example :
    (rest : Bytes) × (process_received_data (0 ∷ []) (serialize_message beat) ≡ some ([], rest))
    × (length rest < 20)
process_received_data-astray_example =
    process_received_data-astray (0 ∷ []) (serialize_message beat) stray.0 stray.1

a_header-IsHeader : IsHeader a_command.header
a_header-IsHeader = record {
  command_u32 = omega arith;
  seqnum_u32 = omega arith;
  devid_u32 = omega arith;
  direction_u32 = omega arith;
  ep_u32 = omega arith;
}

a_command-IsCmdSubmit : IsCmdSubmit a_command
a_command-IsCmdSubmit = record {
  header_valid = a_header-IsHeader;
  flags_u32 = omega arith;
  length_u32 = omega arith;
  start_u32 = omega arith;
  packets_u32 = omega arith;
  interval_u32 = omega arith;
  setup_u64 = omega arith;
}

parse-serialize_cmd_submit_example :
    (parse_cmd_submit (serialize_cmd_submit a_command (some (1 ∷ 2 ∷ [])) 2) ≡ some a_command)
    × (drop 48 (serialize_cmd_submit a_command (some (1 ∷ 2 ∷ [])) 2) ≡ 1 ∷ 2 ∷ [])
    × (length (serialize_cmd_submit a_command (some (1 ∷ 2 ∷ [])) 2) ≡ 50)
parse-serialize_cmd_submit_example =
    parse-serialize_cmd_submit a_command (1 ∷ 2 ∷ []) a_command-IsCmdSubmit

handle-process_urb_out_example :
    handle_urb_submit (process_urb bulk_out 9).0 no_setup 500
    ≡ some (arrived bulk_out 9 no_setup 500)
handle-process_urb_out_example =
    handle-process_urb_out bulk_out 9 bulk_out-IsSubmittable (omega arith) refl no_setup 500

handle-process_urb_in_example :
    (r : UsbUrb) × (handle_urb_submit (process_urb (bulk_in 16) 9).0 no_setup 500 ≡ some r)
    × (r.data_bytes ≡ [])
    × (r.flags ≡ 0)
handle-process_urb_in_example =
    handle-process_urb_in (bulk_in 16) 9 refl no_setup 500 refl (omega arith) (omega arith)
      (omega arith)

-- A configuration request and a bulk transfer, arriving in two pieces.
abbrev transfers : List UsbUrb
transfers = set_configuration_1 ∷ bulk_out ∷ []

abbrev clock : ℕ → UsbSetupPacket × ℕ
clock k = (no_setup, 100 + k)

abbrev transfer_pieces : List Bytes
transfer_pieces = wire_of transfers 5 ∷ [] ∷ []

transfer_pieces_lem : join transfer_pieces ≡ wire_of transfers 5
transfer_pieces_lem = append-nil (wire_of transfers 5)

pipeline_delivers_example :
    (ms : List NetworkMessage) × (receive_all [] transfer_pieces ≡ some (ms, []))
    × (on_network_messages ms clock 0 3 ≡ (arrivals transfers clock 0, 3))
pipeline_delivers_example =
    pipeline_delivers transfers 5 transfer_pieces clock 3
      (set_configuration_1-IsSendable, (bulk_out-IsSendable, tt)) (omega arith) transfer_pieces_lem

handle_device_list_response_bounds_example :
    let payload : Bytes = replicate 400 1 in
    let k = length (handle_device_list_response payload) in
    let announced = ntohl (load32 (drop 8 payload)) in
    ((length {A = ℕ} payload < 12) × (k ≡ 0))
    ⊎ ((12 + 312 * k ≤ length {A = ℕ} payload)
        × (k ≤ announced)
        × ((k ≡ announced) ⊎ (length {A = ℕ} payload < 12 + 312 * (k + 1))))
handle_device_list_response_bounds_example = handle_device_list_response_bounds (replicate 400 1)

stick-IsListable : IsListable stick
stick-IsListable = record {
  bus_u32 = omega arith;
  device_u32 = omega arith;
  speed_u32 = omega arith;
  vendor_u16 = omega arith;
  product_u16 = omega arith;
  bcd_u16 = omega arith;
}

-- The bytes come in two pieces.
abbrev in_two : Bytes → List Bytes
in_two bytes = take 7 bytes ∷ drop 7 bytes ∷ []

join-in_two : (bytes : Bytes) → join (in_two bytes) ≡ bytes
join-in_two bytes = ap (◌++◌ (take 7 bytes)) (append-nil (drop 7 bytes)) ∙ take-append-drop 7 bytes

device_list_request_answered_example :
    (bytes : Bytes) × (ms : List NetworkMessage) × ((on_network_message
        (stick ∷ [])
        (create_device_list_request 1).0
        4).0
      ≡ some bytes)
    × (receive_all [] (in_two bytes) ≡ some (ms, []))
    × (on_network_messages ms (λ k. (no_setup, k)) 0 1
        ≡ (device_list_callback (device_info stick ∷ []) ∷ [], 1))
device_list_request_answered_example =
    device_list_request_answered (stick ∷ []) 4 1 in_two (λ k. (no_setup, k)) 1
      (stick-IsListable, tt) (omega arith) (omega arith) join-in_two

import_request_answered_example :
    (m : NetworkMessage) × ((on_network_message
        (stick ∷ [])
        (create_device_import_request (stick.bus_id) 1).0
        4).0
      ≡ some (serialize_message m))
    × (m.header.type ≡ type_value device_import_response)
    × ((Offers (stick ∷ []) stick.bus_id × (handle_device_import_response m.payload ≡ (true, [])))
        ⊎ ((¬ Offers (stick ∷ []) stick.bus_id)
            × (handle_device_import_response m.payload ≡ (false, device_not_found))))
import_request_answered_example = import_request_answered (stick ∷ []) stick.bus_id 4 1
