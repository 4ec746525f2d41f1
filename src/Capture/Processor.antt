-- ===== src/Capture/Processor.antt =====
-- The class UrbProcessor of urb_capture.cpp: an URB as USB/IP bytes and as a network message. Its state
-- is `next_seqnum_`, a uint32_t; the messages' counter is passed too.
use usb_lib.Prelude.{ℕ, ◌+◌, ◌%◌, some, length}
use usb_lib.Words.{Bytes, load64}
use usb_lib.Usb.{
  UsbUrb, UsbTransferType, control, isochronous, bulk, interrupt, UsbDirection, dir_out, dir_in,
  dir_other, direction_value, image_setup, UsbSetupPacket,
}
use usb_lib.Usbip.{
  UsbipCmdSubmit, UsbipRetSubmit, usbip_cmd_submit, usbip_ret_submit, serialize_cmd_submit,
  serialize_ret_submit,
}
use usb_lib.Message.{NetworkMessage, network_message, urb_submit, urb_response}

-- The eight setup bytes go along for control transfers only.
unfoldable pub setup_field : UsbTransferType → UsbSetupPacket → ℕ
setup_field control s = load64 (image_setup s)
setup_field isochronous s = 0
setup_field bulk s = 0
setup_field interrupt s = 0

unfoldable pub create_cmd_submit : UsbUrb → ℕ → UsbipCmdSubmit × ℕ
unfolding setup_field
create_cmd_submit urb next = (
  record {
    header = record {
      command = usbip_cmd_submit;
      seqnum = next;
      devid = 0;
      direction = direction_value urb.direction;
      ep = urb.endpoint;
    };
    transfer_flags = urb.flags;
    transfer_buffer_length = length urb.data_bytes % 4294967296;
    start_frame = 0;
    number_of_packets = 0;
    interval = 0;
    setup = setup_field urb.transfer_type urb.setup;
  },
  (next + 1) % 4294967296,
)

unfoldable pub create_ret_submit : UsbUrb → ℕ → UsbipRetSubmit × ℕ
create_ret_submit urb next = (
  record {
    header = record {
      command = usbip_ret_submit;
      seqnum = next;
      devid = 0;
      direction = direction_value urb.direction;
      ep = urb.endpoint;
    };
    status = urb.status;
    actual_length = urb.actual_length;
    start_frame = 0;
    number_of_packets = 0;
    error_count = 0;
  },
  (next + 1) % 4294967296,
)

submit_bytes : UsbUrb → ℕ → Bytes × ℕ
submit_bytes urb next =
    let (cmd, next') = create_cmd_submit urb next in
    (serialize_cmd_submit cmd (some (urb.data_bytes)) (length urb.data_bytes), next')

reply_bytes : UsbUrb → ℕ → Bytes × ℕ
reply_bytes urb next =
    let (ret, next') = create_ret_submit urb next in
    (serialize_ret_submit ret (some (urb.data_bytes)) (length urb.data_bytes), next')

-- Only the direction decides between a command and a reply.
by_direction : UsbDirection → UsbUrb → ℕ → Bytes × ℕ
by_direction dir_out urb next = submit_bytes urb next
by_direction dir_in urb next = reply_bytes urb next
by_direction (dir_other b) urb next = reply_bytes urb next

unfoldable pub process_urb : UsbUrb → ℕ → Bytes × ℕ
unfolding by_direction submit_bytes reply_bytes
process_urb urb next = by_direction urb.direction urb next

-- The message, the processor's counter and the messages' counter.
unfoldable pub create_usbip_submit : UsbUrb → ℕ → ℕ → NetworkMessage × ℕ × ℕ
create_usbip_submit urb next seq =
    let (bytes, next') = process_urb urb next in
    let (m, seq') = network_message urb_submit bytes seq in (m, next', seq')

unfoldable pub create_usbip_response : UsbUrb → ℕ → ℕ → NetworkMessage × ℕ × ℕ
create_usbip_response urb next seq =
    let (bytes, next') = process_urb urb next in
    let (m, seq') = network_message urb_response bytes seq in (m, next', seq')
