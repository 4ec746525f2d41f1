-- ===== src/Client/Urb.antt =====
-- `UsbipClient::HandleUrbSubmit`: the URB that a message's payload stands for.
use usb_lib.Prelude.{
  ℕ, ◌+◌, ◌%◌, [], Option, none, some, length, take, drop, ltb, leb, ◌==◌, if◌then◌else◌,
}
use usb_lib.Words.{Bytes, image64, is_positive32}
use usb_lib.Usb.{UsbUrb, UsbSetupPacket, control, bulk, direction_of, load_setup}
use usb_lib.Usbip.{UsbipCmdSubmit, sizeof_cmd_submit, parse_cmd_submit}

-- The data behind the command: none if the length is not positive or if the payload is too short.
unfoldable pub urb_data : UsbipCmdSubmit → Bytes → Bytes
urb_data cmd payload =
    if is_positive32 cmd.transfer_buffer_length
    then (if leb (sizeof_cmd_submit + cmd.transfer_buffer_length) (length payload)
        then take cmd.transfer_buffer_length (drop sizeof_cmd_submit payload)
        else [])
    else []

-- `garbage` is what the uninitialised `urb.setup` holds, `now` the clock.
unfoldable pub urb_of_cmd : UsbipCmdSubmit → Bytes → UsbSetupPacket → ℕ → UsbUrb
unfolding urb_data
urb_of_cmd cmd payload garbage now =
    let endpoint = cmd.header.ep % 256 in
    let bytes = urb_data cmd payload in
    record {
      id = cmd.header.seqnum;
      transfer_type = if endpoint == 0 then control else bulk;
      direction = direction_of cmd.header.direction;
      endpoint = endpoint;
      flags = cmd.transfer_flags;
      data_bytes = bytes;
      setup = if endpoint == 0 then load_setup (image64 cmd.setup) else garbage;
      status = 0;
      actual_length = length bytes % 4294967296;
      timestamp = now;
    }

-- `none`: the payload is refused and no URB is passed on.
unfoldable pub handle_urb_submit : Bytes → UsbSetupPacket → ℕ → Option UsbUrb
unfolding urb_of_cmd
handle_urb_submit payload garbage now =
    if ltb (length payload) sizeof_cmd_submit then none else elim (parse_cmd_submit payload) [
      | none ↦ none
      | some cmd ↦ some (urb_of_cmd cmd payload garbage now)
    ]
