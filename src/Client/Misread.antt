-- ===== src/Client/Misread.antt =====
-- An IN transfer is serialized as USBIP_RET_SUBMIT and sent as URB_SUBMIT; the receiver reads it as
-- USBIP_CMD_SUBMIT.
use usb_lib.Prelude.{ℕ, ◌+◌, ◌≤◌, ◌<◌, ◌≡◌, ap, ◌∙◌, [], none, some, length, arith, lt→ltb, le→ltb}
use usb_lib.Words.{Bytes, IsU32, image32, load32, ntohl_field}
use usb_lib.Usb.{UsbUrb, UsbSetupPacket, dir_in}
use usb_lib.Usbip.{
  parse_cmd_submit, serialize_ret_submit, network_to_host_cmd, load_cmd, image_ret, image_header,
  host_to_network_ret,
}
use usb_lib.Usbip.RoundTrip.{trailing-whole, length-image_ret}
use usb_lib.Capture.Processor.{create_ret_submit, process_urb}
use usb_lib.Client.Urb.{urb_data, urb_of_cmd, handle_urb_submit}
use usb_lib.Client.Transport.{handle_parsed}

module _ (u : UsbUrb) (next : ℕ) (in_dir : u.direction ≡ dir_in) where
  reply : Bytes
  reply = image_ret (host_to_network_ret (create_ret_submit u next).0) (u.data_bytes)

  process_urb-in : (process_urb u next).0 ≡ reply
  unfolding process_urb reply serialize_ret_submit
  process_urb-in = ground (arith, in_dir, trailing-whole u.data_bytes)

  length-reply : length reply ≡ length u.data_bytes + 40
  unfolding reply
  length-reply = length-image_ret _ (u.data_bytes)

  -- The place of `transfer_buffer_length` holds the reply's `actual_length`, and that of
  -- `transfer_flags` its status.
  length_read :
      IsU32 u.actual_length
      → (network_to_host_cmd (load_cmd reply)).transfer_buffer_length ≡ u.actual_length
  unfolding network_to_host_cmd load_cmd reply image_ret image_header image32 load32
      host_to_network_ret create_ret_submit
  length_read h = ntohl_field u.actual_length h

  flags_read : IsU32 u.status → (network_to_host_cmd (load_cmd reply)).transfer_flags ≡ u.status
  unfolding network_to_host_cmd load_cmd reply image_ret image_header image32 load32
      host_to_network_ret create_ret_submit
  flags_read h = ntohl_field u.status h

  data_lost :
      u.actual_length ≡ length u.data_bytes
      → IsU32 u.actual_length
      → urb_data (network_to_host_cmd (load_cmd reply)) reply ≡ []
  unfolding urb_data
  data_lost e h = ground (arith, length_read h, length-reply)

  -- An IN transfer with fewer than eight bytes of data is refused by the receiver.
  pub handle-process_urb_in_short :
      (garbage : UsbSetupPacket) (now : ℕ)
      → length u.data_bytes < 8
      → handle_urb_submit (process_urb u next).0 garbage now ≡ none
  handle-process_urb_in_short garbage now few =
      rw process_urb-in
        (unfold handle_urb_submit in rw (lt→ltb (length reply) 48 (omega (arith, length-reply))))

  -- An IN transfer with eight bytes or more of data, whose length field is the length of its data
  -- and whose length and status fit their fields, reaches the receiver's callback without any data,
  -- and its flags are the transfer's status.
  pub handle-process_urb_in :
      (garbage : UsbSetupPacket) (now : ℕ)
      → u.actual_length ≡ length u.data_bytes
      → IsU32 u.actual_length
      → IsU32 u.status
      → 8 ≤ length u.data_bytes
      → (r : UsbUrb) × (handle_urb_submit (process_urb u next).0 garbage now ≡ some r)
        × (r.data_bytes ≡ [])
        × (r.flags ≡ u.status)
  unfolding parse_cmd_submit urb_of_cmd
  handle-process_urb_in garbage now e fits status_fits many =
      let cmd = network_to_host_cmd (load_cmd reply) in
      let parsed : parse_cmd_submit reply ≡ some cmd =
        rw (le→ltb (length reply) 48 (omega (arith, length-reply))) in
      (
        urb_of_cmd cmd reply garbage now,
        ap (λ (p : Bytes). handle_urb_submit p garbage now) process_urb-in
            ∙ handle_parsed reply cmd garbage now parsed (omega (arith, length-reply)),
        data_lost e fits,
        flags_read status_fits,
      )
