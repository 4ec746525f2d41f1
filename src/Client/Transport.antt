-- ===== src/Client/Transport.antt =====
-- From the sender's URB to the receiver's: `UrbProcessor::ProcessUrb`, then `HandleUrbSubmit`.
use usb_lib.Prelude.{
  ℕ, ◌+◌, ◌%◌, ◌≤◌, ◌<◌, ◌≡◌, ◌≢◌, ap, ◌∙◌, ◌⊎◌, inl, inr, [], ◌∷◌, some, length, drop, arith,
  le→ltb, take_self, if◌then◌else◌, ◌==◌,
}
use usb_lib.Words.{Bytes, IsU8, IsU32, IsU64, image64, load64, image32, load32, image16, load16}
use usb_lib.Usb.{
  UsbUrb, UsbSetupPacket, IsSetup, UsbTransferType, control, isochronous, bulk, interrupt, dir_out,
  direction_of, direction_value, image_setup, load_setup,
}
use usb_lib.Usbip.{UsbipCmdSubmit, parse_cmd_submit, serialize_cmd_submit}
use usb_lib.Usbip.RoundTrip.{IsCmdSubmit, parse-serialize_cmd_submit}
use usb_lib.Capture.Processor.{create_cmd_submit, setup_field, process_urb}
use usb_lib.Client.Urb.{urb_data, urb_of_cmd, handle_urb_submit}

-- An URB whose fields fit their types, and whose kind the endpoint shows: control transfers on
-- endpoint 0, bulk transfers on the others.
pub record IsSubmittable (u : UsbUrb) : Type 0 where
  pub endpoint_u8 : IsU8 u.endpoint
  pub flags_u32 : IsU32 u.flags
  pub setup_valid : IsSetup u.setup
  pub size_s32 : length u.data_bytes < 2147483648
  pub kind :
      ((u.endpoint ≡ 0) × (u.transfer_type ≡ control))
      ⊎ ((u.endpoint ≢ 0) × (u.transfer_type ≡ bulk))

load_setup-image64 :
    (s : UsbSetupPacket) → IsSetup s → load_setup (image64 (load64 (image_setup s))) ≡ s
unfolding load_setup image64 load64 image_setup image32 image16 load16
load_setup-image64 s h = ground arith

setup_field-lt : (t : UsbTransferType) (s : UsbSetupPacket) → IsSetup s → IsU64 (setup_field t s)
unfolding setup_field load64 load32 image_setup image16
setup_field-lt control s h = omega arith
setup_field-lt isochronous s h = omega arith
setup_field-lt bulk s h = omega arith
setup_field-lt interrupt s h = omega arith

urb_data_whole :
    (c : UsbipCmdSubmit) (payload d : Bytes)
    → c.transfer_buffer_length ≡ length d
    → length d < 2147483648
    → drop 48 payload ≡ d
    → length payload ≡ length d + 48
    → urb_data c payload ≡ d
unfolding urb_data
urb_data_whole c payload [] e small cut len = ground arith
urb_data_whole c payload (x ∷ xs) e small cut len = ground (arith, take_self (x ∷ xs))

pub handle_parsed :
    (payload : Bytes) (c : UsbipCmdSubmit) (garbage : UsbSetupPacket) (now : ℕ)
    → parse_cmd_submit payload ≡ some c
    → 48 ≤ length payload
    → handle_urb_submit payload garbage now ≡ some (urb_of_cmd c payload garbage now)
unfolding handle_urb_submit
handle_parsed payload c garbage now e enough =
    rw (le→ltb (length payload) 48 enough) (rw (e, handle_urb_submit))

-- What the receiver's callback gets for a submitted URB: its own number, a fresh status and clock.
unfoldable pub arrived : UsbUrb → ℕ → UsbSetupPacket → ℕ → UsbUrb
arrived u seqnum garbage now = record u {
  id = seqnum;
  setup = if u.endpoint == 0 then u.setup else garbage;
  status = 0;
  actual_length = length u.data_bytes;
  timestamp = now;
}

module _ (u : UsbUrb) (next : ℕ) (v : IsSubmittable u) (n : IsU32 next)
    (out : u.direction ≡ dir_out) where
  cmd : UsbipCmdSubmit
  cmd = (create_cmd_submit u next).0

  sent : Bytes
  sent = serialize_cmd_submit cmd (some (u.data_bytes)) (length u.data_bytes)

  pub process_urb-out :
      (process_urb u next).0
      ≡ serialize_cmd_submit
          (create_cmd_submit u next).0
          (some (u.data_bytes))
          (length u.data_bytes)
  unfolding process_urb
  process_urb-out = ground (arith, out)

  cmd-IsCmdSubmit : IsCmdSubmit cmd
  unfolding cmd create_cmd_submit direction_value
  cmd-IsCmdSubmit = record {
    header_valid = record {
      command_u32 = omega arith;
      seqnum_u32 = n;
      devid_u32 = omega arith;
      direction_u32 = ground (arith, out);
      ep_u32 = omega (arith, v.endpoint_u8);
    };
    flags_u32 = v.flags_u32;
    length_u32 = omega arith;
    start_u32 = omega arith;
    packets_u32 = omega arith;
    interval_u32 = omega arith;
    setup_u64 = setup_field-lt u.transfer_type u.setup v.setup_valid;
  }

  parsed :
      (parse_cmd_submit sent ≡ some cmd)
      × (drop 48 sent ≡ u.data_bytes)
      × (length sent ≡ length u.data_bytes + 48)
  unfolding sent
  parsed = parse-serialize_cmd_submit cmd (u.data_bytes) cmd-IsCmdSubmit

  data_arrives : urb_data cmd sent ≡ u.data_bytes
  unfolding cmd create_cmd_submit
  data_arrives =
      urb_data_whole cmd sent (u.data_bytes) (omega (arith, v.size_s32)) v.size_s32 parsed.1
        parsed.2

  urb_arrives :
      (garbage : UsbSetupPacket) (now : ℕ)
      → urb_of_cmd cmd sent garbage now ≡ arrived u next garbage now
  unfolding urb_of_cmd cmd create_cmd_submit arrived direction_of direction_value setup_field
  urb_arrives garbage now =
      let wrap : length (urb_data cmd sent) % 4294967296 ≡ length u.data_bytes =
        omega (arith, ap length data_arrives, v.size_s32) in
      let small : u.endpoint % 256 ≡ u.endpoint = omega (arith, v.endpoint_u8) in
      elim v.kind [
        | inl (zero_ep, is_control) ↦
            ground (arith, data_arrives, load_setup-image64 u.setup v.setup_valid, wrap, small, out)
        | inr (other_ep, is_bulk) ↦ ground (arith, data_arrives, wrap, small, out)
      ]

  -- An OUT transfer whose fields fit their types, of a control kind on endpoint 0 or of a bulk kind
  -- on another, is handed to the receiver's callback with its endpoint, kind, flags and data, and
  -- with the setup packet of a control transfer; its number is the processor's counter, a number of
  -- 32 bits, and its status, length and time are the receiver's own.
  pub handle-process_urb_out :
      (garbage : UsbSetupPacket) (now : ℕ)
      → handle_urb_submit (process_urb u next).0 garbage now ≡ some (arrived u next garbage now)
  unfolding sent cmd
  handle-process_urb_out garbage now =
      ap (λ (p : Bytes). handle_urb_submit p garbage now) process_urb-out
      ∙ handle_parsed sent cmd garbage now parsed.0 (omega (arith, parsed.2))
      ∙ ap some (urb_arrives garbage now)
