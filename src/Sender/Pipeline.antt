-- ===== src/Sender/Pipeline.antt =====
-- The whole way of the captured URBs: the sender's callback, the connection, which cuts the bytes
-- anywhere, the receiver's message handler, and its client.
use usb_lib.Prelude.{
  ℕ, ◌+◌, ◌%◌, ◌≤◌, ◌≡◌, refl, ap, ◌∙◌, List, [], ◌∷◌, ◌++◌, some, map, length, arith, All,
}
use usb_lib.Words.{Bytes, IsU32}
use usb_lib.Usb.{UsbUrb, UsbSetupPacket, dir_out}
use usb_lib.Usbip.RoundTrip.{length-serialize_cmd}
use usb_lib.Message.{
  NetworkMessage, network_message, type_value, serialize_message, receive_all, get_next_sequence,
}
use usb_lib.Message.Frame.{IsMessage, received, wire_header}
use usb_lib.Message.Stream.{frames, join, receive_all-frames}
use usb_lib.Capture.Processor.{create_cmd_submit, process_urb, create_usbip_submit}
use usb_lib.Client.{ClientEvent, urb_callback, on_network_message, on_network_messages}
use usb_lib.Client.Transport.{IsSubmittable, arrived, process_urb-out, handle-process_urb_out}
use usb_lib.Sender.{captured_message, on_urb_captured, wire_of}

-- An OUT transfer that the receiver can rebuild, and that fits one message.
pub record IsSendable (u : UsbUrb) : Type 0 where
  pub submittable : IsSubmittable u
  pub outward : u.direction ≡ dir_out
  pub fits : length u.data_bytes + 48 ≤ 1048576

captured_message-IsMessage :
    (u : UsbUrb) (seq : ℕ) → IsSendable u → IsU32 seq → IsMessage (captured_message u seq).0
unfolding captured_message create_usbip_submit network_message get_next_sequence type_value
captured_message-IsMessage u seq v n = record {
  magic_right = refl;
  type_u32 = omega arith;
  length_right = omega (arith, size, v.fits);
  within_limit = omega (arith, size, v.fits);
  sequence_u32 = n;
}
  where
    size : length (process_urb u 1).0 ≡ length u.data_bytes + 48
    size =
        ap length (process_urb-out u 1 v.submittable (omega arith) v.outward)
        ∙ length-serialize_cmd (create_cmd_submit u 1).0 u.data_bytes

message_arrives :
    (u : UsbUrb) (seq : ℕ) (env : UsbSetupPacket × ℕ) (s : ℕ)
    → IsSendable u
    → on_network_message (received (captured_message u seq).0) env s
      ≡ (urb_callback (arrived u 1 env.0 env.1) ∷ [], s)
unfolding on_network_message received wire_header captured_message create_usbip_submit
    network_message type_value
message_arrives u seq (garbage, now) s v =
    rw (handle-process_urb_out u 1 v.submittable (omega arith) v.outward garbage now)

-- The messages of a run of captures.
messages_of : List UsbUrb → ℕ → List NetworkMessage
messages_of [] seq = []
messages_of (u ∷ us) seq = let (m, seq') = captured_message u seq in m ∷ messages_of us seq'

wire_of-frames : (us : List UsbUrb) (seq : ℕ) → wire_of us seq ≡ frames (messages_of us seq)
unfolding wire_of messages_of on_urb_captured
wire_of-frames [] seq = refl
wire_of-frames (u ∷ us) seq =
    ap (λ (t : Bytes). serialize_message (captured_message u seq).0 ++ t)
      (wire_of-frames us (captured_message u seq).1)

messages_of-IsMessage :
    (us : List UsbUrb) (seq : ℕ)
    → All IsSendable us
    → IsU32 seq
    → All IsMessage (messages_of us seq)
unfolding messages_of captured_message create_usbip_submit network_message get_next_sequence
messages_of-IsMessage [] seq v n = tt
messages_of-IsMessage (u ∷ us) seq v n = (
  captured_message-IsMessage u seq v.0 n,
  messages_of-IsMessage us ((seq + 1) % 4294967296) v.1 (omega arith),
)

-- What the receiver's callback should get, from call `k` on.
unfoldable pub arrivals : List UsbUrb → (ℕ → UsbSetupPacket × ℕ) → ℕ → List ClientEvent
arrivals [] env k = []
arrivals (u ∷ us) env k = urb_callback (arrived u 1 (env k).0 (env k).1) ∷ arrivals us env (k + 1)

messages_arrive :
    (us : List UsbUrb) (seq : ℕ) (env : ℕ → UsbSetupPacket × ℕ) (k s : ℕ)
    → All IsSendable us
    → on_network_messages (map received (messages_of us seq)) env k s ≡ (arrivals us env k, s)
unfolding messages_of on_network_messages arrivals
messages_arrive [] seq env k s v = refl
messages_arrive (u ∷ us) seq env k s v =
    rw (message_arrives u seq (env k) s v.0)
      (rw (messages_arrive us (captured_message u seq).1 env (k + 1) s v.1))

-- Well-formed OUT transfers that fit a message are captured one after the other. If the bytes that the
-- sender's capture callback hands to `Send` for them come to the receiver, in pieces that are cut
-- anywhere, the receiver's handler returns with an empty buffer, and its client calls the URB callback
-- once for each of them, in order. The URB that it gets has the transfer's endpoint, direction, kind,
-- flags and data, and on endpoint 0 its setup packet. Its number is 1, whatever it was, because each
-- capture makes a new processor; its status is 0, its length the data's, its time the receiver's, and
-- its setup packet on another endpoint whatever was in memory.
pub pipeline_delivers :
    (us : List UsbUrb) (seq : ℕ) (cs : List Bytes) (env : ℕ → UsbSetupPacket × ℕ) (s : ℕ)
    → All IsSendable us
    → IsU32 seq
    → join cs ≡ wire_of us seq
    → (ms : List NetworkMessage) × (receive_all [] cs ≡ some (ms, []))
      × (on_network_messages ms env 0 s ≡ (arrivals us env 0, s))
pipeline_delivers us seq cs env s v n e = (
  map received (messages_of us seq),
  receive_all-frames (messages_of us seq) cs (messages_of-IsMessage us seq v n)
      (e ∙ wire_of-frames us seq),
  messages_arrive us seq env 0 s v,
)
