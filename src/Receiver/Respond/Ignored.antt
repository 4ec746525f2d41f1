-- ===== src/Receiver/Respond/Ignored.antt =====
-- What the receiver's answers to URBs come to on the sender's side.
use usb_lib.Prelude.{
  ℕ, ◌+◌, ◌%◌, ◌≡◌, branch, refl, sym, ap, ap₂, ◌∙◌, subst, List, [], ◌∷◌, ◌++◌, Bool, true, false,
  ◌||◌, not, if◌then◌else◌, Option, none, some, All, map, length, arith, append-nil,
}
use usb_lib.Words.{Bytes, IsU32}
use usb_lib.Usb.{UsbUrb, UsbSetupPacket, UsbTransferType, control, isochronous, bulk, interrupt}
use usb_lib.Message.{
  NetworkMessage, network_message, get_next_sequence, type_value, serialize_message,
  create_urb_response, receive_all,
}
use usb_lib.Message.Frame.{IsMessage, received, wire_header}
use usb_lib.Message.Stream.{frames, join, receive_all-frames}
use usb_lib.Socket.{SendAnswer, SendState, finished, is_open, send, send_errors, loop_errors}
use usb_lib.Socket.Send.{AreHonest, send-connected}
use usb_lib.Client.Connection.{UsbipClient, on_events, sent, send_urb_response, after_urb_response}
use usb_lib.Virtual.{VirtualDevice}
use usb_lib.Virtual.Urb.{process_urb, by_type, handle_control_urb, handle_standard_request}
use usb_lib.Virtual.Response.{process_urb-Answers}
use usb_lib.Sender.{StorageDevice, on_network_message}
use usb_lib.Receiver.{on_urb_received}
use usb_lib.Receiver.Program.{Program, numbered}
use usb_lib.Receiver.Respond.{on_urb_response, answer, receive_urb, receive_urbs, with_devices}

abbrev FirstAttached : List VirtualDevice → Type 0
FirstAttached [] = ⊥
FirstAttached (d ∷ ds) = d.attached ≡ true

-- The receiver is connected, and its first virtual device is attached.
pub record IsReady (p : Program) : Type 0 where
  pub connected : p.client.connected ≡ true
  pub online : p.client.socket.is_connected ≡ true
  pub opened : is_open p.client.socket ≡ true
  pub attached : FirstAttached p.receiver.virtual_devices
  pub sequence_u32 : IsU32 p.receiver.next_sequence

abbrev frame : UsbUrb → Program → Bytes
frame u p = serialize_message (create_urb_response u p.receiver.next_sequence).0

-- Every `Send` returns true, and no call of `send` takes more than it is offered.
abbrev pub AllSent : Program → List (UsbUrb × List SendAnswer) → Type 0
AllSent p [] = Unit {0}
AllSent p ((u, answers) ∷ more) =
    AreHonest (frame u p) 0 answers
    × ((receive_urb p u answers).1 ≡ finished true)
    × AllSent (receive_urb p u answers).0 more

standard_keeps :
    (d : VirtualDevice) (s : UsbSetupPacket) → (handle_standard_request d s).1.attached ≡ d.attached
unfolding handle_standard_request
standard_keeps d s = ground arith

control_keeps : (d : VirtualDevice) (u : UsbUrb) → (handle_control_urb d u).1.attached ≡ d.attached
unfolding handle_control_urb
control_keeps d u = ground (arith, standard_keeps d u.setup)

by_type_keeps :
    (t : UsbTransferType) (d : VirtualDevice) (u : UsbUrb) → (by_type t d u).1.attached ≡ d.attached
unfolding by_type
by_type_keeps control d u = control_keeps d u
by_type_keeps isochronous d u = refl
by_type_keeps bulk d u = refl
by_type_keeps interrupt d u = refl

process_keeps : (d : VirtualDevice) (u : UsbUrb) → (process_urb d u).1.attached ≡ d.attached
unfolding process_urb
process_keeps d u = ground (arith, by_type_keeps u.transfer_type d u)

on_urb_received_lem :
    (d : VirtualDevice) (ds : List VirtualDevice) (u r : UsbUrb)
    → (process_urb d u).0 ≡ some r
    → on_urb_received (d ∷ ds) u ≡ (some r, (process_urb d u).1 ∷ ds)
unfolding on_urb_received
on_urb_received_lem d ds u r e = λ i. (e i, (process_urb d u).1 ∷ ds)

-- The answer goes to `SendUrbResponse`.
receive_urb_lem :
    (p : Program) (vs : List VirtualDevice) (u : UsbUrb) (answers : List SendAnswer)
    → p.receiver.virtual_devices ≡ vs
    → FirstAttached vs
    → (r : UsbUrb) × (ws : List VirtualDevice) × FirstAttached ws
      × (receive_urb p u answers ≡ on_urb_response (with_devices p ws) r answers)
unfolding receive_urb
receive_urb_lem p [] u answers e up = absurd up
receive_urb_lem p (d ∷ ds) u answers e up =
    let (r, made, fits) = process_urb-Answers d u up in
    (
      r,
      (process_urb d u).1 ∷ ds,
      process_keeps d u ∙ up,
      ap (λ (vs : List VirtualDevice). answer p (on_urb_received vs u) answers) e
          ∙ ap (λ (x : Option UsbUrb × List VirtualDevice). answer p x answers)
              (on_urb_received_lem d ds u r made)
          ∙ (unfold answer in refl),
    )

next_sequence : ℕ → ℕ
next_sequence seq = (seq + 1) % 4294967296

sends :
    (c : UsbipClient) (u : UsbUrb) (seq : ℕ) (answers : List SendAnswer)
    → c.connected ≡ true
    → send_urb_response c u seq answers
      ≡ (send c.socket (serialize_message (create_urb_response u seq).0) answers, next_sequence seq)
unfolding send_urb_response create_urb_response network_message get_next_sequence next_sequence
sends c u seq answers up = rw up refl

-- A `Send` that has returned true has called no callback.
sent_quietly :
    (c : UsbipClient) (u : UsbUrb) (seq : ℕ) (answers : List SendAnswer)
    → (send c.socket (serialize_message (create_urb_response u seq).0) answers).0 ≡ finished true
    → after_urb_response c u seq answers ≡ c
unfolding after_urb_response sent send send_errors
sent_quietly c u seq answers done =
    branch (λ (x : UsbipClient). x ≡ c) c.connected _ _
      (λ _. quiet (not c.socket.is_connected || not (is_open c.socket)) _ done) (λ _. refl)
  where
    quiet :
        (b : Bool) (s : SendState × Bytes)
        → (if b then (finished false, []) else s).0 ≡ finished true
        → (on_events c (if b then [] else loop_errors s.0)).0 ≡ c
    quiet true s e = absurd cc
    quiet false s e = rw e (unfold loop_errors on_events in refl)

on_urb_response_lem :
    (p : Program) (r : UsbUrb) (answers : List SendAnswer)
    → p.client.connected ≡ true
    → (send p.client.socket (frame r p) answers).0 ≡ finished true
    → let s = send p.client.socket (frame r p) answers in
      on_urb_response p r answers ≡ (numbered p (next_sequence p.receiver.next_sequence), s.0, s.1)
unfolding on_urb_response
on_urb_response_lem p r answers up done =
    ap₂
      (λ (x : (SendState × Bytes) × ℕ) (c : UsbipClient).
        (record (numbered p x.1) { client = c }, x.0.0, x.0.1))
      (sends p.client r p.receiver.next_sequence answers up)
      (sent_quietly p.client r p.receiver.next_sequence answers done)

abbrev state_of : Program × SendState × Bytes → SendState
state_of r = r.1

answer_state :
    (p : Program) (r : UsbUrb) (answers : List SendAnswer)
    → p.client.connected ≡ true
    → state_of (on_urb_response p r answers) ≡ (send p.client.socket (frame r p) answers).0
unfolding on_urb_response
answer_state p r answers up =
    ap (λ (x : (SendState × Bytes) × ℕ). x.0.0)
      (sends p.client r p.receiver.next_sequence answers up)

-- The frame does not depend on the URB.
frame_same : (u r : UsbUrb) (p : Program) → frame u p ≡ frame r p
unfolding create_urb_response
frame_same u r p = refl

-- What one URB comes to.
record Answered (p : Program) (u : UsbUrb) (r : Program × SendState × Bytes) : Type 0 where
  ready : IsReady r.0
  next_one : r.0.receiver.next_sequence ≡ next_sequence p.receiver.next_sequence
  sent : r.2 ≡ frame u p

sent_all :
    (p : Program) (r : UsbUrb) (answers : List SendAnswer)
    → IsReady p
    → AreHonest (frame r p) 0 answers
    → (send p.client.socket (frame r p) answers).0 ≡ finished true
    → (send p.client.socket (frame r p) answers).1 ≡ frame r p
sent_all p r answers v honest done =
    let (rest, split, whole) =
      send-connected p.client.socket (frame r p) answers v.online v.opened honest in
    sym
      (split ∙ ap (◌++◌ (send p.client.socket (frame r p) answers).1) (whole.0 done) ∙ append-nil _)

receive_urb-Answered :
    (p : Program) (u : UsbUrb) (answers : List SendAnswer)
    → IsReady p
    → AreHonest (frame u p) 0 answers
    → (receive_urb p u answers).1 ≡ finished true
    → Answered p u (receive_urb p u answers)
unfolding next_sequence create_urb_response receive_urb_lem
receive_urb-Answered p u answers v honest done =
    let (r, ws, up, e) = receive_urb_lem p p.receiver.virtual_devices u answers refl v.attached in
    let q = with_devices p ws in
    let whole = sym (answer_state q r answers v.connected) ∙ sym (ap state_of e) ∙ done in
    subst (Answered p u) (sym (e ∙ on_urb_response_lem q r answers v.connected whole)) (record {
      ready = record {
        connected = v.connected;
        online = v.online;
        opened = v.opened;
        attached = up;
        sequence_u32 = omega arith;
      };
      next_one = refl;
      sent = sent_all p u answers v honest whole;
    })

-- The messages for the URBs, from the given number on.
responses : List (UsbUrb × List SendAnswer) → ℕ → List NetworkMessage
responses [] seq = []
responses ((u, answers) ∷ more) seq =
    (create_urb_response u seq).0 ∷ responses more (next_sequence seq)

receive_urbs-frames :
    (p : Program) (us : List (UsbUrb × List SendAnswer))
    → IsReady p
    → AllSent p us
    → receive_urbs p us ≡ frames (responses us p.receiver.next_sequence)
unfolding receive_urbs responses
receive_urbs-frames p [] v sent = refl
receive_urbs-frames p ((u, answers) ∷ more) v (honest, done, sent) =
    let a = receive_urb-Answered p u answers v honest done in
    ap₂ ◌++◌ a.sent (
      receive_urbs-frames (receive_urb p u answers).0 more a.ready sent
      ∙ ap (λ (n : ℕ). frames (responses more n)) a.next_one)

-- A message that the sender's handler answers with nothing.
abbrev pub IsIgnored : NetworkMessage → Type 0
IsIgnored m =
    (m.payload ≡ [])
    × ((ds : List StorageDevice) (seq : ℕ) → on_network_message ds m seq ≡ (none, seq))

response-IsMessage : (u : UsbUrb) (seq : ℕ) → IsU32 seq → IsMessage (create_urb_response u seq).0
unfolding create_urb_response network_message get_next_sequence type_value
response-IsMessage u seq n = record {
  magic_right = refl;
  type_u32 = omega arith;
  length_right = refl;
  within_limit = omega arith;
  sequence_u32 = n;
}

response-IsIgnored : (u : UsbUrb) (seq : ℕ) → IsIgnored (received (create_urb_response u seq).0)
unfolding received wire_header create_urb_response network_message type_value on_network_message
response-IsIgnored u seq = (refl, λ ds seq'. refl)

responses-valid :
    (us : List (UsbUrb × List SendAnswer)) (seq : ℕ)
    → IsU32 seq
    → All IsMessage (responses us seq)
      × All IsIgnored (map received (responses us seq))
      × (length (map received (responses us seq)) ≡ length us)
unfolding responses next_sequence
responses-valid [] seq n = (tt, tt, refl)
responses-valid ((u, answers) ∷ more) seq n =
    let (valid, ignored, size) = responses-valid more (next_sequence seq) (omega arith) in
    ((response-IsMessage u seq n, valid), (response-IsIgnored u seq, ignored), omega (arith, size))

-- Any URBs come one after the other to a connected receiver whose first virtual device is attached,
-- and every `Send` of an answer returns true. If the bytes that it sent reach the sender in pieces that
-- are cut anywhere, the sender's handler returns with an empty buffer and one message for each URB,
-- without a payload, and `OnNetworkMessage` sends nothing for any of them.
pub receive_urbs-IsIgnored :
    (p : Program) (us : List (UsbUrb × List SendAnswer)) (cs : List Bytes)
    → IsReady p
    → AllSent p us
    → join cs ≡ receive_urbs p us
    → (ms : List NetworkMessage) × (receive_all [] cs ≡ some (ms, []))
      × (length ms ≡ length us)
      × All IsIgnored ms
receive_urbs-IsIgnored p us cs v sent e =
    let seq = p.receiver.next_sequence in
    let (valid, ignored, size) = responses-valid us seq v.sequence_u32 in
    (
      map received (responses us seq),
      receive_all-frames (responses us seq) cs valid (e ∙ receive_urbs-frames p us v sent),
      size,
      ignored,
    )
