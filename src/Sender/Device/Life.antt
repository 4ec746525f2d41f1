-- ===== src/Sender/Device/Life.antt =====
-- The life of a device of the sender: sequences of its operations, from the constructor to the destructor.
use usb_lib.Prelude.{
  steps, steps-one, steps-append, ℕ, ◌≡◌, refl, ◌∙◌, List, [], ◌∷◌, ◌++◌, Bool, true, false, Option,
  none, some, ==-refl,
}
use usb_lib.Words.{Bytes}
use usb_lib.Usb.{UsbSetupPacket, UsbDeviceDescriptor}
use usb_lib.Sender.Device.{
  LibusbDevice, Call, call_close, call_claim, call_release, call_control, call_bulk, call_interrupt,
  call_string, call_submit, submit_transfer, SenderUsbDevice, new_device, Result, open_device,
  releases, closes, close_device, claim_interface, release_interface, transfer, control_transfer,
  bulk_transfer, interrupt_transfer, get_string_descriptor,
}
use usb_lib.Sender.Device.Session.{
  Session, idle, using, is_in, without, session_step, accepts, Matches, Follows, is_in-without,
  is_in-erase_first, is_in-append, is_in-cons, not_in-nil, release-step, claim-step, close-step,
  accepts-releases,
}

pub data Operation : Type 0 where
  opening : Option ℕ → Operation
  closing : Operation
  claiming releasing : ℕ → Bool → Operation
  controlling : UsbSetupPacket → Option ℕ → Operation
  moving_bulk interrupting : ℕ → ℕ → Bool → Operation
  naming : ℕ → Option Bytes → Operation
  submitting : ℕ → Bool → Operation

unfoldable pub perform : SenderUsbDevice → Operation → Result
perform d (opening answer) = open_device d answer
perform d closing = close_device d
perform d (claiming n ok) = claim_interface d n ok
perform d (releasing n ok) = release_interface d n ok
perform d (controlling setup answer) = (control_transfer d setup answer).0
perform d (moving_bulk endpoint size ok) = bulk_transfer d endpoint size ok
perform d (interrupting endpoint size ok) = interrupt_transfer d endpoint size ok
perform d (naming index answer) = (get_string_descriptor d index answer).0
perform d (submitting own ok) = submit_transfer d own ok

-- The device after the operations, and all calls in order.
unfoldable pub run : SenderUsbDevice → List Operation → SenderUsbDevice × List Call
unfolding perform
run d [] = (d, [])
run d (op ∷ ops) =
    let (d', b, calls) = perform d op in let (d'', more) = run d' ops in (d'', calls ++ more)

open-Follows :
    (s : Session) (d : SenderUsbDevice) (answer : Option ℕ)
    → Matches d s
    → let r = open_device d answer in Follows s (r.0, r.2)
unfolding open_device steps session_step
open-Follows idle d (some h) (shut, none_claimed) =
    rw shut (using h [], refl, (refl, λ n e. absurd (not_in-nil n e)))
open-Follows idle d none (shut, none_claimed) = rw shut (idle, refl, (refl, none_claimed))
open-Follows (using h ns) d answer (opened, sub) = rw opened (using h ns, refl, (refl, sub))

close-Follows :
    (s : Session) (d : SenderUsbDevice)
    → Matches d s
    → let r = close_device d in (accepts s r.2 ≡ some idle) × Matches r.0 idle
unfolding close_device closes releases
close-Follows idle d (shut, none_claimed) = (rw shut (unfold steps in refl), (refl, refl))
close-Follows (using h ns) d (opened, sub) = (
  rw opened (
      steps-append session_step (using h ns) (using h []) (releases (some h) d.claimed_interfaces) _
        (accepts-releases h d.claimed_interfaces ns sub)
      ∙ steps-one session_step (using h []) idle (call_close h) (close-step h)),
  (refl, refl),
)

claim-Follows :
    (s : Session) (d : SenderUsbDevice) (n : ℕ) (ok : Bool)
    → Matches d s
    → let r = claim_interface d n ok in Follows s (r.0, r.2)
unfolding claim_interface steps session_step
claim-Follows idle d n ok (shut, none_claimed) = rw shut (idle, refl, (refl, none_claimed))
claim-Follows (using h ns) d n true (opened, sub) = rw opened (
  using h (n ∷ ns),
  steps-one session_step (using h ns) _ (call_claim h n true) (claim-step h n true ns),
  (refl, λ m e. is_in-append m n d.claimed_interfaces (others m e)),
)
  where
    others : (m : ℕ) → is_in m (n ∷ ns) ≡ true → is_in m (n ∷ d.claimed_interfaces) ≡ true
    others m e = is_in-cons m n ns d.claimed_interfaces (sub m) e
claim-Follows (using h ns) d n false (opened, sub) = rw opened (
  using h ns,
  steps-one session_step (using h ns) _ (call_claim h n false) (claim-step h n false ns),
  (refl, sub),
)

release-Follows :
    (s : Session) (d : SenderUsbDevice) (n : ℕ) (ok : Bool)
    → Matches d s
    → let r = release_interface d n ok in Follows s (r.0, r.2)
unfolding release_interface steps session_step
release-Follows idle d n ok (shut, none_claimed) = rw shut (idle, refl, (refl, none_claimed))
release-Follows (using h ns) d n true (opened, sub) = rw opened (
  using h (without n ns),
  steps-one session_step (using h ns) _ (call_release h n) (release-step h n ns),
  (
    refl,
    λ m e.
        let (e', ne) = is_in-without m n ns e in
        is_in-erase_first m n d.claimed_interfaces ne (sub m e'),
  ),
)
release-Follows (using h ns) d n false (opened, sub) = rw opened (
  using h (without n ns),
  steps-one session_step (using h ns) _ (call_release h n) (release-step h n ns),
  (refl, λ m e. sub m (is_in-without m n ns e).0),
)

-- A call on the open handle that the session does not count.
abbrev IsPlain : (ℕ → Call) → Type 0
IsPlain call = (h : ℕ) (ns : List ℕ) → session_step (using h ns) (call h) ≡ some (using h ns)

transfer-Follows :
    (s : Session) (d : SenderUsbDevice) (call : ℕ → Call) (ok : Bool)
    → IsPlain call
    → Matches d s
    → let r = transfer d call ok in Follows s (r.0, r.2)
unfolding transfer steps
transfer-Follows idle d call ok plain (shut, none_claimed) =
    rw shut (idle, refl, (refl, none_claimed))
transfer-Follows (using h ns) d call ok plain (opened, sub) =
    rw opened (using h ns, steps-one session_step (using h ns) _ (call h) (plain h ns), (refl, sub))

perform-Follows :
    (s : Session) (d : SenderUsbDevice) (op : Operation)
    → Matches d s
    → let r = perform d op in Follows s (r.0, r.2)
unfolding perform submit_transfer control_transfer bulk_transfer interrupt_transfer
    get_string_descriptor
perform-Follows s d (opening answer) v = open-Follows s d answer v
perform-Follows s d closing v = let (e, w) = close-Follows s d v in (idle, e, w)
perform-Follows s d (claiming n ok) v = claim-Follows s d n ok v
perform-Follows s d (releasing n ok) v = release-Follows s d n ok v
perform-Follows s d (controlling setup none) v =
    transfer-Follows s d (λ h. call_control h setup) false
      (λ h ns. unfold session_step in rw (==-refl h) refl) v
perform-Follows s d (controlling setup (some n)) v =
    transfer-Follows s d (λ h. call_control h setup) true
      (λ h ns. unfold session_step in rw (==-refl h) refl) v
perform-Follows s d (moving_bulk e size ok) v =
    transfer-Follows s d (λ h. call_bulk h e size) ok
      (λ h ns. unfold session_step in rw (==-refl h) refl) v
perform-Follows s d (interrupting e size ok) v =
    transfer-Follows s d (λ h. call_interrupt h e size) ok
      (λ h ns. unfold session_step in rw (==-refl h) refl) v
perform-Follows s d (naming i none) v =
    transfer-Follows s d (λ h. call_string h i) false
      (λ h ns. unfold session_step in rw (==-refl h) refl) v
perform-Follows s d (naming i (some text)) v =
    transfer-Follows s d (λ h. call_string h i) true
      (λ h ns. unfold session_step in rw (==-refl h) refl) v
perform-Follows s d (submitting own ok) v =
    transfer-Follows s d (λ _. call_submit own) ok (λ h ns. unfold session_step in refl) v

run-Follows :
    (s : Session) (d : SenderUsbDevice) (ops : List Operation) → Matches d s → Follows s (run d ops)
unfolding run
run-Follows s d [] v = (s, (unfold steps in refl), v)
run-Follows s d (op ∷ ops) v =
    let (t, e, w) = perform-Follows s d op v in
    let (u, e', w') = run-Follows t (perform d op).0 ops w in
    (u, steps-append session_step s t (perform d op).2 (run (perform d op).0 ops).1 e ∙ e', w')

-- All calls of an object's life: those of the operations, then those of the destructor.
unfoldable pub life : SenderUsbDevice → List Operation → List Call
unfolding run
life d ops = let (d', calls) = run d ops in calls ++ (close_device d').2

-- Whatever sequence of operations a new device goes through, and whatever libusb answers, its calls
-- follow the protocol of libusb's handles: a handle is opened only while there is none, a transfer of
-- the caller's, which has a handle of its own, is submitted only while there is one, everything else is
-- called on the open handle, and it is closed only when, for every interface that was claimed on it, a
-- release was called after the last claim. The device's handle is the session's and its list holds the
-- claimed interfaces that were not released so, and after the destructor no handle is left open.
pub run-Session :
    (l : LibusbDevice) (unset : UsbDeviceDescriptor) (ops : List Operation)
    → Follows idle (run (new_device l unset) ops)
      × (accepts idle (life (new_device l unset) ops) ≡ some idle)
unfolding life
run-Session l unset ops =
    let d = new_device l unset in
    let (t, e, w) = run-Follows idle d ops (unfold new_device in (refl, refl)) in
    (
      (t, e, w),
      steps-append session_step idle t (run d ops).1 (close_device (run d ops).0).2 e
          ∙ (close-Follows t (run d ops).0 w).0,
    )
