-- ===== src/Virtual/Response.antt =====
-- The answers of `VirtualUsbDevice::ProcessUrb` and what they have in common.
use usb_lib.Prelude.{ℕ, ◌%◌, ◌≡◌, refl, List, [], ◌∷◌, true, some, length, arith, subst, sym}
use Prim.Native.Nat.{bit_and}
use usb_lib.Usb.{
  UsbUrb, UsbTransferType, control, isochronous, bulk, interrupt, req_get_configuration,
  req_set_configuration,
}
use usb_lib.Virtual.{VirtualDevice}
use usb_lib.Virtual.Urb.{
  opposite, response_with, handle_standard_request, handle_control_urb, simulate_device_response,
  handle_mass_storage_urb, handle_bulk_urb, process_urb,
}

-- A successful answer to the URB: it belongs to it, goes the other way, and its length is that of its
-- data.
pub record Answers (u r : UsbUrb) : Type 0 where
  pub id_kept : r.id ≡ u.id
  pub type_kept : r.transfer_type ≡ u.transfer_type
  pub endpoint_kept : r.endpoint ≡ u.endpoint
  pub setup_kept : r.setup ≡ u.setup
  pub turned : r.direction ≡ opposite u.direction
  pub success : r.status ≡ 0
  pub length_right : r.actual_length ≡ length r.data_bytes % 4294967296

response_with-Answers : (u : UsbUrb) (bytes : List ℕ) → Answers u (response_with u bytes)
unfolding response_with
response_with-Answers u bytes = record {
  id_kept = refl;
  type_kept = refl;
  endpoint_kept = refl;
  setup_kept = refl;
  turned = refl;
  success = refl;
  length_right = refl;
}

-- A response is determined by its data.
abbrev IsResponse : UsbUrb → UsbUrb → Type 0
IsResponse u r = r ≡ response_with u r.data_bytes

control-IsResponse : (d : VirtualDevice) (u : UsbUrb) → IsResponse u (handle_control_urb d u).0
unfolding handle_control_urb response_with
control-IsResponse d u = ground arith

simulated-IsResponse : (u : UsbUrb) → IsResponse u (simulate_device_response u)
unfolding simulate_device_response response_with
simulated-IsResponse u = ground arith

storage-IsResponse : (u : UsbUrb) → IsResponse u (handle_mass_storage_urb u)
unfolding handle_mass_storage_urb response_with
storage-IsResponse u = ground arith

bulk-IsResponse : (d : VirtualDevice) (u : UsbUrb) → IsResponse u (handle_bulk_urb d u)
unfolding handle_bulk_urb
bulk-IsResponse d u = ground (arith, storage-IsResponse u, simulated-IsResponse u)

answered :
    (d : VirtualDevice) (u : UsbUrb) (t : UsbTransferType)
    → u.transfer_type ≡ t
    → d.attached ≡ true
    → (r : UsbUrb) × ((process_urb d u).0 ≡ some r) × IsResponse u r
unfolding process_urb
answered d u control e up =
    ((handle_control_urb d u).0, ground (arith, e, up), control-IsResponse d u)
answered d u isochronous e up =
    (simulate_device_response u, ground (arith, e, up), simulated-IsResponse u)
answered d u bulk e up = (handle_bulk_urb d u, ground (arith, e, up), bulk-IsResponse d u)
answered d u interrupt e up =
    (simulate_device_response u, ground (arith, e, up), simulated-IsResponse u)

-- An attached virtual device answers every URB, of any type and content, with exactly one response: it
-- has the URB's number, type, endpoint and setup packet, the opposite direction, status 0, and the
-- length of its data.
pub process_urb-Answers :
    (d : VirtualDevice) (u : UsbUrb)
    → d.attached ≡ true
    → (r : UsbUrb) × ((process_urb d u).0 ≡ some r) × Answers u r
process_urb-Answers d u up =
    let (r, e, shape) = answered d u u.transfer_type refl up in
    (r, e, subst (Answers u) (sym shape) (response_with-Answers u r.data_bytes))

-- A standard control request on endpoint 0.
abbrev pub IsStandard : UsbUrb → ℕ → Type 0
IsStandard u request =
    (u.transfer_type ≡ control)
    × (bit_and u.setup.request_type 0x60 ≡ 0)
    × (u.setup.request ≡ request)

-- On an attached device the configuration that SET_CONFIGURATION chose, the low byte of its value, is
-- what the next GET_CONFIGURATION reads, and SET_CONFIGURATION itself returns no data.
pub get_configuration-set_configuration :
    (d : VirtualDevice) (u v : UsbUrb)
    → d.attached ≡ true
    → IsStandard u req_set_configuration
    → IsStandard v req_get_configuration
    → let d' = (process_urb d u).1 in
      ((process_urb d u).0 ≡ some (response_with u []))
      × ((process_urb d' v).0 ≡ some (response_with v (u.setup.value % 256 ∷ [])))
      × (d'.attached ≡ true)
unfolding process_urb handle_control_urb handle_standard_request
get_configuration-set_configuration d u v up set get = ground arith
