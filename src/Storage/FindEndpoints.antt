-- ===== src/Storage/FindEndpoints.antt =====
-- `MassStorageDevice::FindEndpoints`: the walk over the configuration descriptor.
use usb_lib.Prelude.{
  ℕ, zero, suc, Bool, true, false, ◌&&◌, ◌||◌, not, Option, none, some, ltb, leb, ◌==◌,
  if◌then◌else◌, length, drop, get_or,
}
use Prim.Native.Nat.{bit_and}
use usb_lib.Words.{Bytes}
use usb_lib.Usb.{desc_interface, desc_endpoint, class_mass_storage}
use usb_lib.Usb.Structs.{load_interface, load_endpoint}

pub record EndpointInfo : Type 0 where
  pub address : ℕ
  pub max_packet_size : ℕ
  pub is_in : Bool

-- `interface_number` is `none` for -1.
pub record Endpoints : Type 0 where
  pub interface_number : Option ℕ
  pub bulk_in : EndpointInfo
  pub bulk_out : EndpointInfo

abbrev pub no_endpoint : EndpointInfo
no_endpoint = record { address = 0; max_packet_size = 0; is_in = false }

abbrev pub no_endpoints : Endpoints
no_endpoints = record { interface_number = none; bulk_in = no_endpoint; bulk_out = no_endpoint }

abbrev pub is_found : Option ℕ → Bool
is_found none = false
is_found (some n) = true

-- UsbTransferType::BULK in the low bits of `bmAttributes`.
abbrev pub bulk_attribute : ℕ
bulk_attribute = 2

unfoldable pub visit_interface : ℕ → Bytes → Endpoints → Endpoints
visit_interface len bs e =
    let d = load_interface bs in
    if leb 9 len && d.interface_class == class_mass_storage
    then record e { interface_number = some d.interface_number }
    else e

unfoldable pub visit_endpoint : ℕ → Bytes → Endpoints → Endpoints
visit_endpoint len bs e =
    let d = load_endpoint bs in
    let info : EndpointInfo = record {
      address = d.endpoint_address;
      max_packet_size = d.max_packet_size;
      is_in = not (bit_and d.endpoint_address 0x80 == 0);
    } in
    if leb 7 len && is_found e.interface_number
    then (if bit_and d.attributes 0x03 == bulk_attribute
        then (if info.is_in then record e { bulk_in = info } else record e { bulk_out = info })
        else e)
    else e

-- One descriptor: `bs` is the configuration from its first byte on, `len` its length byte.
unfoldable pub visit : ℕ → Bytes → Endpoints → Endpoints
unfolding visit_interface visit_endpoint
visit len bs e =
    if get_or bs 1 0 == desc_interface
    then visit_interface len bs e
    else if get_or bs 1 0 == desc_endpoint
    then visit_endpoint len bs e
    else e

-- The `while` loop, on fuel, over what is left of the configuration from `offset` on: `offset + n` is
-- past the end exactly when fewer than `n` bytes are left.
unfoldable pub find_loop : ℕ → Bytes → Endpoints → Option Endpoints
find_loop zero bs e = none
find_loop (suc fuel) bs e =
    let len = get_or bs 0 0 in
    let rest = find_loop fuel (drop len bs) (visit len bs e) in
    if ltb (length bs) 2 then some e else if len == 0 || ltb (length bs) len then some e else rest

-- The state after the search; an empty configuration is not searched.
unfoldable pub find_endpoints : Bytes → Endpoints → Option Endpoints
find_endpoints config e = find_loop (suc (length config)) config e

-- The result of `FindEndpoints` on a configuration that is not empty.
unfoldable pub has_all : Endpoints → Bool
has_all e =
    is_found e.interface_number && not (e.bulk_in.address == 0) && not (e.bulk_out.address == 0)
