-- ===== src/Usb/Structs.antt =====
-- common/protocol/usb_types.h: the packed configuration, interface and endpoint descriptors, as the
-- bytes at an address hold them.
use usb_lib.Prelude.{ℕ, drop, get_or}
use usb_lib.Words.{Bytes, load16}

pub record UsbConfigurationDescriptor : Type 0 where
  pub length : ℕ
  pub descriptor_type : ℕ
  pub total_length : ℕ
  pub num_interfaces : ℕ
  pub configuration_value : ℕ
  pub configuration : ℕ
  pub attributes : ℕ
  pub max_power : ℕ

pub record UsbInterfaceDescriptor : Type 0 where
  pub length : ℕ
  pub descriptor_type : ℕ
  pub interface_number : ℕ
  pub alternate_setting : ℕ
  pub num_endpoints : ℕ
  pub interface_class : ℕ
  pub interface_sub_class : ℕ
  pub interface_protocol : ℕ
  pub interface : ℕ

pub record UsbEndpointDescriptor : Type 0 where
  pub length : ℕ
  pub descriptor_type : ℕ
  pub endpoint_address : ℕ
  pub attributes : ℕ
  pub max_packet_size : ℕ
  pub interval : ℕ

-- `reinterpret_cast` of the address at which the bytes begin; a byte that is not there counts as 0.
abbrev pub load_interface : Bytes → UsbInterfaceDescriptor
load_interface bs = record {
  length = get_or bs 0 0;
  descriptor_type = get_or bs 1 0;
  interface_number = get_or bs 2 0;
  alternate_setting = get_or bs 3 0;
  num_endpoints = get_or bs 4 0;
  interface_class = get_or bs 5 0;
  interface_sub_class = get_or bs 6 0;
  interface_protocol = get_or bs 7 0;
  interface = get_or bs 8 0;
}

abbrev pub load_endpoint : Bytes → UsbEndpointDescriptor
load_endpoint bs = record {
  length = get_or bs 0 0;
  descriptor_type = get_or bs 1 0;
  endpoint_address = get_or bs 2 0;
  attributes = get_or bs 3 0;
  max_packet_size = load16 (drop 4 bs);
  interval = get_or bs 6 0;
}
