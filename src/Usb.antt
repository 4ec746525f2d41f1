-- ===== src/Usb.antt =====
-- common/protocol/usb_types.h: the transfer types, directions, setup packets, URBs and devices.
pub mod Enums
pub mod Structs
use usb_lib.Prelude.{ℕ, ◌%◌, ◌≡◌, Bool, ◌++◌, ◌==◌, if◌then◌else◌, drop, [], ◌∷◌, arith}
use usb_lib.Usb.Enums.{
  class_value, mass_storage, request_value, get_descriptor, get_configuration, set_configuration,
  descriptor_value, device, configuration, string, interface, endpoint,
}
use usb_lib.Words.{Bytes, IsU8, IsU16, image16, load16}

pub data UsbTransferType : Type 0 where
  control isochronous bulk interrupt : UsbTransferType

-- An `enum class : uint8_t` holds every byte: `dir_other` is a value that has no enumerator.
pub data UsbDirection : Type 0 where
  dir_out dir_in : UsbDirection
  dir_other : ℕ → UsbDirection

-- `static_cast<UsbDirection>` of a uint32_t, and `static_cast<uint32_t>` of a direction.
unfoldable pub direction_of : ℕ → UsbDirection
direction_of w =
    let b = w % 256 in if b == 0 then dir_out else if b == 1 then dir_in else dir_other b

unfoldable pub direction_value : UsbDirection → ℕ
direction_value dir_out = 0
direction_value dir_in = 1
direction_value (dir_other b) = b

-- The device classes and descriptor types that the code tests for.
abbrev pub class_mass_storage : ℕ
class_mass_storage = class_value mass_storage

abbrev pub desc_device : ℕ
desc_device = descriptor_value device

abbrev pub desc_configuration : ℕ
desc_configuration = descriptor_value configuration

abbrev pub desc_string : ℕ
desc_string = descriptor_value string

abbrev pub desc_interface : ℕ
desc_interface = descriptor_value interface

abbrev pub desc_endpoint : ℕ
desc_endpoint = descriptor_value endpoint

abbrev pub req_get_descriptor : ℕ
req_get_descriptor = request_value get_descriptor

abbrev pub req_get_configuration : ℕ
req_get_configuration = request_value get_configuration

abbrev pub req_set_configuration : ℕ
req_set_configuration = request_value set_configuration

pub record UsbSetupPacket : Type 0 where
  pub request_type : ℕ
  pub request : ℕ
  pub value : ℕ
  pub index : ℕ
  pub setup_length : ℕ

-- The fields are as wide as the struct declares them.
pub record IsSetup (s : UsbSetupPacket) : Type 0 where
  pub request_type_u8 : IsU8 s.request_type
  pub request_u8 : IsU8 s.request
  pub value_u16 : IsU16 s.value
  pub index_u16 : IsU16 s.index
  pub length_u16 : IsU16 s.setup_length

-- The packed struct in memory, and the struct that eight bytes of memory hold.
unfoldable pub image_setup : UsbSetupPacket → Bytes
image_setup s =
    s.request_type ∷ s.request ∷ image16 s.value ++ (image16 s.index ++ image16 s.setup_length)

first_byte : Bytes → ℕ
first_byte [] = 0
first_byte (b ∷ _) = b

unfoldable pub load_setup : Bytes → UsbSetupPacket
unfolding first_byte
load_setup bs = record {
  request_type = first_byte bs;
  request = first_byte (drop 1 bs);
  value = load16 (drop 2 bs);
  index = load16 (drop 4 bs);
  setup_length = load16 (drop 6 bs);
}

-- `status` is the bit pattern of an int32_t.
pub record UsbUrb : Type 0 where
  pub id : ℕ
  pub transfer_type : UsbTransferType
  pub direction : UsbDirection
  pub endpoint : ℕ
  pub flags : ℕ
  pub data_bytes : Bytes
  pub setup : UsbSetupPacket
  pub status : ℕ
  pub actual_length : ℕ
  pub timestamp : ℕ

pub load_setup-image_setup : (s : UsbSetupPacket) → IsSetup s → load_setup (image_setup s) ≡ s
unfolding load_setup image_setup image16 load16
load_setup-image_setup s h = ground arith

pub record UsbDeviceDescriptor : Type 0 where
  pub length : ℕ
  pub descriptor_type : ℕ
  pub bcd_usb : ℕ
  pub device_class : ℕ
  pub device_sub_class : ℕ
  pub device_protocol : ℕ
  pub max_packet_size0 : ℕ
  pub id_vendor : ℕ
  pub id_product : ℕ
  pub bcd_device : ℕ
  pub manufacturer : ℕ
  pub product : ℕ
  pub serial_number : ℕ
  pub num_configurations : ℕ

-- The packed descriptor in memory.
unfoldable pub image_descriptor : UsbDeviceDescriptor → Bytes
image_descriptor d =
    d.length ∷ d.descriptor_type ∷ image16 d.bcd_usb
    ++ (d.device_class
          ∷ d.device_sub_class
          ∷ d.device_protocol
          ∷ d.max_packet_size0
          ∷ image16 d.id_vendor
        ++ (image16 d.id_product
            ++ (image16 d.bcd_device
                ++ (d.manufacturer ∷ d.product ∷ d.serial_number ∷ d.num_configurations ∷ []))))

-- `speed` is the number behind the enumerator.
pub record UsbDevice : Type 0 where
  pub path : Bytes
  pub bus_id : Bytes
  pub bus_number : ℕ
  pub device_number : ℕ
  pub speed : ℕ
  pub descriptor : UsbDeviceDescriptor
  pub config_descriptor : Bytes
  pub is_connected : Bool
