-- ===== src/Usb/Enums.antt =====
-- common/protocol/usb_types.h: the enumerations of speeds, device classes, requests and descriptor
-- types, with the numbers behind their enumerators.
use usb_lib.Prelude.{ℕ}

pub data UsbSpeed : Type 0 where
  unknown low full high super : UsbSpeed

abbrev pub speed_value : UsbSpeed → ℕ
speed_value unknown = 0
speed_value low = 1
speed_value full = 2
speed_value high = 3
speed_value super = 4

pub data UsbDeviceClass : Type 0 where
  per_interface audio comm hid physical imaging printer mass_storage hub cdc_data : UsbDeviceClass
  smart_card content_security video personal_healthcare diagnostic_device : UsbDeviceClass
  wireless miscellaneous application_specific vendor_specific : UsbDeviceClass

abbrev pub class_value : UsbDeviceClass → ℕ
class_value per_interface = 0x00
class_value audio = 0x01
class_value comm = 0x02
class_value hid = 0x03
class_value physical = 0x05
class_value imaging = 0x06
class_value printer = 0x07
class_value mass_storage = 0x08
class_value hub = 0x09
class_value cdc_data = 0x0A
class_value smart_card = 0x0B
class_value content_security = 0x0D
class_value video = 0x0E
class_value personal_healthcare = 0x0F
class_value diagnostic_device = 0xDC
class_value wireless = 0xE0
class_value miscellaneous = 0xEF
class_value application_specific = 0xFE
class_value vendor_specific = 0xFF

pub data UsbStandardRequest : Type 0 where
  get_status clear_feature set_feature set_address get_descriptor set_descriptor :
      UsbStandardRequest
  get_configuration set_configuration get_interface set_interface synch_frame : UsbStandardRequest

abbrev pub request_value : UsbStandardRequest → ℕ
request_value get_status = 0x00
request_value clear_feature = 0x01
request_value set_feature = 0x03
request_value set_address = 0x05
request_value get_descriptor = 0x06
request_value set_descriptor = 0x07
request_value get_configuration = 0x08
request_value set_configuration = 0x09
request_value get_interface = 0x0A
request_value set_interface = 0x0B
request_value synch_frame = 0x0C

pub data UsbDescriptorType : Type 0 where
  device configuration string interface endpoint : UsbDescriptorType
  device_qualifier other_speed_configuration interface_power : UsbDescriptorType

abbrev pub descriptor_value : UsbDescriptorType → ℕ
descriptor_value device = 0x01
descriptor_value configuration = 0x02
descriptor_value string = 0x03
descriptor_value interface = 0x04
descriptor_value endpoint = 0x05
descriptor_value device_qualifier = 0x06
descriptor_value other_speed_configuration = 0x07
descriptor_value interface_power = 0x08
