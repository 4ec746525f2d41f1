-- ===== src/Sender/Device/Naming.antt =====
-- `GetPath` and `GetBusId`: how a device is named, in the manager's searches and on the wire.
use usb_lib.Prelude.{
  ℕ, zero, suc, ◌-◌, ◌≡◌, refl, sym, ap, ◌∙◌, ◌++◌, arith, All, length, replicate, drop,
}
use usb_lib.Words.{Bytes}
use usb_lib.Text.{to_string}
use usb_lib.Text.Decimal.{
  decimal_value, decimal_value-to_string, IsDigit, to_string-IsDigit, digits-join,
}
use usb_lib.Sender.Device.{LibusbDevice, pad3, get_path, get_bus_id}

to_string-injective : (a b : ℕ) → to_string a ≡ to_string b → a ≡ b
to_string-injective a b e =
    sym (decimal_value-to_string a) ∙ ap (decimal_value 0) e ∙ decimal_value-to_string b

-- Two devices are one in the eyes of libusb.
abbrev pub SamePlace : LibusbDevice → LibusbDevice → Type 0
SamePlace d e = (d.bus_number ≡ e.bus_number) × (d.device_address ≡ e.device_address)

bus_id-injective : (d e : LibusbDevice) → get_bus_id d ≡ get_bus_id e → SamePlace d e
unfolding get_bus_id
bus_id-injective d e same =
    let (bus, address) =
      digits-join 45 (to_string d.bus_number) (to_string e.bus_number) (to_string d.device_address)
        (to_string e.device_address) (omega arith) (to_string-IsDigit d.bus_number)
        (to_string-IsDigit e.bus_number) same in
    (
      to_string-injective d.bus_number e.bus_number bus,
      to_string-injective d.device_address e.device_address address,
    )

zeros-value :
    (n : ℕ) (text : Bytes) → decimal_value 0 (replicate n 48 ++ text) ≡ decimal_value 0 text
unfolding decimal_value
zeros-value zero text = refl
zeros-value (suc n) text = zeros-value n text

zeros-IsDigit : (n : ℕ) (text : Bytes) → All IsDigit text → All IsDigit (replicate n 48 ++ text)
zeros-IsDigit zero text v = v
zeros-IsDigit (suc n) text v = ((omega arith, omega arith), zeros-IsDigit n text v)

pad3-value : (n : ℕ) → decimal_value 0 (pad3 (to_string n)) ≡ n
pad3-value n = zeros-value (3 - length (to_string n)) (to_string n) ∙ decimal_value-to_string n

pad3-IsDigit : (n : ℕ) → All IsDigit (pad3 (to_string n))
pad3-IsDigit n = zeros-IsDigit (3 - length (to_string n)) (to_string n) (to_string-IsDigit n)

pad3-injective : (a b : ℕ) → pad3 (to_string a) ≡ pad3 (to_string b) → a ≡ b
pad3-injective a b e = sym (pad3-value a) ∙ ap (decimal_value 0) e ∙ pad3-value b

path-injective : (d e : LibusbDevice) → get_path d ≡ get_path e → SamePlace d e
unfolding get_path
path-injective d e same =
    let (bus, address) =
      digits-join 47 (pad3 (to_string d.bus_number)) (pad3 (to_string e.bus_number))
        (pad3 (to_string d.device_address)) (pad3 (to_string e.device_address)) (omega arith)
        (pad3-IsDigit d.bus_number) (pad3-IsDigit e.bus_number) (ap (drop 13) same) in
    (
      pad3-injective d.bus_number e.bus_number bus,
      pad3-injective d.device_address e.device_address address,
    )

-- Two devices have the same path only if they have the same bus number and address, and the same bus ID
-- only then.
pub get_path-get_bus_id :
    (d e : LibusbDevice)
    → (get_path d ≡ get_path e → SamePlace d e) × (get_bus_id d ≡ get_bus_id e → SamePlace d e)
get_path-get_bus_id d e = (path-injective d e, bus_id-injective d e)
