-- ===== src/Sender/Manager/Search.antt =====
-- The manager's searches over the devices that libusb lists.
use usb_lib.Prelude.{
  ℕ, ◌≡◌, refl, ap, ◌∙◌, inl, inr, List, [], ◌∷◌, ◌++◌, Bool, true, false, Option, none, some, All,
  Bool-cases,
}
use usb_lib.Usb.{UsbDeviceDescriptor}
use usb_lib.Sender.Requests.{same_text→eq, same_text_refl}
use usb_lib.Sender.Device.{LibusbDevice, SenderUsbDevice, get_path}
use usb_lib.Sender.Device.Naming.{SamePlace, get_path-get_bus_id}
use usb_lib.Sender.Manager.{
  UsbDeviceManager, enumerate_devices, first_with, has_ids, find_device, has_path,
  find_device_by_path,
}

-- The first element that passes the test, with nothing in front that does; or nothing does.
pub data First (p : SenderUsbDevice → Bool) (ds : List SenderUsbDevice)
    : Option SenderUsbDevice → Type 0 where
  nowhere : All (λ (d : SenderUsbDevice). p d ≡ false) ds → First p ds none
  at_place :
      {d : SenderUsbDevice} (before after : List SenderUsbDevice)
      → ds ≡ before ++ (d ∷ after)
      → All (λ (e : SenderUsbDevice). p e ≡ false) before
      → p d ≡ true
      → First p ds (some d)

pub first_with-First :
    (p : SenderUsbDevice → Bool) (ds : List SenderUsbDevice) → First p ds (first_with p ds)
unfolding first_with
first_with-First p [] = nowhere tt
first_with-First p (d ∷ ds) = elim (Bool-cases (p d)) [
  | inl hit ↦ rw hit (at_place [] ds refl tt hit)
  | inr miss ↦ rw miss (further (first_with p ds) (first_with-First p ds) miss)
]
  where
    further : (o : Option SenderUsbDevice) → First p ds o → p d ≡ false → First p (d ∷ ds) o
    further none (nowhere all) miss = nowhere (miss, all)
    further (some e) (at_place before after eq all hit) miss =
        at_place (d ∷ before) after (ap (◌∷◌ d) eq) (miss, all) hit

-- `FindDevice` gives the first enumerated device that has the vendor and the product, and nothing
-- exactly if miss enumerated device has them.
pub find_device-First :
    (m : UsbDeviceManager) (listed : Option (List (Option LibusbDevice)))
    (unset : UsbDeviceDescriptor) (vendor product : ℕ)
    → First
        (has_ids vendor product)
        (enumerate_devices m listed unset)
        (find_device m listed unset vendor product)
unfolding find_device
find_device-First m listed unset vendor product =
    first_with-First (has_ids vendor product) (enumerate_devices m listed unset)

-- A test that an element passes finds one.
first_with-some :
    (p : SenderUsbDevice → Bool) (before after : List SenderUsbDevice) (d : SenderUsbDevice)
    → p d ≡ true
    → (e : SenderUsbDevice) × (first_with p (before ++ (d ∷ after)) ≡ some e) × (p e ≡ true)
unfolding first_with
first_with-some p [] after d hit = (d, rw hit refl, hit)
first_with-some p (c ∷ before) after d hit =
    let (e, found, passes) = first_with-some p before after d hit in
    elim (Bool-cases (p c)) [
      | inl here ↦ (c, rw here refl, here)
      | inr miss ↦ (e, rw miss found, passes)
    ]

-- A search for the path of a device that is enumerated finds one, and what it finds has the same bus
-- number and address.
pub find_device_by_path-get_path :
    (m : UsbDeviceManager) (listed : Option (List (Option LibusbDevice)))
    (unset : UsbDeviceDescriptor) (before after : List SenderUsbDevice) (d : SenderUsbDevice)
    → enumerate_devices m listed unset ≡ before ++ (d ∷ after)
    → (e : SenderUsbDevice) × (find_device_by_path m listed unset (get_path d.device) ≡ some e)
      × SamePlace e.device d.device
unfolding find_device_by_path
find_device_by_path-get_path m listed unset before after d enumerated =
    let path = get_path d.device in
    let (e, found, passes) = first_with-some (has_path path) before after d (same_text_refl path) in
    (
      e,
      ap (first_with (has_path path)) enumerated ∙ found,
      (get_path-get_bus_id e.device d.device).0 (same_text→eq (get_path e.device) path passes),
    )
