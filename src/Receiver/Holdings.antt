-- ===== src/Receiver/Holdings.antt =====
-- `UsbReceiver::OnDeviceListReceived`: the virtual devices and the ports that they hold.
use usb_lib.Prelude.{
  ℕ, zero, suc, ◌≤◌, ◌≡◌, ◌≢◌, ◌↔◌, refl, sym, ap, ◌∙◌, Option, none, inl, inr, List, [], ◌∷◌, ◌++◌,
  Bool, true, false, some, length, set, All, Bool-cases, ◌==◌,
}
use usb_lib.Usb.{class_mass_storage}
use usb_lib.Usbip.{UsbipDeviceInfo}
use usb_lib.Text.{c_text}
use usb_lib.Message.{serialize_message, create_device_import_request}
use usb_lib.Socket.Send.{takes}
use usb_lib.Ports.Alloc.{InUse, IsFree}
use usb_lib.Virtual.{VirtualDevice}
use usb_lib.Receiver.{
  UsbReceiver, ImportCalls, ImportResult, returned, import_device_internal, on_device_list_received,
}
use usb_lib.Receiver.Import.{Imported, undone, added, import_device_internal-Imported}

-- Every virtual device is created and attached, and holds a port that is in use and that no later one holds.
abbrev pub Holds : List Bool → List VirtualDevice → Type 0
Holds usage [] = Unit {0}
Holds usage (d ∷ ds) =
    (d.created ≡ true)
    × (d.attached ≡ true)
    × ((p : ℕ) × (d.port_number ≡ some p) × InUse usage p × All (λ e. e.port_number ≢ some p) ds)
    × Holds usage ds

-- No device of the list holds the port.
abbrev pub NoneHolds : List VirtualDevice → ℕ → Type 0
NoneHolds ds q = All (λ e. e.port_number ≢ some q) ds

-- The ports that are in use and held by none of the devices are the same.
abbrev pub SameForeign : UsbReceiver → UsbReceiver → Type 0
SameForeign r r' =
    (q : ℕ)
    → (InUse r'.table.usage q × NoneHolds r'.virtual_devices q)
      ↔ (InUse r.table.usage q × NoneHolds r.virtual_devices q)

InUse-set_other :
    (ports : List Bool) (p q : ℕ) → IsFree ports p → InUse ports q → InUse (set ports p true) q
InUse-set_other [] p q f u = cc
InUse-set_other (b ∷ ports) zero zero f u = refl
InUse-set_other (b ∷ ports) zero (suc q) f u = u
InUse-set_other (b ∷ ports) (suc p) zero f u = u
InUse-set_other (b ∷ ports) (suc p) (suc q) f u = InUse-set_other ports p q f u

InUse-set_new : (ports : List Bool) (p : ℕ) → IsFree ports p → InUse (set ports p true) p
InUse-set_new [] p f = cc
InUse-set_new (b ∷ ports) zero f = refl
InUse-set_new (b ∷ ports) (suc p) f = InUse-set_new ports p f

-- A used port is no free port.
used_not_free : (ports : List Bool) (p q : ℕ) → IsFree ports p → InUse ports q → some p ≢ some q
used_not_free ports p q f u e = cc

All-snoc :
    (q : ℕ) (ds : List VirtualDevice) (d : VirtualDevice)
    → All (λ e. e.port_number ≢ some q) ds
    → d.port_number ≢ some q
    → All (λ e. e.port_number ≢ some q) (ds ++ (d ∷ []))
All-snoc q [] d h last = (last, tt)
All-snoc q (e ∷ ds) d (first, h) last = (first, All-snoc q ds d h last)

Holds-snoc :
    (usage : List Bool) (ds : List VirtualDevice) (d : VirtualDevice) (p : ℕ)
    → Holds usage ds
    → IsFree usage p
    → d.created ≡ true
    → d.attached ≡ true
    → d.port_number ≡ some p
    → Holds (set usage p true) (ds ++ (d ∷ []))
Holds-snoc usage [] d p h free made up port =
    (made, up, (p, port, InUse-set_new usage p free, tt), tt)
Holds-snoc usage (e ∷ ds) d p (made_e, up_e, (q, port_e, used, others), h) free made up port = (
  made_e,
  up_e,
  (
    q,
    port_e,
    InUse-set_other usage p q free used,
    All-snoc q ds d others (λ same. used_not_free usage p q free used (sym port ∙ same)),
  ),
  Holds-snoc usage ds d p h free made up port,
)

-- The import request fits the answers of `send`, whatever its number.
abbrev pub Fits : UsbipDeviceInfo × ImportCalls → Type 0
Fits (info, c) =
    (seq : ℕ)
    → length (serialize_message (create_device_import_request (c_text info.busid) seq).0)
      ≤ takes c.answers

-- Back from a port that is set.
InUse-set_back :
    (ports : List Bool) (p q : ℕ) → InUse (set ports p true) q → some p ≢ some q → InUse ports q
InUse-set_back [] p q u ne = u
InUse-set_back (b ∷ ports) zero zero u ne = absurd (ne refl)
InUse-set_back (b ∷ ports) zero (suc q) u ne = u
InUse-set_back (b ∷ ports) (suc p) zero u ne = u
InUse-set_back (b ∷ ports) (suc p) (suc q) u ne =
    InUse-set_back ports p q u
      (λ e. ne (ap (λ (o : Option ℕ). elim o [ none ↦ none | some n ↦ some (suc n) ]) e))

All-unsnoc :
    (q : ℕ) (ds : List VirtualDevice) (d : VirtualDevice)
    → NoneHolds (ds ++ (d ∷ [])) q
    → NoneHolds ds q × (d.port_number ≢ some q)
All-unsnoc q [] d (last, _) = (tt, last)
All-unsnoc q (e ∷ ds) d (first, h) = let (rest, last) = All-unsnoc q ds d h in ((first, rest), last)

-- A new device on a port that was free.
added-SameForeign :
    (r : UsbReceiver) (d : VirtualDevice) (p seq : ℕ)
    → IsFree r.table.usage p
    → d.port_number ≡ some p
    → SameForeign r (record {
      virtual_devices = r.virtual_devices ++ (d ∷ []);
      table = record (r.table) { usage = set r.table.usage p true };
      next_sequence = seq;
    })
added-SameForeign r d p seq free port q = (
  λ u.
      let (away, last) = All-unsnoc q r.virtual_devices d u.1 in
      (InUse-set_back r.table.usage p q u.0 (λ e. last (port ∙ e)), away),
  λ u. (
    InUse-set_other r.table.usage p q free u.0,
    All-snoc q r.virtual_devices d u.1
        (λ same. used_not_free r.table.usage p q free u.0 (sym port ∙ same)),
  ),
)

-- An import that returned leaves the receiver in order.
record Kept (r : UsbReceiver) (info : UsbipDeviceInfo) (c : ImportCalls) : Type 0 where
  result : Bool
  after : UsbReceiver
  runs : import_device_internal r info c ≡ returned result after
  unlocked : after.table.locked ≡ false
  holding : Holds after.table.usage after.virtual_devices
  foreign : SameForeign r after

import-Kept :
    (r : UsbReceiver) (info : UsbipDeviceInfo) (c : ImportCalls)
    → r.table.locked ≡ false
    → Holds r.table.usage r.virtual_devices
    → Imported r info c
    → Kept r info c
import-Kept r info c free h (undone seq e) = record {
  result = false;
  after = record r { next_sequence = seq };
  runs = e;
  unlocked = free;
  holding = h;
  foreign = λ q. (λ u. u, λ u. u);
}
import-Kept r info c free h (added d p seq is_free made up port e) = record {
  result = true;
  after = record {
    virtual_devices = r.virtual_devices ++ (d ∷ []);
    table = record (r.table) { usage = set r.table.usage p true };
    next_sequence = seq;
  };
  runs = e;
  unlocked = free;
  holding = Holds-snoc r.table.usage r.virtual_devices d p h is_free made up port;
  foreign = added-SameForeign r d p seq is_free port;
}

-- What the handling of a list comes to.
abbrev pub IsSettled : UsbReceiver → ImportResult → Type 0
IsSettled r result =
    (r' : UsbReceiver) × (result ≡ returned true r')
    × (r'.table.locked ≡ false)
    × Holds r'.table.usage r'.virtual_devices
    × SameForeign r r'

pub through :
    (r r1 : UsbReceiver) (result : ImportResult)
    → SameForeign r r1
    → IsSettled r1 result
    → IsSettled r result
through r r1 result f (r', e, free, h, g) =
    (r', e, free, h, λ q. (λ u. (f q).0 ((g q).0 u), λ u. (g q).1 ((f q).1 u)))

-- With the manager's mutex free, answers of `send` for every import request, and every virtual device
-- created and attached to a port of its own that is in use, `OnDeviceListReceived` returns, and every
-- virtual device, the old and the new ones, is again created and attached to a port of its own that is
-- in use. The ports that are in use and held by no virtual device are the same as before.
pub on_device_list_received-IsSettled :
    (r : UsbReceiver) (list : List (UsbipDeviceInfo × ImportCalls))
    → r.table.locked ≡ false
    → Holds r.table.usage r.virtual_devices
    → All Fits list
    → IsSettled r (on_device_list_received r list)
unfolding on_device_list_received
on_device_list_received-IsSettled r [] free h fits = (r, refl, free, h, λ q. (λ u. u, λ u. u))
on_device_list_received-IsSettled r ((info, c) ∷ more) free h (fit, fits) =
    elim (Bool-cases (info.device_class == class_mass_storage)) [
      | inl storage ↦
          let k =
            import-Kept r info c free h
              (import_device_internal-Imported r info c free (fit r.next_sequence)) in
          rw storage (
            rw (k.runs) (
              through r k.after _ k.foreign
                (on_device_list_received-IsSettled k.after more k.unlocked k.holding fits)))
      | inr other ↦ rw other (on_device_list_received-IsSettled r more free h fits)
    ]
