-- ===== src/Virtual/Lifecycle.antt =====
-- The life cycle of a virtual device beside the manager's port table.
use usb_lib.Prelude.{ℕ, ◌≡◌, refl, ap, ◌∙◌, Bool, true, false, none, some, set, arith}
use mathlib.Core.Path.{subst₂}
use usb_lib.Words.{Bytes}
use usb_lib.Usbip.{UsbipDeviceInfo}
use usb_lib.Ports.{PortTable, done, release_port}
use usb_lib.Ports.Alloc.{release-get_available_port}
use usb_lib.Virtual.{
  VirtualDevice, virtual_usb_device, create_device, on_port, create_device_descriptors,
  attach_device, detach_device, destroy_device,
}
use usb_lib.Virtual.Consistent.{
  IsConsistent, was_created, no_port, on_free, virtual_usb_device-IsConsistent,
  create_device-Creation, create-IsConsistent, attach-IsConsistent, detach-IsConsistent,
  destroy-Destroyed, detach-down,
}

-- The public operations, when they return.
pub data DeviceStep (d : VirtualDevice) (t : PortTable) : VirtualDevice → PortTable → Type 0 where
  creates :
      {d' : VirtualDevice} {t' : PortTable} (info : UsbipDeviceInfo) (result : Bool)
      → create_device d info t ≡ done (result, d', t')
      → DeviceStep d t d' t'
  attaches : (system : Bytes → Bool) → DeviceStep d t (attach_device d system).1 t
  detaches : DeviceStep d t (detach_device d).1 t
  destroys :
      {d' : VirtualDevice} {t' : PortTable}
      → destroy_device d t ≡ done (d', t')
      → DeviceStep d t d' t'

-- Every public operation of a virtual device that returns keeps the device consistent with the port
-- table: created exactly while it holds a port, attached only while created, its thread running
-- exactly while attached, and the manager's mutex free.
pub DeviceStep-IsConsistent :
    {d d' : VirtualDevice} {t t' : PortTable}
    → DeviceStep d t d' t'
    → IsConsistent d t
    → IsConsistent d' t'
DeviceStep-IsConsistent (creates info result e) v = create-IsConsistent info result v e
DeviceStep-IsConsistent {d} {d'} {t} {t'} (attaches system) v = attach-IsConsistent d t system v
DeviceStep-IsConsistent {d} {d'} {t} {t'} detaches v = detach-IsConsistent d t v
DeviceStep-IsConsistent {d} {d'} {t} {t'} (destroys e) v =
    let r = destroy-Destroyed d t v in
    subst₂ IsConsistent (cc (e, r.runs)) (cc (e, r.runs)) r.consistent

-- Any history of operations after the constructor.
pub data DeviceRun (info : UsbipDeviceInfo) (t : PortTable)
    : VirtualDevice → PortTable → Type 0 where
  constructed : DeviceRun info t (virtual_usb_device info) t
  then_step :
      {d d' : VirtualDevice} {u u' : PortTable}
      → DeviceRun info t d u
      → DeviceStep d u d' u'
      → DeviceRun info t d' u'

DeviceRun-IsConsistent :
    {info : UsbipDeviceInfo} {t u : PortTable} {d : VirtualDevice}
    → t.locked ≡ false
    → DeviceRun info t d u
    → IsConsistent d u
DeviceRun-IsConsistent {info} {t} free constructed = virtual_usb_device-IsConsistent info t free
DeviceRun-IsConsistent free (then_step r s) =
    DeviceStep-IsConsistent s (DeviceRun-IsConsistent free r)

-- After any history of a virtual device that began with the manager's mutex free, `DestroyDevice`
-- returns, and the device is then neither created nor attached and holds no port.
pub destroy-DeviceRun :
    {info : UsbipDeviceInfo} {t u : PortTable} {d : VirtualDevice}
    → t.locked ≡ false
    → DeviceRun info t d u
    → (d' : VirtualDevice) × (u' : PortTable) × (destroy_device d u ≡ done (d', u'))
      × (d'.created ≡ false)
      × (d'.attached ≡ false)
      × (d'.port_number ≡ none)
destroy-DeviceRun {u = u} {d = d} free r =
    let e = destroy-Destroyed d u (DeviceRun-IsConsistent free r) in
    let (portless, down) = e.consistent.idle e.gone in
    (e.device, e.table, e.runs, e.gone, down, portless)

pub destroy_held :
    (x : VirtualDevice) (t t' : PortTable) (p : ℕ)
    → x.created ≡ true
    → x.port_number ≡ some p
    → release_port p t' ≡ done t
    → destroy_device x t'
      ≡ done (record (detach_device x).1 { port_number = none; created = false }, t)
unfolding destroy_device detach_device
destroy_held x t t' p old port released = ground arith

attach_keeps :
    (x : VirtualDevice) (system : Bytes → Bool)
    → ((attach_device x system).1.created ≡ x.created)
      × ((attach_device x system).1.port_number ≡ x.port_number)
unfolding attach_device
attach_keeps x system = ground arith

-- If `CreateDevice` succeeds for a device that is consistent with the port table and not created,
-- then attaching the device or not, and destroying it, gives back the port table as it was: no port
-- is lost, and `DestroyDevice` returns.
pub destroy-create_device :
    (d d' : VirtualDevice) (info : UsbipDeviceInfo) (t t' : PortTable) (system : Bytes → Bool)
    → IsConsistent d t
    → d.created ≡ false
    → create_device d info t ≡ done (true, d', t')
    → (e : VirtualDevice) × (destroy_device (attach_device d' system).1 t' ≡ done (e, t))
      × (e.created ≡ false)
      × (e.attached ≡ false)
      × (e.port_number ≡ none)
destroy-create_device d d' info t t' system v new made =
    elim (create_device-Creation d info t v.unlocked) [
      | was_created old r ↦ absurd (cc (old, new))
      | no_port _ r ↦ absurd (cc (made, r))
      | on_free p _ is_free granted_p r ↦
          let x = (attach_device d' system).1 in
          let (same_created, same_port) = attach_keeps d' system in
          let device : d' ≡ on_port (record d { device_info = info }) p = cc (made, r) in
          let table : t' ≡ record t { usage = set t.usage p true } = cc (made, r) in
          let old : d'.created ≡ true =
            unfold on_port create_device_descriptors in
            ap (λ (z : VirtualDevice). z.created) device in
          let port : d'.port_number ≡ some p =
            unfold on_port create_device_descriptors in
            ap (λ (z : VirtualDevice). z.port_number) device in
          (
            record (detach_device x).1 { port_number = none; created = false },
            destroy_held x t t' p (same_created ∙ old) (same_port ∙ port)
                (release-get_available_port t t' p (cc (granted_p, table))),
            refl,
            detach-down x,
            refl,
          )
    ]
