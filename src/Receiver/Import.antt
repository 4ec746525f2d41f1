-- ===== src/Receiver/Import.antt =====
-- What `UsbReceiver::ImportDeviceInternal` comes to, on each of its paths.
use usb_lib.Prelude.{
  ℕ, ◌≤◌, ◌≡◌, ◌≢◌, refl, ap, ◌∙◌, inl, inr, [], ◌∷◌, ◌++◌, Bool, true, false, none, some, length,
  set, arith, Bool-cases,
}
use usb_lib.Words.{Bytes}
use usb_lib.Usbip.{UsbipDeviceInfo}
use usb_lib.Text.{c_text}
use usb_lib.Message.{serialize_message, create_device_import_request}
use usb_lib.Socket.{SendState, finished, waiting}
use usb_lib.Socket.Send.{takes, send-ends}
use usb_lib.Ports.{PortTable, done}
use usb_lib.Ports.Alloc.{IsFree}
use usb_lib.Virtual.{
  VirtualDevice, virtual_usb_device, create_device, on_port, create_device_descriptors,
  attach_device, detach_device, destroy_device,
}
use usb_lib.Virtual.Consistent.{
  was_created, no_port, on_free, virtual_usb_device-IsConsistent, create_device-Creation,
}
use usb_lib.Virtual.Lifecycle.{destroy-create_device}
use usb_lib.Receiver.{
  UsbReceiver, ImportCalls, returned, import_device, drop_device, give_up, after_request,
  after_attach, after_create, import_device_internal,
}

-- What an import comes to: it fails and leaves the devices and the ports as they were, or it succeeds
-- with one more device, which is created and attached on a port that was free.
pub data Imported (r : UsbReceiver) (info : UsbipDeviceInfo) (c : ImportCalls) : Type 0 where
  undone :
      (seq : ℕ)
      → import_device_internal r info c ≡ returned false (record r { next_sequence = seq })
      → Imported r info c
  added :
      (d : VirtualDevice) (p seq : ℕ)
      → IsFree r.table.usage p
      → d.created ≡ true
      → d.attached ≡ true
      → d.port_number ≡ some p
      → import_device_internal r info c
        ≡ returned true (record {
          virtual_devices = r.virtual_devices ++ (d ∷ []);
          table = record (r.table) { usage = set r.table.usage p true };
          next_sequence = seq;
        })
      → Imported r info c

destroy_gone :
    (d : VirtualDevice) (t : PortTable)
    → d.created ≡ false
    → d.attached ≡ false
    → destroy_device d t ≡ done (d, t)
unfolding destroy_device detach_device
destroy_gone d t new down = ground arith

destroy-detach :
    (d : VirtualDevice) (t : PortTable) → destroy_device (detach_device d).1 t ≡ destroy_device d t
unfolding destroy_device detach_device
destroy-detach d t = ground arith

give_up_lem :
    (r : UsbReceiver) (d e : VirtualDevice) (t u : PortTable)
    → destroy_device d t ≡ done (e, u)
    → e.created ≡ false
    → e.attached ≡ false
    → give_up r (destroy_device d t) ≡ returned false (record r { table = u })
unfolding give_up drop_device
give_up_lem r d e t u run new down = rw run (rw (destroy_gone e u new down) refl)

import_device-ends :
    (c : ImportCalls) (bus_id : Bytes) (seq : ℕ)
    → length (serialize_message (create_device_import_request bus_id seq).0) ≤ takes c.answers
    → (import_device c bus_id seq).0 ≢ waiting
unfolding import_device
import_device-ends c bus_id seq enough = ground (
  arith,
  send-ends c.socket (serialize_message (create_device_import_request bus_id seq).0) c.answers
      enough,
)

-- Attaching a created device reports what it did.
attach_lem :
    (d : VirtualDevice) (system : Bytes → Bool)
    → d.created ≡ true
    → (d.attached ≡ false)
    → let x = attach_device d system in
      (x.1.created ≡ true) × (x.1.port_number ≡ d.port_number) × (x.1.attached ≡ x.0)
unfolding attach_device
attach_lem d system old down = ground arith

-- A device that has just been created on a port, from there on.
module _ (r : UsbReceiver) (info : UsbipDeviceInfo) (c : ImportCalls) (d : VirtualDevice) (p : ℕ)
    (free : IsFree r.table.usage p) (old : d.created ≡ true) (down : d.attached ≡ false)
    (port : d.port_number ≡ some p)
    (undo : (e : VirtualDevice) × (destroy_device
          (attach_device d c.system).1
          (record (r.table) { usage = set r.table.usage p true })
        ≡ done (e, r.table))
      × (e.created ≡ false)
      × (e.attached ≡ false)
      × (e.port_number ≡ none))
    (made : create_device (virtual_usb_device c.garbage) info r.table
      ≡ done (true, d, record (r.table) { usage = set r.table.usage p true })) where
  table' : PortTable
  table' = record (r.table) { usage = set r.table.usage p true }

  start : import_device_internal r info c ≡ after_attach r info c table' (attach_device d c.system)
  unfolding import_device_internal after_create table'
  start = rw made refl

  attach_refused : (attach_device d c.system).0 ≡ false → Imported r info c
  attach_refused no_luck = undone r.next_sequence (
      start
      ∙ ap (after_attach r info c table') (λ i. (no_luck i, (attach_device d c.system).1))
      ∙ (unfold after_attach table' in
          give_up_lem r (attach_device d c.system).1 undo.0 table' r.table undo.1 undo.2 undo.3))

  requested :
      (attach_device d c.system).0 ≡ true
      → (s : SendState × ℕ) → import_device c (c_text info.busid) r.next_sequence ≡ s
      → s.0 ≢ waiting
      → Imported r info c
  requested up (waiting, seq) e ends = absurd (ends refl)
  requested up (finished true, seq) e ends =
      let (created', port', attached') = attach_lem d c.system old down in
      added (attach_device d c.system).1 p seq free created' (attached' ∙ up) (port' ∙ port) (
        start
        ∙ ap (after_attach r info c table') (λ i. (up i, (attach_device d c.system).1))
        ∙ (unfold after_attach after_request table' in rw e refl))
  requested up (finished false, seq) e ends = undone seq (
      start
      ∙ ap (after_attach r info c table') (λ i. (up i, (attach_device d c.system).1))
      ∙ (unfold after_attach after_request table' in
          rw e (
            ap (give_up (record r { next_sequence = seq }))
              (destroy-detach (attach_device d c.system).1 table')
            ∙ give_up_lem (record r { next_sequence = seq }) (attach_device d c.system).1 undo.0
                table' r.table undo.1 undo.2 undo.3)))

create_refused :
    (r : UsbReceiver) (info : UsbipDeviceInfo) (c : ImportCalls) (d : VirtualDevice)
    → create_device (virtual_usb_device c.garbage) info r.table ≡ done (false, d, r.table)
    → d.created ≡ false
    → d.attached ≡ false
    → Imported r info c
create_refused r info c d made new down = undone r.next_sequence (
    unfold import_device_internal after_create drop_device in
    rw made (rw (destroy_gone d r.table new down) refl))

on_port_lem :
    (d : VirtualDevice) (p : ℕ)
    → ((on_port d p).created ≡ true)
      × ((on_port d p).attached ≡ d.attached)
      × ((on_port d p).port_number ≡ some p)
unfolding on_port create_device_descriptors
on_port_lem d p = (refl, refl, refl)

blank_lem :
    (garbage : UsbipDeviceInfo)
    → ((virtual_usb_device garbage).created ≡ false)
      × ((virtual_usb_device garbage).attached ≡ false)
unfolding virtual_usb_device
blank_lem garbage = (refl, refl)

-- With the manager's mutex free, and as many answers of `send` that take something as the request has
-- bytes, `ImportDeviceInternal` returns. If it returns false, the virtual devices and the ports are as
-- they were before; if it returns true, there is one more virtual device, created and attached on a
-- port that was free, and no other port has changed.
pub import_device_internal-Imported :
    (r : UsbReceiver) (info : UsbipDeviceInfo) (c : ImportCalls)
    → r.table.locked ≡ false
    → length
        (serialize_message (create_device_import_request (c_text info.busid) r.next_sequence).0)
      ≤ takes c.answers
    → Imported r info c
import_device_internal-Imported r info c unlocked enough =
    let blank = blank_lem c.garbage in
    elim (create_device-Creation (virtual_usb_device c.garbage) info r.table unlocked) [
      | was_created old e ↦ absurd (cc (old, blank.0))
      | no_port new e ↦ create_refused r info c _ e new blank.1
      | on_free p new free granted_p e ↦
          let d = on_port (record (virtual_usb_device c.garbage) { device_info = info }) p in
          let (old, down, port) =
            on_port_lem (record (virtual_usb_device c.garbage) { device_info = info }) p in
          let undo =
            destroy-create_device (virtual_usb_device c.garbage) d info r.table _ c.system
              (virtual_usb_device-IsConsistent c.garbage r.table unlocked) new e in
          elim (Bool-cases (attach_device d c.system).0) [
            | inl up ↦
                requested r info c d p free old (down ∙ blank.1) port undo e up _ refl
                  (import_device-ends c (c_text info.busid) r.next_sequence enough)
            | inr no_luck ↦
                attach_refused r info c d p free old (down ∙ blank.1) port undo e no_luck
          ]
    ]
