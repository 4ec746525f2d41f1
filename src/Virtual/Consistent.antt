-- ===== src/Virtual/Consistent.antt =====
-- A virtual device beside the manager's port table: what each operation keeps.
use usb_lib.Prelude.{
  ℕ, zero, suc, ◌≡◌, refl, sym, List, [], ◌∷◌, Bool, true, false, none, some, set, length, arith,
  if◌then◌else◌, Bool-cases, ◌⊎◌, inl, inr, ltb, subst,
}
use mathlib.Core.Path.{subst₂}
use usb_lib.Words.{Bytes}
use usb_lib.Usbip.{UsbipDeviceInfo}
use usb_lib.Ports.{PortTable, done, get_available_port, release_port}
use usb_lib.Ports.Alloc.{InUse, IsFree, exhausted, granted, get_available_port-Allocation}
use usb_lib.Virtual.{
  VirtualDevice, virtual_usb_device, create_device, on_port, create_device_descriptors,
  attach_device, attach_command, detach_device, destroy_device,
}

-- A device that is not created has no port, and a created one holds a port that is in use; only a
-- created device is attached, and its thread runs exactly while it is attached.
pub record IsConsistent (d : VirtualDevice) (t : PortTable) : Type 0 where
  pub unlocked : t.locked ≡ false
  pub idle : d.created ≡ false → (d.port_number ≡ none) × (d.attached ≡ false)
  pub holding : d.created ≡ true → (p : ℕ) × (d.port_number ≡ some p) × InUse t.usage p
  pub thread_runs : d.urb_thread ≡ d.attached
  pub thread_goes_on : d.processing ≡ d.attached

pub virtual_usb_device-IsConsistent :
    (info : UsbipDeviceInfo) (t : PortTable)
    → t.locked ≡ false
    → IsConsistent (virtual_usb_device info) t
unfolding virtual_usb_device
virtual_usb_device-IsConsistent info t free = record {
  unlocked = free;
  idle = λ e. (refl, refl);
  holding = λ e. cc;
  thread_runs = refl;
  thread_goes_on = refl;
}

InUse-set : (ports : List Bool) (p : ℕ) → IsFree ports p → InUse (set ports p true) p
InUse-set [] p e = cc
InUse-set (b ∷ ports) zero e = refl
InUse-set (b ∷ ports) (suc p) e = InUse-set ports p e

created_none-IsConsistent :
    (d : VirtualDevice) (info : UsbipDeviceInfo) (t : PortTable)
    → IsConsistent d t
    → d.created ≡ false
    → IsConsistent (record d { device_info = info; port_number = none }) t
created_none-IsConsistent d info t v new = record {
  unlocked = v.unlocked;
  idle = λ e. (refl, (v.idle new).1);
  holding = λ e. cc (e, new);
  thread_runs = v.thread_runs;
  thread_goes_on = v.thread_goes_on;
}

on_port-IsConsistent :
    (d : VirtualDevice) (info : UsbipDeviceInfo) (t : PortTable) (p : ℕ)
    → IsConsistent d t
    → d.created ≡ false
    → IsFree t.usage p
    → IsConsistent
        (on_port (record d { device_info = info }) p)
        (record t { usage = set t.usage p true })
unfolding on_port create_device_descriptors
on_port-IsConsistent d info t p v new is_free = record {
  unlocked = v.unlocked;
  idle = λ e. cc;
  holding = λ e. (p, refl, InUse-set t.usage p is_free);
  thread_runs = v.thread_runs;
  thread_goes_on = v.thread_goes_on;
}

-- What `CreateDevice` does to a consistent device: nothing if it is created; otherwise it takes the
-- lowest free port, or fails without one. It always returns.
pub data Creation (d : VirtualDevice) (info : UsbipDeviceInfo) (t : PortTable) : Type 0 where
  was_created : d.created ≡ true → create_device d info t ≡ done (true, d, t) → Creation d info t
  no_port :
      d.created ≡ false
      → create_device d info t
        ≡ done (false, record d { device_info = info; port_number = none }, t)
      → Creation d info t
  on_free :
      (p : ℕ)
      → d.created ≡ false
      → IsFree t.usage p
      → get_available_port t ≡ done (some p, record t { usage = set t.usage p true })
      → create_device d info t
        ≡ done (
          true,
          on_port (record d { device_info = info }) p,
          record t { usage = set t.usage p true },
        )
      → Creation d info t

pub create_device-Creation :
    (d : VirtualDevice) (info : UsbipDeviceInfo) (t : PortTable)
    → t.locked ≡ false
    → Creation d info t
unfolding create_device
create_device-Creation d info t free = elim (Bool-cases d.created) [
  | inl old ↦ was_created old (rw old)
  | inr new ↦ elim (get_available_port-Allocation t free) [
    | exhausted full e ↦ no_port new (ground (arith, new, e))
    | granted p is_free below e ↦ on_free p new is_free e (ground (arith, new, e))
  ]
]

abbrev started : VirtualDevice → VirtualDevice
started d = record d { processing = true; urb_thread = true; attached = true }

abbrev stopped : VirtualDevice → VirtualDevice
stopped d = record d { processing = false; urb_thread = false; attached = false }

attach-cases :
    (d : VirtualDevice) (system : Bytes → Bool)
    → ((attach_device d system).1 ≡ d)
      ⊎ ((d.created ≡ true) × ((attach_device d system).1 ≡ started d))
unfolding attach_device
attach-cases d system = elim (Bool-cases d.created) [
  | inr new ↦ inl (ground (arith, new))
  | inl old ↦ elim (Bool-cases d.attached) [
    | inl up ↦ inl (ground (arith, old, up))
    | inr down ↦ elim (Bool-cases (system (attach_command d))) [
      | inl fine ↦ inr (old, ground (arith, old, down, fine))
      | inr bad ↦ inl (ground (arith, old, down, bad))
    ]
  ]
]

detach-cases : (d : VirtualDevice) → ((detach_device d).1 ≡ d) ⊎ ((detach_device d).1 ≡ stopped d)
unfolding detach_device
detach-cases d = elim (Bool-cases d.attached) [
  | inl up ↦ inr (ground (arith, up))
  | inr down ↦ inl (ground (arith, down))
]

pub attach-IsConsistent :
    (d : VirtualDevice) (t : PortTable) (system : Bytes → Bool)
    → IsConsistent d t
    → IsConsistent (attach_device d system).1 t
attach-IsConsistent d t system v = elim (attach-cases d system) [
  | inl e ↦ subst (λ x. IsConsistent x t) (sym e) v
  | inr (old, e) ↦
      subst (λ x. IsConsistent x t) (sym e)
        (record {
          unlocked = v.unlocked;
          idle = λ new. cc (old, new);
          holding = v.holding;
          thread_runs = refl;
          thread_goes_on = refl;
        })
]

pub detach-IsConsistent :
    (d : VirtualDevice) (t : PortTable) → IsConsistent d t → IsConsistent (detach_device d).1 t
detach-IsConsistent d t v = elim (detach-cases d) [
  | inl e ↦ subst (λ x. IsConsistent x t) (sym e) v
  | inr e ↦
      subst (λ x. IsConsistent x t) (sym e)
        (record {
          unlocked = v.unlocked;
          idle = λ new. ((v.idle new).0, refl);
          holding = v.holding;
          thread_runs = refl;
          thread_goes_on = refl;
        })
]

pub detach-down : (d : VirtualDevice) → (detach_device d).1.attached ≡ false
unfolding detach_device
detach-down d = ground arith

-- A destroyed device: neither attached nor created, without a port.
destroyed-IsConsistent :
    (d : VirtualDevice) (t t' : PortTable)
    → IsConsistent d t
    → d.attached ≡ false
    → t'.locked ≡ false
    → IsConsistent (record d { port_number = none; created = false }) t'
destroyed-IsConsistent d t t' v down free = record {
  unlocked = free;
  idle = λ e. (refl, down);
  holding = λ e. cc;
  thread_runs = v.thread_runs;
  thread_goes_on = v.thread_goes_on;
}

release_port-unlocked :
    (p : ℕ) (t : PortTable)
    → t.locked ≡ false
    → (t' : PortTable) × (release_port p t ≡ done t') × (t'.locked ≡ false)
unfolding release_port
release_port-unlocked p t free = (
  record t { usage = if ltb p (length t.usage) then set t.usage p false else t.usage },
  ground (arith, free),
  free,
)

-- What `DestroyDevice` comes to.
pub record Destroyed (d : VirtualDevice) (t : PortTable) : Type 0 where
  pub device : VirtualDevice
  pub table : PortTable
  pub runs : destroy_device d t ≡ done (device, table)
  pub consistent : IsConsistent device table
  pub gone : device.created ≡ false

pub destroy-Destroyed : (d : VirtualDevice) (t : PortTable) → IsConsistent d t → Destroyed d t
unfolding destroy_device
destroy-Destroyed d t v = go (detach-IsConsistent d t v)
  where
    d1 : VirtualDevice
    d1 = (detach_device d).1

    go : IsConsistent d1 t → Destroyed d t
    go w = elim (Bool-cases d1.created) [
      | inr new ↦ record {
        device = d1;
        table = t;
        runs = ground (arith, new);
        consistent = w;
        gone = new;
      }
      | inl old ↦
          let (p, port, used) = w.holding old in
          let (t', released, free) = release_port-unlocked p t w.unlocked in
          record {
            device = record d1 { port_number = none; created = false };
            table = t';
            runs = ground (arith, old, port, released);
            consistent = destroyed-IsConsistent d1 t t' w (detach-down d) free;
            gone = refl;
          }
    ]

pub create-IsConsistent :
    {d d' : VirtualDevice} {t t' : PortTable} (info : UsbipDeviceInfo) (result : Bool)
    → IsConsistent d t
    → create_device d info t ≡ done (result, d', t')
    → IsConsistent d' t'
create-IsConsistent {d} {d'} {t} {t'} info result v e =
    elim (create_device-Creation d info t v.unlocked) [
      | was_created old r ↦ subst₂ IsConsistent (cc (e, r)) (cc (e, r)) v
      | no_port new r ↦
          subst₂ IsConsistent (cc (e, r)) (cc (e, r)) (created_none-IsConsistent d info t v new)
      | on_free p new is_free a r ↦
          subst₂ IsConsistent (cc (e, r)) (cc (e, r))
            (on_port-IsConsistent d info t p v new is_free)
    ]
