-- ===== src/Ports.antt =====
-- receiver/virtual_device/virtual_usb_device.cpp, the port part of the class UsbipManager. The manager's
-- mutex is not recursive: a member function that locks it while it is held never returns.
pub mod Alloc
use usb_lib.Prelude.{
  ℕ, zero, suc, ◌+◌, List, [], ◌∷◌, Bool, true, false, ◌&&◌, Option, none, some, ltb, if◌then◌else◌,
  length, set, replicate, arith,
}

-- `port_usage_`, and whether the calling thread holds the manager's mutex.
pub record PortTable : Type 0 where
  pub usage : List Bool
  pub locked : Bool

pub data Locking {ℓ} (A : Type ℓ) : Type ℓ where
  done : A → Locking A
  deadlock : Locking A

-- `port_usage_.resize(8, false)` of `Initialize`.
unfoldable pub initial_ports : PortTable
initial_ports = record { usage = replicate 8 false; locked = false }

-- The loop over the ports from index `i` on: the first free port is taken.
unfoldable pub take_first_free : ℕ → List Bool → Option ℕ × List Bool
take_first_free i [] = (none, [])
take_first_free i (true ∷ ports) =
    let (port, ports') = take_first_free (i + 1) ports in (port, true ∷ ports')
take_first_free i (false ∷ ports) = (some i, true ∷ ports)

-- `none` is the result -1.
unfoldable pub get_available_port : PortTable → Locking (Option ℕ × PortTable)
get_available_port t =
    if t.locked
    then deadlock
    else let (port, usage') = take_first_free 0 t.usage in done (port, record t { usage = usage' })

-- For a port that is not negative.
unfoldable pub release_port : ℕ → PortTable → Locking PortTable
release_port port t =
    if t.locked
    then deadlock
    else done (if ltb port (length t.usage) then record t { usage = set t.usage port false } else t)

unfoldable pub active_from : ℕ → List Bool → List ℕ
active_from i [] = []
active_from i (true ∷ ports) = i ∷ active_from (i + 1) ports
active_from i (false ∷ ports) = active_from (i + 1) ports

unfoldable pub get_active_ports : PortTable → Locking (List ℕ)
unfolding active_from
get_active_ports t = if t.locked then deadlock else done (active_from 0 t.usage)
