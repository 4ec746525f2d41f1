-- ===== src/Receiver/Restored.antt =====
-- Device lists that come one after the other, and then `Stop`: which ports are in use at the end.
use usb_lib.Prelude.{ℕ, ◌≡◌, ◌↔◌, refl, sym, subst, List, [], ◌∷◌, true, false, All}
use usb_lib.Usbip.{UsbipDeviceInfo}
use usb_lib.Client.Connection.Coherent.{IsCoherent}
use usb_lib.Ports.Alloc.{InUse}
use usb_lib.Receiver.{
  UsbReceiver, ImportCalls, ImportResult, returned, locked_up, sending, on_device_list_received,
}
use usb_lib.Receiver.Holdings.{
  Holds, NoneHolds, Fits, IsSettled, through, on_device_list_received-IsSettled,
}
use usb_lib.Receiver.Program.{Program, ended, stop}
use usb_lib.Receiver.Stop.{stop-IsStopped}

-- The responses to the requests for the device list, of which there is one at the start, one for
-- `--list` and one after each reconnection.
unfoldable pub receive_lists :
    UsbReceiver → List (List (UsbipDeviceInfo × ImportCalls)) → ImportResult
receive_lists r [] = returned true r
receive_lists r (list ∷ lists) = elim (on_device_list_received r list) [
  | returned result r' ↦ receive_lists r' lists
  | locked_up ↦ locked_up
  | sending ↦ sending
]

abbrev after_list : List (List (UsbipDeviceInfo × ImportCalls)) → ImportResult → ImportResult
after_list lists x = elim x [
  | returned result r' ↦ receive_lists r' lists
  | locked_up ↦ locked_up
  | sending ↦ sending
]

receive_lists-IsSettled :
    (r : UsbReceiver) (lists : List (List (UsbipDeviceInfo × ImportCalls)))
    → r.table.locked ≡ false
    → Holds r.table.usage r.virtual_devices
    → All (All Fits) lists
    → IsSettled r (receive_lists r lists)
unfolding receive_lists
receive_lists-IsSettled r [] free h fits = (r, refl, free, h, λ q. (λ u. u, λ u. u))
receive_lists-IsSettled r (list ∷ lists) free h (fit, fits) =
    let (r', e, free', h', f) = on_device_list_received-IsSettled r list free h fit in
    subst (λ (result : ImportResult). IsSettled r (after_list lists result)) (sym e)
      (through r r' _ f (receive_lists-IsSettled r' lists free' h' fits))

-- For a running receiver with a coherent client, the manager's mutex free, every virtual device created
-- and attached to a port of its own that is in use, and answers of `send` for every import request: any
-- number of device lists is handled, and the `Stop` that follows returns, with no virtual device left.
-- The ports that are then in use are those that were in use at the beginning and held by no virtual
-- device.
pub stop-receive_lists :
    (p : Program) (lists : List (List (UsbipDeviceInfo × ImportCalls)))
    → p.running ≡ true
    → IsCoherent p.client
    → p.receiver.table.locked ≡ false
    → Holds p.receiver.table.usage p.receiver.virtual_devices
    → All (All Fits) lists
    → (r : UsbReceiver) × (receive_lists p.receiver lists ≡ returned true r)
      × (let s = stop (record p { receiver = r }) in
          (s.1 ≡ ended true)
          × (s.0.receiver.virtual_devices ≡ [])
          × ((q : ℕ)
              → InUse s.0.receiver.table.usage q
                ↔ (InUse p.receiver.table.usage q × NoneHolds p.receiver.virtual_devices q)))
stop-receive_lists p lists on v free h fits =
    let (r, e, free', h', f) = receive_lists-IsSettled p.receiver lists free h fits in
    let s = stop-IsStopped (record p { receiver = r }) on v free' h' in
    (
      r,
      e,
      (
        s.returns_true,
        s.no_devices,
        λ q. (λ u. (f q).0 ((s.ports q).0 u), λ u. (s.ports q).1 ((f q).1 u)),
      ),
    )
