-- ===== src/Receiver/Stop.antt =====
-- `UsbReceiver::Stop`: what becomes of the virtual devices, their ports and the connection.
use usb_lib.Prelude.{
  ℕ, zero, suc, ◌≡◌, ◌≢◌, ◌↔◌, ◌⊎◌, inl, inr, refl, sym, ap, ◌∙◌, List, [], ◌∷◌, Bool, true, false,
  not, Option, none, some, arith, set, length, branch, lt→ltb,
}
use usb_lib.Socket.{TcpSocket, Outcome, returns, terminates, close}
use usb_lib.Client.Connection.{UsbipClient, stop_heartbeat, disconnect}
use usb_lib.Client.Connection.Events.{close_socket_lem, offline}
use usb_lib.Client.Connection.Coherent.{IsCoherent, IsSafe, disconnect-IsSafe}
use usb_lib.Ports.{PortTable, Locking, done, deadlock, release_port}
use usb_lib.Ports.Alloc.{InUse, free_in_range}
use usb_lib.Virtual.{VirtualDevice, detach_device, destroy_device}
use usb_lib.Virtual.Lifecycle.{destroy_held}
use usb_lib.Virtual.Manager.{UsbipManager, cleanup_manager}
use usb_lib.Receiver.Holdings.{Holds, NoneHolds}
use usb_lib.Receiver.Program.{
  Program, ProgramOutcome, ended, detach_all, destroy_all, after_disconnect, after_destroy, stop,
}

InUse-set_clear :
    (ports : List Bool) (p q : ℕ) → InUse (set ports p false) q → InUse ports q × (some p ≢ some q)
InUse-set_clear [] p q u = cc
InUse-set_clear (b ∷ ports) zero zero u = cc
InUse-set_clear (b ∷ ports) zero (suc q) u = (u, λ e. cc)
InUse-set_clear (b ∷ ports) (suc p) zero u = (u, λ e. cc)
InUse-set_clear (b ∷ ports) (suc p) (suc q) u =
    let (v, ne) = InUse-set_clear ports p q u in (v, λ e. ne (ground (arith, e)))

InUse→set_clear :
    (ports : List Bool) (p q : ℕ) → InUse ports q → some p ≢ some q → InUse (set ports p false) q
InUse→set_clear [] p q u ne = u
InUse→set_clear (b ∷ ports) zero zero u ne = absurd (ne refl)
InUse→set_clear (b ∷ ports) zero (suc q) u ne = u
InUse→set_clear (b ∷ ports) (suc p) zero u ne = u
InUse→set_clear (b ∷ ports) (suc p) (suc q) u ne =
    InUse→set_clear ports p q u
      (λ e. ne (ap (λ (o : Option ℕ). elim o [ none ↦ none | some n ↦ some (suc n) ]) e))

Holds-set_clear :
    (usage : List Bool) (p : ℕ) (ds : List VirtualDevice)
    → NoneHolds ds p
    → Holds usage ds
    → Holds (set usage p false) ds
Holds-set_clear usage p [] away h = tt
Holds-set_clear usage p (d ∷ ds) (ne, away) (made, up, (q, port, used, others), h) = (
  made,
  up,
  (q, port, InUse→set_clear usage p q used (λ e. ne (port ∙ sym e)), others),
  Holds-set_clear usage p ds away h,
)

release_used :
    (t : PortTable) (p : ℕ)
    → t.locked ≡ false
    → InUse t.usage p
    → release_port p t ≡ done (record t { usage = set t.usage p false })
unfolding release_port
release_used t p free used =
    let inside = lt→ltb p (length t.usage) (free_in_range t.usage p true used) in
    rw (free, inside) refl

detach_keeps :
    (d : VirtualDevice)
    → ((detach_device d).1.created ≡ d.created) × ((detach_device d).1.port_number ≡ d.port_number)
unfolding detach_device
detach_keeps d = ground arith

-- Exactly the ports of the devices are given back.
abbrev pub Freed : PortTable → List VirtualDevice → PortTable → Type 0
Freed t ds t' = (q : ℕ) → InUse t'.usage q ↔ (InUse t.usage q × NoneHolds ds q)

destroy_first :
    (d : VirtualDevice) (t : PortTable) (p : ℕ)
    → t.locked ≡ false
    → d.created ≡ true
    → d.port_number ≡ some p
    → InUse t.usage p
    → (d' : VirtualDevice) × (destroy_device (detach_device d).1 t
        ≡ done (d', record t { usage = set t.usage p false }))
destroy_first d t p free made port used =
    let x = (detach_device d).1 in
    let (same_created, same_port) = detach_keeps d in
    (
      record (detach_device x).1 { port_number = none; created = false },
      destroy_held x (record t { usage = set t.usage p false }) t p (same_created ∙ made)
          (same_port ∙ port) (release_used t p free used),
    )

pub destroy_all-Freed :
    (ds : List VirtualDevice) (t : PortTable)
    → t.locked ≡ false
    → Holds t.usage ds
    → (t' : PortTable) × (destroy_all (detach_all ds) t ≡ done t')
      × (t'.locked ≡ false)
      × Freed t ds t'
unfolding destroy_all detach_all
destroy_all-Freed [] t free h = (t, refl, free, λ q. (λ u. (u, tt), λ u. u.0))
destroy_all-Freed (d ∷ ds) t free (made, up, (p, port, used, others), h) =
    let t1 = record t { usage = set t.usage p false } in
    let (d', gone) = destroy_first d t p free made port used in
    let (t', e, free', freed) =
      destroy_all-Freed ds t1 free (Holds-set_clear t.usage p ds others h) in
    (
      t',
      ap
            (λ (l : Locking (VirtualDevice × PortTable)). elim l [
              | deadlock ↦ deadlock
              | done (x, u) ↦ destroy_all (detach_all ds) u
            ])
            gone
          ∙ e,
      free',
      λ q. (there q (freed q).0, back q (freed q).1),
    )
  where
    there :
        (q : ℕ) {U : Type 0}
        → (U → InUse (set t.usage p false) q × NoneHolds ds q)
        → U
        → InUse t.usage q × NoneHolds (d ∷ ds) q
    there q f u =
        let (v, away) = f u in
        let (w, ne) = InUse-set_clear t.usage p q v in (w, ((λ e. ne (sym port ∙ e)), away))

    back :
        (q : ℕ) {U : Type 0}
        → (InUse (set t.usage p false) q × NoneHolds ds q → U)
        → InUse t.usage q × NoneHolds (d ∷ ds) q
        → U
    back q f (u, (ne, away)) = f (InUse→set_clear t.usage p q u (λ e. ne (port ∙ e)), away)

-- A disconnection that the process survives leaves the client without a connection.
disconnect-down : (c : UsbipClient) → IsCoherent c → (disconnect c).0.connected ≡ false
unfolding disconnect
disconnect-down c v =
    branch (λ (r : UsbipClient × Outcome). r.0.connected ≡ false) (not c.connected) _ _
      (λ off. ground (arith, off)) (λ _. rw (close_socket_lem (stop_heartbeat c)) refl)

-- A connection that the client knows of is closed, and its threads are joined.
pub record IsHungUp (c' : UsbipClient) : Type 0 where
  pub fd_closed : c'.socket.socket_fd ≡ none
  pub received : c'.socket.receive_thread ≡ false
  pub beaten : c'.heartbeat_thread ≡ false

abbrev pub HangsUp : UsbipClient → UsbipClient → Type 0
HangsUp c c' = ((c.connected ≡ true) × IsHungUp c') ⊎ ((c.connected ≡ false) × (c' ≡ c))

stop_heartbeat-joined :
    (c : UsbipClient) → IsCoherent c → (stop_heartbeat c).heartbeat_thread ≡ false
unfolding stop_heartbeat
stop_heartbeat-joined c v = ground (arith, v.thread_flag)

offline-joined :
    (c : UsbipClient) (s : TcpSocket)
    → c.heartbeat_thread ≡ false
    → (offline c s).heartbeat_thread ≡ false
unfolding stop_heartbeat
offline-joined c s e = ground (arith, e)

offline-socket : (c : UsbipClient) (s : TcpSocket) → (offline c s).socket ≡ s
unfolding stop_heartbeat
offline-socket c s = ground arith

disconnect-HangsUp : (c : UsbipClient) → IsCoherent c → HangsUp c (disconnect c).0
unfolding disconnect close
disconnect-HangsUp c v =
    branch (λ (r : UsbipClient × Outcome). HangsUp c r.0) (not c.connected) _ _
      (λ off. inr (ground (arith, off), refl))
      (λ on. inl (
        ground (arith, on),
        rw (close_socket_lem (stop_heartbeat c)) (record {
          fd_closed = ap (λ (s : TcpSocket). s.socket_fd) (offline-socket (stop_heartbeat c) _);
          received = ap (λ (s : TcpSocket). s.receive_thread) (offline-socket (stop_heartbeat c) _);
          beaten = offline-joined (stop_heartbeat c) _ (stop_heartbeat-joined c v);
        }),
      ))

-- What `Stop` leaves of a receiver.
pub record IsStopped (p : Program) (r : Program × ProgramOutcome) : Type 0 where
  pub returns_true : r.1 ≡ ended true
  pub halted : r.0.running ≡ false
  pub no_devices : r.0.receiver.virtual_devices ≡ []
  pub unlocked : r.0.receiver.table.locked ≡ false
  pub ports : Freed p.receiver.table p.receiver.virtual_devices r.0.receiver.table
  pub disconnected : r.0.client.connected ≡ false
  pub hung_up : HangsUp p.client r.0.client
  pub client_coherent : IsCoherent r.0.client
  pub manager_clean : r.0.manager_initialized ≡ false

cleanup-clean : (m : UsbipManager) → (cleanup_manager m).initialized ≡ false
unfolding cleanup_manager
cleanup-clean m =
    branch (λ (n : UsbipManager). n.initialized ≡ false) (not m.initialized) _ _
      (λ off. ground (arith, off)) (λ _. refl)

disconnected-IsStopped :
    (p : Program) (t : PortTable) (r : UsbipClient × Outcome)
    → t.locked ≡ false
    → Freed p.receiver.table p.receiver.virtual_devices t
    → IsSafe r
    → r.0.connected ≡ false
    → HangsUp p.client r.0
    → IsStopped p (
        after_disconnect
          (record p {
            running = false;
            receiver = record (p.receiver) { virtual_devices = []; table = t };
          })
          r)
unfolding after_disconnect
disconnected-IsStopped p t (client, terminates) free freed (v, bad) down hung = absurd (bad refl)
disconnected-IsStopped p t (client, returns b) free freed (v, _) down hung = record {
  returns_true = refl;
  halted = refl;
  no_devices = refl;
  unlocked = free;
  ports = freed;
  disconnected = down;
  hung_up = hung;
  client_coherent = v;
  manager_clean = cleanup-clean _;
}

-- For a running receiver with a coherent client, the manager's mutex free and every virtual device
-- created and attached to a port of its own that is in use, `Stop` returns, provided that the joins of the
-- socket's `Close` do. No virtual device is left, exactly their ports are free again, the manager is not
-- initialized, and the client does not say that it is connected. If it did before, its descriptor is
-- closed and its receive and heartbeat threads are joined; if it did not, it is left as it was, with an
-- open descriptor or a heartbeat thread if it had one.
pub stop-IsStopped :
    (p : Program)
    → p.running ≡ true
    → IsCoherent p.client
    → p.receiver.table.locked ≡ false
    → Holds p.receiver.table.usage p.receiver.virtual_devices
    → IsStopped p (stop p)
unfolding stop after_destroy
stop-IsStopped p on v free h =
    let (t, e, unlocked, freed) =
      destroy_all-Freed p.receiver.virtual_devices p.receiver.table free h in
    branch (IsStopped p) (not p.running) _ _ (λ off. absurd (ground (arith, on, off)))
      (λ _. rw e (
        disconnected-IsStopped p t (disconnect p.client) unlocked freed
          (disconnect-IsSafe p.client v) (disconnect-down p.client v)
          (disconnect-HangsUp p.client v)))
