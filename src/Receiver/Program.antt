-- ===== src/Receiver/Program.antt =====
-- receiver/main.cpp: how UsbReceiver starts, goes on and stops. Beside the virtual devices it has the
-- flag, the server's address and the client; the manager is the process's only one.
use usb_lib.Prelude.{
  ℕ, List, [], ◌∷◌, Bool, true, false, not, Option, none, some, ◌==◌, if◌then◌else◌, length,
}
use usb_lib.Words.{Bytes}
use usb_lib.Socket.{
  ConnectCalls, Outcome, returns, terminates, SendAnswer, SendState, finished, waiting,
}
use usb_lib.Client.Connection.{
  UsbipClient, connect_client, disconnect, continue, close_socket, request_device_list,
  import_device, after_list_request,
}
use usb_lib.Ports.{PortTable, Locking, done, deadlock}
use usb_lib.Virtual.{VirtualDevice, detach_device, destroy_device}
use usb_lib.Virtual.Manager.{UsbipManager, initialize, cleanup_manager}
use usb_lib.Receiver.{UsbReceiver}

-- The ports of the manager are those of the receiver's devices.
pub record Program : Type 0 where
  pub running : Bool
  pub server_host : Bytes
  pub server_port : ℕ
  pub client : UsbipClient
  pub receiver : UsbReceiver
  pub manager_initialized : Bool

-- What a function does to its caller: it returns, terminates the process, waits for a mutex for ever,
-- or is still in the loop of `Send` when the answers are used up.
pub data ProgramOutcome : Type 0 where
  ended : Bool → ProgramOutcome
  crashed locked_up sending : ProgramOutcome

-- What a connection attempt and the request behind it meet.
pub record LinkCalls : Type 0 where
  pub connect_calls : ConnectCalls
  pub ends : ℕ → Bool
  pub answers : List SendAnswer

-- The manager as the receiver uses it: its own list of devices stays empty.
abbrev manager_of : Program → UsbipManager
manager_of p = record {
  table = p.receiver.table;
  initialized = p.manager_initialized;
  virtual_devices = [];
}

-- `modprobe` says whether the kernel module could be loaded.
unfoldable pub initialize_receiver : Program → Bool → Program × Bool
initialize_receiver p modprobe =
    let (ok, m) = initialize (manager_of p) modprobe in
    (
      record p {
        manager_initialized = m.initialized;
        receiver = record (p.receiver) { table = m.table };
      },
      ok,
    )

-- An empty host and the port 0 leave the address as it is.
unfoldable pub addressed : Program → Bytes → ℕ → Program
addressed p host port = record p {
  server_host = if length host == 0 then p.server_host else host;
  server_port = if port == 0 then p.server_port else port;
}

abbrev pub numbered : Program → ℕ → Program
numbered p seq = record p { receiver = record (p.receiver) { next_sequence = seq } }

-- `Start` behind the request for the device list.
unfoldable pub after_request : Program → (SendState × Bytes) × ℕ → Program × ProgramOutcome
after_request p ((waiting, wire), seq) = (numbered p seq, sending)
after_request p ((finished false, wire), seq) = (numbered p seq, ended false)
after_request p ((finished true, wire), seq) =
    (record (numbered p seq) { running = true }, ended true)

-- `Start` behind the connection attempt.
unfoldable pub after_connection :
    Program → LinkCalls → UsbipClient × Outcome → Program × ProgramOutcome
unfolding after_request
after_connection p c (client, terminates) = (record p { client = client }, crashed)
after_connection p c (client, returns false) = (record p { client = client }, ended false)
after_connection p c (client, returns true) =
    after_request
      (record p { client = after_list_request client p.receiver.next_sequence c.answers })
      (request_device_list client p.receiver.next_sequence c.answers)

unfoldable pub start : Program → Bytes → ℕ → LinkCalls → Program × ProgramOutcome
unfolding after_connection addressed
start p host port c =
    let p' = addressed p host port in
    if p.running
    then (p, ended true)
    else after_connection p' c
        (connect_client p.client p'.server_host p'.server_port c.connect_calls c.ends)

-- The request of a round of `Run`, whose result is not looked at.
unfoldable pub after_reconnection :
    Program → LinkCalls → UsbipClient × Outcome → Program × ProgramOutcome
after_reconnection p c (client, terminates) = (record p { client = client }, crashed)
after_reconnection p c (client, returns false) = (record p { client = client }, ended true)
after_reconnection p c (client, returns true) =
    let p' = record p { client = after_list_request client p.receiver.next_sequence c.answers } in
    let ((state, wire), seq) = request_device_list client p.receiver.next_sequence c.answers in
    elim state [ waiting ↦ (numbered p' seq, sending) | finished b ↦ (numbered p' seq, ended true) ]

-- A round of the loop of `Run`: `ended false` if it leaves the loop.
unfoldable pub run_round : Program → LinkCalls → Program × ProgramOutcome
unfolding after_reconnection
run_round p c =
    if not p.running
    then (p, ended false)
    else if p.client.connected
    then (p, ended true)
    else after_reconnection p c
        (connect_client p.client p.server_host p.server_port c.connect_calls c.ends)

-- `ImportDevice` and `ListDevices`; `none` if the client is not connected.
unfoldable pub import_by_hand : Program → Bytes → List SendAnswer → Option ((SendState × Bytes) × ℕ)
import_by_hand p bus_id answers =
    if not p.client.connected
    then none
    else some (import_device p.client bus_id p.receiver.next_sequence answers)

unfoldable pub list_devices : Program → List SendAnswer → Option ((SendState × Bytes) × ℕ)
list_devices p answers =
    if not p.client.connected
    then none
    else some (request_device_list p.client p.receiver.next_sequence answers)

-- The loop of `Stop` over the devices, and the destructors that `clear` runs.
unfoldable pub detach_all : List VirtualDevice → List VirtualDevice
detach_all [] = []
detach_all (d ∷ ds) = (detach_device d).1 ∷ detach_all ds

unfoldable pub destroy_all : List VirtualDevice → PortTable → Locking PortTable
destroy_all [] t = done t
destroy_all (d ∷ ds) t = elim (destroy_device d t) [
  | deadlock ↦ deadlock
  | done (d', t') ↦ destroy_all ds t'
]

-- `Stop` behind the disconnection.
unfoldable pub after_disconnect : Program → UsbipClient × Outcome → Program × ProgramOutcome
after_disconnect p (client, terminates) = (record p { client = client }, crashed)
after_disconnect p (client, returns b) = (
  record p { client = client; manager_initialized = (cleanup_manager (manager_of p)).initialized },
  ended true,
)

unfoldable pub after_destroy : Program → Locking PortTable → Program × ProgramOutcome
unfolding after_disconnect
after_destroy p deadlock = (p, locked_up)
after_destroy p (done t) =
    after_disconnect
      (record p { receiver = record (p.receiver) { virtual_devices = []; table = t } })
      (disconnect p.client)

unfoldable pub stop : Program → Program × ProgramOutcome
unfolding after_destroy detach_all destroy_all
stop p =
    if not p.running
    then (p, ended true)
    else after_destroy (record p { running = false })
        (destroy_all (detach_all p.receiver.virtual_devices) p.receiver.table)

-- The destructor of UsbipClient and those of its members: a joinable heartbeat thread terminates the
-- process, and the socket is closed after it.
unfoldable pub destroy_client : UsbipClient → UsbipClient × Outcome
unfolding disconnect close_socket
destroy_client c =
    continue (disconnect c)
      (λ c'. if c'.heartbeat_thread then (c', terminates) else close_socket c')

unfoldable pub client_destroyed : Program → UsbipClient × Outcome → Program × ProgramOutcome
client_destroyed p (client, terminates) = (record p { client = client }, crashed)
client_destroyed p (client, returns b) = (record p { client = client }, ended true)

-- The virtual devices that `Stop` has left are destroyed before the client.
unfoldable pub members_destroyed : Program → Locking PortTable → Program × ProgramOutcome
unfolding client_destroyed destroy_client
members_destroyed p deadlock = (p, locked_up)
members_destroyed p (done t) =
    client_destroyed
      (record p { receiver = record (p.receiver) { virtual_devices = []; table = t } })
      (destroy_client p.client)

unfoldable pub after_stop : Program × ProgramOutcome → Program × ProgramOutcome
unfolding members_destroyed destroy_all
after_stop (p, crashed) = (p, crashed)
after_stop (p, locked_up) = (p, locked_up)
after_stop (p, sending) = (p, sending)
after_stop (p, ended b) =
    members_destroyed p (destroy_all p.receiver.virtual_devices p.receiver.table)

-- The destructor of UsbReceiver and those of its members.
unfoldable pub destroy_receiver : Program → Program × ProgramOutcome
unfolding stop after_stop
destroy_receiver p = after_stop (stop p)
