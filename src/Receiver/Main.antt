-- ===== src/Receiver/Main.antt =====
-- `main` of receiver/main.cpp and its signal handler. A tick is what `main` does up to the next point
-- at which the model lets a signal come; the handler runs to its end before `main` goes on. The parts of
-- `Start` are ticks of their own, a round of `Run` is one tick.
pub mod Signals
pub mod Signalled
use usb_lib.Prelude.{
  ℕ, List, [], ◌∷◌, Bool, true, false, not, Option, none, some, if◌then◌else◌, length, ◌==◌,
}
use usb_lib.Words.{Bytes}
use usb_lib.Text.{codes}
use usb_lib.Socket.{Outcome, returns, terminates, SendAnswer, SendState, finished, waiting}
use usb_lib.Client.Connection.{
  UsbipClient, usbip_client, connect_client, request_device_list, after_list_request,
  after_import_request,
}
use usb_lib.Virtual.Manager.{usbip_manager}
use usb_lib.Receiver.Options.{Options, Parsed, parsed, helped, refused, thrown}
use usb_lib.Receiver.Program.{
  Program, ProgramOutcome, ended, crashed, locked_up, sending, LinkCalls, numbered, addressed,
  initialize_receiver, run_round, import_by_hand, list_devices, stop, destroy_receiver,
}

-- Where `main` is, behind the command line. `finishing` has the exit code, with the static objects
-- still to be destroyed; `gone` is the end of the process.
pub data Phase : Type 0 where
  constructing : Phase  -- `g_receiver` is empty
  initializing : Phase  -- before `Initialize`
  connecting : Phase  -- before the connection of `Start`
  requesting : Phase  -- before its request for the device list
  marking : Phase  -- before its `running_ = true`
  acting : Phase  -- behind `Start`
  looping : Phase  -- in the loop of `Run`
  finishing : ℕ → Phase
  gone : ℕ → Phase
  aborted : Phase  -- `std::terminate`
  hung : Phase  -- waits for a mutex for ever
  in_send : Phase  -- still in the loop of `Send` when the answers are used up

pub record Machine : Type 0 where
  pub phase : Phase
  pub program : Program

-- What a tick meets: whether the kernel module could be loaded, the network, and the answers for a
-- request by hand.
pub record TickCalls : Type 0 where
  pub modprobe : Bool
  pub link : LinkCalls
  pub answers : List SendAnswer

-- The constructor of UsbReceiver; the manager is as the process begins, and `sequence` is the counter
-- of the messages.
unfoldable pub usb_receiver : ℕ → Program
unfolding usbip_manager
usb_receiver sequence = record {
  running = false;
  server_host = codes "127.0.0.1";
  server_port = 3240;
  client = usbip_client;
  receiver = record { virtual_devices = []; table = usbip_manager.table; next_sequence = sequence };
  manager_initialized = false;
}

abbrev pub go : Phase → Program → Machine
go phase p = record { phase = phase; program = p }

-- The test of the options' outcome: `main` returns, or goes on, or an exception leaves it.
unfoldable pub begin_main : Parsed → ℕ → Machine
begin_main (parsed o) sequence = go constructing (usb_receiver sequence)
begin_main helped sequence = go (gone 0) (usb_receiver sequence)
begin_main refused sequence = go (gone 1) (usb_receiver sequence)
begin_main thrown sequence = go aborted (usb_receiver sequence)

unfoldable pub after_initialize : Program × Bool → Machine
after_initialize (p, true) = go connecting p
after_initialize (p, false) = go (finishing 1) p

unfoldable pub connected_as : Program → UsbipClient × Outcome → Machine
connected_as p (client, terminates) = go aborted (record p { client = client })
connected_as p (client, returns false) = go (finishing 1) (record p { client = client })
connected_as p (client, returns true) = go requesting (record p { client = client })

unfoldable pub requested_as : Program → (SendState × Bytes) × ℕ → Machine
requested_as p ((waiting, wire), seq) = go in_send (numbered p seq)
requested_as p ((finished false, wire), seq) = go (finishing 1) (numbered p seq)
requested_as p ((finished true, wire), seq) = go marking (numbered p seq)

-- The program whose client has sent a request.
abbrev pub asked : Program → List SendAnswer → Program
asked p answers = record p {
  client = after_list_request (p.client) (p.receiver.next_sequence) answers;
}

abbrev pub asked_for : Program → Bytes → List SendAnswer → Program
asked_for p bus_id answers = record p {
  client = after_import_request (p.client) bus_id (p.receiver.next_sequence) answers;
}

-- `--list`: the answer is only logged, whatever became of the request.
unfoldable pub listed_as : Program → Option ((SendState × Bytes) × ℕ) → Machine
listed_as p none = go (finishing 0) p
listed_as p (some ((waiting, wire), seq)) = go in_send (numbered p seq)
listed_as p (some ((finished b, wire), seq)) = go (finishing 0) (numbered p seq)

-- `--import`: the exit code says whether the request went out.
unfoldable pub imported_as : Program → Option ((SendState × Bytes) × ℕ) → Machine
imported_as p none = go (finishing 1) p
imported_as p (some ((waiting, wire), seq)) = go in_send (numbered p seq)
imported_as p (some ((finished b, wire), seq)) =
    go (finishing (if b then 0 else 1)) (numbered p seq)

-- What a call by the given phase comes to.
unfoldable pub outcome_phase : Phase → Phase → ProgramOutcome → Phase
outcome_phase on_true on_false (ended true) = on_true
outcome_phase on_true on_false (ended false) = on_false
outcome_phase on_true on_false crashed = aborted
outcome_phase on_true on_false locked_up = hung
outcome_phase on_true on_false sending = in_send

abbrev pub after_call : Phase → Phase → Program × ProgramOutcome → Machine
after_call on_true on_false (p, outcome) = go (outcome_phase on_true on_false outcome) p

-- Behind `Start`.
unfoldable pub act : Options → Program → List SendAnswer → Machine
unfolding listed_as imported_as
act o p answers =
    if o.list_only
    then listed_as (asked p answers) (list_devices p answers)
    else if not (length o.import_device == 0)
    then imported_as (asked_for p o.import_device answers)
        (import_by_hand p o.import_device answers)
    else if p.running
    then go looping p
    else go (finishing 0) p

-- The connection of `Start`.
unfoldable pub start_connection : Options → Program → LinkCalls → Machine
unfolding connected_as addressed
start_connection o p c =
    let p' = addressed p o.host o.port in
    if p.running
    then go acting p
    else connected_as p'
        (connect_client p.client p'.server_host p'.server_port c.connect_calls c.ends)

unfoldable pub tick : Options → Machine → TickCalls → Machine
unfolding after_initialize start_connection requested_as act outcome_phase
tick o m c = elim (m.phase) [
  | constructing ↦ go initializing m.program
  | initializing ↦ after_initialize (initialize_receiver m.program c.modprobe)
  | connecting ↦ start_connection o m.program c.link
  | requesting ↦
      requested_as (asked m.program c.link.answers)
        (request_device_list m.program.client m.program.receiver.next_sequence c.link.answers)
  | marking ↦ go acting (record (m.program) { running = true })
  | acting ↦ act o m.program c.answers
  | looping ↦ after_call looping (finishing 0) (run_round m.program c.link)
  | finishing code ↦ after_call (gone code) (gone code) (destroy_receiver m.program)
  | gone code ↦ m
  | aborted ↦ m
  | hung ↦ m
  | in_send ↦ m
]

-- SIGINT or SIGTERM, where the process is still there.
unfoldable pub signal_handler : Machine → Machine
unfolding outcome_phase
signal_handler m = elim (m.phase) [
  | constructing ↦ m
  | gone code ↦ m
  | aborted ↦ m
  | hung ↦ m
  | initializing ↦ after_call initializing initializing (stop m.program)
  | connecting ↦ after_call connecting connecting (stop m.program)
  | requesting ↦ after_call requesting requesting (stop m.program)
  | marking ↦ after_call marking marking (stop m.program)
  | acting ↦ after_call acting acting (stop m.program)
  | looping ↦ after_call looping looping (stop m.program)
  | finishing code ↦ after_call (finishing code) (finishing code) (stop m.program)
  | in_send ↦ after_call in_send in_send (stop m.program)
]

pub data Event : Type 0 where
  ticks : TickCalls → Event
  signals : Event

unfoldable pub run : Options → Machine → List Event → Machine
unfolding tick signal_handler
run o m [] = m
run o m (ticks c ∷ events) = run o (tick o m c) events
run o m (signals ∷ events) = run o (signal_handler m) events
