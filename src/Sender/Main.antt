-- ===== src/Sender/Main.antt =====
-- `main` of sender/main.cpp with the loop of `Run`, and its signal handler. A tick is what `main` does up
-- to the next point at which the model lets a signal come; the handler runs to its end before `main`
-- goes on. The statistics that a round of `Run` prints are left out.
pub mod Exit
pub mod Signalled
use usb_lib.Prelude.{ℕ, Option, List, [], ◌∷◌, Bool, true, false, if◌then◌else◌}
use usb_lib.Socket.{Outcome, returns, terminates}
use usb_lib.Sender.Control.{UsbSender, usb_sender, StartCalls, initialize_sender, start, stop}

-- Where `main` is. `finishing` has the exit code, with the static objects still to be destroyed; `gone`
-- is the end of the process.
pub data Phase : Type 0 where
  constructing : Phase  -- `g_sender` is empty
  initializing : Phase  -- before `Initialize`
  starting : Phase  -- before `Start`
  entering : Phase  -- before the test at the beginning of `Run`
  looping : Phase  -- in the loop of `Run`
  finishing : ℕ → Phase
  gone : ℕ → Phase
  aborted : Phase  -- `std::terminate`

pub record Machine : Type 0 where
  pub phase : Phase
  pub program : UsbSender

abbrev pub go : Phase → UsbSender → Machine
go phase s = record { phase = phase; program = s }

abbrev pub begin_main : Machine
begin_main = go constructing usb_sender

-- What a tick meets: whether libusb could be initialized, and the calls of `Start`.
pub record TickCalls : Type 0 where
  pub libusb : Option ℕ
  pub start_calls : StartCalls

unfoldable pub after_initialize : UsbSender × Bool → Machine
after_initialize (s, true) = go starting s
after_initialize (s, false) = go (finishing 1) s

unfoldable pub after_start : UsbSender × Outcome → Machine
after_start (s, returns true) = go entering s
after_start (s, returns false) = go (finishing 1) s
after_start (s, terminates) = go aborted s

-- A round of `Run` tests the flag once, at its beginning too.
unfoldable pub tick : Machine → TickCalls → Machine
unfolding after_initialize after_start
tick m c = elim (m.phase) [
  | constructing ↦ go initializing m.program
  | initializing ↦ after_initialize (initialize_sender m.program c.libusb)
  | starting ↦ after_start (start m.program c.start_calls)
  | entering ↦ if m.program.running then go looping m.program else go (finishing 0) m.program
  | looping ↦ if m.program.running then go looping m.program else go (finishing 0) m.program
  | finishing code ↦ go (gone code) (stop m.program)
  | gone code ↦ m
  | aborted ↦ m
]

-- SIGINT or SIGTERM, where the process is still there.
unfoldable pub signal_handler : Machine → Machine
signal_handler m = elim (m.phase) [
  | constructing ↦ m
  | gone code ↦ m
  | aborted ↦ m
  | initializing ↦ go initializing (stop m.program)
  | starting ↦ go starting (stop m.program)
  | entering ↦ go entering (stop m.program)
  | looping ↦ go looping (stop m.program)
  | finishing code ↦ go (finishing code) (stop m.program)
]

pub data Event : Type 0 where
  ticks : TickCalls → Event
  signals : Event

unfoldable pub run : Machine → List Event → Machine
unfolding tick signal_handler
run m [] = m
run m (ticks c ∷ events) = run (tick m c) events
run m (signals ∷ events) = run (signal_handler m) events
