-- ===== src/Receiver/Main/Signalled.antt =====
-- What a signal makes of a running receiver.
use usb_lib.Prelude.{◌≡◌, [], Bool, true, false, ◌&&◌, not, none, ◌⊎◌, arith}
use usb_lib.Socket.{close}
use usb_lib.Client.Connection.{UsbipClient, close_socket, stop_heartbeat}
use usb_lib.Client.Connection.Events.{close_socket_lem}
use usb_lib.Receiver.Options.{Options}
use usb_lib.Receiver.Program.{Program, destroy_receiver}
use usb_lib.Receiver.Main.{gone, aborted, after_call, Machine}

-- The last tick.
abbrev destroyed : Program → Machine
destroyed q = after_call (gone 0) (gone 0) (destroy_receiver q)

-- The client that `Stop` leaves alone, with its heartbeat thread.
abbrev pub is_left_beating : UsbipClient → Bool
is_left_beating c = not c.connected && c.heartbeat_thread

-- How the process ends.
abbrev pub Ended : Program → Machine → Type 0
Ended p m =
    ((is_left_beating p.client ≡ true) × (m.phase ≡ aborted))
    ⊎ ((is_left_beating p.client ≡ false)
        × (m.phase ≡ gone 0)
        × (m.program.client.socket.socket_fd ≡ none))

abbrev emptied : Program → Program
emptied q = record q { receiver = record (q.receiver) { virtual_devices = [] } }

closed-fd : (c : UsbipClient) → (close_socket c).0.socket.socket_fd ≡ none
closed-fd c = rw (close_socket_lem c) (unfold stop_heartbeat close in ground arith)
