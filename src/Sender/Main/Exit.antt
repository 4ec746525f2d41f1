-- ===== src/Sender/Main/Exit.antt =====
-- With which code the sender exits, and what it leaves.
use usb_lib.Prelude.{
  ◌≡◌, inl, inr, refl, sym, ap, List, [], ◌∷◌, Bool, true, false, branch, arith, if◌then◌else◌,
  Bool-cases, ◌==◌, subst,
}
use usb_lib.Socket.{Event as SocketEvent, Outcome, returns, terminates, TcpSocket}
use usb_lib.Sender.Control.{
  UsbSender, StartCalls, initialize_sender, start, stop, starting_capture,
  scan_mass_storage_devices, monitored, after_listen,
}
use usb_lib.Sender.Manager.{ManagerResult, start_hotplug_monitoring}
use usb_lib.Sender.Main.{
  Event, Phase, constructing, initializing, starting, entering, looping, finishing, gone, aborted,
  Machine, TickCalls, go, begin_main, after_initialize, after_start, tick, signal_handler, ticks,
  signals, run,
}

-- Whether a signal comes where it meets a running sender.
unfoldable pub is_signalled : Machine → List Event → Bool
is_signalled m [] = false
is_signalled m (ticks c ∷ events) = is_signalled (tick m c) events
is_signalled m (signals ∷ events) =
    let rest = is_signalled (signal_handler m) events in if m.program.running then true else rest

-- Whether the exit code is 0, and whether `main` is in `Run`.
unfoldable pub ends_well : Phase → Bool
ends_well (finishing code) = code == 0
ends_well (gone code) = code == 0
ends_well phase = false

unfoldable is_in_run : Phase → Bool
is_in_run entering = true
is_in_run looping = true
is_in_run phase = false

-- The exit code is not 0, and a sender in its `Run` runs.
record IsOn (m : Machine) : Type 0 where
  not_ended : ends_well m.phase ≡ false
  runs : is_in_run m.phase ≡ true → m.program.running ≡ true

monitored_runs :
    (s : UsbSender) (r : ManagerResult)
    → (monitored s r).1 ≡ returns true
    → (monitored s r).0.running ≡ true
monitored_runs s (m, returns b, calls) e = refl
monitored_runs s (m, terminates, calls) e = cc

after_listen_runs :
    (s : UsbSender) (r : TcpSocket × Outcome × List SocketEvent) (c : StartCalls)
    → (after_listen s r c).1 ≡ returns true
    → (after_listen s r c).0.running ≡ true
unfolding after_listen
after_listen_runs s (t, terminates, events) c e = cc
after_listen_runs s (t, returns false, events) c e = cc
after_listen_runs s (t, returns true, events) c e =
    let s' = scan_mass_storage_devices (record s { tcp_server = t }) c in
    monitored_runs (record s' { urb_capture = starting_capture s'.urb_capture })
      (start_hotplug_monitoring s'.device_manager c.capable c.hotplug_answer) e

start_runs :
    (s : UsbSender) (c : StartCalls) → (start s c).1 ≡ returns true → (start s c).0.running ≡ true
unfolding start
start_runs s c =
    branch (λ (r : UsbSender × Outcome). r.1 ≡ returns true → r.0.running ≡ true) s.running _ _
      (λ on _. on) (λ _ e. after_listen_runs s _ c e)

pub stop_lem : (s : UsbSender) → s.running ≡ false → stop s ≡ s
unfolding stop
stop_lem s off = ground (arith, off)

pub signal_handler_lem : (m : Machine) → m.program.running ≡ false → signal_handler m ≡ m
unfolding signal_handler
signal_handler_lem m off = ground (arith, stop_lem m.program off)

after_initialize-IsOn : (r : UsbSender × Bool) → IsOn (after_initialize r)
unfolding after_initialize ends_well is_in_run
after_initialize-IsOn (s, true) = record { not_ended = refl; runs = λ e. cc }
after_initialize-IsOn (s, false) = record { not_ended = refl; runs = λ e. cc }

after_start-IsOn :
    (r : UsbSender × Outcome) → (r.1 ≡ returns true → r.0.running ≡ true) → IsOn (after_start r)
unfolding after_start ends_well is_in_run
after_start-IsOn (s, returns true) h = record { not_ended = refl; runs = λ _. h refl }
after_start-IsOn (s, returns false) h = record { not_ended = refl; runs = λ e. cc }
after_start-IsOn (s, terminates) h = record { not_ended = refl; runs = λ e. cc }

tick-IsOn :
    (c : TickCalls) (phase : Phase) (s : UsbSender) → IsOn (go phase s) → IsOn (tick (go phase s) c)
unfolding tick ends_well is_in_run
tick-IsOn c constructing s v = record { not_ended = refl; runs = λ e. cc }
tick-IsOn c initializing s v = after_initialize-IsOn (initialize_sender s c.libusb)
tick-IsOn c starting s v = after_start-IsOn (start s c.start_calls) (start_runs s c.start_calls)
tick-IsOn c entering s v = rw (v.runs refl) (record { not_ended = refl; runs = λ _. refl })
tick-IsOn c looping s v = rw (v.runs refl) (record { not_ended = refl; runs = λ _. refl })
tick-IsOn c (finishing code) s v = record { not_ended = v.not_ended; runs = λ e. cc }
tick-IsOn c (gone code) s v = v
tick-IsOn c aborted s v = v

run-IsOn :
    (m : Machine) (events : List Event)
    → IsOn m
    → is_signalled m events ≡ false
    → IsOn (run m events)
unfolding run is_signalled
run-IsOn m [] v calm = v
run-IsOn m (ticks c ∷ events) v calm =
    run-IsOn (tick m c) events (tick-IsOn c m.phase m.program v) calm
run-IsOn m (signals ∷ events) v calm = elim (Bool-cases m.program.running) [
  | inl on ↦ absurd (meets m.program.running on calm)
  | inr off ↦
      let same = signal_handler_lem m off in
      run-IsOn (signal_handler m) events (subst IsOn (sym same) v) (ground (arith, off, calm))
]
  where
    meets :
        (b : Bool)
        → b ≡ true
        → (if b then true else is_signalled (signal_handler m) events) ≡ false
        → ⊥
    meets true e f = cc
    meets false e f = cc

-- As long as no signal has met a running sender, `main` has not come to the exit code 0, whatever the
-- calls meet and however many signals came before or in `Start`, and a sender in its loop is running.
pub run-exit_code :
    (events : List Event)
    → is_signalled begin_main events ≡ false
    → (ends_well (run begin_main events).phase ≡ false)
      × ((run begin_main events).phase ≡ looping → (run begin_main events).program.running ≡ true)
unfolding is_in_run ends_well
run-exit_code events calm =
    let v = run-IsOn begin_main events (record { not_ended = refl; runs = λ e. cc }) calm in
    (v.not_ended, λ e. v.runs (ap is_in_run e))
