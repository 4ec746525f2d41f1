-- ===== src/Sender/Main/Signalled.antt =====
-- What a signal makes of a running sender.
use usb_lib.Prelude.{
  ℕ, zero, suc, ◌≡◌, refl, sym, ap, ◌∙◌, List, [], ◌∷◌, true, false, branch, arith, replicate, ◌++◌,
  not, subst,
}
use usb_lib.Socket.{close, is_open}
use usb_lib.Capture.{UrbCapture}
use usb_lib.Sender.Control.{UsbSender, stop, stopping_capture}
use usb_lib.Sender.Manager.{UsbDeviceManager, stop_hotplug_monitoring}
use usb_lib.Sender.Main.{
  Event, looping, finishing, gone, Machine, TickCalls, go, tick, signal_handler, ticks, signals,
  run,
}
use usb_lib.Sender.Main.Exit.{stop_lem, signal_handler_lem}

-- What `Stop` leaves of a running sender.
pub record IsStopped (s t : UsbSender) : Type 0 where
  pub halted : t.running ≡ false
  pub no_devices : t.mass_storage_devices ≡ []
  pub captures_nothing : t.urb_capture.capturing ≡ false
  pub disconnected : t.tcp_server.is_connected ≡ false
  pub not_listening : t.tcp_server.is_listening ≡ false
  pub closed : is_open t.tcp_server ≡ false
  pub no_clients : t.tcp_server.client_fds ≡ []
  pub unmonitored : t.device_manager.monitoring ≡ false
  pub queue_kept : t.urb_capture.urb_queue ≡ s.urb_capture.urb_queue

stop_hotplug_lem : (m : UsbDeviceManager) → (stop_hotplug_monitoring m).0.monitoring ≡ false
unfolding stop_hotplug_monitoring
stop_hotplug_lem m = ground arith

stopping_capture_lem :
    (c : UrbCapture)
    → ((stopping_capture c).capturing ≡ false) × ((stopping_capture c).urb_queue ≡ c.urb_queue)
stopping_capture_lem c = ground arith

stop-IsStopped : (s : UsbSender) → s.running ≡ true → IsStopped s (stop s)
unfolding stop close
stop-IsStopped s on =
    branch (IsStopped s) (not s.running) _ _ (λ off. absurd (ground (arith, on, off)))
      (λ _. record {
        halted = refl;
        no_devices = refl;
        captures_nothing = (stopping_capture_lem s.urb_capture).0;
        disconnected = refl;
        not_listening = refl;
        closed = refl;
        no_clients = refl;
        unmonitored = stop_hotplug_lem s.device_manager;
        queue_kept = (stopping_capture_lem s.urb_capture).1;
      })

run_signal :
    (m : Machine) (events : List Event) → run m (signals ∷ events) ≡ run (signal_handler m) events
unfolding run
run_signal m events = refl

run-tick :
    (m : Machine) (c : TickCalls) (events : List Event)
    → run m (ticks c ∷ events) ≡ run (tick m c) events
unfolding run
run-tick m c events = refl

run_nothing : (m : Machine) → run m [] ≡ m
unfolding run
run_nothing m = refl

looping_signal : (s : UsbSender) → signal_handler (go looping s) ≡ go looping (stop s)
unfolding signal_handler
looping_signal s = refl

stopped_signals :
    (m : Machine) (n : ℕ) (events : List Event)
    → m.program.running ≡ false
    → run m (replicate n signals ++ events) ≡ run m events
stopped_signals m zero events off = refl
stopped_signals m (suc n) events off =
    run_signal m (replicate n signals ++ events)
    ∙ ap (λ (x : Machine). run x (replicate n signals ++ events)) (signal_handler_lem m off)
    ∙ stopped_signals m n events off

looping_stopped :
    (s : UsbSender) (c : TickCalls) → s.running ≡ false → tick (go looping s) c ≡ go (finishing 0) s
unfolding tick
looping_stopped s c off = ground (arith, off)

finishing_stopped :
    (s : UsbSender) (code : ℕ) (c : TickCalls)
    → s.running ≡ false
    → tick (go (finishing code) s) c ≡ go (gone code) s
unfolding tick
finishing_stopped s code c off = ground (arith, stop_lem s off)

-- A signal in the loop of `Run` of a running sender, and any number of further ones: two ticks later the
-- process is gone with the exit code 0. Its capture, its hotplug monitoring and its socket are stopped,
-- and its list of devices is empty; the URBs that were queued are still in the queue.
pub run-interrupted :
    (s : UsbSender) (n : ℕ) (c d : TickCalls)
    → s.running ≡ true
    → let m = run (go looping s) (signals ∷ replicate n signals ++ (ticks c ∷ ticks d ∷ [])) in
      (m.phase ≡ gone 0) × IsStopped s m.program
run-interrupted s n c d on =
    let w = stop-IsStopped s on in
    let q = stop s in
    let behind = ticks c ∷ ticks d ∷ [] in
    let e =
      run_signal (go looping s) (replicate n signals ++ behind)
      ∙ ap (λ (x : Machine). run x (replicate n signals ++ behind)) (looping_signal s)
      ∙ stopped_signals (go looping q) n behind w.halted
      ∙ run-tick (go looping q) c (ticks d ∷ [])
      ∙ ap (λ (x : Machine). run x (ticks d ∷ [])) (looping_stopped q c w.halted)
      ∙ run-tick (go (finishing 0) q) d []
      ∙ ap (λ (x : Machine). run x []) (finishing_stopped q 0 d w.halted)
      ∙ run_nothing (go (gone 0) q) in
    (ap (λ (m : Machine). m.phase) e, subst (λ (m : Machine). IsStopped s m.program) (sym e) w)
