-- ===== src/Capture/Thread.antt =====
-- `StartCapture`, `StopCapture`, `InjectUrb`, `ResetStatistics` and `ProcessingThread` of UrbCapture, as
-- steps between which the other threads run. The processing thread gives the queue's mutex back around
-- the counting and the callback.
use usb_lib.Prelude.{List, [], ◌∷◌, ◌++◌, Bool, true, false, ◌≡◌, ◌≢◌}
use usb_lib.Usb.{UsbUrb}
use usb_lib.Capture.{UrbCapture, urb_capture, update_statistics, reset_statistics}

-- `StartCapture` up to the start of the thread, and `StopCapture` up to the join.
abbrev pub begin_capture : UrbCapture → UrbCapture
begin_capture c = record c { should_stop = false; capturing = true }

abbrev pub end_capture : UrbCapture → UrbCapture
end_capture c = record c { should_stop = true; capturing = false }

-- The head of the queue is taken, counted and passed on.
abbrev pub take_one : UrbCapture → UsbUrb → List UsbUrb → UrbCapture
take_one c urb rest = record c { urb_queue = rest; statistics = update_statistics c.statistics urb }

-- Where the processing thread is: it waits on the condition variable, empties the queue, has an URB in
-- hand that is not yet counted, or counted and not yet passed on, has left its loop, or was joined or
-- never started.
pub data Worker : Type 0 where
  absent waiting draining left : Worker
  popped calling : UsbUrb → Worker

-- Where the thread is that calls `StopCapture`.
pub data Stopper : Type 0 where
  idle : Stopper
  asked : Stopper  -- `should_stop_` is set
  joining : Stopper  -- `capturing_` is cleared too

-- The capture and its threads. `entering` has the URBs of the threads that have passed the test of
-- `capturing_` and not yet pushed. The rest is history: what was pushed, what the callback got, and what
-- was counted before and since the last reset, all in order.
pub record System : Type 0 where
  pub capture : UrbCapture
  pub worker : Worker
  pub stopper : Stopper
  pub entering : List UsbUrb
  pub accepted : List UsbUrb
  pub delivered : List UsbUrb
  pub before_reset : List UsbUrb
  pub since_reset : List UsbUrb

abbrev pub initial : System
initial = record {
  capture = urb_capture;
  worker = absent;
  stopper = idle;
  entering = [];
  accepted = [];
  delivered = [];
  before_reset = [];
  since_reset = [];
}

unfoldable pub is_draining : Worker → Bool
is_draining draining = true
is_draining w = false

-- An URB that finds `capturing_` cleared changes nothing. A start needs the old thread joined, since an
-- assignment to it would terminate the process.
pub data Step (s : System) : System → Type 0 where
  tests :
      (urb : UsbUrb)
      → s.capture.capturing ≡ true
      → Step s (record s { entering = urb ∷ s.entering })
  pushes :
      (before : List UsbUrb) (urb : UsbUrb) (behind : List UsbUrb)
      → s.entering ≡ before ++ (urb ∷ behind)
      → is_draining s.worker ≡ false
      → Step s (record s {
        capture = record (s.capture) { urb_queue = s.capture.urb_queue ++ (urb ∷ []) };
        entering = before ++ behind;
        accepted = s.accepted ++ (urb ∷ []);
      })
  starts :
      s.capture.capturing ≡ false
      → s.stopper ≡ idle
      → s.worker ≡ absent
      → Step s (record s { capture = begin_capture s.capture; worker = waiting })
  asks :
      s.capture.capturing ≡ true
      → s.stopper ≡ idle
      → Step s (record s { capture = record (s.capture) { should_stop = true }; stopper = asked })
  clears :
      s.stopper ≡ asked
      → Step s (record s { capture = record (s.capture) { capturing = false }; stopper = joining })
  joins :
      s.stopper ≡ joining → s.worker ≡ left → Step s (record s { worker = absent; stopper = idle })
  resets : Step s (record s {
    capture = reset_statistics s.capture;
    before_reset = s.before_reset ++ s.since_reset;
    since_reset = [];
  })
  wakes :
      s.worker ≡ waiting
      → s.capture.should_stop ≡ false
      → s.capture.urb_queue ≢ []
      → Step s (record s { worker = draining })
  pops :
      (urb : UsbUrb) (rest : List UsbUrb)
      → s.worker ≡ draining
      → s.capture.urb_queue ≡ urb ∷ rest
      → Step s (record s { capture = record (s.capture) { urb_queue = rest }; worker = popped urb })
  counts :
      (urb : UsbUrb)
      → s.worker ≡ popped urb
      → Step s (record s {
        capture = record (s.capture) { statistics = update_statistics s.capture.statistics urb };
        worker = calling urb;
        since_reset = s.since_reset ++ (urb ∷ []);
      })
  calls :
      (urb : UsbUrb)
      → s.worker ≡ calling urb
      → Step s (record s { worker = draining; delivered = s.delivered ++ (urb ∷ []) })
  runs_dry : s.worker ≡ draining → s.capture.urb_queue ≡ [] → Step s (record s { worker = waiting })
  leaves : s.worker ≡ waiting → s.capture.should_stop ≡ true → Step s (record s { worker = left })

pub data Reach : System → Type 0 where
  here : Reach initial
  next : {s t : System} → Reach s → Step s t → Reach t
