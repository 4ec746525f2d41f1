-- ===== src/Capture/Wakeup.antt =====
-- `ProcessingThread` and `StopCapture` of UrbCapture in the steps between which the other threads run:
-- each load and store of a flag, the test of the wait's predicate, the wait itself and each notification
-- is a step of its own. The threads that bring URBs are any number.
pub mod Ordered
pub mod Kept
pub mod Leaves
pub mod Lost
use usb_lib.Prelude.{ℕ, zero, suc, ◌+◌, List, [], ◌∷◌, ◌++◌, Bool, true, false, ◌≡◌, ◌≢◌}
use usb_lib.Usb.{UsbUrb}
use usb_lib.Capture.{UrbCapture, urb_capture}
use usb_lib.Capture.Thread.{begin_capture, take_one}

-- Where the processing thread is. It has the queue's mutex from `testing` to `about_to_wait`, in
-- `tested` and in `draining`.
pub data WorkerPc : Type 0 where
  at_head : WorkerPc  -- before the test of the outer loop
  locking : WorkerPc  -- before the lock
  testing : WorkerPc  -- before the predicate
  about_to_wait : WorkerPc  -- the predicate was false, and the wait has not begun
  blocked : WorkerPc  -- among the threads that the next notification wakes
  woken : WorkerPc  -- before it has the mutex back
  tested : WorkerPc  -- behind the wait
  draining : WorkerPc  -- before the test of the inner loop
  calling : WorkerPc  -- in the callback
  left : WorkerPc  -- behind the outer loop
  absent : WorkerPc  -- joined

-- Where the thread is that calls `StopCapture`.
pub data StopperPc : Type 0 where
  idle : StopperPc  -- has not called it
  asked : StopperPc  -- `should_stop_` is set
  cleared : StopperPc  -- `capturing_` is cleared
  joining : StopperPc  -- behind `notify_all`
  stopped : StopperPc  -- the join has returned

-- `entering` has the URBs of the threads that have passed the test of `capturing_` and not yet pushed,
-- `notifying` is the number of those that have pushed and not yet notified. `missed` is history: whether
-- `notify_all` came between the predicate and the wait, the URBs that were in the queue or pushed since
-- the start, and those that the callback got, both in order.
pub record System : Type 0 where
  pub capture : UrbCapture
  pub worker : WorkerPc
  pub stopper : StopperPc
  pub entering : List UsbUrb
  pub notifying : ℕ
  pub missed : Bool
  pub accepted : List UsbUrb
  pub delivered : List UsbUrb

-- `StartCapture` has returned, with what an earlier capture left in the queue.
abbrev pub started : UrbCapture → System
started c = record {
  capture = begin_capture c;
  worker = at_head;
  stopper = idle;
  entering = [];
  notifying = 0;
  missed = false;
  accepted = c.urb_queue;
  delivered = [];
}

unfoldable pub has_mutex : WorkerPc → Bool
has_mutex testing = true
has_mutex about_to_wait = true
has_mutex tested = true
has_mutex draining = true
has_mutex w = false

-- What a notification makes of the processing thread, which is the only one that ever waits.
unfoldable pub notify : WorkerPc → WorkerPc
notify blocked = woken
notify w = w

unfoldable pub is_about_to_wait : WorkerPc → Bool
is_about_to_wait about_to_wait = true
is_about_to_wait w = false

abbrev pub at : System → WorkerPc → System
at s w = record s { worker = w }

abbrev push : UrbCapture → UsbUrb → UrbCapture
push c urb = record c { urb_queue = c.urb_queue ++ (urb ∷ []) }

-- The `notify_all` of `StopCapture`.
unfoldable pub notify_all : System → System
unfolding notify is_about_to_wait
notify_all s = record s {
  worker = notify s.worker;
  stopper = joining;
  missed = is_about_to_wait s.worker;
}

-- A step of the processing thread.
pub data Work (s : System) : System → Type 0 where
  enters : s.worker ≡ at_head → s.capture.should_stop ≡ false → Work s (at s locking)
  ends : s.worker ≡ at_head → s.capture.should_stop ≡ true → Work s (at s left)
  locks : s.worker ≡ locking → Work s (at s testing)
  finds_nothing :
      s.worker ≡ testing
      → s.capture.urb_queue ≡ []
      → s.capture.should_stop ≡ false
      → Work s (at s about_to_wait)
  finds_urb : s.worker ≡ testing → s.capture.urb_queue ≢ [] → Work s (at s tested)
  finds_stop : s.worker ≡ testing → s.capture.should_stop ≡ true → Work s (at s tested)
  blocks : s.worker ≡ about_to_wait → Work s (at s blocked)
  relocks : s.worker ≡ woken → Work s (at s testing)
  breaks : s.worker ≡ tested → s.capture.should_stop ≡ true → Work s (at s left)
  goes_on : s.worker ≡ tested → s.capture.should_stop ≡ false → Work s (at s draining)
  takes :
      (urb : UsbUrb) (rest : List UsbUrb)
      → s.worker ≡ draining
      → s.capture.urb_queue ≡ urb ∷ rest
      → Work s (record s {
        capture = take_one s.capture urb rest;
        worker = calling;
        delivered = s.delivered ++ (urb ∷ []);
      })
  returns : s.worker ≡ calling → Work s (at s draining)
  runs_dry : s.worker ≡ draining → s.capture.urb_queue ≡ [] → Work s (at s at_head)

-- A step of any thread. A URB that finds `capturing_` cleared changes nothing.
pub data Step (s : System) : System → Type 0 where
  works : {t : System} → Work s t → Step s t
  tests :
      (urb : UsbUrb)
      → s.capture.capturing ≡ true
      → Step s (record s { entering = urb ∷ s.entering })
  pushes :
      (before : List UsbUrb) (urb : UsbUrb) (behind : List UsbUrb)
      → s.entering ≡ before ++ (urb ∷ behind)
      → has_mutex s.worker ≡ false
      → Step s (record s {
        capture = push s.capture urb;
        entering = before ++ behind;
        notifying = s.notifying + 1;
        accepted = s.accepted ++ (urb ∷ []);
      })
  notifies :
      (n : ℕ) → s.notifying ≡ suc n → Step s (record s { worker = notify s.worker; notifying = n })
  asks :
      s.stopper ≡ idle
      → s.capture.capturing ≡ true
      → Step s (record s { capture = record (s.capture) { should_stop = true }; stopper = asked })
  clears :
      s.stopper ≡ asked
      → Step s (record s { capture = record (s.capture) { capturing = false }; stopper = cleared })
  notifies_all : s.stopper ≡ cleared → Step s (notify_all s)
  joins :
      s.stopper ≡ joining
      → s.worker ≡ left
      → Step s (record s { worker = absent; stopper = stopped })

-- A wait may also end by itself.
pub data Reach : System → Type 0 where
  here : (c : UrbCapture) → Reach (started c)
  next : {s t : System} → Reach s → Step s t → Reach t
  wakes_by_itself : {s : System} → Reach s → s.worker ≡ blocked → Reach (at s woken)
