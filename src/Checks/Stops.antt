-- ===== src/Checks/Stops.antt =====
-- The theorems on the threads that are stopped, at concrete inputs.
use usb_lib.Prelude.{ℕ, ◌+◌, ◌*◌, ◌≤◌, ◌≡◌, ◌≢◌, refl, [], ◌∷◌, ◌++◌, true, false, length}
use usb_lib.Capture.{UrbCapture, urb_capture}
use usb_lib.Capture.Wakeup.{
  about_to_wait, left, absent, joining, stopped, cleared, System, started, notify_all,
  finds_nothing, enters, locks, Step, works, asks, clears, notifies_all, Reach, here, next,
}
use usb_lib.Capture.Wakeup.Leaves.{WorkRun, Reach-leaves}
use usb_lib.Capture.Wakeup.Lost.{stays, notify_all-stuck}
use usb_lib.Client.Connection.Stopping as Stopping
use usb_lib.Client.Connection.Stopping.Once.{Reach-joins_once}
use usb_lib.Checks.{bulk_out}

-- A capture with one URB in its queue, stopped before the processing thread has begun.
abbrev one_queued : UrbCapture
one_queued = record urb_capture { urb_queue = bulk_out ∷ [] }

abbrev asked_at_once : System
asked_at_once = record (started one_queued) {
  capture = record ((started one_queued).capture) { should_stop = true; capturing = false };
  stopper = joining;
}

asked_at_once-Reach : Reach asked_at_once
unfolding notify_all urb_capture
asked_at_once-Reach =
    next (next (next (here one_queued) (asks refl refl)) (clears refl)) (notifies_all refl)

Reach-leaves_example :
    (n : ℕ) × (t : System) × (u : System) × (n ≤ length asked_at_once.capture.urb_queue * 2 + 3)
    × WorkRun asked_at_once n t
    × Step t u
    × (u.stopper ≡ stopped)
    × (u.worker ≡ absent)
    × (asked_at_once.accepted ≡ u.delivered ++ u.capture.urb_queue)
Reach-leaves_example = Reach-leaves asked_at_once-Reach refl refl

-- The processing thread has found the queue empty when the stop begins.
abbrev overtaken : System
overtaken = record (started urb_capture) {
  capture = record ((started urb_capture).capture) { should_stop = true; capturing = false };
  worker = about_to_wait;
  stopper = cleared;
}

overtaken-Reach : Reach overtaken
unfolding urb_capture
overtaken-Reach =
    next
      (next
        (next (next (next (here urb_capture) (works (enters refl refl))) (works (locks refl)))
          (works (finds_nothing refl refl refl)))
        (asks refl refl))
      (clears refl)

notify_all-stuck_example :
    ((notify_all overtaken).stopper ≡ joining) × ((notify_all overtaken).worker ≢ left)
notify_all-stuck_example = notify_all-stuck overtaken-Reach refl refl refl refl stays

-- Thread 1 has come into the join.
abbrev first_joins : Stopping.System
first_joins = record {
  heartbeat_running = false;
  joinable = true;
  pc =
      Stopping.update
        (Stopping.update (Stopping.update (λ _. Stopping.outside) 1 Stopping.tested) 1
          Stopping.cleared)
        1 Stopping.joining;
  raced = false;
}

first_joins-Reach : Stopping.Reach first_joins
first_joins-Reach =
    Stopping.next
      (Stopping.next (Stopping.next Stopping.here (Stopping.finds_running 1 refl refl (λ j e. cc)))
        (Stopping.clears 1 refl))
      (Stopping.finds_joinable 1 refl refl)

Reach-joins_once_example : ◌≡◌ {A = ℕ} 1 1
Reach-joins_once_example = Reach-joins_once first_joins-Reach refl 1 1 refl refl
