-- ===== src/Capture/Wakeup/Ordered.antt =====
-- What holds between the processing thread and `StopCapture` at every step.
use usb_lib.Prelude.{◌≡◌, ◌≢◌, refl, sym, ap, ◌∙◌, Bool, true, false, arith}
use usb_lib.Capture.Wakeup.{
  cleared, WorkerPc, about_to_wait, blocked, absent, idle, joining, stopped, System, notify,
  notify_all, is_about_to_wait, Work, enters, ends, locks, finds_nothing, finds_urb, finds_stop,
  blocks, relocks, breaks, goes_on, takes, returns, runs_dry, Step, works, tests, pushes, notifies,
  asks, clears, notifies_all, joins, Reach, here, next, wakes_by_itself,
}

unfoldable pub is_waiting : WorkerPc → Bool
is_waiting about_to_wait = true
is_waiting blocked = true
is_waiting w = false

-- The flag is set as soon as the stop has begun, and `capturing_` is cleared before the notification.
-- Behind it only a thread that missed it waits, and only the join takes the thread away.
pub record IsOrdered (s : System) : Type 0 where
  pub flag_set : s.stopper ≢ idle → s.capture.should_stop ≡ true
  pub only_missed : s.stopper ≡ joining → is_waiting s.worker ≡ true → s.missed ≡ true
  pub there : s.worker ≡ absent → s.stopper ≡ stopped
  pub shut : s.stopper ≡ cleared → s.capture.capturing ≡ false

-- A step of the processing thread that neither waits nor goes away.
moved :
    {s t : System}
    → IsOrdered s
    → t.stopper ≡ s.stopper
    → t.capture.should_stop ≡ s.capture.should_stop
    → t.capture.capturing ≡ s.capture.capturing
    → is_waiting t.worker ≡ false
    → t.worker ≢ absent
    → IsOrdered t
moved v same flag open_same active present = record {
  flag_set = λ busy. flag ∙ v.flag_set (λ e. busy (same ∙ e));
  only_missed = λ j w. absurd cc;
  there = λ gone. absurd (present gone);
  shut = λ c. open_same ∙ v.shut (sym same ∙ c);
}

-- A step that changes neither thread's place nor the flag, nor the history.
kept :
    {s t : System}
    → IsOrdered s
    → t.stopper ≡ s.stopper
    → t.capture.should_stop ≡ s.capture.should_stop
    → t.capture.capturing ≡ s.capture.capturing
    → t.worker ≡ s.worker
    → t.missed ≡ s.missed
    → IsOrdered t
kept v same flag open_same place history = record {
  flag_set = λ busy. flag ∙ v.flag_set (λ e. busy (same ∙ e));
  only_missed = λ j w. history ∙ v.only_missed (sym same ∙ j) (ap is_waiting (sym place) ∙ w);
  there = λ gone. same ∙ v.there (sym place ∙ gone);
  shut = λ c. open_same ∙ v.shut (sym same ∙ c);
}

Work-IsOrdered : {s t : System} → Work s t → IsOrdered s → IsOrdered t
unfolding is_waiting
Work-IsOrdered (enters w go) v = moved v refl refl refl refl (λ e. cc)
Work-IsOrdered (ends w stop) v = moved v refl refl refl refl (λ e. cc)
Work-IsOrdered (locks w) v = moved v refl refl refl refl (λ e. cc)
Work-IsOrdered (finds_nothing w q go) v = record {
  flag_set = v.flag_set;
  only_missed = λ j _. absurd (let stop = v.flag_set (λ e. cc) in cc);
  there = λ e. absurd cc;
  shut = v.shut;
}
Work-IsOrdered (finds_urb w q) v = moved v refl refl refl refl (λ e. cc)
Work-IsOrdered (finds_stop w stop) v = moved v refl refl refl refl (λ e. cc)
Work-IsOrdered (blocks w) v = record {
  flag_set = v.flag_set;
  only_missed = λ j _. v.only_missed j (ap is_waiting w);
  there = λ e. absurd cc;
  shut = v.shut;
}
Work-IsOrdered (relocks w) v = moved v refl refl refl refl (λ e. cc)
Work-IsOrdered (breaks w stop) v = moved v refl refl refl refl (λ e. cc)
Work-IsOrdered (goes_on w go) v = moved v refl refl refl refl (λ e. cc)
Work-IsOrdered (takes urb rest w q) v = moved v refl refl refl refl (λ e. cc)
Work-IsOrdered (returns w) v = moved v refl refl refl refl (λ e. cc)
Work-IsOrdered (runs_dry w q) v = moved v refl refl refl refl (λ e. cc)

-- A notification leaves no thread blocked, and only one that is about to wait still comes to wait.
notify_waiting : (w : WorkerPc) → is_waiting (notify w) ≡ is_about_to_wait w
unfolding is_waiting notify is_about_to_wait
notify_waiting w = ground arith

notify_cases :
    (w : WorkerPc)
    → (is_waiting (notify w) ≡ true → is_waiting w ≡ true) × (notify w ≡ absent → w ≡ absent)
unfolding is_waiting notify
notify_cases w = ground arith

Step-IsOrdered : {s t : System} → Step s t → IsOrdered s → IsOrdered t
unfolding notify_all
Step-IsOrdered (works w) v = Work-IsOrdered w v
Step-IsOrdered (tests urb on) v = kept v refl refl refl refl refl
Step-IsOrdered (pushes before urb behind e free) v = kept v refl refl refl refl refl
Step-IsOrdered {s} (notifies n e) v = record {
  flag_set = v.flag_set;
  only_missed = λ j w. v.only_missed j ((notify_cases s.worker).0 w);
  there = λ gone. v.there ((notify_cases s.worker).1 gone);
  shut = v.shut;
}
Step-IsOrdered {s} (asks i on) v = record {
  flag_set = λ _. refl;
  only_missed = λ j w. absurd cc;
  there = λ gone. absurd (let e = v.there gone in cc);
  shut = λ c. absurd cc;
}
Step-IsOrdered (clears a) v = record {
  flag_set = λ _. v.flag_set (λ e. cc);
  only_missed = λ j w. absurd cc;
  there = λ gone. absurd (let e = v.there gone in cc);
  shut = λ _. refl;
}
Step-IsOrdered {s} (notifies_all c) v = record {
  flag_set = λ _. v.flag_set (λ e. cc);
  only_missed = λ _ w. sym (notify_waiting s.worker) ∙ w;
  there = λ gone. absurd (let e = v.there ((notify_cases s.worker).1 gone) in cc);
  shut = λ c. absurd cc;
}
Step-IsOrdered (joins j l) v = record {
  flag_set = λ _. v.flag_set (λ e. cc);
  only_missed = λ j' w. absurd cc;
  there = λ _. refl;
  shut = λ c. absurd cc;
}

pub Reach-IsOrdered : {s : System} → Reach s → IsOrdered s
unfolding is_waiting
Reach-IsOrdered (here c) = record {
  flag_set = λ busy. absurd (busy refl);
  only_missed = λ j w. absurd cc;
  there = λ e. absurd cc;
  shut = λ e. absurd cc;
}
Reach-IsOrdered (next r st) = Step-IsOrdered st (Reach-IsOrdered r)
Reach-IsOrdered (wakes_by_itself r b) = moved (Reach-IsOrdered r) refl refl refl refl (λ e. cc)
